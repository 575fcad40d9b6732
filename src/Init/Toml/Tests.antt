-- ===== src/Init/Toml/Tests.antt =====
-- Runs of the parser of src/luna-init/toml.c on small inputs.
use mahina_os.Init.Toml.{
  not_found, unsupported, Parsed, ok, err, ◌>>=◌, Value, string, integer, boolean, array,
}
use mahina_os.Init.Toml.Text.{trim, strn_eq}
use mahina_os.Init.Toml.Values.{parse_value}
use mahina_os.Init.Toml.Load.{load_buffer}
use mahina_os.Init.Toml.Lookup.{get, array_table_count, array_table_get}
use mahina_os.Init.Toml.{from_option}
use mahina_os.Init.Toml.Values.{string_value}
use mahina_os.Init.Toml.Safe.{Ensures}
use mahina_os.Init.Toml.Bounded.{IsValid, load_buffer-IsValid}
use mahina_os.Init.Toml.Print.{
  escaped, pair_line, config_text, config_entries, config_value, Section, WritableConfig,
}
use mahina_os.Init.Toml.Strings.{string_value-escaped}
use mahina_os.Init.Toml.RoundTrip.{load_buffer-config_text, get-load_buffer}
use mahina_os.Prelude.{arith, List, length, ◌≡◌, refl, true, [], ◌∷◌, CString, codes, pos, negsuc}

trimmed : trim (codes "  a b\t ") ≡ codes "a b"
unfolding trim
trimmed = refl

strings : parse_value (codes "\"a\\\"b\" trailing") ≡ ok (string (codes "a\"b"))
unfolding parse_value
strings = refl

arrays : parse_value (codes "[\"a\", \"b\"]") ≡ ok (array (codes "a" ∷ codes "b" ∷ []))
unfolding parse_value
arrays = refl

integers : parse_value (codes "-42") ≡ ok (integer (negsuc 41))
unfolding parse_value
integers = refl

trueish : parse_value (codes "trueish") ≡ err unsupported
unfolding parse_value
trueish = refl

abbrev sample : CString
sample =
    codes
      "# a comment\n[service]\nname = \"dbus\" # the bus\r\nn = 5000\n[[mount]]\ntarget = \"/\"\n[[mount]]\ntarget = \"/tmp\"\n"

abbrev lookup_sample : CString → CString → Parsed Value
lookup_sample s k = load_buffer true sample >>= λ d. get d s k

name_of_sample : lookup_sample (codes "service") (codes "name") ≡ ok (string (codes "dbus"))
unfolding load_buffer get strn_eq
name_of_sample = refl

n_of_sample : lookup_sample (codes "service") (codes "n") ≡ ok (integer (pos 5000))
unfolding load_buffer get strn_eq
n_of_sample = refl

second_mount :
    (load_buffer true sample >>= λ d. array_table_get d (codes "mount") 1 (codes "target"))
    ≡ ok (string (codes "/tmp"))
unfolding load_buffer array_table_get strn_eq
second_mount = refl

mounts : (load_buffer true sample >>= λ d. ok (array_table_count d (codes "mount"))) ≡ ok 2
unfolding load_buffer array_table_count strn_eq
mounts = refl

load_buffer-IsValid_example : Ensures IsValid (load_buffer true sample)
load_buffer-IsValid_example = load_buffer-IsValid true sample

string_value-escaped_example :
    string_value (b'"' ∷ escaped (codes "a\"b\\c") (codes " # d")) ≡ ok (codes "a\"b\\c")
string_value-escaped_example =
    string_value-escaped (codes "a\"b\\c") (codes " # d") (omega arith) (omega arith)

-- A section with a value of each type.
abbrev two_sections : List Section
two_sections =
    (record {
      name = codes "service";
      pairs =
          (codes "name", string (codes "x#y"))
          ∷ (codes "n", integer (negsuc 41))
          ∷ (codes "on", boolean true)
          ∷ [];
    })
    ∷ (record { name = codes "a.b"; pairs = (codes "l", array (codes "u" ∷ codes "v" ∷ [])) ∷ [] })
    ∷ []

two_sections-Writable : WritableConfig two_sections
unfolding pair_line
two_sections-Writable = ground arith

two_sections-length : length (config_text two_sections) ≡ 62
unfolding config_text
two_sections-length = refl

load_buffer-config_text_example :
    load_buffer true (config_text two_sections)
    ≡ ok (record { entries = config_entries two_sections; array_tables = [] })
load_buffer-config_text_example =
    load_buffer-config_text two_sections two_sections-Writable (omega arith)
      (omega (arith, two_sections-length)) (omega (arith, two_sections-length))

get-load_buffer_example :
    (load_buffer true (config_text two_sections) >>= λ doc. get doc (codes "a.b") (codes "l"))
    ≡ from_option (config_value two_sections (codes "a.b") (codes "l")) not_found
get-load_buffer_example =
    get-load_buffer two_sections (codes "a.b") (codes "l") two_sections-Writable (omega arith)
      (omega (arith, two_sections-length)) (omega (arith, two_sections-length)) (omega arith)
      (omega arith)
