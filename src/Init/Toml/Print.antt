-- ===== src/Init/Toml/Print.antt =====
-- The text of a configuration in the subset of src/luna-init/toml.h, and when it can be read back.
use mahina_os.Init.Toml.{Value, string, integer, boolean, array, Entry}
use mahina_os.Prelude.{
  ℕ, zero, suc, ◌+◌, ◌/◌, ◌%◌, ◌^◌, ◌≡◌, ◌≢◌, ◌≤◌, ◌<◌, Bool, true, false, ◌&&◌, ◌||◌, List, [],
  ◌∷◌, ◌++◌, Option, none, some, ◌==◌, ltb, leb, if◌then◌else◌, length, CString, codes, str_eq, ℤ,
  pos, negsuc,
}

-- A string behind its opening quote, with its quotes escaped, and `rest` behind the closing one.
unfoldable pub escaped : CString → CString → CString
escaped [] rest = b'"' ∷ rest
escaped (c ∷ s) rest =
    let text = escaped s rest in if c == b'"' then b'\\' ∷ b'"' ∷ text else c ∷ text

-- The items of an array behind the first, and the array.
unfoldable pub more_items : List CString → CString
unfolding escaped
more_items [] = b']' ∷ []
more_items (s ∷ l) = b',' ∷ b' ' ∷ b'"' ∷ escaped s (more_items l)

unfoldable pub array_text : List CString → CString
unfolding more_items
array_text [] = b'[' ∷ b']' ∷ []
array_text (s ∷ l) = b'[' ∷ b'"' ∷ escaped s (more_items l)

-- The decimal digits of `n` in front of `rest`, for `n` below the fuel.
unfoldable pub decimal : ℕ → ℕ → CString → CString
decimal zero n rest = rest
decimal (suc fuel) n rest =
    let longer = decimal fuel (n / 10) ((b'0' + n % 10) ∷ rest) in
    if ltb n 10 then (b'0' + n) ∷ rest else longer

unfoldable pub integer_text : ℤ → CString
unfolding decimal
integer_text (pos n) = decimal (suc n) n []
integer_text (negsuc n) = b'-' ∷ decimal (suc (suc n)) (suc n) []

unfoldable pub value_text_of : Value → CString
unfolding integer_text array_text
value_text_of (string s) = b'"' ∷ escaped s []
value_text_of (integer n) = integer_text n
value_text_of (boolean true) = codes "true"
value_text_of (boolean false) = codes "false"
value_text_of (array l) = array_text l

-- A section with its pairs of key and value.
pub record Section : Type 0 where
  pub name : CString
  pub pairs : List (CString × Value)

unfoldable pub pair_line : CString → Value → CString
unfolding value_text_of
pair_line key value = key ++ b' ' ∷ b'=' ∷ b' ' ∷ value_text_of value

unfoldable pub pairs_text : List (CString × Value) → CString → CString
unfolding pair_line
pairs_text [] rest = rest
pairs_text ((key, value) ∷ pairs) rest = pair_line key value ++ b'\n' ∷ pairs_text pairs rest

unfoldable pub header_line : CString → CString
header_line name = b'[' ∷ (name ++ b']' ∷ [])

-- The text of the sections, one after the other.
unfoldable pub config_text : List Section → CString
unfolding pairs_text header_line
config_text [] = []
config_text (s ∷ sections) = header_line s.name ++ b'\n' ∷ pairs_text s.pairs (config_text sections)

-- A byte of a bare key, of a section name, and of a text that needs no escape.
abbrev pub is_bare : ℕ → Bool
is_bare c =
    (leb b'a' c && leb c b'z')
    || (leb b'A' c && leb c b'Z')
    || (leb b'0' c && leb c b'9')
    || c == b'_'
    || c == b'-'

abbrev pub is_dotted : ℕ → Bool
is_dotted c = is_bare c || c == b'.'

abbrev pub Each : (ℕ → Type 0) → CString → Type 0
Each P [] = Unit {0}
Each P (c ∷ s) = P c × Each P s

abbrev pub Plain : ℕ → Type 0
Plain c = (c ≢ 0) × (c ≢ b'\n') × (c ≢ b'"') × (c ≢ b'\\')

abbrev pub AllPlain : List CString → Type 0
AllPlain [] = Unit {0}
AllPlain (s ∷ l) = Each Plain s × (length s < 256) × AllPlain l

-- A value that can be written: plain strings that fit, and an int64_t.
abbrev pub Writable : Value → Type 0
Writable (string s) = Each Plain s × (length s < 256)
Writable (integer (pos n)) = n < 2 ^ 63
Writable (integer (negsuc n)) = n < 2 ^ 63
Writable (boolean b) = Unit {0}
Writable (array l) = (length l ≤ 16) × AllPlain l

-- A line `key = value` that fits the buffers of the parser.
abbrev pub WritablePair : CString → Value → Type 0
WritablePair key value =
    (key ≢ [])
    × Each (λ c. is_bare c ≡ true) key
    × (length key < 63)
    × Writable value
    × (length (pair_line key value) < 512)

abbrev pub WritablePairs : List (CString × Value) → Type 0
WritablePairs [] = Unit {0}
WritablePairs ((key, value) ∷ pairs) = WritablePair key value × WritablePairs pairs

abbrev pub WritableConfig : List Section → Type 0
WritableConfig [] = Unit {0}
WritableConfig (s ∷ sections) =
    Each (λ c. is_dotted c ≡ true) s.name
    × (length s.name < 64)
    × WritablePairs s.pairs
    × WritableConfig sections

-- The entries of the sections.
abbrev pub pair_entries : CString → List (CString × Value) → List Entry
pair_entries name [] = []
pair_entries name ((key, value) ∷ pairs) =
    (record { section = name; key = key; value = value; array_table_index = none })
    ∷ pair_entries name pairs

abbrev pub config_entries : List Section → List Entry
config_entries [] = []
config_entries (s ∷ sections) = pair_entries s.name s.pairs ++ config_entries sections

-- The first value of a key in the sections of a name.
abbrev pub or_else : Option Value → Option Value → Option Value
or_else none later = later
or_else (some v) later = some v

abbrev pub pair_value : List (CString × Value) → CString → Option Value
pair_value [] key = none
pair_value ((k, value) ∷ pairs) key = if str_eq k key then some value else pair_value pairs key

abbrev pub config_value : List Section → CString → CString → Option Value
config_value [] section key = none
config_value (s ∷ sections) section key =
    or_else (if str_eq s.name section then pair_value s.pairs key else none)
      (config_value sections section key)
