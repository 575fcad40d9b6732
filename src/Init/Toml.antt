-- ===== src/Init/Toml.antt =====
-- The types and limits of src/luna-init/toml.h and toml.c. The children Text, Values, Line, Load and
-- Lookup hold the parser and the lookups, the others what is proved of them.
pub mod Text
pub mod Values
pub mod Line
pub mod Load
pub mod Lookup
pub mod Steps
pub mod Quotes
pub mod Safe
pub mod Tables
pub mod Valid
pub mod Bounded
pub mod Print
pub mod Strings
pub mod ReadValue
pub mod Tidy
pub mod ReadLine
pub mod RoundTrip
pub mod Tests
use mahina_os.Prelude.{ℕ, Bool, true, false, List, [], Option, none, some, CString, ℤ}

-- toml_error_t without TOML_OK.
pub data Error : Type 0 where
  invalid overflow not_found type_mismatch unsupported io too_large : Error

-- What a function that returns a toml_error_t leaves: a result, an error, or `fault` for a read past
-- the terminator of a string, which C leaves undefined.
pub data Parsed {ℓ} (R : Type ℓ) : Type ℓ where
  fault : Parsed R
  err : Error → Parsed R
  ok : R → Parsed R

-- What follows a step that may return early.
infixl 5 ◌>>=◌
abbrev pub ◌>>=◌ {ℓ κ} : {R : Type ℓ} {S : Type κ} → Parsed R → (R → Parsed S) → Parsed S
fault >>= rest = fault
err code >>= rest = err code
ok value >>= rest = rest value

infixl 5 ◌>>◌
abbrev pub ◌>>◌ {ℓ} : {S : Type ℓ} → Parsed (Unit {0}) → Parsed S → Parsed S
check >> rest = check >>= (λ done. rest)

-- if (!test) return code;
abbrev pub require : Bool → Error → Parsed (Unit {0})
require false code = err code
require true code = ok tt

abbrev pub from_option {ℓ} : {A : Type ℓ} → Option A → Error → Parsed A
from_option (some a) e = ok a
from_option none e = err e

-- TOML_MAX_KEY_LEN, TOML_MAX_STR_LEN, TOML_MAX_SECTION_LEN, TOML_MAX_ARRAY_ITEMS,
-- TOML_MAX_ENTRIES, TOML_MAX_ARRAY_TABLES, TOML_MAX_LINE_LEN and TOML_MAX_DOC_BYTES.
abbrev pub max_key_len : ℕ
max_key_len = 64

abbrev pub max_str_len : ℕ
max_str_len = 256

abbrev pub max_section_len : ℕ
max_section_len = 64

abbrev pub max_array_items : ℕ
max_array_items = 16

abbrev pub max_entries : ℕ
max_entries = 128

abbrev pub max_array_tables : ℕ
max_array_tables = 32

abbrev pub max_line_len : ℕ
max_line_len = 512

abbrev pub max_doc_bytes : ℕ
max_doc_bytes = 65536

-- toml_value_t: the type and the member of the union that it selects.
pub data Value : Type 0 where
  string : CString → Value
  integer : ℤ → Value
  boolean : Bool → Value
  array : List CString → Value

-- toml_entry_t. `none` is the array_table_index -1.
pub record Entry : Type 0 where
  pub section : CString
  pub key : CString
  pub value : Value
  pub array_table_index : Option ℕ

-- One of the array_tables. `count` is an int: a document of 64 KB has fewer headers than 2^31.
pub record ArrayTable : Type 0 where
  pub name : CString
  pub count : ℕ

-- struct toml_doc: the first entry_count entries and array_table_count tables.
pub record Doc : Type 0 where
  pub entries : List Entry
  pub array_tables : List ArrayTable

-- parse_state_t. `none` is the cur_array_table_entry -1.
pub record ParseState : Type 0 where
  pub cur_section : CString
  pub cur_is_array_table : Bool
  pub cur_array_table_entry : Option ℕ

abbrev pub empty_doc : Doc
empty_doc = record { entries = []; array_tables = [] }

abbrev pub initial_state : ParseState
initial_state = record {
  cur_section = [];
  cur_is_array_table = false;
  cur_array_table_entry = none;
}
