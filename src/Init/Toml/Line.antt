-- ===== src/Init/Toml/Line.antt =====
-- parse_line of src/luna-init/toml.c, and the table of array-of-tables names that it keeps.
use mahina_os.Init.Toml.{
  invalid, overflow, Parsed, ok, err, ◌>>=◌, ◌>>◌, require, from_option, max_key_len, max_str_len,
  max_section_len, max_entries, max_array_tables, Entry, ArrayTable, Doc, ParseState,
}
use mahina_os.Init.Toml.Text.{trim, copy_bounded, strn_eq, split_at, before_brackets, strip_comment}
use mahina_os.Init.Toml.Values.{parse_value}
use mahina_os.Prelude.{
  ℕ, zero, suc, ◌+◌, ◌*◌, true, false, ◌&&◌, ◌++◌, List, [], ◌∷◌, Option, none, some, ◌==◌, ltb,
  if◌then◌else◌, length, CString,
}

-- toml_find_array_table_index, counted from `i`.
unfoldable pub find_table : ℕ → CString → List ArrayTable → Option ℕ
find_table i name [] = none
find_table i name (t ∷ ts) =
    let later = find_table (suc i) name ts in
    if strn_eq t.name name max_section_len then some i else later

-- The table that was found, or a new one at the end.
abbrev pub or_create : CString → List ArrayTable → Option ℕ → Parsed (ℕ × List ArrayTable)
or_create name tables (some i) = ok (i, tables)
or_create name tables none =
    if ltb (length tables) max_array_tables
    then ok (
      length tables,
      tables ++ (record { name = (copy_bounded max_section_len name).0; count = 0 }) ∷ [],
    )
    else err overflow

-- toml_get_or_create_array_table: the index, and the tables with the name.
unfoldable pub get_or_create : CString → List ArrayTable → Parsed (ℕ × List ArrayTable)
unfolding find_table copy_bounded
get_or_create name tables = or_create name tables (find_table 0 name tables)

-- array_tables[i].count++: the old count, and the tables.
unfoldable pub bump_count : ℕ → List ArrayTable → ℕ × List ArrayTable
bump_count i [] = (0, [])
bump_count zero (t ∷ ts) = (t.count, (record t { count = t.count + 1 }) ∷ ts)
bump_count (suc i) (t ∷ ts) = let (n, rest) = bump_count i ts in (n, t ∷ rest)

-- A header [[name]], from behind its "[[".
unfoldable pub array_header : Doc → CString → Parsed (Doc × ParseState)
unfolding before_brackets copy_bounded get_or_create bump_count
array_header doc rest = do
  name ← from_option (before_brackets rest) invalid
  let (section, fits) = copy_bounded max_section_len name
  require fits overflow
  (i, tables) ← get_or_create name doc.array_tables
  let (n, counted) = bump_count i tables
  ok (
    record doc { array_tables = counted },
    record { cur_section = section; cur_is_array_table = true; cur_array_table_entry = some n },
  )

-- A header [name], from behind its '['.
unfoldable pub section_header : Doc → CString → Parsed (Doc × ParseState)
unfolding split_at copy_bounded
section_header doc rest = do
  (name, tail) ← from_option (split_at b']' rest) invalid
  let (section, fits) = copy_bounded max_section_len name
  require fits overflow
  ok (
    doc,
    record { cur_section = section; cur_is_array_table = false; cur_array_table_entry = none },
  )

-- The text of the value: trimmed, without its comment, trimmed again.
unfoldable pub value_text : CString → CString
unfolding trim strip_comment
value_text raw = trim (strip_comment false (trim raw))

-- A line key = value.
unfoldable pub key_value : Doc → ParseState → CString → Parsed (Doc × ParseState)
unfolding split_at copy_bounded value_text trim parse_value
key_value doc state line = do
  (before, after) ← from_option (split_at b'=' line) invalid
  let (key, key_fits) = copy_bounded max_key_len before
  require key_fits overflow
  let (raw_val, value_fits) = copy_bounded (max_str_len * 2) after
  require value_fits overflow
  require (ltb (length doc.entries) max_entries) overflow
  let (section, section_fits) = copy_bounded max_section_len state.cur_section
  require section_fits overflow
  let (name, name_fits) = copy_bounded max_key_len (trim key)
  require name_fits overflow
  value ← parse_value (value_text raw_val)
  let entry : Entry = record {
    section = section;
    key = name;
    value = value;
    array_table_index = if state.cur_is_array_table then state.cur_array_table_entry else none;
  }
  ok (record doc { entries = doc.entries ++ entry ∷ [] }, state)

-- A trimmed line by its first bytes.
unfoldable pub dispatch : Doc → ParseState → CString → Parsed (Doc × ParseState)
unfolding array_header section_header key_value
dispatch doc state [] = ok (doc, state)
dispatch doc state (c ∷ []) =
    if c == b'#'
    then ok (doc, state)
    else if c == b'['
    then section_header doc []
    else key_value doc state (c ∷ [])
dispatch doc state (c ∷ d ∷ rest) =
    if c == b'#'
    then ok (doc, state)
    else if c == b'[' && d == b'['
    then array_header doc rest
    else if c == b'['
    then section_header doc (d ∷ rest)
    else key_value doc state (c ∷ d ∷ rest)

-- parse_line.
unfoldable pub parse_line : Doc → ParseState → CString → Parsed (Doc × ParseState)
unfolding dispatch trim
parse_line doc state line = dispatch doc state (trim line)
