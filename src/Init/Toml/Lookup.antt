-- ===== src/Init/Toml/Lookup.antt =====
-- The lookups of src/luna-init/toml.c in a parsed document.
use mahina_os.Init.Toml.{
  Error, invalid, overflow, not_found, type_mismatch, unsupported, io, too_large, Parsed, ok, err,
  max_key_len, max_section_len, Value, Entry, ArrayTable, Doc,
}
use mahina_os.Init.Toml.Text.{strn_eq}
use mahina_os.Prelude.{
  ℕ, ◌+◌, Bool, true, false, ◌&&◌, List, [], ◌∷◌, ◌++◌, Option, none, some, ◌==◌, ltb,
  if◌then◌else◌, length, CString, codes,
}

-- array_table_index < 0
abbrev pub is_plain : Entry → Bool
is_plain e = elim e.array_table_index [ none ↦ true | some i ↦ false ]

abbrev pub is_entry : Option ℕ → ℕ → Bool
is_entry none index = false
is_entry (some i) index = i == index

abbrev pub in_section : CString → Entry → Bool
in_section section e = strn_eq e.section section max_section_len

abbrev pub has_key : CString → Entry → Bool
has_key key e = strn_eq e.key key max_key_len

-- The loop of toml_get.
unfoldable pub get_loop : List Entry → CString → CString → Parsed Value
get_loop [] section key = err not_found
get_loop (e ∷ es) section key =
    let later = get_loop es section key in
    if is_plain e && in_section section e && has_key key e then ok e.value else later

-- toml_get, with the section "" for a null pointer.
unfoldable pub get : Doc → CString → CString → Parsed Value
unfolding get_loop
get doc section key = get_loop doc.entries section key

-- toml_get_nested.
unfoldable pub get_nested : Doc → CString → CString → CString → Parsed Value
unfolding get
get_nested doc parent child key =
    let combined = parent ++ b'.' ∷ child in
    if ltb (length combined) max_section_len then get doc combined key else err overflow

-- toml_array_table_count.
unfoldable pub count_loop : List ArrayTable → CString → ℕ
count_loop [] section = 0
count_loop (t ∷ ts) section =
    if strn_eq t.name section max_section_len then t.count else count_loop ts section

unfoldable pub array_table_count : Doc → CString → ℕ
unfolding count_loop
array_table_count doc section = count_loop doc.array_tables section

-- toml_array_table_get at an index that is not negative.
unfoldable pub table_loop : List Entry → CString → ℕ → CString → Parsed Value
table_loop [] section index key = err not_found
table_loop (e ∷ es) section index key =
    let later = table_loop es section index key in
    if is_entry e.array_table_index index && in_section section e && has_key key e
    then ok e.value
    else later

unfoldable pub array_table_get : Doc → CString → ℕ → CString → Parsed Value
unfolding table_loop
array_table_get doc section index key = table_loop doc.entries section index key

-- toml_enumerate_section: the calls of the callback on the userdata, and their number.
unfoldable pub enumerate_loop {ℓ} :
    {S : Type ℓ} → (CString → Value → S → S) → CString → List Entry → ℕ → S → S × ℕ
enumerate_loop callback section [] count userdata = (userdata, count)
enumerate_loop callback section (e ∷ es) count userdata =
    let called = enumerate_loop callback section es (count + 1) (callback e.key e.value userdata) in
    let passed = enumerate_loop callback section es count userdata in
    if is_plain e && in_section section e then called else passed

unfoldable pub enumerate_section {ℓ} :
    {S : Type ℓ} → Doc → CString → (CString → Value → S → S) → S → S × ℕ
unfolding enumerate_loop
enumerate_section doc section callback userdata =
    enumerate_loop callback section doc.entries 0 userdata

-- toml_strerror.
unfoldable pub strerror : Option Error → CString
strerror none = codes "success"
strerror (some invalid) = codes "invalid TOML syntax"
strerror (some overflow) = codes "value exceeds buffer limit"
strerror (some not_found) = codes "key or section not found"
strerror (some type_mismatch) = codes "value type mismatch"
strerror (some unsupported) = codes "unsupported TOML feature"
strerror (some io) = codes "file I/O error"
strerror (some too_large) = codes "document exceeds size limit"
