-- ===== src/Init/Toml/Values.antt =====
-- parse_string_value, parse_array_value and parse_value of src/luna-init/toml.c.
use mahina_os.Init.Toml.{
  invalid, overflow, unsupported, Parsed, ok, err, fault, ◌>>=◌, Value, string, integer, boolean,
  array, max_str_len, max_array_items,
}
use mahina_os.Init.Toml.Text.{is_space, trim_left}
use mahina_os.Prelude.{
  ℕ, zero, suc, ◌+◌, ◌-◌, ◌*◌, ◌^◌, Bool, true, false, ◌&&◌, ◌||◌, List, [], ◌∷◌, Option, none,
  some, ◌==◌, ltb, leb, if◌then◌else◌, CString, codes, ℤ, pos, sub_ℕ,
}

-- dst[out++] = c, with what the rest of the loop stores.
abbrev pub store : ℕ → Parsed CString → Parsed CString
store c (ok s) = ok (c ∷ s)
store c (err e) = err e
store c fault = fault

-- The loop of parse_string_value from `p` on, with room for `room` more bytes.
unfoldable pub string_loop : CString → ℕ → Parsed CString
string_loop [] room = err invalid
string_loop (c ∷ p) zero = if c == b'"' then ok [] else err overflow
string_loop (c ∷ []) (suc room) = if c == b'"' then ok [] else store c (string_loop [] room)
string_loop (c ∷ d ∷ p) (suc room) =
    let escaped = store b'"' (string_loop p room) in
    let plain = store c (string_loop (d ∷ p) room) in
    if c == b'"' then ok [] else if c == b'\\' && d == b'"' then escaped else plain

-- parse_string_value.
unfoldable pub string_value : CString → Parsed CString
unfolding string_loop
string_value [] = err invalid
string_value (c ∷ p) = if c == b'"' then string_loop p (max_str_len - 1) else err invalid

-- while (*p && *p != '"') { if (*p == '\\') p++; p++; } A backslash at the end takes `p` past the
-- terminator.
unfoldable pub advance : CString → Parsed CString
advance [] = ok []
advance (c ∷ []) = if c == b'"' then ok (c ∷ []) else if c == b'\\' then fault else ok []
advance (c ∷ d ∷ p) =
    let two = advance p in
    let one = advance (d ∷ p) in
    if c == b'"' then ok (c ∷ d ∷ p) else if c == b'\\' then two else one

-- if (*p == '"') p++;
abbrev pub skip_quote : CString → CString
skip_quote [] = []
skip_quote (c ∷ p) = if c == b'"' then p else c ∷ p

-- while (*p && (isspace(*p) || *p == ',')) p++;
unfoldable pub skip_separators : CString → CString
skip_separators [] = []
skip_separators (c ∷ p) = if is_space c || c == b',' then skip_separators p else c ∷ p

-- What follows the ']': only spaces.
unfoldable pub array_end : CString → Parsed (List CString)
unfolding trim_left
array_end p = elim (trim_left p) [ [] ↦ ok [] | c ∷ r ↦ err invalid ]

-- One more item.
abbrev pub item : CString → Parsed (List CString) → Parsed (List CString)
item s (ok items) = ok (s ∷ items)
item s (err e) = err e
item s fault = fault

-- A round of the loop of parse_array_value behind the separators; `next` is the rest of the loop.
unfoldable pub array_round :
    CString → (CString → Parsed (List CString)) → Bool → Parsed (List CString)
unfolding array_end string_value advance
array_round [] next full = err invalid
array_round (c ∷ p) next full =
    if c == b']'
    then array_end p
    else if c == b'"'
    then (if full
        then err overflow
        else (do s ← string_value (c ∷ p); q ← advance p; item s (next (skip_quote q))))
    else err unsupported

-- The loop of parse_array_value from `p` on, with room for `room` more items.
unfoldable pub array_loop : ℕ → CString → Parsed (List CString)
unfolding array_round skip_separators
array_loop room [] = err invalid
array_loop zero (c ∷ p) = array_round (skip_separators (c ∷ p)) (λ q. err overflow) true
array_loop (suc room) (c ∷ p) = array_round (skip_separators (c ∷ p)) (λ q. array_loop room q) false

-- parse_array_value behind its '['.
unfoldable pub array_value : CString → Parsed Value
unfolding array_loop
array_value p = do items ← array_loop max_array_items p; ok (array items)

-- The text after a keyword ends it: nothing, a space or a '#'.
abbrev pub ends_word : CString → Bool
ends_word [] = true
ends_word (c ∷ p) = is_space c || c == b'#'

-- What follows a prefix.
abbrev pub after_prefix : CString → CString → Option CString
after_prefix [] p = some p
after_prefix (a ∷ word) [] = none
after_prefix (a ∷ word) (c ∷ p) = if a == c then after_prefix word p else none

abbrev pub is_word : CString → CString → Bool
is_word word p = elim (after_prefix word p) [ none ↦ false | some rest ↦ ends_word rest ]

abbrev pub is_digit : ℕ → Bool
is_digit c = leb b'0' c && leb c b'9'

-- The digits of strtoll, and where they end.
unfoldable pub digits : CString → ℕ → ℕ × CString
digits [] n = (n, [])
digits (c ∷ p) n = if is_digit c then digits p (n * 10 + (c - b'0')) else (n, c ∷ p)

abbrev pub starts_digit : CString → Bool
starts_digit [] = false
starts_digit (c ∷ p) = is_digit c

-- The number of strtoll behind the sign; `none` where there is no digit or errno is ERANGE.
unfoldable pub magnitude : Bool → CString → Option (ℤ × CString)
unfolding digits
magnitude negative p =
    let (n, end) = digits p 0 in
    if starts_digit p
    then (if negative
        then (if leb n (2 ^ 63) then some (sub_ℕ 0 n, end) else none)
        else (if ltb n (2 ^ 63) then some (pos n, end) else none))
    else none

unfoldable pub signed : CString → Option (ℤ × CString)
unfolding magnitude
signed [] = none
signed (c ∷ p) =
    if c == b'-'
    then magnitude true p
    else if c == b'+'
    then magnitude false p
    else magnitude false (c ∷ p)

-- strtoll(raw, &end, 10) with a 64-bit long long.
unfoldable pub strtoll : CString → Option (ℤ × CString)
unfolding signed trim_left
strtoll raw = signed (trim_left raw)

abbrev pub integer_value : Option (ℤ × CString) → Parsed Value
integer_value none = err unsupported
integer_value (some (n, [])) = ok (integer n)
integer_value (some (n, c ∷ end)) = err invalid

unfoldable pub scalar_value : CString → Parsed Value
unfolding strtoll
scalar_value raw =
    if is_word (codes "true") raw
    then ok (boolean true)
    else if is_word (codes "false") raw
    then ok (boolean false)
    else integer_value (strtoll raw)

-- parse_value.
unfoldable pub parse_value : CString → Parsed Value
unfolding scalar_value array_value string_value
parse_value [] = scalar_value []
parse_value (c ∷ p) =
    if c == b'"'
    then (do s ← string_value (c ∷ p); ok (string s))
    else if c == b'['
    then array_value p
    else scalar_value (c ∷ p)
