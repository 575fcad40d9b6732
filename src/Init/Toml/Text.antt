-- ===== src/Init/Toml/Text.antt =====
-- The string helpers of src/luna-init/toml.c, and what it uses of string.h and ctype.h.
use mahina_os.Prelude.{
  ℕ, ◌-◌, Bool, true, false, ◌&&◌, ◌||◌, not, List, [], ◌∷◌, Option, none, some, ◌==◌, leb,
  if◌then◌else◌, length, take, CString, str_eq,
}

-- isspace of the C locale.
abbrev pub is_space : ℕ → Bool
is_space c = (leb 9 c && leb c 13) || c == 32

unfoldable pub trim_left : CString → CString
trim_left [] = []
trim_left (c ∷ s) = if is_space c then trim_left s else c ∷ s

-- A byte in front of what is left of the rest when its trailing spaces are gone.
abbrev pub trim_onto : ℕ → CString → CString
trim_onto c [] = if is_space c then [] else c ∷ []
trim_onto c (d ∷ s) = c ∷ d ∷ s

unfoldable pub trim_right : CString → CString
trim_right [] = []
trim_right (c ∷ s) = trim_onto c (trim_right s)

-- str_trim_inplace.
unfoldable pub trim : CString → CString
unfolding trim_left trim_right
trim s = trim_right (trim_left s)

-- str_copy_bounded into a buffer of `dst_size` bytes, more than 0: what it leaves there, and whether
-- it returns 0.
unfoldable pub copy_bounded : ℕ → CString → CString × Bool
copy_bounded dst_size src =
    if leb dst_size (length src) then (take (dst_size - 1) src, false) else (src, true)

-- strncmp(a, b, n) == 0
unfoldable pub strn_eq : CString → CString → ℕ → Bool
strn_eq a b n = str_eq (take n a) (take n b)

-- The bytes before the first NUL.
unfoldable pub c_string : List ℕ → CString
c_string [] = []
c_string (c ∷ r) = if c == 0 then [] else c ∷ c_string r

-- strchr: the string cut at the first `b`, and what follows it; `none` where there is none.
abbrev pub onto : ℕ → Option (CString × CString) → Option (CString × CString)
onto c none = none
onto c (some (before, after)) = some (c ∷ before, after)

unfoldable pub split_at : ℕ → CString → Option (CString × CString)
split_at b [] = none
split_at b (c ∷ s) = if c == b then some ([], s) else onto c (split_at b s)

-- strstr(s, "]]"): what stands before it.
abbrev pub ahead : ℕ → Option CString → Option CString
ahead c none = none
ahead c (some before) = some (c ∷ before)

unfoldable pub before_brackets : CString → Option CString
before_brackets [] = none
before_brackets (c ∷ []) = none
before_brackets (c ∷ d ∷ s) =
    let later = ahead c (before_brackets (d ∷ s)) in
    if c == b']' && d == b']' then some [] else later

-- Strip an inline comment: a '#' that an even number of quotes precedes ends the text.
unfoldable pub strip_comment : Bool → CString → CString
strip_comment in_str [] = []
strip_comment in_str (c ∷ s) =
    let in_str' = if c == b'"' then not in_str else in_str in
    if not in_str' && c == b'#' then [] else c ∷ strip_comment in_str' s
