-- ===== src/Init/Toml/RoundTrip.antt =====
-- toml_load_buffer and toml_get of src/luna-init/toml.c read back a written configuration.
use mathlib.Core.List.{append_assoc, append-nil}
use mahina_os.Init.Toml.{
  not_found, Parsed, ok, ◌>>=◌, from_option, Value, Entry, Doc, ParseState, empty_doc,
  initial_state,
}
use mahina_os.Init.Toml.Text.{c_string, strn_eq}
use mahina_os.Init.Toml.Line.{parse_line}
use mahina_os.Init.Toml.Load.{onto_first, lines, strip_return, load_lines, load_buffer}
use mahina_os.Init.Toml.Lookup.{get_loop, get}
use mahina_os.Init.Toml.Print.{
  value_text_of, pair_line, pairs_text, header_line, config_text, Section, Each, WritablePair,
  WritablePairs, WritableConfig, pair_entries, config_entries, pair_value, config_value, or_else,
}
use mahina_os.Init.Toml.ReadLine.{
  Bare, Dotted, plain_state, with_entry, pair_entry, parse_line-pair, parse_line-header,
}
use mahina_os.Init.Toml.Tidy.{
  Solid, Solid-cons, Solid-append, Clean, Each-append, value_text-IsTidy,
}
use mahina_os.Prelude.{
  ℕ, zero, suc, ◌+◌, ◌≤◌, ◌<◌, ◌≡◌, refl, ap, ◌∙◌, true, ◌&&◌, ◌||◌, not, List, [], ◌∷◌, ◌++◌,
  Option, none, some, arith, ◌==◌, ltb, if◌then◌else◌, length, take, CString, str_eq, lt→ltb,
  Bool-cases, inl, inr, length-append,
}

-- A line of clean bytes that ends in no space passes the line loop unchanged.
lines-skip : (c : ℕ) (rest : List ℕ) → Clean c → lines (c ∷ rest) ≡ onto_first c (lines rest)
unfolding lines
lines-skip c rest h = let e = h.1 in ground arith

lines-newline : (rest : List ℕ) → lines (b'\n' ∷ rest) ≡ [] ∷ lines rest
unfolding lines
lines-newline rest = refl

lines-line : (l rest : List ℕ) → Each Clean l → lines (l ++ b'\n' ∷ rest) ≡ l ∷ lines rest
lines-line [] rest h = lines-newline rest
lines-line (c ∷ l) rest h =
    lines-skip c (l ++ b'\n' ∷ rest) h.0 ∙ ap (onto_first c) (lines-line l rest h.1)

c_string-Clean : (l : List ℕ) → Each Clean l → c_string l ≡ l
unfolding c_string
c_string-Clean [] h = refl
c_string-Clean (c ∷ l) h = let e = h.0.0 in ground (arith, c_string-Clean l h.1)

strip_return-Solid : (l : List ℕ) → Solid l → strip_return l ≡ l
unfolding strip_return
strip_return-Solid [] h = absurd h
strip_return-Solid (c ∷ []) h = ground arith
strip_return-Solid (c ∷ d ∷ l) h = ap (◌∷◌ c) (strip_return-Solid (d ∷ l) h)

load_lines-line :
    (l : List ℕ) (ls : List (List ℕ)) (doc after : Doc) (state next : ParseState)
    → Each Clean l
    → Solid l
    → length l < 512
    → parse_line doc state l ≡ ok (after, next)
    → load_lines (l ∷ ls) doc state ≡ load_lines ls after next
load_lines-line l ls doc after state next clean solid fits e =
    unfold load_lines in
    rw (lt→ltb (length l) 512 fits, strip_return-Solid l solid, c_string-Clean l clean, e) refl

Bare-Clean : (s : CString) → Each Bare s → Each Clean s
Bare-Clean [] h = tt
Bare-Clean (c ∷ s) h = let e = h.0 in ((ground arith, ground arith), Bare-Clean s h.1)

Dotted-Clean : (s : CString) → Each Dotted s → Each Clean s
Dotted-Clean [] h = tt
Dotted-Clean (c ∷ s) h = let e = h.0 in ((ground arith, ground arith), Dotted-Clean s h.1)

pair_line-Clean :
    (key : CString) (value : Value) → WritablePair key value → Each Clean (pair_line key value)
pair_line-Clean key value w =
    unfold pair_line in
    Each-append Clean key (b' ' ∷ b'=' ∷ b' ' ∷ value_text_of value) (Bare-Clean key w.1) (
      (omega arith, omega arith),
      (
        (omega arith, omega arith),
        ((omega arith, omega arith), (value_text-IsTidy value w.3).clean),
      ),
    )

pair_line-Solid :
    (key : CString) (value : Value) → WritablePair key value → Solid (pair_line key value)
pair_line-Solid key value w =
    unfold pair_line in
    Solid-append key (b' ' ∷ b'=' ∷ b' ' ∷ value_text_of value)
      (Solid-cons b' ' (value_text_of value) (value_text-IsTidy value w.3).solid)

abbrev with_entries : Doc → List Entry → Doc
with_entries doc es = record doc { entries = doc.entries ++ es }

pairs_text-cons :
    (key : CString) (value : Value) (pairs : List (CString × Value)) (rest : CString)
    → pairs_text ((key, value) ∷ pairs) rest ≡ pair_line key value ++ b'\n' ∷ pairs_text pairs rest
unfolding pairs_text
pairs_text-cons key value pairs rest = refl

load_lines-pairs :
    (pairs : List (CString × Value)) (rest section : CString) (doc : Doc)
    → WritablePairs pairs
    → length section < 64
    → length doc.entries + length pairs ≤ 128
    → load_lines (lines (pairs_text pairs rest)) doc (plain_state section)
      ≡ load_lines
          (lines rest)
          (with_entries doc (pair_entries section pairs))
          (plain_state section)
load_lines-pairs [] rest section doc w fits room = unfold pairs_text in rw append-nil refl
load_lines-pairs ((key, value) ∷ pairs) rest section doc w fits room =
    let e = pair_entry section key value in
    rw
      (
        pairs_text-cons key value pairs rest,
        lines-line (pair_line key value) (pairs_text pairs rest) (pair_line-Clean key value w.0),
      )
      (load_lines-line (pair_line key value) (lines (pairs_text pairs rest)) doc (with_entry doc e)
          (plain_state section) (plain_state section) (pair_line-Clean key value w.0)
          (pair_line-Solid key value w.0) w.0.4
          (parse_line-pair doc section key value w.0 fits (omega arith))
        ∙ load_lines-pairs pairs rest section (with_entry doc e) w.1 fits
            (omega (arith, length-append doc.entries (e ∷ [])))
        ∙ ap (λ es. load_lines (lines rest) (record doc { entries = es }) (plain_state section))
            (append_assoc doc.entries (e ∷ []) (pair_entries section pairs)))

length-pair_entries :
    (section : CString) (pairs : List (CString × Value))
    → length (pair_entries section pairs) ≡ length pairs
length-pair_entries section [] = refl
length-pair_entries section ((key, value) ∷ pairs) = ap suc (length-pair_entries section pairs)

header_line-Clean : (name : CString) → Each Dotted name → Each Clean (header_line name)
header_line-Clean name h =
    unfold header_line in
    (
      (omega arith, omega arith),
      Each-append Clean name (b']' ∷ []) (Dotted-Clean name h) ((omega arith, omega arith), tt),
    )

header_line-Solid : (name : CString) → Solid (header_line name)
header_line-Solid name =
    unfold header_line in Solid-cons b'[' (name ++ b']' ∷ []) (Solid-append name (b']' ∷ []) refl)

length-header_line : (name : CString) → length name < 64 → length (header_line name) < 512
length-header_line name h = unfold header_line in omega (arith, length-append name (b']' ∷ []))

config_text-cons :
    (s : Section) (sections : List Section)
    → config_text (s ∷ sections)
      ≡ header_line s.name ++ b'\n' ∷ pairs_text s.pairs (config_text sections)
unfolding config_text
config_text-cons s sections = refl

load_lines-config :
    (sections : List Section) (doc : Doc) (state : ParseState)
    → WritableConfig sections
    → length doc.entries + length (config_entries sections) ≤ 128
    → load_lines (lines (config_text sections)) doc state
      ≡ ok (with_entries doc (config_entries sections))
load_lines-config [] doc state w room = unfold config_text lines load_lines in rw append-nil refl
load_lines-config (s ∷ sections) doc state w room =
    let mine = pair_entries s.name s.pairs in
    let n = length-append mine (config_entries sections) in
    let m = length-pair_entries s.name s.pairs in
    rw
      (
        config_text-cons s sections,
        lines-line (header_line s.name) (pairs_text s.pairs (config_text sections))
            (header_line-Clean s.name w.0),
      )
      (load_lines-line (header_line s.name) (lines (pairs_text s.pairs (config_text sections))) doc
          doc state (plain_state s.name) (header_line-Clean s.name w.0) (header_line-Solid s.name)
          (length-header_line s.name w.1) (parse_line-header doc state s.name w.0 w.1)
        ∙ load_lines-pairs s.pairs (config_text sections) s.name doc w.2 w.1 (omega arith)
        ∙ load_lines-config sections (with_entries doc mine) (plain_state s.name) w.3
            (omega (arith, length-append doc.entries mine))
        ∙ ap (λ es. ok (record doc { entries = es }))
            (append_assoc doc.entries mine (config_entries sections)))

-- For sections that can be written, with at most 128 pairs and a text of 1 to 65536 bytes,
-- toml_load_buffer reads the text of the sections back as the entries of their pairs, in order, and
-- no array table.
pub load_buffer-config_text :
    (sections : List Section)
    → WritableConfig sections
    → length (config_entries sections) ≤ 128
    → 0 < length (config_text sections)
    → length (config_text sections) ≤ 65536
    → load_buffer true (config_text sections)
      ≡ ok (record { entries = config_entries sections; array_tables = [] })
load_buffer-config_text sections w few some_text small =
    let open_ : (not
          (length (config_text sections) == 0 || ltb 65536 (length (config_text sections))))
        ≡ true =
      ground arith in
    unfold load_buffer in
    rw open_ (load_lines-config sections empty_doc initial_state w (omega arith))

take-all : (n : ℕ) (a : CString) → length a ≤ n → take n a ≡ a
take-all zero [] h = refl
take-all zero (c ∷ a) h = absurd (omega arith)
take-all (suc n) [] h = refl
take-all (suc n) (c ∷ a) h = ap (◌∷◌ c) (take-all n a (omega arith))

-- A value that was found, or what the rest of the loop finds.
abbrev found : Option Value → Parsed Value → Parsed Value
found none later = later
found (some v) later = ok v

strn_eq-short : (a b : CString) (n : ℕ) → length a ≤ n → length b ≤ n → strn_eq a b n ≡ str_eq a b
strn_eq-short a b n h k = unfold strn_eq in rw (take-all n a h, take-all n b k) refl

get_loop-cons :
    (section key : CString) (value : Value) (es : List Entry) (s k : CString)
    → get_loop (pair_entry section key value ∷ es) s k
      ≡ (if strn_eq section s 64 && strn_eq key k 64 then ok value else get_loop es s k)
unfolding get_loop
get_loop-cons section key value es s k = ground arith

-- The entries of a section, and what follows them.
get_loop-pairs :
    (section : CString) (pairs : List (CString × Value)) (es : List Entry) (s k : CString)
    → WritablePairs pairs
    → length section < 64
    → length s < 64
    → length k < 64
    → get_loop (pair_entries section pairs ++ es) s k
      ≡ found (if str_eq section s then pair_value pairs k else none) (get_loop es s k)
get_loop-pairs section [] es s k w fits hs hk = elim (Bool-cases (str_eq section s)) [
  | inl e ↦ rw e refl
  | inr e ↦ rw e refl
]
get_loop-pairs section ((key, value) ∷ pairs) es s k w fits hs hk =
    let ih = get_loop-pairs section pairs es s k w.1 fits hs hk in
    rw
      (
        get_loop-cons section key value (pair_entries section pairs ++ es) s k,
        strn_eq-short section s 64 (omega arith) (omega arith),
        strn_eq-short key k 64 (omega (arith, w.0.2)) (omega arith),
      )
      (elim (Bool-cases (str_eq section s)) [
        | inr e ↦ rw e (rw e at ih)
        | inl e ↦
            rw e
              (elim (Bool-cases (str_eq key k)) [ inl f ↦ rw f refl | inr f ↦ rw f (rw e at ih) ])
      ])

found-or_else :
    (a b : Option Value) → found a (from_option b not_found) ≡ from_option (or_else a b) not_found
found-or_else none b = refl
found-or_else (some v) b = refl

get_loop-config :
    (sections : List Section) (s k : CString)
    → WritableConfig sections
    → length s < 64
    → length k < 64
    → get_loop (config_entries sections) s k ≡ from_option (config_value sections s k) not_found
get_loop-config [] s k w hs hk = unfold get_loop in refl
get_loop-config (c ∷ sections) s k w hs hk =
    get_loop-pairs c.name c.pairs (config_entries sections) s k w.2 w.1 hs hk
    ∙ ap (found (if str_eq c.name s then pair_value c.pairs k else none))
        (get_loop-config sections s k w.3 hs hk)
    ∙ found-or_else (if str_eq c.name s then pair_value c.pairs k else none)
        (config_value sections s k)

-- For sections that can be written, with at most 128 pairs and a text of 1 to 65536 bytes,
-- toml_load_buffer accepts the text of the sections, and toml_get in the result finds, for a
-- section and a key shorter than their buffers, the first value of the key in the written sections
-- of that name, and TOML_ERR_NOT_FOUND where there is none.
pub get-load_buffer :
    (sections : List Section) (s k : CString)
    → WritableConfig sections
    → length (config_entries sections) ≤ 128
    → 0 < length (config_text sections)
    → length (config_text sections) ≤ 65536
    → length s < 64
    → length k < 64
    → (load_buffer true (config_text sections) >>= λ doc. get doc s k)
      ≡ from_option (config_value sections s k) not_found
get-load_buffer sections s k w few some_text small hs hk =
    rw (load_buffer-config_text sections w few some_text small)
      (unfold get in get_loop-config sections s k w hs hk)
