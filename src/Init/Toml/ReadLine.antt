-- ===== src/Init/Toml/ReadLine.antt =====
-- parse_line of src/luna-init/toml.c reads back the lines of a written configuration.
use mathlib.Core.List.{append_assoc}
use mahina_os.Init.Toml.{ok, Value, Entry, Doc, ParseState}
use mahina_os.Init.Toml.Text.{
  is_space, trim_onto, trim_right, trim_left, trim, copy_bounded, split_at, onto,
}
use mahina_os.Init.Toml.Line.{section_header, value_text, key_value, dispatch, parse_line}
use mahina_os.Init.Toml.Print.{
  value_text_of, pair_line, header_line, Each, is_bare, is_dotted, Writable, WritablePair,
}
use mahina_os.Init.Toml.ReadValue.{parse_value-text}
use mahina_os.Init.Toml.Tidy.{
  trim_right-cons, Solid, Solid-cons, Solid-append, trim-tidy, trim-space, IsTidy,
  value_text-IsTidy,
}
use mahina_os.Prelude.{
  ℕ, ◌<◌, ◌≡◌, ◌≢◌, refl, ap, sym, ◌∙◌, true, false, [], ◌∷◌, ◌++◌, none, some, arith, ◌==◌, length,
  CString, lt→ltb, length-append,
}

abbrev pub Bare : ℕ → Type 0
Bare c = is_bare c ≡ true

abbrev pub Dotted : ℕ → Type 0
Dotted c = is_dotted c ≡ true

copy_bounded-all : (n : ℕ) (s : CString) → length s < n → copy_bounded n s ≡ (s, true)
unfolding copy_bounded
copy_bounded-all n s h = ground arith

-- A search in front of which no byte is the one sought.
split_at-found : (b : ℕ) (s : CString) → split_at b (b ∷ s) ≡ some ([], s)
unfolding split_at
split_at-found b s = ground arith

split_at-skip : (b c : ℕ) (s : CString) → c ≢ b → split_at b (c ∷ s) ≡ onto c (split_at b s)
unfolding split_at
split_at-skip b c s h = ground arith

split_at-behind :
    (b : ℕ) (a s : CString) → Each (λ c. c ≢ b) a → split_at b (a ++ b ∷ s) ≡ some (a, s)
split_at-behind b [] s h = split_at-found b s
split_at-behind b (c ∷ a) s h =
    split_at-skip b c (a ++ b ∷ s) h.0 ∙ ap (onto c) (split_at-behind b a s h.1)

Bare-ne_equal : (key : CString) → Each Bare key → Each (λ c. c ≢ b'=') (key ++ b' ' ∷ [])
Bare-ne_equal [] h = (omega arith, tt)
Bare-ne_equal (c ∷ key) h = ((let e = h.0 in ground arith), Bare-ne_equal key h.1)

Dotted-ne_bracket : (name : CString) → Each Dotted name → Each (λ c. c ≢ b']') name
Dotted-ne_bracket [] h = tt
Dotted-ne_bracket (c ∷ name) h = ((let e = h.0 in ground arith), Dotted-ne_bracket name h.1)

Bare-not_space : (c : ℕ) → Bare c → is_space c ≡ false
Bare-not_space c h = ground arith

-- A key with the space behind it is trimmed to the key.
trim_right-key :
    (c : ℕ) (key : CString) → Each Bare (c ∷ key) → trim_right ((c ∷ key) ++ b' ' ∷ []) ≡ c ∷ key
trim_right-key c [] h = unfold trim_right in rw (Bare-not_space c h.0) refl
trim_right-key c (d ∷ key) h =
    trim_right-cons c ((d ∷ key) ++ b' ' ∷ []) ∙ ap (trim_onto c) (trim_right-key d key h.1)

trim-key : (c : ℕ) (key : CString) → Each Bare (c ∷ key) → trim ((c ∷ key) ++ b' ' ∷ []) ≡ c ∷ key
trim-key c key h = unfold trim trim_left in rw (Bare-not_space c h.0) (trim_right-key c key h)

value_text-tidy : (s : CString) → IsTidy s → value_text (b' ' ∷ s) ≡ s
value_text-tidy s t =
    unfold value_text in rw (trim-space s t.firm t.solid, t.stripped) (trim-tidy s t.firm t.solid)

-- The entry that a pair becomes.
abbrev pub pair_entry : CString → CString → Value → Entry
pair_entry section key value = record {
  section = section;
  key = key;
  value = value;
  array_table_index = none;
}

abbrev pub plain_state : CString → ParseState
plain_state section = record {
  cur_section = section;
  cur_is_array_table = false;
  cur_array_table_entry = none;
}

abbrev pub with_entry : Doc → Entry → Doc
with_entry doc e = record doc { entries = doc.entries ++ e ∷ [] }

key_value-read :
    (doc : Doc) (section : CString) (c : ℕ) (key : CString) (value : Value)
    → Each Bare (c ∷ key)
    → length (c ∷ key) < 63
    → length section < 64
    → length doc.entries < 128
    → Writable value
    → length (value_text_of value) < 511
    → key_value doc
        (plain_state section)
        (((c ∷ key) ++ b' ' ∷ []) ++ b'=' ∷ b' ' ∷ value_text_of value)
      ≡ ok (with_entry doc (pair_entry section (c ∷ key) value), plain_state section)
unfolding key_value
key_value-read doc section c key value bare short fits room w small =
    rw
      (
        split_at-behind b'=' ((c ∷ key) ++ b' ' ∷ []) (b' ' ∷ value_text_of value)
            (Bare-ne_equal (c ∷ key) bare),
        copy_bounded-all 64 ((c ∷ key) ++ b' ' ∷ []) (omega (arith, length-append key (b' ' ∷ []))),
        copy_bounded-all 512 (b' ' ∷ value_text_of value) (omega arith),
        lt→ltb (length doc.entries) 128 room,
        copy_bounded-all 64 section fits,
        trim-key c key bare,
        copy_bounded-all 64 (c ∷ key) (omega arith),
        value_text-tidy (value_text_of value) (value_text-IsTidy value w),
        parse_value-text value w,
      )
      refl

dispatch-Bare :
    (doc : Doc) (state : ParseState) (c d : ℕ) (rest : CString)
    → Bare c
    → dispatch doc state (c ∷ d ∷ rest) ≡ key_value doc state (c ∷ d ∷ rest)
unfolding dispatch
dispatch-Bare doc state c d rest h =
    let a : (c == b'#') ≡ false = ground arith in
    let b : (c == b'[') ≡ false = ground arith in rw (a, b) refl

dispatch-key :
    (doc : Doc) (state : ParseState) (c : ℕ) (key rest : CString)
    → Bare c
    → dispatch doc state ((c ∷ key) ++ b' ' ∷ rest) ≡ key_value doc state ((c ∷ key) ++ b' ' ∷ rest)
dispatch-key doc state c [] rest h = dispatch-Bare doc state c b' ' rest h
dispatch-key doc state c (d ∷ key) rest h = dispatch-Bare doc state c d (key ++ b' ' ∷ rest) h

parse_line-key :
    (doc : Doc) (section : CString) (c : ℕ) (key : CString) (value : Value)
    → WritablePair (c ∷ key) value
    → length section < 64
    → length doc.entries < 128
    → parse_line doc (plain_state section) (pair_line (c ∷ key) value)
      ≡ ok (with_entry doc (pair_entry section (c ∷ key) value), plain_state section)
parse_line-key doc section c key value w fits room =
    let v = value_text_of value in
    let line = (c ∷ key) ++ b' ' ∷ b'=' ∷ b' ' ∷ v in
    let solid : Solid line =
      Solid-append (c ∷ key) (b' ' ∷ b'=' ∷ b' ' ∷ v)
        (Solid-cons b' ' v (value_text-IsTidy value w.3).solid) in
    let small : length line < 512 = unfold pair_line in w.4 in
    unfold parse_line pair_line in
    rw (trim-tidy line (Bare-not_space c w.1.0) solid) (
      dispatch-key doc (plain_state section) c key (b'=' ∷ b' ' ∷ v) w.1.0
      ∙ ap (key_value doc (plain_state section))
          (sym (append_assoc (c ∷ key) (b' ' ∷ []) (b'=' ∷ b' ' ∷ v)))
      ∙ key_value-read doc section c key value w.1 w.2 fits room w.3
          (omega (arith, length-append (c ∷ key) (b' ' ∷ b'=' ∷ b' ' ∷ v))))

-- A written pair becomes an entry of the current section.
pub parse_line-pair :
    (doc : Doc) (section key : CString) (value : Value)
    → WritablePair key value
    → length section < 64
    → length doc.entries < 128
    → parse_line doc (plain_state section) (pair_line key value)
      ≡ ok (with_entry doc (pair_entry section key value), plain_state section)
parse_line-pair doc section [] value w fits room = absurd (w.0 refl)
parse_line-pair doc section (c ∷ key) value w fits room =
    parse_line-key doc section c key value w fits room

dispatch-section :
    (doc : Doc) (state : ParseState) (d : ℕ) (rest : CString)
    → d ≢ b'['
    → dispatch doc state (b'[' ∷ d ∷ rest) ≡ section_header doc (d ∷ rest)
unfolding dispatch
dispatch-section doc state d rest h = let b : (d == b'[') ≡ false = ground arith in rw b refl

dispatch-name :
    (doc : Doc) (state : ParseState) (name : CString)
    → Each Dotted name
    → dispatch doc state (b'[' ∷ (name ++ b']' ∷ [])) ≡ section_header doc (name ++ b']' ∷ [])
dispatch-name doc state [] h = dispatch-section doc state b']' [] (omega arith)
dispatch-name doc state (d ∷ name) h =
    dispatch-section doc state d (name ++ b']' ∷ []) (let e = h.0 in ground arith)

section_header-read :
    (doc : Doc) (name : CString)
    → Each Dotted name
    → length name < 64
    → section_header doc (name ++ b']' ∷ []) ≡ ok (doc, plain_state name)
unfolding section_header
section_header-read doc name h fits =
    rw (split_at-behind b']' name [] (Dotted-ne_bracket name h), copy_bounded-all 64 name fits) refl

-- A written header begins its section.
pub parse_line-header :
    (doc : Doc) (state : ParseState) (name : CString)
    → Each Dotted name
    → length name < 64
    → parse_line doc state (header_line name) ≡ ok (doc, plain_state name)
parse_line-header doc state name h fits =
    let solid : Solid (b'[' ∷ (name ++ b']' ∷ [])) =
      Solid-cons b'[' (name ++ b']' ∷ []) (Solid-append name (b']' ∷ []) refl) in
    unfold parse_line header_line in
    rw (trim-tidy (b'[' ∷ (name ++ b']' ∷ [])) refl solid)
      (dispatch-name doc state name h ∙ section_header-read doc name h fits)
