-- ===== src/Init/Toml/Strings.antt =====
-- parse_string_value of src/luna-init/toml.c reads back a string whose quotes are escaped.
use mahina_os.Init.Toml.{ok}
use mahina_os.Init.Toml.Values.{store, string_loop, string_value, advance}
use mahina_os.Init.Toml.Steps.{
  string_loop-quote, string_loop-escaped, string_loop-backslash, string_loop-plain, advance-quote,
  advance-plain,
}
use mahina_os.Init.Toml.Print.{escaped, Each, Plain}
use mahina_os.Prelude.{
  ℕ, zero, suc, ◌≤◌, ◌<◌, ◌≡◌, ◌≢◌, refl, ap, subst, sym, ◌∙◌, [], ◌∷◌, arith, length, CString,
  ℕ_discrete,
}

-- The last byte of a text is no backslash.
abbrev pub EndsOpen : CString → Type 0
EndsOpen [] = Unit {0}
EndsOpen (c ∷ []) = c ≢ b'\\'
EndsOpen (c ∷ d ∷ s) = EndsOpen (d ∷ s)

EndsOpen-tail : (c : ℕ) (s : CString) → EndsOpen (c ∷ s) → EndsOpen s
EndsOpen-tail c [] h = tt
EndsOpen-tail c (d ∷ s) h = h

escaped-quote : (s rest : CString) → escaped (b'"' ∷ s) rest ≡ b'\\' ∷ b'"' ∷ escaped s rest
unfolding escaped
escaped-quote s rest = refl

pub escaped-other :
    (c : ℕ) (s rest : CString) → c ≢ b'"' → escaped (c ∷ s) rest ≡ c ∷ escaped s rest
unfolding escaped
escaped-other c s rest h = ground arith

-- An escaped text does not begin with a quote.
escaped-head :
    (c : ℕ) (s rest : CString)
    → (d : ℕ) × (t : CString) × (escaped (c ∷ s) rest ≡ d ∷ t) × (d ≢ b'"')
escaped-head c s rest = elim (ℕ_discrete c b'"') [
  | yes e ↦ (
    b'\\',
    b'"' ∷ escaped s rest,
    subst (λ t. escaped (t ∷ s) rest ≡ b'\\' ∷ b'"' ∷ escaped s rest) (sym e)
        (escaped-quote s rest),
    omega arith,
  )
  | no ne ↦ (c, escaped s rest, escaped-other c s rest ne, ne)
]

backslash_step :
    (s rest : CString) (room : ℕ)
    → EndsOpen (b'\\' ∷ s)
    → string_loop (escaped s rest) room ≡ ok s
    → string_loop (escaped (b'\\' ∷ s) rest) (suc room) ≡ ok (b'\\' ∷ s)
backslash_step [] rest room h ih = absurd (h refl)
backslash_step (c ∷ s) rest room h ih =
    let (d, t, e, ne) = escaped-head c s rest in
    rw (escaped-other b'\\' (c ∷ s) rest (omega arith), e)
      (string_loop-backslash d t room ne ∙ ap (store b'\\') (rw e at ih))

string_loop-escaped_lem :
    (s rest : CString) (room : ℕ)
    → length s ≤ room
    → EndsOpen s
    → string_loop (escaped s rest) room ≡ ok s
string_loop-escaped_lem [] rest room fits h = unfold escaped in string_loop-quote rest room
string_loop-escaped_lem (c ∷ s) rest zero fits h = absurd (omega arith)
string_loop-escaped_lem (c ∷ s) rest (suc room) fits h =
    let ih = string_loop-escaped_lem s rest room (omega arith) (EndsOpen-tail c s h) in
    elim (ℕ_discrete c b'"') [
      | yes e ↦
          subst (λ t. string_loop (escaped (t ∷ s) rest) (suc room) ≡ ok (t ∷ s)) (sym e)
            (rw (escaped-quote s rest)
              (string_loop-escaped (escaped s rest) room ∙ ap (store b'"') ih))
      | no q ↦ elim (ℕ_discrete c b'\\') [
        | yes e ↦
            subst (λ t. string_loop (escaped (t ∷ s) rest) (suc room) ≡ ok (t ∷ s)) (sym e)
              (backslash_step s rest room (subst (λ t. EndsOpen (t ∷ s)) e h) ih)
        | no b ↦
            rw (escaped-other c s rest q)
              (string_loop-plain c (escaped s rest) room q b ∙ ap (store c) ih)
      ]
    ]

-- A string of fewer than 256 bytes, the last of which is no backslash, is what parse_string_value
-- reads from it in quotes with its own quotes escaped, whatever follows.
pub string_value-escaped :
    (s rest : CString) → length s < 256 → EndsOpen s → string_value (b'"' ∷ escaped s rest) ≡ ok s
unfolding string_value
string_value-escaped s rest fits h = string_loop-escaped_lem s rest 255 (omega arith) h

pub Plain-EndsOpen : (s : CString) → Each Plain s → EndsOpen s
Plain-EndsOpen [] h = tt
Plain-EndsOpen (c ∷ []) h = h.0.3
Plain-EndsOpen (c ∷ d ∷ s) h = Plain-EndsOpen (d ∷ s) h.1

-- The search for the closing quote finds that of a plain string.
pub advance-escaped :
    (s rest : CString) → Each Plain s → advance (escaped s rest) ≡ ok (b'"' ∷ rest)
advance-escaped [] rest h = unfold escaped in advance-quote rest
advance-escaped (c ∷ s) rest h =
    rw (escaped-other c s rest h.0.2)
      (advance-plain c (escaped s rest) h.0.2 h.0.3 ∙ advance-escaped s rest h.1)
