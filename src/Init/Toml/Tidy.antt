-- ===== src/Init/Toml/Tidy.antt =====
-- What trimming, the comment strip and the line loop of src/luna-init/toml.c leave of a written value.
use mahina_os.Init.Toml.{Value, string, integer, boolean, array}
use mahina_os.Init.Toml.Text.{is_space, trim_left, trim_onto, trim_right, trim, strip_comment}
use mahina_os.Init.Toml.Print.{
  escaped, more_items, array_text, decimal, integer_text, value_text_of, Each, Plain, AllPlain,
  Writable,
}
use mahina_os.Init.Toml.ReadValue.{decimal-small, decimal-large, more_items-cons}
use mahina_os.Init.Toml.Strings.{escaped-other}
use mahina_os.Prelude.{
  ℕ, zero, suc, ◌+◌, ◌/◌, ◌%◌, ◌≤◌, ◌<◌, ◌≡◌, ◌≢◌, refl, ap, ◌∙◌, Bool, true, false, List, [], ◌∷◌,
  ◌++◌, arith, CString, pos, negsuc, dec_lt,
}

-- The first byte, and the last, is no space.
abbrev pub Firm : CString → Type 0
Firm [] = ⊥
Firm (c ∷ s) = is_space c ≡ false

abbrev pub Solid : CString → Type 0
Solid [] = ⊥
Solid (c ∷ []) = is_space c ≡ false
Solid (c ∷ d ∷ s) = Solid (d ∷ s)

pub Solid-cons : (c : ℕ) (s : CString) → Solid s → Solid (c ∷ s)
Solid-cons c [] h = absurd h
Solid-cons c (d ∷ s) h = h

pub Solid-append : (a b : CString) → Solid b → Solid (a ++ b)
Solid-append [] b h = h
Solid-append (c ∷ a) b h = Solid-cons c (a ++ b) (Solid-append a b h)

trim_left-Firm : (s : CString) → Firm s → trim_left s ≡ s
unfolding trim_left
trim_left-Firm [] h = absurd h
trim_left-Firm (c ∷ s) h = rw h refl

pub trim_right-cons : (c : ℕ) (s : CString) → trim_right (c ∷ s) ≡ trim_onto c (trim_right s)
unfolding trim_right
trim_right-cons c s = refl

pub trim_right-Solid : (s : CString) → Solid s → trim_right s ≡ s
trim_right-Solid [] h = absurd h
trim_right-Solid (c ∷ []) h = unfold trim_right in rw h refl
trim_right-Solid (c ∷ d ∷ s) h =
    trim_right-cons c (d ∷ s) ∙ ap (trim_onto c) (trim_right-Solid (d ∷ s) h)

pub trim-tidy : (s : CString) → Firm s → Solid s → trim s ≡ s
trim-tidy s f h = unfold trim in rw (trim_left-Firm s f) (trim_right-Solid s h)

-- A space in front is trimmed.
pub trim-space : (s : CString) → Firm s → Solid s → trim (b' ' ∷ s) ≡ s
trim-space s f h = unfold trim trim_left in rw (trim_left-Firm s f) (trim_right-Solid s h)

-- A byte that is neither NUL nor newline.
abbrev pub Clean : ℕ → Type 0
Clean c = (c ≢ 0) × (c ≢ b'\n')

pub Each-append : (P : ℕ → Type 0) (a b : CString) → Each P a → Each P b → Each P (a ++ b)
Each-append P [] b h k = k
Each-append P (c ∷ a) b h k = (h.0, Each-append P a b h.1 k)

-- A text that the comment strip leaves, ends in no space and has only clean bytes.
pub record IsTidy (s : CString) : Type 0 where
  pub firm : Firm s
  pub solid : Solid s
  pub clean : Each Clean s
  pub stripped : strip_comment false s ≡ s

abbrev IsDigitByte : ℕ → Type 0
IsDigitByte d = (b'0' ≤ d) × (d ≤ b'9')

escaped-Solid : (s rest : CString) → Each Plain s → Solid (b'"' ∷ rest) → Solid (escaped s rest)
escaped-Solid [] rest p h = unfold escaped in h
escaped-Solid (c ∷ s) rest p h =
    rw (escaped-other c s rest p.0.2) (Solid-cons c (escaped s rest) (escaped-Solid s rest p.1 h))

escaped-Clean : (s rest : CString) → Each Plain s → Each Clean rest → Each Clean (escaped s rest)
escaped-Clean [] rest p h = unfold escaped in ((omega arith, omega arith), h)
escaped-Clean (c ∷ s) rest p h =
    rw (escaped-other c s rest p.0.2) ((p.0.0, p.0.1), escaped-Clean s rest p.1 h)

strip-plain :
    (c : ℕ) (s : CString) → c ≢ b'"' → strip_comment true (c ∷ s) ≡ c ∷ strip_comment true s
unfolding strip_comment
strip-plain c s h = ground arith

escaped-stripped :
    (s rest : CString)
    → Each Plain s
    → strip_comment true (escaped s rest) ≡ escaped s (strip_comment false rest)
escaped-stripped [] rest p = unfold escaped strip_comment in refl
escaped-stripped (c ∷ s) rest p =
    rw (escaped-other c s rest p.0.2, escaped-other c s (strip_comment false rest) p.0.2)
      (strip-plain c (escaped s rest) p.0.2 ∙ ap (◌∷◌ c) (escaped-stripped s rest p.1))

strip-quote : (s : CString) → strip_comment false (b'"' ∷ s) ≡ b'"' ∷ strip_comment true s
unfolding strip_comment
strip-quote s = refl

strip-separator :
    (s : CString) → strip_comment false (b',' ∷ b' ' ∷ s) ≡ b',' ∷ b' ' ∷ strip_comment false s
unfolding strip_comment
strip-separator s = refl

-- A quoted string in front of a tidy rest.
quoted-stripped :
    (s rest : CString)
    → Each Plain s
    → strip_comment false rest ≡ rest
    → strip_comment false (b'"' ∷ escaped s rest) ≡ b'"' ∷ escaped s rest
quoted-stripped s rest p h =
    strip-quote (escaped s rest) ∙ ap (◌∷◌ b'"') (escaped-stripped s rest p ∙ ap (escaped s) h)

record IsTail (s : CString) : Type 0 where
  solid : Solid s
  clean : Each Clean s
  stripped : strip_comment false s ≡ s

more_items-IsTail : (l : List CString) → AllPlain l → IsTail (more_items l)
more_items-IsTail [] h =
    unfold more_items strip_comment in
    record { solid = refl; clean = ((omega arith, omega arith), tt); stripped = refl }
more_items-IsTail (s ∷ l) h =
    let t = more_items-IsTail l h.2 in
    rw (more_items-cons s l) (record {
      solid =
          Solid-cons b'"' (escaped s (more_items l))
            (escaped-Solid s (more_items l) h.0 (Solid-cons b'"' (more_items l) t.solid));
      clean = (
        (omega arith, omega arith),
        (
          (omega arith, omega arith),
          ((omega arith, omega arith), escaped-Clean s (more_items l) h.0 t.clean),
        ),
      );
      stripped =
          strip-separator (b'"' ∷ escaped s (more_items l))
          ∙ ap (λ r. b',' ∷ b' ' ∷ r) (quoted-stripped s (more_items l) h.0 t.stripped);
    })

-- The digits of a number in front of a tail, or of nothing.
strip-digit :
    (d : ℕ) (s : CString)
    → IsDigitByte d
    → strip_comment false s ≡ s
    → strip_comment false (d ∷ s) ≡ d ∷ s
strip-digit d s r h = step d s r ∙ ap (◌∷◌ d) h
  where
    step :
        (d : ℕ) (s : CString)
        → IsDigitByte d
        → strip_comment false (d ∷ s) ≡ d ∷ strip_comment false s
    step d s r = unfold strip_comment in ground arith

-- What holds of every digit in front of the rest holds of the digits of a number.
module _ (P : CString → Type 0)
    (front : (d : ℕ) (s : CString) → IsDigitByte d → P s → P (d ∷ s)) where
  decimal-all :
      (fuel n : ℕ) (rest : CString)
      → n < fuel
      → ((d : ℕ) → IsDigitByte d → P (d ∷ rest))
      → P (decimal fuel n rest)
  decimal-all zero n rest h k = absurd (omega arith)
  decimal-all (suc fuel) n rest h k = elim (dec_lt n 10) [
    | yes small ↦ rw (decimal-small fuel n rest small) (k (b'0' + n) (omega arith, omega arith))
    | no large ↦ rw (decimal-large fuel n rest (omega arith)) (
        decimal-all fuel (n / 10) ((b'0' + n % 10) ∷ rest) (omega arith) (λ d r.
          front d ((b'0' + n % 10) ∷ rest) r (k (b'0' + n % 10) (omega arith, omega arith))))
  ]

-- The digits of a number are tidy.
record IsDigits (s : CString) : Type 0 where
  firm : Firm s
  tail : IsTail s

digit-IsDigits : (d : ℕ) → IsDigitByte d → IsDigits (d ∷ [])
digit-IsDigits d r = record {
  firm = ground arith;
  tail = record {
    solid = ground arith;
    clean = ((omega arith, omega arith), tt);
    stripped = strip-digit d [] r (unfold strip_comment in refl);
  };
}

IsDigits-cons : (d : ℕ) (s : CString) → IsDigitByte d → IsDigits s → IsDigits (d ∷ s)
IsDigits-cons d s r h = record {
  firm = ground arith;
  tail = record {
    solid = Solid-cons d s h.tail.solid;
    clean = ((omega arith, omega arith), h.tail.clean);
    stripped = strip-digit d s r h.tail.stripped;
  };
}

decimal-IsDigits : (fuel n : ℕ) → n < fuel → IsDigits (decimal fuel n [])
decimal-IsDigits fuel n h = decimal-all IsDigits IsDigits-cons fuel n [] h digit-IsDigits

digits-IsTidy : (s : CString) → IsDigits s → IsTidy s
digits-IsTidy s h = record {
  firm = h.firm;
  solid = h.tail.solid;
  clean = h.tail.clean;
  stripped = h.tail.stripped;
}

strip-minus : (s : CString) → strip_comment false (b'-' ∷ s) ≡ b'-' ∷ strip_comment false s
unfolding strip_comment
strip-minus s = refl

strip-bracket : (s : CString) → strip_comment false (b'[' ∷ s) ≡ b'[' ∷ strip_comment false s
unfolding strip_comment
strip-bracket s = refl

minus-IsTidy : (s : CString) → IsDigits s → IsTidy (b'-' ∷ s)
minus-IsTidy s h = record {
  firm = refl;
  solid = Solid-cons b'-' s h.tail.solid;
  clean = ((omega arith, omega arith), h.tail.clean);
  stripped = strip-minus s ∙ ap (◌∷◌ b'-') h.tail.stripped;
}

quoted-IsTidy :
    (s rest : CString)
    → Each Plain s
    → Solid (b'"' ∷ rest)
    → Each Clean rest
    → strip_comment false rest ≡ rest
    → IsTidy (b'"' ∷ escaped s rest)
quoted-IsTidy s rest p h c e = record {
  firm = refl;
  solid = Solid-cons b'"' (escaped s rest) (escaped-Solid s rest p h);
  clean = ((omega arith, omega arith), escaped-Clean s rest p c);
  stripped = quoted-stripped s rest p e;
}

bracket-IsTidy : (s : CString) → IsTidy s → IsTidy (b'[' ∷ s)
bracket-IsTidy s h = record {
  firm = refl;
  solid = Solid-cons b'[' s h.solid;
  clean = ((omega arith, omega arith), h.clean);
  stripped = strip-bracket s ∙ ap (◌∷◌ b'[') h.stripped;
}

closing : IsTidy (b']' ∷ [])
closing = record {
  firm = refl;
  solid = refl;
  clean = ((omega arith, omega arith), tt);
  stripped = unfold strip_comment in refl;
}

array_text-IsTidy : (l : List CString) → AllPlain l → IsTidy (array_text l)
array_text-IsTidy [] h = unfold array_text in bracket-IsTidy (b']' ∷ []) closing
array_text-IsTidy (s ∷ l) h =
    let t = more_items-IsTail l h.2 in
    unfold array_text in
    bracket-IsTidy (b'"' ∷ escaped s (more_items l)) (
      quoted-IsTidy s (more_items l) h.0 (Solid-cons b'"' (more_items l) t.solid) t.clean
        t.stripped)

boolean-IsTidy : (b : Bool) → IsTidy (value_text_of (boolean b))
unfolding value_text_of strip_comment
boolean-IsTidy true = record {
  firm = refl;
  solid = refl;
  clean = (
    (omega arith, omega arith),
    ((omega arith, omega arith), ((omega arith, omega arith), ((omega arith, omega arith), tt))),
  );
  stripped = refl;
}
boolean-IsTidy false = record {
  firm = refl;
  solid = refl;
  clean = (
    (omega arith, omega arith),
    (
      (omega arith, omega arith),
      ((omega arith, omega arith), ((omega arith, omega arith), ((omega arith, omega arith), tt))),
    ),
  );
  stripped = refl;
}

pub value_text-IsTidy : (v : Value) → Writable v → IsTidy (value_text_of v)
value_text-IsTidy (string s) w =
    unfold value_text_of in quoted-IsTidy s [] w.0 refl tt (unfold strip_comment in refl)
value_text-IsTidy (integer (pos n)) w =
    unfold value_text_of integer_text in
    digits-IsTidy (decimal (suc n) n []) (decimal-IsDigits (suc n) n (omega arith))
value_text-IsTidy (integer (negsuc n)) w =
    unfold value_text_of integer_text in
    minus-IsTidy (decimal (suc (suc n)) (suc n) [])
      (decimal-IsDigits (suc (suc n)) (suc n) (omega arith))
value_text-IsTidy (boolean b) w = boolean-IsTidy b
value_text-IsTidy (array l) w = unfold value_text_of in array_text-IsTidy l w.1
