-- ===== src/Init/Toml/ReadValue.antt =====
-- parse_value of src/luna-init/toml.c reads back the text of a value.
use mahina_os.Init.Toml.{Parsed, ok, ◌>>=◌, Value, string, integer, boolean, array}
use mahina_os.Init.Toml.Text.{trim_left}
use mahina_os.Init.Toml.Values.{
  item, array_round, array_loop, digits, magnitude, integer_value, parse_value,
}
use mahina_os.Init.Toml.Print.{
  escaped, more_items, array_text, decimal, integer_text, value_text_of, Each, Plain, AllPlain,
  Writable,
}
use mahina_os.Init.Toml.Strings.{string_value-escaped, advance-escaped, Plain-EndsOpen}
use mahina_os.Prelude.{
  ℕ, zero, suc, ◌+◌, ◌-◌, ◌*◌, ◌/◌, ◌%◌, ◌^◌, ◌≤◌, ◌<◌, ◌≡◌, refl, ap, ◌∙◌, Bool, true, false, List,
  [], ◌∷◌, none, some, arith, ltb, leb, if◌then◌else◌, length, CString, pos, negsuc, sub_ℕ, dec_lt,
}

-- A round of the loop that reads a plain string.
array_item-read :
    (s rest : CString) (next : CString → Parsed (List CString))
    → Each Plain s
    → length s < 256
    → array_round (b'"' ∷ escaped s rest) next false ≡ item s (next rest)
unfolding array_round
array_item-read s rest next plain fits =
    rw (string_value-escaped s rest fits (Plain-EndsOpen s plain), advance-escaped s rest plain)
      refl

-- The loop in front of an item, and in front of one more item.
array_loop-item :
    (room : ℕ) (p : CString)
    → array_loop (suc room) (b'"' ∷ p) ≡ array_round (b'"' ∷ p) (λ q. array_loop room q) false
unfolding array_loop
array_loop-item room p = refl

array_loop-separated :
    (room : ℕ) (p : CString)
    → array_loop (suc room) (b',' ∷ b' ' ∷ b'"' ∷ p)
      ≡ array_round (b'"' ∷ p) (λ q. array_loop room q) false
unfolding array_loop
array_loop-separated room p = refl

array_loop-close : (room : ℕ) → array_loop room (b']' ∷ []) ≡ ok []
unfolding array_loop
array_loop-close zero = refl
array_loop-close (suc room) = refl

pub more_items-cons :
    (s : CString) (l : List CString)
    → more_items (s ∷ l) ≡ b',' ∷ b' ' ∷ b'"' ∷ escaped s (more_items l)
unfolding more_items
more_items-cons s l = refl

array_loop-more :
    (l : List CString) (room : ℕ)
    → length l ≤ room
    → AllPlain l
    → array_loop room (more_items l) ≡ ok l
array_loop-more [] room fits h = unfold more_items in array_loop-close room
array_loop-more (s ∷ l) zero fits h = absurd (omega arith)
array_loop-more (s ∷ l) (suc room) fits h =
    ap (array_loop (suc room)) (more_items-cons s l)
    ∙ array_loop-separated room (escaped s (more_items l))
    ∙ array_item-read s (more_items l) (λ q. array_loop room q) h.0 h.1
    ∙ ap (item s) (array_loop-more l room (omega arith) h.2)

parse_value-array :
    (l : List CString) → length l ≤ 16 → AllPlain l → parse_value (array_text l) ≡ ok (array l)
unfolding parse_value array_text
parse_value-array [] fits h = refl
parse_value-array (s ∷ l) fits h =
    let e : array_loop 16 (b'"' ∷ escaped s (more_items l)) ≡ ok (s ∷ l) =
      array_loop-item 15 (escaped s (more_items l))
      ∙ array_item-read s (more_items l) (λ q. array_loop 15 q) h.0 h.1
      ∙ ap (item s) (array_loop-more l 15 (omega arith) h.2) in
    ap (λ r. r >>= λ items. ok (array items)) e

parse_value-string :
    (s : CString)
    → Each Plain s
    → length s < 256
    → parse_value (b'"' ∷ escaped s []) ≡ ok (string s)
parse_value-string s plain fits =
    let e = string_value-escaped s [] fits (Plain-EndsOpen s plain) in
    unfold parse_value in ap (λ r. r >>= λ t. ok (string t)) e

digits-digit :
    (d : ℕ) (rest : CString) (n : ℕ)
    → d < 10
    → digits ((b'0' + d) ∷ rest) n ≡ digits rest (n * 10 + d)
unfolding digits
digits-digit d rest n h = let e : b'0' + d - b'0' ≡ d = omega arith in ground arith

pub decimal-small :
    (fuel n : ℕ) (rest : CString) → n < 10 → decimal (suc fuel) n rest ≡ (b'0' + n) ∷ rest
unfolding decimal
decimal-small fuel n rest h = ground arith

pub decimal-large :
    (fuel n : ℕ) (rest : CString)
    → 10 ≤ n
    → decimal (suc fuel) n rest ≡ decimal fuel (n / 10) ((b'0' + n % 10) ∷ rest)
unfolding decimal
decimal-large fuel n rest h = ground arith

-- The digits of a number, read from 0.
digits-decimal :
    (fuel n : ℕ) (rest : CString) → n < fuel → digits (decimal fuel n rest) 0 ≡ digits rest n
digits-decimal zero n rest h = absurd (omega arith)
digits-decimal (suc fuel) n rest h = elim (dec_lt n 10) [
  | yes small ↦
      rw (decimal-small fuel n rest small)
        (digits-digit n rest 0 small ∙ ap (digits rest) (omega arith))
  | no large ↦ rw (decimal-large fuel n rest (omega arith)) (
      digits-decimal fuel (n / 10) ((b'0' + n % 10) ∷ rest) (omega arith)
      ∙ digits-digit (n % 10) rest (n / 10) (omega arith)
      ∙ ap (digits rest) (omega arith))
]

-- A number begins with a digit.
decimal-head :
    (fuel n : ℕ) (rest : CString)
    → n < fuel
    → (d : ℕ) × (t : CString) × (decimal fuel n rest ≡ d ∷ t) × (b'0' ≤ d) × (d ≤ b'9')
decimal-head zero n rest h = absurd (omega arith)
decimal-head (suc fuel) n rest h = elim (dec_lt n 10) [
  | yes small ↦ (b'0' + n, rest, decimal-small fuel n rest small, omega arith, omega arith)
  | no large ↦
      let (d, t, e, lo, hi) = decimal-head fuel (n / 10) ((b'0' + n % 10) ∷ rest) (omega arith) in
      (d, t, decimal-large fuel n rest (omega arith) ∙ e, lo, hi)
]

magnitude-digits :
    (negative : Bool) (d : ℕ) (t : CString) (n : ℕ)
    → b'0' ≤ d
    → d ≤ b'9'
    → digits (d ∷ t) 0 ≡ (n, [])
    → magnitude negative (d ∷ t) ≡ (
        if negative
        then (if leb n (2 ^ 63) then some (sub_ℕ 0 n, []) else none)
        else (if ltb n (2 ^ 63) then some (pos n, []) else none))
unfolding magnitude
magnitude-digits negative d t n lo hi e = ground arith

scalar-digit :
    (d : ℕ) (t : CString)
    → b'0' ≤ d
    → d ≤ b'9'
    → parse_value (d ∷ t) ≡ integer_value (magnitude false (d ∷ t))
unfolding parse_value trim_left
scalar-digit d t lo hi = ground arith

scalar-minus : (t : CString) → parse_value (b'-' ∷ t) ≡ integer_value (magnitude true t)
scalar-minus t = unfold parse_value trim_left in refl

integer_value-pos : (n : ℕ) → n < 2 ^ 63 → parse_value (integer_text (pos n)) ≡ ok (integer (pos n))
integer_value-pos n h =
    let (d, t, e, lo, hi) = decimal-head (suc n) n [] (omega arith) in
    let read : digits (d ∷ t) 0 ≡ (n, []) =
      rw (← e) (unfold digits in digits-decimal (suc n) n [] (omega arith)) in
    let m = magnitude-digits false d t n lo hi read in
    unfold integer_text in rw e (scalar-digit d t lo hi ∙ ap integer_value m ∙ ground arith)

integer_value-negsuc :
    (n : ℕ) → n < 2 ^ 63 → parse_value (integer_text (negsuc n)) ≡ ok (integer (negsuc n))
integer_value-negsuc n h =
    let (d, t, e, lo, hi) = decimal-head (suc (suc n)) (suc n) [] (omega arith) in
    let read : digits (d ∷ t) 0 ≡ (suc n, []) =
      rw (← e) (unfold digits in digits-decimal (suc (suc n)) (suc n) [] (omega arith)) in
    let m = magnitude-digits true d t (suc n) lo hi read in
    unfold integer_text in rw e (scalar-minus (d ∷ t) ∙ ap integer_value m ∙ ground arith)

parse_value-boolean : (b : Bool) → parse_value (value_text_of (boolean b)) ≡ ok (boolean b)
unfolding parse_value value_text_of
parse_value-boolean true = refl
parse_value-boolean false = refl

-- The text of a value that can be written is read back as that value: a plain string of fewer than
-- 256 bytes, an int64_t in decimal, a boolean, and an array of at most 16 plain strings.
pub parse_value-text : (v : Value) → Writable v → parse_value (value_text_of v) ≡ ok v
parse_value-text (string s) w = unfold value_text_of in parse_value-string s w.0 w.1
parse_value-text (integer (pos n)) w = unfold value_text_of in integer_value-pos n w
parse_value-text (integer (negsuc n)) w = unfold value_text_of in integer_value-negsuc n w
parse_value-text (boolean b) w = parse_value-boolean b
parse_value-text (array l) w = unfold value_text_of in parse_value-array l w.0 w.1
