-- ===== src/Init/Toml/Valid.antt =====
-- What a document of src/luna-init/toml.c is bounded by, whatever the bytes it is parsed from.
use mahina_os.Init.Toml.{
  Parsed, ok, err, fault, ◌>>=◌, Value, string, integer, boolean, array, max_str_len,
  max_array_items,
}
use mahina_os.Init.Toml.Text.{trim_left}
use mahina_os.Init.Toml.Values.{
  store, string_loop, string_value, advance, skip_quote, skip_separators, item, array_end,
  array_round, array_loop, array_value, magnitude, signed, strtoll, integer_value, scalar_value,
  parse_value,
}
use mahina_os.Init.Toml.Safe.{
  Ensures, bind-Ensures, Ensures-of-NoFault, string_value-NoFault, advance-NoFault, IsOk-of-eq,
}
use mahina_os.Prelude.{
  subst, ℕ, zero, suc, ◌^◌, ◌≤◌, ◌<◌, ◌≡◌, Bool, true, false, List, [], ◌∷◌, Option, none, some,
  arith, length, CString, ℤ, pos_part, neg_part,
}

abbrev pub AllShort : List CString → Type 0
AllShort [] = Unit {0}
AllShort (s ∷ l) = (length s < max_str_len) × AllShort l

-- A value fits its toml_value_t.
abbrev pub Fits : Value → Type 0
Fits (string s) = length s < max_str_len
Fits (integer n) = (neg_part n ≤ 2 ^ 63) × (pos_part n < 2 ^ 63)
Fits (boolean b) = Unit {0}
Fits (array l) = (length l ≤ max_array_items) × AllShort l

store-Ensures :
    (c n : ℕ) (r : Parsed CString)
    → Ensures (λ s. length s ≤ n) r
    → Ensures (λ s. length s ≤ suc n) (store c r)
store-Ensures c n (ok s) h = omega arith
store-Ensures c n (err e) h = tt
store-Ensures c n fault h = h

pub string_loop-Fits :
    (p : CString) (room : ℕ) → Ensures (λ s. length s ≤ room) (string_loop p room)
unfolding string_loop
string_loop-Fits [] zero = tt
string_loop-Fits [] (suc room) = tt
string_loop-Fits (c ∷ p) zero = ground arith
string_loop-Fits (c ∷ []) (suc room) = ground arith
string_loop-Fits (c ∷ d ∷ p) (suc room) =
    let e = store-Ensures b'"' room _ (string_loop-Fits p room) in
    let l = store-Ensures c room _ (string_loop-Fits (d ∷ p) room) in ground arith

below-Ensures :
    (r : Parsed CString) → Ensures (λ s. length s ≤ 255) r → Ensures (λ s. length s < max_str_len) r
below-Ensures (ok s) h = omega arith
below-Ensures (err e) h = tt
below-Ensures fault h = h

string_value-Fits : (p : CString) → Ensures (λ s. length s < max_str_len) (string_value p)
unfolding string_value
string_value-Fits [] = tt
string_value-Fits (c ∷ p) =
    let l = below-Ensures (string_loop p 255) (string_loop-Fits p 255) in ground arith

abbrev FewItems : ℕ → List CString → Type 0
FewItems n l = (length l ≤ n) × AllShort l

item-Fits :
    (s : CString) (n : ℕ) (r : Parsed (List CString))
    → length s < max_str_len
    → Ensures (FewItems n) r
    → Ensures (FewItems (suc n)) (item s r)
item-Fits s n (ok l) h k = (omega arith, (h, k.1))
item-Fits s n (err e) h k = tt
item-Fits s n fault h k = k

array_end-Fits : (n : ℕ) (p : CString) → Ensures (FewItems n) (array_end p)
unfolding array_end
array_end-Fits n p = ground arith

array_item-Fits :
    (c : ℕ) (p : CString) (n : ℕ) (next : CString → Parsed (List CString))
    → ((q : CString) → Ensures (FewItems n) (next q))
    → Ensures
        (FewItems (suc n))
        (do s ← string_value (c ∷ p); q ← advance p; item s (next (skip_quote q)))
array_item-Fits c p n next h =
    let read = λ (s : CString). λ (e : string_value (c ∷ p) ≡ ok s).
      Ensures-of-NoFault (λ q. Unit {0}) (advance p) (advance-NoFault c p (IsOk-of-eq _ s e))
        (λ _ _. tt) in
    bind-Ensures (λ s. (length s < max_str_len) × (string_value (c ∷ p) ≡ ok s)) _
      (string_value (c ∷ p)) _
      (Ensures-of-NoFault _ (string_value (c ∷ p)) (string_value-NoFault (c ∷ p))
        (λ s e. (subst (Ensures (λ t. length t < max_str_len)) e (string_value-Fits (c ∷ p)), e)))
      (λ s k.
        bind-Ensures (λ q. Unit {0}) _ (advance p) _ (read s k.1)
          (λ q _. item-Fits s n _ k.0 (h (skip_quote q))))

array_round-Fits :
    (p : CString) (n : ℕ) (next : CString → Parsed (List CString))
    → ((q : CString) → Ensures (FewItems n) (next q))
    → Ensures (FewItems (suc n)) (array_round p next false)
unfolding array_round
array_round-Fits [] n next h = tt
array_round-Fits (c ∷ p) n next h =
    let i = array_item-Fits c p n next h in ground (arith, array_end-Fits (suc n) p)

array_round-full :
    (p : CString) (next : CString → Parsed (List CString))
    → Ensures (FewItems 0) (array_round p next true)
unfolding array_round
array_round-full [] next = tt
array_round-full (c ∷ p) next = ground (arith, array_end-Fits 0 p)

array_loop-Fits : (room : ℕ) (p : CString) → Ensures (FewItems room) (array_loop room p)
unfolding array_loop
array_loop-Fits zero [] = tt
array_loop-Fits (suc room) [] = tt
array_loop-Fits zero (c ∷ p) = array_round-full (skip_separators (c ∷ p)) _
array_loop-Fits (suc room) (c ∷ p) =
    array_round-Fits (skip_separators (c ∷ p)) room _ (λ q. array_loop-Fits room q)

array_value-Fits : (p : CString) → Ensures Fits (array_value p)
unfolding array_value
array_value-Fits p =
    bind-Ensures (FewItems 16) Fits (array_loop 16 p) _ (array_loop-Fits 16 p) (λ l h. h)

abbrev InRange : Option (ℤ × CString) → Type 0
InRange none = Unit {0}
InRange (some (n, end)) = (neg_part n ≤ 2 ^ 63) × (pos_part n < 2 ^ 63)

magnitude-InRange : (negative : Bool) (p : CString) → InRange (magnitude negative p)
unfolding magnitude
magnitude-InRange true p = ground arith
magnitude-InRange false p = ground arith

signed-InRange : (p : CString) → InRange (signed p)
unfolding signed
signed-InRange [] = tt
signed-InRange (c ∷ p) =
    let a = magnitude-InRange true p in
    let b = magnitude-InRange false p in let d = magnitude-InRange false (c ∷ p) in ground arith

integer_value-Fits : (o : Option (ℤ × CString)) → InRange o → Ensures Fits (integer_value o)
integer_value-Fits none h = tt
integer_value-Fits (some (n, [])) h = h
integer_value-Fits (some (n, c ∷ p)) h = tt

scalar_value-Fits : (p : CString) → Ensures Fits (scalar_value p)
unfolding scalar_value strtoll
scalar_value-Fits p =
    let i = integer_value-Fits (strtoll p) (signed-InRange (trim_left p)) in ground arith

-- A value that parse_value accepts fits its toml_value_t: a string or item is shorter than its
-- buffer, an array has at most 16 items, and an integer lies in the range of an int64_t.
pub parse_value-Fits : (p : CString) → Ensures Fits (parse_value p)
unfolding parse_value
parse_value-Fits [] = scalar_value-Fits []
parse_value-Fits (c ∷ p) =
    let s : Ensures Fits (do s ← string_value (c ∷ p); ok (Value.string s)) =
      bind-Ensures (λ s. length s < 256) Fits (string_value (c ∷ p)) _ (string_value-Fits (c ∷ p))
        (λ s h. h) in
    let a = array_value-Fits p in let n = scalar_value-Fits (c ∷ p) in ground arith
