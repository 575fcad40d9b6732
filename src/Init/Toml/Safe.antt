-- ===== src/Init/Toml/Safe.antt =====
-- No function of src/luna-init/toml.c reads past the end of a string.
use mahina_os.Init.Toml.{Parsed, ok, err, fault, ◌>>=◌, require, from_option, Value, Error}
use mahina_os.Init.Toml.Values.{
  store, string_loop, string_value, advance, skip_quote, item, array_end, array_round, array_loop,
  skip_separators, array_value, integer_value, scalar_value, parse_value, strtoll,
}
use mahina_os.Init.Toml.Quotes.{IsOk, AtQuote, string_loop-Follows}
use mahina_os.Prelude.{
  ℕ, zero, suc, ◌≡◌, refl, Bool, true, false, List, [], ◌∷◌, Option, none, some, arith, CString, ℤ,
}

-- No read past the end.
abbrev pub NoFault {ℓ} : {A : Type ℓ} → Parsed A → Type 0
NoFault (ok a) = Unit {0}
NoFault (err e) = Unit {0}
NoFault fault = ⊥

pub bind-NoFault {ℓ κ} :
    {A : Type ℓ} {B : Type κ} (m : Parsed A) (f : A → Parsed B)
    → NoFault m
    → ((a : A) → m ≡ ok a → NoFault (f a))
    → NoFault (m >>= f)
bind-NoFault (ok a) f n h = h a refl
bind-NoFault (err e) f n h = tt
bind-NoFault fault f n h = n

pub require-NoFault : (b : Bool) (e : Error) → NoFault (require b e)
require-NoFault true e = tt
require-NoFault false e = tt

pub from_option-NoFault {ℓ} : {A : Type ℓ} (o : Option A) (e : Error) → NoFault (from_option o e)
from_option-NoFault (some a) e = tt
from_option-NoFault none e = tt

store-NoFault : (c : ℕ) (r : Parsed CString) → NoFault r → NoFault (store c r)
store-NoFault c (ok s) h = tt
store-NoFault c (err e) h = tt
store-NoFault c fault h = h

string_loop-NoFault : (p : CString) (room : ℕ) → NoFault (string_loop p room)
unfolding string_loop
string_loop-NoFault [] zero = tt
string_loop-NoFault [] (suc room) = tt
string_loop-NoFault (c ∷ p) zero = ground arith
string_loop-NoFault (c ∷ []) (suc room) = ground arith
string_loop-NoFault (c ∷ d ∷ p) (suc room) =
    let e = store-NoFault b'"' _ (string_loop-NoFault p room) in
    let l = store-NoFault c _ (string_loop-NoFault (d ∷ p) room) in ground arith

pub string_value-NoFault : (p : CString) → NoFault (string_value p)
unfolding string_value
string_value-NoFault [] = tt
string_value-NoFault (c ∷ p) = ground (arith, string_loop-NoFault p 255)

pub IsOk-of-eq {ℓ} : {A : Type ℓ} (r : Parsed A) (a : A) → r ≡ ok a → IsOk r
IsOk-of-eq r a e = rw e tt

AtQuote-NoFault : (r : Parsed CString) → AtQuote r → NoFault r
AtQuote-NoFault (ok s) h = tt
AtQuote-NoFault (err e) h = tt
AtQuote-NoFault fault h = h

string_value-IsOk : (c : ℕ) (p : CString) → IsOk (string_value (c ∷ p)) → IsOk (string_loop p 255)
unfolding string_value
string_value-IsOk c p h = ground arith

-- The search behind a string that was read stays inside the text.
pub advance-NoFault : (c : ℕ) (p : CString) → IsOk (string_value (c ∷ p)) → NoFault (advance p)
advance-NoFault c p h = AtQuote-NoFault _ (string_loop-Follows p 255 (string_value-IsOk c p h)).0

item-NoFault : (s : CString) (r : Parsed (List CString)) → NoFault r → NoFault (item s r)
item-NoFault s (ok l) h = tt
item-NoFault s (err e) h = tt
item-NoFault s fault h = h

array_end-NoFault : (p : CString) → NoFault (array_end p)
unfolding array_end
array_end-NoFault p = ground arith

array_item-NoFault :
    (c : ℕ) (p : CString) (next : CString → Parsed (List CString))
    → ((q : CString) → NoFault (next q))
    → NoFault (do s ← string_value (c ∷ p); q ← advance p; item s (next (skip_quote q)))
array_item-NoFault c p next h =
    bind-NoFault (string_value (c ∷ p)) _ (string_value-NoFault (c ∷ p)) (λ s e.
      bind-NoFault (advance p) _ (advance-NoFault c p (IsOk-of-eq _ s e))
        (λ q _. item-NoFault s _ (h (skip_quote q))))

array_round-NoFault :
    (p : CString) (next : CString → Parsed (List CString)) (full : Bool)
    → ((q : CString) → NoFault (next q))
    → NoFault (array_round p next full)
unfolding array_round
array_round-NoFault [] next full h = tt
array_round-NoFault (c ∷ p) next full h =
    let i = array_item-NoFault c p next h in ground (arith, array_end-NoFault p)

array_loop-NoFault : (room : ℕ) (p : CString) → NoFault (array_loop room p)
unfolding array_loop
array_loop-NoFault zero [] = tt
array_loop-NoFault (suc room) [] = tt
array_loop-NoFault zero (c ∷ p) = array_round-NoFault (skip_separators (c ∷ p)) _ true (λ q. tt)
array_loop-NoFault (suc room) (c ∷ p) =
    array_round-NoFault (skip_separators (c ∷ p)) _ false (λ q. array_loop-NoFault room q)

array_value-NoFault : (p : CString) → NoFault (array_value p)
unfolding array_value
array_value-NoFault p = bind-NoFault (array_loop 16 p) _ (array_loop-NoFault 16 p) (λ l e. tt)

integer_value-NoFault : (o : Option (ℤ × CString)) → NoFault (integer_value o)
integer_value-NoFault none = tt
integer_value-NoFault (some (n, [])) = tt
integer_value-NoFault (some (n, c ∷ p)) = tt

scalar_value-NoFault : (p : CString) → NoFault (scalar_value p)
unfolding scalar_value
scalar_value-NoFault p = let i = integer_value-NoFault (strtoll p) in ground arith

pub parse_value-NoFault : (p : CString) → NoFault (parse_value p)
unfolding parse_value
parse_value-NoFault [] = scalar_value-NoFault []
parse_value-NoFault (c ∷ p) =
    let s : NoFault (do s ← string_value (c ∷ p); ok (Value.string s)) =
      bind-NoFault (string_value (c ∷ p)) _ (string_value-NoFault (c ∷ p)) (λ s e. tt) in
    ground (arith, array_value-NoFault p, scalar_value-NoFault (c ∷ p))

-- The function reads inside its strings, and its result, where there is one, has a property.
abbrev pub Ensures {ℓ} : {A : Type ℓ} → (A → Type 0) → Parsed A → Type 0
Ensures P (ok a) = P a
Ensures P (err e) = Unit {0}
Ensures P fault = ⊥

pub bind-Ensures {ℓ κ} :
    {A : Type ℓ} {B : Type κ} (P : A → Type 0) (Q : B → Type 0) (m : Parsed A) (f : A → Parsed B)
    → Ensures P m
    → ((a : A) → P a → Ensures Q (f a))
    → Ensures Q (m >>= f)
bind-Ensures P Q (ok a) f h k = k a h
bind-Ensures P Q (err e) f h k = tt
bind-Ensures P Q fault f h k = absurd h

pub require-Ensures : (b : Bool) (e : Error) → Ensures (λ _. b ≡ true) (require b e)
require-Ensures true e = refl
require-Ensures false e = tt

pub from_option-Ensures :
    {A : Type 0} (o : Option A) (e : Error) → Ensures (λ a. o ≡ some a) (from_option o e)
from_option-Ensures (some a) e = refl
from_option-Ensures none e = tt

pub Ensures-of-NoFault {ℓ} :
    {A : Type ℓ} (P : A → Type 0) (r : Parsed A)
    → NoFault r
    → ((a : A) → r ≡ ok a → P a)
    → Ensures P r
Ensures-of-NoFault P (ok a) n h = h a refl
Ensures-of-NoFault P (err e) n h = tt
Ensures-of-NoFault P fault n h = absurd n
