-- ===== src/Prelude/Bytes.antt =====
-- C strings as the bytes before the NUL, and the comparison of strcmp(3).
use Prim.Native.Char.{code}
use Prim.Native.Nat.{ℕ}
use Prim.Native.String.{String}
use mathlib.Core.Path.{◌≡◌, refl}
use mathlib.Core.Bool.{Bool, true, false, ◌&&◌}
use mathlib.Core.List.{List, [], ◌∷◌}
use native.Mathlib.Omega.{arith}
use mahina_os.Prelude.Tests.{◌==◌}

-- The bytes before the terminating NUL.
abbrev pub CString : Type 0
CString = List ℕ

-- strcmp(a, b) == 0
abbrev pub str_eq : CString → CString → Bool
str_eq [] [] = true
str_eq [] (b ∷ bs) = false
str_eq (a ∷ r) [] = false
str_eq (a ∷ r) (b ∷ bs) = a == b && str_eq r bs

pub str_eq_refl : (a : CString) → str_eq a a ≡ true
str_eq_refl [] = refl
str_eq_refl (a ∷ r) = ground (arith, str_eq_refl r)

pub eq_of_str_eq : (a b : CString) → str_eq a b ≡ true → a ≡ b
eq_of_str_eq [] [] h = refl
eq_of_str_eq [] (b ∷ bs) h = ground arith
eq_of_str_eq (a ∷ r) [] h = ground arith
eq_of_str_eq (a ∷ r) (b ∷ bs) h = ground (arith, eq_of_str_eq r bs)

-- The code points of an ASCII text: its bytes.
abbrev pub codes : String → CString
codes String.[] = []
codes (String.◌∷◌ c s) = code c ∷ codes s
