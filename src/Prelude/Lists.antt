-- ===== src/Prelude/Lists.antt =====
-- Arrays as lists under native indices, membership and counting as Boolean functions.
use Prim.Native.Nat.{ℕ, zero, suc, ◌+◌, ◌≤◌, ◌<◌}
use mathlib.Core.Path.{◌≡◌, refl, ap, sym, subst, ◌∙◌}
use mathlib.Core.Logic.{◌≢◌, ◌⊎◌, inl, inr}
use mathlib.Core.Bool.{Bool, true, false, ◌&&◌, ◌||◌}
use mathlib.Core.List.{List, [], ◌∷◌, ◌++◌}
use mathlib.Core.Option.{Option, none, some}
use native.Mathlib.Omega.{arith}
use native.Mathlib.Decide.{ℕ_discrete}
use mahina_os.Prelude.Tests.{◌==◌, ltb, if◌then◌else◌, Bool-cases}

module _ {ℓ} {A : Type ℓ} where
  abbrev pub length : List A → ℕ
  length [] = 0
  length (x ∷ xs) = suc (length xs)

  abbrev pub get_elem? : List A → ℕ → Option A
  get_elem? [] i = none
  get_elem? (x ∷ xs) zero = some x
  get_elem? (x ∷ xs) (suc i) = get_elem? xs i

  -- A write out of bounds changes nothing.
  abbrev pub set : List A → ℕ → A → List A
  set [] i v = []
  set (x ∷ xs) zero v = v ∷ xs
  set (x ∷ xs) (suc i) v = x ∷ set xs i v

  abbrev pub take : ℕ → List A → List A
  take zero xs = []
  take (suc n) [] = []
  take (suc n) (x ∷ xs) = x ∷ take n xs

  abbrev pub drop : ℕ → List A → List A
  drop zero xs = xs
  drop (suc n) [] = []
  drop (suc n) (x ∷ xs) = drop n xs

  abbrev pub replicate : ℕ → A → List A
  replicate zero a = []
  replicate (suc n) a = a ∷ replicate n a

module _ {ℓ} {A : Type ℓ} where
  pub length-append : (xs ys : List A) → length (xs ++ ys) ≡ length xs + length ys
  length-append [] ys = omega arith
  length-append (x ∷ xs) ys = omega (arith, length-append xs ys)

  pub length-set : (xs : List A) (i : ℕ) (v : A) → length (set xs i v) ≡ length xs
  length-set [] i v = refl
  length-set (x ∷ xs) zero v = refl
  length-set (x ∷ xs) (suc i) v = ap suc (length-set xs i v)

  pub get_elem?-lt : (xs : List A) (i : ℕ) → i < length xs → (x : A) × (get_elem? xs i ≡ some x)
  get_elem?-lt [] i h = absurd (omega arith)
  get_elem?-lt (x ∷ xs) zero h = (x, refl)
  get_elem?-lt (x ∷ xs) (suc i) h = get_elem?-lt xs i (omega arith)

  pub lt-length_of_get : (xs : List A) (i : ℕ) (x : A) → get_elem? xs i ≡ some x → i < length xs
  lt-length_of_get [] i x h = cc
  lt-length_of_get (y ∷ ys) zero x h = omega arith
  lt-length_of_get (y ∷ ys) (suc i) x h = omega (arith, lt-length_of_get ys i x h)

  pub get_elem?-set :
      (xs : List A) (i j : ℕ) (v : A)
      → get_elem? (set xs i v) j
        ≡ (if ltb i (length xs) && (i == j) then some v else get_elem? xs j)
  get_elem?-set [] i j v = ground arith
  get_elem?-set (x ∷ xs) zero zero v = ground arith
  get_elem?-set (x ∷ xs) zero (suc j) v = ground arith
  get_elem?-set (x ∷ xs) (suc i) zero v = ground arith
  get_elem?-set (x ∷ xs) (suc i) (suc j) v = ground (arith, get_elem?-set xs i j v)

-- Membership, and the number of indices below `n` that pass a test.
abbrev pub elem : ℕ → List ℕ → Bool
elem a [] = false
elem a (x ∷ xs) = (x == a) || elem a xs

abbrev pub count_below : ℕ → (ℕ → Bool) → ℕ
count_below zero p = 0
count_below (suc n) p = if p n then suc (count_below n p) else count_below n p

pub elem-append : (a : ℕ) (xs ys : List ℕ) → elem a (xs ++ ys) ≡ (elem a xs || elem a ys)
elem-append a [] ys = refl
elem-append a (x ∷ xs) ys = ground (arith, elem-append a xs ys)

-- No entry twice, and every entry below `n`.
abbrev pub IsDistinct : List ℕ → Type 0
IsDistinct [] = Unit {0}
IsDistinct (x ∷ xs) = (elem x xs ≡ false) × IsDistinct xs

abbrev pub IsBelow : ℕ → List ℕ → Type 0
IsBelow n [] = Unit {0}
IsBelow n (x ∷ xs) = (x < n) × IsBelow n xs

pub count_below-le : (n : ℕ) (p : ℕ → Bool) → count_below n p ≤ n
count_below-le zero p = omega arith
count_below-le (suc n) p = ground (arith, count_below-le n p)

-- Two tests that agree below `n` have the same count.
pub count_below-congr :
    (n : ℕ) (p q : ℕ → Bool) → ((i : ℕ) → i < n → p i ≡ q i) → count_below n p ≡ count_below n q
count_below-congr zero p q h = refl
count_below-congr (suc n) p q h =
    ground (arith, h n, count_below-congr n p q (λ i lt. h i (omega arith)))

-- A test that is made to fail at one more index.
pub count_below-drop :
    (n v : ℕ) (p q : ℕ → Bool)
    → v < n
    → p v ≡ true
    → q v ≡ false
    → ((i : ℕ) → i < n → i ≢ v → p i ≡ q i)
    → count_below n p ≡ suc (count_below n q)
count_below-drop zero v p q lt a b h = absurd (omega arith)
count_below-drop (suc n) v p q lt a b h = elim (ℕ_discrete n v) [
  | yes e ↦
      let same = count_below-congr n p q (λ i l. h i (omega arith) (omega arith)) in
      let pn : p n ≡ true = subst (λ t. p t ≡ true) (sym e) a in
      let qn : q n ≡ false = subst (λ t. q t ≡ false) (sym e) b in ground arith
  | no ne ↦
      let rest = count_below-drop n v p q (omega arith) a b (λ i l. h i (omega arith)) in
      ground (arith, h n (omega arith) ne)
]

pub count_below-pos : (n : ℕ) (p : ℕ → Bool) (v : ℕ) → v < n → p v ≡ true → 0 < count_below n p
count_below-pos zero p v lt h = absurd (omega arith)
count_below-pos (suc n) p v lt h = elim (ℕ_discrete n v) [
  | yes e ↦ let pn : p n ≡ true = subst (λ t. p t ≡ true) (sym e) h in ground arith
  | no ne ↦ ground (arith, count_below-pos n p v (omega arith) h)
]

-- A test that holds at none.
pub count_below-zero :
    (n : ℕ) (p : ℕ → Bool) → ((i : ℕ) → i < n → p i ≡ false) → count_below n p ≡ 0
count_below-zero zero p h = refl
count_below-zero (suc n) p h = ground (arith, h n, count_below-zero n p (λ i lt. h i (omega arith)))

pub count_below-all : (n : ℕ) (p : ℕ → Bool) → count_below n p ≡ n → (i : ℕ) → i < n → p i ≡ true
count_below-all zero p h i lt = absurd (omega arith)
count_below-all (suc n) p h i lt = elim (ℕ_discrete n i) [
  | yes e ↦ subst (λ t. p t ≡ true) e (ground (arith, count_below-le n p))
  | no ne ↦ count_below-all n p (ground (arith, count_below-le n p)) i (omega arith)
]

pub count_below-full : (n : ℕ) (p : ℕ → Bool) → ((i : ℕ) → i < n → p i ≡ true) → count_below n p ≡ n
count_below-full zero p h = refl
count_below-full (suc n) p h = ground (arith, h n, count_below-full n p (λ i lt. h i (omega arith)))

-- A test that holds somewhere, or that fails somewhere.
pub count_below-witness :
    (n : ℕ) (p : ℕ → Bool) → 0 < count_below n p → (i : ℕ) × (i < n) × (p i ≡ true)
count_below-witness zero p h = absurd (omega arith)
count_below-witness (suc n) p h = elim (Bool-cases (p n)) [
  | inl e ↦ (n, omega arith, e)
  | inr e ↦ let (i, lt, pi) = count_below-witness n p (ground arith) in (i, omega arith, pi)
]

pub count_below-gap :
    (n : ℕ) (p : ℕ → Bool) → count_below n p < n → (i : ℕ) × (i < n) × (p i ≡ false)
count_below-gap zero p h = absurd (omega arith)
count_below-gap (suc n) p h = elim (Bool-cases (p n)) [
  | inl e ↦ let (i, lt, pi) = count_below-gap n p (ground arith) in (i, omega arith, pi)
  | inr e ↦ (n, omega arith, e)
]

-- A list of distinct entries below `n` is as long as the number of its members.
pub count_below-elem :
    (n : ℕ) (xs : List ℕ)
    → IsDistinct xs
    → IsBelow n xs
    → count_below n (λ v. elem v xs) ≡ length xs
count_below-elem n [] d b = count_below-zero n (λ v. false) (λ i lt. refl)
count_below-elem n (x ∷ xs) d b =
    count_below-drop n x (λ v. elem v (x ∷ xs)) (λ v. elem v xs) b.0 (ground arith) d.0
      (λ i lt ne. ground arith)
    ∙ ap suc (count_below-elem n xs d.1 b.1)

pub List-cases {ℓ} :
    {A : Type ℓ} (xs : List A) → (xs ≡ []) ⊎ ((x : A) × (rest : List A) × (xs ≡ x ∷ rest))
List-cases [] = inl refl
List-cases (x ∷ xs) = inr (x, xs, refl)
