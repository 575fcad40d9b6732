-- ===== src/Lgp/Session/Hits.antt =====
-- Which surfaces may get the pointer in src/lgp-compositor/main.c, against the test of its loop.
use mahina_os.Prelude.{
  ◌<◌, ◌≢◌, ◌≤ℤ◌, ◌+ℤ◌, +ℤ_parts, pos, pos_part, neg_part, ltb_ℤ, ◌+◌, not, ◌||◌, leb, ltb→lt,
  Bool-cases, ◌==◌, ℕ, ◌≤◌, ◌≡◌, Bool, true, ◌&&◌, Option, none, some, arith, ltb, ℤ, inl, inr,
  refl,
}
use mahina_os.Lgp.Surface.{Surface}
use mahina_os.Lgp.Session.Routes.{is_target, covers, owned_by}

-- The point lies in the rectangle of a surface.
abbrev pub Covers : Surface → ℤ → ℤ → Type 0
Covers s x y =
    (s.x ≤ℤ x)
    × (x +ℤ pos 1 ≤ℤ s.x +ℤ pos s.width)
    × (s.y ≤ℤ y)
    × (y +ℤ pos 1 ≤ℤ s.y +ℤ pos s.height)

-- A surface that may get the pointer: it is in use, not of the window manager, on a layer from that of
-- the applications to below that of the shell, neither minimized nor hidden, and under the point.
pub record IsTarget (wm : Option ℕ) (x y : ℤ) (s : Surface) : Type 0 where
  pub used : s.in_use ≡ true
  pub not_wm : ¬ (wm ≡ some s.owner)
  pub on_layer : (100 ≤ s.layer) × (s.layer < 200)
  pub shown : (s.wm_state ≢ 2) × (s.wm_state ≢ 4)
  pub under : Covers s x y

before_or_at : (a b : ℤ) → not (ltb_ℤ a b) ≡ true → b ≤ℤ a
before_or_at a b h = ground arith

not_before : (a b : ℤ) → b ≤ℤ a → not (ltb_ℤ a b) ≡ true
not_before a b h = ground arith

before : (a b : ℤ) → ltb_ℤ a b ≡ true → a +ℤ pos 1 ≤ℤ b
before a b h =
    let e = +ℤ_parts a (pos 1) in
    omega (arith, e, ltb→lt (pos_part a + neg_part b) (pos_part b + neg_part a) h)

before_of : (a b : ℤ) → a +ℤ pos 1 ≤ℤ b → ltb_ℤ a b ≡ true
before_of a b h =
    let e = +ℤ_parts a (pos 1) in
    let lt : pos_part a + neg_part b < pos_part b + neg_part a = omega (arith, e, h) in ground arith

and_parts : (a b : Bool) → (a && b) ≡ true → (a ≡ true) × (b ≡ true)
and_parts a b h = (ground arith, ground arith)

covers-Covers : (s : Surface) (x y : ℤ) → covers s x y ≡ true → Covers s x y
covers-Covers s x y h =
    let (a, r) = and_parts _ _ h in
    let (b, q) = and_parts _ _ r in
    let (c, d) = and_parts _ _ q in
    (
      before_or_at x s.x a,
      before x (s.x +ℤ pos s.width) b,
      before_or_at y s.y c,
      before y (s.y +ℤ pos s.height) d,
    )

Covers-covers : (s : Surface) (x y : ℤ) → Covers s x y → covers s x y ≡ true
Covers-covers s x y (a, b, c, d) =
    all _ _ _ _ (not_before x s.x a) (before_of x (s.x +ℤ pos s.width) b) (not_before y s.y c)
      (before_of y (s.y +ℤ pos s.height) d)
  where
    all :
        (a b c d : Bool) → a ≡ true → b ≡ true → c ≡ true → d ≡ true → (a && (b && (c && d))) ≡ true
    all a b c d e f g h = ground arith

owned_by-not_wm : (wm : Option ℕ) (s : Surface) → not (owned_by wm s) ≡ true → ¬ (wm ≡ some s.owner)
owned_by-not_wm none s h e = absurd (ground arith)
owned_by-not_wm (some session) s h e = absurd (ground arith)

not_wm-owned_by : (wm : Option ℕ) (s : Surface) → ¬ (wm ≡ some s.owner) → not (owned_by wm s) ≡ true
not_wm-owned_by none s h = refl
not_wm-owned_by (some session) s h = elim (Bool-cases (s.owner == session)) [
  | inr e ↦ rw e refl
  | inl e ↦ let same : some session ≡ some s.owner = ground arith in absurd (h same)
]

five_parts :
    (a b c d e : Bool)
    → (a && (b && (c && (d && e)))) ≡ true
    → (a ≡ true) × (b ≡ true) × (c ≡ true) × (d ≡ true) × (e ≡ true)
five_parts a b c d e h = (ground arith, ground arith, ground arith, ground arith, ground arith)

five_of :
    (a b c d e : Bool)
    → a ≡ true
    → b ≡ true
    → c ≡ true
    → d ≡ true
    → e ≡ true
    → (a && (b && (c && (d && e)))) ≡ true
five_of a b c d e f g h i j = rw (f, g, h, i, j) refl

layer_parts : (n : ℕ) → (leb 100 n && ltb n 200) ≡ true → (100 ≤ n) × (n < 200)
layer_parts n h = (ground arith, ground arith)

layer_of : (n : ℕ) → (100 ≤ n) × (n < 200) → (leb 100 n && ltb n 200) ≡ true
layer_of n (a, b) = ground arith

shown_parts : (n : ℕ) → not (n == 4 || n == 2) ≡ true → (n ≢ 2) × (n ≢ 4)
shown_parts n h = (ground arith, ground arith)

shown_of : (n : ℕ) → (n ≢ 2) × (n ≢ 4) → not (n == 4 || n == 2) ≡ true
shown_of n (a, b) = ground arith

pub is_target-IsTarget :
    (wm : Option ℕ) (x y : ℤ) (s : Surface) → is_target wm x y s ≡ true → IsTarget wm x y s
unfolding is_target
is_target-IsTarget wm x y s h =
    let (a, b, c, d, e) =
      five_parts s.in_use (not (owned_by wm s)) (leb 100 s.layer && ltb s.layer 200)
        (not (s.wm_state == 4 || s.wm_state == 2)) (covers s x y) h in
    record {
      used = a;
      not_wm = owned_by-not_wm wm s b;
      on_layer = layer_parts s.layer c;
      shown = shown_parts s.wm_state d;
      under = covers-Covers s x y e;
    }

pub IsTarget-is_target :
    (wm : Option ℕ) (x y : ℤ) (s : Surface) → IsTarget wm x y s → is_target wm x y s ≡ true
unfolding is_target
IsTarget-is_target wm x y s v =
    five_of s.in_use (not (owned_by wm s)) (leb 100 s.layer && ltb s.layer 200)
      (not (s.wm_state == 4 || s.wm_state == 2)) (covers s x y) v.used
      (not_wm-owned_by wm s v.not_wm) (layer_of s.layer v.on_layer) (shown_of s.wm_state v.shown)
      (Covers-covers s x y v.under)
