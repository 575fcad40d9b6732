-- ===== src/Lgp/Scene/Loops.antt =====
-- What the loops of src/lgp-compositor/scene/surface.c do to one pixel of the frame.
use native.Mathlib.Nat.{mul-le-mul_right, suc-mul}
use mathlib.Core.Option.{some-injective}
use mahina_os.Prelude.{
  ℕ, zero, suc, ◌+◌, ◌*◌, ◌^◌, ◌≤◌, ◌<◌, ◌≡◌, ◌∙◌, refl, sym, subst, ap, Bool, true, false, ◌&&◌,
  not, Option, some, ◌==◌, ltb, leb, if◌then◌else◌, ℤ, pos, negsuc, pos_part, ◌+ℤ◌, ltb_ℤ,
  Bool-cases, Option-cases, ℕ_discrete, inl, inr, arith,
}
use mahina_os.Lgp.Scene.{Frame, Screen, put, repeat, clip}

-- Round `i` and the rounds behind it.
merge :
    (h : ℕ → ℕ) (i k at v w : ℕ)
    → v ≡ (if i == at then h w else w)
    → (if leb (suc i) at && ltb at (suc i + k) then h v else v)
      ≡ (if leb i at && ltb at (i + suc k) then h w else w)
merge h i k at v w e = elim (Bool-cases (i == at)) [
  | inl s ↦
      let here : v ≡ h w = rw s at e in
      let now : (leb i at && ltb at (i + suc k)) ≡ true = ground arith in
      let later : (leb (suc i) at && ltb at (suc i + k)) ≡ false = ground arith in
      rw (now, later) here
  | inr s ↦
      let here : v ≡ w = rw s at e in
      let same : (leb (suc i) at && ltb at (suc i + k)) ≡ (leb i at && ltb at (i + suc k)) =
        ground arith in
      rw (same, here) refl
]

-- A loop of which only round `at` changes a pixel.
pub repeat_pixel :
    (body : ℕ → Frame → Option Frame) (o at : ℕ) (h : ℕ → ℕ) (k i : ℕ)
    → ((j : ℕ)
        → i ≤ j
        → j < i + k
        → (f g : Frame) → body j f ≡ some g
        → g o ≡ (if j == at then h (f o) else f o))
    → (f g : Frame) → repeat body k i f ≡ some g
    → g o ≡ (if leb i at && ltb at (i + k) then h (f o) else f o)
unfolding repeat
repeat_pixel body o at h zero i step f g run =
    let off : (leb i at && ltb at (i + 0)) ≡ false = ground arith in
    rw off (ap (λ (r : Frame). r o) (sym (some-injective f g run)))
repeat_pixel body o at h (suc k) i step f g run = elim (Option-cases (body i f)) [
  | inl e ↦ absurd (let x = rw (e, repeat) at run in cc)
  | inr (f', e) ↦
      let rest =
        repeat_pixel body o at h k (suc i) (λ j a b. step j (omega arith) (omega arith)) f' g
          (rw (e, repeat) at run) in
      rest ∙ merge h i k at (f' o) (f o) (step i (omega arith) (omega arith) f f' e)
]

-- Two pixels of the frame with one offset are one pixel.
pub offset-injective :
    (pitch width y x y' x' : ℕ)
    → x < width
    → x' < width
    → width * 4 ≤ pitch
    → y * pitch + x * 4 ≡ y' * pitch + x' * 4
    → (y ≡ y') × (x ≡ x')
offset-injective pitch width y x y' x' hx hx' hp e = elim (ℕ_discrete y y') [
  | yes same ↦
      (same, let e' = subst (λ v. v * pitch + x * 4 ≡ y' * pitch + x' * 4) same e in omega arith)
  | no ne ↦ elim (Bool-cases (ltb y y')) [
    | inl l ↦ absurd (
        let a = mul-le-mul_right {m = suc y} {n = y'} pitch (ground arith) in
        let b = suc-mul y pitch in omega arith)
    | inr l ↦ absurd (
        let a = mul-le-mul_right {m = suc y'} {n = y} pitch (ground arith) in
        let b = suc-mul y' pitch in omega arith)
  ]
]

-- The write of a pixel.
pub put_pixel :
    (sc : Screen) (at v o : ℕ) (f g : Frame)
    → put sc at v f ≡ some g
    → g o ≡ (if o == at then v else f o)
unfolding put
put_pixel sc at v o f g h = elim (Bool-cases (leb (at + 4) (sc.pitch * sc.height))) [
  | inl e ↦ ap (λ (r : Frame). r o) (sym (some-injective _ g (rw e at h)))
  | inr e ↦ absurd (let x = rw e at h in cc)
]

-- The clipped range is the part of the surface that lies in the frame.
abbrev pub in_span : ℤ → ℕ → ℕ → Bool
in_span x size p = not (ltb_ℤ (pos p) x) && ltb_ℤ (pos p) (x +ℤ pos size)

pub clip_span :
    (x : ℤ) (size room p : ℕ)
    → size ≤ 16384
    → pos_part x < 2 ^ 30
    → room < 2 ^ 31
    → p < room
    → (leb (clip x size room).0 p && ltb p ((clip x size room).0 + (clip x size room).1))
      ≡ in_span x size p
unfolding clip ◌+ℤ◌
clip_span (pos x) size room p small low fits h = ground arith
clip_span (negsuc x) size room p small low fits h = ground arith
