-- ===== src/Lgp/Session/Targets.antt =====
-- The surface that src/lgp-compositor/main.c finds under the pointer.
use mahina_os.Prelude.{
  ℕ, zero, suc, ◌≤◌, ◌≡◌, ◌⊎◌, ◌∙◌, sym, Bool, true, false, ◌&&◌, Option, none, some, List, [], ◌∷◌,
  if◌then◌else◌, arith, ltb, get_elem?, ℤ, inl, inr, refl, subst, ap,
}
use mahina_os.Lgp.Surface.{Surface}
use mahina_os.Lgp.Session.{State}
use mahina_os.Lgp.Session.Routes.{wm_session, is_target, is_above, target_loop, find_target}
use mahina_os.Lgp.Session.Hits.{IsTarget, is_target-IsTarget, IsTarget-is_target}

-- What a search of a list from a surface `best` may give: `best` or a target of the list, with no target
-- and not `best` above it; and nothing only where there is no target.
abbrev NotAbove : Option Surface → Surface → Type 0
NotAbove none s = Unit {0}
NotAbove (some b) s = b.layer ≤ s.layer

abbrev Stays : Option Surface → Surface → Type 0
Stays none s = ⊥
Stays (some b) s = b ≡ s

module _ (wm : Option ℕ) (x y : ℤ) where
  abbrev Picked : List Surface → Surface → Type 0
  Picked l s = (i : ℕ) × (get_elem? l i ≡ some s) × (is_target wm x y s ≡ true)

  abbrev Topmost : List Surface → Surface → Type 0
  Topmost l s =
      (i : ℕ) (t : Surface) → get_elem? l i ≡ some t → is_target wm x y t ≡ true → t.layer ≤ s.layer

  abbrev Found : Option Surface → List Surface → Option Surface → Type 0
  Found best l none =
      (best ≡ none) × ((i : ℕ) (t : Surface) → get_elem? l i ≡ some t → is_target wm x y t ≡ false)
  Found best l (some s) = (Stays best s ⊎ Picked l s) × NotAbove best s × Topmost l s

  at_head : (s t : Surface) → some s ≡ some t → s ≡ t
  at_head s t e = ground arith

  -- The search of one more surface at the head, by what the rest of it gives.
  Found-cons :
      (best : Option Surface) (s : Surface) (l : List Surface) (b : Bool) (o : Option Surface)
      → (is_target wm x y s && is_above s best) ≡ b
      → Found (if b then some s else best) l o
      → Found best (s ∷ l) o
  Found-cons best s l true none e h = absurd (ground arith)
  Found-cons best s l false none e (gone, off) = (gone, at)
    where
      at : (i : ℕ) (t : Surface) → get_elem? (s ∷ l) i ≡ some t → is_target wm x y t ≡ false
      at zero t k =
          let f = rw gone at e in
          subst (λ u. is_target wm x y u ≡ false) (at_head s t k) (only (is_target wm x y s) f)
        where
          only : (a : Bool) → (a && true) ≡ false → a ≡ false
          only a f = ground arith
      at (suc i) t k = off i t k
  Found-cons best s l true (some t) e (whence, above, top) =
      (inr (picked whence), rises best e above, at)
    where
      rises :
          (o : Option Surface)
          → (is_target wm x y s && is_above s o) ≡ true
          → s.layer ≤ t.layer
          → NotAbove o t
      rises none f a = tt
      rises (some b) f a = both (is_target wm x y s) b.layer f
        where
          both : (c : Bool) (n : ℕ) → (c && ltb n s.layer) ≡ true → n ≤ t.layer
          both c n g = ground (arith, a)

      aim : (a b : Bool) → (a && b) ≡ true → a ≡ true
      aim a b f = ground arith

      picked : Stays (some s) t ⊎ Picked l t → Picked (s ∷ l) t
      picked (inl same) = (
        0,
        ap some same,
        subst (λ u. is_target wm x y u ≡ true) same (aim (is_target wm x y s) (is_above s best) e),
      )
      picked (inr (i, k, p)) = (suc i, k, p)

      at : Topmost (s ∷ l) t
      at zero u k p = subst (λ r. r.layer ≤ t.layer) (at_head s u k) above
      at (suc i) u k p = top i u k p
  Found-cons best s l false (some t) e (whence, above, top) = (later whence, above, at)
    where
      later : Stays best t ⊎ Picked l t → Stays best t ⊎ Picked (s ∷ l) t
      later (inl same) = inl same
      later (inr (i, k, p)) = inr (suc i, k, p)

      stays :
          (o : Option Surface) (a : Bool)
          → (a && is_above s o) ≡ false
          → a ≡ true
          → NotAbove o t
          → s.layer ≤ t.layer
      stays none a f p w = absurd (ground arith)
      stays (some b) a f p w = ground (arith, w)

      at : Topmost (s ∷ l) t
      at zero u k p =
          let q = subst (λ r. is_target wm x y r ≡ true) (sym (at_head s u k)) p in
          subst (λ r. r.layer ≤ t.layer) (at_head s u k) (stays best (is_target wm x y s) e q above)
      at (suc i) u k p = top i u k p

  target_loop-cons :
      (best : Option Surface) (s : Surface) (l : List Surface)
      → target_loop wm x y best (s ∷ l)
        ≡ target_loop wm x y (if is_target wm x y s && is_above s best then some s else best) l
  unfolding target_loop
  target_loop-cons best s l = refl

  target_loop-Found :
      (best : Option Surface) (l : List Surface) → Found best l (target_loop wm x y best l)
  target_loop-Found none [] = unfold target_loop in (refl, λ i t h. absurd (ground arith))
  target_loop-Found (some b) [] =
      unfold target_loop in (inl refl, omega arith, λ i t h k. absurd (ground arith))
  target_loop-Found best (s ∷ l) = rw (target_loop-cons best s l) (
      Found-cons best s l (is_target wm x y s && is_above s best) _ refl
        (target_loop-Found (if is_target wm x y s && is_above s best then some s else best) l))

find_target-Found :
    (st : State) (x y : ℤ) → Found (wm_session st) x y none st.manager.surfaces (find_target st x y)
find_target-Found st x y =
    let f = target_loop-Found (wm_session st) x y none st.manager.surfaces in
    unfold find_target in f

-- Where the table holds, at some index, a surface in use that is not of the window manager, is on a
-- layer from 100 to 199, is neither minimized nor hidden, and has the point in its rectangle,
-- lgp_find_pointer_target finds a surface of the table of which all this holds too, on a layer that
-- is not below. Surfaces on the layers of the shell and above are passed over, as in the code.
pub find_target_topmost :
    (st : State) (x y : ℤ) (i : ℕ) (t : Surface)
    → get_elem? st.manager.surfaces i ≡ some t
    → IsTarget (wm_session st) x y t
    → (s : Surface) × (j : ℕ) × (find_target st x y ≡ some s)
      × (get_elem? st.manager.surfaces j ≡ some s)
      × IsTarget (wm_session st) x y s
      × (t.layer ≤ s.layer)
find_target_topmost st x y i t got v =
    let aimed = IsTarget-is_target (wm_session st) x y t v in
    go aimed (find_target st x y) refl (find_target-Found st x y)
  where
    go :
        is_target (wm_session st) x y t ≡ true
        → (o : Option Surface) → find_target st x y ≡ o
        → Found (wm_session st) x y none st.manager.surfaces o
        → (s : Surface) × (j : ℕ) × (find_target st x y ≡ some s)
          × (get_elem? st.manager.surfaces j ≡ some s)
          × IsTarget (wm_session st) x y s
          × (t.layer ≤ s.layer)
    go aimed none e (gone, off) =
        let clash : true ≡ false = sym aimed ∙ off i t got in absurd (ground arith)
    go aimed (some s) e (inl none_at, above, top) = elim none_at [ ]
    go aimed (some s) e (inr (j, at, hit), above, top) =
        (s, j, e, at, is_target-IsTarget (wm_session st) x y s hit, top i t got aimed)
