-- ===== src/Init/Depgraph/Build/Loops.antt =====
-- The loops of depgraph_build, src/luna-init/depgraph.c.
use mahina_os.Prelude.{
  ℕ, zero, suc, ◌+◌, ◌≤◌, ◌<◌, ◌≡◌, refl, sym, ap, subst, ◌∙◌, Bool, true, false, ◌&&◌, ◌||◌, none,
  some, List, [], ◌∷◌, ◌==◌, ltb, length, get_elem?, get_elem?-lt, CString, Option-cases,
  Bool-cases, ◌⊎◌, inl, inr, arith,
}
use mahina_os.Init.Service.{Service, service_find, max_deps}
use mahina_os.Init.Depgraph.Build.{
  Tables, Outcome, resolved, missing_name, then_with, push_dep, link_after, link_before, name_loop,
  clear_deps, resolve_one, resolve_all,
}
use mahina_os.Init.Depgraph.Build.Grown.{
  bare, bares, bares-modify, get_elem?-bares, length-bares, service_find-bares, service_find-lt,
  add_edge-edge, add_edge-IsCounted, Grown, Grown-refl, Grown-trans, Grown-congr,
}

-- Some name among the first `k` resolves to an index that passes `p`.
abbrev pub hits : List Service → ℕ → List CString → (ℕ → Bool) → Bool
hits services zero names p = false
hits services (suc k) [] p = false
hits services (suc k) (name ∷ names) p =
    elim (service_find services name) [ none ↦ false | some d ↦ p d ] || hits services k names p

-- Every one of the first `k` names resolves.
abbrev pub all_found : List Service → ℕ → List CString → Bool
all_found services zero names = true
all_found services (suc k) [] = true
all_found services (suc k) (name ∷ names) =
    elim (service_find services name) [ none ↦ false | some d ↦ true ] && all_found services k names

-- A loop ends with all names resolved, or at one that is not found.
abbrev pub Ends : Tables → Outcome → Bool → (ℕ → ℕ → Bool) → Type 0
Ends t o found extra =
    ((u : Tables) × (o ≡ resolved u) × (found ≡ true) × Grown t u extra)
    ⊎ ((u : Tables) × (o ≡ missing_name u) × (found ≡ false))

Ends-then :
    {t : Tables} {found found' : Bool} {extra extra' : ℕ → ℕ → Bool} (o : Outcome)
    (next : Tables → Outcome)
    → Ends t o found extra
    → ((u : Tables) → Grown t u extra → Ends u (next u) found' extra')
    → Ends t (then_with o next) (found && found') (λ a b. extra a b || extra' a b)
Ends-then o next (inr (u, e, lost)) more = inr (u, rw e refl, ground arith)
Ends-then o next (inl (u, e, found, grown)) more = elim (more u grown) [
  | inl (v, e', found', grown') ↦ inl (v, rw e e', ground arith, Grown-trans grown grown')
  | inr (v, e', lost) ↦ inr (v, rw e e', ground arith)
]

Ends-congr :
    {t : Tables} {o : Outcome} {found : Bool} {e f : ℕ → ℕ → Bool}
    → ((a b : ℕ) → e a b ≡ f a b)
    → Ends t o found e
    → Ends t o found f
Ends-congr h (inl (u, o, found, grown)) = inl (u, o, found, Grown-congr h grown)
Ends-congr h (inr lost) = inr lost

Ends-after :
    {t u : Tables} {o : Outcome} {found : Bool} {e : ℕ → ℕ → Bool}
    → Grown t u (λ a b. false)
    → Ends u o found e
    → Ends t o found e
Ends-after g (inl (v, o, found, grown)) =
    inl (v, o, found, Grown-congr (λ a b. refl) (Grown-trans g grown))
Ends-after g (inr lost) = inr lost

-- The loops run over tables that differ from `base` in `dep_indices` only.
module _ (base : List Service) where
  abbrev Based : Tables → Type 0
  Based t = bares t.services ≡ bares base

  Based-find :
      (t : Tables)
      → Based t
      → (name : CString) → service_find t.services name ≡ service_find base name
  Based-find t h name =
      sym (service_find-bares t.services name)
      ∙ ap (λ l. service_find l name) h
      ∙ service_find-bares base name

  Based-length : (t : Tables) → Based t → length t.services ≡ length base
  Based-length t h = sym (length-bares t.services) ∙ ap length h ∙ length-bares base

  name_loop-Ends :
      (link : ℕ → Tables → Tables) (mark : ℕ → ℕ → ℕ → Bool)
      → ((d : ℕ) (t : Tables) → Based t → d < length base → Grown t (link d t) (mark d))
      → (k : ℕ) (names : List CString) (t : Tables) → Based t
      → k ≤ length names
      → Ends t
          (name_loop link k names t)
          (all_found base k names)
          (λ a b. hits base k names (λ d. mark d a b))
  unfolding name_loop
  name_loop-Ends link mark step zero names t h fits = inl (t, refl, refl, Grown-refl t)
  name_loop-Ends link mark step (suc k) [] t h fits = absurd (omega arith)
  name_loop-Ends link mark step (suc k) (name ∷ names) t h fits =
      let at_t = Based-find t h name in
      elim (Option-cases (service_find base name)) [
        | inl e ↦ inr (t, rw (at_t ∙ e, name_loop) refl, rw e refl)
        | inr (d, e) ↦
            let one = step d t h (service_find-lt base name d e) in
            elim (name_loop-Ends link mark step k names (link d t) (one.same ∙ h) (omega arith)) [
              | inl (u, ends, found, grown) ↦ inl (
                u,
                rw (at_t ∙ e, name_loop) ends,
                rw e found,
                Grown-congr (λ a b. rw e refl) (Grown-trans one grown),
              )
              | inr (u, ends, lost) ↦ inr (u, rw (at_t ∙ e, name_loop) ends, rw e lost)
            ]
      ]

  push_dep-bare : (d : ℕ) (s : Service) → bare (push_dep d s) ≡ bare s
  push_dep-bare d s = elim (Bool-cases (ltb (length s.dep_indices) max_deps)) [
    | inl e ↦ rw e refl
    | inr e ↦ rw e refl
  ]

  link_after-Grown :
      (i d : ℕ) (t : Tables)
      → Based t
      → d < length base
      → Grown t (link_after i d t) (λ a b. a == d && b == i)
  unfolding link_after
  link_after-Grown i d t h lt = record {
    same = bares-modify i (push_dep d) t.services (push_dep-bare d);
    edges = add_edge-edge d i t.graph;
    counts = add_edge-IsCounted (length t.services) d i t.graph (omega (arith, Based-length t h));
  }

  link_before-Grown :
      (i d : ℕ) (t : Tables)
      → Based t
      → i < length base
      → Grown t (link_before i d t) (λ a b. a == i && b == d)
  unfolding link_before
  link_before-Grown i d t h lt = record {
    same = refl;
    edges = add_edge-edge i d t.graph;
    counts = add_edge-IsCounted (length t.services) i d t.graph (omega (arith, Based-length t h));
  }

  clear_deps-Grown : (i : ℕ) (t : Tables) → Grown t (clear_deps i t) (λ a b. false)
  unfolding clear_deps
  clear_deps-Grown i t = record {
    same = bares-modify i (λ s. record s { dep_indices = [] }) t.services (λ s. refl);
    edges = λ a b. ground arith;
    counts = λ c. c;
  }

  -- What the names of service `i` ask for.
  abbrev pub found_one : Service → Bool
  found_one s = all_found base s.after_count s.after && all_found base s.before_count s.before

  abbrev pub edges_one : ℕ → Service → ℕ → ℕ → Bool
  edges_one i s a b =
      hits base s.after_count s.after (λ d. a == d && b == i)
      || hits base s.before_count s.before (λ d. a == i && b == d)

  resolve_one-Ends :
      (i : ℕ) (s : Service) (t : Tables)
      → Based t
      → i < length base
      → s.after_count ≤ length s.after
      → s.before_count ≤ length s.before
      → Ends t (resolve_one i s t) (found_one s) (edges_one i s)
  unfolding resolve_one
  resolve_one-Ends i s t h lt fa fb =
      let cleared = clear_deps-Grown i t in
      Ends-after cleared (
        Ends-then (name_loop (link_after i) s.after_count s.after (clear_deps i t))
          (name_loop (link_before i) s.before_count s.before)
          (name_loop-Ends (link_after i) (λ d a b. a == d && b == i)
            (λ d u hu ld. link_after-Grown i d u hu ld) s.after_count s.after (clear_deps i t)
            (cleared.same ∙ h) fa)
          (λ u grown.
            name_loop-Ends (link_before i) (λ d a b. a == i && b == d)
              (λ d v hv ld. link_before-Grown i d v hv lt) s.before_count s.before u
              (grown.same ∙ cleared.same ∙ h) fb))

  -- The same for every service from `i` on, `k` of them.
  abbrev pub found_all : ℕ → ℕ → Bool
  found_all zero i = true
  found_all (suc k) i =
      elim (get_elem? base i) [ none ↦ false | some s ↦ found_one s ] && found_all k (suc i)

  abbrev pub edges_all : ℕ → ℕ → ℕ → ℕ → Bool
  edges_all zero i a b = false
  edges_all (suc k) i a b =
      elim (get_elem? base i) [ none ↦ false | some s ↦ edges_one i s a b ]
      || edges_all k (suc i) a b

  -- The counts stay within the arrays.
  abbrev pub IsSized : Type 0
  IsSized =
      (i : ℕ) (s : Service)
      → get_elem? base i ≡ some s
      → (s.after_count ≤ length s.after) × (s.before_count ≤ length s.before)

  -- Service `i` of the tables at hand has the names that it has in `base`.
  Based-get :
      (t : Tables)
      → Based t
      → (i : ℕ) (s : Service) → get_elem? base i ≡ some s
      → (u : Service) × (get_elem? t.services i ≡ some u) × (bare u ≡ bare s)
  Based-get t h i s e = elim (Option-cases (get_elem? t.services i)) [
    | inl gone ↦ absurd (
        ground
          (arith, get_elem?-bares t.services i, get_elem?-bares base i, ap (λ l. get_elem? l i) h))
    | inr (u, there) ↦ (
      u,
      there,
      ground
          (arith, get_elem?-bares t.services i, get_elem?-bares base i, ap (λ l. get_elem? l i) h),
    )
  ]

  resolve_step :
      (k i : ℕ) (t : Tables) (s u : Service)
      → get_elem? base i ≡ some s
      → get_elem? t.services i ≡ some u
      → Ends t (resolve_one i u t) (found_one s) (edges_one i s)
      → ((v : Tables)
          → Grown t v (edges_one i s)
          → Ends v (resolve_all k (suc i) v) (found_all k (suc i)) (edges_all k (suc i)))
      → Ends t (resolve_all (suc k) i t) (found_all (suc k) i) (edges_all (suc k) i)
  unfolding resolve_all
  resolve_step k i t s u at there one more =
      rw (there, resolve_all)
        (rw at (
          Ends-congr (λ a b. rw at refl)
            (Ends-then (resolve_one i u t) (resolve_all k (suc i)) one more)))

  pub resolve_all-Ends :
      (k i : ℕ) (t : Tables)
      → Based t
      → IsSized
      → i + k ≡ length base
      → Ends t (resolve_all k i t) (found_all k i) (edges_all k i)
  unfolding resolve_all
  resolve_all-Ends zero i t h sized e = inl (t, refl, refl, Grown-refl t)
  resolve_all-Ends (suc k) i t h sized e =
      let (s, at) = get_elem?-lt base i (omega arith) in
      let (u, there, like) = Based-get t h i s at in
      let fits = sized i s at in
      let fa : u.after_count ≤ length u.after =
        subst (λ x. x.after_count ≤ length x.after) (sym like) fits.0 in
      let fb : u.before_count ≤ length u.before =
        subst (λ x. x.before_count ≤ length x.before) (sym like) fits.1 in
      resolve_step k i t s u at there
        (subst (λ x. Ends t (resolve_one i u t) (found_one x) (edges_one i x)) like
          (resolve_one-Ends i u t h (omega arith) fa fb))
        (λ v grown. resolve_all-Ends k (suc i) v (grown.same ∙ h) sized (omega arith))
