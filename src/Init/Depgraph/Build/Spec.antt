-- ===== src/Init/Depgraph/Build/Spec.antt =====
-- What the `after` and `before` lists of src/luna-init service files ask of a start order, and how
-- the tests of the loops in depgraph.c read.
use mahina_os.Prelude.{
  ℕ, zero, suc, ◌+◌, ◌≤◌, ◌<◌, ◌≡◌, refl, sym, subst, ℕ_discrete, get_elem?-lt, Bool, true, false,
  ◌&&◌, none, some, List, [], ◌∷◌, ◌++◌, ◌==◌, length, elem, IsDistinct, IsBelow, get_elem?,
  lt-length_of_get, CString, Option-cases, Bool-cases, ◌⊎◌, inl, inr, arith,
}
use mahina_os.Init.Service.{Service, service_find}
use mahina_os.Init.Depgraph.Build.Grown.{service_find-lt}
use mahina_os.Init.Depgraph.Build.Loops.{
  hits, all_found, found_one, edges_one, found_all, edges_all,
}

-- `a` stands in front of an occurrence of `b`.
abbrev pub Precedes : ℕ → ℕ → List ℕ → Type 0
Precedes a b l = (pre : List ℕ) × (post : List ℕ) × (l ≡ pre ++ (b ∷ post)) × (elem a pre ≡ true)

module _ (services : List Service) where
  -- One of the first `count` names is that of service `d`.
  abbrev pub Names : ℕ → List CString → ℕ → Type 0
  Names count names d =
      (j : ℕ) × (name : CString) × (j < count)
      × (get_elem? names j ≡ some name)
      × (service_find services name ≡ some d)

  -- Service `a` must start before service `b`: `b` lists it under `after`, or it lists `b` under
  -- `before`.
  abbrev pub MustPrecede : ℕ → ℕ → Type 0
  MustPrecede a b =
      ((s : Service) × (get_elem? services b ≡ some s) × Names s.after_count s.after a)
      ⊎ ((s : Service) × (get_elem? services a ≡ some s) × Names s.before_count s.before b)

  -- One of the first `count` names is that of no service.
  abbrev pub Unknown : ℕ → List CString → Type 0
  Unknown count names =
      (j : ℕ) × (name : CString) × (j < count)
      × (get_elem? names j ≡ some name)
      × (service_find services name ≡ none)

  abbrev pub HasUnknown : Type 0
  HasUnknown =
      (i : ℕ) × (s : Service) × (get_elem? services i ≡ some s)
      × (Unknown s.after_count s.after ⊎ Unknown s.before_count s.before)

  -- Every service once, each behind those that must start before it.
  pub record IsStartOrder (l : List ℕ) : Type 0 where
    pub distinct : IsDistinct l
    pub below : IsBelow (length services) l
    pub total : (v : ℕ) → v < length services → elem v l ≡ true
    pub ordered : (a b : ℕ) → MustPrecede a b → Precedes a b l

  hits→Names :
      (count : ℕ) (names : List CString) (p : ℕ → Bool)
      → hits services count names p ≡ true
      → (d : ℕ) × Names count names d × (p d ≡ true)
  hits→Names zero names p h = cc
  hits→Names (suc k) [] p h = cc
  hits→Names (suc k) (name ∷ names) p h = elim (Option-cases (service_find services name)) [
    | inl e ↦
        let (d, (j, n, lt, at, f), pd) = hits→Names k names p (rw e at h) in
        (d, (suc j, n, omega arith, at, f), pd)
    | inr (d, e) ↦ elim (Bool-cases (p d)) [
      | inl y ↦ (d, (0, name, omega arith, refl, e), y)
      | inr z ↦
          let (d', (j, n, lt, at, f), pd) = hits→Names k names p (rw (e, z) at h) in
          (d', (suc j, n, omega arith, at, f), pd)
    ]
  ]

  Names→hits :
      (count : ℕ) (names : List CString) (p : ℕ → Bool) (d : ℕ)
      → Names count names d
      → p d ≡ true
      → hits services count names p ≡ true
  Names→hits zero names p d (j, n, lt, at, f) y = absurd (omega arith)
  Names→hits (suc k) [] p d (j, n, lt, at, f) y = cc
  Names→hits (suc k) (name ∷ names) p d (zero, n, lt, at, f) y =
      let same : name ≡ n = cc in rw (same, f) (ground arith)
  Names→hits (suc k) (name ∷ names) p d (suc j, n, lt, at, f) y =
      ground (arith, Names→hits k names p d (j, n, omega arith, at, f) y)

  edges_one→MustPrecede :
      (i : ℕ) (s : Service) (a b : ℕ)
      → get_elem? services i ≡ some s
      → edges_one services i s a b ≡ true
      → MustPrecede a b
  edges_one→MustPrecede i s a b at h =
      elim (Bool-cases (hits services s.after_count s.after (λ d. a == d && b == i))) [
        | inl y ↦
            let (d, names, both) = hits→Names s.after_count s.after (λ d. a == d && b == i) y in
            let ea : d ≡ a = ground arith in
            let eb : i ≡ b = ground arith in
            inl (
              s,
              subst (λ t. get_elem? services t ≡ some s) eb at,
              subst (Names s.after_count s.after) ea names,
            )
        | inr z ↦
            let (d, names, both) =
              hits→Names s.before_count s.before (λ d. a == i && b == d) (ground arith) in
            let ea : i ≡ a = ground arith in
            let eb : d ≡ b = ground arith in
            inr (
              s,
              subst (λ t. get_elem? services t ≡ some s) ea at,
              subst (Names s.before_count s.before) eb names,
            )
      ]

  pub edges_all→MustPrecede : (k i a b : ℕ) → edges_all services k i a b ≡ true → MustPrecede a b
  edges_all→MustPrecede zero i a b h = cc
  edges_all→MustPrecede (suc k) i a b h = elim (Option-cases (get_elem? services i)) [
    | inl gone ↦ edges_all→MustPrecede k (suc i) a b (rw gone at h)
    | inr (s, at) ↦ elim (Bool-cases (edges_one services i s a b)) [
      | inl y ↦ edges_one→MustPrecede i s a b at y
      | inr z ↦ edges_all→MustPrecede k (suc i) a b (rw z at (rw at at h))
    ]
  ]

  edges_all_intro :
      (k i j a b : ℕ) (s : Service)
      → i ≤ j
      → j < i + k
      → get_elem? services j ≡ some s
      → edges_one services j s a b ≡ true
      → edges_all services k i a b ≡ true
  edges_all_intro zero i j a b s lo hi at y = absurd (omega arith)
  edges_all_intro (suc k) i j a b s lo hi at y = elim (ℕ_discrete i j) [
    | yes e ↦
        let there : get_elem? services i ≡ some s = rw e at in
        let hit : edges_one services i s a b ≡ true =
          subst (λ t. edges_one services t s a b ≡ true) (sym e) y in
        rw there (ground arith)
    | no ne ↦ rw (edges_all_intro k (suc i) j a b s (omega arith) (omega arith) at y) (ground arith)
  ]

  pub MustPrecede→edges_all :
      (a b : ℕ) → MustPrecede a b → edges_all services (length services) 0 a b ≡ true
  MustPrecede→edges_all a b (inl (s, at, names)) =
      edges_all_intro (length services) 0 b a b s (omega arith)
        (omega (arith, lt-length_of_get services b s at)) at
        (ground
          (arith, Names→hits s.after_count s.after (λ d. a == d && b == b) a names (ground arith)))
  MustPrecede→edges_all a b (inr (s, at, names)) =
      edges_all_intro (length services) 0 a a b s (omega arith)
        (omega (arith, lt-length_of_get services a s at)) at
        (ground (
          arith,
          Names→hits s.before_count s.before (λ d. a == a && b == d) b names (ground arith),
        ))

  pub MustPrecede-lt : (a b : ℕ) → MustPrecede a b → (a < length services) × (b < length services)
  MustPrecede-lt a b (inl (s, at, (j, name, lt, there, f))) =
      (service_find-lt services name a f, lt-length_of_get services b s at)
  MustPrecede-lt a b (inr (s, at, (j, name, lt, there, f))) =
      (lt-length_of_get services a s at, service_find-lt services name b f)

  all_found→Unknown :
      (count : ℕ) (names : List CString)
      → all_found services count names ≡ false
      → Unknown count names
  all_found→Unknown zero names h = cc
  all_found→Unknown (suc k) [] h = cc
  all_found→Unknown (suc k) (name ∷ names) h = elim (Option-cases (service_find services name)) [
    | inl e ↦ (0, name, omega arith, refl, e)
    | inr (d, e) ↦
        let (j, n, lt, at, f) = all_found→Unknown k names (rw e at h) in
        (suc j, n, omega arith, at, f)
  ]

  all_found_known :
      (count : ℕ) (names : List CString)
      → all_found services count names ≡ true
      → ¬ Unknown count names
  all_found_known zero names h (j, n, lt, at, f) = omega arith
  all_found_known (suc k) [] h (j, n, lt, at, f) = cc
  all_found_known (suc k) (name ∷ names) h (zero, n, lt, at, f) =
      let same : name ≡ n = cc in
      let gone : service_find services name ≡ none = rw same f in cc (rw gone at h)
  all_found_known (suc k) (name ∷ names) h (suc j, n, lt, at, f) =
      all_found_known k names (ground arith) (j, n, omega arith, at, f)

  pub found_all→HasUnknown :
      (k i : ℕ) → i + k ≡ length services → found_all services k i ≡ false → HasUnknown
  found_all→HasUnknown zero i e h = cc
  found_all→HasUnknown (suc k) i e h =
      let (s, at) = get_elem?-lt services i (omega arith) in
      elim (Bool-cases (all_found services s.after_count s.after)) [
        | inr lost ↦ (i, s, at, inl (all_found→Unknown s.after_count s.after lost))
        | inl known ↦ elim (Bool-cases (all_found services s.before_count s.before)) [
          | inr lost ↦ (i, s, at, inr (all_found→Unknown s.before_count s.before lost))
          | inl known' ↦ found_all→HasUnknown k (suc i) (omega arith) (ground arith)
        ]
      ]

  found_all-one :
      (k i j : ℕ) (s : Service)
      → found_all services k i ≡ true
      → i ≤ j
      → j < i + k
      → get_elem? services j ≡ some s
      → found_one services s ≡ true
  found_all-one zero i j s h lo hi at = absurd (omega arith)
  found_all-one (suc k) i j s h lo hi at = elim (ℕ_discrete i j) [
    | yes e ↦ let there : get_elem? services i ≡ some s = rw e at in ground arith
    | no ne ↦ found_all-one k (suc i) j s (ground arith) (omega arith) (omega arith) at
  ]

  pub found_all_known : found_all services (length services) 0 ≡ true → ¬ HasUnknown
  found_all_known h (i, s, at, lost) =
      let one =
        found_all-one (length services) 0 i s h (omega arith)
          (omega (arith, lt-length_of_get services i s at)) at in
      elim lost [
        | inl u ↦ all_found_known s.after_count s.after (ground arith) u
        | inr u ↦ all_found_known s.before_count s.before (ground arith) u
      ]
