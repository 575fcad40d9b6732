-- ===== src/Init/Supervisor/Pump.antt =====
-- What supervisor_pump of src/luna-init/supervisor.c does to the table.
use mathlib.Core.Option.{some-injective}
use mahina_os.Prelude.{
  ℕ, ◌<◌, ◌≡◌, ◌≢◌, refl, sym, subst, ap, ◌∙◌, true, false, none, some, List, [], ◌∷◌, get_elem?,
  set, length, length-set, get_elem?-set, get_elem?-lt, lt-length_of_get, elem, inl, inr,
  Bool-cases, Option-cases, ℕ_discrete, arith,
}
use mahina_os.Init.Service.{State, pending, starting, degraded, state_eq, Service}
use mahina_os.Init.Supervisor.{
  Env, is_up, dep_ok, deps_met, is_due, can_start, launch, try_start, start_order,
}
use mahina_os.Init.Supervisor.Moves.{launch_state}

-- A table in which only the pending services have changed.
pub record Kept (xs ys : List Service) : Type 0 where
  pub size : length ys ≡ length xs
  pub same :
      (i : ℕ) (s : Service) → get_elem? xs i ≡ some s → s.state ≢ pending → get_elem? ys i ≡ some s

Kept-refl : (xs : List Service) → Kept xs xs
Kept-refl xs = record { size = refl; same = λ i s h ne. h }

Kept-trans : {xs ys zs : List Service} → Kept xs ys → Kept ys zs → Kept xs zs
Kept-trans a b = record {
  size = b.size ∙ a.size;
  same = λ i s h ne. b.same i s (a.same i s h ne) ne;
}

-- No service at an index past the end of the table.
pub past_end :
    (xs ys : List Service) (d : ℕ)
    → length ys ≡ length xs
    → get_elem? xs d ≡ none
    → get_elem? ys d ≡ none
past_end xs ys d size e = elim (Option-cases (get_elem? ys d)) [
  | inl f ↦ f
  | inr (t, f) ↦
      let (s, g) = get_elem?-lt xs d (subst (λ n. d < n) size (lt-length_of_get ys d t f)) in
      absurd cc
]

up_not_pending : (s : State) → is_up s ≡ true → s ≢ pending
up_not_pending s h e = ground arith

dep_ok-Kept :
    {xs ys : List Service} → Kept xs ys → (d : ℕ) → dep_ok xs d ≡ true → dep_ok ys d ≡ true
dep_ok-Kept {xs = xs} {ys = ys} kept d h = elim (Option-cases (get_elem? xs d)) [
  | inl e ↦ rw (past_end xs ys d kept.size e, dep_ok) refl
  | inr (s, e) ↦
      let up : is_up s.state ≡ true = rw (e, dep_ok) at h in
      rw (kept.same d s e (up_not_pending s.state up), dep_ok) up
]

deps_met-Kept :
    {xs ys : List Service}
    → Kept xs ys
    → (ds : List ℕ) → deps_met xs ds ≡ true
    → deps_met ys ds ≡ true
deps_met-Kept kept [] h = refl
deps_met-Kept {xs = xs} {ys = ys} kept (d ∷ ds) h =
    let here : dep_ok xs d ≡ true = ground arith in
    let there : deps_met xs ds ≡ true = ground arith in
    rw (dep_ok-Kept kept d here, deps_met-Kept kept ds there) refl

pub launch_not_pending : (env : Env) (i : ℕ) (svc : Service) → (launch env i svc).state ≢ pending
launch_not_pending env i svc h = elim (launch_state env i svc) [
  | inl e ↦ let f : degraded ≡ pending = sym (ap (λ t. t.state) e) ∙ h in cc
  | inr (pid, g, e) ↦ let f : starting ≡ pending = sym (ap (λ t. t.state) e) ∙ h in cc
]

-- One round of the second loop: nothing happens, or a pending service is launched.
pub data Tried (env : Env) (i : ℕ) (xs : List Service) : List Service → Type 0 where
  absent : get_elem? xs i ≡ none → Tried env i xs xs
  waits : (s : Service) → get_elem? xs i ≡ some s → can_start env xs s ≡ false → Tried env i xs xs
  launched :
      (s : Service)
      → get_elem? xs i ≡ some s
      → can_start env xs s ≡ true
      → Tried env i xs (set xs i (launch env i s))

pub try_start_decides :
    (env : Env) (i : ℕ) (xs : List Service) → Tried env i xs (try_start env i xs)
unfolding try_start
try_start_decides env i xs = elim (Option-cases (get_elem? xs i)) [
  | inl e ↦ rw (e, try_start) (absent e)
  | inr (s, e) ↦ elim (Bool-cases (can_start env xs s)) [
    | inl f ↦ rw (e, try_start, f) (launched s e f)
    | inr f ↦ rw (e, try_start, f) (waits s e f)
  ]
]

pub set_here :
    (xs : List Service) (i : ℕ) (s v : Service)
    → get_elem? xs i ≡ some s
    → get_elem? (set xs i v) i ≡ some v
set_here xs i s v h = get_elem?-set xs i i v ∙ (let lt = lt-length_of_get xs i s h in ground arith)

set_away :
    (xs : List Service) (i j : ℕ) (v : Service) → i ≢ j → get_elem? (set xs i v) j ≡ get_elem? xs j
set_away xs i j v ne = get_elem?-set xs i j v ∙ ground arith

pending_of : (s : State) → state_eq s pending ≡ true → s ≡ pending
pending_of s h = ground arith

-- What `can_start` asks for.
start_asks :
    (env : Env) (xs : List Service) (s : Service)
    → can_start env xs s ≡ true
    → (s.state ≡ pending) × (is_due env s ≡ true) × (deps_met xs s.dep_indices ≡ true)
start_asks env xs s h =
    let p : state_eq s.state pending ≡ true = ground arith in
    (pending_of s.state p, ground arith, ground arith)

pub Tried-Kept : {env : Env} {i : ℕ} {xs ys : List Service} → Tried env i xs ys → Kept xs ys
Tried-Kept {xs = xs} (absent e) = Kept-refl xs
Tried-Kept {xs = xs} (waits s e f) = Kept-refl xs
Tried-Kept {env = env} {i = i} {xs = xs} (launched s e f) = record {
  size = length-set xs i (launch env i s);
  same = λ j t h ne. elim (ℕ_discrete i j) [
    | yes eq ↦
        let at_j : get_elem? xs j ≡ some s = subst (λ k. get_elem? xs k ≡ some s) eq e in
        let was : s ≡ t = some-injective s t (sym at_j ∙ h) in
        absurd (ne (ap (λ v. v.state) (sym was) ∙ (start_asks env xs s f).0))
    | no away ↦ set_away xs i j (launch env i s) away ∙ h
  ];
}

pub start_order-Kept : (env : Env) (l : List ℕ) (xs : List Service) → Kept xs (start_order env l xs)
unfolding start_order
start_order-Kept env [] xs = Kept-refl xs
start_order-Kept env (i ∷ l) xs =
    Kept-trans (Tried-Kept (try_start_decides env i xs))
      (start_order-Kept env l (try_start env i xs))

-- What becomes of service `i` in the second loop, `ys` being the table after it.
pub data Started (env : Env) (i : ℕ) (s : Service) (ys : List Service) : Type 0 where
  stays : get_elem? ys i ≡ some s → Started env i s ys
  starts :
      s.state ≡ pending
      → is_due env s ≡ true
      → deps_met ys s.dep_indices ≡ true
      → get_elem? ys i ≡ some (launch env i s)
      → Started env i s ys

pub Tried-Started :
    {env : Env} {k : ℕ} {xs ys : List Service}
    → Tried env k xs ys
    → (i : ℕ) (s : Service) → get_elem? xs i ≡ some s
    → Started env i s ys
Tried-Started (absent e) i s h = stays h
Tried-Started (waits t e f) i s h = stays h
Tried-Started {env = env} {k = k} {xs = xs} (launched t e f) i s h = elim (ℕ_discrete k i) [
  | no away ↦ stays (set_away xs k i (launch env k t) away ∙ h)
  | yes eq ↦
      let was : t ≡ s =
        some-injective t s (sym e ∙ subst (λ j. get_elem? xs j ≡ some s) (sym eq) h) in
      let (p, due, met) = start_asks env xs t f in
      let kept = Tried-Kept (launched t e f) in
      subst (λ v. Started env i v (set xs k (launch env k t))) was
        (subst (λ j. Started env j t (set xs k (launch env k t))) eq
          (starts p due (deps_met-Kept kept t.dep_indices met)
            (set_here xs k t (launch env k t) e)))
]

pub start_order-Started :
    (env : Env) (l : List ℕ) (xs : List Service) (i : ℕ) (s : Service)
    → get_elem? xs i ≡ some s
    → Started env i s (start_order env l xs)
unfolding start_order
start_order-Started env [] xs i s h = stays h
start_order-Started env (k ∷ l) xs i s h =
    let ys = try_start env k xs in
    let rest = start_order-Kept env l ys in
    elim (Tried-Started (try_start_decides env k xs) i s h) [
      | stays g ↦ start_order-Started env l ys i s g
      | starts p due met g ↦
          starts p due (deps_met-Kept rest s.dep_indices met)
            (rest.same i (launch env i s) g (launch_not_pending env i s))
    ]

-- An index that the order does not name.
pub start_order-skip :
    (env : Env) (l : List ℕ) (xs : List Service) (i : ℕ)
    → elem i l ≡ false
    → get_elem? (start_order env l xs) i ≡ get_elem? xs i
unfolding start_order
start_order-skip env [] xs i off = refl
start_order-skip env (k ∷ l) xs i off =
    start_order-skip env l (try_start env k xs) i (ground arith) ∙ go (try_start_decides env k xs)
  where
    go : {ys : List Service} → Tried env k xs ys → get_elem? ys i ≡ get_elem? xs i
    go (absent e) = refl
    go (waits t e f) = refl
    go (launched t e f) = set_away xs k i (launch env k t) (ground arith)
