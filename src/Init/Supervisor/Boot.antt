-- ===== src/Init/Supervisor/Boot.antt =====
-- supervisor_is_boot_complete and supervisor_start_all of src/luna-init/supervisor.c.
use mathlib.Core.Option.{some-injective}
use mahina_os.Prelude.{
  ℕ, zero, suc, ◌==◌, ◌≡◌, refl, subst, ap, Bool, true, false, not, ◌&&◌, ◌||◌, some, List, [], ◌∷◌,
  get_elem?, elem, ◌⊎◌, ◌↔◌, inl, inr, Bool-cases, Option-cases, arith, str_eq, codes,
}
use mahina_os.Init.Service.{State, pending, starting, stopped, state_eq, Service}
use mahina_os.Init.Supervisor.{
  Table, Env, is_stopped_at, blocked_by_stopped, holds_boot, boot_complete_from, is_boot_complete,
  prepare, prepare_all, start_all,
}
use mahina_os.Init.Supervisor.Turn.{Edge, same, pump_edges}

-- A dependency of the service is stopped.
abbrev pub HasStopped : List Service → List ℕ → Type 0
HasStopped services ds =
    (d : ℕ) × (dep : Service) × (elem d ds ≡ true)
    × (get_elem? services d ≡ some dep)
    × (dep.state ≡ stopped)

is_stopped : (s : State) → state_eq s stopped ≡ true → s ≡ stopped
is_stopped s h = ground arith

is_stopped_at-dep :
    (services : List Service) (d : ℕ)
    → is_stopped_at services d ≡ true
    → (dep : Service) × (get_elem? services d ≡ some dep) × (dep.state ≡ stopped)
is_stopped_at-dep services d h = elim (Option-cases (get_elem? services d)) [
  | inl e ↦ absurd (let f = rw (e, is_stopped_at) at h in cc)
  | inr (dep, e) ↦ (dep, e, is_stopped dep.state (rw (e, is_stopped_at) at h))
]

blocked→HasStopped :
    (services : List Service) (ds : List ℕ)
    → blocked_by_stopped services ds ≡ true
    → HasStopped services ds
blocked→HasStopped services [] h = absurd cc
blocked→HasStopped services (d ∷ ds) h = elim (Bool-cases (is_stopped_at services d)) [
  | inl e ↦ let (dep, f, g) = is_stopped_at-dep services d e in (d, dep, ground arith, f, g)
  | inr e ↦
      let (c, dep, m, f, g) = blocked→HasStopped services ds (ground arith) in
      (c, dep, ground arith, f, g)
]

HasStopped→blocked :
    (services : List Service) (ds : List ℕ)
    → HasStopped services ds
    → blocked_by_stopped services ds ≡ true
HasStopped→blocked services [] (d, dep, m, f, g) = absurd cc
HasStopped→blocked services (x ∷ ds) (d, dep, m, f, g) = elim (Bool-cases (x == d)) [
  | inl e ↦
      let at : get_elem? services x ≡ some dep =
        subst (λ j. get_elem? services j ≡ some dep) (ground arith) f in
      let here : is_stopped_at services x ≡ true =
        rw (at, is_stopped_at) (ap (λ a. state_eq a stopped) g) in
      rw here refl
  | inr e ↦ let rest = HasStopped→blocked services ds (d, dep, ground arith, f, g) in ground arith
]

every :
    (x : Service) (rest services : List Service)
    → holds_boot services x ≡ false
    → ((i : ℕ) (s : Service) → get_elem? rest i ≡ some s → holds_boot services s ≡ false)
    → (i : ℕ) (s : Service) → get_elem? (x ∷ rest) i ≡ some s
    → holds_boot services s ≡ false
every x rest services e h zero s g =
    subst (λ t. holds_boot services t ≡ false) (some-injective x s g) e
every x rest services e h (suc i) s g = h i s g

complete_from_iff :
    (services rest : List Service)
    → boot_complete_from services rest ≡ true
      ↔ ((i : ℕ) (s : Service) → get_elem? rest i ≡ some s → holds_boot services s ≡ false)
unfolding boot_complete_from
complete_from_iff services [] = (λ h i s e. absurd cc, λ h. refl)
complete_from_iff services (x ∷ rest) =
    let later = complete_from_iff services rest in
    elim (Bool-cases (holds_boot services x)) [
      | inl e ↦ (λ h. absurd (let f = rw e at h in cc), λ h. absurd (let f = h 0 x refl in cc))
      | inr e ↦ (
        λ h. every x rest services e (later.0 (rw e at h)),
        λ h. rw e (later.1 (λ i s. h (suc i) s)),
      )
    ]

-- Whatever is still to start waits for a stopped service.
pub OnlyBlockedLeft : List Service → Type 0
OnlyBlockedLeft services =
    (i : ℕ) (s : Service)
    → get_elem? services i ≡ some s
    → (s.state ≡ pending) ⊎ (s.state ≡ starting)
    → HasStopped services s.dep_indices

unstarted_cases :
    (a : State)
    → (state_eq a pending || state_eq a starting) ≡ true
    → (a ≡ pending) ⊎ (a ≡ starting)
unstarted_cases a h = ground arith

unstarted_of :
    (a : State)
    → (a ≡ pending) ⊎ (a ≡ starting)
    → (state_eq a pending || state_eq a starting) ≡ true
unstarted_of a h = ground arith

not_held : {a b : Bool} → (a && not b) ≡ false → a ≡ true → b ≡ true
not_held h e = ground arith

held_not : {a b : Bool} → (a ≡ true → b ≡ true) → (a && not b) ≡ false
held_not {a = true} h = ground (arith, h refl)
held_not {a = false} h = refl

-- supervisor_is_boot_complete answers true exactly when every service that is PENDING or STARTING
-- has a dependency that is STOPPED.
pub boot_complete_iff :
    (services : List Service) → (is_boot_complete services ≡ true) ↔ OnlyBlockedLeft services
unfolding is_boot_complete OnlyBlockedLeft
boot_complete_iff services =
    let all = complete_from_iff services services in
    (
      λ h i s g a.
          blocked→HasStopped services s.dep_indices
            (not_held (all.0 h i s g) (unstarted_of s.state a)),
      λ h. all.1 (λ i s g.
          held_not
            (λ e. HasStopped→blocked services s.dep_indices (h i s g (unstarted_cases s.state e)))),
    )

prepare_all-get :
    (xs : List Service) (i : ℕ) (s : Service)
    → get_elem? xs i ≡ some s
    → get_elem? (prepare_all xs) i ≡ some (prepare s)
unfolding prepare_all
prepare_all-get [] i s h = cc
prepare_all-get (x ∷ xs) zero s h = ap (λ t. some (prepare t)) (some-injective x s h)
prepare_all-get (x ∷ xs) (suc i) s h = prepare_all-get xs i s h

from_stopped : {a : State} → Edge stopped a → a ≡ stopped
from_stopped same = refl

-- supervisor_start_all leaves a service named lgp-compositor STOPPED.
pub start_all_spares_compositor :
    (env : Env) (t : Table) (i : ℕ) (s : Service)
    → get_elem? t.services i ≡ some s
    → str_eq s.name (codes "lgp-compositor") ≡ true
    → (u : Service) × (get_elem? (start_all env t).services i ≡ some u) × (u.state ≡ stopped)
unfolding start_all
start_all_spares_compositor env t i s h named =
    let prepared = record t { services = prepare_all t.services } in
    let (u, g, edge) = pump_edges env prepared i (prepare s) (prepare_all-get t.services i s h) in
    let was : (prepare s).state ≡ stopped = rw (named, prepare) refl in
    (u, g, from_stopped (subst (λ a. Edge a u.state) was edge))
