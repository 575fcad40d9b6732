-- ===== src/Init/Depgraph/Build.antt =====
-- depgraph_build of src/luna-init/depgraph.c. The adjacency matrix is a function, and the service
-- table is written back with the resolved `dep_indices`.
pub mod Grown
pub mod Loops
pub mod Spec
pub mod Order
pub mod Correct
use mahina_os.Prelude.{
  ℕ, zero, suc, Bool, true, false, Option, none, some, List, [], ◌∷◌, ◌++◌, ◌&&◌, ◌==◌, ltb,
  if◌then◌else◌, length, get_elem?, CString,
}
use mahina_os.Init.Service.{Service, max_deps, service_find}
use mahina_os.Init.Depgraph.{Graph, has_cycle}

-- `g_edge`, `g_indegree` and `g_services`.
pub record Tables : Type 0 where
  pub graph : Graph
  pub services : List Service

-- How a loop over names ends: all resolved, `return -1` at one that is not found, or a read past
-- the entries of `after` or `before`.
pub data Outcome : Type 0 where
  resolved : Tables → Outcome
  missing_name : Tables → Outcome
  fault : Outcome

abbrev pub then_with : Outcome → (Tables → Outcome) → Outcome
then_with (resolved t) f = f t
then_with (missing_name t) f = missing_name t
then_with fault f = fault

pub add_edge : ℕ → ℕ → Graph → Graph
add_edge a b g = if g.edge a b then g else (record {
  edge = λ x y. if x == a && y == b then true else g.edge x y;
  indegree = λ v. if v == b then suc (g.indegree v) else g.indegree v;
})

pub modify : ℕ → (Service → Service) → List Service → List Service
modify i f [] = []
modify zero f (s ∷ rest) = f s ∷ rest
modify (suc i) f (s ∷ rest) = s ∷ modify i f rest

abbrev pub push_dep : ℕ → Service → Service
push_dep d s =
    if ltb (length s.dep_indices) max_deps
    then record s { dep_indices = s.dep_indices ++ (d ∷ []) }
    else s

-- The bodies of the two inner loops, for service `i` and the index `d` that a name resolves to.
pub link_after : ℕ → ℕ → Tables → Tables
unfolding add_edge modify
link_after i d t = record {
  graph = add_edge d i t.graph;
  services = modify i (push_dep d) t.services;
}

pub link_before : ℕ → ℕ → Tables → Tables
unfolding add_edge
link_before i d t = record t { graph = add_edge i d t.graph }

-- for (a = 0; a < count; a++) over the names in the array.
pub name_loop : (ℕ → Tables → Tables) → ℕ → List CString → Tables → Outcome
unfolding service_find
name_loop link zero names t = resolved t
name_loop link (suc k) [] t = fault
name_loop link (suc k) (name ∷ names) t = elim (service_find t.services name) [
  | none ↦ missing_name t
  | some d ↦ name_loop link k names (link d t)
]

pub clear_deps : ℕ → Tables → Tables
unfolding modify
clear_deps i t = record t { services = modify i (λ s. record s { dep_indices = [] }) t.services }

-- The body of the loop over services.
pub resolve_one : ℕ → Service → Tables → Outcome
unfolding name_loop link_after link_before clear_deps
resolve_one i svc t =
    then_with (name_loop (link_after i) svc.after_count svc.after (clear_deps i t))
      (name_loop (link_before i) svc.before_count svc.before)

-- The loop over i, from `i` for `k` rounds.
pub resolve_all : ℕ → ℕ → Tables → Outcome
unfolding resolve_one
resolve_all zero i t = resolved t
resolve_all (suc k) i t = elim (get_elem? t.services i) [
  | none ↦ fault
  | some svc ↦ then_with (resolve_one i svc t) (resolve_all k (suc i))
]

-- `refused` is the return value -1.
pub data BuildResult : Type 0 where
  built : Tables → BuildResult
  refused : Tables → BuildResult
  overrun : BuildResult
  out_of_fuel : BuildResult

abbrev pub cycle_check : Tables → Option Bool → BuildResult
cycle_check t none = out_of_fuel
cycle_check t (some true) = refused t
cycle_check t (some false) = built t

abbrev pub finish : Outcome → BuildResult
finish (resolved t) = cycle_check t (has_cycle (length t.services) t.graph)
finish (missing_name t) = refused t
finish fault = overrun

abbrev pub zeroed : List Service → Tables
zeroed services = record {
  graph = record { edge = λ a b. false; indegree = λ v. 0 };
  services = services;
}

unfoldable pub build : List Service → BuildResult
unfolding resolve_all has_cycle
build services = finish (resolve_all (length services) 0 (zeroed services))
