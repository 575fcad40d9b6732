-- ===== src/Init/Depgraph/Tests.antt =====
-- Runs of the dependency graph of src/luna-init/depgraph.c, and the theorems at concrete inputs.
use mathlib.Core.Option.{some-injective}
use mahina_os.Prelude.{
  ℕ, zero, suc, ◌≤◌, ◌≡◌, refl, subst, ◌==◌, ◌&&◌, ◌||◌, true, false, Option, some, none, List, [],
  ◌∷◌, length, codes, ◌⊎◌, arith,
}
use mahina_os.Init.Sample.{blank_service, arrow, arrow-IsCounted}
use mahina_os.Init.Service.{Service}
use mahina_os.Init.Depgraph.{Graph, Queue, TopoResult, sorted, refused, topo_sort, has_cycle, blank}
use mahina_os.Init.Depgraph.Start.{IsCounted}
use mahina_os.Init.Depgraph.Topo.{IsTopo, topo_sort_decides, has_cycle_decides}
use mahina_os.Init.Depgraph.Build
use mahina_os.Init.Depgraph.Build.{Tables, built, build}
use mahina_os.Init.Depgraph.Build.Loops.{IsSized}
use mahina_os.Init.Depgraph.Build.Spec.{HasUnknown, IsStartOrder}
use mahina_os.Init.Depgraph.Build.Correct.{IsBuilt, build_decides, topo_sort-build}

-- The shell starts after dbus and the network, and the network before dbus.
abbrev trio : List Service
trio =
    record blank_service {
      name = codes "shell";
      after = codes "dbus" ∷ codes "net" ∷ [];
      after_count = 2;
    }
    ∷ record blank_service { name = codes "dbus" }
    ∷ record blank_service { name = codes "net"; before = codes "dbus" ∷ []; before_count = 1 }
    ∷ []

abbrev sort_built : List Service → TopoResult
sort_built services = elim (build services) [
  | built t ↦ topo_sort (length services) t.graph 32
  | _ ↦ refused
]

trio_order : sort_built trio ≡ sorted (2 ∷ 1 ∷ 0 ∷ [])
unfolding build topo_sort
trio_order = refl

-- Two services that wait for each other.
abbrev ring : List Service
ring =
    record blank_service { name = codes "a"; after = codes "b" ∷ []; after_count = 1 }
    ∷ record blank_service { name = codes "b"; after = codes "a" ∷ []; after_count = 1 }
    ∷ []

ring_refused : sort_built ring ≡ refused
unfolding build topo_sort
ring_refused = refl

abbrev Fits : Service → Type 0
Fits s = (s.after_count ≤ length s.after) × (s.before_count ≤ length s.before)

trio_sized : IsSized trio
trio_sized zero s e = subst Fits (some-injective _ s e) (omega arith, omega arith)
trio_sized (suc zero) s e = subst Fits (some-injective _ s e) (omega arith, omega arith)
trio_sized (suc (suc zero)) s e = subst Fits (some-injective _ s e) (omega arith, omega arith)
trio_sized (suc (suc (suc i))) s e = cc

build_decides_example :
    ((t : Tables) × (build trio ≡ built t) × IsBuilt trio t × (l : List ℕ) × IsStartOrder trio l)
    ⊎ ((t : Tables) × (build trio ≡ Build.refused t)
        × (HasUnknown trio ⊎ ((l : List ℕ) → ¬ IsStartOrder trio l)))
build_decides_example = build_decides trio (omega arith) trio_sized

abbrev result_tables : Build.BuildResult → Tables
result_tables (built t) = t
result_tables _ = Build.zeroed []

topo_sort-build_example :
    (l : List ℕ) × (topo_sort 3 (result_tables (build trio)).graph 32 ≡ sorted l)
    × IsStartOrder trio l
unfolding build
topo_sort-build_example =
    topo_sort-build trio (omega arith) trio_sized (result_tables (build trio)) 32 refl (omega arith)

topo_sort_decides_example :
    ((l : List ℕ) × (topo_sort 2 arrow 32 ≡ sorted l) × IsTopo 2 arrow l)
    ⊎ ((topo_sort 2 arrow 32 ≡ refused) × ((m : List ℕ) → ¬ IsTopo 2 arrow m))
topo_sort_decides_example = topo_sort_decides 2 arrow (omega arith) arrow-IsCounted 32 (omega arith)

has_cycle_decides_example :
    ((has_cycle 2 arrow ≡ some false) × (m : List ℕ) × IsTopo 2 arrow m)
    ⊎ ((has_cycle 2 arrow ≡ some true) × ((m : List ℕ) → ¬ IsTopo 2 arrow m))
has_cycle_decides_example = has_cycle_decides 2 arrow (omega arith) arrow-IsCounted

-- Nodes 0 and 1 in a cycle.
abbrev knot : Graph
knot = record { edge = λ a b. ((a == 0) && (b == 1)) || ((a == 1) && (b == 0)); indegree = λ v. 1 }

knot-IsCounted : IsCounted 2 knot
knot-IsCounted zero lt = refl
knot-IsCounted (suc zero) lt = refl
knot-IsCounted (suc (suc v)) lt = absurd (omega arith)

abbrev run_result : Option (Queue × List ℕ) → Queue × List ℕ
run_result none = (blank, [])
run_result (some r) = r
