-- ===== src/Init/Depgraph.antt =====
-- src/luna-init/depgraph.c. The tables `g_edge` and `g_indegree` are a record; `queue[q_head..q_tail)`
-- is the list `pending`, and `tail` is q_tail, the number of slots written.
pub mod Kahn
pub mod Start
pub mod Topo
pub mod Build
mod Tests
use mahina_os.Prelude.{
  ℕ, zero, suc, ◌+◌, ◌-◌, ◌%◌, ◌^◌, Bool, true, false, ◌&&◌, not, Option, none, some, List, [], ◌∷◌,
  ◌++◌, ◌==◌, ltb, if◌then◌else◌, length, set, get_elem?, CString,
}
use mahina_os.Init.Service.{Service, max_deps, service_find}

pub record Graph : Type 0 where
  pub edge : ℕ → ℕ → Bool
  pub indegree : ℕ → ℕ

-- `--x` on an int, as the bit pattern of a 32-bit word.
unfoldable pub dec32 : ℕ → ℕ
dec32 x = (x + (2 ^ 32 - 1)) % 2 ^ 32

-- The local arrays of Kahn's algorithm.
pub record Queue : Type 0 where
  pub indegree : ℕ → ℕ
  pub pending : List ℕ
  pub tail : ℕ

abbrev pub enqueue : ℕ → Queue → Queue
enqueue j s = record s { pending = s.pending ++ (j ∷ []); tail = suc s.tail }

abbrev pub set_indegree : ℕ → ℕ → Queue → Queue
set_indegree j d s = record s { indegree = λ v. if v == j then d else s.indegree v }

abbrev pub blank : Queue
blank = record { indegree = λ v. 0; pending = []; tail = 0 }

-- The loops over i, from `i` for `k` rounds: copy the in-degrees, seed the queue, and both at once.
unfoldable pub copy : Graph → ℕ → ℕ → Queue → Queue
copy g zero i s = s
copy g (suc k) i s = copy g k (suc i) (set_indegree i (g.indegree i) s)

abbrev pub seed_one : ℕ → Queue → Queue
seed_one i s = if s.indegree i == 0 then enqueue i s else s

unfoldable pub seed : ℕ → ℕ → Queue → Queue
seed zero i s = s
seed (suc k) i s = seed k (suc i) (seed_one i s)

unfoldable pub copy_seed : Graph → ℕ → ℕ → Queue → Queue
copy_seed g zero i s = s
copy_seed g (suc k) i s = copy_seed g k (suc i) (seed_one i (set_indegree i (g.indegree i) s))

-- The body of the inner loop: the edge from `node` to `j`.
unfoldable pub relax_edge : Graph → ℕ → ℕ → Queue → Queue
relax_edge g node j s =
    if not (g.edge node j)
    then s
    else (let d = dec32 (s.indegree j) in
        if d == 0 then enqueue j (set_indegree j d s) else set_indegree j d s)

-- The inner loop over j, from `j` for `k` rounds.
unfoldable pub relax : Graph → ℕ → ℕ → ℕ → Queue → Queue
unfolding relax_edge dec32
relax g node zero j s = s
relax g node (suc k) j s = relax g node k (suc j) (relax_edge g node j s)

-- `node = queue[q_head++]` with the inner loop, in a graph of `n` services.
unfoldable pub expand : ℕ → Graph → ℕ → List ℕ → Queue → Queue
unfolding relax
expand n g node rest s = relax g node n 0 (record s { pending = rest })

-- while (q_head < q_tail) in depgraph_topo_sort, with fuel; `none` means that the fuel ran out.
unfoldable pub loop : ℕ → Graph → ℕ → Queue → List ℕ → Option (Queue × List ℕ)
unfolding expand
loop n g zero s out = elim s.pending [ [] ↦ some (s, out) | node ∷ rest ↦ none ]
loop n g (suc fuel) s out = elim s.pending [
  | [] ↦ some (s, out)
  | node ∷ rest ↦ loop n g fuel (expand n g node rest s) (out ++ (node ∷ []))
]

-- The same loop in depgraph_has_cycle, which counts the nodes.
unfoldable pub count_loop : ℕ → Graph → ℕ → Queue → ℕ → Option (Queue × ℕ)
unfolding expand
count_loop n g zero s count = elim s.pending [ [] ↦ some (s, count) | node ∷ rest ↦ none ]
count_loop n g (suc fuel) s count = elim s.pending [
  | [] ↦ some (s, count)
  | node ∷ rest ↦ count_loop n g fuel (expand n g node rest s) (suc count)
]

-- `refused` is the return value -1, and `sorted` the order written to `out_order`.
pub data TopoResult : Type 0 where
  sorted : List ℕ → TopoResult
  refused : TopoResult
  out_of_fuel : TopoResult

abbrev pub topo_result : ℕ → Option (Queue × List ℕ) → TopoResult
topo_result n none = out_of_fuel
topo_result n (some (s, out)) = if length out == n then sorted out else refused

-- depgraph_topo_sort in a table of `n` services. `n` rounds are enough.
unfoldable pub topo_sort : ℕ → Graph → ℕ → TopoResult
unfolding copy seed loop
topo_sort n g max_count =
    if ltb max_count n then refused else topo_result n (loop n g n (seed n 0 (copy g n 0 blank)) [])

abbrev pub cycle_result : ℕ → Option (Queue × ℕ) → Option Bool
cycle_result n none = none
cycle_result n (some (s, count)) = some (not (count == n))

-- depgraph_has_cycle.
unfoldable pub has_cycle : ℕ → Graph → Option Bool
unfolding copy_seed count_loop
has_cycle n g = cycle_result n (count_loop n g n (copy_seed g n 0 blank) 0)
