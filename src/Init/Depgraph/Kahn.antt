-- ===== src/Init/Depgraph/Kahn.antt =====
-- The invariant of the two loops of src/luna-init/depgraph.c.
use mathlib.Core.List.{append_assoc}
use mahina_os.Prelude.{
  ℕ, zero, suc, ◌+◌, ◌^◌, ◌<◌, ◌≡◌, refl, ap, subst, ◌∙◌, Bool, true, false, ◌&&◌, ◌||◌, not, List,
  [], ◌∷◌, ◌++◌, ◌==◌, ltb, if◌then◌else◌, length, elem, count_below, elem-append, IsDistinct,
  IsBelow, Bool-cases, inl, inr, ℕ_discrete, count_below-le, count_below-congr, count_below-drop,
  count_below-pos, length-append, arith,
}
use mahina_os.Init.Depgraph.{Graph, Queue, dec32, relax_edge, relax, expand}

-- The edges into `v` whose source is not in `out`.
abbrev pub missing : ℕ → Graph → List ℕ → ℕ → ℕ
missing n g out v = count_below n (λ i. g.edge i v && not (elem i out))

-- Each entry of the list comes after its predecessors, or they are in `done`.
abbrev pub IsOrdered : ℕ → Graph → List ℕ → List ℕ → Type 0
IsOrdered n g done [] = Unit {0}
IsOrdered n g done (v ∷ l) =
    ((i : ℕ) → i < n → g.edge i v ≡ true → elem i done ≡ true) × IsOrdered n g (v ∷ done) l

pub record Inv (n : ℕ) (g : Graph) (s : Queue) (out : List ℕ) : Type 0 where
  pub distinct : IsDistinct (out ++ s.pending)
  pub below : IsBelow n (out ++ s.pending)
  pub counted : (v : ℕ) → v < n → s.indegree v ≡ missing n g out v
  pub ready : (v : ℕ) → v < n → (s.indegree v == 0) ≡ elem v (out ++ s.pending)
  pub ordered : IsOrdered n g [] out
  pub slots : s.tail ≡ length (out ++ s.pending)

pub IsDistinct-snoc :
    (xs : List ℕ) (v : ℕ) → IsDistinct xs → elem v xs ≡ false → IsDistinct (xs ++ (v ∷ []))
IsDistinct-snoc [] v d h = (refl, tt)
IsDistinct-snoc (x ∷ xs) v d h =
    (ground (arith, elem-append x xs (v ∷ [])), IsDistinct-snoc xs v d.1 (ground arith))

pub IsBelow-snoc : (n : ℕ) (xs : List ℕ) (v : ℕ) → IsBelow n xs → v < n → IsBelow n (xs ++ (v ∷ []))
IsBelow-snoc n [] v b h = (h, tt)
IsBelow-snoc n (x ∷ xs) v b h = (b.0, IsBelow-snoc n xs v b.1 h)

pub IsOrdered-snoc :
    (n : ℕ) (g : Graph) (done l : List ℕ) (v : ℕ)
    → IsOrdered n g done l
    → ((i : ℕ) → i < n → g.edge i v ≡ true → (elem i done || elem i l) ≡ true)
    → IsOrdered n g done (l ++ (v ∷ []))
IsOrdered-snoc n g done [] v o h = (λ i lt e. ground (arith, h i lt e), tt)
IsOrdered-snoc n g done (x ∷ l) v o h =
    (o.0, IsOrdered-snoc n g (x ∷ done) l v o.1 (λ i lt e. ground (arith, h i lt e)))

-- What the inner loop has done when it stands at `j`.
pub record Relaxed (n : ℕ) (g : Graph) (node : ℕ) (out : List ℕ) (s t : Queue) (j : ℕ)
    : Type 0 where
  pub degrees :
      (v : ℕ)
      → t.indegree v ≡ (if ltb v j && g.edge node v then dec32 (s.indegree v) else s.indegree v)
  pub members :
      (v : ℕ)
      → elem v (out ++ t.pending)
        ≡ (elem v (out ++ s.pending) || (ltb v j && (g.edge node v && (dec32 (s.indegree v) == 0))))
  pub distinct : IsDistinct (out ++ t.pending)
  pub below : IsBelow n (out ++ t.pending)
  pub slots : t.tail ≡ length (out ++ t.pending)

-- Whether the body of the inner loop enqueues `j`.
abbrev releases : Graph → ℕ → ℕ → Queue → Bool
releases g node j t = g.edge node j && (dec32 (t.indegree j) == 0)

relax_edge-enqueues :
    (g : Graph) (node j : ℕ) (t : Queue) (out : List ℕ)
    → releases g node j t ≡ true
    → (out ++ (relax_edge g node j t).pending ≡ (out ++ t.pending) ++ (j ∷ []))
      × ((relax_edge g node j t).tail ≡ suc t.tail)
unfolding relax_edge
relax_edge-enqueues g node j t out e = ground (arith, append_assoc out t.pending (j ∷ []))

relax_edge-keeps :
    (g : Graph) (node j : ℕ) (t : Queue)
    → releases g node j t ≡ false
    → ((relax_edge g node j t).pending ≡ t.pending) × ((relax_edge g node j t).tail ≡ t.tail)
unfolding relax_edge
relax_edge-keeps g node j t e = ground arith

relax_edge-degrees :
    (g : Graph) (node j : ℕ) (t : Queue) (v : ℕ)
    → (relax_edge g node j t).indegree v
      ≡ (if v == j && g.edge node v then dec32 (t.indegree v) else t.indegree v)
unfolding relax_edge
relax_edge-degrees g node j t v = elim (ℕ_discrete v j) [
  | yes e ↦ rw e (ground arith)
  | no ne ↦ ground arith
]

module _ (n : ℕ) (g : Graph) (node : ℕ) (out : List ℕ) (s : Queue) where
  degrees_step :
      (t : Queue) (j : ℕ)
      → Relaxed n g node out s t j
      → (v : ℕ)
      → (relax_edge g node j t).indegree v
        ≡ (if ltb v (suc j) && g.edge node v then dec32 (s.indegree v) else s.indegree v)
  degrees_step t j r v = ground (arith, relax_edge-degrees g node j t v, r.degrees v)

  members_step :
      (t : Queue) (j : ℕ)
      → Relaxed n g node out s t j
      → (v : ℕ)
      → elem v (out ++ (relax_edge g node j t).pending) ≡ (
          elem v (out ++ s.pending)
          || (ltb v (suc j) && (g.edge node v && (dec32 (s.indegree v) == 0))))
  members_step t j r v = elim (Bool-cases (releases g node j t)) [
    | inl e ↦ rw (relax_edge-enqueues g node j t out e).0 (
        ground
          (arith, elem-append v (out ++ t.pending) (j ∷ []), r.members v, r.degrees v, r.degrees j))
    | inr e ↦
        rw (relax_edge-keeps g node j t e).0 (ground (arith, r.members v, r.degrees v, r.degrees j))
  ]

  relax_edge-Relaxed :
      (t : Queue) (j : ℕ)
      → j < n
      → (g.edge node j ≡ true → elem j (out ++ s.pending) ≡ false)
      → Relaxed n g node out s t j
      → Relaxed n g node out s (relax_edge g node j t) (suc j)
  relax_edge-Relaxed t j lt fresh r = elim (Bool-cases (releases g node j t)) [
    | inl e ↦
        let (queued, slot) = relax_edge-enqueues g node j t out e in
        let new : elem j (out ++ t.pending) ≡ false = ground (arith, r.members j) in
        record {
          degrees = degrees_step t j r;
          members = members_step t j r;
          distinct = rw queued (IsDistinct-snoc (out ++ t.pending) j r.distinct new);
          below = rw queued (IsBelow-snoc n (out ++ t.pending) j r.below lt);
          slots =
              omega
                (arith, slot, ap length queued, r.slots, length-append (out ++ t.pending) (j ∷ []));
        }
    | inr e ↦
        let (same, slot) = relax_edge-keeps g node j t e in
        record {
          degrees = degrees_step t j r;
          members = members_step t j r;
          distinct = rw same r.distinct;
          below = rw same r.below;
          slots = rw (same, slot) r.slots;
        }
  ]

  relax-Relaxed :
      (k j : ℕ) (t : Queue)
      → j + k ≡ n
      → ((v : ℕ) → v < n → g.edge node v ≡ true → elem v (out ++ s.pending) ≡ false)
      → Relaxed n g node out s t j
      → Relaxed n g node out s (relax g node k j t) n
  unfolding relax
  relax-Relaxed zero j t e fresh r = subst (λ m. Relaxed n g node out s t m) (omega arith) r
  relax-Relaxed (suc k) j t e fresh r =
      relax-Relaxed k (suc j) (relax_edge g node j t) (omega arith) fresh
        (relax_edge-Relaxed t j (omega arith) (fresh j (omega arith)) r)

-- Below the bound of the table the decrement of a positive in-degree is exact.
dec32-suc : (x : ℕ) → x < 2 ^ 32 → dec32 (suc x) ≡ x
unfolding dec32
dec32-suc x h = omega arith

pub IsBelow-middle :
    (n : ℕ) (xs : List ℕ) (v : ℕ) (ys : List ℕ) → IsBelow n (xs ++ (v ∷ ys)) → v < n
IsBelow-middle n [] v ys b = b.0
IsBelow-middle n (x ∷ xs) v ys b = IsBelow-middle n xs v ys b.1

pub IsDistinct-middle :
    (xs : List ℕ) (v : ℕ) (ys : List ℕ) → IsDistinct (xs ++ (v ∷ ys)) → elem v xs ≡ false
IsDistinct-middle [] v ys d = refl
IsDistinct-middle (x ∷ xs) v ys d =
    ground (arith, elem-append x xs (v ∷ ys), IsDistinct-middle xs v ys d.1)

-- With no edge missing every predecessor is placed.
pub placed_of_none_missing :
    (n : ℕ) (g : Graph) (out : List ℕ) (v : ℕ)
    → missing n g out v ≡ 0
    → (i : ℕ) → i < n
    → g.edge i v ≡ true
    → elem i out ≡ true
placed_of_none_missing n g out v none i lt e = elim (Bool-cases (elem i out)) [
  | inl there ↦ there
  | inr gone ↦
      let some_missing =
        count_below-pos n (λ i. g.edge i v && not (elem i out)) i lt (ground arith) in
      absurd (omega arith)
]

-- One round of the outer loop keeps the invariant.
module _ (n : ℕ) (g : Graph) (node : ℕ) (rest : List ℕ) (s : Queue) (out : List ℕ)
    (small : n < 2 ^ 32) (head : s.pending ≡ node ∷ rest) (h : Inv n g s out) where
  abbrev popped : Queue
  popped = record s { pending = rest }

  moved : (out ++ (node ∷ [])) ++ rest ≡ out ++ s.pending
  moved = rw head (append_assoc out (node ∷ []) rest)

  node_below : node < n
  node_below = IsBelow-middle n out node rest (subst (λ p. IsBelow n (out ++ p)) head h.below)

  node_unplaced : elem node out ≡ false
  node_unplaced =
      IsDistinct-middle out node rest (subst (λ p. IsDistinct (out ++ p)) head h.distinct)

  -- The edge from `node` is missing as long as `node` is not placed.
  missing-drop :
      (v : ℕ) → g.edge node v ≡ true → missing n g out v ≡ suc (missing n g (out ++ (node ∷ [])) v)
  missing-drop v e =
      count_below-drop n node (λ i. g.edge i v && not (elem i out))
        (λ i. g.edge i v && not (elem i (out ++ (node ∷ [])))) node_below
        (ground (arith, node_unplaced)) (ground (arith, elem-append node out (node ∷ [])))
        (λ i lt ne. ground (arith, elem-append i out (node ∷ [])))

  missing-same :
      (v : ℕ) → g.edge node v ≡ false → missing n g out v ≡ missing n g (out ++ (node ∷ [])) v
  missing-same v e =
      count_below-congr n (λ i. g.edge i v && not (elem i out))
        (λ i. g.edge i v && not (elem i (out ++ (node ∷ []))))
        (λ i lt. elim (ℕ_discrete i node) [
          | yes p ↦ rw p (ground arith)
          | no ne ↦ ground (arith, elem-append i out (node ∷ []))
        ])

  fresh : (v : ℕ) → v < n → g.edge node v ≡ true → elem v ((out ++ (node ∷ [])) ++ rest) ≡ false
  fresh v lt e = rw moved (ground (arith, h.ready v lt, h.counted v lt, missing-drop v e))

  expand-Relaxed : Relaxed n g node (out ++ (node ∷ [])) popped (expand n g node rest s) n
  unfolding expand
  expand-Relaxed =
      relax-Relaxed n g node (out ++ (node ∷ [])) popped n 0 popped (omega arith) fresh (record {
        degrees = λ v. ground arith;
        members = λ v. ground arith;
        distinct = rw moved h.distinct;
        below = rw moved h.below;
        slots = rw moved h.slots;
      })

  counted_step :
      (v : ℕ) → v < n → (expand n g node rest s).indegree v ≡ missing n g (out ++ (node ∷ [])) v
  counted_step v lt = elim (Bool-cases (g.edge node v)) [
    | inl e ↦
        let bound = count_below-le n (λ i. g.edge i v && not (elem i (out ++ (node ∷ [])))) in
        let less = dec32-suc (missing n g (out ++ (node ∷ [])) v) (omega arith) in
        let old : s.indegree v ≡ suc (missing n g (out ++ (node ∷ [])) v) =
          h.counted v lt ∙ missing-drop v e in
        ground (arith, expand-Relaxed.degrees v, ap dec32 old)
    | inr e ↦ ground (arith, expand-Relaxed.degrees v, h.counted v lt, missing-same v e)
  ]

  ready_step :
      (v : ℕ)
      → v < n
      → ((expand n g node rest s).indegree v == 0)
        ≡ elem v ((out ++ (node ∷ [])) ++ (expand n g node rest s).pending)
  ready_step v lt = elim (Bool-cases (g.edge node v)) [
    | inl e ↦ ground (arith, expand-Relaxed.degrees v, expand-Relaxed.members v, fresh v lt e)
    | inr e ↦
        ground (
          arith,
          expand-Relaxed.degrees v,
          expand-Relaxed.members v,
          h.ready v lt,
          ap (elem v) moved,
        )
  ]

  -- A node in the queue has no missing edge, so its predecessors are placed.
  placed_before : (i : ℕ) → i < n → g.edge i node ≡ true → elem i out ≡ true
  placed_before i lt e =
      let queued : elem node (out ++ s.pending) ≡ true =
        rw head (ground (arith, elem-append node out (node ∷ rest))) in
      placed_of_none_missing n g out node
        (ground (arith, h.ready node node_below, h.counted node node_below)) i lt e

  pub expand-Inv : Inv n g (expand n g node rest s) (out ++ (node ∷ []))
  expand-Inv = record {
    distinct = expand-Relaxed.distinct;
    below = expand-Relaxed.below;
    counted = counted_step;
    ready = ready_step;
    ordered = IsOrdered-snoc n g [] out node h.ordered placed_before;
    slots = expand-Relaxed.slots;
  }
