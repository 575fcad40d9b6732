-- ===== src/Init/Depgraph/Build/Order.antt =====
-- A topological order of the graph that depgraph_build (src/luna-init/depgraph.c) makes is a start
-- order of the services, and the other way round.
use mathlib.Core.List.{append_assoc}
use mahina_os.Prelude.{
  ℕ, ◌<◌, ◌≡◌, refl, ap, ◌∙◌, true, ◌||◌, List, [], ◌∷◌, ◌++◌, length, elem, elem-append,
  IsDistinct, ◌↔◌, ℕ_discrete, arith,
}
use mahina_os.Init.Service.{Service}
use mahina_os.Init.Depgraph.{Graph}
use mahina_os.Init.Depgraph.Kahn.{IsOrdered}
use mahina_os.Init.Depgraph.Topo.{IsTopo}
use mahina_os.Init.Depgraph.Build.Spec.{MustPrecede, MustPrecede-lt, Precedes, IsStartOrder}

-- Where a node stands in an ordered list, its predecessor stands before.
IsOrdered-Precedes :
    (n : ℕ) (g : Graph) (done l : List ℕ) (a b : ℕ)
    → IsOrdered n g done l
    → a < n
    → g.edge a b ≡ true
    → elem b l ≡ true
    → (pre : List ℕ) × (post : List ℕ) × (l ≡ pre ++ (b ∷ post))
      × ((elem a done || elem a pre) ≡ true)
IsOrdered-Precedes n g done [] a b o lt e m = cc
IsOrdered-Precedes n g done (x ∷ l) a b o lt e m = elim (ℕ_discrete x b) [
  | yes same ↦
      let into : g.edge a x ≡ true = rw same e in
      ([], l, ap (λ t. t ∷ l) same, ground (arith, o.0 a lt into))
  | no other ↦
      let (pre, post, split, before) =
        IsOrdered-Precedes n g (x ∷ done) l a b o.1 lt e (ground arith) in
      (x ∷ pre, post, ap (λ t. x ∷ t) split, ground arith)
]

-- In a list without repetition a node stands in one place.
one_place :
    (p m pre post : List ℕ) (v a : ℕ)
    → IsDistinct (p ++ (v ∷ m))
    → p ++ (v ∷ m) ≡ pre ++ (v ∷ post)
    → elem a pre ≡ true
    → elem a p ≡ true
one_place [] m [] post v a d e h = h
one_place [] m (x ∷ pre) post v a d e h =
    let tails : m ≡ pre ++ (v ∷ post) = cc in
    let there : elem v m ≡ true = rw tails (ground (arith, elem-append v pre (v ∷ post))) in
    cc (d.0, there)
one_place (x ∷ p) m [] post v a d e h = cc
one_place (x ∷ p) m (y ∷ pre) post v a d e h =
    let heads : x ≡ y = cc in
    let tails : p ++ (v ∷ m) ≡ pre ++ (v ∷ post) = cc in
    ground (arith, one_place p m pre post v a d.1 tails)

Precedes-IsOrdered :
    (n : ℕ) (g : Graph) (l done p m : List ℕ)
    → p ++ m ≡ l
    → IsDistinct l
    → ((i v : ℕ) → g.edge i v ≡ true → Precedes i v l)
    → ((i : ℕ) → elem i p ≡ true → elem i done ≡ true)
    → IsOrdered n g done m
Precedes-IsOrdered n g l done p [] e d before grown = tt
Precedes-IsOrdered n g l done p (v ∷ m) e d before grown = (
  λ i lt into.
      let (pre, post, split, h) = before i v into in
      grown i (one_place p m pre post v i (rw e d) (e ∙ split) h),
  Precedes-IsOrdered n g l (v ∷ done) (p ++ (v ∷ [])) m (append_assoc p (v ∷ []) m ∙ e) d before
      (λ i h. ground (arith, elem-append i p (v ∷ []), grown i)),
)

module _ (services : List Service) (g : Graph)
    (edges : (a b : ℕ) → (g.edge a b ≡ true) ↔ MustPrecede services a b) where
  pub IsTopo→IsStartOrder : (l : List ℕ) → IsTopo (length services) g l → IsStartOrder services l
  IsTopo→IsStartOrder l t = record {
    distinct = t.distinct;
    below = t.below;
    total = t.total;
    ordered = λ a b must.
        let (la, lb) = MustPrecede-lt services a b must in
        let (pre, post, split, before) =
          IsOrdered-Precedes (length services) g [] l a b t.ordered la ((edges a b).1 must)
            (t.total b lb) in
        (pre, post, split, before);
  }

  pub IsStartOrder→IsTopo : (l : List ℕ) → IsStartOrder services l → IsTopo (length services) g l
  IsStartOrder→IsTopo l t = record {
    distinct = t.distinct;
    below = t.below;
    total = t.total;
    ordered =
        Precedes-IsOrdered (length services) g l [] [] l refl t.distinct
          (λ i v e. t.ordered i v ((edges i v).0 e)) (λ i h. h);
  }
