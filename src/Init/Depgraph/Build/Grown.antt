-- ===== src/Init/Depgraph/Build/Grown.antt =====
-- What depgraph_build of src/luna-init/depgraph.c keeps, and what an edge that it adds does.
use mahina_os.Prelude.{
  ℕ, zero, suc, ◌+◌, ◌<◌, ◌≡◌, refl, sym, ap, subst, ◌∙◌, Bool, true, false, ◌&&◌, ◌||◌, some, List,
  [], ◌∷◌, map, ◌==◌, if◌then◌else◌, length, get_elem?, CString, count_below-congr,
  count_below-drop, Bool-cases, inl, inr, ℕ_discrete, arith,
}
use mathlib.Core.Option
use mahina_os.Init.Service.{Service, service_find, find_from}
use mahina_os.Init.Depgraph.{Graph}
use mahina_os.Init.Depgraph.Start.{IsCounted}
use mahina_os.Init.Depgraph.Build.{Tables, add_edge, modify}

-- A service without the field that depgraph_build writes.
abbrev pub bare : Service → Service
bare s = record s { dep_indices = [] }

abbrev pub bares : List Service → List Service
bares services = map bare services

find_from-bares :
    (i : ℕ) (name : CString) (services : List Service)
    → find_from i name (bares services) ≡ find_from i name services
unfolding find_from
find_from-bares i name [] = refl
find_from-bares i name (s ∷ rest) = rw (find_from-bares (suc i) name rest) refl

pub service_find-bares :
    (services : List Service) (name : CString)
    → service_find (bares services) name ≡ service_find services name
unfolding service_find
service_find-bares services name = find_from-bares 0 name services

pub bares-modify :
    (i : ℕ) (f : Service → Service) (services : List Service)
    → ((s : Service) → bare (f s) ≡ bare s)
    → bares (modify i f services) ≡ bares services
unfolding modify
bares-modify i f [] h = refl
bares-modify zero f (s ∷ rest) h = ap (λ x. x ∷ bares rest) (h s)
bares-modify (suc i) f (s ∷ rest) h = ap (λ r. bare s ∷ r) (bares-modify i f rest h)

pub length-bares : (services : List Service) → length (bares services) ≡ length services
length-bares [] = refl
length-bares (s ∷ rest) = ap suc (length-bares rest)

pub get_elem?-bares :
    (services : List Service) (i : ℕ)
    → get_elem? (bares services) i ≡ Option.map bare (get_elem? services i)
get_elem?-bares [] i = refl
get_elem?-bares (s ∷ rest) zero = refl
get_elem?-bares (s ∷ rest) (suc i) = get_elem?-bares rest i

find_from-lt :
    (i : ℕ) (name : CString) (services : List Service) (d : ℕ)
    → find_from i name services ≡ some d
    → d < i + length services
unfolding find_from
find_from-lt i name [] d h = cc
find_from-lt i name (s ∷ rest) d h = ground (arith, find_from-lt (suc i) name rest d)

pub service_find-lt :
    (services : List Service) (name : CString) (d : ℕ)
    → service_find services name ≡ some d
    → d < length services
unfolding service_find
service_find-lt services name d h = omega (arith, find_from-lt 0 name services d h)

-- A new edge is counted once, an old one not again.
pub add_edge-IsCounted :
    (n a b : ℕ) (g : Graph) → a < n → IsCounted n g → IsCounted n (add_edge a b g)
unfolding add_edge
add_edge-IsCounted n a b g la c v lv = elim (Bool-cases (g.edge a b)) [
  | inl old ↦ rw old (c v lv)
  | inr new ↦ elim (ℕ_discrete v b) [
    | yes e ↦
        let more =
          count_below-drop n a (λ i. if i == a && v == b then true else g.edge i v)
            (λ i. g.edge i v) la (ground arith) (rw e new) (λ i li ne. ground arith) in
        rw new (ground (arith, c v lv))
    | no ne ↦
        let same =
          count_below-congr n (λ i. g.edge i v) (λ i. if i == a && v == b then true else g.edge i v)
            (λ i li. ground arith) in
        rw new (ground (arith, c v lv))
  ]
]

pub add_edge-edge :
    (a b : ℕ) (g : Graph) (x y : ℕ) → (add_edge a b g).edge x y ≡ (g.edge x y || (x == a && y == b))
unfolding add_edge
add_edge-edge a b g x y = elim (Bool-cases (x == a && y == b)) [
  | inl e ↦
      let ex : x ≡ a = ground arith in let ey : y ≡ b = ground arith in rw (ex, ey) (ground arith)
  | inr e ↦ ground arith
]

-- From `t` to `u` the edges of `extra` were added, and nothing else but `dep_indices` changed.
pub record Grown (t u : Tables) (extra : ℕ → ℕ → Bool) : Type 0 where
  pub same : bares u.services ≡ bares t.services
  pub edges : (a b : ℕ) → u.graph.edge a b ≡ (t.graph.edge a b || extra a b)
  pub counts : IsCounted (length t.services) t.graph → IsCounted (length t.services) u.graph

pub Grown-length :
    {t u : Tables} {extra : ℕ → ℕ → Bool} → Grown t u extra → length u.services ≡ length t.services
Grown-length {t} {u} g = sym (length-bares u.services) ∙ ap length g.same ∙ length-bares t.services

pub Grown-find :
    {t u : Tables} {extra : ℕ → ℕ → Bool}
    → Grown t u extra
    → (name : CString) → service_find u.services name ≡ service_find t.services name
Grown-find {t} {u} g name =
    sym (service_find-bares u.services name)
    ∙ ap (λ l. service_find l name) g.same
    ∙ service_find-bares t.services name

pub Grown-refl : (t : Tables) → Grown t t (λ a b. false)
Grown-refl t = record { same = refl; edges = λ a b. ground arith; counts = λ c. c }

pub Grown-trans :
    {t u v : Tables} {e f : ℕ → ℕ → Bool}
    → Grown t u e
    → Grown u v f
    → Grown t v (λ a b. e a b || f a b)
Grown-trans {t} {u} {v} {e} {f} g h = record {
  same = h.same ∙ g.same;
  edges = λ a b. ground (arith, g.edges a b, h.edges a b);
  counts = λ c.
      subst (λ k. IsCounted k v.graph) (Grown-length g)
        (h.counts (subst (λ k. IsCounted k u.graph) (sym (Grown-length g)) (g.counts c)));
}

pub Grown-congr :
    {t u : Tables} {e f : ℕ → ℕ → Bool} → ((a b : ℕ) → e a b ≡ f a b) → Grown t u e → Grown t u f
Grown-congr h g = record {
  same = g.same;
  edges = λ a b. ground (arith, g.edges a b, h a b);
  counts = g.counts;
}
