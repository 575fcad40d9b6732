-- ===== src/Init/Loader/Start.antt =====
-- From the directory of src/luna-init/service.c to the graph of depgraph.c.
use mahina_os.Init.Service.{Service}
use mahina_os.Init.Toml.Load.{File}
use mahina_os.Init.Loader.{load_one, is_toml, is_named, add_loaded, scan, load_all}
use mahina_os.Init.Loader.Arrays.{IsLoaded, load_one-IsLoaded}
use mahina_os.Init.Depgraph.Build.{Tables, built, refused, build}
use mahina_os.Init.Depgraph.Build.Correct.{IsBuilt, build_decides}
use mahina_os.Init.Depgraph.Build.Spec.{HasUnknown, IsStartOrder}
use mahina_os.Prelude.{
  ℕ, zero, suc, ◌≤◌, ◌<◌, ◌≡◌, refl, subst, List, [], ◌∷◌, ◌++◌, Option, none, some, arith, leb,
  length, get_elem?, CString, length-append, Bool-cases, inl, inr, ◌⊎◌,
}

-- Every service of the table was read from a file, and the table fits its array.
abbrev pub AllLoaded : List Service → Type 0
AllLoaded [] = Unit {0}
AllLoaded (s ∷ l) = IsLoaded s × AllLoaded l

AllLoaded-append :
    (l : List Service) (s : Service) → AllLoaded l → IsLoaded s → AllLoaded (l ++ s ∷ [])
AllLoaded-append [] s h k = (k, tt)
AllLoaded-append (t ∷ l) s h k = (h.0, AllLoaded-append l s h.1 k)

abbrev Good : List Service → Type 0
Good table = AllLoaded table × (length table ≤ 32)

add_loaded-Good :
    (table : List Service) (o : Option Service)
    → AllLoaded table
    → length table < 32
    → ((s : Service) → o ≡ some s → IsLoaded s)
    → Good (add_loaded table o)
unfolding add_loaded
add_loaded-Good table none h room k = (h, omega arith)
add_loaded-Good table (some s) h room k = elim (Bool-cases (is_named s.name table)) [
  | inl e ↦ rw e (h, omega arith)
  | inr e ↦
      rw e (AllLoaded-append table s h (k s refl), omega (arith, length-append table (s ∷ [])))
]

scan-Good :
    (dir : List (CString × File)) (table : List Service) → Good table → Good (scan table dir)
unfolding scan
scan-Good [] table g = g
scan-Good ((name, file) ∷ dir) table g =
    let other = scan-Good dir table g in
    let next = λ (room : length table < 32).
      scan-Good dir (add_loaded table (load_one file))
        (add_loaded-Good table (load_one file) g.0 room (load_one-IsLoaded file)) in
    elim (Bool-cases (is_toml name)) [
      | inr e ↦ rw e other
      | inl e ↦ rw e (elim (Bool-cases (leb 32 (length table))) [
        | inl f ↦ rw f g
        | inr f ↦ rw f (next (ground arith))
      ])
    ]

AllLoaded-get :
    (l : List Service) (i : ℕ) (s : Service) → AllLoaded l → get_elem? l i ≡ some s → IsLoaded s
AllLoaded-get [] i s h e = absurd (ground arith)
AllLoaded-get (t ∷ l) zero s h e = subst IsLoaded (ground arith) h.0
AllLoaded-get (t ∷ l) (suc i) s h e = AllLoaded-get l i s h.1 e

-- After service_load_all of a directory whose services list at most 8 names each way,
-- depgraph_build returns 0 and leaves the graph of the lists, and there is a start order of the
-- table; or it returns -1, and a listed name is that of no service or there is no start order.
pub load_all-build :
    (old : List Service) (dir : List (CString × File))
    → ((i : ℕ) (s : Service)
        → get_elem? (load_all old (some dir)).0 i ≡ some s
        → (s.after_count ≤ 8) × (s.before_count ≤ 8))
    → (let table = (load_all old (some dir)).0 in
        ((t : Tables) × (build table ≡ built t)
          × IsBuilt table t
          × (l : List ℕ) × IsStartOrder table l)
        ⊎ ((t : Tables) × (build table ≡ refused t)
            × (HasUnknown table ⊎ ((l : List ℕ) → ¬ IsStartOrder table l))))
load_all-build old dir few =
    let g : Good (load_all old (some dir)).0 =
      unfold load_all in scan-Good dir [] (tt, omega arith) in
    build_decides (load_all old (some dir)).0 (omega (arith, g.1)) (λ i s e.
      let l = AllLoaded-get (load_all old (some dir)).0 i s g.0 e in
      (
        omega (arith, l.after_counted.0 (few i s e).0),
        omega (arith, l.before_counted.0 (few i s e).1),
      ))
