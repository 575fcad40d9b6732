-- ===== src/Init/Loader/Table.antt =====
-- The table that service_load_all of src/luna-init/service.c leaves.
use mathlib.Core.List.{append-nil, append_assoc}
use mahina_os.Init.Service.{Service, max_count}
use mahina_os.Init.Toml.Load.{File}
use mahina_os.Init.Loader.{load_one, is_toml, is_named, add_loaded, scan, load_all}
use mahina_os.Prelude.{
  ℕ, zero, suc, ◌-◌, ◌<◌, ◌≡◌, refl, ap, sym, subst, ◌∙◌, true, false, ◌||◌, List, [], ◌∷◌, ◌++◌,
  Option, none, some, arith, leb, leb→le, if◌then◌else◌, length, take, CString, str_eq,
  eq_of_str_eq, length-append, Bool-cases, Option-cases, inl, inr,
}

-- The services of the files that end in ".toml" and can be read, in the order of the directory.
abbrev pub onto_loaded : Option Service → List Service → List Service
onto_loaded none l = l
onto_loaded (some s) l = s ∷ l

abbrev pub loadable : List (CString × File) → List Service
loadable [] = []
loadable ((name, file) ∷ dir) =
    if is_toml name then onto_loaded (load_one file) (loadable dir) else loadable dir

-- Those of another name, and the first of each name.
abbrev pub without : CString → List Service → List Service
without name [] = []
without name (s ∷ l) = if str_eq name s.name then without name l else s ∷ without name l

abbrev pub firsts : List Service → List Service
firsts [] = []
firsts (s ∷ l) = s ∷ without s.name (firsts l)

-- Those that no service of the table has the name of.
abbrev unnamed : List Service → List Service → List Service
unnamed table [] = []
unnamed table (s ∷ l) = if is_named s.name table then unnamed table l else s ∷ unnamed table l

is_named-append :
    (name : CString) (table : List Service) (s : Service)
    → is_named name (table ++ s ∷ []) ≡ (is_named name table || str_eq s.name name)
unfolding is_named
is_named-append name [] s = ground arith
is_named-append name (t ∷ table) s = ground (arith, is_named-append name table s)

unnamed-append :
    (table : List Service) (s : Service) (l : List Service)
    → unnamed (table ++ s ∷ []) l ≡ unnamed table (without s.name l)
unnamed-append table s [] = refl
unnamed-append table s (t ∷ l) =
    ground (arith, is_named-append t.name table s, unnamed-append table s l)

unnamed-without :
    (table : List Service) (name : CString) (l : List Service)
    → is_named name table ≡ true
    → unnamed table (without name l) ≡ unnamed table l
unnamed-without table name [] h = refl
unnamed-without table name (t ∷ l) h = elim (Bool-cases (str_eq name t.name)) [
  | inr e ↦ ground (arith, unnamed-without table name l h)
  | inl e ↦
      let same : is_named t.name table ≡ true =
        subst (λ n. is_named n table ≡ true) (eq_of_str_eq name t.name e) h in
      ground (arith, unnamed-without table name l h)
]

unnamed-nil : (l : List Service) → unnamed [] l ≡ l
unfolding is_named
unnamed-nil [] = refl
unnamed-nil (s ∷ l) = ap (◌∷◌ s) (unnamed-nil l)

abbrev rest_of : List Service → List (CString × File) → List Service
rest_of table dir = take (32 - length table) (unnamed table (firsts (loadable dir)))

-- The result of the loop from a table on.
abbrev Scans : List Service → List (CString × File) → Type 0
Scans table dir = scan table dir ≡ table ++ rest_of table dir

scan-loaded :
    (table : List Service) (s : Service) (l : List Service) (dir : List (CString × File))
    → length table < 32
    → is_named s.name table ≡ false
    → firsts (loadable dir) ≡ l
    → (table ++ s ∷ []) ++ rest_of (table ++ s ∷ []) dir
      ≡ table ++ take (32 - length table) (s ∷ unnamed table (without s.name l))
scan-loaded table s l dir room new e =
    let n : 32 - length table ≡ suc (32 - length (table ++ s ∷ [])) =
      omega (arith, length-append table (s ∷ [])) in
    rw (n, ← e)
      (append_assoc table (s ∷ []) (rest_of (table ++ s ∷ []) dir)
        ∙ ap (λ r. table ++ s ∷ take (32 - length (table ++ s ∷ [])) r)
            (unnamed-append table s (firsts (loadable dir))))

module _ (table : List Service) (name : CString) (file : File) (dir : List (CString × File)) where
  scan-other : is_toml name ≡ false → scan table ((name, file) ∷ dir) ≡ scan table dir
  unfolding scan
  scan-other h = rw h refl

  scan-full :
      is_toml name ≡ true → leb 32 (length table) ≡ true → scan table ((name, file) ∷ dir) ≡ table
  unfolding scan
  scan-full h full = rw (h, full) refl

  scan-room :
      is_toml name ≡ true
      → leb 32 (length table) ≡ false
      → scan table ((name, file) ∷ dir) ≡ scan (add_loaded table (load_one file)) dir
  unfolding scan
  scan-room h room = rw (h, room) refl

add_loaded-none : (table : List Service) → add_loaded table none ≡ table
unfolding add_loaded
add_loaded-none table = refl

add_loaded-new :
    (table : List Service) (s : Service)
    → is_named s.name table ≡ false
    → add_loaded table (some s) ≡ table ++ s ∷ []
unfolding add_loaded
add_loaded-new table s h = rw h refl

add_loaded-dup :
    (table : List Service) (s : Service)
    → is_named s.name table ≡ true
    → add_loaded table (some s) ≡ table
unfolding add_loaded
add_loaded-dup table s h = rw h refl

take_none : (n : ℕ) (l : List Service) → n ≡ 0 → take n l ≡ []
take_none zero l h = refl
take_none (suc n) l h = absurd (omega arith)

take_nil : (n : ℕ) → take {A = Service} n [] ≡ []
take_nil zero = refl
take_nil (suc n) = refl

scan-nil : (table : List Service) → scan table [] ≡ table
unfolding scan
scan-nil table = refl

-- The loop over the rest of the directory, from every table.
scan-Scans : (dir : List (CString × File)) (table : List Service) → Scans table dir
scan-Scans [] table =
    scan-nil table ∙ sym (ap (λ l. table ++ l) (take_nil (32 - length table)) ∙ append-nil table)
scan-Scans ((name, file) ∷ dir) table = elim (Bool-cases (is_toml name)) [
  | inr other ↦ rw other (scan-other table name file dir other ∙ scan-Scans dir table)
  | inl toml ↦ rw toml (elim (Bool-cases (leb 32 (length table))) [
    | inl full ↦
        scan-full table name file dir toml full
        ∙ sym (
            ap (λ l. table ++ l)
              (take_none (32 - length table) _ (omega (arith, leb→le 32 (length table) full)))
            ∙ append-nil table)
    | inr room ↦ scan-room table name file dir toml room ∙ elim (Option-cases (load_one file)) [
      | inl refused ↦ rw (refused, add_loaded-none table) (scan-Scans dir table)
      | inr (s, read) ↦ rw read (elim (Bool-cases (is_named s.name table)) [
        | inl dup ↦
            rw
              (
                dup,
                add_loaded-dup table s dup,
                unnamed-without table s.name (firsts (loadable dir)) dup,
              )
              (scan-Scans dir table)
        | inr new ↦
            rw (new, add_loaded-new table s new)
              (scan-Scans dir (table ++ s ∷ [])
                ∙ scan-loaded table s (firsts (loadable dir)) dir (ground arith) new refl)
      ])
    ]
  ])
]

-- What a directory holds for the table.
abbrev pub answer : List Service → Option (List (CString × File)) → List Service × Option ℕ
answer old none = (old, none)
answer old (some dir) =
    let table = take max_count (firsts (loadable dir)) in (table, some (length table))

-- service_load_all leaves the services of the readable files that end in ".toml", in the order of
-- the directory, each name once and for its first file, and of these the first 32; and it returns
-- their number. A file that is not valid and a second file for a name are skipped. A directory that
-- does not open leaves the old table and the result -1.
pub load_all-firsts :
    (old : List Service) (dir : Option (List (CString × File))) → load_all old dir ≡ answer old dir
load_all-firsts old none = unfold load_all in refl
load_all-firsts old (some d) =
    let e : scan [] d ≡ take 32 (firsts (loadable d)) =
      rw (← unnamed-nil (firsts (loadable d))) (scan-Scans d []) in
    unfold load_all in ap (λ t. (t, some (length t))) e
