-- ===== src/Init/Toml/Tables.antt =====
-- toml_get_or_create_array_table of src/luna-init/toml.c and the counts of the array tables.
use mahina_os.Init.Toml.{ArrayTable, max_section_len, max_array_tables}
use mahina_os.Init.Toml.Text.{strn_eq, copy_bounded}
use mahina_os.Init.Toml.Line.{find_table, get_or_create, bump_count}
use mahina_os.Init.Toml.Lookup.{count_loop}
use mahina_os.Init.Toml.Safe.{Ensures}
use mahina_os.Prelude.{
  ℕ, zero, suc, ◌+◌, ◌≤◌, ◌<◌, ◌≡◌, refl, ap, subst, sym, true, ◌++◌, List, [], ◌∷◌, none, some,
  arith, ltb, length, take, CString, str_eq_refl, inl, inr, Bool-cases, length-append, Option-cases,
  ltb→lt,
}

-- Every name is shorter than its buffer.
abbrev pub ShortNames : List ArrayTable → Type 0
ShortNames [] = Unit {0}
ShortNames (t ∷ ts) = (length t.name < max_section_len) × ShortNames ts

ShortNames-append :
    (ts : List ArrayTable) (t : ArrayTable)
    → ShortNames ts
    → length t.name < max_section_len
    → ShortNames (ts ++ t ∷ [])
ShortNames-append [] t h l = (l, tt)
ShortNames-append (u ∷ ts) t h l = (h.0, ShortNames-append ts t h.1 l)

pub strn_eq_refl : (a : CString) (n : ℕ) → strn_eq a a n ≡ true
unfolding strn_eq
strn_eq_refl a n = str_eq_refl (take n a)

-- A count that is raised raises the counts of all names by at most one, and lowers none.
pub bump_count-ge :
    (i : ℕ) (ts : List ArrayTable) (s : CString)
    → count_loop ts s ≤ count_loop (bump_count i ts).1 s
unfolding count_loop bump_count
bump_count-ge i [] s = omega arith
bump_count-ge zero (t ∷ ts) s = ground arith
bump_count-ge (suc i) (t ∷ ts) s = ground (arith, bump_count-ge i ts s)

length-bump_count : (i : ℕ) (ts : List ArrayTable) → length (bump_count i ts).1 ≡ length ts
unfolding bump_count
length-bump_count i [] = refl
length-bump_count zero (t ∷ ts) = refl
length-bump_count (suc i) (t ∷ ts) = ap suc (length-bump_count i ts)

bump_count-ShortNames :
    (i : ℕ) (ts : List ArrayTable) → ShortNames ts → ShortNames (bump_count i ts).1
unfolding bump_count
bump_count-ShortNames i [] h = tt
bump_count-ShortNames zero (t ∷ ts) h = h
bump_count-ShortNames (suc i) (t ∷ ts) h = (h.0, bump_count-ShortNames i ts h.1)

count_loop-append :
    (ts : List ArrayTable) (t : ArrayTable) (s : CString)
    → count_loop ts s ≤ count_loop (ts ++ t ∷ []) s
unfolding count_loop
count_loop-append [] t s = omega arith
count_loop-append (u ∷ ts) t s = ground (arith, count_loop-append ts t s)

find_table-ge :
    (k i : ℕ) (name : CString) (ts : List ArrayTable) → find_table k name ts ≡ some i → k ≤ i
unfolding find_table
find_table-ge k i name [] h = ground arith
find_table-ge k i name (t ∷ ts) h = ground (arith, find_table-ge (suc k) i name ts)

-- At the index that toml_find_array_table_index returns stands the count of the name.
bump_count-found :
    (j k : ℕ) (name : CString) (ts : List ArrayTable)
    → find_table k name ts ≡ some (k + j)
    → (bump_count j ts).0 < count_loop (bump_count j ts).1 name
unfolding find_table bump_count count_loop
bump_count-found j k name [] h = ground arith
bump_count-found zero k name (t ∷ ts) h = ground (arith, find_table-ge (suc k) (k + 0) name ts)
bump_count-found (suc j) k name (t ∷ ts) h = ground (arith, bump_count-found j (suc k) name ts)

-- A name that is not found is appended behind the tables.
bump_count-new :
    (k : ℕ) (name : CString) (ts : List ArrayTable) (t : ArrayTable)
    → find_table k name ts ≡ none
    → strn_eq t.name name max_section_len ≡ true
    → (bump_count (length ts) (ts ++ t ∷ [])).0
      < count_loop (bump_count (length ts) (ts ++ t ∷ [])).1 name
unfolding find_table bump_count count_loop
bump_count-new k name [] t h e = ground arith
bump_count-new k name (u ∷ ts) t h e = ground (arith, bump_count-new (suc k) name ts t)

-- What the header of an array table named `name` makes of the tables: the entry that it begins has
-- the number `n`.
pub record Counted (name : CString) (old : List ArrayTable) (n : ℕ) (new : List ArrayTable)
    : Type 0 where
  pub below : n < count_loop new name
  pub grows : (s : CString) → count_loop old s ≤ count_loop new s
  pub few : length old ≤ max_array_tables → length new ≤ max_array_tables
  pub short : ShortNames old → ShortNames new

abbrev pub CountedAt : CString → List ArrayTable → ℕ × List ArrayTable → Type 0
CountedAt name old r = Counted name old (bump_count r.0 r.1).0 (bump_count r.0 r.1).1

abbrev new_table : CString → ArrayTable
new_table name = record { name = (copy_bounded max_section_len name).0; count = 0 }

new_table-short : (name : CString) → length name < max_section_len → (new_table name).name ≡ name
unfolding copy_bounded
new_table-short name h = ground arith

found-Counted :
    (name : CString) (ts : List ArrayTable) (i : ℕ)
    → find_table 0 name ts ≡ some i
    → CountedAt name ts (i, ts)
found-Counted name ts i h = record {
  below = bump_count-found i 0 name ts (subst (λ t. find_table 0 name ts ≡ some t) (omega arith) h);
  grows = bump_count-ge i ts;
  few = λ l. omega (arith, length-bump_count i ts);
  short = bump_count-ShortNames i ts;
}

new-Counted :
    (name : CString) (ts : List ArrayTable)
    → length name < max_section_len
    → find_table 0 name ts ≡ none
    → length ts < max_array_tables
    → CountedAt name ts (length ts, ts ++ new_table name ∷ [])
new-Counted name ts fits h room =
    let e = new_table-short name fits in
    record {
      below =
          bump_count-new 0 name ts (new_table name) h
            (subst (λ t. strn_eq t name 64 ≡ true) (sym e) (strn_eq_refl name 64));
      grows = λ s. omega (
        arith,
        count_loop-append ts (new_table name) s,
        bump_count-ge (length ts) (ts ++ new_table name ∷ []) s,
      );
      few = λ l. omega (
        arith,
        length-bump_count (length ts) (ts ++ new_table name ∷ []),
        length-append ts (new_table name ∷ []),
      );
      short = λ s.
          bump_count-ShortNames (length ts) (ts ++ new_table name ∷ [])
            (ShortNames-append ts (new_table name) s (subst (λ t. length t < 64) (sym e) fits));
    }

pub get_or_create-Counted :
    (name : CString) (ts : List ArrayTable)
    → length name < max_section_len
    → Ensures (CountedAt name ts) (get_or_create name ts)
unfolding get_or_create
get_or_create-Counted name ts fits = elim (Option-cases (find_table 0 name ts)) [
  | inr (i, e) ↦ rw e (found-Counted name ts i e)
  | inl e ↦ rw e (elim (Bool-cases (ltb (length ts) 32)) [
    | inl l ↦ rw l (new-Counted name ts fits e (ltb→lt _ _ l))
    | inr g ↦ rw g tt
  ])
]
