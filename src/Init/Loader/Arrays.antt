-- ===== src/Init/Loader/Arrays.antt =====
-- What the fields of a service that service_load_one of src/luna-init/service.c reads are bounded by.
use mahina_os.Init.Service.{Service, pending}
use mahina_os.Init.Toml.{
  Parsed, ok, err, fault, Value, string, integer, boolean, array, Entry, ArrayTable, Doc,
}
use mahina_os.Init.Toml.Bounded.{IsValid, ValidEntries, load_file-IsValid}
use mahina_os.Init.Toml.Load.{File, load_file}
use mahina_os.Init.Toml.Lookup.{
  get_loop, get, get_nested, enumerate_loop, enumerate_section, is_plain, in_section, has_key,
}
use mahina_os.Init.Toml.Safe.{Ensures}
use mahina_os.Init.Toml.Valid.{Fits}
use mahina_os.Init.Loader.{
  to_int, copied, string_of, items_of, int_or, items_copied, count_of, env_cb, service_of,
  with_required, load_doc, load_one,
}
use mahina_os.Prelude.{
  ℕ, zero, suc, ◌+◌, ◌^◌, ◌≤◌, ◌<◌, ◌≡◌, refl, ap, subst, ◌&&◌, List, [], ◌∷◌, ◌++◌, Option, none,
  some, arith, ltb, length, take, map, CString, codes, ℤ, pos, negsuc, pos_part, neg_part,
  length-append, Bool-cases, inl, inr,
}

length-take : {A : Type 0} (n : ℕ) (l : List A) → length (take n l) ≤ n
length-take zero l = omega arith
length-take (suc n) [] = omega arith
length-take (suc n) (x ∷ l) = omega (arith, length-take n l)

length-take_all : {A : Type 0} (n : ℕ) (l : List A) → length l ≤ n → length (take n l) ≡ length l
length-take_all zero [] h = refl
length-take_all zero (x ∷ l) h = absurd (omega arith)
length-take_all (suc n) [] h = refl
length-take_all (suc n) (x ∷ l) h = ap suc (length-take_all n l (omega arith))

length-map : {A B : Type 0} (f : A → B) (l : List A) → length (map f l) ≡ length l
length-map f [] = refl
length-map f (x ∷ l) = ap suc (length-map f l)

-- A value that a lookup finds fits.
get_loop-Fits :
    (tables : List ArrayTable) (es : List Entry) (s k : CString)
    → ValidEntries tables es
    → Ensures Fits (get_loop es s k)
unfolding get_loop
get_loop-Fits tables [] s k v = tt
get_loop-Fits tables (e ∷ es) s k v =
    let ih = get_loop-Fits tables es s k v.1 in
    elim (Bool-cases (is_plain e && in_section s e && has_key k e)) [
      | inl f ↦ rw f v.0.value_fits
      | inr f ↦ rw f ih
    ]

get-Fits : (doc : Doc) (s k : CString) → IsValid doc → Ensures Fits (get doc s k)
get-Fits doc s k v = unfold get in get_loop-Fits doc.array_tables doc.entries s k v.entries_valid

get_nested-Fits : (doc : Doc) (p c k : CString) → IsValid doc → Ensures Fits (get_nested doc p c k)
get_nested-Fits doc p c k v =
    let g = get-Fits doc (p ++ b'.' ∷ c) k v in
    elim (Bool-cases (ltb (length (p ++ b'.' ∷ c)) 64)) [
      | inl f ↦ unfold get_nested in rw f g
      | inr f ↦ unfold get_nested in rw f tt
    ]

-- An array that was found has at most 16 items, and an int is one.
count-le : (r : Parsed Value) → Ensures Fits r → count_of (items_of r) ≤ 16
count-le (ok (string s)) h = omega arith
count-le (ok (integer n)) h = omega arith
count-le (ok (boolean b)) h = omega arith
count-le (ok (array l)) h = h.0
count-le (err e) h = omega arith
count-le fault h = omega arith

abbrev IsInt : ℤ → Type 0
IsInt n = (pos_part n < 2 ^ 31) × (neg_part n ≤ 2 ^ 31)

to_int-IsInt : (n : ℤ) → IsInt (to_int n)
unfolding to_int
to_int-IsInt (pos n) = ground arith
to_int-IsInt (negsuc n) = ground arith

int_or-IsInt : (d : ℤ) (o : Option ℤ) → IsInt d → IsInt (int_or d o)
int_or-IsInt d none h = h
int_or-IsInt d (some n) h = to_int-IsInt n

-- The entries written of an array field: as many as counted, or as there are slots.
items_copied-count :
    (slots size : ℕ) (o : Option (List CString))
    → count_of o ≤ slots
    → length (items_copied slots size o) ≡ count_of o
items_copied-count slots size none h = refl
items_copied-count slots size (some l) h = rw length-map (length-take_all slots l h)

items_copied-le :
    (slots size : ℕ) (o : Option (List CString)) → length (items_copied slots size o) ≤ slots
items_copied-le slots size none = omega arith
items_copied-le slots size (some l) = rw length-map (length-take slots l)

env_cb-le :
    (key : CString) (v : Value) (env : List (CString × CString))
    → length env ≤ 8
    → length (env_cb key v env) ≤ 8
unfolding env_cb
env_cb-le key (string s) env h =
    ground (arith, length-append env ((copied 256 key, copied 256 s) ∷ []))
env_cb-le key (integer n) env h = h
env_cb-le key (boolean b) env h = h
env_cb-le key (array l) env h = h

enumerate_loop-le :
    (section : CString) (es : List Entry) (n : ℕ) (env : List (CString × CString))
    → length env ≤ 8
    → length (enumerate_loop env_cb section es n env).0 ≤ 8
unfolding enumerate_loop
enumerate_loop-le section [] n env h = h
enumerate_loop-le section (e ∷ es) n env h =
    let a =
      enumerate_loop-le section es (n + 1) (env_cb e.key e.value env)
        (env_cb-le e.key e.value env h) in
    let b = enumerate_loop-le section es n env h in
    elim (Bool-cases (is_plain e && in_section section e)) [ inl f ↦ rw f a | inr f ↦ rw f b ]

-- What service_load_one promises of a service. The names of `after` and `before` are counted up to 16
-- and kept up to 8.
pub record IsLoaded (s : Service) : Type 0 where
  pub name_short : length s.name < 64
  pub args_counted : (length s.args ≡ s.arg_count) × (s.arg_count ≤ 16)
  pub few_env : length s.env ≤ 8
  pub after_counted :
      (s.after_count ≤ 8 → length s.after ≡ s.after_count)
      × (s.after_count ≤ 16)
      × (length s.after ≤ 8)
  pub before_counted :
      (s.before_count ≤ 8 → length s.before ≡ s.before_count)
      × (s.before_count ≤ 16)
      × (length s.before ≤ 8)
  pub ints :
      IsInt s.restart_attempts
      × IsInt s.restart_delay_ms
      × IsInt s.ready_timeout_ms
      × IsInt s.stop_timeout_ms
  pub fresh : (s.state ≡ pending) × (s.pid ≡ 0) × (s.restart_count ≡ 0) × (s.dep_indices ≡ [])

service_of-IsLoaded :
    (doc : Doc) (name binary : CString) → IsValid doc → IsLoaded (service_of doc name binary)
unfolding service_of
service_of-IsLoaded doc name binary v =
    let args = get doc (codes "service") (codes "args") in
    let after = get_nested doc (codes "service") (codes "depends") (codes "after") in
    let before = get_nested doc (codes "service") (codes "depends") (codes "before") in
    let a = count-le args (get-Fits doc (codes "service") (codes "args") v) in
    let f =
      count-le after (get_nested-Fits doc (codes "service") (codes "depends") (codes "after") v) in
    let b =
      count-le before
        (get_nested-Fits doc (codes "service") (codes "depends") (codes "before") v) in
    let default =
      λ (n : ℕ). λ (h : n < 2 ^ 31). λ (o : Option ℤ). int_or-IsInt (pos n) o (h, omega arith) in
    record {
      name_short = omega (arith, length-take 63 name);
      args_counted = (items_copied-count 16 256 (items_of args) a, a);
      few_env =
          unfold enumerate_section in
          enumerate_loop-le (codes "service.env") doc.entries 0 [] (omega arith);
      after_counted =
          (items_copied-count 8 64 (items_of after), f, items_copied-le 8 64 (items_of after));
      before_counted =
          (items_copied-count 8 64 (items_of before), b, items_copied-le 8 64 (items_of before));
      ints = (
        default 3 (omega arith) _,
        default 1000 (omega arith) _,
        default 5000 (omega arith) _,
        default 3000 (omega arith) _,
      );
      fresh = (refl, refl, refl, refl);
    }

abbrev Loads : Option Service → Type 0
Loads none = Unit {0}
Loads (some s) = IsLoaded s

with_required-Loads :
    (doc : Doc) (a b : Option CString) → IsValid doc → Loads (with_required doc a b)
with_required-Loads doc (some n) (some b) v = service_of-IsLoaded doc n b v
with_required-Loads doc (some n) none v = tt
with_required-Loads doc none b v = tt

load_doc-Loads : (r : Parsed Doc) → Ensures IsValid r → Loads (load_doc r)
load_doc-Loads (ok doc) v =
    with_required-Loads doc (string_of (get doc (codes "service") (codes "name")))
      (string_of (get doc (codes "service") (codes "binary"))) v
load_doc-Loads (err e) v = tt
load_doc-Loads fault v = tt

-- A service that service_load_one reads, whatever the file holds: its name has fewer than 64 bytes;
-- `args` has the arg_count entries counted, at most 16; there are at most 8 environment variables;
-- the names of `after` and of `before` are counted up to 16 and kept up to 8, so that those counted
-- are there if they are at most 8; the numbers are ints; and it is pending, with no process, no
-- restart and no dependency index.
pub load_one-IsLoaded : (file : File) (s : Service) → load_one file ≡ some s → IsLoaded s
load_one-IsLoaded file s e =
    subst Loads e (unfold load_one in load_doc-Loads (load_file file) (load_file-IsValid file))
