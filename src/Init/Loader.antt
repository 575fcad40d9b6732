-- ===== src/Init/Loader.antt =====
-- service_load_one and service_load_all of src/luna-init/service.c.
pub mod Table
pub mod Arrays
pub mod Start
pub mod Tests
use mahina_os.Init.Service.{
  Service, State, pending, on_failure, ready_none, max_count, max_deps, max_args, max_env_vars,
  parse_restart_policy, parse_ready_method, parse_signal_name,
}
use mahina_os.Init.Toml.{Parsed, ok, err, fault, Value, string, integer, boolean, array, Doc}
use mahina_os.Init.Toml.Load.{File, load_file}
use mahina_os.Init.Toml.Lookup.{get, get_nested, enumerate_section}
use mahina_os.Prelude.{
  ℕ, ◌+◌, ◌-◌, ◌%◌, ◌^◌, Bool, true, false, ◌||◌, not, List, [], ◌∷◌, ◌++◌, Option, none, some,
  ◌==◌, ltb, leb, if◌then◌else◌, length, take, drop, map, CString, str_eq, codes, ℤ, pos, negsuc,
}

-- (int) of an int64_t: the low 32 bits in two's complement.
unfoldable pub of_u32 : ℕ → ℤ
of_u32 u = if ltb u (2 ^ 31) then pos u else negsuc (2 ^ 32 - 1 - u)

unfoldable pub to_int : ℤ → ℤ
unfolding of_u32
to_int (pos n) = of_u32 (n % 2 ^ 32)
to_int (negsuc n) = of_u32 (2 ^ 32 - 1 - n % 2 ^ 32)

-- strncpy(dst, s, sizeof(dst) - 1) into a buffer of zeros.
abbrev pub copied : ℕ → CString → CString
copied dst_size s = take (dst_size - 1) s

-- What a lookup gives to a field of a type, and to an int or an array of names.
abbrev pub string_of : Parsed Value → Option CString
string_of (ok (string s)) = some s
string_of _ = none

abbrev pub integer_of : Parsed Value → Option ℤ
integer_of (ok (integer n)) = some n
integer_of _ = none

abbrev pub items_of : Parsed Value → Option (List CString)
items_of (ok (array l)) = some l
items_of _ = none

abbrev pub copied_or : ℕ → CString → Option CString → CString
copied_or dst_size default none = default
copied_or dst_size default (some s) = copied dst_size s

abbrev pub int_or : ℤ → Option ℤ → ℤ
int_or default none = default
int_or default (some n) = to_int n

-- The entries of an array field that are written, and its count.
abbrev pub items_copied : ℕ → ℕ → Option (List CString) → List CString
items_copied slots item_size none = []
items_copied slots item_size (some l) = map (copied item_size) (take slots l)

abbrev pub count_of : Option (List CString) → ℕ
count_of none = 0
count_of (some l) = length l

-- env_cb, over the variables that are there.
unfoldable pub env_cb : CString → Value → List (CString × CString) → List (CString × CString)
env_cb key (string s) env =
    if ltb (length env) max_env_vars then env ++ (copied 256 key, copied 256 s) ∷ [] else env
env_cb key (integer n) env = env
env_cb key (boolean b) env = env
env_cb key (array l) env = env

-- The fields of a document whose name and binary are there.
unfoldable pub service_of : Doc → CString → CString → Service
unfolding get get_nested enumerate_section env_cb
service_of doc name binary =
    let nested = λ (child key : CString). get_nested doc (codes "service") child key in
    let args = items_of (get doc (codes "service") (codes "args")) in
    let after = items_of (nested (codes "depends") (codes "after")) in
    let before = items_of (nested (codes "depends") (codes "before")) in
    record {
      name = copied 64 name;
      binary = copied 256 binary;
      description = copied_or 256 [] (string_of (get doc (codes "service") (codes "description")));
      args = items_copied max_args 256 args;
      arg_count = count_of args;
      workdir = copied_or 256 [] (string_of (get doc (codes "service") (codes "workdir")));
      env = (enumerate_section doc (codes "service.env") env_cb []).0;
      run_user = copied_or 64 [] (string_of (get doc (codes "service.identity") (codes "user")));
      run_group = copied_or 64 [] (string_of (get doc (codes "service.identity") (codes "group")));
      after = items_copied max_deps 64 after;
      after_count = count_of after;
      before = items_copied max_deps 64 before;
      before_count = count_of before;
      restart_policy = parse_restart_policy (
          copied_or 32 (codes "on-failure")
            (string_of (nested (codes "restart") (codes "policy"))));
      restart_attempts =
          int_or (pos 3) (integer_of (get doc (codes "service.restart") (codes "attempts")));
      restart_delay_ms =
          int_or (pos 1000) (integer_of (get doc (codes "service.restart") (codes "delay_ms")));
      ready_method =
          parse_ready_method
            (copied_or 32 (codes "none") (string_of (nested (codes "ready") (codes "method"))));
      ready_path = copied_or 256 [] (string_of (get doc (codes "service.ready") (codes "path")));
      ready_timeout_ms =
          int_or (pos 5000) (integer_of (get doc (codes "service.ready") (codes "timeout_ms")));
      stop_signal =
          parse_signal_name
            (copied_or 16 (codes "SIGTERM") (string_of (nested (codes "stop") (codes "signal"))));
      stop_timeout_ms =
          int_or (pos 3000) (integer_of (get doc (codes "service.stop") (codes "timeout_ms")));
      state = pending;
      pid = 0;
      restart_count = 0;
      start_time_ms = pos 0;
      stop_time_ms = pos 0;
      scheduled_start_ms = pos 0;
      dep_indices = [];
    }

-- The required fields: service_load_one returns -1 where one is missing.
abbrev pub with_required : Doc → Option CString → Option CString → Option Service
with_required doc (some name) (some binary) = some (service_of doc name binary)
with_required doc (some name) none = none
with_required doc none binary = none

abbrev pub load_doc : Parsed Doc → Option Service
load_doc (ok doc) =
    with_required doc (string_of (get doc (codes "service") (codes "name")))
      (string_of (get doc (codes "service") (codes "binary")))
load_doc (err e) = none
load_doc fault = none

-- service_load_one.
unfoldable pub load_one : File → Option Service
unfolding load_file service_of get
load_one file = load_doc (load_file file)

-- The test for a name that ends in ".toml" and is longer.
unfoldable pub is_toml : CString → Bool
is_toml name =
    if ltb (length name) 6 then false else str_eq (drop (length name - 5) name) (codes ".toml")

-- Whether a service of the table has the name.
unfoldable pub is_named : CString → List Service → Bool
is_named name [] = false
is_named name (s ∷ table) = if str_eq s.name name then true else is_named name table

-- The table after a file that was read.
unfoldable pub add_loaded : List Service → Option Service → List Service
unfolding is_named
add_loaded table none = table
add_loaded table (some s) = if is_named s.name table then table else table ++ s ∷ []

-- The loop over the names of the directory and the files behind them.
unfoldable pub scan : List Service → List (CString × File) → List Service
unfolding is_toml add_loaded load_one
scan table [] = table
scan table ((name, file) ∷ dir) =
    let later = scan table dir in
    let loaded = scan (add_loaded table (load_one file)) dir in
    if not (is_toml name) then later else if leb max_count (length table) then table else loaded

-- service_load_all: the table, and the count or `none` for -1. A directory that does not open leaves
-- the old table.
unfoldable pub load_all : List Service → Option (List (CString × File)) → List Service × Option ℕ
unfolding scan
load_all old none = (old, none)
load_all old (some dir) = let table = scan [] dir in (table, some (length table))
