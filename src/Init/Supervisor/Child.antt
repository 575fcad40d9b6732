-- ===== src/Init/Supervisor/Child.antt =====
-- The child of spawn_service of src/luna-init/supervisor.c, between fork() and execve(), with parse_uid
-- and parse_gid.
use mahina_os.Prelude.{
  ℕ, ◌+◌, ◌-◌, ◌*◌, ◌%◌, ◌^◌, Bool, true, false, ◌&&◌, ◌||◌, not, Option, none, some, List, [], ◌∷◌,
  ◌++◌, ◌==◌, ltb, leb, if◌then◌else◌, take, CString, codes, map,
}
use mahina_os.Init.Service.{Service}

-- strtol(3) in base 10: the value modulo 2 ^ 32, which is what the casts to uid_t and gid_t keep, the
-- rest of the string, and whether a digit was read.
abbrev pub is_digit : ℕ → Bool
is_digit c = leb 48 c && leb c 57

abbrev pub is_space : ℕ → Bool
is_space c = c == 32 || (leb 9 c && leb c 13)

unfoldable pub digits : ℕ → Bool → CString → ℕ × CString × Bool
digits value seen [] = (value, [], seen)
digits value seen (c ∷ rest) =
    let more = digits (value * 10 + (c - 48)) true rest in
    if is_digit c then more else (value, c ∷ rest, seen)

abbrev pub capped : ℕ → ℕ → ℕ
capped limit value = if ltb limit value then limit else value

-- The results stop at LONG_MAX and LONG_MIN.
abbrev pub negated : ℕ × CString × Bool → ℕ × CString × Bool
negated (value, rest, seen) = (2 ^ 32 - capped (2 ^ 63) value % 2 ^ 32, rest, seen)

abbrev pub positive : ℕ × CString × Bool → ℕ × CString × Bool
positive (value, rest, seen) = (capped (2 ^ 63 - 1) value, rest, seen)

unfoldable pub signed : CString → ℕ × CString × Bool
unfolding digits
signed [] = (0, [], false)
signed (c ∷ rest) =
    if c == 45
    then negated (digits 0 false rest)
    else if c == 43
    then positive (digits 0 false rest)
    else positive (digits 0 false (c ∷ rest))

unfoldable pub strtol : CString → ℕ × CString × Bool
unfolding signed
strtol [] = (0, [], false)
strtol (c ∷ rest) = let skipped = strtol rest in if is_space c then skipped else signed (c ∷ rest)

abbrev pub to_id : ℕ × CString × Bool → ℕ
to_id (value, rest, seen) = value % 2 ^ 32

-- (uid_t)-1
abbrev pub no_id : ℕ
no_id = 2 ^ 32 - 1

-- strncmp(line, name, name_len) == 0 && line[name_len] == ':', with what follows the colon.
unfoldable pub entry_of : CString → CString → Option CString
entry_of [] [] = none
entry_of [] (c ∷ line) = if c == 58 then some line else none
entry_of (a ∷ name) [] = none
entry_of (a ∷ name) (c ∷ line) = let rest = entry_of name line in if a == c then rest else none

-- strchr(_, ':') + 1
unfoldable pub behind_colon : CString → Option CString
behind_colon [] = none
behind_colon (c ∷ rest) = let later = behind_colon rest in if c == 58 then some rest else later

abbrev pub field_of : Option CString → Option CString
field_of none = none
field_of (some line) = behind_colon line

-- The loop over the lines that fgets reads, none of them when the file cannot be opened.
unfoldable pub lookup_id : List CString → CString → ℕ
unfolding entry_of behind_colon strtol
lookup_id [] name = no_id
lookup_id (line ∷ rest) name =
    let later = lookup_id rest name in
    elim (field_of (entry_of name line)) [ none ↦ later | some field ↦ to_id (strtol field) ]

abbrev pub is_empty : CString → Bool
is_empty [] = true
is_empty (c ∷ rest) = false

abbrev pub whole_number : ℕ × CString × Bool → Bool
whole_number (value, rest, seen) = seen && is_empty rest

-- parse_uid over the lines of /etc/passwd, and parse_gid over those of /etc/group.
unfoldable pub parse_id : List CString → CString → ℕ
unfolding strtol lookup_id
parse_id lines name =
    if is_empty name
    then no_id
    else if whole_number (strtol name)
    then to_id (strtol name)
    else lookup_id lines name

-- What the child asks of the kernel.
pub data Act : Type 0 where
  set_gid : ℕ → Act
  drop_groups : Act
  set_uid : ℕ → Act
  change_dir : CString → Act
  exec : CString → List CString → List CString → Act

-- The two files, and the results of setgid, setgroups and setuid.
pub record ChildEnv : Type 0 where
  pub passwd : List CString
  pub groups : List CString
  pub gid_set : Bool
  pub groups_dropped : Bool
  pub uid_set : Bool

-- The acts of a part of the child, and whether it goes on. It ends in _exit(127) where it does not.
-- if (name[0] != '\0') { ... }
abbrev pub unless_empty : CString → List Act × Bool → List Act × Bool
unless_empty [] part = ([], true)
unless_empty (c ∷ name) part = part

abbrev pub group_as : ChildEnv → ℕ → List Act × Bool
group_as env gid =
    if gid == no_id
    then ([], false)
    else if not env.gid_set
    then (set_gid gid ∷ [], false)
    else (set_gid gid ∷ drop_groups ∷ [], env.groups_dropped)

unfoldable pub drop_group : ChildEnv → Service → List Act × Bool
unfolding parse_id
drop_group env svc = unless_empty svc.run_group (group_as env (parse_id env.groups svc.run_group))

abbrev pub user_as : ChildEnv → ℕ → List Act × Bool
user_as env uid = if uid == no_id then ([], false) else (set_uid uid ∷ [], env.uid_set)

unfoldable pub drop_user : ChildEnv → Service → List Act × Bool
unfolding parse_id
drop_user env svc = unless_empty svc.run_user (user_as env (parse_id env.passwd svc.run_user))

-- argv, and envp with entries of at most 511 bytes.
abbrev pub argv : Service → List CString
argv svc = svc.binary ∷ take svc.arg_count svc.args

abbrev pub env_string : CString × CString → CString
env_string (key, val) = take 511 (key ++ (61 ∷ val))

abbrev pub envp : Service → List CString
envp svc = codes "PATH=/usr/bin:/usr/sbin:/bin:/sbin" ∷ map env_string svc.env

abbrev pub enter_and_exec : Service → List Act
enter_and_exec svc =
    if is_empty svc.workdir
    then exec svc.binary (argv svc) (envp svc) ∷ []
    else change_dir svc.workdir ∷ exec svc.binary (argv svc) (envp svc) ∷ []

abbrev pub then_act : List Act × Bool → List Act × Bool → List Act × Bool
then_act (acts, false) next = (acts, false)
then_act (acts, true) (more, b) = (acts ++ more, b)

-- The child's branch of spawn_service: its acts, and whether it reaches execve.
unfoldable pub child : ChildEnv → Service → List Act × Bool
unfolding drop_group drop_user
child env svc =
    then_act (drop_group env svc) (then_act (drop_user env svc) (enter_and_exec svc, true))
