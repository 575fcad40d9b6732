-- ===== src/Init/Supervisor/Privileges.antt =====
-- The privileges of the child of spawn_service of src/luna-init/supervisor.c when it executes the binary.
use mahina_os.Prelude.{
  ◌≢◌, sym, subst, ℕ, ◌≡◌, ap, refl, Bool, true, false, List, [], ◌∷◌, ◌++◌, if◌then◌else◌, CString,
  arith,
}
use mahina_os.Init.Service.{Service}
use mahina_os.Init.Supervisor.Child.{
  no_id, is_empty, parse_id, Act, ChildEnv, unless_empty, group_as, drop_group, user_as, drop_user,
  argv, envp, enter_and_exec, then_act, child, set_gid, drop_groups, set_uid, change_dir, exec,
}

-- The acts by which a service is given up to the group and the user that it names.
abbrev pub group_acts : ChildEnv → Service → List Act
group_acts env svc =
    if is_empty svc.run_group
    then []
    else set_gid (parse_id env.groups svc.run_group) ∷ drop_groups ∷ []

abbrev pub user_acts : ChildEnv → Service → List Act
user_acts env svc =
    if is_empty svc.run_user then [] else set_uid (parse_id env.passwd svc.run_user) ∷ []

group_as_through :
    (env : ChildEnv) (gid : ℕ)
    → (group_as env gid).1 ≡ true
    → group_as env gid ≡ (set_gid gid ∷ drop_groups ∷ [], true)
group_as_through env gid h = ground arith

user_as_through :
    (env : ChildEnv) (uid : ℕ)
    → (user_as env uid).1 ≡ true
    → user_as env uid ≡ (set_uid uid ∷ [], true)
user_as_through env uid h = ground arith

unless_empty_through :
    (name : CString) (part : List Act × Bool) (acts : List Act)
    → (part.1 ≡ true → part ≡ (acts, true))
    → (unless_empty name part).1 ≡ true
    → unless_empty name part ≡ ((if is_empty name then [] else acts), true)
unless_empty_through [] part acts through h = refl
unless_empty_through (c ∷ name) part acts through h = through h

drop_group_through :
    (env : ChildEnv) (svc : Service)
    → (drop_group env svc).1 ≡ true
    → drop_group env svc ≡ (group_acts env svc, true)
unfolding drop_group
drop_group_through env svc =
    unless_empty_through svc.run_group (group_as env (parse_id env.groups svc.run_group))
      (set_gid (parse_id env.groups svc.run_group) ∷ drop_groups ∷ [])
      (group_as_through env (parse_id env.groups svc.run_group))

drop_user_through :
    (env : ChildEnv) (svc : Service)
    → (drop_user env svc).1 ≡ true
    → drop_user env svc ≡ (user_acts env svc, true)
unfolding drop_user
drop_user_through env svc =
    unless_empty_through svc.run_user (user_as env (parse_id env.passwd svc.run_user))
      (set_uid (parse_id env.passwd svc.run_user) ∷ [])
      (user_as_through env (parse_id env.passwd svc.run_user))

then_act-true : (a b : List Act × Bool) → (then_act a b).1 ≡ true → (a.1 ≡ true) × (b.1 ≡ true)
then_act-true (xs, true) (ys, b) h = (refl, h)
then_act-true (xs, false) (ys, b) h = absurd cc

-- What each act needs to have succeeded: the ids are found, and the kernel answers with success.
abbrev pub Granted : ChildEnv → Act → Type 0
Granted env (set_gid gid) = (gid ≢ no_id) × (env.gid_set ≡ true)
Granted env drop_groups = env.groups_dropped ≡ true
Granted env (set_uid uid) = (uid ≢ no_id) × (env.uid_set ≡ true)
Granted env act = Unit {0}

abbrev pub AllGranted : ChildEnv → List Act → Type 0
AllGranted env [] = Unit {0}
AllGranted env (act ∷ acts) = Granted env act × AllGranted env acts

AllGranted-append :
    (env : ChildEnv) (xs ys : List Act)
    → AllGranted env xs
    → AllGranted env ys
    → AllGranted env (xs ++ ys)
AllGranted-append env [] ys g h = h
AllGranted-append env (x ∷ xs) ys g h = (g.0, AllGranted-append env xs ys g.1 h)

group_as_granted :
    (env : ChildEnv) (gid : ℕ)
    → (group_as env gid).1 ≡ true
    → AllGranted env (set_gid gid ∷ drop_groups ∷ [])
group_as_granted env gid h = ((ground arith, ground arith), (ground arith, tt))

user_as_granted :
    (env : ChildEnv) (uid : ℕ) → (user_as env uid).1 ≡ true → AllGranted env (set_uid uid ∷ [])
user_as_granted env uid h = ((ground arith, ground arith), tt)

unless_empty_granted :
    (env : ChildEnv) (name : CString) (part : List Act × Bool) (acts : List Act)
    → (part.1 ≡ true → AllGranted env acts)
    → (unless_empty name part).1 ≡ true
    → AllGranted env (if is_empty name then [] else acts)
unless_empty_granted env [] part acts granted h = tt
unless_empty_granted env (c ∷ name) part acts granted h = granted h

drop_group_granted :
    (env : ChildEnv) (svc : Service)
    → (drop_group env svc).1 ≡ true
    → AllGranted env (group_acts env svc)
unfolding drop_group
drop_group_granted env svc =
    let gid = parse_id env.groups svc.run_group in
    unless_empty_granted env svc.run_group (group_as env gid) (set_gid gid ∷ drop_groups ∷ [])
      (group_as_granted env gid)

drop_user_granted :
    (env : ChildEnv) (svc : Service)
    → (drop_user env svc).1 ≡ true
    → AllGranted env (user_acts env svc)
unfolding drop_user
drop_user_granted env svc =
    let uid = parse_id env.passwd svc.run_user in
    unless_empty_granted env svc.run_user (user_as env uid) (set_uid uid ∷ [])
      (user_as_granted env uid)

enter_granted : (env : ChildEnv) (svc : Service) → AllGranted env (enter_and_exec svc)
enter_granted env svc = go (is_empty svc.workdir)
  where
    last : List Act
    last = exec svc.binary (argv svc) (envp svc) ∷ []

    go : (b : Bool) → AllGranted env (if b then last else change_dir svc.workdir ∷ last)
    go true = (tt, tt)
    go false = (tt, (tt, tt))

-- A child of spawn_service that reaches execve has first set the group that its service names and
-- dropped the other groups, and then set the user that its service names, in this order and each
-- one exactly if it is named; only then it enters its directory and executes the binary. The named
-- group and user were found, and setgid, setgroups and setuid have each succeeded where they were
-- called.
pub child_drops_privileges :
    (env : ChildEnv) (svc : Service)
    → (child env svc).1 ≡ true
    → ((child env svc).0 ≡ group_acts env svc ++ (user_acts env svc ++ enter_and_exec svc))
      × AllGranted env (child env svc).0
unfolding child
child_drops_privileges env svc h =
    let group = drop_group env svc in
    let user = drop_user env svc in
    let (a, rest) = then_act-true group (then_act user (enter_and_exec svc, true)) h in
    let (b, last) = then_act-true user (enter_and_exec svc, true) rest in
    let acts : (child env svc).0 ≡ group_acts env svc ++ (user_acts env svc ++ enter_and_exec svc) =
      ap (λ (r : List Act × Bool). r.0)
        (joined group user (enter_and_exec svc) (group_acts env svc) (user_acts env svc)
          (drop_group_through env svc a) (drop_user_through env svc b)) in
    let granted =
      AllGranted-append env (group_acts env svc) (user_acts env svc ++ enter_and_exec svc)
        (drop_group_granted env svc a)
        (AllGranted-append env (user_acts env svc) (enter_and_exec svc)
          (drop_user_granted env svc b) (enter_granted env svc)) in
    (acts, subst (AllGranted env) (sym acts) granted)
  where
    joined :
        (g u : List Act × Bool) (e xs ys : List Act)
        → g ≡ (xs, true)
        → u ≡ (ys, true)
        → then_act g (then_act u (e, true)) ≡ (xs ++ (ys ++ e), true)
    joined g u e xs ys p q = rw (p, q) refl
