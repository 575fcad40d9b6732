-- ===== src/Init/Supervisor/Stop.antt =====
-- supervisor_stop_one of src/luna-init/supervisor.c. The loop asks the clock and waitpid in turn:
-- `polls k` holds their answers in round `k`.
use mahina_os.Prelude.{
  ℕ, zero, suc, ◌+◌, ◌==◌, ◌≤◌, ◌<◌, ◌≡◌, ◌≢◌, refl, subst, ap, ◌∙◌, Bool, true, false, not, ◌&&◌,
  Option, none, some, List, [], ◌∷◌, if◌then◌else◌, get_elem?, set, inl, inr, Bool-cases,
  ℕ_discrete, arith, CString, ℤ, ◌-ℤ◌, ltb_ℤ,
}
use mahina_os.Init.Service.{stopped, Service, service_find}

-- waitpid(pid, _, WNOHANG): 0, the pid, -1 with EINTR, and -1 with another errno.
pub data Wait : Type 0 where
  alive reaped interrupted gone : Wait

abbrev pub is_over : Wait → Bool
is_over reaped = true
is_over gone = true
is_over _ = false

-- kill(pid, signal)
pub record Kill : Type 0 where
  pub pid : ℕ
  pub signal : ℕ

abbrev pub sigkill : ℕ
sigkill = 9

-- while (now_ms() - start < stop_timeout_ms): whether the process was seen to end in time, and `none`
-- when the fuel runs out.
unfoldable pub wait_loop : ℕ → ℤ → ℤ → (ℕ → ℤ × Wait) → ℕ → Option Bool
unfolding ◌-ℤ◌
wait_loop zero start timeout polls k = none
wait_loop (suc fuel) start timeout polls k =
    let rest = wait_loop fuel start timeout polls (suc k) in
    let (time, answer) = polls k in
    if not (ltb_ℤ (time -ℤ start) timeout)
    then some false
    else if is_over answer
    then some true
    else rest

abbrev pub halted : Service → Service
halted svc = record svc { state = stopped; pid = 0 }

-- What follows the loop, from its result.
abbrev pub finish_stop :
    List Service → ℕ → Service → Option Bool → Option (List Service × List Kill)
finish_stop services i svc none = none
finish_stop services i svc (some true) =
    some (set services i (halted svc), record { pid = svc.pid; signal = svc.stop_signal } ∷ [])
finish_stop services i svc (some false) = some (
  set services i (halted svc),
  record { pid = svc.pid; signal = svc.stop_signal }
      ∷ record { pid = svc.pid; signal = sigkill }
      ∷ [],
)

-- The rest of supervisor_stop_one: the table and the signals sent. It returns 0 in every case.
abbrev pub stop_at :
    ℕ → ℤ → (ℕ → ℤ × Wait) → List Service → ℕ → Service → Option (List Service × List Kill)
stop_at fuel start polls services i svc =
    if svc.pid == 0
    then some (services, [])
    else finish_stop services i svc (wait_loop fuel start svc.stop_timeout_ms polls 0)

abbrev pub stop_found :
    ℕ → ℤ → (ℕ → ℤ × Wait) → List Service → Option ℕ → Option (List Service × List Kill)
stop_found fuel start polls services none = some (services, [])
stop_found fuel start polls services (some i) = elim (get_elem? services i) [
  | none ↦ some (services, [])
  | some svc ↦ stop_at fuel start polls services i svc
]

-- supervisor_stop_one.
unfoldable pub stop_one :
    ℕ → ℤ → (ℕ → ℤ × Wait) → List Service → CString → Option (List Service × List Kill)
unfolding service_find wait_loop
stop_one fuel start polls services name =
    stop_found fuel start polls services (service_find services name)

-- Rounds `k` to `j` go on: the clock is within the timeout and the process has not ended.
abbrev pub GoesOn : ℤ → ℤ → (ℕ → ℤ × Wait) → ℕ → ℕ → Type 0
GoesOn start timeout polls k j =
    (l : ℕ)
    → k ≤ l
    → l < j
    → (ltb_ℤ ((polls l).0 -ℤ start) timeout ≡ true) × (is_over (polls l).1 ≡ false)

-- Whether round `j` is the first one that sees the process end, or the first one past the timeout.
abbrev pub EndsAt : ℤ → ℤ → (ℕ → ℤ × Wait) → ℕ → ℕ → Bool → Type 0
EndsAt start timeout polls k j in_time =
    (k ≤ j)
    × GoesOn start timeout polls k j
    × (ltb_ℤ ((polls j).0 -ℤ start) timeout ≡ in_time)
    × ((in_time && not (is_over (polls j).1)) ≡ false)

GoesOn-back :
    (start timeout : ℤ) (polls : ℕ → ℤ × Wait) (k j : ℕ)
    → ltb_ℤ ((polls k).0 -ℤ start) timeout ≡ true
    → is_over (polls k).1 ≡ false
    → GoesOn start timeout polls (suc k) j
    → GoesOn start timeout polls k j
GoesOn-back start timeout polls k j e f rest l le lt = elim (ℕ_discrete k l) [
  | yes eq ↦ (
    subst (λ m. ltb_ℤ ((polls m).0 -ℤ start) timeout ≡ true) eq e,
    subst (λ m. is_over (polls m).1 ≡ false) eq f,
  )
  | no ne ↦ rest l (omega arith) lt
]

wait_loop_ends :
    (fuel : ℕ) (start timeout : ℤ) (polls : ℕ → ℤ × Wait) (k late : ℕ)
    → k ≤ late
    → late < k + fuel
    → ltb_ℤ ((polls late).0 -ℤ start) timeout ≡ false
    → (j : ℕ) × (b : Bool) × (wait_loop fuel start timeout polls k ≡ some b)
      × EndsAt start timeout polls k j b
unfolding wait_loop
wait_loop_ends zero start timeout polls k late a b h = absurd (omega arith)
wait_loop_ends (suc fuel) start timeout polls k late a b h =
    elim (Bool-cases (ltb_ℤ ((polls k).0 -ℤ start) timeout)) [
      | inr e ↦ (k, false, rw e refl, (omega arith, λ l x y. absurd (omega arith), e, refl))
      | inl e ↦
          let ne : k ≢ late =
            λ eq. (let f = subst (λ j. ltb_ℤ ((polls j).0 -ℤ start) timeout ≡ true) eq e in cc) in
          let (j, r, f, (le, goes, at, over)) =
            wait_loop_ends fuel start timeout polls (suc k) late (omega arith) (omega arith) h in
          elim (Bool-cases (is_over (polls k).1)) [
            | inl g ↦ (
              k,
              true,
              rw (e, g) refl,
              (omega arith, λ l x y. absurd (omega arith), e, rw g refl),
            )
            | inr g ↦ (
              j,
              r,
              rw (e, g) f,
              (omega arith, GoesOn-back start timeout polls k j e g goes, at, over),
            )
          ]
    ]

-- The signals that are sent.
abbrev pub signals_sent : Service → Bool → List Kill
signals_sent svc in_time =
    record { pid = svc.pid; signal = svc.stop_signal }
    ∷ (if in_time then [] else record { pid = svc.pid; signal = sigkill } ∷ [])

finish_stop-some :
    (services : List Service) (i : ℕ) (svc : Service) (b : Bool)
    → finish_stop services i svc (some b) ≡ some (set services i (halted svc), signals_sent svc b)
finish_stop-some services i svc true = refl
finish_stop-some services i svc false = refl

stop_found-some :
    (fuel : ℕ) (start : ℤ) (polls : ℕ → ℤ × Wait) (services : List Service) (i : ℕ) (svc : Service)
    (b : Bool)
    → get_elem? services i ≡ some svc
    → (svc.pid == 0) ≡ false
    → wait_loop fuel start svc.stop_timeout_ms polls 0 ≡ some b
    → stop_found fuel start polls services (some i)
      ≡ some (set services i (halted svc), signals_sent svc b)
stop_found-some fuel start polls services i svc b got has_pid ends =
    rw (got, stop_found) (rw (has_pid, ends) (finish_stop-some services i svc b))

-- For a service with a process, and a clock that has passed the stop timeout in some round within
-- the fuel, supervisor_stop_one ends with the service STOPPED and its pid 0; it has sent the stop
-- signal, and SIGKILL exactly when the first round to end the loop was one past the timeout and not
-- one that saw the process end.
pub stop_one_halts :
    (fuel : ℕ) (start : ℤ) (polls : ℕ → ℤ × Wait) (services : List Service) (name : CString)
    (i late : ℕ) (svc : Service)
    → service_find services name ≡ some i
    → get_elem? services i ≡ some svc
    → svc.pid ≢ 0
    → ltb_ℤ ((polls late).0 -ℤ start) svc.stop_timeout_ms ≡ false
    → late < fuel
    → (j : ℕ) × (in_time : Bool) × (stop_one fuel start polls services name
        ≡ some (set services i (halted svc), signals_sent svc in_time))
      × EndsAt start svc.stop_timeout_ms polls 0 j in_time
unfolding stop_one
stop_one_halts fuel start polls services name i late svc found got alive_pid past enough =
    let (j, b, ends, at) =
      wait_loop_ends fuel start svc.stop_timeout_ms polls 0 late (omega arith) (omega arith) past in
    let run = stop_found-some fuel start polls services i svc b got (ground arith) ends in
    (j, b, ap (stop_found fuel start polls services) found ∙ run, at)
