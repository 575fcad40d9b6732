-- ===== src/Lgp/Session/Turns.antt =====
-- The loop over a buffer in src/lgp-compositor/main.c ends, with no whole message left.
use mahina_os.Prelude.{
  ℕ, zero, suc, ◌≤◌, ◌<◌, ◌≡◌, refl, ap, ◌⊎◌, subst, Bool, true, false, ◌||◌, Option, none, some,
  List, [], ◌∷◌, ◌++◌, ◌-◌, ltb, if◌then◌else◌, length, take, drop, arith, ℤ, Bool-cases, inl, inr,
}
use mahina_os.Lgp.Wire.{Msg, peek_header, decode}
use mahina_os.Lgp.Session.{State, Act, Answers, find_client}
use mahina_os.Lgp.Session.Loop.{
  Processed, acted, Head, waits, refuses, message, framed_head, head_with, head, handle_for, turn,
  process,
}

pub process-suc :
    (fuel : ℕ) (env : ℕ → Answers) (k : ℕ) (fd : ℤ) (st : State) (rx : List ℕ)
    → process (suc fuel) env k fd st rx
      ≡ turn
          (λ after size. process fuel env (suc k) fd after (drop size rx))
          (env k)
          fd
          st
          rx
          (head rx)
unfolding process
process-suc fuel env k fd st rx = refl

-- The head of a buffer is a message of at least a header and at most the buffer.
abbrev Bounded : List ℕ → Head → Type 0
Bounded rx waits = Unit {0}
Bounded rx refuses = Unit {0}
Bounded rx (message size msg) = (6 ≤ size) × (size ≤ length rx)

head-Bounded : (rx : List ℕ) → Bounded rx (head rx)
head-Bounded rx =
    let w =
      choose_head (ltb (length rx) 6) (head_with rx (peek_header rx)) (peeked (peek_header rx)) in
    unfold head in w
  where
    choose_head : (b : Bool) (h : Head) → Bounded rx h → Bounded rx (if b then waits else h)
    choose_head true h w = tt
    choose_head false h w = w

    framed :
        (size : ℕ) (o : Option Msg) → 6 ≤ size → size ≤ length rx → Bounded rx (framed_head size o)
    framed size none a b = tt
    framed size (some msg) a b = (a, b)

    peeked : (o : Option (ℕ × ℕ)) → Bounded rx (head_with rx o)
    peeked none = tt
    peeked (some (type, size)) = elim (Bool-cases (ltb size 6 || ltb 4096 size)) [
      | inl f ↦ rw f tt
      | inr f ↦ rw f (elim (Bool-cases (ltb (length rx) size)) [
        | inl g ↦ rw g tt
        | inr g ↦ rw g (framed size (decode (take size rx)) (ground arith) (ground arith))
      ])
    ]

head-bounds :
    (rx : List ℕ) (size : ℕ) (msg : Msg)
    → head rx ≡ message size msg
    → (6 ≤ size) × (size ≤ length rx)
head-bounds rx size msg h = subst (Bounded rx) h (head-Bounded rx)

pub length-drop : (n : ℕ) (l : List ℕ) → length (drop n l) ≡ length l - n
length-drop zero l = omega arith
length-drop (suc n) [] = omega arith
length-drop (suc n) (x ∷ l) = omega (arith, length-drop n l)

abbrev pub Finished : Option Processed → Type 0
Finished o = (p : Processed) × (o ≡ some p) × ((p.result ≡ false) ⊎ (head p.left ≡ waits))

settle_acted : (acts : List Act) (o : Option Processed) → Finished o → Finished (acted acts o)
settle_acted acts o (p, e, w) = (record p { acts = acts ++ p.acts }, ap (acted acts) e, w)

settle_if :
    (b : Bool) (o p : Option Processed) → Finished o → Finished p → Finished (if b then o else p)
settle_if true o p k l = k
settle_if false o p k l = l

turn-Finished :
    (rest : State → ℕ → Option Processed) (env : Answers) (fd : ℤ) (st : State) (rx : List ℕ)
    (h : Head)
    → head rx ≡ h
    → ((after : State) (size : ℕ) → 6 ≤ size → size ≤ length rx → Finished (rest after size))
    → Finished (turn rest env fd st rx h)
turn-Finished rest env fd st rx waits e ih =
    (record { state = st; result = true; acts = []; left = rx }, refl, inr e)
turn-Finished rest env fd st rx refuses e ih =
    (record { state = st; result = false; acts = []; left = rx }, refl, inl refl)
turn-Finished rest env fd st rx (message size msg) e ih =
    let r = handle_for env st msg (find_client fd st.clients) in
    let (least, most) = head-bounds rx size msg e in
    settle_if r.1 _ _ (settle_acted r.2 _ (ih r.0 size least most))
      (record { state = r.0; result = false; acts = r.2; left = rx }, refl, inl refl)

process_settles_with :
    (env : ℕ → Answers) (fd : ℤ) (fuel k : ℕ) (st : State) (rx : List ℕ)
    → length rx < fuel
    → Finished (process fuel env k fd st rx)
process_settles_with env fd zero k st rx h = absurd (omega (arith, h))
process_settles_with env fd (suc fuel) k st rx h = rw (process-suc fuel env k fd st rx) (
    turn-Finished _ (env k) fd st rx (head rx) refl (λ after size least most.
      process_settles_with env fd fuel (suc k) after (drop size rx)
        (omega (arith, length-drop size rx, h, least, most))))

-- lgp_client_process_messages ends for every buffer, in at most as many turns as it has bytes and
-- one, and leaves a buffer whose head is not a whole message and is not refused, or returns false.
pub process_settles :
    (env : ℕ → Answers) (k : ℕ) (fd : ℤ) (st : State) (rx : List ℕ)
    → Finished (process (suc (length rx)) env k fd st rx)
process_settles env k fd st rx = process_settles_with env fd (suc (length rx)) k st rx (omega arith)
