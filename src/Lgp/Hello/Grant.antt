-- ===== src/Lgp/Hello/Grant.antt =====
-- Which capabilities src/lgp-compositor/protocol/caps.c grants.
use mahina_os.Prelude.{
  ℕ, zero, suc, ◌^◌, ◌<◌, ◌≤◌, ◌/◌, ◌≡◌, refl, ap, ◌∙◌, ltb→lt, Bool, true, false, some, List, ◌==◌,
  ◌&&◌, ◌||◌, none, not, ltb, if◌then◌else◌, Bool-cases, inl, inr, arith,
}
use native.Mathlib.Nat.{div-eq_of_lt, pow-le-pow_right}
use mahina_os.Lgp.Wire.{Msg, payload_size, read_u16, read_u32, decode}
use mahina_os.Lgp.Client.{Client, has_bit, set_bit}
use mahina_os.Lgp.Hello.{
  caps_negotiate, hello_reply, hello_handle, version_major, version_minor, msg_hello_reply,
}

-- The policy: bits 1, 2 and 6 are for every client, 3, 4 and 7 for root, the others for none.
abbrev pub allows : ℕ → ℕ → Bool
allows uid zero = false
allows uid (suc zero) = true
allows uid (suc (suc zero)) = true
allows uid (suc (suc (suc zero))) = uid == 0
allows uid (suc (suc (suc (suc zero)))) = uid == 0
allows uid (suc (suc (suc (suc (suc zero))))) = false
allows uid (suc (suc (suc (suc (suc (suc zero)))))) = true
allows uid (suc (suc (suc (suc (suc (suc (suc zero))))))) = uid == 0
allows uid (suc (suc (suc (suc (suc (suc (suc (suc k)))))))) = false

-- The masks as a function of the seven tests that caps_negotiate makes.
abbrev granted_by : Bool → Bool → Bool → Bool → Bool → Bool → Bool → ℕ
granted_by root canvas direct clip shell island wm =
    let grant_if = λ (b : Bool) (cap g : ℕ). if b then set_bit cap g else g in
    let open_caps = grant_if clip 6 (grant_if direct 2 (grant_if canvas 1 0)) in
    if root then grant_if wm 7 (grant_if island 4 (grant_if shell 3 open_caps)) else open_caps

abbrev every : (Bool → Bool) → Bool
every p = p true && p false

every_sound : (p : Bool → Bool) → every p ≡ true → (b : Bool) → p b ≡ true
every_sound p h true = ground arith
every_sound p h false = ground arith

abbrev same : Bool → Bool → Bool
same true b = b
same false b = not b

same_eq : (a b : Bool) → same a b ≡ true → a ≡ b
same_eq a b h = ground arith

abbrev Tests : Type 0
Tests = Bool → Bool → Bool → Bool → Bool → Bool → Bool → Bool

abbrev every_seven : Tests → Bool
every_seven p =
    every
      (λ r. every (λ a. every (λ b. every (λ c. every (λ d. every (λ e. every (p r a b c d e)))))))

-- What holds of all 128 combinations by evaluation holds of any one.
every_seven_sound :
    (p : Tests) → every_seven p ≡ true → (r a b c d e f : Bool) → p r a b c d e f ≡ true
every_seven_sound p h r a b c d e f =
    every_sound (p r a b c d e)
      (every_sound (λ e. every (p r a b c d e))
        (every_sound (λ d. every (λ e. every (p r a b c d e)))
          (every_sound (λ c. every (λ d. every (λ e. every (p r a b c d e))))
            (every_sound (λ b. every (λ c. every (λ d. every (λ e. every (p r a b c d e)))))
              (every_sound
                (λ a. every (λ b. every (λ c. every (λ d. every (λ e. every (p r a b c d e))))))
                (every_sound
                  (λ r. every (λ a.
                    every (λ b. every (λ c. every (λ d. every (λ e. every (p r a b c d e)))))))
                  h r)
                a)
              b)
            c)
          d)
        e)
      f

-- Bit `k` of the mask is `expected` of the tests.
bit_by_table :
    (k : ℕ) (expected : Tests)
    → every_seven
        (λ r a b c d e f. same (has_bit k (granted_by r a b c d e f)) (expected r a b c d e f))
      ≡ true
    → (r a b c d e f : Bool) → has_bit k (granted_by r a b c d e f) ≡ expected r a b c d e f
bit_by_table k expected h r a b c d e f =
    same_eq (has_bit k (granted_by r a b c d e f)) (expected r a b c d e f) (
      every_seven_sound
        (λ r a b c d e f. same (has_bit k (granted_by r a b c d e f)) (expected r a b c d e f)) h r
        a b c d e f)

granted_lt : (r a b c d e f : Bool) → granted_by r a b c d e f < 2 ^ 8
granted_lt r a b c d e f =
    ltb→lt _ _ (
      every_seven_sound (λ r a b c d e f. ltb (granted_by r a b c d e f) (2 ^ 8)) refl r a b c d e
        f)

-- Bit `k` of the granted mask: the policy, and for a bit that the policy knows its own request.
abbrev policy : ℕ → Tests
policy zero r a b c d e f = false
policy (suc zero) r a b c d e f = a
policy (suc (suc zero)) r a b c d e f = b
policy (suc (suc (suc zero))) r a b c d e f = d && r
policy (suc (suc (suc (suc zero)))) r a b c d e f = e && r
policy (suc (suc (suc (suc (suc zero))))) r a b c d e f = false
policy (suc (suc (suc (suc (suc (suc zero)))))) r a b c d e f = c
policy (suc (suc (suc (suc (suc (suc (suc k))))))) r a b c d e f = f && r

-- A word below 2 ^ 8 has no bit from 8 on.
high_bit : (caps k : ℕ) → caps < 2 ^ 8 → 8 ≤ k → has_bit k caps ≡ false
high_bit caps k small high =
    let room : 2 ^ 8 ≤ 2 ^ k = pow-le-pow_right (omega arith) high in
    let none_left : caps / 2 ^ k ≡ 0 = div-eq_of_lt (omega arith) in rw none_left refl

and_false : (b : Bool) → false ≡ (b && false)
and_false true = refl
and_false false = refl

module _ (uid requested : ℕ) where
  -- The mask is that of the seven tests.
  negotiated :
      caps_negotiate uid requested
      ≡ granted_by
          (uid == 0)
          (has_bit 1 requested)
          (has_bit 2 requested)
          (has_bit 6 requested)
          (has_bit 3 requested)
          (has_bit 4 requested)
          (has_bit 7 requested)
  unfolding caps_negotiate
  negotiated = refl

  bit :
      (k : ℕ)
      → every_seven
          (λ r a b c d e f. same (has_bit k (granted_by r a b c d e f)) (policy k r a b c d e f))
        ≡ true
      → has_bit k (caps_negotiate uid requested)
        ≡ policy k
            (uid == 0)
            (has_bit 1 requested)
            (has_bit 2 requested)
            (has_bit 6 requested)
            (has_bit 3 requested)
            (has_bit 4 requested)
            (has_bit 7 requested)
  bit k h = ap (has_bit k) negotiated ∙ bit_by_table k (policy k) h _ _ _ _ _ _ _

  granted_bits :
      (k : ℕ) → has_bit k (caps_negotiate uid requested) ≡ (has_bit k requested && allows uid k)
  granted_bits zero = bit 0 refl ∙ ground arith
  granted_bits (suc zero) = bit 1 refl ∙ ground arith
  granted_bits (suc (suc zero)) = bit 2 refl ∙ ground arith
  granted_bits (suc (suc (suc zero))) = bit 3 refl
  granted_bits (suc (suc (suc (suc zero)))) = bit 4 refl
  granted_bits (suc (suc (suc (suc (suc zero))))) = bit 5 refl ∙ ground arith
  granted_bits (suc (suc (suc (suc (suc (suc zero)))))) = bit 6 refl ∙ ground arith
  granted_bits (suc (suc (suc (suc (suc (suc (suc zero))))))) = bit 7 refl
  granted_bits (suc (suc (suc (suc (suc (suc (suc (suc k)))))))) =
      let word : caps_negotiate uid requested < 2 ^ 8 = rw negotiated (
        granted_lt (uid == 0) (has_bit 1 requested) (has_bit 2 requested) (has_bit 6 requested)
          (has_bit 3 requested) (has_bit 4 requested) (has_bit 7 requested)) in
      high_bit (caps_negotiate uid requested) (suc (suc (suc (suc (suc (suc (suc (suc k)))))))) word
        (omega arith)
      ∙ and_false (has_bit (suc (suc (suc (suc (suc (suc (suc (suc k)))))))) requested)

-- The mask is one of eight bits.
pub caps_negotiate_lt : (uid requested : ℕ) → caps_negotiate uid requested < 2 ^ 8
caps_negotiate_lt uid requested = rw (negotiated uid requested) (
    granted_lt (uid == 0) (has_bit 1 requested) (has_bit 2 requested) (has_bit 6 requested)
      (has_bit 3 requested) (has_bit 4 requested) (has_bit 7 requested))

-- lgp_caps_negotiate grants a capability bit exactly when the client asked for it and the policy
-- allows it to the client's uid: bits 1, 2 and 6 to everyone, bits 3, 4 and 7 to root, and no other
-- bit.
pub caps_negotiate_exact :
    (uid requested k : ℕ)
    → has_bit k (caps_negotiate uid requested) ≡ (has_bit k requested && allows uid k)
caps_negotiate_exact uid requested k = granted_bits uid requested k

-- lgp_hello_handle succeeds exactly for a payload of at least 8 bytes of version 1 whose reply was
-- written; then it marks the client as greeted, and it stores the negotiated capabilities and
-- replies whenever the payload is long enough and of version 1.
pub hello_handle_accepts :
    (client : Client) (msg : Msg) (written : Bool)
    → let (after, accepted, reply) = hello_handle client msg written in
      let valid =
        not (ltb (payload_size msg.size) 8) && (read_u16 msg.payload 0 == version_major) in
      let caps = caps_negotiate client.uid (read_u32 msg.payload 4) in
      (accepted ≡ (valid && written))
      × (after ≡ record client {
        caps_granted = if valid then caps else client.caps_granted;
        hello_done = (valid && written) || client.hello_done;
      })
      × (reply ≡ (if valid then hello_reply caps else none))
unfolding hello_handle
hello_handle_accepts client msg written = elim (Bool-cases (ltb (payload_size msg.size) 8)) [
  | inl e ↦ rw e (refl, refl, refl)
  | inr e ↦ elim (Bool-cases (read_u16 msg.payload 0 == version_major)) [
    | inr f ↦ rw (e, f) (refl, refl, refl)
    | inl f ↦ elim (Bool-cases written) [
      | inl g ↦ rw (e, f, g) (refl, refl, refl)
      | inr g ↦ rw (e, f, g) (refl, refl, refl)
    ]
  ]
]

-- For a 32-bit mask the reply of the handshake is a frame of 14 bytes that decodes as HELLO_REPLY
-- with version 1.0 and that mask.
pub hello_reply_decodes :
    (caps : ℕ)
    → caps < 2 ^ 32
    → (frame : List ℕ) × (msg : Msg) × (hello_reply caps ≡ some frame)
      × (decode frame ≡ some msg)
      × (msg.type ≡ msg_hello_reply)
      × (msg.size ≡ 14)
      × (read_u16 msg.payload 0 ≡ version_major)
      × (read_u16 msg.payload 2 ≡ version_minor)
      × (read_u32 msg.payload 4 ≡ caps)
unfolding hello_reply decode read_u16 read_u32
hello_reply_decodes caps h = (_, _, refl, refl, refl, refl, refl, refl, omega arith)
