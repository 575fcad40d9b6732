-- ===== src/Init/Toml/Quotes.antt =====
-- The search for the closing quote in parse_array_value of src/luna-init/toml.c.
use mahina_os.Init.Toml.{Parsed, ok, err, fault}
use mahina_os.Init.Toml.Values.{store, string_loop, advance}
use mahina_os.Init.Toml.Steps.{
  string_loop-escaped, string_loop-backslash, string_loop-plain, advance-quote, advance-backslash,
  advance-plain,
}
use mahina_os.Prelude.{
  subst, sym, ℕ_discrete, ℕ, zero, suc, ◌≡◌, ◌≢◌, refl, [], ◌∷◌, arith, CString,
}

abbrev pub IsOk {ℓ} : {A : Type ℓ} → Parsed A → Type 0
IsOk (ok a) = Unit {0}
IsOk (err e) = ⊥
IsOk fault = ⊥

-- The read ends at a quote.
abbrev pub AtQuote : Parsed CString → Type 0
AtQuote (ok []) = ⊥
AtQuote (ok (c ∷ p)) = c ≡ b'"'
AtQuote (err e) = ⊥
AtQuote fault = ⊥

store-IsOk : (c : ℕ) (r : Parsed CString) → IsOk (store c r) → IsOk r
store-IsOk c (ok s) h = tt
store-IsOk c (err e) h = h
store-IsOk c fault h = h

string_loop-zero : (c : ℕ) (p : CString) → IsOk (string_loop (c ∷ p) 0) → c ≡ b'"'
unfolding string_loop
string_loop-zero c p h = ground arith

string_loop-last : (c : ℕ) (room : ℕ) → IsOk (string_loop (c ∷ []) room) → c ≡ b'"'
unfolding string_loop
string_loop-last c zero h = ground arith
string_loop-last c (suc room) h = ground arith

-- Where the search for the closing quote may stand in a text that the loop accepts: at its start, or
-- behind a byte of it that is not the closing quote.
abbrev pub Behind : CString → Type 0
Behind [] = Unit {0}
Behind (c ∷ p) = c ≢ b'"' → AtQuote (advance p)

abbrev pub Follows : CString → Type 0
Follows p = AtQuote (advance p) × Behind p

Follows-quote : (p : CString) → Follows (b'"' ∷ p)
Follows-quote p = (rw (advance-quote p) refl, λ ne. absurd (ne refl))

Follows-escaped : (p : CString) → Follows p → Follows (b'\\' ∷ b'"' ∷ p)
Follows-escaped p f = (rw (advance-backslash b'"' p) f.0, λ _. rw (advance-quote p) refl)

Follows-backslash : (d : ℕ) (p : CString) → d ≢ b'"' → Follows (d ∷ p) → Follows (b'\\' ∷ d ∷ p)
Follows-backslash d p ne f = (rw (advance-backslash d p) (f.1 ne), λ _. f.0)

Follows-plain : (c : ℕ) (p : CString) → c ≢ b'"' → c ≢ b'\\' → Follows p → Follows (c ∷ p)
Follows-plain c p q b f = (rw (advance-plain c p q b) f.0, λ _. f.0)

-- Behind a string that parse_string_value accepts, the loop that looks for the closing quote stops at
-- a quote of the text: the two loops read backslashes differently, but this one never gets ahead.
pub string_loop-Follows : (p : CString) (room : ℕ) → IsOk (string_loop p room) → Follows p
string_loop-Follows [] zero h = unfold string_loop in absurd h
string_loop-Follows [] (suc room) h = unfold string_loop in absurd h
string_loop-Follows (c ∷ p) zero h =
    subst (λ t. Follows (t ∷ p)) (sym (string_loop-zero c p h)) (Follows-quote p)
string_loop-Follows (c ∷ []) (suc room) h =
    subst (λ t. Follows (t ∷ [])) (sym (string_loop-last c (suc room) h)) (Follows-quote [])
string_loop-Follows (c ∷ d ∷ p) (suc room) h = elim (ℕ_discrete c b'"') [
  | yes q ↦ subst (λ t. Follows (t ∷ d ∷ p)) (sym q) (Follows-quote (d ∷ p))
  | no q ↦ elim (ℕ_discrete c b'\\') [
    | no b ↦ Follows-plain c (d ∷ p) q b (
        string_loop-Follows (d ∷ p) room
          (store-IsOk c _ (rw (string_loop-plain c (d ∷ p) room q b) at h)))
    | yes b ↦ elim (ℕ_discrete d b'"') [
      | yes e ↦
          let k : IsOk (string_loop (b'\\' ∷ b'"' ∷ p) (suc room)) =
            subst (λ t. IsOk (string_loop (t ∷ b'"' ∷ p) (suc room))) b
              (subst (λ t. IsOk (string_loop (c ∷ t ∷ p) (suc room))) e h) in
          subst (λ t. Follows (t ∷ d ∷ p)) (sym b)
            (subst (λ t. Follows (b'\\' ∷ t ∷ p)) (sym e)
              (Follows-escaped p (
                string_loop-Follows p room
                  (store-IsOk b'"' _ (rw (string_loop-escaped p room) at k)))))
      | no e ↦
          let k : IsOk (string_loop (b'\\' ∷ d ∷ p) (suc room)) =
            subst (λ t. IsOk (string_loop (t ∷ d ∷ p) (suc room))) b h in
          subst (λ t. Follows (t ∷ d ∷ p)) (sym b)
            (Follows-backslash d p e (
              string_loop-Follows (d ∷ p) room
                (store-IsOk b'\\' _ (rw (string_loop-backslash d p room e) at k))))
    ]
  ]
]
