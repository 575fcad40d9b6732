-- ===== src/Init/Toml/Steps.antt =====
-- One round of each loop of parse_string_value and parse_array_value of src/luna-init/toml.c.
use mahina_os.Init.Toml.{ok}
use mahina_os.Init.Toml.Values.{store, string_loop, advance}
use mahina_os.Prelude.{ℕ, zero, suc, ◌≡◌, refl, ◌≢◌, [], ◌∷◌, arith, CString}

pub string_loop-quote : (p : CString) (room : ℕ) → string_loop (b'"' ∷ p) room ≡ ok []
unfolding string_loop
string_loop-quote p zero = refl
string_loop-quote [] (suc room) = refl
string_loop-quote (d ∷ p) (suc room) = refl

pub string_loop-escaped :
    (p : CString) (room : ℕ)
    → string_loop (b'\\' ∷ b'"' ∷ p) (suc room) ≡ store b'"' (string_loop p room)
unfolding string_loop
string_loop-escaped p room = refl

pub string_loop-backslash :
    (d : ℕ) (p : CString) (room : ℕ)
    → d ≢ b'"'
    → string_loop (b'\\' ∷ d ∷ p) (suc room) ≡ store b'\\' (string_loop (d ∷ p) room)
unfolding string_loop
string_loop-backslash d p room h = ground arith

pub string_loop-plain :
    (c : ℕ) (p : CString) (room : ℕ)
    → c ≢ b'"'
    → c ≢ b'\\'
    → string_loop (c ∷ p) (suc room) ≡ store c (string_loop p room)
unfolding string_loop
string_loop-plain c [] room q b = ground arith
string_loop-plain c (d ∷ p) room q b = ground arith

pub advance-quote : (p : CString) → advance (b'"' ∷ p) ≡ ok (b'"' ∷ p)
unfolding advance
advance-quote [] = refl
advance-quote (d ∷ p) = refl

pub advance-backslash : (d : ℕ) (p : CString) → advance (b'\\' ∷ d ∷ p) ≡ advance p
unfolding advance
advance-backslash d p = refl

pub advance-plain : (c : ℕ) (p : CString) → c ≢ b'"' → c ≢ b'\\' → advance (c ∷ p) ≡ advance p
unfolding advance
advance-plain c [] q b = ground arith
advance-plain c (d ∷ p) q b = ground arith
