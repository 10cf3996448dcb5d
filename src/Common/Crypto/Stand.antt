-- ===== src/Common/Crypto/Stand.antt =====
-- What the stand-in cipher promises.
use remote_play.Prelude.{
  ℕ, zero, suc, ◌^◌, ◌<◌, ◌≡◌, ◌≢◌, refl, sym, ap, ◌∙◌, List, [], ◌∷◌, true, false, none, some,
  arith, get_or, set, length, ==_refl, ==_of_ne,
}
use remote_play.Bits.Xor.{xor, xor_assoc, xor_comm, xor_cancel}
use remote_play.Common.Crypto.{checksum, encrypt, decrypt, derive_session_keys}

-- What was encrypted is decrypted under the same nonce and key.
pub decrypt-encrypt :
    (plaintext : List ℕ) (nonce : ℕ) (key : List ℕ)
    → let (c, tag) = encrypt plaintext nonce key in decrypt c tag nonce key ≡ some plaintext
unfolding decrypt encrypt
decrypt-encrypt p nonce key = simp ==_refl

checksum-xor : (s t : ℕ) (bs : List ℕ) → checksum (xor 8 s t) bs ≡ xor 8 s (checksum t bs)
unfolding checksum
checksum-xor s t [] = refl
checksum-xor s t (b ∷ bs) = rw (xor_assoc 8 s t b) (checksum-xor s (xor 8 t b) bs)

xor_inj : (a b c : ℕ) → a < 2 ^ 8 → b < 2 ^ 8 → xor 8 a c ≡ xor 8 b c → a ≡ b
xor_inj a b c ha hb e =
    sym (xor_cancel 8 c a ha)
    ∙ ap (xor 8 c) (xor_comm 8 c a ∙ e ∙ xor_comm 8 b c)
    ∙ xor_cancel 8 c b hb

-- A changed byte changes the check byte.
checksum-set :
    (bs : List ℕ) (s i v : ℕ)
    → i < length bs
    → v < 2 ^ 8
    → get_or bs i 0 < 2 ^ 8
    → checksum s (set bs i v) ≡ checksum s bs
    → v ≡ get_or bs i 0
unfolding checksum
checksum-set [] s i v h hv hb e = absurd (omega arith)
checksum-set (b ∷ bs) s zero v h hv hb e =
    xor_inj v b (checksum s bs) hv hb (sym (turned v) ∙ e ∙ turned b)
  where
    turned : (x : ℕ) → checksum (xor 8 s x) bs ≡ xor 8 x (checksum s bs)
    turned x = ap (λ z. checksum z bs) (xor_comm 8 s x) ∙ checksum-xor x s bs
checksum-set (b ∷ bs) s (suc i) v h hv hb e = checksum-set bs (xor 8 s b) i v (omega arith) hv hb e

-- A ciphertext in which one byte was changed to another value is refused, whatever the nonce and the
-- key are.
pub decrypt-set :
    (plaintext : List ℕ) (nonce : ℕ) (key : List ℕ) (i v : ℕ)
    → i < length plaintext
    → get_or plaintext i 0 < 2 ^ 8
    → v < 2 ^ 8
    → v ≢ get_or plaintext i 0
    → let (c, tag) = encrypt plaintext nonce key in decrypt (set c i v) tag nonce key ≡ none
unfolding decrypt encrypt
decrypt-set p nonce key i v h hb hv ne = rw (
    ==_of_ne (checksum 0 p) (checksum 0 (set p i v))
      (λ e. ne (checksum-set p 0 i v h hv hb (sym e))))

-- Host and client that start without keys derive matching keys: what one sends with, the other
-- receives with, in both directions, and the two directions have different keys.
pub derive_session_keys-match :
    let (host_rx, host_tx) = derive_session_keys [] [] true in
    let (client_rx, client_tx) = derive_session_keys [] [] false in
    (host_rx ≡ client_tx) × (host_tx ≡ client_rx) × (host_rx ≢ host_tx)
unfolding derive_session_keys
derive_session_keys-match = (refl, refl, λ e. absurd (omega (arith, ap (λ k. get_or k 0 0) e)))
