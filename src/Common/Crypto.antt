-- ===== src/Common/Crypto.antt =====
-- cpp/common/crypto_manager.cpp, built without PARSEC_LITE_ENABLE_SODIUM: the stand-in cipher that
-- copies its input and tags it with a check byte. The branches that call libsodium are not modelled.
pub mod Stand
use remote_play.Prelude.{
  ℕ, zero, suc, ◌+◌, ◌%◌, ◌≡◌, List, [], ◌∷◌, Bool, true, false, Option, none, some, not, ◌||◌,
  ◌==◌, if◌then◌else◌, get_or, replicate, u8, length,
}
use remote_play.Bits.Xor.{xor}

pub record KeyPair : Type 0 where
  pub public_key : List ℕ
  pub private_key : List ℕ

unfoldable pub generate_x25519_key_pair : KeyPair
generate_x25519_key_pair = record { public_key = replicate 32 0; private_key = replicate 32 0 }

unfoldable pub compute_shared_secret : List ℕ → List ℕ → List ℕ
compute_shared_secret private_key peer_public_key = replicate 32 0

-- v.resize(n, byte) on a vector of bytes
unfoldable pub resize : List ℕ → ℕ → ℕ → List ℕ
resize xs zero byte = []
resize [] (suc n) byte = byte ∷ resize [] n byte
resize (x ∷ xs) (suc n) byte = x ∷ resize xs n byte

-- The keys that the call leaves in `rxKey` and `txKey`, in this order, from what these held.
unfoldable pub derive_session_keys : List ℕ → List ℕ → Bool → List ℕ × List ℕ
unfolding resize
derive_session_keys rx tx is_server =
    if is_server
    then (resize rx 32 0xaa, resize tx 32 0x55)
    else (resize rx 32 0x55, resize tx 32 0xaa)

-- The loop of both functions: `sum ^= bytes[i]`.
unfoldable pub checksum : ℕ → List ℕ → ℕ
checksum sum [] = sum
checksum sum (b ∷ bs) = checksum (xor 8 sum b) bs

-- (uint8_t)(key.empty() ? 0 : key[0])
abbrev pub key_byte : List ℕ → ℕ
key_byte key = get_or key 0 0

-- The tag's sixteen bytes: 0x55 but for the first three.
unfoldable pub encrypt : List ℕ → ℕ → List ℕ → List ℕ × List ℕ
encrypt plaintext nonce key =
    (plaintext, checksum 0 plaintext ∷ u8 nonce ∷ key_byte key ∷ replicate 13 0x55)

unfoldable pub decrypt : List ℕ → List ℕ → ℕ → List ℕ → Option (List ℕ)
decrypt ciphertext tag nonce key =
    if not (get_or tag 0 0 == checksum 0 ciphertext)
      || (not (get_or tag 1 0 == u8 nonce) || not (get_or tag 2 0 == key_byte key))
    then none
    else some ciphertext
