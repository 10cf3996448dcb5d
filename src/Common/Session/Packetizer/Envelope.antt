-- ===== src/Common/Session/Packetizer/Envelope.antt =====
-- The secure envelope: what a receiver finds in what was sealed, with the stand-in cipher.
use remote_play.Prelude.{
  ℕ, zero, suc, ◌^◌, ◌≤◌, ◌<◌, ◌≡◌, refl, ap, ◌∙◌, List, [], ◌∷◌, ◌++◌, false, some, arith, length,
  take, drop, ltb,
}
use remote_play.Common.Crypto.{encrypt, decrypt}
use remote_play.Common.Crypto.Stand.{decrypt-encrypt}
use remote_play.Common.Protocol.Wire.{read-write_secure_header, drop-length}
use remote_play.Common.Protocol.Handshake.{
  SecureHeader, write_secure_header, read_secure_header, secure_header_size,
}
use remote_play.Common.Session.Packetizer.{envelope, sealed}

take-whole : (n : ℕ) (xs : List ℕ) → length xs ≡ n → take n xs ≡ xs
take-whole zero [] e = refl
take-whole zero (x ∷ xs) e = absurd (omega arith)
take-whole (suc n) [] e = refl
take-whole (suc n) (x ∷ xs) e = ap (◌∷◌ x) (take-whole n xs (omega arith))

module _ (session_id number : ℕ) (key plain : List ℕ) (size : length plain ≤ 2048)
    (fits : (session_id < 2 ^ 64) × (number < 2 ^ 64)) where
  abbrev pub secured : SecureHeader
  secured = envelope session_id number (length plain) (encrypt plain number key).1

  pub read_secured :
      (read_secure_header (sealed session_id number (length plain) (encrypt plain number key))
        ≡ secured)
      × (length (write_secure_header secured) ≡ secure_header_size)
  unfolding sealed encrypt envelope
  read_secured = read-write_secure_header secured plain (omega arith) refl

  pub secured-size : secured.encrypted_size ≡ length plain
  unfolding envelope
  secured-size = omega arith

  pub opened :
      take secured.encrypted_size (
        drop secure_header_size
          (sealed session_id number (length plain) (encrypt plain number key)))
      ≡ plain
  unfolding sealed encrypt
  opened =
      let rest = drop secure_header_size (write_secure_header secured ++ plain) in
      ap (λ n. take n rest) secured-size
      ∙ (ap (take (length plain))
            (drop-length (write_secure_header secured) plain secure_header_size read_secured.1)
          ∙ take-whole (length plain) plain refl)

  pub decrypted : decrypt plain secured.auth_tag secured.sequence_number key ≡ some plain
  unfolding encrypt envelope
  decrypted = decrypt-encrypt plain number key

  pub within : ltb 2048 secured.encrypted_size ≡ false
  unfolding envelope
  within = ground arith
