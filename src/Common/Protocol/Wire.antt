-- ===== src/Common/Protocol/Wire.antt =====
-- What is written to the wire is read back.
use mathlib.Core.List.{append_assoc}
use remote_play.Prelude.{
  ℕ, zero, suc, ◌≡◌, refl, ap, ap₂, ◌∙◌, List, [], ◌∷◌, ◌++◌, arith, length, take, drop,
  length-append,
}
use remote_play.Common.Protocol.{
  VideoHeader, video_header_widths, video_header_fields, video_header_of, write_video_header,
  read_video_header,
}
use remote_play.Common.Protocol.Layout.{encode, decode, Fits, decode-encode, length-encode}
use remote_play.Common.Protocol.Handshake.{
  SecureHeader, secure_header_widths, secure_header_fields, write_secure_header, read_secure_header,
  secure_header_of, secure_header_size, array_at,
}

pub take-length : (xs ys : List ℕ) (n : ℕ) → length xs ≡ n → take n (xs ++ ys) ≡ xs
take-length [] ys zero e = refl
take-length [] ys (suc n) e = absurd (omega arith)
take-length (x ∷ xs) ys zero e = absurd (omega arith)
take-length (x ∷ xs) ys (suc n) e = ap (◌∷◌ x) (take-length xs ys n (omega arith))

pub drop-length : (xs ys : List ℕ) (n : ℕ) → length xs ≡ n → drop n (xs ++ ys) ≡ ys
drop-length [] ys zero e = refl
drop-length [] ys (suc n) e = absurd (omega arith)
drop-length (x ∷ xs) ys zero e = absurd (omega arith)
drop-length (x ∷ xs) ys (suc n) e = drop-length xs ys n (omega arith)

-- A video header whose fields fit their types is sent in 40 bytes and is read back, whatever payload
-- follows it.
pub read-write_video_header :
    (h : VideoHeader) (payload : List ℕ)
    → Fits video_header_widths (video_header_fields h)
    → (read_video_header (write_video_header h ++ payload) ≡ h)
      × (length (write_video_header h) ≡ 40)
unfolding read_video_header write_video_header
read-write_video_header h payload f = (
  ap video_header_of (decode-encode video_header_widths (video_header_fields h) payload f),
  length-encode video_header_widths (video_header_fields h) f,
)

-- A secure header whose fields fit their types is sent in 35 bytes and is read back, whatever
-- ciphertext follows it.
pub read-write_secure_header :
    (h : SecureHeader) (ciphertext : List ℕ)
    → Fits secure_header_widths (secure_header_fields h)
    → length h.auth_tag ≡ 16
    → (read_secure_header (write_secure_header h ++ ciphertext) ≡ h)
      × (length (write_secure_header h) ≡ secure_header_size)
unfolding read_secure_header write_secure_header
read-write_secure_header h ciphertext f t =
    let front = encode secure_header_widths (secure_header_fields h) in
    let size : length front ≡ 19 = length-encode secure_header_widths (secure_header_fields h) f in
    let flat = append_assoc front h.auth_tag ciphertext in
    (
      ap₂ secure_header_of
          (ap (decode secure_header_widths) flat
            ∙ decode-encode secure_header_widths (secure_header_fields h) (h.auth_tag ++ ciphertext)
                f)
          (ap (array_at 19 16) flat
            ∙ ap (take 16) (drop-length front (h.auth_tag ++ ciphertext) 19 size)
            ∙ take-length h.auth_tag ciphertext 16 t),
      omega (arith, length-append front h.auth_tag, size, t),
    )
