-- ===== src/Common/Protocol/Layout.antt =====
-- The layout of a `#pragma pack(push, 1)` struct on a little-endian machine: its fields one after
-- the other, each in as many bytes as its type has, the lowest byte first.
use mathlib.Core.List.{append_assoc}
use native.Mathlib.Nat.{pow-suc}
use remote_play.Prelude.{
  ℕ, zero, suc, ◌+◌, ◌*◌, ◌/◌, ◌%◌, ◌^◌, ◌<◌, ◌≡◌, refl, ap, ap₂, List, [], ◌∷◌, ◌++◌, arith,
  length, length-append, drop,
}

-- The bytes of a number in a field of `width` bytes.
abbrev pub le_bytes : ℕ → ℕ → List ℕ
le_bytes zero v = []
le_bytes (suc width) v = (v % 256) ∷ le_bytes width (v / 256)

-- Bytes that are not there read as 0; the callers check the length first.
abbrev pub of_le_bytes : ℕ → List ℕ → ℕ
of_le_bytes zero bytes = 0
of_le_bytes (suc width) [] = 0
of_le_bytes (suc width) (b ∷ bytes) = b + 256 * of_le_bytes width bytes

abbrev pub encode : List ℕ → List ℕ → List ℕ
encode [] vs = []
encode (w ∷ ws) [] = []
encode (w ∷ ws) (v ∷ vs) = le_bytes w v ++ encode ws vs

abbrev pub decode : List ℕ → List ℕ → List ℕ
decode [] bytes = []
decode (w ∷ ws) bytes = of_le_bytes w bytes ∷ decode ws (drop w bytes)

-- sizeof
abbrev pub size_of : List ℕ → ℕ
size_of [] = 0
size_of (w ∷ ws) = w + size_of ws

-- Every value fits its field.
abbrev pub Fits : List ℕ → List ℕ → Type 0
Fits [] [] = Unit {0}
Fits [] (v ∷ vs) = ⊥
Fits (w ∷ ws) [] = ⊥
Fits (w ∷ ws) (v ∷ vs) = (v < 256 ^ w) × Fits ws vs

pub length-le_bytes : (w v : ℕ) → length (le_bytes w v) ≡ w
length-le_bytes zero v = refl
length-le_bytes (suc w) v = ap suc (length-le_bytes w (v / 256))

of_le_bytes-le_bytes :
    (w v : ℕ) (rest : List ℕ) → v < 256 ^ w → of_le_bytes w (le_bytes w v ++ rest) ≡ v
of_le_bytes-le_bytes zero v rest h = omega arith
of_le_bytes-le_bytes (suc w) v rest h =
    omega
      (arith, pow-suc 256 w, of_le_bytes-le_bytes w (v / 256) rest (omega (arith, pow-suc 256 w)))

drop-le_bytes : (w v : ℕ) (rest : List ℕ) → drop w (le_bytes w v ++ rest) ≡ rest
drop-le_bytes zero v rest = refl
drop-le_bytes (suc w) v rest = drop-le_bytes w (v / 256) rest

pub decode-encode : (ws vs rest : List ℕ) → Fits ws vs → decode ws (encode ws vs ++ rest) ≡ vs
decode-encode [] [] rest h = refl
decode-encode [] (v ∷ vs) rest h = absurd h
decode-encode (w ∷ ws) [] rest h = absurd h
decode-encode (w ∷ ws) (v ∷ vs) rest h = rw (append_assoc (le_bytes w v) (encode ws vs) rest) (
    ap₂ ◌∷◌ (of_le_bytes-le_bytes w v _ h.0)
      (rw (drop-le_bytes w v (encode ws vs ++ rest)) (decode-encode ws vs rest h.1)))

pub length-encode : (ws vs : List ℕ) → Fits ws vs → length (encode ws vs) ≡ size_of ws
length-encode [] [] h = refl
length-encode [] (v ∷ vs) h = absurd h
length-encode (w ∷ ws) [] h = absurd h
length-encode (w ∷ ws) (v ∷ vs) h = omega (
  arith,
  length-append (le_bytes w v) (encode ws vs),
  length-le_bytes w v,
  length-encode ws vs h.1,
)
