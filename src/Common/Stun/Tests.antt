-- ===== src/Common/Stun/Tests.antt =====
-- Runs and instances of the loops over STUN attributes.
use remote_play.Prelude.{ℕ, ◌≡◌, refl, List, [], ◌∷◌, ◌++◌, arith, replicate}
use remote_play.Bits.Xor.{xor}
use remote_play.Common.Stun.{
  mapped, read16, read_address, after_attribute, attribute, typed, measured, turn, follow, scan,
}
use remote_play.Common.Stun.Safe.{IsSafe, scan-IsSafe}

-- A header of 20 bytes, an attribute of 5 bytes with its padding, and XOR-MAPPED-ADDRESS.
abbrev response : List ℕ
response =
    replicate 20 0
    ++ 0x80 ∷ 0x22 ∷ 0 ∷ 5 ∷ 1 ∷ 2 ∷ 3 ∷ 4 ∷ 5 ∷ 0 ∷ 0 ∷ 0 ∷ 0 ∷ 0x20 ∷ 0 ∷ 8 ∷ 0 ∷ 1 ∷ 0x32 ∷ 0x90
      ∷ 0xe1 ∷ 0xba ∷ 0xa4 ∷ 0x43 ∷ []

response-mapped : scan 45 response 20 ≡ mapped 4994 (192 ∷ 168 ∷ 0 ∷ 1 ∷ [])
unfolding scan follow turn measured typed read16 attribute after_attribute read_address xor
response-mapped = refl

scan-IsSafe_example : IsSafe (scan 45 response 20)
scan-IsSafe_example = scan-IsSafe 45 response 20 (omega arith) (omega arith)
