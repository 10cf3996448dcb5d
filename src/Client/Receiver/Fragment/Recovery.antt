-- ===== src/Client/Receiver/Fragment/Recovery.antt =====
-- Forward error correction gives back the lost fragment.
use remote_play.Prelude.{
  ℕ, zero, suc, ◌+◌, ◌*◌, ◌^◌, ◌≤◌, ◌<◌, ◌≡◌, ◌≢◌, refl, sym, ap, ap₂, ◌∙◌, Bool, true, false,
  arith, ltb, ◌==◌, if◌then◌else◌, min, Bool-cases, inl, inr, ◌⊎◌, ==_of_ne, ==_refl, ==_iff,
  ltb→lt, ltb_false→le,
}
use remote_play.Bits.Xor.{xor, xor_comm, xor_assoc, xor-zero, xor-lt}
use remote_play.Client.Frame.{FrameData}
use remote_play.Common.Protocol.{FecHeader, max_udp_payload}
use remote_play.Client.Receiver.Fragment.{put, xor_bytes}

-- One write of the inner loop.
abbrev xor_byte : (ℕ → ℕ) → ℕ → ℕ → ℕ → ℕ → ℕ
xor_byte b target other k = put b (target + k) (xor 8 (b (target + k)) (b (other + k)))

-- The inner loop writes its own range only.
pub xor_bytes-out :
    (b : ℕ → ℕ) (target other k rounds p : ℕ)
    → (p < target + k) ⊎ (target + k + rounds ≤ p)
    → xor_bytes b target other k rounds p ≡ b p
unfolding xor_bytes
xor_bytes-out b target other k zero p h = refl
xor_bytes-out b target other k (suc rounds) p h =
    xor_bytes-out (xor_byte b target other k) target other (k + 1) rounds p (omega arith)
    ∙ ap (λ (c : Bool). if c then xor 8 (b (target + k)) (b (other + k)) else b p)
        (==_of_ne p (target + k) (omega arith))

-- On it, it adds the bytes of a range that lies apart.
xor_bytes-in :
    (b : ℕ → ℕ) (n target other k rounds j : ℕ)
    → (target + n ≤ other) ⊎ (other + n ≤ target)
    → k + rounds ≤ n
    → k ≤ j
    → j < k + rounds
    → xor_bytes b target other k rounds (target + j) ≡ xor 8 (b (target + j)) (b (other + j))
unfolding xor_bytes
xor_bytes-in b n target other k zero j apart fits lo hi = absurd (omega arith)
xor_bytes-in b n target other k (suc rounds) j apart fits lo hi = elim (Bool-cases (j == k)) [
  | inl same ↦
      xor_bytes-out (xor_byte b target other k) target other (k + 1) rounds (target + j)
        (inl (ground arith))
      ∙ rw ((==_iff j k).0 same, ==_refl (target + k))
  | inr later ↦
      xor_bytes-in (xor_byte b target other k) n target other (k + 1) rounds j apart (omega arith)
        (ground arith) (omega arith)
      ∙ ap₂
          (λ (c d : Bool).
            xor 8 (if c then xor 8 (b (target + k)) (b (other + k)) else b (target + j))
              (if d then xor 8 (b (target + k)) (b (other + k)) else b (other + j)))
          (==_of_ne (target + j) (target + k) (ground arith))
          (==_of_ne (other + j) (target + k) (omega arith))
]

-- What the host sent: the bytes of each fragment and how many they are.
pub record Sent : Type 0 where
  pub bytes : ℕ → ℕ → ℕ
  pub size : ℕ → ℕ

-- A fragment, filled up with zeros.
abbrev pub padded : Sent → ℕ → ℕ → ℕ
padded s i k = if ltb k (s.size i) then s.bytes i k else 0

-- The exclusive or of the `n` fragments from `i` on: what a FEC packet carries.
unfoldable pub parity_of : Sent → ℕ → ℕ → ℕ → ℕ
parity_of s i zero k = 0
parity_of s i (suc n) k = xor 8 (padded s i k) (parity_of s (i + 1) n k)

-- The same without one of them.
unfoldable pub parity_without : Sent → ℕ → ℕ → ℕ → ℕ → ℕ
parity_without s missing i zero k = 0
parity_without s missing i (suc n) k =
    let rest = parity_without s missing (i + 1) n k in
    if i == missing then rest else xor 8 (padded s i k) rest

pub parity_without-lt : (s : Sent) (m i n k : ℕ) → parity_without s m i n k < 2 ^ 8
unfolding parity_without
parity_without-lt s m i zero k = omega arith
parity_without-lt s m i (suc n) k = ground (
  arith,
  parity_without-lt s m (i + 1) n k,
  xor-lt 8 (padded s i k) (parity_without s m (i + 1) n k),
)

parity_out :
    (s : Sent) (m i n k : ℕ) → (m < i) ⊎ (i + n ≤ m) → parity_of s i n k ≡ parity_without s m i n k
unfolding parity_of parity_without
parity_out s m i zero k h = refl
parity_out s m i (suc n) k h =
    rw (==_of_ne i m (omega arith))
      (ap (xor 8 (padded s i k)) (parity_out s m (i + 1) n k (omega arith)))

pub parity_in :
    (s : Sent) (m i n k : ℕ)
    → i ≤ m
    → m < i + n
    → parity_of s i n k ≡ xor 8 (padded s m k) (parity_without s m i n k)
unfolding parity_of parity_without
parity_in s m i zero k lo hi = absurd (omega arith)
parity_in s m i (suc n) k lo hi = elim (Bool-cases (i == m)) [
  | inl same ↦
      let at : i ≡ m = (==_iff i m).0 same in
      rw same (
        ap (xor 8 (padded s i k)) (parity_out s m (i + 1) n k (inl (omega arith)))
        ∙ ap (λ z. xor 8 (padded s z k) (parity_without s m (i + 1) n k)) at)
  | inr later ↦
      let p = padded s i k in
      let q = padded s m k in
      let r = parity_without s m (i + 1) n k in
      rw later (
        ap (xor 8 p) (parity_in s m (i + 1) n k (ground arith) (omega arith))
        ∙ sym (xor_assoc 8 p q r)
        ∙ ap (λ z. xor 8 z r) (xor_comm 8 p q)
        ∙ xor_assoc 8 q p r)
]

-- A group of which the frame `f` holds every fragment but one, and the header of its FEC packet.
pub record HasOneLoss (f : FrameData) (h : FecHeader) (start missing : ℕ) (s : Sent) : Type 0 where
  pub no_wrap : start + h.fragment_count < 2 ^ 16
  pub within : start + h.fragment_count ≤ f.total_fragments
  pub mapped : f.total_fragments ≤ f.map_size
  pub small : h.data_size ≤ max_udp_payload
  pub room : missing * max_udp_payload + h.data_size ≤ f.buffer_size
  pub from : start ≤ missing
  pub to : missing < start + h.fragment_count
  pub lost : f.fragment_map missing ≡ false
  pub there :
      (i : ℕ) → start ≤ i → i < start + h.fragment_count → i ≢ missing → f.fragment_map i ≡ true
  pub sized :
      (i : ℕ)
      → start ≤ i
      → i < start + h.fragment_count
      → i ≢ missing
      → f.fragment_sizes i ≡ s.size i
  pub short : (i : ℕ) → start ≤ i → i < start + h.fragment_count → s.size i ≤ h.data_size
  pub held :
      (i k : ℕ)
      → start ≤ i
      → i < start + h.fragment_count
      → i ≢ missing
      → k < s.size i
      → f.buffer (i * max_udp_payload + k) ≡ s.bytes i k
  pub byte : (i k : ℕ) → s.bytes i k < 2 ^ 8

module _ (f : FrameData) (h : FecHeader) (start missing : ℕ) (s : Sent)
    (g : HasOneLoss f h start missing s) where
  -- The other fragments of the group are in the buffer.
  abbrev pub Holds : (ℕ → ℕ) → Type 0
  Holds b =
      (i k : ℕ)
      → start ≤ i
      → i < start + h.fragment_count
      → i ≢ missing
      → k < s.size i
      → b (i * max_udp_payload + k) ≡ s.bytes i k

  pub padded-lt : (i k : ℕ) → padded s i k < 2 ^ 8
  padded-lt i k = ground (arith, g.byte i k)

  -- One round of the outer loop: the bytes of fragment `i` are added to the target.
  unfoldable pub xor_round : (b : ℕ → ℕ) (i : ℕ) → ℕ → ℕ
  xor_round b i =
      xor_bytes b (missing * max_udp_payload) (i * max_udp_payload) 0
        (min h.data_size (f.fragment_sizes i))

  pub xor_round-at :
      (b : ℕ → ℕ) (i k : ℕ)
      → start ≤ i
      → i < start + h.fragment_count
      → i ≢ missing
      → k < h.data_size
      → b (missing * max_udp_payload + k) < 2 ^ 8
      → Holds b
      → xor_round b i (missing * max_udp_payload + k)
        ≡ xor 8 (b (missing * max_udp_payload + k)) (padded s i k)
  unfolding xor_round
  xor_round-at b i k lo hi ne small byte held = elim (Bool-cases (ltb k (s.size i))) [
    | inl inside ↦
        xor_bytes-in b max_udp_payload (missing * max_udp_payload) (i * max_udp_payload) 0 _ k
          (omega arith) (omega (arith, g.small)) (omega arith)
          (omega (arith, g.sized i lo hi ne, ltb→lt _ _ inside))
        ∙ rw (inside, held i k lo hi ne (ltb→lt _ _ inside))
    | inr beyond ↦
        xor_bytes-out b (missing * max_udp_payload) (i * max_udp_payload) 0 _ _
          (inr (omega (arith, g.sized i lo hi ne, ltb_false→le _ _ beyond)))
        ∙ rw beyond (sym (xor-zero 8 _ byte))
  ]

  pub xor_round-Holds : (b : ℕ → ℕ) (i : ℕ) → Holds b → Holds (xor_round b i)
  unfolding xor_round
  xor_round-Holds b i held j k lo hi ne inside =
      xor_bytes-out b (missing * max_udp_payload) (i * max_udp_payload) 0 _ _
        (omega (arith, g.short j lo hi, g.small))
      ∙ held j k lo hi ne inside
