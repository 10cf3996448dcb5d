-- ===== src/Client/Receiver/Fragment/Rebuild.antt =====
-- TryRecover on a group with one loss.
use remote_play.Prelude.{
  ℕ, zero, suc, ◌+◌, ◌-◌, ◌*◌, ◌^◌, ◌≤◌, ◌<◌, ◌≡◌, ◌≢◌, refl, sym, ap, ◌∙◌, true, false, ◌||◌,
  arith, ltb, leb, ◌==◌, u16, min, Bool-cases, inl, inr, ◌⊎◌, ==_refl, ==_iff, ==_false→ne,
}
use remote_play.Bits.Xor.{xor, xor_assoc, xor_self, xor-zero, xor-lt}
use remote_play.Client.Frame.{FrameData}
use remote_play.Common.Protocol.{FecHeader, max_udp_payload}
use remote_play.Client.Receiver.Fragment.{
  copy, find_missing, xor_bytes, xor_others, rebuild, mark_complete, recover,
}
use remote_play.Client.Receiver.Fragment.Recovery.{
  Sent, padded, parity_of, parity_without, parity_in, HasOneLoss, Holds, padded-lt, xor_round,
  xor_round-at, xor_round-Holds, xor_bytes-out,
}

buffer-mark_complete : (f : FrameData) (p : ℕ) → (mark_complete f).buffer p ≡ f.buffer p
unfolding mark_complete
buffer-mark_complete f p = ground arith

map-mark_complete : (f : FrameData) (i : ℕ) → (mark_complete f).fragment_map i ≡ f.fragment_map i
unfolding mark_complete
map-mark_complete f i = ground arith

module _ (f : FrameData) (h : FecHeader) (start missing : ℕ) (s : Sent)
    (g : HasOneLoss f h start missing s) where
  word : (i : ℕ) → i < h.fragment_count → u16 (start + i) ≡ start + i
  word i lt = omega (arith, g.no_wrap)

  -- The outer loop adds all the other fragments to the target.
  xor_others-at :
      (n i idx : ℕ) (b : ℕ → ℕ) (k : ℕ)
      → idx ≡ start + i
      → i + n ≤ h.fragment_count
      → k < h.data_size
      → b (missing * max_udp_payload + k) < 2 ^ 8
      → Holds f h start missing s g b
      → xor_others f h start missing i n b (missing * max_udp_payload + k)
        ≡ xor 8 (b (missing * max_udp_payload + k)) (parity_without s missing idx n k)
  unfolding xor_others parity_without xor_round
  xor_others-at zero i idx b k e fits small byte held = sym (xor-zero 8 _ byte)
  xor_others-at (suc n) i idx b k e fits small byte held =
      let w : u16 (start + i) ≡ idx = word i (omega arith) ∙ sym e in
      elim (Bool-cases (idx == missing)) [
        | inl same ↦
            rw (w, same)
              (xor_others-at n (i + 1) (idx + 1) b k (omega arith) (omega arith) small byte held)
        | inr other ↦
            let ne : idx ≢ missing = ==_false→ne _ _ other in
            let inside : leb f.total_fragments idx ≡ false = ground (arith, g.within) in
            let added =
              xor_round-at f h start missing s g b idx k (omega arith) (omega arith) ne small byte
                held in
            rw (w, other, inside)
              (xor_others-at n (i + 1) (idx + 1) (xor_round f h start missing s g b idx) k
                  (omega arith) (omega arith) small (rw added (xor-lt 8 _ _))
                  (xor_round-Holds f h start missing s g b idx held)
                ∙ ap (λ z. xor 8 z (parity_without s missing (idx + 1) n k)) added
                ∙ xor_assoc 8 (b (missing * max_udp_payload + k)) (padded s idx k) _)
      ]

  -- It writes the target only.
  xor_others-out :
      (n i : ℕ) (b : ℕ → ℕ) (p : ℕ)
      → (p < missing * max_udp_payload) ⊎ (missing * max_udp_payload + h.data_size ≤ p)
      → xor_others f h start missing i n b p ≡ b p
  unfolding xor_others
  xor_others-out zero i b p out = refl
  xor_others-out (suc n) i b p out =
      let idx = u16 (start + i) in
      let added =
        xor_bytes b (missing * max_udp_payload) (idx * max_udp_payload) 0
          (min h.data_size (f.fragment_sizes idx)) in
      elim (Bool-cases (idx == missing || leb f.total_fragments idx)) [
        | inl skip ↦ rw skip (xor_others-out n (i + 1) b p out)
        | inr take ↦ rw take (
            xor_others-out n (i + 1) added p out
            ∙ xor_bytes-out b (missing * max_udp_payload) (idx * max_udp_payload) 0 _ p
                (omega arith))
      ]

  -- The search finds the one loss.
  find_missing-after :
      (n i index : ℕ)
      → missing < start + i
      → i + n ≤ h.fragment_count
      → find_missing f start i n 1 index ≡ (1, index)
  unfolding find_missing
  find_missing-after zero i index past fits = refl
  find_missing-after (suc n) i index past fits =
      let w = word i (omega arith) in
      let is_there = g.there (start + i) (omega arith) (omega arith) (omega arith) in
      let go : (leb f.total_fragments (start + i) || leb f.map_size (start + i)) ≡ false =
        ground (arith, g.within, g.mapped) in
      rw (w, go, is_there) (find_missing-after n (i + 1) index (omega arith) (omega arith))

  find_missing-before :
      (n i index : ℕ)
      → start + i ≤ missing
      → i + n ≡ h.fragment_count
      → find_missing f start i n 0 index ≡ (1, missing)
  unfolding find_missing
  find_missing-before zero i index before fits = absurd (omega (arith, g.to))
  find_missing-before (suc n) i index before fits =
      let w = word i (omega arith) in
      let go : (leb f.total_fragments (start + i) || leb f.map_size (start + i)) ≡ false =
        ground (arith, g.within, g.mapped) in
      elim (Bool-cases (start + i == missing)) [
        | inl same ↦
            let at : start + i ≡ missing = (==_iff _ _).0 same in
            rw (w, go, at, g.lost)
              (find_missing-after n (i + 1) missing (omega arith) (omega arith))
        | inr earlier ↦
            let is_there =
              g.there (start + i) (omega arith) (omega arith) (==_false→ne _ _ earlier) in
            rw (w, go, is_there) (find_missing-before n (i + 1) index (ground arith) (omega arith))
      ]

  module _ (parity : ℕ → ℕ)
      (sent : (k : ℕ) → k < h.data_size → parity k ≡ parity_of s start h.fragment_count k) where
    -- The buffer after the copy of the FEC payload.
    start_buffer : ℕ → ℕ
    start_buffer = copy f.buffer (missing * max_udp_payload) parity h.data_size

    start_buffer-at :
        (k : ℕ) → k < h.data_size → start_buffer (missing * max_udp_payload + k) ≡ parity k
    unfolding start_buffer
    start_buffer-at k small =
        let shift : missing * max_udp_payload + k - missing * max_udp_payload ≡ k = omega arith in
        ground (arith, ap parity shift)

    start_buffer-out :
        (p : ℕ)
        → (p < missing * max_udp_payload) ⊎ (missing * max_udp_payload + h.data_size ≤ p)
        → start_buffer p ≡ f.buffer p
    unfolding start_buffer
    start_buffer-out p out = ground arith

    start_buffer-Holds : Holds f h start missing s g start_buffer
    start_buffer-Holds i k lo hi ne inside =
        start_buffer-out (i * max_udp_payload + k) (omega (arith, g.short i lo hi, g.small))
        ∙ g.held i k lo hi ne inside

    recovered_bytes :
        (k : ℕ)
        → k < h.data_size
        → xor_others f h start missing 0 h.fragment_count start_buffer
            (missing * max_udp_payload + k)
          ≡ padded s missing k
    recovered_bytes k small =
        let rest = parity_without s missing start h.fragment_count k in
        let pad = padded s missing k in
        let first : start_buffer (missing * max_udp_payload + k) ≡ xor 8 pad rest =
          start_buffer-at k small
          ∙ sent k small
          ∙ parity_in s missing start h.fragment_count k g.from g.to in
        xor_others-at h.fragment_count 0 start start_buffer k (omega arith) (omega arith) small
          (rw first (xor-lt 8 pad rest)) start_buffer-Holds
        ∙ ap (λ z. xor 8 z rest) first
        ∙ xor_assoc 8 pad rest rest
        ∙ ap (xor 8 pad) (xor_self 8 rest)
        ∙ xor-zero 8 pad (padded-lt f h start missing s g missing k)

    -- Where a FEC packet carries the exclusive or of a group of fragments, and the frame holds every
    -- fragment of the group but one, recovery puts the lost fragment, filled up with zeros to the
    -- size of the FEC payload, into its place of the buffer, marks it as there, and leaves every byte
    -- outside this place as it was.
    pub recover-restores :
        let f' = recover f h parity start in
        (f'.fragment_map missing ≡ true)
        × ((k : ℕ)
            → k < h.data_size
            → f'.buffer (missing * max_udp_payload + k) ≡ padded s missing k)
        × ((p : ℕ)
            → (p < missing * max_udp_payload) ⊎ (missing * max_udp_payload + h.data_size ≤ p)
            → f'.buffer p ≡ f.buffer p)
    unfolding recover rebuild start_buffer
    recover-restores =
        let found =
          find_missing-before h.fragment_count 0 0 (omega (arith, g.from)) (omega arith) in
        let roomy : ltb f.buffer_size (missing * max_udp_payload + h.data_size) ≡ false =
          ground (arith, g.room) in
        rw (found, roomy)
          (
            map-mark_complete _ missing ∙ rw (==_refl missing),
            λ k small. buffer-mark_complete _ _ ∙ recovered_bytes k small,
            λ p out.
                buffer-mark_complete _ p
                ∙ xor_others-out h.fragment_count 0 start_buffer p out
                ∙ start_buffer-out p out,
          )
