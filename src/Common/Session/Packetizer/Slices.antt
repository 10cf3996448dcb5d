-- ===== src/Common/Session/Packetizer/Slices.antt =====
-- A frame of the client that holds fragments of an encoded packet.
use remote_play.Prelude.{
  ℕ, zero, suc, ◌+◌, ◌*◌, ◌-◌, ◌/◌, ◌≤◌, ◌<◌, ◌≡◌, ◌≢◌, refl, sym, ap, ◌∙◌, Bool, true, false,
  arith, length, get_or, leb, ◌==◌, if◌then◌else◌, ==_iff, ==_of_ne, ==_false→ne, Bool-cases, inl,
  inr,
}
use remote_play.Client.Frame.{FrameData}
use remote_play.Client.Receiver.Fragment.{copy, put, open_frame, store_fragment}
use remote_play.Client.Receiver.Fragment.Count.{count_set}
use remote_play.Common.Protocol.{max_udp_payload}
use remote_play.Common.Session.Packetizer.{
  EncodedPacket, fragment_header, total_fragments, slice_size,
}

-- What every frame's buffer has room for.
abbrev pub frame_room : ℕ
frame_room = 1024 * 1024

-- A payload whose first bytes are the packet's, from the fragment's offset on.
abbrev pub IsSliceOf : EncodedPacket → ℕ → (ℕ → ℕ) → Type 0
IsSliceOf e i payload =
    (k : ℕ) → k < slice_size e i → payload k ≡ get_or e.bytes (i * max_udp_payload + k) 0

-- The fragments that the frame has marked are the packet's.
pub record Holds (e : EncodedPacket) (f : FrameData) : Type 0 where
  pub total : f.total_fragments ≡ total_fragments e
  pub room : frame_room ≤ f.buffer_size
  pub content :
      (i : ℕ) → f.fragment_map i ≡ true → IsSliceOf e i (λ k. f.buffer (i * max_udp_payload + k))
  pub last :
      (i : ℕ) → i + 1 ≡ total_fragments e → f.fragment_map i ≡ true → f.total_size ≡ length e.bytes

pub count_set-all : (m : ℕ → Bool) (n : ℕ) → ((i : ℕ) → i < n → m i ≡ true) → count_set m n ≡ n
unfolding count_set
count_set-all m zero all = refl
count_set-all m (suc n) all =
    rw (all n (omega arith)) (omega (arith, count_set-all m n (λ i h. all i (omega arith))))

put_elsewhere : (m : ℕ → Bool) (i j : ℕ) → (j == i) ≡ false → put m i true j ≡ true → m j ≡ true
put_elsewhere m i j there marked = rw⁻¹ (ap (λ b. if b then true else m j) there) marked

module _ (e : EncodedPacket) (small : length e.bytes ≤ frame_room) where
  pub total_fragments-exact : total_fragments e ≡ (length e.bytes + 1299) / 1300
  unfolding total_fragments
  total_fragments-exact = omega arith

  pub slice-within : (i : ℕ) → i < total_fragments e → (i * 1300 + slice_size e i ≤ length e.bytes)
  slice-within i h = omega (arith, total_fragments-exact)

  pub slice-last : (i : ℕ) → i + 1 ≡ total_fragments e → i * 1300 + slice_size e i ≡ length e.bytes
  slice-last i h = omega (arith, total_fragments-exact)

  not_true : ¬ (false ≡ true)
  not_true eq = ground arith

  -- A new frame for one of the packet's fragments holds none of them.
  pub open_frame-Holds :
      (frame_id i packet_sequence now : ℕ) (f : FrameData)
      → frame_room ≤ f.buffer_size
      → Holds e (open_frame (fragment_header e frame_id i packet_sequence) now f)
  unfolding open_frame fragment_header
  open_frame-Holds frame_id i packet_sequence now f room = record {
    total = refl;
    room = room;
    content = λ j marked. absurd (not_true marked);
    last = λ j eq marked. absurd (not_true marked);
  }

  -- Outside of the fragment that is copied the buffer stays.
  copied-elsewhere :
      (buffer payload : ℕ → ℕ) (i j k : ℕ)
      → i < total_fragments e
      → j ≢ i
      → k < slice_size e j
      → copy buffer (i * 1300) payload (slice_size e i) (j * 1300 + k) ≡ buffer (j * 1300 + k)
  copied-elsewhere buffer payload i j k hi ne hk = ground arith

  copied-here :
      (buffer payload : ℕ → ℕ) (i k : ℕ)
      → k < slice_size e i
      → copy buffer (i * 1300) payload (slice_size e i) (i * 1300 + k) ≡ payload k
  copied-here buffer payload i k hk =
      ground (arith, ap payload {x = i * 1300 + k - i * 1300} {y = k} (omega arith))

  -- The copy of a fragment that the frame wants: it is marked, the others stay, and what is held is
  -- the packet's.
  pub store_fragment-Holds :
      (frame_id i packet_sequence : ℕ) (payload : ℕ → ℕ) (f : FrameData)
      → i < total_fragments e
      → IsSliceOf e i payload
      → Holds e f
      → let f' = store_fragment (fragment_header e frame_id i packet_sequence) payload f in
        Holds e f' × (f'.fragment_map ≡ put f.fragment_map i true) × (f'.frame_id ≡ f.frame_id)
  unfolding store_fragment fragment_header
  store_fragment-Holds frame_id i packet_sequence payload f hi sliced held =
      let size = slice_size e i in
      let fits : leb (i * 1300 + size) f.buffer_size ≡ true =
        ground (arith, slice-within i hi, held.room) in
      rw fits (
        record {
          total = held.total;
          room = held.room;
          content = λ j marked. elim (Bool-cases (j == i)) [
            | inl here ↦
                rw ((==_iff j i).0 here) (λ k hk. copied-here f.buffer payload i k hk ∙ sliced k hk)
            | inr there ↦ λ k hk.
                copied-elsewhere f.buffer payload i j k hi (==_false→ne j i there) hk
                ∙ held.content j (put_elsewhere f.fragment_map i j there marked) k hk
          ];
          last = λ j eq marked. elim (Bool-cases (j == i)) [
            | inl here ↦
                let at : j ≡ i = (==_iff j i).0 here in
                rw ((==_iff (i + 1) (total_fragments e)).1 (ap (λ n. n + 1) (sym at) ∙ eq))
                  (slice-last i (ap (λ n. n + 1) (sym at) ∙ eq))
            | inr there ↦
                rw
                  (==_of_ne (i + 1) (total_fragments e)
                    (λ eq'. ==_false→ne j i there (omega (arith, eq, eq'))))
                  (held.last j eq (put_elsewhere f.fragment_map i j there marked))
          ];
        },
        refl,
        refl,
      )
