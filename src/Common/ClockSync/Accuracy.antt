-- ===== src/Common/ClockSync/Accuracy.antt =====
-- How far the estimate is from the true offset of the clocks.
use remote_play.Prelude.{ℕ, ◌+◌, ◌*◌, ◌/◌, ◌^◌, ◌<◌, ◌≡◌, refl, arith, ◌∙◌, sub64, ap}
use remote_play.Prelude.Int.{
  ℤ, pos, ◌+ℤ◌, ◌-ℤ◌, ◌≤ℤ◌, pos_part, neg_part, s64, u64_of, half, int_laws, s64-sub64, s64-u64_of,
  eq_of_parts, half_parts, parts_apart, +ℤ_le,
}
use remote_play.Common.ClockSync.{
  ClockSync, process_response, get_host_time, get_client_time, clamp_zero,
}

-- A probe leaves the client at `t0`, travels for `out`, rests at the host for `rest` and travels back
-- for `back`. The host's clock is ahead of the client's by `ahead`.
pub record Probe : Type 0 where
  pub t0 : ℕ
  pub out : ℕ
  pub rest : ℕ
  pub back : ℕ
  pub ahead : ℤ

abbrev pub t1 : Probe → ℕ
t1 p = u64_of (pos (p.t0 + p.out) +ℤ p.ahead)

abbrev pub t2 : Probe → ℕ
t2 p = u64_of (pos (p.t0 + p.out + p.rest) +ℤ p.ahead)

abbrev pub t3 : Probe → ℕ
t3 p = u64_of (pos (p.t0 + p.out + p.rest + p.back))

abbrev pub measured : ClockSync → Probe → ClockSync
measured c p = process_response c (u64_of (pos p.t0)) (t1 p) (t2 p) (t3 p)

-- Delays and offset of less than 2 ^ 60 microseconds.
pub record IsSmall (p : Probe) : Type 0 where
  pub out_small : p.out < 2 ^ 60
  pub rest_small : p.rest < 2 ^ 60
  pub back_small : p.back < 2 ^ 60
  pub ahead_small : pos_part p.ahead < 2 ^ 60
  pub behind_small : neg_part p.ahead < 2 ^ 60

module _ (p : Probe) (s : IsSmall p) where
  first_leg : s64 (sub64 (t1 p) (u64_of (pos p.t0))) ≡ pos p.out +ℤ p.ahead
  first_leg =
      s64-sub64 (pos (p.t0 + p.out) +ℤ p.ahead) (pos p.t0) (omega int_laws) (omega int_laws)
      ∙ eq_of_parts _ _ (omega int_laws)

  second_leg : s64 (sub64 (t2 p) (t3 p)) ≡ p.ahead -ℤ pos p.back
  second_leg =
      s64-sub64 (pos (p.t0 + p.out + p.rest) +ℤ p.ahead) (pos (p.t0 + p.out + p.rest + p.back))
        (omega int_laws) (omega int_laws)
      ∙ eq_of_parts _ _ (omega int_laws)

  at_host : s64 (sub64 (t2 p) (t1 p)) ≡ pos p.rest
  at_host =
      s64-sub64 (pos (p.t0 + p.out + p.rest) +ℤ p.ahead) (pos (p.t0 + p.out) +ℤ p.ahead)
        (omega int_laws) (omega int_laws)
      ∙ eq_of_parts _ _ (omega int_laws)

  at_client : s64 (sub64 (t3 p) (u64_of (pos p.t0))) ≡ pos (p.out + p.rest + p.back)
  at_client =
      s64-sub64 (pos (p.t0 + p.out + p.rest + p.back)) (pos p.t0) (omega int_laws) (omega int_laws)
      ∙ eq_of_parts _ _ (omega int_laws)

  -- What the two formulas of the source come to.
  rtt_measured :
      clamp_zero (s64 (sub64 (t3 p) (u64_of (pos p.t0))) -ℤ s64 (sub64 (t2 p) (t1 p)))
      ≡ p.out + p.back
  rtt_measured =
      rw (at_client, at_host)
        (ap clamp_zero (
            eq_of_parts (pos (p.out + p.rest + p.back) -ℤ pos p.rest) (pos (p.out + p.back))
              (omega int_laws))
          ∙ omega arith)

  sum_measured : ℤ
  sum_measured = pos p.out +ℤ p.ahead +ℤ (p.ahead -ℤ pos p.back)

  offset_measured :
      half (s64 (sub64 (t1 p) (u64_of (pos p.t0))) +ℤ s64 (sub64 (t2 p) (t3 p))) ≡ half sum_measured
  unfolding sum_measured
  offset_measured = rw (first_leg, second_leg)

  sum_parts :
      pos_part sum_measured + 2 * neg_part p.ahead + p.back
      ≡ neg_part sum_measured + 2 * pos_part p.ahead + p.out
  unfolding sum_measured
  sum_parts = omega int_laws

  -- The measured round trip time is the time that the probe spent on the way, whatever the offset of
  -- the clocks is; the measured offset is the true one up to half of that time, rounded up, and is
  -- exact where both ways take equally long. Delays and offset are below 2 ^ 60 microseconds.
  pub process_response-accurate :
      (c : ClockSync)
      → let m = measured c p in
        (m.rtt ≡ p.out + p.back)
        × (m.clock_offset ≤ℤ p.ahead +ℤ pos ((m.rtt + 1) / 2))
        × (p.ahead ≤ℤ m.clock_offset +ℤ pos ((m.rtt + 1) / 2))
        × (p.out ≡ p.back → m.clock_offset ≡ p.ahead)
  unfolding process_response
  process_response-accurate c =
      let e = rtt_measured in
      let o = half_parts sum_measured in
      let apart = parts_apart sum_measured in
      let sum = sum_parts in
      rw (e, offset_measured)
        (
          refl,
          omega (int_laws, o, apart, sum, parts_apart p.ahead),
          omega (int_laws, o, apart, sum, parts_apart p.ahead),
          λ even. eq_of_parts _ _ (omega (int_laws, o, apart, sum, parts_apart p.ahead)),
        )

-- A client time below 2 ^ 62 that is carried to the host's clock and back is itself again, for every
-- offset smaller than 2 ^ 62.
pub client_time-host_time :
    (c : ClockSync) (t : ℕ)
    → t < 2 ^ 62
    → pos_part c.clock_offset < 2 ^ 62
    → neg_part c.clock_offset < 2 ^ 62
    → get_client_time c (get_host_time c t) ≡ t
unfolding get_client_time get_host_time
client_time-host_time c t h k l =
    let at : s64 t ≡ pos t = ground arith in
    let parts = +ℤ_le (pos t) c.clock_offset in
    let word : s64 (u64_of (pos t +ℤ c.clock_offset)) ≡ pos t +ℤ c.clock_offset =
      s64-u64_of (pos t +ℤ c.clock_offset) (omega (arith, parts)) (omega (arith, parts)) in
    rw (at, word)
      (ap u64_of (eq_of_parts (pos t +ℤ c.clock_offset -ℤ c.clock_offset) (pos t) (omega int_laws))
        ∙ omega arith)
