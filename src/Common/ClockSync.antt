-- ===== src/Common/ClockSync.antt =====
-- cpp/common/clock_sync.hpp: the client's estimate of the host's clock.
-- Signed overflow is undefined in the source; the integers here do not overflow, and the theorems'
-- bounds keep every signed value within 64 bits.
pub mod Accuracy
use remote_play.Prelude.{ℕ, Bool, true, false, ltb, if◌then◌else◌, sub64}
use remote_play.Prelude.Int.{ℤ, pos, negsuc, ◌+ℤ◌, ◌-ℤ◌, s64, u64_of, half, pos_part}

-- m_clockOffset, m_rtt and m_synchronized
pub record ClockSync : Type 0 where
  pub clock_offset : ℤ
  pub rtt : ℕ
  pub synchronized : Bool

unfoldable pub init : ClockSync
init = record { clock_offset = pos 0; rtt = 0; synchronized = false }

-- std::max((int64_t)0, a), as a `uint64_t`
abbrev pub clamp_zero : ℤ → ℕ
clamp_zero (pos n) = u64_of (pos n)
clamp_zero (negsuc n) = 0

pub process_response : ClockSync → ℕ → ℕ → ℕ → ℕ → ClockSync
process_response c t0 t1 t2 t3 = record {
  clock_offset = half (s64 (sub64 t1 t0) +ℤ s64 (sub64 t2 t3));
  rtt = clamp_zero (s64 (sub64 t3 t0) -ℤ s64 (sub64 t2 t1));
  synchronized = true;
}

pub get_host_time : ClockSync → ℕ → ℕ
get_host_time c client_time = u64_of (s64 client_time +ℤ c.clock_offset)

pub get_client_time : ClockSync → ℕ → ℕ
get_client_time c host_time = u64_of (s64 host_time -ℤ c.clock_offset)
