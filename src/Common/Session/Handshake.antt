-- ===== src/Common/Session/Handshake.antt =====
-- SessionManager::runClient: the loop that sends the handshake again until the network thread has the
-- host's answer. Times are readings of steady_clock in nanoseconds; the flags are what the atomics
-- hold when the loop tests them.
pub mod Backoff
pub mod Bounded
mod Tests
use remote_play.Prelude.{
  ℕ, ◌+◌, ◌-◌, ◌/◌, ◌^◌, min, List, [], ◌∷◌, Bool, true, false, not, ◌&&◌, ◌||◌, ltb, leb, ◌==◌,
  if◌then◌else◌,
}

-- The locals of the loop; `attempts` are the calls of attemptHandshake.
pub record Handshake : Type 0 where
  pub start_handshake : ℕ
  pub last_handshake_send : ℕ
  pub retry_count : ℕ  -- int
  pub relay_fallback_triggered : Bool
  pub attempts : ℕ

-- A round of the loop: what its condition reads, and the clock.
pub record Reading : Type 0 where
  pub running : Bool
  pub handshake_approved : Bool
  pub handshake_rejected : Bool
  pub now : ℕ

-- The loop has left by its condition, by the timeout, or goes on.
pub data Ending : Type 0 where
  answered : Ending
  timed_out : Ending
  waiting : Ending

-- duration_cast<seconds>(now - since).count()
abbrev pub seconds : ℕ → ℕ → ℕ
seconds since now = (now - since) / 1000000000

-- The first call of attemptHandshake, and the locals.
unfoldable pub begin : ℕ → Handshake
begin now = record {
  start_handshake = now;
  last_handshake_send = now;
  retry_count = 0;
  relay_fallback_triggered = false;
  attempts = 1;
}

-- min(5, 1 << retryCount)
unfoldable pub interval : ℕ → ℕ
interval retry_count = min 5 (2 ^ retry_count)

unfoldable pub trigger_relay : Handshake → ℕ → Handshake
trigger_relay h now =
    if leb 3 (seconds h.start_handshake now) && not h.relay_fallback_triggered
    then record h { relay_fallback_triggered = true }
    else h

-- The condition of a retransmission.
unfoldable pub is_due : Handshake → ℕ → Bool
is_due h now =
    leb (interval h.retry_count) (seconds h.last_handshake_send now)
    || (h.relay_fallback_triggered && h.retry_count == 0)

unfoldable pub retransmit : Handshake → ℕ → Handshake
retransmit h now =
    if is_due h now
    then record h {
      last_handshake_send = now;
      retry_count = h.retry_count + 1;
      attempts = h.attempts + 1;
    }
    else h

-- The body of the loop up to the test of the timeout.
unfoldable pub retry : Handshake → ℕ → Handshake
retry h now = retransmit (trigger_relay h now) now

unfoldable pub goes_on : Reading → Bool
goes_on x = x.running && (not x.handshake_approved && not x.handshake_rejected)

unfoldable pub wait : Handshake → List Reading → Handshake × Ending
wait h [] = (h, waiting)
wait h (x ∷ xs) =
    let rest = wait (retry h x.now) xs in
    if not (goes_on x)
    then (h, answered)
    else if ltb 30 (seconds h.start_handshake x.now)
    then (retry h x.now, timed_out)
    else rest
