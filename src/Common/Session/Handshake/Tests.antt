-- ===== src/Common/Session/Handshake/Tests.antt =====
-- Runs and instances of the handshake's loop.
use remote_play.Prelude.{
  ℕ, zero, suc, ◌+◌, ◌≤◌, ◌≡◌, refl, ap, List, [], ◌∷◌, true, false, arith, length,
}
use remote_play.Common.Session.Handshake.{
  Reading, begin, interval, trigger_relay, is_due, retransmit, retry, goes_on, wait,
}
use remote_play.Common.Session.Handshake.Backoff.{wait_plain, wait-backoff}
use remote_play.Common.Session.Handshake.Bounded.{wait-bounded, IsSlept}

-- A round in which nothing has come, and one in which the host has approved.
abbrev silent : ℕ → Reading
silent now = record {
  running = true;
  handshake_approved = false;
  handshake_rejected = false;
  now = now;
}

abbrev approved : ℕ → Reading
approved now = record (silent now) { handshake_approved = true }

-- A round each second and a half, and the answer after the fourth.
abbrev answer : List Reading
answer =
    silent 1500000000
    ∷ silent 3000000000
    ∷ silent 4500000000
    ∷ silent 6000000000
    ∷ approved 7500000000
    ∷ []

answer-attempts : (wait (begin 0) answer).0.attempts ≡ 3
unfolding wait begin retry retransmit trigger_relay is_due interval goes_on
answer-attempts = refl

wait-backoff_example :
    let (h, ending) = wait (begin 0) answer in (h.retry_count, ending) ≡ wait_plain 0 0 0 answer
wait-backoff_example = wait-backoff 0 answer

wait-bounded_example : (wait (begin 0) answer).0.attempts ≤ 9
wait-bounded_example = wait-bounded 0 answer (omega arith)

-- `n` rounds of 100 ms behind `t`.
abbrev silence : ℕ → ℕ → List Reading
silence zero t = []
silence (suc n) t = silent (t + 100000000) ∷ silence n (t + 100000000)

silence-IsSlept : (n t : ℕ) → IsSlept t (silence n t)
silence-IsSlept zero t = tt
silence-IsSlept (suc n) t = (omega arith, silence-IsSlept n (t + 100000000))

length-silence : (n t : ℕ) → length (silence n t) ≡ n
length-silence zero t = refl
length-silence (suc n) t = ap suc (length-silence n (t + 100000000))
