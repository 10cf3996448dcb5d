-- ===== src/Common/Session/Handshake/Backoff.antt =====
-- How often the handshake is sent, and that the loop ends.
use remote_play.Prelude.{
  ℕ, ◌+◌, ◌≤◌, ◌≡◌, refl, ap, ◌∙◌, List, [], ◌∷◌, Bool, true, not, arith, ltb, leb, if◌then◌else◌,
  Bool-cases, inl, inr,
}
use remote_play.Common.Session.Handshake.{
  Handshake, Reading, Ending, answered, timed_out, waiting, seconds, begin, interval, trigger_relay,
  is_due, retransmit, retry, goes_on, wait,
}

-- Nothing was sent yet since the start, and the relay was not asked for without a retransmission.
pub record IsIdle (h : Handshake) : Type 0 where
  pub unsent : h.retry_count ≡ 0 → h.last_handshake_send ≡ h.start_handshake
  pub relayed : h.relay_fallback_triggered ≡ true → 1 ≤ h.retry_count

first_interval : interval 0 ≡ 1
unfolding interval
first_interval = refl

abbrev pub is_due_plain : Handshake → ℕ → Bool
is_due_plain h now = leb (interval h.retry_count) (seconds h.last_handshake_send now)

due-plain :
    (h : Handshake) (now : ℕ) → IsIdle h → is_due (trigger_relay h now) now ≡ is_due_plain h now
unfolding is_due trigger_relay
due-plain h now idle = ground (arith, idle.unsent, idle.relayed, first_interval, ap interval)

-- What a round does, in terms of the plain backoff.
pub retry-plain :
    (h : Handshake) (now : ℕ)
    → IsIdle h
    → let h' = retry h now in
      let due = is_due_plain h now in
      (h'.start_handshake ≡ h.start_handshake)
      × (h'.last_handshake_send ≡ (if due then now else h.last_handshake_send))
      × (h'.retry_count ≡ (if due then h.retry_count + 1 else h.retry_count))
      × (h'.attempts ≡ (if due then h.attempts + 1 else h.attempts))
unfolding retry retransmit trigger_relay
retry-plain h now idle = ground (arith, due-plain h now idle)

pub retry-IsIdle : (h : Handshake) (now : ℕ) → IsIdle h → IsIdle (retry h now)
unfolding retry retransmit trigger_relay
retry-IsIdle h now idle =
    ground (arith, due-plain h now idle, idle.unsent, idle.relayed, first_interval, ap interval)

pub begin-IsIdle : (t : ℕ) → IsIdle (begin t)
unfolding begin
begin-IsIdle t = ground arith

-- The backoff without the relay: the count of retransmissions and how the loop ends.
pub wait_plain : ℕ → ℕ → ℕ → List Reading → ℕ × Ending
wait_plain start last retry_count [] = (retry_count, waiting)
wait_plain start last retry_count (x ∷ xs) =
    let due = leb (interval retry_count) (seconds last x.now) in
    let last' = if due then x.now else last in
    let retry_count' = if due then retry_count + 1 else retry_count in
    let rest = wait_plain start last' retry_count' xs in
    if not (goes_on x)
    then (retry_count, answered)
    else if ltb 30 (seconds start x.now)
    then (retry_count', timed_out)
    else rest

wait_plain-agree :
    {a a' b b' c c' : ℕ} (xs : List Reading)
    → a ≡ a'
    → b ≡ b'
    → c ≡ c'
    → wait_plain a b c xs ≡ wait_plain a' b' c' xs
wait_plain-agree xs h g f = cc

wait-plain :
    (h : Handshake) (xs : List Reading)
    → IsIdle h
    → let (h', ending) = wait h xs in
      (h'.retry_count, ending) ≡ wait_plain h.start_handshake h.last_handshake_send h.retry_count xs
unfolding wait wait_plain
wait-plain h [] idle = refl
wait-plain h (x ∷ xs) idle =
    let (start, last, count, attempts) = retry-plain h x.now idle in
    elim (Bool-cases (not (goes_on x))) [
      | inl left ↦ rw left refl
      | inr stays ↦ rw stays (elim (Bool-cases (ltb 30 (seconds h.start_handshake x.now))) [
        | inl late ↦ rw late (ap (λ n. (n, timed_out)) count)
        | inr early ↦ rw early (
            wait-plain (retry h x.now) xs (retry-IsIdle h x.now idle)
            ∙ wait_plain-agree xs start last count)
      ])
    ]

-- Whatever the loop reads, it retransmits as often, and ends in the same way, as the backoff alone: the
-- fallback to the relay has no part in it.
pub wait-backoff :
    (t : ℕ) (xs : List Reading)
    → let (h, ending) = wait (begin t) xs in (h.retry_count, ending) ≡ wait_plain t t 0 xs
unfolding begin
wait-backoff t xs = wait-plain (begin t) xs (begin-IsIdle t)
