-- ===== src/Common/Session/Handshake/Bounded.antt =====
-- How many handshakes are sent, and that the loop ends.
use remote_play.Prelude.{
  ℕ, zero, suc, ◌+◌, ◌-◌, ◌*◌, ◌≤◌, ◌<◌, ◌≡◌, refl, ap, ◌∙◌, List, [], ◌∷◌, Bool, true, false, not,
  arith, ltb, leb, ◌==◌, ==_iff, ==_false→ne, leb→le, leb_false→lt, ltb_false→le, if◌then◌else◌,
  length, Bool-cases, inl, inr,
}
use remote_play.Common.Session.Handshake.{
  Handshake, Reading, Ending, answered, timed_out, waiting, seconds, begin, interval, retry,
  goes_on, wait,
}
use remote_play.Common.Session.Handshake.Backoff.{
  IsIdle, is_due_plain, retry-plain, retry-IsIdle, begin-IsIdle,
}

-- The seconds that `n` retransmissions take at least.
waited : ℕ → ℕ
waited zero = 0
waited (suc n) = waited n + interval n

waited-grows : (n : ℕ) → 8 ≤ n → 32 ≤ waited n
unfolding waited interval
waited-grows zero h = absurd (omega arith)
waited-grows (suc n) h = elim (Bool-cases (n == 7)) [
  | inl start ↦ rw ((==_iff n 7).0 start) (omega arith)
  | inr later ↦ omega (arith, waited-grows n (omega (arith, h, ==_false→ne n 7 later)))
]

waited-few : (n : ℕ) → waited n ≤ 30 → n ≤ 7
waited-few n h = elim (Bool-cases (leb 8 n)) [
  | inl many ↦ absurd (omega (arith, h, waited-grows n (leb→le 8 n many)))
  | inr few ↦ omega (arith, leb_false→lt 8 n few)
]

-- Between two rounds: the retransmissions kept their distances, and the last came in time.
record IsPaced (h : Handshake) (t : ℕ) : Type 0 where
  pub idle : IsIdle h
  pub past : h.last_handshake_send ≤ t
  pub ordered : h.start_handshake ≤ h.last_handshake_send
  pub spaced : waited h.retry_count * 1000000000 ≤ h.last_handshake_send - h.start_handshake
  pub timely : h.last_handshake_send - h.start_handshake < 31000000000
  pub counted : h.attempts ≡ h.retry_count + 1

-- The clock does not go back.
abbrev pub IsMonotone : ℕ → List Reading → Type 0
IsMonotone t [] = Unit {0}
IsMonotone t (x ∷ xs) = (t ≤ x.now) × IsMonotone x.now xs

paced-few : (h : Handshake) (t : ℕ) → IsPaced h t → h.attempts ≤ 8
paced-few h t p = omega (arith, waited-few h.retry_count, p.spaced, p.timely, p.counted)

retry-IsPaced :
    (h : Handshake) (t now : ℕ)
    → IsPaced h t
    → t ≤ now
    → seconds h.start_handshake now ≤ 30
    → IsPaced (retry h now) now
unfolding waited
retry-IsPaced h t now p later soon =
    let (start, last, count, attempts) = retry-plain h now p.idle in
    let grown : waited (h.retry_count + 1) ≡ waited h.retry_count + interval h.retry_count =
      ap waited {y = suc h.retry_count} (omega arith) in
    elim (Bool-cases (is_due_plain h now)) [
      | inl due ↦
          let l = last ∙ ap (λ b. if b then now else h.last_handshake_send) due in
          let c = count ∙ ap (λ b. if b then h.retry_count + 1 else h.retry_count) due in
          let a = attempts ∙ ap (λ b. if b then h.attempts + 1 else h.attempts) due in
          let w = ap waited c ∙ grown in
          record {
            idle = retry-IsIdle h now p.idle;
            past = omega (arith, l, p.past, later);
            ordered = omega (arith, l, start, p.ordered, p.past, later);
            spaced = omega (
              arith,
              w,
              l,
              start,
              p.spaced,
              p.past,
              p.ordered,
              later,
              leb→le (interval h.retry_count) (seconds h.last_handshake_send now) due,
            );
            timely = omega (arith, l, start, soon, p.timely);
            counted = omega (arith, a, c, p.counted);
          }
      | inr early ↦
          let l = last ∙ ap (λ b. if b then now else h.last_handshake_send) early in
          let c = count ∙ ap (λ b. if b then h.retry_count + 1 else h.retry_count) early in
          let a = attempts ∙ ap (λ b. if b then h.attempts + 1 else h.attempts) early in
          let w = ap waited c in
          record {
            idle = retry-IsIdle h now p.idle;
            past = omega (arith, l, p.past, later);
            ordered = omega (arith, l, start, p.ordered, p.past, later);
            spaced = omega (arith, w, l, start, p.spaced, p.past, p.ordered, later);
            timely = omega (arith, l, start, soon, p.timely);
            counted = omega (arith, a, c, p.counted);
          }
    ]

wait-few :
    (h : Handshake) (t : ℕ) (xs : List Reading)
    → IsPaced h t
    → IsMonotone t xs
    → (wait h xs).0.attempts ≤ 9
unfolding wait
wait-few h t [] p m = omega (arith, paced-few h t p)
wait-few h t (x ∷ xs) p m =
    let few = paced-few h t p in
    elim (Bool-cases (not (goes_on x))) [
      | inl left ↦ rw left (omega (arith, few))
      | inr stays ↦ rw stays (elim (Bool-cases (ltb 30 (seconds h.start_handshake x.now))) [
        | inl late ↦ rw late (ground (arith, few, (retry-plain h x.now p.idle).3))
        | inr early ↦ rw early (
            wait-few (retry h x.now) x.now xs
              (retry-IsPaced h t x.now p m.0
                (ltb_false→le 30 (seconds h.start_handshake x.now) early))
              m.1)
      ])
    ]

begin-IsPaced : (t : ℕ) → IsPaced (begin t) t
unfolding begin waited
begin-IsPaced t = record {
  idle = begin-IsIdle t;
  past = omega arith;
  ordered = omega arith;
  spaced = omega arith;
  timely = omega arith;
  counted = omega arith;
}

-- Whatever the loop reads of the host's answer, on a clock that does not go back the handshake is sent
-- nine times at most.
pub wait-bounded :
    (t : ℕ) (xs : List Reading) → IsMonotone t xs → (wait (begin t) xs).0.attempts ≤ 9
wait-bounded t xs m = wait-few (begin t) t xs (begin-IsPaced t) m

-- Between two rounds the thread sleeps for 100 ms or more.
abbrev pub IsSlept : ℕ → List Reading → Type 0
IsSlept t [] = Unit {0}
IsSlept t (x ∷ xs) = (t + 100000000 ≤ x.now) × IsSlept x.now xs

abbrev pub has_ended : Ending → Bool
has_ended waiting = false
has_ended answered = true
has_ended timed_out = true

wait-progress :
    (h : Handshake) (t : ℕ) (xs : List Reading)
    → IsIdle h
    → h.start_handshake ≤ t
    → t < h.start_handshake + 31000000000
    → 31000000000 ≤ (t - h.start_handshake) + length xs * 100000000
    → IsSlept t xs
    → has_ended (wait h xs).1 ≡ true
unfolding wait
wait-progress h t [] idle past soon enough s = absurd (omega (arith, past, soon, enough))
wait-progress h t (x ∷ xs) idle past soon enough s = elim (Bool-cases (not (goes_on x))) [
  | inl left ↦ rw left refl
  | inr stays ↦ rw stays (elim (Bool-cases (ltb 30 (seconds h.start_handshake x.now))) [
    | inl late ↦ rw late refl
    | inr early ↦
        let start = (retry-plain h x.now idle).0 in
        let short = ltb_false→le 30 (seconds h.start_handshake x.now) early in
        rw early (
          wait-progress (retry h x.now) x.now xs (retry-IsIdle h x.now idle)
            (omega (arith, start, past, s.0)) (omega (arith, start, short))
            (omega (arith, start, past, s.0, enough)) s.1)
  ])
]

-- Where a round takes 100 ms or more, the loop has left after 310 rounds at the latest, by an answer or
-- by the timeout.
pub wait-ends :
    (t : ℕ) (xs : List Reading)
    → IsSlept t xs
    → 310 ≤ length xs
    → has_ended (wait (begin t) xs).1 ≡ true
unfolding begin
wait-ends t xs s many =
    wait-progress (begin t) t xs (begin-IsIdle t) (omega arith) (omega arith) (omega (arith, many))
      s
