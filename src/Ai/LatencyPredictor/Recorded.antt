-- ===== src/Ai/LatencyPredictor/Recorded.antt =====
-- cpp/ai/latency_predictor.cpp: what the predictor keeps of the measurements.
use mathlib.Core.List.{append-nil, append_assoc}
use remote_play.Prelude.{
  ℕ, ◌+◌, ◌-◌, ◌≤◌, ◌<◌, ◌≡◌, refl, sym, ap, ◌∙◌, min, List, [], ◌∷◌, ◌++◌, map, true, false, arith,
  ltb, ◌==◌, length, length-append, Bool-cases, inl, inr,
}
use remote_play.Ai.Floats.{Floats}
use remote_play.Ai.LatencyPredictor.LastOf.{
  last_of, last_of-room, last_of-full, length-last_of, length-map, map-push,
}
use remote_play.Ai.LatencyPredictor.{
  NetworkMetrics, LatencyPredictor, push_back, pop_front, init, mix, alpha_fast, alpha_slow,
  record_metrics,
}

module _ (F : Floats) where
  abbrev Metrics : Type 0
  Metrics = NetworkMetrics F.Float

  -- The moving average of values, from the first one on.
  abbrev pub ewma : F.Float → F.Float → List F.Float → F.Float
  ewma alpha average [] = average
  ewma alpha average (v ∷ vs) = ewma alpha (mix F alpha v average) vs

  ewma-push :
      (alpha average : F.Float) (vs : List F.Float) (v : F.Float)
      → ewma alpha average (push_back vs v) ≡ mix F alpha v (ewma alpha average vs)
  ewma-push alpha average [] v = refl
  ewma-push alpha average (w ∷ vs) v = ewma-push alpha (mix F alpha w average) vs v

  abbrev pub average_of : F.Float → List F.Float → F.Float
  average_of alpha [] = F.decimal 0 0
  average_of alpha (v ∷ vs) = ewma alpha v vs

  -- What the measurements come to: the last `n` of each kind, and the averages of all of them.
  pub summary : ℕ → List (NetworkMetrics F.Float) → LatencyPredictor F.Float
  summary n seen = record {
    history_size = n;
    rtt_history = last_of n (map (λ m. m.rtt_ms) seen);
    jitter_history = last_of n (map (λ m. m.jitter_ms) seen);
    loss_history = last_of n (map (λ m. m.packet_loss_rate) seen);
    timestamp_history = last_of n (map (λ m. m.timestamp) seen);
    rtt_ewma = average_of (alpha_fast F) (map (λ m. m.rtt_ms) seen);
    jitter_ewma = average_of (alpha_fast F) (map (λ m. m.jitter_ms) seen);
    loss_ewma = average_of (alpha_slow F) (map (λ m. m.packet_loss_rate) seen);
  }

  unfoldable pub record_all :
      LatencyPredictor F.Float → List (NetworkMetrics F.Float) → LatencyPredictor F.Float
  record_all p [] = p
  record_all p (m ∷ ms) = record_all (record_metrics F p m) ms

  module _ {ℓ} {B : Type ℓ} (n : ℕ) (f : Metrics → B) (seen : List Metrics) (m : Metrics) where
    stored-room :
        length seen < n
        → push_back (last_of n (map f seen)) (f m) ≡ last_of n (map f (push_back seen m))
    stored-room h =
        last_of-room n (map f seen) (f m) (omega (arith, length-map f seen))
        ∙ ap (last_of n) (sym (map-push f seen m))

    stored-full :
        n ≤ length seen
        → pop_front (push_back (last_of n (map f seen)) (f m))
          ≡ last_of n (map f (push_back seen m))
    stored-full h =
        last_of-full n (map f seen) (f m) (omega (arith, length-map f seen))
        ∙ ap (last_of n) (sym (map-push f seen m))

    length-stored : length (push_back (last_of n (map f seen)) (f m)) ≡ min n (length seen) + 1
    length-stored = omega (
      arith,
      length-append (last_of n (map f seen)) (f m ∷ []),
      length-last_of n (map f seen),
      length-map f seen,
    )

    length-stored_full :
        0 < n → n ≤ length seen → length (pop_front (push_back (last_of n (map f seen)) (f m))) ≡ n
    length-stored_full pos h =
        ap length (stored-full h)
        ∙ omega (
          arith,
          length-last_of n (map f (push_back seen m)),
          length-map f (push_back seen m),
          length-append seen (m ∷ []),
        )

  -- One more average.
  average-push :
      (alpha : F.Float) (f : Metrics → F.Float) (first : Metrics) (rest : List Metrics)
      (m : Metrics)
      → mix F alpha (f m) (average_of alpha (map f (first ∷ rest)))
        ≡ average_of alpha (map f (push_back (first ∷ rest) m))
  average-push alpha f first rest m =
      sym (ewma-push alpha (f first) (map f rest) (f m))
      ∙ ap (ewma alpha (f first)) (sym (map-push f rest m))

  record_metrics-first :
      (n : ℕ) (m : Metrics) → 2 ≤ n → record_metrics F (summary n []) m ≡ summary n (m ∷ [])
  unfolding record_metrics summary
  record_metrics-first n m h =
      let rtts = push_back (last_of n (map (λ (m : Metrics). m.rtt_ms) [])) m.rtt_ms in
      let one = length-stored n (λ (m : Metrics). m.rtt_ms) [] m in
      let room : ltb n (length rtts) ≡ false = ground (arith, one) in
      let alone : (length rtts == 1) ≡ true = ground (arith, one) in
      rw (room, alone)
        (λ i. record {
          history_size = n;
          rtt_history = stored-room n (λ m. m.rtt_ms) [] m (omega arith) i;
          jitter_history = stored-room n (λ m. m.jitter_ms) [] m (omega arith) i;
          loss_history = stored-room n (λ m. m.packet_loss_rate) [] m (omega arith) i;
          timestamp_history = stored-room n (λ m. m.timestamp) [] m (omega arith) i;
          rtt_ewma = m.rtt_ms;
          jitter_ewma = m.jitter_ms;
          loss_ewma = m.packet_loss_rate;
        })

  -- A predictor with these histories and one more average is the summary.
  summary-push :
      (n : ℕ) (first : Metrics) (rest : List Metrics) (m : Metrics) {rs js ls : List F.Float}
      {ts : List ℕ}
      → let seen = push_back (first ∷ rest) m in
        rs ≡ last_of n (map (λ m. m.rtt_ms) seen)
        → js ≡ last_of n (map (λ m. m.jitter_ms) seen)
        → ls ≡ last_of n (map (λ m. m.packet_loss_rate) seen)
        → ts ≡ last_of n (map (λ m. m.timestamp) seen)
        → let old = summary n (first ∷ rest) in
          ◌≡◌ {A = LatencyPredictor F.Float}
            (record {
              history_size = n;
              rtt_history = rs;
              jitter_history = js;
              loss_history = ls;
              timestamp_history = ts;
              rtt_ewma = mix F (alpha_fast F) m.rtt_ms old.rtt_ewma;
              jitter_ewma = mix F (alpha_fast F) m.jitter_ms old.jitter_ewma;
              loss_ewma = mix F (alpha_slow F) m.packet_loss_rate old.loss_ewma;
            })
            (summary n seen)
  unfolding summary
  summary-push n first rest m r j l t = λ i. record {
    history_size = n;
    rtt_history = r i;
    jitter_history = j i;
    loss_history = l i;
    timestamp_history = t i;
    rtt_ewma = average-push (alpha_fast F) (λ m. m.rtt_ms) first rest m i;
    jitter_ewma = average-push (alpha_fast F) (λ m. m.jitter_ms) first rest m i;
    loss_ewma = average-push (alpha_slow F) (λ m. m.packet_loss_rate) first rest m i;
  }

  record_metrics-next :
      (n : ℕ) (first : Metrics) (rest : List Metrics) (m : Metrics)
      → 2 ≤ n
      → record_metrics F (summary n (first ∷ rest)) m ≡ summary n (push_back (first ∷ rest) m)
  unfolding record_metrics summary
  record_metrics-next n first rest m h =
      let seen = first ∷ rest in
      let rtts = push_back (last_of n (map (λ (m : Metrics). m.rtt_ms) seen)) m.rtt_ms in
      let stored = length-stored n (λ (m : Metrics). m.rtt_ms) seen m in
      elim (Bool-cases (ltb n (length rtts))) [
        | inr room ↦
            let several : (length rtts == 1) ≡ false = ground (arith, stored) in
            let short : length seen < n = ground (arith, stored, room) in
            rw (room, several)
              (summary-push n first rest m (stored-room n (λ m. m.rtt_ms) seen m short)
                (stored-room n (λ m. m.jitter_ms) seen m short)
                (stored-room n (λ m. m.packet_loss_rate) seen m short)
                (stored-room n (λ m. m.timestamp) seen m short))
        | inl full ↦
            let long : n ≤ length seen = ground (arith, stored, full) in
            let several : (length (pop_front rtts) == 1) ≡ false =
              ground (arith, length-stored_full n (λ (m : Metrics). m.rtt_ms) seen m) in
            rw (full, several)
              (summary-push n first rest m (stored-full n (λ m. m.rtt_ms) seen m long)
                (stored-full n (λ m. m.jitter_ms) seen m long)
                (stored-full n (λ m. m.packet_loss_rate) seen m long)
                (stored-full n (λ m. m.timestamp) seen m long))
      ]

  record_metrics-summary :
      (n : ℕ) (seen : List Metrics) (m : Metrics)
      → 2 ≤ n
      → record_metrics F (summary n seen) m ≡ summary n (push_back seen m)
  record_metrics-summary n [] m h = record_metrics-first n m h
  record_metrics-summary n (first ∷ rest) m h = record_metrics-next n first rest m h

  record_all-from :
      (n : ℕ) (seen ms : List Metrics)
      → 2 ≤ n
      → record_all (summary n seen) ms ≡ summary n (seen ++ ms)
  unfolding record_all
  record_all-from n seen [] h = ap (summary n) (sym (append-nil seen))
  record_all-from n seen (m ∷ ms) h =
      ap (λ p. record_all p ms) (record_metrics-summary n seen m h)
      ∙ record_all-from n (push_back seen m) ms h
      ∙ ap (summary n) (append_assoc seen (m ∷ []) ms)

  init-summary : (n : ℕ) → init F n ≡ summary n []
  unfolding init summary
  init-summary n = let none_out : 0 - n ≡ 0 = omega arith in rw none_out refl

  -- After any measurements each history holds the last of its kind, as many as the predictor keeps, in
  -- order and all four of them in step, and each average is the exponentially weighted one of all that
  -- was measured, from the first value on, where the predictor keeps at least two.
  pub record_all-summary :
      (n : ℕ) (ms : List (NetworkMetrics F.Float)) → 2 ≤ n → record_all (init F n) ms ≡ summary n ms
  record_all-summary n ms h = ap (λ p. record_all p ms) (init-summary n) ∙ record_all-from n [] ms h
