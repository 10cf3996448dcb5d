-- ===== src/Ai/LatencyPredictor/Bounds.antt =====
-- cpp/ai/latency_predictor.cpp: the range of a forecast.
use remote_play.Prelude.{ℕ, ◌≡◌, true, false, ◌==◌, length, Bool-cases, inl, inr}
use remote_play.Ai.Floats.{Floats, IsStrictWeak, IsStrictWeak-irrefl, max, clamp}
use remote_play.Ai.StreamEngine.{LatencyPrediction}
use remote_play.Ai.LatencyPredictor.{LatencyPredictor, predict}

module _ (F : Floats) (w : IsStrictWeak F.less)
    (ordered : F.less (F.decimal 0 0) (F.decimal 1 0) ≡ true) where
  -- A forecast in its range.
  pub record IsForecast (p : LatencyPrediction F.Float) : Type 0 where
    pub rtt : F.less p.predicted_rtt_ms (F.decimal 0 0) ≡ false
    pub jitter : F.less p.predicted_jitter_ms (F.decimal 0 0) ≡ false
    pub loss_low : F.less p.predicted_loss_rate (F.decimal 0 0) ≡ false
    pub loss_high : F.less (F.decimal 1 0) p.predicted_loss_rate ≡ false
    pub confidence : F.less p.confidence_score (F.decimal 0 0) ≡ false

  max-low : (a b : F.Float) → F.less (max F a b) a ≡ false
  max-low a b = elim (Bool-cases (F.less a b)) [
    | inl e ↦ rw e (w.asym a b e)
    | inr e ↦ rw e (IsStrictWeak-irrefl F.less w a)
  ]

  clamp-low : (v lo hi : F.Float) → F.less lo hi ≡ true → F.less (clamp F v lo hi) lo ≡ false
  clamp-low v lo hi h = elim (Bool-cases (F.less v lo)) [
    | inl e ↦ rw e (IsStrictWeak-irrefl F.less w lo)
    | inr e ↦
        rw e (elim (Bool-cases (F.less hi v)) [ inl k ↦ rw k (w.asym lo hi h) | inr k ↦ rw k e ])
  ]

  clamp-high : (v lo hi : F.Float) → F.less lo hi ≡ true → F.less hi (clamp F v lo hi) ≡ false
  clamp-high v lo hi h = elim (Bool-cases (F.less v lo)) [
    | inl e ↦ rw e (w.asym lo hi h)
    | inr e ↦ rw e (elim (Bool-cases (F.less hi v)) [
      | inl k ↦ rw k (IsStrictWeak-irrefl F.less w hi)
      | inr k ↦ rw k k
    ])
  ]

  -- Whatever was measured, and however far ahead, no forecast is below 0 and the rate of lost packets
  -- is at most 1, where no number is a NaN.
  pub predict-IsForecast :
      (p : LatencyPredictor F.Float) (lookahead_ms : ℕ) → IsForecast (predict F p lookahead_ms)
  unfolding predict
  predict-IsForecast p lookahead_ms = elim (Bool-cases (length p.rtt_history == 0)) [
    | inl empty ↦ rw empty (record {
      rtt = IsStrictWeak-irrefl F.less w _;
      jitter = IsStrictWeak-irrefl F.less w _;
      loss_low = IsStrictWeak-irrefl F.less w _;
      loss_high = w.asym _ _ ordered;
      confidence = IsStrictWeak-irrefl F.less w _;
    })
    | inr some_there ↦ rw some_there (record {
      rtt = max-low _ _;
      jitter = max-low _ _;
      loss_low = clamp-low _ _ _ ordered;
      loss_high = clamp-high _ _ _ ordered;
      confidence = max-low _ _;
    })
  ]
