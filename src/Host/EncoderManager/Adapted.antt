-- ===== src/Host/EncoderManager/Adapted.antt =====
-- cpp/host/encoder_manager.cpp: what the decisions of the stream engine come to in the host, which gives
-- the engine 0 as the round trip time and the base width as the current one.
use remote_play.Prelude.{ℕ, ◌≡◌, ◌≢◌, true, some, ltb, arith, Bool-cases, inl, inr, sub64}
use remote_play.Prelude.Int.{ℤ, pos}
use remote_play.Ai.Floats.{Floats}
use remote_play.Ai.StreamEngine.{
  increase_bitrate, LatencyPrediction, StreamState, AdaptationDecision, scale_resolution,
  adjust_bitrate, analyze, is_critical, is_congested,
}
use remote_play.Host.EncoderManager.{EncoderHw}
use remote_play.Host.EncoderManager.Adaptive.{Adaptive, Report, stream_state, decide}

scale_resolution-not_increase :
    (w : ℤ) (d : AdaptationDecision)
    → d.action ≢ increase_bitrate
    → (scale_resolution w d).action ≢ increase_bitrate
unfolding scale_resolution
scale_resolution-not_increase w d ne = ground arith

module _ (F : Floats) (last : ℕ) (s : StreamState F.Float) (p : LatencyPrediction F.Float) (now : ℕ)
    (slow : is_congested F s p ≡ true) where
  analyze-not_increase : (analyze F last s p now).0.action ≢ increase_bitrate
  unfolding analyze adjust_bitrate
  analyze-not_increase = elim (Bool-cases (is_critical F p)) [
    | inl critical ↦ rw critical (λ e. cc)
    | inr calm ↦ rw calm (elim (Bool-cases (ltb (sub64 now last) 2000)) [
      | inl soon ↦ rw soon (λ e. cc)
      | inr due ↦ rw (due, slow) (scale_resolution-not_increase _ _ (λ e. cc))
    ])
  ]

module _ (R : EncoderHw) (F : Floats) (a : Adaptive R.Encoder F.Float) (r : Report F.Float)
    (p : LatencyPrediction F.Float) (given : r.ai_prediction ≡ some p)
    (positive : F.less (F.times (F.of_int (pos 0)) (F.decimal 12 1)) p.predicted_rtt_ms
      ≡ true) where
  stream_state-congested : is_congested F (stream_state R F a r) p ≡ true
  unfolding stream_state
  stream_state-congested = ground (arith, positive)

  -- On a forecast whose round trip time is above 0 · 1.2 the stream engine never decides that the host
  -- raise the bit rate, since the host gives it 0 as the present round trip time.
  pub decide-not_increase : (decide R F a r).0.action ≢ increase_bitrate
  unfolding decide
  decide-not_increase = simp given (
      analyze-not_increase F a.last_action_time (stream_state R F a r) p r.analyzed_at
        stream_state-congested)
