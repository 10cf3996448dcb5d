-- ===== src/Common/Session/Feedback/Shared.antt =====
-- SessionManager::runHost: whose reports a client's encoder follows.
use remote_play.Prelude.{
  ℕ, ◌≡◌, refl, sym, ap, ◌∙◌, List, [], ◌∷◌, map, false, arith, ◌==◌, ==_refl,
}
use remote_play.Ai.Floats.{Floats}
use remote_play.Ai.LatencyPredictor.{NetworkMetrics, init, predict, push_back}
use remote_play.Ai.LatencyPredictor.Recorded.{summary, record_all, record_all-summary}
use remote_play.Host.EncoderManager.{EncoderHw}
use remote_play.Host.EncoderManager.Adaptive.{Adaptive}
use remote_play.Common.Session.Feedback.{
  Feedback, Encoders, metrics_of, react, on_feedback, on_feedbacks,
}

module _ (R : EncoderHw) (F : Floats) where
  abbrev all_metrics : List (Feedback F.Float) → List (NetworkMetrics F.Float)
  all_metrics fhs = map (metrics_of R F) fhs

  on_feedbacks-predictor :
      (s : Encoders R F) (fhs : List (Feedback F.Float))
      → (on_feedbacks R F s fhs).latency_predictor
        ≡ record_all F s.latency_predictor (all_metrics fhs)
  unfolding on_feedbacks on_feedback record_all
  on_feedbacks-predictor s [] = refl
  on_feedbacks-predictor s (fh ∷ fhs) = on_feedbacks-predictor (on_feedback R F s fh) fhs

  on_feedbacks-append :
      (s : Encoders R F) (fhs : List (Feedback F.Float)) (fh : Feedback F.Float)
      → on_feedbacks R F s (push_back fhs fh) ≡ on_feedback R F (on_feedbacks R F s fhs) fh
  unfolding on_feedbacks
  on_feedbacks-append s [] fh = refl
  on_feedbacks-append s (f ∷ fhs) fh = on_feedbacks-append (on_feedback R F s f) fhs fh

  -- The host as it starts.
  abbrev pub start : (ℕ → Adaptive R.Encoder F.Float) → Encoders R F
  start encoder_of = record { latency_predictor = init F 100; encoder_of = encoder_of }

  on_feedback-react :
      (s : Encoders R F) (fh : Feedback F.Float)
      → let after = on_feedback R F s fh in
        (after.encoder_of fh.client
          ≡ react R F (s.encoder_of fh.client) fh (predict F after.latency_predictor 200))
        × ((c : ℕ) → (c == fh.client) ≡ false → after.encoder_of c ≡ s.encoder_of c)
  unfolding on_feedback
  on_feedback-react s fh = (rw (==_refl fh.client) refl, λ c e. rw e refl)

  -- The encoder of the client that reports follows a forecast made of the last hundred reports of all
  -- clients, whoever sent them, and the averages of all reports; every other encoder stays as it is.
  pub on_feedback-shared :
      (encoder_of : ℕ → Adaptive R.Encoder F.Float) (fhs : List (Feedback F.Float))
      (fh : Feedback F.Float)
      → let s = start encoder_of in
        let before = on_feedbacks R F s fhs in
        let after = on_feedbacks R F s (push_back fhs fh) in
        let seen = map (metrics_of R F) (push_back fhs fh) in
        (after.encoder_of fh.client
          ≡ react R F (before.encoder_of fh.client) fh (predict F (summary F 100 seen) 200))
        × ((c : ℕ) → (c == fh.client) ≡ false → after.encoder_of c ≡ before.encoder_of c)
  on_feedback-shared encoder_of fhs fh =
      let s = start encoder_of in
      let before = on_feedbacks R F s fhs in
      let predictor : (on_feedback R F before fh).latency_predictor
          ≡ summary F 100 (map (metrics_of R F) (push_back fhs fh)) =
        ap (λ (e : Encoders R F). e.latency_predictor) (sym (on_feedbacks-append s fhs fh))
        ∙ on_feedbacks-predictor s (push_back fhs fh)
        ∙ record_all-summary F 100 (map (metrics_of R F) (push_back fhs fh)) (omega arith) in
      let (own, others) = on_feedback-react before fh in
      rw (on_feedbacks-append s fhs fh) (
        own ∙ ap (λ p. react R F (before.encoder_of fh.client) fh (predict F p 200)) predictor,
        others,
      )
