-- ===== src/Common/Session/Feedback/Tests.antt =====
-- An instance of the host's side of the feedback, with an encoder that is its bit rate.
use remote_play.Prelude.{ℕ, ◌≡◌, [], ◌∷◌, true, false, map, none, some, ◌==◌}
use remote_play.Prelude.Int.{ℤ, pos}
use remote_play.Ai.Fixed.{fixed}
use remote_play.Ai.LatencyPredictor.{predict, push_back}
use remote_play.Ai.LatencyPredictor.Recorded.{summary}
use remote_play.Host.EncoderManager.{EncoderHw, streaming, tier_b, software}
use remote_play.Host.EncoderManager.Adaptive.{Adaptive}
use remote_play.Common.Session.Feedback.{Feedback, metrics_of, react, on_feedbacks}
use remote_play.Common.Session.Feedback.Shared.{start, on_feedback-shared}

abbrev rated : EncoderHw
rated = record {
  Encoder = ℕ;
  made = 0;
  start_up = λ e profile fps codec. (true, profile.bitrate_kbps);
  is_initialized = λ e. true;
  encode = λ e. (true, e);
  set_bitrate = λ e bitrate. bitrate;
  force_keyframe = λ e. e;
}

abbrev encoder : Adaptive ℕ ℤ
encoder = record {
  manager = record {
    capabilities = [];
    encoder = some 8000;
    state = streaming;
    current_tier = tier_b;
    current_backend = software;
    backend_index = 0;
    session_locked = false;
    locked_codec_name = none;
    base_width = 1280;
    base_height = 720;
    fps = 60;
    last_adjustment_time = 0;
  };
  last_frame_drop_rate = pos 0;
  last_avg_encode_time_ms = pos 0;
  last_encoded_size = 3000;
  last_action_time = 0;
}

-- The first client's network is bad, the second one's is not.
abbrev bad : Feedback ℤ
bad = record {
  client = 0;
  loss_rate = pos 300;
  rtt_ms = 200;
  avg_decode_time_ms = pos 4000;
  request_keyframe = 1;
  target_bitrate_kbps = 0;
  received_at = 9000;
  analyzed_at = 9000;
  now = 9000;
}

abbrev good : Feedback ℤ
good = record bad { client = 1; loss_rate = pos 0; rtt_ms = 5; request_keyframe = 0 }

on_feedback-shared_example :
    let s = start rated fixed (λ c. encoder) in
    let before = on_feedbacks rated fixed s (bad ∷ bad ∷ []) in
    let after = on_feedbacks rated fixed s (push_back (bad ∷ bad ∷ []) good) in
    let seen = map (metrics_of rated fixed) (push_back (bad ∷ bad ∷ []) good) in
    (after.encoder_of 1
      ≡ react rated fixed (before.encoder_of 1) good (predict fixed (summary fixed 100 seen) 200))
    × ((c : ℕ) → (c == 1) ≡ false → after.encoder_of c ≡ before.encoder_of c)
on_feedback-shared_example = on_feedback-shared rated fixed (λ c. encoder) (bad ∷ bad ∷ []) good
