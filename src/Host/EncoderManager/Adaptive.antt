-- ===== src/Host/EncoderManager/Adaptive.antt =====
-- cpp/host/encoder_manager.cpp: UpdatePerformanceMetrics as a whole. It asks the stream engine of cpp/ai
-- what to do with the bit rate, and then looks whether the tier has to go down. The clock is read twice,
-- by the engine and at the end; the rest is in Session.
use remote_play.Prelude.{ℕ, Bool, ◌&&◌, ◌||◌, Option, none, some, if◌then◌else◌}
use remote_play.Prelude.Int.{ℤ, pos, pos_part, ltb_ℤ}
use remote_play.Ai.Floats.{Floats, clamp}
use remote_play.Ai.StreamEngine.{
  AdaptationAction, increase_bitrate, decrease_bitrate, emergency_throttle, LatencyPrediction,
  StreamState, AdaptationDecision, analyze,
}
use remote_play.Host.EncoderManager.{EncoderHw, EncoderManager, get_profile_for_tier}
use remote_play.Host.EncoderManager.Session.{set_encoder_bitrate, update_performance_metrics}

-- The fields that only this function reads, beside the others; the last is the stream engine's.
pub record Adaptive (encoder_type float : Type 0) : Type 0 where
  pub manager : EncoderManager encoder_type
  pub last_frame_drop_rate : float
  pub last_avg_encode_time_ms : float
  pub last_encoded_size : ℕ
  pub last_action_time : ℕ

-- The arguments, and the two readings of the clock.
pub record Report (float : Type 0) : Type 0 where
  pub frame_drop_rate : float
  pub avg_encode_time_ms : float
  pub client_decode_time_ms : float
  pub target_bitrate_kbps : ℤ
  pub ai_prediction : Option (LatencyPrediction float)
  pub analyzed_at : ℕ
  pub now : ℕ

module _ (R : EncoderHw) (F : Floats) where
  -- SetBitrate, where there is an encoder.
  abbrev pub with_bitrate : EncoderManager R.Encoder → ℤ → EncoderManager R.Encoder
  with_bitrate m kbps = set_encoder_bitrate R m m.encoder (pos_part kbps)

  -- `rate >= 0 ? rate : old`
  abbrev pub if_known : F.Float → F.Float → F.Float
  if_known rate old = if F.less rate (F.of_int (pos 0)) then old else rate

  unfoldable pub note_report :
      Adaptive R.Encoder F.Float → Report F.Float → Adaptive R.Encoder F.Float
  note_report a r = record a {
    manager =
        if ltb_ℤ (pos 0) r.target_bitrate_kbps
        then with_bitrate a.manager r.target_bitrate_kbps
        else a.manager;
    last_frame_drop_rate = if_known r.frame_drop_rate a.last_frame_drop_rate;
    last_avg_encode_time_ms = if_known r.avg_encode_time_ms a.last_avg_encode_time_ms;
  }

  -- GetCurrentBitrate
  abbrev pub current_bitrate : EncoderManager R.Encoder → ℤ
  current_bitrate m = pos (get_profile_for_tier m m.current_tier).bitrate_kbps

  unfoldable pub estimate_complexity : EncoderManager R.Encoder → ℕ → F.Float
  estimate_complexity m last_encoded_size =
      let bits_per_frame =
        F.divide (F.times (F.of_int (current_bitrate m)) (F.decimal 1000 0))
          (F.of_int (pos m.fps)) in
      let bytes_per_frame_budget = F.divide bits_per_frame (F.decimal 8 0) in
      clamp F
        (F.divide (F.of_int (pos last_encoded_size))
          (F.times bytes_per_frame_budget (F.decimal 15 1)))
        (F.decimal 1 1) (F.decimal 1 0)

  unfoldable pub stream_state : Adaptive R.Encoder F.Float → Report F.Float → StreamState F.Float
  stream_state a r = record {
    current_bitrate_kbps = current_bitrate a.manager;
    current_width = pos a.manager.base_width;
    current_height = pos a.manager.base_height;
    current_fps = pos a.manager.fps;
    packet_loss = r.frame_drop_rate;
    rtt_ms = F.of_int (pos 0);
    scene_complexity = estimate_complexity a.manager a.last_encoded_size;
  }

  -- aiPrediction, or one made of the rate of lost frames.
  abbrev pub active_prediction :
      Option (LatencyPrediction F.Float) → F.Float → LatencyPrediction F.Float
  active_prediction (some p) rate = p
  active_prediction none rate = record {
    predicted_rtt_ms = F.of_int (pos 0);
    predicted_jitter_ms = F.of_int (pos 0);
    predicted_loss_rate = rate;
    confidence_score = F.decimal 1 0;
  }

  unfoldable pub decide : Adaptive R.Encoder F.Float → Report F.Float → AdaptationDecision × ℕ
  decide a r =
      analyze F a.last_action_time (stream_state a r)
        (active_prediction r.ai_prediction r.frame_drop_rate) r.analyzed_at

  -- What the manager does with a decision: it sets bit rates only.
  unfoldable pub apply_decision :
      EncoderManager R.Encoder → AdaptationAction → ℤ → EncoderManager R.Encoder
  apply_decision m emergency_throttle kbps = with_bitrate m kbps
  apply_decision m decrease_bitrate kbps = with_bitrate m kbps
  apply_decision m increase_bitrate kbps = with_bitrate m kbps
  apply_decision m _ kbps = m

  unfoldable pub needs_downgrade : Adaptive R.Encoder F.Float → F.Float → Bool
  needs_downgrade a client_decode_time_ms =
      let frame_budget_ms = F.divide (F.decimal 1000 0) (F.of_int (pos a.manager.fps)) in
      let limit = F.times frame_budget_ms (F.decimal 8 1) in
      (F.less (F.decimal 10 2) a.last_frame_drop_rate || F.less limit a.last_avg_encode_time_ms)
      || (F.less (F.of_int (pos 0)) client_decode_time_ms && F.less limit client_decode_time_ms)

  unfoldable pub adapt_to_report :
      Adaptive R.Encoder F.Float → Report F.Float → Adaptive R.Encoder F.Float
  adapt_to_report a r =
      let noted = note_report a r in
      let (d, last) = decide noted r in
      let m = apply_decision noted.manager d.action d.target_bitrate_kbps in
      record noted {
        manager =
            update_performance_metrics R m (needs_downgrade noted r.client_decode_time_ms) r.now;
        last_action_time = last;
      }
