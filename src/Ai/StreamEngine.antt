-- ===== src/Ai/StreamEngine.antt =====
-- cpp/ai/stream_engine.cpp: Analyze, with the clock as an argument. The state of the engine is the time
-- of its last action, in milliseconds.
pub mod Paced
use remote_play.Prelude.{ℕ, Bool, true, false, not, ◌&&◌, ◌||◌, ltb, if◌then◌else◌, sub64}
use remote_play.Prelude.Int.{ℤ, pos, ltb_ℤ}
use remote_play.Ai.Floats.{Floats}

pub data AdaptationAction : Type 0 where
  maintain increase_bitrate decrease_bitrate increase_resolution decrease_resolution increase_fps
        decrease_fps force_keyframe emergency_throttle :
      AdaptationAction

-- The texts of `reason`.
pub data Reason : Type 0 where
  no_reason critical_congestion predicted_spike stable_network : Reason

pub record LatencyPrediction (float : Type 0) : Type 0 where
  pub predicted_rtt_ms : float
  pub predicted_jitter_ms : float
  pub predicted_loss_rate : float
  pub confidence_score : float

pub record StreamState (float : Type 0) : Type 0 where
  pub current_bitrate_kbps : ℤ
  pub current_width : ℤ
  pub current_height : ℤ
  pub current_fps : ℤ
  pub packet_loss : float
  pub rtt_ms : float
  pub scene_complexity : float

pub record AdaptationDecision : Type 0 where
  pub action : AdaptationAction
  pub target_bitrate_kbps : ℤ
  pub target_width : ℤ
  pub target_height : ℤ
  pub target_fps : ℤ
  pub reason : Reason

-- std::max and std::min on int
abbrev pub max_int : ℤ → ℤ → ℤ
max_int a b = if ltb_ℤ a b then b else a

abbrev pub min_int : ℤ → ℤ → ℤ
min_int a b = if ltb_ℤ b a then b else a

-- Resolution scaling by the target bit rate.
unfoldable pub scale_resolution : ℤ → AdaptationDecision → AdaptationDecision
scale_resolution current_width d =
    if ltb_ℤ d.target_bitrate_kbps (pos 2500) && ltb_ℤ (pos 854) current_width
    then record d {
      action = decrease_resolution;
      target_width = pos 854;
      target_height = pos 480;
      target_fps = pos 30;
    }
    else if ltb_ℤ (pos 12000) d.target_bitrate_kbps
        && (ltb_ℤ current_width (pos 3840) && not (ltb_ℤ current_width (pos 1920)))
    then record d {
      action = increase_resolution;
      target_width = pos 3840;
      target_height = pos 2160;
    }
    else if ltb_ℤ (pos 6000) d.target_bitrate_kbps && ltb_ℤ current_width (pos 1920)
    then record d {
      action = increase_resolution;
      target_width = pos 1920;
      target_height = pos 1080;
      target_fps = pos 60;
    }
    else d

module _ (F : Floats) where
  -- (int)(n * factor)
  abbrev pub scaled : ℤ → F.Float → ℤ
  scaled n factor = F.to_int (F.times (F.of_int n) factor)

  abbrev pub unchanged : StreamState F.Float → AdaptationDecision
  unchanged s = record {
    action = maintain;
    target_bitrate_kbps = s.current_bitrate_kbps;
    target_width = s.current_width;
    target_height = s.current_height;
    target_fps = s.current_fps;
    reason = no_reason;
  }

  abbrev pub is_critical : LatencyPrediction F.Float → Bool
  is_critical p =
      F.less (F.decimal 15 2) p.predicted_loss_rate || F.less (F.decimal 250 0) p.predicted_rtt_ms

  abbrev pub throttled : StreamState F.Float → AdaptationDecision
  throttled s = record {
    action = emergency_throttle;
    target_bitrate_kbps = max_int (pos 500) (scaled s.current_bitrate_kbps (F.decimal 5 1));
    target_width = pos 854;
    target_height = pos 480;
    target_fps = pos 30;
    reason = critical_congestion;
  }

  abbrev pub is_congested : StreamState F.Float → LatencyPrediction F.Float → Bool
  is_congested s p =
      F.less (F.decimal 2 2) p.predicted_loss_rate
      || F.less (F.times s.rtt_ms (F.decimal 12 1)) p.predicted_rtt_ms

  abbrev pub is_stable : StreamState F.Float → LatencyPrediction F.Float → Bool
  is_stable s p =
      F.less p.predicted_loss_rate (F.decimal 5 3)
      && (F.less p.predicted_rtt_ms (F.decimal 50 0) && F.less s.packet_loss (F.decimal 1 3))

  abbrev pub ideal_bitrate : StreamState F.Float → ℤ
  ideal_bitrate s =
      scaled s.current_bitrate_kbps
        (F.plus (F.decimal 1 0) (F.times s.scene_complexity (F.decimal 5 1)))

  -- The bit rate's part: the decision, and the time of the last action.
  unfoldable pub adjust_bitrate :
      ℕ → StreamState F.Float → LatencyPrediction F.Float → ℕ → AdaptationDecision × ℕ
  adjust_bitrate last_action_time s p now =
      if is_congested s p
      then (
        record (unchanged s) {
          action = decrease_bitrate;
          target_bitrate_kbps = scaled s.current_bitrate_kbps (F.decimal 80 2);
          reason = predicted_spike;
        },
        now,
      )
      else if is_stable s p && ltb_ℤ s.current_bitrate_kbps (pos 30000)
      then (
        record (unchanged s) {
          action = increase_bitrate;
          target_bitrate_kbps = min_int (pos 30000) (ideal_bitrate s);
          reason = stable_network;
        },
        now,
      )
      else (unchanged s, last_action_time)

  unfoldable pub analyze :
      ℕ → StreamState F.Float → LatencyPrediction F.Float → ℕ → AdaptationDecision × ℕ
  analyze last_action_time s p now =
      if is_critical p
      then (throttled s, now)
      else if ltb (sub64 now last_action_time) 2000
      then (unchanged s, last_action_time)
      else (let (d, last) = adjust_bitrate last_action_time s p now in
          (scale_resolution s.current_width d, last))
