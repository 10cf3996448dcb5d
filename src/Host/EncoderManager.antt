-- ===== src/Host/EncoderManager.antt =====
-- cpp/host/encoder_manager.cpp and encoder_manager.hpp: the encoder session, its states, its fallback
-- to software and its quality tiers. The encoder is a parameter, as the class EncoderHW is in the
-- source; the capabilities that DetectCapabilities finds are an argument of `initialize`, and so are
-- the verdicts on floating-point rates of `update_performance_metrics`.
pub mod Session
pub mod States
pub mod Reach
pub mod Kept
pub mod Table
pub mod Lasting
pub mod Adaptive
pub mod Adapted
mod Tests
use remote_play.Prelude.{
  ℕ, ◌+◌, ◌-◌, List, [], ◌∷◌, Bool, true, false, not, ◌&&◌, ◌||◌, Option, none, some, ltb, ◌==◌,
  if◌then◌else◌, get_elem?,
}

pub data StreamingState : Type 0 where
  idle preflight_validation ready starting streaming degraded recovering emergency_fallback
        shut_down :
      StreamingState

pub data QualityTier : Type 0 where
  tier_a tier_b tier_c tier_d : QualityTier

pub data EncoderBackend : Type 0 where
  nvenc amf qsv software no_backend : EncoderBackend

pub data CodecName : Type 0 where
  hevc_nvenc h264_nvenc hevc_qsv h264_qsv hevc_amf h264_amf libx264 : CodecName

pub record QualityProfile : Type 0 where
  pub width : ℕ
  pub height : ℕ
  pub bitrate_kbps : ℕ
  pub preset : ℕ

pub record EncoderCapability : Type 0 where
  pub backend : EncoderBackend
  pub codec_name : CodecName
  pub available : Bool

-- The class EncoderHW: an encoder as it is made, and what its functions answer and leave.
pub record EncoderHw : Type 1 where
  pub Encoder : Type 0
  pub made : Encoder
  -- `none` is the empty name
  pub start_up : Encoder → QualityProfile → ℕ → Option CodecName → Bool × Encoder
  pub is_initialized : Encoder → Bool
  pub encode : Encoder → Bool × Encoder
  pub set_bitrate : Encoder → ℕ → Encoder
  pub force_keyframe : Encoder → Encoder

pub record EncoderManager (encoder_type : Type 0) : Type 0 where
  pub capabilities : List EncoderCapability
  pub encoder : Option encoder_type
  pub state : StreamingState
  pub current_tier : QualityTier
  pub current_backend : EncoderBackend
  pub backend_index : ℕ
  pub session_locked : Bool
  pub locked_codec_name : Option CodecName
  pub base_width : ℕ
  pub base_height : ℕ
  pub fps : ℕ
  pub last_adjustment_time : ℕ

-- The switch of SetState.
unfoldable pub is_valid : StreamingState → StreamingState → Bool
is_valid idle starting = true
is_valid starting preflight_validation = true
is_valid starting shut_down = true
is_valid preflight_validation ready = true
is_valid preflight_validation shut_down = true
is_valid ready streaming = true
is_valid ready shut_down = true
is_valid streaming degraded = true
is_valid streaming recovering = true
is_valid streaming emergency_fallback = true
is_valid streaming shut_down = true
is_valid degraded streaming = true
is_valid degraded recovering = true
is_valid degraded emergency_fallback = true
is_valid degraded shut_down = true
is_valid recovering streaming = true
is_valid recovering emergency_fallback = true
is_valid recovering shut_down = true
is_valid emergency_fallback streaming = true
is_valid emergency_fallback shut_down = true
is_valid shut_down idle = true
is_valid _ _ = false

unfoldable pub next_state : StreamingState → StreamingState → StreamingState
next_state old new = if is_valid old new then new else old

-- AdjustTier's next tier
unfoldable pub next_tier : QualityTier → Bool → QualityTier
next_tier tier_a true = tier_a
next_tier tier_b true = tier_a
next_tier tier_c true = tier_b
next_tier tier_d true = tier_c
next_tier tier_a false = tier_b
next_tier tier_b false = tier_c
next_tier tier_c false = tier_d
next_tier tier_d false = tier_d

unfoldable pub tier_code : QualityTier → ℕ
tier_code tier_a = 0
tier_code tier_b = 1
tier_code tier_c = 2
tier_code tier_d = 3

module _ {encoder_type : Type 0} where
  unfoldable pub set_state :
      EncoderManager encoder_type → StreamingState → EncoderManager encoder_type
  set_state m new_state = record m { state = next_state m.state new_state }

  unfoldable pub get_profile_for_tier : EncoderManager encoder_type → QualityTier → QualityProfile
  get_profile_for_tier m tier_a = record {
    width = m.base_width;
    height = m.base_height;
    bitrate_kbps = 15000;
    preset = 2;
  }
  get_profile_for_tier m tier_b = record {
    width = m.base_width;
    height = m.base_height;
    bitrate_kbps = 8000;
    preset = 1;
  }
  get_profile_for_tier m tier_c = record {
    width = 1280;
    height = 720;
    bitrate_kbps = 4000;
    preset = 0;
  }
  get_profile_for_tier m tier_d = record {
    width = 854;
    height = 480;
    bitrate_kbps = 1500;
    preset = 0;
  }
