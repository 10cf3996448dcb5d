-- ===== src/Host/EncoderManager/Tests.antt =====
-- Runs and instances of the encoder session, with an encoder whose hardware codec fails to encode.
use remote_play.Prelude.{
  ◌≡◌, ◌≢◌, refl, List, [], ◌∷◌, Bool, true, false, Option, none, some, if◌then◌else◌,
}
use remote_play.Host.EncoderManager.{
  idle, streaming, emergency_fallback, degraded, shut_down, tier_a, tier_d, no_backend, nvenc,
  software, CodecName, hevc_nvenc, libx264, EncoderCapability, EncoderHw, is_valid, next_state,
  set_state, get_profile_for_tier,
}
use remote_play.Prelude.Int.{ℤ, pos, negsuc}
use remote_play.Ai.Fixed.{fixed}
use remote_play.Ai.StreamEngine.{LatencyPrediction, increase_bitrate}
use remote_play.Host.EncoderManager.Adaptive.{Adaptive, Report, decide}
use remote_play.Host.EncoderManager.Adapted.{decide-not_increase}
use remote_play.Host.EncoderManager.Session.{
  Manager, initialize, encode_frame, preflight, lock_session, conclude, select_and_init_encoder,
  or_fallback, start_encoder, encode_with, is_started, encoder_or_made, emergency_encoder_fallback,
  shutdown,
}
use remote_play.Host.EncoderManager.Reach.{
  Call, initializes, runs, encodes, updates, call_all, call, perform_all, perform,
}
use remote_play.Host.EncoderManager.Table.{is_at_rest, is_worn, is_shut_down}
use remote_play.Host.EncoderManager.Lasting.{
  perform_all-is_worn, call_all-is_shut_down, initialize-outcome,
}

abbrev is_software : CodecName → Bool
is_software libx264 = true
is_software _ = false

abbrev is_some : Option CodecName → Bool
is_some none = false
is_some (some codec) = true

abbrev encodes_with : Option CodecName → Bool
encodes_with none = false
encodes_with (some codec) = is_software codec

-- The encoder is the codec that it was started with.
abbrev brittle : EncoderHw
brittle = record {
  Encoder = Option CodecName;
  made = none;
  start_up = λ e profile fps codec. (true, codec);
  is_initialized = is_some;
  encode = λ e. (encodes_with e, e);
  set_bitrate = λ e bitrate. e;
  force_keyframe = λ e. e;
}

abbrev first : Manager brittle
first = record {
  capabilities = [];
  encoder = none;
  state = idle;
  current_tier = tier_a;
  current_backend = no_backend;
  backend_index = 0;
  session_locked = false;
  locked_codec_name = none;
  base_width = 1920;
  base_height = 1080;
  fps = 60;
  last_adjustment_time = 0;
}

abbrev detected : List EncoderCapability
detected =
    record { backend = nvenc; codec_name = hevc_nvenc; available = true }
    ∷ record { backend = software; codec_name = libx264; available = true }
    ∷ []

abbrev calls : List Call
calls = initializes detected 1920 1080 60 ∷ runs encodes ∷ []

-- The first frame fails on the hardware, and the session falls back to software.
falls_back : (call_all brittle first calls).state ≡ emergency_fallback
unfolding call_all call perform initialize preflight lock_session conclude select_and_init_encoder
    or_fallback start_encoder encode_frame encode_with is_started encoder_or_made
    emergency_encoder_fallback set_state get_profile_for_tier next_state is_valid
falls_back = refl

-- A second session after Shutdown encodes, in the state SHUTDOWN.
again : Bool × Manager brittle
again = initialize brittle (shutdown brittle (call_all brittle first calls)) detected 1280 720 60

again-shut_down : (again.0 ≡ true) × (again.1.state ≡ shut_down)
unfolding again shutdown call_all call perform initialize preflight lock_session conclude
    select_and_init_encoder or_fallback start_encoder encode_frame encode_with is_started
    encoder_or_made emergency_encoder_fallback set_state get_profile_for_tier next_state is_valid
again-shut_down = (refl, refl)

first_at_rest : is_at_rest first.state ≡ true
unfolding is_at_rest
first_at_rest = refl

abbrev tired : Manager brittle
tired = record first { state = degraded }

tired_worn : is_worn tired.state ≡ true
unfolding is_worn
tired_worn = refl

perform_all-is_worn_example :
    is_worn (perform_all brittle tired (encodes ∷ updates true 9000 ∷ encodes ∷ [])).state ≡ true
perform_all-is_worn_example =
    perform_all-is_worn brittle tired (encodes ∷ updates true 9000 ∷ encodes ∷ []) tired_worn

abbrev over : Manager brittle
over = record first { state = shut_down }

over_shut_down : is_shut_down over.state ≡ true
unfolding is_shut_down
over_shut_down = refl

call_all-is_shut_down_example : is_shut_down (call_all brittle over calls).state ≡ true
call_all-is_shut_down_example = call_all-is_shut_down brittle over calls over_shut_down

initialize-outcome_example :
    (initialize brittle first detected 1920 1080 60).1.state
    ≡ (if (initialize brittle first detected 1920 1080 60).0 then streaming else shut_down)
initialize-outcome_example = initialize-outcome brittle first detected 1920 1080 60 refl

-- The lowest tier, and a report with a round trip of 30 ms that loses one packet in twenty.
abbrev lowest : Adaptive (Option CodecName) ℤ
lowest = record {
  manager = record first { current_tier = tier_d; state = degraded };
  last_frame_drop_rate = pos 0;
  last_avg_encode_time_ms = pos 0;
  last_encoded_size = 3000;
  last_action_time = 0;
}

abbrev slow : LatencyPrediction ℤ
slow = record {
  predicted_rtt_ms = pos 30000;
  predicted_jitter_ms = pos 0;
  predicted_loss_rate = pos 50;
  confidence_score = pos 800;
}

abbrev report : Report ℤ
report = record {
  frame_drop_rate = pos 50;
  avg_encode_time_ms = negsuc 999;
  client_decode_time_ms = pos 5000;
  target_bitrate_kbps = pos 0;
  ai_prediction = some slow;
  analyzed_at = 9000;
  now = 9001;
}

decide-not_increase_example : (decide brittle fixed lowest report).0.action ≢ increase_bitrate
decide-not_increase_example = decide-not_increase brittle fixed lowest report slow refl refl
