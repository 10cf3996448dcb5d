-- ===== src/Host/EncoderManager/Session.antt =====
-- cpp/host/encoder_manager.cpp: the operations of the encoder session.
use remote_play.Prelude.{
  ℕ, ◌+◌, ◌-◌, List, [], ◌∷◌, Bool, true, false, not, ◌&&◌, ◌||◌, Option, none, some, ltb, sub64,
  ◌==◌, if◌then◌else◌, get_elem?,
}
use remote_play.Host.EncoderManager.{
  starting, preflight_validation, ready, streaming, degraded, emergency_fallback, shut_down, tier_a,
  software, CodecName, libx264, QualityProfile, EncoderCapability, EncoderHw, EncoderManager,
  next_tier, tier_code, set_state, get_profile_for_tier,
}

module _ (R : EncoderHw) where
  abbrev pub Manager : Type 0
  Manager = EncoderManager R.Encoder

  unfoldable pub encoder_or_made : Option R.Encoder → R.Encoder
  encoder_or_made none = R.made
  encoder_or_made (some e) = e

  -- The loop of PreflightEncoderValidation: the capabilities it leaves, and the index and the name
  -- of the first one with which an encoder starts.
  unfoldable pub preflight :
      ℕ
      → QualityProfile
      → ℕ
      → List EncoderCapability
      → List EncoderCapability × Option (ℕ × CodecName)
  preflight i profile fps [] = ([], none)
  preflight i profile fps (cap ∷ caps) =
      let (caps', found) = preflight (i + 1) profile fps caps in
      if not cap.available
      then (cap ∷ caps', found)
      else if (R.start_up R.made profile fps (some cap.codec_name)).0
      then (cap ∷ caps, some (i, cap.codec_name))
      else (record cap { available = false } ∷ caps', found)

  -- m_encoder->Initialize, and ForceKeyframe where it succeeds
  unfoldable pub start_encoder :
      Manager → R.Encoder → QualityProfile → Option CodecName → Bool × Manager
  start_encoder m e profile codec =
      let (ok, e') = R.start_up e profile m.fps codec in
      (ok, record m { encoder = some (if ok then R.force_keyframe e' else e') })

  unfoldable pub emergency_encoder_fallback : Manager → Bool × Manager
  emergency_encoder_fallback m =
      let m' = record (set_state m emergency_fallback) {
        locked_codec_name = some libx264;
        current_backend = software;
      } in
      start_encoder m' (encoder_or_made m.encoder) (get_profile_for_tier m m.current_tier)
        (some libx264)

  unfoldable pub or_fallback : Bool × Manager → Bool × Manager
  or_fallback (true, m) = (true, m)
  or_fallback (false, m) = emergency_encoder_fallback m

  -- m_capabilities[m_backendIndex].available = false
  unfoldable pub lose : List EncoderCapability → ℕ → List EncoderCapability
  lose [] i = []
  lose (cap ∷ caps) i =
      if i == 0 then record cap { available = false } ∷ caps else cap ∷ lose caps (i - 1)

  unfoldable pub after_start : Bool × Manager → Bool × Manager
  after_start (true, m) = (true, m)
  after_start (false, m) =
      emergency_encoder_fallback (record m { capabilities = lose m.capabilities m.backend_index })

  unfoldable pub start_capability : Manager → Option EncoderCapability → Bool × Manager
  start_capability m none = (false, m)
  start_capability m (some cap) = after_start (
      start_encoder (record m { current_backend = cap.backend }) R.made
        (get_profile_for_tier m m.current_tier) (some cap.codec_name))

  unfoldable pub select_and_init_encoder : Manager → Bool × Manager
  select_and_init_encoder m =
      if m.session_locked
      then or_fallback (
          start_encoder m (encoder_or_made m.encoder) (get_profile_for_tier m m.current_tier)
            m.locked_codec_name)
      else start_capability m (get_elem? m.capabilities m.backend_index)

  -- The end of Initialize: STREAMING where an encoder has started, else SHUTDOWN.
  unfoldable pub conclude : Bool × Manager → Bool × Manager
  conclude (true, m) = (true, set_state m streaming)
  conclude (false, m) = (false, set_state m shut_down)

  unfoldable pub lock_session :
      Manager → List EncoderCapability × Option (ℕ × CodecName) → Bool × Manager
  lock_session m (caps, none) = (false, set_state (record m { capabilities = caps }) shut_down)
  lock_session m (caps, some (i, codec)) = conclude (
      select_and_init_encoder (
        set_state
          (record m {
            capabilities = caps;
            backend_index = i;
            locked_codec_name = some codec;
            session_locked = true;
          })
          ready))

  unfoldable pub initialize : Manager → List EncoderCapability → ℕ → ℕ → ℕ → Bool × Manager
  initialize m detected initial_width height fps =
      let m' =
        set_state
          (record (set_state m starting) {
            base_width = initial_width;
            base_height = height;
            fps = fps;
            current_tier = tier_a;
            backend_index = 0;
            session_locked = false;
            capabilities = detected;
          })
          preflight_validation in
      lock_session m' (
        preflight 0
          (record { width = initial_width; height = height; bitrate_kbps = 5000; preset = 0 }) fps
          detected)

  -- The encoder's call of EncodeFrame, and Fallback where it fails.
  unfoldable pub encode_with : Manager → R.Encoder → Bool × Manager
  encode_with m e =
      let (ok, e') = R.encode e in
      let m' = record m { encoder = some e' } in
      if ok then (true, m') else emergency_encoder_fallback m'

  unfoldable pub is_started : Option R.Encoder → Bool
  is_started none = false
  is_started (some e) = R.is_initialized e

  unfoldable pub encode_started : Bool × Manager → Bool × Manager
  encode_started (false, m) = (false, m)
  encode_started (true, m) = encode_with m (encoder_or_made m.encoder)

  unfoldable pub encode_frame : Manager → Bool × Manager
  encode_frame m =
      if is_started m.encoder
      then encode_with m (encoder_or_made m.encoder)
      else if m.session_locked
      then encode_started (select_and_init_encoder m)
      else (false, m)

  unfoldable pub set_encoder_bitrate : Manager → Option R.Encoder → ℕ → Manager
  set_encoder_bitrate m none bitrate = m
  set_encoder_bitrate m (some e) bitrate = record m { encoder = some (R.set_bitrate e bitrate) }

  unfoldable pub has_encoder : Option R.Encoder → Bool
  has_encoder none = false
  has_encoder (some e) = true

  unfoldable pub adjust_tier : Manager → Bool → Manager
  adjust_tier m improve =
      let tier = next_tier m.current_tier improve in
      let old_profile = get_profile_for_tier m m.current_tier in
      let new_profile = get_profile_for_tier m tier in
      let m' = record m { current_tier = tier } in
      if tier_code tier == tier_code m.current_tier
      then m
      else if has_encoder m.encoder
          && (old_profile.width == new_profile.width && old_profile.height == new_profile.height)
      then set_encoder_bitrate m' m.encoder new_profile.bitrate_kbps
      else (select_and_init_encoder m').1

  -- The end of UpdatePerformanceMetrics, from the reading of the clock.
  unfoldable pub update_performance_metrics : Manager → Bool → ℕ → Manager
  update_performance_metrics m needs_downgrade now =
      let m' = if tier_code m.current_tier == 3 then m else set_state m degraded in
      if ltb (sub64 now m.last_adjustment_time) 5000 || not needs_downgrade
      then m
      else record (adjust_tier m' false) { last_adjustment_time = now }

  unfoldable pub shutdown : Manager → Manager
  shutdown m = record (set_state m shut_down) { encoder = none }
