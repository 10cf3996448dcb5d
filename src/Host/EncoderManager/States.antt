-- ===== src/Host/EncoderManager/States.antt =====
-- Which states the operations of the encoder session reach.

use remote_play.Prelude.{
  ℕ, ◌≡◌, refl, ap, ◌∙◌, Bool, true, false, ◌&&◌, Option, none, some, ◌==◌, if◌then◌else◌,
  get_elem?, Bool-cases, inl, inr,
}
use remote_play.Host.EncoderManager.{
  StreamingState, preflight_validation, ready, starting, emergency_fallback, EncoderCapability,
  EncoderHw, next_state, next_tier, tier_code, set_state, get_profile_for_tier,
}
use remote_play.Host.EncoderManager.Session.{
  Manager, start_encoder, emergency_encoder_fallback, or_fallback, after_start, start_capability,
  select_and_init_encoder, encode_with, encode_started, encode_frame, set_encoder_bitrate,
  adjust_tier, is_started, has_encoder, encoder_or_made,
}

-- The state after a start of the encoder, which may have fallen back to software.
abbrev pub fallen : Bool → StreamingState → StreamingState
fallen true s = next_state s emergency_fallback
fallen false s = s

abbrev pub IsWithin : StreamingState → StreamingState → Type 0
IsWithin s s' = (fell : Bool) × (s' ≡ fallen fell s)

-- The state in which Initialize starts the encoder.
abbrev pub booted : StreamingState → StreamingState
booted s = next_state (next_state (next_state s starting) preflight_validation) ready

module _ (R : EncoderHw) where
  or_fallback-IsWithin : (r : Bool × Manager R) → IsWithin r.1.state (or_fallback R r).1.state
  unfolding or_fallback emergency_encoder_fallback start_encoder set_state
  or_fallback-IsWithin (true, m) = (false, refl)
  or_fallback-IsWithin (false, m) = (true, refl)

  after_start-IsWithin : (r : Bool × Manager R) → IsWithin r.1.state (after_start R r).1.state
  unfolding after_start emergency_encoder_fallback start_encoder set_state
  after_start-IsWithin (true, m) = (false, refl)
  after_start-IsWithin (false, m) = (true, refl)

  start_capability-IsWithin :
      (m : Manager R) (cap : Option EncoderCapability)
      → IsWithin m.state (start_capability R m cap).1.state
  unfolding start_capability start_encoder
  start_capability-IsWithin m none = (false, refl)
  start_capability-IsWithin m (some cap) = after_start-IsWithin (
      start_encoder R (record m { current_backend = cap.backend }) R.made
        (get_profile_for_tier m m.current_tier) (some cap.codec_name))

  pub select_and_init_encoder-IsWithin :
      (m : Manager R) → IsWithin m.state (select_and_init_encoder R m).1.state
  unfolding select_and_init_encoder start_encoder
  select_and_init_encoder-IsWithin m =
      let locked =
        start_encoder R m (encoder_or_made R m.encoder) (get_profile_for_tier m m.current_tier)
          m.locked_codec_name in
      let unlocked = start_capability R m (get_elem? m.capabilities m.backend_index) in
      elim m.session_locked
        as (λ q. IsWithin m.state (if q then or_fallback R locked else unlocked).1.state) [
          | true ↦ or_fallback-IsWithin locked
          | false ↦ start_capability-IsWithin m (get_elem? m.capabilities m.backend_index)
        ]

  encode_with-IsWithin :
      (m : Manager R) (e : R.Encoder) → IsWithin m.state (encode_with R m e).1.state
  unfolding encode_with emergency_encoder_fallback start_encoder set_state
  encode_with-IsWithin m e = elim (Bool-cases (R.encode e).0) [
    | inl ok ↦ rw ok (false, refl)
    | inr failed ↦ rw failed (true, refl)
  ]

  encode_started-IsWithin :
      (s : StreamingState) (r : Bool × Manager R)
      → IsWithin s r.1.state
      → (first : Bool) × (second : Bool) × ((encode_started R r).1.state
          ≡ fallen second (fallen first s))
  unfolding encode_started
  encode_started-IsWithin s (false, m) (fell, e) = (fell, false, e)
  encode_started-IsWithin s (true, m) (fell, e) =
      let (again, e') = encode_with-IsWithin m (encoder_or_made R m.encoder) in
      (fell, again, e' ∙ ap (fallen again) e)

  pub encode_frame-state :
      (m : Manager R)
      → (first : Bool) × (second : Bool) × ((encode_frame R m).1.state
          ≡ fallen second (fallen first m.state))
  unfolding encode_frame
  encode_frame-state m =
      let now = encode_with R m (encoder_or_made R m.encoder) in
      let selected = encode_started R (select_and_init_encoder R m) in
      let refused : Bool × Manager R = (false, m) in
      elim (is_started R m.encoder)
        as (λ q.
          (first : Bool) × (second : Bool) × ((if q
              then now
              else if m.session_locked
              then selected
              else refused).1.state
            ≡ fallen second (fallen first m.state))) [
              | true ↦
                  let (fell, e) = encode_with-IsWithin m (encoder_or_made R m.encoder) in
                  (false, fell, e)
              | false ↦
                  elim m.session_locked
                    as (λ q.
                      (first : Bool) × (second : Bool) × ((if q then selected else refused).1.state
                        ≡ fallen second (fallen first m.state))) [
                          | true ↦
                              encode_started-IsWithin m.state (select_and_init_encoder R m)
                                (select_and_init_encoder-IsWithin m)
                          | false ↦ (false, false, refl)
                        ]
            ]

  set_encoder_bitrate-state :
      (m : Manager R) (e : Option R.Encoder) (bitrate : ℕ)
      → (set_encoder_bitrate R m e bitrate).state ≡ m.state
  unfolding set_encoder_bitrate
  set_encoder_bitrate-state m none bitrate = refl
  set_encoder_bitrate-state m (some e) bitrate = refl

  pub adjust_tier-IsWithin :
      (m : Manager R) (improve : Bool) → IsWithin m.state (adjust_tier R m improve).state
  unfolding adjust_tier
  adjust_tier-IsWithin m improve =
      let tier = next_tier m.current_tier improve in
      let old_profile = get_profile_for_tier m m.current_tier in
      let new_profile = get_profile_for_tier m tier in
      let m' = record m { current_tier = tier } in
      let changed = set_encoder_bitrate R m' m.encoder new_profile.bitrate_kbps in
      let restarted = (select_and_init_encoder R m').1 in
      elim (tier_code tier == tier_code m.current_tier)
        as (λ q.
          IsWithin m.state
            (if q
              then m
              else if has_encoder R m.encoder
                  && (old_profile.width == new_profile.width
                      && old_profile.height == new_profile.height)
              then changed
              else restarted).state) [
                | true ↦ (false, refl)
                | false ↦
                    elim (has_encoder R m.encoder
                        && (old_profile.width == new_profile.width
                            && old_profile.height == new_profile.height))
                      as (λ q. IsWithin m.state (if q then changed else restarted).state) [
                        | true ↦
                            (false, set_encoder_bitrate-state m' m.encoder new_profile.bitrate_kbps)
                        | false ↦ select_and_init_encoder-IsWithin m'
                      ]
              ]
