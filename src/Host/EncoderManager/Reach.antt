-- ===== src/Host/EncoderManager/Reach.antt =====
-- Sequences of calls of the encoder session, and the states that they leave.

use remote_play.Prelude.{
  ℕ, ◌≡◌, ◌⊎◌, refl, ap, ◌∙◌, List, [], ◌∷◌, Bool, true, false, Option, none, some, inl, inr,
}
use remote_play.Host.EncoderManager.{
  StreamingState, preflight_validation, ready, starting, streaming, degraded, emergency_fallback,
  shut_down, EncoderCapability, EncoderHw, CodecName, next_state, set_state,
}
use remote_play.Host.EncoderManager.Session.{
  Manager, select_and_init_encoder, conclude, lock_session, initialize, encode_frame,
  update_performance_metrics, shutdown,
}
use remote_play.Host.EncoderManager.States.{
  fallen, IsWithin, booted, select_and_init_encoder-IsWithin,
}

-- The calls while a session runs, and the calls at all.
pub data Running : Type 0 where
  encodes : Running
  updates : Bool → ℕ → Running
  shuts_down : Running

pub data Call : Type 0 where
  initializes : List EncoderCapability → ℕ → ℕ → ℕ → Call
  runs : Running → Call

-- The three ways in which a property of states is kept while a session runs, and those in which
-- Initialize ends.
pub record IsKept (P : StreamingState → Bool) : Type 0 where
  pub by_fallback : (s : StreamingState) → P s ≡ true → P (next_state s emergency_fallback) ≡ true
  pub by_downgrade : (s : StreamingState) → P s ≡ true → P (next_state s degraded) ≡ true
  pub by_shutdown : (s : StreamingState) → P s ≡ true → P (next_state s shut_down) ≡ true

pub record IsAlwaysKept (P : StreamingState → Bool) : Type 0 where
  pub kept : IsKept P
  pub by_success :
      (s : StreamingState) (fell : Bool)
      → P s ≡ true
      → P (next_state (fallen fell (booted s)) streaming) ≡ true
  pub by_failure :
      (s : StreamingState) (fell : Bool)
      → P s ≡ true
      → P (next_state (fallen fell (booted s)) shut_down) ≡ true
  pub by_refusal :
      (s : StreamingState)
      → P s ≡ true
      → P (next_state (next_state (next_state s starting) preflight_validation) shut_down) ≡ true

-- How Initialize ends, from the state `s`.
abbrev pub Ends : StreamingState → Bool → StreamingState → Type 0
Ends s true s' = (fell : Bool) × (s' ≡ next_state (fallen fell (booted s)) streaming)
Ends s false s' =
    (s' ≡ next_state (next_state (next_state s starting) preflight_validation) shut_down)
    ⊎ ((fell : Bool) × (s' ≡ next_state (fallen fell (booted s)) shut_down))

module _ (R : EncoderHw) where
  unfoldable pub perform : Manager R → Running → Manager R
  perform m encodes = (encode_frame R m).1
  perform m (updates needs_downgrade now) = update_performance_metrics R m needs_downgrade now
  perform m shuts_down = shutdown R m

  unfoldable pub perform_all : Manager R → List Running → Manager R
  perform_all m [] = m
  perform_all m (c ∷ cs) = perform_all (perform m c) cs

  unfoldable pub call : Manager R → Call → Manager R
  call m (initializes caps width height fps) = (initialize R m caps width height fps).1
  call m (runs c) = perform m c

  unfoldable pub call_all : Manager R → List Call → Manager R
  call_all m [] = m
  call_all m (c ∷ cs) = call_all (call m c) cs

  conclude-Ends :
      (s : StreamingState) (r : Bool × Manager R)
      → IsWithin (booted s) r.1.state
      → Ends s (conclude R r).0 (conclude R r).1.state
  unfolding conclude set_state
  conclude-Ends s (true, m) (fell, e) = (fell, ap (λ q. next_state q streaming) e)
  conclude-Ends s (false, m) (fell, e) = inr (fell, ap (λ q. next_state q shut_down) e)

  lock_session-Ends :
      (s : StreamingState) (m : Manager R) (p : List EncoderCapability × Option (ℕ × CodecName))
      → m.state ≡ next_state (next_state s starting) preflight_validation
      → Ends s (lock_session R m p).0 (lock_session R m p).1.state
  unfolding lock_session set_state
  lock_session-Ends s m (caps, none) e = inl (ap (λ q. next_state q shut_down) e)
  lock_session-Ends s m (caps, some (i, codec)) e =
      let m' = record m {
        capabilities = caps;
        backend_index = i;
        locked_codec_name = some codec;
        session_locked = true;
        state = next_state m.state ready;
      } in
      let (fell, e') = select_and_init_encoder-IsWithin R m' in
      conclude-Ends s (select_and_init_encoder R m')
        (fell, e' ∙ ap (λ q. fallen fell (next_state q ready)) e)

  pub initialize-Ends :
      (m : Manager R) (caps : List EncoderCapability) (width height fps : ℕ)
      → let r = initialize R m caps width height fps in Ends m.state r.0 r.1.state
  unfolding initialize set_state
  initialize-Ends m caps width height fps = lock_session-Ends m.state _ _ refl
