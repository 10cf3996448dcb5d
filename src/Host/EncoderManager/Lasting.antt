-- ===== src/Host/EncoderManager/Lasting.antt =====
-- What the encoder session's states promise over any calls.
use remote_play.Prelude.{ℕ, ◌≡◌, refl, List, Bool, true, false, if◌then◌else◌, ap, ◌∙◌, inl, inr}
use remote_play.Host.EncoderManager.{
  StreamingState, idle, starting, preflight_validation, streaming, shut_down, EncoderCapability,
  EncoderHw, is_valid, next_state,
}
use remote_play.Host.EncoderManager.Session.{Manager, initialize}
use remote_play.Host.EncoderManager.States.{fallen, booted}
use remote_play.Host.EncoderManager.Reach.{
  Running, Call, Ends, perform_all, call_all, initialize-Ends,
}
use remote_play.Host.EncoderManager.Kept.{perform_all-Holds, call_all-Holds}
use remote_play.Host.EncoderManager.Table.{
  is_at_rest, is_worn, is_shut_down, is_at_rest-IsAlwaysKept, is_worn-IsKept,
  is_shut_down-IsAlwaysKept,
}

-- From a state between two calls, such as the first one, any calls of Initialize, EncodeFrame,
-- UpdatePerformanceMetrics and Shutdown in any order, whatever the encoder answers, end in IDLE,
-- STREAMING, DEGRADED, EMERGENCY_FALLBACK or SHUTDOWN: RECOVERING is never reached.
pub call_all-is_at_rest :
    (R : EncoderHw) (m : Manager R) (cs : List Call)
    → is_at_rest m.state ≡ true
    → is_at_rest (call_all R m cs).state ≡ true
call_all-is_at_rest R m cs = call_all-Holds R is_at_rest is_at_rest-IsAlwaysKept m cs

-- A session that is degraded, has fallen back to software or is shut down stays in one of these
-- three states through any frames, metrics and shutdowns: none of them brings it back to STREAMING.
pub perform_all-is_worn :
    (R : EncoderHw) (m : Manager R) (cs : List Running)
    → is_worn m.state ≡ true
    → is_worn (perform_all R m cs).state ≡ true
perform_all-is_worn R m cs = perform_all-Holds R is_worn is_worn-IsKept m cs

-- After Shutdown the state is SHUTDOWN for ever, whatever is called, Initialize included.
pub call_all-is_shut_down :
    (R : EncoderHw) (m : Manager R) (cs : List Call)
    → is_shut_down m.state ≡ true
    → is_shut_down (call_all R m cs).state ≡ true
call_all-is_shut_down R m cs = call_all-Holds R is_shut_down is_shut_down-IsAlwaysKept m cs

up : (fell : Bool) → next_state (fallen fell (booted idle)) streaming ≡ streaming
unfolding next_state is_valid
up true = refl
up false = refl

down : (fell : Bool) → next_state (fallen fell (booted idle)) shut_down ≡ shut_down
unfolding next_state is_valid
down true = refl
down false = refl

refused :
    next_state (next_state (next_state idle starting) preflight_validation) shut_down ≡ shut_down
unfolding next_state is_valid
refused = refl

-- Initialize of an idle session answers true in the state STREAMING and false in the state SHUTDOWN,
-- whatever the capabilities, the encoder's answers and the fallback.
pub initialize-outcome :
    (R : EncoderHw) (m : Manager R) (caps : List EncoderCapability) (width height fps : ℕ)
    → m.state ≡ idle
    → let r = initialize R m caps width height fps in
      r.1.state ≡ (if r.0 then streaming else shut_down)
initialize-outcome R m caps width height fps e =
    let r = initialize R m caps width height fps in
    outcome m.state r.0 r.1.state e (initialize-Ends R m caps width height fps)
  where
    outcome :
        (s : StreamingState) (ok : Bool) (s' : StreamingState)
        → s ≡ idle
        → Ends s ok s'
        → s' ≡ (if ok then streaming else shut_down)
    outcome s true s' at (fell, e') =
        e' ∙ ap (λ q. next_state (fallen fell (booted q)) streaming) at ∙ up fell
    outcome s false s' at (inl e') =
        e'
        ∙ ap (λ q. next_state (next_state (next_state q starting) preflight_validation) shut_down)
            at
        ∙ refused
    outcome s false s' at (inr (fell, e')) =
        e' ∙ ap (λ q. next_state (fallen fell (booted q)) shut_down) at ∙ down fell
