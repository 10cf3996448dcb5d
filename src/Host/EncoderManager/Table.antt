-- ===== src/Host/EncoderManager/Table.antt =====
-- Three sets of states of the encoder session that its calls do not leave, by the table of SetState.
use remote_play.Prelude.{◌≡◌, refl, Bool, true, false, arith}
use remote_play.Host.EncoderManager.{
  StreamingState, idle, preflight_validation, ready, starting, streaming, degraded, recovering,
  emergency_fallback, shut_down, is_valid, next_state,
}
use remote_play.Host.EncoderManager.States.{fallen, booted}
use remote_play.Host.EncoderManager.Reach.{IsKept, IsAlwaysKept}

-- The states between two calls: STARTING, PREFLIGHT_VALIDATION, READY and RECOVERING are none.
unfoldable pub is_at_rest : StreamingState → Bool
is_at_rest idle = true
is_at_rest streaming = true
is_at_rest degraded = true
is_at_rest emergency_fallback = true
is_at_rest shut_down = true
is_at_rest preflight_validation = false
is_at_rest ready = false
is_at_rest starting = false
is_at_rest recovering = false

-- The states of a session that was degraded, fell back, or was shut down.
unfoldable pub is_worn : StreamingState → Bool
is_worn idle = false
is_worn preflight_validation = false
is_worn ready = false
is_worn starting = false
is_worn streaming = false
is_worn degraded = true
is_worn recovering = false
is_worn emergency_fallback = true
is_worn shut_down = true

unfoldable pub is_shut_down : StreamingState → Bool
is_shut_down idle = false
is_shut_down preflight_validation = false
is_shut_down ready = false
is_shut_down starting = false
is_shut_down streaming = false
is_shut_down degraded = false
is_shut_down recovering = false
is_shut_down emergency_fallback = false
is_shut_down shut_down = true

is_at_rest-fallback :
    (s : StreamingState) → is_at_rest s ≡ true → is_at_rest (next_state s emergency_fallback) ≡ true
unfolding is_at_rest next_state is_valid
is_at_rest-fallback idle h = refl
is_at_rest-fallback preflight_validation h = absurd (ground (arith, h))
is_at_rest-fallback ready h = absurd (ground (arith, h))
is_at_rest-fallback starting h = absurd (ground (arith, h))
is_at_rest-fallback streaming h = refl
is_at_rest-fallback degraded h = refl
is_at_rest-fallback recovering h = absurd (ground (arith, h))
is_at_rest-fallback emergency_fallback h = refl
is_at_rest-fallback shut_down h = refl

is_at_rest-downgrade :
    (s : StreamingState) → is_at_rest s ≡ true → is_at_rest (next_state s degraded) ≡ true
unfolding is_at_rest next_state is_valid
is_at_rest-downgrade idle h = refl
is_at_rest-downgrade preflight_validation h = absurd (ground (arith, h))
is_at_rest-downgrade ready h = absurd (ground (arith, h))
is_at_rest-downgrade starting h = absurd (ground (arith, h))
is_at_rest-downgrade streaming h = refl
is_at_rest-downgrade degraded h = refl
is_at_rest-downgrade recovering h = absurd (ground (arith, h))
is_at_rest-downgrade emergency_fallback h = refl
is_at_rest-downgrade shut_down h = refl

is_at_rest-shutdown :
    (s : StreamingState) → is_at_rest s ≡ true → is_at_rest (next_state s shut_down) ≡ true
unfolding is_at_rest next_state is_valid
is_at_rest-shutdown idle h = refl
is_at_rest-shutdown preflight_validation h = absurd (ground (arith, h))
is_at_rest-shutdown ready h = absurd (ground (arith, h))
is_at_rest-shutdown starting h = absurd (ground (arith, h))
is_at_rest-shutdown streaming h = refl
is_at_rest-shutdown degraded h = refl
is_at_rest-shutdown recovering h = absurd (ground (arith, h))
is_at_rest-shutdown emergency_fallback h = refl
is_at_rest-shutdown shut_down h = refl

is_at_rest-success :
    (s : StreamingState) (fell : Bool)
    → is_at_rest s ≡ true
    → is_at_rest (next_state (fallen fell (booted s)) streaming) ≡ true
unfolding is_at_rest next_state is_valid
is_at_rest-success idle true h = refl
is_at_rest-success idle false h = refl
is_at_rest-success preflight_validation fell h = absurd (ground (arith, h))
is_at_rest-success ready fell h = absurd (ground (arith, h))
is_at_rest-success starting fell h = absurd (ground (arith, h))
is_at_rest-success streaming true h = refl
is_at_rest-success streaming false h = refl
is_at_rest-success degraded true h = refl
is_at_rest-success degraded false h = refl
is_at_rest-success recovering fell h = absurd (ground (arith, h))
is_at_rest-success emergency_fallback true h = refl
is_at_rest-success emergency_fallback false h = refl
is_at_rest-success shut_down true h = refl
is_at_rest-success shut_down false h = refl

is_at_rest-failure :
    (s : StreamingState) (fell : Bool)
    → is_at_rest s ≡ true
    → is_at_rest (next_state (fallen fell (booted s)) shut_down) ≡ true
unfolding is_at_rest next_state is_valid
is_at_rest-failure idle true h = refl
is_at_rest-failure idle false h = refl
is_at_rest-failure preflight_validation fell h = absurd (ground (arith, h))
is_at_rest-failure ready fell h = absurd (ground (arith, h))
is_at_rest-failure starting fell h = absurd (ground (arith, h))
is_at_rest-failure streaming true h = refl
is_at_rest-failure streaming false h = refl
is_at_rest-failure degraded true h = refl
is_at_rest-failure degraded false h = refl
is_at_rest-failure recovering fell h = absurd (ground (arith, h))
is_at_rest-failure emergency_fallback true h = refl
is_at_rest-failure emergency_fallback false h = refl
is_at_rest-failure shut_down true h = refl
is_at_rest-failure shut_down false h = refl

is_at_rest-refusal :
    (s : StreamingState)
    → is_at_rest s ≡ true
    → is_at_rest (next_state (next_state (next_state s starting) preflight_validation) shut_down)
      ≡ true
unfolding is_at_rest next_state is_valid
is_at_rest-refusal idle h = refl
is_at_rest-refusal preflight_validation h = absurd (ground (arith, h))
is_at_rest-refusal ready h = absurd (ground (arith, h))
is_at_rest-refusal starting h = absurd (ground (arith, h))
is_at_rest-refusal streaming h = refl
is_at_rest-refusal degraded h = refl
is_at_rest-refusal recovering h = absurd (ground (arith, h))
is_at_rest-refusal emergency_fallback h = refl
is_at_rest-refusal shut_down h = refl

is_at_rest-IsKept : IsKept is_at_rest
is_at_rest-IsKept = record {
  by_fallback = is_at_rest-fallback;
  by_downgrade = is_at_rest-downgrade;
  by_shutdown = is_at_rest-shutdown;
}

pub is_at_rest-IsAlwaysKept : IsAlwaysKept is_at_rest
is_at_rest-IsAlwaysKept = record {
  kept = is_at_rest-IsKept;
  by_success = is_at_rest-success;
  by_failure = is_at_rest-failure;
  by_refusal = is_at_rest-refusal;
}

is_worn-fallback :
    (s : StreamingState) → is_worn s ≡ true → is_worn (next_state s emergency_fallback) ≡ true
unfolding is_worn next_state is_valid
is_worn-fallback idle h = absurd (ground (arith, h))
is_worn-fallback preflight_validation h = absurd (ground (arith, h))
is_worn-fallback ready h = absurd (ground (arith, h))
is_worn-fallback starting h = absurd (ground (arith, h))
is_worn-fallback streaming h = absurd (ground (arith, h))
is_worn-fallback degraded h = refl
is_worn-fallback recovering h = absurd (ground (arith, h))
is_worn-fallback emergency_fallback h = refl
is_worn-fallback shut_down h = refl

is_worn-downgrade : (s : StreamingState) → is_worn s ≡ true → is_worn (next_state s degraded) ≡ true
unfolding is_worn next_state is_valid
is_worn-downgrade idle h = absurd (ground (arith, h))
is_worn-downgrade preflight_validation h = absurd (ground (arith, h))
is_worn-downgrade ready h = absurd (ground (arith, h))
is_worn-downgrade starting h = absurd (ground (arith, h))
is_worn-downgrade streaming h = absurd (ground (arith, h))
is_worn-downgrade degraded h = refl
is_worn-downgrade recovering h = absurd (ground (arith, h))
is_worn-downgrade emergency_fallback h = refl
is_worn-downgrade shut_down h = refl

is_worn-shutdown : (s : StreamingState) → is_worn s ≡ true → is_worn (next_state s shut_down) ≡ true
unfolding is_worn next_state is_valid
is_worn-shutdown idle h = absurd (ground (arith, h))
is_worn-shutdown preflight_validation h = absurd (ground (arith, h))
is_worn-shutdown ready h = absurd (ground (arith, h))
is_worn-shutdown starting h = absurd (ground (arith, h))
is_worn-shutdown streaming h = absurd (ground (arith, h))
is_worn-shutdown degraded h = refl
is_worn-shutdown recovering h = absurd (ground (arith, h))
is_worn-shutdown emergency_fallback h = refl
is_worn-shutdown shut_down h = refl

pub is_worn-IsKept : IsKept is_worn
is_worn-IsKept = record {
  by_fallback = is_worn-fallback;
  by_downgrade = is_worn-downgrade;
  by_shutdown = is_worn-shutdown;
}

is_shut_down-fallback :
    (s : StreamingState)
    → is_shut_down s ≡ true
    → is_shut_down (next_state s emergency_fallback) ≡ true
unfolding is_shut_down next_state is_valid
is_shut_down-fallback idle h = absurd (ground (arith, h))
is_shut_down-fallback preflight_validation h = absurd (ground (arith, h))
is_shut_down-fallback ready h = absurd (ground (arith, h))
is_shut_down-fallback starting h = absurd (ground (arith, h))
is_shut_down-fallback streaming h = absurd (ground (arith, h))
is_shut_down-fallback degraded h = absurd (ground (arith, h))
is_shut_down-fallback recovering h = absurd (ground (arith, h))
is_shut_down-fallback emergency_fallback h = absurd (ground (arith, h))
is_shut_down-fallback shut_down h = refl

is_shut_down-downgrade :
    (s : StreamingState) → is_shut_down s ≡ true → is_shut_down (next_state s degraded) ≡ true
unfolding is_shut_down next_state is_valid
is_shut_down-downgrade idle h = absurd (ground (arith, h))
is_shut_down-downgrade preflight_validation h = absurd (ground (arith, h))
is_shut_down-downgrade ready h = absurd (ground (arith, h))
is_shut_down-downgrade starting h = absurd (ground (arith, h))
is_shut_down-downgrade streaming h = absurd (ground (arith, h))
is_shut_down-downgrade degraded h = absurd (ground (arith, h))
is_shut_down-downgrade recovering h = absurd (ground (arith, h))
is_shut_down-downgrade emergency_fallback h = absurd (ground (arith, h))
is_shut_down-downgrade shut_down h = refl

is_shut_down-shutdown :
    (s : StreamingState) → is_shut_down s ≡ true → is_shut_down (next_state s shut_down) ≡ true
unfolding is_shut_down next_state is_valid
is_shut_down-shutdown idle h = absurd (ground (arith, h))
is_shut_down-shutdown preflight_validation h = absurd (ground (arith, h))
is_shut_down-shutdown ready h = absurd (ground (arith, h))
is_shut_down-shutdown starting h = absurd (ground (arith, h))
is_shut_down-shutdown streaming h = absurd (ground (arith, h))
is_shut_down-shutdown degraded h = absurd (ground (arith, h))
is_shut_down-shutdown recovering h = absurd (ground (arith, h))
is_shut_down-shutdown emergency_fallback h = absurd (ground (arith, h))
is_shut_down-shutdown shut_down h = refl

is_shut_down-success :
    (s : StreamingState) (fell : Bool)
    → is_shut_down s ≡ true
    → is_shut_down (next_state (fallen fell (booted s)) streaming) ≡ true
unfolding is_shut_down next_state is_valid
is_shut_down-success idle fell h = absurd (ground (arith, h))
is_shut_down-success preflight_validation fell h = absurd (ground (arith, h))
is_shut_down-success ready fell h = absurd (ground (arith, h))
is_shut_down-success starting fell h = absurd (ground (arith, h))
is_shut_down-success streaming fell h = absurd (ground (arith, h))
is_shut_down-success degraded fell h = absurd (ground (arith, h))
is_shut_down-success recovering fell h = absurd (ground (arith, h))
is_shut_down-success emergency_fallback fell h = absurd (ground (arith, h))
is_shut_down-success shut_down true h = refl
is_shut_down-success shut_down false h = refl

is_shut_down-failure :
    (s : StreamingState) (fell : Bool)
    → is_shut_down s ≡ true
    → is_shut_down (next_state (fallen fell (booted s)) shut_down) ≡ true
unfolding is_shut_down next_state is_valid
is_shut_down-failure idle fell h = absurd (ground (arith, h))
is_shut_down-failure preflight_validation fell h = absurd (ground (arith, h))
is_shut_down-failure ready fell h = absurd (ground (arith, h))
is_shut_down-failure starting fell h = absurd (ground (arith, h))
is_shut_down-failure streaming fell h = absurd (ground (arith, h))
is_shut_down-failure degraded fell h = absurd (ground (arith, h))
is_shut_down-failure recovering fell h = absurd (ground (arith, h))
is_shut_down-failure emergency_fallback fell h = absurd (ground (arith, h))
is_shut_down-failure shut_down true h = refl
is_shut_down-failure shut_down false h = refl

is_shut_down-refusal :
    (s : StreamingState)
    → is_shut_down s ≡ true
    → is_shut_down (next_state (next_state (next_state s starting) preflight_validation) shut_down)
      ≡ true
unfolding is_shut_down next_state is_valid
is_shut_down-refusal idle h = absurd (ground (arith, h))
is_shut_down-refusal preflight_validation h = absurd (ground (arith, h))
is_shut_down-refusal ready h = absurd (ground (arith, h))
is_shut_down-refusal starting h = absurd (ground (arith, h))
is_shut_down-refusal streaming h = absurd (ground (arith, h))
is_shut_down-refusal degraded h = absurd (ground (arith, h))
is_shut_down-refusal recovering h = absurd (ground (arith, h))
is_shut_down-refusal emergency_fallback h = absurd (ground (arith, h))
is_shut_down-refusal shut_down h = refl

is_shut_down-IsKept : IsKept is_shut_down
is_shut_down-IsKept = record {
  by_fallback = is_shut_down-fallback;
  by_downgrade = is_shut_down-downgrade;
  by_shutdown = is_shut_down-shutdown;
}

pub is_shut_down-IsAlwaysKept : IsAlwaysKept is_shut_down
is_shut_down-IsAlwaysKept = record {
  kept = is_shut_down-IsKept;
  by_success = is_shut_down-success;
  by_failure = is_shut_down-failure;
  by_refusal = is_shut_down-refusal;
}
