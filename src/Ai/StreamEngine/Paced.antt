-- ===== src/Ai/StreamEngine/Paced.antt =====
-- cpp/ai/stream_engine.cpp: how far apart the engine's actions are, over any sequence of calls.
use remote_play.Prelude.{
  ℕ, ◌+◌, ◌^◌, ◌≤◌, ◌<◌, ◌≡◌, List, [], ◌∷◌, Bool, true, false, ◌&&◌, refl, arith, ltb, Bool-cases,
  inl, inr, sub64,
}
use remote_play.Prelude.Int.{ℤ, pos, ltb_ℤ}
use remote_play.Ai.Floats.{Floats}
use remote_play.Ai.StreamEngine.{
  AdaptationAction, increase_bitrate, decrease_bitrate, emergency_throttle, LatencyPrediction,
  StreamState, AdaptationDecision, scale_resolution, adjust_bitrate, analyze, is_critical,
  is_congested, is_stable, unchanged,
}

-- A change of the bit rate by the regular rules.
abbrev pub is_step : AdaptationAction → Bool
is_step increase_bitrate = true
is_step decrease_bitrate = true
is_step _ = false

-- An action on the bit rate, by the regular rules or by the throttle.
abbrev pub is_rated : AdaptationAction → Bool
is_rated emergency_throttle = true
is_rated a = is_step a

-- A call of Analyze, with the time.
pub record Call (float : Type 0) : Type 0 where
  pub stream : StreamState float
  pub prediction : LatencyPrediction float
  pub now : ℕ

-- The clock does not go back, and has 64 bits.
abbrev pub IsClock : {float : Type 0} → ℕ → List (Call float) → Type 0
IsClock since [] = Unit
IsClock since (c ∷ cs) = (since ≤ c.now) × (c.now < 2 ^ 64) × IsClock c.now cs

IsClock-lower :
    {float : Type 0} (early since : ℕ) (cs : List (Call float))
    → early ≤ since
    → IsClock since cs
    → IsClock early cs
IsClock-lower early since [] h clock = tt
IsClock-lower early since (c ∷ cs) h (le, fits, clock) = (omega arith, fits, clock)

-- No regular change within two seconds.
abbrev pub AllLater : ℕ → List (ℕ × AdaptationAction) → Type 0
AllLater since [] = Unit
AllLater since ((t, a) ∷ rest) = (is_step a ≡ true → since + 2000 ≤ t) × AllLater since rest

abbrev pub IsPaced : List (ℕ × AdaptationAction) → Type 0
IsPaced [] = Unit
IsPaced ((t, a) ∷ rest) = (is_rated a ≡ true → AllLater t rest) × IsPaced rest

scale_resolution-step :
    (w : ℤ) (d : AdaptationDecision)
    → is_rated (scale_resolution w d).action ≡ true
    → (scale_resolution w d).action ≡ d.action
unfolding scale_resolution
scale_resolution-step w d h = ground arith

module _ (F : Floats) where
  unfoldable pub analyze_all : ℕ → List (Call F.Float) → List (ℕ × AdaptationAction)
  analyze_all last [] = []
  analyze_all last (c ∷ cs) =
      let (d, last') = analyze F last c.stream c.prediction c.now in
      (c.now, d.action) ∷ analyze_all last' cs

  -- What one call does to the time of the last action.
  record IsTimed (last now last' : ℕ) (a : AdaptationAction) : Type 0 where
    apart : is_step a ≡ true → last + 2000 ≤ now
    noted : is_rated a ≡ true → last' ≡ now
    forward : last ≤ last'
    past : last' ≤ now

  acted_now : {last now : ℕ} {a : AdaptationAction} → last + 2000 ≤ now → IsTimed last now now a
  acted_now h = record {
    apart = λ e. h;
    noted = λ e. refl;
    forward = omega arith;
    past = omega arith;
  }

  adjusted-IsTimed :
      (last : ℕ) (s : StreamState F.Float) (p : LatencyPrediction F.Float) (now : ℕ)
      → last + 2000 ≤ now
      → let (d, last') = adjust_bitrate F last s p now in
        IsTimed last now last' (scale_resolution s.current_width d).action
  unfolding adjust_bitrate
  adjusted-IsTimed last s p now h = elim (Bool-cases (is_congested F s p)) [
    | inl yes_more ↦ rw yes_more (acted_now h)
    | inr quiet ↦
        rw quiet (elim (Bool-cases (is_stable F s p && ltb_ℤ s.current_bitrate_kbps (pos 30000))) [
          | inl stable ↦ rw stable (acted_now h)
          | inr other ↦ rw other (record {
            apart = λ e. h;
            noted = λ e. cc (scale_resolution-step s.current_width (unchanged F s) e);
            forward = omega arith;
            past = omega arith;
          })
        ])
  ]

  analyze-IsTimed :
      (last : ℕ) (s : StreamState F.Float) (p : LatencyPrediction F.Float) (now : ℕ)
      → last ≤ now
      → now < 2 ^ 64
      → let (d, last') = analyze F last s p now in IsTimed last now last' d.action
  unfolding analyze
  analyze-IsTimed last s p now le fits = elim (Bool-cases (is_critical F p)) [
    | inl critical ↦
        rw critical
          (record { apart = λ e. cc; noted = λ e. refl; forward = le; past = omega arith })
    | inr calm ↦ rw calm (elim (Bool-cases (ltb (sub64 now last) 2000)) [
      | inl soon ↦
          rw soon (record { apart = λ e. cc; noted = λ e. cc; forward = omega arith; past = le })
      | inr due ↦ rw due (adjusted-IsTimed last s p now (ground (arith, due)))
    ])
  ]

  AllLater-after :
      (since last : ℕ) (cs : List (Call F.Float)) (before : ℕ)
      → since ≤ last
      → last ≤ before
      → IsClock before cs
      → AllLater since (analyze_all last cs)
  unfolding analyze_all
  AllLater-after since last [] before h k clock = tt
  AllLater-after since last (c ∷ cs) before h k (le, fits, clock) =
      let t = analyze-IsTimed last c.stream c.prediction c.now (omega arith) fits in
      (
        λ e. omega (arith, t.apart e),
        AllLater-after since (analyze F last c.stream c.prediction c.now).1 cs c.now
            (omega (arith, t.forward)) t.past clock,
      )

  -- While the clock does not go back, a regular change of the bit rate comes at least two seconds after
  -- every earlier change and every emergency throttle, whatever was predicted.
  pub analyze_all-IsPaced :
      (last : ℕ) (cs : List (Call F.Float)) → IsClock last cs → IsPaced (analyze_all last cs)
  unfolding analyze_all
  analyze_all-IsPaced last [] clock = tt
  analyze_all-IsPaced last (c ∷ cs) (le, fits, clock) =
      let t = analyze-IsTimed last c.stream c.prediction c.now le fits in
      (
        λ e. AllLater-after c.now _ cs c.now (omega (arith, t.noted e)) t.past clock,
        analyze_all-IsPaced (analyze F last c.stream c.prediction c.now).1 cs
            (IsClock-lower _ c.now cs t.past clock),
      )
