-- ===== src/Host/EncoderManager/Kept.antt =====
-- What no sequence of calls of the encoder session ends.

use remote_play.Prelude.{
  ℕ, sub64, ◌≡◌, ap, ◌∙◌, List, [], ◌∷◌, Bool, true, false, not, ◌||◌, ltb, ◌==◌, if◌then◌else◌,
  inl, inr,
}
use remote_play.Host.EncoderManager.{
  StreamingState, degraded, EncoderHw, next_state, tier_code, set_state,
}
use remote_play.Host.EncoderManager.Session.{
  Manager, adjust_tier, update_performance_metrics, shutdown,
}
use remote_play.Host.EncoderManager.States.{fallen, encode_frame-state, adjust_tier-IsWithin}
use remote_play.Host.EncoderManager.Reach.{
  Running, encodes, updates, shuts_down, Call, initializes, runs, IsKept, IsAlwaysKept, Ends,
  perform, perform_all, call, call_all, initialize-Ends,
}

module _ (R : EncoderHw) (P : StreamingState → Bool) (k : IsKept P) where
  fallen-Holds : (fell : Bool) (s : StreamingState) → P s ≡ true → P (fallen fell s) ≡ true
  fallen-Holds true s h = k.by_fallback s h
  fallen-Holds false s h = h

  update-Holds :
      (m : Manager R) (needs_downgrade : Bool) (now : ℕ)
      → P m.state ≡ true
      → P (update_performance_metrics R m needs_downgrade now).state ≡ true
  unfolding update_performance_metrics set_state
  update-Holds m needs_downgrade now h =
      let lowered = record m { state = next_state m.state degraded } in
      let adjusted : Manager R → Manager R =
        λ m'. record (adjust_tier R m' false) { last_adjustment_time = now } in
      let step : (m' : Manager R) → P m'.state ≡ true → P (adjusted m').state ≡ true = λ m' h'.
        let (fell, e) = adjust_tier-IsWithin R m' false in ap P e ∙ fallen-Holds fell m'.state h' in
      elim (ltb (sub64 now m.last_adjustment_time) 5000 || not needs_downgrade)
        as (λ q.
          P (if q then m else adjusted (if tier_code m.current_tier == 3 then m else lowered)).state
          ≡ true) [
            | true ↦ h
            | false ↦
                elim (tier_code m.current_tier == 3)
                  as (λ q. P (adjusted (if q then m else lowered)).state ≡ true) [
                    | true ↦ step m h
                    | false ↦ step lowered (k.by_downgrade m.state h)
                  ]
          ]

  perform-Holds : (m : Manager R) (c : Running) → P m.state ≡ true → P (perform R m c).state ≡ true
  unfolding perform shutdown set_state
  perform-Holds m encodes h =
      let (first, second, e) = encode_frame-state R m in
      ap P e ∙ fallen-Holds second (fallen first m.state) (fallen-Holds first m.state h)
  perform-Holds m (updates needs_downgrade now) h = update-Holds m needs_downgrade now h
  perform-Holds m shuts_down h = k.by_shutdown m.state h

  pub perform_all-Holds :
      (m : Manager R) (cs : List Running) → P m.state ≡ true → P (perform_all R m cs).state ≡ true
  unfolding perform_all
  perform_all-Holds m [] h = h
  perform_all-Holds m (c ∷ cs) h = perform_all-Holds (perform R m c) cs (perform-Holds m c h)

module _ (R : EncoderHw) (P : StreamingState → Bool) (k : IsAlwaysKept P) where
  Ends-Holds :
      (s : StreamingState) (ok : Bool) (s' : StreamingState)
      → P s ≡ true
      → Ends s ok s'
      → P s' ≡ true
  Ends-Holds s true s' h (fell, e) = ap P e ∙ k.by_success s fell h
  Ends-Holds s false s' h (inl e) = ap P e ∙ k.by_refusal s h
  Ends-Holds s false s' h (inr (fell, e)) = ap P e ∙ k.by_failure s fell h

  call-Holds : (m : Manager R) (c : Call) → P m.state ≡ true → P (call R m c).state ≡ true
  unfolding call
  call-Holds m (initializes caps width height fps) h =
      Ends-Holds m.state _ _ h (initialize-Ends R m caps width height fps)
  call-Holds m (runs c) h = perform-Holds R P k.kept m c h

  pub call_all-Holds :
      (m : Manager R) (cs : List Call) → P m.state ≡ true → P (call_all R m cs).state ≡ true
  unfolding call_all
  call_all-Holds m [] h = h
  call_all-Holds m (c ∷ cs) h = call_all-Holds (call R m c) cs (call-Holds m c h)
