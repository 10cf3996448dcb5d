-- ===== src/Common/Profiler/Latest.antt =====
-- cpp/common/profiler.hpp: what a buffer of samples holds, and what the statistics say of it.
use remote_play.Prelude.{
  ℕ, zero, suc, ◌+◌, ◌-◌, ◌%◌, ◌≤◌, ◌<◌, ◌≡◌, ◌⊎◌, refl, sym, ap, ◌∙◌, min, List, [], ◌∷◌, ◌++◌,
  true, false, arith, ltb, ◌==◌, if◌then◌else◌, length, get_or, length-append, Bool-cases, inl, inr,
  ==_of_ne,
}
use mathlib.Core.List.{append-nil, append_assoc}
use remote_play.Ai.Floats.{Floats}
use remote_play.Ai.Router.{Sort}
use remote_play.Common.Profiler.{SampleBuffer, make_buffer, record_sample, calculate_stats}

module _ {ℓ} {A : Type ℓ} where
  get_or-append_left :
      (xs ys : List A) (i : ℕ) (d : A) → i < length xs → get_or (xs ++ ys) i d ≡ get_or xs i d
  get_or-append_left [] ys i d h = absurd (omega arith)
  get_or-append_left (x ∷ xs) ys zero d h = refl
  get_or-append_left (x ∷ xs) ys (suc i) d h = get_or-append_left xs ys i d (omega arith)

  get_or-append_end : (xs : List A) (y d : A) → get_or (xs ++ y ∷ []) (length xs) d ≡ y
  get_or-append_end [] y d = refl
  get_or-append_end (x ∷ xs) y d = get_or-append_end xs y d

module _ (F : Floats) where
  unfoldable pub record_samples : SampleBuffer F.Float → List F.Float → SampleBuffer F.Float
  record_samples b [] = b
  record_samples b (v ∷ vs) = record_samples (record_sample F b v) vs

  -- The buffer has counted the values, and the last thousand are in their places.
  pub record Holds (b : SampleBuffer F.Float) (seen : List F.Float) : Type 0 where
    pub counted : b.count ≡ length seen
    pub kept :
        (i : ℕ) (d : F.Float)
        → i < length seen
        → length seen ≤ i + 1000
        → b.samples (i % 1000) ≡ get_or seen i d

  -- Both branches write at the count modulo the size.
  record_sample-at :
      (b : SampleBuffer F.Float) (v : F.Float) (j : ℕ)
      → j < 1000
      → (record_sample F b v).samples j ≡ (if j == b.count % 1000 then v else b.samples j)
  unfolding record_sample
  record_sample-at b v j h = elim (Bool-cases (ltb b.count 1000)) [
    | inl room ↦ let place : b.count % 1000 ≡ b.count = ground arith in rw (room, place) refl
    | inr full ↦ rw full refl
  ]

  record_sample-Holds :
      (b : SampleBuffer F.Float) (seen : List F.Float) (v : F.Float)
      → Holds b seen
      → Holds (record_sample F b v) (seen ++ v ∷ [])
  record_sample-Holds b seen v h = record {
    counted = unfold record_sample in omega (arith, h.counted, length-append seen (v ∷ []));
    kept = λ i d lt near. kept i d lt near (Bool-cases (i == length seen));
  }
    where
      kept :
          (i : ℕ) (d : F.Float)
          → i < length (seen ++ v ∷ [])
          → length (seen ++ v ∷ []) ≤ i + 1000
          → ((i == length seen) ≡ true) ⊎ ((i == length seen) ≡ false)
          → (record_sample F b v).samples (i % 1000) ≡ get_or (seen ++ v ∷ []) i d
      kept i d lt near (inl newest) =
          let at : i ≡ length seen = ground (arith, newest) in
          let here : (i % 1000 == b.count % 1000) ≡ true = ground (arith, h.counted, at) in
          record_sample-at b v (i % 1000) (omega arith)
          ∙ rw here
              (sym (get_or-append_end seen v d) ∙ ap (λ k. get_or (seen ++ v ∷ []) k d) (sym at))
      kept i d lt near (inr older) =
          let less : i < length seen = ground (arith, older, length-append seen (v ∷ [])) in
          let close : length seen ≤ i + 1000 = omega (arith, length-append seen (v ∷ [])) in
          let elsewhere : (i % 1000 == b.count % 1000) ≡ false =
            ==_of_ne _ _ (λ e. absurd (omega (arith, e, h.counted, length-append seen (v ∷ [])))) in
          record_sample-at b v (i % 1000) (omega arith)
          ∙ rw elsewhere (h.kept i d less close ∙ sym (get_or-append_left seen (v ∷ []) i d less))

  record_samples-from :
      (b : SampleBuffer F.Float) (seen vs : List F.Float)
      → Holds b seen
      → Holds (record_samples b vs) (seen ++ vs)
  unfolding record_samples
  record_samples-from b seen [] h = rw (append-nil seen) h
  record_samples-from b seen (v ∷ vs) h = rw (← append_assoc seen (v ∷ []) vs) (
      record_samples-from (record_sample F b v) (seen ++ v ∷ []) vs
        (record_sample-Holds b seen v h))

  made-Holds : (unset : ℕ → F.Float) (e18 : F.Float) → Holds (make_buffer F unset e18) []
  unfolding make_buffer
  made-Holds unset e18 = record { counted = refl; kept = λ i d lt near. absurd (omega arith) }

  Holds-stats :
      (sort : Sort F.Float) (b : SampleBuffer F.Float) (v : F.Float) (vs : List F.Float)
      → Holds b (vs ++ v ∷ [])
      → ((calculate_stats F sort b).total_count ≡ suc (length vs))
        × ((calculate_stats F sort b).latest ≡ v)
  unfolding calculate_stats
  Holds-stats sort b v vs h =
      let count : b.count ≡ suc (length vs) = omega (arith, h.counted, length-append vs (v ∷ [])) in
      let some_there : (min b.count 1000 == 0) ≡ false = ground (arith, count) in
      let last : b.count - 1 ≡ length vs = omega (arith, count) in
      rw some_there (
        count,
        ap (λ i. b.samples (i % 1000)) last
            ∙ h.kept (length vs) v (omega (arith, length-append vs (v ∷ [])))
                (omega (arith, length-append vs (v ∷ [])))
            ∙ get_or-append_end vs v v,
      )

  -- After any number of samples the buffer has counted them all, and holds the last thousand, each at
  -- its number modulo the size; the statistics have that count, and as the latest sample the last one.
  pub record_samples-Holds :
      (sort : Sort F.Float) (unset : ℕ → F.Float) (e18 v : F.Float) (vs : List F.Float)
      → let b = record_samples (make_buffer F unset e18) (vs ++ v ∷ []) in
        Holds b (vs ++ v ∷ [])
        × ((calculate_stats F sort b).total_count ≡ suc (length vs))
        × ((calculate_stats F sort b).latest ≡ v)
  record_samples-Holds sort unset e18 v vs =
      let h =
        record_samples-from (make_buffer F unset e18) [] (vs ++ v ∷ []) (made-Holds unset e18) in
      let (count, latest) = Holds-stats sort _ v vs h in (h, count, latest)
