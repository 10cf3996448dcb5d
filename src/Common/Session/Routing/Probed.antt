-- ===== src/Common/Session/Routing/Probed.antt =====
-- SessionManager::runClient: what attemptHandshake sends.
use remote_play.Prelude.{
  ℕ, ◌≡◌, ◌≢◌, refl, sym, ap, ap₂, ◌∙◌, false, List, [], ◌∷◌, ◌++◌, map, Bool-cases, inl, inr,
}
use mathlib.Core.List.{
  Memᴰ, Nodup, Pairwise, Perm, Permᴰ, mem-map_of_mem, head-eq_of_cons-eq, tail-eq_of_cons-eq,
  nil≢cons, cons≢nil,
}
use mathlib.Core.List.Memᴰ
use mathlib.Core.Logic.{∥∥₁_map}
use mathlib.Core.Path.{subst}
use remote_play.Common.Config.{equals}
use remote_play.Ai.Floats.{Floats, IsStrictWeak}
use remote_play.Ai.Router.{
  RouteScore, Sort, Sorts, calculate_score, score_of, comes_before, rank_routes,
}
use remote_play.Ai.Router.Best.{equals-eq, equals_refl, comes_before-IsStrictWeak}
use remote_play.Common.Session.Routing.{
  ConnectivityCandidate, Sent, handshake_to, probe_candidate, probe_score, ai_candidate,
  probe_ranked, attempt_handshake,
}

-- A handshake and a hole punch for each candidate.
abbrev pub probes : List ConnectivityCandidate → List Sent
probes [] = []
probes (c ∷ cs) = probe_candidate c ++ probes cs

abbrev ips : List ConnectivityCandidate → List (List ℕ)
ips cs = map (λ (c : ConnectivityCandidate). c.ip) cs

-- No candidate has the address, or one has it.
probe_score-none :
    (id : List ℕ) (cs : List ConnectivityCandidate)
    → ((c : ConnectivityCandidate) → Memᴰ c cs → id ≢ c.ip)
    → probe_score id cs ≡ []
unfolding probe_score
probe_score-none id [] ne = refl
probe_score-none id (c ∷ cs) ne = elim (Bool-cases (equals c.ip id)) [
  | inl same ↦ absurd (ne c (Memᴰ.head refl) (sym (equals-eq c.ip id same)))
  | inr other ↦ rw other (probe_score-none id cs (λ d m. ne d (Memᴰ.tail m)))
]

probe_score-one :
    (cs : List ConnectivityCandidate) (c : ConnectivityCandidate)
    → Nodup (ips cs)
    → Memᴰ c cs
    → probe_score c.ip cs ≡ probe_candidate c
unfolding probe_score
probe_score-one [] c nodup m = elim m [ ]
probe_score-one (d ∷ cs) c (Pairwise.cons h p) (Memᴰ.head e) =
    subst (λ (c : ConnectivityCandidate). probe_score c.ip (d ∷ cs) ≡ probe_candidate c) (sym e)
      (rw (equals_refl d.ip) (
        ap (λ rest. probe_candidate d ++ rest)
          (probe_score-none d.ip cs
            (λ b m. h b.ip ∣ Memᴰ.map (λ (c : ConnectivityCandidate). c.ip) m ∣₁))))
probe_score-one (d ∷ cs) c (Pairwise.cons h p) (Memᴰ.tail m) =
    elim (Bool-cases (equals d.ip c.ip)) [
      | inl same ↦
          absurd (
            h c.ip ∣ Memᴰ.map (λ (c : ConnectivityCandidate). c.ip) m ∣₁ (equals-eq d.ip c.ip same))
      | inr other ↦ rw other (probe_score-one cs c p m)
    ]

still_there {ℓ} : {A : Type ℓ} {a : A} {xs ys : List A} → Permᴰ xs ys → Memᴰ a xs → Memᴰ a ys
still_there Permᴰ.nil m = m
still_there (Permᴰ.cons k d) (Memᴰ.head e) = Memᴰ.head (e ∙ k)
still_there (Permᴰ.cons k d) (Memᴰ.tail m) = Memᴰ.tail (still_there d m)
still_there (Permᴰ.swap k k') (Memᴰ.head e) = Memᴰ.tail (Memᴰ.head (e ∙ k))
still_there (Permᴰ.swap k k') (Memᴰ.tail (Memᴰ.head e)) = Memᴰ.head (e ∙ k')
still_there (Permᴰ.swap k k') (Memᴰ.tail (Memᴰ.tail m)) = Memᴰ.tail (Memᴰ.tail m)
still_there (Permᴰ.trans d d') m = still_there d' (still_there d m)

module _ (F : Floats) where
  -- In the order given, each candidate's score probes that candidate.
  probe_ranked-probes :
      (all cs : List ConnectivityCandidate)
      → Nodup (ips all)
      → ((c : ConnectivityCandidate) → Memᴰ c cs → Memᴰ c all)
      → probe_ranked F (map (score_of F) (map (ai_candidate F) cs)) all ≡ probes cs
  unfolding probe_ranked ai_candidate
  probe_ranked-probes all [] nodup into = refl
  probe_ranked-probes all (c ∷ cs) nodup into =
      ap₂ ◌++◌ (probe_score-one all c nodup (into c (Memᴰ.head refl)))
        (probe_ranked-probes all cs nodup (λ d m. into d (Memᴰ.tail m)))

  -- A candidate's score.
  abbrev pub score : ConnectivityCandidate → F.Float
  score c = calculate_score F (ai_candidate F c)

  abbrev ranked : ConnectivityCandidate → RouteScore F.Float
  ranked c = score_of F (ai_candidate F c)

  -- A list is a permutation of the candidates, none of which has a better score than an earlier one.
  abbrev pub IsByScore : List ConnectivityCandidate → List ConnectivityCandidate → Type 0
  IsByScore cs ds = Perm ds cs × Pairwise (λ c d. F.less (score c) (score d) ≡ false) ds

  -- What is sorted by its scores is the scores of a permutation.
  scores-perm :
      {xs ys : List (RouteScore F.Float)} (cs : List ConnectivityCandidate)
      → Permᴰ xs ys
      → ys ≡ map ranked cs
      → (ds : List ConnectivityCandidate) × (xs ≡ map ranked ds) × Permᴰ ds cs
  scores-perm [] Permᴰ.nil e = ([], refl, Permᴰ.nil)
  scores-perm (c ∷ cs) Permᴰ.nil e = absurd (nil≢cons e)
  scores-perm [] (Permᴰ.cons k d) e = absurd (cons≢nil e)
  scores-perm (c ∷ cs) (Permᴰ.cons k d) e =
      let (ds, same, perm) = scores-perm cs d (tail-eq_of_cons-eq e) in
      (c ∷ ds, ap₂ ◌∷◌ (k ∙ head-eq_of_cons-eq e) same, Permᴰ.cons refl perm)
  scores-perm [] (Permᴰ.swap k k') e = absurd (cons≢nil e)
  scores-perm (c ∷ []) (Permᴰ.swap k k') e = absurd (cons≢nil (tail-eq_of_cons-eq e))
  scores-perm (c ∷ c' ∷ cs) (Permᴰ.swap k k') e =
      let rest = tail-eq_of_cons-eq e in
      (
        c' ∷ c ∷ cs,
        ap₂ ◌∷◌ (k ∙ head-eq_of_cons-eq rest)
            (ap₂ ◌∷◌ (k' ∙ head-eq_of_cons-eq e) (tail-eq_of_cons-eq rest)),
        Permᴰ.swap refl refl,
      )
  scores-perm cs (Permᴰ.trans d d') e =
      let (ds, same, perm) = scores-perm cs d' e in
      let (ds', same', perm') = scores-perm ds d same in (ds', same', Permᴰ.trans perm' perm)

  Pairwise-scores :
      (ds : List ConnectivityCandidate)
      → Pairwise (λ a b. comes_before F b a ≡ false) (map ranked ds)
      → Pairwise (λ c d. F.less (score c) (score d) ≡ false) ds
  Pairwise-scores [] p = Pairwise.nil
  Pairwise-scores (c ∷ ds) (Pairwise.cons h p) =
      Pairwise.cons (λ d m. h (ranked d) (mem-map_of_mem ranked m)) (Pairwise-scores ds p)

  -- In each attempt the handshake goes to the host's address once, and then a handshake and a hole
  -- punch go to each candidate once, in an order in which no candidate has a better score than an
  -- earlier one, where no two candidates have one address, std::sort permutes and orders as the
  -- standard says, and the order of the scores is a strict weak order, so that none is a NaN.
  pub attempt_handshake-IsByScore :
      (sort : Sort (RouteScore F.Float)) (host_ip : List ℕ) (cs : List ConnectivityCandidate)
      → Sorts sort
      → IsStrictWeak F.less
      → Nodup (map (λ (c : ConnectivityCandidate). c.ip) cs)
      → ∥ (
          (ds : List ConnectivityCandidate) × IsByScore cs ds
          × (attempt_handshake F sort host_ip cs ≡ handshake_to host_ip 5005 ∷ probes ds)) ∥₁
  unfolding attempt_handshake rank_routes
  attempt_handshake-IsByScore sort host_ip cs laws weak nodup =
      let before = comes_before F in
      let given = map (score_of F) (map (ai_candidate F) cs) in
      let sorted = laws.ordered before given (comes_before-IsStrictWeak F weak) in
      ∥∥₁_map (laws.perm before given) λ d.
        let (ds, same, perm) = scores-perm cs d (map-map cs) in
        (
          ds,
          (∣ perm ∣₁, Pairwise-scores ds (rw same at sorted)),
          ap (λ ss. handshake_to host_ip 5005 ∷ probe_ranked F ss cs) (same ∙ sym (map-map ds))
              ∙ ap (λ rest. handshake_to host_ip 5005 ∷ rest)
                  (probe_ranked-probes cs ds nodup (λ c m. still_there perm m)),
        )
    where
      map-map :
          (cs : List ConnectivityCandidate)
          → map (score_of F) (map (ai_candidate F) cs) ≡ map ranked cs
      map-map [] = refl
      map-map (c ∷ cs) = ap (λ rest. ranked c ∷ rest) (map-map cs)
