-- ===== src/Common/Session/Routing/Switched.antt =====
-- SessionManager::runClient: where the path leads after it was looked at again.
use remote_play.Prelude.{
  ℕ, ◌≡◌, ◌≢◌, ◌⊎◌, refl, ap, List, [], ◌∷◌, true, false, Bool-cases, inl, inr,
}
use mathlib.Core.List.{Memᴰ}
use mathlib.Core.List.Memᴰ
use remote_play.Common.Config.{equals}
use remote_play.Ai.Floats.{Floats}
use remote_play.Ai.Router.{
  RouteCandidate, RouteScore, Sort, first_with, select_best_route, select_ranked,
  should_switch_route, calculate_score, rank_routes,
}
use remote_play.Ai.Router.Best.{equals_refl}
use remote_play.Common.Session.Routing.{
  ConnectivityCandidate, PathToHost, current_id, current_route, probe_route, other_routes,
  reevaluate,
}

module _ (F : Floats) where
  first_with-among :
      (bid : List ℕ) (cs all : List (RouteCandidate F.Float)) (o : RouteCandidate F.Float)
      → ((c : RouteCandidate F.Float) → Memᴰ c cs → Memᴰ c all)
      → Memᴰ o all
      → Memᴰ (first_with F bid cs o) all
  unfolding first_with
  first_with-among bid [] all o into m = m
  first_with-among bid (c ∷ cs) all o into m = elim (Bool-cases (equals c.id bid)) [
    | inl here ↦ rw here (into c (Memᴰ.head refl))
    | inr other ↦ rw other (first_with-among bid cs all o (λ d k. into d (Memᴰ.tail k)) m)
  ]

  -- SelectBestRoute returns one of its candidates.
  select-among :
      (sort : Sort (RouteScore F.Float)) (c : RouteCandidate F.Float)
      (cs : List (RouteCandidate F.Float))
      → Memᴰ (select_best_route F sort (c ∷ cs)) (c ∷ cs)
  unfolding select_best_route
  select-among sort c cs = among (rank_routes F sort (c ∷ cs))
    where
      among : (ranked : List (RouteScore F.Float)) → Memᴰ (select_ranked F ranked c cs) (c ∷ cs)
      among [] = Memᴰ.head refl
      among (best ∷ rest) = first_with-among best.id (c ∷ cs) (c ∷ cs) c (λ d k. k) (Memᴰ.head refl)

  -- A route that is not the current one is a candidate with another address.
  abbrev IsOther : List ℕ → List ConnectivityCandidate → RouteCandidate F.Float → Type 0
  IsOther ip cs r =
      (c : ConnectivityCandidate) × Memᴰ c cs × (equals c.ip ip ≡ false) × (r ≡ probe_route F c)

  other_routes-IsOther :
      (ip : List ℕ) (cs : List ConnectivityCandidate) (r : RouteCandidate F.Float)
      → Memᴰ r (other_routes F ip cs)
      → IsOther ip cs r
  unfolding other_routes
  other_routes-IsOther ip [] r m = elim m [ ]
  other_routes-IsOther ip (c ∷ cs) r m = elim (Bool-cases (equals c.ip ip)) [
    | inl same ↦ later (other_routes-IsOther ip cs r (rw same at m))
    | inr other ↦ elim (Memᴰ.cases_cons (rw other at m)) [
      | inl e ↦ (c, Memᴰ.head refl, other, e)
      | inr m' ↦ later (other_routes-IsOther ip cs r m')
    ]
  ]
    where
      later : IsOther ip cs r → IsOther ip (c ∷ cs) r
      later (d, k, ne, e) = (d, Memᴰ.tail k, ne, e)

  -- The path is another one, and the better one by more than a fifth.
  pub record IsSwitch (p p' : PathToHost) (rtt loss : F.Float)
      (candidates : List ConnectivityCandidate) (c : ConnectivityCandidate) : Type 0 where
    pub offered : Memᴰ c candidates
    pub elsewhere : c.ip ≢ p.current_host_ip
    pub taken : p' ≡ record { current_host_ip = c.ip; current_host_port = c.port }
    pub better :
        F.less
          (F.plus (calculate_score F (current_route F p rtt loss)) (F.decimal 20 2))
          (calculate_score F (probe_route F c))
        ≡ true

  unequal-ne : (xs ys : List ℕ) → equals xs ys ≡ false → xs ≢ ys
  unequal-ne xs ys e same = cc (equals_refl ys)

  best_route-IsSwitch :
      (p : PathToHost) (rtt loss : F.Float) (candidates : List ConnectivityCandidate)
      (best : RouteCandidate F.Float)
      → Memᴰ best (current_route F p rtt loss ∷ other_routes F p.current_host_ip candidates)
      → equals best.id current_id ≡ false
      → should_switch_route F (current_route F p rtt loss) best (F.decimal 20 2) ≡ true
      → (c : ConnectivityCandidate) × IsSwitch p
          (record { current_host_ip = best.ip; current_host_port = best.port })
          rtt
          loss
          candidates
          c
  unfolding should_switch_route current_route probe_route
  best_route-IsSwitch p rtt loss candidates best m other better = elim (Memᴰ.cases_cons m) [
    | inl e ↦ cc (equals_refl current_id, ap (λ (r : RouteCandidate F.Float). r.id) e)
    | inr m' ↦
        let (c, there, ne, e) = other_routes-IsOther p.current_host_ip candidates best m' in
        (
          c,
          record {
            offered = there;
            elsewhere = unequal-ne c.ip p.current_host_ip ne;
            taken =
                ap
                  (λ (r : RouteCandidate F.Float). record {
                    current_host_ip = r.ip;
                    current_host_port = r.port;
                  })
                  e;
            better = rw e at better;
          },
        )
  ]

  -- The main loop stays on its path, or goes to a candidate with another address whose score is
  -- higher than that of the path by more than 0.20.
  pub reevaluate-outcome :
      (sort : Sort (RouteScore F.Float)) (p : PathToHost) (rtt loss : F.Float)
      (candidates : List ConnectivityCandidate)
      → let p' = reevaluate F sort p rtt loss candidates in
        (p' ≡ p) ⊎ ((c : ConnectivityCandidate) × IsSwitch p p' rtt loss candidates c)
  unfolding reevaluate
  reevaluate-outcome sort p rtt loss candidates =
      let current = current_route F p rtt loss in
      let others = other_routes F p.current_host_ip candidates in
      let best = select_best_route F sort (current ∷ others) in
      elim (Bool-cases (equals best.id current_id)) [
        | inl still ↦ rw still (inl refl)
        | inr other ↦
            rw other (elim (Bool-cases (should_switch_route F current best (F.decimal 20 2))) [
              | inr worse ↦ rw worse (inl refl)
              | inl better ↦ rw better (
                  inr (
                    best_route-IsSwitch p rtt loss candidates best
                      (select-among sort current others) other better))
            ])
      ]
