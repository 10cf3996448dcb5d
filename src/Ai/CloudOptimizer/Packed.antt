-- ===== src/Ai/CloudOptimizer/Packed.antt =====
-- cpp/ai/cloud_optimizer.cpp: the node that SelectOptimalNode chooses.
use remote_play.Prelude.{
  ℕ, ◌≡◌, ◌≢◌, ◌⊎◌, refl, sym, ◌∙◌, List, [], ◌∷◌, Bool, true, false, ◌&&◌, Bool-cases, inl, inr,
}
use mathlib.Core.List.{Memᴰ}
use mathlib.Core.Path.{subst}
use remote_play.Prelude.Int.{ℤ, negsuc}
use remote_play.Common.Config.{equals}
use remote_play.Ai.Floats.{Floats, IsStrictWeak, IsStrictWeak-irrefl}
use remote_play.Ai.Router.Best.{equals-eq}
use remote_play.Ai.CloudOptimizer.{NodeStats, fits, pack, select_optimal_node}

all_cons {ℓ κ} :
    {A : Type ℓ} (P : A → Type κ) (x : A) (xs : List A)
    → P x
    → ((y : A) → Memᴰ y xs → P y)
    → (y : A) → Memᴰ y (x ∷ xs)
    → P y
all_cons P x xs p h y (Memᴰ.head e) = subst P (sym e) p
all_cons P x xs p h y (Memᴰ.tail m) = h y m

and_false : (a b : Bool) → (a && b) ≡ false → a ≡ true → b ≡ false
and_false true b e k = e
and_false false b e k = cc

and_left : (a b : Bool) → (a && b) ≡ true → a ≡ true
and_left true b e = refl
and_left false b e = e

and_right : (a b : Bool) → (a && b) ≡ true → b ≡ true
and_right true b e = e
and_right false b e = cc

module _ (F : Floats) (required : ℤ) where
  -- A node of the list that the session fits, with a load that no other such node exceeds.
  pub record IsPacked (nodes : List (NodeStats F.Float)) (b : NodeStats F.Float) : Type 0 where
    pub there : Memᴰ b nodes
    pub room : fits F required b ≡ true
    pub fullest :
        (c : NodeStats F.Float)
        → Memᴰ c nodes
        → fits F required c ≡ true
        → F.less b.gpu_usage c.gpu_usage ≡ false

  -- The loop keeps what it has where nothing better fits, or takes the fullest node.
  record IsKept (nodes : List (NodeStats F.Float)) (highest : F.Float) : Type 0 where
    quiet :
        (c : NodeStats F.Float)
        → Memᴰ c nodes
        → fits F required c ≡ true
        → F.less highest c.gpu_usage ≡ false

  record IsTaken (nodes : List (NodeStats F.Float)) (highest : F.Float) (id : List ℕ)
      (b : NodeStats F.Float) : Type 0 where
    packed : IsPacked nodes b
    above : F.less highest b.gpu_usage ≡ true
    named : id ≡ b.node_id

  abbrev Packs : List (NodeStats F.Float) → List ℕ → F.Float → List ℕ → Type 0
  Packs nodes best highest id =
      (IsKept nodes highest × (id ≡ best)) ⊎ ((b : NodeStats F.Float) × IsTaken nodes highest id b)

  module _ (w : IsStrictWeak F.less) where
    less_trans : (a b c : F.Float) → F.less a b ≡ true → F.less b c ≡ true → F.less a c ≡ true
    less_trans a b c h k = elim (Bool-cases (F.less a c)) [
      | inl e ↦ e
      | inr e ↦ cc (w.neg_trans b c a (w.asym b c k) e)
    ]

    -- No fitting node's load exceeds `load`.
    abbrev Quiet : F.Float → NodeStats F.Float → Type 0
    Quiet load c = fits F required c ≡ true → F.less load c.gpu_usage ≡ false

    -- A node that does not better the highest load changes nothing.
    skip-Packs :
        (n : NodeStats F.Float) (ns : List (NodeStats F.Float)) (best : List ℕ) (highest : F.Float)
        (id : List ℕ)
        → (fits F required n && F.less highest n.gpu_usage) ≡ false
        → Packs ns best highest id
        → Packs (n ∷ ns) best highest id
    skip-Packs n ns best highest id no_better (inl (kept, e)) = inl (
      record {
        quiet =
            all_cons (Quiet highest) n ns (and_false (fits F required n) _ no_better) kept.quiet;
      },
      e,
    )
    skip-Packs n ns best highest id no_better (inr (b, t)) = inr (
      b,
      record {
        packed = record {
          there = Memᴰ.tail t.packed.there;
          room = t.packed.room;
          fullest =
              all_cons (Quiet b.gpu_usage) n ns
                (λ room.
                  w.neg_trans n.gpu_usage highest b.gpu_usage
                    (and_false (fits F required n) _ no_better room)
                    (w.asym highest b.gpu_usage t.above))
                t.packed.fullest;
        };
        above = t.above;
        named = t.named;
      },
    )

    take-Packs :
        (n : NodeStats F.Float) (ns : List (NodeStats F.Float)) (best : List ℕ) (highest : F.Float)
        (id : List ℕ)
        → fits F required n ≡ true
        → F.less highest n.gpu_usage ≡ true
        → Packs ns n.node_id n.gpu_usage id
        → Packs (n ∷ ns) best highest id
    take-Packs n ns best highest id room better (inl (kept, e)) = inr (
      n,
      record {
        packed = record {
          there = Memᴰ.head refl;
          room = room;
          fullest =
              all_cons (Quiet n.gpu_usage) n ns (λ r. IsStrictWeak-irrefl F.less w n.gpu_usage)
                kept.quiet;
        };
        above = better;
        named = e;
      },
    )
    take-Packs n ns best highest id room better (inr (b, t)) = inr (
      b,
      record {
        packed = record {
          there = Memᴰ.tail t.packed.there;
          room = t.packed.room;
          fullest =
              all_cons (Quiet b.gpu_usage) n ns (λ r. w.asym n.gpu_usage b.gpu_usage t.above)
                t.packed.fullest;
        };
        above = less_trans highest n.gpu_usage b.gpu_usage better t.above;
        named = t.named;
      },
    )

    pack-Packs :
        (nodes : List (NodeStats F.Float)) (best : List ℕ) (highest : F.Float)
        → Packs nodes best highest (pack F required nodes best highest).0
    unfolding pack
    pack-Packs [] best highest = inl (record { quiet = λ c m. elim m [ ] }, refl)
    pack-Packs (n ∷ ns) best highest =
        elim (Bool-cases (fits F required n && F.less highest n.gpu_usage)) [
          | inl better ↦
              rw (better, pack)
                (take-Packs n ns best highest _ (and_left _ _ better) (and_right _ _ better)
                  (pack-Packs ns n.node_id n.gpu_usage))
          | inr worse ↦
              rw (worse, pack) (skip-Packs n ns best highest _ worse (pack-Packs ns best highest))
        ]

    -- A choice of the first loop that is not empty is the result.
    selected :
        (nodes : List (NodeStats F.Float)) (id : List ℕ)
        → let packed = (pack F required nodes [] (F.of_int (negsuc 0))).0 in
          (equals packed [] ≡ true → packed ≡ [])
          → packed ≢ []
          → packed ≡ id
          → select_optimal_node F nodes required ≡ id
    unfolding select_optimal_node
    selected nodes id empty ne e =
        let packed = (pack F required nodes [] (F.of_int (negsuc 0))).0 in
        elim (Bool-cases (equals packed [])) [ inl k ↦ absurd (ne (empty k)) | inr k ↦ rw k e ]

    -- Where the session fits a node with a load above -1, SelectOptimalNode returns the id of a node that
    -- it fits, of which no other that it fits has a higher load, if no id is empty and the order of the
    -- loads is a strict weak order, so that none is a NaN.
    pub select_optimal_node-IsPacked :
        (nodes : List (NodeStats F.Float)) (n : NodeStats F.Float)
        → ((c : NodeStats F.Float) → Memᴰ c nodes → c.node_id ≢ [])
        → Memᴰ n nodes
        → fits F required n ≡ true
        → F.less (F.of_int (negsuc 0)) n.gpu_usage ≡ true
        → (b : NodeStats F.Float) × IsPacked nodes b
          × (select_optimal_node F nodes required ≡ b.node_id)
    unfolding select_optimal_node
    select_optimal_node-IsPacked nodes n named m room above =
        elim (pack-Packs nodes [] (F.of_int (negsuc 0))) [
          | inl (kept, e) ↦ cc (kept.quiet n m room)
          | inr (b, t) ↦ (
            b,
            t.packed,
            selected nodes b.node_id (equals-eq _ [])
                (λ e. named b t.packed.there (sym t.named ∙ e)) t.named,
          )
        ]
