-- ===== src/Scheduler/Pick.antt =====
-- The node that the scheduler picks (PickNode of incus-admin/internal/cluster/scheduler.go).
use incus.Base.{
  String, true, false, not, ◌&&◌, Option, List, [], ◌∷◌, ◌≡◌, ◌≢◌, ◌⊎◌, inl, inr, refl, sym, subst,
  arith, Bool-cases,
}
use incus.Base.Int.{ltb_ℤ}
use mathlib.Core.List.{Memᴰ}
use incus.Base.Float.{Float}
use incus.Base.Table.{select_where}
use incus.Base.Filter.{All-mem, mem-select_where, All-select_where}
use incus.Base.Sort.{All, All-map, InOrder, IsStrict, Sorts}
use incus.Store.{Result, ok, err, Error, remote, wrapped}
use incus.Scheduler.{
  NodeInfo, SchedWeights, NodeApi, NodeCache, usable, ranks_before, first_name, pick_from,
  pick_after, pick_cached, pick_node, refresh_cluster,
}

-- The order laws of the floats that scores are: all but NaN meet them.
pub record IsOrdered {W : Type 0} (float : Float W) : Type 0 where
  pub equal_iff : (a b : W) → float.equal a b ≡ (not (float.before a b) && not (float.before b a))
  pub asym : (a b : W) → float.before a b ≡ true → float.before b a ≡ false
  pub neg_trans :
      (a b c : W) → float.before a b ≡ false → float.before b c ≡ false → float.before a c ≡ false

module _ {W : Type 0} (float : Float W) where
  module _ (ordered : IsOrdered float) where
    ranks_before-IsStrict : IsStrict (ranks_before float)
    ranks_before-IsStrict = (
      λ x y h. ground (
        arith,
        ordered.equal_iff x.score y.score,
        ordered.equal_iff y.score x.score,
        ordered.asym y.score x.score,
        ordered.asym x.score y.score,
      ),
      λ x y z h g. ground (
        arith,
        ordered.equal_iff y.score x.score,
        ordered.equal_iff z.score y.score,
        ordered.equal_iff z.score x.score,
        ordered.neg_trans x.score y.score z.score,
        ordered.neg_trans z.score y.score x.score,
        ordered.neg_trans y.score z.score x.score,
        ordered.neg_trans y.score x.score z.score,
        ordered.asym x.score z.score,
        ordered.neg_trans x.score z.score y.score,
        ordered.neg_trans z.score x.score y.score,
        ordered.asym x.score y.score,
        ordered.asym y.score z.score,
        ordered.asym z.score x.score,
        ordered.asym y.score x.score,
        ordered.asym z.score y.score,
      ),
    )

    ranks_before_irrefl : (n : NodeInfo W) → ranks_before float n n ≡ false
    ranks_before_irrefl n = elim (Bool-cases (ranks_before float n n)) [
      | inl before ↦ ranks_before-IsStrict.0 n n before
      | inr not_before ↦ not_before
    ]

  -- `m` is no better than `n`: its score is not higher, and where the scores are equal it has no
  -- more free memory.
  pub record IsNoBetter (m n : NodeInfo W) : Type 0 where
    pub score : float.before n.score m.score ≡ false
    pub memory : float.equal m.score n.score ≡ true → ltb_ℤ n.mem_free m.mem_free ≡ false

  -- A node that PickNode may name: it is known and usable, and no usable node is better.
  pub record IsPick (nodes : List (NodeInfo W)) (n : NodeInfo W) : Type 0 where
    pub known : Memᴰ n nodes
    pub ready : usable float n ≡ true
    pub best : All (λ m. usable float m ≡ true → IsNoBetter m n) nodes

  -- Nothing usable, or a pick.
  abbrev pub PickCases : List (NodeInfo W) → Result String → Type 0
  PickCases nodes r =
      (All (λ m. usable float m ≡ false) nodes × (r ≡ err (remote "no available nodes")))
      ⊎ ((n : NodeInfo W) × (r ≡ ok n.name) × IsPick nodes n)

  -- What PickNode comes to: its answer, and the cache that it leaves. The cluster is asked only
  -- where no nodes of it are cached.
  abbrev pub PickOutcome :
      SchedWeights W
      → Option (NodeApi W)
      → String
      → NodeCache float
      → Result String × NodeCache float
      → Type 0
  PickOutcome w api name cache (r, after) =
      ((cache name ≡ [])
        × ((e : Error) × (refresh_cluster float w name api cache ≡ err e)
            × (r ≡ err (wrapped "refresh nodes" e))
            × (after ≡ cache)))
      ⊎ (((cache name ≢ []) × (after ≡ cache)
            ⊎ ((cache name ≡ []) × (refresh_cluster float w name api cache ≡ ok after)))
          × PickCases (after name) r)

  no_better : IsOrdered float → (m n : NodeInfo W) → ranks_before float m n ≡ false → IsNoBetter m n
  no_better ordered m n h = record {
    score = ground (arith, h, ordered.equal_iff m.score n.score);
    memory = λ e. ground (arith, h, e);
  }

  chosen :
      (nodes : List (NodeInfo W))
      → All (λ n. Memᴰ n nodes × (usable float n ≡ true)) (select_where (usable float) nodes)
  chosen nodes = All-mem (select_where (usable float) nodes) (mem-select_where (usable float) nodes)

  none_usable :
      (nodes : List (NodeInfo W))
      → All (λ _. ⊥) (select_where (usable float) nodes)
      → All (λ m. usable float m ≡ false) nodes
  none_usable nodes h =
      All-map
        (λ m f. elim (Bool-cases (usable float m)) [
          | inl ready ↦ absurd (f ready)
          | inr busy ↦ busy
        ])
        nodes (All-select_where (usable float) (λ _. ⊥) nodes h)

  module _ (ordered : IsOrdered float) (sort : List (NodeInfo W) → List (NodeInfo W))
      (sorts : Sorts (ranks_before float) sort) where
    pick_from-cases : (nodes : List (NodeInfo W)) → PickCases nodes (pick_from float sort nodes)
    unfolding pick_from
    pick_from-cases nodes = from (sort (select_where (usable float) nodes)) refl
      where
        from :
            (l : List (NodeInfo W))
            → sort (select_where (usable float) nodes) ≡ l
            → PickCases nodes (first_name float l)
        from [] e = inl (
          none_usable nodes (sorts.back (λ _. ⊥) _ (subst (λ x. All (λ _. ⊥) x) (sym e) tt)),
          refl,
        )
        from (n ∷ rest) e =
            let listed = select_where (usable float) nodes in
            let ((known, ready), _) =
              subst (All (λ x. Memᴰ x nodes × (usable float x ≡ true))) e
                (sorts.forth (λ x. Memᴰ x nodes × (usable float x ≡ true)) listed (chosen nodes)) in
            let (below, _) =
              subst (InOrder (ranks_before float)) e
                (sorts.in_order (ranks_before-IsStrict ordered) listed) in
            let above =
              sorts.back (λ m. ranks_before float m n ≡ false) listed
                (subst (λ x. All (λ m. ranks_before float m n ≡ false) x) (sym e)
                  (ranks_before_irrefl ordered n, below)) in
            inr (
              n,
              refl,
              record {
                known = known;
                ready = ready;
                best =
                    All-map (λ m f u. no_better ordered m n (f u)) nodes
                      (All-select_where (usable float) (λ m. ranks_before float m n ≡ false) nodes
                        above);
              },
            )

    -- Where the scores meet the order laws of floats that are not NaN, and the sort permutes its
    -- list into the order that it is given, a pick fails only where no nodes are cached and asking
    -- the cluster for them fails, with the cache as it was, or where none of the nodes is usable;
    -- else it names a usable node, of the highest score among the usable ones, and of the most free
    -- memory among those of that score. The nodes are those of the cache, which stays as it was,
    -- or, where there are none, those that the cluster answers with, which are cached.
    pub pick_node-PickOutcome :
        (w : SchedWeights W) (api : Option (NodeApi W)) (name : String) (cache : NodeCache float)
        → PickOutcome w api name cache (pick_node float sort w api name cache)
    unfolding pick_node
    pick_node-PickOutcome w api name cache = from (cache name) refl
      where
        filled :
            (r : Result (NodeCache float))
            → cache name ≡ []
            → refresh_cluster float w name api cache ≡ r
            → PickOutcome w api name cache (pick_after float sort name cache r)
        filled (err e) empty failed = inl (empty, (e, failed, refl, refl))
        filled (ok after) empty done = inr (inr (empty, done), pick_from-cases (after name))

        from :
            (nodes : List (NodeInfo W))
            → cache name ≡ nodes
            → PickOutcome w api name cache (pick_cached float sort w api name cache nodes)
        from [] e = filled (refresh_cluster float w name api cache) e refl
        from (n ∷ rest) e = inr (
          inl (λ empty. absurd (ground (arith, e, empty)), refl),
          subst (λ nodes. PickCases nodes (pick_from float sort (n ∷ rest))) (sym e)
              (pick_from-cases (n ∷ rest)),
        )
