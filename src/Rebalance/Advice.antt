-- ===== src/Rebalance/Advice.antt =====
-- The whole plan of Compute (incus-admin/internal/service/rebalance/rebalance.go).
use incus.Base.{
  ◌&&◌, ℕ, zero, suc, ◌+◌, ◌≤◌, String, true, false, Option, none, some, List, [], ◌∷◌, ◌≡◌, ◌⊎◌,
  refl, inl, inr, sym, subst, arith, length, Bool-cases, Option-cases, if◌then◌else◌,
}
use incus.Base.Int.{zero_ℤ, pos_part}
use incus.Base.Float.{Float}
use incus.Rebalance.{
  NodeCapacity, PlacedVm, Suggestion, Stats, Plan, Options, leb_ℤ, node_at, with_defaults, find_hot,
  may_be_hot, is_hotter,
}
use incus.Rebalance.Statistics.{compute_stats}
use incus.Rebalance.Compute.{candidates, relieve, relieve_hot, is_balanced, compute_with, compute}
use incus.Rebalance.Pool.{cold_pool-Receives, cold_pool-IsComplete}
use incus.Rebalance.Moves.{Moves, place-Moves, sort_by_free-IsPool}
use incus.Rebalance.Room.{AreWithin, Moves-AreWithin, place-bounded}

module _ {W : Type 0} (float : Float W) where
  -- The hot node is a node of the slice that is hot enough.
  find_hot-found :
      (min_hot : W) (all nodes : List NodeCapacity) (k : ℕ) (start : Option ℕ) (h : ℕ)
      → find_hot float min_hot all k nodes start ≡ some h
      → (start ≡ some h)
        ⊎ ((j : ℕ) × (k + j ≡ h) × (may_be_hot float min_hot (node_at j nodes) ≡ true))
  unfolding find_hot node_at
  find_hot-found min_hot all [] k start h e = inl e
  find_hot-found min_hot all (n ∷ nodes) k start h e =
      elim (find_hot-found min_hot all nodes (suc k)
        (if may_be_hot float min_hot n && is_hotter float all start n then some k else start) h e) [
          | inl here ↦ elim (Bool-cases (may_be_hot float min_hot n)) [
            | inl warm ↦ elim (Bool-cases (is_hotter float all start n)) [
              | inl hotter ↦ inr (zero, ground arith, warm)
              | inr cooler ↦ inl (ground arith)
            ]
            | inr cold ↦ inl (ground arith)
          ]
          | inr (j, at, warm) ↦ inr (suc j, omega arith, warm)
        ]

  -- A plan advises nothing and changes nothing, or the cluster is out of balance and it moves VMs
  -- off a node of the slice that is hot enough.
  pub record IsRelief (opt : Options W) (stats : Stats W) (nodes : List NodeCapacity)
      (vms : List PlacedVm) (s : List (Suggestion W)) (after : List NodeCapacity) : Type 0 where
    pub hot : ℕ
    pub hot_enough : may_be_hot float opt.min_hot_util (node_at hot nodes) ≡ true
    pub unbalanced : is_balanced float opt stats ≡ false
    pub bounded : length s ≤ pos_part opt.max_suggestions
    pub relieved :
        Moves float
          (float.plus stats.mean opt.imbalance_threshold)
          (node_at hot nodes)
          (node_at hot nodes).mem_used
          nodes
          (candidates (node_at hot nodes) vms)
          s
          after

  abbrev pub IsAdvice :
      Options W → List NodeCapacity → List PlacedVm → Plan W × List NodeCapacity → Type 0
  IsAdvice opt nodes vms (plan, after) =
      ((plan.suggestions ≡ []) × (after ≡ nodes))
      ⊎ IsRelief opt plan.stats nodes vms plan.suggestions after

  IsRelief-of :
      (opt : Options W) (stats : Stats W) (nodes : List NodeCapacity) (vms : List PlacedVm) (h : ℕ)
      → is_balanced float opt stats ≡ false
      → find_hot float opt.min_hot_util nodes 0 nodes none ≡ some h
      → (let (s, after) = relieve float opt stats (node_at h nodes) nodes vms in
          IsRelief opt stats nodes vms s after)
  unfolding relieve
  IsRelief-of opt stats nodes vms h unbalanced found = record {
    hot = h;
    hot_enough = hot_enough_of (find_hot-found opt.min_hot_util nodes nodes 0 none h found);
    unbalanced = unbalanced;
    bounded =
        place-bounded float (float.plus stats.mean opt.imbalance_threshold) (node_at h nodes)
          opt.max_suggestions (node_at h nodes).mem_used _ nodes (candidates (node_at h nodes) vms);
    relieved =
        place-Moves float (float.plus stats.mean opt.imbalance_threshold) (node_at h nodes)
          opt.max_suggestions (node_at h nodes).mem_used 0 _ nodes
          (candidates (node_at h nodes) vms)
          (sort_by_free-IsPool float (float.plus stats.mean opt.imbalance_threshold)
            (node_at h nodes) nodes _ (cold_pool-Receives (node_at h nodes).name nodes)
            (cold_pool-IsComplete (node_at h nodes).name nodes));
  }
    where
      hot_enough_of :
          (none ≡ some h)
            ⊎ ((j : ℕ) × (0 + j ≡ h) × (may_be_hot float opt.min_hot_util (node_at j nodes) ≡ true))
          → may_be_hot float opt.min_hot_util (node_at h nodes) ≡ true
      hot_enough_of (inl absent) = absurd (ground arith)
      hot_enough_of (inr (j, at, warm)) =
          subst (λ k. may_be_hot float opt.min_hot_util (node_at k nodes) ≡ true) (omega arith) warm

  IsAdvice-of :
      (opt : Options W) (stats : Stats W) (nodes : List NodeCapacity) (vms : List PlacedVm)
      → leb_ℤ opt.max_suggestions zero_ℤ ≡ false
      → (let (s, after) = compute_with float opt stats nodes vms in
          IsAdvice opt nodes vms (record { stats = stats; suggestions = s }, after))
  unfolding compute_with relieve_hot
  IsAdvice-of opt stats nodes vms positive = elim (Bool-cases (is_balanced float opt stats)) [
    | inl balanced ↦ rw (compute_with, balanced) (inl (refl, refl))
    | inr unbalanced ↦
        rw (compute_with, unbalanced)
          (elim (Option-cases (find_hot float opt.min_hot_util nodes 0 nodes none)) [
            | inl nothing ↦ rw (nothing) (inl (refl, refl))
            | inr (h, found) ↦ rw (found) (inr (IsRelief-of opt stats nodes vms h unbalanced found))
          ])
  ]

  -- The defaults keep the number of suggestions positive.
  defaults_positive :
      (opt : Options W) → leb_ℤ (with_defaults float opt).max_suggestions zero_ℤ ≡ false
  unfolding with_defaults
  defaults_positive opt = ground arith

  -- Whatever the floats are, a plan is no advice at all, with the caller's nodes as they were, or,
  -- where the cluster is out of balance, a sequence of moves of VMs of one hot enough node, no more
  -- than the options allow: each of a VM with memory while that node is warm, to a node that is
  -- online, not in maintenance and of another name, that has the memory free, and than which no
  -- other such node has more free; the nodes come out as the moves leave them.
  pub compute-IsAdvice :
      (ranged : List (String × W) → List (String × W)) (nodes : List NodeCapacity)
      (vms : List PlacedVm) (opt : Options W)
      → IsAdvice (with_defaults float opt) nodes vms (compute float ranged nodes vms opt)
  unfolding compute
  compute-IsAdvice ranged nodes vms opt =
      IsAdvice-of (with_defaults float opt) (compute_stats float ranged nodes) nodes vms
        (defaults_positive opt)

  -- No plan fills a node beyond its memory: where each node's used memory is within its total, so
  -- it is in the nodes that the plan leaves.
  pub compute-AreWithin :
      (ranged : List (String × W) → List (String × W)) (nodes : List NodeCapacity)
      (vms : List PlacedVm) (opt : Options W)
      → AreWithin nodes
      → AreWithin (compute float ranged nodes vms opt).1
  compute-AreWithin ranged nodes vms opt h = elim (compute-IsAdvice ranged nodes vms opt) [
    | inl (_, same) ↦ subst AreWithin (sym same) h
    | inr relief ↦
        Moves-AreWithin float
          (float.plus (compute float ranged nodes vms opt).0.stats.mean
            (with_defaults float opt).imbalance_threshold)
          (node_at relief.hot nodes) relief.relieved h
  ]
