-- ===== src/Rebalance/Compute.antt =====
-- Compute of incus-admin/internal/service/rebalance/rebalance.go. The pool of targets points into
-- the caller's slice, so that the function returns that slice beside the plan. Amounts are taken
-- over ℤ.
use incus.Base.{ℕ, suc, String, Bool, not, ◌||◌, Option, none, some, List, [], ◌∷◌, if◌then◌else◌}
use incus.Base.Int.{ℤ, pos, ◌+ℤ◌, ◌-ℤ◌, zero_ℤ}
use incus.Base.Table.{first_where, select_where}
use incus.Base.Sort.{sort_stable}
use incus.Base.Float.{Float}
use incus.Rebalance.{
  NodeCapacity, PlacedVm, Suggestion, Stats, Plan, Options, mb, is_zero, leb_ℤ, node_at, change_at,
  sort_by_free, larger_vm, takes, has_room, cold_pool, with_defaults, find_hot, imbalance_score,
}
use incus.Rebalance.Statistics.{compute_stats}
use incus.Rebalance.Text.{reason_for}
use text.Mathlib.Text.{◌==◌ as str_eq}

-- What the loop does with a candidate: break, continue, or a move to the node pointed to.
pub data Verdict : Type 0 where
  stop : Verdict
  skip : Verdict
  move : ℕ → Verdict

abbrev pub aim : Option ℕ → Verdict
aim none = stop
aim (some i) = move i

abbrev pub candidates : NodeCapacity → List PlacedVm → List PlacedVm
candidates hot vms = sort_stable larger_vm (select_where (λ vm. str_eq vm.node hot.name) vms)

module _ {W : Type 0} (float : Float W) where
  abbrev pub is_cool : NodeCapacity → ℤ → W → Bool
  is_cool hot hot_used limit =
      is_zero hot.mem_total || float.at_most (float.ratio hot_used hot.mem_total) limit

  unfoldable pub judge :
      ℤ → W → NodeCapacity → ℤ → ℕ → List ℕ → List NodeCapacity → PlacedVm → Verdict
  judge max limit hot hot_used taken cold nodes vm =
      if leb_ℤ max (pos taken)
      then stop
      else if leb_ℤ vm.memory_mb zero_ℤ
      then skip
      else if is_cool hot hot_used limit
      then stop
      else aim (first_where (has_room nodes vm) cold)

  abbrev pub suggestion_for : NodeCapacity → ℤ → NodeCapacity → PlacedVm → Suggestion W
  suggestion_for hot hot_used target vm = record {
    vm_name = vm.name;
    project = vm.project;
    source_node = hot.name;
    target_node = target.name;
    reason = reason_for float hot target;
    score =
        imbalance_score float hot_used hot.mem_total (target.mem_used +ℤ mb vm.memory_mb)
          target.mem_total;
  }

  abbrev pub add_to : {A B : Type 0} → A → List A × B → List A × B
  add_to a (rest, b) = (a ∷ rest, b)

  unfoldable pub place :
      ℤ
      → W
      → NodeCapacity
      → ℤ
      → ℕ
      → List ℕ
      → List NodeCapacity
      → List PlacedVm
      → List (Suggestion W) × List NodeCapacity
  place max limit hot hot_used taken cold nodes [] = ([], nodes)
  place max limit hot hot_used taken cold nodes (vm ∷ rest) =
      elim (judge max limit hot hot_used taken cold nodes vm) [
        | stop ↦ ([], nodes)
        | skip ↦ place max limit hot hot_used taken cold nodes rest
        | move i ↦
            let moved = change_at i (takes vm) nodes in
            add_to (suggestion_for hot hot_used (node_at i nodes) vm) (
              place max limit hot (hot_used -ℤ mb vm.memory_mb) (suc taken)
                (sort_by_free moved cold) moved rest)
      ]

  unfoldable pub relieve :
      Options W
      → Stats W
      → NodeCapacity
      → List NodeCapacity
      → List PlacedVm
      → List (Suggestion W) × List NodeCapacity
  relieve opt stats hot nodes vms =
      place opt.max_suggestions (float.plus stats.mean opt.imbalance_threshold) hot hot.mem_used 0
        (sort_by_free nodes (cold_pool hot.name 0 nodes)) nodes (candidates hot vms)

  unfoldable pub relieve_hot :
      Options W
      → Stats W
      → Option ℕ
      → List NodeCapacity
      → List PlacedVm
      → List (Suggestion W) × List NodeCapacity
  relieve_hot opt stats none nodes vms = ([], nodes)
  relieve_hot opt stats (some h) nodes vms = relieve opt stats (node_at h nodes) nodes vms

  abbrev pub is_balanced : Options W → Stats W → Bool
  is_balanced opt stats =
      not stats.imbalanced || float.at_most stats.std_dev opt.imbalance_threshold

  unfoldable pub compute_with :
      Options W
      → Stats W
      → List NodeCapacity
      → List PlacedVm
      → List (Suggestion W) × List NodeCapacity
  compute_with opt stats nodes vms =
      if is_balanced opt stats
      then ([], nodes)
      else relieve_hot opt stats (find_hot float opt.min_hot_util nodes 0 nodes none) nodes vms

  abbrev pub plan_of :
      Stats W → List (Suggestion W) × List NodeCapacity → Plan W × List NodeCapacity
  plan_of stats (suggestions, nodes) = (record { stats = stats; suggestions = suggestions }, nodes)

  unfoldable pub compute :
      (List (String × W) → List (String × W))
      → List NodeCapacity
      → List PlacedVm
      → Options W
      → Plan W × List NodeCapacity
  compute ranged nodes vms opt =
      let stats = compute_stats float ranged nodes in
      plan_of stats (compute_with (with_defaults float opt) stats nodes vms)
