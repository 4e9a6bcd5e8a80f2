-- ===== src/Rebalance/Moves.antt =====
-- What the loop of Compute (incus-admin/internal/service/rebalance/rebalance.go) promises: a plan
-- is a sequence of moves off the hot node, each to the node with the most free memory.
use incus.Base.{
  Option-cases, ℕ, suc, true, false, some, List, [], ◌∷◌, ◌≡◌, ◌⊎◌, refl, sym, ◌∙◌, arith, inl, inr,
}
use incus.Base.Int.{ℤ, pos, ◌-ℤ◌, ◌≤ℤ◌, zero_ℤ}
use incus.Base.Table.{first_where}
use incus.Base.Sort.{
  All-map, InOrder, first_where-All, sort_stable-All, sort_stable-of_All, sort_stable-InOrder,
}
use incus.Base.Float.{Float}
use incus.Rebalance.{
  NodeCapacity, PlacedVm, Suggestion, mb, leb_ℤ, free, free_of_mb, node_at, change_at, freer,
  sort_by_free, takes, has_room, can_receive,
}
use incus.Rebalance.Compute.{Verdict, stop, skip, move, is_cool, judge, suggestion_for, place}
use incus.Rebalance.Pool.{
  mb-le-free, freer-IsStrict, first_fit-freest, can_receive-moved, Receives, IsComplete,
}

pub Verdict-cases : (v : Verdict) → (v ≡ stop) ⊎ (v ≡ skip) ⊎ ((i : ℕ) × (v ≡ move i))
Verdict-cases stop = inl refl
Verdict-cases skip = inr (inl refl)
Verdict-cases (move i) = inr (inr (i, refl))

module _ {W : Type 0} (float : Float W) (limit : W) (hot : NodeCapacity) where
  -- Node i may receive the VM, has the memory free, and no node that may receive has more.
  pub record IsTarget (nodes : List NodeCapacity) (vm : PlacedVm) (i : ℕ) : Type 0 where
    pub receives : can_receive hot.name (node_at i nodes) ≡ true
    pub fits : mb vm.memory_mb ≤ℤ free (node_at i nodes)
    pub freest :
        (j : ℕ)
        → can_receive hot.name (node_at j nodes) ≡ true
        → free (node_at j nodes) ≤ℤ free (node_at i nodes)

  -- From the memory used on the hot node and the nodes: the candidates, what is suggested of them,
  -- and the nodes after.
  pub data Moves
      : ℤ
        → List NodeCapacity
        → List PlacedVm
        → List (Suggestion W)
        → List NodeCapacity
        → Type 0 where
    done :
        (used : ℤ) (nodes : List NodeCapacity) (vms : List PlacedVm) → Moves used nodes vms [] nodes
    pass :
        {used : ℤ} {nodes after : List NodeCapacity} {vms : List PlacedVm} {s : List (Suggestion W)}
        (vm : PlacedVm)
        → Moves used nodes vms s after
        → Moves used nodes (vm ∷ vms) s after
    moves :
        {used : ℤ} {nodes after : List NodeCapacity} {vms : List PlacedVm} {s : List (Suggestion W)}
        (vm : PlacedVm) (i : ℕ)
        → leb_ℤ vm.memory_mb zero_ℤ ≡ false
        → is_cool float hot used limit ≡ false
        → IsTarget nodes vm i
        → Moves (used -ℤ mb vm.memory_mb) (change_at i (takes vm) nodes) vms s after
        → Moves used nodes (vm ∷ vms) (suggestion_for float hot used (node_at i nodes) vm ∷ s) after

  pub record IsPool (nodes : List NodeCapacity) (cold : List ℕ) : Type 1 where
    pub receives : Receives hot.name nodes cold
    pub complete : IsComplete hot.name nodes cold
    pub ordered : InOrder (freer nodes) cold

  -- The pool is sorted again after each move.
  pub sort_by_free-IsPool :
      (nodes : List NodeCapacity) (cold : List ℕ)
      → Receives hot.name nodes cold
      → IsComplete hot.name nodes cold
      → IsPool nodes (sort_by_free nodes cold)
  sort_by_free-IsPool nodes cold r c = record {
    receives =
        sort_stable-All (freer nodes) (λ i. can_receive hot.name (node_at i nodes) ≡ true) cold r;
    complete = λ P h. c P (sort_stable-of_All (freer nodes) P cold h);
    ordered = sort_stable-InOrder (freer nodes) (freer-IsStrict nodes) cold;
  }

  moved-IsPool :
      (nodes : List NodeCapacity) (cold : List ℕ) (vm : PlacedVm) (i : ℕ)
      → IsPool nodes cold
      → (let moved = change_at i (takes vm) nodes in IsPool moved (sort_by_free moved cold))
  moved-IsPool nodes cold vm i pool =
      let moved = change_at i (takes vm) nodes in
      let same = λ (j : ℕ). can_receive-moved hot.name vm i j nodes in
      sort_by_free-IsPool moved cold (All-map (λ j e. same j ∙ e) cold pool.receives)
        λ P h j e. pool.complete P h j (sym (same j) ∙ e)

  IsTarget-of :
      (nodes : List NodeCapacity) (cold : List ℕ) (vm : PlacedVm) (i : ℕ)
      → IsPool nodes cold
      → leb_ℤ vm.memory_mb zero_ℤ ≡ false
      → first_where (has_room nodes vm) cold ≡ some i
      → IsTarget nodes vm i
  unfolding free_of_mb
  IsTarget-of nodes cold vm i pool some_memory e =
      let found =
        first_where-All (λ j. can_receive hot.name (node_at j nodes) ≡ true) (has_room nodes vm)
          cold i pool.receives e in
      record {
        receives = found.0;
        fits = mb-le-free (free (node_at i nodes)) vm.memory_mb found.1 some_memory;
        freest =
            pool.complete (λ j. free (node_at j nodes) ≤ℤ free (node_at i nodes))
              (first_fit-freest nodes vm cold i pool.ordered e);
      }

  -- What a verdict to move says.
  pub judge-move :
      (max : ℤ) (used : ℤ) (taken : ℕ) (cold : List ℕ) (nodes : List NodeCapacity) (vm : PlacedVm)
      (i : ℕ)
      → judge float max limit hot used taken cold nodes vm ≡ move i
      → (leb_ℤ max (pos taken) ≡ false)
        × (leb_ℤ vm.memory_mb zero_ℤ ≡ false)
        × (is_cool float hot used limit ≡ false)
        × (first_where (has_room nodes vm) cold ≡ some i)
  unfolding judge
  judge-move max used taken cold nodes vm i e =
      elim (Option-cases (first_where (has_room nodes vm) cold)) [
        | inl nowhere ↦ absurd (ground arith)
        | inr (j, found) ↦ ground arith
      ]

  pub place-Moves :
      (max : ℤ) (used : ℤ) (taken : ℕ) (cold : List ℕ) (nodes : List NodeCapacity)
      (vms : List PlacedVm)
      → IsPool nodes cold
      → (let (s, after) = place float max limit hot used taken cold nodes vms in
          Moves used nodes vms s after)
  unfolding place
  place-Moves max used taken cold nodes [] pool = done used nodes []
  place-Moves max used taken cold nodes (vm ∷ rest) pool =
      elim (Verdict-cases (judge float max limit hot used taken cold nodes vm)) [
        | inl stops ↦ rw (place, stops) (done used nodes (vm ∷ rest))
        | inr (inl skips) ↦
            rw (place, skips) (pass vm (place-Moves max used taken cold nodes rest pool))
        | inr (inr (i, e)) ↦
            let (_, some_memory, warm, found) = judge-move max used taken cold nodes vm i e in
            rw (place, e)
              (moves vm i some_memory warm (IsTarget-of nodes cold vm i pool some_memory found) (
                place-Moves max (used -ℤ mb vm.memory_mb) (suc taken)
                  (sort_by_free (change_at i (takes vm) nodes) cold) (change_at i (takes vm) nodes)
                  rest (moved-IsPool nodes cold vm i pool)))
      ]
