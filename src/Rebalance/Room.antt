-- ===== src/Rebalance/Room.antt =====
-- What a rebalance's moves (incus-admin/internal/service/rebalance/rebalance.go) leave of the
-- nodes' memory.
use incus.Base.{ℕ, ◌+◌, ◌≤◌, false, List, [], ◌∷◌, ◌≡◌, inl, inr, sym, subst, arith, suc, length}
use incus.Base.Int.{ℤ, pos, pos_part, ◌+ℤ◌, ◌-ℤ◌, ◌≤ℤ◌, int_laws}
use incus.Base.Float.{Float}
use incus.Rebalance.{
  NodeCapacity, PlacedVm, Suggestion, mb, leb_ℤ, free, node_at, change_at, takes, sort_by_free,
}
use incus.Rebalance.Compute.{judge, place}
use incus.Rebalance.Pool.{node_at-change_at}
use incus.Rebalance.Moves.{Moves, done, pass, moves, Verdict-cases, judge-move}

-- Each node's used memory is within its total.
abbrev pub AreWithin : List NodeCapacity → Type 0
AreWithin nodes = (j : ℕ) → (node_at j nodes).mem_used ≤ℤ (node_at j nodes).mem_total

takes-within :
    (vm : PlacedVm) (n : NodeCapacity)
    → mb vm.memory_mb ≤ℤ free n
    → n.mem_used +ℤ mb vm.memory_mb ≤ℤ n.mem_total
takes-within vm n h = omega int_laws

moved-AreWithin :
    (nodes : List NodeCapacity) (vm : PlacedVm) (i : ℕ)
    → mb vm.memory_mb ≤ℤ free (node_at i nodes)
    → AreWithin nodes
    → AreWithin (change_at i (takes vm) nodes)
moved-AreWithin nodes vm i fits h j = elim (node_at-change_at (takes vm) i j nodes) [
  | inl same ↦ subst (λ n. n.mem_used ≤ℤ n.mem_total) (sym same) (h j)
  | inr (at, changed) ↦
      subst (λ n. n.mem_used ≤ℤ n.mem_total) (sym changed)
        (takes-within vm (node_at j nodes)
          (subst (λ k. mb vm.memory_mb ≤ℤ free (node_at k nodes)) at fits))
]

module _ {W : Type 0} (float : Float W) (limit : W) (hot : NodeCapacity) where
  pub Moves-AreWithin :
      {used : ℤ} {nodes after : List NodeCapacity} {vms : List PlacedVm} {s : List (Suggestion W)}
      → Moves float limit hot used nodes vms s after
      → AreWithin nodes
      → AreWithin after
  Moves-AreWithin (done used nodes vms) h = h
  Moves-AreWithin (pass vm rest) h = Moves-AreWithin rest h
  Moves-AreWithin (moves {nodes = nodes} vm i some_memory warm target rest) h =
      Moves-AreWithin rest (moved-AreWithin nodes vm i target.fits h)

  -- The loop stops at the number of suggestions it was given.
  place-length :
      (m : ℤ) (used : ℤ) (taken : ℕ) (cold : List ℕ) (nodes : List NodeCapacity)
      (vms : List PlacedVm)
      → taken ≤ pos_part m
      → taken + length (place float m limit hot used taken cold nodes vms).0 ≤ pos_part m
  unfolding place
  place-length m used taken cold nodes [] h = omega arith
  place-length m used taken cold nodes (vm ∷ rest) h =
      elim (Verdict-cases (judge float m limit hot used taken cold nodes vm)) [
        | inl stops ↦ rw (place, stops) (omega arith)
        | inr (inl skips) ↦ rw (place, skips) (place-length m used taken cold nodes rest h)
        | inr (inr (i, e)) ↦
            let moved = change_at i (takes vm) nodes in
            let (below, _, _, _) = judge-move float limit hot m used taken cold nodes vm i e in
            rw (place, e)
              (one_more taken (pos_part m) _ (
                place-length m (used -ℤ mb vm.memory_mb) (suc taken) (sort_by_free moved cold) moved
                  rest (room_for taken m below)))
      ]
    where
      room_for : (a : ℕ) (b : ℤ) → leb_ℤ b (pos a) ≡ false → suc a ≤ pos_part b
      room_for a b h = ground arith

      one_more : (a b n : ℕ) → suc a + n ≤ b → a + suc n ≤ b
      one_more a b n h = omega arith

  pub place-bounded :
      (m used : ℤ) (cold : List ℕ) (nodes : List NodeCapacity) (vms : List PlacedVm)
      → length (place float m limit hot used 0 cold nodes vms).0 ≤ pos_part m
  place-bounded m used cold nodes vms =
      drop_zero _ _ (place-length m used 0 cold nodes vms (omega arith))
    where
      drop_zero : (n k : ℕ) → 0 + n ≤ k → n ≤ k
      drop_zero n k h = omega arith
