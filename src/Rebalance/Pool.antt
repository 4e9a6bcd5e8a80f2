-- ===== src/Rebalance/Pool.antt =====
-- The pool of targets of a rebalance (incus-admin/internal/service/rebalance/rebalance.go): what
-- its order means, and what a move changes of it.
use incus.Base.{
  if◌then◌else◌, ℕ, zero, suc, ◌+◌, String, Bool, true, false, some, List, [], ◌∷◌, ◌≡◌, ◌⊎◌, inl,
  inr, refl, ap, subst, arith, Bool-cases,
}
use incus.Base.Int.{ℤ, pos, negsuc, ◌-ℤ◌, ◌≤ℤ◌, ltb_ℤ, zero_ℤ}
use incus.Base.Table.{first_where}
use incus.Base.Sort.{All, All-map, InOrder, IsStrict, first_where-first}
use incus.Rebalance.{
  NodeCapacity, PlacedVm, mb, quot_mb, leb_ℤ, free, free_of_mb, node_at, change_at, freer, takes,
  has_room, can_receive, cold_pool,
}

quot_mb_mono :
    (a b m : ℤ) → leb_ℤ m (quot_mb a) ≡ false → leb_ℤ m (quot_mb b) ≡ true → ltb_ℤ b a ≡ false
unfolding ◌-ℤ◌
quot_mb_mono (pos a) (pos b) m h g = ground arith
quot_mb_mono (pos a) (negsuc b) m h g = ground arith
quot_mb_mono (negsuc a) (pos b) m h g = ground arith
quot_mb_mono (negsuc a) (negsuc b) m h g = ground arith

-- What fits in the whole megabytes that are free fits in the free bytes.
pub mb-le-free : (a m : ℤ) → leb_ℤ m (quot_mb a) ≡ true → leb_ℤ m zero_ℤ ≡ false → mb m ≤ℤ a
unfolding ◌-ℤ◌
mb-le-free (pos a) (pos m) h g = ground arith
mb-le-free (pos a) (negsuc m) h g = ground arith
mb-le-free (negsuc a) (pos m) h g = ground arith
mb-le-free (negsuc a) (negsuc m) h g = ground arith

pub freer-IsStrict : (nodes : List NodeCapacity) → IsStrict (freer nodes)
freer-IsStrict nodes = (
  λ i j h. ltb_asym (free (node_at j nodes)) (free (node_at i nodes)) h,
  λ i j k h g.
      ltb_trans (free (node_at i nodes)) (free (node_at j nodes)) (free (node_at k nodes)) h g,
)
  where
    ltb_asym : (a b : ℤ) → ltb_ℤ a b ≡ true → ltb_ℤ b a ≡ false
    ltb_asym a b h = ground arith

    ltb_trans : (a b c : ℤ) → ltb_ℤ a b ≡ false → ltb_ℤ b c ≡ false → ltb_ℤ a c ≡ false
    ltb_trans a b c h g = ground arith

-- The first of the pool with room has the most free memory of the pool.
pub first_fit-freest :
    (nodes : List NodeCapacity) (vm : PlacedVm) (cold : List ℕ) (i : ℕ)
    → InOrder (freer nodes) cold
    → first_where (has_room nodes vm) cold ≡ some i
    → All (λ j. free (node_at j nodes) ≤ℤ free (node_at i nodes)) cold
unfolding free_of_mb
first_fit-freest nodes vm cold i ordered e =
    All-map (λ j h. ltb-le (free (node_at i nodes)) (free (node_at j nodes)) h) cold
      (first_where-first (freer nodes) (has_room nodes vm)
        (λ j k h g. quot_mb_mono (free (node_at j nodes)) (free (node_at k nodes)) vm.memory_mb h g)
        (λ j. ltb_irrefl (free (node_at j nodes))) cold i ordered e)
  where
    ltb-le : (a b : ℤ) → ltb_ℤ a b ≡ false → b ≤ℤ a
    ltb-le a b h = ground arith

    ltb_irrefl : (a : ℤ) → ltb_ℤ a a ≡ false
    ltb_irrefl a = ground arith

-- A change at a pointer changes what it points to and nothing else.
pub node_at-change_at :
    (f : NodeCapacity → NodeCapacity) (i j : ℕ) (nodes : List NodeCapacity)
    → (node_at j (change_at i f nodes) ≡ node_at j nodes)
      ⊎ ((i ≡ j) × (node_at j (change_at i f nodes) ≡ f (node_at j nodes)))
unfolding node_at change_at
node_at-change_at f i j [] = inl refl
node_at-change_at f zero zero (n ∷ nodes) = inr (refl, refl)
node_at-change_at f zero (suc j) (n ∷ nodes) = inl refl
node_at-change_at f (suc i) zero (n ∷ nodes) = inl refl
node_at-change_at f (suc i) (suc j) (n ∷ nodes) = elim (node_at-change_at f i j nodes) [
  | inl same ↦ inl same
  | inr (at, changed) ↦ inr (ap suc at, changed)
]

-- A move leaves open which nodes may receive.
pub can_receive-moved :
    (hot : String) (vm : PlacedVm) (i j : ℕ) (nodes : List NodeCapacity)
    → can_receive hot (node_at j (change_at i (takes vm) nodes)) ≡ can_receive hot (node_at j nodes)
can_receive-moved hot vm i j nodes = elim (node_at-change_at (takes vm) i j nodes) [
  | inl same ↦ ap (can_receive hot) same
  | inr (_, changed) ↦ ap (can_receive hot) changed
]

module _ (hot : String) where
  -- The pool holds nodes that may receive, and all of them.
  abbrev pub Receives : List NodeCapacity → List ℕ → Type 0
  Receives nodes = All (λ i. can_receive hot (node_at i nodes) ≡ true)

  abbrev pub IsComplete : List NodeCapacity → List ℕ → Type 1
  IsComplete nodes cold =
      (P : ℕ → Type 0) → All P cold → (j : ℕ) → can_receive hot (node_at j nodes) ≡ true → P j

  cold_pool-from :
      (k : ℕ) (P : ℕ → Type 0) (nodes : List NodeCapacity)
      → ((i j : ℕ) → k + j ≡ i → can_receive hot (node_at j nodes) ≡ true → P i)
      → All P (cold_pool hot k nodes)
  unfolding cold_pool node_at
  cold_pool-from k P [] h = _
  cold_pool-from k P (n ∷ nodes) h =
      let rest = cold_pool-from (suc k) P nodes λ i j at e. h i (suc j) (omega arith) e in
      elim (Bool-cases (can_receive hot n)) [
        | inl fit ↦ rw (fit) (h k 0 (omega arith) fit, rest)
        | inr unfit ↦ rw (unfit) rest
      ]

  pub cold_pool-Receives : (nodes : List NodeCapacity) → Receives nodes (cold_pool hot 0 nodes)
  cold_pool-Receives nodes =
      cold_pool-from 0 (λ i. can_receive hot (node_at i nodes) ≡ true) nodes
        λ i j at e. subst (λ l. can_receive hot (node_at l nodes) ≡ true) (omega arith) e

  cold_pool-split :
      (k : ℕ) (P : ℕ → Type 0) (n : NodeCapacity) (nodes : List NodeCapacity)
      → All P (cold_pool hot k (n ∷ nodes))
      → (can_receive hot n ≡ true → P k) × All P (cold_pool hot (suc k) nodes)
  unfolding cold_pool
  cold_pool-split k P n nodes h = by_test (can_receive hot n) h
    where
      by_test :
          (b : Bool)
          → All P (if b then k ∷ cold_pool hot (suc k) nodes else cold_pool hot (suc k) nodes)
          → (b ≡ true → P k) × All P (cold_pool hot (suc k) nodes)
      by_test true (p, rest) = (λ _. p, rest)
      by_test false rest = (λ e. absurd (ground arith), rest)

  complete_from :
      (k : ℕ) (P : ℕ → Type 0) (nodes : List NodeCapacity)
      → All P (cold_pool hot k nodes)
      → (i j : ℕ) → k + j ≡ i
      → can_receive hot (node_at j nodes) ≡ true
      → P i
  unfolding node_at
  complete_from k P [] h i j at e = absurd (ground arith)
  complete_from k P (n ∷ nodes) h i zero at e =
      subst P (omega arith) ((cold_pool-split k P n nodes h).0 e)
  complete_from k P (n ∷ nodes) h i (suc j) at e =
      complete_from (suc k) P nodes (cold_pool-split k P n nodes h).1 i j (omega arith) e

  pub cold_pool-IsComplete : (nodes : List NodeCapacity) → IsComplete nodes (cold_pool hot 0 nodes)
  cold_pool-IsComplete nodes P h j e = complete_from 0 P nodes h j j (omega arith) e
