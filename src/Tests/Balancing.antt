-- ===== src/Tests/Balancing.antt =====
-- Rebalancing and scheduling on whole percent in place of floats.
use incus.Base.{
  some, none, ◌&&◌, ◌&&◌, ℕ, zero, suc, ◌+◌, ◌*◌, ◌/◌, ◌≡◌, refl, true, false, String, List, [],
  ◌∷◌, map, leb, if◌then◌else◌, arith, not,
}
use incus.Base.Float.{Float}
use incus.Base.Int.{ℤ, pos, negsuc, ◌+ℤ◌, ◌-ℤ◌, ltb_ℤ, zero_ℤ}
use incus.Base.Sort.{sort_stable-Sorts, sort_stable, insert_sorted}
use incus.Base.Table.{first_where, select_where}
use incus.Store.{ok}
use incus.Scheduler.{
  NodeInfo, Member, Resources, NodeApi, NodeCache, SchedWeights, load_weights, pick_node, pick_from,
  node_info, ranks_before, refresh_cluster, score_node, clamp01, disk_free, equal_fold, split_at,
}
use incus.Scheduler.Pick.{IsOrdered, PickOutcome, pick_node-PickOutcome}
use text.Mathlib.Text.{◌==◌ as str_eq}
use incus.Rebalance.{
  NodeCapacity, PlacedVm, Options, Plan, mebibyte, leb_ℤ, node_at, change_at, cold_pool, find_hot,
  free_of_mb, imbalance_score, with_defaults,
}
use incus.Rebalance.Statistics.{compute_stats, sum, utils_by_name, extremes, put}
use incus.Rebalance.Compute.{judge, place, relieve, relieve_hot, compute_with, compute}
use incus.Rebalance.Advice.{IsAdvice, compute-IsAdvice, compute-AreWithin}
use incus.Rebalance.Room.{AreWithin}
use incus.Rebalance.Text.{format_int, read_int, read_int-format_int}

abbrev scaled : (ℕ → ℕ → ℕ) → ℤ → ℤ → ℤ
scaled f (pos a) (pos b) = pos (f a b)
scaled f (pos a) (negsuc b) = zero_ℤ -ℤ pos (f a (suc b))
scaled f (negsuc a) (pos b) = zero_ℤ -ℤ pos (f (suc a) b)
scaled f (negsuc a) (negsuc b) = pos (f (suc a) (suc b))

root : ℕ → ℕ → ℕ
root zero n = 0
root (suc k) n = if leb (suc k * suc k) n then suc k else root k n

abbrev root_of : ℤ → ℤ
root_of (pos n) = pos (root 300 (100 * n))
root_of (negsuc n) = zero_ℤ

abbrev percent : Float ℤ
percent = record {
  ratio = scaled (λ a b. 100 * a / b);
  of_int = scaled (λ a b. a * b) (pos 100);
  plus = λ a b. a +ℤ b;
  minus = λ a b. a -ℤ b;
  times = scaled (λ a b. a * b / 100);
  over = scaled (λ a b. 100 * a / b);
  sqrt = root_of;
  larger = λ a b. if ltb_ℤ a b then b else a;
  infinity = pos 1000000;
  minus_infinity = negsuc 1000000;
  before = ltb_ℤ;
  at_most = leb_ℤ;
  equal = λ a b. not (ltb_ℤ a b) && not (ltb_ℤ b a);
  is_nan = λ a. false;
  rounded = λ a. scaled (λ n d. (n + 50) / 100) a (pos 1);
}

abbrev node : String → ℕ → NodeCapacity
node name used = record {
  name = name;
  mem_total = pos (100 * mebibyte);
  mem_used = pos (used * mebibyte);
  vm_count = 1;
  maintenance = false;
  online = true;
}

abbrev three_nodes : List NodeCapacity
three_nodes = node "a" 90 ∷ node "b" 10 ∷ node "c" 30 ∷ []

abbrev placed : String → ℕ → PlacedVm
placed name m = record { name = name; project = "customers"; node = "a"; memory_mb = pos m }

abbrev placed_vms : List PlacedVm
placed_vms = placed "small" 10 ∷ placed "big" 30 ∷ []

abbrev no_options : Options ℤ
no_options = record {
  max_suggestions = zero_ℤ;
  imbalance_threshold = zero_ℤ;
  min_hot_util = zero_ℤ;
}

three_nodes-AreWithin : AreWithin three_nodes
unfolding node_at
three_nodes-AreWithin zero = omega arith
three_nodes-AreWithin (suc zero) = omega arith
three_nodes-AreWithin (suc (suc zero)) = omega arith
three_nodes-AreWithin (suc (suc (suc j))) = omega arith

abbrev outcome : Plan ℤ × List NodeCapacity → List (String × String) × List ℤ
outcome (plan, after) =
    (map (λ s. (s.vm_name, s.target_node)) plan.suggestions, map (λ n. n.mem_used) after)

abbrev big_to_b : List (String × String) × List ℤ
big_to_b = (("big", "b") ∷ [], pos (90 * mebibyte) ∷ pos (40 * mebibyte) ∷ pos (30 * mebibyte) ∷ [])

-- The bigger VM moves to the coldest node, and its advice says so.
big_moves :
    outcome (compute percent (λ by_name. by_name) three_nodes placed_vms no_options) ≡ big_to_b
unfolding node_at change_at cold_pool find_hot free_of_mb imbalance_score with_defaults
    compute_stats sum utils_by_name extremes put judge place relieve relieve_hot compute_with
    compute sort_stable insert_sorted first_where select_where ◌+ℤ◌ ◌-ℤ◌ root
big_moves = refl

compute-IsAdvice_example :
    IsAdvice percent
      (with_defaults percent no_options)
      three_nodes
      placed_vms
      (compute percent (λ by_name. by_name) three_nodes placed_vms no_options)
compute-IsAdvice_example =
    compute-IsAdvice percent (λ by_name. by_name) three_nodes placed_vms no_options

compute-AreWithin_example :
    AreWithin (compute percent (λ by_name. by_name) three_nodes placed_vms no_options).1
compute-AreWithin_example =
    compute-AreWithin percent (λ by_name. by_name) three_nodes placed_vms no_options
      three_nodes-AreWithin

read_int-format_int_example : read_int (format_int (negsuc 120)) ≡ negsuc 120
read_int-format_int_example = read_int-format_int (negsuc 120) (omega arith)

percent-IsOrdered : IsOrdered percent
percent-IsOrdered = record {
  equal_iff = λ a b. refl;
  asym = λ a b h. ground arith;
  neg_trans = λ a b c h g. ground arith;
}

abbrev by_rank : List (NodeInfo ℤ) → List (NodeInfo ℤ)
by_rank = sort_stable (ranks_before percent)

abbrev members : List Member
members =
    record {
      server_name = "a";
      status = "Online";
      message = "Fully operational";
      scheduler_instance = some "Manual";
    }
    ∷ record {
      server_name = "b";
      status = "Online";
      message = "Fully operational";
      scheduler_instance = none;
    }
    ∷ record {
      server_name = "c";
      status = "Online";
      message = "Fully operational";
      scheduler_instance = none;
    }
    ∷ []

-- The third node has more memory than the others.
abbrev resources_of : String → Resources ℤ
resources_of name = record {
  cpu_total = pos 8;
  mem_total = if str_eq name "c" then pos 200 else pos 100;
  mem_used = pos 50;
  average_5min = pos 200;
}

abbrev api : NodeApi ℤ
api = record {
  members = ok members;
  resources = λ name. some (resources_of name);
  space = some (pos 10, pos 4);
}

abbrev no_cache : NodeCache percent
no_cache name = []

abbrev weights : SchedWeights ℤ
weights = load_weights percent (λ part. none) ""

-- The first node is in maintenance, and of the other two the third is freer.
c_is_picked : (pick_node percent by_rank weights (some api) "main" no_cache).0 ≡ ok "c"
unfolding pick_node pick_from refresh_cluster node_info score_node clamp01 disk_free equal_fold
    load_weights split_at sort_stable insert_sorted select_where ◌-ℤ◌ ◌+ℤ◌
c_is_picked = refl

pick_node-PickOutcome_example :
    PickOutcome percent weights
      (some api)
      "main"
      no_cache
      (pick_node percent by_rank weights (some api) "main" no_cache)
pick_node-PickOutcome_example =
    pick_node-PickOutcome percent percent-IsOrdered by_rank
      (sort_stable-Sorts (ranks_before percent)) weights (some api) "main" no_cache
