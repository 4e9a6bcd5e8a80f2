-- ===== src/Rebalance.antt =====
-- The rebalancing advice of incus-admin/internal/service/rebalance/rebalance.go: the nodes, the
-- VMs and the steps of `Compute`. Memory is counted in bytes and megabytes over ℤ. A float is a value of
-- a type `W` whose operations are a parameter, `Float W`.
pub mod Text
pub mod Statistics
pub mod Compute
mod Pool
mod Moves
pub mod Room
pub mod Advice
use incus.Base.{
  ℕ, zero, suc, ◌==◌, ◌+◌, ◌*◌, ◌/◌, String, Bool, true, false, not, ◌&&◌, ◌||◌, Option, none, some,
  List, [], ◌∷◌, if◌then◌else◌, leb, length,
}
use incus.Base.Float.{Float}
use incus.Base.Int.{ℤ, pos, negsuc, ◌+ℤ◌, ◌-ℤ◌, ltb_ℤ, zero_ℤ}
use incus.Base.Table.{first_where, select_where}
use incus.Base.Sort.{sort_stable}
use text.Mathlib.Text.{◌==◌ as str_eq}

pub record NodeCapacity : Type 0 where
  pub name : String
  pub mem_total : ℤ
  pub mem_used : ℤ
  pub vm_count : ℕ
  pub maintenance : Bool
  pub online : Bool

pub record PlacedVm : Type 0 where
  pub name : String
  pub project : String
  pub node : String
  pub memory_mb : ℤ

pub record Suggestion (W : Type 0) : Type 0 where
  pub vm_name : String
  pub project : String
  pub source_node : String
  pub target_node : String
  pub reason : String
  pub score : W

pub record Stats (W : Type 0) : Type 0 where
  pub mean : W
  pub std_dev : W
  pub max_diff : W
  pub hot_node : String
  pub cold_node : String
  pub imbalanced : Bool

pub record Plan (W : Type 0) : Type 0 where
  pub stats : Stats W
  pub suggestions : List (Suggestion W)

pub record Options (W : Type 0) : Type 0 where
  pub max_suggestions : ℤ
  pub imbalance_threshold : W
  pub min_hot_util : W

abbrev pub mebibyte : ℕ
mebibyte = 1048576

abbrev pub mb : ℤ → ℤ
mb (pos n) = pos (n * mebibyte)
mb (negsuc n) = zero_ℤ -ℤ pos (suc n * mebibyte)

-- Division of int64 cuts towards zero.
abbrev pub quot_mb : ℤ → ℤ
quot_mb (pos n) = pos (n / mebibyte)
quot_mb (negsuc n) = zero_ℤ -ℤ pos (suc n / mebibyte)

abbrev pub is_zero : ℤ → Bool
is_zero (pos n) = n == 0
is_zero (negsuc n) = false

abbrev pub leb_ℤ : ℤ → ℤ → Bool
leb_ℤ a b = not (ltb_ℤ b a)

abbrev pub free : NodeCapacity → ℤ
free n = n.mem_total -ℤ n.mem_used

unfoldable pub free_of_mb : NodeCapacity → ℤ
free_of_mb n = quot_mb (free n)

-- The nodes stand in a slice, and `hot` and `cold` point into it: a pointer is an index.
abbrev nowhere : NodeCapacity
nowhere = record {
  name = "";
  mem_total = zero_ℤ;
  mem_used = zero_ℤ;
  vm_count = 0;
  maintenance = false;
  online = false;
}

unfoldable pub node_at : ℕ → List NodeCapacity → NodeCapacity
node_at i [] = nowhere
node_at zero (n ∷ nodes) = n
node_at (suc i) (n ∷ nodes) = node_at i nodes

unfoldable pub change_at : ℕ → (NodeCapacity → NodeCapacity) → List NodeCapacity → List NodeCapacity
change_at i f [] = []
change_at zero f (n ∷ nodes) = f n ∷ nodes
change_at (suc i) f (n ∷ nodes) = n ∷ change_at i f nodes

-- sortByFree: the pointers by the free memory of their nodes, most first.
abbrev pub freer : List NodeCapacity → ℕ → ℕ → Bool
freer nodes i j = ltb_ℤ (free (node_at j nodes)) (free (node_at i nodes))

abbrev pub sort_by_free : List NodeCapacity → List ℕ → List ℕ
sort_by_free nodes = sort_stable (freer nodes)

abbrev pub larger_vm : PlacedVm → PlacedVm → Bool
larger_vm a b = ltb_ℤ b.memory_mb a.memory_mb

-- What a move does to the target.
abbrev pub takes : PlacedVm → NodeCapacity → NodeCapacity
takes vm n = record n { mem_used = n.mem_used +ℤ mb vm.memory_mb }

abbrev pub has_room : List NodeCapacity → PlacedVm → ℕ → Bool
has_room nodes vm i = leb_ℤ vm.memory_mb (free_of_mb (node_at i nodes))

-- The pointers of the pool of targets: neither the hot node's name nor offline, in maintenance or
-- without memory.
abbrev pub can_receive : String → NodeCapacity → Bool
can_receive hot n = not (str_eq n.name hot || not n.online || n.maintenance || is_zero n.mem_total)

unfoldable pub cold_pool : String → ℕ → List NodeCapacity → List ℕ
cold_pool hot i [] = []
cold_pool hot i (n ∷ nodes) =
    let rest = cold_pool hot (suc i) nodes in if can_receive hot n then i ∷ rest else rest

module _ {W : Type 0} (float : Float W) where
  abbrev pub util : NodeCapacity → W
  util n = float.ratio n.mem_used n.mem_total

  -- Default, where an option is not positive.
  abbrev pub or_default : W → W → W
  or_default w x = if float.at_most x (float.of_int zero_ℤ) then w else x

  abbrev pub default_options : Options W
  default_options = record {
    max_suggestions = pos 8;
    imbalance_threshold = float.ratio (pos 1) (pos 5);
    min_hot_util = float.ratio (pos 1) (pos 2);
  }

  unfoldable pub with_defaults : Options W → Options W
  with_defaults opt = record {
    max_suggestions =
        if leb_ℤ opt.max_suggestions zero_ℤ
        then default_options.max_suggestions
        else opt.max_suggestions;
    imbalance_threshold = or_default default_options.imbalance_threshold opt.imbalance_threshold;
    min_hot_util = or_default default_options.min_hot_util opt.min_hot_util;
  }

  -- The hottest so far, as a pointer.
  abbrev pub is_hotter : List NodeCapacity → Option ℕ → NodeCapacity → Bool
  is_hotter nodes none n = true
  is_hotter nodes (some h) n = float.before (util (node_at h nodes)) (util n)

  abbrev pub may_be_hot : W → NodeCapacity → Bool
  may_be_hot min_hot n = not (is_zero n.mem_total) && not (float.before (util n) min_hot)

  unfoldable pub find_hot : W → List NodeCapacity → ℕ → List NodeCapacity → Option ℕ → Option ℕ
  find_hot min_hot all i [] hot = hot
  find_hot min_hot all i (n ∷ nodes) hot =
      find_hot min_hot all (suc i) nodes
        (if may_be_hot min_hot n && is_hotter all hot n then some i else hot)

  unfoldable pub imbalance_score : ℤ → ℤ → ℤ → ℤ → W
  imbalance_score src_used src_total dst_used dst_total =
      if is_zero src_total || is_zero dst_total
      then float.of_int zero_ℤ
      else float.larger (float.of_int zero_ℤ)
          (float.minus (float.ratio src_used src_total) (float.ratio dst_used dst_total))
