-- ===== src/Scheduler.antt =====
-- The scheduler of new VMs (incus-admin/internal/cluster/scheduler.go): the weights, the score of a
-- node, the nodes kept for each cluster and the choice among them. The answers of the Incus API are
-- parameters, with the zero values where a body does not parse.
pub mod Pick
use Prim.Native.Char.{code}
use Prim.Native.String.{String, ◌++◌ as joined}
use incus.Base.Text.{lower}
use incus.Base.{
  ℕ, ◌+◌, Bool, true, false, not, ◌&&◌, ◌||◌, Option, none, some, List, [], ◌∷◌, map, if◌then◌else◌,
  leb, ◌==◌,
}
use incus.Base.Float.{Float}
use incus.Base.Int.{ℤ, pos, ◌-ℤ◌, ltb_ℤ, zero_ℤ}
use incus.Base.Table.{select_where}
use incus.Base.Sort.{sort_stable}
use incus.Store.{Result, ok, err, Error, remote, wrapped}
use text.Mathlib.Text.{◌==◌ as str_eq}

pub record NodeInfo (W : Type 0) : Type 0 where
  pub name : String
  pub status : String
  pub message : String
  pub cpu_total : ℤ
  pub mem_total : ℤ
  pub mem_used : ℤ
  pub mem_free : ℤ
  pub free_ratio : W
  pub load_average_5min : W
  pub cpu_free_ratio : W
  pub disk_free_ratio : W
  pub maintenance : Bool
  pub evacuated : Bool
  pub score : W

pub record SchedWeights (W : Type 0) : Type 0 where
  pub mem : W
  pub cpu : W
  pub disk : W

-- strings.Split at commas
unfoldable pub split_at : String → String → List String
split_at part String.[] = part ∷ []
split_at part (String.◌∷◌ c rest) =
    let later = split_at "" rest in
    if code c == b',' then part ∷ later else split_at (joined part (String.◌∷◌ c "")) rest

-- strings.EqualFold against a text whose letters fold to ASCII only
unfoldable pub equal_fold : String → String → Bool
equal_fold String.[] String.[] = true
equal_fold (String.◌∷◌ c s) (String.◌∷◌ d t) = (lower (code c) == lower (code d)) && equal_fold s t
equal_fold _ _ = false

-- A member of the cluster, and what its resources report.
pub record Member : Type 0 where
  pub server_name : String
  pub status : String
  pub message : String
  pub scheduler_instance : Option String

pub record Resources (W : Type 0) : Type 0 where
  pub cpu_total : ℤ
  pub mem_total : ℤ
  pub mem_used : ℤ
  pub average_5min : W

-- The Incus API of one cluster; `space` is the total and the used space of the storage pool.
pub record NodeApi (W : Type 0) : Type 0 where
  pub members : Result (List Member)
  pub resources : String → Option (Resources W)
  pub space : Option (ℤ × ℤ)

module _ {W : Type 0} (float : Float W) where
  abbrev pub zero_w : W
  zero_w = float.of_int zero_ℤ

  abbrev pub one_w : W
  one_w = float.of_int (pos 1)

  abbrev pub half : W
  half = float.ratio (pos 1) (pos 2)

  abbrev pub default_weights : SchedWeights W
  default_weights = record {
    mem = half;
    cpu = float.ratio (pos 2) (pos 5);
    disk = float.ratio (pos 1) (pos 10);
  }

  -- strconv.ParseFloat of a trimmed part, and the test for a negative value.
  abbrev pub weight_of : (String → Option W) → String → Option W
  weight_of parse part = elim (parse part) [
    | none ↦ none
    | some v ↦ if float.before v zero_w then none else some v
  ]

  abbrev pub normal_weights : W → W → W → SchedWeights W
  normal_weights a b c =
      let sum = float.plus (float.plus a b) c in
      if float.equal sum zero_w
      then default_weights
      else record { mem = float.over a sum; cpu = float.over b sum; disk = float.over c sum }

  abbrev pub weights_of : Option W → Option W → Option W → SchedWeights W
  weights_of (some a) (some b) (some c) = normal_weights a b c
  weights_of _ _ _ = default_weights

  abbrev pub weights_of_parts : (String → Option W) → List String → SchedWeights W
  weights_of_parts parse (a ∷ b ∷ c ∷ []) =
      weights_of (weight_of parse a) (weight_of parse b) (weight_of parse c)
  weights_of_parts parse _ = default_weights

  unfoldable pub load_weights : (String → Option W) → String → SchedWeights W
  load_weights parse raw =
      if str_eq raw "" then default_weights else weights_of_parts parse (split_at "" raw)

  unfoldable pub clamp01 : W → W
  clamp01 v =
      if float.is_nan v || float.before v zero_w
      then zero_w
      else if float.before one_w v
      then one_w
      else v

  abbrev pub is_down : NodeInfo W → Bool
  is_down n = n.maintenance || n.evacuated || not (str_eq n.status "Online")

  unfoldable pub score_node : NodeInfo W → SchedWeights W → W
  score_node n w =
      let disk = clamp01 n.disk_free_ratio in
      if is_down n
      then zero_w
      else float.plus
          (float.plus (float.times w.mem (clamp01 n.free_ratio))
            (float.times w.cpu (clamp01 n.cpu_free_ratio)))
          (float.times w.disk (if float.equal disk zero_w then half else disk))

  -- fetchClusterDiskFree
  unfoldable pub disk_free : Option (ℤ × ℤ) → W
  disk_free none = zero_w
  disk_free (some (total, used)) =
      if ltb_ℤ zero_ℤ total then float.ratio (total -ℤ used) total else zero_w

  abbrev pub bare_node : Member → NodeInfo W
  bare_node m = record {
    name = m.server_name;
    status = m.status;
    message = m.message;
    cpu_total = zero_ℤ;
    mem_total = zero_ℤ;
    mem_used = zero_ℤ;
    mem_free = zero_ℤ;
    free_ratio = zero_w;
    load_average_5min = zero_w;
    cpu_free_ratio = zero_w;
    disk_free_ratio = zero_w;
    maintenance = elim (m.scheduler_instance) [ none ↦ false | some v ↦ equal_fold v "manual" ];
    evacuated = equal_fold m.status "Evacuated";
    score = zero_w;
  }

  abbrev pub with_resources : Option (Resources W) → NodeInfo W → NodeInfo W
  with_resources none n = n
  with_resources (some r) n =
      let free = r.mem_total -ℤ r.mem_used in
      record n {
        cpu_total = r.cpu_total;
        mem_total = r.mem_total;
        mem_used = r.mem_used;
        mem_free = free;
        free_ratio = if ltb_ℤ zero_ℤ r.mem_total then float.ratio free r.mem_total else zero_w;
        load_average_5min = r.average_5min;
        cpu_free_ratio =
            if ltb_ℤ zero_ℤ r.cpu_total
            then clamp01 (float.minus one_w (float.over r.average_5min (float.of_int r.cpu_total)))
            else half;
      }

  abbrev pub scored : SchedWeights W → W → NodeInfo W → NodeInfo W
  scored w disk n =
      let info = record n { disk_free_ratio = disk } in record info { score = score_node info w }

  unfoldable pub node_info : SchedWeights W → NodeApi W → Member → NodeInfo W
  node_info w api m =
      scored w (disk_free api.space) (with_resources (api.resources m.server_name) (bare_node m))

  -- The nodes by cluster name; a cluster that the manager does not have has no API.
  abbrev pub NodeCache : Type 0
  NodeCache = String → List (NodeInfo W)

  abbrev pub cached : String → List (NodeInfo W) → NodeCache → NodeCache
  cached name nodes cache other = if str_eq other name then nodes else cache other

  abbrev pub refreshed :
      SchedWeights W → String → NodeCache → NodeApi W → Result (List Member) → Result NodeCache
  refreshed w name cache api (err e) = err e
  refreshed w name cache api (ok ms) = ok (cached name (map (node_info w api) ms) cache)

  unfoldable pub refresh_cluster :
      SchedWeights W → String → Option (NodeApi W) → NodeCache → Result NodeCache
  refresh_cluster w name none cache = err (remote "cluster not found")
  refresh_cluster w name (some api) cache = refreshed w name cache api api.members

  abbrev pub usable : NodeInfo W → Bool
  usable n = not (is_down n || not (str_eq n.message "Fully operational"))

  abbrev pub ranks_before : NodeInfo W → NodeInfo W → Bool
  ranks_before a b =
      if not (float.equal a.score b.score)
      then float.before b.score a.score
      else ltb_ℤ b.mem_free a.mem_free

  abbrev pub first_name : List (NodeInfo W) → Result String
  first_name [] = err (remote "no available nodes")
  first_name (n ∷ rest) = ok n.name

  -- sort.Slice, which may put elements that rank alike in any order, is a parameter.
  module _ (sort : List (NodeInfo W) → List (NodeInfo W)) where
    unfoldable pub pick_from : List (NodeInfo W) → Result String
    pick_from nodes = first_name (sort (select_where usable nodes))

    abbrev pub pick_after : String → NodeCache → Result NodeCache → Result String × NodeCache
    pick_after name cache (err e) = (err (wrapped "refresh nodes" e), cache)
    pick_after name cache (ok filled) = (pick_from (filled name), filled)

    abbrev pub pick_cached :
        SchedWeights W
        → Option (NodeApi W)
        → String
        → NodeCache
        → List (NodeInfo W)
        → Result String × NodeCache
    pick_cached w api name cache [] = pick_after name cache (refresh_cluster w name api cache)
    pick_cached w api name cache (n ∷ rest) = (pick_from (n ∷ rest), cache)

    unfoldable pub pick_node :
        SchedWeights W → Option (NodeApi W) → String → NodeCache → Result String × NodeCache
    pick_node w api name cache = pick_cached w api name cache (cache name)
