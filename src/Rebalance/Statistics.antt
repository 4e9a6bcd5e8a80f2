-- ===== src/Rebalance/Statistics.antt =====
-- computeStats of incus-admin/internal/service/rebalance/rebalance.go. `ranged` is the order in which
-- `range` visits a map.
use incus.Base.{String, Bool, false, not, List, [], ◌∷◌, if◌then◌else◌, leb, length}
use incus.Base.Int.{pos, zero_ℤ}
use incus.Base.Table.{select_where}
use incus.Base.Float.{Float}
use incus.Rebalance.{NodeCapacity, Stats, util, is_zero}
use text.Mathlib.Text.{◌==◌ as str_eq}

module _ {W : Type 0} (float : Float W) where
  -- `utilByName`: a node's name written again takes the later value.
  unfoldable pub put : String → W → List (String × W) → List (String × W)
  put name u [] = (name, u) ∷ []
  put name u ((k, v) ∷ rest) =
      let later = (k, v) ∷ put name u rest in if str_eq k name then (k, u) ∷ rest else later

  unfoldable pub utils_by_name : List NodeCapacity → List (String × W) → List (String × W)
  utils_by_name [] by_name = by_name
  utils_by_name (n ∷ nodes) by_name =
      utils_by_name nodes
        (if is_zero n.mem_total then by_name else put n.name (util float n) by_name)

  unfoldable pub sum : (W → W) → List NodeCapacity → W → W
  sum f [] total = total
  sum f (n ∷ nodes) total = sum f nodes (float.plus total (f (util float n)))

  pub record Extremes : Type 0 where
    pub max_u : W
    pub min_u : W
    pub hot : String
    pub cold : String

  abbrev pub see : String → W → Extremes → Extremes
  see name u e =
      let higher = if float.before e.max_u u then record e { max_u = u; hot = name } else e in
      if float.before u e.min_u then record higher { min_u = u; cold = name } else higher

  unfoldable pub extremes : List (String × W) → Extremes → Extremes
  extremes [] e = e
  extremes ((name, u) ∷ rest) e = extremes rest (see name u e)

  module _ (ranged : List (String × W) → List (String × W)) where
    abbrev pub zero_stats : Stats W
    zero_stats = record {
      mean = float.of_int zero_ℤ;
      std_dev = float.of_int zero_ℤ;
      max_diff = float.of_int zero_ℤ;
      hot_node = "";
      cold_node = "";
      imbalanced = false;
    }

    abbrev pub has_memory : NodeCapacity → Bool
    has_memory n = not (is_zero n.mem_total)

    unfoldable pub compute_stats : List NodeCapacity → Stats W
    unfolding sum utils_by_name extremes
    compute_stats nodes =
        let with_memory = select_where has_memory nodes in
        let zero_w = float.of_int zero_ℤ in
        let count = float.of_int (pos (length with_memory)) in
        let mean = float.over (sum (λ u. u) with_memory zero_w) count in
        let square = λ (u : W). float.times (float.minus u mean) (float.minus u mean) in
        let std_dev = float.sqrt (float.over (sum square with_memory zero_w) count) in
        let e =
          extremes (ranged (utils_by_name nodes [])) (record {
            max_u = float.minus_infinity;
            min_u = float.infinity;
            hot = "";
            cold = "";
          }) in
        if leb 2 (length with_memory)
        then record {
          mean = mean;
          std_dev = std_dev;
          max_diff = float.minus e.max_u e.min_u;
          hot_node = e.hot;
          cold_node = e.cold;
          imbalanced = float.before (float.ratio (pos 1) (pos 20)) std_dev;
        }
        else zero_stats
