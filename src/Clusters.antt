-- ===== src/Clusters.antt =====
-- The cluster manager (incus-admin/internal/cluster/manager.go): the connected clusters by name,
-- their configuration, and the ids of their rows. A client is its name; `connects` says whether
-- `newClient` succeeds. `clients` is in the order that the map gives it.
use incus.Base.{
  ℕ, String, Bool, false, not, Option, none, some, List, [], ◌∷◌, ◌++◌, if◌then◌else◌, ◌==◌, ◌||◌,
}
use incus.Base.Table.{first_where, select_where}
use incus.Store.{Result, ok, err, remote}
use incus.Checkout.{PoolConfig}
use text.Mathlib.Text.{◌==◌ as str_eq}

pub record ClusterConfig : Type 0 where
  pub name : String
  pub default_project : String
  pub storage_pool : String
  pub network : String
  pub ip_pools : List PoolConfig

pub record Manager : Type 0 where
  pub clients : List String
  pub configs : List ClusterConfig
  pub id_by_name : String → ℕ
  pub name_by_id : ℕ → String

abbrev pub is_named : String → ClusterConfig → Bool
is_named name c = str_eq c.name name

abbrev pub has_client : String → List String → Bool
has_client name [] = false
has_client name (c ∷ rest) = str_eq c name || has_client name rest

-- Get: none for a name that is not connected.
unfoldable pub get : Manager → String → Option String
get m name = if has_client name m.clients then some name else none

unfoldable pub config_by_name : Manager → String → Option ClusterConfig
config_by_name m name = first_where (is_named name) m.configs

unfoldable pub set_id : String → ℕ → Manager → Manager
set_id name id m = record m {
  id_by_name = λ n. if str_eq n name then id else m.id_by_name n;
  name_by_id = λ i. if i == id then name else m.name_by_id i;
}

-- The first configuration of a name gives way to another.
unfoldable pub replace_first : String → ClusterConfig → List ClusterConfig → List ClusterConfig
replace_first name cc [] = []
replace_first name cc (c ∷ rest) =
    let later = c ∷ replace_first name cc rest in if is_named name c then cc ∷ rest else later

unfoldable pub update_config : String → ClusterConfig → Manager → Manager
unfolding replace_first
update_config name cc m = record m { configs = replace_first name cc m.configs }

unfoldable pub add_cluster : Bool → ClusterConfig → Manager → Result Manager
add_cluster connects cc m =
    if has_client cc.name m.clients
    then err (remote "cluster already exists")
    else if connects
    then ok (record m { clients = cc.name ∷ m.clients; configs = m.configs ++ cc ∷ [] })
    else err (remote "connect cluster")

unfoldable pub drop_first : String → List ClusterConfig → List ClusterConfig
drop_first name [] = []
drop_first name (c ∷ rest) =
    let later = c ∷ drop_first name rest in if is_named name c then rest else later

unfoldable pub remove_cluster : String → Manager → Result Manager
unfolding drop_first
remove_cluster name m =
    if has_client name m.clients
    then ok (record m {
      clients = select_where (λ c. not (str_eq c name)) m.clients;
      configs = drop_first name m.configs;
    })
    else err (remote "cluster not found")
