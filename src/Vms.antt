-- ===== src/Vms.antt =====
-- The vms table (incus-admin/internal/repository/vm.go): the life of a VM row from `creating` to
-- `deleted` or `gone`, the trash and the rescue mode. Passwords go through the cipher of
-- internal/auth, which is a parameter.
pub mod Lifecycle
use incus.Base.{
  ℕ, ◌+◌, String, Bool, true, false, not, ◌&&◌, Option, none, some, List, [], ◌∷◌, if◌then◌else◌,
  ltb, leb, ◌==◌, is_some,
}
use incus.Base.Table.{find, select_where, update_where, count_where}
use incus.Models.{
  Vm, VmStatus, RescueState, is_present, is_live, is_provisionable, is_counted, is_normal,
}
use incus.Store.{
  Tables, Error, M, ok, err, foreign_key, encryption, pure, raise, wrap, statement, insert, ◌>>=◌,
  ◌>>◌, has_user,
}
use text.Mathlib.Text.{◌==◌ as str_eq}

-- auth.EncryptPassword: none where it fails.
pub record Cipher : Type 0 where
  pub encrypt : String → Option String

-- encryptForWrite; `production` is the environment
abbrev pub encrypt_for_write : Cipher → Bool → Option String → Option String
encrypt_for_write x production none = none
encrypt_for_write x production (some p) =
    if str_eq p ""
    then some p
    else elim (x.encrypt p) [ none ↦ (if production then none else some p) | some e ↦ some e ]

-- The INSERT writes these columns; the others take their defaults.
unfoldable pub create : Cipher → Bool → ℕ → Vm → M Vm
create x production now vm = insert λ id t.
    let row : Vm = record vm {
      id = id;
      password = encrypt_for_write x production vm.password;
      rescue_state = RescueState.normal;
      rescue_started_at = none;
      rescue_snapshot_name = none;
      trashed_at = none;
      trashed_prev_status = none;
      created_at = now;
      updated_at = now;
    } in
    if has_user vm.user_id t then ok (row, record t { vms = row ∷ t.vms }) else err foreign_key

unfoldable pub get_by_id : ℕ → M (Option Vm)
get_by_id id = statement λ t. ok (find Vm.id id t.vms, t)

-- UPDATE vms SET f WHERE p, with the rows affected
abbrev pub update : (Vm → Bool) → (Vm → Vm) → M ℕ
update p f = statement λ t. ok (count_where p t.vms, record t { vms = update_where p f t.vms })

abbrev pub with_status : VmStatus → ℕ → Vm → Vm
with_status s now v = record v { status = s; updated_at = now }

unfoldable pub update_status : ℕ → VmStatus → ℕ → M (Unit {0})
update_status id s now = update (λ v. v.id == id) (with_status s now) >> pure tt

abbrev pub encrypted : Cipher → String → M String
encrypted x password = elim (x.encrypt password) [
  | none ↦ raise (Error.wrapped "encrypt password" encryption)
  | some e ↦ pure e
]

unfoldable pub update_password : Cipher → ℕ → String → ℕ → M (Unit {0})
update_password x id password now = do
  e ← encrypted x password
  update (λ v. v.id == id) (λ v. record v { password = some e; updated_at = now })
  pure tt

abbrev pub with_node : String → ℕ → Vm → Vm
with_node node now v = record v { node = node; updated_at = now }

unfoldable pub update_node : ℕ → String → ℕ → M (Unit {0})
update_node id node now = update (λ v. v.id == id) (with_node node now) >> pure tt

abbrev pub provisionable : ℕ → Vm → Bool
provisionable id v = v.id == id && is_provisionable v.status

abbrev pub provisioned : String → String → ℕ → Vm → Vm
provisioned node password now v = record v {
  status = VmStatus.running;
  node = node;
  password = some password;
  updated_at = now;
}

unfoldable pub update_after_provision : Cipher → ℕ → String → String → ℕ → M (Unit {0})
update_after_provision x id node password now = do
  e ← encrypted x password
  update (provisionable id) (provisioned node e now)
  pure tt

unfoldable pub delete : ℕ → ℕ → M (Unit {0})
delete id now = update (λ v. v.id == id) (with_status VmStatus.deleted now) >> pure tt

abbrev pub in_trash : Vm → Bool
in_trash v = is_some v.trashed_at

abbrev pub reconcilable : ℕ → ℕ → Vm → Bool
reconcilable cluster_id cutoff v =
    v.cluster_id == cluster_id && is_live v.status && not (in_trash v) && ltb v.created_at cutoff

unfoldable pub list_active_for_reconcile : ℕ → ℕ → M (List Vm)
list_active_for_reconcile cluster_id cutoff =
    wrap "list active for reconcile"
      (statement λ t. ok (select_where (reconcilable cluster_id cutoff) t.vms, t))

abbrev pub markable : ℕ → Vm → Bool
markable id v = v.id == id && is_present v.status

unfoldable pub mark_gone : ℕ → ℕ → M (Unit {0})
mark_gone id now = do
  wrap "mark vm gone" (update (markable id) (with_status VmStatus.gone now))
  pure tt

-- The VMs that count against a user's quota.
abbrev pub counts_for : ℕ → Vm → Bool
counts_for user_id v = v.user_id == user_id && is_counted v.status && not (in_trash v)

pub record Usage : Type 0 where
  pub vms : ℕ
  pub vcpus : ℕ
  pub ram_mb : ℕ
  pub disk_gb : ℕ

unfoldable pub usage : List Vm → Usage
usage [] = record { vms = 0; vcpus = 0; ram_mb = 0; disk_gb = 0 }
usage (v ∷ rest) =
    let u = usage rest in
    record {
      vms = u.vms + 1;
      vcpus = v.cpu + u.vcpus;
      ram_mb = v.memory_mb + u.ram_mb;
      disk_gb = v.disk_gb + u.disk_gb;
    }

-- The rows that a user sees, ORDER BY id DESC by insertion.
abbrev pub visible_to : ℕ → Vm → Bool
visible_to user_id v = v.user_id == user_id && is_present v.status && not (in_trash v)

unfoldable pub insert_by_id_desc : Vm → List Vm → List Vm
insert_by_id_desc v [] = v ∷ []
insert_by_id_desc v (x ∷ rest) =
    let later = x ∷ insert_by_id_desc v rest in if leb x.id v.id then v ∷ x ∷ rest else later

unfoldable pub order_by_id_desc : List Vm → List Vm
unfolding insert_by_id_desc
order_by_id_desc [] = []
order_by_id_desc (v ∷ rest) = insert_by_id_desc v (order_by_id_desc rest)

unfoldable pub list_by_user : ℕ → M (List Vm)
unfolding order_by_id_desc
list_by_user user_id =
    statement λ t. ok (order_by_id_desc (select_where (visible_to user_id) t.vms), t)

unfoldable pub count_by_user : ℕ → M Usage
unfolding usage
count_by_user user_id = statement λ t. ok (usage (select_where (counts_for user_id) t.vms), t)

abbrev pub live_named : ℕ → String → Vm → Bool
live_named cluster_id name v =
    v.cluster_id == cluster_id && str_eq v.name name && is_live v.status && not (in_trash v)

unfoldable pub mark_gone_by_name : ℕ → String → ℕ → M (Unit {0})
mark_gone_by_name cluster_id name now = do
  wrap "mark gone by name" (update (live_named cluster_id name) (with_status VmStatus.gone now))
  pure tt

unfoldable pub update_node_by_name : ℕ → String → String → ℕ → M (Unit {0})
update_node_by_name cluster_id name node now = do
  wrap "update node by name"
      (update (λ v. v.cluster_id == cluster_id && str_eq v.name name) (with_node node now))
  pure tt

abbrev pub trashable : ℕ → Vm → Bool
trashable id v = v.id == id && not (in_trash v) && is_present v.status

abbrev pub trashed : ℕ → Vm → Vm
trashed now v = record v {
  trashed_at = some now;
  trashed_prev_status = some v.status;
  updated_at = now;
}

unfoldable pub mark_trashed : ℕ → ℕ → M Bool
mark_trashed id now = do
  n ← wrap "mark trashed" (update (trashable id) (trashed now))
  pure (n == 1)

abbrev pub restorable : ℕ → Vm → Bool
restorable id v = v.id == id && in_trash v

abbrev pub restored : ℕ → Vm → Vm
restored now v = record v { trashed_at = none; trashed_prev_status = none; updated_at = now }

unfoldable pub unmark_trashed : ℕ → ℕ → M Bool
unmark_trashed id now = do
  n ← wrap "unmark trashed" (update (restorable id) (restored now))
  pure (n == 1)

abbrev pub rescuable : ℕ → Vm → Bool
rescuable id v = v.id == id && is_normal v.rescue_state

abbrev pub rescued : String → ℕ → Vm → Vm
rescued snapshot now v = record v {
  rescue_state = RescueState.rescue;
  rescue_started_at = some now;
  rescue_snapshot_name = some snapshot;
  updated_at = now;
}

unfoldable pub set_rescue_state : ℕ → String → ℕ → M Bool
set_rescue_state id snapshot now = do
  n ← wrap "set rescue state" (update (rescuable id) (rescued snapshot now))
  pure (n == 1)

abbrev pub in_rescue : ℕ → Vm → Bool
in_rescue id v = v.id == id && not (is_normal v.rescue_state)

abbrev pub unrescued : ℕ → Vm → Vm
unrescued now v = record v {
  rescue_state = RescueState.normal;
  rescue_started_at = none;
  rescue_snapshot_name = none;
  updated_at = now;
}

unfoldable pub clear_rescue_state : ℕ → ℕ → M Bool
clear_rescue_state id now = do
  n ← wrap "clear rescue state" (update (in_rescue id) (unrescued now))
  pure (n == 1)
