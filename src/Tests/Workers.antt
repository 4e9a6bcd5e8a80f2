-- ===== src/Tests/Workers.antt =====
-- The reconciler on the shop's tables.
use incus.Base.{ℕ, String, Option, some, ◌≡◌, refl, true, false, [], ◌∷◌, map}
use incus.Base.Sort.{All, sort_stable, insert_sorted}
use incus.Base.Table.{find, update_where, select_where, count_where}
use incus.Models.{Vm, VmStatus, IpAddress, IpStatus}
use incus.Store.{Conn, conn_of}
use incus.Clusters.{Manager}
use incus.Purge.{
  list_trashed_before, name_of, begins, has_part, is_already_gone_err, purge_rows, purge_pass,
}
use incus.Purge.Only.{IsPurged, DeletedOnly, purge_pass-DeletedOnly}
use incus.Vms.{list_active_for_reconcile, mark_gone, mark_trashed, reconcilable, delete}
use incus.Ips.{release}
use incus.Reconcile.{
  Snapshot, reconcile_once, reconcile_cluster, drop_vanished, count_over, alive_in,
}
use incus.Reconcile.Rows.{rows, GoneOnly}
use incus.Reconcile.Vanished.{VanishedFrom, reconcile_once-GoneOnly}
use incus.Reconcile.Complete.{reconcile_cluster-settles}
use incus.Tests.{open_shop}

-- The cluster answers and has no instance.
abbrev empty_cluster : Snapshot
empty_cluster = record { id = 1; instance_names = []; unreached = false }

abbrev hour : ℕ → ℕ
hour tick = 3600

abbrev reconciled : Conn
reconciled = conn_of (reconcile_once hour 3600 10 5 (empty_cluster ∷ []) open_shop)

-- Its one VM is marked gone, and the VM's address cools down.
vm_goes : map Vm.status (rows reconciled) ≡ VmStatus.gone ∷ []
unfolding reconcile_once count_over reconcile_cluster drop_vanished list_active_for_reconcile
    mark_gone release update_where select_where count_where
vm_goes = refl

address_cools :
    map IpAddress.status reconciled.tables.ips ≡ IpStatus.cooldown ∷ IpStatus.available ∷ []
unfolding reconcile_once count_over reconcile_cluster drop_vanished list_active_for_reconcile
    mark_gone release update_where select_where count_where
address_cools = refl

reconcile_once-GoneOnly_example :
    GoneOnly (VanishedFrom 3590 (empty_cluster ∷ [])) open_shop reconciled
unfolding find
reconcile_once-GoneOnly_example =
    reconcile_once-GoneOnly hour 3600 10 5 (empty_cluster ∷ []) open_shop (refl, tt)

reconcile_cluster-settles_example :
    All
      (λ v. reconcilable 1 3590 v ≡ true → alive_in empty_cluster v ≡ true)
      (rows (conn_of (reconcile_cluster hour 3590 empty_cluster open_shop)))
reconcile_cluster-settles_example =
    reconcile_cluster-settles hour 3590 empty_cluster open_shop (λ n. refl)

-- The VM is in the trash since 80, and its instance is no longer in the cluster.
abbrev trash_shop : Conn
trash_shop = conn_of (mark_trashed 3 80 open_shop)

abbrev one_cluster : Manager
one_cluster = record {
  clients = "c1" ∷ [];
  configs = [];
  id_by_name = λ name. 1;
  name_by_id = λ id. "c1";
}

abbrev not_found : ℕ → String → String → String → Option String
not_found tick cluster project name = some "incus error: Instance not found"

abbrev refused : ℕ → String → String → String → Option String
refused tick cluster project name = some "incus error: Instance is busy"

abbrev purged : Conn
purged = conn_of (purge_pass not_found one_cluster hour 120 30 trash_shop)

-- The VM whose instance is not found is deleted; that of which the cluster is busy stays; and one
-- is left alone before the window has passed.
vm_purged : map Vm.status (rows purged) ≡ VmStatus.deleted ∷ []
unfolding purge_pass purge_rows list_trashed_before name_of begins has_part is_already_gone_err
    delete mark_trashed update_where select_where count_where sort_stable insert_sorted
vm_purged = refl

busy_stays :
    rows (conn_of (purge_pass refused one_cluster hour 120 30 trash_shop)) ≡ rows trash_shop
unfolding purge_pass purge_rows list_trashed_before name_of begins has_part is_already_gone_err
    delete mark_trashed update_where select_where count_where sort_stable insert_sorted
busy_stays = refl

early_stays :
    rows (conn_of (purge_pass not_found one_cluster hour 100 30 trash_shop)) ≡ rows trash_shop
unfolding purge_pass purge_rows list_trashed_before name_of begins has_part is_already_gone_err
    delete mark_trashed update_where select_where count_where sort_stable insert_sorted
early_stays = refl

purge_pass-DeletedOnly_example :
    DeletedOnly (IsPurged not_found one_cluster hour 90) trash_shop purged
unfolding find mark_trashed update_where
purge_pass-DeletedOnly_example =
    purge_pass-DeletedOnly not_found one_cluster hour 120 30 trash_shop (refl, tt)
