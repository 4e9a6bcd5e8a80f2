-- ===== src/Tests/Floating.antt =====
-- Floating IPs on the shop's tables.
use incus.Base.{ℕ, ◌≡◌, refl, true, some, none, String, List, [], ◌∷◌, map}
use incus.Base.Table.{find, first_where, update_where, select_where, count_where}
use incus.Models.{FloatingIp, FloatingIpStatus}
use incus.Store.{Conn, healthy, ok, err, remote}
use incus.Vms
use incus.Clusters.{get, config_by_name}
use incus.FloatingIps.{
  NicApi, get_fip, attach, detach, release_floating_ip, pick_nic_device, update_vm_filtering,
}
use incus.FloatingIps.Handlers.{
  attach_verified, detach_verified, find_cluster_name, admin_attach, portal_lookup, portal_attach,
  portal_detach, release_fip,
}
use incus.FloatingIps.Bindings.{AreConsistent}
use incus.FloatingIps.Calls.{
  FipCall, attaches, owner_attaches, owner_detaches, releases, after_calls,
  after_calls-AreConsistent,
}
use incus.FloatingIps.Attaching.{Answers, attach_verified-Answers}
use incus.Tests.{vm, shop}
use incus.Tests.Shopping.{portal}

-- Every cluster has the instance, and takes the change.
abbrev kind_nic : NicApi
kind_nic = record {
  get_instance = λ tick project name. ok (record { name = "eth0"; is_nic = true } ∷ []);
  patch = λ tick project name nic on. ok tt;
}

-- Every cluster refuses.
abbrev rude_nic : NicApi
rude_nic = record {
  get_instance = λ tick project name. err (remote "gone");
  patch = λ tick project name nic on. ok tt;
}

abbrev text_of : ℕ → String
text_of ip = "203.0.113.7"

abbrev noon : ℕ → ℕ
noon tick = 720

abbrev free_fip : FloatingIp
free_fip = record {
  id = 4;
  cluster_id = 1;
  ip = 3405803783;
  bound_vm_id = none;
  status = FloatingIpStatus.available;
  description = "";
  allocated_at = 5;
  attached_at = none;
  detached_at = none;
}

abbrev fip_shop : Conn
fip_shop = healthy (record shop { floating_ips = free_fip ∷ [] }) 0 60

-- Ann's address goes to her VM, to no other, and back; then it is released.
abbrev calls : List FipCall
calls =
    owner_attaches 1 3 4
    ∷ attaches 4 3
    ∷ owner_detaches 2 3 4
    ∷ owner_detaches 1 3 4
    ∷ releases 4
    ∷ []

bound_ids :
    map FloatingIp.bound_vm_id
      (after_calls
        (λ name. kind_nic)
        portal.manager
        text_of
        noon
        (owner_attaches 1 3 4 ∷ attaches 4 3 ∷ owner_detaches 2 3 4 ∷ [])
        fip_shop).tables.floating_ips
    ≡ some 3 ∷ []
unfolding get_fip attach detach release_floating_ip attach_verified detach_verified
    find_cluster_name admin_attach portal_lookup portal_attach portal_detach release_fip
    update_vm_filtering pick_nic_device Vms.get_by_id find first_where update_where select_where
    count_where get config_by_name
bound_ids = refl

all_released :
    (after_calls (λ name. kind_nic) portal.manager text_of noon calls fip_shop).tables.floating_ips
    ≡ []
unfolding get_fip attach detach release_floating_ip attach_verified detach_verified
    find_cluster_name admin_attach portal_lookup portal_attach portal_detach release_fip
    update_vm_filtering pick_nic_device Vms.get_by_id find first_where update_where select_where
    count_where get config_by_name
all_released = refl

after_calls-AreConsistent_example :
    AreConsistent (after_calls (λ name. kind_nic) portal.manager text_of noon calls fip_shop)
after_calls-AreConsistent_example =
    after_calls-AreConsistent (λ name. kind_nic) portal.manager text_of noon calls fip_shop
      (refl, tt)

attach_verified-Answers_example :
    Answers 4 3 fip_shop
      (attach_verified (λ name. rude_nic) portal.manager text_of noon 4 vm fip_shop)
unfolding find
attach_verified-Answers_example =
    attach_verified-Answers (λ name. rude_nic) portal.manager text_of noon 4 vm fip_shop (refl, tt)
