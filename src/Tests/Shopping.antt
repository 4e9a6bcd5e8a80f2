-- ===== src/Tests/Shopping.antt =====
-- A payment in the portal: its order is accepted, and a worker takes the job.
use incus.Base.{◌≡◌, ◌⊎◌, refl, true, false, some, [], ◌∷◌}
use incus.Base.Table.{find}
use incus.Orders
use incus.Vms
use incus.Jobs
use incus.Clusters
use incus.Orders.{pay_with_balance}
use incus.Payment.{
  pay_owned, charge, after_payment, provision_product, answer_queued, choose_client, create_job_for,
  enqueue, insert_vm, provision, queue_job, with_address,
}
use incus.Catalog.{get_product, get_keys_by_user}
use incus.Checkout.{
  check_quota, get_quota, over_limit, allocate_from, allocate_from_pool, allocate_ip, extract_cidr,
}
use incus.Base.Table.{first_where, select_where, update_where, count_where}
use incus.Vms.{list_by_user, usage, insert_by_id_desc, order_by_id_desc}
use incus.Store.{transaction}
use incus.Base.Int.{◌+ℤ◌, ◌-ℤ◌}
use incus.Clusters.{config_by_name}
use incus.Ips.{allocate_next, attach_vm, get_pool_id}
use incus.Provision.World.{set_params}
use incus.Provision.VmCreate.Compensation.{IsQuiet}
use incus.Models.{User, Order, OrderStatus, Vm, ProvisioningJob}
use incus.Ips.Seed.{malformed}
use incus.Clusters.{Manager, ClusterConfig}
use incus.Provision.World.{World, goes, world_of}
use incus.Provision.Runtime.{run_one}
use incus.Payment.{Portal, PayRequest, accepted, pay}
use incus.Payment.Bought.{IsBought, IsMoneyBack, accepted-settles}
use incus.Tests.{order, vm, create_job, open_shop}
use incus.Tests.Provisioning.{queue, deps_with, silent, other_executors}

abbrev main_config : ClusterConfig
main_config = record {
  name = "main";
  default_project = "";
  storage_pool = "";
  network = "";
  ip_pools =
      record { cidr = "10.0.0.0/24"; gateway = "10.0.0.254"; range = malformed; vlan = 0 } ∷ [];
}

abbrev pub portal : Portal
portal = record {
  manager = record {
    clients = "main" ∷ [];
    configs = main_config ∷ [];
    id_by_name = λ name. 1;
    name_by_id = λ id. "main";
  };
  generated_name = "vm-abcdef";
  seed_fuel = 10;
  production = false;
  queue_takes = true;
}

abbrev request : PayRequest
request = record { vm_name = ""; os_image = "" }

abbrev pending_order : Order
pending_order = order 7 OrderStatus.pending

-- The row and the job that the payment of order 7 makes.
abbrev new_vm : Vm
new_vm = record vm {
  id = 52;
  name = "vm-abcdef";
  order_id = some 7;
  ip = some 167772162;
  created_at = 1020;
  updated_at = 1020;
}

abbrev new_job : ProvisioningJob
new_job = record create_job {
  id = 53;
  order_id = some 7;
  vm_id = some 52;
  target_name = "vm-abcdef";
  created_at = 1022;
}

abbrev paid_world : World
paid_world = world_of (pay portal (deps_with silent) request 7 1 (queue open_shop))

paid_accepted :
    pay portal (deps_with silent) request 7 1 (queue open_shop)
    ≡ goes (accepted new_job new_vm) paid_world
unfolding pay find Orders.get_by_id pay_owned get_product charge check_quota get_quota first_where
    list_by_user over_limit usage select_where pay_with_balance transaction update_where
    after_payment provision_product ◌+ℤ◌ ◌-ℤ◌ count_where get_keys_by_user allocate_from
    allocate_from_pool allocate_ip extract_cidr config_by_name Clusters.get allocate_next attach_vm
    get_pool_id Jobs.create Orders.update_status answer_queued choose_client create_job_for enqueue
    insert_vm provision queue_job with_address set_params Vms.create insert_by_id_desc
    order_by_id_desc
paid_accepted = refl

paid_world-IsQuiet : IsQuiet paid_world.conn
unfolding pay find Orders.get_by_id pay_owned get_product charge check_quota get_quota first_where
    list_by_user over_limit usage select_where pay_with_balance transaction update_where
    after_payment provision_product ◌+ℤ◌ ◌-ℤ◌ count_where get_keys_by_user allocate_from
    allocate_from_pool allocate_ip extract_cidr config_by_name Clusters.get allocate_next attach_vm
    get_pool_id Jobs.create Orders.update_status answer_queued choose_client create_job_for enqueue
    insert_vm provision queue_job with_address set_params Vms.create insert_by_id_desc
    order_by_id_desc
paid_world-IsQuiet n later = refl

accepted-settles_example :
    (payer : User) × (find User.id 1 (queue open_shop).conn.tables.users ≡ some payer)
    × (IsBought pending_order payer
          (world_of (run_one (deps_with silent) other_executors 53 paid_world)).conn.tables
        ⊎ IsMoneyBack pending_order payer
            (world_of (run_one (deps_with silent) other_executors 53 paid_world)).conn.tables)
unfolding find
accepted-settles_example =
    accepted-settles (deps_with silent) other_executors (queue open_shop) paid_world pending_order
      new_job new_vm portal request 1 refl refl paid_accepted paid_world-IsQuiet
