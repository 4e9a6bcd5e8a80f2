-- ===== src/Payment.antt =====
-- The payment of an order in the portal (Pay of incus-admin/internal/handler/portal/order.go,
-- Enqueue of internal/service/jobs/runtime.go), with the runtime of jobs and the quotas that the
-- server's main function gives it. An answer stands for the HTTP status and body.
pub mod Frame
pub mod Charge
pub mod GiveBack
pub mod Accepted
pub mod Steps
pub mod Owner
pub mod Outcome
pub mod Bought
use incus.Base.{
  ℕ, ◌+◌, String, Bool, true, false, Option, none, some, List, [], ◌∷◌, if◌then◌else◌, ◌==◌, ltb,
}
use incus.Models.{
  Order, OrderStatus, Product, Vm, VmStatus, RescueState, JobKind, JobStatus, ProvisioningJob, Text,
  verbatim, message, prefixed,
}
use incus.Store.{Conn, Error, Result, ok, err, remote, M}
use incus.Orders
use incus.Orders.{pay_with_balance}
use incus.Catalog.{get_product, get_keys_by_user}
use incus.Clusters.{Manager, ClusterConfig, config_by_name}
use incus.Clusters
use incus.Ips.{attach_vm}
use incus.Vms
use incus.Jobs
use incus.Checkout.{PoolConfig, QuotaRefusal, check_quota, rollback_payment, allocate_ip, owned_by}
use incus.Provision.World.{
  Params, World, Deps, Ran, goes, stops, R, done, db, best_effort, timed, ◌>>=◌, ◌>>◌, set_params,
  take_params,
}
use incus.Provision.VmCreate.{row_or}
use text.Mathlib.Text.{◌==◌ as str_eq}

-- What the handler is given besides the database: the manager, `GenerateVMName`'s name, the fuel
-- of the seeding of a pool, whether the server is in production, and whether the queue takes the
-- job before the request is given up.
pub record Portal : Type 0 where
  pub manager : Manager
  pub generated_name : String
  pub seed_fuel : ℕ
  pub production : Bool
  pub queue_takes : Bool

pub record PayRequest : Type 0 where
  pub vm_name : String
  pub os_image : String

pub data PayAnswer : Type 0 where
  order_not_found : PayAnswer
  quota_exceeded : QuotaRefusal → PayAnswer
  payment_refused : Error → PayAnswer
  paid_no_product paid_no_cluster : PayAnswer
  refunded : String → PayAnswer
  accepted : ProvisioningJob → Vm → PayAnswer

-- Enqueue
unfoldable pub enqueue : Bool → ℕ → Params → R (Result (Unit {0}))
enqueue takes job_id params = do
  set_params job_id params
  elim takes as (λ _. R (Result (Unit {0}))) [
    | true ↦ done (ok tt)
    | false ↦ take_params job_id >> done (err (remote "context canceled"))
  ]

abbrev pub or_default : String → String → String
or_default s d = if str_eq s "" then d else s

-- The order's cluster, or the first one where that is not registered or not connected.
abbrev pub registered : Manager → String → String → String
registered m first name = elim (Clusters.get m name) [ none ↦ first | some c ↦ c ]

unfoldable pub choose_client : Manager → String → ℕ → String
choose_client m first cluster_id =
    if ltb 0 cluster_id
    then if str_eq (m.name_by_id cluster_id) ""
      then first
      else registered m first (m.name_by_id cluster_id)
    else first

abbrev pub no_config : ClusterConfig
no_config = record {
  name = "";
  default_project = "";
  storage_pool = "";
  network = "";
  ip_pools = [];
}

abbrev pub config_or : Option ClusterConfig → ClusterConfig
config_or none = no_config
config_or (some c) = c

module _ (portal : Portal) (deps : Deps) (request : PayRequest) (o : Order) where
  -- rollbackPayment, and the answer that says so.
  unfoldable pub give_back : Option ℕ → Text → String → R PayAnswer
  give_back ip reason answer = do
    best_effort (timed deps (rollback_payment o ip reason))
    done (refunded answer)

  abbrev pub os_image : String
  os_image = or_default request.os_image "images:ubuntu/24.04/cloud"

  abbrev pub vm_name : String
  vm_name = or_default request.vm_name portal.generated_name

  -- The row that is inserted; the columns that the INSERT does not write take their defaults.
  abbrev pub new_vm : Product → String → ℕ → Vm
  new_vm p client ip = record {
    id = 0;
    name = vm_name;
    cluster_id = portal.manager.id_by_name client;
    user_id = o.user_id;
    order_id = some o.id;
    ip = some ip;
    status = VmStatus.creating;
    cpu = p.cpu;
    memory_mb = p.memory_mb;
    disk_gb = p.disk_gb;
    os_image = os_image;
    node = "";
    password = none;
    rescue_state = RescueState.normal;
    rescue_started_at = none;
    rescue_snapshot_name = none;
    trashed_at = none;
    trashed_prev_status = none;
    created_at = 0;
    updated_at = 0;
  }

  abbrev pub new_params : Product → ClusterConfig → List String → ℕ → String → String → Params
  new_params p cc keys ip gateway cidr = record {
    project = or_default cc.default_project "customers";
    cpu = p.cpu;
    memory_mb = p.memory_mb;
    disk_gb = p.disk_gb;
    os_image = os_image;
    ssh_keys = keys;
    ip = some ip;
    gateway = gateway;
    subnet_cidr = cidr;
    storage_pool = or_default cc.storage_pool "ceph-pool";
    network = or_default cc.network "br-pub";
    order_amount = o.amount;
    image_source = "";
    server_url = "";
    protocol = "";
  }

  unfoldable pub answer_queued : ℕ → ProvisioningJob → Vm → Result (Unit {0}) → R PayAnswer
  answer_queued ip job vm (ok _) = done (accepted job vm)
  answer_queued ip job vm (err e) = do
    best_effort (
        timed deps
          (Jobs.finish job.id JobStatus.failed (some (prefixed "enqueue failed: " (message e)))))
    give_back (some ip) (verbatim "enqueue failed") "internal error, payment refunded"

  unfoldable pub queue_job : Params → ℕ → Vm → Result ProvisioningJob → R PayAnswer
  queue_job params ip vm (err e) =
      give_back (some ip) (prefixed "job create failed: " (message e))
        "internal error, payment refunded"
  queue_job params ip vm (ok job) = do
    queued ← enqueue portal.queue_takes job.id params
    answer_queued ip job vm queued

  -- From the VM's row on.
  unfoldable pub create_job_for : Params → String → ℕ → Result Vm → R PayAnswer
  create_job_for params client ip (err e) =
      give_back (some ip) (prefixed "vm row insert failed: " (message e))
        "VM record creation failed, payment refunded"
  create_job_for params client ip (ok vm) = do
    best_effort (attach_vm (some ip) vm.id)
    created ← db (
        timed deps (λ now.
          Jobs.create now JobKind.vm_create o.user_id (portal.manager.id_by_name client) (some o.id)
            (some vm.id) vm_name))
    queue_job params ip vm created

  unfoldable pub insert_vm : Product → Params → String → ℕ → Result (Unit {0}) → R PayAnswer
  insert_vm p params client ip (err e) =
      give_back (some ip) (prefixed "set provisioning failed: " (message e))
        "internal error, payment refunded"
  insert_vm p params client ip (ok _) = do
    row ← db (timed deps (λ now. Vms.create deps.cipher portal.production now (new_vm p client ip)))
    create_job_for params client ip row

  abbrev pub keys_or : Result (List String) → List String
  keys_or (ok keys) = keys
  keys_or (err e) = []

  -- From the address on.
  unfoldable pub with_address :
      Product → ClusterConfig → String → Result (ℕ × String × String) → R PayAnswer
  with_address p cc client (err e) =
      give_back none (prefixed "ip allocation failed: " (message e))
        "IP allocation failed, payment refunded"
  with_address p cc client (ok (ip, gateway, cidr)) = do
    keys ← db (get_keys_by_user o.user_id)
    begun ← db (timed deps (Orders.update_status o.id OrderStatus.provisioning))
    insert_vm p (new_params p cc (keys_or keys) ip gateway cidr) client ip begun

  -- From the choice of the cluster on.
  unfoldable pub provision : Product → List String → R PayAnswer
  provision p [] = done paid_no_cluster
  provision p (first ∷ rest) =
      let client = choose_client portal.manager first o.cluster_id in
      let cc = config_or (config_by_name portal.manager client) in
      (db (allocate_ip portal.seed_fuel cc.ip_pools 0) >>= with_address p cc client)

  unfoldable pub provision_product : Option Product → R PayAnswer
  provision_product none = done paid_no_product
  provision_product (some p) = provision p portal.manager.clients

  -- The payment itself, and what follows it.
  unfoldable pub after_payment : Result (Unit {0}) → R PayAnswer
  after_payment (err e) = done (payment_refused e)
  after_payment (ok _) = do row ← db (get_product o.product_id); provision_product (row_or row)

  unfoldable pub charge : Option QuotaRefusal → R PayAnswer
  charge (some refusal) = done (quota_exceeded refusal)
  charge none = do paid ← db (timed deps (pay_with_balance o.id)); after_payment paid

  abbrev pub quota_refusal : Option Product → R (Option QuotaRefusal)
  quota_refusal none w = goes none w
  quota_refusal (some p) w =
      let (refusal, c) = check_quota o.user_id p w.conn in goes refusal (record w { conn = c })

  -- The quota is checked before any money moves, where the product is there.
  unfoldable pub pay_owned : R PayAnswer
  pay_owned = do
    row ← db (get_product o.product_id)
    refusal ← quota_refusal (row_or row)
    charge refusal

abbrev pub pay_found : Portal → Deps → PayRequest → Option Order → R PayAnswer
pay_found portal deps request none = done order_not_found
pay_found portal deps request (some o) = pay_owned portal deps request o

unfoldable pub pay : Portal → Deps → PayRequest → ℕ → ℕ → R PayAnswer
pay portal deps request order_id user_id = do
  row ← db (Orders.get_by_id order_id)
  pay_found portal deps request (owned_by user_id (row_or row))
