-- ===== src/Payment/Accepted.antt =====
-- From the status `provisioning` of a paid order to the queued job.
use incus.Provision.VmCreate.Run.{FaultBefore}
use incus.Provision.VmCreate.Compensation.{Follows, Follows-trans}
use incus.Models.{Product}
use incus.Base.{◌⊎◌, [], none}
use incus.Base.{ℕ, String, ◌≡◌, refl, subst, sym, Bool, true, false, Option, none, some, arith}
use incus.Base.Int.{zero_ℤ, ◌≤ℤ◌}
use incus.Base.Table.{find}
use incus.Models.{
  Order, OrderStatus, Vm, VmStatus, ProvisioningJob, JobKind, JobStatus, Text, verbatim, message,
  prefixed,
}
use incus.Store.{Tables, Conn, Error, Result, ok, err, M, Outcome, returns, raises, conn_of}
use incus.Jobs
use incus.Ips.{attach_vm}
use incus.Provision.World.{
  Params, World, Deps, Ran, goes, stops, R, db, best_effort, timed, ◌>>=◌, set_params, take_params,
}
use incus.Payment.{
  Portal, PayRequest, PayAnswer, give_back, refunded, accepted, order_not_found, quota_exceeded,
  payment_refused, paid_no_product, paid_no_cluster, enqueue, answer_queued, queue_job,
}
use incus.Payment.Frame.{KeepsMoney, KeepsMoney-refl}
use incus.Payment.Charge.{IsCharged, IsCharged-kept, Restored}
use incus.Payment.GiveBack.{give_back-Restored}

-- The rows of a queued job for the order's VM, and of the VM that is to be created.
pub record AreQueued (o : Order) (job : ProvisioningJob) (vm : Vm) (t : Tables) : Type 0 where
  pub job_row : find ProvisioningJob.id job.id t.jobs ≡ some job
  pub job_kind : job.kind ≡ JobKind.vm_create
  pub job_status : job.status ≡ JobStatus.queued
  pub job_fresh : job.refund_done_at ≡ none
  pub job_user : job.user_id ≡ o.user_id
  pub job_order : job.order_id ≡ some o.id
  pub job_vm : job.vm_id ≡ some vm.id
  pub vm_row : find Vm.id vm.id t.vms ≡ some vm
  pub vm_status : vm.status ≡ VmStatus.creating

-- The job is queued with its parameters for the VM's row, and the order is being provisioned.
pub record IsAccepted (t : Tables) (o : Order) (job : ProvisioningJob) (vm : Vm) (v : World)
    : Type 0 where
  pub charged : IsCharged t o OrderStatus.provisioning v.conn
  pub rows : AreQueued o job vm v.conn.tables
  pub params :
      (p : Params) × (v.params job.id ≡ some p) × (p.order_amount ≡ o.amount) × (p.ip ≡ vm.ip)

-- The order's product has no row, or the last statement, which reads it, failed.
abbrev pub NoProduct : Order → World → World → Type 0
NoProduct o w v = (find Product.id o.product_id w.conn.tables.products ≡ none) ⊎ FaultBefore 0 w v

-- What an answer to the owner of the order `o` means, since the state `w`.
abbrev pub PayResult : Portal → World → Order → PayAnswer → World → Type 0
PayResult portal w o order_not_found v = ⊥
PayResult portal w o (quota_exceeded r) v = v.conn.tables ≡ w.conn.tables
PayResult portal w o (payment_refused e) v = v.conn.tables ≡ w.conn.tables
PayResult portal w o paid_no_product v =
    IsCharged w.conn.tables o OrderStatus.paid v.conn × NoProduct o w v
PayResult portal w o paid_no_cluster v =
    IsCharged w.conn.tables o OrderStatus.paid v.conn × (portal.manager.clients ≡ [])
PayResult portal w o (refunded s) v = (o.status ≡ OrderStatus.pending) × Restored w.conn o v.conn
PayResult portal w o (accepted job vm) v = IsAccepted w.conn.tables o job vm v

-- A part that answers, with what the answer means.
abbrev pub Ends : {A : Type 0} → (A → World → Type 0) → Ran A → Type 0
Ends P (goes a v) = P a v
Ends P (stops e v) = ⊥

module _ {A B : Type 0} (P : B → World → Type 0) where
  pub Ends-db :
      (m : M A) (f : Result A → R B) (v : World)
      → ((a : A) (d : Conn) → m v.conn ≡ returns a d → Ends P (f (ok a) (record v { conn = d })))
      → ((e : Error) (d : Conn)
          → m v.conn ≡ raises e d
          → Ends P (f (err e) (record v { conn = d })))
      → Ends P ((db m >>= f) v)
  Ends-db m f v good bad = by_outcome (m v.conn) refl
    where
      by_outcome : (r : Outcome A) → m v.conn ≡ r → Ends P ((db (λ _. r) >>= f) v)
      by_outcome (returns a d) h = good a d h
      by_outcome (raises e d) h = bad e d h

  pub Ends-best_effort :
      (m : M A) (f : Unit {0} → R B) (v : World)
      → Ends P (f tt (record v { conn = conn_of (m v.conn) }))
      → Ends P ((best_effort m >>= f) v)
  Ends-best_effort m f v h = by_outcome (m v.conn) h
    where
      by_outcome :
          (r : Outcome A)
          → Ends P (f tt (record v { conn = conn_of r }))
          → Ends P ((best_effort (λ _. r) >>= f) v)
      by_outcome (returns a d) k = k
      by_outcome (raises e d) k = k

module _ (portal : Portal) (deps : Deps) (request : PayRequest) (o : Order) (w : World)
    (priced : zero_ℤ ≤ℤ o.amount) where
  -- A charge that is given back.
  pub give_back-Ends :
      (s : OrderStatus) (ip : Option ℕ) (reason : Text) (answer : String) (v : World)
      → IsCharged w.conn.tables o s v.conn
      → Follows w.conn v.conn
      → Ends (PayResult portal w o) (give_back portal deps request o ip reason answer v)
  give_back-Ends s ip reason answer v charged follows =
      let (u, e, restored) =
        give_back-Restored portal deps request o w.conn s ip reason answer v charged priced
          follows in
      subst (Ends (PayResult portal w o)) (sym e) (charged.pending, restored)

  finish_keeps :
      (id : ℕ) (s : JobStatus) (e : Option Text) (now : ℕ) (c : Conn)
      → let d = conn_of (Jobs.finish id s e now c) in
        (d.tables.users ≡ c.tables.users) × (d.tables.orders ≡ c.tables.orders) × Follows c d
  unfolding Jobs.finish
  finish_keeps id s e now c =
      (ground arith, ground arith, record { same = ground arith; ticks = ground arith })

  answer_queued-Ends :
      (ip : ℕ) (job : ProvisioningJob) (vm : Vm) (r : Result (Unit {0})) (v : World)
      → IsCharged w.conn.tables o OrderStatus.provisioning v.conn
      → Follows w.conn v.conn
      → (r ≡ ok tt → IsAccepted w.conn.tables o job vm v)
      → Ends (PayResult portal w o) (answer_queued portal deps request o ip job vm r v)
  unfolding answer_queued
  answer_queued-Ends ip job vm (ok tt) v charged follows h = h refl
  answer_queued-Ends ip job vm (err e) v charged follows h =
      let c = v.conn in
      let note = some (prefixed "enqueue failed: " (message e)) in
      let (users, orders, same) = finish_keeps job.id JobStatus.failed note (deps.clock c.tick) c in
      let d = conn_of (Jobs.finish job.id JobStatus.failed note (deps.clock c.tick) c) in
      Ends-best_effort (PayResult portal w o)
        (timed deps (Jobs.finish job.id JobStatus.failed note)) _ v
        (give_back-Ends OrderStatus.provisioning (some ip) (verbatim "enqueue failed") _
          (record v { conn = d })
          (IsCharged-kept w.conn.tables o OrderStatus.provisioning c d charged users orders)
          (Follows-trans w.conn c d follows same))

  pub enqueue-Ends :
      (takes : Bool) (p : Params) (ip : ℕ) (job : ProvisioningJob) (vm : Vm) (v : World)
      → IsCharged w.conn.tables o OrderStatus.provisioning v.conn
      → Follows w.conn v.conn
      → AreQueued o job vm v.conn.tables
      → p.order_amount ≡ o.amount
      → p.ip ≡ vm.ip
      → Ends
          (PayResult portal w o)
          ((enqueue takes job.id p >>= answer_queued portal deps request o ip job vm) v)
  unfolding enqueue set_params take_params
  enqueue-Ends true p ip job vm v charged follows rows amount address =
      answer_queued-Ends ip job vm (ok tt) _ charged follows (λ _. record {
        charged = charged;
        rows = rows;
        params = (p, ground arith, amount, address);
      })
  enqueue-Ends false p ip job vm v charged follows rows amount address =
      answer_queued-Ends ip job vm (err _) _ charged follows (λ e. cc)

  pub queue_job-Ends :
      (p : Params) (ip : ℕ) (vm : Vm) (r : Result ProvisioningJob) (v : World)
      → IsCharged w.conn.tables o OrderStatus.provisioning v.conn
      → Follows w.conn v.conn
      → ((job : ProvisioningJob) → r ≡ ok job → AreQueued o job vm v.conn.tables)
      → p.order_amount ≡ o.amount
      → p.ip ≡ vm.ip
      → Ends (PayResult portal w o) (queue_job portal deps request o p ip vm r v)
  unfolding queue_job
  queue_job-Ends p ip vm (err e) v charged follows rows amount address =
      give_back-Ends OrderStatus.provisioning (some ip) _ _ v charged follows
  queue_job-Ends p ip vm (ok job) v charged follows rows amount address =
      enqueue-Ends portal.queue_takes p ip job vm v charged follows (rows job refl) amount address

  -- What the attachment of the address and the row of the job leave alone.
  pub attach_keeps :
      (ip : Option ℕ) (vm_id : ℕ) (c : Conn)
      → KeepsMoney c (conn_of (attach_vm ip vm_id c))
        × ((conn_of (attach_vm ip vm_id c)).tables.vms ≡ c.tables.vms)
  unfolding attach_vm
  attach_keeps none vm_id c = (KeepsMoney-refl c, refl)
  attach_keeps (some ip) vm_id c = (
    record {
      users = ground arith;
      orders = ground arith;
      follows = record { same = ground arith; ticks = ground arith };
    },
    ground arith,
  )

  pub job_create_keeps :
      (now cluster_id vm_id : ℕ) (name : String) (c : Conn)
      → KeepsMoney c (
          conn_of (
            Jobs.create now JobKind.vm_create o.user_id cluster_id (some o.id) (some vm_id) name c))
  unfolding Jobs.create
  job_create_keeps now cluster_id vm_id name c = record {
    users = ground arith;
    orders = ground arith;
    follows = record { same = ground arith; ticks = ground arith };
  }

  pub AreQueued-of :
      (now cluster_id : ℕ) (vm : Vm) (name : String) (c d : Conn) (job : ProvisioningJob)
      → Jobs.create now JobKind.vm_create o.user_id cluster_id (some o.id) (some vm.id) name c
        ≡ returns job d
      → find Vm.id vm.id c.tables.vms ≡ some vm
      → vm.status ≡ VmStatus.creating
      → AreQueued o job vm d.tables
  unfolding Jobs.create find
  AreQueued-of now cluster_id vm name c d job h row creating = record {
    job_row = ground arith;
    job_kind = ground arith;
    job_status = ground arith;
    job_fresh = ground arith;
    job_user = ground arith;
    job_order = ground arith;
    job_vm = ground arith;
    vm_row = ground arith;
    vm_status = creating;
  }
