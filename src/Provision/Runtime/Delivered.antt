-- ===== src/Provision/Runtime/Delivered.antt =====
-- A paid order of a VM where the cluster does its part.
use incus.Base.{◌≡◌, inl, inr, ap, ◌∙◌, true, none, some, arith, ℕ, Option, String}
use incus.Base.Int.{zero_ℤ, ltb_ℤ}
use incus.Base.Table.{find}
use incus.Models.{User, Order, ProvisioningJob, JobKind, JobStatus}
use incus.Store.{Conn, Error}
use incus.Provision.World.{World, Deps, Params, Cluster, Ran, goes, stops, world_of}
use incus.Provision.Serving.{Serves}
use incus.Provision.VmCreate.{run}
use incus.Provision.VmCreate.Completes.{run-completes}
use incus.Provision.Runtime.{Others, run_one}
use incus.Provision.VmCreate.Compensation.{IsQuiet, IsQuiet-later, quiet-FaultIn}
use incus.Provision.Runtime.Pass.{Pass, idle, ran, provisioned, compensated, run_one_passes}
use incus.Provision.Runtime.JobRow.{startable_pos}
use incus.Provision.Runtime.Settles.{IsDelivered, IsDelivered-of}

goes_or_stops :
    {A : Type 0} (r : Ran A) (a : A) (e : Error) (v u : World) → r ≡ goes a v → r ≡ stops e u → ⊥
goes_or_stops r a e v u h k = ground arith

module _ (deps : Deps) (others : Others) (cluster : Cluster) (job : ProvisioningJob) (u : User)
    (o : Order) (p : Params) (sealed : String) (w : World) where
  delivered :
      (d : Conn)
      → job.status ≡ JobStatus.queued
      → job.refund_done_at ≡ none
      → job.order_id ≡ some o.id
      → find ProvisioningJob.id job.id w.conn.tables.jobs ≡ some job
      → find User.id job.user_id w.conn.tables.users ≡ some u
      → find Order.id o.id w.conn.tables.orders ≡ some o
      → w.params job.id ≡ some p
      → ltb_ℤ zero_ℤ p.order_amount ≡ true
      → IsQuiet w.conn
      → deps.clusters job.cluster_id ≡ some cluster
      → Serves cluster
      → deps.cipher.encrypt deps.new_password ≡ some sealed
      → Pass deps job w d
      → IsDelivered job u o d.tables
  delivered d queued fresh ordered found payer placed given positive quiet registered serves seals
        (idle same (inl fault)) =
      absurd (quiet-FaultIn w.conn d quiet fault)
  delivered d queued fresh ordered found payer placed given positive quiet registered serves seals
        (idle same (inr none_left)) =
      absurd (omega (arith, startable_pos job queued fresh w.conn.tables.jobs found, none_left))
  delivered d queued fresh ordered found payer placed given positive quiet registered serves seals
        (ran n w1 begun follows params (provisioned w2 _ h end)) =
      IsDelivered-of job queued fresh deps u o p w w1 n ordered found payer placed given positive
        quiet begun follows params w2 d h end
  delivered d queued fresh ordered found payer placed given positive quiet registered serves seals
        (ran n w1 begun follows params (compensated e w2 w3 failed steps h end)) =
      let (v, e1, _, _) =
        run-completes deps cluster job p sealed w1
          (ap (λ (f : ℕ → Option Params). f job.id) params ∙ given) registered serves seals
          (IsQuiet-later w.conn w1.conn follows quiet) in
      absurd (goes_or_stops (run deps job w1) tt e v w2 e1 failed)

  -- A queued vm.create job for an order that cost something, not marked as refunded, whose row,
  -- payer and order exist, with its parameters in memory, is delivered by one pass of a worker
  -- where no statement fails, its cluster answers every request with metadata that parses and, where
  -- the reply is asynchronous, names its operation, and the password can be sealed: the order is active, its payer's balance
  -- is as before, and the job has succeeded and is not marked as refunded.
  pub run_one-delivers :
      job.kind ≡ JobKind.vm_create
      → job.status ≡ JobStatus.queued
      → job.refund_done_at ≡ none
      → job.order_id ≡ some o.id
      → find ProvisioningJob.id job.id w.conn.tables.jobs ≡ some job
      → find User.id job.user_id w.conn.tables.users ≡ some u
      → find Order.id o.id w.conn.tables.orders ≡ some o
      → w.params job.id ≡ some p
      → ltb_ℤ zero_ℤ p.order_amount ≡ true
      → IsQuiet w.conn
      → deps.clusters job.cluster_id ≡ some cluster
      → Serves cluster
      → deps.cipher.encrypt deps.new_password ≡ some sealed
      → IsDelivered job u o (world_of (run_one deps others job.id w)).conn.tables
  run_one-delivers kind queued fresh ordered found payer placed given positive quiet registered
        serves seals =
      delivered _ queued fresh ordered found payer placed given positive quiet registered serves
        seals (run_one_passes deps others job kind w found)
