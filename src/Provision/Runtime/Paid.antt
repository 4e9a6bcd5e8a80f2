-- ===== src/Provision/Runtime/Paid.antt =====
-- The promise to a user who has paid for a VM.
use incus.Base.{◌≡◌, ◌⊎◌, inl, inr, true, none, some, arith}
use incus.Base.Int.{zero_ℤ, ltb_ℤ}
use incus.Base.Table.{find}
use incus.Models.{User, Order, ProvisioningJob, JobKind, JobStatus}
use incus.Store.{Conn}
use incus.Provision.World.{World, Deps, Params, world_of}
use incus.Provision.Runtime.{Others, run_one}
use incus.Provision.VmCreate.Compensation.{IsQuiet, quiet-FaultIn}
use incus.Provision.Runtime.Pass.{Pass, idle, ran, provisioned, compensated, run_one_passes}
use incus.Provision.Runtime.JobRow.{startable_pos}
use incus.Provision.Runtime.Settles.{IsDelivered, IsRefunded, IsDelivered-of, IsRefunded-of}

module _ (deps : Deps) (others : Others) (job : ProvisioningJob) (u : User) (o : Order) (p : Params)
    (w : World) where
  settled :
      (d : Conn)
      → job.status ≡ JobStatus.queued
      → job.refund_done_at ≡ none
      → job.order_id ≡ some o.id
      → find ProvisioningJob.id job.id w.conn.tables.jobs ≡ some job
      → find User.id job.user_id w.conn.tables.users ≡ some u
      → find Order.id o.id w.conn.tables.orders ≡ some o
      → w.params job.id ≡ some p
      → ltb_ℤ zero_ℤ p.order_amount ≡ true
      → IsQuiet w.conn
      → Pass deps job w d
      → IsDelivered job u o d.tables ⊎ IsRefunded job p.order_amount u o d.tables
  settled d queued fresh ordered found payer placed given positive quiet (idle same (inl fault)) =
      absurd (quiet-FaultIn w.conn d quiet fault)
  settled d queued fresh ordered found payer placed given positive quiet
        (idle same (inr none_left)) =
      absurd (omega (arith, startable_pos job queued fresh w.conn.tables.jobs found, none_left))
  settled d queued fresh ordered found payer placed given positive quiet
        (ran n w1 begun follows params (provisioned w2 _ h end)) =
      inl (
        IsDelivered-of job queued fresh deps u o p w w1 n ordered found payer placed given positive
          quiet begun follows params w2 d h end)
  settled d queued fresh ordered found payer placed given positive quiet
        (ran n w1 begun follows params (compensated e w2 w3 _ steps h end)) =
      inr (
        IsRefunded-of job queued fresh deps u o p w w1 n ordered found payer placed given positive
          quiet begun follows params e w2 w3 d steps h end)

  -- A queued vm.create job for an order that cost something, not marked as refunded, whose row,
  -- payer and order exist, with its parameters in memory and a database that answers, is delivered
  -- or refunded by one pass of a worker, whatever the cluster answers: either the order is active,
  -- its payer's balance is as before and the job has succeeded, or the order is cancelled, the
  -- payer has the amount back and the job has failed and is marked as refunded.
  pub run_one-settles :
      job.kind ≡ JobKind.vm_create
      → job.status ≡ JobStatus.queued
      → job.refund_done_at ≡ none
      → job.order_id ≡ some o.id
      → find ProvisioningJob.id job.id w.conn.tables.jobs ≡ some job
      → find User.id job.user_id w.conn.tables.users ≡ some u
      → find Order.id o.id w.conn.tables.orders ≡ some o
      → w.params job.id ≡ some p
      → ltb_ℤ zero_ℤ p.order_amount ≡ true
      → IsQuiet w.conn
      → IsDelivered job u o (world_of (run_one deps others job.id w)).conn.tables
        ⊎ IsRefunded job p.order_amount u o (world_of (run_one deps others job.id w)).conn.tables
  run_one-settles kind queued fresh ordered found payer placed given positive quiet =
      settled _ queued fresh ordered found payer placed given positive quiet
        (run_one_passes deps others job kind w found)
