-- ===== src/Provision/Runtime/Sweep.antt =====
-- The sweep of a stale job.
use incus.Base.{ℕ, ◌≡◌, refl, sym, ap, subst, ◌∙◌, some, arith}
use incus.Models.{ProvisioningJob, JobKind, JobStatus, Text, verbatim}
use incus.Store.{Conn, Error, Result, ok, Outcome, returns, raises}
use incus.Jobs.{finish}
use incus.Provision.World.{World, Deps, Ran, ◌>>=◌, db, world_of, Executor}
use incus.Provision.VmCreate.{rollback}
use incus.Provision.VmCreate.Compensation.{Follows, FaultIn}
use incus.Provision.VmCreate.Rollback.{IsCompensated, rollback-compensates}
use incus.Provision.Runtime.{
  Others, dispatch, recover_job, recover_marked, roll_back_dispatched, stale_note,
}
use incus.Provision.Runtime.Pass.{finish_change}

abbrev pub stale_reason : Text
stale_reason = verbatim "stale recovery"

-- The job is left as it is since the statement failed, or it is marked partial and compensated.
pub data Swept (clock : ℕ → ℕ) (job : ProvisioningJob) (w v : World) : Type 0 where
  left : v.conn.tables ≡ w.conn.tables → FaultIn w.conn v.conn → Swept clock job w v
  undone :
      (now : ℕ) (w1 : World)
      → w1.conn.tables
        ≡ finish_change job.id JobStatus.partial (some stale_note) now 0 w.conn.tables
      → w1.params ≡ w.params
      → Follows w.conn w1.conn
      → IsCompensated clock job stale_reason w1 v
      → Swept clock job w v

module _ (deps : Deps) (others : Others) (job : ProvisioningJob)
    (kind : job.kind ≡ JobKind.vm_create) where
  finish-returns :
      (now : ℕ) (c d : Conn)
      → finish job.id JobStatus.partial (some stale_note) now c ≡ returns tt d
      → (d.tables ≡ finish_change job.id JobStatus.partial (some stale_note) now 0 c.tables)
        × Follows c d
  unfolding finish
  finish-returns now c d h = (ground arith, record { same = ground arith; ticks = ground arith })

  finish-raises :
      (now : ℕ) (c d : Conn) (e : Error)
      → finish job.id JobStatus.partial (some stale_note) now c ≡ raises e d
      → (d.tables ≡ c.tables) × FaultIn c d
  unfolding finish
  finish-raises now c d e h =
      (ground arith, (c.tick, omega arith, ground (arith, h), ground (arith, h)))

  Swept-of :
      (w : World) (o : Outcome (Unit {0}))
      → finish job.id JobStatus.partial (some stale_note) (deps.clock w.conn.tick) w.conn ≡ o
      → Swept deps.clock job w (world_of ((db (λ _. o) >>= recover_marked deps others job) w))
  unfolding recover_marked dispatch roll_back_dispatched
  Swept-of w (raises e d) h =
      let (same, broken) = finish-raises (deps.clock w.conn.tick) w.conn d e h in left same broken
  Swept-of w (returns _ d) h =
      let now = deps.clock w.conn.tick in
      let w1 : World = record w { conn = d } in
      let (v, e, c) = rollback-compensates deps job stale_reason w1 in
      subst (Swept deps.clock job w) (sym (ap (λ (r : Ran Unit). world_of r) (dispatched w1 ∙ e)))
        (undone now w1 (finish-returns now w.conn d h).0 refl (finish-returns now w.conn d h).1 c)
    where
      dispatched :
          (w1 : World)
          → recover_marked deps others job (ok tt) w1 ≡ rollback deps job stale_reason w1
      dispatched w1 =
          ap (λ (x : Result Executor). roll_back_dispatched deps others job x w1)
            (ap (dispatch deps others) kind)

  -- Whatever fails, the sweep leaves a stale vm.create job as it is, which takes that its own
  -- statement failed, or it marks the job partial and then compensates it: address, refund, order
  -- and VM, in this order, each left out only where one of its own statements failed, where there
  -- is nothing to do, or where the statement that looks up its address or amount failed.
  pub recover_job-Swept :
      (w : World) → Swept deps.clock job w (world_of (recover_job deps others job w))
  unfolding recover_job
  recover_job-Swept w = Swept-of w _ refl
