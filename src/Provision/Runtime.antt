-- ===== src/Provision/Runtime.antt =====
-- The worker's pass over one job and the sweep of stale jobs
-- (incus-admin/internal/service/jobs/runtime.go). The executors of the node jobs and of batch
-- migrations are parameters.
pub mod Pass
pub mod Sweep
pub mod Undone
pub mod JobRow
pub mod Settles
pub mod Paid
pub mod Delivered
use incus.Base.{ℕ, ◌-◌, Option, none, some, List, [], ◌∷◌}
use incus.Models.{ProvisioningJob, JobKind, JobStatus, VmStatus, Text, verbatim, message}
use incus.Store.{Error, Result, ok, err, unknown_kind}
use incus.Vms
use incus.Jobs.{get_by_id, mark_running, finish, find_stale_running}
use incus.Provision.World.{
  Params, World, Deps, Ran, goes, stops, R, done, db, best_effort, timed, ◌>>=◌, ◌>>◌, set_params,
  take_params, Executor,
}
use incus.Provision.Reinstall.{reinstall_executor}
use incus.Provision.VmCreate.{vm_create_executor, mark_vm_error}

-- The other executors.
pub record Others : Type 0 where
  pub node_add : Executor
  pub node_remove : Executor
  pub migrate_batch : Executor

abbrev pub stale_note : Text
stale_note = verbatim "recovered after process restart or stale > 30m"

module _ (deps : Deps) (others : Others) where
  unfoldable pub dispatch : JobKind → Result Executor
  dispatch JobKind.vm_create = ok (vm_create_executor deps)
  dispatch JobKind.vm_reinstall = ok (reinstall_executor deps)
  dispatch JobKind.cluster_node_add = ok others.node_add
  dispatch JobKind.cluster_node_remove = ok others.node_remove
  dispatch JobKind.cluster_vm_migrate_batch = ok others.migrate_batch
  dispatch kind = err (unknown_kind kind)

  unfoldable pub finalize : ProvisioningJob → JobStatus → Option Text → R (Unit {0})
  finalize job status error = best_effort (timed deps (finish job.id status error))

  -- `exec.Run`, then the compensation where it failed, then the final state.
  unfoldable pub execute : Executor → ProvisioningJob → R (Unit {0})
  execute exec job w = elim (exec.run job w) [
    | goes _ v ↦ finalize job JobStatus.succeeded none v
    | stops e v ↦
        (exec.rollback job (message e) >> finalize job JobStatus.failed (some (message e))) v
  ]

  -- A job that is loaded and started; the parameters are taken at the end.
  unfoldable pub run_dispatched : ProvisioningJob → Result Executor → R (Unit {0})
  run_dispatched job (err e) = do
    finalize job JobStatus.failed (some (message e))
    take_params job.id
    done tt
  run_dispatched job (ok exec) = do execute exec job; take_params job.id; done tt

  unfoldable pub run_started : ProvisioningJob → R (Unit {0})
  run_started job = run_dispatched job (dispatch job.kind)

  unfoldable pub run_if_started : ProvisioningJob → Result (Unit {0}) → R (Unit {0})
  run_if_started job (err e) = done tt
  run_if_started job (ok _) = run_started job

  unfoldable pub start_loaded : ℕ → Result (Option ProvisioningJob) → R (Unit {0})
  start_loaded job_id (err e) = done tt
  start_loaded job_id (ok none) = done tt
  start_loaded job_id (ok (some job)) = do
    started ← db (timed deps (mark_running job_id))
    run_if_started job started

  unfoldable pub run_one : ℕ → R (Unit {0})
  run_one job_id = do loaded ← db (get_by_id job_id); start_loaded job_id loaded

  -- `dispatch`, and the compensation of the executor.
  unfoldable pub roll_back_dispatched : ProvisioningJob → Result Executor → R (Unit {0})
  roll_back_dispatched job (err e) = done tt
  roll_back_dispatched job (ok exec) = exec.rollback job (verbatim "stale recovery")

  unfoldable pub recover_marked : ProvisioningJob → Result (Unit {0}) → R (Unit {0})
  recover_marked job (err e) = done tt
  recover_marked job (ok _) = roll_back_dispatched job (dispatch job.kind)

  -- The sweep's work on one stale job.
  unfoldable pub recover_job : ProvisioningJob → R (Unit {0})
  recover_job job = do
    marked ← db (timed deps (finish job.id JobStatus.partial (some stale_note)))
    recover_marked job marked

  unfoldable pub recover_all : List ProvisioningJob → R (Unit {0})
  recover_all [] = done tt
  recover_all (job ∷ rest) = recover_job job >> recover_all rest

  -- time.Now().Add(-maxAge), in seconds
  unfoldable pub recover_stale : ℕ → R (Unit {0})
  recover_stale max_age = do
    found ← db (timed deps (λ now. find_stale_running (now - max_age)))
    elim found [ err e ↦ done tt | ok stale ↦ recover_all stale ]
