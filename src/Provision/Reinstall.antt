-- ===== src/Provision/Reinstall.antt =====
-- The executor of vm.reinstall (incus-admin/internal/service/jobs/vm_reinstall.go): the instance is
-- stopped, deleted, created again with a new password and started. Of the
-- instance's configuration, which is read and sent back, only that it is there is modelled.
pub mod Run
pub mod Outcome
pub mod Completes
use incus.Base.{ℕ, String, Bool, true, false, Option, none, some, ◌==◌, if◌then◌else◌}
use incus.Models.{ProvisioningJob, StepStatus, Text, verbatim, message}
use incus.Store.{Error, Result, ok, err, remote, wrapped, params_missing, cluster_missing}
use incus.Vms.{update_password}
use incus.Provision.World.{
  Params, Reply, Cluster, World, Deps, Ran, R, done, stop, best_effort, timed, ◌>>=◌, ◌>>◌,
  take_params, peek_params, send, step, finish_step, Executor, recreate_instance, start_instance,
  stop_instance, delete_instance, get_instance, wait_operation,
}
use incus.Provision.VmCreate.{fail_step, close_step, mark_vm_error}
use text.Mathlib.Text.{◌==◌ as str_eq}

module _ (deps : Deps) (cluster : Cluster) (job : ProvisioningJob) where
  -- The operation of an asynchronous reply, which must be there.
  unfoldable pub require_operation : ℕ → String → String → Reply → R String
  require_operation seq parse_label label reply =
      if reply.parses
      then if str_eq reply.op_id ""
        then fail_step deps cluster job seq label
            (remote "incus async response missing operation id")
        else done reply.op_id
      else fail_step deps cluster job seq parse_label (remote "invalid metadata")

  -- The wait, whose error closes the step as failed.
  unfoldable pub wait_for : ℕ → String → String → R (Unit {0})
  wait_for seq label op = do
    answer ← send cluster (wait_operation op)
    elim answer as (λ _. R (Unit {0})) [
      | err e ↦ fail_step deps cluster job seq label e
      | ok _ ↦ done tt
    ]

  -- A reply that an error closes the step for.
  unfoldable pub accept : ℕ → String → Result Reply → R Reply
  accept seq label (err e) = fail_step deps cluster job seq label e
  accept seq label (ok reply) = done reply

  unfoldable pub await_reply : ℕ → String → String → String → Reply → R (Unit {0})
  await_reply seq parse_label label wait_label reply =
      if reply.is_async
      then (require_operation seq parse_label label reply >>= λ op. wait_for seq wait_label op)
      else done tt

  -- Step 0: the instance, whose metadata must parse.
  unfoldable pub fetch : Params → R Reply
  fetch params = do
    step deps job.id 0 "fetch_instance" StepStatus.running (some (verbatim "读取原实例配置"))
    answer ← send cluster (get_instance params.project job.target_name)
    reply ← accept 0 "get instance" answer
    if reply.parses
        then (finish_step deps job.id 0 StepStatus.succeeded none >> done reply)
        else fail_step deps cluster job 0 "parse instance" (remote "invalid metadata")

  abbrev pub stop_status : Result Reply → StepStatus
  stop_status (ok _) = StepStatus.succeeded
  stop_status (err e) = StepStatus.skipped

  abbrev pub stop_detail : Result Reply → Option Text
  stop_detail (ok _) = none
  stop_detail (err e) = some (message e)

  -- Step 1: an instance that is stopped already is no error.
  unfoldable pub stop_current : Params → R (Unit {0})
  stop_current params = do
    step deps job.id 1 "stop" StepStatus.running (some (verbatim "停止当前实例"))
    answer ← send cluster (stop_instance params.project job.target_name)
    finish_step deps job.id 1 (stop_status answer) (stop_detail answer)

  -- Step 2
  unfoldable pub delete_current : Params → R (Unit {0})
  delete_current params = do
    step deps job.id 2 "delete" StepStatus.running (some (verbatim "删除原实例"))
    answer ← send cluster (delete_instance params.project job.target_name)
    reply ← accept 2 "delete instance" answer
    await_reply 2 "parse delete async metadata" "delete" "wait delete" reply
    finish_step deps job.id 2 StepStatus.succeeded none

  -- Step 4
  unfoldable pub await_recreated : Reply → R (Unit {0})
  await_recreated reply =
      if reply.is_async
      then (do
        op ← require_operation 4 "parse recreate async metadata" "recreate" reply
        step deps job.id 4 "wait_recreate" StepStatus.running (some (verbatim "等待镜像与磁盘就绪"))
        wait_for 4 "wait recreate" op
        finish_step deps job.id 4 StepStatus.succeeded none)
      else done tt

  -- Steps 3 and 4. The user data goes into the config of the old instance: an instance without
  -- config has a nil map, and the worker recovers the panic as the error of the run.
  unfoldable pub recreate : Params → String → Bool → R (Unit {0})
  recreate params location false =
      stop (wrapped "executor panic" (remote "assignment to entry in nil map"))
  recreate params location true = do
    step deps job.id 3 "recreate" StepStatus.running (some (verbatim "重建实例"))
    answer ← send cluster (recreate_instance job.target_name params deps.new_password location)
    reply ← close_step deps cluster job 3 "recreate" answer
    await_recreated reply

  -- Step 5
  unfoldable pub start_new : Params → R (Unit {0})
  start_new params = do
    step deps job.id 5 "start_after_reinstall" StepStatus.running (some (verbatim "启动新实例"))
    answer ← send cluster (start_instance params.project job.target_name)
    reply ← accept 5 "start after reinstall" answer
    await_reply 5 "parse start async metadata" "start" "wait start after reinstall" reply
    finish_step deps job.id 5 StepStatus.succeeded none

  unfoldable pub rebuild : Params → R (Unit {0})
  rebuild params = do
    old ← fetch params
    stop_current params
    delete_current params
    recreate params old.location old.has_config
    start_new params

  -- The new password goes to the VM's row; an error is not reported.
  unfoldable pub save_password : Option ℕ → R (Unit {0})
  save_password none = done tt
  save_password (some vm_id) =
      best_effort (timed deps (update_password deps.cipher vm_id deps.new_password))

unfoldable pub reinstall_run : Deps → ProvisioningJob → R (Unit {0})
reinstall_run deps job = do
  params ← peek_params job.id
  elim params as (λ _. R (Unit {0})) [
    | none ↦ stop (params_missing job.id)
    | some p ↦ elim (deps.clusters job.cluster_id) as (λ _. R (Unit {0})) [
      | none ↦ stop (cluster_missing job.cluster_id)
      | some cluster ↦ do
        rebuild deps cluster job p
        save_password deps cluster job job.vm_id
        take_params job.id
        done tt
    ]
  ]

-- The compensation of a reinstall: the VM's row is marked.
unfoldable pub reinstall_rollback : Deps → ProvisioningJob → Text → R (Unit {0})
reinstall_rollback deps job reason = do mark_vm_error deps job.vm_id; take_params job.id; done tt

abbrev pub reinstall_executor : Deps → Executor
reinstall_executor deps = record { run = reinstall_run deps; rollback = reinstall_rollback deps }
