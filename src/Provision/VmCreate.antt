-- ===== src/Provision/VmCreate.antt =====
-- The executor of vm.create (incus-admin/internal/service/jobs/vm_create.go). The body of the
-- create request, the guest set-up of Windows and the default firewall groups, which change no
-- row that is modelled, are left out.
pub mod Frame
pub mod Compensation
pub mod Lookup
pub mod Rollback
pub mod Run
pub mod Activation
pub mod Conclude
pub mod Completes
use incus.Base.{
  ℕ, ◌+◌, String, Bool, true, false, ◌&&◌, Option, none, some, List, [], ◌∷◌, if◌then◌else◌, ◌==◌,
}
use incus.Base.Int.{ℤ, pos, zero_ℤ, ltb_ℤ}
use incus.Models.{
  ProvisioningJob, Order, Vm, OrderStatus, VmStatus, StepStatus, Text, verbatim, refunded_order,
  message,
}
use incus.Store.{Error, Result, ok, err, wrapped, params_missing, cluster_missing}
use incus.Orders
use incus.Vms
use incus.Vms.{update_after_provision}
use incus.Jobs.{refund_once}
use incus.Ips.{release}
use incus.Provision.World.{
  Params, Request, Reply, Cluster, World, Deps, Ran, goes, stops, R, done, stop, db, best_effort,
  timed, ◌>>=◌, ◌>>◌, take_params, peek_params, send, step, finish_step, Executor, create_instance,
  start_instance, stop_instance, delete_instance, get_instance, wait_operation,
}
use text.Mathlib.Text.{◌==◌ as str_eq}

module _ (deps : Deps) (cluster : Cluster) (job : ProvisioningJob) where
  -- The step is closed as failed, and the job returns the error.
  unfoldable pub fail_step : {A : Type 0} → ℕ → String → Error → R A
  fail_step seq label e = do
    finish_step deps job.id seq StepStatus.failed (some (message e))
    stop (wrapped label e)

  unfoldable pub close_step : ℕ → String → Result Reply → R Reply
  close_step seq label (err e) = fail_step seq label e
  close_step seq label (ok reply) = do
    finish_step deps job.id seq StepStatus.succeeded none
    done reply

  -- A request as step `seq`; the error of the client ends the job.
  unfoldable pub perform : ℕ → String → String → String → Request → R Reply
  perform seq name detail label request = do
    step deps job.id seq name StepStatus.running (some (verbatim detail))
    answer ← send cluster request
    close_step seq label answer

  unfoldable pub skip_step : ℕ → String → String → R (Unit {0})
  skip_step seq name reason = step deps job.id seq name StepStatus.skipped (some (verbatim reason))

  -- The wait for the operation of an asynchronous reply.
  unfoldable pub await : ℕ → String → String → String → Reply → R (Unit {0})
  await seq name detail label reply =
      if reply.is_async
      then if str_eq reply.op_id ""
        then skip_step seq name "no operation id"
        else (perform seq name detail label (wait_operation reply.op_id) >> done tt)
      else skip_step seq name "sync response"

  -- From the submission to the start of the instance.
  unfoldable pub launch : Params → R (Unit {0})
  launch params = do
    created ←
        perform 0 "submit_instance" "提交 VM 创建请求" "submit instance"
          (create_instance job.target_name params deps.new_password)
    await 1 "wait_create" "等待镜像拉取与实例创建" "wait create" created
    started ←
        perform 2 "start_instance" "启动实例" "start instance"
          (start_instance params.project job.target_name)
    await 3 "wait_start" "等待 boot 完成" "wait start" started

  abbrev pub node_of : Result Reply → String
  node_of (ok reply) = reply.location
  node_of (err e) = ""

  unfoldable pub check_written : Result (Unit {0}) → R (Unit {0})
  check_written (err e) = fail_step 4 "update vm row" e
  check_written (ok _) = done tt

  unfoldable pub record_vm : Option ℕ → String → R (Unit {0})
  record_vm none node = done tt
  record_vm (some vm_id) node = do
    written ← db (timed deps (update_after_provision deps.cipher vm_id node deps.new_password))
    check_written written

  unfoldable pub activate_order : Option ℕ → R (Unit {0})
  activate_order none = done tt
  activate_order (some order_id) =
      best_effort (timed deps (Orders.update_status order_id OrderStatus.active))

  -- The step `finalize`: the node and the password go to the VM's row, the order is active.
  unfoldable pub conclude : Params → R (Unit {0})
  conclude params = do
    step deps job.id 4 "finalize" StepStatus.running (some (verbatim "记录运行节点与凭据"))
    answer ← send cluster (get_instance params.project job.target_name)
    record_vm job.vm_id (node_of answer)
    activate_order job.order_id
    finish_step deps job.id 4 StepStatus.succeeded none
    take_params job.id
    done tt

unfoldable pub run : Deps → ProvisioningJob → R (Unit {0})
run deps job = do
  params ← peek_params job.id
  elim params [
    | none ↦ stop (params_missing job.id)
    | some p ↦ elim (deps.clusters job.cluster_id) [
      | none ↦ stop (cluster_missing job.cluster_id)
      | some cluster ↦ do launch deps cluster job p; conclude deps cluster job p
    ]
  ]

-- What a compensation needs to know: from the parameters, else from the rows.
abbrev pub project_of : Option Params → String
project_of none = "customers"
project_of (some p) = if str_eq p.project "" then "customers" else p.project

abbrev pub ip_of : Option Params → Option ℕ
ip_of none = none
ip_of (some p) = p.ip

abbrev pub amount_of : Option Params → ℤ
amount_of none = zero_ℤ
amount_of (some p) = p.order_amount

abbrev pub row_or : {A : Type 0} → Result (Option A) → Option A
row_or (ok o) = o
row_or (err e) = none

-- vms.ip, where the parameters have none
abbrev pub ip_or : Option ℕ → Option Vm → Option ℕ
ip_or (some ip) v = some ip
ip_or none none = none
ip_or none (some v) = v.ip

unfoldable pub find_ip : Option ℕ → Option ℕ → R (Option ℕ)
find_ip none ip = done ip
find_ip (some vm_id) ip = do row ← db (Vms.get_by_id vm_id); done (ip_or ip (row_or row))

abbrev pub amount_or : ℤ → Option Order → ℤ
amount_or amount none = amount
amount_or amount (some o) = o.amount

abbrev pub is_zero : ℤ → Bool
is_zero (pos n) = n == 0
is_zero _ = false

-- orders.amount, where the parameters have none
unfoldable pub find_amount : Option ℕ → ℤ → R ℤ
find_amount none amount = done amount
find_amount (some order_id) amount = elim (is_zero amount) [
  | false ↦ done amount
  | true ↦ do row ← db (Orders.get_by_id order_id); done (amount_or amount (row_or row))
]

-- bestEffortDeleteInstance
unfoldable pub delete_leftover : Option Cluster → String → String → R (Unit {0})
delete_leftover none project name = done tt
delete_leftover (some cluster) project name = do
  send cluster (stop_instance project name)
  answer ← send cluster (delete_instance project name)
  elim answer [
    | err e ↦ done tt
    | ok reply ↦
        if reply.is_async
        then if str_eq reply.op_id ""
          then done tt
          else (send cluster (wait_operation reply.op_id) >> done tt)
        else done tt
  ]

unfoldable pub release_ip : Deps → Option ℕ → R (Unit {0})
release_ip deps none = done tt
release_ip deps (some ip) = best_effort (timed deps (release ip))

unfoldable pub refund : Deps → ProvisioningJob → Option ℕ → ℤ → Text → R (Unit {0})
refund deps job none amount reason = done tt
refund deps job (some order_id) amount reason = elim (ltb_ℤ zero_ℤ amount) [
  | true ↦
      best_effort
        (timed deps (refund_once job.id job.user_id amount (refunded_order order_id reason)))
  | false ↦ done tt
]

unfoldable pub cancel_order : Deps → Option ℕ → R (Unit {0})
cancel_order deps none = done tt
cancel_order deps (some order_id) =
    best_effort (timed deps (Orders.update_status order_id OrderStatus.cancelled))

unfoldable pub mark_vm_error : Deps → Option ℕ → R (Unit {0})
mark_vm_error deps none = done tt
mark_vm_error deps (some vm_id) = best_effort (timed deps (Vms.update_status vm_id VmStatus.error))

unfoldable pub rollback : Deps → ProvisioningJob → Text → R (Unit {0})
rollback deps job reason = do
  params ← peek_params job.id
  ip ← find_ip job.vm_id (ip_of params)
  amount ← find_amount job.order_id (amount_of params)
  delete_leftover (deps.clusters job.cluster_id) (project_of params) job.target_name
  release_ip deps ip
  refund deps job job.order_id amount reason
  cancel_order deps job.order_id
  mark_vm_error deps job.vm_id
  take_params job.id
  done tt

abbrev pub vm_create_executor : Deps → Executor
vm_create_executor deps = record { run = run deps; rollback = rollback deps }
