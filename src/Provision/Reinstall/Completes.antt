-- ===== src/Provision/Reinstall/Completes.antt =====
-- A reinstall where the cluster does its part.
use incus.Base.{
  ℕ, ◌≡◌, inl, inr, refl, ap, subst, Option, none, some, Bool, true, false, arith, String, ◌∷◌,
  Bool-cases, if◌then◌else◌,
}
use incus.Models.{ProvisioningJob, StepStatus}
use incus.Store.{Result, ok, err, remote}
use incus.Vms.{update_password}
use incus.Provision.World.{
  Params, Reply, Request, Cluster, World, Deps, Ran, goes, R, done, timed, ◌>>◌, take_params, send,
  get_instance, finish_step,
}
use incus.Provision.Reinstall.{
  require_operation, wait_for, accept, await_reply, fetch, stop_current, delete_current,
  await_recreated, recreate, start_new, rebuild, save_password, reinstall_run,
}
use incus.Provision.VmCreate.{fail_step, close_step}
use incus.Provision.Reinstall.Outcome.{
  IsReinstalled, ReinstallOutcome, reinstall_run-ReinstallOutcome,
}
use incus.Provision.Serving.{
  IsUsable, Usable, Serves, Describes, Completes, Any, Completes-bind, Completes-done,
  best_effort-Completes, step-Completes, finish-Completes, send-Completes, close_step-Completes,
}

-- The metadata of an instance with its config.
abbrev HasConfig : Reply → Type 0
HasConfig reply = reply.has_config ≡ true

module _ (deps : Deps) (cluster : Cluster) (job : ProvisioningJob) (serves : Serves cluster)
    (describes : Describes cluster) where
  accept-Completes :
      (seq : ℕ) (l : String) (a : Result Reply)
      → Usable a
      → Completes IsUsable (accept deps cluster job seq l a)
  unfolding accept
  accept-Completes seq l a (reply, e, usable) w =
      (reply, w, ap (λ x. accept deps cluster job seq l x w) e, usable)

  require_operation-Completes :
      (seq : ℕ) (p l : String) (reply : Reply)
      → IsUsable reply
      → reply.is_async ≡ true
      → Completes Any (require_operation deps cluster job seq p l reply)
  unfolding require_operation
  require_operation-Completes seq p l reply usable async w =
      (reply.op_id, w, rw (usable.parses, usable.names_operation async) refl, tt)

  wait_for-Completes :
      (seq : ℕ) (l op : String) → Completes Any (wait_for deps cluster job seq l op)
  unfolding wait_for send
  wait_for-Completes seq l op w =
      let (reply, e, _) = serves w.requests (Request.wait_operation op) in
      (tt, _, ap (λ x. answered x) e, tt)
    where
      answered : Result Reply → Ran (Unit {0})
      answered a =
          elim a as (λ _. R (Unit {0})) [
            | err e ↦ fail_step deps cluster job seq l e
            | ok _ ↦ done tt
          ]
            (record w { requests = Request.wait_operation op ∷ w.requests })

  await_reply-Completes :
      (seq : ℕ) (p l x : String) (reply : Reply)
      → IsUsable reply
      → Completes Any (await_reply deps cluster job seq p l x reply)
  unfolding await_reply require_operation
  await_reply-Completes seq p l x reply usable w = elim (Bool-cases reply.is_async) [
    | inl async ↦ rw async (
        Completes-bind Any Any (require_operation deps cluster job seq p l reply) _
          (require_operation-Completes seq p l reply usable async)
          (λ op _. wait_for-Completes seq x op) w)
    | inr sync ↦ rw sync (Completes-done Any tt tt w)
  ]

  await_recreated-Completes :
      (reply : Reply) → IsUsable reply → Completes Any (await_recreated deps cluster job reply)
  unfolding await_recreated require_operation
  await_recreated-Completes reply usable w = elim (Bool-cases reply.is_async) [
    | inl async ↦ rw async (
        Completes-bind Any Any _ _ (require_operation-Completes 4 _ _ reply usable async)
          (λ op _.
            Completes-bind Any Any _ _
              (step-Completes deps cluster job serves 4 "wait_recreate" StepStatus.running _)
              (λ _ _.
                Completes-bind Any Any _ _ (wait_for-Completes 4 "wait recreate" op)
                  (λ _ _. finish-Completes deps cluster job serves 4 StepStatus.succeeded none)))
          w)
    | inr sync ↦ rw sync (Completes-done Any tt tt w)
  ]

  parsed-Completes :
      (reply : Reply)
      → IsUsable reply × (reply.has_config ≡ true)
      → Completes HasConfig (
          if reply.parses
          then (finish_step deps job.id 0 StepStatus.succeeded none >> done reply)
          else fail_step deps cluster job 0 "parse instance" (remote "invalid metadata"))
  parsed-Completes reply (usable, described) w = simp usable.parses (
      Completes-bind Any HasConfig _ _
        (finish-Completes deps cluster job serves 0 StepStatus.succeeded none)
        (λ _ _. Completes-done HasConfig reply described) w)

  asked-Completes :
      (project name : String)
      → Completes
          (λ a. (reply : Reply) × (a ≡ ok reply) × IsUsable reply × (reply.has_config ≡ true))
          (send cluster (get_instance project name))
  unfolding send
  asked-Completes project name w =
      let (reply, e, usable) = serves w.requests (get_instance project name) in
      (_, _, refl, (reply, e, usable, describes w.requests project name reply e))

  fetch-Completes : (params : Params) → Completes HasConfig (fetch deps cluster job params)
  unfolding fetch accept
  fetch-Completes params =
      Completes-bind Any HasConfig _ _
        (step-Completes deps cluster job serves 0 "fetch_instance" StepStatus.running _)
        (λ _ _.
          Completes-bind _ HasConfig (send cluster _) _
            (asked-Completes params.project job.target_name)
            (λ a (reply, e, usable, described).
              Completes-bind (λ r. IsUsable r × (r.has_config ≡ true)) HasConfig
                (accept deps cluster job 0 "get instance" a) _
                (λ w. (
                  reply,
                  w,
                  ap (λ x. accept deps cluster job 0 "get instance" x w) e,
                  (usable, described),
                ))
                parsed-Completes))

  stop_current-Completes : (params : Params) → Completes Any (stop_current deps cluster job params)
  unfolding stop_current
  stop_current-Completes params =
      Completes-bind Any Any _ _
        (step-Completes deps cluster job serves 1 "stop" StepStatus.running _)
        (λ _ _.
          Completes-bind Usable Any (send cluster _) _ (send-Completes deps cluster job serves _)
            (λ a _. finish-Completes deps cluster job serves 1 _ _))

  delete_current-Completes :
      (params : Params) → Completes Any (delete_current deps cluster job params)
  unfolding delete_current
  delete_current-Completes params =
      Completes-bind Any Any _ _
        (step-Completes deps cluster job serves 2 "delete" StepStatus.running _)
        (λ _ _.
          Completes-bind Usable Any (send cluster _) _ (send-Completes deps cluster job serves _)
            (λ a usable.
              Completes-bind IsUsable Any (accept deps cluster job 2 _ a) _
                (accept-Completes 2 _ a usable)
                (λ reply good.
                  Completes-bind Any Any _ _ (await_reply-Completes 2 _ _ _ reply good)
                    (λ _ _. finish-Completes deps cluster job serves 2 StepStatus.succeeded none))))

  recreate-Completes :
      (params : Params) (location : String) (described : Bool)
      → described ≡ true
      → Completes Any (recreate deps cluster job params location described)
  unfolding recreate
  recreate-Completes params location false h = absurd (ground (arith, h))
  recreate-Completes params location true h =
      Completes-bind Any Any _ _
        (step-Completes deps cluster job serves 3 "recreate" StepStatus.running _)
        (λ _ _.
          Completes-bind Usable Any (send cluster _) _ (send-Completes deps cluster job serves _)
            (λ a usable.
              Completes-bind IsUsable Any (close_step deps cluster job 3 _ a) _
                (close_step-Completes deps cluster job serves 3 _ a usable)
                await_recreated-Completes))

  start_new-Completes : (params : Params) → Completes Any (start_new deps cluster job params)
  unfolding start_new
  start_new-Completes params =
      Completes-bind Any Any _ _
        (step-Completes deps cluster job serves 5 "start_after_reinstall" StepStatus.running _)
        (λ _ _.
          Completes-bind Usable Any (send cluster _) _ (send-Completes deps cluster job serves _)
            (λ a usable.
              Completes-bind IsUsable Any (accept deps cluster job 5 _ a) _
                (accept-Completes 5 _ a usable)
                (λ reply good.
                  Completes-bind Any Any _ _ (await_reply-Completes 5 _ _ _ reply good)
                    (λ _ _. finish-Completes deps cluster job serves 5 StepStatus.succeeded none))))

  rebuild-Completes : (params : Params) → Completes Any (rebuild deps cluster job params)
  unfolding rebuild
  rebuild-Completes params =
      Completes-bind HasConfig Any _ _ (fetch-Completes params) (λ old described.
        Completes-bind Any Any _ _ (stop_current-Completes params) (λ _ _.
          Completes-bind Any Any _ _ (delete_current-Completes params) (λ _ _.
            Completes-bind Any Any _ _
              (recreate-Completes params old.location old.has_config described)
              (λ _ _. start_new-Completes params))))

  save_password-Completes :
      (vm_id : Option ℕ) → Completes Any (save_password deps cluster job vm_id)
  unfolding save_password
  save_password-Completes none = Completes-done Any tt tt
  save_password-Completes (some id) =
      best_effort-Completes (timed deps (update_password deps.cipher id deps.new_password))

  take-Completes : Completes Any (take_params job.id >> done tt)
  unfolding take_params
  take-Completes w = (tt, _, refl, tt)

  work-Completes :
      (params : Params)
      → Completes Any (
          rebuild deps cluster job params
          >> (save_password deps cluster job job.vm_id >> (take_params job.id >> done tt)))
  work-Completes params = Completes-bind Any Any _ _ (rebuild-Completes params) (λ _ _.
      Completes-bind Any Any _ _ (save_password-Completes job.vm_id) (λ _ _. take-Completes))

-- The end of the run, whose outcome is known.
reached :
    (deps : Deps) (cluster : Cluster) (job : ProvisioningJob) (params : Params) (w : World)
    → w.params job.id ≡ some params
    → deps.clusters job.cluster_id ≡ some cluster
    → Serves cluster
    → Describes cluster
    → (v : World) × (reinstall_run deps job w ≡ goes tt v)
unfolding reinstall_run
reached deps cluster job params w given registered serves describes =
    let (_, v, e, _) = work-Completes deps cluster job serves describes params w in
    (v, rw (given, registered) e)

-- Where the job's parameters and its cluster are there, and the cluster answers every request with
-- metadata that parses and, where the reply is asynchronous, names its operation, and that about an
-- instance has its config, a run of vm.reinstall succeeds whatever fails in the database: the VM's
-- row has the new password, sealed, unless the sealing or the last statement failed, and no balance, order, transaction, invoice, address or job has changed.
pub reinstall_run-completes :
    (deps : Deps) (cluster : Cluster) (job : ProvisioningJob) (params : Params) (w : World)
    → w.params job.id ≡ some params
    → deps.clusters job.cluster_id ≡ some cluster
    → Serves cluster
    → Describes cluster
    → (v : World) × (reinstall_run deps job w ≡ goes tt v) × IsReinstalled deps job.vm_id w v
reinstall_run-completes deps cluster job params w given registered serves describes =
    let (v, e) = reached deps cluster job params w given registered serves describes in
    (v, e, subst (ReinstallOutcome deps job w) e (reinstall_run-ReinstallOutcome deps job w))
