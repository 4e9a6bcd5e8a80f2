-- ===== src/Provision/Reinstall/Run.antt =====
-- What a run of vm.reinstall comes to.
use incus.Base.{ℕ, Bool, true, false, inl, inr, none, String, Bool-cases, if◌then◌else◌}
use incus.Models.{ProvisioningJob, StepStatus}
use incus.Store.{Result, ok, err, remote}
use incus.Provision.World.{
  Params, Reply, Cluster, World, Deps, R, done, ◌>>◌, send, finish_step, wait_operation,
}
use incus.Provision.VmCreate.{fail_step}
use incus.Provision.VmCreate.Frame.{
  Within, Within-refl, Within-bind, step-Within, finish_step-Within, send-Within, fail_step-Within,
  close_step-Within,
}
use incus.Provision.Reinstall.{
  require_operation, wait_for, accept, await_reply, fetch, stop_current, delete_current,
  await_recreated, recreate, start_new, rebuild,
}
use text.Mathlib.Text.{◌==◌ as str_eq}

module _ (deps : Deps) (cluster : Cluster) (job : ProvisioningJob) where
  require_operation-Within :
      (seq : ℕ) (p l : String) (reply : Reply) (w : World)
      → Within w (require_operation deps cluster job seq p l reply w)
  unfolding require_operation
  require_operation-Within seq p l reply w = elim (Bool-cases reply.parses) [
    | inl good ↦ elim (Bool-cases (str_eq reply.op_id "")) [
      | inl empty ↦ rw (good, empty) (fail_step-Within deps cluster job String seq l _ w)
      | inr given ↦ rw (good, given) (Within-refl w)
    ]
    | inr bad ↦ rw bad (fail_step-Within deps cluster job String seq p _ w)
  ]

  accept-Within :
      (seq : ℕ) (l : String) (a : Result Reply) (w : World)
      → Within w (accept deps cluster job seq l a w)
  unfolding accept
  accept-Within seq l (err e) w = fail_step-Within deps cluster job Reply seq l e w
  accept-Within seq l (ok reply) w = Within-refl w

  wait_for-Within :
      (seq : ℕ) (l op : String) (w : World) → Within w (wait_for deps cluster job seq l op w)
  unfolding wait_for
  wait_for-Within seq l op =
      Within-bind _ answered (send cluster (wait_operation op)) (send-Within cluster _)
    where
      answered :
          (a : Result Reply) (v : World)
          → Within v (
              elim a as (λ _. R (Unit {0})) [
                | err e ↦ fail_step deps cluster job seq l e
                | ok _ ↦ done tt
              ]
                v)
      answered (err e) v = fail_step-Within deps cluster job Unit seq l e v
      answered (ok _) v = Within-refl v

  await_reply-Within :
      (seq : ℕ) (p l x : String) (reply : Reply) (w : World)
      → Within w (await_reply deps cluster job seq p l x reply w)
  unfolding await_reply require_operation
  await_reply-Within seq p l x reply w = elim (Bool-cases reply.is_async) [
    | inl async ↦ rw async (
        Within-bind _ (λ op. wait_for-Within seq x op)
          (require_operation deps cluster job seq p l reply)
          (require_operation-Within seq p l reply) w)
    | inr sync ↦ rw sync (Within-refl w)
  ]

  parsed-Within :
      (reply : Reply) (w : World)
      → Within w (
          (if reply.parses
              then (finish_step deps job.id 0 StepStatus.succeeded none >> done reply)
              else fail_step deps cluster job 0 "parse instance" (remote "invalid metadata"))
            w)
  parsed-Within reply w = elim (Bool-cases reply.parses) [
    | inl good ↦ simp good (
        Within-bind (λ _. done reply) (λ _ v. Within-refl v) _
          (finish_step-Within deps job.id 0 StepStatus.succeeded none) w)
    | inr bad ↦ rw bad (fail_step-Within deps cluster job Reply 0 "parse instance" _ w)
  ]

  fetch-Within : (params : Params) (w : World) → Within w (fetch deps cluster job params w)
  unfolding fetch
  fetch-Within params =
      Within-bind _
        (λ _.
          Within-bind _
            (λ a.
              Within-bind _ parsed-Within (accept deps cluster job 0 "get instance" a)
                (accept-Within 0 _ a))
            (send cluster _) (send-Within cluster _))
        _ (step-Within deps job.id 0 "fetch_instance" StepStatus.running _)

  stop_current-Within :
      (params : Params) (w : World) → Within w (stop_current deps cluster job params w)
  unfolding stop_current
  stop_current-Within params =
      Within-bind _
        (λ _.
          Within-bind _ (λ a. finish_step-Within deps job.id 1 _ _) (send cluster _)
            (send-Within cluster _))
        _ (step-Within deps job.id 1 "stop" StepStatus.running _)

  delete_current-Within :
      (params : Params) (w : World) → Within w (delete_current deps cluster job params w)
  unfolding delete_current
  delete_current-Within params =
      Within-bind _
        (λ _.
          Within-bind _
            (λ a.
              Within-bind _
                (λ reply.
                  Within-bind _ (λ _. finish_step-Within deps job.id 2 StepStatus.succeeded none) _
                    (await_reply-Within 2 _ _ _ reply))
                (accept deps cluster job 2 "delete instance" a) (accept-Within 2 _ a))
            (send cluster _) (send-Within cluster _))
        _ (step-Within deps job.id 2 "delete" StepStatus.running _)

  await_recreated-Within :
      (reply : Reply) (w : World) → Within w (await_recreated deps cluster job reply w)
  unfolding await_recreated require_operation
  await_recreated-Within reply w = elim (Bool-cases reply.is_async) [
    | inl async ↦ rw async (
        Within-bind _
          (λ op.
            Within-bind _
              (λ _.
                Within-bind _ (λ _. finish_step-Within deps job.id 4 StepStatus.succeeded none) _
                  (wait_for-Within 4 "wait recreate" op))
              _ (step-Within deps job.id 4 "wait_recreate" StepStatus.running _))
          _ (require_operation-Within 4 _ _ reply) w)
    | inr sync ↦ rw sync (Within-refl w)
  ]

  recreate-Within :
      (params : Params) (location : String) (described : Bool) (w : World)
      → Within w (recreate deps cluster job params location described w)
  unfolding recreate
  recreate-Within params location false = λ w. Within-refl w
  recreate-Within params location true =
      Within-bind _
        (λ _.
          Within-bind _
            (λ a.
              Within-bind _ await_recreated-Within _
                (close_step-Within deps cluster job 3 "recreate" a))
            (send cluster _) (send-Within cluster _))
        _ (step-Within deps job.id 3 "recreate" StepStatus.running _)

  start_new-Within : (params : Params) (w : World) → Within w (start_new deps cluster job params w)
  unfolding start_new
  start_new-Within params =
      Within-bind _
        (λ _.
          Within-bind _
            (λ a.
              Within-bind _
                (λ reply.
                  Within-bind _ (λ _. finish_step-Within deps job.id 5 StepStatus.succeeded none) _
                    (await_reply-Within 5 _ _ _ reply))
                (accept deps cluster job 5 "start after reinstall" a) (accept-Within 5 _ a))
            (send cluster _) (send-Within cluster _))
        _ (step-Within deps job.id 5 "start_after_reinstall" StepStatus.running _)

  pub rebuild-Within : (params : Params) (w : World) → Within w (rebuild deps cluster job params w)
  unfolding rebuild
  rebuild-Within params =
      Within-bind _
        (λ old.
          Within-bind _
            (λ _.
              Within-bind _
                (λ _.
                  Within-bind _ (λ _. start_new-Within params) _
                    (recreate-Within params old.location old.has_config))
                _ (delete_current-Within params))
            _ (stop_current-Within params))
        _ (fetch-Within params)
