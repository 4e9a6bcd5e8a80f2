-- ===== src/Provision/VmCreate/Conclude.antt =====
-- The last step of vm.create, and the run as a whole.
use incus.Base.{
  ℕ, ◌+◌, ◌≡◌, inl, inr, refl, sym, ap, subst, ◌∙◌, Option, none, some, String, ◌∷◌, arith,
  Option-cases,
}
use incus.Base.Table.{update_where}
use incus.Models.{ProvisioningJob, StepStatus, Text, message}
use incus.Store.{
  Tables, Conn, Result, ok, err, Error, Outcome, returns, raises, wrapped, params_missing,
  cluster_missing,
}
use incus.Vms.{update_after_provision, provisionable, provisioned}
use incus.Jobs.{update_step, list_steps}
use incus.Provision.World.{
  Params, Reply, World, Deps, Cluster, Ran, goes, stops, R, ◌>>=◌, ◌>>◌, done, stop, send,
  take_params, without, get_instance, db, finish_step, bind-goes,
}
use incus.Provision.VmCreate.{
  run, launch, conclude, record_vm, activate_order, fail_step, node_of, check_written,
}
use incus.Provision.VmCreate.Frame.{
  OnlySteps, OnlySteps-trans, Within-refl, launch-Within, step-Within, finish_step-goes,
  send-Within,
}
use incus.Provision.VmCreate.Compensation.{Follows}
use incus.Provision.VmCreate.Activation.{
  Activation, OtherRowsKept-params, VmRecorded-then, OrderActivated-then, activate-goes,
}
use incus.Provision.VmCreate.Run.{
  OtherRowsKept, VmRecorded, NodeRead, location_of, IsProvisioned, RunOutcome, RunResult,
  RunOutcome-after, RunOutcome-bind, OtherRowsKept-refl, OtherRowsKept-trans,
  OnlySteps-OtherRowsKept, activated_after,
}

-- What `record_vm` comes to.
abbrev RecordOutcome : Deps → Option ℕ → String → World → Ran (Unit {0}) → Type 0
RecordOutcome deps id node w (stops e v) = OnlySteps w v
RecordOutcome deps id node w (goes _ v) =
    VmRecorded deps id node w v
    × (v.requests ≡ w.requests)
    × (v.conn.tables.orders ≡ w.conn.tables.orders)
    × OtherRowsKept w v

module _ (deps : Deps) (cluster : Cluster) (job : ProvisioningJob) where
  provision-returns :
      (id : ℕ) (node : String) (now : ℕ) (c d : Conn)
      → update_after_provision deps.cipher id node deps.new_password now c ≡ returns tt d
      → (sealed : String) × (deps.cipher.encrypt deps.new_password ≡ some sealed)
        × (d.tables ≡ record c.tables {
          vms = update_where (provisionable id) (provisioned node sealed now) c.tables.vms;
        })
        × Follows c d
  unfolding update_after_provision
  provision-returns id node now c d h =
      elim (Option-cases (deps.cipher.encrypt deps.new_password)) [
        | inl missing ↦ absurd (ground arith)
        | inr (sealed, e) ↦
            (sealed, e, ground arith, record { same = ground arith; ticks = ground arith })
      ]

  provision-raises :
      (id : ℕ) (node : String) (now : ℕ) (c d : Conn) (e : Error)
      → update_after_provision deps.cipher id node deps.new_password now c ≡ raises e d
      → (d.tables ≡ c.tables) × Follows c d
  unfolding update_after_provision
  provision-raises id node now c d e h =
      (ground arith, record { same = ground arith; ticks = ground arith })

  fail_step-stops :
      (label : String) (e : Error) (w : World)
      → (v : World) × (fail_step deps cluster job {A = Unit {0}} 4 label e w
          ≡ stops (wrapped label e) v)
        × OnlySteps w v
  unfolding fail_step
  fail_step-stops label e w =
      let (v, h, p) = finish_step-goes deps job.id 4 StepStatus.failed (some (message e)) w in
      (
        v,
        bind-goes (finish_step deps job.id 4 StepStatus.failed (some (message e)))
            (λ _. stop (wrapped label e)) w v tt _ h refl,
        p,
      )

  recorded_of :
      (id : ℕ) (node : String) (w : World) (o : Outcome (Unit {0}))
      → update_after_provision deps.cipher id node deps.new_password (deps.clock w.conn.tick) w.conn
        ≡ o
      → RecordOutcome deps (some id) node w ((db (λ _. o) >>= check_written deps cluster job) w)
  unfolding check_written
  recorded_of id node w (returns _ d) h =
      let now = deps.clock w.conn.tick in
      let (sealed, e, t, f) = provision-returns id node now w.conn d h in
      (
        (sealed, now, e, ap Tables.vms t),
        refl,
        ap Tables.orders t,
        record {
          users = ap Tables.users t;
          transactions = ap Tables.transactions t;
          invoices = ap Tables.invoices t;
          ips = ap Tables.ips t;
          jobs = ap Tables.jobs t;
          follows = f;
        },
      )
  recorded_of id node w (raises e d) h =
      let (t, f) = provision-raises id node (deps.clock w.conn.tick) w.conn d e h in
      let (v, stopped, p) = fail_step-stops "update vm row" e (record w { conn = d }) in
      let unchanged : OnlySteps w (record w { conn = d }) = record {
        conn = record { tables = ground (arith, t); follows = f };
        params = refl;
      } in
      subst (RecordOutcome deps (some id) node w) (sym stopped)
        (OnlySteps-trans w (record w { conn = d }) v unchanged p)

  record_vm-RecordOutcome :
      (id : Option ℕ) (node : String) (w : World)
      → RecordOutcome deps id node w (record_vm deps cluster job id node w)
  unfolding record_vm
  record_vm-RecordOutcome none node w = (refl, refl, refl, OtherRowsKept-refl w)
  record_vm-RecordOutcome (some id) node w = recorded_of id node w _ refl

  finish_step-requests :
      (seq : ℕ) (s : StepStatus) (d : Option Text) (w v : World)
      → finish_step deps job.id seq s d w ≡ goes tt v
      → (v.requests ≡ w.requests) × (v.conn.tick ≡ w.conn.tick + 2)
  unfolding finish_step update_step list_steps
  finish_step-requests seq s d w v e = (ground (arith, e), ground (arith, e))

  finish_writes : R (Unit {0})
  finish_writes =
      activate_order deps cluster job job.order_id
      >> (finish_step deps job.id 4 StepStatus.succeeded none >> (take_params job.id >> done tt))

  module _ (params : Params) where
    -- The row is written, then the order, then the step.
    ending :
        (node : String) (w v1 v2 v3 : World)
        → NodeRead cluster job params node w
        → RecordOutcome deps job.vm_id node w (goes tt v1)
        → Activation job.order_id v1 v2
        → OnlySteps v2 v3
        → (v3.requests ≡ v2.requests) × (v3.conn.tick ≡ v2.conn.tick + 2)
        → IsProvisioned deps cluster job params w (record v3 { params = without job.id v3.params })
    ending node w v1 v2 v3 (before, asked, named) (recorded, requests, orders, kept1) h steps
          (e, ticks) =
        record {
          node = node;
          node_read = (before, e ∙ h.requests ∙ requests ∙ asked, named);
          vm_recorded =
              VmRecorded-then deps job.vm_id node w v1 _ recorded
                (ap Tables.vms steps.conn.tables ∙ h.vms);
          order_activated =
              OrderActivated-then 0 2 job.order_id w v2 _
                (activated_after deps 0 job.order_id w v1 v2 orders kept1.follows h.activated)
                (ap Tables.orders steps.conn.tables) ticks;
          others = OtherRowsKept-params w v3 (without job.id v3.params) (
              OtherRowsKept-trans w v2 v3 (OtherRowsKept-trans w v1 v2 kept1 h.others)
                (OnlySteps-OtherRowsKept v2 v3 steps));
        }

    last_writes :
        (node : String) (w : World) (r : Ran (Unit {0}))
        → NodeRead cluster job params node w
        → RecordOutcome deps job.vm_id node w r
        → RunOutcome deps cluster job params w (((λ _. r) >> finish_writes) w)
    unfolding finish_writes take_params
    last_writes node w (stops e v) read h = h
    last_writes node w (goes _ v1) read h =
        let (v2, e2, activation) = activate-goes deps cluster job job.order_id v1 in
        let (v3, e3, steps) = finish_step-goes deps job.id 4 StepStatus.succeeded none v2 in
        subst (RunOutcome deps cluster job params w)
          (sym (
            bind-goes (activate_order deps cluster job job.order_id) _ v1 v2 tt _ e2 (
              bind-goes (finish_step deps job.id 4 StepStatus.succeeded none) _ v2 v3 tt _ e3
                refl)))
          (ending node w v1 v2 v3 read h activation steps
            (finish_step-requests 4 StepStatus.succeeded none v2 v3 e3))

    node_of-location_of : (a : Result Reply) → node_of deps cluster job a ≡ location_of a
    node_of-location_of (ok reply) = refl
    node_of-location_of (err e) = refl

    -- The cluster is asked for the instance, and the rest follows.
    asked-RunOutcome :
        (w : World)
        → RunOutcome deps cluster job params w (
            (send cluster (get_instance params.project job.target_name) >>= λ answer.
            record_vm deps cluster job job.vm_id (node_of deps cluster job answer) >> finish_writes)
              w)
    unfolding send
    asked-RunOutcome w =
        let asked = get_instance params.project job.target_name in
        let answer = cluster.answers w.requests asked in
        let v : World = record w { requests = asked ∷ w.requests } in
        RunOutcome-after deps cluster job params w v _ (send-Within cluster asked w) (
          last_writes (node_of deps cluster job answer) v _
            (w.requests, refl, node_of-location_of answer)
            (record_vm-RecordOutcome job.vm_id (node_of deps cluster job answer) v))

    conclude-RunOutcome :
        (w : World) → RunOutcome deps cluster job params w (conclude deps cluster job params w)
    unfolding conclude finish_writes
    conclude-RunOutcome =
        RunOutcome-bind deps cluster job params _ (λ _. asked-RunOutcome) _
          (step-Within deps job.id 4 "finalize" StepStatus.running _)

pub run-RunOutcome :
    (deps : Deps) (job : ProvisioningJob) (w : World) → RunResult deps job w (run deps job w)
unfolding run
run-RunOutcome deps job w = with_params (w.params job.id) refl
  where
    found :
        (p : Params) (x : Cluster) (r : Ran (Unit {0}))
        → w.params job.id ≡ some p
        → deps.clusters job.cluster_id ≡ some x
        → RunOutcome deps x job p w r
        → RunResult deps job w r
    found p x (goes _ v) given registered h = (x, p, registered, given, h)
    found p x (stops e v) given registered h = h

    with_cluster :
        (p : Params) (cluster : Option Cluster)
        → w.params job.id ≡ some p
        → deps.clusters job.cluster_id ≡ cluster
        → RunResult deps job w (
            elim cluster as (λ _. R (Unit {0})) [
              | none ↦ stop (cluster_missing job.cluster_id)
              | some x ↦ launch deps x job p >> conclude deps x job p
            ]
              w)
    with_cluster p none given registered = Within-refl w
    with_cluster p (some x) given registered = found p x _ given registered (
        RunOutcome-bind deps x job p (λ _. conclude deps x job p)
          (λ _. conclude-RunOutcome deps x job p) (launch deps x job p) (launch-Within deps x job p)
          w)

    with_params :
        (p : Option Params)
        → w.params job.id ≡ p
        → RunResult deps job w (
            elim p as (λ _. R (Unit {0})) [
              | none ↦ stop (params_missing job.id)
              | some q ↦ elim (deps.clusters job.cluster_id) as (λ _. R (Unit {0})) [
                | none ↦ stop (cluster_missing job.cluster_id)
                | some x ↦ launch deps x job q >> conclude deps x job q
              ]
            ]
              w)
    with_params none given = Within-refl w
    with_params (some q) given = with_cluster q (deps.clusters job.cluster_id) given refl
