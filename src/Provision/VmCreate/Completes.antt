-- ===== src/Provision/VmCreate/Completes.antt =====
-- A run of vm.create where the cluster and the database do their part.
use incus.Base.{
  ℕ, ◌≡◌, inl, inr, refl, ap, subst, false, Option, none, some, String, arith, ◌==◌, Bool-cases,
}
use incus.Models.{ProvisioningJob, OrderStatus, StepStatus}
use incus.Store.{Conn, returns, conn_of}
use incus.Base.Table.{update_where}
use incus.Orders
use incus.Orders.{set_status}
use incus.Vms.{update_after_provision}
use incus.Provision.World.{
  Params, Reply, Request, Cluster, World, Deps, goes, R, done, db, timed, ◌>>=◌, ◌>>◌, take_params,
  send, finish_step, bind-goes, wait_operation,
}
use incus.Provision.VmCreate.{
  run, launch, conclude, perform, skip_step, await, record_vm, check_written, activate_order,
  node_of,
}
use incus.Provision.VmCreate.Frame.{OnlySteps, Within, launch-Within, step-Within, send-Within}
use incus.Provision.VmCreate.Compensation.{IsQuiet, IsQuiet-later, Follows}
use incus.Provision.VmCreate.Run.{RunResult, OrderActivated}
use incus.Provision.VmCreate.Conclude.{run-RunOutcome}
use incus.Provision.Serving.{
  IsUsable, Usable, Serves, Completes, Any, Completes-bind, Completes-done, best_effort-Completes,
  step-Completes, finish-Completes, send-Completes, close_step-Completes,
}

-- From a state where no statement fails, the part goes on to such a state.
abbrev Lasts : {A : Type 0} → R A → Type 0
Lasts {A} m =
    (w : World) → IsQuiet w.conn → (a : A) × (v : World) × (m w ≡ goes a v) × IsQuiet v.conn

Completes-Lasts :
    {A : Type 0} (P : A → Type 0) (m : R A)
    → Completes P m
    → ((w : World) → Within w (m w))
    → Lasts m
Completes-Lasts P m goes_on within w never =
    let (a, v, e, _) = goes_on w in
    let h : OnlySteps w v = subst (Within w) e (within w) in
    (a, v, e, IsQuiet-later w.conn v.conn h.conn.follows never)

-- A part that lasts, and then the rest.
Lasts-then :
    {A B : Type 0} (m : R A) (f : A → R B) (w : World)
    → IsQuiet w.conn
    → Lasts m
    → ((a : A) (v : World) → IsQuiet v.conn → (b : B) × (u : World) × (f a v ≡ goes b u))
    → (b : B) × (u : World) × ((m >>= f) w ≡ goes b u)
Lasts-then m f w never first rest =
    let (a, v, e, still) = first w never in
    let (b, u, h) = rest a v still in (b, u, bind-goes m f w v a _ e h)

module _ (deps : Deps) (cluster : Cluster) (job : ProvisioningJob) (serves : Serves cluster) where
  perform-Completes :
      (seq : ℕ) (name detail label : String) (r : Request)
      → Completes IsUsable (perform deps cluster job seq name detail label r)
  unfolding perform
  perform-Completes seq name detail label r =
      Completes-bind Any IsUsable _ _
        (step-Completes deps cluster job serves seq name StepStatus.running _)
        (λ _ _.
          Completes-bind Usable IsUsable (send cluster r) _
            (send-Completes deps cluster job serves r)
            (λ a usable. close_step-Completes deps cluster job serves seq label a usable))

  skip-Completes :
      (seq : ℕ) (name reason : String) → Completes Any (skip_step deps cluster job seq name reason)
  unfolding skip_step
  skip-Completes seq name reason =
      step-Completes deps cluster job serves seq name StepStatus.skipped _

  await-Completes :
      (seq : ℕ) (name detail label : String) (reply : Reply)
      → IsUsable reply
      → Completes Any (await deps cluster job seq name detail label reply)
  unfolding await
  await-Completes seq name detail label reply usable w = elim (Bool-cases reply.is_async) [
    | inl async ↦
        simp (async, usable.names_operation async)
          (Completes-bind IsUsable Any (perform deps cluster job seq name detail label _) _
            (perform-Completes seq name detail label (wait_operation reply.op_id))
            (λ _ _. Completes-done Any tt tt) w)
    | inr sync ↦ rw sync (skip-Completes seq name "sync response" w)
  ]

  launch-Completes : (params : Params) → Completes Any (launch deps cluster job params)
  unfolding launch
  launch-Completes params =
      Completes-bind IsUsable Any _ _ (perform-Completes 0 _ _ _ _) (λ created good.
        Completes-bind Any Any _ _ (await-Completes 1 _ _ _ created good) (λ _ _.
          Completes-bind IsUsable Any _ _ (perform-Completes 2 _ _ _ _)
            (λ started fine. await-Completes 3 _ _ _ started fine)))

  activate-Completes :
      (order_id : Option ℕ) → Completes Any (activate_order deps cluster job order_id)
  unfolding activate_order
  activate-Completes none = Completes-done Any tt tt
  activate-Completes (some id) =
      best_effort-Completes (timed deps (Orders.update_status id OrderStatus.active))

  end-Completes : Completes Any (
      activate_order deps cluster job job.order_id
      >> (finish_step deps job.id 4 StepStatus.succeeded none >> (take_params job.id >> done tt)))
  unfolding take_params
  end-Completes = Completes-bind Any Any _ _ (activate-Completes job.order_id) (λ _ _.
      Completes-bind Any Any _ _
        (finish-Completes deps cluster job serves 4 StepStatus.succeeded none)
        (λ _ _ w. (tt, _, refl, tt)))

  module _ (sealed : String) (seals : deps.cipher.encrypt deps.new_password ≡ some sealed) where
    provision-works :
        (id now : ℕ) (node : String) (c : Conn)
        → c.fails c.tick ≡ false
        → (d : Conn) × (update_after_provision deps.cipher id node deps.new_password now c
            ≡ returns tt d)
          × Follows c d
    unfolding update_after_provision
    provision-works id now node c works =
        let d = conn_of (update_after_provision deps.cipher id node deps.new_password now c) in
        (
          d,
          ground (arith, seals, works),
          record { same = ground (arith, seals, works); ticks = ground (arith, seals, works) },
        )

    record_vm-Lasts :
        (vm_id : Option ℕ) (node : String) → Lasts (record_vm deps cluster job vm_id node)
    unfolding record_vm check_written
    record_vm-Lasts none node w never = (tt, w, refl, never)
    record_vm-Lasts (some id) node w never =
        let (d, e, f) =
          provision-works id (deps.clock w.conn.tick) node w.conn
            (never w.conn.tick (omega arith)) in
        (
          tt,
          record w { conn = d },
          ap (λ o. (db (λ _. o) >>= check_written deps cluster job) w) e,
          IsQuiet-later w.conn d f never,
        )

    conclude-goes :
        (params : Params) (w : World)
        → IsQuiet w.conn
        → (a : Unit {0}) × (v : World) × (conclude deps cluster job params w ≡ goes a v)
    unfolding conclude
    conclude-goes params w never =
        Lasts-then _ _ w never
          (Completes-Lasts Any _ (step-Completes deps cluster job serves 4 "finalize" _ _)
            (step-Within deps job.id 4 "finalize" StepStatus.running _))
          (λ _ v still.
            Lasts-then (send cluster _) _ v still
              (Completes-Lasts Usable (send cluster _) (send-Completes deps cluster job serves _)
                (send-Within cluster _))
              (λ a u good.
                Lasts-then (record_vm deps cluster job job.vm_id _) _ u good
                  (record_vm-Lasts job.vm_id (node_of deps cluster job a))
                  (λ _ x _. let (b, y, e, _) = end-Completes x in (b, y, e))))

    work-goes :
        (params : Params) (w : World)
        → IsQuiet w.conn
        → (a : Unit {0}) × (v : World) × ((launch deps cluster job params
                >> conclude deps cluster job params)
              w
            ≡ goes a v)
    work-goes params w never =
        Lasts-then (launch deps cluster job params) _ w never
          (Completes-Lasts Any _ (launch-Completes params) (launch-Within deps cluster job params))
          (λ _ v still. conclude-goes params v still)

-- The end of the run, whose outcome is known.
reached :
    (deps : Deps) (cluster : Cluster) (job : ProvisioningJob) (params : Params) (sealed : String)
    (w : World)
    → w.params job.id ≡ some params
    → deps.clusters job.cluster_id ≡ some cluster
    → Serves cluster
    → deps.cipher.encrypt deps.new_password ≡ some sealed
    → IsQuiet w.conn
    → (v : World) × (run deps job w ≡ goes tt v)
unfolding run
reached deps cluster job params sealed w given registered serves seals never =
    let (_, v, e) = work-goes deps cluster job serves sealed seals params w never in
    (v, rw (given, registered) e)

abbrev pub OrderIsActive : Option ℕ → World → World → Type 0
OrderIsActive none w v = v.conn.tables.orders ≡ w.conn.tables.orders
OrderIsActive (some id) w v =
    (now : ℕ) × (v.conn.tables.orders
      ≡ update_where (λ o. o.id == id) (set_status OrderStatus.active now) w.conn.tables.orders)

-- Where no statement fails, the order is active.
activated-OrderIsActive :
    (id : Option ℕ) (w v : World) → IsQuiet w.conn → OrderActivated 2 id w v → OrderIsActive id w v
activated-OrderIsActive none w v never h = h
activated-OrderIsActive (some id) w v never (inl h) = h
activated-OrderIsActive (some id) w v never (inr (_, (n, from, _, broken))) =
    absurd (ground (arith, never n from, broken))

-- Where the job's parameters and its cluster are there, the cluster answers every request with
-- metadata that parses and, where the reply is asynchronous, names its operation, the password can
-- be sealed and no statement fails, a run of vm.create succeeds: the VM's row, where it is creating
-- or running, is running with its sealed password and the location that the cluster gave in its
-- answer to the last request, the order is active, and no balance, transaction, invoice, address or
-- job has changed.
pub run-completes :
    (deps : Deps) (cluster : Cluster) (job : ProvisioningJob) (params : Params) (sealed : String)
    (w : World)
    → w.params job.id ≡ some params
    → deps.clusters job.cluster_id ≡ some cluster
    → Serves cluster
    → deps.cipher.encrypt deps.new_password ≡ some sealed
    → IsQuiet w.conn
    → (v : World) × (run deps job w ≡ goes tt v)
      × RunResult deps job w (goes tt v)
      × OrderIsActive job.order_id w v
run-completes deps cluster job params sealed w given registered serves seals never =
    let (v, e) = reached deps cluster job params sealed w given registered serves seals never in
    let h : RunResult deps job w (goes tt v) =
      subst (RunResult deps job w) e (run-RunOutcome deps job w) in
    (v, e, h, activated-OrderIsActive job.order_id w v never (h.4.order_activated))
