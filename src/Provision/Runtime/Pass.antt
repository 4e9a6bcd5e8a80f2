-- ===== src/Provision/Runtime/Pass.antt =====
-- What a worker's pass over a vm.create job comes to.
use incus.Base.{
  ℕ, ◌≡◌, ◌⊎◌, inl, inr, refl, sym, ap, ◌+◌, ◌∙◌, subst, Option, none, some, arith, ◌==◌,
  Bool-cases,
}
use incus.Base.Table.{find, count_where, update_where, update_where-none}
use incus.Models.{ProvisioningJob, JobKind, JobStatus, Text, message}
use incus.Store.{Tables, Conn, Error, Result, ok, err, Outcome, returns, raises, unreachable}
use incus.Jobs.{get_by_id, mark_running, finish, finished, startable, started, list_steps}
use incus.Provision.World.{
  World, Deps, Ran, goes, stops, ◌>>=◌, ◌>>◌, done, db, timed, take_params, bind-goes, world_of,
  Executor,
}
use incus.Provision.VmCreate.{run, rollback, vm_create_executor}
use incus.Provision.VmCreate.Frame.{OnlySteps}
use incus.Provision.VmCreate.Compensation.{
  Follows, Follows-refl, Follows-trans, FaultIn, FaultIn-widen, Tries, Change, best_effort-Tried,
  single-Tries,
}
use incus.Provision.VmCreate.Rollback.{IsCompensated, rollback-compensates}
use incus.Provision.VmCreate.Run.{RunResult}
use incus.Provision.VmCreate.Conclude.{run-RunOutcome}
use incus.Provision.Runtime.{
  Others, finalize, execute, dispatch, run_dispatched, run_started, run_if_started, start_loaded,
  run_one,
}

abbrev pub finish_change : ℕ → JobStatus → Option Text → Change
finish_change id status error now s t = record t {
  jobs = update_where (λ j. j.id == id) (finished status error now) t.jobs;
}

abbrev pub start_change : ℕ → Change
start_change id now s t = record t { jobs = update_where (startable id) (started now) t.jobs }

-- What a job that was started comes to: it is provisioned and succeeds, or its run fails, it is
-- compensated for that reason, and it fails.
pub data Executed (deps : Deps) (job : ProvisioningJob) (w : World) (d : Conn) : Type 0 where
  provisioned :
      (w1 : World)
      → run deps job w ≡ goes tt w1
      → RunResult deps job w (goes tt w1)
      → Tries deps.clock (finish_change job.id JobStatus.succeeded none) w1.conn d
      → Executed deps job w d
  compensated :
      (e : Error) (w1 w2 : World)
      → run deps job w ≡ stops e w1
      → OnlySteps w w1
      → IsCompensated deps.clock job (message e) w1 w2
      → Tries deps.clock (finish_change job.id JobStatus.failed (some (message e))) w2.conn d
      → Executed deps job w d

finalize-goes :
    (deps : Deps) (others : Others) (job : ProvisioningJob) (s : JobStatus) (e : Option Text)
    (w : World)
    → (v : World) × (finalize deps others job s e w ≡ goes tt v)
      × Tries deps.clock (finish_change job.id s e) w.conn v.conn
unfolding finalize finish
finalize-goes deps others job s e w =
    let m = finish job.id s e in
    let (v, h, tried) =
      best_effort-Tried deps.clock (finish_change job.id s e) (timed deps m)
        (single-Tries deps.clock (finish_change job.id s e) m
          (λ now c. (ground arith, ground arith, ground arith)))
        w in
    (v, h, tried.tries)

executed_of :
    (deps : Deps) (others : Others) (job : ProvisioningJob) (w : World) (r : Ran (Unit {0}))
    → run deps job w ≡ r
    → RunResult deps job w r
    → Executed deps job w
        (world_of
          (execute deps others (record { run = λ _ _. r; rollback = rollback deps }) job w)).conn
unfolding execute
executed_of deps others job w (goes tt v) ran_so h =
    let (u, e, f) = finalize-goes deps others job JobStatus.succeeded none v in
    subst (λ (x : Ran Unit). Executed deps job w (world_of x).conn) (sym e)
      (provisioned v ran_so h f)
executed_of deps others job w (stops e v) ran_so h =
    let (x, er, c) = rollback-compensates deps job (message e) v in
    let (u, ef, f) = finalize-goes deps others job JobStatus.failed (some (message e)) x in
    subst (λ (y : Ran Unit). Executed deps job w (world_of y).conn)
      (sym (bind-goes (rollback deps job (message e)) _ v x tt _ er ef))
      (compensated e v x ran_so h c f)

taken_after :
    (id : ℕ) (w : World) (r : Ran (Unit {0}))
    → (world_of (((λ _. r) >> (take_params id >> done tt)) w)).conn ≡ (world_of r).conn
unfolding take_params
taken_after id w (goes _ v) = refl
taken_after id w (stops e v) = refl

run_started-Executed :
    (deps : Deps) (others : Others) (job : ProvisioningJob) (w : World)
    → job.kind ≡ JobKind.vm_create
    → Executed deps job w (world_of (run_started deps others job w)).conn
unfolding run_started dispatch run_dispatched
run_started-Executed deps others job w kind =
    subst
      (λ (x : Result Executor).
        Executed deps job w (world_of (run_dispatched deps others job x w)).conn)
      (sym (ap (dispatch deps others) kind))
      (subst (λ (c : Conn). Executed deps job w c)
        (sym (taken_after job.id w (execute deps others (vm_create_executor deps) job w)))
        (unfold execute in
          executed_of deps others job w (run deps job w) refl (run-RunOutcome deps job w)))

-- A worker's pass over a job of this id.
pub data Pass (deps : Deps) (job : ProvisioningJob) (w : World) (d : Conn) : Type 0 where
  idle :
      d.tables ≡ w.conn.tables
      → FaultIn w.conn d ⊎ (count_where (startable job.id) w.conn.tables.jobs ≡ 0)
      → Pass deps job w d
  ran :
      (now : ℕ) (w1 : World)
      → w1.conn.tables ≡ start_change job.id now 0 w.conn.tables
      → Follows w.conn w1.conn
      → w1.params ≡ w.params
      → Executed deps job w1 d
      → Pass deps job w d

module _ (deps : Deps) (others : Others) (job : ProvisioningJob)
    (kind : job.kind ≡ JobKind.vm_create) where
  started_conn :
      (now : ℕ) (c d : Conn)
      → mark_running job.id now c ≡ returns tt d
      → (d.tables ≡ start_change job.id now 0 c.tables) × Follows c d
  unfolding mark_running
  started_conn now c d h = (ground arith, record { same = ground arith; ticks = ground arith })

  not_started_conn :
      (now : ℕ) (c d : Conn) (e : Error)
      → mark_running job.id now c ≡ raises e d
      → (d.tables ≡ c.tables) × (FaultIn c d ⊎ (count_where (startable job.id) c.tables.jobs ≡ 0))
  unfolding mark_running
  not_started_conn now c d e h = (
    ground (arith, update_where-none (startable job.id) (started now) c.tables.jobs),
    elim (Bool-cases (c.fails c.tick)) [
      | inl broken ↦ inl (c.tick, omega arith, ground (arith, h), broken)
      | inr works ↦ inr (ground arith)
    ],
  )

  Pass-of :
      (w : World) (o : Outcome (Unit {0}))
      → mark_running job.id (deps.clock w.conn.tick) w.conn ≡ o
      → Pass deps job w (world_of ((db (λ _. o) >>= run_if_started deps others job) w)).conn
  unfolding run_if_started
  Pass-of w (raises e d) h =
      let (same, why) = not_started_conn (deps.clock w.conn.tick) w.conn d e h in idle same why
  Pass-of w (returns _ d) h =
      let now = deps.clock w.conn.tick in
      let (t, f) = started_conn now w.conn d h in
      ran now (record w { conn = d }) t f refl
        (run_started-Executed deps others job (record w { conn = d }) kind)

  loaded-Pass :
      (w : World)
      → Pass deps job w (world_of (start_loaded deps others job.id (ok (some job)) w)).conn
  unfolding start_loaded
  loaded-Pass w = Pass-of w _ refl

  -- The reads before it change nothing that a pass depends on.
  record IsRead (w v : World) : Type 0 where
    tables : v.conn.tables ≡ w.conn.tables
    follows : Follows w.conn v.conn
    params : v.params ≡ w.params

  Pass-after_read : (w v : World) (d : Conn) → IsRead w v → Pass deps job v d → Pass deps job w d
  Pass-after_read w v d r (idle e (inl fault)) =
      idle (e ∙ r.tables) (inl (FaultIn-widen w.conn v.conn d d r.follows (Follows-refl d) fault))
  Pass-after_read w v d r (idle e (inr none_left)) =
      idle (e ∙ r.tables) (
        inr (ap (λ (t : Tables). count_where (startable job.id) t.jobs) (sym r.tables) ∙ none_left))
  Pass-after_read w v d r (ran now w1 e g p x) =
      ran now w1 (e ∙ ap (start_change job.id now 0) r.tables)
        (Follows-trans w.conn v.conn w1.conn r.follows g) (p ∙ r.params) x

  -- Loading the job reads its row, then its steps.
  load_of :
      (w : World)
      → find ProvisioningJob.id job.id w.conn.tables.jobs ≡ some job
      → (v : World) × IsRead w v
        × ((db (get_by_id job.id) w ≡ goes (ok (some job)) v)
            ⊎ ((e : Error) × (db (get_by_id job.id) w ≡ goes (err e) v) × FaultIn w.conn v.conn))
  unfolding get_by_id list_steps
  load_of w found =
      let v = world_of (db (get_by_id job.id) w) in
      let read : IsRead w v = record {
        tables = ground arith;
        follows = record { same = ground arith; ticks = ground arith };
        params = ground arith;
      } in
      (
        v,
        read,
        elim (Bool-cases (w.conn.fails w.conn.tick)) [
          | inl broken ↦
              inr (unreachable, ground arith, (w.conn.tick, omega arith, ground arith, broken))
          | inr works ↦ elim (Bool-cases (w.conn.fails (w.conn.tick + 1))) [
            | inl broken ↦ inr (
              unreachable,
              ground (arith, found),
              (w.conn.tick + 1, omega arith, ground (arith, found), broken),
            )
            | inr answered ↦ inl (ground (arith, found))
          ]
        ],
      )

  -- Whatever fails and whatever the cluster answers, a worker's pass over a vm.create job changes
  -- no row, which takes a job that is not queued or a statement of the pass that failed, or it
  -- starts the job. Then either the job's VM is provisioned and the job succeeds, or its run fails
  -- having written steps only, it is compensated for that reason (address, refund, order and VM, in
  -- this order), and only then it fails. The final status, too, is written unless its own statement
  -- failed.
  pub run_one_passes :
      (w : World)
      → find ProvisioningJob.id job.id w.conn.tables.jobs ≡ some job
      → Pass deps job w (world_of (run_one deps others job.id w)).conn
  unfolding run_one start_loaded
  run_one_passes w found =
      let (v, read, how) = load_of w found in
      elim how [
        | inl loaded ↦
            subst (λ (r : Ran Unit). Pass deps job w (world_of r).conn)
              (sym (
                bind-goes (db (get_by_id job.id)) (start_loaded deps others job.id) w v
                  (ok (some job)) _ loaded refl))
              (Pass-after_read w v _ read (loaded-Pass v))
        | inr (e, lost, fault) ↦
            subst (λ (r : Ran Unit). Pass deps job w (world_of r).conn)
              (sym (
                bind-goes (db (get_by_id job.id)) (start_loaded deps others job.id) w v (err e) _
                  lost refl))
              (idle read.tables (inl fault))
      ]
