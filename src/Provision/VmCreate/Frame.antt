-- ===== src/Provision/VmCreate/Frame.antt =====
-- What a job may write before it concludes: its steps.
use incus.Base.{
  ℕ, ◌≡◌, refl, ap, subst, ◌∙◌, Option, none, some, String, arith, inl, inr, Bool-cases,
}
use incus.Base.Int.{ℤ}
use incus.Models.{ProvisioningJob, StepStatus, Text, message, verbatim}
use incus.Store.{
  Tables, Conn, Error, Outcome, returns, raises, M, conn_of, ok, err, Result, wrapped,
}
use incus.Jobs.{append_step, update_step, list_steps}
use incus.Provision.World.{
  Params, Request, Reply, Cluster, World, Deps, Ran, goes, stops, R, ◌>>=◌, best_effort, timed,
  done, stop, world_of, send, step, finish_step,
}
use incus.Provision.VmCreate.Compensation.{Follows, Follows-refl, Follows-trans}
use incus.Provision.VmCreate.{fail_step, close_step, skip_step, perform, await, launch}
use text.Mathlib.Text.{◌==◌ as str_eq}

pub record StepConn (c d : Conn) : Type 0 where
  pub tables : d.tables ≡ record c.tables { steps = d.tables.steps }
  pub follows : Follows c d

pub record OnlySteps (w w' : World) : Type 0 where
  pub conn : StepConn w.conn w'.conn
  pub params : w'.params ≡ w.params

pub OnlySteps-trans : (u v w : World) → OnlySteps u v → OnlySteps v w → OnlySteps u w
OnlySteps-trans u v w p q = record {
  conn = record {
    tables =
        q.conn.tables ∙ ap (λ (t : Tables). record t { steps = w.conn.tables.steps }) p.conn.tables;
    follows = Follows-trans u.conn v.conn w.conn p.conn.follows q.conn.follows;
  };
  params = q.params ∙ p.params;
}

-- However a part ends, it has written steps only.
abbrev pub Within : {A : Type 0} → World → Ran A → Type 0
Within w (goes a v) = OnlySteps w v
Within w (stops e v) = OnlySteps w v

pub Within-refl : (w : World) → OnlySteps w w
Within-refl w = record {
  conn = record { tables = refl; follows = Follows-refl w.conn };
  params = refl;
}

Within-extend : {A : Type 0} (u v : World) (r : Ran A) → OnlySteps u v → Within v r → Within u r
Within-extend u v (goes a w) p q = OnlySteps-trans u v w p q
Within-extend u v (stops e w) p q = OnlySteps-trans u v w p q

module _ {A B : Type 0} (f : A → R B) (rest : (a : A) (w : World) → Within w (f a w)) where
  Within-then : (w : World) (r : Ran A) → Within w r → Within w (((λ _. r) >>= f) w)
  Within-then w (goes a v) p = Within-extend w v (f a v) p (rest a v)
  Within-then w (stops e v) p = p

  pub Within-bind :
      (m : R A) → ((w : World) → Within w (m w)) → (w : World) → Within w ((m >>= f) w)
  Within-bind m first w = Within-then w (m w) (first w)

module _ {A : Type 0} (m : M A) (steps : (c : Conn) → StepConn c (conn_of (m c))) where
  best_effort_outcome :
      (w : World) (o : Outcome A) → StepConn w.conn (conn_of o) → Within w (best_effort (λ _. o) w)
  best_effort_outcome w (returns a c) h = record { conn = h; params = refl }
  best_effort_outcome w (raises e c) h = record { conn = h; params = refl }

  pub best_effort-Within : (w : World) → Within w (best_effort m w)
  best_effort-Within w = best_effort_outcome w (m w.conn) (steps w.conn)

append_step-StepConn :
    (id seq : ℕ) (name : String) (s : StepStatus) (d : Option Text) (now : ℕ) (c : Conn)
    → StepConn c (conn_of (append_step id seq name s d now c))
unfolding append_step
append_step-StepConn id seq name s d now c = record {
  tables = ground arith;
  follows = record { same = ground arith; ticks = ground arith };
}

update_step-StepConn :
    (id seq : ℕ) (s : StepStatus) (d : Option Text) (now : ℕ) (c : Conn)
    → StepConn c (conn_of (update_step id seq s d now c))
unfolding update_step
update_step-StepConn id seq s d now c = record {
  tables = ground arith;
  follows = record { same = ground arith; ticks = ground arith };
}

list_steps-StepConn : (id : ℕ) (since : ℤ) (c : Conn) → StepConn c (conn_of (list_steps id since c))
unfolding list_steps
list_steps-StepConn id since c = record {
  tables = ground arith;
  follows = record { same = ground arith; ticks = ground arith };
}

module _ (deps : Deps) where
  pub step-Within :
      (id seq : ℕ) (name : String) (s : StepStatus) (d : Option Text) (w : World)
      → Within w (step deps id seq name s d w)
  unfolding step
  step-Within id seq name s d w =
      best_effort-Within (timed deps (append_step id seq name s d))
        (λ c. append_step-StepConn id seq name s d (deps.clock c.tick) c) w

  pub finish_step-Within :
      (id seq : ℕ) (s : StepStatus) (d : Option Text) (w : World)
      → Within w (finish_step deps id seq s d w)
  unfolding finish_step
  finish_step-Within id seq s d w =
      Within-bind _
        (λ _ v. best_effort-Within (list_steps id _) (λ c. list_steps-StepConn id _ c) v)
        (best_effort (timed deps (update_step id seq s d)))
        (λ v.
          best_effort-Within (timed deps (update_step id seq s d))
            (λ c. update_step-StepConn id seq s d (deps.clock c.tick) c) v)
        w

  -- It goes on whatever fails.
  pub finish_step-goes :
      (id seq : ℕ) (s : StepStatus) (d : Option Text) (w : World)
      → (v : World) × (finish_step deps id seq s d w ≡ goes tt v) × OnlySteps w v
  unfolding finish_step
  finish_step-goes id seq s d w =
      let v = world_of (finish_step deps id seq s d w) in
      let e : finish_step deps id seq s d w ≡ goes tt v = ground arith in
      (v, e, subst (Within w) e (finish_step-Within id seq s d w))

pub send-Within : (cluster : Cluster) (r : Request) (w : World) → Within w (send cluster r w)
unfolding send
send-Within cluster r w = record {
  conn = record { tables = refl; follows = Follows-refl w.conn };
  params = refl;
}

module _ (deps : Deps) (cluster : Cluster) (job : ProvisioningJob) where
  pub fail_step-Within :
      (A : Type 0) (seq : ℕ) (label : String) (e : Error) (w : World)
      → Within w (fail_step deps cluster job {A = A} seq label e w)
  unfolding fail_step
  fail_step-Within A seq label e =
      Within-bind (λ _. stop (wrapped label e)) (λ _ v. Within-refl v) _
        (finish_step-Within deps job.id seq StepStatus.failed (some (message e)))

  pub close_step-Within :
      (seq : ℕ) (label : String) (a : Result Reply) (w : World)
      → Within w (close_step deps cluster job seq label a w)
  unfolding close_step
  close_step-Within seq label (err e) = fail_step-Within Reply seq label e
  close_step-Within seq label (ok reply) =
      Within-bind (λ _. done reply) (λ _ v. Within-refl v) _
        (finish_step-Within deps job.id seq StepStatus.succeeded none)

  perform-Within :
      (seq : ℕ) (name detail label : String) (r : Request) (w : World)
      → Within w (perform deps cluster job seq name detail label r w)
  unfolding perform
  perform-Within seq name detail label r =
      Within-bind _
        (λ _. Within-bind _ (close_step-Within seq label) (send cluster r) (send-Within cluster r))
        _ (step-Within deps job.id seq name StepStatus.running (some (verbatim detail)))

  skip_step-Within :
      (seq : ℕ) (name reason : String) (w : World)
      → Within w (skip_step deps cluster job seq name reason w)
  unfolding skip_step
  skip_step-Within seq name reason =
      step-Within deps job.id seq name StepStatus.skipped (some (verbatim reason))

  await-Within :
      (seq : ℕ) (name detail label : String) (reply : Reply) (w : World)
      → Within w (await deps cluster job seq name detail label reply w)
  unfolding await
  await-Within seq name detail label reply w = elim (Bool-cases reply.is_async) [
    | inl async ↦ elim (Bool-cases (str_eq reply.op_id "")) [
      | inl empty ↦ rw (async, empty) (skip_step-Within seq name "no operation id" w)
      | inr given ↦
          rw (async, given)
            (Within-bind (λ _. done tt) (λ _ v. Within-refl v) _
              (perform-Within seq name detail label _) w)
    ]
    | inr sync ↦ rw sync (skip_step-Within seq name "sync response" w)
  ]

  -- Up to its conclusion a job writes steps only, however it ends.
  pub launch-Within : (params : Params) (w : World) → Within w (launch deps cluster job params w)
  unfolding launch
  launch-Within params =
      Within-bind _
        (λ created.
          Within-bind _
            (λ _.
              Within-bind _
                (λ started. await-Within 3 "wait_start" "等待 boot 完成" "wait start" started) _
                (perform-Within 2 _ _ _ _))
            _ (await-Within 1 _ _ _ created))
        _ (perform-Within 0 _ _ _ _)
