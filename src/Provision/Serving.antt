-- ===== src/Provision/Serving.antt =====
-- Parts of a job that go on, and a cluster that does its part.
use incus.Base.{ℕ, ◌≡◌, refl, ap, ◌∙◌, true, false, Option, none, String, List}
use incus.Models.{ProvisioningJob, StepStatus, Text}
use incus.Store.{Result, ok, M, Outcome, returns, raises}
use incus.Jobs.{append_step}
use incus.Provision.World.{
  Reply, Request, get_instance, Cluster, World, Deps, goes, R, done, best_effort, timed, ◌>>=◌,
  send, step, finish_step, bind-goes,
}
use incus.Provision.VmCreate.{close_step}
use incus.Provision.VmCreate.Frame.{finish_step-goes}
use text.Mathlib.Text.{◌==◌ as str_eq}

-- The metadata parses, and that of an asynchronous reply names its operation.
pub record IsUsable (reply : Reply) : Type 0 where
  pub parses : reply.parses ≡ true
  pub names_operation : reply.is_async ≡ true → str_eq reply.op_id "" ≡ false

abbrev pub Usable : Result Reply → Type 0
Usable a = (reply : Reply) × (a ≡ ok reply) × IsUsable reply

-- Every request is answered, whatever was asked before.
abbrev pub Serves : Cluster → Type 0
Serves cluster = (before : List Request) (r : Request) → Usable (cluster.answers before r)

-- The answer about an instance has its config.
abbrev pub Describes : Cluster → Type 0
Describes cluster =
    (before : List Request) (project name : String) (reply : Reply)
    → cluster.answers before (get_instance project name) ≡ ok reply
    → reply.has_config ≡ true

-- The part goes on from every state, with a value that has the property.
abbrev pub Completes : {A : Type 0} → (A → Type 0) → R A → Type 0
Completes {A} P m = (w : World) → (a : A) × (v : World) × (m w ≡ goes a v) × P a

abbrev pub Any : {A : Type 0} → A → Type 0
Any _ = Unit {0}

pub Completes-bind :
    {A B : Type 0} (P : A → Type 0) (Q : B → Type 0) (m : R A) (f : A → R B)
    → Completes P m
    → ((a : A) → P a → Completes Q (f a))
    → Completes Q (m >>= f)
Completes-bind P Q m f first rest w =
    let (a, v, e, p) = first w in
    let (b, u, h, q) = rest a p v in (b, u, bind-goes m f w v a _ e h, q)

pub Completes-done : {A : Type 0} (P : A → Type 0) (a : A) → P a → Completes P (done a)
Completes-done P a p w = (a, w, refl, p)

pub best_effort-Completes : {A : Type 0} (m : M A) → Completes Any (best_effort m)
best_effort-Completes {A} m w = from_outcome (m w.conn)
  where
    from_outcome :
        (o : Outcome A)
        → (a : Unit {0}) × (v : World) × (best_effort (λ _. o) w ≡ goes a v) × Unit {0}
    from_outcome (returns a c) = (tt, _, refl, tt)
    from_outcome (raises e c) = (tt, _, refl, tt)

module _ (deps : Deps) (cluster : Cluster) (job : ProvisioningJob) (serves : Serves cluster) where
  pub step-Completes :
      (seq : ℕ) (name : String) (s : StepStatus) (d : Option Text)
      → Completes Any (step deps job.id seq name s d)
  unfolding step
  step-Completes seq name s d = best_effort-Completes (timed deps (append_step job.id seq name s d))

  pub finish-Completes :
      (seq : ℕ) (s : StepStatus) (d : Option Text) → Completes Any (finish_step deps job.id seq s d)
  finish-Completes seq s d w =
      let (v, e, _) = finish_step-goes deps job.id seq s d w in (tt, v, e, tt)

  pub send-Completes : (r : Request) → Completes Usable (send cluster r)
  unfolding send
  send-Completes r w = (_, _, refl, serves w.requests r)

  pub close_step-Completes :
      (seq : ℕ) (l : String) (a : Result Reply)
      → Usable a
      → Completes IsUsable (close_step deps cluster job seq l a)
  unfolding close_step
  close_step-Completes seq l a (reply, e, usable) w =
      let (v, h, _) = finish_step-goes deps job.id seq StepStatus.succeeded none w in
      (
        reply,
        v,
        ap (λ x. close_step deps cluster job seq l x w) e
            ∙ bind-goes (finish_step deps job.id seq StepStatus.succeeded none) (λ _. done reply) w
                v tt _ h refl,
        usable,
      )
