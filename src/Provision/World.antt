-- ===== src/Provision/World.antt =====
-- What a job acts on (incus-admin/internal/service/jobs/runtime.go and executor.go): the database,
-- the parameters that `Enqueue` keeps in memory, and the requests sent to the Incus cluster, whose
-- answers may depend on all requests so far. Progress events and audit rows are left out.
use incus.Base.{ℕ, String, Bool, Option, none, some, List, ◌∷◌, if◌then◌else◌, ◌==◌, ◌≡◌, ap, ◌∙◌}
use incus.Base.Int.{ℤ, pos, ◌-ℤ◌}
use incus.Models.{ProvisioningJob, StepStatus, Text}
use incus.Store.{Conn, Error, Result, ok, err, M, returns, raises}
use incus.Vms.{Cipher}
use incus.Jobs.{append_step, update_step, list_steps}

pub record Params : Type 0 where
  pub project : String
  pub cpu : ℕ
  pub memory_mb : ℕ
  pub disk_gb : ℕ
  pub os_image : String
  pub ssh_keys : List String
  pub ip : Option ℕ
  pub gateway : String
  pub subnet_cidr : String
  pub storage_pool : String
  pub network : String
  pub order_amount : ℤ
  pub image_source : String
  pub server_url : String
  pub protocol : String

-- The requests to the Incus API. An instance is created from its parameters and a password.
pub data Request : Type 0 where
  create_instance : String → Params → String → Request
  recreate_instance : String → Params → String → String → Request
  start_instance : String → String → Request
  stop_instance : String → String → Request
  delete_instance : String → String → Request
  get_instance : String → String → Request
  wait_operation : String → Request

-- The fields of a response that the jobs read; `op_id` and `location` are empty where the metadata
-- does not parse, and `has_config` says whether it has a config that is not null.
pub record Reply : Type 0 where
  pub is_async : Bool
  pub parses : Bool
  pub op_id : String
  pub location : String
  pub has_config : Bool

-- A cluster's client: its answer to a request after the requests before, latest first.
pub record Cluster : Type 0 where
  pub answers : List Request → Request → Result Reply

pub record World : Type 0 where
  pub conn : Conn
  pub params : ℕ → Option Params
  pub requests : List Request

-- What the runtime is given: the clusters by id, the time at each statement, the cipher, and the
-- password that `service.GeneratePassword` draws.
pub record Deps : Type 0 where
  pub clusters : ℕ → Option Cluster
  pub clock : ℕ → ℕ
  pub cipher : Cipher
  pub new_password : String

-- A part of a job: it goes on with a value, or returns an error.
pub data Ran (A : Type 0) : Type 0 where
  goes : A → World → Ran A
  stops : Error → World → Ran A

abbrev pub R : Type 0 → Type 0
R A = World → Ran A

abbrev pub world_of : {A : Type 0} → Ran A → World
world_of (goes a w) = w
world_of (stops e w) = w

module _ {A : Type 0} where
  abbrev pub done : A → R A
  done a w = goes a w

  abbrev pub stop : Error → R A
  stop e w = stops e w

  -- A call of a repository, with its error as a value.
  abbrev pub db : M A → R (Result A)
  db m w = elim (m w.conn) [
    | returns a c ↦ goes (ok a) (record w { conn = c })
    | raises e c ↦ goes (err e) (record w { conn = c })
  ]

  -- A call whose error is only logged.
  abbrev pub best_effort : M A → R (Unit {0})
  best_effort m w = elim (m w.conn) [
    | returns a c ↦ goes tt (record w { conn = c })
    | raises e c ↦ goes tt (record w { conn = c })
  ]

  -- A call with the time of its statement.
  abbrev pub timed : Deps → (ℕ → M A) → M A
  timed deps f c = f (deps.clock c.tick) c

infixl 5 ◌>>=◌ ◌>>◌
abbrev pub ◌>>=◌ : {A B : Type 0} → R A → (A → R B) → R B
◌>>=◌ m f w = elim (m w) [ goes a v ↦ f a v | stops e v ↦ stops e v ]

abbrev pub ◌>>◌ : {A B : Type 0} → R A → R B → R B
m >> k = m >>= λ _. k

-- A part that goes on, and then the rest.
pub bind-goes :
    {A B : Type 0} (m : R A) (f : A → R B) (w v : World) (a : A) (r : Ran B)
    → m w ≡ goes a v
    → f a v ≡ r
    → (m >>= f) w ≡ r
bind-goes m f w v a r e h = ap (λ o. ((λ _. o) >>= f) w) e ∙ h

-- The parameters of all jobs but one.
abbrev pub without : ℕ → (ℕ → Option Params) → ℕ → Option Params
without id params i = if i == id then none else params i

unfoldable pub set_params : ℕ → Params → R (Unit {0})
set_params id p w = goes tt (record w { params = λ i. if i == id then some p else w.params i })

unfoldable pub take_params : ℕ → R (Option Params)
take_params id w = goes (w.params id) (record w { params = without id w.params })

abbrev pub peek_params : ℕ → R (Option Params)
peek_params id w = goes (w.params id) w

-- Sends a request to a cluster.
unfoldable pub send : Cluster → Request → R (Result Reply)
send cluster r w = goes (cluster.answers w.requests r) (record w { requests = r ∷ w.requests })

-- `step` of the runtime
unfoldable pub step : Deps → ℕ → ℕ → String → StepStatus → Option Text → R (Unit {0})
step deps job_id seq name status detail =
    best_effort (timed deps (append_step job_id seq name status detail))

-- `finishStep` of the runtime, with the read that its event takes.
unfoldable pub finish_step : Deps → ℕ → ℕ → StepStatus → Option Text → R (Unit {0})
finish_step deps job_id seq status detail = do
  best_effort (timed deps (update_step job_id seq status detail))
  best_effort (list_steps job_id (pos seq -ℤ pos 1))

-- The work of a job and its compensation.
pub record Executor : Type 0 where
  pub run : ProvisioningJob → R (Unit {0})
  pub rollback : ProvisioningJob → Text → R (Unit {0})
