-- ===== src/Provision/VmCreate/Run.antt =====
-- What a run of vm.create comes to.
use incus.Base.{
  ℕ, ◌+◌, ◌≤◌, sym, ◌≡◌, ◌⊎◌, inl, inr, refl, ap, ◌∙◌, Bool, true, Option, none, some, List, ◌∷◌,
  String, arith, ◌==◌,
}
use incus.Base.Table.{update_where}
use incus.Models.{ProvisioningJob, OrderStatus}
use incus.Store.{Tables}
use incus.Orders.{set_status}
use incus.Vms.{provisionable, provisioned}
use incus.Store.{Result, ok, err}
use incus.Provision.World.{
  Cluster, Params, Reply, Request, get_instance, World, Deps, Ran, goes, stops, R, ◌>>=◌,
}
use incus.Provision.VmCreate.Frame.{OnlySteps, OnlySteps-trans, Within}
use incus.Provision.VmCreate.Compensation.{Follows, Follows-refl, Follows-trans}

-- The location of a reply.
abbrev pub location_of : Result Reply → String
location_of (ok reply) = reply.location
location_of (err e) = ""

-- The rows of VMs and orders, and the steps, may have changed, and nothing else.
pub record OtherRowsKept (w v : World) : Type 0 where
  pub users : v.conn.tables.users ≡ w.conn.tables.users
  pub transactions : v.conn.tables.transactions ≡ w.conn.tables.transactions
  pub invoices : v.conn.tables.invoices ≡ w.conn.tables.invoices
  pub ips : v.conn.tables.ips ≡ w.conn.tables.ips
  pub jobs : v.conn.tables.jobs ≡ w.conn.tables.jobs
  pub follows : Follows w.conn v.conn

-- The VM's row has the node and the new password, sealed.
abbrev pub VmRecorded : Deps → Option ℕ → String → World → World → Type 0
VmRecorded deps none node w v = v.conn.tables.vms ≡ w.conn.tables.vms
VmRecorded deps (some id) node w v =
    (sealed : String) × (now : ℕ) × (deps.cipher.encrypt deps.new_password ≡ some sealed)
    × (v.conn.tables.vms
        ≡ update_where (provisionable id) (provisioned node sealed now) w.conn.tables.vms)

-- The statement that was followed by `k` more has failed.
abbrev pub FaultBefore : ℕ → World → World → Type 0
FaultBefore k w v =
    (n : ℕ) × (w.conn.tick ≤ n) × (n + 1 + k ≡ v.conn.tick) × (w.conn.fails n ≡ true)

-- The order is active, unless the statement that sets it, with `k` more after it, failed.
abbrev pub OrderActivated : ℕ → Option ℕ → World → World → Type 0
OrderActivated k none w v = v.conn.tables.orders ≡ w.conn.tables.orders
OrderActivated k (some id) w v =
    ((now : ℕ) × (v.conn.tables.orders
        ≡ update_where (λ o. o.id == id) (set_status OrderStatus.active now) w.conn.tables.orders))
    ⊎ ((v.conn.tables.orders ≡ w.conn.tables.orders) × FaultBefore k w v)

-- The node that the cluster named in its answer to the last request of the run, which asked for
-- the instance; the empty string where the request failed.
abbrev pub NodeRead : Cluster → ProvisioningJob → Params → String → World → Type 0
NodeRead cluster job params node v =
    let asked = get_instance params.project job.target_name in
    (before : List Request) × (v.requests ≡ asked ∷ before)
    × (node ≡ location_of (cluster.answers before asked))

pub record IsProvisioned (deps : Deps) (cluster : Cluster) (job : ProvisioningJob) (params : Params)
    (w v : World) : Type 0 where
  pub node : String
  pub node_read : NodeRead cluster job params node v
  pub vm_recorded : VmRecorded deps job.vm_id node w v
  pub order_activated : OrderActivated 2 job.order_id w v
  pub others : OtherRowsKept w v

-- A run with a cluster and parameters; where it returns an error, it has written steps only.
abbrev pub RunOutcome : Deps → Cluster → ProvisioningJob → Params → World → Ran (Unit {0}) → Type 0
RunOutcome deps cluster job params w (stops e v) = OnlySteps w v
RunOutcome deps cluster job params w (goes _ v) = IsProvisioned deps cluster job params w v

-- A run that succeeds had its cluster and its parameters.
abbrev pub RunResult : Deps → ProvisioningJob → World → Ran (Unit {0}) → Type 0
RunResult deps job w (stops e v) = OnlySteps w v
RunResult deps job w (goes _ v) =
    (cluster : Cluster) × (params : Params) × (deps.clusters job.cluster_id ≡ some cluster)
    × (w.params job.id ≡ some params)
    × IsProvisioned deps cluster job params w v

pub OtherRowsKept-refl : (w : World) → OtherRowsKept w w
OtherRowsKept-refl w = record {
  users = refl;
  transactions = refl;
  invoices = refl;
  ips = refl;
  jobs = refl;
  follows = Follows-refl w.conn;
}

pub OtherRowsKept-trans :
    (u v w : World) → OtherRowsKept u v → OtherRowsKept v w → OtherRowsKept u w
OtherRowsKept-trans u v w p q = record {
  users = q.users ∙ p.users;
  transactions = q.transactions ∙ p.transactions;
  invoices = q.invoices ∙ p.invoices;
  ips = q.ips ∙ p.ips;
  jobs = q.jobs ∙ p.jobs;
  follows = Follows-trans u.conn v.conn w.conn p.follows q.follows;
}

pub OnlySteps-OtherRowsKept : (w v : World) → OnlySteps w v → OtherRowsKept w v
OnlySteps-OtherRowsKept w v h = record {
  users = ap Tables.users h.conn.tables;
  transactions = ap Tables.transactions h.conn.tables;
  invoices = ap Tables.invoices h.conn.tables;
  ips = ap Tables.ips h.conn.tables;
  jobs = ap Tables.jobs h.conn.tables;
  follows = h.conn.follows;
}

module _ (deps : Deps) where
  -- The steps written before are nothing to the rows of VMs and orders.
  recorded_after :
      (id : Option ℕ) (node : String) (u w v : World)
      → w.conn.tables.vms ≡ u.conn.tables.vms
      → VmRecorded deps id node w v
      → VmRecorded deps id node u v
  recorded_after none node u w v e h = h ∙ e
  recorded_after (some id) node u w v e (sealed, now, c, h) =
      (sealed, now, c, h ∙ ap (update_where (provisionable id) (provisioned node sealed now)) e)

  pub activated_after :
      (k : ℕ) (id : Option ℕ) (u w v : World)
      → w.conn.tables.orders ≡ u.conn.tables.orders
      → Follows u.conn w.conn
      → OrderActivated k id w v
      → OrderActivated k id u v
  activated_after k none u w v e f h = h ∙ e
  activated_after k (some id) u w v e f (inl (now, h)) =
      inl (now, h ∙ ap (update_where (λ o. o.id == id) (set_status OrderStatus.active now)) e)
  activated_after k (some id) u w v e f (inr (h, (n, from, at, broken))) = inr (
    h ∙ e,
    (n, omega (arith, f.ticks, from), at, ap (λ (g : ℕ → Bool). g n) (sym f.same) ∙ broken),
  )

  module _ (cluster : Cluster) (job : ProvisioningJob) (params : Params) where
    pub RunOutcome-after :
        (u w : World) (r : Ran (Unit {0}))
        → OnlySteps u w
        → RunOutcome deps cluster job params w r
        → RunOutcome deps cluster job params u r
    RunOutcome-after u w (stops e v) p h = OnlySteps-trans u w v p h
    RunOutcome-after u w (goes _ v) p h = record {
      node = h.node;
      node_read = h.node_read;
      vm_recorded =
          recorded_after job.vm_id h.node u w v (ap Tables.vms p.conn.tables) h.vm_recorded;
      order_activated =
          activated_after 2 job.order_id u w v (ap Tables.orders p.conn.tables) p.conn.follows
            h.order_activated;
      others = OtherRowsKept-trans u w v (OnlySteps-OtherRowsKept u w p) h.others;
    }

    module _ {A : Type 0} (f : A → R (Unit {0}))
        (rest : (a : A) (w : World) → RunOutcome deps cluster job params w (f a w)) where
      RunOutcome-then :
          (w : World) (r : Ran A)
          → Within w r
          → RunOutcome deps cluster job params w (((λ _. r) >>= f) w)
      RunOutcome-then w (goes a v) p = RunOutcome-after w v (f a v) p (rest a v)
      RunOutcome-then w (stops e v) p = p

      pub RunOutcome-bind :
          (m : R A)
          → ((w : World) → Within w (m w))
          → (w : World) → RunOutcome deps cluster job params w ((m >>= f) w)
      RunOutcome-bind m first w = RunOutcome-then w (m w) (first w)
