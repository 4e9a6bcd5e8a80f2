-- ===== src/Provision/VmCreate/Activation.antt =====
-- The order of a VM that is up becomes active.
use incus.Base.{ℕ, ◌+◌, ◌≡◌, inl, inr, refl, sym, String, ap, ◌∙◌, Option, none, some, arith, ◌==◌}
use incus.Base.Table.{update_where}
use incus.Models.{ProvisioningJob, OrderStatus}
use incus.Store.{Tables}
use incus.Orders
use incus.Orders.{set_status}
use incus.Provision.World.{Params, World, Deps, Cluster, goes, timed}
use incus.Provision.VmCreate.{activate_order}
use incus.Provision.VmCreate.Compensation.{Change, Tried, best_effort-Tried, single-Tries}
use incus.Provision.VmCreate.Run.{
  OtherRowsKept, VmRecorded, OrderActivated, OtherRowsKept-refl, OnlySteps-OtherRowsKept,
}

-- The activation of the order, and what it leaves alone.
pub record Activation (id : Option ℕ) (w v : World) : Type 0 where
  pub activated : OrderActivated 0 id w v
  pub vms : v.conn.tables.vms ≡ w.conn.tables.vms
  pub others : OtherRowsKept w v
  pub requests : v.requests ≡ w.requests

abbrev activate_change : ℕ → Change
activate_change id now s t = record t {
  orders = update_where (λ o. o.id == id) (set_status OrderStatus.active now) t.orders;
}

Tried-Activation :
    (clock : ℕ → ℕ) (id : ℕ) (w v : World)
    → Tried clock (activate_change id) w v
    → v.conn.tick ≡ w.conn.tick + 1
    → Activation (some id) w v
Tried-Activation clock id w v h tick = elim h.tries [
  | inl (n, s, _, _, made) ↦ record {
    activated = inl (clock n, ap Tables.orders made);
    vms = ap Tables.vms made;
    others = record {
      users = ap Tables.users made;
      transactions = ap Tables.transactions made;
      invoices = ap Tables.invoices made;
      ips = ap Tables.ips made;
      jobs = ap Tables.jobs made;
      follows = h.follows;
    };
    requests = h.requests;
  }
  | inr (same, why) ↦ record {
    activated = elim why [
      | inl (n, from, to, broken) ↦
          inr (ap Tables.orders same, (n, from, omega (arith, from, to, tick), broken))
      | inr idle ↦ inl (0, ap Tables.orders same ∙ sym (ap Tables.orders (idle 0 0 w.conn.tables)))
    ];
    vms = ap Tables.vms same;
    others = OnlySteps-OtherRowsKept w v (record {
      conn = record { tables = ground (arith, same); follows = h.follows };
      params = h.params;
    });
    requests = h.requests;
  }
]

pub OtherRowsKept-params :
    (w v : World) (q : ℕ → Option Params)
    → OtherRowsKept w v
    → OtherRowsKept w (record v { params = q })
OtherRowsKept-params w v q h = record {
  users = h.users;
  transactions = h.transactions;
  invoices = h.invoices;
  ips = h.ips;
  jobs = h.jobs;
  follows = h.follows;
}

pub VmRecorded-then :
    (deps : Deps) (id : Option ℕ) (node : String) (w v u : World)
    → VmRecorded deps id node w v
    → u.conn.tables.vms ≡ v.conn.tables.vms
    → VmRecorded deps id node w u
VmRecorded-then deps none node w v u h e = e ∙ h
VmRecorded-then deps (some id) node w v u (sealed, now, c, h) e = (sealed, now, c, e ∙ h)

-- After `j` more statements.
pub OrderActivated-then :
    (k j : ℕ) (id : Option ℕ) (w v u : World)
    → OrderActivated k id w v
    → u.conn.tables.orders ≡ v.conn.tables.orders
    → u.conn.tick ≡ v.conn.tick + j
    → OrderActivated (k + j) id w u
OrderActivated-then k j none w v u h e t = e ∙ h
OrderActivated-then k j (some id) w v u (inl (now, h)) e t = inl (now, e ∙ h)
OrderActivated-then k j (some id) w v u (inr (h, (n, from, at, broken))) e t =
    inr (e ∙ h, (n, from, omega (arith, at, t), broken))

module _ (deps : Deps) (cluster : Cluster) (job : ProvisioningJob) where
  pub activate-goes :
      (id : Option ℕ) (w : World)
      → (v : World) × (activate_order deps cluster job id w ≡ goes tt v) × Activation id w v
  unfolding activate_order Orders.update_status
  activate-goes none w = (
    w,
    refl,
    record { activated = refl; vms = refl; others = OtherRowsKept-refl w; requests = refl },
  )
  activate-goes (some id) w =
      let m = Orders.update_status id OrderStatus.active in
      let (v, e, h) =
        best_effort-Tried deps.clock (activate_change id) (timed deps m)
          (single-Tries deps.clock (activate_change id) m
            (λ now c. (ground arith, ground arith, ground arith)))
          w in
      (v, e, Tried-Activation deps.clock id w v h (ground (arith, e)))
