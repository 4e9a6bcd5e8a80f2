-- ===== src/Payment/Charge.antt =====
-- The charge of a paid order, and what undoing it means.
use incus.Base.{ℕ, ◌≡◌, ◌⊎◌, ◌∙◌, ap, some}
use incus.Base.Int.{◌≤ℤ◌}
use incus.Base.Table.{find}
use incus.Models.{User, Order, OrderStatus}
use incus.Store.{Tables, Conn}
use incus.Orders.{set_status, debit}
use incus.Provision.VmCreate.Compensation.{FaultIn}

-- The order's payer is charged and the order has a status `s`, since the tables `t`.
pub record IsCharged (t : Tables) (o : Order) (s : OrderStatus) (c : Conn) : Type 0 where
  pub pending : o.status ≡ OrderStatus.pending
  pub payer : User
  pub had : find User.id o.user_id t.users ≡ some payer
  pub covered : o.amount ≤ℤ payer.balance
  pub charged :
      (now : ℕ) × (find User.id o.user_id c.tables.users ≡ some (debit o.amount now payer))
  pub placed : (now : ℕ) × (find Order.id o.id c.tables.orders ≡ some (set_status s now o))

pub IsCharged-kept :
    (t : Tables) (o : Order) (s : OrderStatus) (c d : Conn)
    → IsCharged t o s c
    → d.tables.users ≡ c.tables.users
    → d.tables.orders ≡ c.tables.orders
    → IsCharged t o s d
IsCharged-kept t o s c d h users orders =
    let (n, e) = h.charged in
    let (k, f) = h.placed in
    record {
      pending = h.pending;
      payer = h.payer;
      had = h.had;
      covered = h.covered;
      charged = (n, ap (find User.id o.user_id) users ∙ e);
      placed = (k, ap (find Order.id o.id) orders ∙ f);
    }

-- The payer has the balance of before, and the order is cancelled.
pub record IsRestored (t : Tables) (o : Order) (c : Conn) : Type 0 where
  pub balance :
      (u : User) × (now : ℕ) × (find User.id o.user_id t.users ≡ some u)
      × (find User.id o.user_id c.tables.users ≡ some (record u { updated_at = now }))
  pub order :
      (now : ℕ) × (find Order.id o.id c.tables.orders
        ≡ some (set_status OrderStatus.cancelled now o))

-- It is restored, unless a statement since then failed.
abbrev pub Restored : Conn → Order → Conn → Type 0
Restored c o d = FaultIn c d ⊎ IsRestored c.tables o d
