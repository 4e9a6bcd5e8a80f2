-- ===== src/Payment/Owner.antt =====
-- The payment of an order by its owner, up to the choice of a cluster.
use incus.Provision.VmCreate.Run.{FaultBefore}
use incus.Store.{Error}
use incus.Payment.Accepted.{NoProduct}
use incus.Base.{◌+◌, Bool, true, inl, inr}
use incus.Provision.VmCreate.Compensation.{Follows, Follows-trans}
use incus.Base.{
  ℕ, String, ◌≡◌, refl, ◌∙◌, ap, subst, sym, Option, none, some, List, [], ◌∷◌, arith, ◌==◌,
}
use incus.Base.Int.{zero_ℤ, ◌≤ℤ◌}
use incus.Base.Table.{find, update_where, find-update_key}
use incus.Models.{User, Order, OrderStatus, Product}
use incus.Store.{Tables, Conn, ok, err, returns, raises, conn_of, transaction}
use incus.Orders.{set_status, pay_with_balance, debit}
use incus.Orders.Pay.{paid_tables, pay-returns, pay-raises}
use incus.Catalog.{get_product}
use incus.Clusters.{config_by_name}
use incus.Checkout.{allocate_ip, check_quota, get_quota, QuotaRefusal}
use incus.Vms.{list_by_user}
use incus.Provision.World.{World, Deps, timed, ◌>>=◌}
use incus.Provision.VmCreate.{row_or}
use incus.Payment.{
  Portal, PayRequest, with_address, provision, provision_product, choose_client, config_or,
  after_payment, charge, quota_refusal, pay_owned,
}
use incus.Payment.Frame.{KeepsMoney, allocate_ip-Keeps}
use incus.Payment.Charge.{IsCharged}
use incus.Payment.Accepted.{PayResult, Ends, Ends-db}
use incus.Payment.Steps.{Stands, Stands-by, with_address-Ends}

product_keeps :
    (id : ℕ) (c : Conn)
    → KeepsMoney c (conn_of (get_product id c)) × ((conn_of (get_product id c)).tables ≡ c.tables)
unfolding get_product
product_keeps id c = (
  record {
    users = ground arith;
    orders = ground arith;
    follows = record { same = ground arith; ticks = ground arith };
  },
  ground arith,
)

product_row :
    (id : ℕ) (c d : Conn) (row : Option Product)
    → get_product id c ≡ returns row d
    → row ≡ find Product.id id c.tables.products
unfolding get_product
product_row id c d row h = ground arith

product_lost :
    (id : ℕ) (c d : Conn) (e : Error)
    → get_product id c ≡ raises e d
    → (c.fails c.tick ≡ true) × (d.tick ≡ c.tick + 1)
unfolding get_product
product_lost id c d e h = (ground arith, ground arith)

check_quota_keeps :
    (user_id : ℕ) (p : Product) (c : Conn)
    → ((check_quota user_id p c).1.tables ≡ c.tables) × Follows c (check_quota user_id p c).1
unfolding check_quota get_quota list_by_user
check_quota_keeps user_id p c = (ground arith, record { same = ground arith; ticks = ground arith })

pay_follows : (id now : ℕ) (c : Conn) → Follows c (conn_of (pay_with_balance id now c))
unfolding pay_with_balance transaction
pay_follows id now c = record { same = ground arith; ticks = ground arith }

module _ (portal : Portal) (deps : Deps) (request : PayRequest) (o : Order) (w : World)
    (priced : zero_ℤ ≤ℤ o.amount) where
  provision-Ends :
      (p : Product) (clients : List String) (v : World)
      → Stands portal deps request o w priced OrderStatus.paid v.conn
      → (clients ≡ [] → portal.manager.clients ≡ [])
      → Ends (PayResult portal w o) (provision portal deps request o p clients v)
  unfolding provision
  provision-Ends p [] v st none_there = (st.charged, none_there refl)
  provision-Ends p (first ∷ rest) v st none_there =
      let client = choose_client portal.manager first o.cluster_id in
      let cfg = config_or (config_by_name portal.manager client) in
      let kept = allocate_ip-Keeps portal.seed_fuel cfg.ip_pools 0 v.conn in
      Ends-db (PayResult portal w o) (allocate_ip portal.seed_fuel cfg.ip_pools 0)
        (with_address portal deps request o p cfg client) v
        (λ got d h.
          with_address-Ends portal deps request o w priced p cfg client (ok got)
            (record v { conn = d })
            (Stands-by portal deps request o w priced OrderStatus.paid v.conn _ (returns got d) st
              kept h))
        (λ e d h.
          with_address-Ends portal deps request o w priced p cfg client (err e)
            (record v { conn = d })
            (Stands-by portal deps request o w priced OrderStatus.paid v.conn _ (raises e d) st kept
              h))

  provision_product-Ends :
      (row : Option Product) (v : World)
      → Stands portal deps request o w priced OrderStatus.paid v.conn
      → (row ≡ none → NoProduct o w v)
      → Ends (PayResult portal w o) (provision_product portal deps request o row v)
  unfolding provision_product
  provision_product-Ends none v st missing = (st.charged, missing refl)
  provision_product-Ends (some p) v st missing =
      provision-Ends p portal.manager.clients v st (λ e. e)

  product_unread :
      (id : ℕ) (c d : Conn) (e : Error)
      → Follows w.conn c
      → get_product id c ≡ raises e d
      → FaultBefore 0 w (record w { conn = d })
  product_unread id c d e f h =
      let (broken, last) = product_lost id c d e h in
      (c.tick, f.ticks, omega (arith, last), ap (λ (g : ℕ → Bool). g c.tick) (sym f.same) ∙ broken)

  after_payment-Ends :
      (v : World)
      → Stands portal deps request o w priced OrderStatus.paid v.conn
      → v.conn.tables.products ≡ w.conn.tables.products
      → Ends (PayResult portal w o) (after_payment portal deps request o (ok tt) v)
  unfolding after_payment
  after_payment-Ends v st products =
      let (kept, _) = product_keeps o.product_id v.conn in
      Ends-db (PayResult portal w o) (get_product o.product_id) _ v
        (λ row d h.
          provision_product-Ends (row_or (ok row)) (record v { conn = d })
            (Stands-by portal deps request o w priced OrderStatus.paid v.conn _ (returns row d) st
              kept h)
            (λ e. inl (
              ap (find Product.id o.product_id) (sym products)
              ∙ sym (product_row o.product_id v.conn d row h)
              ∙ e)))
        (λ e d h.
          provision_product-Ends (row_or (err e)) (record v { conn = d })
            (Stands-by portal deps request o w priced OrderStatus.paid v.conn _ (raises e d) st kept
              h)
            (λ _. inr (product_unread o.product_id v.conn d e st.follows h)))

  -- The order is there, and nothing has changed but the connection.
  pub record IsSame (v : World) : Type 0 where
    pub tables : v.conn.tables ≡ w.conn.tables
    pub follows : Follows w.conn v.conn

  -- What a payment that returned says of the order `y`.
  abbrev PaidFacts : ℕ → Conn → Conn → Order → Type 0
  PaidFacts now c d y =
      (u : User) × (y.status ≡ OrderStatus.pending)
      × (find User.id y.user_id c.tables.users ≡ some u)
      × (y.amount ≤ℤ u.balance)
      × (d.tables ≡ paid_tables o.id now c.serial y c.tables)

  IsCharged-of :
      (now : ℕ) (c d : Conn)
      → c.tables ≡ w.conn.tables
      → find Order.id o.id w.conn.tables.orders ≡ some o
      → PaidFacts now c d o
      → IsCharged w.conn.tables o OrderStatus.paid d
  unfolding paid_tables
  IsCharged-of now c d same found (u, pending, eu, covered, e) =
      let users : d.tables.users
          ≡ update_where (λ v. v.id == o.user_id) (debit o.amount now) c.tables.users =
        ap Tables.users e in
      let orders : d.tables.orders
          ≡ update_where (λ v. v.id == o.id) (set_status OrderStatus.paid now) c.tables.orders =
        ap Tables.orders e in
      record {
        pending = pending;
        payer = u;
        had = ap (λ t. find User.id o.user_id (Tables.users t)) (sym same) ∙ eu;
        covered = covered;
        charged = (
          now,
          ap (find User.id o.user_id) users
              ∙ ground (
                arith,
                eu,
                find-update_key User.id o.user_id o.user_id (debit o.amount now) c.tables.users
                    (λ r. refl),
              ),
        );
        placed = (
          now,
          ap (find Order.id o.id) orders
              ∙ ground (
                arith,
                found,
                ap (λ t. find Order.id o.id (Tables.orders t)) same,
                find-update_key Order.id o.id o.id (set_status OrderStatus.paid now) c.tables.orders
                    (λ r. refl),
              ),
        );
      }

  Stands-of :
      (now : ℕ) (v : World) (d : Conn)
      → IsSame v
      → find Order.id o.id w.conn.tables.orders ≡ some o
      → pay_with_balance o.id now v.conn ≡ returns tt d
      → Stands portal deps request o w priced OrderStatus.paid d
  Stands-of now v d same found h =
      let (x, u, ex, pending, eu, covered, e) = pay-returns o.id now v.conn d h in
      let same_row : x ≡ o =
        cc (ex, found, ap (λ t. find Order.id o.id (Tables.orders t)) same.tables) in
      record {
        charged =
            IsCharged-of now v.conn d same.tables found
              (subst (PaidFacts now v.conn d) same_row (u, pending, eu, covered, e));
        follows =
            Follows-trans w.conn v.conn d same.follows
              (subst (λ r. Follows v.conn (conn_of r)) h (pay_follows o.id now v.conn));
      }

  paid_products :
      (now : ℕ) (v : World) (d : Conn)
      → IsSame v
      → pay_with_balance o.id now v.conn ≡ returns tt d
      → d.tables.products ≡ w.conn.tables.products
  unfolding paid_tables
  paid_products now v d same h =
      let (x, u, ex, pending, eu, covered, e) = pay-returns o.id now v.conn d h in
      ap Tables.products e ∙ ap Tables.products same.tables

  charge-Ends :
      (refusal : Option QuotaRefusal) (v : World)
      → IsSame v
      → find Order.id o.id w.conn.tables.orders ≡ some o
      → Ends (PayResult portal w o) (charge portal deps request o refusal v)
  unfolding charge after_payment
  charge-Ends (some r) v same found = same.tables
  charge-Ends none v same found =
      Ends-db (PayResult portal w o) (timed deps (pay_with_balance o.id))
        (after_payment portal deps request o) v
        (λ _ d h.
          after_payment-Ends (record v { conn = d }) (Stands-of _ v d same found h)
            (paid_products _ v d same h))
        (λ e d h. pay-raises o.id _ v.conn e d h ∙ same.tables)

  -- With the product that was read, or without.
  quota-Ends :
      (row : Option Product) (v : World)
      → IsSame v
      → find Order.id o.id w.conn.tables.orders ≡ some o
      → Ends
          (PayResult portal w o)
          ((quota_refusal portal deps request o row >>= charge portal deps request o) v)
  quota-Ends none v same found = charge-Ends none v same found
  quota-Ends (some p) v same found =
      let (tables, follows) = check_quota_keeps o.user_id p v.conn in
      charge-Ends (check_quota o.user_id p v.conn).0
        (record v { conn = (check_quota o.user_id p v.conn).1 })
        (record {
          tables = tables ∙ same.tables;
          follows = Follows-trans w.conn v.conn _ same.follows follows;
        })
        found

  pub pay_owned-Ends :
      (v : World)
      → IsSame v
      → find Order.id o.id w.conn.tables.orders ≡ some o
      → Ends (PayResult portal w o) (pay_owned portal deps request o v)
  unfolding pay_owned
  pay_owned-Ends v same found =
      let (kept, tables) = product_keeps o.product_id v.conn in
      Ends-db (PayResult portal w o) (get_product o.product_id) _ v
        (λ row d h.
          quota-Ends (row_or (ok row)) (record v { conn = d })
            (record {
              tables = sym (ap (λ r. Conn.tables (conn_of r)) h) ∙ tables ∙ same.tables;
              follows =
                  Follows-trans w.conn v.conn d same.follows
                    (subst (λ r. Follows v.conn (conn_of r)) h kept.follows);
            })
            found)
        (λ e d h.
          quota-Ends (row_or (err e)) (record v { conn = d })
            (record {
              tables = sym (ap (λ r. Conn.tables (conn_of r)) h) ∙ tables ∙ same.tables;
              follows =
                  Follows-trans w.conn v.conn d same.follows
                    (subst (λ r. Follows v.conn (conn_of r)) h kept.follows);
            })
            found)
