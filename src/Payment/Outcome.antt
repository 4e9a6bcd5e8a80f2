-- ===== src/Payment/Outcome.antt =====
-- What a payment in the portal comes to.
use incus.Base.{◌⊎◌, inl, inr, false, true, ◌+◌, none}
use incus.Provision.VmCreate.Run.{FaultBefore}
use incus.Provision.VmCreate.Compensation.{Follows}
use incus.Base.{ℕ, ◌≡◌, inl, inr, subst, sym, Option, none, some, arith, Bool-cases, ◌==◌, eqb→eq}
use incus.Base.Int.{zero_ℤ, ◌≤ℤ◌}
use incus.Base.Table.{find, find-key}
use incus.Models.{Order}
use incus.Store.{Conn, Error, ok, returns, raises}
use incus.Orders
use incus.Orders.{set_status, pay_with_balance, debit}
use incus.Checkout.{owned_by}
use incus.Provision.World.{World, Deps, Ran, goes, stops}
use incus.Provision.VmCreate.{row_or}
use incus.Payment.{
  Portal, PayRequest, PayAnswer, order_not_found, quota_exceeded, payment_refused, paid_no_product,
  paid_no_cluster, refunded, accepted, pay_owned, pay_found, pay,
}
use incus.Payment.Accepted.{PayResult, Ends, Ends-db}
use incus.Payment.Owner.{pay_owned-Ends}

-- The order that was asked for, its owner, and what the answer means.
abbrev pub ForOwner : Portal → ℕ → ℕ → World → PayAnswer → World → Type 0
ForOwner portal order_id user_id w a v =
    (o : Order) × (find Order.id order_id w.conn.tables.orders ≡ some o)
    × (o.user_id ≡ user_id)
    × PayResult portal w o a v

-- The order has no row, or it is another user's, or the only statement failed.
abbrev pub NotFound : ℕ → ℕ → World → World → Type 0
NotFound order_id user_id w v =
    (find Order.id order_id w.conn.tables.orders ≡ none)
    ⊎ ((o : Order) × (find Order.id order_id w.conn.tables.orders ≡ some o)
        × ((o.user_id == user_id) ≡ false))
    ⊎ FaultBefore 0 w v

abbrev pub PayOutcome : Portal → ℕ → ℕ → World → PayAnswer → World → Type 0
PayOutcome portal order_id user_id w order_not_found v =
    (v.conn.tables ≡ w.conn.tables) × NotFound order_id user_id w v
PayOutcome portal order_id user_id w (quota_exceeded r) v =
    ForOwner portal order_id user_id w (quota_exceeded r) v
PayOutcome portal order_id user_id w (payment_refused e) v =
    ForOwner portal order_id user_id w (payment_refused e) v
PayOutcome portal order_id user_id w paid_no_product v =
    ForOwner portal order_id user_id w paid_no_product v
PayOutcome portal order_id user_id w paid_no_cluster v =
    ForOwner portal order_id user_id w paid_no_cluster v
PayOutcome portal order_id user_id w (refunded s) v =
    ForOwner portal order_id user_id w (refunded s) v
PayOutcome portal order_id user_id w (accepted job vm) v =
    ForOwner portal order_id user_id w (accepted job vm) v

module _ (order_id user_id : ℕ) (w : World) where
  PayOutcome-of :
      (portal : Portal) (o : Order)
      → find Order.id order_id w.conn.tables.orders ≡ some o
      → o.user_id ≡ user_id
      → (r : Ran PayAnswer) → Ends (PayResult portal w o) r
      → Ends (PayOutcome portal order_id user_id w) r
  PayOutcome-of portal o found owner (goes order_not_found v) h = absurd h
  PayOutcome-of portal o found owner (goes (quota_exceeded r) v) h = (o, found, owner, h)
  PayOutcome-of portal o found owner (goes (payment_refused e) v) h = (o, found, owner, h)
  PayOutcome-of portal o found owner (goes paid_no_product v) h = (o, found, owner, h)
  PayOutcome-of portal o found owner (goes paid_no_cluster v) h = (o, found, owner, h)
  PayOutcome-of portal o found owner (goes (refunded s) v) h = (o, found, owner, h)
  PayOutcome-of portal o found owner (goes (accepted job vm) v) h = (o, found, owner, h)
  PayOutcome-of portal o found owner (stops e v) h = h

  order_read :
      (row : Option Order) (c d : Conn)
      → Orders.get_by_id order_id c ≡ returns row d
      → (row ≡ find Order.id order_id c.tables.orders) × (d.tables ≡ c.tables) × Follows c d
  unfolding Orders.get_by_id
  order_read row c d h =
      (ground arith, ground arith, record { same = ground arith; ticks = ground arith })

  order_not_read :
      (c d : Conn) (e : Error)
      → Orders.get_by_id order_id c ≡ raises e d
      → (d.tables ≡ c.tables) × (d.tick ≡ c.tick + 1) × (c.fails c.tick ≡ true)
  unfolding Orders.get_by_id
  order_not_read c d e h = (ground arith, ground arith, ground arith)

  module _ (portal : Portal) (deps : Deps) (request : PayRequest) where
    owned-Ends :
        (row : Option Order) (v : World)
        → ((o : Order) → find Order.id order_id w.conn.tables.orders ≡ some o → zero_ℤ ≤ℤ o.amount)
        → row ≡ find Order.id order_id w.conn.tables.orders
        → v.conn.tables ≡ w.conn.tables
        → Follows w.conn v.conn
        → Ends
            (PayOutcome portal order_id user_id w)
            (pay_found portal deps request (owned_by user_id row) v)
    owned-Ends none v priced read tables follows = (tables, inl (sym read))
    owned-Ends (some o) v priced read tables follows = elim (Bool-cases (o.user_id == user_id)) [
      | inl owner ↦
          let found : find Order.id order_id w.conn.tables.orders ≡ some o = sym read in
          let key = find-key Order.id order_id w.conn.tables.orders o found in
          rw owner (
            PayOutcome-of portal o found (eqb→eq _ _ owner) (pay_owned portal deps request o v) (
              pay_owned-Ends portal deps request o w (priced o found) v
                (record { tables = tables; follows = follows })
                (subst (λ i. find Order.id i w.conn.tables.orders ≡ some o) (sym key) found)))
      | inr stranger ↦ rw stranger (tables, inr (inl (o, sym read, stranger)))
    ]

    pub pay-PayOutcome :
        ((o : Order) → find Order.id order_id w.conn.tables.orders ≡ some o → zero_ℤ ≤ℤ o.amount)
        → Ends (PayOutcome portal order_id user_id w) (pay portal deps request order_id user_id w)
    unfolding pay
    pay-PayOutcome priced =
        Ends-db (PayOutcome portal order_id user_id w) (Orders.get_by_id order_id) _ w
          (λ row d h.
            let (read, tables, follows) = order_read row w.conn d h in
            owned-Ends (row_or (ok row)) (record w { conn = d }) priced read tables follows)
          (λ e d h.
            let (same, last, broken) = order_not_read w.conn d e h in
            (same, inr (inr (w.conn.tick, omega arith, omega (arith, last), broken))))
