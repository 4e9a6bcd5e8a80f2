-- ===== src/Orders/Races.antt =====
-- Repeated and concurrent attempts to pay and to cancel one order. The row lock and the single
-- UPDATE make each attempt one step, so an interleaving is a sequence of attempts.
use incus.Base.{
  ℕ, ◌≤◌, ◌≡◌, refl, sym, subst, Bool, true, Option, none, some, List, arith, ◌==◌, if◌then◌else◌,
}
use incus.Base.Table.{
  find, find-update_key, find-update_where, IsKeyed, count_where-hits, update_where-IsKeyed,
}
use incus.Models.{Order, OrderStatus, is_pending}
use incus.Store.{Tables, Conn, M, Outcome, returns, raises, ◌>>◌, pure, conn_of}
use incus.Store.Budget.{took, Spends, effects, effects-le}
use incus.Orders.{pay_with_balance, cancel_if_pending, cancellable, set_status}
use incus.Orders.Pay.{paid_tables, pay-returns, pay-raises}

-- What a user may do to the order, again and again: pay it, or cancel it under a user id.
pub data Attempt : Type 0 where
  pays : Attempt
  cancels : ℕ → Attempt

-- An attempt at its time; true if it took effect.
pub attempt : ℕ → ℕ × Attempt → M Bool
attempt id (now, pays) = pay_with_balance id now >> pure true
attempt id (now, cancels user_id) = cancel_if_pending id user_id now

-- 1 while the order can still be paid or cancelled, else 0.
abbrev openings : Option Order → ℕ
openings none = 0
openings (some o) = if is_pending o.status then 1 else 0

abbrev openings_of : ℕ → Tables → ℕ
openings_of id t = openings (find Order.id id t.orders)

abbrev HasKeyedOrders : Tables → Type 0
HasKeyedOrders t = IsKeyed Order.id t.orders

-- An effect uses up the opening, and the primary key holds on.
abbrev SpendsOpening : ℕ → Tables → ℕ → Tables → Type 0
SpendsOpening id = Spends (openings_of id) HasKeyedOrders

pays-Spends :
    (id now : ℕ) (c : Conn) (r : Outcome Unit)
    → pay_with_balance id now c ≡ r
    → IsKeyed Order.id c.tables.orders
    → SpendsOpening id c.tables
        (took (((λ _. r) >> pure true) c))
        (conn_of (((λ _. r) >> pure true) c)).tables
pays-Spends id now c (returns _ d) h keyed =
    let (o, u, eo, p, _, _, e) = pay-returns id now c d h in
    let paid = set_status OrderStatus.paid now in
    let is_it : Order → Bool = λ o. o.id == id in
    subst (λ t. SpendsOpening id c.tables 1 t) (sym e)
      (unfold paid_tables in
        (
          ground (arith, find-update_key Order.id id id paid c.tables.orders (λ r. refl)),
          update_where-IsKeyed Order.id is_it paid c.tables.orders (λ r. refl) keyed,
        ))
pays-Spends id now c (raises e d) h keyed =
    subst (λ t. SpendsOpening id c.tables 0 t) (sym (pay-raises id now c e d h))
      (omega arith, keyed)

cancels-Spends :
    (id user_id now : ℕ) (c : Conn)
    → IsKeyed Order.id c.tables.orders
    → SpendsOpening id c.tables
        (took (cancel_if_pending id user_id now c))
        (conn_of (cancel_if_pending id user_id now c)).tables
unfolding cancel_if_pending
cancels-Spends id user_id now c keyed =
    let cancelled = set_status OrderStatus.cancelled now in
    let asks = cancellable id user_id in
    ground (
      arith,
      find-update_where Order.id id asks cancelled c.tables.orders (λ r. refl),
      update_where-IsKeyed Order.id asks cancelled c.tables.orders (λ r. refl) keyed,
      count_where-hits Order.id id asks c.tables.orders (λ r h. ground arith) keyed,
    )

attempt-Spends :
    (id : ℕ) (a : ℕ × Attempt) (c : Conn)
    → IsKeyed Order.id c.tables.orders
    → SpendsOpening id c.tables (took (attempt id a c)) (conn_of (attempt id a c)).tables
unfolding attempt
attempt-Spends id (now, pays) c keyed = pays-Spends id now c _ refl keyed
attempt-Spends id (now, cancels user_id) c keyed = cancels-Spends id user_id now c keyed

openings_le_one : (o : Option Order) → openings o ≤ 1
openings_le_one o = ground arith

-- However a user's clicks on pay and cancel interleave, and whatever fails, at most one of them
-- takes effect on an order: it is never both charged and cancelled, nor charged twice.
pub one_effect :
    (id : ℕ) (plan : List (ℕ × Attempt)) (c : Conn)
    → IsKeyed Order.id c.tables.orders
    → effects (attempt id) plan c ≤ 1
one_effect id plan c keyed = omega (
  arith,
  effects-le (attempt id) (openings_of id) HasKeyedOrders (attempt-Spends id) plan c keyed,
  openings_le_one (find Order.id id c.tables.orders),
)
