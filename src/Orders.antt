-- ===== src/Orders.antt =====
-- The orders table (incus-admin/internal/repository/order.go): creating an order, the status
-- updates, and the payment of an order from the user's balance.
pub mod Pay
pub mod Races
use incus.Base.{
  ℕ, ◌+◌, String, ◌&&◌, not, Bool, true, false, Option, none, some, [], ◌∷◌, if◌then◌else◌, ltb,
  ◌==◌,
}
use incus.Base.Int.{ℤ, ◌-ℤ◌, zero_ℤ, ltb_ℤ}
use incus.Base.Table.{find, update_where, count_where}
use incus.Models.{
  User, Order, Transaction, Invoice, OrderStatus, TxType, Text, paid_order, is_pending,
}
use incus.Store.{
  Tables, M, ok, err, no_rows, foreign_key, already_paid, already_cancelled, bad_order_status,
  insufficient_balance, pure, raise, wrap, statement, insert, ◌>>=◌, ◌>>◌, commit, transaction,
  scan, has_user,
}
use text.Mathlib.Text.{◌==◌ as str_eq}

-- time.Now().AddDate(0, 1, 0): one month later, as the calendar has it.
pub record Calendar : Type 0 where
  pub next_month : ℕ → ℕ

-- COALESCE(currency, 'USD') and the default of `Create`
abbrev or_usd : String → String
or_usd s = if str_eq s "" then "USD" else s

unfoldable pub create : Calendar → ℕ → ℕ → ℕ → ℕ → ℤ → String → M Order
create cal now user_id product_id cluster_id amount currency = wrap "create order" (
    insert λ id t.
      if has_user user_id t
      then (let o : Order = record {
        id = id;
        user_id = user_id;
        product_id = product_id;
        cluster_id = cluster_id;
        status = OrderStatus.pending;
        amount = amount;
        currency = or_usd currency;
        expires_at = some (cal.next_month now);
        created_at = now;
        updated_at = now;
      } in
          ok (o, record t { orders = o ∷ t.orders }))
      else err foreign_key)

-- nil, nil where there is no such row
unfoldable pub get_by_id : ℕ → M (Option Order)
get_by_id id = statement λ t. ok (find Order.id id t.orders, t)

abbrev pub set_status : OrderStatus → ℕ → Order → Order
set_status s now o = record o { status = s; updated_at = now }

unfoldable pub update_status : ℕ → OrderStatus → ℕ → M Unit
update_status id s now =
    statement
      λ t. ok (tt, record t { orders = update_where (λ o. o.id == id) (set_status s now) t.orders })

-- WHERE id = $3 AND user_id = $4 AND status = 'pending'
abbrev pub cancellable : ℕ → ℕ → Order → Bool
cancellable id user_id o = o.id == id && o.user_id == user_id && is_pending o.status

unfoldable pub cancel_if_pending : ℕ → ℕ → ℕ → M Bool
cancel_if_pending id user_id now = statement λ t. ok (
  ltb 0 (count_where (cancellable id user_id) t.orders),
  record t {
    orders = update_where (cancellable id user_id) (set_status OrderStatus.cancelled now) t.orders;
  },
)

-- The refusals of an order that is not pending.
abbrev pub check_pending : OrderStatus → M Unit
check_pending OrderStatus.pending = pure tt
check_pending OrderStatus.paid = raise already_paid
check_pending OrderStatus.active = raise already_paid
check_pending OrderStatus.cancelled = raise already_cancelled
check_pending s = raise (bad_order_status s)

abbrev pub debit : ℤ → ℕ → User → User
debit amount now u = record u { balance = u.balance -ℤ amount; updated_at = now }

abbrev pub payment_of : Order → ℕ → ℕ → ℕ → Transaction
payment_of o order_id now id = record {
  id = id;
  user_id = o.user_id;
  amount = zero_ℤ -ℤ o.amount;
  type = TxType.payment;
  description = paid_order order_id;
  created_by = none;
  created_at = now;
}

abbrev pub invoice_of : Order → ℕ → ℕ → ℕ → Invoice
invoice_of o order_id now id = record {
  id = id;
  order_id = order_id;
  user_id = o.user_id;
  amount = o.amount;
  currency = o.currency;
  status = "paid";
  due_at = some now;
  paid_at = some now;
}

unfoldable pub pay_with_balance : ℕ → ℕ → M Unit
pay_with_balance order_id now = transaction do
  o ← wrap "get order" (statement λ t. scan (find Order.id order_id t.orders) no_rows t)
  check_pending o.status
  u ← wrap "get balance" (statement λ t. scan (find User.id o.user_id t.users) no_rows t)
  if ltb_ℤ u.balance o.amount then raise insufficient_balance else pure tt
  wrap "deduct balance" (
      statement λ t. ok (
        tt,
        record t { users = update_where (λ v. v.id == o.user_id) (debit o.amount now) t.users },
      ))
  wrap "update order" (
      statement λ t. ok (
        tt,
        record t {
          orders = update_where (λ v. v.id == order_id) (set_status OrderStatus.paid now) t.orders;
        },
      ))
  wrap "record transaction" (
      insert λ id t.
        if has_user o.user_id t
        then ok (tt, record t { transactions = payment_of o order_id now id ∷ t.transactions })
        else err foreign_key)
  wrap "create invoice" (
      insert λ id t.
        if has_user o.user_id t
        then ok (tt, record t { invoices = invoice_of o order_id now id ∷ t.invoices })
        else err foreign_key)
  pure (commit tt)
