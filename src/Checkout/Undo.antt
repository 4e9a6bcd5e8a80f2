-- ===== src/Checkout/Undo.antt =====
-- The roll-back of a payment.
use incus.Base.{ℕ, ◌+◌, ◌≡◌, refl, sym, ap, subst, ◌∙◌, none, some, ◌∷◌, arith, ◌==◌}
use incus.Base.Int.{◌≤ℤ◌, zero_ℤ, ◌+ℤ◌, sub-add_cancel}
use incus.Base.Table.{find, update_where, find-update_key, find-key}
use incus.Models.{User, Order, IpAddress, OrderStatus, Text, TxType, refunded_order}
use incus.Store.{Tables, healthy, Outcome, returns, ◌>>◌, tables_of, transaction}
use incus.Orders
use incus.Orders.{pay_with_balance, set_status, debit}
use incus.Orders.Pay.{paid_tables, pay-completes}
use incus.Users.{adjust_balance, credit, journal}
use incus.Ips.{release, cooled}
use incus.Checkout.{rollback_payment}

-- The tables after the roll-back; `s` is the next id of the sequences.
unfoldable undone_tables : Order → ℕ → Text → ℕ → ℕ → Tables → Tables
undone_tables o ip reason now s t = record t {
  users = update_where (λ v. v.id == o.user_id) (credit o.amount now) t.users;
  transactions =
      journal o.user_id o.amount TxType.refund (refunded_order o.id reason) none now s
      ∷ t.transactions;
  ips = update_where (λ a. a.ip == ip) (cooled now) t.ips;
  orders = update_where (λ v. v.id == o.id) (set_status OrderStatus.cancelled now) t.orders;
}

rollback_payment-completes :
    (o : Order) (ip : ℕ) (reason : Text) (now tick serial : ℕ) (t : Tables) (u : User)
    → find User.id o.user_id t.users ≡ some u
    → zero_ℤ ≤ℤ (u.balance +ℤ o.amount)
    → rollback_payment o (some ip) reason now (healthy t tick serial)
      ≡ returns tt (healthy (undone_tables o ip reason now serial t) (tick + 6) (serial + 1))
unfolding rollback_payment adjust_balance transaction release Orders.update_status undone_tables
rollback_payment-completes o ip reason now tick serial t u eu nonneg = ground (
  arith,
  eu,
  nonneg,
  find-update_key User.id o.user_id o.user_id (credit o.amount now) t.users (λ r. refl),
)

module _ (id now later ip s s' : ℕ) (reason : Text) (t : Tables) (o : Order) where
  payer_restored :
      (u : User)
      → find User.id o.user_id t.users ≡ some u
      → find User.id o.user_id (undone_tables o ip reason later s' (paid_tables id now s o t)).users
        ≡ some (record u { updated_at = later })
  unfolding undone_tables paid_tables
  payer_restored u eu = ground (
    arith,
    eu,
    sub-add_cancel u.balance o.amount,
    find-update_key User.id o.user_id o.user_id (debit o.amount now) t.users (λ r. refl),
    find-update_key User.id o.user_id o.user_id (credit o.amount later)
        (update_where (λ v. v.id == o.user_id) (debit o.amount now) t.users) (λ r. refl),
  )

  order_cancelled :
      find Order.id id t.orders ≡ some o
      → find Order.id id (undone_tables o ip reason later s' (paid_tables id now s o t)).orders
        ≡ some (record o { status = OrderStatus.cancelled; updated_at = later })
  unfolding undone_tables paid_tables
  order_cancelled eo = ground (
    arith,
    eo,
    find-key Order.id id t.orders o eo,
    find-update_key Order.id id id (set_status OrderStatus.paid now) t.orders (λ r. refl),
    find-update_key Order.id id o.id (set_status OrderStatus.cancelled later)
        (update_where (λ v. v.id == id) (set_status OrderStatus.paid now) t.orders) (λ r. refl),
  )

  ip_cooled :
      (a : IpAddress)
      → find IpAddress.ip ip t.ips ≡ some a
      → find IpAddress.ip ip (undone_tables o ip reason later s' (paid_tables id now s o t)).ips
        ≡ some (cooled later a)
  unfolding undone_tables paid_tables
  ip_cooled a ea =
      ground (arith, ea, find-update_key IpAddress.ip ip ip (cooled later) t.ips (λ r. refl))

  payer_charged :
      (u : User)
      → find User.id o.user_id t.users ≡ some u
      → find User.id o.user_id (paid_tables id now s o t).users ≡ some (debit o.amount now u)
  unfolding paid_tables
  payer_charged u eu = ground (
    arith,
    eu,
    find-update_key User.id o.user_id o.user_id (debit o.amount now) t.users (λ r. refl),
  )

-- Where no statement fails, a payment that is rolled back gives the payer the balance of before,
-- cancels the order and puts the address into its cool-down.
pub rollback-undoes_payment :
    (id now later ip tick serial : ℕ) (reason : Text) (t : Tables) (o : Order) (u : User)
    (a : IpAddress)
    → find Order.id id t.orders ≡ some o
    → o.status ≡ OrderStatus.pending
    → find User.id o.user_id t.users ≡ some u
    → o.amount ≤ℤ u.balance
    → zero_ℤ ≤ℤ u.balance
    → find IpAddress.ip ip t.ips ≡ some a
    → (t' : Tables) × (tables_of (
          (pay_with_balance id now >> rollback_payment o (some ip) reason later)
            (healthy t tick serial))
        ≡ t')
      × (find User.id o.user_id t'.users ≡ some (record u { updated_at = later }))
      × (find Order.id id t'.orders
          ≡ some (record o { status = OrderStatus.cancelled; updated_at = later }))
      × (find IpAddress.ip ip t'.ips ≡ some (cooled later a))
rollback-undoes_payment id now later ip tick serial reason t o u a eo p eu f nonneg ea =
    let t1 = paid_tables id now serial o t in
    let paid = pay-completes id now tick serial t o u eo p eu f in
    let undone =
      rollback_payment-completes o ip reason later (tick + 8) (serial + 2) t1 (debit o.amount now u)
        (payer_charged id now later ip serial (serial + 2) reason t o u eu)
        (subst (λ b. zero_ℤ ≤ℤ b) (sym (sub-add_cancel u.balance o.amount)) nonneg) in
    (
      undone_tables o ip reason later (serial + 2) t1,
      ap
            (λ (r : Outcome Unit).
              tables_of
                (((λ _. r) >> rollback_payment o (some ip) reason later) (healthy t tick serial)))
            paid
          ∙ ap (λ (r : Outcome Unit). tables_of r) undone,
      payer_restored id now later ip serial (serial + 2) reason t o u eu,
      order_cancelled id now later ip serial (serial + 2) reason t o eo,
      ip_cooled id now later ip serial (serial + 2) reason t o a ea,
    )
