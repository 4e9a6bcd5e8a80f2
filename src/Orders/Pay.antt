-- ===== src/Orders/Pay.antt =====
-- What a payment does.
use incus.Base.{ℕ, ◌+◌, ◌≡◌, ◌≢◌, refl, sym, subst, inl, inr, some, ◌∷◌, arith, ◌==◌, Option-cases}
use incus.Base.Int.{◌≤ℤ◌}
use incus.Base.Table.{find, update_where, find-update_key}
use incus.Models.{User, Order, OrderStatus}
use incus.Store.{Tables, Conn, Error, healthy, Outcome, returns, raises, transaction}
use incus.Store.Rules.{transaction-raises}
use incus.Orders.{pay_with_balance, set_status, debit, payment_of, invoice_of}

-- The tables after order `o`, read under `id`, is paid; `s` is the next id of the sequences.
unfoldable pub paid_tables : ℕ → ℕ → ℕ → Order → Tables → Tables
paid_tables id now s o t = record t {
  users = update_where (λ v. v.id == o.user_id) (debit o.amount now) t.users;
  orders = update_where (λ v. v.id == id) (set_status OrderStatus.paid now) t.orders;
  transactions = payment_of o id now s ∷ t.transactions;
  invoices = invoice_of o id now (s + 1) ∷ t.invoices;
}

pub pay-returns :
    (id now : ℕ) (c d : Conn)
    → pay_with_balance id now c ≡ returns tt d
    → (o : Order) × (u : User) × (find Order.id id c.tables.orders ≡ some o)
      × (o.status ≡ OrderStatus.pending)
      × (find User.id o.user_id c.tables.users ≡ some u)
      × (o.amount ≤ℤ u.balance)
      × (d.tables ≡ paid_tables id now c.serial o c.tables)
unfolding pay_with_balance transaction paid_tables
pay-returns id now c d h = elim (Option-cases (find Order.id id c.tables.orders)) [
  | inl missing ↦ absurd (ground arith)
  | inr (o, eo) ↦ elim (Option-cases (find User.id o.user_id c.tables.users)) [
    | inl missing ↦ absurd (ground arith)
    | inr (u, eu) ↦ (o, u, eo, ground arith, eu, ground arith, ground arith)
  ]
]

-- What a payment that went through has done, in terms of the rows that can be found.
pub record IsSettled (id now : ℕ) (t t' : Tables) (o : Order) (u : User) : Type 0 where
  pub found : find Order.id id t.orders ≡ some o
  pub pending : o.status ≡ OrderStatus.pending
  pub payer : find User.id o.user_id t.users ≡ some u
  pub covered : o.amount ≤ℤ u.balance
  pub paid : find Order.id id t'.orders ≡ some (set_status OrderStatus.paid now o)
  pub charged : find User.id o.user_id t'.users ≡ some (debit o.amount now u)
  pub other_orders : (j : ℕ) → j ≢ id → find Order.id j t'.orders ≡ find Order.id j t.orders
  pub other_users : (j : ℕ) → j ≢ o.user_id → find User.id j t'.users ≡ find User.id j t.users
  pub booked :
      (s : ℕ) × (t'.transactions ≡ payment_of o id now s ∷ t.transactions)
      × (t'.invoices ≡ invoice_of o id now (s + 1) ∷ t.invoices)

paid_tables-IsSettled :
    (id now s : ℕ) (t : Tables) (o : Order) (u : User)
    → find Order.id id t.orders ≡ some o
    → o.status ≡ OrderStatus.pending
    → find User.id o.user_id t.users ≡ some u
    → o.amount ≤ℤ u.balance
    → IsSettled id now t (paid_tables id now s o t) o u
unfolding paid_tables
paid_tables-IsSettled id now s t o u eo p eu f =
    let orders_at = λ (j : ℕ).
      find-update_key Order.id j id (set_status OrderStatus.paid now) t.orders (λ r. refl) in
    let users_at =
      λ (j : ℕ). find-update_key User.id j o.user_id (debit o.amount now) t.users (λ r. refl) in
    record {
      found = eo;
      pending = p;
      payer = eu;
      covered = f;
      paid = ground (arith, orders_at id);
      charged = ground (arith, users_at o.user_id);
      other_orders = λ j ne. ground (arith, orders_at j);
      other_users = λ j ne. ground (arith, users_at j);
      booked = (s, refl, refl);
    }

returns-IsSettled :
    (id now : ℕ) (c d : Conn)
    → pay_with_balance id now c ≡ returns tt d
    → (o : Order) × (u : User) × IsSettled id now c.tables d.tables o u
returns-IsSettled id now c d h =
    let (o, u, eo, p, eu, f, e) = pay-returns id now c d h in
    (
      o,
      u,
      subst (λ t. IsSettled id now c.tables t o u) (sym e)
          (paid_tables-IsSettled id now c.serial c.tables o u eo p eu f),
    )

abbrev pub PayOutcome : ℕ → ℕ → Tables → Outcome Unit → Type 0
PayOutcome id now t (raises e d) = d.tables ≡ t
PayOutcome id now t (returns _ d) = (o : Order) × (u : User) × IsSettled id now t d.tables o u

pub pay-raises :
    (id now : ℕ) (c : Conn) (e : Error) (d : Conn)
    → pay_with_balance id now c ≡ raises e d
    → d.tables ≡ c.tables
unfolding pay_with_balance
pay-raises id now c e d h = transaction-raises _ c e d h

outcome_of_pay :
    (id now : ℕ) (c : Conn) (r : Outcome Unit)
    → pay_with_balance id now c ≡ r
    → PayOutcome id now c.tables r
outcome_of_pay id now c (returns _ d) h = returns-IsSettled id now c d h
outcome_of_pay id now c (raises e d) h = pay-raises id now c e d h

-- Whatever fails, a payment is all or nothing: it reports an error and the tables are as before,
-- or a pending order that the balance covers is now paid, exactly its payer is charged its
-- amount, the payment and a paid invoice are booked, and no other order or user has changed.
pub pay-settles : (id now : ℕ) (c : Conn) → PayOutcome id now c.tables (pay_with_balance id now c)
pay-settles id now c = outcome_of_pay id now c _ refl

-- With a database that answers, a pending order whose payer exists and has the money is paid.
pub pay-completes :
    (id now tick serial : ℕ) (t : Tables) (o : Order) (u : User)
    → find Order.id id t.orders ≡ some o
    → o.status ≡ OrderStatus.pending
    → find User.id o.user_id t.users ≡ some u
    → o.amount ≤ℤ u.balance
    → pay_with_balance id now (healthy t tick serial)
      ≡ returns tt (healthy (paid_tables id now serial o t) (tick + 8) (serial + 2))
unfolding pay_with_balance transaction paid_tables
pay-completes id now tick serial t o u eo p eu f =
    ground
      (arith, find-update_key User.id o.user_id o.user_id (debit o.amount now) t.users (λ r. refl))
