-- ===== src/Store.antt =====
-- The database behind the repositories (database/sql over PostgreSQL), as the state of a monad.
-- A statement may fail (`fails` says which), an INSERT draws its id from a sequence, and a
-- transaction that does not commit leaves the tables as they were. A transaction is one step:
-- the row locks that the code takes keep its rows from other transactions.
pub mod Rules
pub mod Budget
use incus.Base.{
  ℕ, suc, ◌+◌, String, Bool, true, false, Option, none, some, List, if◌then◌else◌, is_some,
}
use incus.Base.Table.{find}
use incus.Models.{
  User, Order, Transaction, Invoice, Vm, IpAddress, IpPool, Quota, ProvisioningJob,
  ProvisioningJobStep, OrderStatus, Product, SshKey, FloatingIp,
}
pub use incus.Models.{
  Error, unreachable, no_rows, foreign_key, unique, not_found, encryption, already_paid,
  already_cancelled, bad_order_status, insufficient_balance, no_pools, not_queued, no_available_ips,
  invalid_range, invalid_ips, params_missing, cluster_missing, unknown_kind, remote, wrapped,
}

pub data Result {ℓ} (A : Type ℓ) : Type ℓ where
  ok : A → Result A
  err : Error → Result A

pub record Tables : Type 0 where
  pub users : List User
  pub orders : List Order
  pub transactions : List Transaction
  pub invoices : List Invoice
  pub vms : List Vm
  pub ips : List IpAddress
  pub jobs : List ProvisioningJob
  pub steps : List ProvisioningJobStep
  pub pools : List IpPool
  pub quotas : List Quota
  pub products : List Product
  pub ssh_keys : List SshKey
  pub floating_ips : List FloatingIp

-- `tick` counts the statements sent; `serial` is the next id of the sequences.
pub record Conn : Type 0 where
  pub tables : Tables
  pub fails : ℕ → Bool
  pub tick : ℕ
  pub serial : ℕ
  pub locked : ℕ → ℕ → Bool

-- A connection on which no statement fails, and beside which no other holds a lock.
abbrev pub healthy : Tables → ℕ → ℕ → Conn
healthy t tick serial = record {
  tables = t;
  fails = λ _. false;
  tick = tick;
  serial = serial;
  locked = λ _ _. false;
}

-- What a call gives back: its value or its error, and the connection after it.
pub data Outcome (A : Type 0) : Type 0 where
  returns : A → Conn → Outcome A
  raises : Error → Conn → Outcome A

abbrev pub M : Type 0 → Type 0
M A = Conn → Outcome A

abbrev pub conn_of : {A : Type 0} → Outcome A → Conn
conn_of (returns a c) = c
conn_of (raises e c) = c

abbrev pub tables_of : {A : Type 0} → Outcome A → Tables
tables_of (returns a c) = c.tables
tables_of (raises e c) = c.tables

-- `if err == sql.ErrNoRows { return e }`, before any other error is wrapped.
abbrev pub on_no_rows : Error → String → Error → Error
on_no_rows e s no_rows = e
on_no_rows e s other = wrapped s other

-- The connection after a statement that changes no table.
abbrev pub sent : Conn → Conn
sent c = record c { tick = c.tick + 1 }

module _ {A : Type 0} where
  abbrev pub pure : A → M A
  pure a c = returns a c

  abbrev pub raise : Error → M A
  raise e c = raises e c

  abbrev pub map_error : (Error → Error) → M A → M A
  map_error f m c = elim (m c) [ returns a d ↦ returns a d | raises e d ↦ raises (f e) d ]

  -- fmt.Errorf("s: %w", err)
  abbrev pub wrap : String → M A → M A
  wrap s = map_error (wrapped s)

  -- A statement that reads or writes the tables.
  abbrev pub statement : (Tables → Result (A × Tables)) → M A
  statement f c = elim (c.fails c.tick) [
    | true ↦ raises unreachable (sent c)
    | false ↦ elim (f c.tables) [
      | ok (a, t) ↦ returns a (record c { tables = t; tick = c.tick + 1 })
      | err e ↦ raises e (sent c)
    ]
  ]

  -- An INSERT, with the id that the sequence gives.
  abbrev pub insert : (ℕ → Tables → Result (A × Tables)) → M A
  insert f c = elim (c.fails c.tick) [
    | true ↦ raises unreachable (sent c)
    | false ↦ elim (f c.serial c.tables) [
      | ok (a, t) ↦ returns a (record c { tables = t; tick = c.tick + 1; serial = c.serial + 1 })
      | err e ↦ raises e (record c { tick = c.tick + 1; serial = c.serial + 1 })
    ]
  ]

infixl 5 ◌>>=◌ ◌>>◌
abbrev pub ◌>>=◌ : {A B : Type 0} → M A → (A → M B) → M B
◌>>=◌ m f c = elim (m c) [ returns a d ↦ f a d | raises e d ↦ raises e d ]

abbrev pub ◌>>◌ : {A B : Type 0} → M A → M B → M B
m >> k = m >>= λ _. k

-- A call whose error is only logged.
abbrev pub logged : {A : Type 0} → M A → M (Unit {0})
logged m c = elim (m c) [ returns a d ↦ returns tt d | raises e d ↦ returns tt d ]

-- How a transaction's body ends: with tx.Commit(), or with a return before it.
pub data Verdict (A : Type 0) : Type 0 where
  commit : A → Verdict A
  rollback : A → Verdict A

-- tx.Commit(): a commit that fails has not happened.
abbrev pub finish : {A : Type 0} → Tables → Verdict A → M A
finish before (commit a) d = elim (d.fails d.tick) [
  | true ↦ raises unreachable (record d { tables = before; tick = d.tick + 1 })
  | false ↦ returns a (sent d)
]
finish before (rollback a) d = returns a (record d { tables = before })

-- BeginTx, the body, and `defer tx.Rollback()`.
unfoldable pub transaction : {A : Type 0} → M (Verdict A) → M A
transaction body c = elim (c.fails c.tick) [
  | true ↦ raises unreachable (sent c)
  | false ↦ elim (body (sent c)) [
    | returns v d ↦ finish c.tables v d
    | raises e d ↦ raises e (record d { tables = c.tables })
  ]
]

-- Scan of a row that may be missing.
abbrev pub scan : {R : Type 0} → Option R → Error → Tables → Result (R × Tables)
scan none e t = err e
scan (some r) e t = ok (r, t)

-- REFERENCES users(id)
abbrev pub has_user : ℕ → Tables → Bool
has_user i t = is_some (find User.id i t.users)
