-- ===== src/Users.antt =====
-- Balances and their journal (incus-admin/internal/repository/user.go): adjustments by an
-- administrator, and top-ups under a cap on the deposits of a sliding window.
pub mod Cap
use incus.Base.{
  ℕ, ◌-◌, String, Bool, true, false, ◌&&◌, Option, none, some, List, [], ◌∷◌, if◌then◌else◌, leb,
  ◌==◌, ltb,
}
use incus.Base.Int.{ℤ, ◌+ℤ◌, zero_ℤ, ltb_ℤ}
use incus.Base.Table.{find, update_where}
use incus.Models.{User, Transaction, TxType, Text, is_deposit}
use incus.Store.{
  Tables, Result, M, ok, err, no_rows, foreign_key, not_found, insufficient_balance, pure, raise,
  wrap, map_error, on_no_rows, statement, insert, ◌>>=◌, ◌>>◌, commit, rollback, transaction, scan,
  has_user,
}

abbrev pub credit : ℤ → ℕ → User → User
credit amount now u = record u { balance = u.balance +ℤ amount; updated_at = now }

-- UPDATE users SET balance = balance + $1 WHERE id = $3 RETURNING balance
abbrev pub add_balance : ℕ → ℤ → ℕ → Tables → Result (ℤ × Tables)
add_balance user_id amount now t = elim (find User.id user_id t.users) [
  | none ↦ err no_rows
  | some u ↦ ok (
    u.balance +ℤ amount,
    record t { users = update_where (λ v. v.id == user_id) (credit amount now) t.users },
  )
]

abbrev pub journal : ℕ → ℤ → TxType → Text → Option ℕ → ℕ → ℕ → Transaction
journal user_id amount type description created_by now id = record {
  id = id;
  user_id = user_id;
  amount = amount;
  type = type;
  description = description;
  created_by = created_by;
  created_at = now;
}

-- created_by REFERENCES users(id), or NULL
abbrev pub has_author : Option ℕ → Tables → Bool
has_author none t = true
has_author (some i) t = has_user i t

-- INSERT INTO transactions
abbrev pub record_transaction : ℕ → ℤ → TxType → Text → Option ℕ → ℕ → M (Unit {0})
record_transaction user_id amount type description created_by now = wrap "record transaction" (
    insert λ id t.
      if has_user user_id t && has_author created_by t
      then ok (
        tt,
        record t {
          transactions = journal user_id amount type description created_by now id ∷ t.transactions;
        },
      )
      else err foreign_key)

unfoldable pub adjust_balance : ℕ → ℤ → TxType → Text → Option ℕ → ℕ → M (Unit {0})
adjust_balance user_id amount type description created_by now = transaction do
  new_balance ← wrap "adjust balance" (statement (add_balance user_id amount now))
  if ltb_ℤ new_balance zero_ℤ then raise insufficient_balance else pure tt
  record_transaction user_id amount type description created_by now
  pure (commit tt)

-- SUM(amount) WHERE user_id = $1 AND type = 'deposit' AND created_at >= $2
unfoldable pub deposits_since : ℕ → ℕ → List Transaction → ℤ
deposits_since user_id since [] = zero_ℤ
deposits_since user_id since (x ∷ xs) =
    (if x.user_id == user_id && is_deposit x.type && leb since x.created_at
      then x.amount
      else zero_ℤ)
    +ℤ deposits_since user_id since xs

unfoldable pub sum_deposits_since : ℕ → ℕ → M ℤ
sum_deposits_since user_id since =
    statement λ t. ok (deposits_since user_id since t.transactions, t)

-- The results of `TopUpWithDailyCap`; `done` is its `ok`.
pub record TopUp : Type 0 where
  pub used : ℤ
  pub new_balance : ℤ
  pub done : Bool

-- The rest of a top-up within the cap, once the deposits so far are known.
abbrev pub top_up_within : ℕ → ℤ → Text → Option ℕ → ℕ → ℤ → M TopUp
top_up_within user_id amount description created_by now used = do
  new_balance ← wrap "update balance" (statement (add_balance user_id amount now))
  record_transaction user_id amount TxType.deposit description created_by now
  pure (record { used = used; new_balance = new_balance; done = true })

unfoldable pub top_up_with_daily_cap : ℕ → ℤ → Text → Option ℕ → ℕ → ℤ → ℕ → M TopUp
top_up_with_daily_cap user_id amount description created_by window daily_cap now = transaction do
  map_error (on_no_rows not_found "lock user")
      (statement λ t. scan (find User.id user_id t.users) no_rows t)
  used ←
      wrap "sum deposits"
        (statement λ t. ok (deposits_since user_id (now - window) t.transactions, t))
  if ltb_ℤ daily_cap (used +ℤ amount)
      then pure (rollback (record { used = used; new_balance = zero_ℤ; done = false }))
      else do r ← top_up_within user_id amount description created_by now used; pure (commit r)

unfoldable pub update_role : ℕ → String → ℕ → M (Unit {0})
update_role id role now = statement λ t. ok (
  tt,
  record t {
    users =
        update_where (λ u. u.id == id) (λ u. record u { role = role; updated_at = now }) t.users;
  },
)

unfoldable pub set_step_up_auth_at : ℕ → ℕ → ℕ → M (Unit {0})
set_step_up_auth_at user_id at now = wrap "set stepup auth at" (
    statement λ t. ok (
      tt,
      record t {
        users =
            update_where (λ u. u.id == user_id)
              (λ u. record u { stepup_auth_at = some at; updated_at = now }) t.users;
      },
    ))

-- No row and a NULL column both read as none.
unfoldable pub get_step_up_auth_at : ℕ → M (Option ℕ)
get_step_up_auth_at user_id = wrap "get stepup auth at" (
    statement
      λ t. ok (elim (find User.id user_id t.users) [ none ↦ none | some u ↦ u.stepup_auth_at ], t))
