-- ===== src/Ledger.antt =====
-- The books: every balance is the sum of its user's transactions, over the calls that move money
-- (PayWithBalance, AdjustBalance, TopUpWithDailyCap and RefundOnce of
-- incus-admin/internal/repository).
use incus.Base.{
  ℕ, ◌≡◌, refl, sym, ap, subst, ◌∙◌, Bool, true, false, Option, none, some, List, [], ◌∷◌, arith,
  ◌==◌, Bool-cases, Option-cases, inl, inr, if◌then◌else◌,
}
use incus.Base.Int.{ℤ, ◌+ℤ◌, zero_ℤ, int_laws, add-neg}
use incus.Base.Table.{find, update_where, find-update_key}
use incus.Models.{User, Transaction, Text, TxType}
use incus.Store.{Tables, Conn, Outcome, returns, raises, conn_of, transaction}
use incus.Store.Rules.{transaction-raises}
use incus.Orders.{pay_with_balance, debit, payment_of}
use incus.Orders.Pay.{pay-returns, pay-raises, paid_tables}
use incus.Users.{adjust_balance, top_up_with_daily_cap, TopUp, credit, journal}
use incus.Users.Cap.{TopUpOutcome, Capped, top_up_capped}
use incus.Jobs.Refund.{Claim, claim, RefundOutcome, refund_tables, claim-settles}

-- SUM(amount) WHERE user_id = $1
unfoldable pub booked : ℕ → List Transaction → ℤ
booked i [] = zero_ℤ
booked i (x ∷ rest) = (if x.user_id == i then x.amount else zero_ℤ) +ℤ booked i rest

-- Each balance is what the user had at the opening of the books and what was booked since.
abbrev pub IsBalanced : (ℕ → ℤ) → Tables → Type 0
IsBalanced opening t =
    (i : ℕ) (u : User)
    → find User.id i t.users ≡ some u
    → u.balance ≡ opening i +ℤ booked i t.transactions

-- The calls that move money, each at its time.
pub data MoneyCall : Type 0 where
  pays_order : ℕ → ℕ → MoneyCall
  adjusts : ℕ → ℤ → TxType → Text → Option ℕ → ℕ → MoneyCall
  tops_up : ℕ → ℤ → Text → Option ℕ → ℕ → ℤ → ℕ → MoneyCall
  refunds : ℕ → Claim → MoneyCall

pub money_call : MoneyCall → Conn → Conn
money_call (pays_order id now) c = conn_of (pay_with_balance id now c)
money_call (adjusts user_id amount type description by now) c =
    conn_of (adjust_balance user_id amount type description by now c)
money_call (tops_up user_id amount description by window cap now) c =
    conn_of (top_up_with_daily_cap user_id amount description by window cap now c)
money_call (refunds job_id r) c = conn_of (claim job_id r c)

swap : (o s a : ℤ) → o +ℤ s +ℤ a ≡ o +ℤ (a +ℤ s)
swap o s a = omega int_laws

shift : (b o s a : ℤ) → b ≡ o +ℤ s → b +ℤ a ≡ o +ℤ (a +ℤ s)
shift b o s a e = ap (λ x. x +ℤ a) e ∙ swap o s a

zero_add : (s : ℤ) → zero_ℤ +ℤ s ≡ s
zero_add s = omega int_laws

booked-other :
    (i : ℕ) (x : Transaction) (xs : List Transaction)
    → (x.user_id == i) ≡ false
    → booked i (x ∷ xs) ≡ booked i xs
unfolding booked
booked-other i x xs differs = ground (arith, differs, zero_add (booked i xs))

booked-own :
    (i : ℕ) (x : Transaction) (xs : List Transaction)
    → (x.user_id == i) ≡ true
    → booked i (x ∷ xs) ≡ x.amount +ℤ booked i xs
unfolding booked
booked-own i x xs same = ground (arith, same)

-- The calls one after the other.
pub money_calls : List MoneyCall → Conn → Conn
money_calls [] c = c
money_calls (x ∷ rest) c = money_calls rest (money_call x c)

-- The rows of a user are changed by `f`, and one transaction is booked for that user.
IsBalanced-booking :
    (opening : ℕ → ℤ) (k : ℕ) (f : User → User) (x : Transaction) (t t' : Tables)
    → ((u : User) → (f u).id ≡ u.id)
    → ((u : User) → (f u).balance ≡ u.balance +ℤ x.amount)
    → x.user_id ≡ k
    → t'.users ≡ update_where (λ u. u.id == k) f t.users
    → t'.transactions ≡ x ∷ t.transactions
    → IsBalanced opening t
    → IsBalanced opening t'
IsBalanced-booking opening k f x t t' keeps adds owner users booking balanced i u found =
    let at = find-update_key User.id i k f t.users keeps in
    let found' = sym at ∙ ap (find User.id i) (sym users) ∙ found in
    subst (λ xs. u.balance ≡ opening i +ℤ booked i xs) (sym booking)
      (elim (Bool-cases (i == k)) [
        | inr differs ↦
            let other : (x.user_id == i) ≡ false = ground arith in
            let old : find User.id i t.users ≡ some u = ground (arith, found') in
            balanced i u old
            ∙ ap (λ b. opening i +ℤ b) (sym (booked-other i x t.transactions other))
        | inl same ↦ elim (Option-cases (find User.id i t.users)) [
          | inl missing ↦ absurd (ground (arith, found'))
          | inr (v, e) ↦
              let own : (x.user_id == i) ≡ true = ground arith in
              let now : u ≡ f v = ground (arith, found') in
              ap User.balance now
              ∙ adds v
              ∙ shift v.balance (opening i) (booked i t.transactions) x.amount (balanced i v e)
              ∙ ap (λ b. opening i +ℤ b) (sym (booked-own i x t.transactions own))
        ]
      ])

adjust-returns :
    (user_id : ℕ) (amount : ℤ) (type : TxType) (d : Text) (by : Option ℕ) (now : ℕ) (c c' : Conn)
    → adjust_balance user_id amount type d by now c ≡ returns tt c'
    → (c'.tables.users ≡ update_where (λ u. u.id == user_id) (credit amount now) c.tables.users)
      × (c'.tables.transactions
          ≡ journal user_id amount type d by now c.serial ∷ c.tables.transactions)
unfolding adjust_balance transaction
adjust-returns user_id amount type d by now c c' h = (ground arith, ground arith)

module _ (opening : ℕ → ℤ) where
  IsBalanced-same : (t t' : Tables) → t' ≡ t → IsBalanced opening t → IsBalanced opening t'
  IsBalanced-same t t' e h = subst (IsBalanced opening) (sym e) h

  pay_of :
      (id now : ℕ) (c : Conn) (r : Outcome Unit)
      → pay_with_balance id now c ≡ r
      → IsBalanced opening c.tables
      → IsBalanced opening (conn_of r).tables
  pay_of id now c (raises e d) h b = IsBalanced-same c.tables d.tables (pay-raises id now c e d h) b
  pay_of id now c (returns _ d) h b =
      let (o, u, _, _, _, _, e) = pay-returns id now c d h in
      unfold paid_tables in
      IsBalanced-booking opening o.user_id (debit o.amount now) (payment_of o id now c.serial)
        c.tables d.tables (λ v. refl) (λ v. sym (add-neg v.balance o.amount)) refl
        (ap Tables.users e) (ap Tables.transactions e) b

  adjust_of :
      (user_id : ℕ) (amount : ℤ) (type : TxType) (x : Text) (by : Option ℕ) (now : ℕ) (c : Conn)
      (r : Outcome Unit)
      → adjust_balance user_id amount type x by now c ≡ r
      → IsBalanced opening c.tables
      → IsBalanced opening (conn_of r).tables
  adjust_of user_id amount type x by now c (raises e d) h b =
      IsBalanced-same c.tables d.tables (unfold adjust_balance in transaction-raises _ c e d h) b
  adjust_of user_id amount type x by now c (returns _ d) h b =
      let (users, booking) = adjust-returns user_id amount type x by now c d h in
      IsBalanced-booking opening user_id (credit amount now)
        (journal user_id amount type x by now c.serial) c.tables d.tables (λ v. refl) (λ v. refl)
        refl users booking b

  topped_of :
      (user_id : ℕ) (amount : ℤ) (x : Text) (by : Option ℕ) (window : ℕ) (cap : ℤ) (now s : ℕ)
      (t t' : Tables) (done : Bool)
      → Capped user_id amount x by window cap now s t t' done
      → IsBalanced opening t
      → IsBalanced opening t'
  topped_of user_id amount x by window cap now s t t' true (_, booking, users) b =
      IsBalanced-booking opening user_id (credit amount now)
        (journal user_id amount TxType.deposit x by now s) t t' (λ v. refl) (λ v. refl) refl users
        booking b
  topped_of user_id amount x by window cap now s t t' false (_, same) b =
      IsBalanced-same t t' same b

  top_up_of :
      (user_id : ℕ) (amount : ℤ) (x : Text) (by : Option ℕ) (window : ℕ) (cap : ℤ) (now s : ℕ)
      (t : Tables) (r : Outcome TopUp)
      → TopUpOutcome user_id amount x by window cap now s t r
      → IsBalanced opening t
      → IsBalanced opening (conn_of r).tables
  top_up_of user_id amount x by window cap now s t (raises e d) same b =
      IsBalanced-same t d.tables same b
  top_up_of user_id amount x by window cap now s t (returns r d) (_, h) b =
      topped_of user_id amount x by window cap now s t d.tables r.done h b

  refund_of :
      (id : ℕ) (r : Claim) (s : ℕ) (t : Tables) (o : Outcome Bool)
      → RefundOutcome id r s t o
      → IsBalanced opening t
      → IsBalanced opening (conn_of o).tables
  refund_of id r s t (raises e d) same b = IsBalanced-same t d.tables same b
  refund_of id r s t (returns false d) same b = IsBalanced-same t d.tables same b
  refund_of id r s t (returns true d) (_, e) b =
      unfold refund_tables in
      IsBalanced-booking opening r.user_id (credit r.amount r.now)
        (journal r.user_id r.amount TxType.refund r.description none r.now s) t d.tables (λ v. refl)
        (λ v. refl) refl (ap Tables.users e) (ap Tables.transactions e) b

  money_call-IsBalanced :
      (x : MoneyCall) (c : Conn)
      → IsBalanced opening c.tables
      → IsBalanced opening (money_call x c).tables
  unfolding money_call
  money_call-IsBalanced (pays_order id now) c b = pay_of id now c _ refl b
  money_call-IsBalanced (adjusts user_id amount type x by now) c b =
      adjust_of user_id amount type x by now c _ refl b
  money_call-IsBalanced (tops_up user_id amount x by window cap now) c b =
      top_up_of user_id amount x by window cap now c.serial c.tables _
        (top_up_capped user_id amount x by window cap now c) b
  money_call-IsBalanced (refunds id r) c b =
      refund_of id r c.serial c.tables _ (claim-settles id r c) b

  -- Whatever fails, the books stay balanced: where each balance is what its user had at the opening
  -- and the sum of the user's transactions since, it still is after any payments, adjustments,
  -- top-ups and refunds, in any order.
  pub money_calls-IsBalanced :
      (xs : List MoneyCall) (c : Conn)
      → IsBalanced opening c.tables
      → IsBalanced opening (money_calls xs c).tables
  unfolding money_calls
  money_calls-IsBalanced [] c b = b
  money_calls-IsBalanced (x ∷ rest) c b =
      money_calls-IsBalanced rest (money_call x c) (money_call-IsBalanced x c b)
