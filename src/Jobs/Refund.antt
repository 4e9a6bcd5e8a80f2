-- ===== src/Jobs/Refund.antt =====
-- A refund is all or nothing, and a job is refunded once.
use incus.Base.{
  ℕ, ◌≤◌, ◌<◌, ◌≡◌, refl, sym, subst, Bool, true, false, Option, none, some, List, ◌∷◌, arith,
  is_some, ◌==◌, if◌then◌else◌,
}
use incus.Base.Int.{ℤ}
use incus.Base.Table.{
  find, update_where, count_where, find-update_where, IsKeyed, count_where-hits,
  update_where-IsKeyed,
}
use incus.Models.{ProvisioningJob, Text, TxType}
use incus.Store.{Tables, Conn, Error, M, Outcome, returns, raises, transaction, conn_of}
use incus.Store.Rules.{transaction-raises}
use incus.Store.Budget.{took, Spends, effects, effects-le}
use incus.Users.{credit, journal}
use incus.Jobs.{refund_once, refundable, refunded}

-- The tables after the refund of job `id` to the user.
unfoldable pub refund_tables : ℕ → ℕ → ℤ → Text → ℕ → ℕ → Tables → Tables
refund_tables id user_id amount desc now s t = record t {
  users = update_where (λ u. u.id == user_id) (credit amount now) t.users;
  transactions = journal user_id amount TxType.refund desc none now s ∷ t.transactions;
  jobs = update_where (refundable id) (refunded now) t.jobs;
}

module _ (id user_id : ℕ) (amount : ℤ) (desc : Text) (now : ℕ) where
  pub refund-true :
      (c d : Conn)
      → refund_once id user_id amount desc now c ≡ returns true d
      → (0 < count_where (refundable id) c.tables.jobs)
        × (d.tables ≡ refund_tables id user_id amount desc now c.serial c.tables)
  unfolding refund_once transaction refund_tables
  refund-true c d h = (ground arith, ground arith)

  pub refund-false :
      (c d : Conn)
      → refund_once id user_id amount desc now c ≡ returns false d
      → d.tables ≡ c.tables
  unfolding refund_once transaction
  refund-false c d h = ground arith

  pub refund-raises :
      (c d : Conn) (e : Error)
      → refund_once id user_id amount desc now c ≡ raises e d
      → d.tables ≡ c.tables
  unfolding refund_once
  refund-raises c d e h = transaction-raises _ c e d h

-- 1 while the job has not been refunded, else 0.
abbrev unrefunded : Option ProvisioningJob → ℕ
unrefunded none = 0
unrefunded (some j) = if is_some j.refund_done_at then 0 else 1

abbrev pub unrefunded_of : ℕ → Tables → ℕ
unrefunded_of id t = unrefunded (find ProvisioningJob.id id t.jobs)

abbrev pub HasKeyedJobs : Tables → Type 0
HasKeyedJobs t = IsKeyed ProvisioningJob.id t.jobs

-- One call of `RefundOnce` on the job: to whom, how much, why and when.
pub record Claim : Type 0 where
  pub user_id : ℕ
  pub amount : ℤ
  pub description : Text
  pub now : ℕ

pub claim : ℕ → Claim → M Bool
claim id r = refund_once id r.user_id r.amount r.description r.now

abbrev pub RefundOutcome : ℕ → Claim → ℕ → Tables → Outcome Bool → Type 0
RefundOutcome id r s t (raises e d) = d.tables ≡ t
RefundOutcome id r s t (returns false d) = d.tables ≡ t
RefundOutcome id r s t (returns true d) =
    (0 < count_where (refundable id) t.jobs)
    × (d.tables ≡ refund_tables id r.user_id r.amount r.description r.now s t)

outcome_of_claim :
    (id : ℕ) (r : Claim) (c : Conn) (o : Outcome Bool)
    → claim id r c ≡ o
    → RefundOutcome id r c.serial c.tables o
unfolding claim
outcome_of_claim id r c (returns true d) h =
    refund-true id r.user_id r.amount r.description r.now c d h
outcome_of_claim id r c (returns false d) h =
    refund-false id r.user_id r.amount r.description r.now c d h
outcome_of_claim id r c (raises e d) h =
    refund-raises id r.user_id r.amount r.description r.now c d e h

-- Whatever fails, a refund is all or nothing: it marks a job that was not marked, adds the amount
-- to the user's balance and books it, or it changes nothing.
pub claim-settles :
    (id : ℕ) (r : Claim) (c : Conn) → RefundOutcome id r c.serial c.tables (claim id r c)
claim-settles id r c = outcome_of_claim id r c _ refl

refund_tables-Spends :
    (id : ℕ) (r : Claim) (s : ℕ) (t : Tables)
    → 0 < count_where (refundable id) t.jobs
    → HasKeyedJobs t
    → Spends
        (unrefunded_of id)
        HasKeyedJobs
        t
        1
        (refund_tables id r.user_id r.amount r.description r.now s t)
unfolding refund_tables
refund_tables-Spends id r s t counted keyed =
    let key = ProvisioningJob.id in
    ground (
      arith,
      find-update_where key id (refundable id) (refunded r.now) t.jobs (λ j. refl),
      update_where-IsKeyed key (refundable id) (refunded r.now) t.jobs (λ j. refl) keyed,
      count_where-hits key id (refundable id) t.jobs (λ j h. ground arith) keyed,
    )

claim_outcome-Spends :
    (id : ℕ) (r : Claim) (s : ℕ) (t : Tables) (o : Outcome Bool)
    → RefundOutcome id r s t o
    → HasKeyedJobs t
    → Spends (unrefunded_of id) HasKeyedJobs t (took o) (conn_of o).tables
claim_outcome-Spends id r s t (raises e d) same keyed =
    subst (λ w. Spends (unrefunded_of id) HasKeyedJobs t 0 w) (sym same) (omega arith, keyed)
claim_outcome-Spends id r s t (returns false d) same keyed =
    subst (λ w. Spends (unrefunded_of id) HasKeyedJobs t 0 w) (sym same) (omega arith, keyed)
claim_outcome-Spends id r s t (returns true d) (counted, e) keyed =
    subst (λ w. Spends (unrefunded_of id) HasKeyedJobs t 1 w) (sym e)
      (refund_tables-Spends id r s t counted keyed)

claim-Spends :
    (id : ℕ) (r : Claim) (c : Conn)
    → HasKeyedJobs c.tables
    → Spends
        (unrefunded_of id)
        HasKeyedJobs
        c.tables
        (took (claim id r c))
        (conn_of (claim id r c)).tables
claim-Spends id r c keyed =
    claim_outcome-Spends id r c.serial c.tables _ (claim-settles id r c) keyed

unrefunded_le_one : (o : Option ProvisioningJob) → unrefunded o ≤ 1
unrefunded_le_one o = ground arith

-- However often, and by whomever, the refund of a job is tried, and whatever fails, it is made at
-- most once, and not at all once the job is marked.
pub refunded_once :
    (id : ℕ) (tries : List Claim) (c : Conn)
    → HasKeyedJobs c.tables
    → (effects (claim id) tries c ≤ 1) × (effects (claim id) tries c ≤ unrefunded_of id c.tables)
refunded_once id tries c keyed =
    let bound =
      effects-le (claim id) (unrefunded_of id) HasKeyedJobs (claim-Spends id) tries c keyed in
    let one = unrefunded_le_one (find ProvisioningJob.id id c.tables.jobs) in
    (omega (arith, bound, one), omega (arith, bound))
