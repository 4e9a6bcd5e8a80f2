-- ===== src/Payment/Bought.antt =====
-- From the click on "pay" to the end of the job.
use incus.Base.{ℕ, ◌≡◌, ◌⊎◌, inl, inr, ◌∙◌, ap, subst, sym, true, some, arith}
use incus.Base.Int.{ℤ, zero_ℤ, ◌≤ℤ◌, ltb_ℤ, sub-add_cancel}
use incus.Base.Table.{find}
use incus.Models.{User, Order, OrderStatus, ProvisioningJob, Vm}
use incus.Store.{Tables}
use incus.Orders.{set_status, debit}
use incus.Users.{credit}
use incus.Provision.World.{World, Deps, goes, world_of}
use incus.Provision.Runtime.{Others, run_one}
use incus.Provision.Runtime.Paid.{run_one-settles}
use incus.Provision.VmCreate.Compensation.{IsQuiet}
use incus.Payment.{Portal, PayRequest, accepted, pay}
use incus.Payment.Accepted.{IsAccepted, Ends}
use incus.Payment.Outcome.{PayOutcome, ForOwner, pay-PayOutcome}

-- The order is active and its payer is charged.
pub record IsBought (o : Order) (payer : User) (t : Tables) : Type 0 where
  pub order : (now : ℕ) × (find Order.id o.id t.orders ≡ some (set_status OrderStatus.active now o))
  pub balance : (now : ℕ) × (find User.id o.user_id t.users ≡ some (debit o.amount now payer))

-- The order is cancelled and its payer has the balance of before.
pub record IsMoneyBack (o : Order) (payer : User) (t : Tables) : Type 0 where
  pub order :
      (now : ℕ) × (find Order.id o.id t.orders ≡ some (set_status OrderStatus.cancelled now o))
  pub balance :
      (now : ℕ) × (find User.id o.user_id t.users ≡ some (record payer { updated_at = now }))

restored_payer :
    (a : ℤ) (n k : ℕ) (u : User) → credit a n (debit a k u) ≡ record u { updated_at = n }
restored_payer a n k u =
    ap (λ (b : ℤ). record u { balance = b; updated_at = n }) (sub-add_cancel u.balance a)

positive→priced : (a : ℤ) → ltb_ℤ zero_ℤ a ≡ true → zero_ℤ ≤ℤ a
positive→priced a h = ground arith

module _ (deps : Deps) (others : Others) (w v : World) (o : Order) (job : ProvisioningJob)
    (vm : Vm) where
  settled :
      (h : IsAccepted w.conn.tables o job vm v)
      → ltb_ℤ zero_ℤ o.amount ≡ true
      → IsQuiet v.conn
      → IsBought o h.charged.payer (world_of (run_one deps others job.id v)).conn.tables
        ⊎ IsMoneyBack o h.charged.payer (world_of (run_one deps others job.id v)).conn.tables
  settled h positive quiet =
      let (n, eu) = h.charged.charged in
      let (k, eo) = h.charged.placed in
      let (p, ep, amount, _) = h.params in
      let rows = h.rows in
      let t = (world_of (run_one deps others job.id v)).conn.tables in
      elim (run_one-settles deps others job (debit o.amount n h.charged.payer)
        (set_status OrderStatus.provisioning k o) p v rows.job_kind rows.job_status rows.job_fresh
        rows.job_order rows.job_row
        (ap (λ i. find User.id i v.conn.tables.users) rows.job_user ∙ eu) eo ep
        (ap (ltb_ℤ zero_ℤ) amount ∙ positive) quiet) [
          | inl d ↦ inl (record {
            order = d.order;
            balance = (n, ap (λ i. find User.id i t.users) (sym rows.job_user) ∙ d.balance);
          })
          | inr r ↦
              let (m, e) = r.balance in
              inr (record {
                order = r.order;
                balance = (
                  m,
                  ap (λ i. find User.id i t.users) (sym rows.job_user)
                      ∙ e
                      ∙ ap (λ a. some (credit a m (debit o.amount n h.charged.payer))) amount
                      ∙ ap some (restored_payer o.amount m n h.charged.payer),
                );
              })
        ]

  -- A payment that the portal accepts, of an order that costs something, is settled by one pass of a
  -- worker over the job that it answers with, where no statement fails from then on and whatever
  -- the cluster answers: the order is active and its payer has the balance of before less the amount,
  -- or the order is cancelled and its payer has the balance of before.
  pub accepted-settles :
      (portal : Portal) (request : PayRequest) (user_id : ℕ)
      → find Order.id o.id w.conn.tables.orders ≡ some o
      → ltb_ℤ zero_ℤ o.amount ≡ true
      → pay portal deps request o.id user_id w ≡ goes (accepted job vm) v
      → IsQuiet v.conn
      → (payer : User) × (find User.id o.user_id w.conn.tables.users ≡ some payer)
        × (IsBought o payer (world_of (run_one deps others job.id v)).conn.tables
            ⊎ IsMoneyBack o payer (world_of (run_one deps others job.id v)).conn.tables)
  accepted-settles portal request user_id found positive paid quiet =
      let outcome : ForOwner portal o.id user_id w (accepted job vm) v =
        subst (Ends (PayOutcome portal o.id user_id w)) paid (
          pay-PayOutcome o.id user_id w portal deps request (λ x e.
            let row : o ≡ x = cc (found, e) in
            subst (λ (y : Order). zero_ℤ ≤ℤ y.amount) row (positive→priced o.amount positive))) in
      let (x, e, _, h) = outcome in
      let same : x ≡ o = cc (found, e) in
      let g : IsAccepted w.conn.tables o job vm v =
        subst (λ y. IsAccepted w.conn.tables y job vm v) same h in
      (g.charged.payer, g.charged.had, settled g positive quiet)
