-- ===== src/Provision/Runtime/Undone.antt =====
-- The compensation of a paid order where no statement fails.
use incus.Base.{
  ℕ, ◌≡◌, ◌<◌, inl, inr, refl, sym, ap, subst, ◌∙◌, true, Option, none, some, arith, ◌==◌, is_some,
}
use incus.Base.Int.{ℤ, zero_ℤ, ltb_ℤ}
use incus.Base.Table.{find, count_where, update_where}
use incus.Models.{User, ProvisioningJob, OrderStatus, Text, refunded_order}
use incus.Store.{Tables, Conn, has_user}
use incus.Orders.{set_status}
use incus.Users.{credit}
use incus.Jobs.{refundable, refunded}
use incus.Jobs.Refund.{refund_tables}
use incus.Provision.VmCreate.Compensation.{
  IsQuiet, quiet-FaultIn, Tries, Change, release_change, cancel_change, vm_error_change,
  refund_change,
}
use incus.Provision.VmCreate.Rollback.{TriesFound}

-- Where no statement fails, a change that is tried is made.
pub quiet-Tries :
    (clock : ℕ → ℕ) (f : Change) (c d : Conn)
    → IsQuiet c
    → Tries clock f c d
    → (now s : ℕ) × (d.tables ≡ f now s c.tables)
quiet-Tries clock f c d quiet (inl (n, s, _, _, made)) = (clock n, s, made)
quiet-Tries clock f c d quiet (inr (same, inl fault)) = absurd (quiet-FaultIn c d quiet fault)
quiet-Tries clock f c d quiet (inr (same, inr idle)) = (0, 0, same ∙ sym (idle 0 0 c.tables))

pub quiet-TriesFound :
    (clock : ℕ → ℕ) (f : Change) (a b c d : Conn)
    → IsQuiet a
    → IsQuiet c
    → TriesFound clock a b f c d
    → (now s : ℕ) × (d.tables ≡ f now s c.tables)
quiet-TriesFound clock f a b c d sought quiet (inl h) = quiet-Tries clock f c d quiet h
quiet-TriesFound clock f a b c d sought quiet (inr (same, fault)) =
    absurd (quiet-FaultIn a b sought fault)

-- What the compensation comes to where no statement fails.
pub record IsUndone (job : ProvisioningJob) (amount : ℤ) (order_id : ℕ) (t t' : Tables)
    : Type 0 where
  pub users :
      (now : ℕ) × (t'.users ≡ update_where (λ u. u.id == job.user_id) (credit amount now) t.users)
  pub jobs : (now : ℕ) × (t'.jobs ≡ update_where (refundable job.id) (refunded now) t.jobs)
  pub orders :
      (now : ℕ) × (t'.orders
        ≡ update_where (λ o. o.id == order_id) (set_status OrderStatus.cancelled now) t.orders)

released_same :
    (ip : Option ℕ) (now s : ℕ) (t : Tables)
    → ((release_change ip now s t).users ≡ t.users)
      × ((release_change ip now s t).jobs ≡ t.jobs)
      × ((release_change ip now s t).orders ≡ t.orders)
released_same none now s t = (refl, refl, refl)
released_same (some ip) now s t = (refl, refl, refl)

marked_same :
    (id : Option ℕ) (now s : ℕ) (t : Tables)
    → ((vm_error_change id now s t).users ≡ t.users)
      × ((vm_error_change id now s t).jobs ≡ t.jobs)
      × ((vm_error_change id now s t).orders ≡ t.orders)
marked_same none now s t = (refl, refl, refl)
marked_same (some id) now s t = (refl, refl, refl)

refund_made :
    (job : ProvisioningJob) (order_id : ℕ) (amount : ℤ) (reason : Text) (now s : ℕ) (t : Tables)
    → ltb_ℤ zero_ℤ amount ≡ true
    → 0 < count_where (refundable job.id) t.jobs
    → has_user job.user_id t ≡ true
    → refund_change job (some order_id) amount reason now s t
      ≡ refund_tables job.id job.user_id amount (refunded_order order_id reason) now s t
refund_made job order_id amount reason now s t positive unmarked payee = ground arith

module _ (job : ProvisioningJob) (order_id : ℕ) (amount : ℤ) (reason : Text)
    (positive : ltb_ℤ zero_ℤ amount ≡ true) where
  pub IsUndone-of :
      (ip : Option ℕ) (t0 t1 t2 t3 t4 : Tables) (n1 s1 n2 s2 n3 s3 n4 s4 : ℕ)
      → 0 < count_where (refundable job.id) t0.jobs
      → has_user job.user_id t0 ≡ true
      → t1 ≡ release_change ip n1 s1 t0
      → t2 ≡ refund_change job (some order_id) amount reason n2 s2 t1
      → t3 ≡ cancel_change (some order_id) n3 s3 t2
      → t4 ≡ vm_error_change job.vm_id n4 s4 t3
      → IsUndone job amount order_id t0 t4
  unfolding refund_tables
  IsUndone-of ip t0 t1 t2 t3 t4 n1 s1 n2 s2 n3 s3 n4 s4 unmarked payee e1 e2 e3 e4 =
      let (users1, jobs1, orders1) = released_same ip n1 s1 t0 in
      let (users4, jobs4, orders4) = marked_same job.vm_id n4 s4 t3 in
      let users_1 = ap Tables.users e1 ∙ users1 in
      let jobs_1 = ap Tables.jobs e1 ∙ jobs1 in
      let refund =
        e2
        ∙ refund_made job order_id amount reason n2 s2 t1 positive
            (subst (λ js. 0 < count_where (refundable job.id) js) (sym jobs_1) unmarked)
            (ap (λ us. is_some (find User.id job.user_id us)) users_1 ∙ payee) in
      record {
        users = (
          n2,
          ap Tables.users e4
              ∙ users4
              ∙ ap Tables.users e3
              ∙ ap Tables.users refund
              ∙ ap (update_where (λ u. u.id == job.user_id) (credit amount n2)) users_1,
        );
        jobs = (
          n2,
          ap Tables.jobs e4
              ∙ jobs4
              ∙ ap Tables.jobs e3
              ∙ ap Tables.jobs refund
              ∙ ap (update_where (refundable job.id) (refunded n2)) jobs_1,
        );
        orders = (
          n3,
          ap Tables.orders e4
              ∙ orders4
              ∙ ap Tables.orders e3
              ∙ ap (update_where (λ o. o.id == order_id) (set_status OrderStatus.cancelled n3))
                  (ap Tables.orders refund ∙ ap Tables.orders e1 ∙ orders1),
        );
      }
