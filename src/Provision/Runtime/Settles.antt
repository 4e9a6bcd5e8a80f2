-- ===== src/Provision/Runtime/Settles.antt =====
-- A paid order of a VM is delivered or refunded.
use incus.Base.{
  ℕ, ◌≡◌, inl, inr, refl, ap, subst, ◌∙◌, Bool, true, Option, none, some, arith, ◌==◌, is_some,
}
use incus.Base.Int.{ℤ, zero_ℤ, ltb_ℤ}
use incus.Base.Table.{find, update_where, find-update_key}
use incus.Models.{User, Order, ProvisioningJob, JobStatus, OrderStatus, Text, message}
use incus.Store.{Tables, Conn, Error}
use incus.Orders.{set_status}
use incus.Users.{credit}
use incus.Jobs.{finished, started, refunded}
use incus.Provision.World.{World, Deps, Params, goes}
use incus.Provision.VmCreate.{ip_of, amount_of}
use incus.Provision.VmCreate.Frame.{OnlySteps}
use incus.Provision.VmCreate.Compensation.{
  release_change, cancel_change, vm_error_change, refund_change,
}
use incus.Provision.VmCreate.Lookup.{known_ip, known_amount}
use incus.Provision.VmCreate.Rollback.{IsCompensated}
use incus.Provision.VmCreate.Run.{RunResult, OrderActivated}
use incus.Provision.VmCreate.Compensation.{
  IsQuiet, IsQuiet-later, Follows, Follows-refl, Follows-trans, Tries,
}
use incus.Provision.Runtime.Undone.{quiet-Tries, quiet-TriesFound, IsUndone, IsUndone-of}
use incus.Provision.Runtime.JobRow.{started_job, refundable_pos, finished_job, marked_job}
use incus.Provision.Runtime.Pass.{finish_change, start_change}

-- The order is active, its payer's balance is as before, and the job has succeeded.
pub record IsDelivered (job : ProvisioningJob) (u : User) (o : Order) (t : Tables) : Type 0 where
  pub balance : find User.id job.user_id t.users ≡ some u
  pub order : (now : ℕ) × (find Order.id o.id t.orders ≡ some (set_status OrderStatus.active now o))
  pub job_done :
      (j : ProvisioningJob) × (find ProvisioningJob.id job.id t.jobs ≡ some j)
      × (j.status ≡ JobStatus.succeeded)
      × (j.refund_done_at ≡ none)

-- The order is cancelled, its payer has the amount back, and the job has failed and is marked.
pub record IsRefunded (job : ProvisioningJob) (amount : ℤ) (u : User) (o : Order) (t : Tables)
    : Type 0 where
  pub balance : (now : ℕ) × (find User.id job.user_id t.users ≡ some (credit amount now u))
  pub order :
      (now : ℕ) × (find Order.id o.id t.orders ≡ some (set_status OrderStatus.cancelled now o))
  pub job_done :
      (j : ProvisioningJob) × (find ProvisioningJob.id job.id t.jobs ≡ some j)
      × (j.status ≡ JobStatus.failed)
      × (is_some j.refund_done_at ≡ true)

known_amount-given :
    (id : ℕ) (q : Option Params) (p : Params) (t : Tables)
    → q ≡ some p
    → ltb_ℤ zero_ℤ p.order_amount ≡ true
    → known_amount (some id) (amount_of q) t ≡ p.order_amount
known_amount-given id q p t e positive = ground arith

module _ (job : ProvisioningJob) (queued : job.status ≡ JobStatus.queued)
    (fresh : job.refund_done_at ≡ none) where
  IsRefunded-from :
      (u : User) (o : Order) (t t' t'' : Tables) (amount : ℤ) (n k : ℕ) (e : Option Text)
      → find ProvisioningJob.id job.id t.jobs ≡ some (started n job)
      → find User.id job.user_id t.users ≡ some u
      → find Order.id o.id t.orders ≡ some o
      → IsUndone job amount o.id t t'
      → t'' ≡ finish_change job.id JobStatus.failed e k 0 t'
      → IsRefunded job amount u o t''
  IsRefunded-from u o t t' t'' amount n k e found payer placed undone end =
      let (n1, users) = undone.users in
      let (n2, jobs) = undone.jobs in
      let (n3, orders) = undone.orders in
      record {
        balance = (
          n1,
          ap (λ (x : Tables). find User.id job.user_id x.users) end
              ∙ ap (find User.id job.user_id) users
              ∙ ground (
                arith,
                payer,
                find-update_key User.id job.user_id job.user_id (credit amount n1) t.users
                    (λ x. refl),
              ),
        );
        order = (
          n3,
          ap (λ (x : Tables). find Order.id o.id x.orders) end
              ∙ ap (find Order.id o.id) orders
              ∙ ground (
                arith,
                placed,
                find-update_key Order.id o.id o.id (set_status OrderStatus.cancelled n3) t.orders
                    (λ x. refl),
              ),
        );
        job_done = (
          finished JobStatus.failed e k (refunded n2 (started n job)),
          ap (λ (x : Tables). find ProvisioningJob.id job.id x.jobs) end
              ∙ finished_job job queued fresh JobStatus.failed e k (refunded n2 (started n job))
                  t'.jobs
                  (ap (find ProvisioningJob.id job.id) jobs
                    ∙ marked_job job queued fresh n n2 t.jobs found),
          refl,
          refl,
        );
      }

  module _ (deps : Deps) (u : User) (o : Order) (p : Params) (w w1 : World) (n : ℕ)
      (ordered : job.order_id ≡ some o.id)
      (found : find ProvisioningJob.id job.id w.conn.tables.jobs ≡ some job)
      (payer : find User.id job.user_id w.conn.tables.users ≡ some u)
      (placed : find Order.id o.id w.conn.tables.orders ≡ some o) (given : w.params job.id ≡ some p)
      (positive : ltb_ℤ zero_ℤ p.order_amount ≡ true) (quiet : IsQuiet w.conn)
      (begun : w1.conn.tables ≡ start_change job.id n 0 w.conn.tables)
      (follows : Follows w.conn w1.conn) (params : w1.params ≡ w.params) where
    found_begun : find ProvisioningJob.id job.id w1.conn.tables.jobs ≡ some (started n job)
    found_begun =
        ap (λ (t : Tables). find ProvisioningJob.id job.id t.jobs) begun
        ∙ started_job job queued fresh n w.conn.tables.jobs found

    payer_begun : find User.id job.user_id w1.conn.tables.users ≡ some u
    payer_begun = ap (λ (t : Tables). find User.id job.user_id t.users) begun ∙ payer

    placed_begun : find Order.id o.id w1.conn.tables.orders ≡ some o
    placed_begun = ap (λ (t : Tables). find Order.id o.id t.orders) begun ∙ placed

    IsQuiet-by : (c : Conn) → Follows w1.conn c → IsQuiet c
    IsQuiet-by c f = IsQuiet-later w.conn c (Follows-trans w.conn w1.conn c follows f) quiet

    pub IsDelivered-of :
        (w2 : World) (d : Conn)
        → RunResult deps job w1 (goes tt w2)
        → Tries deps.clock (finish_change job.id JobStatus.succeeded none) w2.conn d
        → IsDelivered job u o d.tables
    IsDelivered-of w2 d (_, _, _, _, h) end =
        let (k, _, e) =
          quiet-Tries deps.clock (finish_change job.id JobStatus.succeeded none) w2.conn d
            (IsQuiet-by w2.conn h.others.follows) end in
        let activated = subst (λ i. OrderActivated 2 i w1 w2) ordered h.order_activated in
        record {
          balance =
              ap (λ (x : Tables). find User.id job.user_id x.users) e
              ∙ ap (find User.id job.user_id) h.others.users
              ∙ payer_begun;
          order = elim activated [
            | inl (now, a) ↦ (
              now,
              ap (λ (x : Tables). find Order.id o.id x.orders) e
                  ∙ ap (find Order.id o.id) a
                  ∙ activated_order now,
            )
            | inr (_, (n, from, _, broken)) ↦
                absurd (ground (arith, IsQuiet-by w1.conn (Follows-refl w1.conn) n from, broken))
          ];
          job_done = (
            finished JobStatus.succeeded none k (started n job),
            ap (λ (x : Tables). find ProvisioningJob.id job.id x.jobs) e
                ∙ finished_job job queued fresh JobStatus.succeeded none k (started n job)
                    w2.conn.tables.jobs
                    (ap (find ProvisioningJob.id job.id) h.others.jobs ∙ found_begun),
            refl,
            fresh,
          );
        }
      where
        activated_order :
            (now : ℕ)
            → find Order.id o.id (
                update_where
                  (λ x. x.id == o.id)
                  (set_status OrderStatus.active now)
                  w1.conn.tables.orders)
              ≡ some (set_status OrderStatus.active now o)
        activated_order now = ground (
          arith,
          placed_begun,
          find-update_key Order.id o.id o.id (set_status OrderStatus.active now)
              w1.conn.tables.orders (λ x. refl),
        )

    pub IsRefunded-of :
        (e : Error) (w2 w3 : World) (d : Conn)
        → OnlySteps w1 w2
        → IsCompensated deps.clock job (message e) w2 w3
        → Tries deps.clock (finish_change job.id JobStatus.failed (some (message e))) w3.conn d
        → IsRefunded job p.order_amount u o d.tables
    IsRefunded-of e w2 w3 d steps h end =
        let clock = deps.clock in
        let q2 = IsQuiet-by w2.conn steps.conn.follows in
        let msg = message e in
        let ip = known_ip job.vm_id (ip_of (w2.params job.id)) w2.conn.tables in
        let amount = known_amount job.order_id (amount_of (w2.params job.id)) w2.conn.tables in
        let (f1, f2, f3, f4, f5) = h.in_order in
        let q_sought : IsQuiet h.ip_sought = λ n from.
          ap (λ (g : ℕ → Bool). g n) h.sought.1 ∙ q2 n (omega (arith, h.sought.2, from)) in
        let q3 = IsQuiet-later w2.conn h.amount_sought f1 q2 in
        let q4 = IsQuiet-later h.amount_sought h.released f2 q3 in
        let q5 = IsQuiet-later h.released h.refunded f3 q4 in
        let q6 = IsQuiet-later h.refunded h.cancelled f4 q5 in
        let q7 = IsQuiet-later h.cancelled w3.conn f5 q6 in
        let (n1, s1, e1) =
          quiet-TriesFound clock (release_change ip) w2.conn h.ip_sought h.amount_sought h.released
            q2 q3 h.ip_released in
        let (n2, s2, e2) =
          quiet-TriesFound clock (refund_change job job.order_id amount msg) h.ip_sought
            h.amount_sought h.released h.refunded q_sought q4 h.user_refunded in
        let (n3, s3, e3) =
          quiet-Tries clock (cancel_change job.order_id) h.refunded h.cancelled q5
            h.order_cancelled in
        let (n4, s4, e4) =
          quiet-Tries clock (vm_error_change job.vm_id) h.cancelled w3.conn q6 h.vm_marked in
        let (n5, s5, e5) =
          quiet-Tries clock (finish_change job.id JobStatus.failed (some msg)) w3.conn d q7 end in
        let amount_is =
          ap (λ i. known_amount i (amount_of (w2.params job.id)) w2.conn.tables) ordered
          ∙ known_amount-given o.id (w2.params job.id) p w2.conn.tables
              (ap (λ (f : ℕ → Option Params). f job.id) (steps.params ∙ params) ∙ given) positive in
        let jobs2 =
          ap (λ (x : Tables). find ProvisioningJob.id job.id x.jobs) steps.conn.tables
          ∙ found_begun in
        let users2 =
          ap (λ (x : Tables). find User.id job.user_id x.users) steps.conn.tables ∙ payer_begun in
        let orders2 =
          ap (λ (x : Tables). find Order.id o.id x.orders) steps.conn.tables ∙ placed_begun in
        IsRefunded-from u o w2.conn.tables w3.conn.tables d.tables p.order_amount n n5 (some msg)
          jobs2 users2 orders2
          (IsUndone-of job o.id p.order_amount msg positive ip w2.conn.tables h.released.tables
            h.refunded.tables h.cancelled.tables w3.conn.tables n1 s1 n2 s2 n3 s3 n4 s4
            (refundable_pos job queued fresh n w2.conn.tables.jobs jobs2) (ap is_some users2)
            (e1 ∙ ap (release_change ip n1 s1) h.sought.0)
            (e2
              ∙ ap (λ a. refund_change job job.order_id a msg n2 s2 h.released.tables) amount_is
              ∙ ap (λ i. refund_change job i p.order_amount msg n2 s2 h.released.tables) ordered)
            (e3 ∙ ap (λ i. cancel_change i n3 s3 h.refunded.tables) ordered) e4)
          e5
