-- ===== src/Provision/VmCreate/Rollback.antt =====
-- The compensation of a failed job as a whole.
use incus.Base.{ℕ, ◌+◌, ◌≡◌, ◌⊎◌, inl, inr, refl, ap, subst, ◌∙◌, Option, none, some, arith}
use incus.Base.Int.{ℤ, zero_ℤ}
use incus.Models.{ProvisioningJob, Text}
use incus.Store.{Conn}
use incus.Provision.World.{World, Deps, goes, take_params, without, bind-goes}
use incus.Provision.VmCreate.{
  rollback, find_ip, find_amount, delete_leftover, release_ip, refund, cancel_order, mark_vm_error,
  ip_of, amount_of, project_of,
}
use incus.Provision.VmCreate.Compensation.{
  Follows, Follows-trans, FaultIn, IsIdle, Tries, Change, Tried, release_change, cancel_change,
  vm_error_change, refund_change, release_ip-Tried, cancel_order-Tried, mark_vm_error-Tried,
  refund-Tried,
}
use incus.Provision.VmCreate.Lookup.{
  Kept, Kept-Follows, Found, ip_reads, amount_reads, known_ip, known_amount, find_ip-Found,
  find_amount-Found, delete_leftover-goes,
}

-- A change that waits for what was looked up: it is tried, or nothing is changed, since the
-- look-up, between the states `a` and `b`, failed.
abbrev pub TriesFound : (ℕ → ℕ) → Conn → Conn → Change → Conn → Conn → Type 0
TriesFound clock a b f c d = Tries clock f c d ⊎ ((d.tables ≡ c.tables) × FaultIn a b)

-- The change for what was looked up counts as one for what the rows say.
Found-Tries :
    {A : Type 0} (clock : ℕ → ℕ) (f : A → Change) (nothing known x : A) (a b c d : Conn)
    → IsIdle (f nothing)
    → Found nothing known x a b
    → Tries clock (f x) c d
    → TriesFound clock a b (f known) c d
Found-Tries clock f nothing known x a b c d idle (inl e) h =
    inl (subst (λ y. Tries clock (f y) c d) e h)
Found-Tries clock f nothing known x a b c d idle (inr (e, fault)) (inl (n, s, _, _, h)) =
    inr (h ∙ ap (λ y. f y (clock n) s c.tables) e ∙ idle (clock n) s c.tables, fault)
Found-Tries clock f nothing known x a b c d idle (inr (e, fault)) (inr (same, _)) =
    inr (same, fault)

-- The compensation as the states of the connection that follow each other: the two look-ups, with
-- exactly the statements that they send, and then the four writes, each at the time of a statement
-- of its own.
pub record IsCompensated (clock : ℕ → ℕ) (job : ProvisioningJob) (reason : Text) (w v : World)
    : Type 0 where
  pub ip_sought : Conn
  pub amount_sought : Conn
  pub released : Conn
  pub refunded : Conn
  pub cancelled : Conn
  pub sought :
      (amount_sought.tables ≡ w.conn.tables)
      × (ip_sought.fails ≡ w.conn.fails)
      × (ip_sought.tick ≡ w.conn.tick + ip_reads job.vm_id)
      × (amount_sought.tick
          ≡ ip_sought.tick + amount_reads job.order_id (amount_of (w.params job.id)))
  pub ip_released :
      TriesFound clock w.conn ip_sought
        (release_change (known_ip job.vm_id (ip_of (w.params job.id)) w.conn.tables))
        amount_sought
        released
  pub user_refunded :
      TriesFound clock ip_sought amount_sought
        (refund_change job job.order_id
          (known_amount job.order_id (amount_of (w.params job.id)) w.conn.tables)
          reason)
        released
        refunded
  pub order_cancelled : Tries clock (cancel_change job.order_id) refunded cancelled
  pub vm_marked : Tries clock (vm_error_change job.vm_id) cancelled v.conn
  pub params_taken : v.params ≡ without job.id w.params
  pub in_order :
      Follows w.conn amount_sought
      × Follows amount_sought released
      × Follows released refunded
      × Follows refunded cancelled
      × Follows cancelled v.conn

pub IsCompensated-Follows :
    (clock : ℕ → ℕ) (job : ProvisioningJob) (reason : Text) (w v : World)
    → IsCompensated clock job reason w v
    → Follows w.conn v.conn
IsCompensated-Follows clock job reason w v h =
    let (f1, f2, f3, f4, f5) = h.in_order in
    record {
      same = f5.same ∙ f4.same ∙ f3.same ∙ f2.same ∙ f1.same;
      ticks = omega (arith, f1.ticks, f2.ticks, f3.ticks, f4.ticks, f5.ticks);
    }

refund_change-zero :
    (job : ProvisioningJob) (id : Option ℕ) (reason : Text)
    → IsIdle (refund_change job id zero_ℤ reason)
refund_change-zero job none reason now s t = refl
refund_change-zero job (some id) reason now s t = refl

module _ (clock : ℕ → ℕ) (job : ProvisioningJob) (reason : Text) where
  compensated :
      (w w1 w2 w3 w4 w5 w6 w7 : World) (ip : Option ℕ) (amount : ℤ)
      → Kept (ip_reads job.vm_id) w w1
      → Kept (amount_reads job.order_id (amount_of (w.params job.id))) w1 w2
      → w3.conn ≡ w2.conn
      → w3.params ≡ w2.params
      → Found none (known_ip job.vm_id (ip_of (w.params job.id)) w.conn.tables) ip w.conn w1.conn
      → Found zero_ℤ
          (known_amount job.order_id (amount_of (w.params job.id)) w1.conn.tables)
          amount
          w1.conn
          w2.conn
      → Tried clock (release_change ip) w3 w4
      → Tried clock (refund_change job job.order_id amount reason) w4 w5
      → Tried clock (cancel_change job.order_id) w5 w6
      → Tried clock (vm_error_change job.vm_id) w6 w7
      → IsCompensated clock job reason w (record w7 { params = without job.id w7.params })
  compensated w w1 w2 w3 w4 w5 w6 w7 ip amount k1 k2 same kept f1 f2 t4 t5 t6 t7 =
      let p = w.params job.id in
      let back : (c : Conn) → Follows w3.conn c → Follows w2.conn c =
        λ c f. subst (λ x. Follows x c) same f in
      record {
        ip_sought = w1.conn;
        amount_sought = w2.conn;
        released = w4.conn;
        refunded = w5.conn;
        cancelled = w6.conn;
        sought = (k2.tables ∙ k1.tables, k1.fails, k1.ticks, k2.ticks);
        ip_released =
            Found-Tries clock release_change none (known_ip job.vm_id (ip_of p) w.conn.tables) ip
              w.conn w1.conn w2.conn w4.conn (λ now s t. refl) f1
              (subst (λ x. Tries clock (release_change ip) x w4.conn) same t4.tries);
        user_refunded =
            Found-Tries clock (λ a. refund_change job job.order_id a reason) zero_ℤ
              (known_amount job.order_id (amount_of p) w.conn.tables) amount w1.conn w2.conn w4.conn
              w5.conn (refund_change-zero job job.order_id reason)
              (subst
                (λ t.
                  Found zero_ℤ (known_amount job.order_id (amount_of p) t) amount w1.conn w2.conn)
                k1.tables f2)
              t5.tries;
        order_cancelled = t6.tries;
        vm_marked = t7.tries;
        params_taken =
            ap (without job.id)
              (t7.params ∙ t6.params ∙ t5.params ∙ t4.params ∙ kept ∙ k2.params ∙ k1.params);
        in_order = (
          Follows-trans w.conn w1.conn w2.conn (Kept-Follows _ w w1 k1) (Kept-Follows _ w1 w2 k2),
          back w4.conn t4.follows,
          t5.follows,
          t6.follows,
          t7.follows,
        );
      }

-- Whatever fails and whatever the cluster answers, the compensation of a failed vm.create goes
-- through to its end. In this order and each at its time, it puts the address into its cool-down,
-- refunds a paid order once, cancels the order and marks the VM's row. Each of them is left out only
-- where one of its own statements failed, where there is nothing to do, or, for the address and the
-- amount, where the statement that looks them up failed. The address and the amount come from the
-- job's parameters or, where these are lost, from the rows.
pub rollback-compensates :
    (deps : Deps) (job : ProvisioningJob) (reason : Text) (w : World)
    → (v : World) × (rollback deps job reason w ≡ goes tt v)
      × IsCompensated deps.clock job reason w v
unfolding rollback take_params
rollback-compensates deps job reason w =
    let p = w.params job.id in
    let (w1, ip, e1, k1, f1) = find_ip-Found job.vm_id (ip_of p) w in
    let (w2, amount, e2, k2, f2) = find_amount-Found job.order_id (amount_of p) w1 in
    let (w3, e3, same, kept) =
      delete_leftover-goes (deps.clusters job.cluster_id) (project_of p) job.target_name w2 in
    let (w4, e4, t4) = release_ip-Tried deps ip w3 in
    let (w5, e5, t5) = refund-Tried deps job job.order_id amount reason w4 in
    let (w6, e6, t6) = cancel_order-Tried deps job.order_id w5 in
    let (w7, e7, t7) = mark_vm_error-Tried deps job.vm_id w6 in
    (
      record w7 { params = without job.id w7.params },
      bind-goes (find_ip job.vm_id (ip_of p)) _ w w1 ip _ e1 (
          bind-goes (find_amount job.order_id (amount_of p)) _ w1 w2 amount _ e2 (
            bind-goes (delete_leftover _ _ _) _ w2 w3 tt _ e3 (
              bind-goes (release_ip deps ip) _ w3 w4 tt _ e4 (
                bind-goes (refund deps job job.order_id amount reason) _ w4 w5 tt _ e5 (
                  bind-goes (cancel_order deps job.order_id) _ w5 w6 tt _ e6
                    (bind-goes (mark_vm_error deps job.vm_id) _ w6 w7 tt _ e7 refl)))))),
      compensated deps.clock job reason w w1 w2 w3 w4 w5 w6 w7 ip amount k1 k2 same kept f1 f2 t4 t5
          t6 t7,
    )
