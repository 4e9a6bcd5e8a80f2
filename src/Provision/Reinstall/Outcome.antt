-- ===== src/Provision/Reinstall/Outcome.antt =====
-- The run of vm.reinstall as a whole.
use incus.Base.{
  ℕ, Bool, ◌+◌, ◌≡◌, ◌⊎◌, inl, inr, refl, sym, ap, subst, ◌∙◌, true, Option, none, some, List,
  String, arith, ◌==◌, Bool-cases, Option-cases,
}
use incus.Base.Table.{update_where}
use incus.Models.{ProvisioningJob, Vm}
use incus.Store.{Tables, Conn, Outcome, returns, raises, conn_of, params_missing, cluster_missing}
use incus.Vms.{update_password}
use incus.Provision.World.{
  Params, Cluster, World, Deps, Ran, goes, stops, R, done, stop, best_effort, ◌>>◌, take_params,
  bind-goes, without,
}
use incus.Provision.VmCreate.Frame.{OnlySteps, Within, Within-refl}
use incus.Provision.VmCreate.Compensation.{Follows}
use incus.Provision.VmCreate.Run.{
  OtherRowsKept, OtherRowsKept-refl, OtherRowsKept-trans, OnlySteps-OtherRowsKept, FaultBefore,
}
use incus.Provision.VmCreate.Activation.{OtherRowsKept-params}
use incus.Provision.Reinstall.{rebuild, save_password, reinstall_run}
use incus.Provision.Reinstall.Run.{rebuild-Within}

abbrev pub with_password : String → ℕ → Vm → Vm
with_password sealed now v = record v { password = some sealed; updated_at = now }

-- The VM's row has the new password, sealed, unless the sealing or the last statement failed.
abbrev pub PasswordSaved : Deps → Option ℕ → World → World → Type 0
PasswordSaved deps none w v = v.conn.tables.vms ≡ w.conn.tables.vms
PasswordSaved deps (some id) w v =
    ((sealed : String) × (now : ℕ) × (deps.cipher.encrypt deps.new_password ≡ some sealed)
      × (v.conn.tables.vms
          ≡ update_where (λ x. x.id == id) (with_password sealed now) w.conn.tables.vms))
    ⊎ ((v.conn.tables.vms ≡ w.conn.tables.vms)
        × ((deps.cipher.encrypt deps.new_password ≡ none) ⊎ FaultBefore 0 w v))

pub record IsReinstalled (deps : Deps) (vm_id : Option ℕ) (w v : World) : Type 0 where
  pub password_saved : PasswordSaved deps vm_id w v
  pub orders : v.conn.tables.orders ≡ w.conn.tables.orders
  pub others : OtherRowsKept w v

-- A run that returns an error has written steps only.
abbrev pub ReinstallOutcome : Deps → ProvisioningJob → World → Ran (Unit {0}) → Type 0
ReinstallOutcome deps job w (stops e v) = OnlySteps w v
ReinstallOutcome deps job w (goes _ v) = IsReinstalled deps job.vm_id w v

module _ (deps : Deps) (cluster : Cluster) (job : ProvisioningJob) where
  -- What the call comes to, on the connection.
  saved_conn :
      (id now : ℕ) (c : Conn)
      → let d = conn_of (update_password deps.cipher id deps.new_password now c) in
        (((sealed : String) × (deps.cipher.encrypt deps.new_password ≡ some sealed)
            × (d.tables ≡ record c.tables {
              vms = update_where (λ x. x.id == id) (with_password sealed now) c.tables.vms;
            }))
          ⊎ ((d.tables ≡ c.tables)
              × ((deps.cipher.encrypt deps.new_password ≡ none)
                  ⊎ ((c.fails c.tick ≡ true) × (d.tick ≡ c.tick + 1)))))
        × Follows c d
  unfolding update_password
  saved_conn id now c = elim (Option-cases (deps.cipher.encrypt deps.new_password)) [
    | inl missing ↦
        (inr (ground arith, inl missing), record { same = ground arith; ticks = ground arith })
    | inr (sealed, e) ↦ elim (Bool-cases (c.fails c.tick)) [
      | inl broken ↦ (
        inr (ground arith, inr (broken, ground arith)),
        record { same = ground arith; ticks = ground arith },
      )
      | inr works ↦
          (inl (sealed, e, ground arith), record { same = ground arith; ticks = ground arith })
    ]
  ]

  written :
      (o : Outcome (Unit {0})) (w : World)
      → best_effort (λ _. o) w ≡ goes tt (record w { conn = conn_of o })
  written (returns tt c) w = refl
  written (raises e c) w = refl

  -- Only the rows of VMs have changed.
  kept_others :
      (vs : List Vm) (w : World) (d : Conn)
      → d.tables ≡ record w.conn.tables { vms = vs }
      → Follows w.conn d
      → OtherRowsKept w (record w { conn = d })
  kept_others vs w d t f = record {
    users = ap Tables.users t;
    transactions = ap Tables.transactions t;
    invoices = ap Tables.invoices t;
    ips = ap Tables.ips t;
    jobs = ap Tables.jobs t;
    follows = f;
  }

  saved_row :
      (id : ℕ) (w : World)
      → let d =
          conn_of
            (update_password deps.cipher id deps.new_password (deps.clock w.conn.tick) w.conn) in
        IsReinstalled deps (some id) w (record w { conn = d })
  saved_row id w =
      let d =
        conn_of
          (update_password deps.cipher id deps.new_password (deps.clock w.conn.tick) w.conn) in
      let (h, f) = saved_conn id (deps.clock w.conn.tick) w.conn in
      elim h [
        | inl (sealed, e, t) ↦ record {
          password_saved = inl (sealed, deps.clock w.conn.tick, e, ap Tables.vms t);
          orders = ap Tables.orders t;
          others = kept_others _ w d t f;
        }
        | inr (t, why) ↦ record {
          password_saved = inr (ap Tables.vms t, reason_of why);
          orders = ap Tables.orders t;
          others = kept_others w.conn.tables.vms w d t f;
        }
      ]
    where
      reason_of :
          let v : World = record w {
            conn =
                conn_of (
                  update_password deps.cipher id deps.new_password (deps.clock w.conn.tick) w.conn);
          } in
          (deps.cipher.encrypt deps.new_password ≡ none)
            ⊎ ((w.conn.fails w.conn.tick ≡ true) × (v.conn.tick ≡ w.conn.tick + 1))
          → (deps.cipher.encrypt deps.new_password ≡ none) ⊎ FaultBefore 0 w v
      reason_of (inl missing) = inl missing
      reason_of (inr (broken, last)) = inr (w.conn.tick, omega arith, omega (arith, last), broken)

  save_password-goes :
      (vm_id : Option ℕ) (w : World)
      → (v : World) × (save_password deps cluster job vm_id w ≡ goes tt v)
        × IsReinstalled deps vm_id w v
  unfolding save_password
  save_password-goes none w =
      (w, refl, record { password_saved = refl; orders = refl; others = OtherRowsKept-refl w })
  save_password-goes (some id) w = (_, written _ w, saved_row id w)

  saved_after :
      (vm_id : Option ℕ) (u w v : World)
      → OnlySteps u w
      → PasswordSaved deps vm_id w v
      → PasswordSaved deps vm_id u v
  saved_after none u w v p h = h ∙ ap Tables.vms p.conn.tables
  saved_after (some id) u w v p (inl (sealed, now, e, h)) = inl (
    sealed,
    now,
    e,
    h
        ∙ ap (λ t. update_where (λ x. x.id == id) (with_password sealed now) (Tables.vms t))
            p.conn.tables,
  )
  saved_after (some id) u w v p (inr (h, inl missing)) =
      inr (h ∙ ap Tables.vms p.conn.tables, inl missing)
  saved_after (some id) u w v p (inr (h, inr (n, from, last, broken))) = inr (
    h ∙ ap Tables.vms p.conn.tables,
    inr (
      n,
      omega (arith, p.conn.follows.ticks, from),
      last,
      ap (λ (g : ℕ → Bool). g n) (sym p.conn.follows.same) ∙ broken,
    ),
  )

  -- The steps before, and the parameters after, are nothing to the rows.
  ending :
      (vm_id : Option ℕ) (u w v : World) (q : ℕ → Option Params)
      → OnlySteps u w
      → IsReinstalled deps vm_id w v
      → IsReinstalled deps vm_id u (record v { params = q })
  ending none u w v q p h = record {
    password_saved = saved_after none u w v p h.password_saved;
    orders = h.orders ∙ ap Tables.orders p.conn.tables;
    others =
        OtherRowsKept-params u v q
          (OtherRowsKept-trans u w v (OnlySteps-OtherRowsKept u w p) h.others);
  }
  ending (some id) u w v q p h = record {
    password_saved = saved_after (some id) u w v p h.password_saved;
    orders = h.orders ∙ ap Tables.orders p.conn.tables;
    others =
        OtherRowsKept-params u v q
          (OtherRowsKept-trans u w v (OnlySteps-OtherRowsKept u w p) h.others);
  }

  last_writes : R (Unit {0})
  last_writes = save_password deps cluster job job.vm_id >> (take_params job.id >> done tt)

  last-ReinstallOutcome :
      (w : World) (r : Ran (Unit {0}))
      → Within w r
      → ReinstallOutcome deps job w (((λ _. r) >> last_writes) w)
  unfolding last_writes take_params
  last-ReinstallOutcome w (stops e v) p = p
  last-ReinstallOutcome w (goes _ v) p =
      let (v2, e, h) = save_password-goes job.vm_id v in
      subst (ReinstallOutcome deps job w)
        (sym (bind-goes (save_password deps cluster job job.vm_id) _ v v2 tt _ e refl))
        (ending job.vm_id w v v2 (without job.id v2.params) p h)

pub reinstall_run-ReinstallOutcome :
    (deps : Deps) (job : ProvisioningJob) (w : World)
    → ReinstallOutcome deps job w (reinstall_run deps job w)
unfolding reinstall_run last_writes
reinstall_run-ReinstallOutcome deps job w = with_params (w.params job.id)
  where
    with_cluster :
        (p : Params) (cluster : Option Cluster)
        → ReinstallOutcome deps job w (
            elim cluster as (λ _. R (Unit {0})) [
              | none ↦ stop (cluster_missing job.cluster_id)
              | some x ↦ rebuild deps x job p >> last_writes deps x job
            ]
              w)
    with_cluster p none = Within-refl w
    with_cluster p (some x) =
        last-ReinstallOutcome deps x job w (rebuild deps x job p w) (rebuild-Within deps x job p w)

    with_params :
        (p : Option Params)
        → ReinstallOutcome deps job w (
            elim p as (λ _. R (Unit {0})) [
              | none ↦ stop (params_missing job.id)
              | some q ↦ elim (deps.clusters job.cluster_id) as (λ _. R (Unit {0})) [
                | none ↦ stop (cluster_missing job.cluster_id)
                | some x ↦ rebuild deps x job q >> last_writes deps x job
              ]
            ]
              w)
    with_params none = Within-refl w
    with_params (some q) = with_cluster q (deps.clusters job.cluster_id)
