-- ===== src/Purge/Only.antt =====
-- What a tick of the trash purge (incus-admin/internal/worker/vm_trash_purger.go) may change.
use incus.Base.{
  ℕ, ◌-◌, String, Bool, true, false, Option, some, List, [], ◌∷◌, ◌≡◌, ◌⊎◌, inl, inr, refl, sym, ap,
  ◌∙◌, subst, arith, Bool-cases, if◌then◌else◌, ◌==◌, eqb→eq,
}
use incus.Base.Table.{find, find-update_key, update_where, select_where, IsKeyed}
use incus.Base.Select.{select_where-hits}
use incus.Base.Sort.{All, sort_stable, sort_stable-All}
use incus.Models.{Vm, VmStatus}
use incus.Store.{
  Conn, Tables, sent, M, Outcome, returns, raises, conn_of, pure, logged, ◌>>=◌, ◌>>◌,
}
use incus.Vms.{delete, with_status}
use incus.Clusters.{Manager}
use text.Mathlib.Text.{◌==◌ as str_eq}
use incus.Purge.{
  purgeable, trashed_first, list_trashed_before, cluster_name, timed, is_purged, delete_purged,
  purge_in, purge_row, purge_rows, purge_pass,
}

abbrev pub deleted_at : ℕ → Vm → Vm
deleted_at t v = with_status VmStatus.deleted t v

-- Each row of a VM is as it was, or deleted and one that P speaks of; no other table has changed.
pub record DeletedOnly (P : Vm → Type 0) (c d : Conn) : Type 0 where
  pub row :
      (i : ℕ)
      → (find Vm.id i d.tables.vms ≡ find Vm.id i c.tables.vms)
        ⊎ ((v : Vm) × (t : ℕ) × (find Vm.id i c.tables.vms ≡ some v)
            × P v
            × (find Vm.id i d.tables.vms ≡ some (deleted_at t v)))
  pub others : d.tables ≡ record c.tables { vms = d.tables.vms }

-- What the deletion of a row does to the tables.
delete_purged-tables :
    (purge : ℕ → String → String → String → Option String) (manager : Manager) (clock : ℕ → ℕ)
    (vm : Vm) (b : Bool) (c : Conn)
    → (let d = conn_of (delete_purged purge manager clock vm b c) in
        (d.tables ≡ c.tables)
        ⊎ ((b ≡ true)
            × (t : ℕ) × (d.tables ≡ record c.tables {
              vms = update_where (λ v. v.id == vm.id) (deleted_at t) c.tables.vms;
            })))
unfolding delete
delete_purged-tables purge manager clock vm false c = inl refl
delete_purged-tables purge manager clock vm true c = elim (Bool-cases (c.fails c.tick)) [
  | inl failed ↦ inl (rw (conn_of, failed) refl)
  | inr sent_off ↦ inr (refl, clock c.tick, rw (conn_of, sent_off) refl)
]

-- The body of the loop returns, so that the next row follows.
logged-conn : {A : Type 0} (m : M A) (c : Conn) → conn_of (logged m c) ≡ conn_of (m c)
logged-conn {A} m c = at (m c)
  where
    at :
        (o : Outcome A)
        → conn_of {A = Unit {0}} (elim o [ returns a d ↦ returns tt d | raises e d ↦ returns tt d ])
          ≡ conn_of o
    at (returns a d) = refl
    at (raises e d) = refl

logged-next :
    {A B : Type 0} (m : M A) (k : M B) (c : Conn)
    → conn_of ((logged m >> k) c) ≡ conn_of (k (conn_of (logged m c)))
logged-next {A} {B} m k c = at (m c)
  where
    at :
        (o : Outcome A)
        → (let l : Outcome (Unit {0}) = elim o [
          | returns a d ↦ returns tt d
          | raises e d ↦ returns tt d
        ] in
            let n : Outcome B = elim l [ returns a d ↦ k d | raises e d ↦ raises e d ] in
            conn_of n ≡ conn_of (k (conn_of l)))
    at (returns a d) = refl
    at (raises e d) = refl

module _ (purge : ℕ → String → String → String → Option String) (manager : Manager) (clock : ℕ → ℕ)
    (cutoff : ℕ) where
  -- In the trash since before the cutoff, and no more in its cluster, by what the purge answered.
  abbrev pub IsPurged : Vm → Type 0
  IsPurged v =
      (purgeable cutoff v ≡ true)
      × ((tick : ℕ) × (is_purged purge manager clock
              (purge tick (cluster_name purge manager clock v) "customers" v.name)
            ≡ true))

  -- From the tables at the start, along the loop.
  step-row :
      (c d : Conn) (vm : Vm) (t i : ℕ)
      → find Vm.id vm.id c.tables.vms ≡ some vm
      → IsPurged vm
      → DeletedOnly IsPurged c d
      → (let after = update_where (λ v. v.id == vm.id) (deleted_at t) d.tables.vms in
          (find Vm.id i after ≡ find Vm.id i c.tables.vms)
          ⊎ ((v : Vm) × (t : ℕ) × (find Vm.id i c.tables.vms ≡ some v)
              × IsPurged v
              × (find Vm.id i after ≡ some (deleted_at t v))))
  step-row c d vm t i listed purged so_far =
      let seen = find-update_key Vm.id i vm.id (deleted_at t) d.tables.vms (λ r. refl) in
      elim (Bool-cases (i == vm.id)) [
        | inr other ↦
            let kept : find Vm.id i (update_where (λ v. v.id == vm.id) (deleted_at t) d.tables.vms)
                ≡ find Vm.id i d.tables.vms =
              ground (arith, seen, other) in
            elim (so_far.row i) [
              | inl same ↦ inl (kept ∙ same)
              | inr (v, at, before, p, after) ↦ inr (v, at, before, p, kept ∙ after)
            ]
        | inl same ↦
            let here =
              subst (λ k. find Vm.id k c.tables.vms ≡ some vm) (sym (eqb→eq i vm.id same)) listed in
            elim (so_far.row i) [
              | inl kept ↦ inr (vm, t, here, purged, ground (arith, seen, same, kept, here))
              | inr (v, at, before, p, after) ↦
                  inr (v, t, before, p, ground (arith, seen, same, after))
            ]
      ]

  purge_row-DeletedOnly :
      (c d : Conn) (vm : Vm)
      → purgeable cutoff vm ≡ true
      → find Vm.id vm.id c.tables.vms ≡ some vm
      → DeletedOnly IsPurged c d
      → DeletedOnly IsPurged c (conn_of (purge_row purge manager clock vm d))
  purge_row-DeletedOnly c d vm listed found so_far =
      elim (str_eq (cluster_name purge manager clock vm) "")
        as (λ b. DeletedOnly IsPurged c (
          conn_of (
            (if b
                then pure tt
                else purge_in purge manager clock vm (cluster_name purge manager clock vm))
              d))) [
                | true ↦ so_far
                | false ↦
                    after_purge
                      (is_purged purge manager clock
                        (purge d.tick (cluster_name purge manager clock vm) "customers" vm.name))
                      refl
              ]
    where
      after_purge :
          (b : Bool)
          → is_purged purge manager clock
              (purge d.tick (cluster_name purge manager clock vm) "customers" vm.name)
            ≡ b
          → DeletedOnly IsPurged c (conn_of (delete_purged purge manager clock vm b d))
      after_purge b e = elim (delete_purged-tables purge manager clock vm b d) [
        | inl same ↦ record {
          row = λ i.
              subst
                (λ t.
                  (find Vm.id i t.vms ≡ find Vm.id i c.tables.vms)
                  ⊎ ((v : Vm) × (t' : ℕ) × (find Vm.id i c.tables.vms ≡ some v)
                      × IsPurged v
                      × (find Vm.id i t.vms ≡ some (deleted_at t' v))))
                (sym same) (so_far.row i);
          others = subst (λ t. t ≡ record c.tables { vms = t.vms }) (sym same) so_far.others;
        }
        | inr (went, t, marked) ↦ record {
          row = λ i.
              subst
                (λ u.
                  (find Vm.id i u.vms ≡ find Vm.id i c.tables.vms)
                  ⊎ ((v : Vm) × (t' : ℕ) × (find Vm.id i c.tables.vms ≡ some v)
                      × IsPurged v
                      × (find Vm.id i u.vms ≡ some (deleted_at t' v))))
                (sym marked) (step-row c d vm t i found (listed, (d.tick, e ∙ went)) so_far);
          others =
              subst (λ u. u ≡ record c.tables { vms = u.vms }) (sym marked)
                (ap
                  (λ (u : Tables). record u {
                    vms = update_where (λ v. v.id == vm.id) (deleted_at t) d.tables.vms;
                  })
                  so_far.others);
        }
      ]

  -- Whatever becomes of a row, the next follows.
  purge_row-next :
      {A : Type 0} (vm : Vm) (k : M A) (d : Conn)
      → conn_of ((purge_row purge manager clock vm >> k) d)
        ≡ conn_of (k (conn_of (purge_row purge manager clock vm d)))
  purge_row-next {A} vm k d =
      elim (str_eq (cluster_name purge manager clock vm) "")
        as (λ b.
          let m : M (Unit {0}) =
            if b
            then pure tt
            else purge_in purge manager clock vm (cluster_name purge manager clock vm) in
          conn_of ((m >> k) d) ≡ conn_of (k (conn_of (m d)))) [
            | true ↦ refl
            | false ↦ deleted (
                is_purged purge manager clock
                  (purge d.tick (cluster_name purge manager clock vm) "customers" vm.name))
          ]
    where
      deleted :
          (b : Bool)
          → conn_of ((delete_purged purge manager clock vm b >> k) d)
            ≡ conn_of (k (conn_of (delete_purged purge manager clock vm b d)))
      deleted false = refl
      deleted true = logged-next (timed purge manager clock (delete vm.id)) k d

  purge_rows-DeletedOnly :
      (c : Conn) (vms : List Vm) (d : Conn)
      → All (λ vm. (purgeable cutoff vm ≡ true) × (find Vm.id vm.id c.tables.vms ≡ some vm)) vms
      → DeletedOnly IsPurged c d
      → DeletedOnly IsPurged c (conn_of (purge_rows purge manager clock vms d))
  unfolding purge_rows
  purge_rows-DeletedOnly c [] d h so_far = so_far
  purge_rows-DeletedOnly c (vm ∷ rest) d ((listed, found), h) so_far =
      subst (λ x. DeletedOnly IsPurged c x)
        (sym (purge_row-next vm (purge_rows purge manager clock rest) d))
        (purge_rows-DeletedOnly c rest (conn_of (purge_row purge manager clock vm d)) h
          (purge_row-DeletedOnly c d vm listed found so_far))

listed-conn :
    (cutoff : ℕ) (k : List Vm → M (Unit {0})) (c : Conn)
    → (let listed = sort_stable trashed_first (select_where (purgeable cutoff) c.tables.vms) in
        conn_of ((list_trashed_before cutoff >>= k) c)
        ≡ (if c.fails c.tick then sent c else conn_of (k listed (sent c))))
unfolding list_trashed_before
listed-conn cutoff k c = elim (Bool-cases (c.fails c.tick)) [
  | inl failed ↦ rw (conn_of, ◌>>=◌, failed) refl
  | inr answered ↦ rw (conn_of, ◌>>=◌, answered) refl
]

-- A tick of the purge, when the ids of the VMs' rows are distinct, leaves each row as it was or
-- marks it deleted; it marks only a row that was trashed by the cutoff and not yet deleted, and of
-- which the purge answered with success or with an error that is_already_gone_err takes for it; and
-- it changes no other table.
pub purge_pass-DeletedOnly :
    (purge : ℕ → String → String → String → Option String) (manager : Manager) (clock : ℕ → ℕ)
    (now window : ℕ) (c : Conn)
    → IsKeyed Vm.id c.tables.vms
    → DeletedOnly
        (IsPurged purge manager clock (now - window))
        c
        (conn_of (purge_pass purge manager clock now window c))
unfolding purge_pass
purge_pass-DeletedOnly purge manager clock now window c keyed =
    let cutoff = now - window in
    let loop = purge_rows purge manager clock in
    let start : (d : Conn)
        → d.tables ≡ c.tables
        → DeletedOnly (IsPurged purge manager clock cutoff) c d =
      λ d e. record {
        row = λ i. inl (ap (λ (t : Tables). find Vm.id i t.vms) e);
        others = subst (λ t. t ≡ record c.tables { vms = t.vms }) (sym e) refl;
      } in
    let hits =
      sort_stable-All trashed_first _ _
        (select_where-hits Vm.id (purgeable cutoff) c.tables.vms keyed) in
    subst (λ d. DeletedOnly (IsPurged purge manager clock cutoff) c d)
      (sym (logged-conn (list_trashed_before cutoff >>= loop) c ∙ listed-conn cutoff loop c))
      (elim (Bool-cases (c.fails c.tick)) [
        | inl failed ↦ rw (failed) (start (sent c) refl)
        | inr answered ↦ rw (answered) (
            purge_rows-DeletedOnly purge manager clock cutoff c _ (sent c) hits
              (start (sent c) refl))
      ])
