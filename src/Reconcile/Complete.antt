-- ===== src/Reconcile/Complete.antt =====
-- What a pass of the reconciler (incus-admin/internal/worker/vm_reconciler.go) leaves behind of a
-- cluster that answered, where the database answers too.
use incus.Base.{
  ℕ, ◌+◌, Bool, true, false, List, [], ◌∷◌, ◌≡◌, ◌⊎◌, inl, inr, refl, sym, ap, ◌∙◌, subst, arith,
  Bool-cases, if◌then◌else◌, some, none, Option,
}
use incus.Base.Table.{update_where, select_where, modify}
use incus.Base.Sort.{All, All-map, All-update_where}
use incus.Models.{Vm}
use incus.Store.{Conn, sent, conn_of, pure, ◌>>=◌, ◌>>◌}
use incus.Vms.{list_active_for_reconcile, reconcilable, mark_gone, markable}
use incus.Ips.{release}
use incus.Reconcile.{
  Snapshot, alive_in, has_instance, or_else, or_else-conn, release_of, drop_vanished, reconcile_row,
  reconcile_cluster, count_over, count_over-conn, reconcile_row-Returns,
}
use incus.Reconcile.Rows.{rows, gone_at, listed-conn}

-- A connection on which no statement fails.
abbrev pub IsHealthy : Conn → Type 0
IsHealthy c = (n : ℕ) → c.fails n ≡ false

released-IsHealthy :
    (clock : ℕ → ℕ) (ip : Option ℕ) (c : Conn)
    → IsHealthy c
    → (let d = conn_of {A = ℕ} (or_else 0 (release_of clock ip >> pure 1) c) in
        (rows d ≡ rows c) × (d.fails ≡ c.fails))
unfolding release
released-IsHealthy clock none c h = (refl, refl)
released-IsHealthy clock (some ip) c h = (rw (rows, h c.tick) refl, rw (conn_of, h c.tick) refl)

drop_vanished-IsHealthy :
    (clock : ℕ → ℕ) (vm : Vm) (c : Conn)
    → IsHealthy c
    → (let d = conn_of (drop_vanished clock vm c) in
        (rows d ≡ update_where (markable vm.id) (gone_at (clock c.tick)) (rows c)) × IsHealthy d)
unfolding drop_vanished mark_gone
drop_vanished-IsHealthy clock vm c h =
    let marked = record c {
      tables = record c.tables {
        vms = update_where (markable vm.id) (gone_at (clock c.tick)) (rows c);
      };
      tick = c.tick + 1;
    } in
    let (same, steady) = released-IsHealthy clock vm.ip marked h in
    let still : (conn_of (drop_vanished clock vm c)).fails ≡ c.fails =
      rw (conn_of, drop_vanished, h c.tick) steady in
    (
      rw (rows, drop_vanished, h c.tick) same,
      λ n. subst (λ fails. fails n ≡ false) (sym still) (h n),
    )

module _ (clock : ℕ → ℕ) (cutoff : ℕ) (snap : Snapshot) where
  -- A row still in the list of those to compare: by its key and its name.
  abbrev Pending : List Vm → Vm → Type 0
  Pending [] v = ⊥
  Pending (vm ∷ rest) v = ((vm.id ≡ v.id) × (vm.name ≡ v.name)) ⊎ Pending rest v

  -- A live row of the cluster has an instance, or is still to be compared.
  abbrev IsDue : List Vm → Vm → Type 0
  IsDue pending v =
      reconcilable snap.id cutoff v ≡ true → (alive_in snap v ≡ true) ⊎ Pending pending v

  alive-step :
      (vm : Vm) (rest : List Vm) (v : Vm)
      → alive_in snap vm ≡ true
      → IsDue (vm ∷ rest) v
      → IsDue rest v
  alive-step vm rest v alive due hit = elim (due hit) [
    | inl here ↦ inl here
    | inr (inl (_, same)) ↦
        inl (subst (λ name. has_instance name snap.instance_names ≡ true) same alive)
    | inr (inr later) ↦ inr later
  ]

  gone-step :
      (vm : Vm) (t : ℕ) (rest : List Vm) (v : Vm)
      → IsDue (vm ∷ rest) v
      → IsDue rest (modify (markable vm.id) (gone_at t) v)
  gone-step vm t rest v due = elim (Bool-cases (markable vm.id v)) [
    | inl marked ↦ rw (marked) λ hit. absurd (ground (arith, hit))
    | inr kept ↦ rw (kept) λ hit. elim (due hit) [
      | inl here ↦ inl here
      | inr (inl (same, _)) ↦ absurd (ground (arith, hit, kept, same))
      | inr (inr later) ↦ inr later
    ]
  ]

  row_settles :
      (vm : Vm) (rest : List Vm) (c : Conn)
      → IsHealthy c
      → All (IsDue (vm ∷ rest)) (rows c)
      → (let d = conn_of (reconcile_row clock snap vm c) in IsHealthy d × All (IsDue rest) (rows d))
  row_settles vm rest c h due =
      let Settled = λ (b : Bool).
        let d = conn_of ((if b then pure 0 else drop_vanished clock vm) c) in
        IsHealthy d × All (IsDue rest) (rows d) in
      elim (Bool-cases (alive_in snap vm)) [
        | inl alive ↦
            subst Settled (sym alive) (h, All-map (λ v. alive-step vm rest v alive) (rows c) due)
        | inr dropped ↦
            let (table, steady) = drop_vanished-IsHealthy clock vm c h in
            subst Settled (sym dropped) (
              steady,
              subst (All (IsDue rest)) (sym table) (
                  All-update_where (IsDue (vm ∷ rest)) (IsDue rest) (markable vm.id)
                    (gone_at (clock c.tick)) (λ v. gone-step vm (clock c.tick) rest v) (rows c)
                    due),
            )
      ]

  reconcile_rows-settle :
      (pending : List Vm) (c : Conn)
      → IsHealthy c
      → All (IsDue pending) (rows c)
      → All (IsDue []) (rows (conn_of (count_over (reconcile_row clock snap) pending c)))
  unfolding count_over
  reconcile_rows-settle [] c h due = due
  reconcile_rows-settle (vm ∷ rest) c h due =
      let (steady, left) = row_settles vm rest c h due in
      subst (λ d. All (IsDue []) (rows d))
        (sym (
          count_over-conn (reconcile_row clock snap) vm rest c
            (reconcile_row-Returns clock snap vm)))
        (reconcile_rows-settle rest (conn_of (reconcile_row clock snap vm c)) steady left)

  IsDue-later : (v w : Vm) (pending : List Vm) → IsDue pending w → IsDue (v ∷ pending) w
  IsDue-later v w pending due hit = elim (due hit) [
    | inl here ↦ inl here
    | inr later ↦ inr (inr later)
  ]

  listed-IsDue :
      (table : List Vm) → All (IsDue (select_where (reconcilable snap.id cutoff) table)) table
  unfolding select_where
  listed-IsDue [] = _
  listed-IsDue (v ∷ table) =
      let rest = select_where (reconcilable snap.id cutoff) table in
      let Due = λ (l : List Vm). IsDue l v × All (IsDue l) table in
      let at = λ (b : Bool). if b then v ∷ rest else rest in
      elim (Bool-cases (reconcilable snap.id cutoff v)) [
        | inl hit ↦ subst Due (sym (ap at hit)) (
          λ _. inr (inl (refl, refl)),
          All-map (λ w. IsDue-later v w rest) table (listed-IsDue table),
        )
        | inr miss ↦
            subst Due (sym (ap at miss)) (λ e. absurd (ground (arith, e, miss)), listed-IsDue table)
      ]

  -- On a connection where no statement fails, once a cluster has been compared with its answer, no
  -- row is left that stands for a live VM of that cluster from before the cutoff and whose name is
  -- not in the answer.
  pub reconcile_cluster-settles :
      (c : Conn)
      → IsHealthy c
      → All
          (λ v. reconcilable snap.id cutoff v ≡ true → alive_in snap v ≡ true)
          (rows (conn_of (reconcile_cluster clock cutoff snap c)))
  unfolding reconcile_cluster
  reconcile_cluster-settles c h =
      let k = λ (vms : List Vm). count_over (reconcile_row clock snap) vms in
      let listed = select_where (reconcilable snap.id cutoff) (rows c) in
      let at =
        or_else-conn 0 (list_active_for_reconcile snap.id cutoff >>= k) c
        ∙ listed-conn cutoff snap k c
        ∙ ap (λ b. if b then sent c else conn_of (k listed (sent c))) (h c.tick) in
      All-map settled _ (
        subst (λ d. All (IsDue []) (rows d)) (sym at)
          (reconcile_rows-settle listed (sent c) h (listed-IsDue (rows c))))
    where
      settled :
          (v : Vm) → IsDue [] v → reconcilable snap.id cutoff v ≡ true → alive_in snap v ≡ true
      settled v due hit = elim (due hit) [ inl here ↦ here | inr left ↦ absurd left ]
