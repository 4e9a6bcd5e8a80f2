-- ===== src/Reconcile/Vanished.antt =====
-- What a whole pass of the reconciler (incus-admin/internal/worker/vm_reconciler.go) may change: a row of
-- a VM that its cluster answered without.
use incus.Base.{
  ◌-◌, ℕ, Bool, true, false, List, [], ◌∷◌, ◌≡◌, ◌⊎◌, inl, inr, refl, sym, ap, ◌∙◌, subst, arith,
  Bool-cases, if◌then◌else◌,
}
use incus.Base.Table.{select_where, IsKeyed}
use incus.Base.Select.{select_where-hits}
use incus.Base.Sort.{All-map}
use incus.Models.{Vm, is_live}
use incus.Store.{Conn, sent, returns, conn_of, pure, ◌>>=◌}
use incus.Vms.{list_active_for_reconcile, reconcilable}
use incus.Reconcile.Rows.{
  rows, GoneOnly, GoneOnly-same, GoneOnly-trans, GoneOnly-map, listed-conn, reconcile_rows-GoneOnly,
}
use incus.Reconcile.{
  then_pure, drift_log, reconcile_once, or_default, or_else-conn, Snapshot, alive_in, reconcile_row,
  reconcile_snapshot, count_over, count_over-conn, reconcile_cluster-Returns, Returns,
  reconcile_cluster, reconcile_all,
}

-- A row that a cluster's list of live VMs has and that its answer does not.
abbrev pub VanishedIn : ℕ → Snapshot → Vm → Type 0
VanishedIn cutoff snap v = (reconcilable snap.id cutoff v ≡ true) × (alive_in snap v ≡ false)

vanished-live :
    (cutoff : ℕ) (snap : Snapshot) (v : Vm) → VanishedIn cutoff snap v → is_live v.status ≡ true
vanished-live cutoff snap v (listed, absent) = ground (arith, listed)

reconcile_cluster-GoneOnly :
    (clock : ℕ → ℕ) (cutoff : ℕ) (snap : Snapshot) (c : Conn)
    → IsKeyed Vm.id (rows c)
    → GoneOnly (VanishedIn cutoff snap) c (conn_of (reconcile_cluster clock cutoff snap c))
unfolding reconcile_cluster
reconcile_cluster-GoneOnly clock cutoff snap c keyed =
    let k = λ (vms : List Vm). count_over (reconcile_row clock snap) vms in
    let P = VanishedIn cutoff snap in
    let listed = select_where (reconcilable snap.id cutoff) (rows c) in
    let hits = select_where-hits Vm.id (reconcilable snap.id cutoff) (rows c) keyed in
    subst (GoneOnly P c)
      (sym (
        or_else-conn 0 (list_active_for_reconcile snap.id cutoff >>= k) c
        ∙ listed-conn cutoff snap k c))
      (elim (c.fails c.tick)
        as (λ b. GoneOnly P c (if b then sent c else conn_of (k listed (sent c)))) [
          | true ↦ GoneOnly-same P c (sent c) refl
          | false ↦
              GoneOnly-trans P (vanished-live cutoff snap) c (sent c) (conn_of (k listed (sent c)))
                (GoneOnly-same P c (sent c) refl)
                (reconcile_rows-GoneOnly P (vanished-live cutoff snap) clock snap listed (sent c) (
                  All-map
                    (λ v (hit, found).
                      (λ absent. (hit, absent), λ w e present. ground (arith, e, found)))
                    listed hits))
        ])

abbrev pub VanishedFrom : ℕ → List Snapshot → Vm → Type 0
VanishedFrom cutoff [] v = ⊥
VanishedFrom cutoff (snap ∷ rest) v =
    ((snap.unreached ≡ false) × VanishedIn cutoff snap v) ⊎ VanishedFrom cutoff rest v

from-live :
    (cutoff : ℕ) (snaps : List Snapshot) (v : Vm)
    → VanishedFrom cutoff snaps v
    → is_live v.status ≡ true
from-live cutoff [] v h = absurd h
from-live cutoff (snap ∷ rest) v (inl (_, h)) = vanished-live cutoff snap v h
from-live cutoff (snap ∷ rest) v (inr h) = from-live cutoff rest v h

reconcile_snapshot-GoneOnly :
    (clock : ℕ → ℕ) (cutoff : ℕ) (snap : Snapshot) (rest : List Snapshot) (c : Conn)
    → IsKeyed Vm.id (rows c)
    → GoneOnly
        (VanishedFrom cutoff (snap ∷ rest))
        c
        (conn_of (reconcile_snapshot clock cutoff snap c))
reconcile_snapshot-GoneOnly clock cutoff snap rest c keyed =
    let P = VanishedFrom cutoff (snap ∷ rest) in
    let after =
      λ (b : Bool). conn_of ((if b then pure 0 else reconcile_cluster clock cutoff snap) c) in
    elim (Bool-cases (snap.unreached)) [
      | inl skipped ↦ GoneOnly-same P c (after snap.unreached) (ap (λ b. rows (after b)) skipped)
      | inr reached ↦
          subst (λ b. GoneOnly P c (after b)) (sym reached)
            (GoneOnly-map (λ v p. inl (reached, p)) c (after false)
              (reconcile_cluster-GoneOnly clock cutoff snap c keyed))
    ]

reconcile_snapshot-Returns :
    (clock : ℕ → ℕ) (cutoff : ℕ) (snap : Snapshot) → Returns (reconcile_snapshot clock cutoff snap)
reconcile_snapshot-Returns clock cutoff snap c =
    elim (snap.unreached)
      as (λ b.
        let m = if b then pure 0 else reconcile_cluster clock cutoff snap in
        (n : ℕ) × (m c ≡ returns n (conn_of (m c)))) [
          | true ↦ (0, refl)
          | false ↦ reconcile_cluster-Returns clock cutoff snap c
        ]

reconcile_all-GoneOnly :
    (clock : ℕ → ℕ) (cutoff : ℕ) (snaps : List Snapshot) (c : Conn)
    → IsKeyed Vm.id (rows c)
    → GoneOnly (VanishedFrom cutoff snaps) c (conn_of (reconcile_all clock cutoff snaps c))
unfolding count_over
reconcile_all-GoneOnly clock cutoff [] c keyed = GoneOnly-same (VanishedFrom cutoff []) c c refl
reconcile_all-GoneOnly clock cutoff (snap ∷ rest) c keyed =
    let P = VanishedFrom cutoff (snap ∷ rest) in
    let first = conn_of (reconcile_snapshot clock cutoff snap c) in
    let head = reconcile_snapshot-GoneOnly clock cutoff snap rest c keyed in
    let tail = reconcile_all-GoneOnly clock cutoff rest first (head.keyed keyed) in
    subst (GoneOnly P c)
      (sym (
        count_over-conn (reconcile_snapshot clock cutoff) snap rest c
          (reconcile_snapshot-Returns clock cutoff snap)))
      (GoneOnly-trans P (from-live cutoff (snap ∷ rest)) c first
        (conn_of (reconcile_all clock cutoff rest first)) head
        (GoneOnly-map (λ v p. inr p) first (conn_of (reconcile_all clock cutoff rest first)) tail))

-- Whatever statements fail, and where the rows have a primary key, a pass of the reconciler leaves
-- each VM's row as it was, or it has marked it gone: then the row was live, not in the trash and
-- made before the cutoff, in a cluster that answered the pass, and no instance of its name is in
-- that answer.
pub reconcile_once-GoneOnly :
    (clock : ℕ → ℕ) (now create_buffer threshold : ℕ) (snaps : List Snapshot) (c : Conn)
    → IsKeyed Vm.id (rows c)
    → GoneOnly
        (VanishedFrom (now - or_default 10 create_buffer) snaps)
        c
        (conn_of (reconcile_once clock now create_buffer threshold snaps c))
unfolding reconcile_once
reconcile_once-GoneOnly clock now create_buffer threshold snaps c keyed =
    let cutoff = now - or_default 10 create_buffer in
    subst (GoneOnly (VanishedFrom cutoff snaps) c)
      (sym (then_pure (drift_log (or_default 5 threshold)) (reconcile_all clock cutoff snaps) c))
      (reconcile_all-GoneOnly clock cutoff snaps c keyed)
