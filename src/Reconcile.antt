-- ===== src/Reconcile.antt =====
-- The VM reconciler (incus-admin/internal/worker/vm_reconciler.go): it compares the rows of live VMs
-- with what each cluster reports, marks what has vanished as gone and releases its address. What a
-- cluster reports is a parameter, as are the time at each statement and the configured buffer.
-- Audit rows are left out; a log line is the value that says which one is written.
pub mod Rows
pub mod Vanished
pub mod Complete
use incus.Base.{
  ℕ, suc, ◌+◌, ◌-◌, String, Bool, true, false, Option, none, some, List, [], ◌∷◌, if◌then◌else◌,
  ltb, ◌==◌, ◌||◌, ◌≡◌, refl, ap, Bool-cases, inl, inr, ◌∙◌,
}
use incus.Models.{Vm}
use incus.Store.{Conn, conn_of, Error, M, Outcome, returns, raises, pure, ◌>>=◌, ◌>>◌, logged}
use incus.Vms.{list_active_for_reconcile, mark_gone}
use incus.Ips.{release}
use text.Mathlib.Text.{◌==◌ as str_eq}

-- `unreached` is an Err that is not nil.
pub record Snapshot : Type 0 where
  pub id : ℕ
  pub instance_names : List String
  pub unreached : Bool

abbrev pub has_instance : String → List String → Bool
has_instance name [] = false
has_instance name (n ∷ rest) = str_eq n name || has_instance name rest

abbrev pub alive_in : Snapshot → Vm → Bool
alive_in snap vm = has_instance vm.name snap.instance_names

-- A call whose error is logged, with what stands for its value then.
abbrev pub or_else : {A : Type 0} → A → M A → M A
or_else a m c = elim (m c) [ returns b d ↦ returns b d | raises e d ↦ returns a d ]

-- `for … range` with a counter, where no error leaves the loop's body.
unfoldable pub count_over : {X : Type 0} → (X → M ℕ) → List X → M ℕ
count_over f [] = pure 0
count_over f (x ∷ rest) = do n ← f x; m ← count_over f rest; pure (n + m)

module _ (clock : ℕ → ℕ) where
  abbrev pub timed : {A : Type 0} → (ℕ → M A) → M A
  timed f c = f (clock c.tick) c

  abbrev pub release_of : Option ℕ → M (Unit {0})
  release_of none = pure tt
  release_of (some ip) = logged (timed (release ip))

  -- One row that the cluster does not have: how many drifts it adds.
  unfoldable pub drop_vanished : Vm → M ℕ
  drop_vanished vm = or_else 0 (timed (mark_gone vm.id) >>= λ _. release_of vm.ip >> pure 1)

  abbrev pub reconcile_row : Snapshot → Vm → M ℕ
  reconcile_row snap vm = if alive_in snap vm then pure 0 else drop_vanished vm

  unfoldable pub reconcile_cluster : ℕ → Snapshot → M ℕ
  reconcile_cluster cutoff snap =
      or_else 0
        (list_active_for_reconcile snap.id cutoff >>= λ vms. count_over (reconcile_row snap) vms)

  abbrev pub reconcile_snapshot : ℕ → Snapshot → M ℕ
  reconcile_snapshot cutoff snap = if snap.unreached then pure 0 else reconcile_cluster cutoff snap

  abbrev pub reconcile_all : ℕ → List Snapshot → M ℕ
  reconcile_all cutoff = count_over (reconcile_snapshot cutoff)

pub data DriftLog : Type 0 where
  no_drift : DriftLog
  drift_corrected : ℕ → DriftLog
  high_drift : ℕ → DriftLog

abbrev pub drift_log : ℕ → ℕ → DriftLog
drift_log threshold n =
    if ltb threshold n then high_drift n else if ltb 0 n then drift_corrected n else no_drift

-- The configuration's values where they are not positive.
abbrev pub or_default : ℕ → ℕ → ℕ
or_default d n = if n == 0 then d else n

-- runReconcileOnce at the time `now`, as RunVMReconcilerOnce calls it.
unfoldable pub reconcile_once : (ℕ → ℕ) → ℕ → ℕ → ℕ → List Snapshot → M DriftLog
reconcile_once clock now create_buffer threshold snapshots = do
  n ← reconcile_all clock (now - or_default 10 create_buffer) snapshots
  pure (drift_log (or_default 5 threshold) n)

-- A body that always returns: the loop goes on with the connection that it leaves.
abbrev pub Returns : M ℕ → Type 0
Returns m = (c : Conn) → (n : ℕ) × (m c ≡ returns n (conn_of (m c)))

pub or_else-Returns : (a : ℕ) (m : M ℕ) → Returns (or_else a m)
or_else-Returns a m c = at (m c)
  where
    at :
        (o : Outcome ℕ)
        → (let r : Outcome ℕ = elim o [ returns b d ↦ returns b d | raises e d ↦ returns a d ] in
            (n : ℕ) × (r ≡ returns n (conn_of r)))
    at (returns b d) = (b, refl)
    at (raises e d) = (a, refl)

pub or_else-conn : (a : ℕ) (m : M ℕ) (c : Conn) → conn_of (or_else a m c) ≡ conn_of (m c)
or_else-conn a m c = at (m c)
  where
    at :
        (o : Outcome ℕ)
        → conn_of {A = ℕ} (elim o [ returns b d ↦ returns b d | raises e d ↦ returns a d ])
          ≡ conn_of o
    at (returns b d) = refl
    at (raises e d) = refl

module _ (clock : ℕ → ℕ) where
  pub drop_vanished-Returns : (vm : Vm) → Returns (drop_vanished clock vm)
  unfolding drop_vanished
  drop_vanished-Returns vm =
      or_else-Returns 0 (timed clock (mark_gone vm.id) >>= λ _. release_of clock vm.ip >> pure 1)

  pub reconcile_row-Returns : (snap : Snapshot) (vm : Vm) → Returns (reconcile_row clock snap vm)
  reconcile_row-Returns snap vm c = elim (Bool-cases (alive_in snap vm)) [
    | inl alive ↦ rw (alive) (0, refl)
    | inr dropped ↦ rw (dropped) (drop_vanished-Returns vm c)
  ]

  pub reconcile_cluster-Returns :
      (cutoff : ℕ) (snap : Snapshot) → Returns (reconcile_cluster clock cutoff snap)
  unfolding reconcile_cluster
  reconcile_cluster-Returns cutoff snap = or_else-Returns 0 (
      list_active_for_reconcile snap.id cutoff >>= λ vms. count_over (reconcile_row clock snap) vms)

-- What only changes the value leaves the connection.
pub then_pure :
    {B : Type 0} (g : ℕ → B) (m : M ℕ) (c : Conn)
    → conn_of ((m >>= λ n. pure (g n)) c) ≡ conn_of (m c)
then_pure {B} g m c = at (m c)
  where
    at :
        (o : Outcome ℕ)
        → conn_of {A = B} (elim o [ returns n d ↦ returns (g n) d | raises e d ↦ raises e d ])
          ≡ conn_of o
    at (returns n d) = refl
    at (raises e d) = refl

pub count_over-conn :
    {X : Type 0} (f : X → M ℕ) (x : X) (rest : List X) (c : Conn)
    → Returns (f x)
    → conn_of (count_over f (x ∷ rest) c) ≡ conn_of (count_over f rest (conn_of (f x c)))
unfolding count_over
count_over-conn f x rest c total =
    let (n, e) = total c in
    ap (λ o. conn_of (((λ _. o) >>= λ k. count_over f rest >>= λ m. pure (k + m)) c)) e
    ∙ then_pure (λ m. n + m) (count_over f rest) (conn_of (f x c))
