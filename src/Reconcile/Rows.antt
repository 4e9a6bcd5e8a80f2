-- ===== src/Reconcile/Rows.antt =====
-- What a pass of the reconciler (incus-admin/internal/worker/vm_reconciler.go) may change: a row of
-- a VM that its cluster answered without.
use incus.Base.{
  ℕ, true, false, Option, none, some, List, [], ◌∷◌, ◌≡◌, ◌⊎◌, inl, inr, refl, sym, ap, ◌∙◌, subst,
  arith, Bool-cases, Option-cases, if◌then◌else◌,
}
use incus.Base.Table.{
  find, find-key, find-update_where, update_where, update_where-IsKeyed, select_where, IsKeyed,
}
use incus.Base.Sort.{All, All-map}
use incus.Models.{Vm, VmStatus, is_present, is_live}
use incus.Store.{Conn, sent, M, conn_of, pure, ◌>>=◌, ◌>>◌}
use incus.Vms.{list_active_for_reconcile, reconcilable, mark_gone, markable, with_status}
use incus.Ips.{release}
use incus.Reconcile.{
  reconcile_row-Returns, or_else, release_of, Snapshot, alive_in, drop_vanished, reconcile_row,
  count_over, count_over-conn,
}

abbrev pub rows : Conn → List Vm
rows c = c.tables.vms

abbrev pub gone_at : ℕ → Vm → Vm
gone_at t v = with_status VmStatus.gone t v

-- Each row is as it was, or it is gone and was one of those that P speaks of.
pub record GoneOnly (P : Vm → Type 0) (c d : Conn) : Type 0 where
  pub row :
      (i : ℕ)
      → (find Vm.id i (rows d) ≡ find Vm.id i (rows c))
        ⊎ ((v : Vm) × (t : ℕ) × (find Vm.id i (rows c) ≡ some v)
            × P v
            × (find Vm.id i (rows d) ≡ some (gone_at t v)))
  pub keyed : IsKeyed Vm.id (rows c) → IsKeyed Vm.id (rows d)

module _ (P : Vm → Type 0) where
  pub GoneOnly-same : (c d : Conn) → rows d ≡ rows c → GoneOnly P c d
  GoneOnly-same c d e = record {
    row = λ i. inl (ap (find Vm.id i) e);
    keyed = λ h. subst (IsKeyed Vm.id) (sym e) h;
  }

  -- A row that is gone is none of those that P speaks of.
  module _ (live : (v : Vm) → P v → is_live v.status ≡ true) where
    pub GoneOnly-trans : (c d e : Conn) → GoneOnly P c d → GoneOnly P d e → GoneOnly P c e
    GoneOnly-trans c d e f g = record {
      row = λ i. through i (f.row i) (g.row i);
      keyed = λ h. g.keyed (f.keyed h);
    }
      where
        through :
            (i : ℕ)
            → (find Vm.id i (rows d) ≡ find Vm.id i (rows c))
              ⊎ ((v : Vm) × (t : ℕ) × (find Vm.id i (rows c) ≡ some v)
                  × P v
                  × (find Vm.id i (rows d) ≡ some (gone_at t v)))
            → (find Vm.id i (rows e) ≡ find Vm.id i (rows d))
              ⊎ ((v : Vm) × (t : ℕ) × (find Vm.id i (rows d) ≡ some v)
                  × P v
                  × (find Vm.id i (rows e) ≡ some (gone_at t v)))
            → (find Vm.id i (rows e) ≡ find Vm.id i (rows c))
              ⊎ ((v : Vm) × (t : ℕ) × (find Vm.id i (rows c) ≡ some v)
                  × P v
                  × (find Vm.id i (rows e) ≡ some (gone_at t v)))
        through i (inl a) (inl b) = inl (b ∙ a)
        through i (inl a) (inr (v, t, before, p, after)) = inr (v, t, sym a ∙ before, p, after)
        through i (inr (v, t, before, p, after)) (inl b) = inr (v, t, before, p, b ∙ after)
        through i (inr (v, t, before, p, after)) (inr (w, u, again, q, last)) =
            absurd (ground (arith, live w q, sym after ∙ again))

released-rows :
    (clock : ℕ → ℕ) (ip : Option ℕ) (c : Conn)
    → rows (conn_of {A = ℕ} (or_else 0 (release_of clock ip >> pure 1) c)) ≡ rows c
unfolding release
released-rows clock none c = refl
released-rows clock (some ip) c = elim (Bool-cases (c.fails c.tick)) [
  | inl failed ↦ rw (rows, failed) refl
  | inr sent_off ↦ rw (rows, sent_off) refl
]

-- What a dropped row does to the table of VMs.
drop_vanished-rows :
    (clock : ℕ → ℕ) (vm : Vm) (c : Conn)
    → (let d = conn_of (drop_vanished clock vm c) in
        (rows d ≡ rows c)
        ⊎ ((t : ℕ) × (rows d ≡ update_where (markable vm.id) (gone_at t) (rows c))))
unfolding drop_vanished mark_gone
drop_vanished-rows clock vm c = elim (Bool-cases (c.fails c.tick)) [
  | inl failed ↦ inl (rw (rows, drop_vanished, failed) refl)
  | inr sent_off ↦
      inr (clock c.tick, rw (rows, drop_vanished, sent_off) (released-rows clock vm.ip _))
]

-- The row of a listed VM: it is still the one listed, or no longer present.
abbrev StillListed : Conn → Vm → Type 0
StillListed c vm =
    (v : Vm) → find Vm.id vm.id (rows c) ≡ some v → is_present v.status ≡ true → v ≡ vm

module _ (P : Vm → Type 0) (live : (v : Vm) → P v → is_live v.status ≡ true) where
  StillListed-GoneOnly :
      (c d : Conn) → GoneOnly P c d → (vm : Vm) → StillListed c vm → StillListed d vm
  StillListed-GoneOnly c d f vm h v e present = elim (f.row vm.id) [
    | inl same ↦ h v (sym same ∙ e) present
    | inr (w, t, before, p, after) ↦ absurd (ground (arith, sym after ∙ e))
  ]

  drop_vanished-GoneOnly :
      (clock : ℕ → ℕ) (vm : Vm) (c : Conn)
      → P vm
      → StillListed c vm
      → GoneOnly P c (conn_of (drop_vanished clock vm c))
  drop_vanished-GoneOnly clock vm c p listed = elim (drop_vanished-rows clock vm c) [
    | inl same ↦ GoneOnly-same P c (conn_of (drop_vanished clock vm c)) same
    | inr (t, e) ↦ record {
      row = λ i. row_of i t e;
      keyed = λ h.
          subst (IsKeyed Vm.id) (sym e)
            (update_where-IsKeyed Vm.id (markable vm.id) (gone_at t) (rows c) (λ r. refl) h);
    }
  ]
    where
      row_of :
          (i t : ℕ)
          → rows (conn_of (drop_vanished clock vm c))
            ≡ update_where (markable vm.id) (gone_at t) (rows c)
          → (find Vm.id i (rows (conn_of (drop_vanished clock vm c))) ≡ find Vm.id i (rows c))
            ⊎ ((v : Vm) × (t : ℕ) × (find Vm.id i (rows c) ≡ some v)
                × P v
                × (find Vm.id i (rows (conn_of (drop_vanished clock vm c))) ≡ some (gone_at t v)))
      row_of i t e =
          let seen =
            ap (find Vm.id i) e
            ∙ find-update_where Vm.id i (markable vm.id) (gone_at t) (rows c) (λ r. refl) in
          elim (Option-cases (find Vm.id i (rows c))) [
            | inl absent ↦ inl (ground (arith, seen, absent))
            | inr (v, found) ↦ elim (Bool-cases (markable vm.id v)) [
              | inl hit ↦
                  let at : vm.id ≡ i = ground (arith, hit, find-key Vm.id i (rows c) v found) in
                  let present : is_present v.status ≡ true = ground (arith, hit) in
                  let the_row =
                    listed v (subst (λ k. find Vm.id k (rows c) ≡ some v) (sym at) found) present in
                  inr (v, t, found, subst P (sym the_row) p, ground (arith, seen, found, hit))
              | inr miss ↦ inl (ground (arith, seen, found, miss))
            ]
          ]

  -- What the listed rows must meet: those without an instance are such as P speaks of.
  abbrev AreListed : Snapshot → Conn → List Vm → Type 0
  AreListed snap c = All (λ vm. (alive_in snap vm ≡ false → P vm) × StillListed c vm)

  reconcile_row-GoneOnly :
      (clock : ℕ → ℕ) (snap : Snapshot) (vm : Vm) (c : Conn)
      → (alive_in snap vm ≡ false → P vm)
      → StillListed c vm
      → GoneOnly P c (conn_of (reconcile_row clock snap vm c))
  reconcile_row-GoneOnly clock snap vm c p listed = elim (Bool-cases (alive_in snap vm)) [
    | inl alive ↦ rw (alive) (GoneOnly-same P c c refl)
    | inr dropped ↦ rw (dropped) (drop_vanished-GoneOnly clock vm c (p dropped) listed)
  ]

  pub reconcile_rows-GoneOnly :
      (clock : ℕ → ℕ) (snap : Snapshot) (vms : List Vm) (c : Conn)
      → AreListed snap c vms
      → GoneOnly P c (conn_of (count_over (reconcile_row clock snap) vms c))
  unfolding count_over
  reconcile_rows-GoneOnly clock snap [] c h = GoneOnly-same P c c refl
  reconcile_rows-GoneOnly clock snap (vm ∷ rest) c ((p, listed), h) =
      let first = conn_of (reconcile_row clock snap vm c) in
      let head = reconcile_row-GoneOnly clock snap vm c p listed in
      let tail =
        reconcile_rows-GoneOnly clock snap rest first
          (All-map (λ v (q, still). (q, StillListed-GoneOnly c first head v still)) rest h) in
      subst (GoneOnly P c)
        (sym (
          count_over-conn (reconcile_row clock snap) vm rest c
            (reconcile_row-Returns clock snap vm)))
        (GoneOnly-trans P live c first _ head tail)

-- The list of a cluster's live VMs, with what follows.
pub listed-conn :
    (cutoff : ℕ) (snap : Snapshot) (k : List Vm → M ℕ) (c : Conn)
    → (let listed = select_where (reconcilable snap.id cutoff) (rows c) in
        conn_of ((list_active_for_reconcile snap.id cutoff >>= k) c)
        ≡ (if c.fails c.tick then sent c else conn_of (k listed (sent c))))
unfolding list_active_for_reconcile
listed-conn cutoff snap k c = elim (Bool-cases (c.fails c.tick)) [
  | inl failed ↦ rw (conn_of, ◌>>=◌, failed) refl
  | inr answered ↦ rw (conn_of, ◌>>=◌, answered) refl
]

pub GoneOnly-map :
    {P Q : Vm → Type 0} → ((v : Vm) → P v → Q v) → (c d : Conn) → GoneOnly P c d → GoneOnly Q c d
GoneOnly-map f c d g = record {
  row = λ i. elim (g.row i) [
    | inl same ↦ inl same
    | inr (v, t, before, p, after) ↦ inr (v, t, before, f v p, after)
  ];
  keyed = g.keyed;
}
