-- ===== src/Vms/Lifecycle.antt =====
-- The end of a VM's life, and the trash.
use incus.Base.{
  ℕ, ◌+◌, ◌≡◌, refl, Bool, true, false, not, ◌&&◌, Option, none, some, List, [], ◌∷◌, String, arith,
  ◌==◌, Option-cases, inl, inr,
}
use incus.Base.Table.{
  find, find-key, update_where, find-update_where, IsKeyed, count_where, count_where-hits,
  update_where-IsKeyed,
}
use incus.Models.{Vm, VmStatus, is_present}
use incus.Store.{Tables, Conn, M, returns, conn_of, healthy, ◌>>=◌, ◌>>◌, pure}
use incus.Vms.{
  Cipher, update_status, delete, update_after_provision, update_password, update_node,
  update_node_by_name, mark_gone, mark_gone_by_name, mark_trashed, unmark_trashed, set_rescue_state,
  clear_rescue_state, provisionable, provisioned, markable, live_named, with_status, with_node,
  trashable, trashed, restorable, restored, rescuable, rescued, in_rescue, unrescued,
}
use text.Mathlib.Text.{◌==◌ as str_eq}

-- The calls of the workers and of the trash and rescue handlers.
pub data VmCall : Type 0 where
  provisions : ℕ → String → String → VmCall
  sets_password : ℕ → String → VmCall
  moves : ℕ → String → VmCall
  moves_named : ℕ → String → String → VmCall
  loses : ℕ → VmCall
  loses_named : ℕ → String → VmCall
  trashes restores : ℕ → VmCall
  rescues : ℕ → String → VmCall
  unrescues : ℕ → VmCall
  sets_status : ℕ → VmStatus → VmCall
  deletes : ℕ → VmCall

-- A call at its time.
pub vm_call : Cipher → ℕ → VmCall → M (Unit {0})
vm_call x now (provisions id node password) = update_after_provision x id node password now
vm_call x now (sets_password id password) = update_password x id password now
vm_call x now (moves id node) = update_node id node now
vm_call x now (moves_named cluster_id name node) = update_node_by_name cluster_id name node now
vm_call x now (loses id) = mark_gone id now
vm_call x now (loses_named cluster_id name) = mark_gone_by_name cluster_id name now
vm_call x now (trashes id) = mark_trashed id now >> pure tt
vm_call x now (restores id) = unmark_trashed id now >> pure tt
vm_call x now (rescues id snapshot) = set_rescue_state id snapshot now >> pure tt
vm_call x now (unrescues id) = clear_rescue_state id now >> pure tt
vm_call x now (sets_status id status) = update_status id status now
vm_call x now (deletes id) = delete id now

-- One call after the other, whatever fails.
pub vm_calls : Cipher → List (ℕ × VmCall) → Conn → Conn
vm_calls x [] c = c
vm_calls x ((now, call) ∷ rest) c = vm_calls x rest (conn_of (vm_call x now call c))

-- There is such a row, and it is deleted or gone.
abbrev pub is_absent : Option Vm → Bool
is_absent none = false
is_absent (some v) = not (is_present v.status)

abbrev pub absent_of : ℕ → Tables → Bool
absent_of id t = is_absent (find Vm.id id t.vms)

-- UpdateStatus writes whatever it is given: of this VM, not a status that brings it back.
abbrev pub spares : ℕ → VmCall → Bool
spares id (sets_status i status) = not (i == id && is_present status)
spares id _ = true

abbrev pub all_spare : ℕ → List (ℕ × VmCall) → Bool
all_spare id [] = true
all_spare id ((now, call) ∷ rest) = spares id call && all_spare id rest

vm_call-absent :
    (x : Cipher) (id now : ℕ) (call : VmCall) (c : Conn)
    → spares id call ≡ true
    → absent_of id c.tables ≡ true
    → absent_of id (conn_of (vm_call x now call c)).tables ≡ true
unfolding vm_call update_after_provision update_password update_node update_node_by_name mark_gone
    mark_gone_by_name mark_trashed unmark_trashed set_rescue_state clear_rescue_state update_status
    delete
vm_call-absent x id now (provisions i node password) c spared h =
    elim (Option-cases (x.encrypt password)) [
      | inl missing ↦ ground arith
      | inr (e, sealed) ↦ ground (
        arith,
        find-update_where Vm.id id (provisionable i) (provisioned node e now) c.tables.vms
            (λ v. refl),
      )
    ]
vm_call-absent x id now (sets_password i password) c spared h =
    elim (Option-cases (x.encrypt password)) [
      | inl missing ↦ ground arith
      | inr (e, sealed) ↦ ground (
        arith,
        find-update_where Vm.id id (λ v. v.id == i)
            (λ v. record v { password = some e; updated_at = now }) c.tables.vms (λ v. refl),
      )
    ]
vm_call-absent x id now (moves i node) c spared h = ground (
  arith,
  find-update_where Vm.id id (λ v. v.id == i) (with_node node now) c.tables.vms (λ v. refl),
)
vm_call-absent x id now (moves_named k name node) c spared h = ground (
  arith,
  find-update_where Vm.id id (λ v. v.cluster_id == k && str_eq v.name name) (with_node node now)
      c.tables.vms (λ v. refl),
)
vm_call-absent x id now (loses i) c spared h = ground (
  arith,
  find-update_where Vm.id id (markable i) (with_status VmStatus.gone now) c.tables.vms (λ v. refl),
)
vm_call-absent x id now (loses_named k name) c spared h = ground (
  arith,
  find-update_where Vm.id id (live_named k name) (with_status VmStatus.gone now) c.tables.vms
      (λ v. refl),
)
vm_call-absent x id now (trashes i) c spared h =
    ground (arith, find-update_where Vm.id id (trashable i) (trashed now) c.tables.vms (λ v. refl))
vm_call-absent x id now (restores i) c spared h =
    ground
      (arith, find-update_where Vm.id id (restorable i) (restored now) c.tables.vms (λ v. refl))
vm_call-absent x id now (rescues i snapshot) c spared h = ground (
  arith,
  find-update_where Vm.id id (rescuable i) (rescued snapshot now) c.tables.vms (λ v. refl),
)
vm_call-absent x id now (unrescues i) c spared h =
    ground
      (arith, find-update_where Vm.id id (in_rescue i) (unrescued now) c.tables.vms (λ v. refl))
vm_call-absent x id now (sets_status i status) c spared h =
    elim (Option-cases (find Vm.id id c.tables.vms)) [
      | inl missing ↦ absurd (ground arith)
      | inr (v, e) ↦ ground (
        arith,
        find-update_where Vm.id id (λ v. v.id == i) (with_status status now) c.tables.vms
            (λ v. refl),
        find-key Vm.id id c.tables.vms v e,
      )
    ]
vm_call-absent x id now (deletes i) c spared h = ground (
  arith,
  find-update_where Vm.id id (λ v. v.id == i) (with_status VmStatus.deleted now) c.tables.vms
      (λ v. refl),
)

-- A VM that is deleted or gone stays so: however the workers, the trash, the rescue mode and the
-- rollbacks go on about any VMs, and whatever fails, their calls do not bring it back, unless
-- UpdateStatus is among them and gives this VM a status other than deleted and gone.
pub absent_forever :
    (x : Cipher) (id : ℕ) (calls : List (ℕ × VmCall)) (c : Conn)
    → all_spare id calls ≡ true
    → absent_of id c.tables ≡ true
    → absent_of id (vm_calls x calls c).tables ≡ true
unfolding vm_calls
absent_forever x id [] c spared h = h
absent_forever x id ((now, call) ∷ rest) c spared h =
    absent_forever x id rest (conn_of (vm_call x now call c)) (ground (arith, spared))
      (vm_call-absent x id now call c (ground (arith, spared)) h)

-- The trash gives back what it takes: where no statement fails, a VM that is neither deleted nor
-- gone and is put into the trash and restored has its row as before, but for the time of the
-- update, and both calls report that they took effect.
pub restore-undoes-trash :
    (id now later tick serial : ℕ) (t : Tables) (v : Vm)
    → IsKeyed Vm.id t.vms
    → find Vm.id id t.vms ≡ some v
    → is_present v.status ≡ true
    → v.trashed_at ≡ none
    → v.trashed_prev_status ≡ none
    → (d : Conn) × ((mark_trashed id now >>= λ (a : Bool).
            unmark_trashed id later >>= λ (b : Bool). pure (a && b))
          (healthy t tick serial)
        ≡ returns true d)
      × (find Vm.id id d.tables.vms ≡ some (record v { updated_at = later }))
unfolding mark_trashed unmark_trashed
restore-undoes-trash id now later tick serial t v keyed found present kept fresh =
    let rows = update_where (trashable id) (trashed now) t.vms in
    let in_bin : find Vm.id id rows ≡ some (trashed now v) = ground (
      arith,
      found,
      find-update_where Vm.id id (trashable id) (trashed now) t.vms (λ r. refl),
      find-key Vm.id id t.vms v found,
    ) in
    let keyed_rows =
      update_where-IsKeyed Vm.id (trashable id) (trashed now) t.vms (λ r. refl) keyed in
    let one : count_where (trashable id) t.vms ≡ 1 = ground (
      arith,
      count_where-hits Vm.id id (trashable id) t.vms (λ r h. ground arith) keyed,
      find-key Vm.id id t.vms v found,
    ) in
    let one_back : count_where (restorable id) rows ≡ 1 = ground (
      arith,
      count_where-hits Vm.id id (restorable id) rows (λ r h. ground arith) keyed_rows,
      find-key Vm.id id t.vms v found,
    ) in
    (
      healthy (record t { vms = update_where (restorable id) (restored later) rows }) (tick + 1 + 1)
          serial,
      rw (one, one_back) refl,
      ground (
        arith,
        in_bin,
        find-update_where Vm.id id (restorable id) (restored later) rows (λ r. refl),
        find-key Vm.id id t.vms v found,
      ),
    )
