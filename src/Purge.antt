-- ===== src/Purge.antt =====
-- The purge of the trash (incus-admin/internal/worker/vm_trash_purger.go), with ListTrashedBefore of
-- internal/repository/vm.go. What service.PurgeTrashed answers is a parameter: nothing, or the text
-- of an error. Log lines are left out.
pub mod Only
use Prim.Native.Char.{code}
use Prim.Native.String.{String}
use incus.Base.Text.{lower}
use incus.Base.{
  ℕ, ◌+◌, ◌-◌, Bool, true, false, not, ◌&&◌, ◌||◌, Option, none, some, List, [], ◌∷◌, if◌then◌else◌,
  leb, ltb, ◌==◌,
}
use incus.Base.Table.{select_where}
use incus.Base.Sort.{sort_stable}
use incus.Models.{Vm, VmStatus}
use incus.Store.{M, Error, ok, returns, raises, pure, wrap, statement, logged, ◌>>=◌, ◌>>◌}
use incus.Vms.{delete}
use incus.Clusters.{Manager}
use text.Mathlib.Text.{◌==◌ as str_eq}

abbrev pub is_deleted : VmStatus → Bool
is_deleted VmStatus.deleted = true
is_deleted _ = false

abbrev pub is_past : Option ℕ → ℕ → Bool
is_past none cutoff = false
is_past (some at) cutoff = leb at cutoff

abbrev pub purgeable : ℕ → Vm → Bool
purgeable cutoff v = is_past v.trashed_at cutoff && not (is_deleted v.status)

abbrev pub or_zero : Option ℕ → ℕ
or_zero none = 0
or_zero (some at) = at

-- ORDER BY trashed_at ASC
abbrev pub trashed_first : Vm → Vm → Bool
trashed_first a b = ltb (or_zero a.trashed_at) (or_zero b.trashed_at)

unfoldable pub list_trashed_before : ℕ → M (List Vm)
list_trashed_before cutoff =
    wrap "list trashed before"
      (statement λ t. ok (sort_stable trashed_first (select_where (purgeable cutoff) t.vms), t))

-- strings.Contains in strings.ToLower of a text, for a part in lower case.
unfoldable pub begins : String → String → Bool
begins String.[] s = true
begins (String.◌∷◌ d part) String.[] = false
begins (String.◌∷◌ d part) (String.◌∷◌ c s) = (lower (code c) == code d) && begins part s

unfoldable pub has_part : String → String → Bool
has_part part String.[] = begins part ""
has_part part (String.◌∷◌ c s) = begins part (String.◌∷◌ c s) || has_part part s

unfoldable pub is_already_gone_err : String → Bool
is_already_gone_err e =
    has_part "instance not found" e || has_part "not found" e || has_part "no such object" e

module _ (purge : ℕ → String → String → String → Option String) (manager : Manager)
    (clock : ℕ → ℕ) where
  -- The clusters by id: of two with one id, the later.
  unfoldable pub name_of : ℕ → List String → String → String
  name_of id [] found = found
  name_of id (name ∷ rest) found =
      let n = manager.id_by_name name in
      name_of id rest (if not (n == 0) && (n == id) then name else found)

  abbrev pub cluster_name : Vm → String
  cluster_name vm = name_of vm.cluster_id manager.clients ""

  abbrev pub timed : {A : Type 0} → (ℕ → M A) → M A
  timed f c = f (clock c.tick) c

  -- Whether the instance is no more.
  abbrev pub is_purged : Option String → Bool
  is_purged none = true
  is_purged (some e) = is_already_gone_err e

  abbrev pub delete_purged : Vm → Bool → M (Unit {0})
  delete_purged vm false = pure tt
  delete_purged vm true = logged (timed (delete vm.id))

  abbrev pub purge_in : Vm → String → M (Unit {0})
  purge_in vm cluster c = delete_purged vm (is_purged (purge c.tick cluster "customers" vm.name)) c

  abbrev pub purge_row : Vm → M (Unit {0})
  purge_row vm =
      let cluster = cluster_name vm in if str_eq cluster "" then pure tt else purge_in vm cluster

  unfoldable pub purge_rows : List Vm → M (Unit {0})
  purge_rows [] = pure tt
  purge_rows (vm ∷ rest) = purge_row vm >> purge_rows rest

  -- One tick of the worker at the time `now`.
  unfoldable pub purge_pass : ℕ → ℕ → M (Unit {0})
  purge_pass now window = logged (list_trashed_before (now - window) >>= purge_rows)
