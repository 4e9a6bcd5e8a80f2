-- ===== src/FloatingIps/Handlers.antt =====
-- The handlers of floating IPs (incus-admin/internal/handler/portal/floating_ip.go): attaching with
-- its roll-back, detaching, the calls of a VM's owner, and the release.
use incus.Base.{
  ℕ, String, Bool, true, false, Option, none, some, List, [], ◌∷◌, if◌then◌else◌, ◌==◌,
}
use incus.Models.{FloatingIp, Vm}
use incus.Store.{Error, Result, ok, err, M, returns, raises, pure, ◌>>=◌}
use incus.Vms
use incus.Clusters.{Manager, ClusterConfig, config_by_name}
use incus.FloatingIps.{
  NicApi, is_free, get_fip, attach, detach, release_floating_ip, update_vm_filtering, allocate,
}
use text.Mathlib.Text.{◌==◌ as str_eq}

-- What a handler answers.
pub data FipAnswer : Type 0 where
  fip_error : Error → FipAnswer
  fip_missing : FipAnswer
  already_attached : FipAnswer
  raced : FipAnswer
  attach_failed : Error → FipAnswer
  rollback_failed : Error → Error → FipAnswer
  attached : String → FipAnswer
  already_detached : FipAnswer
  detached : String → FipAnswer
  released : FipAnswer
  access_denied : FipAnswer
  not_on_this_vm : FipAnswer
  vm_missing : FipAnswer
  allocated : FloatingIp → FipAnswer

-- A call whose error is a value of the handler.
abbrev pub on_result : {A B : Type 0} → M A → (Result A → M B) → M B
on_result m k c = elim (m c) [ returns a d ↦ k (ok a) d | raises e d ↦ k (err e) d ]

abbrev pub hint_or : Result String → String
hint_or (ok hint) = hint
hint_or (err e) = ""

abbrev pub found_or : {A : Type 0} → Result (Option A) → Option A
found_or (ok row) = row
found_or (err e) = none

module _ (api : String → NicApi) (manager : Manager) (text_of_ip : ℕ → String) (clock : ℕ → ℕ) where
  abbrev pub timed : {A : Type 0} → (ℕ → M A) → M A
  timed f c = f (clock c.tick) c

  abbrev pub project_or : Option ClusterConfig → String
  project_or none = "customers"
  project_or (some cc) = if str_eq cc.default_project "" then "customers" else cc.default_project

  -- findClusterName
  abbrev pub first_client : List String → String
  first_client [] = ""
  first_client (name ∷ rest) = name

  unfoldable pub find_cluster_name : ℕ → String
  find_cluster_name id =
      let name = manager.name_by_id id in
      if str_eq name "" then first_client manager.clients else name

  -- The request to the VM's cluster.
  abbrev pub filtered : Vm → FloatingIp → Bool → ℕ → Result String
  filtered vm fip attaching tick =
      let cluster = find_cluster_name vm.cluster_id in
      update_vm_filtering api manager text_of_ip tick cluster
        (project_or (config_by_name manager cluster)) vm.name fip.ip attaching

  abbrev pub rolled_back : Error → Result Bool → M FipAnswer
  rolled_back e (err r) = pure (rollback_failed e r)
  rolled_back e (ok b) = pure (attach_failed e)

  abbrev pub mirrored : ℕ → Result String → M FipAnswer
  mirrored id (ok hint) = pure (attached hint)
  mirrored id (err e) = on_result (timed (detach id)) (rolled_back e)

  abbrev pub claimed : ℕ → Vm → FloatingIp → Result Bool → M FipAnswer
  claimed id vm fip (err e) c = pure (fip_error e) c
  claimed id vm fip (ok false) c = pure raced c
  claimed id vm fip (ok true) c = mirrored id (filtered vm fip true c.tick) c

  abbrev pub attach_read : ℕ → Vm → Result (Option FloatingIp) → M FipAnswer
  attach_read id vm (err e) = pure (fip_error e)
  attach_read id vm (ok none) = pure fip_missing
  attach_read id vm (ok (some fip)) =
      if is_free fip
      then on_result (timed (attach id vm.id)) (claimed id vm fip)
      else pure already_attached

  unfoldable pub attach_verified : ℕ → Vm → M FipAnswer
  attach_verified id vm = on_result (get_fip id) (attach_read id vm)

  abbrev pub detach_done : String → Result Bool → M FipAnswer
  detach_done hint (err e) = pure (fip_error e)
  detach_done hint (ok b) = pure (detached hint)

  -- Errors of Incus are dropped.
  abbrev pub detach_from : ℕ → FloatingIp → Option Vm → M FipAnswer
  detach_from id fip none c = on_result (timed (detach id)) (detach_done "") c
  detach_from id fip (some vm) c =
      on_result (timed (detach id)) (detach_done (hint_or (filtered vm fip false c.tick))) c

  abbrev pub vm_or_bound : Option Vm → ℕ → M (Option Vm)
  vm_or_bound (some vm) bound = pure (some vm)
  vm_or_bound none bound = on_result (Vms.get_by_id bound) λ r. pure (found_or r)

  abbrev pub detach_bound : ℕ → Option Vm → FloatingIp → Option ℕ → M FipAnswer
  detach_bound id vm fip none = pure already_detached
  detach_bound id vm fip (some bound) =
      if is_free fip
      then pure already_detached
      else do v ← vm_or_bound vm bound; detach_from id fip v

  abbrev pub detach_read : ℕ → Option Vm → Result (Option FloatingIp) → M FipAnswer
  detach_read id vm (err e) = pure (fip_error e)
  detach_read id vm (ok none) = pure fip_missing
  detach_read id vm (ok (some fip)) = detach_bound id vm fip fip.bound_vm_id

  unfoldable pub detach_verified : ℕ → Option Vm → M FipAnswer
  detach_verified id vm = on_result (get_fip id) (detach_read id vm)

  -- portalLookupVMAndFIP, and then k on the VM, where the caller owns it.
  abbrev pub for_owner : ℕ → (Vm → M FipAnswer) → Option Vm → M FipAnswer
  for_owner user_id k none = pure access_denied
  for_owner user_id k (some vm) = if vm.user_id == user_id then k vm else pure access_denied

  unfoldable pub portal_lookup : ℕ → ℕ → (Vm → M FipAnswer) → M FipAnswer
  portal_lookup user_id vm_id k =
      on_result (Vms.get_by_id vm_id) λ r. for_owner user_id k (found_or r)

  unfoldable pub portal_attach : ℕ → ℕ → ℕ → M FipAnswer
  portal_attach user_id vm_id id = portal_lookup user_id vm_id λ vm. attach_verified id vm

  abbrev pub is_bound_to : Vm → Option ℕ → Bool
  is_bound_to vm none = false
  is_bound_to vm (some v) = v == vm.id

  abbrev pub detach_own : ℕ → Vm → Result (Option FloatingIp) → M FipAnswer
  detach_own id vm (err e) = pure (fip_error e)
  detach_own id vm (ok none) = pure not_on_this_vm
  detach_own id vm (ok (some fip)) =
      if is_bound_to vm fip.bound_vm_id then detach_verified id (some vm) else pure not_on_this_vm

  unfoldable pub portal_detach : ℕ → ℕ → ℕ → M FipAnswer
  portal_detach user_id vm_id id =
      portal_lookup user_id vm_id λ vm. on_result (get_fip id) (detach_own id vm)

  abbrev pub release_done : Result (Unit {0}) → M FipAnswer
  release_done (err e) = pure (fip_error e)
  release_done (ok _) = pure released

  abbrev pub release_read : ℕ → Result (Option FloatingIp) → M FipAnswer
  release_read id (err e) = pure (fip_error e)
  release_read id (ok none) = pure fip_missing
  release_read id (ok (some fip)) = on_result (release_floating_ip id) release_done

  unfoldable pub release_fip : ℕ → M FipAnswer
  release_fip id = on_result (get_fip id) (release_read id)

  abbrev pub attach_found : ℕ → Option Vm → M FipAnswer
  attach_found id none = pure vm_missing
  attach_found id (some vm) = attach_verified id vm

  -- Attach and Detach of an administrator
  unfoldable pub admin_attach : ℕ → ℕ → M FipAnswer
  admin_attach id vm_id = on_result (Vms.get_by_id vm_id) λ r. attach_found id (found_or r)

  abbrev pub admin_detach : ℕ → M FipAnswer
  admin_detach id = detach_verified id none

  abbrev pub allocate_done : Result FloatingIp → M FipAnswer
  allocate_done (err e) = pure (fip_error e)
  allocate_done (ok f) = pure (allocated f)

  unfoldable pub allocate_fip : ℕ → ℕ → String → M FipAnswer
  allocate_fip cluster_id ip description =
      on_result (timed (allocate cluster_id ip description)) allocate_done
