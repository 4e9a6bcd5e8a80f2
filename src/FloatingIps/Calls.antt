-- ===== src/FloatingIps/Calls.antt =====
-- Sequences of the handlers' calls (incus-admin/internal/handler/portal/floating_ip.go).
use incus.Base.{ℕ, String, true, false, Option, none, some, List, [], ◌∷◌, if◌then◌else◌, ◌==◌}
use incus.Models.{FloatingIp, Vm}
use incus.Store.{Conn, Result, ok, err, M, conn_of, pure}
use incus.Vms
use incus.Clusters.{Manager}
use incus.FloatingIps.{NicApi, get_fip, release_floating_ip, allocate}
use incus.FloatingIps.Handlers.{
  FipAnswer, access_denied, on_result, found_or, attach_verified, detach_verified, for_owner,
  portal_lookup, portal_attach, is_bound_to, detach_own, not_on_this_vm, portal_detach,
  release_done, release_read, release_fip, attach_found, admin_attach, admin_detach, allocate_done,
  allocate_fip,
}
use incus.FloatingIps.Bindings.{
  AreConsistent, Keeps, on_result-Keeps, get_fip-Keeps, release_floating_ip-Keeps, allocate-Keeps,
  get_vm-Keeps, attach_verified-Keeps, detach_verified-Keeps,
}

-- A call: by an administrator, or by a user on a VM.
pub data FipCall : Type 0 where
  allocates : ℕ → ℕ → String → FipCall
  attaches : ℕ → ℕ → FipCall
  detaches : ℕ → FipCall
  owner_attaches : ℕ → ℕ → ℕ → FipCall
  owner_detaches : ℕ → ℕ → ℕ → FipCall
  releases : ℕ → FipCall

module _ (api : String → NicApi) (manager : Manager) (text_of_ip : ℕ → String) (clock : ℕ → ℕ) where
  abbrev pub answer : FipCall → M FipAnswer
  answer (allocates cluster_id ip description) =
      allocate_fip api manager text_of_ip clock cluster_id ip description
  answer (attaches id vm_id) = admin_attach api manager text_of_ip clock id vm_id
  answer (detaches id) = admin_detach api manager text_of_ip clock id
  answer (owner_attaches user_id vm_id id) =
      portal_attach api manager text_of_ip clock user_id vm_id id
  answer (owner_detaches user_id vm_id id) =
      portal_detach api manager text_of_ip clock user_id vm_id id
  answer (releases id) = release_fip api manager text_of_ip clock id

  abbrev pub after_calls : List FipCall → Conn → Conn
  after_calls [] c = c
  after_calls (call ∷ rest) c = after_calls rest (conn_of (answer call c))

  for_owner-Keeps :
      (user_id : ℕ) (k : Vm → M FipAnswer)
      → ((vm : Vm) → Keeps (k vm))
      → (vm : Option Vm) → Keeps (for_owner api manager text_of_ip clock user_id k vm)
  for_owner-Keeps user_id k f none c h = h
  for_owner-Keeps user_id k f (some vm) c h =
      elim (vm.user_id == user_id)
        as (λ b. AreConsistent (conn_of ((if b then k vm else pure access_denied) c))) [
          | true ↦ f vm c h
          | false ↦ h
        ]

  portal_lookup-Keeps :
      (user_id vm_id : ℕ) (k : Vm → M FipAnswer)
      → ((vm : Vm) → Keeps (k vm))
      → Keeps (portal_lookup api manager text_of_ip clock user_id vm_id k)
  unfolding portal_lookup
  portal_lookup-Keeps user_id vm_id k f =
      on_result-Keeps (Vms.get_by_id vm_id)
        (λ r. for_owner api manager text_of_ip clock user_id k (found_or r)) (get_vm-Keeps vm_id)
        λ r. for_owner-Keeps user_id k f (found_or r)

  detach_own-Keeps :
      (id : ℕ) (vm : Vm) (r : Result (Option FloatingIp))
      → Keeps (detach_own api manager text_of_ip clock id vm r)
  detach_own-Keeps id vm (err e) c h = h
  detach_own-Keeps id vm (ok none) c h = h
  detach_own-Keeps id vm (ok (some f)) c h =
      let attempt = detach_verified api manager text_of_ip clock id (some vm) in
      elim (is_bound_to api manager text_of_ip clock vm f.bound_vm_id)
        as (λ b. AreConsistent (conn_of ((if b then attempt else pure not_on_this_vm) c))) [
          | true ↦ detach_verified-Keeps api manager text_of_ip clock id (some vm) c h
          | false ↦ h
        ]

  attach_found-Keeps :
      (id : ℕ) (vm : Option Vm) → Keeps (attach_found api manager text_of_ip clock id vm)
  attach_found-Keeps id none c h = h
  attach_found-Keeps id (some vm) c h = attach_verified-Keeps api manager text_of_ip clock id vm c h

  release_read-Keeps :
      (id : ℕ) (r : Result (Option FloatingIp))
      → Keeps (release_read api manager text_of_ip clock id r)
  release_read-Keeps id (err e) c h = h
  release_read-Keeps id (ok none) c h = h
  release_read-Keeps id (ok (some f)) c h =
      on_result-Keeps (release_floating_ip id) (release_done api manager text_of_ip clock)
        (release_floating_ip-Keeps id) finish c h
    where
      finish : (r : Result (Unit {0})) → Keeps (release_done api manager text_of_ip clock r)
      finish (ok _) c h = h
      finish (err e) c h = h

  allocate_done-Keeps :
      (r : Result FloatingIp) → Keeps (allocate_done api manager text_of_ip clock r)
  allocate_done-Keeps (ok f) c h = h
  allocate_done-Keeps (err e) c h = h

  answer-Keeps : (call : FipCall) → Keeps (answer call)
  unfolding allocate_fip admin_attach portal_attach portal_detach release_fip
  answer-Keeps (allocates cluster_id ip description) c h =
      on_result-Keeps (allocate cluster_id ip description (clock c.tick))
        (allocate_done api manager text_of_ip clock)
        (allocate-Keeps cluster_id ip description (clock c.tick)) allocate_done-Keeps c h
  answer-Keeps (attaches id vm_id) c h =
      on_result-Keeps (Vms.get_by_id vm_id)
        (λ r. attach_found api manager text_of_ip clock id (found_or r)) (get_vm-Keeps vm_id)
        (λ r. attach_found-Keeps id (found_or r)) c h
  answer-Keeps (detaches id) c h = detach_verified-Keeps api manager text_of_ip clock id none c h
  answer-Keeps (owner_attaches user_id vm_id id) c h =
      portal_lookup-Keeps user_id vm_id (attach_verified api manager text_of_ip clock id)
        (attach_verified-Keeps api manager text_of_ip clock id) c h
  answer-Keeps (owner_detaches user_id vm_id id) c h =
      portal_lookup-Keeps user_id vm_id
        (λ vm. on_result (get_fip id) (detach_own api manager text_of_ip clock id vm))
        (λ vm.
          on_result-Keeps (get_fip id) (detach_own api manager text_of_ip clock id vm)
            (get_fip-Keeps id) (detach_own-Keeps id vm))
        c h
  answer-Keeps (releases id) c h =
      on_result-Keeps (get_fip id) (release_read api manager text_of_ip clock id) (get_fip-Keeps id)
        (release_read-Keeps id) c h

  -- Whatever calls administrators and owners make, in whatever order, whichever statements fail and
  -- whatever the clusters answer: where a floating IP is bound to a VM exactly if its row says
  -- attached, so it is after the calls.
  pub after_calls-AreConsistent :
      (calls : List FipCall) (c : Conn) → AreConsistent c → AreConsistent (after_calls calls c)
  after_calls-AreConsistent [] c h = h
  after_calls-AreConsistent (call ∷ rest) c h =
      after_calls-AreConsistent rest (conn_of (answer call c)) (answer-Keeps call c h)
