-- ===== src/FloatingIps/Bindings.antt =====
-- A floating IP is bound to a VM where its row says attached, and only there
-- (incus-admin/internal/repository/floating_ip.go and the handlers): what the CHECK of the table
-- asks for.
use incus.Base.{
  ◌==◌, ℕ, String, Bool, true, false, not, Option, none, some, is_some, ◌≡◌, inl, inr, refl, arith,
  Bool-cases, if◌then◌else◌,
}
use incus.Base.Table.{count_where}
use incus.Base.Sort.{All, All-update_where, All-select}
use incus.Models.{FloatingIp, Vm}
use incus.Store.{Conn, Error, Result, ok, err, M, Outcome, returns, raises, conn_of, pure, ◌>>=◌}
use incus.Vms
use incus.Clusters.{Manager}
use incus.FloatingIps.{
  NicApi, is_free, get_fip, allocate, attach, attachable, bound_to, detach, detachable, unbound,
  release_floating_ip,
}
use incus.FloatingIps.Handlers.{
  on_result, attach_verified, detach_verified, attach_read, rolled_back, mirrored, claimed,
  filtered, timed, already_attached, already_detached, detach_from, detach_done, hint_or,
  detach_read, detach_bound, vm_or_bound, found_or,
}

abbrev pub IsConsistent : FloatingIp → Type 0
IsConsistent f = is_free f ≡ not (is_some f.bound_vm_id)

abbrev pub AreConsistent : Conn → Type 0
AreConsistent c = All IsConsistent c.tables.floating_ips

abbrev pub Keeps : {A : Type 0} → M A → Type 0
Keeps m = (c : Conn) → AreConsistent c → AreConsistent (conn_of (m c))

pub on_result-Keeps :
    {A B : Type 0} (m : M A) (k : Result A → M B)
    → Keeps m
    → ((r : Result A) → Keeps (k r))
    → Keeps (on_result m k)
on_result-Keeps {A = A} {B = B} m k f g c h = at (m c) (f c h)
  where
    at :
        (o : Outcome A)
        → AreConsistent (conn_of o)
        → AreConsistent
            (conn_of {A = B} (elim o [ returns a d ↦ k (ok a) d | raises e d ↦ k (err e) d ]))
    at (returns a d) h = g (ok a) d h
    at (raises e d) h = g (err e) d h

pub get_fip-Keeps : (id : ℕ) → Keeps (get_fip id)
unfolding get_fip
get_fip-Keeps id c h = elim (Bool-cases (c.fails c.tick)) [
  | inl failed ↦ rw (conn_of, failed) h
  | inr sent_off ↦ rw (conn_of, sent_off) h
]

attach-Keeps : (id vm_id now : ℕ) → Keeps (attach id vm_id now)
unfolding attach
attach-Keeps id vm_id now c h = elim (Bool-cases (c.fails c.tick)) [
  | inl failed ↦ rw (conn_of, failed) h
  | inr sent_off ↦
      rw (conn_of, sent_off)
        (All-update_where IsConsistent IsConsistent (attachable id) (bound_to vm_id now)
          (λ f x. ground (arith, x)) c.tables.floating_ips h)
]

detach-Keeps : (id now : ℕ) → Keeps (detach id now)
unfolding detach
detach-Keeps id now c h = elim (Bool-cases (c.fails c.tick)) [
  | inl failed ↦ rw (conn_of, failed) h
  | inr sent_off ↦
      rw (conn_of, sent_off)
        (All-update_where IsConsistent IsConsistent (detachable id) (unbound now)
          (λ f x. ground (arith, x)) c.tables.floating_ips h)
]

pub release_floating_ip-Keeps : (id : ℕ) → Keeps (release_floating_ip id)
unfolding release_floating_ip
release_floating_ip-Keeps id c h =
    let left = All-select IsConsistent (λ f. not (attachable id f)) c.tables.floating_ips h in
    elim (Bool-cases (c.fails c.tick)) [
      | inl failed ↦ rw (conn_of, failed) h
      | inr sent_off ↦ elim (Bool-cases (count_where (attachable id) c.tables.floating_ips == 0)) [
        | inl nothing ↦ rw (conn_of, sent_off, nothing) left
        | inr some_row ↦ rw (conn_of, sent_off, some_row) left
      ]
    ]

pub allocate-Keeps :
    (cluster_id ip : ℕ) (description : String) (now : ℕ)
    → Keeps (allocate cluster_id ip description now)
unfolding allocate
allocate-Keeps cluster_id ip description now c h = elim (Bool-cases (c.fails c.tick)) [
  | inl failed ↦ rw (conn_of, failed) h
  | inr sent_off ↦ elim (Bool-cases (count_where (λ f. f.ip == ip) c.tables.floating_ips == 0)) [
    | inl fresh ↦ rw (conn_of, sent_off, fresh) (refl, h)
    | inr taken ↦ rw (conn_of, sent_off, taken) h
  ]
]

-- A read of a VM's row.
pub get_vm-Keeps : (id : ℕ) → Keeps (Vms.get_by_id id)
unfolding Vms.get_by_id
get_vm-Keeps id c h = elim (Bool-cases (c.fails c.tick)) [
  | inl failed ↦ rw (conn_of, failed) h
  | inr sent_off ↦ rw (conn_of, sent_off) h
]

module _ (api : String → NicApi) (manager : Manager) (text_of_ip : ℕ → String) (clock : ℕ → ℕ) where
  pub attach_verified-Keeps :
      (id : ℕ) (vm : Vm) → Keeps (attach_verified api manager text_of_ip clock id vm)
  unfolding attach_verified
  attach_verified-Keeps id vm =
      on_result-Keeps (get_fip id) (attach_read api manager text_of_ip clock id vm)
        (get_fip-Keeps id) read
    where
      rolled_back-Keeps :
          (e : Error) (r : Result Bool) → Keeps (rolled_back api manager text_of_ip clock e r)
      rolled_back-Keeps e (ok b) c h = h
      rolled_back-Keeps e (err r) c h = h

      mirrored-Keeps : (r : Result String) → Keeps (mirrored api manager text_of_ip clock id r)
      mirrored-Keeps (ok hint) c h = h
      mirrored-Keeps (err e) c h =
          on_result-Keeps (detach id (clock c.tick)) (rolled_back api manager text_of_ip clock e)
            (detach-Keeps id (clock c.tick)) (rolled_back-Keeps e) c h

      claimed-Keeps :
          (f : FloatingIp) (r : Result Bool)
          → Keeps (claimed api manager text_of_ip clock id vm f r)
      claimed-Keeps f (err e) c h = h
      claimed-Keeps f (ok false) c h = h
      claimed-Keeps f (ok true) c h =
          mirrored-Keeps (filtered api manager text_of_ip clock vm f true c.tick) c h

      read :
          (r : Result (Option FloatingIp))
          → Keeps (attach_read api manager text_of_ip clock id vm r)
      read (err e) c h = h
      read (ok none) c h = h
      read (ok (some f)) c h =
          let attempt =
            on_result (timed api manager text_of_ip clock (attach id vm.id))
              (claimed api manager text_of_ip clock id vm f) in
          elim (is_free f)
            as (λ b. AreConsistent (conn_of ((if b then attempt else pure already_attached) c))) [
              | true ↦
                  on_result-Keeps (attach id vm.id (clock c.tick))
                    (claimed api manager text_of_ip clock id vm f)
                    (attach-Keeps id vm.id (clock c.tick)) (claimed-Keeps f) c h
              | false ↦ h
            ]

  detach_from-Keeps :
      (id : ℕ) (f : FloatingIp) (vm : Option Vm)
      → Keeps (detach_from api manager text_of_ip clock id f vm)
  detach_from-Keeps id f vm = from vm
    where
      finish :
          (hint : String) (r : Result Bool)
          → Keeps (detach_done api manager text_of_ip clock hint r)
      finish hint (ok b) c h = h
      finish hint (err e) c h = h

      from : (vm : Option Vm) → Keeps (detach_from api manager text_of_ip clock id f vm)
      from none c h =
          on_result-Keeps (detach id (clock c.tick)) (detach_done api manager text_of_ip clock "")
            (detach-Keeps id (clock c.tick)) (finish "") c h
      from (some vm) c h =
          let hint = hint_or (filtered api manager text_of_ip clock vm f false c.tick) in
          on_result-Keeps (detach id (clock c.tick)) (detach_done api manager text_of_ip clock hint)
            (detach-Keeps id (clock c.tick)) (finish hint) c h

  bind-Keeps :
      {A B : Type 0} (m : M A) (k : A → M B) → Keeps m → ((a : A) → Keeps (k a)) → Keeps (m >>= k)
  bind-Keeps {A} {B} m k f g c h = at (m c) (f c h)
    where
      at :
          (o : Outcome A)
          → AreConsistent (conn_of o)
          → AreConsistent
              (conn_of {A = B} (elim o [ returns a d ↦ k a d | raises e d ↦ raises e d ]))
      at (returns a d) h = g a d h
      at (raises e d) h = h

  pub detach_verified-Keeps :
      (id : ℕ) (vm : Option Vm) → Keeps (detach_verified api manager text_of_ip clock id vm)
  unfolding detach_verified
  detach_verified-Keeps id vm =
      on_result-Keeps (get_fip id) (detach_read api manager text_of_ip clock id vm)
        (get_fip-Keeps id) read
    where
      looked :
          (vm : Option Vm) (bound : ℕ) → Keeps (vm_or_bound api manager text_of_ip clock vm bound)
      looked (some vm) bound c h = h
      looked none bound c h =
          on_result-Keeps (Vms.get_by_id bound) (λ r. pure (found_or r)) (get_vm-Keeps bound)
            (λ r c h. h) c h

      bound_row :
          (f : FloatingIp) (b : Option ℕ)
          → Keeps (detach_bound api manager text_of_ip clock id vm f b)
      bound_row f none c h = h
      bound_row f (some bound) c h =
          let attempt =
            vm_or_bound api manager text_of_ip clock vm bound
            >>= detach_from api manager text_of_ip clock id f in
          elim (is_free f)
            as (λ b. AreConsistent (conn_of ((if b then pure already_detached else attempt) c))) [
              | true ↦ h
              | false ↦
                  bind-Keeps (vm_or_bound api manager text_of_ip clock vm bound)
                    (detach_from api manager text_of_ip clock id f) (looked vm bound)
                    (detach_from-Keeps id f) c h
            ]

      read :
          (r : Result (Option FloatingIp))
          → Keeps (detach_read api manager text_of_ip clock id vm r)
      read (err e) c h = h
      read (ok none) c h = h
      read (ok (some f)) c h = bound_row f f.bound_vm_id c h
