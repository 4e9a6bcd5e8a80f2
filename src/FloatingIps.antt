-- ===== src/FloatingIps.antt =====
-- Floating IPs: their table (incus-admin/internal/repository/floating_ip.go), the filtering of a
-- VM's NIC (service/floating_ip.go) and the handlers (handler/portal/floating_ip.go,
-- floating_ip_batch.go). The Incus API of a cluster is a parameter. Audit rows are left out.
pub mod Handlers
pub mod Bindings
pub mod Calls
pub mod Attaching
use incus.Base.{
  ℕ, ◌+◌, String, Bool, true, false, not, ◌&&◌, Option, none, some, List, [], ◌∷◌, if◌then◌else◌,
  ◌==◌,
}
use incus.Base.Table.{find, first_where, select_where, update_where, count_where}
use incus.Models.{FloatingIp, FloatingIpStatus, Vm}
use incus.Store.{
  Tables, Error, Result, ok, err, unique, remote, wrapped, not_found, M, Outcome, returns, raises,
  pure, raise, wrap, statement, insert, ◌>>=◌, ◌>>◌,
}
use incus.Vms
use incus.Clusters.{Manager, ClusterConfig, get, config_by_name}
use Prim.Native.String.{◌++◌ as joined}
use text.Mathlib.Text.{◌==◌ as str_eq}

abbrev pub is_available : FloatingIpStatus → Bool
is_available FloatingIpStatus.available = true
is_available FloatingIpStatus.attached = false

abbrev pub is_free : FloatingIp → Bool
is_free f = is_available f.status

unfoldable pub get_fip : ℕ → M (Option FloatingIp)
get_fip id = statement λ t. ok (find FloatingIp.id id t.floating_ips, t)

unfoldable pub get_fip_by_ip : ℕ → M (Option FloatingIp)
get_fip_by_ip ip = statement λ t. ok (first_where (λ f. f.ip == ip) t.floating_ips, t)

abbrev pub new_fip : ℕ → ℕ → ℕ → String → ℕ → FloatingIp
new_fip id cluster_id ip description now = record {
  id = id;
  cluster_id = cluster_id;
  ip = ip;
  bound_vm_id = none;
  status = FloatingIpStatus.available;
  description = description;
  allocated_at = now;
  attached_at = none;
  detached_at = none;
}

-- The address is UNIQUE.
unfoldable pub allocate : ℕ → ℕ → String → ℕ → M FloatingIp
allocate cluster_id ip description now = insert λ id t.
    let row = new_fip id cluster_id ip description now in
    if count_where (λ f. f.ip == ip) t.floating_ips == 0
    then ok (row, record t { floating_ips = row ∷ t.floating_ips })
    else err unique

-- UPDATE floating_ips SET f WHERE p, with the rows affected
abbrev pub update_fips : (FloatingIp → Bool) → (FloatingIp → FloatingIp) → M ℕ
update_fips p f = statement λ t.
    ok (count_where p t.floating_ips, record t { floating_ips = update_where p f t.floating_ips })

abbrev pub attachable : ℕ → FloatingIp → Bool
attachable id f = f.id == id && is_free f

abbrev pub bound_to : ℕ → ℕ → FloatingIp → FloatingIp
bound_to vm_id now f = record f {
  bound_vm_id = some vm_id;
  status = FloatingIpStatus.attached;
  attached_at = some now;
  detached_at = none;
}

unfoldable pub attach : ℕ → ℕ → ℕ → M Bool
attach id vm_id now = do
  n ← wrap "attach floating_ip" (update_fips (attachable id) (bound_to vm_id now))
  pure (n == 1)

abbrev pub detachable : ℕ → FloatingIp → Bool
detachable id f = f.id == id && not (is_free f)

abbrev pub unbound : ℕ → FloatingIp → FloatingIp
unbound now f = record f {
  bound_vm_id = none;
  status = FloatingIpStatus.available;
  detached_at = some now;
}

unfoldable pub detach : ℕ → ℕ → M Bool
detach id now = do
  n ← wrap "detach floating_ip" (update_fips (detachable id) (unbound now))
  pure (n == 1)

unfoldable pub release_floating_ip : ℕ → M (Unit {0})
release_floating_ip id = do
  n ← wrap "release floating_ip" (
      statement λ t. ok (
        count_where (attachable id) t.floating_ips,
        record t { floating_ips = select_where (λ f. not (attachable id f)) t.floating_ips },
      ))
  if n == 0 then raise not_found else pure tt

unfoldable pub list_by_vm : ℕ → M (List FloatingIp)
list_by_vm vm_id = statement λ t. ok (
  select_where (λ f. elim (f.bound_vm_id) [ none ↦ false | some v ↦ v == vm_id ]) t.floating_ips,
  t,
)

-- A device of an instance: its name, and whether its type is nic.
pub record Device : Type 0 where
  pub name : String
  pub is_nic : Bool

-- The Incus API: the devices of an instance in the order that `range` gives, and the PATCH of the
-- filtering of one device. Both may change from one statement to the next.
pub record NicApi : Type 0 where
  pub get_instance : ℕ → String → String → Result (List Device)
  pub patch : ℕ → String → String → String → Bool → Result (Unit {0})

abbrev pub nic_name : Option Device → String
nic_name none = ""
nic_name (some d) = d.name

abbrev pub is_eth0 : Device → Bool
is_eth0 d = str_eq d.name "eth0" && d.is_nic

unfoldable pub pick_nic_device : List Device → String
pick_nic_device devices = elim (first_where is_eth0 devices) [
  | some d ↦ "eth0"
  | none ↦ nic_name (first_where Device.is_nic devices)
]

-- floatingIPRunbookHint
abbrev pub runbook_hint : String → Bool → String
runbook_hint ip true =
    joined "sudo ip addr add "
      (joined ip (joined "/26 dev eth0 && sudo arping -U -I eth0 -c 3 " ip))
runbook_hint ip false = joined "sudo ip addr del " (joined ip "/26 dev eth0")

module _ (api : String → NicApi) (manager : Manager) (text_of_ip : ℕ → String) where
  -- updateVMFiltering: filtering is off where the address is attached.
  abbrev pub patched : String → ℕ → String → String → ℕ → Bool → String → Result String
  patched client tick project name ip attaching nic =
      if str_eq nic ""
      then err (remote "no NIC device found")
      else elim ((api client).patch tick project name nic (not attaching)) [
        | ok _ ↦ ok (runbook_hint (text_of_ip ip) attaching)
        | err e ↦ err (wrapped "patch instance" e)
      ]

  unfoldable pub update_vm_filtering : ℕ → String → String → String → ℕ → Bool → Result String
  update_vm_filtering tick cluster project name ip attaching = elim (get manager cluster) [
    | none ↦ err (remote "cluster not found")
    | some client ↦ elim ((api client).get_instance tick project name) [
      | err e ↦ err (wrapped "get instance" e)
      | ok devices ↦ patched client tick project name ip attaching (pick_nic_device devices)
    ]
  ]
