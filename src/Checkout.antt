-- ===== src/Checkout.antt =====
-- The order handlers of the portal (incus-admin/internal/handler/portal/order.go and
-- ipallocator.go): the quota check before a payment, the allocation from the configured pools, the
-- roll-back of a payment, cancellation, and the transitions an administrator may make. A handler's
-- answer stands for its HTTP status and body.
pub mod Undo
pub mod Quotas
pub mod Transitions
use Prim.Native.Char.{code}
use incus.Base.{
  ℕ, ◌+◌, String, Bool, true, false, not, ◌&&◌, Option, none, some, List, [], ◌∷◌, if◌then◌else◌,
  ltb, ◌==◌,
}
use incus.Base.Table.{first_where}
use incus.Models.{Order, OrderStatus, Product, Quota, Vm, TxType, Text, refunded_order, is_pending}
use incus.Store.{
  Tables, Conn, Error, no_available_ips, no_pools, wrapped, M, ok, err, no_rows, Outcome, returns,
  raises, pure, raise, wrap, map_error, statement, ◌>>=◌, ◌>>◌, logged, scan,
}
use incus.Orders
use incus.Orders.{cancel_if_pending}
use incus.Users.{adjust_balance}
use incus.Vms.{list_by_user, usage, Usage}
use incus.Ips.{release, get_pool_id, ensure_pool, allocate_next}
use incus.Ips.Seed.{Range, Seeded, seed_pool}

-- QuotaRepo.GetByUserID, with its error where there is no row.
unfoldable pub get_quota : ℕ → M Quota
get_quota user_id = statement λ t. scan (first_where (λ q. q.user_id == user_id) t.quotas) no_rows t

pub data QuotaRefusal : Type 0 where
  unavailable vms_exceeded vcpus_exceeded ram_exceeded disk_exceeded : QuotaRefusal

-- max > 0 && current + added > max
abbrev pub exceeds : ℕ → ℕ → ℕ → Bool
exceeds max current added = ltb 0 max && ltb max (current + added)

-- The first limit that the purchase would exceed.
unfoldable pub over_limit : Quota → Usage → Product → Option QuotaRefusal
over_limit q u p =
    if exceeds q.max_vms u.vms 1
    then some vms_exceeded
    else if exceeds q.max_vcpus u.vcpus p.cpu
    then some vcpus_exceeded
    else if exceeds q.max_ram_mb u.ram_mb p.memory_mb
    then some ram_exceeded
    else if exceeds q.max_disk_gb u.disk_gb p.disk_gb
    then some disk_exceeded
    else none

-- None where the purchase may go on.
unfoldable pub check_quota : ℕ → Product → Conn → Option QuotaRefusal × Conn
check_quota user_id product c = elim (get_quota user_id c) [
  | raises e d ↦ (some unavailable, d)
  | returns q d ↦ elim (list_by_user user_id d) [
    | raises e d' ↦ (some unavailable, d')
    | returns vms d' ↦ (over_limit q (usage vms) product, d')
  ]
]

-- rollbackPayment: each step on its own, its error only logged.
unfoldable pub rollback_payment : Order → Option ℕ → Text → ℕ → M (Unit {0})
rollback_payment o ip reason now = do
  logged (adjust_balance o.user_id o.amount TxType.refund (refunded_order o.id reason) none now)
  elim ip as (λ _. M (Unit {0})) [ none ↦ pure tt | some x ↦ logged (release x now) ]
  logged (Orders.update_status o.id OrderStatus.cancelled now)

-- What the handler of a cancellation answers.
pub data CancelAnswer : Type 0 where
  cancel_not_found only_pending cancel_failed modified cancelled : CancelAnswer

abbrev pub owned_by : ℕ → Option Order → Option Order
owned_by user_id none = none
owned_by user_id (some o) = if o.user_id == user_id then some o else none

unfoldable pub cancel_order : ℕ → ℕ → ℕ → Conn → CancelAnswer × Conn
cancel_order order_id user_id now c = elim (Orders.get_by_id order_id c) [
  | raises e d ↦ (cancel_not_found, d)
  | returns row d ↦ elim (owned_by user_id row) [
    | none ↦ (cancel_not_found, d)
    | some o ↦ elim (is_pending o.status) [
      | false ↦ (only_pending, d)
      | true ↦ elim (cancel_if_pending order_id user_id now d) [
        | raises e d' ↦ (cancel_failed, d')
        | returns false d' ↦ (modified, d')
        | returns true d' ↦ (cancelled, d')
      ]
    ]
  ]
]

-- orderTransitions; none for a status that is not in the table.
unfoldable pub order_transitions : OrderStatus → Option (List OrderStatus)
order_transitions OrderStatus.pending =
    some (OrderStatus.paid ∷ OrderStatus.cancelled ∷ OrderStatus.expired ∷ [])
order_transitions OrderStatus.paid = some (
    OrderStatus.provisioning ∷ OrderStatus.active ∷ OrderStatus.cancelled ∷ OrderStatus.pending
    ∷ [])
order_transitions OrderStatus.provisioning =
    some (OrderStatus.active ∷ OrderStatus.cancelled ∷ OrderStatus.paid ∷ [])
order_transitions OrderStatus.active = some (OrderStatus.expired ∷ OrderStatus.cancelled ∷ [])
order_transitions OrderStatus.expired = some []
order_transitions OrderStatus.cancelled = some []
order_transitions (OrderStatus.other s) = none

-- Both are constants of the model; the request's validation admits no other.
unfoldable pub same_status : OrderStatus → OrderStatus → Bool
same_status OrderStatus.pending OrderStatus.pending = true
same_status OrderStatus.paid OrderStatus.paid = true
same_status OrderStatus.provisioning OrderStatus.provisioning = true
same_status OrderStatus.active OrderStatus.active = true
same_status OrderStatus.expired OrderStatus.expired = true
same_status OrderStatus.cancelled OrderStatus.cancelled = true
same_status _ _ = false

unfoldable pub has_status : OrderStatus → List OrderStatus → Bool
has_status s [] = false
has_status s (x ∷ rest) = if same_status s x then true else has_status s rest

-- What the administrator's handler answers.
pub data StatusAnswer : Type 0 where
  status_failed status_not_found unknown_status not_allowed updated : StatusAnswer

unfoldable pub update_order_status : ℕ → OrderStatus → ℕ → Conn → StatusAnswer × Conn
update_order_status order_id wanted now c = elim (Orders.get_by_id order_id c) [
  | raises e d ↦ (status_failed, d)
  | returns none d ↦ (status_not_found, d)
  | returns (some o) d ↦ elim (order_transitions o.status) [
    | none ↦ (unknown_status, d)
    | some allowed ↦ elim (has_status wanted allowed) [
      | false ↦ (not_allowed, d)
      | true ↦ elim (Orders.update_status order_id wanted now d) [
        | raises e d' ↦ (status_failed, d')
        | returns _ d' ↦ (updated, d')
      ]
    ]
  ]
]

-- A pool of the configuration, with its range parsed.
pub record PoolConfig : Type 0 where
  pub cidr : String
  pub gateway : String
  pub range : Range
  pub vlan : ℕ

-- seed_pool as a call whose error is only logged; `fuel` bounds its loop.
abbrev pub seed_logged : ℕ → ℕ → Range → M (Unit {0})
seed_logged fuel pool_id range c = elim (seed_pool fuel pool_id range c) [
  | none ↦ returns tt c
  | some (r, d) ↦ returns tt d
]

-- An empty vmID is 0.
unfoldable pub allocate_from_pool : ℕ → PoolConfig → ℕ → M ℕ
allocate_from_pool fuel p vm_id = do
  known ← wrap "get IP pool" (get_pool_id p.cidr)
  pool_id ←
      if known == 0
      then (do
        new ← wrap "ensure IP pool" (ensure_pool 1 p.cidr p.gateway p.vlan)
        seed_logged fuel new p.range
        pure new)
      else pure known
  allocate_next pool_id vm_id

-- strings.Contains(err.Error(), "no available IPs"), the wording of AllocateNext
unfoldable pub is_pool_exhausted : Error → Bool
is_pool_exhausted no_available_ips = true
is_pool_exhausted (wrapped s e) = is_pool_exhausted e
is_pool_exhausted _ = false

-- strings.Split(cidr, "/"): how often it is cut, and what follows the first cut.
abbrev pub cuts : String → ℕ
cuts String.[] = 0
cuts (String.◌∷◌ c s) = (if code c == b'/' then 1 else 0) + cuts s

abbrev pub after_cut : String → String
after_cut String.[] = ""
after_cut (String.◌∷◌ c s) = if code c == b'/' then s else after_cut s

unfoldable pub extract_cidr : String → String
extract_cidr cidr = if cuts cidr == 1 then after_cut cidr else "27"

-- The pools in the order of the configuration; `last` is the error of the pool before.
unfoldable pub allocate_from : ℕ → Error → List PoolConfig → ℕ → M (ℕ × String × String)
allocate_from fuel last [] vm_id c = raises (wrapped "all IP pools exhausted" last) c
allocate_from fuel last (p ∷ rest) vm_id c = elim (allocate_from_pool fuel p vm_id c) [
  | returns ip d ↦ returns (ip, p.gateway, extract_cidr p.cidr) d
  | raises e d ↦ elim (is_pool_exhausted e) [
    | false ↦ raises (wrapped "allocate IP from pool" e) d
    | true ↦ allocate_from fuel e rest vm_id d
  ]
]

unfoldable pub allocate_ip : ℕ → List PoolConfig → ℕ → M (ℕ × String × String)
allocate_ip fuel [] vm_id = raise no_pools
allocate_ip fuel (p ∷ rest) vm_id = allocate_from fuel no_pools (p ∷ rest) vm_id
