-- ===== src/Ips.antt =====
-- The ip_addresses table (incus-admin/internal/repository/ipaddr.go): allocation of the least
-- free address of a pool, release into a cool-down, and the seeding of a pool from its range.
pub mod Bytes
pub mod Seed
pub mod Least
pub mod Holds
pub mod Exclusive
use incus.Base.{
  ℕ, suc, zero, ◌+◌, String, Bool, true, false, not, ◌&&◌, Option, none, some, List, [], ◌∷◌,
  if◌then◌else◌, ltb, leb, ◌==◌,
}
use text.Mathlib.Text.{◌==◌ as str_eq}
use incus.Base.Table.{first_where, select_where, update_where, count_where}
use incus.Models.{IpAddress, IpPool, IpStatus, is_available, is_cooldown}
use incus.Store.{
  Conn, Tables, M, ok, err, no_rows, no_available_ips, pure, raise, wrap, map_error, on_no_rows,
  no_rows, statement, insert, ◌>>=◌, ◌>>◌, commit, transaction, scan,
}

abbrev pub free_in : ℕ → IpAddress → Bool
free_in pool_id a = a.pool_id == pool_id && is_available a.status

-- ORDER BY ip LIMIT 1
pub least : List IpAddress → Option IpAddress
least [] = none
least (a ∷ rest) = elim (least rest) [
  | none ↦ some a
  | some b ↦ some (if leb a.ip b.ip then a else b)
]

-- WHERE pool_id = $3 AND ip = $4
abbrev pub at_ip : ℕ → ℕ → IpAddress → Bool
at_ip pool_id ip a = a.pool_id == pool_id && a.ip == ip

-- vm_id = NULL for a vmID that is not positive
abbrev pub assigned_to : ℕ → IpAddress → IpAddress
assigned_to vm_id a = record a {
  vm_id = if vm_id == 0 then none else some vm_id;
  status = IpStatus.assigned;
}

-- FOR UPDATE SKIP LOCKED: a row that another transaction has locked is passed over.
abbrev pub takeable : Conn → ℕ → IpAddress → Bool
takeable c pool_id a = free_in pool_id a && not (c.locked c.tick a.ip)

unfoldable pub allocate_next : ℕ → ℕ → M ℕ
unfolding least
allocate_next pool_id vm_id = transaction do
  a ←
      map_error (on_no_rows no_available_ips "select IP")
        (λ c. statement (λ t. scan (least (select_where (takeable c pool_id) t.ips)) no_rows t) c)
  wrap "assign IP" (
      statement λ t.
        ok (tt, record t { ips = update_where (at_ip pool_id a.ip) (assigned_to vm_id) t.ips }))
  pure (commit a.ip)

-- Nothing is done for an empty address or a vmID that is not positive.
unfoldable pub attach_vm : Option ℕ → ℕ → M (Unit {0})
attach_vm none vm_id = pure tt
attach_vm (some ip) vm_id =
    if vm_id == 0
    then pure tt
    else statement λ t. ok (
      tt,
      record t {
        ips = update_where (λ a. a.ip == ip) (λ a. record a { vm_id = some vm_id }) t.ips;
      },
    )

-- time.Now().Add(5*time.Minute)
abbrev pub cooldown_seconds : ℕ
cooldown_seconds = 300

abbrev pub cooled : ℕ → IpAddress → IpAddress
cooled now a = record a {
  vm_id = none;
  status = IpStatus.cooldown;
  cooldown_until = some (now + cooldown_seconds);
}

unfoldable pub release : ℕ → ℕ → M (Unit {0})
release ip now =
    statement λ t. ok (tt, record t { ips = update_where (λ a. a.ip == ip) (cooled now) t.ips })

-- cooldown_until < $1; a NULL compares as false
abbrev pub is_over : Option ℕ → ℕ → Bool
is_over none now = false
is_over (some until) now = ltb until now

abbrev pub recoverable : ℕ → IpAddress → Bool
recoverable now a = is_cooldown a.status && is_over a.cooldown_until now

abbrev pub recovered : IpAddress → IpAddress
recovered a = record a { status = IpStatus.available; cooldown_until = none }

unfoldable pub recover_cooldowns : ℕ → M ℕ
recover_cooldowns now = statement λ t. ok (
  count_where (recoverable now) t.ips,
  record t { ips = update_where (recoverable now) recovered t.ips },
)

-- 0 where there is no such pool
unfoldable pub get_pool_id : String → M ℕ
get_pool_id cidr = statement λ t. elim (first_where (λ (p : IpPool). str_eq p.cidr cidr) t.pools) [
  | none ↦ ok (0, t)
  | some p ↦ ok (p.id, t)
]

-- INSERT … ON CONFLICT (cidr) DO UPDATE SET gateway = EXCLUDED.gateway RETURNING id
unfoldable pub ensure_pool : ℕ → String → String → ℕ → M ℕ
ensure_pool cluster_id cidr gateway vlan_id = insert λ id t.
    elim (first_where (λ (p : IpPool). str_eq p.cidr cidr) t.pools) [
      | some p ↦ ok (
        p.id,
        record t {
          pools =
              update_where (λ (q : IpPool). str_eq q.cidr cidr)
                (λ q. record q { gateway = gateway }) t.pools;
        },
      )
      | none ↦
          let p : IpPool = record {
            id = id;
            cluster_id = cluster_id;
            cidr = cidr;
            gateway = gateway;
            vlan_id = vlan_id;
          } in
          ok (id, record t { pools = p ∷ t.pools })
    ]

-- INSERT … ON CONFLICT (ip) DO NOTHING
unfoldable pub seed_ip : ℕ → ℕ → M (Unit {0})
seed_ip pool_id ip = insert λ id t.
    let a : IpAddress = record {
      id = id;
      pool_id = pool_id;
      ip = ip;
      vm_id = none;
      status = IpStatus.available;
      cooldown_until = none;
    } in
    if ltb 0 (count_where (λ b. b.ip == ip) t.ips)
    then ok (tt, t)
    else ok (tt, record t { ips = a ∷ t.ips })
