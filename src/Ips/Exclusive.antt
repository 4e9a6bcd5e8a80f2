-- ===== src/Ips/Exclusive.antt =====
-- An address has one holder at a time.
use incus.Base.{
  ℕ, ◌+◌, ◌≤◌, refl, sym, subst, Bool, false, inl, inr, Option, none, some, List, arith, ◌==◌,
  if◌then◌else◌, Bool-cases,
}
use incus.Base.Table.{find, find-update_where, find-update_key, update_where-IsKeyed}
use incus.Models.{IpAddress, IpStatus}
use incus.Store.{Tables, Conn, Outcome, M, returns, raises, conn_of, ◌>>=◌, ◌>>◌, pure}
use incus.Store.Budget.{took, effects, income, effects-le-income}
use incus.Ips.{allocate_next, attach_vm, release, cooled, recover_cooldowns, recoverable, recovered}
use incus.Ips.Holds.{HasKeyedIps, AllocateOutcome, allocate-settles}

-- The calls that the handlers, the jobs and the recovery worker make.
pub data Call : Type 0 where
  allocates : ℕ → ℕ → Call
  attaches : ℕ → ℕ → Call
  releases : ℕ → ℕ → Call
  recovers : ℕ → Call

-- True for an allocation that hands out the address.
pub call : ℕ → Call → M Bool
call ip (allocates pool_id vm_id) = allocate_next pool_id vm_id >>= λ got. pure (got == ip)
call ip (attaches other vm_id) = attach_vm (some other) vm_id >> pure false
call ip (releases other now) = release other now >> pure false
call ip (recovers now) = recover_cooldowns now >> pure false

-- 1 for a release of the address.
abbrev frees : ℕ → Call → ℕ
frees ip (releases other now) = if other == ip then 1 else 0
frees ip _ = 0

-- How many releases of the address the calls make.
pub releases_of : ℕ → List Call → ℕ
releases_of ip calls = income (call ip) (frees ip) calls

-- 1 while the address is free or cools down, 0 while it is held.
abbrev pub unheld_status : IpStatus → ℕ
unheld_status IpStatus.available = 1
unheld_status IpStatus.cooldown = 1
unheld_status _ = 0

abbrev unheld : Option IpAddress → ℕ
unheld none = 0
unheld (some a) = unheld_status a.status

abbrev pub unheld_of : ℕ → Tables → ℕ
unheld_of ip t = unheld (find IpAddress.ip ip t.ips)

-- A call frees what it releases at most, and an allocation uses up what is free.
abbrev Trades : ℕ → Tables → ℕ → Tables → ℕ → Type 0
Trades ip before n after gain =
    (n + unheld_of ip after ≤ unheld_of ip before + gain) × HasKeyedIps after

allocates-Trades :
    (ip pool_id vm_id : ℕ) (b : Conn) (o : Outcome ℕ) (c : Conn)
    → AllocateOutcome pool_id vm_id b o
    → HasKeyedIps b.tables
    → Trades ip b.tables
        (took (((λ _. o) >>= λ got. pure (got == ip)) c))
        (conn_of (((λ _. o) >>= λ got. pure (got == ip)) c)).tables
        0
allocates-Trades ip pool_id vm_id b (raises e d) c same keyed =
    subst (λ w. Trades ip b.tables 0 w 0) (sym same) (omega arith, keyed)
allocates-Trades ip pool_id vm_id b (returns got d) c done keyed =
    let (a, was, _, free, now) = done.was_free in
    elim (Bool-cases (got == ip)) [
      | inl same ↦ (ground (arith, done.others_kept ip), done.keyed)
      | inr differs ↦ (ground (arith, done.others_kept ip), done.keyed)
    ]

call-Trades :
    (ip : ℕ) (x : Call) (c : Conn)
    → HasKeyedIps c.tables
    → Trades ip c.tables (took (call ip x c)) (conn_of (call ip x c)).tables (frees ip x)
unfolding call attach_vm release recover_cooldowns
call-Trades ip (allocates pool_id vm_id) c keyed =
    allocates-Trades ip pool_id vm_id c _ c (allocate-settles pool_id vm_id c keyed) keyed
call-Trades ip (attaches other vm_id) c keyed =
    let held : IpAddress → IpAddress = λ a. record a { vm_id = some vm_id } in
    let is_it : IpAddress → Bool = λ a. a.ip == other in
    ground (
      arith,
      find-update_key IpAddress.ip ip other held c.tables.ips (λ r. refl),
      update_where-IsKeyed IpAddress.ip is_it held c.tables.ips (λ r. refl) keyed,
    )
call-Trades ip (releases other now) c keyed =
    let is_it : IpAddress → Bool = λ a. a.ip == other in
    ground (
      arith,
      find-update_key IpAddress.ip ip other (cooled now) c.tables.ips (λ r. refl),
      update_where-IsKeyed IpAddress.ip is_it (cooled now) c.tables.ips (λ r. refl) keyed,
    )
call-Trades ip (recovers now) c keyed = ground (
  arith,
  find-update_where IpAddress.ip ip (recoverable now) recovered c.tables.ips (λ r. refl),
  update_where-IsKeyed IpAddress.ip (recoverable now) recovered c.tables.ips (λ r. refl) keyed,
)

unheld_le_one : (o : Option IpAddress) → unheld o ≤ 1
unheld_le_one o = ground arith

-- However allocations, attachments, releases and recoveries interleave, and whatever fails, an
-- address is handed out at most once more than it is released, and an address that is held is
-- handed out no more often than it is released.
pub one_holder :
    (ip : ℕ) (calls : List Call) (c : Conn)
    → HasKeyedIps c.tables
    → (effects (call ip) calls c ≤ releases_of ip calls + 1)
      × (effects (call ip) calls c ≤ releases_of ip calls + unheld_of ip c.tables)
unfolding releases_of
one_holder ip calls c keyed =
    let bound =
      effects-le-income (call ip) (unheld_of ip) HasKeyedIps (frees ip) (call-Trades ip) calls c
        keyed in
    (omega (arith, bound, unheld_le_one (find IpAddress.ip ip c.tables.ips)), omega (arith, bound))
