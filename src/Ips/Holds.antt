-- ===== src/Ips/Holds.antt =====
-- What an allocation does.
use incus.Base.{ℕ, Bool, ◌≤◌, ◌≡◌, ◌≢◌, refl, sym, subst, true, inl, inr, some, arith, Option-cases}
use incus.Base.Table.{
  find, select_where, update_where, find-update_where, find-key, IsKeyed, update_where-IsKeyed,
}
use incus.Models.{IpAddress, IpStatus}
use incus.Store.{Tables, Conn, sent, Outcome, returns, raises, transaction}
use incus.Store.Rules.{transaction-raises}
use incus.Ips.Least.{LeastOf, least-select}
use incus.Ips.{takeable, least, at_ip, assigned_to, allocate_next}

-- The tables after the address is handed out.
unfoldable pub assigned_tables : ℕ → ℕ → ℕ → Tables → Tables
assigned_tables pool_id vm_id ip t = record t {
  ips = update_where (at_ip pool_id ip) (assigned_to vm_id) t.ips;
}

abbrev pub HasKeyedIps : Tables → Type 0
HasKeyedIps t = IsKeyed IpAddress.ip t.ips

allocate-returns :
    (pool_id vm_id : ℕ) (c d : Conn) (ip : ℕ)
    → allocate_next pool_id vm_id c ≡ returns ip d
    → (a : IpAddress) × (least (select_where (takeable (sent c) pool_id) c.tables.ips) ≡ some a)
      × (a.ip ≡ ip)
      × (d.tables ≡ assigned_tables pool_id vm_id ip c.tables)
unfolding allocate_next transaction assigned_tables
allocate-returns pool_id vm_id c d ip h =
    elim (Option-cases (least (select_where (takeable (sent c) pool_id) c.tables.ips))) [
      | inl missing ↦ absurd (ground arith)
      | inr (a, e) ↦ (a, e, ground arith, ground arith)
    ]

-- What an allocation that returns `ip` has done, of the addresses that are free to be taken.
pub record IsAllocated (free : IpAddress → Bool) (pool_id vm_id ip : ℕ) (t t' : Tables)
    : Type 0 where
  pub was_free :
      (a : IpAddress) × (find IpAddress.ip ip t.ips ≡ some a)
      × (a.pool_id ≡ pool_id)
      × (a.status ≡ IpStatus.available)
      × (find IpAddress.ip ip t'.ips ≡ some (assigned_to vm_id a))
  pub least_free :
      (b : IpAddress) → find IpAddress.ip b.ip t.ips ≡ some b → free b ≡ true → ip ≤ b.ip
  pub others_kept : (j : ℕ) → j ≢ ip → find IpAddress.ip j t'.ips ≡ find IpAddress.ip j t.ips
  pub keyed : IsKeyed IpAddress.ip t'.ips

assigned_tables-IsAllocated :
    (c : Conn) (pool_id vm_id : ℕ) (t : Tables) (a : IpAddress)
    → IsKeyed IpAddress.ip t.ips
    → LeastOf (takeable c pool_id) t.ips (some a)
    → IsAllocated (takeable c pool_id) pool_id vm_id a.ip t (assigned_tables pool_id vm_id a.ip t)
unfolding assigned_tables
assigned_tables-IsAllocated c pool_id vm_id t a keyed (free, at, below) =
    let found_after = λ (j : ℕ).
      find-update_where IpAddress.ip j (at_ip pool_id a.ip) (assigned_to vm_id) t.ips (λ r. refl) in
    record {
      was_free = (
        a,
        at,
        ground (arith, free),
        ground (arith, free),
        ground (arith, free, found_after a.ip),
      );
      least_free = below;
      others_kept = λ j ne. elim (Option-cases (find IpAddress.ip j t.ips)) [
        | inl e ↦ ground (arith, found_after j)
        | inr (b, e) ↦ ground (arith, found_after j, find-key IpAddress.ip j t.ips b e)
      ];
      keyed =
          update_where-IsKeyed IpAddress.ip (at_ip pool_id a.ip) (assigned_to vm_id) t.ips
            (λ r. refl) keyed;
    }

abbrev pub AllocateOutcome : ℕ → ℕ → Conn → Outcome ℕ → Type 0
AllocateOutcome pool_id vm_id c (raises e d) = d.tables ≡ c.tables
AllocateOutcome pool_id vm_id c (returns ip d) =
    IsAllocated (takeable (sent c) pool_id) pool_id vm_id ip c.tables d.tables

outcome_of_allocate :
    (pool_id vm_id : ℕ) (c : Conn) (o : Outcome ℕ)
    → allocate_next pool_id vm_id c ≡ o
    → IsKeyed IpAddress.ip c.tables.ips
    → AllocateOutcome pool_id vm_id c o
outcome_of_allocate pool_id vm_id c (raises e d) h keyed =
    unfold allocate_next in transaction-raises _ c e d h
outcome_of_allocate pool_id vm_id c (returns ip d) h keyed =
    let (a, e, same, after) = allocate-returns pool_id vm_id c d ip h in
    let found : LeastOf (takeable (sent c) pool_id) c.tables.ips (some a) =
      subst (LeastOf (takeable (sent c) pool_id) c.tables.ips) e
        (least-select (takeable (sent c) pool_id) c.tables.ips keyed) in
    let done = assigned_tables-IsAllocated (sent c) pool_id vm_id c.tables a keyed found in
    subst (IsAllocated (takeable (sent c) pool_id) pool_id vm_id ip c.tables) (sym after) (
      subst
        (λ i.
          IsAllocated (takeable (sent c) pool_id) pool_id vm_id i c.tables
            (assigned_tables pool_id vm_id i c.tables))
        same done)

-- Whatever fails, an allocation hands out the least address of the pool that is free and that no
-- other transaction has locked, which is then assigned, and leaves every other address alone; or it reports an error and changes nothing.
pub allocate-settles :
    (pool_id vm_id : ℕ) (c : Conn)
    → IsKeyed IpAddress.ip c.tables.ips
    → AllocateOutcome pool_id vm_id c (allocate_next pool_id vm_id c)
allocate-settles pool_id vm_id c keyed = outcome_of_allocate pool_id vm_id c _ refl keyed
