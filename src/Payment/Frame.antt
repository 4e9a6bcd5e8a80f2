-- ===== src/Payment/Frame.antt =====
-- What the allocation of an address, and the reads of a payment, leave alone.
use incus.Provision.VmCreate.Compensation.{Follows, Follows-refl, Follows-trans}
use incus.Base.{
  ℕ, zero, suc, ◌+◌, if◌then◌else◌, String, ◌≡◌, inl, inr, refl, ◌∙◌, Bool, true, false, Option,
  none, some, List, [], ◌∷◌, arith, Bool-cases, ◌==◌,
}
use incus.Store.{
  Conn, Error, M, Outcome, returns, raises, conn_of, wrap, pure, ◌>>=◌, transaction, ◌>>◌, wrapped,
  no_pools,
}
use incus.Ips.{get_pool_id, ensure_pool, allocate_next, seed_ip}
use incus.Ips.Bytes.{Ip4, same_ip, value, inc_ip}
use incus.Ips.Seed.{Range, Seeded, seed_loop, seed_pool, malformed, ends}
use incus.Checkout.{
  PoolConfig, allocate_from_pool, allocate_from, allocate_ip, seed_logged, is_pool_exhausted,
  extract_cidr,
}

-- The rows of users and orders, and which statements fail.
pub record KeepsMoney (c d : Conn) : Type 0 where
  pub users : d.tables.users ≡ c.tables.users
  pub orders : d.tables.orders ≡ c.tables.orders
  pub follows : Follows c d

pub KeepsMoney-refl : (c : Conn) → KeepsMoney c c
KeepsMoney-refl c = record { users = refl; orders = refl; follows = Follows-refl c }

pub KeepsMoney-trans : (b c d : Conn) → KeepsMoney b c → KeepsMoney c d → KeepsMoney b d
KeepsMoney-trans b c d p q = record {
  users = q.users ∙ p.users;
  orders = q.orders ∙ p.orders;
  follows = Follows-trans b c d p.follows q.follows;
}

-- A call that keeps them from every connection.
abbrev pub Keeps : {A : Type 0} → M A → Type 0
Keeps m = (c : Conn) → KeepsMoney c (conn_of (m c))

module _ {A B : Type 0} (f : A → M B) (rest : (a : A) → Keeps (f a)) where
  keeps_then :
      (c : Conn) (o : Outcome A)
      → KeepsMoney c (conn_of o)
      → KeepsMoney c (conn_of (((λ _. o) >>= f) c))
  keeps_then c (returns a d) h = KeepsMoney-trans c d (conn_of (f a d)) h (rest a d)
  keeps_then c (raises e d) h = h

  Keeps-bind : (m : M A) → Keeps m → Keeps (m >>= f)
  Keeps-bind m first c = keeps_then c (m c) (first c)

keeps_wrapped :
    {A : Type 0} (s : String) (c : Conn) (o : Outcome A)
    → KeepsMoney c (conn_of o)
    → KeepsMoney c (conn_of (wrap s (λ _. o) c))
keeps_wrapped s c (returns a d) h = h
keeps_wrapped s c (raises e d) h = h

Keeps-wrap : {A : Type 0} (s : String) (m : M A) → Keeps m → Keeps (wrap s m)
Keeps-wrap s m h c = keeps_wrapped s c (m c) (h c)

get_pool_id-Keeps : (cidr : String) → Keeps (get_pool_id cidr)
unfolding get_pool_id
get_pool_id-Keeps cidr c = record {
  users = ground arith;
  orders = ground arith;
  follows = record { same = ground arith; ticks = ground arith };
}

ensure_pool-Keeps :
    (cluster_id : ℕ) (cidr gateway : String) (vlan : ℕ)
    → Keeps (ensure_pool cluster_id cidr gateway vlan)
unfolding ensure_pool
ensure_pool-Keeps cluster_id cidr gateway vlan c = record {
  users = ground arith;
  orders = ground arith;
  follows = record { same = ground arith; ticks = ground arith };
}

allocate_next-Keeps : (pool_id vm_id : ℕ) → Keeps (allocate_next pool_id vm_id)
unfolding allocate_next transaction
allocate_next-Keeps pool_id vm_id c = record {
  users = ground arith;
  orders = ground arith;
  follows = record { same = ground arith; ticks = ground arith };
}

seed_ip-Keeps : (pool_id ip : ℕ) → Keeps (seed_ip pool_id ip)
unfolding seed_ip
seed_ip-Keeps pool_id ip c = record {
  users = ground arith;
  orders = ground arith;
  follows = record { same = ground arith; ticks = ground arith };
}

-- The connection after a seeding that ends, or the one before where it does not.
abbrev seeded_conn : Conn → Option (Seeded × Conn) → Conn
seeded_conn c none = c
seeded_conn c (some (r, d)) = d

seeded_after :
    (c d : Conn) (r : Option (Seeded × Conn))
    → KeepsMoney c d
    → KeepsMoney d (seeded_conn d r)
    → KeepsMoney c (seeded_conn c r)
seeded_after c d none p q = KeepsMoney-refl c
seeded_after c d (some (r, e)) p q = KeepsMoney-trans c d e p q

seed_loop-Keeps :
    (fuel pool_id : ℕ) (ip last : Ip4) (count : ℕ) (c : Conn)
    → KeepsMoney c (seeded_conn c (seed_loop fuel pool_id ip last count c))
unfolding seed_loop
seed_loop-Keeps zero pool_id ip last count c = KeepsMoney-refl c
seed_loop-Keeps (suc fuel) pool_id ip last count c =
    by_end (seed_loop-Keeps fuel pool_id (inc_ip ip) last (count + 1)) (same_ip ip last)
  where
    last_one :
        (o : Outcome (Unit {0}))
        → KeepsMoney c (conn_of o)
        → KeepsMoney c (
            seeded_conn c (elim o [
              | returns _ d ↦ some (record { count = count + 1; error = none }, d)
              | raises e d ↦ some (record { count = count; error = some e }, d)
            ]))
    last_one (returns _ d) h = h
    last_one (raises e d) h = h

    one_more :
        (o : Outcome (Unit {0}))
        → KeepsMoney c (conn_of o)
        → ((d : Conn)
            → KeepsMoney d (seeded_conn d (seed_loop fuel pool_id (inc_ip ip) last (count + 1) d)))
        → KeepsMoney c (
            seeded_conn c (elim o [
              | returns _ d ↦ seed_loop fuel pool_id (inc_ip ip) last (count + 1) d
              | raises e d ↦ some (record { count = count; error = some e }, d)
            ]))
    one_more (returns _ d) h rest =
        seeded_after c d (seed_loop fuel pool_id (inc_ip ip) last (count + 1) d) h (rest d)
    one_more (raises e d) h rest = h

    by_end :
        ((d : Conn)
          → KeepsMoney d (seeded_conn d (seed_loop fuel pool_id (inc_ip ip) last (count + 1) d)))
        → (b : Bool)
        → KeepsMoney c (
            seeded_conn c (elim b [
              | true ↦ elim (seed_ip pool_id (value last) c) [
                | returns _ d ↦ some (record { count = count + 1; error = none }, d)
                | raises e d ↦ some (record { count = count; error = some e }, d)
              ]
              | false ↦ elim (seed_ip pool_id (value ip) c) [
                | returns _ d ↦ seed_loop fuel pool_id (inc_ip ip) last (count + 1) d
                | raises e d ↦ some (record { count = count; error = some e }, d)
              ]
            ]))
    by_end rest true =
        last_one (seed_ip pool_id (value last) c) (seed_ip-Keeps pool_id (value last) c)
    by_end rest false =
        one_more (seed_ip pool_id (value ip) c) (seed_ip-Keeps pool_id (value ip) c) rest

seed_pool-Keeps :
    (fuel pool_id : ℕ) (range : Range) (c : Conn)
    → KeepsMoney c (seeded_conn c (seed_pool fuel pool_id range c))
unfolding seed_pool
seed_pool-Keeps fuel pool_id malformed c = KeepsMoney-refl c
seed_pool-Keeps fuel pool_id (ends none none) c = KeepsMoney-refl c
seed_pool-Keeps fuel pool_id (ends none (some x)) c = KeepsMoney-refl c
seed_pool-Keeps fuel pool_id (ends (some x) none) c = KeepsMoney-refl c
seed_pool-Keeps fuel pool_id (ends (some first) (some last)) c =
    seed_loop-Keeps fuel pool_id first last 0 c

seed_logged-Keeps : (fuel pool_id : ℕ) (range : Range) → Keeps (seed_logged fuel pool_id range)
seed_logged-Keeps fuel pool_id range c =
    logged_after (seed_pool fuel pool_id range c) (seed_pool-Keeps fuel pool_id range c)
  where
    logged_after :
        (r : Option (Seeded × Conn))
        → KeepsMoney c (seeded_conn c r)
        → KeepsMoney c (
            conn_of (elim r as (λ _. Outcome (Unit {0})) [
              | none ↦ returns tt c
              | some (q, d) ↦ returns tt d
            ]))
    logged_after none h = h
    logged_after (some (q, d)) h = h

module _ (fuel : ℕ) (p : PoolConfig) where
  new_pool : M ℕ
  new_pool = do
    new ← wrap "ensure IP pool" (ensure_pool 1 p.cidr p.gateway p.vlan)
    seed_logged fuel new p.range
    pure new

  new_pool-Keeps : Keeps new_pool
  unfolding new_pool
  new_pool-Keeps =
      Keeps-bind _
        (λ new.
          Keeps-bind _ (λ _ c. KeepsMoney-refl c) (seed_logged fuel new p.range)
            (seed_logged-Keeps fuel new p.range))
        (wrap "ensure IP pool" (ensure_pool 1 p.cidr p.gateway p.vlan))
        (Keeps-wrap "ensure IP pool" (ensure_pool 1 p.cidr p.gateway p.vlan)
          (ensure_pool-Keeps 1 p.cidr p.gateway p.vlan))

  known_or_new-Keeps : (known : ℕ) → Keeps (if known == 0 then new_pool else pure known)
  known_or_new-Keeps known c = elim (Bool-cases (known == 0)) [
    | inl missing ↦ rw missing (new_pool-Keeps c)
    | inr there ↦ rw there (KeepsMoney-refl c)
  ]

  allocate_from_pool-Keeps : (vm_id : ℕ) → Keeps (allocate_from_pool fuel p vm_id)
  unfolding allocate_from_pool new_pool
  allocate_from_pool-Keeps vm_id =
      Keeps-bind _
        (λ known.
          Keeps-bind (λ pool_id. allocate_next pool_id vm_id)
            (λ pool_id. allocate_next-Keeps pool_id vm_id)
            (if known == 0 then new_pool else pure known) (known_or_new-Keeps known))
        (wrap "get IP pool" (get_pool_id p.cidr))
        (Keeps-wrap "get IP pool" (get_pool_id p.cidr) (get_pool_id-Keeps p.cidr))

allocate_from-Keeps :
    (fuel : ℕ) (last : Error) (pools : List PoolConfig) (vm_id : ℕ)
    → Keeps (allocate_from fuel last pools vm_id)
unfolding allocate_from
allocate_from-Keeps fuel last [] vm_id c = KeepsMoney-refl c
allocate_from-Keeps fuel last (p ∷ rest) vm_id c =
    tried (allocate_from_pool fuel p vm_id c) (allocate_from_pool-Keeps fuel p vm_id c)
      (λ e. allocate_from-Keeps fuel e rest vm_id)
  where
    tried :
        (o : Outcome ℕ)
        → KeepsMoney c (conn_of o)
        → ((e : Error) → Keeps (allocate_from fuel e rest vm_id))
        → KeepsMoney c (
            conn_of (elim o as (λ _. Outcome (ℕ × String × String)) [
              | returns ip d ↦ returns (ip, p.gateway, extract_cidr p.cidr) d
              | raises e d ↦ elim (is_pool_exhausted e) [
                | false ↦ raises (wrapped "allocate IP from pool" e) d
                | true ↦ allocate_from fuel e rest vm_id d
              ]
            ]))
    tried (returns ip d) h others = h
    tried (raises e d) h others = elim (Bool-cases (is_pool_exhausted e)) [
      | inl exhausted ↦
          rw exhausted
            (KeepsMoney-trans c d (conn_of (allocate_from fuel e rest vm_id d)) h (others e d))
      | inr broken ↦ rw broken h
    ]

-- The allocation of an address touches no balance and no order.
pub allocate_ip-Keeps :
    (fuel : ℕ) (pools : List PoolConfig) (vm_id : ℕ) → Keeps (allocate_ip fuel pools vm_id)
unfolding allocate_ip
allocate_ip-Keeps fuel [] vm_id c = KeepsMoney-refl c
allocate_ip-Keeps fuel (p ∷ rest) vm_id c = allocate_from-Keeps fuel no_pools (p ∷ rest) vm_id c
