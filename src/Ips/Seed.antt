-- ===== src/Ips/Seed.antt =====
-- `SeedPool`: a row for every address of a range, from its first to its last.
pub mod Whole
use incus.Base.{
  ℕ, zero, suc, ◌+◌, ◌-◌, ◌%◌, ◌≤◌, ◌<◌, ◌≡◌, ◌≢◌, Bool, true, false, inl, inr, Option, none, some,
  arith, ◌==◌, Bool-cases, eqb→eq, ◌⊎◌, refl, sym, ap, ◌∙◌, subst,
}
use incus.Base.Table.{count_where}
use incus.Models.{IpAddress}
use incus.Store.{Tables, Conn, Error, Outcome, returns, raises, invalid_range, invalid_ips}
use incus.Ips.{seed_ip}
use incus.Ips.Bytes.{
  Ip4, value, IsBytes, inc_ip, same_ip, inc_ip-value, same_ip→value, value→same_ip,
}

-- The two results of `SeedPool`.
pub record Seeded : Type 0 where
  pub count : ℕ
  pub error : Option Error

-- The loop and the insert of the last address, on fuel; none where the fuel runs out.
unfoldable pub seed_loop : ℕ → ℕ → Ip4 → Ip4 → ℕ → Conn → Option (Seeded × Conn)
seed_loop zero pool_id ip last count c = none
seed_loop (suc fuel) pool_id ip last count c = elim (same_ip ip last) [
  | true ↦ elim (seed_ip pool_id (value last) c) [
    | returns _ d ↦ some (record { count = count + 1; error = none }, d)
    | raises e d ↦ some (record { count = count; error = some e }, d)
  ]
  | false ↦ elim (seed_ip pool_id (value ip) c) [
    | returns _ d ↦ seed_loop fuel pool_id (inc_ip ip) last (count + 1) d
    | raises e d ↦ some (record { count = count; error = some e }, d)
  ]
]

-- strings.Split(ipRange, "-"), and net.ParseIP(…).To4() of the two parts.
pub data Range : Type 0 where
  malformed : Range
  ends : Option Ip4 → Option Ip4 → Range

unfoldable pub seed_pool : ℕ → ℕ → Range → Conn → Option (Seeded × Conn)
seed_pool fuel pool_id (ends (some first) (some last)) c = seed_loop fuel pool_id first last 0 c
seed_pool fuel pool_id malformed c = some (record { count = 0; error = some invalid_range }, c)
seed_pool fuel pool_id (ends _ _) c = some (record { count = 0; error = some invalid_ips }, c)

-- The steps from one address up to another, past 255.255.255.255 if need be.
abbrev pub distance : ℕ → ℕ → ℕ
distance a b = (b + 4294967296 - a) % 4294967296

value_fits : (x : Ip4) → IsBytes x → value x < 4294967296
value_fits x h = omega arith

pub distance-inc :
    (x y : Ip4)
    → IsBytes x
    → IsBytes y
    → same_ip x y ≡ false
    → distance (value (inc_ip x)) (value y) + 1 ≡ distance (value x) (value y)
distance-inc x y hx hy differs =
    let ne : value x ≢ value y = λ e. ground (arith, value→same_ip x y hx hy e) in
    let fx = value_fits x hx in let fy = value_fits y hy in omega (arith, (inc_ip-value x hx).1)

-- The address has a row.
abbrev pub HasRow : ℕ → Tables → Type 0
HasRow n t = 0 < count_where (λ (a : IpAddress). a.ip == n) t.ips

-- A seeded address has a row, and no row is lost.
seed_ip-HasRow :
    (pool_id ip : ℕ) (c d : Conn) → seed_ip pool_id ip c ≡ returns tt d → HasRow ip d.tables
unfolding seed_ip count_where
seed_ip-HasRow pool_id ip c d h = ground arith

seed_ip_keeps :
    (pool_id ip n : ℕ) (c d : Conn)
    → seed_ip pool_id ip c ≡ returns tt d
    → HasRow n c.tables
    → HasRow n d.tables
unfolding seed_ip count_where
seed_ip_keeps pool_id ip n c d h row = ground arith

seed_ip-raises :
    (pool_id ip : ℕ) (c d : Conn) (e : Error)
    → seed_ip pool_id ip c ≡ raises e d
    → d.tables ≡ c.tables
unfolding seed_ip
seed_ip-raises pool_id ip c d e h = ground arith

-- The address lies on the way from the first address to the last.
abbrev pub OnTheWay : ℕ → ℕ → ℕ → Type 0
OnTheWay first last n = (n < 4294967296) × (distance first n ≤ distance first last)

-- No row is lost, and a run without an error has a row for every address on its way and counts
-- them all.
abbrev pub Filled : ℕ → ℕ → ℕ → Tables → ℕ → Tables → Option Error → Type 0
Filled first last count t n t' none =
    (n ≡ count + distance first last + 1)
    × ((m : ℕ) → OnTheWay first last m → HasRow m t')
    × ((m : ℕ) → HasRow m t → HasRow m t')
Filled first last count t n t' (some e) = (m : ℕ) → HasRow m t → HasRow m t'

-- What a run that ends has done.
abbrev pub SeedResult : ℕ → ℕ → ℕ → Tables → Option (Seeded × Conn) → Type 0
SeedResult first last count t none = ⊥
SeedResult first last count t (some (r, d)) = Filled first last count t r.count d.tables r.error

-- The rest of the way, after its first address.
OnTheWay-step :
    (v w l n : ℕ)
    → v < 4294967296
    → l < 4294967296
    → w ≡ (v + 1) % 4294967296
    → distance w l + 1 ≡ distance v l
    → OnTheWay v l n
    → (n ≡ v) ⊎ OnTheWay w l n
OnTheWay-step v w l n fv fl e closer (fits, way) = elim (Bool-cases (n == v)) [
  | inl same ↦ inl (eqb→eq n v same)
  | inr differs ↦ let ne : n ≢ v = λ e'. ground arith in inr (fits, omega arith)
]

module _ (pool_id : ℕ) (ip last : Ip4) (count : ℕ) (c : Conn) (hx : IsBytes ip)
    (hy : IsBytes last) where
  kept_on_error :
      (d : Conn) (e : Error) (m : ℕ)
      → seed_ip pool_id m c ≡ raises e d
      → (n : ℕ) → HasRow n c.tables
      → HasRow n d.tables
  kept_on_error d e m h n row = subst (λ t. HasRow n t) (sym (seed_ip-raises pool_id m c d e h)) row

  last_step :
      (o : Outcome (Unit {0}))
      → seed_ip pool_id (value last) c ≡ o
      → same_ip ip last ≡ true
      → SeedResult (value ip) (value last) count c.tables (elim o [
        | returns _ d ↦ some (record { count = count + 1; error = none }, d)
        | raises e d ↦ some (record { count = count; error = some e }, d)
      ])
  last_step (raises e d) h same = kept_on_error d e (value last) h
  last_step (returns _ d) h same =
      let v = same_ip→value ip last same in
      (
        omega arith,
        λ n way.
            let e : value last ≡ n = omega (arith, value_fits last hy) in
            subst (λ m. HasRow m d.tables) e (seed_ip-HasRow pool_id (value last) c d h),
        λ n row. seed_ip_keeps pool_id (value last) n c d h row,
      )

  Filled-step :
      (d : Conn) (n : ℕ) (t : Tables) (e : Option Error)
      → seed_ip pool_id (value ip) c ≡ returns tt d
      → same_ip ip last ≡ false
      → Filled (value (inc_ip ip)) (value last) (count + 1) d.tables n t e
      → Filled (value ip) (value last) count c.tables n t e
  Filled-step d n t (some e) h differs kept =
      λ m row. kept m (seed_ip_keeps pool_id (value ip) m c d h row)
  Filled-step d n t none h differs (counted, reached, kept) =
      let closer = distance-inc ip last hx hy differs in
      (
        omega (arith, counted),
        λ m way.
            elim (OnTheWay-step (value ip) (value (inc_ip ip)) (value last) m (value_fits ip hx)
              (value_fits last hy) (inc_ip-value ip hx).1 closer way) [
                | inl e ↦ kept m (
                    subst (λ k. HasRow k d.tables) (sym e)
                      (seed_ip-HasRow pool_id (value ip) c d h))
                | inr rest ↦ reached m rest
              ],
        λ m row. kept m (seed_ip_keeps pool_id (value ip) m c d h row),
      )

  SeedResult-step :
      (d : Conn) (r : Option (Seeded × Conn))
      → seed_ip pool_id (value ip) c ≡ returns tt d
      → same_ip ip last ≡ false
      → SeedResult (value (inc_ip ip)) (value last) (count + 1) d.tables r
      → SeedResult (value ip) (value last) count c.tables r
  SeedResult-step d none h differs ih = ih
  SeedResult-step d (some (r, d')) h differs ih =
      Filled-step d r.count d'.tables r.error h differs ih

  next_step :
      (k : Conn → Option (Seeded × Conn)) (o : Outcome (Unit {0}))
      → seed_ip pool_id (value ip) c ≡ o
      → same_ip ip last ≡ false
      → ((d : Conn) → SeedResult (value (inc_ip ip)) (value last) (count + 1) d.tables (k d))
      → SeedResult (value ip) (value last) count c.tables (elim o [
        | returns _ d ↦ k d
        | raises e d ↦ some (record { count = count; error = some e }, d)
      ])
  next_step k (raises e d) h differs rest = kept_on_error d e (value ip) h
  next_step k (returns _ d) h differs rest = SeedResult-step d (k d) h differs (rest d)

pub seed_loop-SeedResult :
    (fuel pool_id : ℕ) (ip last : Ip4) (count : ℕ) (c : Conn)
    → IsBytes ip
    → IsBytes last
    → distance (value ip) (value last) < fuel
    → SeedResult (value ip) (value last) count c.tables (seed_loop fuel pool_id ip last count c)
unfolding seed_loop
seed_loop-SeedResult zero pool_id ip last count c hx hy enough = elim enough [ ]
seed_loop-SeedResult (suc fuel) pool_id ip last count c hx hy enough =
    let split : (x : Bool)
        → same_ip ip last ≡ x
        → SeedResult (value ip) (value last) count c.tables (elim x [
          | true ↦ elim (seed_ip pool_id (value last) c) [
            | returns _ d ↦ some (record { count = count + 1; error = none }, d)
            | raises e d ↦ some (record { count = count; error = some e }, d)
          ]
          | false ↦ elim (seed_ip pool_id (value ip) c) [
            | returns _ d ↦ seed_loop fuel pool_id (inc_ip ip) last (count + 1) d
            | raises e d ↦ some (record { count = count; error = some e }, d)
          ]
        ]) =
      elim [
        | true ↦ λ same. last_step pool_id ip last count c hx hy _ refl same
        | false ↦ λ differs.
            next_step pool_id ip last count c hx hy
              (λ d. seed_loop fuel pool_id (inc_ip ip) last (count + 1) d) _ refl differs
              λ d.
                seed_loop-SeedResult fuel pool_id (inc_ip ip) last (count + 1) d
                  (inc_ip-value ip hx).0 hy (omega (arith, distance-inc ip last hx hy differs))
      ] in
    split (same_ip ip last) refl
