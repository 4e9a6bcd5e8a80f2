-- ===== src/Ips/Seed/Whole.antt =====
-- `SeedPool` as a whole: its result, and where it reports an error.
use incus.Base.{
  ℕ, zero, suc, ◌+◌, ◌≤◌, ◌<◌, ◌≡◌, Bool, true, false, Option, none, some, arith, refl, sym, ap,
  ◌∙◌,
}
use incus.Store.{Conn, Error, Outcome, returns, raises}
use incus.Ips.{seed_ip}
use incus.Ips.Bytes.{Ip4, value, IsBytes, inc_ip, same_ip, inc_ip-value}
use incus.Ips.Seed.{
  Seeded, ends, distance, SeedResult, seed_loop, seed_pool, distance-inc, seed_loop-SeedResult,
}

-- The last statement failed, where the result is an error.
abbrev pub SeedFault : Conn → Option (Seeded × Conn) → Type 0
SeedFault c none = ⊥
SeedFault c (some (r, d)) =
    (e : Error) → r.error ≡ some e → (n : ℕ) × (c.tick ≤ n) × (n + 1 ≡ d.tick) × (c.fails n ≡ true)

seed_ip-fault :
    (pool_id ip : ℕ) (c d : Conn) (e : Error)
    → seed_ip pool_id ip c ≡ raises e d
    → (d.tick ≡ c.tick + 1) × (c.fails c.tick ≡ true)
unfolding seed_ip
seed_ip-fault pool_id ip c d e h = (ground arith, ground arith)

seed_ip-done :
    (pool_id ip : ℕ) (c d : Conn)
    → seed_ip pool_id ip c ≡ returns tt d
    → (d.fails ≡ c.fails) × (c.tick ≤ d.tick)
unfolding seed_ip
seed_ip-done pool_id ip c d h = (ground arith, ground arith)

SeedFault-back :
    (c d : Conn) (r : Option (Seeded × Conn))
    → d.fails ≡ c.fails
    → c.tick ≤ d.tick
    → SeedFault d r
    → SeedFault c r
SeedFault-back c d none same later h = h
SeedFault-back c d (some (r, d')) same later h = λ e failed.
    let (n, from, last, broken) = h e failed in
    (n, omega (arith, later, from), last, ap (λ (f : ℕ → Bool). f n) (sym same) ∙ broken)

module _ (pool_id ip : ℕ) (c : Conn) where
  raised :
      (count : ℕ) (e : Error) (d : Conn)
      → seed_ip pool_id ip c ≡ raises e d
      → SeedFault c (some (record { count = count; error = some e }, d))
  raised count e d h =
      let (last, broken) = seed_ip-fault pool_id ip c d e h in
      λ _ _. (c.tick, omega arith, omega (arith, last), broken)

  last_fault :
      (count : ℕ) (o : Outcome (Unit {0}))
      → seed_ip pool_id ip c ≡ o
      → SeedFault c (elim o [
        | returns _ d ↦ some (record { count = count + 1; error = none }, d)
        | raises e d ↦ some (record { count = count; error = some e }, d)
      ])
  last_fault count (returns _ d) h = λ e failed. absurd (ground (arith, failed))
  last_fault count (raises e d) h = raised count e d h

  next_fault :
      (count : ℕ) (k : Conn → Option (Seeded × Conn)) (o : Outcome (Unit {0}))
      → seed_ip pool_id ip c ≡ o
      → ((d : Conn) → SeedFault d (k d))
      → SeedFault c (elim o [
        | returns _ d ↦ k d
        | raises e d ↦ some (record { count = count; error = some e }, d)
      ])
  next_fault count k (returns _ d) h rest =
      let (same, later) = seed_ip-done pool_id ip c d h in
      SeedFault-back c d (k d) same later (rest d)
  next_fault count k (raises e d) h rest = raised count e d h

seed_loop-SeedFault :
    (fuel pool_id : ℕ) (ip last : Ip4) (count : ℕ) (c : Conn)
    → IsBytes ip
    → IsBytes last
    → distance (value ip) (value last) < fuel
    → SeedFault c (seed_loop fuel pool_id ip last count c)
unfolding seed_loop
seed_loop-SeedFault zero pool_id ip last count c hx hy enough = elim enough [ ]
seed_loop-SeedFault (suc fuel) pool_id ip last count c hx hy enough =
    let split : (x : Bool)
        → same_ip ip last ≡ x
        → SeedFault c (elim x [
          | true ↦ elim (seed_ip pool_id (value last) c) [
            | returns _ d ↦ some (record { count = count + 1; error = none }, d)
            | raises e d ↦ some (record { count = count; error = some e }, d)
          ]
          | false ↦ elim (seed_ip pool_id (value ip) c) [
            | returns _ d ↦ seed_loop fuel pool_id (inc_ip ip) last (count + 1) d
            | raises e d ↦ some (record { count = count; error = some e }, d)
          ]
        ]) =
      elim [
        | true ↦ λ same. last_fault pool_id (value last) c count _ refl
        | false ↦ λ differs.
            next_fault pool_id (value ip) c count
              (λ d. seed_loop fuel pool_id (inc_ip ip) last (count + 1) d) _ refl
              λ d.
                seed_loop-SeedFault fuel pool_id (inc_ip ip) last (count + 1) d
                  (inc_ip-value ip hx).0 hy (omega (arith, distance-inc ip last hx hy differs))
      ] in
    split (same_ip ip last) refl

-- Seeding a range ends once the fuel exceeds the steps from its first address to its last. No row
-- is lost. It reports an error only where its last statement failed; else every address from the
-- first to the last has a row and the count is their number; a range whose last address is below
-- its first goes on past 255.255.255.255.
pub seed_pool_fills :
    (fuel pool_id : ℕ) (first last : Ip4) (c : Conn)
    → IsBytes first
    → IsBytes last
    → distance (value first) (value last) < fuel
    → SeedResult
        (value first)
        (value last)
        0
        c.tables
        (seed_pool fuel pool_id (ends (some first) (some last)) c)
      × SeedFault c (seed_pool fuel pool_id (ends (some first) (some last)) c)
unfolding seed_pool
seed_pool_fills fuel pool_id first last c hx hy enough = (
  seed_loop-SeedResult fuel pool_id first last 0 c hx hy enough,
  seed_loop-SeedFault fuel pool_id first last 0 c hx hy enough,
)
