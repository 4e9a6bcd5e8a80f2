-- ===== src/Store/Budget.antt =====
-- Calls that may take effect, made one after the other in any order, by any callers. If each
-- effect uses up a unit of a budget that the tables hold, no more take effect than it began with.
use incus.Base.{ℕ, ◌+◌, ◌≤◌, Bool, true, false, List, [], ◌∷◌, arith}
use incus.Store.{Tables, Conn, Outcome, returns, raises, conn_of}

-- 1 for a call that reports that it took effect.
abbrev pub took : Outcome Bool → ℕ
took (returns true c) = 1
took (returns false c) = 0
took (raises e c) = 0

-- A call spends what it takes, and keeps an invariant.
abbrev pub Spends : (Tables → ℕ) → (Tables → Type 0) → Tables → ℕ → Tables → Type 0
Spends budget Inv before n after = (n + budget after ≤ budget before) × Inv after

module _ {E : Type 0} (act : E → Conn → Outcome Bool) where
  -- How many of the calls took effect.
  unfoldable pub effects : List E → Conn → ℕ
  effects [] c = 0
  effects (e ∷ rest) c = took (act e c) + effects rest (conn_of (act e c))

  -- The tables after all of them.
  unfoldable pub after : List E → Conn → Conn
  after [] c = c
  after (e ∷ rest) c = after rest (conn_of (act e c))

  -- What the calls add to the budget, at most.
  unfoldable pub income : (E → ℕ) → List E → ℕ
  income gain [] = 0
  income gain (e ∷ rest) = gain e + income gain rest

  pub effects-le-income :
      (budget : Tables → ℕ) (Inv : Tables → Type 0) (gain : E → ℕ)
      → ((e : E) (c : Conn)
          → Inv c.tables
          → (took (act e c) + budget (conn_of (act e c)).tables ≤ budget c.tables + gain e)
            × Inv (conn_of (act e c)).tables)
      → (es : List E) (c : Conn) → Inv c.tables
      → effects es c + budget (after es c).tables ≤ budget c.tables + income gain es
  unfolding effects after income
  effects-le-income budget Inv gain step [] c inv = omega arith
  effects-le-income budget Inv gain step (e ∷ rest) c inv =
      let (spent, inv') = step e c inv in
      omega (arith, effects-le-income budget Inv gain step rest (conn_of (act e c)) inv')

  pub effects-le :
      (budget : Tables → ℕ) (Inv : Tables → Type 0)
      → ((e : E) (c : Conn)
          → Inv c.tables
          → Spends budget Inv c.tables (took (act e c)) (conn_of (act e c)).tables)
      → (es : List E) (c : Conn) → Inv c.tables
      → effects es c + budget (after es c).tables ≤ budget c.tables
  unfolding effects after
  effects-le budget Inv step [] c inv = omega arith
  effects-le budget Inv step (e ∷ rest) c inv =
      let (spent, inv') = step e c inv in
      omega (arith, effects-le budget Inv step rest (conn_of (act e c)) inv')
