-- ===== src/Base/Table.antt =====
-- Database tables as lists of rows, with the queries that the repositories make: a row by its
-- key, the rows that meet a condition, UPDATE … WHERE, and the rows affected.
use Prim.Native.Nat.{ℕ, ◌+◌, ◌<◌}
use mathlib.Core.Path.{◌≡◌, refl, subst}
use mathlib.Core.Logic.{inl, inr}
use mathlib.Core.Bool.{Bool, true}
use mathlib.Core.Option
use mathlib.Core.Option.{Option, none, some}
use mathlib.Core.List.{List, [], ◌∷◌}
use native.Mathlib.Omega.{arith}
use incus.Base.Tests.{◌==◌, if◌then◌else◌, Bool-cases, eqb→eq}

module _ {R : Type 0} where
  -- SELECT … WHERE p LIMIT 1
  unfoldable pub first_where : (R → Bool) → List R → Option R
  first_where p [] = none
  first_where p (r ∷ rows) = if p r then some r else first_where p rows

  -- SELECT … WHERE p
  unfoldable pub select_where : (R → Bool) → List R → List R
  select_where p [] = []
  select_where p (r ∷ rows) = let rest = select_where p rows in if p r then r ∷ rest else rest

  -- The rows affected by UPDATE … WHERE p
  unfoldable pub count_where : (R → Bool) → List R → ℕ
  count_where p [] = 0
  count_where p (r ∷ rows) = (if p r then 1 else 0) + count_where p rows

  abbrev pub modify : (R → Bool) → (R → R) → R → R
  modify p f r = if p r then f r else r

  -- UPDATE … SET f WHERE p
  unfoldable pub update_where : (R → Bool) → (R → R) → List R → List R
  update_where p f [] = []
  update_where p f (r ∷ rows) = modify p f r ∷ update_where p f rows

  -- An UPDATE that affects no row.
  pub update_where-none :
      (p : R → Bool) (f : R → R) (rows : List R)
      → count_where p rows ≡ 0
      → update_where p f rows ≡ rows
  unfolding count_where update_where
  update_where-none p f [] h = refl
  update_where-none p f (r ∷ rows) h = ground (arith, update_where-none p f rows)

module _ {R : Type 0} (key : R → ℕ) where
  -- SELECT … WHERE id = i
  unfoldable pub find : ℕ → List R → Option R
  find i [] = none
  find i (r ∷ rows) = if key r == i then some r else find i rows

  -- An UPDATE that leaves the key alone, seen through `find`.
  pub find-update_where :
      (i : ℕ) (p : R → Bool) (f : R → R) (rows : List R)
      → ((r : R) → key (f r) ≡ key r)
      → find i (update_where p f rows) ≡ Option.map (modify p f) (find i rows)
  unfolding find update_where
  find-update_where i p f [] keep = refl
  find-update_where i p f (r ∷ rows) keep =
      ground (arith, keep r, find-update_where i p f rows keep)

  -- UPDATE … WHERE id = k
  pub find-update_key :
      (i k : ℕ) (f : R → R) (rows : List R)
      → ((r : R) → key (f r) ≡ key r)
      → find i (update_where (λ r. key r == k) f rows)
        ≡ (if i == k then Option.map f (find i rows) else find i rows)
  unfolding find update_where
  find-update_key i k f [] keep = ground arith
  find-update_key i k f (r ∷ rows) keep = ground (arith, keep r, find-update_key i k f rows keep)

  -- A row that is found has the key.
  pub find-key : (i : ℕ) (rows : List R) (r : R) → find i rows ≡ some r → key r ≡ i
  unfolding find
  find-key i [] r h = ground arith
  find-key i (x ∷ rows) r h = ground (arith, find-key i rows r)

  -- No row is affected by an UPDATE whose condition asks for a key that is not there.
  pub count_where-zero :
      (i : ℕ) (p : R → Bool) (rows : List R)
      → ((r : R) → p r ≡ true → key r ≡ i)
      → find i rows ≡ none
      → count_where p rows ≡ 0
  unfolding find count_where
  count_where-zero i p [] asks h = refl
  count_where-zero i p (r ∷ rows) asks h = ground (arith, asks r, count_where-zero i p rows asks)

  -- The row with the key meets the condition, so at least one is affected.
  pub count_where-pos :
      (i : ℕ) (p : R → Bool) (rows : List R) (r : R)
      → find i rows ≡ some r
      → p r ≡ true
      → 0 < count_where p rows
  unfolding find count_where
  count_where-pos i p [] r h hit = ground arith
  count_where-pos i p (x ∷ rows) r h hit = ground (arith, count_where-pos i p rows r)

  -- PRIMARY KEY: no two rows share a key.
  abbrev pub IsKeyed : List R → Type 0
  IsKeyed [] = Unit
  IsKeyed (r ∷ rows) = (find (key r) rows ≡ none) × IsKeyed rows

  pub update_where-IsKeyed :
      (p : R → Bool) (f : R → R) (rows : List R)
      → ((r : R) → key (f r) ≡ key r)
      → IsKeyed rows
      → IsKeyed (update_where p f rows)
  unfolding update_where
  update_where-IsKeyed p f [] keep h = tt
  update_where-IsKeyed p f (r ∷ rows) keep h = (
    elim (Bool-cases (p r)) [
      | inl hit ↦ rw (hit, keep r, find-update_where (key r) p f rows keep, h.0)
      | inr miss ↦ rw (miss, find-update_where (key r) p f rows keep, h.0)
    ],
    update_where-IsKeyed p f rows keep h.1,
  )

  -- Under a primary key, a condition that asks for one key affects one row at most: the one found.
  abbrev pub hits : (R → Bool) → Option R → ℕ
  hits p none = 0
  hits p (some r) = if p r then 1 else 0

  pub count_where-hits :
      (i : ℕ) (p : R → Bool) (rows : List R)
      → ((r : R) → p r ≡ true → key r ≡ i)
      → IsKeyed rows
      → count_where p rows ≡ hits p (find i rows)
  unfolding find count_where
  count_where-hits i p [] asks h = refl
  count_where-hits i p (r ∷ rows) asks h = elim (Bool-cases (key r == i)) [
    | inl same ↦
        let e : count_where p rows ≡ 0 =
          count_where-zero i p rows asks (subst (λ k. find k rows ≡ none) (eqb→eq _ _ same) h.0) in
        rw same (omega (arith, e))
    | inr differs ↦ ground (arith, asks r, count_where-hits i p rows asks h.1)
  ]
