-- ===== src/Base/Select.antt =====
-- What a SELECT lists, under a primary key.
use Prim.Native.Nat.{ℕ}
use mathlib.Core.Path.{◌≡◌}
use mathlib.Core.Logic.{inl, inr}
use mathlib.Core.Bool.{Bool, true}
use mathlib.Core.Option.{none, some}
use mathlib.Core.List.{List, [], ◌∷◌}
use native.Mathlib.Omega.{arith}
use incus.Base.Tests.{Bool-cases, ◌==◌, eqb→eq, eqb_refl}
use incus.Base.Table.{select_where, find, IsKeyed}
use incus.Base.Sort.{All, All-map}

module _ {R : Type 0} (key : R → ℕ) (p : R → Bool) where
  abbrev pub IsHit : List R → R → Type 0
  IsHit rows r = (p r ≡ true) × (find key (key r) rows ≡ some r)

  later :
      (r : R) (rows : List R)
      → find key (key r) rows ≡ none
      → (x : R) → IsHit rows x
      → IsHit (r ∷ rows) x
  unfolding find
  later r rows fresh x (hit, found) = elim (Bool-cases (key r == key x)) [
    | inl same ↦ absurd (ground (arith, fresh, found, eqb→eq (key r) (key x) same))
    | inr other ↦ (hit, rw (find, other) found)
  ]

  here : (r : R) (rows : List R) → find key (key r) (r ∷ rows) ≡ some r
  unfolding find
  here r rows = ground (arith, eqb_refl (key r))

  -- The rows listed are the rows found by their keys.
  pub select_where-hits :
      (rows : List R) → IsKeyed key rows → All (IsHit rows) (select_where p rows)
  unfolding select_where
  select_where-hits [] h = _
  select_where-hits (r ∷ rows) (fresh, h) =
      let rest = All-map (later r rows fresh) (select_where p rows) (select_where-hits rows h) in
      elim (Bool-cases (p r)) [
        | inl hit ↦ rw (hit) ((hit, here r rows), rest)
        | inr miss ↦ rw (miss) rest
      ]
