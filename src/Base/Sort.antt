-- ===== src/Base/Sort.antt =====
-- `sort.SliceStable` and `sort.Slice` with a `less` function, and `range` over a slice. `sort.Slice`
-- leaves open how equal elements are ordered; here they keep the order they had.
use mathlib.Core.Path.{◌≡◌, sym, subst}
use mathlib.Core.Logic.{inl, inr}
use mathlib.Core.Bool.{Bool, true, false}
use mathlib.Core.Option.{some}
use mathlib.Core.List.{List, [], ◌∷◌}
use native.Mathlib.Omega.{arith}
use incus.Base.Tests.{if◌then◌else◌, Bool-cases}
use incus.Base.Table.{first_where, modify, update_where, select_where}

module _ {A : Type 0} where
  abbrev pub All : (A → Type 0) → List A → Type 0
  All P [] = Unit
  All P (x ∷ xs) = P x × All P xs

  pub All-map : {P Q : A → Type 0} → ((x : A) → P x → Q x) → (xs : List A) → All P xs → All Q xs
  All-map f [] h = h
  All-map f (x ∷ xs) (p, ps) = (f x p, All-map f xs ps)

  every : (xs : List A) → All (λ _. Unit {0}) xs
  every [] = _
  every (x ∷ xs) = (_, every xs)

  pub first_where-All :
      (P : A → Type 0) (p : A → Bool) (xs : List A) (a : A)
      → All P xs
      → first_where p xs ≡ some a
      → P a × (p a ≡ true)
  unfolding first_where
  first_where-All P p [] a h e = absurd (ground arith)
  first_where-All P p (x ∷ xs) a (h, hs) e = elim (Bool-cases (p x)) [
    | inl before ↦
        let at : x ≡ a = ground arith in (subst P at h, subst (λ z. p z ≡ true) at before)
    | inr after ↦ first_where-All P p xs a hs (ground arith)
  ]

  pub All-update_where :
      (P Q : A → Type 0) (p : A → Bool) (f : A → A)
      → ((r : A) → P r → Q (modify p f r))
      → (table : List A) → All P table
      → All Q (update_where p f table)
  unfolding update_where
  All-update_where P Q p f g [] h = _
  All-update_where P Q p f g (r ∷ table) (x, h) = (g r x, All-update_where P Q p f g table h)

  pub All-select :
      (P : A → Type 0) (p : A → Bool) (table : List A) → All P table → All P (select_where p table)
  unfolding select_where
  All-select P p [] h = _
  All-select P p (r ∷ table) (x, h) = elim (Bool-cases (p r)) [
    | inl hit ↦ rw (hit) (x, All-select P p table h)
    | inr miss ↦ rw (miss) (All-select P p table h)
  ]

  module _ (less : A → A → Bool) where
    unfoldable pub insert_sorted : A → List A → List A
    insert_sorted x [] = x ∷ []
    insert_sorted x (y ∷ ys) =
        let later = y ∷ insert_sorted x ys in if less y x then later else x ∷ y ∷ ys

    unfoldable pub sort_stable : List A → List A
    unfolding insert_sorted
    sort_stable [] = []
    sort_stable (x ∷ xs) = insert_sorted x (sort_stable xs)

    insert_sorted-All :
        (P : A → Type 0) (x : A) (xs : List A) → P x → All P xs → All P (insert_sorted x xs)
    unfolding insert_sorted
    insert_sorted-All P x [] p h = (p, h)
    insert_sorted-All P x (y ∷ ys) p (q, qs) =
        elim (less y x) as (λ b. All P (if b then y ∷ insert_sorted x ys else x ∷ y ∷ ys)) [
          | true ↦ (q, insert_sorted-All P x ys p qs)
          | false ↦ (p, (q, qs))
        ]

    pub sort_stable-All : (P : A → Type 0) (xs : List A) → All P xs → All P (sort_stable xs)
    unfolding sort_stable
    sort_stable-All P [] h = h
    sort_stable-All P (x ∷ xs) (p, ps) =
        insert_sorted-All P x (sort_stable xs) p (sort_stable-All P xs ps)

    insert_sorted-of_All :
        (P : A → Type 0) (x : A) (xs : List A) → All P (insert_sorted x xs) → P x × All P xs
    unfolding insert_sorted
    insert_sorted-of_All P x [] h = h
    insert_sorted-of_All P x (y ∷ ys) h = elim (Bool-cases (less y x)) [
      | inl before ↦
          let split : P y × All P (insert_sorted x ys) =
            subst (λ b. All P (if b then y ∷ insert_sorted x ys else x ∷ y ∷ ys)) before h in
          let rest = insert_sorted-of_All P x ys split.1 in (rest.0, (split.0, rest.1))
      | inr after ↦ subst (λ b. All P (if b then y ∷ insert_sorted x ys else x ∷ y ∷ ys)) after h
    ]

    pub sort_stable-of_All : (P : A → Type 0) (xs : List A) → All P (sort_stable xs) → All P xs
    unfolding sort_stable
    sort_stable-of_All P [] h = h
    sort_stable-of_All P (x ∷ xs) h =
        let split = insert_sorted-of_All P x (sort_stable xs) h in
        (split.0, sort_stable-of_All P xs split.1)

    -- Nothing goes before what stands to its left.
    abbrev pub InOrder : List A → Type 0
    InOrder [] = Unit
    InOrder (x ∷ xs) = All (λ y. less y x ≡ false) xs × InOrder xs

    abbrev pub IsStrict : Type 0
    IsStrict =
        ((x y : A) → less x y ≡ true → less y x ≡ false)
        × ((x y z : A) → less y x ≡ false → less z y ≡ false → less z x ≡ false)

    module _ (strict : IsStrict) where
      insert_sorted-InOrder : (x : A) (xs : List A) → InOrder xs → InOrder (insert_sorted x xs)
      unfolding insert_sorted
      insert_sorted-InOrder x [] h = (_, h)
      insert_sorted-InOrder x (y ∷ ys) (below, h) = elim (Bool-cases (less y x)) [
        | inl before ↦
            subst (λ b. InOrder (if b then y ∷ insert_sorted x ys else x ∷ y ∷ ys)) (sym before)
              (
                insert_sorted-All (λ z. less z y ≡ false) x ys (strict.0 y x before) below,
                insert_sorted-InOrder x ys h,
              )
        | inr after ↦
            subst (λ b. InOrder (if b then y ∷ insert_sorted x ys else x ∷ y ∷ ys)) (sym after)
              ((after, All-map (λ z e. strict.1 x y z after e) ys below), (below, h))
      ]

      pub sort_stable-InOrder : (xs : List A) → InOrder (sort_stable xs)
      unfolding sort_stable
      sort_stable-InOrder [] = _
      sort_stable-InOrder (x ∷ xs) =
          insert_sorted-InOrder x (sort_stable xs) (sort_stable-InOrder xs)

    -- The first that passes a test comes before all the others, where what fails it does not
    -- go before what passes it.
    pub first_where-first :
        (p : A → Bool)
        → ((x y : A) → p x ≡ false → p y ≡ true → less x y ≡ false)
        → ((x : A) → less x x ≡ false)
        → (xs : List A) (a : A) → InOrder xs
        → first_where p xs ≡ some a
        → All (λ y. less y a ≡ false) xs
    unfolding first_where
    first_where-first p mono irr [] a h e = _
    first_where-first p mono irr (x ∷ xs) a (below, h) e = elim (Bool-cases (p x)) [
      | inl before ↦
          let at : x ≡ a = ground arith in
          subst (λ z. All (λ y. less y z ≡ false) (x ∷ xs)) at (irr x, below)
      | inr after ↦
          let later : first_where p xs ≡ some a = ground arith in
          let passes : p a ≡ true = (first_where-All (λ _. Unit {0}) p xs a (every xs) later).1 in
          (mono x a after passes, first_where-first p mono irr xs a h later)
    ]

-- What `sort.Slice` promises: a permutation of its list, in the order of a strict `less`. It
-- is enough that both lists have the same elements: what all of the one satisfy, all of the other do.
pub record Sorts {A : Type 0} (less : A → A → Bool) (sort : List A → List A) : Type 1 where
  pub forth : (P : A → Type 0) (xs : List A) → All P xs → All P (sort xs)
  pub back : (P : A → Type 0) (xs : List A) → All P (sort xs) → All P xs
  pub in_order : IsStrict less → (xs : List A) → InOrder less (sort xs)

pub sort_stable-Sorts : {A : Type 0} (less : A → A → Bool) → Sorts less (sort_stable less)
sort_stable-Sorts less = record {
  forth = sort_stable-All less;
  back = sort_stable-of_All less;
  in_order = λ strict xs. sort_stable-InOrder less strict xs;
}
