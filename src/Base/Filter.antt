-- ===== src/Base/Filter.antt =====
-- What a filtered list holds.
use mathlib.Core.Path.{◌≡◌, refl, ap, ◌∙◌, subst}
use mathlib.Core.Logic.{inl, inr}
use mathlib.Core.Bool.{Bool, true}
use mathlib.Core.List.{List, [], ◌∷◌, Memᴰ}
use mathlib.Core.List.Memᴰ
use native.Mathlib.Omega.{arith}
use incus.Base.Tests.{if◌then◌else◌, Bool-cases}
use incus.Base.Table.{select_where}
use incus.Base.Sort.{All}

module _ {A : Type 0} where
  pub All-mem : {P : A → Type 0} (xs : List A) → ((x : A) → Memᴰ x xs → P x) → All P xs
  All-mem [] f = _
  All-mem (x ∷ xs) f = (f x (Memᴰ.head refl), All-mem xs (λ y m. f y (Memᴰ.tail m)))

module _ {A : Type 0} (p : A → Bool) where
  pub mem-select_where :
      (xs : List A) (a : A) → Memᴰ a (select_where p xs) → Memᴰ a xs × (p a ≡ true)
  unfolding select_where
  mem-select_where [] a m = absurd (Memᴰ.not-nil m)
  mem-select_where (x ∷ xs) a m =
      let listed = λ (b : Bool). if b then x ∷ select_where p xs else select_where p xs in
      elim (Bool-cases (p x)) [
        | inl hit ↦ elim (Memᴰ.cases_cons (subst (λ b. Memᴰ a (listed b)) hit m)) [
          | inl same ↦ (Memᴰ.head same, ap p same ∙ hit)
          | inr later ↦ let (known, ready) = mem-select_where xs a later in (Memᴰ.tail known, ready)
        ]
        | inr miss ↦
            let (known, ready) = mem-select_where xs a (subst (λ b. Memᴰ a (listed b)) miss m) in
            (Memᴰ.tail known, ready)
      ]

  pub All-select_where :
      (P : A → Type 0) (xs : List A) → All P (select_where p xs) → All (λ x. p x ≡ true → P x) xs
  unfolding select_where
  All-select_where P [] h = _
  All-select_where P (x ∷ xs) h =
      let listed = λ (b : Bool). if b then x ∷ select_where p xs else select_where p xs in
      elim (Bool-cases (p x)) [
        | inl hit ↦
            let (here, rest) = subst (λ b. All P (listed b)) hit h in
            (λ _. here, All-select_where P xs rest)
        | inr miss ↦ (
          λ e. absurd (ground (arith, e, miss)),
          All-select_where P xs (subst (λ b. All P (listed b)) miss h),
        )
      ]
