-- ===== src/Prelude/Sorted.antt =====
-- Python's `sorted` with a numeric key: stable insertion sort.
use mathlib.Core.Path.{◌≡◌, refl}
use mathlib.Core.Bool.{Bool, true, false}
use mathlib.Core.List.{List, [], ◌∷◌, ◌++◌}
use native.Mathlib.Omega.{arith}
use raoffline_proxy.Prelude.Tests.{Bool-cases, if◌then◌else◌}
use mathlib.Core.Logic.{inl, inr}
use mathlib.Core.List.{Perm}
use mathlib.Core.List.Perm
use raoffline_proxy.Prelude.Lists.{All, Distinct}

module _ {ℓ} {A : Type ℓ} (le : A → A → Bool) where
  -- `x` goes before the first element that it is at most.
  unfoldable pub insert : A → List A → List A
  insert x [] = x ∷ []
  insert x (y ∷ ys) = let rest = insert x ys in if le x y then x ∷ y ∷ ys else y ∷ rest

  unfoldable pub sort : List A → List A
  sort [] = []
  sort (x ∷ xs) = insert x (sort xs)

  -- Each element is at most its successor.
  abbrev pub IsSorted : List A → Type 0
  IsSorted [] = Unit
  IsSorted (x ∷ []) = Unit
  IsSorted (x ∷ y ∷ ys) = (le x y ≡ true) × IsSorted (y ∷ ys)

  abbrev pub IsTotal : Type ℓ
  IsTotal = (x y : A) → le x y ≡ false → le y x ≡ true

  insert-IsSorted : IsTotal → (x : A) (ys : List A) → IsSorted ys → IsSorted (insert x ys)
  unfolding insert
  insert-IsSorted total x [] h = tt
  insert-IsSorted total x (y ∷ []) h = elim (Bool-cases (le x y)) [
    | inl before ↦ rw before (before, tt)
    | inr after ↦ rw after (total x y after, tt)
  ]
  insert-IsSorted total x (y ∷ z ∷ ys) h = elim (Bool-cases (le x y)) [
    | inl before ↦ rw before (before, h)
    | inr after ↦ rw after (chain after (insert-IsSorted total x (z ∷ ys) h.1))
  ]
    where
      chain : le x y ≡ false → IsSorted (insert x (z ∷ ys)) → IsSorted (y ∷ insert x (z ∷ ys))
      chain after ih = elim (Bool-cases (le x z)) [
        | inl inner ↦ rw inner (total x y after, (inner, h.1))
        | inr outer ↦ rw outer (h.0, (rw outer at ih))
      ]

  pub sort-IsSorted : IsTotal → (xs : List A) → IsSorted (sort xs)
  unfolding sort
  sort-IsSorted total [] = tt
  sort-IsSorted total (x ∷ xs) = insert-IsSorted total x (sort xs) (sort-IsSorted total xs)

  insert-perm : (x : A) (ys : List A) → Perm (insert x ys) (x ∷ ys)
  unfolding insert
  insert-perm x [] = Perm.refl (x ∷ [])
  insert-perm x (y ∷ ys) = elim (Bool-cases (le x y)) [
    | inl before ↦ rw before (Perm.refl (x ∷ y ∷ ys))
    | inr after ↦ rw after (Perm.trans (Perm.cons y (insert-perm x ys)) (Perm.swap x y ys))
  ]

  pub sort-perm : (xs : List A) → Perm (sort xs) xs
  unfolding sort
  sort-perm [] = Perm.refl []
  sort-perm (x ∷ xs) = Perm.trans (insert-perm x (sort xs)) (Perm.cons x (sort-perm xs))

  insert-snoc :
      (x a : A) (ys : List A) → le x a ≡ true → insert x (ys ++ a ∷ []) ≡ insert x ys ++ a ∷ []
  unfolding insert
  insert-snoc x a [] h = rw h
  insert-snoc x a (y ∷ ys) h = ground (arith, insert-snoc x a ys h)

  -- What is at least as large as all others is sorted to the end.
  pub sort-snoc :
      (xs : List A) (a : A) → All (λ x. le x a ≡ true) xs → sort (xs ++ a ∷ []) ≡ sort xs ++ a ∷ []
  unfolding sort insert
  sort-snoc [] a h = refl
  sort-snoc (x ∷ xs) a h = rw (sort-snoc xs a h.1) (insert-snoc x a (sort xs) h.0)

  insert-All {κ} : (P : A → Type κ) (x : A) (ys : List A) → P x → All P ys → All P (insert x ys)
  unfolding insert
  insert-All P x [] h hs = (h, tt)
  insert-All P x (y ∷ ys) h hs = elim (Bool-cases (le x y)) [
    | inl before ↦ rw before (h, hs)
    | inr after ↦ rw after (hs.0, insert-All P x ys h hs.1)
  ]

  pub sort-All {κ} : (P : A → Type κ) (xs : List A) → All P xs → All P (sort xs)
  unfolding sort
  sort-All P [] h = tt
  sort-All P (x ∷ xs) h = insert-All P x (sort xs) h.0 (sort-All P xs h.1)

  -- Sorting keeps elements apart.
  module _ (same : A → A → Bool) (turn : (x y : A) → same x y ≡ false → same y x ≡ false) where
    insert-Distinct :
        (x : A) (ys : List A)
        → All (λ y. same x y ≡ false) ys
        → Distinct same ys
        → Distinct same (insert x ys)
    unfolding insert
    insert-Distinct x [] apart d = (tt, tt)
    insert-Distinct x (y ∷ ys) apart d = elim (Bool-cases (le x y)) [
      | inl before ↦ rw before (apart, d)
      | inr after ↦ rw after (
        insert-All (λ z. same y z ≡ false) x ys (turn x y apart.0) d.0,
        insert-Distinct x ys apart.1 d.1,
      )
    ]

    pub sort-Distinct : (xs : List A) → Distinct same xs → Distinct same (sort xs)
    unfolding sort
    sort-Distinct [] d = tt
    sort-Distinct (x ∷ xs) d =
        insert-Distinct x (sort xs) (sort-All (λ y. same x y ≡ false) xs d.0) (sort-Distinct xs d.1)
