-- ===== src/Prelude/Lists.antt =====
-- Lists: lengths over the native numbers, Boolean filters and quantifiers, predicates by recursion.
use Prim.Native.Nat.{ℕ, suc, ◌+◌, ◌≤◌}
use mathlib.Core.Logic.{◌⊎◌, inl, inr}
use mathlib.Core.Path.{◌≡◌, subst, refl}
use mathlib.Core.Bool.{Bool, true, false, ◌||◌}
use mathlib.Core.Option.{Option, none, some}
use mathlib.Core.List.{List, [], ◌∷◌, ◌++◌, map}
use native.Mathlib.Omega.{arith}
use raoffline_proxy.Prelude.Tests.{if◌then◌else◌, Bool-cases}

module _ {ℓ} {A : Type ℓ} where
  abbrev pub length : List A → ℕ
  length [] = 0
  length (x ∷ xs) = suc (length xs)

  -- `[x for x in xs if p(x)]`
  unfoldable pub keep : (A → Bool) → List A → List A
  keep p [] = []
  keep p (x ∷ xs) = let rest = keep p xs in if p x then x ∷ rest else rest

  -- `next((x for x in xs if p(x)), None)`
  unfoldable pub find : (A → Bool) → List A → Option A
  find p [] = none
  find p (x ∷ xs) = let rest = find p xs in if p x then some x else rest

  unfoldable pub any : (A → Bool) → List A → Bool
  any p [] = false
  any p (x ∷ xs) = p x || any p xs

  -- `sum(1 for x in xs if p(x))`
  unfoldable pub count : (A → Bool) → List A → ℕ
  count p [] = 0
  count p (x ∷ xs) = let rest = count p xs in if p x then suc rest else rest

  -- `xs[-1] if xs else None`
  unfoldable pub last : List A → Option A
  last [] = none
  last (x ∷ []) = some x
  last (x ∷ y ∷ xs) = last (y ∷ xs)

  -- A predicate by recursion computes to tuples.
  abbrev pub All {κ} : (A → Type κ) → List A → Type κ
  All P [] = Unit
  All P (x ∷ xs) = P x × All P xs

pub List-cases {ℓ} :
    {A : Type ℓ} (xs : List A) → (xs ≡ []) ⊎ ((x : A) × (later : List A) × (xs ≡ x ∷ later))
List-cases [] = inl refl
List-cases (x ∷ later) = inr (x, later, refl)

module _ {ℓ} {A : Type ℓ} where
  pub length-append : (xs ys : List A) → length (xs ++ ys) ≡ length xs + length ys
  length-append [] ys = omega arith
  length-append (x ∷ xs) ys = omega (arith, length-append xs ys)

  pub last-snoc : (xs : List A) (x : A) → last (xs ++ x ∷ []) ≡ some x
  unfolding last
  last-snoc [] x = refl
  last-snoc (y ∷ []) x = refl
  last-snoc (y ∷ z ∷ xs) x = last-snoc (z ∷ xs) x

  pub keep-append : (p : A → Bool) (xs ys : List A) → keep p (xs ++ ys) ≡ keep p xs ++ keep p ys
  unfolding keep
  keep-append p [] ys = refl
  keep-append p (x ∷ xs) ys = ground (arith, keep-append p xs ys)

  pub count-append : (p : A → Bool) (xs ys : List A) → count p (xs ++ ys) ≡ count p xs + count p ys
  unfolding count
  count-append p [] ys = omega arith
  count-append p (x ∷ xs) ys = ground (arith, count-append p xs ys)

  pub count-le-length : (p : A → Bool) (xs : List A) → count p xs ≤ length xs
  unfolding count
  count-le-length p [] = omega arith
  count-le-length p (x ∷ xs) = ground (arith, count-le-length p xs)

  pub keep-All : (p : A → Bool) (xs : List A) → All (λ x. p x ≡ true) (keep p xs)
  unfolding keep
  keep-All p [] = tt
  keep-All p (x ∷ xs) = ground (arith, keep-All p xs)

  pub any-count : (p : A → Bool) (xs : List A) → any p xs ≡ false → count p xs ≡ 0
  unfolding any count
  any-count p [] h = refl
  any-count p (x ∷ xs) h = ground (arith, any-count p xs)

module _ {ℓ} {A : Type ℓ} where
  pub All-keep {κ} : (P : A → Type κ) (p : A → Bool) (xs : List A) → All P xs → All P (keep p xs)
  unfolding keep
  All-keep P p [] h = tt
  All-keep P p (x ∷ xs) h = elim (Bool-cases (p x)) [
    | inl e ↦ rw e (h.0, All-keep P p xs h.1)
    | inr e ↦ rw e (All-keep P p xs h.1)
  ]

  pub All-map {κ μ} :
      (P : A → Type κ) (Q : A → Type μ) (step : (x : A) → P x → Q x) (xs : List A)
      → All P xs
      → All Q xs
  All-map P Q step [] h = tt
  All-map P Q step (x ∷ xs) h = (step x h.0, All-map P Q step xs h.1)

  -- Dropping what the search does not look for does not change what it finds.
  pub find-keep :
      (p q : A → Bool) (xs : List A)
      → ((x : A) → p x ≡ true → q x ≡ true)
      → find p (keep q xs) ≡ find p xs
  unfolding find keep
  find-keep p q [] h = refl
  find-keep p q (x ∷ xs) h = ground (arith, find-keep p q xs h, h x)

  -- Dropping all that the search looks for leaves nothing to find.
  pub find-keep-none :
      (p q : A → Bool) (xs : List A)
      → ((x : A) → p x ≡ true → q x ≡ false)
      → find p (keep q xs) ≡ none
  unfolding find keep
  find-keep-none p q [] h = refl
  find-keep-none p q (x ∷ xs) h = ground (arith, find-keep-none p q xs h, h x)

  -- What a search finds passes its test.
  pub find_sound : (p : A → Bool) (xs : List A) (x : A) → find p xs ≡ some x → p x ≡ true
  unfolding find
  find_sound p [] x h = cc
  find_sound p (y ∷ ys) x h = ground (arith, find_sound p ys x)

  -- No two elements are the same.
  abbrev pub Distinct : (A → A → Bool) → List A → Type 0
  Distinct same [] = Unit
  Distinct same (x ∷ xs) = All (λ y. same x y ≡ false) xs × Distinct same xs

  pub Distinct-keep :
      (same : A → A → Bool) (p : A → Bool) (xs : List A)
      → Distinct same xs
      → Distinct same (keep p xs)
  unfolding keep
  Distinct-keep same p [] h = tt
  Distinct-keep same p (x ∷ xs) h = elim (Bool-cases (p x)) [
    | inl e ↦ rw e (All-keep (λ y. same x y ≡ false) p xs h.0, Distinct-keep same p xs h.1)
    | inr e ↦ rw e (Distinct-keep same p xs h.1)
  ]

  -- What follows from two predicates together.
  pub All-both {κ μ ν} :
      (P : A → Type κ) (Q : A → Type μ) (R : A → Type ν) (xs : List A)
      → ((x : A) → P x → Q x → R x)
      → All P xs
      → All Q xs
      → All R xs
  All-both P Q R [] step ps qs = tt
  All-both P Q R (x ∷ xs) step ps qs = (step x ps.0 qs.0, All-both P Q R xs step ps.1 qs.1)

module _ {ℓ κ} {A : Type ℓ} {B : Type κ} (f : A → B) where
  pub All-of_map {μ} : (P : B → Type μ) (xs : List A) → All (λ x. P (f x)) xs → All P (map f xs)
  All-of_map P [] h = tt
  All-of_map P (x ∷ xs) h = (h.0, All-of_map P xs h.1)

  pub All-to_map {μ} : (P : B → Type μ) (xs : List A) → All P (map f xs) → All (λ x. P (f x)) xs
  All-to_map P [] h = tt
  All-to_map P (x ∷ xs) h = (h.0, All-to_map P xs h.1)

module _ {ℓ κ} {A : Type ℓ} {B : Type κ} (f : A → B) (same : B → B → Bool) where
  pub Distinct-of_map :
      (xs : List A) → Distinct (λ x y. same (f x) (f y)) xs → Distinct same (map f xs)
  Distinct-of_map [] d = tt
  Distinct-of_map (x ∷ xs) d =
      (All-of_map f (λ y. same (f x) y ≡ false) xs d.0, Distinct-of_map xs d.1)

  pub Distinct-to_map :
      (xs : List A) → Distinct same (map f xs) → Distinct (λ x y. same (f x) (f y)) xs
  Distinct-to_map [] d = tt
  Distinct-to_map (x ∷ xs) d =
      (All-to_map f (λ y. same (f x) y ≡ false) xs d.0, Distinct-to_map xs d.1)

module _ {ℓ κ} {A : Type ℓ} (P : A → Type κ) where
  pub All-snoc : (xs : List A) (x : A) → All P xs → P x → All P (xs ++ x ∷ [])
  All-snoc [] x h p = (p, tt)
  All-snoc (y ∷ xs) x h p = (h.0, All-snoc xs x h.1 p)

  -- What holds of all holds of what a search finds.
  pub All-find : (p : A → Bool) (xs : List A) (x : A) → All P xs → find p xs ≡ some x → P x
  unfolding find
  All-find p [] x h e = absurd cc
  All-find p (y ∷ ys) x h e = elim (Bool-cases (p y)) [
    | inl here ↦ let same : y ≡ x = ground arith in subst P same h.0
    | inr later ↦ All-find p ys x h.1 (ground arith)
  ]

pub Distinct-snoc {ℓ} :
    {A : Type ℓ} (same : A → A → Bool) (xs : List A) (x : A)
    → Distinct same xs
    → All (λ y. same y x ≡ false) xs
    → Distinct same (xs ++ x ∷ [])
Distinct-snoc same [] x d h = (tt, tt)
Distinct-snoc same (y ∷ xs) x d h =
    (All-snoc (λ z. same y z ≡ false) xs x d.0 h.0, Distinct-snoc same xs x d.1 h.1)

pub any-All {ℓ} :
    {A : Type ℓ} (p : A → Bool) (xs : List A) → any p xs ≡ false → All (λ x. p x ≡ false) xs
unfolding any
any-All p [] h = tt
any-All p (x ∷ xs) h = (ground arith, any-All p xs (ground arith))
