-- ===== src/Results/View/Sorting.antt =====
-- The stable sort that stands for `sort.SliceStable` in server/results.go.
use duplicatefinder.Base.{
  ◌||◌, any, inr, inl, refl, [], ◌+◌, Bool-cases, not, arith, if◌then◌else◌, false, ◌&&◌, true, all,
  ℕ, ◌∷◌, ◌≡◌, List, Bool,
}
use duplicatefinder.Results.View.{sort_stable, insert_stable}

module _ {ℓ} {A : Type ℓ} where
  -- What all elements satisfy, all elements of the sorted list satisfy.
  pub insert_stable-all :
      (lt : A → A → Bool) (p : A → Bool) (x : A) (ys : List A)
      → all p (insert_stable lt x ys) ≡ (p x && all p ys)
  unfolding insert_stable
  insert_stable-all lt p x [] = refl
  insert_stable-all lt p x (y ∷ ys) = ground (arith, insert_stable-all lt p x ys)

  pub sort_stable-all :
      (lt : A → A → Bool) (p : A → Bool) (xs : List A) → all p (sort_stable lt xs) ≡ all p xs
  unfolding sort_stable
  sort_stable-all lt p [] = refl
  sort_stable-all lt p (x ∷ xs) =
      ground (arith, insert_stable-all lt p x (sort_stable lt xs), sort_stable-all lt p xs)

  insert_stable-any :
      (lt : A → A → Bool) (p : A → Bool) (x : A) (ys : List A)
      → any p (insert_stable lt x ys) ≡ (p x || any p ys)
  unfolding insert_stable
  insert_stable-any lt p x [] = refl
  insert_stable-any lt p x (y ∷ ys) = ground (arith, insert_stable-any lt p x ys)

  pub sort_stable-any :
      (lt : A → A → Bool) (p : A → Bool) (xs : List A) → any p (sort_stable lt xs) ≡ any p xs
  unfolding sort_stable
  sort_stable-any lt p [] = refl
  sort_stable-any lt p (x ∷ xs) =
      ground (arith, insert_stable-any lt p x (sort_stable lt xs), sort_stable-any lt p xs)

  -- How many elements pass a test.
  abbrev pub count : (A → Bool) → List A → ℕ
  count p [] = 0
  count p (x ∷ xs) = (if p x then 1 else 0) + count p xs

  pub insert_stable-count :
      (lt : A → A → Bool) (p : A → Bool) (x : A) (ys : List A)
      → count p (insert_stable lt x ys) ≡ count p (x ∷ ys)
  unfolding insert_stable
  insert_stable-count lt p x [] = refl
  insert_stable-count lt p x (y ∷ ys) = ground (arith, insert_stable-count lt p x ys)

  pub sort_stable-count :
      (lt : A → A → Bool) (p : A → Bool) (xs : List A) → count p (sort_stable lt xs) ≡ count p xs
  unfolding sort_stable
  sort_stable-count lt p [] = refl
  sort_stable-count lt p (x ∷ xs) =
      ground (arith, insert_stable-count lt p x (sort_stable lt xs), sort_stable-count lt p xs)

  -- No element is less than one before it.
  abbrev pub IsSorted : (A → A → Bool) → List A → Type 0
  IsSorted lt [] = Unit
  IsSorted lt (x ∷ xs) = (all (λ y. not (lt y x)) xs ≡ true) × IsSorted lt xs

  module _ (lt : A → A → Bool) (asymm : (a b : A) → lt a b ≡ true → lt b a ≡ false)
      (trans : (a b c : A) → lt b a ≡ false → lt c b ≡ false → lt c a ≡ false) where
    pub above :
        (x y : A) (ys : List A)
        → lt y x ≡ false
        → all (λ z. not (lt z y)) ys ≡ true
        → all (λ z. not (lt z x)) ys ≡ true
    above x y [] h k = refl
    above x y (z ∷ ys) h k = ground (arith, above x y ys, trans x y z)

    pub insert_stable-IsSorted :
        (x : A) (ys : List A) → IsSorted lt ys → IsSorted lt (insert_stable lt x ys)
    unfolding insert_stable
    insert_stable-IsSorted x [] h = (refl, tt)
    insert_stable-IsSorted x (y ∷ ys) h = elim (Bool-cases (lt y x)) [
      | inl less ↦ rw less (
        ground (arith, h.0, asymm y x, insert_stable-all lt (λ z. not (lt z y)) x ys),
        insert_stable-IsSorted x ys h.1,
      )
      | inr not_less ↦ rw not_less (ground (arith, above x y ys, h.0), h)
    ]

    pub sort_stable-IsSorted : (xs : List A) → IsSorted lt (sort_stable lt xs)
    unfolding sort_stable
    sort_stable-IsSorted [] = tt
    sort_stable-IsSorted (x ∷ xs) =
        insert_stable-IsSorted x (sort_stable lt xs) (sort_stable-IsSorted xs)
