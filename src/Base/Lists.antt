-- ===== src/Base/Lists.antt =====
-- Lists measured by native numbers, with Boolean searches and filters.
use Prim.Native.Nat.{ℕ, zero, suc, ◌+◌, ◌-◌, ◌≤◌, min}
use mathlib.Core.Path.{◌≡◌, refl, ap, sym, ◌∙◌}
use mathlib.Core.Logic.{inl, inr}
use mathlib.Core.Bool.{Bool, true, false, ◌&&◌, ◌||◌}
use mathlib.Core.List.{List, [], ◌∷◌, ◌++◌}
use mathlib.Core.Option.{Option, none, some}
use native.Mathlib.Omega.{arith}
use duplicatefinder.Base.Tests.{
  Bool-cases, if◌then◌else◌, or-eq_true, or-eq_true_left, or-eq_true_right,
}

module _ {ℓ} {A : Type ℓ} where
  abbrev pub length : List A → ℕ
  length [] = 0
  length (x ∷ xs) = suc (length xs)

  abbrev pub take : ℕ → List A → List A
  take zero xs = []
  take (suc n) [] = []
  take (suc n) (x ∷ xs) = x ∷ take n xs

  abbrev pub drop : ℕ → List A → List A
  drop zero xs = xs
  drop (suc n) [] = []
  drop (suc n) (x ∷ xs) = drop n xs

  abbrev pub any : (A → Bool) → List A → Bool
  any p [] = false
  any p (x ∷ xs) = p x || any p xs

  abbrev pub all : (A → Bool) → List A → Bool
  all p [] = true
  all p (x ∷ xs) = p x && all p xs

  abbrev pub All {κ} : (A → Type κ) → List A → Type κ
  All P [] = Unit
  All P (x ∷ xs) = P x × All P xs

  abbrev pub filter : (A → Bool) → List A → List A
  filter p [] = []
  filter p (x ∷ xs) = let rest = filter p xs in if p x then x ∷ rest else rest

  abbrev pub find : (A → Bool) → List A → Option A
  find p [] = none
  find p (x ∷ xs) = let rest = find p xs in if p x then some x else rest

  abbrev pub cons_some : Option A → List A → List A
  cons_some none l = l
  cons_some (some a) l = a ∷ l

  abbrev pub is_nil : List A → Bool
  is_nil [] = true
  is_nil (x ∷ xs) = false

  pub length-append : (xs ys : List A) → length (xs ++ ys) ≡ length xs + length ys
  length-append [] ys = omega arith
  length-append (x ∷ xs) ys = omega (arith, length-append xs ys)

  pub take-append-drop : (n : ℕ) (xs : List A) → take n xs ++ drop n xs ≡ xs
  take-append-drop zero xs = refl
  take-append-drop (suc n) [] = refl
  take-append-drop (suc n) (x ∷ xs) = ap (◌∷◌ x) (take-append-drop n xs)

  pub length-take : (n : ℕ) (xs : List A) → length (take n xs) ≡ min n (length xs)
  length-take zero xs = omega arith
  length-take (suc n) [] = omega arith
  length-take (suc n) (x ∷ xs) = omega (arith, length-take n xs)

  pub length-drop : (n : ℕ) (xs : List A) → length (drop n xs) ≡ length xs - n
  length-drop zero xs = omega arith
  length-drop (suc n) [] = omega arith
  length-drop (suc n) (x ∷ xs) = omega (arith, length-drop n xs)

  pub drop_of_length-le : (xs : List A) (n : ℕ) → length xs ≤ n → drop n xs ≡ []
  drop_of_length-le [] zero le = refl
  drop_of_length-le [] (suc n) le = refl
  drop_of_length-le (x ∷ xs) zero le = absurd (omega (arith, le))
  drop_of_length-le (x ∷ xs) (suc n) le = drop_of_length-le xs n (omega (arith, le))

  append-nil : (xs : List A) → xs ++ [] ≡ xs
  append-nil [] = refl
  append-nil (x ∷ xs) = ap (◌∷◌ x) (append-nil xs)

  -- A list is all of its first `n` elements if it has no more.
  pub take_of_length-le : (n : ℕ) (xs : List A) → length xs ≤ n → take n xs ≡ xs
  take_of_length-le n xs le =
      sym (append-nil (take n xs))
      ∙ sym (ap (λ ys. take n xs ++ ys) (drop_of_length-le xs n le))
      ∙ take-append-drop n xs

module _ {ℓ} {A : Type ℓ} where
  pub any-append : (p : A → Bool) (xs ys : List A) → any p (xs ++ ys) ≡ (any p xs || any p ys)
  any-append p [] ys = refl
  any-append p (x ∷ xs) ys = ground (arith, any-append p xs ys)

  -- A search that succeeds for `p` succeeds for what `p` implies.
  pub any_mono :
      (p q : A → Bool)
      → ((x : A) → p x ≡ true → q x ≡ true)
      → (xs : List A) → any p xs ≡ true
      → any q xs ≡ true
  any_mono p q f [] h = h
  any_mono p q f (x ∷ xs) h = elim (or-eq_true (p x) (any p xs) h) [
    | inl here ↦ or-eq_true_left (q x) (any q xs) (f x here)
    | inr later ↦ or-eq_true_right (q x) (any q xs) (any_mono p q f xs later)
  ]

  -- The element that a search finds.
  pub any-witness :
      (p : A → Bool) (xs : List A)
      → any p xs ≡ true
      → (x : A) × (p x ≡ true) × ((q : A → Bool) → q x ≡ true → any q xs ≡ true)
  any-witness p (x ∷ xs) h = elim (or-eq_true (p x) (any p xs) h) [
    | inl here ↦ (x, here, λ q hq. or-eq_true_left (q x) (any q xs) hq)
    | inr later ↦
        let (y, py, up) = any-witness p xs later in
        (y, py, λ q hq. or-eq_true_right (q x) (any q xs) (up q hq))
  ]
  any-witness p [] h = cc

  pub all-filter : (p : A → Bool) (xs : List A) → all p (filter p xs) ≡ true
  all-filter p [] = refl
  all-filter p (x ∷ xs) = ground (arith, all-filter p xs)

  pub filter-eq_self : (p : A → Bool) (xs : List A) → all p xs ≡ true → filter p xs ≡ xs
  filter-eq_self p [] h = refl
  filter-eq_self p (x ∷ xs) h = ground (arith, filter-eq_self p xs)

  pub length-filter-le : (p : A → Bool) (xs : List A) → length (filter p xs) ≤ length xs
  length-filter-le p [] = omega arith
  length-filter-le p (x ∷ xs) = ground (arith, length-filter-le p xs)

  pub all-append :
      (p : A → Bool) (xs ys : List A) → all p xs ≡ true → all p ys ≡ true → all p (xs ++ ys) ≡ true
  all-append p [] ys h k = k
  all-append p (x ∷ xs) ys h k = ground (arith, all-append p xs ys)

  pub all_mono :
      (p q : A → Bool)
      → ((x : A) → p x ≡ true → q x ≡ true)
      → (xs : List A) → all p xs ≡ true
      → all q xs ≡ true
  all_mono p q f [] h = h
  all_mono p q f (x ∷ xs) h = ground (arith, f x, all_mono p q f xs)

  -- What `find` returns passes the test, and whatever all elements pass.
  pub find_sound :
      (p : A → Bool) (xs : List A) (x : A)
      → find p xs ≡ some x
      → (p x ≡ true) × ((g : A → Bool) → all g xs ≡ true → g x ≡ true)
  find_sound p [] x h = cc
  find_sound p (y ∷ xs) x h = elim (Bool-cases (p y)) [
    | inl e ↦ let same : y ≡ x = ground arith in (rw (← same) e, λ g a. rw (← same) (ground arith))
    | inr e ↦ let (px, up) = find_sound p xs x (ground arith) in (px, λ g a. up g (ground arith))
  ]

  pub find-some_of_any :
      (p : A → Bool) (xs : List A) → any p xs ≡ true → (x : A) × (find p xs ≡ some x)
  find-some_of_any p [] h = cc
  find-some_of_any p (y ∷ xs) h = elim (Bool-cases (p y)) [
    | inl e ↦ (y, rw e refl)
    | inr e ↦ let (x, f) = find-some_of_any p xs (ground arith) in (x, rw (e, f) refl)
  ]

module _ {ℓ} {A : Type ℓ} where
  pub take-length-append : (u v : List A) (n : ℕ) → n ≡ length u → take n (u ++ v) ≡ u
  take-length-append [] v n e = rw e refl
  take-length-append (x ∷ u) v zero e = absurd (omega arith)
  take-length-append (x ∷ u) v (suc n) e = ap (◌∷◌ x) (take-length-append u v n (omega arith))

  pub drop-length-append : (u v : List A) (n : ℕ) → n ≡ length u → drop n (u ++ v) ≡ v
  drop-length-append [] v n e = rw e refl
  drop-length-append (x ∷ u) v zero e = absurd (omega arith)
  drop-length-append (x ∷ u) v (suc n) e = drop-length-append u v n (omega arith)

pub All-append {ℓ κ} :
    {A : Type ℓ} (P : A → Type κ) (u v : List A) → All P (u ++ v) → All P u × All P v
All-append P [] v a = (_, a)
All-append P (x ∷ u) v (p, a) = let (b, c) = All-append P u v a in ((p, b), c)
