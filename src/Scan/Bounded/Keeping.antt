-- ===== src/Scan/Bounded/Keeping.antt =====
-- What the bounded lists of server/stream.go keep, step by step, for any ranking.
use duplicatefinder.Base.{
  and-intro, ◌∙◌, inl, sym, refl, all_mono, ◌⊎◌, ◌≤◌, not, [], inr, ◌<◌, ◌+◌, all, ◌∷◌, suc, false,
  arith, true, ◌≡◌, length, ◌++◌, ℕ, List, Bool,
}
use duplicatefinder.Results.View.{sort_stable, insert_stable}
use duplicatefinder.Results.View.Sorting.{
  insert_stable-all, insert_stable-count, insert_stable-IsSorted, count, IsSorted,
}
use duplicatefinder.Scan.Bounded.{heap_push, heap_less}

module _ {A : Type 0} where
  -- What `w` adds up to over a list.
  abbrev pub total : (A → ℕ) → List A → ℕ
  total w [] = 0
  total w (x ∷ xs) = w x + total w xs

-- A strict ranking in which incomparable entries rank alike.
pub record Ranks {A : Type 0} (lt : A → A → Bool) : Type 0 where
  pub asymm : (a b : A) → lt a b ≡ true → lt b a ≡ false
  pub trans : (a b c : A) → lt b a ≡ false → lt c b ≡ false → lt c a ≡ false

-- A list that `sort.Slice` may return for another one.
pub record SortOf {A : Type 0} (lt : A → A → Bool) (xs l : List A) : Type 0 where
  pub ordered : IsSorted lt l
  pub same : (p : A → Bool) → count p l ≡ count p xs

-- The entries kept and dropped of a stream: those kept are in a heap, and none that was dropped
-- ranks before one of them.
pub record Keeps {A : Type 0} (lt : A → A → Bool) (limit : ℕ) (xs ents out : List A) : Type 0 where
  pub counts : (p : A → Bool) → count p ents + count p out ≡ count p xs
  pub totals : (w : A → ℕ) → total w ents + total w out ≡ total w xs
  pub fits : length ents ≤ limit
  pub full : (out ≡ []) ⊎ (length ents ≡ limit)
  pub worst_first : IsSorted (heap_less lt) ents
  pub below : all (λ d. all (λ e. not (lt d e)) ents) out ≡ true

module _ {A : Type 0} where
  pub count-append : (p : A → Bool) (xs ys : List A) → count p (xs ++ ys) ≡ count p xs + count p ys
  count-append p [] ys = omega arith
  count-append p (x ∷ xs) ys = omega (arith, count-append p xs ys)

  pub count-length : (xs : List A) → count (λ _. true) xs ≡ length xs
  count-length [] = refl
  count-length (x ∷ xs) = omega (arith, count-length xs)

  pub length_of_counts :
      (xs ys : List A) → ((p : A → Bool) → count p xs ≡ count p ys) → length xs ≡ length ys
  length_of_counts xs ys e = omega (arith, e (λ _. true), count-length xs, count-length ys)

  pub total-insert_stable :
      (lt : A → A → Bool) (w : A → ℕ) (x : A) (xs : List A)
      → total w (insert_stable lt x xs) ≡ w x + total w xs
  unfolding insert_stable
  total-insert_stable lt w x [] = refl
  total-insert_stable lt w x (y ∷ ys) = ground (arith, total-insert_stable lt w x ys)

  pub total-sort_stable :
      (lt : A → A → Bool) (w : A → ℕ) (xs : List A) → total w (sort_stable lt xs) ≡ total w xs
  unfolding sort_stable
  total-sort_stable lt w [] = refl
  total-sort_stable lt w (x ∷ xs) =
      omega (arith, total-insert_stable lt w x (sort_stable lt xs), total-sort_stable lt w xs)

  pub total-append : (w : A → ℕ) (xs ys : List A) → total w (xs ++ ys) ≡ total w xs + total w ys
  total-append w [] ys = omega arith
  total-append w (x ∷ xs) ys = omega (arith, total-append w xs ys)

  length-insert_stable :
      (lt : A → A → Bool) (x : A) (xs : List A) → length (insert_stable lt x xs) ≡ suc (length xs)
  length-insert_stable lt x xs =
      length_of_counts (insert_stable lt x xs) (x ∷ xs) (λ p. insert_stable-count lt p x xs)

  module _ (lt : A → A → Bool) (r : Ranks lt) (limit : ℕ) where
    flipped_trans : (a b c : A) → lt a b ≡ false → lt b c ≡ false → lt a c ≡ false
    flipped_trans a b c h k = r.trans c b a k h

    push-IsSorted :
        (x : A) (h : List A)
        → IsSorted (heap_less lt) h
        → IsSorted (heap_less lt) (heap_push (heap_less lt) x h)
    unfolding heap_push
    push-IsSorted x h s =
        insert_stable-IsSorted (heap_less lt) (λ a b. r.asymm b a) flipped_trans x h s

    pub Keeps-push :
        (xs ents : List A) (f : A)
        → length ents < limit
        → Keeps lt limit xs ents []
        → Keeps lt limit (f ∷ xs) (heap_push (heap_less lt) f ents) []
    unfolding heap_push
    Keeps-push xs ents f short k = record {
      counts = λ p. omega (arith, k.counts p, insert_stable-count (heap_less lt) p f ents);
      totals = λ w. omega (arith, k.totals w, total-insert_stable (heap_less lt) w f ents);
      fits = omega (arith, short, length-insert_stable (heap_less lt) f ents);
      full = inl refl;
      worst_first = push-IsSorted f ents k.worst_first;
      below = refl;
    }

    -- Nothing that `d` does not rank before is outranked by what ranks below `d`.
    all_below :
        (d e : A) (h : List A)
        → lt d e ≡ false
        → all (λ y. not (lt e y)) h ≡ true
        → all (λ y. not (lt d y)) h ≡ true
    all_below d e h de he =
        all_mono (λ y. not (lt e y)) (λ y. not (lt d y))
          (λ y ey. ground (arith, ey, flipped_trans d e y de)) h he

    pub Keeps-drop :
        (xs out : List A) (root : A) (h : List A) (f : A)
        → lt f root ≡ false
        → limit ≡ length (root ∷ h)
        → Keeps lt limit xs (root ∷ h) out
        → Keeps lt limit (f ∷ xs) (root ∷ h) (f ∷ out)
    Keeps-drop xs out root h f worse len k = record {
      counts = λ p. omega (arith, k.counts p);
      totals = λ w. omega (arith, k.totals w);
      fits = k.fits;
      full = inr (sym len);
      worst_first = k.worst_first;
      below = ground (arith, worse, k.below, all_below f root h worse k.worst_first.0);
    }

    below_replaced :
        (root f : A) (h out : List A)
        → lt f root ≡ true
        → all (λ d. all (λ e. not (lt d e)) (root ∷ h)) out ≡ true
        → all (λ d. all (λ e. not (lt d e)) (heap_push (heap_less lt) f h)) out ≡ true
    unfolding heap_push
    below_replaced root f h out better b =
        all_mono (λ d. all (λ e. not (lt d e)) (root ∷ h))
          (λ d. all (λ e. not (lt d e)) (heap_push (heap_less lt) f h))
          (λ d e.
            insert_stable-all (heap_less lt) (λ e. not (lt d e)) f h
            ∙ ground (arith, e, flipped_trans d root f, r.asymm f root better))
          out b

    pub Keeps-replace :
        (xs out : List A) (root : A) (h : List A) (f : A)
        → lt f root ≡ true
        → limit ≡ length (root ∷ h)
        → Keeps lt limit xs (root ∷ h) out
        → Keeps lt limit (f ∷ xs) (heap_push (heap_less lt) f h) (root ∷ out)
    unfolding heap_push
    Keeps-replace xs out root h f better len k = record {
      counts = λ p. omega (arith, k.counts p, insert_stable-count (heap_less lt) p f h);
      totals = λ w. omega (arith, k.totals w, total-insert_stable (heap_less lt) w f h);
      fits = omega (arith, len, length-insert_stable (heap_less lt) f h);
      full = inr (omega (arith, len, length-insert_stable (heap_less lt) f h));
      worst_first = push-IsSorted f h k.worst_first.1;
      below =
          and-intro _ _
            (insert_stable-all (heap_less lt) (λ e. not (lt root e)) f h
              ∙ ground (arith, r.asymm f root better, k.worst_first.0))
            (below_replaced root f h out better k.below);
    }

-- The same, of a stream with the same entries.
pub Keeps-same :
    {A : Type 0} (lt : A → A → Bool) (limit : ℕ) (xs ys ents out : List A)
    → ((p : A → Bool) → count p xs ≡ count p ys)
    → ((w : A → ℕ) → total w xs ≡ total w ys)
    → Keeps lt limit xs ents out
    → Keeps lt limit ys ents out
Keeps-same lt limit xs ys ents out e t k = record {
  counts = λ p. k.counts p ∙ e p;
  totals = λ w. k.totals w ∙ t w;
  fits = k.fits;
  full = k.full;
  worst_first = k.worst_first;
  below = k.below;
}
