-- ===== src/Scan/Bounded/Truncates.antt =====
-- The bounded lists of server/stream.go sort what they are handed and cut it to their limit.
use mathlib.Core.List.{append-nil}
use duplicatefinder.Base.{
  drop_of_length-le, drop-length-append, drop, ◌+◌, ap, take_of_length-le, inl, take-length-append,
  sym, refl, inr, ◌⊎◌, ◌∙◌, ◌≤◌, ◌-◌, length, [], arith, all_mono, all-append, ◌∷◌, ◌++◌, true,
  take, not, all, ◌≡◌, List, ℕ, Bool,
}
use duplicatefinder.Results.View.{sort_stable}
use duplicatefinder.Results.View.Sorting.{
  sort_stable-count, sort_stable-IsSorted, sort_stable-all, IsSorted,
}
use duplicatefinder.Scan.Bounded.Keeping.{
  total, total-sort_stable, count-length, length_of_counts, count-append, SortOf, Ranks, Keeps,
}

module _ {A : Type 0} (lt : A → A → Bool) where
  IsSorted-append :
      (xs ys : List A)
      → IsSorted lt xs
      → IsSorted lt ys
      → all (λ d. all (λ e. not (lt d e)) xs) ys ≡ true
      → IsSorted lt (xs ++ ys)
  IsSorted-append [] ys s t b = t
  IsSorted-append (x ∷ xs) ys s t b = (
    all-append (λ y. not (lt y x)) xs ys s.0
        (all_mono (λ d. all (λ e. not (lt d e)) (x ∷ xs)) (λ y. not (lt y x))
          (λ d e. ground (arith, e)) ys b),
    IsSorted-append xs ys s.1 t (
        all_mono (λ d. all (λ e. not (lt d e)) (x ∷ xs)) (λ d. all (λ e. not (lt d e)) xs)
          (λ d e. ground (arith, e)) ys b),
  )

  below_sorted :
      (ents out : List A)
      → all (λ d. all (λ e. not (lt d e)) ents) out ≡ true
      → all (λ d. all (λ e. not (lt d e)) (sort_stable lt ents)) (sort_stable lt out) ≡ true
  below_sorted ents out b =
      sort_stable-all lt (λ d. all (λ e. not (lt d e)) (sort_stable lt ents)) out
      ∙ all_mono (λ d. all (λ e. not (lt d e)) ents)
          (λ d. all (λ e. not (lt d e)) (sort_stable lt ents))
          (λ d e. sort_stable-all lt (λ e. not (lt d e)) ents ∙ e) out b

  length-sort_stable : (xs : List A) → length (sort_stable lt xs) ≡ length xs
  length-sort_stable xs = length_of_counts (sort_stable lt xs) xs (λ p. sort_stable-count lt p xs)

  cut_front :
      (n : ℕ) (u v : List A) → length u ≤ n → (v ≡ []) ⊎ (length u ≡ n) → u ≡ take n (u ++ v)
  cut_front n u v le (inr e) = sym (take-length-append u v n (sym e))
  cut_front n u v le (inl e) = rw (e, append-nil u) (sym (take_of_length-le n u le))

  Keeps-length :
      (limit : ℕ) (xs ents out : List A)
      → Keeps lt limit xs ents out
      → length ents + length out ≡ length xs
  Keeps-length limit xs ents out k =
      omega (arith, k.counts (λ _. true), count-length ents, count-length out, count-length xs)

  -- A list that is not full has dropped nothing.
  pub Keeps-length_out :
      (limit : ℕ) (xs ents out : List A)
      → Keeps lt limit xs ents out
      → length out ≡ length xs - limit
  Keeps-length_out limit xs ents out k = elim k.full [
    | inl e ↦ omega (arith, Keeps-length limit xs ents out k, k.fits, ap length e)
    | inr e ↦ omega (arith, Keeps-length limit xs ents out k, e)
  ]

  full_sorted :
      (n : ℕ) (ents out : List A)
      → (out ≡ []) ⊎ (length ents ≡ n)
      → (sort_stable lt out ≡ []) ⊎ (length (sort_stable lt ents) ≡ n)
  unfolding sort_stable
  full_sorted n ents out (inl e) = inl (rw e refl)
  full_sorted n ents out (inr e) = inr (length-sort_stable ents ∙ e)

  cut_back : (n : ℕ) (u v : List A) → length u ≤ n → (v ≡ []) ⊎ (length u ≡ n) → v ≡ drop n (u ++ v)
  cut_back n u v le (inr e) = sym (drop-length-append u v n (sym e))
  cut_back n u v le (inl e) = rw (e, append-nil u) (sym (drop_of_length-le u n le))

  -- What is kept is the front of a sorted list of the whole stream; the rest is dropped.
  pub record Cut (limit : ℕ) (xs kept out : List A) : Type 0 where
    pub whole : List A
    pub sorts : SortOf lt xs whole
    pub splits : whole ≡ kept ++ out
    pub totals : (w : A → ℕ) → total w kept + total w out ≡ total w xs
    pub front : kept ≡ take limit whole
    pub back : out ≡ drop limit whole
    pub count_out : length out ≡ length xs - limit

  pub Keeps-Cut :
      (limit : ℕ) (xs ents out : List A)
      → Ranks lt
      → Keeps lt limit xs ents out
      → Cut limit xs (sort_stable lt ents) (sort_stable lt out)
  Keeps-Cut limit xs ents out r k = record {
    whole = sort_stable lt ents ++ sort_stable lt out;
    sorts = record {
      ordered =
          IsSorted-append (sort_stable lt ents) (sort_stable lt out)
            (sort_stable-IsSorted lt r.asymm r.trans ents)
            (sort_stable-IsSorted lt r.asymm r.trans out) (below_sorted ents out k.below);
      same = λ p.
          count-append p (sort_stable lt ents) (sort_stable lt out)
          ∙ omega (arith, sort_stable-count lt p ents, sort_stable-count lt p out, k.counts p);
    };
    splits = refl;
    totals =
        λ w. omega (arith, total-sort_stable lt w ents, total-sort_stable lt w out, k.totals w);
    front =
        cut_front limit (sort_stable lt ents) (sort_stable lt out)
          (omega (arith, length-sort_stable ents, k.fits)) (full_sorted limit ents out k.full);
    back =
        cut_back limit (sort_stable lt ents) (sort_stable lt out)
          (omega (arith, length-sort_stable ents, k.fits)) (full_sorted limit ents out k.full);
    count_out = length-sort_stable out ∙ Keeps-length_out limit xs ents out k;
  }
