-- ===== src/Scan/Windows/Candidates.antt =====
-- The counter and `distil` of server/stream.go together, on the records of a log.
use mathlib.Core.Path.{subst}
use duplicatefinder.KeyCounter.{Limits}
use mathlib.Core.List.{reverse-cons}
use duplicatefinder.Base.{
  ==_iff, sym, ◌∙◌, suc, ◌==◌, refl, arith, ap, ◌++◌, reverse, ◌≤◌, false, true, All, [], inl, inr,
  Bool-cases, ◌∷◌, length, ◌+◌, filter, ◌≡◌, map, ℕ, List,
}
use duplicatefinder.Model.{MatchOpts}
use duplicatefinder.KeyCounter.Complete.{after, occurrences, hot-after}
use duplicatefinder.Scan.Spill.{
  each, max_int, new_spill, add_raw, Result, Spill, ok, err, ◌>>=◌, SpillRec, add_all,
}
use duplicatefinder.Scan.Spill.Records.{IsRecord, each-add_all}
use duplicatefinder.Scan.Windows.{hot, Counter, distil, distil_from, rec_key}
use duplicatefinder.Scan.Windows.Counting.{records_with}

-- The records that `distil` writes.
abbrev pub untagged : SpillRec → SpillRec
untagged r = record r { tag = 0 }

abbrev pub candidates : Counter → MatchOpts → List SpillRec → List SpillRec
candidates c m rs = map untagged (filter (λ r. hot c (rec_key m r)) rs)

candidates-hot :
    (c : Counter) (m : MatchOpts) (r : SpillRec) (rs : List SpillRec)
    → hot c (rec_key m r) ≡ true
    → candidates c m (r ∷ rs) ≡ untagged r ∷ candidates c m rs
candidates-hot c m r rs h = rw h refl

candidates_cold :
    (c : Counter) (m : MatchOpts) (r : SpillRec) (rs : List SpillRec)
    → hot c (rec_key m r) ≡ false
    → candidates c m (r ∷ rs) ≡ candidates c m rs
candidates_cold c m r rs h = rw h refl

>>=_assoc :
    {A B C : Type 0} (x : Result A) (f : A → Result B) (g : A → Result C) (k : B → Result C)
    → ((a : A) → g a ≡ (f a >>= k))
    → (x >>= g) ≡ ((x >>= f) >>= k)
>>=_assoc (ok a) f g k e = e a
>>=_assoc (err x) f g k e = refl

distil_from-candidates :
    (c : Counter) (m : MatchOpts) (n : ℕ) (out : Spill) (rs : List SpillRec)
    → distil_from c m n out rs
      ≡ (add_all out (candidates c m rs) >>= λ u. ok (n + length (candidates c m rs), u))
unfolding distil_from add_all
distil_from-candidates c m n out [] = ap (λ k. ok (k, out)) (omega arith)
distil_from-candidates c m n out (r ∷ rs) = elim (Bool-cases (hot c (rec_key m r))) [
  | inr cold ↦ rw (candidates_cold c m r rs cold) (rw cold (distil_from-candidates c m n out rs))
  | inl hot_key ↦ rw (candidates-hot c m r rs hot_key) (
      rw hot_key (
        >>=_assoc (add_raw out (untagged r)) _ _ _ (λ u.
          distil_from-candidates c m (suc n) u rs
          ∙ ap (λ k. add_all u (candidates c m rs) >>= λ v. ok (k, v)) (omega arith))))
]

untagged-IsRecord : (r : SpillRec) → IsRecord r → IsRecord (untagged r)
untagged-IsRecord r p = record {
  safe = record {
    root_bound = p.safe.root_bound;
    link_bound = p.safe.link_bound;
    holes_bound = p.safe.holes_bound;
    rel_bound = p.safe.rel_bound;
  };
  size_width = p.size_width;
  mod_width = p.mod_width;
  tag_width = omega arith;
  dev_width = p.dev_width;
  ino_width = p.ino_width;
}

candidates-IsRecord :
    (c : Counter) (m : MatchOpts) (rs : List SpillRec)
    → All IsRecord rs
    → All IsRecord (candidates c m rs)
candidates-IsRecord c m [] a = tt
candidates-IsRecord c m (r ∷ rs) (p, a) = elim (Bool-cases (hot c (rec_key m r))) [
  | inr cold ↦ rw (candidates_cold c m r rs cold) (candidates-IsRecord c m rs a)
  | inl hot_key ↦
      rw (candidates-hot c m r rs hot_key) (untagged-IsRecord r p, candidates-IsRecord c m rs a)
]

length-candidates-le :
    (c : Counter) (m : MatchOpts) (rs : List SpillRec) → length (candidates c m rs) ≤ length rs
length-candidates-le c m [] = omega arith
length-candidates-le c m (r ∷ rs) = elim (Bool-cases (hot c (rec_key m r))) [
  | inr cold ↦ rw (candidates_cold c m r rs cold) (omega (arith, length-candidates-le c m rs))
  | inl hot_key ↦ rw (candidates-hot c m r rs hot_key) (omega (arith, length-candidates-le c m rs))
]

-- The records of one key, in their order. The key does not depend on the tag.
abbrev pub of_key : MatchOpts → ℕ → List SpillRec → List SpillRec
of_key m k = filter (λ r. rec_key m r == k)

of_key-candidates :
    (c : Counter) (m : MatchOpts) (k : ℕ) (rs : List SpillRec)
    → hot c k ≡ true
    → of_key m k (candidates c m rs) ≡ map untagged (of_key m k rs)
unfolding rec_key
of_key-candidates c m k [] h = refl
of_key-candidates c m k (r ∷ rs) h = elim (Bool-cases (rec_key m r == k)) [
  | inl same ↦
      let hot_key : hot c (rec_key m r) ≡ true =
        subst (λ x. hot c x ≡ true) (sym ((==_iff (rec_key m r) k).0 same)) h in
      rw (candidates-hot c m r rs hot_key)
        (rw same (ap (◌∷◌ (untagged r)) (of_key-candidates c m k rs h)))
  | inr other ↦ elim (Bool-cases (hot c (rec_key m r))) [
    | inl hot_key ↦ rw (candidates-hot c m r rs hot_key) (rw other (of_key-candidates c m k rs h))
    | inr cold ↦ rw (candidates_cold c m r rs cold) (rw other (of_key-candidates c m k rs h))
  ]
]

occurrences-append :
    (k : ℕ) (xs ys : List ℕ) → occurrences k (xs ++ ys) ≡ occurrences k xs + occurrences k ys
occurrences-append k [] ys = omega arith
occurrences-append k (x ∷ xs) ys = omega (arith, occurrences-append k xs ys)

occurrences-reverse :
    (m : MatchOpts) (k : ℕ) (rs : List SpillRec)
    → occurrences k (reverse (map (rec_key m) rs)) ≡ records_with (rec_key m) k rs
occurrences-reverse m k [] = refl
occurrences-reverse m k (r ∷ rs) = rw (reverse-cons (rec_key m r) (map (rec_key m) rs)) (
    omega (
      arith,
      occurrences-append k (reverse (map (rec_key m) rs)) (rec_key m r ∷ []),
      occurrences-reverse m k rs,
    ))

-- Of the records that a pass wrote, `distil` keeps all those of a key that two of them share, where
-- the counter was given their keys.
pub distil_complete :
    (l : Limits) (share : ℕ) (m : MatchOpts) (rs : List SpillRec)
    → All IsRecord rs
    → length rs ≤ max_int
    → let c = after l share (reverse (map (rec_key m) rs)) in
      (cs : List SpillRec) × (((add_all new_spill rs >>= λ s. distil c m s new_spill) >>= λ p.
      each p.1)
        ≡ ok cs)
      × ((k : ℕ) → 2 ≤ records_with (rec_key m) k rs → of_key m k cs ≡ map untagged (of_key m k rs))
unfolding distil
distil_complete l share m rs w short =
    let c = after l share (reverse (map (rec_key m) rs)) in
    let cs = candidates c m rs in
    let distilled : (add_all new_spill rs >>= λ s. distil c m s new_spill)
        ≡ (add_all new_spill cs >>= λ u. ok (0 + length cs, u)) =
      >>=_assoc (add_all new_spill rs) each (λ s. distil c m s new_spill)
        (distil_from c m 0 new_spill) (λ s. refl)
      ∙ ap (λ x. x >>= distil_from c m 0 new_spill) (each-add_all rs w short)
      ∙ distil_from-candidates c m 0 new_spill rs in
    let read : ((add_all new_spill rs >>= λ s. distil c m s new_spill) >>= λ p. each p.1) ≡ ok cs =
      ap (λ x. x >>= λ (p : ℕ × Spill). each p.1) distilled
      ∙ sym (
          >>=_assoc (add_all new_spill cs) (λ u. ok (0 + length cs, u)) each (λ p. each p.1)
            (λ u. refl))
      ∙ each-add_all cs (candidates-IsRecord c m rs w)
          (omega (arith, short, length-candidates-le c m rs)) in
    (
      cs,
      read,
      λ k two. of_key-candidates c m k rs (
          hot-after l share (reverse (map (rec_key m) rs)) k
            (omega (arith, two, occurrences-reverse m k rs))),
    )
