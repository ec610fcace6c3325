-- ===== src/Results/Refine/Laws.antt =====
-- The sub-groups that `refineGroups` of server/results.go makes of one group.
use mathlib.Core.Path.{subst}
use mathlib.Core.List.{Memᴰ}
use duplicatefinder.Base.{
  sym, or-eq_false, itoa, ◌++◌, ap, ◌+◌, member, all-filter, and-intro, refl, inr, and-eq_true, inl,
  text_eq→eq, arith, ◌&&◌, length, leb, Bool-cases, ltb, ◌∷◌, true, text_eq, false, ◌≡◌, all, ℕ, [],
  List, Bool, Text,
}
use duplicatefinder.Model.{Group, FileEnt, MatchOpts}
use duplicatefinder.Results.Refine.{refine_group, first_keys, bucket, sub_groups, refine_key}

module _ (m : MatchOpts) where
  -- All rows have one key, and there are two of them at least.
  abbrev pub agrees : Group → Bool
  agrees g = elim g.files [
    | [] ↦ false
    | f ∷ fs ↦ leb 1 (length fs) && all (λ f'. text_eq (refine_key m f') (refine_key m f)) fs
  ]

  bucket-agrees :
      (g : Group) (k : Text) (fs : List FileEnt)
      → all (λ f. text_eq (refine_key m f) k) fs ≡ true
      → ltb (length fs) 2 ≡ false
      → agrees (record g { files = fs }) ≡ true
  bucket-agrees g k [] h n = ground arith
  bucket-agrees g k (f ∷ fs) h n =
      let same : refine_key m f ≡ k =
        text_eq→eq (refine_key m f) k (and-eq_true (text_eq (refine_key m f) k) _ h).0 in
      rw same (ground arith)

  bucket-all :
      (g : Group) (k : Text) → all (λ f. text_eq (refine_key m f) k) (bucket m g.files k) ≡ true
  unfolding bucket
  bucket-all g k = all-filter (λ f. text_eq (refine_key m f) k) g.files

  sub_groups-agree : (g : Group) (n : ℕ) (ks : List Text) → all agrees (sub_groups m g n ks) ≡ true
  unfolding sub_groups
  sub_groups-agree g n [] = refl
  sub_groups-agree g n (k ∷ ks) = elim (Bool-cases (ltb (length (bucket m g.files k)) 2)) [
    | inl small ↦ rw small (sub_groups-agree g n ks)
    | inr enough ↦ rw enough (
        and-intro (agrees (record g { files = bucket m g.files k }))
          (all agrees (sub_groups m g (n + 1) ks))
          (bucket-agrees g k (bucket m g.files k) (bucket-all g k) enough)
          (sub_groups-agree g (n + 1) ks))
  ]

  first_keys-complete :
      (seen : List Text) (fs : List FileEnt) (f : FileEnt)
      → Memᴰ f fs
      → member (refine_key m f) seen ≡ false
      → Memᴰ (refine_key m f) (first_keys m seen fs)
  unfolding first_keys
  first_keys-complete seen [] f i n = elim i [ ]
  first_keys-complete seen (x ∷ fs) f (Memᴰ.head e) n =
      let unseen : member (refine_key m x) seen ≡ false =
        subst (λ y. member (refine_key m y) seen ≡ false) e n in
      rw (unseen, first_keys) (Memᴰ.head (ap (refine_key m) e))
  first_keys-complete seen (x ∷ fs) f (Memᴰ.tail i) n =
      elim (Bool-cases (member (refine_key m x) seen)) [
        | inl old ↦ rw (old, first_keys) (first_keys-complete seen fs f i n)
        | inr new ↦ elim (Bool-cases (text_eq (refine_key m f) (refine_key m x))) [
          | inl same ↦
              rw (new, first_keys) (Memᴰ.head (text_eq→eq (refine_key m f) (refine_key m x) same))
          | inr other ↦
              rw (new, first_keys)
                (Memᴰ.tail (
                  first_keys-complete (refine_key m x ∷ seen) fs f i (
                    or-eq_false (text_eq (refine_key m f) (refine_key m x))
                      (member (refine_key m f) seen) other n)))
        ]
      ]

  sub_groups_complete :
      (g : Group) (n : ℕ) (ks : List Text) (k : Text)
      → Memᴰ k ks
      → ltb (length (bucket m g.files k)) 2 ≡ false
      → (g' : Group) × Memᴰ g' (sub_groups m g n ks) × (g'.files ≡ bucket m g.files k)
  unfolding sub_groups
  sub_groups_complete g n [] k i h = elim i [ ]
  sub_groups_complete g n (x ∷ ks) k (Memᴰ.head e) h =
      let enough : ltb (length (bucket m g.files x)) 2 ≡ false =
        subst (λ y. ltb (length (bucket m g.files y)) 2 ≡ false) e h in
      (
        record g { id = g.id ++ b'-' ∷ itoa n; files = bucket m g.files x },
        rw (enough, sub_groups) (Memᴰ.head refl),
        ap (bucket m g.files) (sym e),
      )
  sub_groups_complete g n (x ∷ ks) k (Memᴰ.tail i) h =
      elim (Bool-cases (ltb (length (bucket m g.files x)) 2)) [
        | inl small ↦
            let (g', j, e) = sub_groups_complete g n ks k i h in (g', rw (small, sub_groups) j, e)
        | inr enough ↦
            let (g', j, e) = sub_groups_complete g (n + 1) ks k i h in
            (g', rw (enough, sub_groups) (Memᴰ.tail j), e)
      ]

  -- Refinement keeps only sets of at least two rows that agree on every criterion asked for.
  pub refine_group-agrees : (g : Group) → all agrees (refine_group m g) ≡ true
  unfolding refine_group
  refine_group-agrees g = sub_groups-agree g 0 (first_keys m [] g.files)

  -- And it keeps all of them: a row whose key at least one other row of its group has is in a refined
  -- group, with every row of its group that has that key, in the old order.
  pub refine_group-bucket :
      (g : Group) (f : FileEnt)
      → Memᴰ f g.files
      → ltb (length (bucket m g.files (refine_key m f))) 2 ≡ false
      → (g' : Group) × Memᴰ g' (refine_group m g) × (g'.files ≡ bucket m g.files (refine_key m f))
  unfolding refine_group
  refine_group-bucket g f i h =
      sub_groups_complete g 0 (first_keys m [] g.files) (refine_key m f)
        (first_keys-complete [] g.files f i refl) h
