-- ===== src/Scan/Windows/Counting.antt =====
-- The counting pass of `window` in server/stream.go: the keys that have too many records.
use mathlib.Core.Path.{subst}
use duplicatefinder.Base.{
  ltb, ◌&&◌, filter, ==_iff, ap, map, true, sym, inl, ◌∙◌, inr, Bool-cases, if◌then◌else◌, refl,
  ◌||◌, ◌==◌, ◌+◌, any, false, List, arith, Bool, ◌≡◌, ◌∷◌, ℕ, [],
}
use duplicatefinder.KeyCounter.{Counts, count_of, put_count}
use duplicatefinder.KeyCounter.Complete.{count_of-put_count}
use duplicatefinder.Results.View.Sorting.{sort_stable-any, count}
use duplicatefinder.Scan.Windows.{count_keys, over_keys, in_part, holds_key, SpillRec}

-- How many records have a key.
abbrev pub records_with : (SpillRec → ℕ) → ℕ → List SpillRec → ℕ
records_with key k rs = count (λ r. key r == k) rs

-- One record more, by whether it has the key that is asked for.
count_step :
    (p : ℕ → Bool) (k j c n : ℕ)
    → p j ≡ false
    → c + (if p k then n else 0) ≡ c + (if p k then (if j == k then 1 else 0) + n else 0)
count_step p k j c n out = elim (Bool-cases (j == k)) [
  | inr other ↦ ground (arith, other)
  | inl same ↦ let e : p k ≡ false = subst (λ x. p x ≡ false) ((==_iff j k).0 same) out in rw e refl
]

count_step_here :
    (p : ℕ → Bool) (k j c n : ℕ)
    → p j ≡ true
    → (if j == k then c + 1 else c) + (if p k then n else 0)
      ≡ c + (if p k then (if j == k then 1 else 0) + n else 0)
count_step_here p k j c n here = elim (Bool-cases (j == k)) [
  | inr other ↦ ground (arith, other)
  | inl same ↦
      let e : p k ≡ true = subst (λ x. p x ≡ true) ((==_iff j k).0 same) here in
      rw (e, same) (omega arith)
]

count_of-bumped :
    (k j : ℕ) (counts : Counts)
    → count_of k (put_count j (count_of j counts + 1) counts)
      ≡ (if j == k then count_of k counts + 1 else count_of k counts)
count_of-bumped k j counts =
    count_of-put_count j k (count_of j counts + 1) counts ∙ elim (Bool-cases (j == k)) [
      | inr other ↦ rw other refl
      | inl same ↦ rw same (ap (λ x. count_of x counts + 1) ((==_iff j k).0 same))
    ]

pub count_of-count_keys :
    (key : SpillRec → ℕ) (part parts k : ℕ) (counts : Counts) (rs : List SpillRec)
    → count_of k (count_keys key part parts counts rs)
      ≡ count_of k counts + (if in_part part parts k then records_with key k rs else 0)
unfolding count_keys
count_of-count_keys key part parts k counts [] = ground arith
count_of-count_keys key part parts k counts (r ∷ rs) =
    elim (Bool-cases (in_part part parts (key r))) [
      | inr out ↦ rw out (
          count_of-count_keys key part parts k counts rs
          ∙ count_step (in_part part parts) k (key r) (count_of k counts) (records_with key k rs)
              out)
      | inl here ↦ rw here (
          count_of-count_keys key part parts k
            (put_count (key r) (count_of (key r) counts + 1) counts) rs
          ∙ rw (count_of-bumped k (key r) counts) (
              count_step_here (in_part part parts) k (key r) (count_of k counts)
                (records_with key k rs) here))
    ]

has_key : ℕ → Counts → Bool
has_key k = any (λ kn. kn.0 == k)

-- No key stands twice.
AreDistinct : Counts → Type 0
AreDistinct [] = Unit
AreDistinct ((k, c) ∷ counts) = (has_key k counts ≡ false) × AreDistinct counts

has_key-put_count :
    (j k c : ℕ) (counts : Counts) → has_key j (put_count k c counts) ≡ (k == j || has_key j counts)
unfolding has_key put_count
has_key-put_count j k c [] = refl
has_key-put_count j k c ((i, d) ∷ counts) = ground (arith, has_key-put_count j k c counts)

put_count-AreDistinct :
    (k c : ℕ) (counts : Counts) → AreDistinct counts → AreDistinct (put_count k c counts)
unfolding put_count AreDistinct has_key
put_count-AreDistinct k c [] d = (refl, tt)
put_count-AreDistinct k c ((i, e) ∷ counts) (fresh, d) =
    ground (arith, fresh, d, put_count-AreDistinct k c counts d, has_key-put_count i k c counts)

count_keys-AreDistinct :
    (key : SpillRec → ℕ) (part parts : ℕ) (counts : Counts) (rs : List SpillRec)
    → AreDistinct counts
    → AreDistinct (count_keys key part parts counts rs)
unfolding count_keys
count_keys-AreDistinct key part parts counts [] d = d
count_keys-AreDistinct key part parts counts (r ∷ rs) d =
    elim (Bool-cases (in_part part parts (key r))) [
      | inr out ↦ rw out (count_keys-AreDistinct key part parts counts rs d)
      | inl here ↦ rw here (
          count_keys-AreDistinct key part parts
            (put_count (key r) (count_of (key r) counts + 1) counts) rs
            (put_count-AreDistinct (key r) (count_of (key r) counts + 1) counts d))
    ]

-- The keys of the entries that pass a test.
keys_where : (ℕ → Bool) → Counts → List ℕ
keys_where p counts = map (λ kn. kn.0) (filter (λ kn. p kn.1) counts)

count_of_absent : (k : ℕ) (counts : Counts) → has_key k counts ≡ false → count_of k counts ≡ 0
unfolding count_of has_key
count_of_absent k [] h = refl
count_of_absent k ((j, c) ∷ counts) h = ground (arith, h, count_of_absent k counts)

holds-keys_where :
    (p : ℕ → Bool) (k : ℕ) (counts : Counts)
    → p 0 ≡ false
    → AreDistinct counts
    → holds_key k (keys_where p counts) ≡ p (count_of k counts)
unfolding keys_where count_of AreDistinct has_key
holds-keys_where p k [] z d = sym z
holds-keys_where p k ((j, c) ∷ counts) z (fresh, d) =
    let ih = holds-keys_where p k counts z d in
    elim (Bool-cases (j == k)) [
      | inr other ↦ ground (arith, ih, other)
      | inl same ↦
          let absent : has_key k counts ≡ false =
            subst (λ x. has_key x counts ≡ false) ((==_iff j k).0 same) fresh in
          let none_left : holds_key k (keys_where p counts) ≡ false =
            ih ∙ ap p (count_of_absent k counts absent) ∙ z in
          ground (arith, same, none_left)
    ]

-- The keys that the counting pass names are those of the partition with more records than the cap.
pub holds-over_keys :
    (key : SpillRec → ℕ) (part parts cap k : ℕ) (rs : List SpillRec)
    → holds_key k (over_keys cap (count_keys key part parts [] rs))
      ≡ (in_part part parts k && (ltb 0 cap && ltb cap (records_with key k rs)))
unfolding over_keys keys_where AreDistinct count_of
holds-over_keys key part parts cap k rs =
    let counts = count_keys key part parts [] rs in
    let many = λ (n : ℕ). ltb 0 cap && ltb cap n in
    let none_of_none : many 0 ≡ false = ground arith in
    sort_stable-any ltb (λ o. o == k) (keys_where many counts)
    ∙ holds-keys_where many k counts none_of_none (count_keys-AreDistinct key part parts [] rs tt)
    ∙ ap many (count_of-count_keys key part parts k [] rs)
    ∙ elim (Bool-cases (in_part part parts k)) [
      | inl here ↦ rw here (ground arith)
      | inr out ↦ rw out (ground arith)
    ]
