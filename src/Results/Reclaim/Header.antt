-- ===== src/Results/Reclaim/Header.antt =====
-- The reclaimable figure of a group header, drawn from a served page, against the one of the
-- toolbar, taken from the stored groups.
use mathlib.Core.List.{map-id}
use duplicatefinder.Base.{
  length, sym, add64, inr, inl, Bool-cases, true, ◌∙◌, ap, refl, [], ◌∷◌, map, false, some, ◌≡◌, ℕ,
  All, Bool, List, Option, Text,
}
use duplicatefinder.Model.{Group, FileEnt}
use duplicatefinder.Results.Protection.{
  mark_group_prot, protects, mark_group, mark_row, is_empty, RefMatcher,
}
use duplicatefinder.Results.Reclaim.{
  dup_totals_step, no_totals, mark_group_reclaim, PageTotals, dup_totals, dup_totals_from, no_sums,
  row_test, group_reclaim, reclaim_group, reclaim_step, reclaim_sums, protected, kept_inodes, Sums,
}

-- Stored rows carry no padlock: it is decided for each page.
abbrev pub IsUnmarked : List FileEnt → Type 0
IsUnmarked = All (λ f. f.prot ≡ false)

abbrev pub flagged : Option (FileEnt → Bool)
flagged = some (λ f. f.prot)

-- `h` changes nothing but the padlock, and `test` decides before it what `flagged` reads behind it.
module _ (h : FileEnt → FileEnt) (test : Option (FileEnt → Bool)) where
  abbrev Agrees : FileEnt → Type 0
  Agrees f =
      ((h f).ino ≡ f.ino) × ((h f).alloc ≡ f.alloc) × (protected flagged (h f) ≡ protected test f)

  kept_inodes-map :
      (fs : List FileEnt) → All Agrees fs → kept_inodes flagged (map h fs) ≡ kept_inodes test fs
  unfolding kept_inodes
  kept_inodes-map [] a = refl
  kept_inodes-map (f ∷ fs) a = rw (kept_inodes-map fs a.1, a.0.0, a.0.2) refl

  module _ (size : ℕ) (kept : List Text) where
    step-map :
        (s : Sums) (f : FileEnt)
        → Agrees f
        → reclaim_step size flagged kept s (h f) ≡ reclaim_step size test kept s f
    unfolding reclaim_step
    step-map s f a = rw (a.0, a.1, a.2) refl

    sums-map :
        (s : Sums) (fs : List FileEnt)
        → All Agrees fs
        → reclaim_sums size flagged kept s (map h fs) ≡ reclaim_sums size test kept s fs
    unfolding reclaim_sums
    sums-map s [] a = refl
    sums-map s (f ∷ fs) a =
        ap (λ t. reclaim_sums size flagged kept t (map h fs)) (step-map s f a.0)
        ∙ sums-map (reclaim_step size test kept s f) fs a.1

mark_row-Agrees :
    (m : RefMatcher) (f : FileEnt)
    → f.prot ≡ false
    → is_empty m ≡ false
    → Agrees (mark_row m) (row_test m) f
unfolding mark_row
mark_row-Agrees m f h e = rw e (elim (Bool-cases (protects m f.dir f.name)) [
  | inl p ↦ rw p (refl, refl, refl)
  | inr p ↦ rw p (refl, refl, h)
])

same_row-Agrees :
    (m : RefMatcher) (f : FileEnt)
    → f.prot ≡ false
    → is_empty m ≡ true
    → Agrees (λ x. x) (row_test m) f
same_row-Agrees m f h e = rw e (refl, refl, h)

All-mono :
    (P Q : FileEnt → Type 0)
    → ((f : FileEnt) → P f → Q f)
    → (fs : List FileEnt) → All P fs
    → All Q fs
All-mono P Q g [] a = tt
All-mono P Q g (f ∷ fs) a = (g f a.0, All-mono P Q g fs a.1)

group_reclaim-map :
    (h : FileEnt → FileEnt) (test : Option (FileEnt → Bool)) (size : ℕ) (fs : List FileEnt)
    → All (Agrees h test) fs
    → group_reclaim size (map h fs) flagged ≡ group_reclaim size fs test
unfolding group_reclaim
group_reclaim-map h test size fs a =
    rw (kept_inodes-map h test fs a, sums-map h test size (kept_inodes test fs) no_sums fs a) refl

reclaim_marked :
    (m : RefMatcher) (g : Group)
    → IsUnmarked g.files
    → is_empty m ≡ false
    → (reclaim_group (mark_group m g)).reclaim ≡ group_reclaim g.size g.files (row_test m)
unfolding reclaim_group mark_group
reclaim_marked m g u e =
    group_reclaim-map (mark_row m) (row_test m) g.size g.files
      (All-mono _ _ (λ f h. mark_row-Agrees m f h e) g.files u)

reclaim_unmarked :
    (m : RefMatcher) (g : Group)
    → IsUnmarked g.files
    → is_empty m ≡ true
    → (reclaim_group g).reclaim ≡ group_reclaim g.size g.files (row_test m)
unfolding reclaim_group
reclaim_unmarked m g u e =
    ap (λ fs. group_reclaim g.size fs flagged) (sym (map-id g.files))
    ∙ group_reclaim-map (λ f. f) (row_test m) g.size g.files
        (All-mono _ _ (λ f h. same_row-Agrees m f h e) g.files u)

-- The figures that the headers of a page show, added up.
abbrev pub sum_reclaims : ℕ → List Group → ℕ
sum_reclaims n [] = n
sum_reclaims n (g ∷ gs) = sum_reclaims (add64 n g.reclaim) gs

module _ (m : RefMatcher) (mark : Group → Group)
    (same : (g : Group)
      → IsUnmarked g.files
      → (reclaim_group (mark g)).reclaim ≡ group_reclaim g.size g.files (row_test m)) where
  totals-headers :
      (t : PageTotals) (gs : List Group)
      → All (λ g. IsUnmarked g.files) gs
      → sum_reclaims t.reclaimable (map reclaim_group (map mark gs))
        ≡ (dup_totals_from m t gs).reclaimable
  unfolding dup_totals_from
  totals-headers t [] u = refl
  totals-headers t (g ∷ gs) u = rw (same g u.0) (totals-headers (dup_totals_step m t g) gs u.1)

-- The toolbar's reclaimable figure is the sum of the figures that the group headers show, with or
-- without reference folders, for groups whose stored rows carry no padlock.
pub dup_totals-eq-headers :
    (gs : List Group) (m : RefMatcher)
    → All (λ g. IsUnmarked g.files) gs
    → (dup_totals gs m).reclaimable ≡ sum_reclaims 0 (mark_group_reclaim (mark_group_prot m gs))
unfolding dup_totals mark_group_reclaim mark_group_prot
dup_totals-eq-headers gs m u = elim (Bool-cases (is_empty m)) [
  | inl e ↦ rw e (
      sym (totals-headers m (λ g. g) (λ g k. reclaim_unmarked m g k e) (no_totals (length gs)) gs u)
      ∙ ap (λ l. sum_reclaims 0 (map reclaim_group l)) (map-id gs))
  | inr e ↦ rw e (
      sym (
        totals-headers m (mark_group m) (λ g k. reclaim_marked m g k e) (no_totals (length gs)) gs
          u))
]
