-- ===== src/Results/Reclaim.antt =====
-- `rowPhys`, `groupReclaim`, `markGroupReclaim` and the totals of server/results.go.
pub mod Header
use duplicatefinder.Base.{
  true, member, codes, is_nil, ◌&&◌, text_eq, not, mul64, sub64, lt64, none, add64, ◌+◌,
  if◌then◌else◌, length, false, some, ◌∷◌, Bool, map, Option, List, [], ℕ, Text,
}
use duplicatefinder.Model.{Group, FileEnt}
use duplicatefinder.Results.Protection.{protects, is_empty, RefMatcher}

unfoldable pub row_phys : FileEnt → ℕ → ℕ
row_phys f size = elim f.alloc [ some a ↦ a | none ↦ size ]

abbrev pub protected : Option (FileEnt → Bool) → FileEnt → Bool
protected none f = false
protected (some test) f = test f

-- The inodes that a protected name keeps.
unfoldable pub kept_inodes : Option (FileEnt → Bool) → List FileEnt → List Text
kept_inodes test [] = []
kept_inodes test (f ∷ fs) =
    let rest = kept_inodes test fs in
    if protected test f && not (is_nil f.ino) then f.ino ∷ rest else rest

pub record Sums : Type 0 where
  pub seen : List Text
  pub sum : ℕ
  pub largest : ℕ
  pub any_kept : Bool

module _ (size : ℕ) (test : Option (FileEnt → Bool)) (kept : List Text) where
  -- A copy that is not kept.
  pub count_copy : Sums → FileEnt → Sums
  unfolding row_phys
  count_copy s f =
      let p = row_phys f size in
      record s { sum = add64 s.sum p; largest = if lt64 s.largest p then p else s.largest }

  pub reclaim_step : Sums → FileEnt → Sums
  unfolding count_copy
  reclaim_step s f =
      if not (is_nil f.ino)
      then (if member f.ino s.seen
          then s
          else (let s' = record s { seen = f.ino ∷ s.seen } in
              if member f.ino kept then record s' { any_kept = true } else count_copy s' f))
      else if protected test f
      then record s { any_kept = true }
      else count_copy s f

  pub reclaim_sums : Sums → List FileEnt → Sums
  unfolding reclaim_step
  reclaim_sums s [] = s
  reclaim_sums s (f ∷ fs) = reclaim_sums (reclaim_step s f) fs

abbrev pub no_sums : Sums
no_sums = record { seen = []; sum = 0; largest = 0; any_kept = false }

unfoldable pub group_reclaim : ℕ → List FileEnt → Option (FileEnt → Bool) → ℕ
unfolding reclaim_sums kept_inodes
group_reclaim size files test =
    let s = reclaim_sums size test (kept_inodes test files) no_sums files in
    if s.any_kept then s.sum else sub64 s.sum s.largest

unfoldable pub reclaim_group : Group → Group
reclaim_group g = record g { reclaim = group_reclaim g.size g.files (some (λ f. f.prot)) }

unfoldable pub mark_group_reclaim : List Group → List Group
unfolding reclaim_group
mark_group_reclaim = map reclaim_group

pub record PageTotals : Type 0 where
  pub groups : ℕ
  pub files : ℕ
  pub bytes : ℕ
  pub reclaimable : ℕ
  pub corrupt : ℕ

abbrev pub no_totals : ℕ → PageTotals
no_totals n = record { groups = n; files = 0; bytes = 0; reclaimable = 0; corrupt = 0 }

abbrev pub row_test : RefMatcher → Option (FileEnt → Bool)
row_test m = if is_empty m then none else some (λ f. protects m f.dir f.name)

unfoldable pub dup_totals_step : RefMatcher → PageTotals → Group → PageTotals
dup_totals_step m t g = record t {
  files = t.files + length g.files;
  bytes = add64 t.bytes (mul64 g.size (length g.files));
  reclaimable = add64 t.reclaimable (group_reclaim g.size g.files (row_test m));
}

unfoldable pub dup_totals_from : RefMatcher → PageTotals → List Group → PageTotals
unfolding dup_totals_step
dup_totals_from m t [] = t
dup_totals_from m t (g ∷ gs) = dup_totals_from m (dup_totals_step m t g) gs

unfoldable pub dup_totals : List Group → RefMatcher → PageTotals
unfolding dup_totals_from
dup_totals gs m = dup_totals_from m (no_totals (length gs)) gs

unfoldable pub count_corrupt : List FileEnt → ℕ
count_corrupt [] = 0
count_corrupt (f ∷ fs) = (if text_eq f.verdict (codes "corrupt") then 1 else 0) + count_corrupt fs

unfoldable pub corrupted_totals_from : PageTotals → List Group → PageTotals
corrupted_totals_from t [] = t
corrupted_totals_from t (g ∷ gs) =
    corrupted_totals_from
      (record t {
        files = t.files + length g.files;
        bytes = add64 t.bytes (mul64 g.size (length g.files));
        corrupt = t.corrupt + count_corrupt g.files;
      })
      gs

unfoldable pub corrupted_totals : List Group → PageTotals
unfolding corrupted_totals_from count_corrupt
corrupted_totals gs = corrupted_totals_from (no_totals (length gs)) gs

unfoldable pub sum_sizes : ℕ → List FileEnt → ℕ
sum_sizes n [] = n
sum_sizes n (f ∷ fs) = sum_sizes (add64 n f.size) fs

unfoldable pub flat_totals : List FileEnt → PageTotals
unfolding sum_sizes
flat_totals fs = record (no_totals 0) { files = length fs; bytes = sum_sizes 0 fs }
