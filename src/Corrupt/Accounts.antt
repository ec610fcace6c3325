-- ===== src/Corrupt/Accounts.antt =====
-- `final` of `corruptTop` of server/corrupt.go, before the sets are judged: what it lists and what
-- it reports.
use duplicatefinder.Model.{TruncInfo}
use duplicatefinder.Scan.Caps.{cap_cut_index}
use duplicatefinder.Results.View.{sort_stable}
use duplicatefinder.Scan.Bounded.Keeping.{total, total-append, total-sort_stable}
use duplicatefinder.Corrupt.{CorruptSet, better_set}
use duplicatefinder.Corrupt.Top.{
  CorruptTop, corrupt_add_all, new_corrupt_top, set_rows, rows_of, corrupt_add_all-rows,
}
use duplicatefinder.Base.{
  take-append-drop, refl, ap, [], ◌&&◌, none, length-take, take, ◌-◌, arith, ◌==◌, ◌∷◌, some, ltb,
  drop, length, ◌≡◌, Option, if◌then◌else◌, map, ◌+◌, ℕ, List,
}

abbrev pub file_count : CorruptSet → ℕ
file_count c = length c.files

-- The files of a set beyond the budget.
abbrev pub over_budget : ℕ → CorruptSet → ℕ
over_budget budget c = if ltb budget (length c.files) then length c.files - budget else 0

abbrev pub within_budget : ℕ → CorruptSet → CorruptSet
within_budget budget c =
    if ltb budget (length c.files) then record c { files = take budget c.files } else c

abbrev pub report : ℕ → ℕ → ℕ → Option TruncInfo
report sets files budget =
    if sets == 0 && files == 0
    then none
    else some (record { groups = sets; files = files; cap = budget })

-- The sets that are judged and listed, and the report.
unfoldable pub corrupt_final : CorruptTop → ℕ → List CorruptSet × Option TruncInfo
unfolding cap_cut_index
corrupt_final t budget =
    let sorted = sort_stable better_set t.sets in
    let cut = cap_cut_index (map file_count sorted) budget in
    let rest = drop cut sorted in
    let shown = take cut sorted in
    (
      map (within_budget budget) shown,
      report (t.dropped_sets + length rest)
          (t.dropped_file
            + total file_count rest
            + total (λ c. c.extra) sorted
            + total (over_budget budget) shown)
          budget,
    )

-- The files that a report counts.
abbrev pub counted : Option TruncInfo → ℕ
counted none = 0
counted (some i) = i.files

counted-report : (sets files budget : ℕ) → counted (report sets files budget) ≡ files
counted-report sets files budget = ground arith

within-over :
    (budget : ℕ) (cs : List CorruptSet)
    → total file_count (map (within_budget budget) cs) + total (over_budget budget) cs
      ≡ total file_count cs
within-over budget [] = refl
within-over budget (c ∷ cs) = ground (arith, within-over budget cs, length-take budget c.files)

total-set_rows :
    (cs : List CorruptSet) → total set_rows cs ≡ total file_count cs + total (λ c. c.extra) cs
total-set_rows [] = refl
total-set_rows (c ∷ cs) = omega (arith, total-set_rows cs)

corrupt_final-rows :
    (t : CorruptTop) (budget : ℕ)
    → total file_count (corrupt_final t budget).0 + counted (corrupt_final t budget).1 ≡ rows_of t
unfolding corrupt_final
corrupt_final-rows t budget =
    let sorted = sort_stable better_set t.sets in
    let cut = cap_cut_index (map file_count sorted) budget in
    omega (
      arith,
      counted-report (t.dropped_sets + length (drop cut sorted))
          (t.dropped_file
            + total file_count (drop cut sorted)
            + total (λ c. c.extra) sorted
            + total (over_budget budget) (take cut sorted))
          budget,
      within-over budget (take cut sorted),
      total-set_rows sorted,
      total-sort_stable better_set set_rows t.sets,
      total-append file_count (take cut sorted) (drop cut sorted),
      ap (total file_count) (take-append-drop cut sorted),
    )

-- Of the sets that a scan hands over, the files of those that are listed and the files that the
-- report counts add up to all their files, those beyond the cap of a set included.
pub corrupt_final-accounts :
    (budget : ℕ) (cs : List CorruptSet)
    → let t = corrupt_add_all (new_corrupt_top budget) cs in
      total file_count (corrupt_final t budget).0 + counted (corrupt_final t budget).1
      ≡ total set_rows cs
unfolding new_corrupt_top
corrupt_final-accounts budget cs = omega (
  arith,
  corrupt_final-rows (corrupt_add_all (new_corrupt_top budget) cs) budget,
  corrupt_add_all-rows cs (new_corrupt_top budget),
)
