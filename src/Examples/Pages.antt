-- ===== src/Examples/Pages.antt =====
-- Pages of a small result: server/results.go.
use duplicatefinder.Results.Search.Days.{match_date-days}
use duplicatefinder.Results.Reclaim.Header.{dup_totals-eq-headers, sum_reclaims}
use duplicatefinder.Results.Dates.{scan_date_ranges}
use duplicatefinder.Results.View.{sort_stable, sort_files}
use duplicatefinder.Results.Refine.{refine_group}
use duplicatefinder.Results.Refine.Criteria.{refine_group_complete, IsRow, shares}
use duplicatefinder.Results.Dates.Bounds.{scan_date_ranges-bounds, SpansFile}
use duplicatefinder.Results.Search.{pred_of, Query}
use duplicatefinder.Results.Search.Match.{match_date}
use duplicatefinder.Results.Reclaim.{mark_group_reclaim, dup_totals}
use duplicatefinder.Results.Paging.{entry, slice_page-tiles, slice_page}
use duplicatefinder.Results.Protection.{mark_group_prot, RefMatcher}
use duplicatefinder.Results.Trim.{trim_group_rows-Trims, rows, trim_group_rows, Trims}
use duplicatefinder.Results.View.Ordered.{sort_files-IsOrdered, IsOrdered, by_name}
use duplicatefinder.Results.View.Sorting.{count}
use duplicatefinder.Model.{MatchOpts, ToolResult}
use duplicatefinder.Base.{
  text_compare, Bool, map, to_lower, arith, filter, some, text_eq, List, refl, ◌&&◌, ◌-◌, ◌*◌,
  length, text_lt, not, ◌+◌, ◌++◌, ◌≡◌, true, none, [], ◌∷◌, false, pos, All, codes, ◌≤◌, Text,
}
use duplicatefinder.Examples.{FileEnt, file_a, Group, pair}
use mathlib.Core.List.{Memᴰ}
use Prim.Native.Nat.{ℕ, min}

-- Refined by the modified time.
abbrev by_time : MatchOpts
by_time = record { name = false; modified = true; created = false }

pair-IsRow : All IsRow pair.files
pair-IsRow = (
  record { name_plain = refl; time_plain = refl; created_known = refl },
  (record { name_plain = refl; time_plain = refl; created_known = refl }, tt),
)

refine_group_complete_example :
    (g' : Group) × Memᴰ g' (refine_group by_time pair)
    × (g'.files ≡ filter (λ f'. shares by_time f' file_a) pair.files)
unfolding text_eq
refine_group_complete_example =
    refine_group_complete by_time pair file_a pair-IsRow (Memᴰ.head refl) (omega arith)

trim_group_rows-Trims_example :
    Trims (pair ∷ []) (trim_group_rows (pair ∷ []))
    × (rows (trim_group_rows (pair ∷ [])) ≤ 2000 + 2 * length (pair ∷ []))
trim_group_rows-Trims_example = trim_group_rows-Trims (pair ∷ [])

abbrev under_p : RefMatcher
under_p = record { raw = codes "/v/p" ∷ []; canon = codes "/v/p" ∷ []; roots = [] }

dup_totals-eq-headers_example :
    (dup_totals (pair ∷ []) under_p).reclaimable
    ≡ sum_reclaims 0 (mark_group_reclaim (mark_group_prot under_p (pair ∷ [])))
dup_totals-eq-headers_example = dup_totals-eq-headers (pair ∷ []) under_p ((refl, (refl, tt)), tt)

abbrev three : List ℕ
three = 1 ∷ 2 ∷ 3 ∷ []

slice_page-tiles_example :
    (entry (slice_page three 0 2) 1 ≡ some 2)
    × (slice_page three 0 2 ++ slice_page three (0 + 2) 2 ≡ slice_page three 0 (2 + 2))
    × (length (slice_page three 0 2) ≡ min 2 (length three - 0))
slice_page-tiles_example = slice_page-tiles three 0 2 2 1

sort_files-IsOrdered_example :
    IsOrdered
      (λ a b. text_lt a.name b.name)
      true
      (sort_files pair.files (codes "name") (codes "DESC"))
    × ((p : FileEnt → Bool)
        → count p (sort_files pair.files (codes "name") (codes "DESC")) ≡ count p pair.files)
unfolding to_lower text_eq
sort_files-IsOrdered_example =
    sort_files-IsOrdered pair.files (codes "name") (codes "DESC") (λ a b. text_lt a.name b.name)
      by_name

-- The larger name comes first.
pair_descending :
    map (λ (f : FileEnt). f.name) (sort_files pair.files (codes "name") (codes "DESC"))
    ≡ codes "b" ∷ codes "a" ∷ []
unfolding sort_files sort_stable text_eq text_compare to_lower
pair_descending = refl

abbrev stored : ToolResult
stored = record {
  tool = codes "duplicates";
  roots = [];
  groups = pair ∷ [];
  files = [];
  errors = [];
  match = none;
  truncated = none;
  scanned = [];
}

scan_date_ranges-bounds_example :
    All (λ g. All (SpansFile (scan_date_ranges stored)) g.files) stored.groups
    × All (SpansFile (scan_date_ranges stored)) stored.files
scan_date_ranges-bounds_example = scan_date_ranges-bounds stored

-- The first of May 2024.
abbrev may_day : Text
may_day = codes "2024-05-01"

abbrev one_day : Query
one_day = record {
  tool = codes "duplicates";
  offset = pos 0;
  limit = pos 100;
  query = [];
  match = by_time;
  sort = [];
  dir = [];
  ref_dirs = [];
  loc = [];
  ftype = [];
  ext_q = [];
  date_by = codes "modified";
  date_from = may_day;
  date_to = may_day;
  size_op = [];
  size_mb = 0;
}

match_date-days_example :
    match_date (pred_of one_day) file_a
    ≡ (not (text_lt may_day one_day.date_from) && not (text_lt one_day.date_to may_day))
unfolding text_eq
match_date-days_example =
    match_date-days one_day file_a may_day (codes " 10:00:00") refl refl refl refl refl refl
