-- ===== src/Results/View.antt =====
-- `sortFiles`, `viewKey` and `buildView` of server/results.go. A stable sort is insertion behind
-- the rows that are not greater; copies of slices are the lists themselves.
pub mod Sorting
pub mod Sorted
pub mod Ordered
use duplicatefinder.Paths.{unique_paths}
use duplicatefinder.Results.Refine.{refine_groups, filter_groups}
use duplicatefinder.FilePath.{join}
use duplicatefinder.Results.Search.Match.{match_row}
use duplicatefinder.Results.Reclaim.{dup_totals, flat_totals, corrupted_totals, PageTotals}
use duplicatefinder.Results.Protection.{RefMatcher}
use duplicatefinder.Base.{
  ◌-◌, itoa, text_compare, false, to_upper, filter, some, ◌^◌, true, text_lt, text_eq, [], codes,
  none, not, lt64, to_lower, ltb, ◌++◌, List, Bool, ◌∷◌, if◌then◌else◌, Option, Text,
}
use duplicatefinder.Model.{FileEnt, Group, ToolResult}
use duplicatefinder.Results.Search.{trim_space, Pred, compile_search, Query}
use Prim.Native.Nat.{ℕ, Ordering}

-- `-1`, `0` and `1` of the comparisons.
unfoldable pub compare_size : FileEnt → FileEnt → Ordering
compare_size a b =
    if lt64 a.size b.size
    then Ordering.lt
    else if lt64 b.size a.size
    then Ordering.gt
    else Ordering.eq

-- The comparison that a column sorts by; none for an unknown one.
unfoldable pub column : Text → Option (FileEnt → FileEnt → Ordering)
unfolding compare_size
column field =
    if text_eq field (codes "name")
    then some (λ a b. text_compare a.name b.name)
    else if text_eq field (codes "path")
    then some (λ a b. text_compare a.dir b.dir)
    else if text_eq field (codes "size")
    then some compare_size
    else if text_eq field (codes "date")
    then some (λ a b. text_compare a.mod_time b.mod_time)
    else if text_eq field (codes "created")
    then some (λ a b. text_compare a.created b.created)
    else if text_eq field (codes "captured")
    then some (λ a b. text_compare a.captured b.captured)
    else none

unfoldable pub less : (FileEnt → FileEnt → Ordering) → Bool → FileEnt → FileEnt → Bool
less cmp desc a b = elim (cmp a b) [
  | Ordering.lt ↦ not desc
  | Ordering.eq ↦ text_lt (join a.dir a.name) (join b.dir b.name)
  | Ordering.gt ↦ desc
]

-- `sort.SliceStable`: `x` goes before the first element that is not less than it.
unfoldable pub insert_stable {ℓ} : {A : Type ℓ} → (A → A → Bool) → A → List A → List A
insert_stable lt x [] = x ∷ []
insert_stable lt x (y ∷ ys) =
    let rest = insert_stable lt x ys in if lt y x then y ∷ rest else x ∷ y ∷ ys

unfoldable pub sort_stable {ℓ} : {A : Type ℓ} → (A → A → Bool) → List A → List A
unfolding insert_stable
sort_stable lt [] = []
sort_stable lt (x ∷ xs) = insert_stable lt x (sort_stable lt xs)

abbrev pub sorted_by : Option (FileEnt → FileEnt → Ordering) → List FileEnt → Bool → List FileEnt
sorted_by none files desc = files
sorted_by (some cmp) files desc = sort_stable (less cmp desc) files

unfoldable pub sort_files : List FileEnt → Text → Text → List FileEnt
unfolding column less sort_stable
sort_files files field dir = sorted_by (column field) files (text_eq (to_lower dir) (codes "desc"))

abbrev pub format_bool : Bool → Text
format_bool true = codes "true"
format_bool false = codes "false"

-- `strconv.FormatInt(n, 10)` of a bit pattern.
unfoldable pub format_int : ℕ → Text
format_int n = if ltb n (2 ^ 63) then itoa n else b'-' ∷ itoa (2 ^ 64 - n)

-- `strings.Join(parts, "\x00")`.
unfoldable pub join_nul : List Text → Text
join_nul [] = []
join_nul (t ∷ []) = t
join_nul (t ∷ u ∷ us) = t ++ 0 ∷ join_nul (u ∷ us)

unfoldable pub view_key : Query → Text
unfolding join_nul format_int
view_key q = join_nul (
    q.tool
    ∷ to_lower (trim_space q.query)
    ∷ (format_bool q.match.name
        ++ b'|' ∷ format_bool q.match.modified
        ++ b'|' ∷ format_bool q.match.created)
    ∷ q.sort
    ∷ to_upper q.dir
    ∷ q.loc
    ∷ q.ftype
    ∷ q.ext_q
    ∷ q.date_by
    ∷ q.date_from
    ∷ q.date_to
    ∷ q.size_op
    ∷ format_int q.size_mb
    ∷ unique_paths q.ref_dirs)

pub record ResultView : Type 0 where
  pub key : Text
  pub groups : List Group
  pub files : List FileEnt
  pub total : PageTotals
  pub grand : PageTotals

abbrev pub match_opt : Option Pred → FileEnt → Bool
match_opt none f = true
match_opt (some p) f = match_row p f

abbrev pub searched : Option Pred → List Group → List Group
searched none groups = groups
searched (some p) groups = filter_groups (match_row p) groups

-- The groups after the search, and the totals of both lists.
unfoldable pub grouped_view :
    Text → Option Pred → List Group → (List Group → PageTotals) → ResultView
grouped_view key pred groups totals =
    let kept = searched pred groups in
    record { key = key; groups = kept; files = []; total = totals kept; grand = totals groups }

unfoldable pub flat_view : Text → Option Pred → List FileEnt → Text → Text → ResultView
flat_view key pred files field dir =
    let kept = sort_files (filter (match_opt pred) files) field dir in
    record {
      key = key;
      groups = [];
      files = kept;
      total = flat_totals kept;
      grand = flat_totals files;
    }

unfoldable pub build_view : ToolResult → Query → Text → RefMatcher → ResultView
unfolding grouped_view flat_view
build_view res q key refs =
    let pred = compile_search q in
    if text_eq res.tool (codes "corrupted_files")
    then grouped_view key pred res.groups corrupted_totals
    else if text_eq res.tool (codes "duplicates")
    then grouped_view key pred (refine_groups res.groups q.match) (λ gs. dup_totals gs refs)
    else flat_view key pred res.files q.sort q.dir
