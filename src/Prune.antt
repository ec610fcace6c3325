-- ===== src/Prune.antt =====
-- `pruneMoved` of server/move.go: what a move evicts from the stored results, and the survivors of
-- dissolved duplicate groups that it holds back until the next duplicates scan. The resolver's
-- answers are an argument.
pub mod Rows
pub mod Groups
use duplicatefinder.Paths.{is_under}
use duplicatefinder.Base.{
  cons_some, ◌&&◌, true, is_nil, [], ◌||◌, ◌++◌, not, member, some, none, map, if◌then◌else◌, ◌∷◌,
  filter, text_eq, Option, List, codes, Bool, Text,
}
use duplicatefinder.Model.{FileEnt, Group, ToolResult}
use duplicatefinder.FilePath.{base, join}

pub record Moved : Type 0 where
  pub canon_paths : List Text
  pub dir_paths : List Text
  pub canon : Text → Text

abbrev pub raw_path : FileEnt → Text
raw_path f = join f.dir f.name

abbrev pub duplicates : Text
duplicates = codes "duplicates"

abbrev pub corrupted_files : Text
corrupted_files = codes "corrupted_files"

-- `groupedTools` of server/handlers.go.
unfoldable pub is_grouped : Text → Bool
is_grouped tool = text_eq tool duplicates || text_eq tool corrupted_files

module _ (m : Moved) where
  -- The base names of the moved entries.
  unfoldable pub moved_names : List Text
  moved_names = map base m.canon_paths

  unfoldable pub is_candidate : FileEnt → Bool
  unfolding moved_names
  is_candidate f = member f.name moved_names || not (is_nil m.dir_paths)

  unfoldable pub is_dropped : Text → Text → Bool
  is_dropped cp raw =
      if member cp m.canon_paths || member raw m.canon_paths
      then true
      else not (is_nil m.dir_paths) && (is_under cp m.dir_paths || is_under raw m.dir_paths)

  unfoldable pub stays_listed : FileEnt → Bool
  stays_listed f = not (is_candidate f) || not (is_dropped (m.canon (raw_path f)) (raw_path f))

  unfoldable pub kept_rows : List FileEnt → List FileEnt
  kept_rows = filter stays_listed

  -- One group: what stays of it in the listing, and the survivor of a dissolved group.
  pub prune_group : Text → Group → List FileEnt → Option Group × Option Text
  prune_group tool g [] = (none, none)
  prune_group tool g (f ∷ []) =
      (none, if text_eq tool duplicates then some (m.canon (raw_path f)) else none)
  prune_group tool g (f ∷ f' ∷ fs) = (some (record g { files = f ∷ f' ∷ fs }), none)

  pub prune_groups : Text → List Group → List Group × List Text
  unfolding prune_group kept_rows
  prune_groups tool [] = ([], [])
  prune_groups tool (g ∷ gs) =
      let (g', keeper) = prune_group tool g (kept_rows g.files) in
      let (gs', keepers) = prune_groups tool gs in (cons_some g' gs', cons_some keeper keepers)

  -- One tool's stored result, and the keepers that its groups add.
  unfoldable pub prune_result : ToolResult → ToolResult × List Text
  unfolding prune_groups is_grouped
  prune_result r =
      if is_grouped r.tool
      then (let (gs, keepers) = prune_groups r.tool r.groups in (record r { groups = gs }, keepers))
      else (record r { files = kept_rows r.files }, [])

  -- `pruneMoved`: every stored result, and `s.keepers`.
  unfoldable pub prune_moved : List ToolResult → List Text → List ToolResult × List Text
  unfolding prune_result
  prune_moved [] keepers = ([], keepers)
  prune_moved (r ∷ rs) keepers =
      let (r', more) = prune_result r in
      let (rs', keepers') = prune_moved rs (more ++ keepers) in (r' ∷ rs', keepers')
