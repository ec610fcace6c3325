-- ===== src/Results/Dates.antt =====
-- `dateSpan`, `dateRanges` and `scanDateRanges` of server/results.go.
pub mod Bounds
use duplicatefinder.Base.{text_lt, ◌||◌, ◌∷◌, is_nil, if◌then◌else◌, List, [], Text}
use duplicatefinder.Model.{FileEnt, Group, ToolResult}

pub record DateSpan : Type 0 where
  pub min : Text
  pub max : Text

pub record DateRanges : Type 0 where
  pub modified : DateSpan
  pub created : DateSpan
  pub captured : DateSpan

abbrev pub no_span : DateSpan
no_span = record { min = []; max = [] }

unfoldable pub add_date : DateSpan → Text → DateSpan
add_date d v = if is_nil v then d else record {
  min = if is_nil d.min || text_lt v d.min then v else d.min;
  max = if is_nil d.max || text_lt d.max v then v else d.max;
}

unfoldable pub add_file : DateRanges → FileEnt → DateRanges
unfolding add_date
add_file r f = record {
  modified = add_date r.modified f.mod_time;
  created = add_date r.created f.created;
  captured = add_date r.captured f.captured;
}

unfoldable pub add_files : DateRanges → List FileEnt → DateRanges
unfolding add_file
add_files r [] = r
add_files r (f ∷ fs) = add_files (add_file r f) fs

unfoldable pub add_groups : DateRanges → List Group → DateRanges
unfolding add_files
add_groups r [] = r
add_groups r (g ∷ gs) = add_groups (add_files r g.files) gs

unfoldable pub scan_date_ranges : ToolResult → DateRanges
unfolding add_groups add_files
scan_date_ranges res =
    add_files
      (add_groups (record { modified = no_span; created = no_span; captured = no_span }) res.groups)
      res.files
