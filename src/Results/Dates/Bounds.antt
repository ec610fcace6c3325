-- ===== src/Results/Dates/Bounds.antt =====
-- The date spans of server/results.go against the rows they are taken from.
use duplicatefinder.Base.{
  refl, [], ◌∷◌, All, List, text_lt, text_le_trans, false, text_lt_irrefl, arith, text_lt_asymm,
  ◌≡◌, is_nil, Text,
}
use duplicatefinder.Results.Dates.{
  no_span, Group, ToolResult, scan_date_ranges, add_files, DateRanges, add_groups, add_file,
  FileEnt, add_date, DateSpan,
}

-- The span `d` takes in the date `v`, if there is one.
abbrev pub Spans : DateSpan → Text → Type 0
Spans d v =
    (is_nil v ≡ false)
    → (is_nil d.min ≡ false)
      × (text_lt v d.min ≡ false)
      × (is_nil d.max ≡ false)
      × (text_lt d.max v ≡ false)

-- A span is empty on both sides or on neither.
abbrev pub IsSpan : DateSpan → Type 0
IsSpan d = is_nil d.min ≡ is_nil d.max

add_date-IsSpan : (d : DateSpan) (v : Text) → IsSpan d → IsSpan (add_date d v)
unfolding add_date
add_date-IsSpan d v h = ground arith

add_date_self : (d : DateSpan) (v : Text) → IsSpan d → Spans (add_date d v) v
unfolding add_date
add_date_self d v h some_v =
    let e = text_lt_irrefl v in ground (arith, text_lt_asymm v d.min, text_lt_asymm d.max v)

add_date-keeps : (d : DateSpan) (v w : Text) → Spans d w → Spans (add_date d v) w
unfolding add_date
add_date-keeps d v w h some_w =
    let (lo, ge, hi, le) = h some_w in
    let a = text_lt_asymm v d.min in
    let b = text_lt_asymm d.max v in
    ground (arith, a, b, text_le_trans v d.min w, text_le_trans w d.max v)

-- The three spans take in the three dates of a row.
abbrev pub SpansFile : DateRanges → FileEnt → Type 0
SpansFile r f =
    Spans r.modified f.mod_time × Spans r.created f.created × Spans r.captured f.captured

abbrev pub AreSpans : DateRanges → Type 0
AreSpans r = IsSpan r.modified × IsSpan r.created × IsSpan r.captured

add_file-AreSpans : (r : DateRanges) (f : FileEnt) → AreSpans r → AreSpans (add_file r f)
unfolding add_file
add_file-AreSpans r f h = (
  add_date-IsSpan r.modified f.mod_time h.0,
  add_date-IsSpan r.created f.created h.1,
  add_date-IsSpan r.captured f.captured h.2,
)

add_file_self : (r : DateRanges) (f : FileEnt) → AreSpans r → SpansFile (add_file r f) f
unfolding add_file
add_file_self r f h = (
  add_date_self r.modified f.mod_time h.0,
  add_date_self r.created f.created h.1,
  add_date_self r.captured f.captured h.2,
)

add_file-keeps : (r : DateRanges) (f g : FileEnt) → SpansFile r g → SpansFile (add_file r f) g
unfolding add_file
add_file-keeps r f g h = (
  add_date-keeps r.modified f.mod_time g.mod_time h.0,
  add_date-keeps r.created f.created g.created h.1,
  add_date-keeps r.captured f.captured g.captured h.2,
)

add_files-AreSpans : (r : DateRanges) (fs : List FileEnt) → AreSpans r → AreSpans (add_files r fs)
unfolding add_files
add_files-AreSpans r [] h = h
add_files-AreSpans r (f ∷ fs) h = add_files-AreSpans (add_file r f) fs (add_file-AreSpans r f h)

add_files-keeps :
    (r : DateRanges) (fs : List FileEnt) (g : FileEnt)
    → SpansFile r g
    → SpansFile (add_files r fs) g
unfolding add_files
add_files-keeps r [] g h = h
add_files-keeps r (f ∷ fs) g h = add_files-keeps (add_file r f) fs g (add_file-keeps r f g h)

add_files-All :
    (r : DateRanges) (fs : List FileEnt) → AreSpans r → All (SpansFile (add_files r fs)) fs
unfolding add_files
add_files-All r [] h = tt
add_files-All r (f ∷ fs) h = (
  add_files-keeps (add_file r f) fs f (add_file_self r f h),
  add_files-All (add_file r f) fs (add_file-AreSpans r f h),
)

add_groups-AreSpans : (r : DateRanges) (gs : List Group) → AreSpans r → AreSpans (add_groups r gs)
unfolding add_groups
add_groups-AreSpans r [] h = h
add_groups-AreSpans r (g ∷ gs) h =
    add_groups-AreSpans (add_files r g.files) gs (add_files-AreSpans r g.files h)

add_groups-keeps :
    (r : DateRanges) (gs : List Group) (f : FileEnt) → SpansFile r f → SpansFile (add_groups r gs) f
unfolding add_groups
add_groups-keeps r [] f h = h
add_groups-keeps r (g ∷ gs) f h =
    add_groups-keeps (add_files r g.files) gs f (add_files-keeps r g.files f h)

All-map :
    {P Q : FileEnt → Type 0}
    → ((f : FileEnt) → P f → Q f)
    → (fs : List FileEnt) → All P fs
    → All Q fs
All-map up [] h = tt
All-map up (f ∷ fs) h = (up f h.0, All-map up fs h.1)

add_groups-All :
    (r : DateRanges) (gs : List Group)
    → AreSpans r
    → All (λ g. All (SpansFile (add_groups r gs)) g.files) gs
unfolding add_groups
add_groups-All r [] h = tt
add_groups-All r (g ∷ gs) h = (
  All-map (add_groups-keeps (add_files r g.files) gs) g.files (add_files-All r g.files h),
  add_groups-All (add_files r g.files) gs (add_files-AreSpans r g.files h),
)

All-groups :
    (r t : DateRanges)
    → ((f : FileEnt) → SpansFile r f → SpansFile t f)
    → (gs : List Group) → All (λ g. All (SpansFile r) g.files) gs
    → All (λ g. All (SpansFile t) g.files) gs
All-groups r t up [] h = tt
All-groups r t up (g ∷ gs) h = (All-map up g.files h.0, All-groups r t up gs h.1)

-- The spans of a result bound it whole: the modified, created and captured date of every row of
-- every group and of every flat row, where the row has one, lies between the minimum and the
-- maximum of its span, and both of these are then set.
pub scan_date_ranges-bounds :
    (res : ToolResult)
    → All (λ g. All (SpansFile (scan_date_ranges res)) g.files) res.groups
      × All (SpansFile (scan_date_ranges res)) res.files
unfolding scan_date_ranges
scan_date_ranges-bounds res =
    let none_yet : DateRanges = record {
      modified = no_span;
      created = no_span;
      captured = no_span;
    } in
    let r : DateRanges = add_groups none_yet res.groups in
    (
      All-groups r (add_files r res.files) (add_files-keeps r res.files) res.groups
          (add_groups-All none_yet res.groups (refl, refl, refl)),
      add_files-All r res.files (add_groups-AreSpans none_yet res.groups (refl, refl, refl)),
    )
