-- ===== src/Results/Search.antt =====
-- `resultsQuery`, `typeExts`, `compileSearch` and `match` of server/results.go, and
-- `verdictSearchText` of server/corrupt.go.
pub mod Match
pub mod Days
use duplicatefinder.Base.{
  leb, ◌||◌, ◌++◌, some, ◌&&◌, to_lower, none, is_nil, ◌==◌, codes, text_eq, [], Option, List, Bool,
  if◌then◌else◌, to_upper, reverse, ℕ, ℤ, ◌∷◌, Text,
}
use duplicatefinder.Model.{MatchOpts, FileEnt}

pub record Query : Type 0 where
  pub tool : Text
  pub offset : ℤ
  pub limit : ℤ
  pub query : Text
  pub match : MatchOpts
  pub sort : Text
  pub dir : Text
  pub ref_dirs : List Text
  pub loc : Text
  pub ftype : Text
  pub ext_q : Text
  pub date_by : Text
  pub date_from : Text
  pub date_to : Text
  pub size_op : Text
  pub size_mb : ℕ

abbrev pub is_space : ℕ → Bool
is_space c = c == b' ' || leb 9 c && leb c 13

abbrev pub drop_spaces : Text → Text
drop_spaces [] = []
drop_spaces (c ∷ s) = let rest = drop_spaces s in if is_space c then rest else c ∷ s

-- `strings.TrimSpace` and `strings.TrimRight(s, "/")`.
unfoldable pub trim_space : Text → Text
trim_space s = reverse (drop_spaces (reverse (drop_spaces s)))

abbrev pub drop_slashes : Text → Text
drop_slashes [] = []
drop_slashes (c ∷ s) = let rest = drop_slashes s in if c == b'/' then rest else c ∷ s

unfoldable pub trim_right_slash : Text → Text
trim_right_slash s = reverse (drop_slashes (reverse s))

-- `strings.TrimPrefix(s, ".")`.
unfoldable pub trim_dot : Text → Text
trim_dot [] = []
trim_dot (c ∷ s) = if c == b'.' then s else c ∷ s

abbrev pub word_onto : Text → List Text → List Text
word_onto w ws = if is_nil w then ws else reverse w ∷ ws

abbrev pub fields_from : Text → Text → List Text
fields_from w [] = word_onto w []
fields_from w (c ∷ s) =
    let rest = fields_from (if is_space c then [] else c ∷ w) s in
    if is_space c then word_onto w rest else rest

-- `extSet`: the true keys of the map, `strings.Fields(s)`.
unfoldable pub ext_set : Text → List Text
ext_set = fields_from []

abbrev pub type_table : List (Text × List Text)
unfolding ext_set
type_table =
    (
      codes "docs",
      ext_set (codes "DOC DOCX XLS XLSX PPT PPTX PDF TXT RTF ODT ODS ODP CSV MD PAGES NUMBERS KEY"),
    )
    ∷ (codes "video", ext_set (codes "MP4 MOV M4V AVI MKV WMV FLV WEBM MPG MPEG M2TS MTS 3GP"))
    ∷ (
      codes "pic",
      ext_set (
          codes
            "JPG JPEG PNG GIF BMP TIFF TIF HEIC HEIF WEBP SVG PSD AI RAW ARW CR2 CR3 NEF ORF RW2 DNG"),
    )
    ∷ (codes "audio", ext_set (codes "MP3 AAC M4A FLAC WAV OGG OGA OPUS WMA AIFF AIF DSF"))
    ∷ (codes "web", ext_set (codes "HTML HTM CSS JS JSON XML PHP ASP ASPX JSP"))
    ∷ (codes "exe", ext_set (codes "EXE MSI COM BAT SH BIN RUN APK DEB RPM PKG"))
    ∷ (codes "disk", ext_set (codes "ISO IMG DMG VHD VHDX VMDK QCOW2"))
    ∷ (codes "zip", ext_set (codes "ZIP RAR 7Z GZ BZ2 XZ TAR TGZ TBZ Z LZ4 ZST"))
    ∷ []

-- A missing key reads `nil`.
abbrev pub exts_at : List (Text × List Text) → Text → Option (List Text)
exts_at [] t = none
exts_at ((k, es) ∷ rows) t = let rest = exts_at rows t in if text_eq k t then some es else rest

unfoldable pub type_exts : Text → Option (List Text)
type_exts = exts_at type_table

pub record Pred : Type 0 where
  pub needle : Text
  pub loc : Text
  pub ftype : Text
  pub exts : Option (List Text)
  pub extq : Text
  pub date_by : Text
  pub date_from : Text
  pub date_to : Text
  pub size_op : Text
  pub size_mb : ℕ

-- The bound that takes in the whole `To` day.
abbrev pub through_day : Text → Text
through_day d = if is_nil d then [] else d ++ 255 ∷ []

abbrev pub known_op : Text → Bool
known_op op = text_eq op (codes "eq") || text_eq op (codes "gt") || text_eq op (codes "lt")

abbrev pub no_dates : Query → Bool
no_dates q = is_nil q.date_from && is_nil q.date_to

abbrev pub pred_of : Query → Pred
unfolding trim_space trim_right_slash trim_dot type_exts
pred_of q =
    let extq = to_upper (trim_dot (trim_space q.ext_q)) in
    record {
      needle = to_lower (trim_space q.query);
      loc = trim_right_slash (trim_space q.loc);
      ftype = if text_eq q.ftype (codes "ext") && is_nil extq then [] else q.ftype;
      exts = type_exts q.ftype;
      extq = extq;
      date_by = if no_dates q then [] else q.date_by;
      date_from = q.date_from;
      date_to = through_day q.date_to;
      size_op = if known_op q.size_op then q.size_op else [];
      size_mb = q.size_mb;
    }

abbrev pub filters_nothing : Pred → Bool
filters_nothing p =
    is_nil p.needle && is_nil p.loc && is_nil p.ftype && is_nil p.date_by && is_nil p.size_op

unfoldable pub compile_search : Query → Option Pred
compile_search q = let p = pred_of q in if filters_nothing p then none else some p

unfoldable pub verdict_search_text : Text → Text
verdict_search_text v =
    if text_eq v (codes "corrupt")
    then codes "corrupt corrupted damaged"
    else if text_eq v (codes "intact")
    then codes "intact good ok"
    else if text_eq v (codes "unknown")
    then codes "unknown undetermined unclear"
    else []
