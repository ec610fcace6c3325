-- ===== src/Results/Search/Match.antt =====
-- `searchPred.match` of server/results.go, one test per option.
use duplicatefinder.FilePath.{join}
use duplicatefinder.Base.{
  member, [], mul64, some, ◌∷◌, false, lt64, ◌++◌, ◌==◌, none, text_lt, contains, has_prefix, div64,
  to_lower, true, ◌||◌, codes, not, ◌&&◌, text_eq, ◌^◌, is_nil, ℕ, Bool, if◌then◌else◌, Text,
}
use duplicatefinder.Model.{FileEnt}
use duplicatefinder.Results.Search.{verdict_search_text, Pred}

unfoldable pub match_text : Pred → FileEnt → Bool
unfolding verdict_search_text
match_text p f =
    is_nil p.needle
    || contains p.needle (to_lower (join f.dir f.name))
    || contains p.needle (verdict_search_text f.verdict)

unfoldable pub match_loc : Pred → FileEnt → Bool
match_loc p f = is_nil p.loc || text_eq f.dir p.loc || has_prefix (p.loc ++ b'/' ∷ []) f.dir

-- The `switch p.ftype`.
unfoldable pub match_type : Pred → FileEnt → Bool
match_type p f =
    if is_nil p.ftype
    then true
    else if text_eq p.ftype (codes "dir")
    then f.is_dir
    else if text_eq p.ftype (codes "file")
    then not f.is_dir
    else if text_eq p.ftype (codes "ext")
    then text_eq (to_lower f.ext) (to_lower p.extq)
    else elim p.exts [ none ↦ false | some es ↦ member f.ext es ]

abbrev pub date_value : Text → FileEnt → Text
date_value by f =
    if text_eq by (codes "created")
    then f.created
    else if text_eq by (codes "captured")
    then f.captured
    else f.mod_time

unfoldable pub in_dates : Text → Text → Text → Bool
in_dates from to v =
    not (is_nil v || not (is_nil from) && text_lt v from || not (is_nil to) && text_lt to v)

unfoldable pub match_date : Pred → FileEnt → Bool
unfolding in_dates
match_date p f = is_nil p.date_by || in_dates p.date_from p.date_to (date_value p.date_by f)

abbrev pub mib : ℕ
mib = 2 ^ 20

-- The `switch p.sizeOp`.
unfoldable pub match_size : Pred → FileEnt → Bool
match_size p f =
    if text_eq p.size_op (codes "eq")
    then div64 f.size mib == p.size_mb
    else if text_eq p.size_op (codes "gt")
    then lt64 (mul64 p.size_mb mib) f.size
    else if text_eq p.size_op (codes "lt")
    then lt64 f.size (mul64 p.size_mb mib)
    else true

unfoldable pub match_row : Pred → FileEnt → Bool
unfolding match_text match_loc match_type match_date match_size
match_row p f =
    match_text p f && match_loc p f && match_type p f && match_date p f && match_size p f
