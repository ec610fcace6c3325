-- ===== src/Scan/Roots.antt =====
-- `scanRoots` of server/scan.go. `resolve` is `resolveAllowedRoot`; the roots are sorted by length.
pub mod Apart
use duplicatefinder.Base.{
  if◌then◌else◌, none, codes, has_prefix, false, ◌++◌, true, some, ◌&&◌, ◌||◌, any, ◌∷◌, [], length,
  List, ltb, text_eq, Bool, Option, Text,
}
use duplicatefinder.Model.{RootMap}
use duplicatefinder.Results.View.{sort_stable}

-- The roots that still resolve, and the errors of the others.
unfoldable pub resolve_roots : (Text → Option Text) → List Text → List RootMap × List Text
resolve_roots resolve [] = ([], [])
resolve_roots resolve (r ∷ rs) =
    let rest = resolve_roots resolve rs in
    elim (resolve r) [
      | some c ↦ (record { raw = r; canon = c } ∷ rest.0, rest.1)
      | none ↦ (rest.0, (r ++ codes ": no longer inside the allowed volumes") ∷ rest.1)
    ]

abbrev pub shorter : RootMap → RootMap → Bool
shorter a b = ltb (length a.canon) (length b.canon)

-- `wr.canon == kc`, or below it when recursing.
abbrev pub covers : Bool → Text → Text → Bool
covers recurse c kc = text_eq c kc || recurse && has_prefix (kc ++ b'/' ∷ []) c

unfoldable pub is_covered : Bool → List RootMap → Text → Bool
is_covered recurse kept c = any (λ k. covers recurse c k.canon) kept

-- The loop over the sorted roots; `kept` holds the roots kept so far.
unfoldable pub keep_roots : Bool → List RootMap → List RootMap → List RootMap
unfolding is_covered
keep_roots recurse kept [] = kept
keep_roots recurse kept (w ∷ ws) =
    keep_roots recurse (if is_covered recurse kept w.canon then kept else kept ++ w ∷ []) ws

-- The roots to walk, which are `res.Roots`, and the errors.
unfoldable pub scan_roots : (Text → Option Text) → Bool → List Text → List RootMap × List Text
unfolding resolve_roots keep_roots is_covered
scan_roots resolve recurse roots =
    let found = resolve_roots resolve roots in
    (keep_roots recurse [] (sort_stable shorter found.0), found.1)
