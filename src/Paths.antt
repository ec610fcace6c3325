-- ===== src/Paths.antt =====
-- server/paths.go: path vetting and the per-request resolver, and `volumeOf` of server/move.go.
-- The volume list and `filepath.EvalSymlinks` are the file system's, and are arguments.
pub mod Resolving
pub mod Under
pub mod Unique
use duplicatefinder.Base.{
  Bool, true, false, not, ◌&&◌, ◌||◌, Option, none, some, List, [], ◌∷◌, ◌++◌, if◌then◌else◌, any,
  is_nil, Text, codes, text_eq, has_prefix, member,
}
use duplicatefinder.FilePath.{slash, clean, join, dir, base, is_abs, split_slash, dot_dot}

-- `p == r || strings.HasPrefix(p, r + "/")`.
abbrev pub at_or_below : Text → Text → Bool
at_or_below p r = text_eq p r || has_prefix (r ++ slash ∷ []) p

unfoldable pub is_under : Text → List Text → Bool
is_under p [] = false
is_under p (r ∷ roots) = at_or_below p r || is_under p roots

unfoldable pub volume_of : Text → List Text → Text
volume_of p [] = []
volume_of p (r ∷ vols) = let rest = volume_of p vols in if at_or_below p r then r else rest

unfoldable pub allowed_path : List Text → Text → Bool
unfolding is_under
allowed_path vols p =
    if is_nil p || not (is_abs p)
    then false
    else (let q = clean p in
        if any (text_eq dot_dot) (split_slash q) then false else is_under q vols)

-- Each volume root, and behind it its resolved form where that differs.
unfoldable pub volume_roots_resolved : (Text → Option Text) → List Text → List Text
volume_roots_resolved eval [] = []
volume_roots_resolved eval (v ∷ vols) =
    let rest = volume_roots_resolved eval vols in
    elim (eval v) [ none ↦ v ∷ rest | some rv ↦ if text_eq rv v then v ∷ rest else v ∷ rv ∷ rest ]

pub data RootError : Type 0 where
  outside_volumes not_a_folder : RootError

pub data Resolved : Type 0 where
  resolved : Text → Resolved
  refused : RootError → Resolved

unfoldable pub resolve_allowed_root : (Text → Option Text) → List Text → Text → Resolved
unfolding allowed_path volume_roots_resolved
resolve_allowed_root eval vols p =
    if not (allowed_path vols p) then refused outside_volumes else elim (eval p) [
      | none ↦ refused not_a_folder
      | some rp ↦
          if is_under rp (volume_roots_resolved eval vols)
          then resolved rp
          else refused outside_volumes
    ]

unfoldable pub skip_name : Text → Bool
skip_name name =
    has_prefix (codes "@") name
    || has_prefix (codes ".") name
    || text_eq name (codes "#recycle")
    || text_eq name (codes "#snapshot")
    || text_eq name (codes "lost+found")

-- The loop of `uniquePaths`, over what it has seen.
unfoldable pub unique_from : List Text → List Text → List Text
unique_from seen [] = []
unique_from seen (p ∷ ps) = elim (not (is_nil (clean p)) && not (member (clean p) seen)) [
  | true ↦ clean p ∷ unique_from (clean p ∷ seen) ps
  | false ↦ unique_from seen ps
]

unfoldable pub unique_paths : List Text → List Text
unfolding unique_from
unique_paths = unique_from []

abbrev pub or_else : Option Text → Text → Text
or_else none d = d
or_else (some v) d = v

-- `dirResolver.cache`.
abbrev pub Cache : Type 0
Cache = List (Text × Text)

unfoldable pub cached : Cache → Text → Option Text
cached [] d = none
cached ((k, v) ∷ cache) d = let rest = cached cache d in if text_eq k d then some v else rest

module _ (eval : Text → Option Text) where
  -- The part of `resolveDir` behind the cleaning.
  unfoldable pub resolve_cleaned : Cache → Text → Option Text × Cache
  unfolding cached
  resolve_cleaned cache d = elim (cached cache d) [
    | some v ↦ (some v, cache)
    | none ↦ elim (eval d) [ none ↦ (none, cache) | some v ↦ (some v, (d, v) ∷ cache) ]
  ]

  unfoldable pub resolve_dir : Cache → Text → Option Text × Cache
  unfolding resolve_cleaned
  resolve_dir cache d = resolve_cleaned cache (clean d)

  -- `dirResolver.dir`: the cleaned input where it cannot be resolved.
  unfoldable pub canon_dir : Cache → Text → Text × Cache
  unfolding resolve_dir
  canon_dir cache d = let (o, cache') = resolve_dir cache d in (or_else o (clean d), cache')

  -- `dirResolver.path`: the resolved parent and the original base.
  unfoldable pub canon_path : Cache → Text → Text × Cache
  unfolding canon_dir
  canon_path cache p =
      let (d, cache') = canon_dir cache (dir (clean p)) in (join d (base (clean p)), cache')

  -- `dirResolver.strictPath`.
  unfoldable pub strict_path : Cache → Text → Option Text × Cache
  unfolding resolve_dir
  strict_path cache p =
      let (o, cache') = resolve_dir cache (dir (clean p)) in
      (elim o [ some d ↦ some (join d (base (clean p))) | none ↦ none ], cache')
