-- ===== src/Results/Protection.antt =====
-- The reference-folder matcher of server/results.go: `newRefMatcher`, `protects`,
-- `markGroupProt`, `markFileProt`. `filepath.EvalSymlinks` is an argument.
use duplicatefinder.Paths.{canon_dir, unique_paths, at_or_below, is_under, Cache}
use duplicatefinder.FilePath.{join}
use duplicatefinder.Base.{
  length, drop, ◌++◌, ◌+◌, ◌||◌, ◌∷◌, [], false, true, ℕ, is_nil, map, List, if◌then◌else◌, Bool,
  Option, Text,
}
use duplicatefinder.Model.{Group, FileEnt, RootMap}

pub record RefMatcher : Type 0 where
  pub raw : List Text
  pub canon : List Text
  pub roots : List RootMap

-- `r.dir` of each folder, with one resolver.
pub canon_dirs : (Text → Option Text) → Cache → List Text → List Text
canon_dirs eval cache [] = []
canon_dirs eval cache (d ∷ ds) =
    let (c, cache') = canon_dir eval cache d in c ∷ canon_dirs eval cache' ds

unfoldable pub new_ref_matcher : (Text → Option Text) → List Text → List RootMap → RefMatcher
new_ref_matcher eval refs roots =
    if is_nil refs
    then record { raw = []; canon = []; roots = roots }
    else (let raw = unique_paths refs in
        record { raw = raw; canon = canon_dirs eval [] raw; roots = roots })

abbrev pub is_empty : RefMatcher → Bool
is_empty m = is_nil m.raw

-- The loop over the result's roots: the first one that holds the path decides.
pub protected_by_root : List RootMap → List Text → Text → Bool
protected_by_root [] canon p = false
protected_by_root (rt ∷ roots) canon p =
    let rest = protected_by_root roots canon p in
    if at_or_below p rt.raw then is_under (rt.canon ++ drop (length rt.raw) p) canon else rest

unfoldable pub protects : RefMatcher → Text → Text → Bool
unfolding protected_by_root
protects m d name =
    let p = join d name in
    if is_empty m
    then false
    else if is_under p m.raw || is_under p m.canon
    then true
    else protected_by_root m.roots m.canon p

module _ (m : RefMatcher) where
  unfoldable pub mark_row : FileEnt → FileEnt
  mark_row f = if protects m f.dir f.name then record f { prot = true } else f

  pub count_protected : List FileEnt → ℕ
  count_protected [] = 0
  count_protected (f ∷ fs) = (if protects m f.dir f.name then 1 else 0) + count_protected fs

  unfoldable pub mark_group : Group → Group
  mark_group g = record g { files = map mark_row g.files; prot = count_protected g.files }

  unfoldable pub mark_group_prot : List Group → List Group
  unfolding mark_group
  mark_group_prot gs = if is_empty m then gs else map mark_group gs

  unfoldable pub mark_file_prot : List FileEnt → List FileEnt
  unfolding mark_row
  mark_file_prot fs = if is_empty m then fs else map mark_row fs
