-- ===== src/Examples/Moves.antt =====
-- Moves of a pair of duplicates: server/move.go.
use duplicatefinder.Vetting.Idents.{ident_matches-Agrees, Agrees}
use duplicatefinder.Vetting.Refusals.{refuse-held_inside, refuse-keeps_copy, is_some, moves}
use duplicatefinder.Vetting.{
  is_dir_ident, refuse, MoveVet, agrees_with, ident_matches, Ident, ident_of, FsEntry,
}
use duplicatefinder.FilePath.{clean, join, base}
use duplicatefinder.Paths.Resolving.{plain_path, canon_paths}
use duplicatefinder.KeepOne.Groups.{
  keep_one_drops-keeps_original, keep_one_drops-keeps_copy, keep_one_drops-keeps_content,
  keep_one_drops-requested, paths_of, hash_of, remains,
}
use duplicatefinder.Prune.Rows.{stays_listed-iff_dropped, moved}
use duplicatefinder.Prune.Groups.{prune_groups-accounts, is_listed}
use duplicatefinder.KeepOne.{
  requested_original, group_paths, staying_original, keep_one_drops, staying, original, reads,
  Request,
}
use duplicatefinder.Prune.{
  moved_names, is_candidate, kept_rows, raw_path, is_dropped, duplicates, prune_groups, Moved,
  stays_listed,
}
use duplicatefinder.Paths.{is_under}
use duplicatefinder.Base.{
  if◌then◌else◌, List, false, ℕ, has_prefix, member, refl, text_eq, ◌||◌, true, none, ◌≡◌, ◌∷◌,
  codes, some, [], not, ◌&&◌, any, Option, all, Text,
}
use duplicatefinder.Examples.{file_a, file_b, pair}
use mathlib.Core.List.{Memᴰ}

-- Both rows are requested, and the reader finds only the first one intact.
abbrev both : Request
both = record {
  requested = codes "/v/p/a" ∷ codes "/v/p/b" ∷ [];
  ref_dirs = [];
  canon = λ p. p;
  on_disk = λ p. true;
  is_out = none;
  intact = some (λ p h. text_eq p (codes "/v/p/a"));
}

keep_one_drops-keeps_copy_example :
    any (λ p. both.on_disk p && remains both (pair ∷ []) p) (paths_of both pair) ≡ true
unfolding group_paths staying text_eq staying_original requested_original is_under
keep_one_drops-keeps_copy_example =
    keep_one_drops-keeps_copy both (pair ∷ []) pair (Memᴰ.head refl) refl

keep_one_drops-keeps_content_example :
    any
      (λ p.
        (both.on_disk p && reads both.intact p (hash_of both pair)) && remains both (pair ∷ []) p)
      (paths_of both pair)
    ≡ true
unfolding group_paths staying text_eq staying_original requested_original is_under join
keep_one_drops-keeps_content_example =
    keep_one_drops-keeps_content both (pair ∷ []) pair (Memᴰ.head refl) refl

keep_one_drops-keeps_original_example :
    any
      (λ p. (both.on_disk p && original both p) && remains both (pair ∷ []) p)
      (paths_of both pair)
    ≡ true
unfolding group_paths staying text_eq staying_original requested_original is_under
keep_one_drops-keeps_original_example =
    keep_one_drops-keeps_original both (pair ∷ []) pair (Memᴰ.head refl) refl

keep_one_drops-requested_example :
    all (λ p. not (staying both p)) (keep_one_drops both (pair ∷ [])) ≡ true
keep_one_drops-requested_example = keep_one_drops-requested both (pair ∷ [])

-- The second row moved.
abbrev moved_b : Moved
moved_b = record { canon_paths = codes "/v/p/b" ∷ []; dir_paths = []; canon = λ p. p }

prune_groups-accounts_example :
    (is_listed moved_b (codes "/v/p/a") (prune_groups moved_b duplicates (pair ∷ [])).0
      || member (codes "/v/p/a") (prune_groups moved_b duplicates (pair ∷ [])).1)
    ≡ true
unfolding kept_rows stays_listed is_candidate moved_names is_dropped text_eq base join clean
    is_under
prune_groups-accounts_example =
    prune_groups-accounts moved_b (codes "/v/p/a") (pair ∷ []) pair (Memᴰ.head refl) refl

abbrev no_links : Text → Option Text
no_links d = some d

stays_listed-iff_dropped_example :
    stays_listed (moved no_links (codes "/v/p/b" ∷ []) []) file_b
    ≡ not (
        is_dropped
          (moved no_links (codes "/v/p/b" ∷ []) [])
          (plain_path no_links (raw_path file_b))
          (raw_path file_b))
unfolding text_eq
stays_listed-iff_dropped_example =
    stays_listed-iff_dropped no_links (codes "/v/p/b" ∷ []) [] file_b refl

-- A directory that is a link, asked for twice.
abbrev one_link : Text → Option Text
one_link d = if text_eq d (codes "/v/l") then some (codes "/v/p") else none

abbrev pub seen_a : Ident
seen_a = ident_of file_a

abbrev vet : MoveVet
vet = record {
  tool = duplicates;
  refs = [];
  allowed = both.requested;
  idents = λ p. [];
  keepers = [];
  drops = keep_one_drops both (pair ∷ []);
  out_held = [];
  stale_held = [];
  self_mounts = [];
  vols = codes "/v" ∷ [];
}

refuse-keeps_copy_example :
    any (λ p. both.on_disk p && not (moves both vet p)) (paths_of both pair) ≡ true
unfolding group_paths
refuse-keeps_copy_example =
    refuse-keeps_copy both vet (pair ∷ []) pair refl refl (Memᴰ.head refl) refl

-- The folder of the pair, recorded as a directory.
abbrev folder_vet : MoveVet
folder_vet = record vet {
  idents = λ p. record seen_a { is_dir = true } ∷ [];
  drops = codes "/v/p/a" ∷ [];
}

refuse-held_inside_example : is_some (refuse folder_vet (codes "/v/p")) ≡ true
unfolding has_prefix text_eq ident_of is_dir_ident
refuse-held_inside_example =
    refuse-held_inside folder_vet (codes "/v/p") (codes "/v/p/a") refl refl refl

abbrev pub no_time : ℕ → Text
no_time n = file_a.mod_time

abbrev pub on_disk_a : FsEntry
on_disk_a = record { is_dir = false; mtime = 7; size = 10 }

ident_matches-Agrees_example : Memᴰ seen_a (seen_a ∷ []) × Agrees no_time on_disk_a seen_a
unfolding ident_matches agrees_with text_eq ident_of
ident_matches-Agrees_example = ident_matches-Agrees no_time on_disk_a (seen_a ∷ []) seen_a refl

abbrev twice : List Text
twice = codes "/v/p/" ∷ codes "/v/p" ∷ []
