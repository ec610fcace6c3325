-- ===== src/Examples/Conflicts.antt =====
-- The verdicts on the conflicting files of server/corrupt.go: a bit that flipped, and a copy that
-- holds what the file used to contain.
use duplicatefinder.Corrupt.Compared.{compare_content-Compared, Compared, flipped}
use duplicatefinder.Results.View.{sort_stable}
use duplicatefinder.Corrupt.Difference.{compare_content}
use duplicatefinder.Scan.Copies.{FEnt}
use duplicatefinder.Corrupt.{
  better_set, content_key, seen_contents, is_corrupted_set, CorruptFile, CorruptSet,
  verdict_corrupt, verdict_intact,
}
use duplicatefinder.Corrupt.Judging.{
  judge_with_twins, unchanged_on_disk, member_at, any_corrupt, Disk, Member, unproven,
}
use duplicatefinder.Corrupt.Verdicts.{judge_set}
use duplicatefinder.Corrupt.Convicts.{AllFair}
use duplicatefinder.Corrupt.Judged.{judge_set-AllFair}
use duplicatefinder.Scan.Bounded.Keeping.{total}
use duplicatefinder.Corrupt.Accounts.{corrupt_final, corrupt_final-accounts, counted, file_count}
use duplicatefinder.Corrupt.Top.{corrupt_add_all, new_corrupt_top}
use duplicatefinder.Corrupt.Runs.{AllJudged, judge_set_unstopped}
use duplicatefinder.Base.{
  ◌+◌, refl, text_eq, true, none, if◌then◌else◌, [], false, codes, some, ◌∷◌, ◌≡◌, map, Text,
}

abbrev copy_at : Text → FEnt
copy_at p = record {
  path = p;
  name = codes "a";
  dir = [];
  size = 3;
  holes = 0;
  mod_unix = 7;
  rel = [];
  link = record { dev = 0; ino = 0; n = 1 };
}

abbrev rotted : CorruptFile
rotted = record {
  f = copy_at (codes "/v/p/a");
  hash = codes "h1";
  pfx = [];
  read_err = none;
  content_changed = true;
  prior_hash = codes "h2";
}

abbrev original : CorruptFile
original = record {
  f = copy_at (codes "/v/q/a");
  hash = codes "h2";
  pfx = [];
  read_err = none;
  content_changed = false;
  prior_hash = [];
}

abbrev family : CorruptSet
family = record {
  size = 3;
  mod_unix = 7;
  files = rotted ∷ original ∷ [];
  extra = 0;
  variants = 2;
  same_name = true;
  flagged = true;
}

abbrev quiet_disk : Disk
quiet_disk = record {
  stat = λ rung f. some (3, 7);
  content = λ f. some (if text_eq f.path (codes "/v/p/a") then 1 ∷ 2 ∷ 3 ∷ [] else 1 ∷ 2 ∷ 2 ∷ []);
  verify = λ f. (unproven, []);
  cancelled = λ n. false;
  fmt_bytes = λ n. [];
}

family_disagrees : is_corrupted_set family.files ≡ true
unfolding is_corrupted_set seen_contents content_key text_eq
family_disagrees = refl

family_verdicts :
    map (λ (m : Member). m.verdict) (judge_set quiet_disk family).1
    ≡ some verdict_corrupt ∷ some verdict_intact ∷ []
unfolding judge_set any_corrupt member_at unchanged_on_disk text_eq compare_content judge_with_twins
family_verdicts = refl

judge_set-AllFair_example : AllFair quiet_disk 3 family.files (judge_set quiet_disk family).1
judge_set-AllFair_example = judge_set-AllFair quiet_disk family

judge_set_unstopped_example :
    ((judge_set quiet_disk family).0 ≡ false)
    × (map (λ (m : Member). m.file) (judge_set quiet_disk family).1 ≡ family.files)
    × AllJudged (judge_set quiet_disk family).1
judge_set_unstopped_example = judge_set_unstopped quiet_disk (λ n. refl) family

-- A budget of one row keeps the better set, cut to one of its two files.
abbrev later_family : CorruptSet
later_family = record family { flagged = false; same_name = false }

corrupt_final-accounts_example :
    total file_count
        (corrupt_final (corrupt_add_all (new_corrupt_top 1) (later_family ∷ family ∷ [])) 1).0
      + counted
          (corrupt_final (corrupt_add_all (new_corrupt_top 1) (later_family ∷ family ∷ [])) 1).1
    ≡ 4
corrupt_final-accounts_example = corrupt_final-accounts 1 (later_family ∷ family ∷ [])

one_listed :
    map file_count
      (corrupt_final (corrupt_add_all (new_corrupt_top 1) (later_family ∷ family ∷ [])) 1).0
    ≡ 1 ∷ []
unfolding corrupt_final sort_stable corrupt_add_all new_corrupt_top better_set
one_listed = refl

compare_content-Compared_example :
    Compared (1 ∷ 2 ∷ 3 ∷ []) (1 ∷ 2 ∷ 2 ∷ []) (compare_content (1 ∷ 2 ∷ 3 ∷ []) (1 ∷ 2 ∷ 2 ∷ []) 3)
compare_content-Compared_example = compare_content-Compared (1 ∷ 2 ∷ 3 ∷ []) (1 ∷ 2 ∷ 2 ∷ []) 3

one_bit : flipped (1 ∷ 2 ∷ 3 ∷ []) (1 ∷ 2 ∷ 2 ∷ []) ≡ 1
one_bit = refl
