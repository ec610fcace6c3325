-- ===== src/Examples/Transit.antt =====
-- A file that moves to another filesystem: server/transit.go.
use duplicatefinder.Transit.Verified.{transit-Promises, Promises}
use duplicatefinder.Base.{refl, false, ◌≡◌, codes, text_eq, none, some, true}
use duplicatefinder.Examples.Moves.{seen_a, on_disk_a, no_time}
use duplicatefinder.Transit.{
  kept_both, retire_by, renamed, claimed, retire_original, file_ref, place_by, file_data,
  rename_unknown, Content, reproduces, transit, Answers, Store,
}

abbrev photo : Content
photo = file_data (codes "h")

abbrev before : Store
before = record { src = some photo; hidden = none; staged = none; placed = none }

-- Every call does what it should.
abbrev smooth : Answers
smooth = record {
  staging_made = true;
  copied = some photo;
  copy_said_ok = true;
  copy_readable = true;
  src_info = some on_disk_a;
  discard_leaves = none;
  claim = claimed;
  lost_staged = none;
  lost_placed = none;
  retire = renamed;
  retire_happened = true;
  hidden_there = some true;
  hidden_info = some on_disk_a;
  hidden_readable = true;
  delete_said_ok = true;
  delete_leaves = none;
  hidden_left = some false;
  restore_said_ok = true;
  restore_happened = true;
  src_back = some true;
  hidden_back = some false;
}

-- The copy is damaged on its way.
abbrev damaged : Answers
damaged = record smooth { copied = some (file_data (codes "x")) }

transit-Promises_example :
    Promises
      (file_ref (codes "h"))
      before
      (transit no_time seen_a (file_ref (codes "h")) damaged before)
transit-Promises_example = transit-Promises no_time seen_a (file_ref (codes "h")) damaged before

-- The rename's answer and the status query behind it are both lost, though the rename happened.
abbrev lost_twice : Answers
lost_twice = record smooth { retire = rename_unknown; hidden_there = none }

kept_both_but_hidden :
    transit no_time seen_a (file_ref (codes "h")) lost_twice before
    ≡ (kept_both, record { src = none; hidden = some photo; staged = none; placed = some photo })
unfolding transit place_by retire_original retire_by reproduces text_eq
kept_both_but_hidden = refl
