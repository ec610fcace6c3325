-- ===== src/EmptyFolders/Safety.antt =====
-- What `emptyFolderScan` of server/emptyfolders.go offers behind a file.
use duplicatefinder.Base.{All, true, ◌≡◌, all, Bool}
use duplicatefinder.EmptyFolders.{EmptyFolderScan, DirEnt, Frame}

module _ (p : DirEnt → Bool) where
  -- What a frame holds back passes the test.
  abbrev pub Holds : Frame → Type 0
  Holds f = all p f.empties ≡ true

  -- All that is offered or held back passes the test.
  abbrev pub AllPass : EmptyFolderScan → Type 0
  AllPass e = (all p e.offered ≡ true) × All Holds e.stack
