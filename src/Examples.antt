-- ===== src/Examples.antt =====
-- Runs of the theorems on small stored results.
mod Moves
mod Pages
mod Scans
mod Transit
mod Streams
mod Conflicts
mod Store
use duplicatefinder.Base.{none, false, [], ◌∷◌, codes, Text}
use duplicatefinder.Model.{FileEnt, Group}

abbrev pub row : Text → Text → FileEnt
row d name = record {
  id = name;
  name = name;
  dir = d;
  size = 10;
  mod_time = codes "2024-05-01 10:00:00";
  mod_unix = 0;
  created = [];
  captured = [];
  hash = codes "h";
  pfx = [];
  ext = codes "JPG";
  is_dir = false;
  verdict = [];
  evidence = [];
  no_move = false;
  links = 0;
  ino = [];
  alloc = none;
  junk = 0;
  junk_ex = [];
  out = false;
  prot = false;
}

abbrev pub file_a : FileEnt
file_a = row (codes "/v/p") (codes "a")

abbrev pub file_b : FileEnt
file_b = row (codes "/v/p") (codes "b")

abbrev pub pair : Group
pair = record {
  id = codes "g1";
  ext = codes "JPG";
  size = 10;
  hash = codes "h";
  files = file_a ∷ file_b ∷ [];
  mod_time = [];
  variants = 0;
  same_name = false;
  count = 0;
  copies = 0;
  prot = 0;
  reclaim = 0;
}
