-- ===== src/Examples/Scans.antt =====
-- Small scans: server/stream.go, server/scan.go, server/emptyfolders.go and server/daemon.go.
use duplicatefinder.Scan.Roots.{resolve_roots, scan_roots}
use duplicatefinder.Examples.{pair}
use duplicatefinder.KeyCounter.Complete.{hot-after, after}
use duplicatefinder.Admission.{
  move_asks, move_locks, scan_asks, stays, then_step, Slots, scan_admission, run-Exclusive, idle,
  start_scan, begin_move, Exclusive,
}
use duplicatefinder.Scan.Tools.{ScanReq}
use duplicatefinder.EmptyFolders.{new_scan, visit, Entry, DirEnt, EmptyFolderScan}
use duplicatefinder.Scan.Caps.{cap_duplicate_groups-Caps, Accounts, cap_duplicate_groups, Caps}
use duplicatefinder.Scan.Roots.Apart.{scan_roots-Apart, AllCovered, Apart}
use duplicatefinder.Scan.Junk.{JunkInfo}
use duplicatefinder.Scan.Copies.{FEnt}
use duplicatefinder.Base.{
  arith, text_eq, refl, not, false, [], some, true, ◌∷◌, codes, Bool, Option, ◌≡◌, List, Text,
}
use duplicatefinder.KeyCounter.{hot, Limits}

-- One key is counted exactly, the second one moves the counts to a table of 16 slots.
abbrev small : Limits
small = record { exact_max = 1; tab_bits = 4 }

hot-after_example : hot (after small 0 (7 ∷ 5 ∷ 7 ∷ [])) 7 ≡ true
hot-after_example = hot-after small 0 (7 ∷ 5 ∷ 7 ∷ []) 7 (omega arith)

-- A scan starts, a move takes the lock and is refused.
abbrev locked : Slots
locked = record (start_scan idle).1 { move_mu = true }

run-Exclusive_example : Exclusive (begin_move locked).1
unfolding start_scan scan_admission
run-Exclusive_example =
    run-Exclusive
      (then_step (then_step (then_step stays scan_asks) (move_locks refl)) (move_asks refl refl))
      refl

abbrev no_links : Text → Option Text
no_links d = some d

abbrev roots : List Text
roots = codes "/v/p" ∷ codes "/v" ∷ codes "/v" ∷ []

scan_roots-Apart_example :
    Apart true (scan_roots no_links true roots).0
    × AllCovered true (scan_roots no_links true roots).0 (resolve_roots no_links roots).0
scan_roots-Apart_example = scan_roots-Apart no_links true roots

abbrev photo : Entry
photo = record { path = codes "/v/p/a"; name = codes "a"; size = 1; mod_time = 0; is_dir = false }

abbrev not_p : DirEnt → Bool
not_p d = not (text_eq d.path (codes "/v/p"))

abbrev in_p : EmptyFolderScan
in_p = visit new_scan 0 (record photo { path = codes "/v/p"; name = codes "p"; is_dir = true })

cap_duplicate_groups-Caps_example :
    Caps 1 (pair ∷ pair ∷ []) (cap_duplicate_groups (pair ∷ pair ∷ []) 1).0
    × Accounts 1
        (pair ∷ pair ∷ [])
        (cap_duplicate_groups (pair ∷ pair ∷ []) 1).0
        (cap_duplicate_groups (pair ∷ pair ∷ []) 1).1
cap_duplicate_groups-Caps_example = cap_duplicate_groups-Caps (pair ∷ pair ∷ []) 1

abbrev two_tools : ScanReq
two_tools = record {
  tool = codes "temp_files";
  tools = codes "duplicates" ∷ codes "temp_files" ∷ [];
}

abbrev in_order_tools : List Text
in_order_tools = codes "temp_files" ∷ codes "duplicates" ∷ []

abbrev linked : FEnt
linked = record {
  path = codes "/v/a";
  name = codes "a";
  dir = codes "/v";
  size = 4;
  holes = 0;
  mod_unix = 7;
  rel = codes "a";
  link = record { dev = 1; ino = 9; n = 2 };
}

abbrev one_junk : JunkInfo
one_junk = record { n = 1; bytes = 4; ex = codes "._a" ∷ [] }
