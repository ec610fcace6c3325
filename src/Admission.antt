-- ===== src/Admission.antt =====
-- server/daemon.go: the exclusion of scans and moves. The state is what `mu` guards, and each
-- function is one critical section; `moveMu` lets one move at a time reach `beginMove`.
use duplicatefinder.Base.{
  some, refl, none, if◌then◌else◌, true, not, ◌&&◌, Bool, Option, arith, false, ◌≡◌,
}

-- `job.Running`, `moveActive`, and whether a move holds `moveMu`.
pub record Slots : Type 0 where
  pub running : Bool
  pub move_active : Bool
  pub move_mu : Bool

-- `scanAdmissionLocked`: the reason for a refusal, or none.
pub data Refusal : Type 0 where
  scan_running : Refusal
  move_running : Refusal

unfoldable pub scan_admission : Slots → Option Refusal
scan_admission s =
    if s.running then some scan_running else if s.move_active then some move_running else none

-- The critical section of `handleScan`.
unfoldable pub start_scan : Slots → Option Refusal × Slots
unfolding scan_admission
start_scan s = elim (scan_admission s) [
  | none ↦ (none, record s { running = true })
  | some why ↦ (some why, s)
]

-- The end of `runScan`, on every path.
unfoldable pub end_scan : Slots → Slots
end_scan s = record s { running = false }

unfoldable pub begin_move : Slots → Bool × Slots
begin_move s = if s.running then (false, s) else (true, record s { move_active = true })

unfoldable pub end_move : Slots → Slots
end_move s = record s { move_active = false }

-- What the handlers and the scan's goroutine do, one critical section at a time.
pub data Step : Slots → Slots → Type 0 where
  scan_asks : {s : Slots} → Step s (start_scan s).1
  scan_ends : {s : Slots} → s.running ≡ true → Step s (end_scan s)
  move_locks : {s : Slots} → s.move_mu ≡ false → Step s (record s { move_mu = true })
  move_asks : {s : Slots} → s.move_mu ≡ true → s.move_active ≡ false → Step s (begin_move s).1
  move_ends : {s : Slots} → s.move_mu ≡ true → Step s (end_move s)
  move_unlocks :
      {s : Slots} → s.move_mu ≡ true → s.move_active ≡ false → Step s (record s { move_mu = false })

pub data Run : Slots → Slots → Type 0 where
  stays : {s : Slots} → Run s s
  then_step : {s t u : Slots} → Run s t → Step t u → Run s u

abbrev pub idle : Slots
idle = record { running = false; move_active = false; move_mu = false }

-- A scan and a move are never both under way, and a move that acts holds the lock.
abbrev pub Exclusive : Slots → Type 0
Exclusive s = ((s.running && s.move_active) ≡ false) × ((s.move_active && not s.move_mu) ≡ false)

Step-Exclusive : {s t : Slots} → Step s t → Exclusive s → Exclusive t
unfolding start_scan scan_admission end_scan begin_move end_move
Step-Exclusive {s} scan_asks h = ground arith
Step-Exclusive {s} (scan_ends r) h = ground arith
Step-Exclusive {s} (move_locks u) h = ground arith
Step-Exclusive {s} (move_asks l a) h = ground arith
Step-Exclusive {s} (move_ends l) h = ground arith
Step-Exclusive {s} (move_unlocks l a) h = ground arith

-- In every state that the daemon reaches from idle by requests, ends of scans and ends of moves,
-- in any order, no scan runs while a move is active, and an active move holds the move lock.
pub run-Exclusive : {s t : Slots} → Run s t → s ≡ idle → Exclusive t
run-Exclusive stays e = rw e (refl, refl)
run-Exclusive (then_step r st) e = Step-Exclusive st (run-Exclusive r e)
