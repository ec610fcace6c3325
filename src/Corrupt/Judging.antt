-- ===== src/Corrupt/Judging.antt =====
-- The first three rungs of `judgeSet` of server/corrupt.go, and `judgeWithTwins`. The loops
-- keep the array's order and indexes; the slices `changed`, `checked` and `proof` stand in the
-- members. What the disk, the validators and the cancel channel answer is an argument.
use duplicatefinder.Corrupt.{
  ReadErr, verdict_corrupt, verdict_unknown, read_cancelled, io_error, read_failed, CorruptFile,
  Verdict, is_some,
}
use duplicatefinder.Base.{
  ◌+◌, zero, text_eq, ◌*◌, is_nil, suc, ◌||◌, ◌∷◌, some, ◌&&◌, [], ◌++◌, codes, any, if◌then◌else◌,
  true, none, Option, false, not, ◌==◌, Text, ℕ, List, Bool,
}
use duplicatefinder.Scan.Copies.{FEnt}

pub data Intactness : Type 0 where
  unproven : Intactness
  proven : Intactness
  damaged : Intactness

-- `stat r` and `content` are what opening a file gives on rung `r` and in a comparison, `none` an
-- error; `verify` is `media.VerifyContent`; `cancelled n` answers the check of the channel numbered
-- `n`, which the place of the check gives.
pub record Disk : Type 0 where
  pub stat : ℕ → FEnt → Option (ℕ × ℕ)
  pub content : FEnt → Option (List ℕ)
  pub verify : FEnt → Intactness × Text
  pub cancelled : ℕ → Bool
  pub fmt_bytes : ℕ → Text

pub record Member : Type 0 where
  pub file : CorruptFile
  pub changed : Bool
  pub checked : Intactness
  pub proof : Text
  pub verdict : Option Verdict
  pub evidence : Text

abbrev pub new_member : CorruptFile → Member
new_member e = record {
  file = e;
  changed = false;
  checked = unproven;
  proof = [];
  verdict = none;
  evidence = [];
}

abbrev pub history_note : Text
history_note =
    codes "its content changed since an earlier scan although its size and modified time did not"

abbrev pub is_proven : Intactness → Bool
is_proven proven = true
is_proven _ = false

abbrev pub is_damaged : Intactness → Bool
is_damaged damaged = true
is_damaged _ = false

abbrev pub convicted : Option Verdict → Bool
convicted (some verdict_corrupt) = true
convicted _ = false

unfoldable pub any_corrupt : List Member → Bool
any_corrupt ms = any (λ m. convicted m.verdict) ms

abbrev pub read_label : Member → Option ReadErr → Member
read_label m none = m
read_label m (some io_error) = record m {
  verdict = some verdict_corrupt;
  evidence =
      codes
        "could not be read — the drive reported an I/O error on two attempts, so the stored bytes cannot be read back";
}
read_label m (some read_cancelled) = record m {
  verdict = some verdict_unknown;
  evidence = codes "could not be read: cancelled";
}
read_label m (some (read_failed why)) = record m {
  verdict = some verdict_unknown;
  evidence = codes "could not be read: " ++ why;
}

-- Rung 1.
unfoldable pub judge_read : Member → Member
judge_read m = read_label m m.file.read_err

-- One member and every unjudged one of the same bytes; `h` is the hash of the file at `i`.
abbrev pub twin_label : ℕ → Text → Option Verdict → Text → ℕ → Member → Member
twin_label i h v ev k m =
    if is_some m.verdict
    then m
    else if k == i || (not (is_nil h) && not (is_some m.file.read_err) && text_eq m.file.hash h)
    then record m { verdict = v; evidence = ev }
    else m

unfoldable pub twins_from : ℕ → Text → Option Verdict → Text → ℕ → List Member → List Member
twins_from i h v ev k [] = []
twins_from i h v ev k (m ∷ ms) = twin_label i h v ev k m ∷ twins_from i h v ev (suc k) ms

-- `c.files[i]`; the indexes of the code are in range.
unfoldable pub member_at : ℕ → List Member → Option Member
member_at i [] = none
member_at zero (m ∷ ms) = some m
member_at (suc i) (m ∷ ms) = member_at i ms

unfoldable pub judge_with_twins : ℕ → Option Verdict → Text → List Member → List Member
unfolding twins_from member_at
judge_with_twins i v ev ms = elim (member_at i ms) [
  | none ↦ ms
  | some m ↦ twins_from i m.file.hash v ev 0 ms
]

-- The first two readable members of different contents.
abbrev pub readable : Member → Bool
readable m = not (is_some m.file.read_err || is_nil m.file.hash)

unfoldable pub other_from : ℕ → Text → ℕ → List Member → Option (ℕ × ℕ)
other_from a h k [] = none
other_from a h k (m ∷ ms) =
    let rest = other_from a h (suc k) ms in
    if readable m && not (text_eq m.file.hash h) then some (a, k) else rest

unfoldable pub representatives_from : ℕ → List Member → Option (ℕ × ℕ)
unfolding other_from
representatives_from k [] = none
representatives_from k (m ∷ ms) =
    let rest = representatives_from (suc k) ms in
    if readable m then other_from k m.file.hash (suc k) ms else rest

abbrev pub same_size_mod : FEnt → ℕ × ℕ → Bool
same_size_mod f st = st.0 == f.size && st.1 == f.mod_unix

module _ (disk : Disk) where
  unfoldable pub unchanged_on_disk : ℕ → FEnt → Bool
  unchanged_on_disk rung f = elim (disk.stat rung f) [ none ↦ false | some st ↦ same_size_mod f st ]

  -- Rung 2.
  unfoldable pub judge_history : Member → Member
  judge_history m = record m {
    changed = not (is_some m.verdict) && m.file.content_changed && unchanged_on_disk 2 m.file.f;
  }

  abbrev with_history : Bool → Text → Text
  with_history changed why = if changed then why ++ codes "; " ++ history_note else why

  -- Rung 3, of a member that was read.
  unfoldable pub judge_container : Member → Member
  judge_container m =
      let st = disk.verify m.file.f in
      let n = record m { checked = st.0; proof = st.1 } in
      if not (is_damaged st.0) || is_some m.verdict
      then n
      else if not (unchanged_on_disk 3 m.file.f)
      then record n {
        verdict = some verdict_unknown;
        evidence = codes "changed on disk while the scan was reading it — scan again";
      }
      else record n { verdict = some verdict_corrupt; evidence = with_history m.changed st.1 }

  -- The flag tells that the scan was stopped.
  unfoldable pub containers_from : ℕ → List Member → Bool × List Member
  unfolding judge_container
  containers_from k [] = (false, [])
  containers_from k (m ∷ ms) =
      let rest = containers_from (suc k) ms in
      if disk.cancelled (2 * k)
      then (true, m ∷ ms)
      else if is_some m.file.read_err
      then (rest.0, m ∷ rest.1)
      else if disk.cancelled (2 * k + 1)
      then (true, m ∷ ms)
      else (rest.0, judge_container m ∷ rest.1)
