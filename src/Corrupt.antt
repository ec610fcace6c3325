-- ===== src/Corrupt.antt =====
-- The conflicting files of server/corrupt.go: the sets of files of one size and date whose contents
-- disagree, their order and their labels.
pub mod Difference
pub mod Compared
pub mod Judging
pub mod Shapes
pub mod Verdicts
pub mod Evidence
pub mod Convicts
pub mod Judged
pub mod Files
pub mod Whole
pub mod Runs
pub mod Top
pub mod Accounts
use duplicatefinder.Base.{
  ◌&&◌, text_lt, ◌+◌, ltb, length, ◌++◌, true, codes, text_eq, ◌==◌, leb, suc, is_nil, none, any,
  false, some, not, ◌∷◌, if◌then◌else◌, [], Option, Text, ℕ, List, Bool,
}
use duplicatefinder.Scan.Copies.{FEnt}

-- The error of a read: a stopped scan, an EIO, or any other with its text without the path.
pub data ReadErr : Type 0 where
  read_cancelled : ReadErr
  io_error : ReadErr
  read_failed : Text → ReadErr

-- A verdict that is judged; a row without one is `none`.
pub data Verdict : Type 0 where
  verdict_corrupt : Verdict
  verdict_intact : Verdict
  verdict_unknown : Verdict

-- `corruptFile` as a scan fills it in; its verdict and evidence stand beside it in `Member`.
pub record CorruptFile : Type 0 where
  pub f : FEnt
  pub hash : Text
  pub pfx : Text
  pub read_err : Option ReadErr
  pub content_changed : Bool
  pub prior_hash : Text

pub record CorruptSet : Type 0 where
  pub size : ℕ
  pub mod_unix : ℕ
  pub files : List CorruptFile
  pub extra : ℕ
  pub variants : ℕ
  pub same_name : Bool
  pub flagged : Bool

abbrev pub is_some : {A : Type 0} → Option A → Bool
is_some none = false
is_some (some a) = true

unfoldable pub rank : CorruptSet → ℕ
rank c = if c.flagged then 2 else if c.same_name then 1 else 0

abbrev pub first_file : List CorruptFile → Text
first_file [] = []
first_file (m ∷ ms) = m.f.path

unfoldable pub better_set : CorruptSet → CorruptSet → Bool
unfolding rank
better_set a b =
    if not (rank a == rank b)
    then ltb (rank b) (rank a)
    else if not (a.size == b.size)
    then ltb b.size a.size
    else text_lt (first_file a.files) (first_file b.files)

-- A variant's key in the map: `e:`, `p:` or the hash itself.
unfoldable pub content_key : CorruptFile → Text
content_key m = if not (is_nil m.hash) then m.hash else codes "p:" ++ m.pfx

abbrev pub add_key : Text → List Text → List Text
add_key k ks = if any (text_eq k) ks then ks else k ∷ ks

-- What the loop over a family finds; `none` where it returns false on a cancelled read.
unfoldable pub seen_contents : List Text → ℕ → List CorruptFile → Option (List Text × ℕ)
unfolding content_key
seen_contents seen unreadable [] = some (seen, unreadable)
seen_contents seen unreadable (m ∷ ms) = elim m.read_err [
  | none ↦ seen_contents (add_key (content_key m) seen) unreadable ms
  | some read_cancelled ↦ none
  | some io_error ↦ seen_contents seen (suc unreadable) ms
  | some (read_failed why) ↦ seen_contents seen (suc unreadable) ms
]

unfoldable pub is_corrupted_set : List CorruptFile → Bool
unfolding seen_contents
is_corrupted_set ms = elim (seen_contents [] 0 ms) [
  | none ↦ false
  | some (seen, unreadable) ↦ leb 2 (length seen + unreadable) && leb 2 (length ms)
]

unfoldable pub verdict_label : Option Verdict → Text
verdict_label (some verdict_corrupt) = codes "Corrupted"
verdict_label (some verdict_intact) = codes "Intact"
verdict_label (some verdict_unknown) = codes "Undetermined"
verdict_label none = []
