-- ===== src/Transit.antt =====
-- The verified move between filesystems of server/transit.go. `Answers` holds what File Station
-- and the file system do and say at each call, which may fail, be lost, or damage the copy; the
-- store is where the entry's data are.
pub mod Verified
use duplicatefinder.Base.{
  all, ◌||◌, suc, ◌∷◌, ◌==◌, text_eq, not, [], length, if◌then◌else◌, none, ◌&&◌, some, false, true,
  Option, List, Bool, ℕ, Text,
}
use duplicatefinder.Vetting.{Ident, FsEntry, ident_matches}

-- `manEnt`; the type bits are a number, a regular file has 0.
pub record ManEnt : Type 0 where
  pub typ : ℕ
  pub size : ℕ
  pub mtime : ℕ
  pub hash : Text
  pub link : Text

-- `manifest`, its names distinct.
abbrev pub Manifest : Type 0
Manifest = List (Text × ManEnt)

abbrev pub entry_at : Manifest → Text → Option ManEnt
entry_at [] name = none
entry_at ((k, e) ∷ m) name = let rest = entry_at m name in if text_eq k name then some e else rest

-- The loop body of `copyMatches`, and the loop.
unfoldable pub copy_reproduces : ManEnt → Option ManEnt → Bool
copy_reproduces o none = false
copy_reproduces o (some c) =
    c.typ == o.typ
    && text_eq c.hash o.hash
    && text_eq c.link o.link
    && (not (o.typ == 0) || c.size == o.size)

unfoldable pub copy_matches : Manifest → Manifest → Bool
unfolding copy_reproduces
copy_matches orig cp =
    length orig == length cp && all (λ r. copy_reproduces r.1 (entry_at cp r.0)) orig

unfoldable pub same_entry : ManEnt → Option ManEnt → Bool
same_entry o none = false
same_entry o (some n) =
    n.typ == o.typ && n.size == o.size && n.mtime == o.mtime && text_eq n.link o.link

unfoldable pub unchanged : Manifest → Manifest → Bool
unfolding same_entry
unchanged orig now = length orig == length now && all (λ r. same_entry r.1 (entry_at now r.0)) orig

-- `transitRef`: what the copy must reproduce.
pub data TransitRef : Type 0 where
  file_ref : Text → TransitRef
  folder_ref : Manifest → TransitRef

-- The data of an entry: a file by its content hash, or a folder by its manifest.
pub data Content : Type 0 where
  file_data : Text → Content
  folder_data : Manifest → Content

-- Where the data are: at the source, at the hidden name beside it, in staging, at the destination.
pub record Store : Type 0 where
  pub src : Option Content
  pub hidden : Option Content
  pub staged : Option Content
  pub placed : Option Content

pub data Claim : Type 0 where
  claimed parked answer_lost : Claim

pub data RenameAnswer : Type 0 where
  renamed rename_refused rename_unknown : RenameAnswer

-- What every call does and answers. A status query answers none when it fails.
pub record Answers : Type 0 where
  pub staging_made : Bool
  pub copied : Option Content
  pub copy_said_ok : Bool
  pub copy_readable : Bool
  pub src_info : Option FsEntry
  pub discard_leaves : Option Content
  pub claim : Claim
  pub lost_staged : Option Content
  pub lost_placed : Option Content
  pub retire : RenameAnswer
  pub retire_happened : Bool
  pub hidden_there : Option Bool
  pub hidden_info : Option FsEntry
  pub hidden_readable : Bool
  pub delete_said_ok : Bool
  pub delete_leaves : Option Content
  pub hidden_left : Option Bool
  pub restore_said_ok : Bool
  pub restore_happened : Bool
  pub src_back : Option Bool
  pub hidden_back : Option Bool

-- `untouched`, `keptBoth`, `movedButError`, and success.
pub data Outcome : Type 0 where
  untouched kept_both moved_but moved : Outcome

-- Whether the data read back from the copy are those that left.
unfoldable pub reproduces : TransitRef → Option Content → Bool
unfolding copy_matches
reproduces (file_ref h) (some (file_data c)) = text_eq c h
reproduces (folder_ref m) (some (folder_data c)) = copy_matches m c
reproduces ref o = false

unfoldable pub still_same : TransitRef → Option Content → Bool
unfolding unchanged
still_same (file_ref h) o = true
still_same (folder_ref m) (some (folder_data now)) = unchanged m now
still_same (folder_ref m) o = false

abbrev pub said : Bool → Option Bool → Bool
said b none = false
said b (some c) = if b then c else not c

abbrev pub is_scanned : (ℕ → Text) → Ident → Option FsEntry → Bool
is_scanned fmt want none = false
is_scanned fmt want (some e) = elim (ident_matches fmt e (want ∷ [])) [
  | none ↦ false
  | some w ↦ true
]

module _ (fmt : ℕ → Text) (want : Ident) (ref : TransitRef) (a : Answers) where
  -- `discardCopy`: the staging folder goes only if the original is confirmed in place.
  unfoldable pub discard_copy : Store → Outcome × Store
  discard_copy s = (
    untouched,
    if is_scanned fmt want a.src_info then record s { staged = a.discard_leaves } else s,
  )

  abbrev pub put_back : Store → Store
  put_back s = record s { src = s.hidden; hidden = none }

  -- `restoreOriginal`.
  unfoldable pub restore_original : Store → Outcome × Store
  restore_original s =
      let s' = if a.restore_happened then put_back s else s in
      if a.restore_said_ok
      then (kept_both, put_back s)
      else if said true a.src_back && said false a.hidden_back
      then (kept_both, s')
      else (moved_but, s')

  abbrev pub hide : Store → Store
  hide s = record s { src = none; hidden = s.src }

  -- `retireOriginal` once the original stands at its hidden name.
  unfoldable pub remove_hidden : Store → Outcome × Store
  unfolding restore_original still_same
  remove_hidden s =
      let same =
        is_scanned fmt want a.hidden_info
        && still_same ref (if a.hidden_readable then s.hidden else none) in
      let deleted = record s { hidden = a.delete_leaves } in
      if not same
      then restore_original s
      else if a.delete_said_ok
      then (moved, record s { hidden = none })
      else if said false a.hidden_left
      then (moved, deleted)
      else restore_original deleted

  -- `retireOriginal`, by the answer to the rename.
  unfoldable pub retire_by : RenameAnswer → Store → Outcome × Store
  unfolding remove_hidden
  retire_by renamed s = remove_hidden (hide s)
  retire_by rename_refused s = (kept_both, s)
  retire_by rename_unknown s =
      if said true a.hidden_there
      then remove_hidden (hide s)
      else (kept_both, if a.retire_happened then hide s else s)

  unfoldable pub retire_original : Store → Outcome × Store
  unfolding retire_by
  retire_original s = retire_by a.retire s

  abbrev pub put_in_place : Store → Store
  put_in_place s = record s { placed = s.staged; staged = none }

  -- The steps behind the read-back, by the answer of `claimFromStaging`.
  unfoldable pub place_by : Claim → Store → Outcome × Store
  unfolding retire_original discard_copy
  place_by claimed s = retire_original (put_in_place s)
  place_by parked s = discard_copy s
  place_by answer_lost s = (untouched, record s { staged = a.lost_staged; placed = a.lost_placed })

  -- `transitViaFS`.
  unfoldable pub transit : Store → Outcome × Store
  unfolding place_by discard_copy reproduces
  transit s =
      let s' = record s { staged = a.copied } in
      if not a.staging_made
      then (untouched, s)
      else if not a.copy_said_ok
      then discard_copy s'
      else if not a.copy_readable
      then discard_copy s'
      else if not (reproduces ref s'.staged)
      then discard_copy s'
      else place_by a.claim s'
