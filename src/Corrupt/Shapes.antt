-- ===== src/Corrupt/Shapes.antt =====
-- `judgeShape` and `judgePast` of server/corrupt.go: what the shape of a difference says.
use duplicatefinder.Corrupt.{verdict_corrupt, verdict_intact, CorruptFile}
use duplicatefinder.Corrupt.Judging.{history_note, judge_with_twins, Disk, Member}
use duplicatefinder.Corrupt.Difference.{
  DiffKind, bool_eq, zeros, tail, bitflip, mixed, first_side, second_side, neither, compare_content,
  side_eq, describe, DiffShape, ZeroSide,
}
use duplicatefinder.Base.{
  leb, text_eq, is_nil, some, ◌&&◌, none, ◌++◌, codes, true, if◌then◌else◌, Option, false, not,
  Text, ℕ, List, Bool,
}

abbrev pub former_note : Text
former_note = codes "the other copy holds exactly what this file used to contain"

abbrev pub bit_rot_note : Text
bit_rot_note = codes ", and " ++ history_note ++ codes " — bit rot"

-- Side `1 - z`.
abbrev pub other_side : ZeroSide → ZeroSide
other_side first_side = second_side
other_side second_side = first_side
other_side neither = neither

abbrev pub is_second : ZeroSide → Bool
is_second second_side = true
is_second _ = false

-- Two notes without a verdict, on `a` and then on `b`.
abbrev pub note_both : ℕ → ℕ → Text → Text → List Member → List Member
note_both a b note_a note_b ms = judge_with_twins b none note_b (judge_with_twins a none note_a ms)

module _ (disk : Disk) where
  -- The side is read for zeros alone.
  abbrev pub shown : DiffShape → ZeroSide → Text
  shown = describe disk.fmt_bytes

  unfoldable pub judge_zeros : DiffShape → ℕ → ℕ → List Member → List Member
  judge_zeros d lost kept ms =
      judge_with_twins kept (some verdict_intact) (shown d (other_side d.zero_side))
        (judge_with_twins lost (some verdict_corrupt) (shown d d.zero_side) ms)

  unfoldable pub judge_bit_rot :
      DiffShape → ℕ → ℕ → CorruptFile → CorruptFile → List Member → List Member
  judge_bit_rot d rotted other mr mo ms =
      let judged =
        judge_with_twins rotted (some verdict_corrupt) (shown d neither ++ bit_rot_note) ms in
      if not (is_nil mr.prior_hash) && text_eq mo.hash mr.prior_hash
      then judge_with_twins other (some verdict_intact)
          (codes "holds exactly the content the damaged copy had before it changed") judged
      else judge_with_twins other none (shown d neither) judged

  abbrev pub spread_note : Bool → Text → Text
  spread_note changed note =
      if changed
      then note
        ++ codes "; "
        ++ history_note
        ++ codes
            " — a spread of changed bytes is an edit that kept its timestamp rather than damage; check the file"
      else note

  -- Of the files `ma` at `a` and `mb` at `b`, by the kind of their difference.
  abbrev pub shape_label :
      DiffShape → ℕ → ℕ → Member → Member → List Member → DiffKind → List Member
  shape_label d a b ma mb ms zeros =
      if is_second d.zero_side then judge_zeros d b a ms else judge_zeros d a b ms
  shape_label d a b ma mb ms tail =
      if is_second d.zero_side then judge_zeros d b a ms else judge_zeros d a b ms
  shape_label d a b ma mb ms bitflip =
      if bool_eq ma.changed mb.changed
      then note_both a b (shown d neither) (shown d neither) ms
      else if mb.changed
      then judge_bit_rot d b a mb.file ma.file ms
      else judge_bit_rot d a b ma.file mb.file ms
  shape_label d a b ma mb ms mixed =
      note_both a b (spread_note ma.changed (shown d neither))
        (spread_note mb.changed (shown d neither)) ms

  unfoldable pub judge_shape : DiffShape → ℕ → ℕ → Member → Member → List Member → List Member
  unfolding judge_zeros judge_bit_rot
  judge_shape d a b ma mb ms = shape_label d a b ma mb ms d.kind

  abbrev pub convict_past : ℕ → ℕ → Text → List Member → List Member
  convict_past i j why ms =
      judge_with_twins j (some verdict_intact) former_note
        (judge_with_twins i (some verdict_corrupt) why ms)

  abbrev pub past_note : DiffShape → Text
  past_note d =
      shown d first_side
      ++ codes "; "
      ++ history_note
      ++ codes ", and "
      ++ former_note
      ++ (if leb d.bytes 64
          then codes
              " — a small edit that kept its timestamp, or damage; compare the copies before deleting either"
          else codes
              " — a spread of changed bytes is an edit that kept its timestamp rather than damage")

  abbrev pub past_zeros : DiffShape → ℕ → ℕ → List Member → List Member
  past_zeros d i j ms =
      if side_eq d.zero_side first_side
      then convict_past i j (shown d first_side ++ codes "; " ++ history_note) ms
      else judge_with_twins i none (past_note d) ms

  abbrev pub past_label : DiffShape → ℕ → ℕ → List Member → DiffKind → List Member
  past_label d i j ms zeros = past_zeros d i j ms
  past_label d i j ms tail = past_zeros d i j ms
  past_label d i j ms bitflip = convict_past i j (shown d first_side ++ bit_rot_note) ms
  past_label d i j ms mixed = judge_with_twins i none (past_note d) ms

  unfoldable pub judge_past : DiffShape → ℕ → ℕ → List Member → List Member
  judge_past d i j ms = past_label d i j ms d.kind

  -- `media.CompareContent` of two files; an error is `none`, as no difference is.
  unfoldable pub compare_files : ℕ → CorruptFile → CorruptFile → Option DiffShape
  compare_files size x y = elim (disk.content x.f) [
    | none ↦ none
    | some a ↦ elim (disk.content y.f) [ none ↦ none | some b ↦ compare_content a b size ]
  ]
