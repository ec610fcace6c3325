-- ===== src/Corrupt/Verdicts.antt =====
-- Rung 4 of `judgeSet` of server/corrupt.go, and the whole of it.
use duplicatefinder.Corrupt.Shapes.{compare_files, judge_shape, judge_past}
use duplicatefinder.Corrupt.{verdict_intact, verdict_unknown, CorruptSet, is_some}
use duplicatefinder.Corrupt.Judging.{
  new_member, representatives_from, history_note, judge_read, containers_from, is_proven,
  any_corrupt, member_at, judge_history, Disk, Member,
}
use duplicatefinder.Base.{
  ◌+◌, length, text_eq, ◌*◌, is_nil, [], ◌==◌, ◌||◌, some, ◌&&◌, none, suc, ◌++◌, codes, map, ◌∷◌,
  true, if◌then◌else◌, Option, false, not, Text, ℕ, List, Bool,
}

-- The first other member that holds the content `h`.
unfoldable pub former_from : ℕ → Text → ℕ → List Member → Option ℕ
former_from i h k [] = none
former_from i h k (t ∷ ts) =
    let rest = former_from i h (suc k) ts in
    if k == i || is_some t.file.read_err || not (text_eq t.file.hash h) then rest else some k

abbrev pub indexes_from : ℕ → List Member → List ℕ
indexes_from k [] = []
indexes_from k (m ∷ ms) = k ∷ indexes_from (suc k) ms

abbrev pub skips_past : Member → Bool
skips_past m = not m.changed || is_some m.verdict || is_nil m.file.prior_hash

module _ (disk : Disk) where
  abbrev pub past_with : ℕ → ℕ → Member → List Member → ℕ → List Member
  past_with size i m ms j = elim (member_at j ms) [
    | none ↦ ms
    | some t ↦ elim (compare_files disk size m.file t.file) [
      | none ↦ ms
      | some d ↦ judge_past disk d i j ms
    ]
  ]

  -- One turn of the loop over the past; `none` where the scan was stopped.
  unfoldable pub past_one : ℕ → ℕ → List Member → Option (List Member)
  unfolding judge_past compare_files former_from
  past_one size i ms = elim (member_at i ms) [
    | none ↦ some ms
    | some m ↦ if skips_past m then some ms else elim (former_from i m.file.prior_hash 0 ms) [
      | none ↦ some ms
      | some j ↦ if disk.cancelled (2 * length ms + i) then none else some (past_with size i m ms j)
    ]
  ]

  unfoldable pub past_from : ℕ → List ℕ → List Member → Bool × List Member
  unfolding past_one
  past_from size [] ms = (false, ms)
  past_from size (i ∷ is) ms = elim (past_one size i ms) [
    | none ↦ (true, ms)
    | some after ↦ past_from size is after
  ]

  unfoldable pub judge_pair : ℕ → ℕ → ℕ → List Member → List Member
  unfolding judge_shape compare_files
  judge_pair size a b ms = elim (member_at a ms) [
    | none ↦ ms
    | some ma ↦ elim (member_at b ms) [
      | none ↦ ms
      | some mb ↦
          if not (is_nil ma.evidence && is_nil mb.evidence)
          then ms
          else elim (compare_files disk size ma.file mb.file) [
            | none ↦ ms
            | some d ↦ judge_shape disk d a b ma mb ms
          ]
    ]
  ]

  -- The two contents of a set, against each other.
  unfoldable pub judge_two : CorruptSet → List Member → List Member
  unfolding judge_pair
  judge_two c ms =
      if any_corrupt ms || not (c.variants == 2)
      then ms
      else elim (representatives_from 0 ms) [ none ↦ ms | some (a, b) ↦ judge_pair c.size a b ms ]

abbrev pub uncorroborated : Member → Text
uncorroborated m =
    if is_proven m.checked
    then history_note
      ++ codes ", but "
      ++ m.proof
      ++ codes " — an edit that preserved the timestamp, not damage"
    else history_note
      ++ codes
          " — this file carries no checksum to tell an edit that kept its timestamp from damage; compare the copies before deleting either"

-- History that nothing corroborated.
unfoldable pub settle_history : Member → Member
settle_history m = if is_some m.verdict || not m.changed then m else record m {
  verdict = some verdict_unknown;
  evidence = if is_nil m.evidence then uncorroborated m else m.evidence;
}

unfoldable pub settle_intact : Member → Member
settle_intact m =
    if not (is_some m.verdict) && is_proven m.checked
    then record m {
      verdict = some verdict_intact;
      evidence =
          if is_nil m.evidence
          then m.proof ++ codes ", and another copy in this set is damaged"
          else m.evidence;
    }
    else m

unfoldable pub settle_rest : Member → Member
settle_rest m = if is_some m.verdict then m else record m { verdict = some verdict_unknown }

unfoldable pub settle : List Member → List Member
unfolding settle_history settle_intact settle_rest
settle ms =
    let noted = map settle_history ms in
    map settle_rest (if any_corrupt noted then map settle_intact noted else noted)

module _ (disk : Disk) where
  abbrev pub judge_rest : CorruptSet → Bool × List Member → Bool × List Member
  judge_rest c (true, ms) = (true, ms)
  judge_rest c (false, ms) = (false, settle (judge_two disk c ms))

  abbrev pub judge_differences : CorruptSet → Bool × List Member → Bool × List Member
  judge_differences c (true, ms) = (true, ms)
  judge_differences c (false, ms) =
      judge_rest c
        (if any_corrupt ms then (false, ms) else past_from disk c.size (indexes_from 0 ms) ms)

  -- The flag tells that the scan was stopped, which drops the set.
  unfoldable pub judge_set : CorruptSet → Bool × List Member
  unfolding judge_history containers_from judge_read judge_two settle past_from
  judge_set c =
      judge_differences c (
        containers_from disk 0 (map (judge_history disk) (map judge_read (map new_member c.files))))
