-- ===== src/Corrupt/Runs.antt =====
-- `judgeSet` of server/corrupt.go runs to its end where no check of the channel stops it.
use duplicatefinder.Corrupt.Whole.{judge_set-files}
use duplicatefinder.Corrupt.{CorruptSet, is_some}
use duplicatefinder.Corrupt.Judging.{
  new_member, judge_read, judge_history, containers_from, any_corrupt, Disk, Member,
}
use duplicatefinder.Corrupt.Verdicts.{
  indexes_from, settle_intact, judge_two, settle_history, past_from, judge_differences, past_one,
  judge_rest, settle, settle_rest, judge_set,
}
use duplicatefinder.Base.{
  length, suc, inr, inl, ◌+◌, refl, ◌*◌, Bool-cases, Option-cases, some, arith, [], ◌∷◌, true, map,
  if◌then◌else◌, false, ◌≡◌, all, ℕ, List, Bool,
}

-- Every file has a verdict.
pub AllJudged : List Member → Type 0
AllJudged ms = all (λ (m : Member). is_some m.verdict) ms ≡ true

settle_rest-judges : (ms : List Member) → AllJudged (map settle_rest ms)
unfolding AllJudged settle_rest
settle_rest-judges [] = refl
settle_rest-judges (m ∷ ms) = ground (arith, settle_rest-judges ms)

settle-AllJudged : (ms : List Member) → AllJudged (settle ms)
unfolding settle
settle-AllJudged ms = settle_rest-judges (
    if any_corrupt (map settle_history ms)
    then map settle_intact (map settle_history ms)
    else map settle_history ms)

module _ (disk : Disk) (runs : (n : ℕ) → disk.cancelled n ≡ false) where
  containers_from_runs : (k : ℕ) (ms : List Member) → (containers_from disk k ms).0 ≡ false
  unfolding containers_from
  containers_from_runs k [] = refl
  containers_from_runs k (m ∷ ms) =
      ground (arith, runs (2 * k), runs (2 * k + 1), containers_from_runs (suc k) ms)

  past_one_runs :
      (size i : ℕ) (ms : List Member)
      → (after : List Member) × (past_one disk size i ms ≡ some after)
  unfolding past_one
  past_one_runs size i ms = elim (Option-cases (past_one disk size i ms)) [
    | inr found ↦ found
    | inl stopped ↦ absurd (ground (arith, stopped, runs (2 * length ms + i)))
  ]

  past_from_runs :
      (size : ℕ) (is : List ℕ) (ms : List Member) → (past_from disk size is ms).0 ≡ false
  unfolding past_from
  past_from_runs size [] ms = refl
  past_from_runs size (i ∷ is) ms =
      let (after, e) = past_one_runs size i ms in rw (e, past_from) (past_from_runs size is after)

  -- What a stage returns that was not stopped.
  Completes : Bool × List Member → Type 0
  Completes r = (r.0 ≡ false) × AllJudged r.1

  judge_rest-Completes :
      (c : CorruptSet) (r : Bool × List Member) → r.0 ≡ false → Completes (judge_rest disk c r)
  unfolding Completes
  judge_rest-Completes c (true, ms) e = cc
  judge_rest-Completes c (false, ms) e = (refl, settle-AllJudged (judge_two disk c ms))

  judge_differences-Completes :
      (c : CorruptSet) (r : Bool × List Member)
      → r.0 ≡ false
      → Completes (judge_differences disk c r)
  judge_differences-Completes c (true, ms) e = absurd (ground (arith, e))
  judge_differences-Completes c (false, ms) e = elim (Bool-cases (any_corrupt ms)) [
    | inl a ↦ rw a (judge_rest-Completes c (false, ms) refl)
    | inr a ↦ rw a (
        judge_rest-Completes c (past_from disk c.size (indexes_from 0 ms) ms)
          (past_from_runs c.size (indexes_from 0 ms) ms))
  ]

  judge_set-Completes : (c : CorruptSet) → Completes (judge_set disk c)
  unfolding judge_set
  judge_set-Completes c =
      judge_differences-Completes c
        (containers_from disk 0
          (map (judge_history disk) (map judge_read (map new_member c.files))))
        (containers_from_runs 0
          (map (judge_history disk) (map judge_read (map new_member c.files))))

  -- If no check of the channel stops the scan, the ladder of a set reaches its end, and the files
  -- that it leaves are those of the set, in their order, each with a verdict.
  pub judge_set_unstopped :
      (c : CorruptSet)
      → ((judge_set disk c).0 ≡ false)
        × (map (λ (m : Member). m.file) (judge_set disk c).1 ≡ c.files)
        × AllJudged (judge_set disk c).1
  unfolding Completes
  judge_set_unstopped c =
      let (ends, judged) = judge_set-Completes c in (ends, judge_set-files disk c, judged)
