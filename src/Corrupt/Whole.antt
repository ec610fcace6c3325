-- ===== src/Corrupt/Whole.antt =====
-- `judgeSet` of server/corrupt.go leaves the files of a set, in their order.
use duplicatefinder.Corrupt.Files.{
  files_of-new, shape_label-files, judge_read-file, files_of-map, past_label-files,
  containers_from-files, settle-files, files_of-if, files_of,
}
use duplicatefinder.Corrupt.Shapes.{compare_files, judge_shape, judge_past}
use duplicatefinder.Corrupt.{CorruptSet}
use duplicatefinder.Corrupt.Judging.{
  representatives_from, containers_from, judge_read, member_at, any_corrupt, judge_history, Disk,
  Member, new_member,
}
use duplicatefinder.Corrupt.Verdicts.{
  former_from, skips_past, indexes_from, past_with, judge_rest, judge_differences, judge_pair,
  past_one, past_from, judge_two, judge_set,
}
use duplicatefinder.Base.{
  ◌+◌, length, ◌*◌, ◌&&◌, ◌==◌, is_nil, refl, false, not, arith, [], ◌||◌, ap, inr, true, inl, ◌∙◌,
  map, ◌∷◌, Bool-cases, some, Option-cases, ◌≡◌, ℕ, List, Bool,
}

module _ (disk : Disk) where
  past_with-files :
      (size i j : ℕ) (m : Member) (ms : List Member)
      → files_of (past_with disk size i m ms j) ≡ files_of ms
  unfolding judge_past
  past_with-files size i j m ms = elim (Option-cases (member_at j ms)) [
    | inl gone ↦ rw (gone, past_with) refl
    | inr (t, there) ↦
        rw (there, past_with)
          (elim (Option-cases (compare_files disk size m.file t.file)) [
            | inl same ↦ rw same refl
            | inr (d, found) ↦ rw found (past_label-files disk d i j ms d.kind)
          ])
  ]

  past_one-files :
      (size i : ℕ) (ms after : List Member)
      → past_one disk size i ms ≡ some after
      → files_of after ≡ files_of ms
  unfolding past_one
  past_one-files size i ms after h = elim (Option-cases (member_at i ms)) [
    | inl e ↦ ap files_of (ground (arith, h, e))
    | inr (m, e) ↦ elim (Bool-cases (skips_past m)) [
      | inl s ↦ ap files_of (ground (arith, h, e, s))
      | inr s ↦ elim (Option-cases (former_from i m.file.prior_hash 0 ms)) [
        | inl n ↦ ap files_of (ground (arith, h, e, s, n))
        | inr (j, f) ↦ elim (Bool-cases (disk.cancelled (2 * length ms + i))) [
          | inl c ↦ absurd (ground (arith, h, e, s, f, c))
          | inr c ↦
              let same : after ≡ past_with disk size i m ms j = ground (arith, h, e, s, f, c) in
              ap files_of same ∙ past_with-files size i j m ms
        ]
      ]
    ]
  ]

  past_from-files :
      (size : ℕ) (is : List ℕ) (ms : List Member)
      → files_of (past_from disk size is ms).1 ≡ files_of ms
  unfolding past_from
  past_from-files size [] ms = refl
  past_from-files size (i ∷ is) ms = elim (Option-cases (past_one disk size i ms)) [
    | inl e ↦ rw (e, past_from) refl
    | inr (after, e) ↦
        rw (e, past_from) (past_from-files size is after ∙ past_one-files size i ms after e)
  ]

  judge_pair-files :
      (size i j : ℕ) (ms : List Member) → files_of (judge_pair disk size i j ms) ≡ files_of ms
  unfolding judge_pair judge_shape
  judge_pair-files size i j ms = elim (Option-cases (member_at i ms)) [
    | inl e ↦ rw (e, judge_pair) refl
    | inr (m, e) ↦
        rw (e, judge_pair)
          (elim (Option-cases (member_at j ms)) [
            | inl f ↦ rw (f, judge_pair) refl
            | inr (n, f) ↦
                rw (f, judge_pair)
                  (files_of-if (not (is_nil m.evidence && is_nil n.evidence)) _ _ (files_of ms) refl
                    (elim (Option-cases (compare_files disk size m.file n.file)) [
                      | inl same ↦ rw same refl
                      | inr (d, found) ↦ rw found (shape_label-files disk d i j m n ms d.kind)
                    ]))
          ])
  ]

  module _ (c : CorruptSet) where
    judge_two-files : (ms : List Member) → files_of (judge_two disk c ms) ≡ files_of ms
    unfolding judge_two
    judge_two-files ms =
        files_of-if (any_corrupt ms || not (c.variants == 2)) _ _ (files_of ms) refl
          (elim (Option-cases (representatives_from 0 ms)) [
            | inl n ↦ rw n refl
            | inr ((i, j), p) ↦ rw p (judge_pair-files c.size i j ms)
          ])

    judge_rest-files : (r : Bool × List Member) → files_of (judge_rest disk c r).1 ≡ files_of r.1
    judge_rest-files (true, ms) = refl
    judge_rest-files (false, ms) = settle-files (judge_two disk c ms) ∙ judge_two-files ms

    judge_differences-files :
        (r : Bool × List Member) → files_of (judge_differences disk c r).1 ≡ files_of r.1
    judge_differences-files (true, ms) = refl
    judge_differences-files (false, ms) = elim (Bool-cases (any_corrupt ms)) [
      | inl a ↦ rw a (judge_rest-files (false, ms))
      | inr a ↦ rw a (
          judge_rest-files (past_from disk c.size (indexes_from 0 ms) ms)
          ∙ past_from-files c.size (indexes_from 0 ms) ms)
    ]

    -- The members of a set that was judged are its files, in their order.
    pub judge_set-files : files_of (judge_set disk c).1 ≡ c.files
    unfolding judge_set judge_history
    judge_set-files =
        let new = map new_member c.files in
        let read = map judge_read new in
        judge_differences-files (containers_from disk 0 (map (judge_history disk) read))
        ∙ containers_from-files disk 0 (map (judge_history disk) read)
        ∙ files_of-map (judge_history disk) (λ m. refl) read
        ∙ files_of-map judge_read judge_read-file new
        ∙ files_of-new c.files
