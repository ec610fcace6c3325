-- ===== src/Corrupt/Judged.antt =====
-- `judgeSet` of server/corrupt.go as a whole: each verdict of damage rests on evidence, and a scan
-- that is not stopped judges every file.
use mathlib.Core.Path.{subst}
use duplicatefinder.Corrupt.Shapes.{compare_files}
use mathlib.Core.List.{Memᴰ}
use duplicatefinder.Corrupt.{CorruptFile, CorruptSet, is_some}
use duplicatefinder.Corrupt.Evidence.{
  Fair, judge_read-Fair, judge_history-Fair, containers_from-Fair, labelled-Fair,
}
use duplicatefinder.Corrupt.Convicts.{AllFair, judge_shape-Fair, judge_past-Fair}
use duplicatefinder.Corrupt.Judging.{
  representatives_from, containers_from, judge_history, any_corrupt, judge_read, is_proven,
  member_at, Disk, Member, new_member,
}
use duplicatefinder.Corrupt.Verdicts.{
  former_from, skips_past, indexes_from, settle, judge_two, judge_rest, judge_differences,
  past_with, judge_pair, past_one, settle_history, past_from, settle_rest, settle_intact, judge_set,
}
use duplicatefinder.Base.{
  ◌+◌, length, ◌*◌, ◌==◌, false, is_nil, true, inr, refl, ◌&&◌, Option-cases, ◌||◌, inl, some,
  arith, [], not, Bool-cases, ◌∷◌, ◌≡◌, All, map, ℕ, List, Bool,
}

All-map :
    {A B : Type 0} (f : A → B) (P : A → Type 0) (Q : B → Type 0)
    → ((a : A) → P a → Q (f a))
    → (l : List A) → All P l
    → All Q (map f l)
All-map f P Q step [] a = _
All-map f P Q step (x ∷ l) (a, later) = (step x a, All-map f P Q step l later)

module _ (disk : Disk) (size : ℕ) (files : List CorruptFile) where
  new_members-AllFair :
      (fs : List CorruptFile)
      → ((e : CorruptFile) → Memᴰ e fs → Memᴰ e files)
      → AllFair disk size files (map new_member fs)
  new_members-AllFair [] among = _
  new_members-AllFair (e ∷ fs) among = (
    record {
      member_of = among e (Memᴰ.head refl);
      moved = λ h. absurd (ground (arith, h));
      convicts = λ h. absurd (ground (arith, h));
    },
    new_members-AllFair fs (λ x h. among x (Memᴰ.tail h)),
  )

  past_with-AllFair :
      (i j : ℕ) (m : Member) (ms : List Member)
      → member_at i ms ≡ some m
      → m.changed ≡ true
      → AllFair disk size files ms
      → AllFair disk size files (past_with disk size i m ms j)
  past_with-AllFair i j m ms e c a = elim (Option-cases (member_at j ms)) [
    | inl none_there ↦ rw (none_there, past_with) a
    | inr (t, there) ↦
        rw (there, past_with)
          (elim (Option-cases (compare_files disk size m.file t.file)) [
            | inl same ↦ rw same a
            | inr (d, found) ↦ rw found (
                judge_past-Fair disk size files ms i j m t d
                  (record { at_i = e; at_j = there; found = found; fair = a }) c)
          ])
  ]

  past_one-AllFair :
      (i : ℕ) (ms after : List Member)
      → past_one disk size i ms ≡ some after
      → AllFair disk size files ms
      → AllFair disk size files after
  unfolding past_one
  past_one-AllFair i ms after h a = elim (Option-cases (member_at i ms)) [
    | inl e ↦ subst (AllFair disk size files) (ground (arith, h, e)) a
    | inr (m, e) ↦ elim (Bool-cases (skips_past m)) [
      | inl s ↦ subst (AllFair disk size files) (ground (arith, h, e, s)) a
      | inr s ↦ elim (Option-cases (former_from i m.file.prior_hash 0 ms)) [
        | inl n ↦ subst (AllFair disk size files) (ground (arith, h, e, s, n)) a
        | inr (j, f) ↦ elim (Bool-cases (disk.cancelled (2 * length ms + i))) [
          | inl c ↦ absurd (ground (arith, h, e, s, f, c))
          | inr c ↦
              subst (AllFair disk size files) (ground (arith, h, e, s, f, c))
                (past_with-AllFair i j m ms e (ground (arith, s)) a)
        ]
      ]
    ]
  ]

  past_from-AllFair :
      (is : List ℕ) (ms : List Member)
      → AllFair disk size files ms
      → AllFair disk size files (past_from disk size is ms).1
  unfolding past_from
  past_from-AllFair [] ms a = a
  past_from-AllFair (i ∷ is) ms a = elim (Option-cases (past_one disk size i ms)) [
    | inl e ↦ rw (e, past_from) a
    | inr (after, e) ↦
        rw (e, past_from) (past_from-AllFair is after (past_one-AllFair i ms after e a))
  ]

  judge_pair-AllFair :
      (i j : ℕ) (ms : List Member)
      → AllFair disk size files ms
      → AllFair disk size files (judge_pair disk size i j ms)
  unfolding judge_pair
  judge_pair-AllFair i j ms a = elim (Option-cases (member_at i ms)) [
    | inl e ↦ rw (e, judge_pair) a
    | inr (m, e) ↦ elim (Option-cases (member_at j ms)) [
      | inl f ↦ rw (e, judge_pair) (rw (f, judge_pair) a)
      | inr (n, f) ↦ elim (Bool-cases (not (is_nil m.evidence && is_nil n.evidence))) [
        | inl told ↦ rw (e, judge_pair) (rw (f, judge_pair) (rw told a))
        | inr silent ↦ elim (Option-cases (compare_files disk size m.file n.file)) [
          | inl same ↦ rw (e, judge_pair) (rw (f, judge_pair) (rw silent (rw same a)))
          | inr (d, found) ↦
              rw (e, judge_pair)
                (rw (f, judge_pair)
                  (rw silent (
                    rw found (
                      judge_shape-Fair disk size files ms i j m n d
                        (record { at_i = e; at_j = f; found = found; fair = a })))))
        ]
      ]
    ]
  ]

  settle_history-Fair :
      (m : Member) → Fair disk size files m → Fair disk size files (settle_history m)
  unfolding settle_history
  settle_history-Fair m a = elim (Bool-cases (is_some m.verdict || not m.changed)) [
    | inl e ↦ simp e a
    | inr e ↦ simp e (labelled-Fair disk size files m _ _ a (λ c. absurd (ground (arith, c))))
  ]

  settle_intact-Fair :
      (m : Member) → Fair disk size files m → Fair disk size files (settle_intact m)
  unfolding settle_intact
  settle_intact-Fair m a = elim (Bool-cases (not (is_some m.verdict) && is_proven m.checked)) [
    | inr e ↦ simp e a
    | inl e ↦ simp e (labelled-Fair disk size files m _ _ a (λ c. absurd (ground (arith, c))))
  ]

  settle_rest-Fair : (m : Member) → Fair disk size files m → Fair disk size files (settle_rest m)
  unfolding settle_rest
  settle_rest-Fair m a = elim (Bool-cases (is_some m.verdict)) [
    | inl e ↦ simp e a
    | inr e ↦ simp e (labelled-Fair disk size files m _ _ a (λ c. absurd (ground (arith, c))))
  ]

  settle-AllFair :
      (ms : List Member) → AllFair disk size files ms → AllFair disk size files (settle ms)
  unfolding settle
  settle-AllFair ms a =
      let fair = Fair disk size files in
      let noted = All-map settle_history fair fair settle_history-Fair ms a in
      elim (Bool-cases (any_corrupt (map settle_history ms))) [
        | inl e ↦ rw e (
            All-map settle_rest fair fair settle_rest-Fair
              (map settle_intact (map settle_history ms))
              (All-map settle_intact fair fair settle_intact-Fair (map settle_history ms) noted))
        | inr e ↦
            rw e (All-map settle_rest fair fair settle_rest-Fair (map settle_history ms) noted)
      ]

module _ (disk : Disk) (c : CorruptSet) where
  judge_two-AllFair :
      (ms : List Member)
      → AllFair disk c.size c.files ms
      → AllFair disk c.size c.files (judge_two disk c ms)
  unfolding judge_two
  judge_two-AllFair ms a = elim (Bool-cases (any_corrupt ms || not (c.variants == 2))) [
    | inl e ↦ rw e a
    | inr e ↦ rw e (elim (Option-cases (representatives_from 0 ms)) [
      | inl n ↦ rw n a
      | inr ((i, j), p) ↦ rw p (judge_pair-AllFair disk c.size c.files i j ms a)
    ])
  ]

  judge_rest-AllFair :
      (r : Bool × List Member)
      → AllFair disk c.size c.files r.1
      → AllFair disk c.size c.files (judge_rest disk c r).1
  judge_rest-AllFair (true, ms) a = a
  judge_rest-AllFair (false, ms) a =
      settle-AllFair disk c.size c.files (judge_two disk c ms) (judge_two-AllFair ms a)

  judge_differences-AllFair :
      (r : Bool × List Member)
      → AllFair disk c.size c.files r.1
      → AllFair disk c.size c.files (judge_differences disk c r).1
  judge_differences-AllFair (true, ms) a = a
  judge_differences-AllFair (false, ms) a = elim (Bool-cases (any_corrupt ms)) [
    | inl e ↦ rw e (judge_rest-AllFair (false, ms) a)
    | inr e ↦ rw e (
        judge_rest-AllFair (past_from disk c.size (indexes_from 0 ms) ms)
          (past_from-AllFair disk c.size c.files (indexes_from 0 ms) ms a))
  ]

  -- A file of a set that is judged to be damaged could not be read for an I/O error; or its own
  -- container is invalid while its size and date stand; or its bytes, those of a file of the set,
  -- differ from those of another by zeros on its side, or by a bit or two after they moved under a
  -- size and date that stand.
  pub judge_set-AllFair : AllFair disk c.size c.files (judge_set disk c).1
  unfolding judge_set
  judge_set-AllFair =
      let fair = Fair disk c.size c.files in
      let new = map new_member c.files in
      let read =
        All-map judge_read fair fair (judge_read-Fair disk c.size c.files) new
          (new_members-AllFair disk c.size c.files c.files (λ e h. h)) in
      let history =
        All-map (judge_history disk) fair fair (judge_history-Fair disk c.size c.files)
          (map judge_read new) read in
      judge_differences-AllFair
        (containers_from disk 0 (map (judge_history disk) (map judge_read new)))
        (containers_from-Fair disk c.size c.files 0 (map (judge_history disk) (map judge_read new))
          history)
