-- ===== src/Corrupt/Convicts.antt =====
-- `judgeSet` of server/corrupt.go: a difference that convicts is evidence of damage, and so is
-- every verdict.
use duplicatefinder.Corrupt.Shapes.{
  past_label, judge_shape, judge_past, past_zeros, shown, is_second, compare_files, judge_zeros,
  judge_bit_rot, note_both, shape_label,
}
use mathlib.Core.Path.{subst}
use duplicatefinder.Corrupt.{CorruptFile, Verdict, verdict_corrupt}
use duplicatefinder.Corrupt.Evidence.{
  member_at-Fair, Fair, Differs, Blames, judge_with_twins-Fair, same_member,
}
use duplicatefinder.Corrupt.Judging.{judge_with_twins, convicted, member_at, Disk, Member}
use duplicatefinder.Corrupt.Difference.{
  side_eq, bool_eq, no_tally, tally_from, kind_of, compare_content, zero_side_of, Tally, classify,
  DiffShape, ZeroSide, DiffKind, zeros, tail, bitflip, mixed, first_side, second_side, neither,
}
use duplicatefinder.Base.{
  ◌==◌, true, none, if◌then◌else◌, sym, text_eq, ◌&&◌, refl, is_nil, ap, arith, inr, not,
  Option-cases, inl, Bool-cases, false, ◌⊎◌, some, Option, ◌≡◌, All, Text, ℕ, List,
}

-- A difference of zeros has a side.
zero_side_of-sided :
    (k : DiffKind) (t : Tally)
    → (k ≡ zeros) ⊎ (k ≡ tail)
    → (zero_side_of k t ≡ first_side) ⊎ (zero_side_of k t ≡ second_side)
zero_side_of-sided k t (inl e) = elim (Bool-cases t.a_all_zero) [
  | inl z ↦ inl (simp (e, z) refl)
  | inr z ↦ inr (simp (e, z) refl)
]
zero_side_of-sided k t (inr e) = elim (Bool-cases t.a_all_zero) [
  | inl z ↦ inl (simp (e, z) refl)
  | inr z ↦ inr (simp (e, z) refl)
]

classify-sided :
    (t : Tally) (size : ℕ) (d : DiffShape)
    → classify t size ≡ some d
    → (d.kind ≡ zeros) ⊎ (d.kind ≡ tail)
    → (d.zero_side ≡ first_side) ⊎ (d.zero_side ≡ second_side)
unfolding classify
classify-sided t size d h lossy = elim (Bool-cases (t.bytes == 0)) [
  | inl e ↦ absurd (ground (arith, h, e))
  | inr e ↦
      let k : kind_of t size ≡ d.kind = ground (arith, h, e) in
      let z : zero_side_of (kind_of t size) t ≡ d.zero_side = ground (arith, h, e) in
      subst (λ s. (s ≡ first_side) ⊎ (s ≡ second_side)) z
        (zero_side_of-sided (kind_of t size) t
          (subst (λ s. (s ≡ zeros) ⊎ (s ≡ tail)) (sym k) lossy))
]

compare_files-sided :
    (disk : Disk) (size : ℕ) (x y : CorruptFile) (d : DiffShape)
    → compare_files disk size x y ≡ some d
    → (d.kind ≡ zeros) ⊎ (d.kind ≡ tail)
    → (d.zero_side ≡ first_side) ⊎ (d.zero_side ≡ second_side)
unfolding compare_files compare_content
compare_files-sided disk size x y d h lossy = elim (Option-cases (disk.content x.f)) [
  | inl e ↦ absurd (ground (arith, h, e))
  | inr (a, e) ↦ elim (Option-cases (disk.content y.f)) [
    | inl k ↦ absurd (ground (arith, h, e, k))
    | inr (b, k) ↦ classify-sided (tally_from 0 no_tally a b) size d (ground (arith, h, e, k)) lossy
  ]
]

side_eq-first : (z : ZeroSide) → side_eq z first_side ≡ true → z ≡ first_side
side_eq-first first_side h = refl
side_eq-first second_side h = cc
side_eq-first neither h = cc

module _ (disk : Disk) (size : ℕ) (files : List CorruptFile) where
  abbrev pub AllFair : List Member → Type 0
  AllFair = All (Fair disk size files)

  -- A label that does not convict.
  note-Fair :
      (i : ℕ) (v : Option Verdict) (ev : Text) (ms : List Member)
      → convicted v ≡ false
      → AllFair ms
      → AllFair (judge_with_twins i v ev ms)
  note-Fair i v ev ms mild =
      judge_with_twins-Fair disk size files i v ev ms
        (λ c. absurd (ground (arith, mild, ap convicted c)))

  note_both-Fair :
      (i j : ℕ) (note_i note_j : Text) (ms : List Member)
      → AllFair ms
      → AllFair (note_both i j note_i note_j ms)
  note_both-Fair i j note_i note_j ms a =
      note-Fair j none note_j (judge_with_twins i none note_i ms) refl
        (note-Fair i none note_i ms refl a)

  -- A label that convicts the file at `i`, and then one that does not.
  convict-Fair :
      (i j : ℕ) (why note : Text) (v : Option Verdict) (ms : List Member)
      → convicted v ≡ false
      → ((m : Member) → member_at i ms ≡ some m → Differs disk size files m.file)
      → AllFair ms
      → AllFair (judge_with_twins j v note (judge_with_twins i (some verdict_corrupt) why ms))
  convict-Fair i j why note v ms mild shows a =
      note-Fair j v note (judge_with_twins i (some verdict_corrupt) why ms) mild
        (judge_with_twins-Fair disk size files i (some verdict_corrupt) why ms (λ c. shows) a)

  judge_bit_rot-Fair :
      (d : DiffShape) (i j : ℕ) (mr mo : CorruptFile) (ms : List Member)
      → ((m : Member) → member_at i ms ≡ some m → Differs disk size files m.file)
      → AllFair ms
      → AllFair (judge_bit_rot disk d i j mr mo ms)
  unfolding judge_bit_rot
  judge_bit_rot-Fair d i j mr mo ms shows a =
      elim (Bool-cases (not (is_nil mr.prior_hash) && text_eq mo.hash mr.prior_hash)) [
        | inl e ↦ simp e (convict-Fair i j _ _ _ ms refl shows a)
        | inr e ↦ simp e (convict-Fair i j _ _ _ ms refl shows a)
      ]

  -- Two members of the set, and how they differ.
  pub record Pair (ms : List Member) (i j : ℕ) (m n : Member) (d : DiffShape) : Type 0 where
    pub at_i : member_at i ms ≡ some m
    pub at_j : member_at j ms ≡ some n
    pub found : compare_files disk size m.file n.file ≡ some d
    pub fair : AllFair ms

  module _ (ms : List Member) (i j : ℕ) (m n : Member) (d : DiffShape) (p : Pair ms i j m n d) where
    first-Differs :
        Blames disk size files d first_side m.file
        → (x : Member) → member_at i ms ≡ some x
        → Differs disk size files x.file
    first-Differs blame x e =
        subst (λ (y : Member). Differs disk size files y.file)
          (same_member disk size files ms i i m x (omega arith) p.at_i e)
          (record {
            first = m.file;
            second = n.file;
            first_in = (member_at-Fair disk size files i ms m p.at_i p.fair).member_of;
            second_in = (member_at-Fair disk size files j ms n p.at_j p.fair).member_of;
            shape = d;
            found = p.found;
            blames = inl (refl, blame);
          })

    second-Differs :
        Blames disk size files d second_side n.file
        → (x : Member) → member_at j ms ≡ some x
        → Differs disk size files x.file
    second-Differs blame x e =
        subst (λ (y : Member). Differs disk size files y.file)
          (same_member disk size files ms j j n x (omega arith) p.at_j e)
          (record {
            first = m.file;
            second = n.file;
            first_in = (member_at-Fair disk size files i ms m p.at_i p.fair).member_of;
            second_in = (member_at-Fair disk size files j ms n p.at_j p.fair).member_of;
            shape = d;
            found = p.found;
            blames = inr (refl, blame);
          })

    zeros-Fair :
        ((d.kind ≡ zeros) ⊎ (d.kind ≡ tail))
        → AllFair
            (if is_second d.zero_side then judge_zeros disk d j i ms else judge_zeros disk d i j ms)
    unfolding judge_zeros Blames
    zeros-Fair lossy = elim (compare_files-sided disk size m.file n.file d p.found lossy) [
      | inl s ↦ simp s (convict-Fair i j _ _ _ ms refl (first-Differs (inl (lossy, s))) p.fair)
      | inr s ↦ simp s (convict-Fair j i _ _ _ ms refl (second-Differs (inl (lossy, s))) p.fair)
    ]

    bitflip-Fair :
        d.kind ≡ bitflip
        → AllFair (
            if bool_eq m.changed n.changed
            then note_both i j (shown disk d neither) (shown disk d neither) ms
            else if n.changed
            then judge_bit_rot disk d j i n.file m.file ms
            else judge_bit_rot disk d i j m.file n.file ms)
    unfolding Blames
    bitflip-Fair flip = elim (Bool-cases m.changed) [
      | inl x ↦ elim (Bool-cases n.changed) [
        | inl y ↦ simp (x, y) (note_both-Fair i j _ _ ms p.fair)
        | inr y ↦
            let moved = (member_at-Fair disk size files i ms m p.at_i p.fair).moved x in
            simp (x, y)
              (judge_bit_rot-Fair d i j m.file n.file ms (first-Differs (inr (flip, moved))) p.fair)
      ]
      | inr x ↦ elim (Bool-cases n.changed) [
        | inl y ↦
            let moved = (member_at-Fair disk size files j ms n p.at_j p.fair).moved y in
            simp (x, y)
              (judge_bit_rot-Fair d j i n.file m.file ms (second-Differs (inr (flip, moved)))
                p.fair)
        | inr y ↦ simp (x, y) (note_both-Fair i j _ _ ms p.fair)
      ]
    ]

    shape_label-Fair : (k : DiffKind) → d.kind ≡ k → AllFair (shape_label disk d i j m n ms k)
    unfolding Blames
    shape_label-Fair zeros e = zeros-Fair (inl e)
    shape_label-Fair tail e = zeros-Fair (inr e)
    shape_label-Fair bitflip e = bitflip-Fair e
    shape_label-Fair mixed e = note_both-Fair i j _ _ ms p.fair

    pub judge_shape-Fair : AllFair (judge_shape disk d i j m n ms)
    unfolding judge_shape
    judge_shape-Fair = shape_label-Fair d.kind refl

    past_zeros-Fair : (d.kind ≡ zeros) ⊎ (d.kind ≡ tail) → AllFair (past_zeros disk d i j ms)
    unfolding Blames
    past_zeros-Fair lossy = elim (Bool-cases (side_eq d.zero_side first_side)) [
      | inl s ↦ simp s (
          convict-Fair i j _ _ _ ms refl (first-Differs (inl (lossy, side_eq-first d.zero_side s)))
            p.fair)
      | inr s ↦ simp s (note-Fair i none _ ms refl p.fair)
    ]

    past_label-Fair :
        m.changed ≡ true → (k : DiffKind) → d.kind ≡ k → AllFair (past_label disk d i j ms k)
    unfolding Blames
    past_label-Fair c zeros e = past_zeros-Fair (inl e)
    past_label-Fair c tail e = past_zeros-Fair (inr e)
    past_label-Fair c bitflip e =
        let moved = (member_at-Fair disk size files i ms m p.at_i p.fair).moved c in
        convict-Fair i j _ _ _ ms refl (first-Differs (inr (e, moved))) p.fair
    past_label-Fair c mixed e = note-Fair i none _ ms refl p.fair

    pub judge_past-Fair : m.changed ≡ true → AllFair (judge_past disk d i j ms)
    unfolding judge_past
    judge_past-Fair c = past_label-Fair c d.kind refl
