-- ===== src/Corrupt/Files.antt =====
-- `judgeSet` of server/corrupt.go labels the files of a set and changes nothing else: the members
-- that it leaves are those files, in their order.
use mathlib.Core.Path.{ap₂}
use duplicatefinder.Corrupt.Shapes.{
  is_second, past_zeros, shape_label, past_label, judge_zeros, judge_bit_rot,
}
use duplicatefinder.Corrupt.{CorruptFile, ReadErr, Verdict, is_some}
use duplicatefinder.Corrupt.Judging.{
  unchanged_on_disk, is_proven, is_damaged, any_corrupt, member_at, read_label, twin_label,
  containers_from, twins_from, judge_container, judge_with_twins, judge_read, Disk, Member,
  new_member,
}
use duplicatefinder.Corrupt.Difference.{
  bool_eq, side_eq, DiffShape, DiffKind, zeros, tail, bitflip, mixed, first_side,
}
use duplicatefinder.Corrupt.Verdicts.{settle, settle_rest, settle_intact, settle_history}
use duplicatefinder.Corrupt.{read_cancelled, io_error, read_failed}
use duplicatefinder.Base.{
  ◌==◌, ◌+◌, false, text_eq, ◌*◌, inr, none, ◌||◌, [], inl, some, is_nil, ap, true, ◌&&◌, suc, ◌∷◌,
  if◌then◌else◌, Bool-cases, not, ◌∙◌, Option-cases, refl, map, ◌≡◌, Option, Text, ℕ, List, Bool,
}

abbrev pub files_of : List Member → List CorruptFile
files_of = map (λ m. m.file)

files_of-cons :
    (m n : Member) (ms ns : List Member)
    → m.file ≡ n.file
    → files_of ms ≡ files_of ns
    → files_of (m ∷ ms) ≡ files_of (n ∷ ns)
files_of-cons m n ms ns e es = ap₂ ◌∷◌ e es

pub files_of-map :
    (f : Member → Member)
    → ((m : Member) → (f m).file ≡ m.file)
    → (ms : List Member) → files_of (map f ms) ≡ files_of ms
files_of-map f same [] = refl
files_of-map f same (m ∷ ms) = files_of-cons (f m) m (map f ms) ms (same m) (files_of-map f same ms)

pub files_of-new : (fs : List CorruptFile) → files_of (map new_member fs) ≡ fs
files_of-new [] = refl
files_of-new (f ∷ fs) = ap (◌∷◌ f) (files_of-new fs)

-- Either of two lists of the same files.
pub files_of-if :
    (b : Bool) (x y : List Member) (fs : List CorruptFile)
    → files_of x ≡ fs
    → files_of y ≡ fs
    → files_of (if b then x else y) ≡ fs
files_of-if true x y fs e k = e
files_of-if false x y fs e k = k

read_label-file : (m : Member) (o : Option ReadErr) → (read_label m o).file ≡ m.file
read_label-file m none = refl
read_label-file m (some io_error) = refl
read_label-file m (some read_cancelled) = refl
read_label-file m (some (read_failed why)) = refl

pub judge_read-file : (m : Member) → (judge_read m).file ≡ m.file
unfolding judge_read
judge_read-file m = read_label-file m m.file.read_err

twin_label-file :
    (i : ℕ) (h : Text) (v : Option Verdict) (ev : Text) (k : ℕ) (m : Member)
    → (twin_label i h v ev k m).file ≡ m.file
twin_label-file i h v ev k m = elim (Bool-cases (is_some m.verdict)) [
  | inl e ↦ rw e refl
  | inr e ↦
      elim (Bool-cases
        (k == i || (not (is_nil h) && not (is_some m.file.read_err) && text_eq m.file.hash h))) [
          | inl f ↦ rw (e, f) refl
          | inr f ↦ rw (e, f) refl
        ]
]

twins_from-files :
    (i : ℕ) (h : Text) (v : Option Verdict) (ev : Text) (k : ℕ) (ms : List Member)
    → files_of (twins_from i h v ev k ms) ≡ files_of ms
unfolding twins_from
twins_from-files i h v ev k [] = refl
twins_from-files i h v ev k (m ∷ ms) =
    files_of-cons (twin_label i h v ev k m) m (twins_from i h v ev (suc k) ms) ms
      (twin_label-file i h v ev k m) (twins_from-files i h v ev (suc k) ms)

label-files :
    (i : ℕ) (v : Option Verdict) (ev : Text) (ms : List Member) (fs : List CorruptFile)
    → files_of ms ≡ fs
    → files_of (judge_with_twins i v ev ms) ≡ fs
unfolding judge_with_twins
label-files i v ev ms fs e = elim (Option-cases (member_at i ms)) [
  | inl gone ↦ rw (gone, judge_with_twins) e
  | inr (m, there) ↦ rw (there, judge_with_twins) (twins_from-files i m.file.hash v ev 0 ms ∙ e)
]

two_labels-files :
    (i j : ℕ) (v w : Option Verdict) (x y : Text) (ms : List Member)
    → files_of (judge_with_twins j w y (judge_with_twins i v x ms)) ≡ files_of ms
two_labels-files i j v w x y ms =
    label-files j w y (judge_with_twins i v x ms) (files_of ms)
      (label-files i v x ms (files_of ms) refl)

settle_history-file : (m : Member) → (settle_history m).file ≡ m.file
unfolding settle_history
settle_history-file m = elim (Bool-cases (is_some m.verdict || not m.changed)) [
  | inl e ↦ rw e refl
  | inr e ↦ rw e refl
]

settle_intact-file : (m : Member) → (settle_intact m).file ≡ m.file
unfolding settle_intact
settle_intact-file m = elim (Bool-cases (not (is_some m.verdict) && is_proven m.checked)) [
  | inl e ↦ rw e refl
  | inr e ↦ rw e refl
]

settle_rest-file : (m : Member) → (settle_rest m).file ≡ m.file
unfolding settle_rest
settle_rest-file m = elim (Bool-cases (is_some m.verdict)) [ inl e ↦ rw e refl | inr e ↦ rw e refl ]

pub settle-files : (ms : List Member) → files_of (settle ms) ≡ files_of ms
unfolding settle
settle-files ms =
    let noted = files_of-map settle_history settle_history-file ms in
    files_of-map settle_rest settle_rest-file _
    ∙ files_of-if (any_corrupt (map settle_history ms)) _ _ (files_of ms)
        (files_of-map settle_intact settle_intact-file (map settle_history ms) ∙ noted) noted

module _ (disk : Disk) where
  judge_container-file : (m : Member) → (judge_container disk m).file ≡ m.file
  unfolding judge_container
  judge_container-file m =
      elim (Bool-cases (not (is_damaged (disk.verify m.file.f).0) || is_some m.verdict)) [
        | inl e ↦ rw e refl
        | inr e ↦ elim (Bool-cases (unchanged_on_disk disk 3 m.file.f)) [
          | inl f ↦ rw (e, f) refl
          | inr f ↦ rw (e, f) refl
        ]
      ]

  pub containers_from-files :
      (k : ℕ) (ms : List Member) → files_of (containers_from disk k ms).1 ≡ files_of ms
  unfolding containers_from
  containers_from-files k [] = refl
  containers_from-files k (m ∷ ms) =
      let later = containers_from-files (suc k) ms in
      elim (Bool-cases (disk.cancelled (2 * k))) [
        | inl s ↦ rw s refl
        | inr s ↦ elim (Bool-cases (is_some m.file.read_err)) [
          | inl e ↦ rw (s, e) (ap (◌∷◌ m.file) later)
          | inr e ↦ elim (Bool-cases (disk.cancelled (2 * k + 1))) [
            | inl z ↦ rw (s, e, z) refl
            | inr z ↦
                rw (s, e, z)
                  (files_of-cons (judge_container disk m) m (containers_from disk (suc k) ms).1 ms
                    (judge_container-file m) later)
          ]
        ]
      ]

  judge_bit_rot-files :
      (d : DiffShape) (i j : ℕ) (mr mo : CorruptFile) (ms : List Member)
      → files_of (judge_bit_rot disk d i j mr mo ms) ≡ files_of ms
  unfolding judge_bit_rot
  judge_bit_rot-files d i j mr mo ms =
      files_of-if (not (is_nil mr.prior_hash) && text_eq mo.hash mr.prior_hash) _ _ (files_of ms)
        (two_labels-files i j _ _ _ _ ms) (two_labels-files i j _ _ _ _ ms)

  zeros-files :
      (d : DiffShape) (i j : ℕ) (ms : List Member)
      → files_of
          (if is_second d.zero_side then judge_zeros disk d j i ms else judge_zeros disk d i j ms)
        ≡ files_of ms
  unfolding judge_zeros
  zeros-files d i j ms =
      files_of-if (is_second d.zero_side) _ _ (files_of ms) (two_labels-files j i _ _ _ _ ms)
        (two_labels-files i j _ _ _ _ ms)

  pub shape_label-files :
      (d : DiffShape) (i j : ℕ) (m n : Member) (ms : List Member) (k : DiffKind)
      → files_of (shape_label disk d i j m n ms k) ≡ files_of ms
  shape_label-files d i j m n ms zeros = zeros-files d i j ms
  shape_label-files d i j m n ms tail = zeros-files d i j ms
  shape_label-files d i j m n ms bitflip =
      files_of-if (bool_eq m.changed n.changed) _ _ (files_of ms) (two_labels-files i j _ _ _ _ ms)
        (files_of-if n.changed _ _ (files_of ms) (judge_bit_rot-files d j i n.file m.file ms)
          (judge_bit_rot-files d i j m.file n.file ms))
  shape_label-files d i j m n ms mixed = two_labels-files i j _ _ _ _ ms

  past_zeros-files :
      (d : DiffShape) (i j : ℕ) (ms : List Member)
      → files_of (past_zeros disk d i j ms) ≡ files_of ms
  past_zeros-files d i j ms =
      files_of-if (side_eq d.zero_side first_side) _ _ (files_of ms)
        (two_labels-files i j _ _ _ _ ms) (label-files i _ _ ms (files_of ms) refl)

  pub past_label-files :
      (d : DiffShape) (i j : ℕ) (ms : List Member) (k : DiffKind)
      → files_of (past_label disk d i j ms k) ≡ files_of ms
  past_label-files d i j ms zeros = past_zeros-files d i j ms
  past_label-files d i j ms tail = past_zeros-files d i j ms
  past_label-files d i j ms bitflip = two_labels-files i j _ _ _ _ ms
  past_label-files d i j ms mixed = label-files i _ _ ms (files_of ms) refl
