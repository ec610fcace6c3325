-- ===== src/Corrupt/Evidence.antt =====
-- What counts as evidence of damage for `judgeSet` of server/corrupt.go, in its first three rungs
-- and in `judgeWithTwins`.
use mathlib.Core.Path.{subst}
use mathlib.Core.List.{Memᴰ}
use duplicatefinder.Corrupt.{
  CorruptFile, ReadErr, Verdict, is_some, io_error, read_cancelled, read_failed, verdict_corrupt,
}
use duplicatefinder.Corrupt.Judging.{
  judge_with_twins, twin_label, member_at, read_label, twins_from, judge_container, judge_read,
  judge_history, containers_from, is_damaged, Disk, Member, Intactness, damaged, proven, unproven,
  unchanged_on_disk,
}
use duplicatefinder.Corrupt.Difference.{
  DiffShape, ZeroSide, zeros, tail, bitflip, first_side, second_side,
}
use duplicatefinder.Corrupt.Shapes.{compare_files}
use duplicatefinder.Base.{
  zero, ◌∙◌, sym, ap, text_eq_iff, text_eq, ◌&&◌, none, ◌==◌, Option, [], ◌+◌, ◌*◌, ◌||◌, false,
  suc, inr, not, refl, inl, is_nil, ◌∷◌, ◌⊎◌, Option-cases, true, arith, some, Bool-cases, All, ◌≡◌,
  Text, ℕ, List,
}

is_damaged_sound : (s : Intactness) → is_damaged s ≡ true → s ≡ damaged
is_damaged_sound damaged h = refl
is_damaged_sound unproven h = cc
is_damaged_sound proven h = cc

module _ (disk : Disk) (size : ℕ) (files : List CorruptFile) where
  -- An earlier scan held other content of the file, at the size and date that it still has.
  unfoldable pub Moved : CorruptFile → Type 0
  Moved e = (e.content_changed ≡ true) × (unchanged_on_disk disk 2 e.f ≡ true)

  -- What a difference says of the file on one of its sides: zeros where the other holds data, or a
  -- bit or two in a file that moved.
  unfoldable pub Blames : DiffShape → ZeroSide → CorruptFile → Type 0
  unfolding Moved
  Blames d side e =
      (((d.kind ≡ zeros) ⊎ (d.kind ≡ tail)) × (d.zero_side ≡ side)) ⊎ ((d.kind ≡ bitflip) × Moved e)

  pub record Differs (e : CorruptFile) : Type 0 where
    pub first : CorruptFile
    pub second : CorruptFile
    pub first_in : Memᴰ first files
    pub second_in : Memᴰ second files
    pub shape : DiffShape
    pub found : compare_files disk size first second ≡ some shape
    pub blames :
        ((e ≡ first) × Blames shape first_side e) ⊎ ((e ≡ second) × Blames shape second_side e)

  -- The same file, or one of the same hash.
  unfoldable pub Same : CorruptFile → CorruptFile → Type 0
  Same r e = (r ≡ e) ⊎ ((r.hash ≡ e.hash) × (is_nil e.hash ≡ false))

  pub data Damage (e : CorruptFile) : Type 0 where
    unreadable : e.read_err ≡ some io_error → Damage e
    invalid : (disk.verify e.f).0 ≡ damaged → unchanged_on_disk disk 3 e.f ≡ true → Damage e
    differing : (r : CorruptFile) → Same r e → Differs r → Damage e

  pub record Fair (m : Member) : Type 0 where
    pub member_of : Memᴰ m.file files
    pub moved : m.changed ≡ true → Moved m.file
    pub convicts : m.verdict ≡ some verdict_corrupt → Damage m.file

  read_label-Fair :
      (m : Member) (o : Option ReadErr) → m.file.read_err ≡ o → Fair m → Fair (read_label m o)
  read_label-Fair m none e a = a
  read_label-Fair m (some io_error) e a = record {
    member_of = a.member_of;
    moved = a.moved;
    convicts = λ v. unreadable e;
  }
  read_label-Fair m (some read_cancelled) e a = record {
    member_of = a.member_of;
    moved = a.moved;
    convicts = λ v. absurd (ground arith);
  }
  read_label-Fair m (some (read_failed why)) e a = record {
    member_of = a.member_of;
    moved = a.moved;
    convicts = λ v. absurd (ground arith);
  }

  pub judge_read-Fair : (m : Member) → Fair m → Fair (judge_read m)
  unfolding judge_read
  judge_read-Fair m = read_label-Fair m m.file.read_err refl

  pub judge_history-Fair : (m : Member) → Fair m → Fair (judge_history disk m)
  unfolding judge_history Moved
  judge_history-Fair m a = record {
    member_of = a.member_of;
    moved = λ h. (ground (arith, h), ground (arith, h));
    convicts = a.convicts;
  }

  judge_container-Fair : (m : Member) → Fair m → Fair (judge_container disk m)
  unfolding judge_container
  judge_container-Fair m a =
      elim (Bool-cases (not (is_damaged (disk.verify m.file.f).0) || is_some m.verdict)) [
        | inl skip ↦
            rw skip record { member_of = a.member_of; moved = a.moved; convicts = a.convicts }
        | inr bad ↦ rw bad (elim (Bool-cases (unchanged_on_disk disk 3 m.file.f)) [
          | inr gone ↦ rw gone record {
            member_of = a.member_of;
            moved = a.moved;
            convicts = λ v. absurd (ground arith);
          }
          | inl there ↦ rw there record {
            member_of = a.member_of;
            moved = a.moved;
            convicts =
                λ v. invalid (is_damaged_sound (disk.verify m.file.f).0 (ground arith)) there;
          }
        ])
      ]

  pub containers_from-Fair :
      (k : ℕ) (ms : List Member) → All Fair ms → All Fair (containers_from disk k ms).1
  unfolding containers_from
  containers_from-Fair k [] a = _
  containers_from-Fair k (m ∷ ms) (a, later) =
      let rest = containers_from-Fair (suc k) ms later in
      elim (Bool-cases (disk.cancelled (2 * k))) [
        | inl s ↦ rw s (a, later)
        | inr s ↦ elim (Bool-cases (is_some m.file.read_err)) [
          | inl e ↦ rw (s, e) (a, rest)
          | inr e ↦ elim (Bool-cases (disk.cancelled (2 * k + 1))) [
            | inl z ↦ rw (s, e, z) (a, later)
            | inr z ↦ rw (s, e, z) (judge_container-Fair m a, rest)
          ]
        ]
      ]

  pub labelled-Fair :
      (m : Member) (v : Option Verdict) (ev : Text)
      → Fair m
      → (v ≡ some verdict_corrupt → Damage m.file)
      → Fair (record m { verdict = v; evidence = ev })
  labelled-Fair m v ev a why = record { member_of = a.member_of; moved = a.moved; convicts = why }

  text_eq-Same :
      (r e : CorruptFile)
      → (not (is_nil r.hash) && not (is_some e.read_err) && text_eq e.hash r.hash) ≡ true
      → Same r e
  unfolding Same
  text_eq-Same r e h =
      let same = (text_eq_iff e.hash r.hash).0 (ground (arith, h)) in
      inr (sym same, ap is_nil same ∙ ground (arith, h))

  twin_label-Fair :
      (i : ℕ) (v : Option Verdict) (ev : Text) (r : CorruptFile) (k : ℕ) (m : Member)
      → (v ≡ some verdict_corrupt → Differs r)
      → (k ≡ i → r ≡ m.file)
      → Fair m
      → Fair (twin_label i r.hash v ev k m)
  unfolding Same
  twin_label-Fair i v ev r k m why at a = elim (Bool-cases (is_some m.verdict)) [
    | inl judged ↦ simp judged a
    | inr open_yet ↦ elim (Bool-cases (k == i)) [
      | inl here ↦
          simp (open_yet, here)
            (labelled-Fair m v ev a (λ c. differing r (inl (at (ground (arith, here)))) (why c)))
      | inr away ↦
          elim (Bool-cases
            (not (is_nil r.hash) && not (is_some m.file.read_err) && text_eq m.file.hash r.hash)) [
              | inr other ↦ simp (open_yet, away, other) a
              | inl twin ↦
                  simp (open_yet, away, twin)
                    (labelled-Fair m v ev a (λ c. differing r (text_eq-Same r m.file twin) (why c)))
            ]
    ]
  ]

  -- The members that a label reaches hold what `r` holds.
  twins_from-Fair :
      (i : ℕ) (v : Option Verdict) (ev : Text) (r : CorruptFile)
      → (v ≡ some verdict_corrupt → Differs r)
      → (k : ℕ) (ms : List Member)
      → ((j : ℕ) (m : Member) → k + j ≡ i → member_at j ms ≡ some m → r ≡ m.file)
      → All Fair ms
      → All Fair (twins_from i r.hash v ev k ms)
  unfolding twins_from member_at
  twins_from-Fair i v ev r why k [] at a = _
  twins_from-Fair i v ev r why k (m ∷ ms) at (a, later) = (
    twin_label-Fair i v ev r k m why (λ e. at 0 m (omega (arith, e)) refl) a,
    twins_from-Fair i v ev r why (suc k) ms (λ j n e h. at (suc j) n (omega (arith, e)) h) later,
  )

  pub same_member :
      (ms : List Member) (i j : ℕ) (m n : Member)
      → 0 + j ≡ i
      → member_at i ms ≡ some m
      → member_at j ms ≡ some n
      → m ≡ n
  same_member ms i j m n q e h = let at_i = ap (λ x. member_at x ms) q in ground (arith, e, h, at_i)

  pub judge_with_twins-Fair :
      (i : ℕ) (v : Option Verdict) (ev : Text) (ms : List Member)
      → (v ≡ some verdict_corrupt → (m : Member) → member_at i ms ≡ some m → Differs m.file)
      → All Fair ms
      → All Fair (judge_with_twins i v ev ms)
  unfolding judge_with_twins
  judge_with_twins-Fair i v ev ms why a = elim (Option-cases (member_at i ms)) [
    | inl e ↦ rw (e, judge_with_twins) a
    | inr (m, e) ↦
        rw (e, judge_with_twins)
          (twins_from-Fair i v ev m.file (λ c. why c m e) 0 ms
            (λ j n q h. ap (λ (x : Member). x.file) (same_member ms i j m n q e h)) a)
  ]

  pub member_at-Fair :
      (i : ℕ) (ms : List Member) (m : Member) → member_at i ms ≡ some m → All Fair ms → Fair m
  unfolding member_at
  member_at-Fair i [] m e a = cc
  member_at-Fair zero (n ∷ ms) m e (a, later) = subst Fair (ground (arith, e)) a
  member_at-Fair (suc i) (n ∷ ms) m e (a, later) = member_at-Fair i ms m e later
