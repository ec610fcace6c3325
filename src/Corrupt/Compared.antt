-- ===== src/Corrupt/Compared.antt =====
-- What the shape that `CompareContent` of server/internal/media/verify.go returns says of two
-- contents.
use mathlib.Core.Path.{subst}
use duplicatefinder.Corrupt.Difference.{
  classify, bool_eq, zero_side_of, no_tally, kind_of, ones_count, tally_byte, tally_from, DiffShape,
  DiffKind, ZeroSide, Tally, compare_content, zeros, tail, bitflip, mixed, first_side, second_side,
  neither,
}
use duplicatefinder.Base.{
  refl, arith, suc, inr, none, inl, ◌&&◌, Bool-cases, [], ◌||◌, ◌<◌, some, ◌+◌, if◌then◌else◌, ◌==◌,
  false, ◌≤◌, Option, true, ◌≡◌, ◌∷◌, ℕ, List, Bool,
}

-- How many bytes differ, up to the end of the shorter.
abbrev pub differing : List ℕ → List ℕ → ℕ
differing [] bs = 0
differing (x ∷ xs) [] = 0
differing (x ∷ xs) (y ∷ ys) = (if x == y then 0 else 1) + differing xs ys

-- How many bits differ in them.
abbrev pub flipped : List ℕ → List ℕ → ℕ
flipped [] bs = 0
flipped (x ∷ xs) [] = 0
flipped (x ∷ xs) (y ∷ ys) = (if x == y then 0 else ones_count 8 x y) + flipped xs ys

-- The first content is NUL wherever the two differ.
abbrev pub blank : List ℕ → List ℕ → Bool
blank [] bs = true
blank (x ∷ xs) [] = true
blank (x ∷ xs) (y ∷ ys) = (x == y || x == 0) && blank xs ys

-- One side, and not the other, is NUL wherever the two differ.
abbrev pub Blank : List ℕ → List ℕ → ZeroSide → Type 0
Blank a b first_side = (blank a b ≡ true) × (blank b a ≡ false)
Blank a b second_side = (blank b a ≡ true) × (blank a b ≡ false)
Blank a b neither = ⊥

abbrev pub Means : List ℕ → List ℕ → DiffKind → ZeroSide → Type 0
Means a b zeros side = (512 ≤ differing a b) × Blank a b side
Means a b tail side = (512 ≤ differing a b) × Blank a b side
Means a b bitflip side = (differing a b ≤ 8) × (flipped a b ≤ 2)
Means a b mixed side = Unit

abbrev pub Compared : List ℕ → List ℕ → Option DiffShape → Type 0
Compared a b none = differing a b ≡ 0
Compared a b (some d) = (d.bytes ≡ differing a b) × (0 < d.bytes) × Means a b d.kind d.zero_side

-- The tally after the loop, by what it was before.
record Tallied (t u : Tally) (a b : List ℕ) : Type 0 where
  bytes : u.bytes ≡ t.bytes + differing a b
  first_zero : u.a_all_zero ≡ (t.a_all_zero && blank a b)
  second_zero : u.b_all_zero ≡ (t.b_all_zero && blank b a)
  bits : u.bytes ≤ 64 → u.bits_set ≡ t.bits_set + flipped a b

Tallied-end :
    (t : Tally) (a b : List ℕ)
    → differing a b ≡ 0
    → flipped a b ≡ 0
    → blank a b ≡ true
    → blank b a ≡ true
    → Tallied t t a b
Tallied-end t a b n m h k = record {
  bytes = omega (arith, n);
  first_zero = ground (arith, h);
  second_zero = ground (arith, k);
  bits = λ le. omega (arith, m);
}

tally_byte_same : (off x y : ℕ) (t : Tally) → (x == y) ≡ true → tally_byte off x y t ≡ t
unfolding tally_byte
tally_byte_same off x y t same = rw same refl

Tallied-same :
    (x y : ℕ) (t u : Tally) (a b : List ℕ)
    → (x == y) ≡ true
    → Tallied t u a b
    → Tallied t u (x ∷ a) (y ∷ b)
Tallied-same x y t u a b same r = record {
  bytes = ground (arith, r.bytes, same);
  first_zero = ground (arith, r.first_zero, same);
  second_zero = ground (arith, r.second_zero, same);
  bits = λ le. ground (arith, r.bits le, same);
}

Tallied-differ :
    (off x y : ℕ) (t u : Tally) (a b : List ℕ)
    → (x == y) ≡ false
    → Tallied (tally_byte off x y t) u a b
    → Tallied t u (x ∷ a) (y ∷ b)
unfolding tally_byte
Tallied-differ off x y t u a b differ r = record {
  bytes = ground (arith, r.bytes, differ);
  first_zero = ground (arith, r.first_zero, differ);
  second_zero = ground (arith, r.second_zero, differ);
  bits = λ le. ground (arith, r.bits le, r.bytes, le, differ);
}

tally_from-Tallied : (off : ℕ) (t : Tally) (a b : List ℕ) → Tallied t (tally_from off t a b) a b
unfolding tally_from
tally_from-Tallied off t [] [] = Tallied-end t [] [] refl refl refl refl
tally_from-Tallied off t [] (y ∷ ys) = Tallied-end t [] (y ∷ ys) refl refl refl refl
tally_from-Tallied off t (x ∷ xs) [] = Tallied-end t (x ∷ xs) [] refl refl refl refl
tally_from-Tallied off t (x ∷ xs) (y ∷ ys) =
    let u = tally_from (suc off) (tally_byte off x y t) xs ys in
    let rest = tally_from-Tallied (suc off) (tally_byte off x y t) xs ys in
    elim (Bool-cases (x == y)) [
      | inl same ↦
          Tallied-same x y t u xs ys same
            (subst (λ s. Tallied s u xs ys) (tally_byte_same off x y t same) rest)
      | inr differ ↦ Tallied-differ off x y t u xs ys differ rest
    ]

lossy :
    (t : Tally) (a b : List ℕ)
    → Tallied no_tally t a b
    → bool_eq t.a_all_zero t.b_all_zero ≡ false
    → 512 ≤ t.bytes
    → (512 ≤ differing a b) × Blank a b (if t.a_all_zero then first_side else second_side)
lossy t a b r apart many = (
  omega (arith, many, r.bytes),
  elim (Bool-cases t.a_all_zero) [
    | inl first ↦
        rw first (ground (arith, r.first_zero, first), ground (arith, r.second_zero, first, apart))
    | inr second ↦
        rw second
          (ground (arith, r.second_zero, second, apart), ground (arith, r.first_zero, second))
  ],
)

kind_of-Means :
    (t : Tally) (size : ℕ) (a b : List ℕ)
    → Tallied no_tally t a b
    → (k : DiffKind) → kind_of t size ≡ k
    → Means a b k (zero_side_of k t)
unfolding kind_of
kind_of-Means t size a b r zeros e = lossy t a b r (ground (arith, e)) (ground (arith, e))
kind_of-Means t size a b r tail e = lossy t a b r (ground (arith, e)) (ground (arith, e))
kind_of-Means t size a b r bitflip e =
    let few : t.bytes ≤ 8 = ground (arith, e) in
    let bits : t.bits_set ≤ 2 = ground (arith, e) in
    (omega (arith, few, r.bytes), omega (arith, bits, r.bits (omega (arith, few))))
kind_of-Means t size a b r mixed e = tt

-- If the comparison finds no difference, no byte differs up to the end of the shorter content. Else
-- it counts the bytes that differ; a run of zeros is 512 of them at least, and NUL throughout on the
-- side that it names and not on the other; and a bit flip is at most 8 bytes and 2 bits.
pub compare_content-Compared : (a b : List ℕ) (size : ℕ) → Compared a b (compare_content a b size)
unfolding compare_content classify
compare_content-Compared a b size =
    let t = tally_from 0 no_tally a b in
    let r = tally_from-Tallied 0 no_tally a b in
    elim (Bool-cases (t.bytes == 0)) [
      | inl same ↦ rw same (ground (arith, r.bytes, same))
      | inr differ ↦ rw differ (
        ground (arith, r.bytes),
        ground (arith, differ),
        kind_of-Means t size a b r (kind_of t size) refl,
      )
    ]
