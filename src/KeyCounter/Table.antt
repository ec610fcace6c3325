-- ===== src/KeyCounter/Table.antt =====
-- The table of two-bit counters of server/stream.go.
use native.Mathlib.Decide.{ℕ_discrete}
use Prim.Native.Nat.{min}
use duplicatefinder.Base.{
  sym, ◌∙◌, ltb→lt, ap, refl, false, ◌≢◌, ◌%◌, ◌+◌, true, ◌/◌, inl, inr, ◌==◌, if◌then◌else◌, ltb,
  zero, ◌≡◌, arith, Bool-cases, suc, ◌≤◌, ◌<◌, ℕ,
}
use duplicatefinder.KeyCounter.{put_field, store, field, bump_at, get}

-- What a statement about the four fields of a byte needs.
at_four : (P : ℕ → Type 0) → P 0 → P 1 → P 2 → P 3 → (i : ℕ) → i < 4 → P i
at_four P a b c d zero h = a
at_four P a b c d (suc zero) h = b
at_four P a b c d (suc (suc zero)) h = c
at_four P a b c d (suc (suc (suc zero))) h = d
at_four P a b c d (suc (suc (suc (suc i)))) h = absurd (omega arith)

abbrev Reads : ℕ → ℕ → ℕ → ℕ → Type 0
Reads b v i j = field (put_field b i v) j ≡ (if i == j then v else field b j)

module _ (b v : ℕ) (h : v < 4) where
  Reads-0 : (j : ℕ) → j < 4 → Reads b v 0 j
  unfolding field put_field
  Reads-0 = at_four (Reads b v 0) (omega arith) (omega arith) (omega arith) (omega arith)

  Reads-1 : (j : ℕ) → j < 4 → Reads b v 1 j
  unfolding field put_field
  Reads-1 = at_four (Reads b v 1) (omega arith) (omega arith) (omega arith) (omega arith)

  Reads-2 : (j : ℕ) → j < 4 → Reads b v 2 j
  unfolding field put_field
  Reads-2 = at_four (Reads b v 2) (omega arith) (omega arith) (omega arith) (omega arith)

  Reads-3 : (j : ℕ) → j < 4 → Reads b v 3 j
  unfolding field put_field
  Reads-3 = at_four (Reads b v 3) (omega arith) (omega arith) (omega arith) (omega arith)

  -- A field reads what was put there, and the other fields of the byte read what they did.
  field-put_field : (i j : ℕ) → i < 4 → j < 4 → Reads b v i j
  field-put_field i j hi hj =
      at_four (λ k. Reads b v k j) (Reads-0 j hj) (Reads-1 j hj) (Reads-2 j hj) (Reads-3 j hj) i hi

get_lem : (tab : ℕ → ℕ) (r : ℕ) → get tab r ≡ field (tab (r / 4)) (r % 4)
unfolding get
get_lem tab r = refl

store_self : (tab : ℕ → ℕ) (j b i : ℕ) → i ≡ j → store tab j b i ≡ b
unfolding store
store_self tab j b i e = ground arith

store_ne : (tab : ℕ → ℕ) (j b i : ℕ) → i ≢ j → store tab j b i ≡ tab i
unfolding store
store_ne tab j b i e = ground arith

bump_at_full : (tab : ℕ → ℕ) (p : ℕ) → ltb (get tab p) 2 ≡ false → bump_at tab p ≡ tab
unfolding bump_at
bump_at_full tab p h = rw h refl

bump_at_room :
    (tab : ℕ → ℕ) (p : ℕ)
    → ltb (get tab p) 2 ≡ true
    → bump_at tab p ≡ store tab (p / 4) (put_field (tab (p / 4)) (p % 4) (get tab p + 1))
unfolding bump_at
bump_at_room tab p h = rw h refl

-- What the counters of the bumped byte read.
get_same_byte :
    (tab : ℕ → ℕ) (p r : ℕ)
    → ltb (get tab p) 2 ≡ true
    → r / 4 ≡ p / 4
    → get (bump_at tab p) r ≡ (if p % 4 == r % 4 then get tab p + 1 else get tab r)
get_same_byte tab p r room same =
    let v : get tab p + 1 < 4 = omega (arith, ltb→lt (get tab p) 2 room) in
    rw (bump_at_room tab p room, get_lem, store_self tab (p / 4) _ (r / 4) same)
      (field-put_field (tab (p / 4)) (get tab p + 1) v (p % 4) (r % 4) (omega arith) (omega arith)
        ∙ ap (λ x. if p % 4 == r % 4 then get tab p + 1 else x)
            (ap (λ x. field (tab x) (r % 4)) (sym same) ∙ sym (get_lem tab r)))

get_other_byte :
    (tab : ℕ → ℕ) (p r : ℕ)
    → ltb (get tab p) 2 ≡ true
    → r / 4 ≢ p / 4
    → get (bump_at tab p) r ≡ get tab r
get_other_byte tab p r room other =
    rw (bump_at_room tab p room, get_lem, store_ne tab (p / 4) _ (r / 4) other)
      (sym (get_lem tab r))

pub get-bump_at_mono : (tab : ℕ → ℕ) (p r : ℕ) → get tab r ≤ get (bump_at tab p) r
get-bump_at_mono tab p r = elim (Bool-cases (ltb (get tab p) 2)) [
  | inr full ↦ rw (bump_at_full tab p full) (omega arith)
  | inl room ↦ elim (ℕ_discrete (r / 4) (p / 4)) [
    | no other ↦ rw (get_other_byte tab p r room other) (omega arith)
    | yes same ↦
        let slot : p % 4 ≡ r % 4 → get tab r ≡ get tab p = λ e. ap (get tab) (omega arith) in
        rw (get_same_byte tab p r room same) (ground (arith, slot))
  ]
]

pub get-bump_at_self : (tab : ℕ → ℕ) (p : ℕ) → min 2 (get tab p + 1) ≤ get (bump_at tab p) p
get-bump_at_self tab p = elim (Bool-cases (ltb (get tab p) 2)) [
  | inr full ↦ rw (bump_at_full tab p full) (ground arith)
  | inl room ↦ rw (get_same_byte tab p p room refl) (ground arith)
]
