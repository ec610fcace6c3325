-- ===== src/Results/Paging.antt =====
-- `clampPage`, `slicePage` of server/results.go.
use Prim.Native.Nat.{min}
use duplicatefinder.Base.{
  some, none, Option, ap, ltb→lt, take_of_length-le, inr, sym, ◌∙◌, length-drop, length-take, inl,
  ◌++◌, Bool-cases, refl, zero, ◌∷◌, ◌-◌, suc, [], ◌+◌, ◌==◌, negsuc, take, drop, ltb, arith, ◌≤◌,
  ◌≡◌, if◌then◌else◌, length, pos, ℕ, ℤ, List, Text,
}
use duplicatefinder.Prune.{is_grouped}

abbrev pub max_group_limit : ℕ
max_group_limit = 5000

abbrev pub max_file_limit : ℕ
max_file_limit = 20000

abbrev pub def_group_limit : ℕ
def_group_limit = 100

abbrev pub def_file_limit : ℕ
def_file_limit = 500

-- `if lim <= 0 { lim = defL }`.
abbrev pub or_default : ℤ → ℕ → ℕ
or_default (pos n) d = if n == 0 then d else n
or_default (negsuc n) d = d

-- `if off < 0 { off = 0 }`.
abbrev pub at_least_zero : ℤ → ℕ
at_least_zero (pos n) = n
at_least_zero (negsuc n) = 0

abbrev pub max_limit : Text → ℕ
max_limit tool = if is_grouped tool then max_group_limit else max_file_limit

abbrev pub def_limit : Text → ℕ
def_limit tool = if is_grouped tool then def_group_limit else def_file_limit

unfoldable pub clamp_page : Text → ℤ → ℤ → ℕ × ℕ
clamp_page tool off lim =
    let l = or_default lim (def_limit tool) in
    (at_least_zero off, if ltb (max_limit tool) l then max_limit tool else l)

-- `slicePage`: the copy of `in[off:end]` with both ends brought inside the list.
unfoldable pub slice_page {ℓ} : {A : Type ℓ} → List A → ℕ → ℕ → List A
slice_page xs off lim =
    let off' = if ltb (length xs) off then length xs else off in
    let end' = if ltb (length xs) (off' + lim) then length xs else off' + lim in
    take (end' - off') (drop off' xs)

take-nil {ℓ} : {A : Type ℓ} (n : ℕ) → ◌≡◌ {A = List A} (take n []) []
take-nil zero = refl
take-nil (suc n) = refl

drop-nil {ℓ} : {A : Type ℓ} (n : ℕ) → ◌≡◌ {A = List A} (drop n []) []
drop-nil zero = refl
drop-nil (suc n) = refl

drop-length {ℓ} : {A : Type ℓ} (xs : List A) (n : ℕ) → length xs ≤ n → drop n xs ≡ []
drop-length [] zero h = refl
drop-length [] (suc n) h = refl
drop-length (x ∷ xs) zero h = absurd (omega arith)
drop-length (x ∷ xs) (suc n) h = drop-length xs n (omega arith)

-- The page without the clamps.
slice_page-eq {ℓ} :
    {A : Type ℓ} (xs : List A) (off lim : ℕ) → slice_page xs off lim ≡ take lim (drop off xs)
unfolding slice_page
slice_page-eq xs off lim = elim (Bool-cases (ltb (length xs) off)) [
  | inl past ↦
      let gone : drop off xs ≡ [] = drop-length xs off (ground arith) in
      let gone' : drop (length xs) xs ≡ [] = drop-length xs (length xs) (omega arith) in
      rw (past, gone, gone') (take-nil _ ∙ sym (take-nil lim))
  | inr inside ↦ elim (Bool-cases (ltb (length xs) (off + lim))) [
    | inl cut ↦
        rw (inside, cut)
          (take_of_length-le (length xs - off) (drop off xs) (omega (arith, length-drop off xs))
            ∙ sym (
                take_of_length-le lim (drop off xs)
                  (omega (arith, length-drop off xs, ltb→lt (length xs) (off + lim) cut))))
    | inr fits ↦ let same : off + lim - off ≡ lim = omega arith in rw (inside, fits, same) refl
  ]
]

take-drop-append {ℓ} :
    {A : Type ℓ} (xs : List A) (off a b : ℕ)
    → take a (drop off xs) ++ take b (drop (off + a) xs) ≡ take (a + b) (drop off xs)
take-drop-append {A} [] off a b =
    rw (drop-nil {A = A} off, drop-nil {A = A} (off + a), take-nil {A = A} a, take-nil {A = A} b)
      (sym (take-nil {A = A} (a + b)))
take-drop-append (x ∷ xs) zero zero b = let e : zero + b ≡ b = omega arith in rw e refl
take-drop-append (x ∷ xs) zero (suc a) b =
    let e : zero + suc a ≡ suc (zero + a) = omega arith in
    let e' : suc a + b ≡ suc (a + b) = omega arith in
    rw (e, e') (ap (◌∷◌ x) (take-drop-append xs zero a b))
take-drop-append (x ∷ xs) (suc off) a b =
    let e : suc off + a ≡ suc (off + a) = omega arith in rw e (take-drop-append xs off a b)

-- The entry at an index.
abbrev pub entry {ℓ} : {A : Type ℓ} → List A → ℕ → Option A
entry [] i = none
entry (x ∷ xs) zero = some x
entry (x ∷ xs) (suc i) = entry xs i

entry-take {ℓ} :
    {A : Type ℓ} (xs : List A) (a i : ℕ)
    → entry (take a xs) i ≡ (if ltb i a then entry xs i else none)
entry-take xs zero i = ground arith
entry-take [] (suc a) i = ground arith
entry-take (x ∷ xs) (suc a) zero = ground arith
entry-take (x ∷ xs) (suc a) (suc i) = ground (arith, entry-take xs a i)

entry-drop {ℓ} : {A : Type ℓ} (xs : List A) (off i : ℕ) → entry (drop off xs) i ≡ entry xs (off + i)
entry-drop xs zero i = let e : zero + i ≡ i = omega arith in rw e refl
entry-drop [] (suc off) i = refl
entry-drop (x ∷ xs) (suc off) i =
    let e : suc off + i ≡ suc (off + i) = omega arith in rw e (entry-drop xs off i)

-- A page holds, at each index below its limit, the entry of the list that stands that far behind
-- the offset, if there is one, and nothing from its limit on; it is as long as its limit and the rest of the list allow; and
-- a page of `a` entries and the page of `b` entries behind it are the page of `a + b` entries.
pub slice_page-tiles {ℓ} :
    {A : Type ℓ} (xs : List A) (off a b i : ℕ)
    → (entry (slice_page xs off a) i ≡ (if ltb i a then entry xs (off + i) else none))
      × (slice_page xs off a ++ slice_page xs (off + a) b ≡ slice_page xs off (a + b))
      × (length (slice_page xs off a) ≡ min a (length xs - off))
slice_page-tiles xs off a b i = (
  rw (slice_page-eq xs off a, ← entry-drop xs off i) (entry-take (drop off xs) a i),
  rw (slice_page-eq xs off a, slice_page-eq xs (off + a) b, slice_page-eq xs off (a + b))
      (take-drop-append xs off a b),
  rw (slice_page-eq xs off a) (omega (arith, length-take a (drop off xs), length-drop off xs)),
)

-- Whatever offset and limit a client sends, a page has a limit of at least 1 and at most the
-- tool's largest number of entries.
pub clamp_page_bounds :
    (tool : Text) (off lim : ℤ)
    → (1 ≤ (clamp_page tool off lim).1) × ((clamp_page tool off lim).1 ≤ max_limit tool)
unfolding clamp_page
clamp_page_bounds tool off (pos n) = ground arith
clamp_page_bounds tool off (negsuc n) = ground arith
