-- ===== src/Results/Trim.antt =====
-- `trimGroupRows` of server/results.go.
use duplicatefinder.Base.{
  refl, length-take, ltb→lt, inr, ◌⊎◌, arith, [], ◌<◌, ◌*◌, inl, ◌+◌, ltb, ◌-◌, length, ◌≤◌,
  if◌then◌else◌, take, Bool-cases, ◌∷◌, List, ℕ, ◌≡◌,
}
use duplicatefinder.Model.{Group}

abbrev pub max_page_rows : ℕ
max_page_rows = 2000

abbrev pub max_group_rows : ℕ
max_group_rows = 500

abbrev pub min_group_rows : ℕ
min_group_rows = 2

unfoldable pub room_for : ℕ → ℕ
room_for budget =
    let room = if ltb max_group_rows budget then max_group_rows else budget in
    if ltb room min_group_rows then min_group_rows else room

unfoldable pub trim_group : ℕ → Group → Group
trim_group room g =
    if ltb room (length g.files)
    then record g { files = take room g.files; count = length g.files }
    else g

-- The loop; the budget stops at 0.
unfoldable pub trim_from : ℕ → List Group → List Group
trim_from budget [] = []
trim_from budget (g ∷ gs) =
    let g' = trim_group (room_for budget) g in g' ∷ trim_from (budget - length g'.files) gs

unfoldable pub trim_group_rows : List Group → List Group
trim_group_rows = trim_from max_page_rows

abbrev pub rows : List Group → ℕ
rows [] = 0
rows (g ∷ gs) = length g.files + rows gs

-- A page entry is its group, or shows its first rows and says how many there are.
abbrev pub IsTrimOf : Group → Group → Type 0
IsTrimOf g t =
    ((t ≡ g) × (length g.files ≤ max_group_rows))
    ⊎ ((n : ℕ) × (min_group_rows ≤ n)
        × (n ≤ max_group_rows)
        × (n < length g.files)
        × (t ≡ record g { files = take n g.files; count = length g.files }))

abbrev pub Trims : List Group → List Group → Type 0
Trims [] [] = Unit
Trims (g ∷ gs) (t ∷ ts) = IsTrimOf g t × Trims gs ts
Trims _ _ = ⊥

room_for_bounds : (b : ℕ) → (2 ≤ room_for b) × (room_for b ≤ 500) × (room_for b ≤ b + 2)
unfolding room_for
room_for_bounds b = ground arith

trim_group-IsTrimOf : (b : ℕ) (g : Group) → IsTrimOf g (trim_group (room_for b) g)
unfolding trim_group
trim_group-IsTrimOf b g =
    let (low, high, near) = room_for_bounds b in
    elim (Bool-cases (ltb (room_for b) (length g.files))) [
      | inl e ↦ rw e (inr (room_for b, low, high, ltb→lt (room_for b) (length g.files) e, refl))
      | inr e ↦ rw e (inl (refl, ground arith))
    ]

length-trim_group : (b : ℕ) (g : Group) → length (trim_group (room_for b) g).files ≤ b + 2
unfolding trim_group
length-trim_group b g =
    let (low, high, near) = room_for_bounds b in
    elim (Bool-cases (ltb (room_for b) (length g.files))) [
      | inl e ↦ rw e (omega (arith, length-take (room_for b) g.files))
      | inr e ↦ rw e (ground arith)
    ]

trim_from-Trims : (b : ℕ) (gs : List Group) → Trims gs (trim_from b gs)
unfolding trim_from
trim_from-Trims b [] = tt
trim_from-Trims b (g ∷ gs) =
    (trim_group-IsTrimOf b g, trim_from-Trims (b - length (trim_group (room_for b) g).files) gs)

trim_from-rows : (b : ℕ) (gs : List Group) → rows (trim_from b gs) ≤ b + 2 * length gs
unfolding trim_from
trim_from-rows b [] = omega arith
trim_from-rows b (g ∷ gs) =
    omega (
      arith,
      length-trim_group b g,
      trim_from-rows (b - length (trim_group (room_for b) g).files) gs,
    )

-- A page of duplicate groups lists every group, in order: whole, if it has at most 500 rows, or
-- cut to its first rows (between 2 and 500 of them) with its true number of members. The page has
-- at most 2000 rows and two more for each group.
pub trim_group_rows-Trims :
    (gs : List Group)
    → Trims gs (trim_group_rows gs) × (rows (trim_group_rows gs) ≤ 2000 + 2 * length gs)
unfolding trim_group_rows
trim_group_rows-Trims gs = (trim_from-Trims max_page_rows gs, trim_from-rows max_page_rows gs)
