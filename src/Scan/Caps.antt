-- ===== src/Scan/Caps.antt =====
-- `capCutIndex` and `capDuplicateGroups` of server/duplicates.go.
use duplicatefinder.Base.{
  leb→le, sym, length-take, take_of_length-le, ltb→lt, ◌⊎◌, inr, inl, refl, Bool-cases, zero, suc,
  ◌<◌, arith, ap, ◌≡◌, ◌≤◌, drop, ◌-◌, some, take, ◌&&◌, none, [], ltb, leb, length, ◌+◌,
  if◌then◌else◌, map, ◌∷◌, Option, List, ℕ,
}
use mathlib.Core.Path.{subst}
use duplicatefinder.Model.{Group, TruncInfo}

-- The loop of `capCutIndex` from index `i` on, over the sizes that `filesAt` returns.
unfoldable pub cut_from : ℕ → ℕ → ℕ → List ℕ → ℕ
cut_from budget i total [] = i
cut_from budget i total (c ∷ cs) =
    let rest = cut_from budget (i + 1) (total + c) cs in
    if ltb 0 i && ltb budget (total + c) then i else rest

unfoldable pub cap_cut_index : List ℕ → ℕ → ℕ
unfolding cut_from
cap_cut_index sizes budget = cut_from budget 0 0 sizes

abbrev pub sizes : List Group → List ℕ
sizes = map (λ g. length g.files)

abbrev pub total : List ℕ → ℕ
total [] = 0
total (n ∷ ns) = n + total ns

unfoldable pub cap_duplicate_groups : List Group → ℕ → List Group × Option TruncInfo
unfolding cap_cut_index
cap_duplicate_groups gs budget =
    let cut = cap_cut_index (sizes gs) budget in
    if leb (length gs) cut then (gs, none) else (
      take cut gs,
      some (record { groups = length gs - cut; files = total (sizes (drop cut gs)); cap = budget }),
    )

total-take-drop : (n : ℕ) (ns : List ℕ) → total (take n ns) + total (drop n ns) ≡ total ns
total-take-drop zero ns = omega arith
total-take-drop (suc n) [] = refl
total-take-drop (suc n) (m ∷ ns) = omega (arith, total-take-drop n ns)

sizes-take : (n : ℕ) (gs : List Group) → sizes (take n gs) ≡ take n (sizes gs)
sizes-take zero gs = refl
sizes-take (suc n) [] = refl
sizes-take (suc n) (g ∷ gs) = ap (◌∷◌ (length g.files)) (sizes-take n gs)

sizes-drop : (n : ℕ) (gs : List Group) → sizes (drop n gs) ≡ drop n (sizes gs)
sizes-drop zero gs = refl
sizes-drop (suc n) [] = refl
sizes-drop (suc n) (g ∷ gs) = sizes-drop n gs

length-sizes : (gs : List Group) → length (sizes gs) ≡ length gs
length-sizes [] = refl
length-sizes (g ∷ gs) = ap suc (length-sizes gs)

-- A cut at `k` entries of `ns`: it fits, and if there is a next entry, that one does not.
abbrev pub CutsAt : ℕ → ℕ → List ℕ → ℕ → Type 0
CutsAt budget before ns k =
    (k ≤ length ns)
    × (before + total (take k ns) ≤ budget)
    × ((k < length ns) → budget < before + total (take (suc k) ns))

cut_from-CutsAt :
    (budget i before : ℕ) (ns : List ℕ)
    → 1 ≤ i
    → before ≤ budget
    → (k : ℕ) × (cut_from budget i before ns ≡ i + k) × CutsAt budget before ns k
unfolding cut_from
cut_from-CutsAt budget i before [] h f =
    (0, omega arith, (omega arith, omega arith, λ l. absurd (omega arith)))
cut_from-CutsAt budget i before (c ∷ cs) h f = elim (Bool-cases (ltb budget (before + c))) [
  | inl over ↦ (0, ground arith, (omega arith, omega arith, λ l. ground arith))
  | inr fits ↦
      let (k, e, (le, under, next)) =
        cut_from-CutsAt budget (i + 1) (before + c) cs (omega arith) (ground arith) in
      (
        suc k,
        ground (arith, e),
        (omega (arith, le), omega (arith, under), λ l. omega (arith, next (omega (arith, l)))),
      )
]

-- What the cap keeps of `gs`: a run of whole groups from the front. It fits the budget or is the
-- first group alone, and it is as long as the budget allows.
abbrev pub Caps : ℕ → List Group → List Group → Type 0
Caps budget gs kept =
    (kept ≡ take (length kept) gs)
    × ((length kept ≤ 1) ⊎ (total (sizes kept) ≤ budget))
    × ((length kept < length gs) → budget < total (take (suc (length kept)) (sizes gs)))

-- The note counts what is missing.
abbrev pub Accounts : ℕ → List Group → List Group → Option TruncInfo → Type 0
Accounts budget gs kept none = kept ≡ gs
Accounts budget gs kept (some t) =
    (t.groups + length kept ≡ length gs)
    × (t.files + total (sizes kept) ≡ total (sizes gs))
    × (t.cap ≡ budget)

cut_from-over :
    (budget i before : ℕ) (ns : List ℕ)
    → 1 ≤ i
    → budget < before
    → (cut_from budget i before ns ≡ i) ⊎ (ns ≡ [])
unfolding cut_from
cut_from-over budget i before [] h over = inr refl
cut_from-over budget i before (c ∷ cs) h over = inl (ground arith)

-- Where the cut falls.
abbrev pub IsCut : ℕ → List ℕ → ℕ → Type 0
IsCut budget ns k =
    (k ≤ length ns)
    × ((k ≤ 1) ⊎ (total (take k ns) ≤ budget))
    × ((k < length ns) → budget < total (take (suc k) ns))

cap_cut_index-IsCut : (ns : List ℕ) (budget : ℕ) → IsCut budget ns (cap_cut_index ns budget)
unfolding cap_cut_index cut_from
cap_cut_index-IsCut [] budget = (omega arith, inl (omega arith), λ l. absurd (omega arith))
cap_cut_index-IsCut (c ∷ cs) budget = elim (Bool-cases (ltb budget c)) [
  | inl over ↦ first_alone cs (ltb→lt budget c over)
  | inr fits ↦
      let (k, e, (le, under, next)) =
        cut_from-CutsAt budget (0 + 1) (0 + c) cs (omega arith) (ground arith) in
      let e' : cut_from budget (0 + 1) (0 + c) cs ≡ suc k = omega (arith, e) in
      rw e'
        (omega (arith, le), inr (omega (arith, under)), λ l. omega (arith, next (omega (arith, l))))
]
  where
    first_alone :
        (ds : List ℕ) → budget < c → IsCut budget (c ∷ ds) (cut_from budget (0 + 1) (0 + c) ds)
    first_alone [] over = (omega arith, inl (omega arith), λ l. absurd (omega (arith, l)))
    first_alone (d ∷ ds) over =
        let e : cut_from budget (0 + 1) (0 + c) (d ∷ ds) ≡ 1 = ground arith in
        rw e (omega arith, inl (omega arith), λ l. omega arith)

take_whole : (gs : List Group) → gs ≡ take (length gs) gs
take_whole gs = sym (take_of_length-le (length gs) gs (omega arith))

cut-Caps : (gs : List Group) (budget k : ℕ) → IsCut budget (sizes gs) k → Caps budget gs (take k gs)
cut-Caps gs budget k (le, fits, next) =
    let n : length (take k gs) ≡ k = omega (arith, length-take k gs, length-sizes gs, le) in
    rw (n, sizes-take k gs, ← length-sizes gs) (refl, fits, next)

-- The cap keeps whole groups from the front of the list, as many as fit the budget of files and
-- at least the first one, and what it reports as dropped is exactly the rest.
pub cap_duplicate_groups-Caps :
    (gs : List Group) (budget : ℕ)
    → Caps budget gs (cap_duplicate_groups gs budget).0
      × Accounts budget gs (cap_duplicate_groups gs budget).0 (cap_duplicate_groups gs budget).1
unfolding cap_duplicate_groups
cap_duplicate_groups-Caps gs budget =
    let cut = cap_cut_index (sizes gs) budget in
    let is_cut : IsCut budget (sizes gs) cut = cap_cut_index-IsCut (sizes gs) budget in
    let caps : Caps budget gs (take cut gs) = cut-Caps gs budget cut is_cut in
    elim (Bool-cases (leb (length gs) cut)) [
      | inl all_kept ↦
          let whole = take_of_length-le cut gs (leb→le (length gs) cut all_kept) in
          rw all_kept (subst (Caps budget gs) whole caps, refl)
      | inr some_dropped ↦ rw some_dropped (
        caps,
        (
          omega (arith, length-take cut gs, length-sizes gs, is_cut.0),
          rw (sizes-take cut gs, sizes-drop cut gs) (omega (arith, total-take-drop cut (sizes gs))),
          refl,
        ),
      )
    ]
