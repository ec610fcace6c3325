-- ===== src/Scan/Bounded.antt =====
-- The bounded lists of server/stream.go: `boundedTop` and `groupTop`, with the ranking of groups.
-- Of a slice that container/heap orders, the program reads the root and, sorted, the elements: the
-- heap here is the slice with its least element first. `sort.Slice` is a stable sort.
pub mod Keeping
pub mod Truncates
pub mod Ranking
pub mod Listing
pub mod Groups
use duplicatefinder.Base.{
  text_lt, text_eq, lt64, ◌/◌, ltb, mul64, not, ◌==◌, suc, ◌+◌, none, length, [], if◌then◌else◌,
  add64, ◌∷◌, some, Option, List, ℕ, Bool, Text,
}
use duplicatefinder.Model.{TruncInfo}
use duplicatefinder.Results.View.{insert_stable, sort_stable}
use duplicatefinder.Scan.Copies.{FEnt, copy_phys, reclaim_phys}

-- `heap.Push(t, x)`, and `h[0] = x; heap.Fix(t, 0)` where `h` follows the root.
unfoldable pub heap_push {ℓ} : {A : Type ℓ} → (A → A → Bool) → A → List A → List A
heap_push less x h = insert_stable less x h

pub record BoundedTop (A : Type 0) : Type 0 where
  pub limit : ℕ
  pub ents : List A
  pub dropped : ℕ

module _ {A : Type 0} (keep_before : A → A → Bool) where
  abbrev pub heap_less : A → A → Bool
  heap_less a b = keep_before b a

  abbrev pub new_bounded_top : ℕ → BoundedTop A
  new_bounded_top limit = record { limit = limit; ents = []; dropped = 0 }

  -- `add` of a list that is full; `none` is the panic on the root of an empty list.
  abbrev pub add_full : BoundedTop A → A → List A → Option (BoundedTop A)
  add_full t f [] = none
  add_full t f (root ∷ h) = some (record t {
    ents = if keep_before f root then heap_push heap_less f h else root ∷ h;
    dropped = suc t.dropped;
  })

  unfoldable pub bounded_add : BoundedTop A → A → Option (BoundedTop A)
  unfolding heap_push
  bounded_add t f =
      if ltb (length t.ents) t.limit
      then some (record t { ents = heap_push heap_less f t.ents })
      else add_full t f t.ents

  -- The calls of `add` of a whole stream.
  unfoldable pub bounded_add_all : BoundedTop A → List A → Option (BoundedTop A)
  unfolding bounded_add
  bounded_add_all t [] = some t
  bounded_add_all t (f ∷ fs) = elim (bounded_add t f) [
    | none ↦ none
    | some u ↦ bounded_add_all u fs
  ]

  unfoldable pub bounded_final : BoundedTop A → List A × Option TruncInfo
  bounded_final t = (
    sort_stable keep_before t.ents,
    if t.dropped == 0 then none else some (record { groups = 0; files = t.dropped; cap = t.limit }),
  )

pub record RawGroup : Type 0 where
  pub size : ℕ
  pub hash : Text
  pub pfx : Text
  pub files : List FEnt
  pub extra : ℕ

unfoldable pub weight : RawGroup → ℕ
weight g = add64 (reclaim_phys (copy_phys g.files)) (mul64 g.size g.extra)

-- `g.files[0].path`; a group has files.
abbrev pub first_path : List FEnt → Text
first_path [] = []
first_path (f ∷ fs) = f.path

unfoldable pub better_group : RawGroup → RawGroup → Bool
better_group a b =
    if not (weight a == weight b)
    then lt64 (weight b) (weight a)
    else if not (text_eq a.hash b.hash)
    then text_lt a.hash b.hash
    else text_lt (first_path a.files) (first_path b.files)

pub record GroupTop : Type 0 where
  pub limit : ℕ
  pub gs : List RawGroup
  pub dropped_groups : ℕ
  pub dropped_files : ℕ

abbrev pub group_limit : ℕ → ℕ
group_limit budget = if ltb (budget / 2 + 1) 1 then 1 else budget / 2 + 1

unfoldable pub new_group_top : ℕ → GroupTop
new_group_top budget = record {
  limit = group_limit budget;
  gs = [];
  dropped_groups = 0;
  dropped_files = 0;
}

abbrev pub row_count : RawGroup → ℕ
row_count g = length g.files + g.extra

abbrev pub group_less : RawGroup → RawGroup → Bool
group_less a b = better_group b a

abbrev pub group_add_full : GroupTop → RawGroup → List RawGroup → Option GroupTop
group_add_full t g [] = none
group_add_full t g (root ∷ h) = some (
    if better_group g root
    then record t {
      gs = heap_push group_less g h;
      dropped_groups = suc t.dropped_groups;
      dropped_files = t.dropped_files + row_count root;
    }
    else record t {
      dropped_groups = suc t.dropped_groups;
      dropped_files = t.dropped_files + row_count g;
    })

unfoldable pub group_add : GroupTop → RawGroup → Option GroupTop
unfolding heap_push
group_add t g =
    if ltb (length t.gs) t.limit
    then some (record t { gs = heap_push group_less g t.gs })
    else group_add_full t g t.gs

unfoldable pub group_add_all : GroupTop → List RawGroup → Option GroupTop
unfolding group_add
group_add_all t [] = some t
group_add_all t (g ∷ gs) = elim (group_add t g) [ none ↦ none | some u ↦ group_add_all u gs ]

unfoldable pub note_skipped : GroupTop → ℕ → GroupTop
note_skipped t n = record t { dropped_files = t.dropped_files + n }

unfoldable pub sorted_groups : GroupTop → List RawGroup
sorted_groups t = sort_stable better_group t.gs
