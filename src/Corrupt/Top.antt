-- ===== src/Corrupt/Top.antt =====
-- `buildSet` and `corruptTop` of server/corrupt.go: the sets that a scan keeps, and what it counts
-- of those it does not. `sort.Slice` is a stable sort.
use duplicatefinder.Results.View.{sort_stable}
use duplicatefinder.Scan.Bounded.Keeping.{total, total-append, total-sort_stable}
use duplicatefinder.Corrupt.{CorruptFile, CorruptSet, is_some, better_set, content_key, add_key}
use duplicatefinder.Base.{
  any, to_lower, take-append-drop, ap, text_eq, all, inr, inl, ◌-◌, leb, take, ◌/◌, drop, arith,
  codes, ltb, Bool-cases, [], not, ◌||◌, length, ◌&&◌, ◌+◌, ◌∷◌, ◌≡◌, ◌++◌, text_lt, if◌then◌else◌,
  Text, ℕ, List, Bool,
}

abbrev pub corrupt_file_cap : ℕ
corrupt_file_cap = 20000

abbrev pub flagged_file : CorruptFile → Bool
flagged_file m = is_some m.read_err || m.content_changed

-- The key of a member in the map of variants.
abbrev pub variant_key : CorruptFile → Text
variant_key m = if is_some m.read_err then codes "e:" ++ m.f.path else content_key m

abbrev pub variant_keys : List Text → List CorruptFile → List Text
variant_keys seen [] = seen
variant_keys seen (m ∷ ms) = variant_keys (add_key (variant_key m) seen) ms

abbrev pub flagged_first : CorruptFile → CorruptFile → Bool
flagged_first a b = flagged_file a && not (flagged_file b)

abbrev pub path_first : CorruptFile → CorruptFile → Bool
path_first a b = text_lt a.f.path b.f.path

-- Of the members of a family, of which there is a first one, `e`.
unfoldable pub build_set : CorruptFile → List CorruptFile → CorruptSet
unfolding content_key
build_set e es =
    let ms = e ∷ es in
    let over = ltb corrupt_file_cap (length ms) in
    record {
      size = e.f.size;
      mod_unix = e.f.mod_unix;
      files =
          sort_stable path_first
            (if over then take corrupt_file_cap (sort_stable flagged_first ms) else ms);
      extra = if over then length ms - corrupt_file_cap else 0;
      variants = length (variant_keys [] ms);
      same_name = all (λ (m : CorruptFile). text_eq (to_lower m.f.name) (to_lower e.f.name)) ms;
      flagged = any flagged_file ms;
    }

pub record CorruptTop : Type 0 where
  pub limit : ℕ
  pub sets : List CorruptSet
  pub dropped_sets : ℕ
  pub dropped_file : ℕ

unfoldable pub new_corrupt_top : ℕ → CorruptTop
new_corrupt_top budget = record {
  limit = if ltb (budget / 2 + 1) 1 then 1 else budget / 2 + 1;
  sets = [];
  dropped_sets = 0;
  dropped_file = 0;
}

abbrev pub set_rows : CorruptSet → ℕ
set_rows c = length c.files + c.extra

unfoldable pub corrupt_add : CorruptTop → CorruptSet → CorruptTop
corrupt_add t c =
    let sets = t.sets ++ c ∷ [] in
    let sorted = sort_stable better_set sets in
    let over = drop t.limit sorted in
    if leb (length sets) t.limit then record t { sets = sets } else record t {
      sets = take t.limit sorted;
      dropped_sets = t.dropped_sets + length over;
      dropped_file = t.dropped_file + total set_rows over;
    }

unfoldable pub note_unexamined : CorruptTop → ℕ → CorruptTop
note_unexamined t n = record t { dropped_file = t.dropped_file + n }

unfoldable pub corrupt_add_all : CorruptTop → List CorruptSet → CorruptTop
unfolding corrupt_add
corrupt_add_all t [] = t
corrupt_add_all t (c ∷ cs) = corrupt_add_all (corrupt_add t c) cs

-- The files of the sets that are kept, and the count of those that are not.
abbrev pub rows_of : CorruptTop → ℕ
rows_of t = total set_rows t.sets + t.dropped_file

corrupt_add-rows :
    (t : CorruptTop) (c : CorruptSet) → rows_of (corrupt_add t c) ≡ rows_of t + set_rows c
unfolding corrupt_add
corrupt_add-rows t c = elim (Bool-cases (leb (length (t.sets ++ c ∷ [])) t.limit)) [
  | inl e ↦ simp e (omega (arith, total-append set_rows t.sets (c ∷ [])))
  | inr e ↦
      let sorted = sort_stable better_set (t.sets ++ c ∷ []) in
      simp e (
        omega (
          arith,
          total-append set_rows t.sets (c ∷ []),
          total-sort_stable better_set set_rows (t.sets ++ c ∷ []),
          total-append set_rows (take t.limit sorted) (drop t.limit sorted),
          ap (total set_rows) (take-append-drop t.limit sorted),
        ))
]

-- Every file of every set that a scan hands over is in a set that is kept or counted as dropped.
pub corrupt_add_all-rows :
    (cs : List CorruptSet) (t : CorruptTop)
    → rows_of (corrupt_add_all t cs) ≡ rows_of t + total set_rows cs
unfolding corrupt_add_all
corrupt_add_all-rows [] t = omega arith
corrupt_add_all-rows (c ∷ cs) t =
    omega (arith, corrupt_add-rows t c, corrupt_add_all-rows cs (corrupt_add t c))
