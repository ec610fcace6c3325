-- ===== src/Results/View/Sorted.antt =====
-- The columns and directions of `sortFiles` of server/results.go.
use duplicatefinder.Results.View.Sorting.{sort_stable-count, count, sort_stable-IsSorted, IsSorted}
use duplicatefinder.Base.{
  none, some, to_lower, List, if◌then◌else◌, codes, text_eq, Option, text_lt_asymm, text_le_trans,
  false, lt64, true, Bool, refl, arith, ◌∷◌, [], ◌≡◌, text_compare, Text,
}
use duplicatefinder.Results.View.{
  sorted_by, sort_files, column, join, less, compare_size, FileEnt, Ordering,
}

-- A comparison in both orders.
abbrev swap : Ordering → Ordering
swap Ordering.lt = Ordering.gt
swap Ordering.eq = Ordering.eq
swap Ordering.gt = Ordering.lt

pub text_compare-swap : (a b : Text) → text_compare b a ≡ swap (text_compare a b)
unfolding text_compare
text_compare-swap [] [] = refl
text_compare-swap [] (y ∷ b) = refl
text_compare-swap (x ∷ a) [] = refl
text_compare-swap (x ∷ a) (y ∷ b) = ground (arith, text_compare-swap a b)

abbrev same : Ordering → Ordering → Bool
same Ordering.lt Ordering.lt = true
same Ordering.eq Ordering.eq = true
same Ordering.gt Ordering.gt = true
same _ _ = false

-- What `a` against `b` and `b` against `c` say of `a` against `c`.
abbrev composes : Ordering → Ordering → Ordering → Bool
composes Ordering.lt Ordering.lt r = same r Ordering.lt
composes Ordering.lt Ordering.eq r = same r Ordering.lt
composes Ordering.lt Ordering.gt r = true
composes Ordering.eq o r = same r o
composes Ordering.gt Ordering.lt r = true
composes Ordering.gt Ordering.eq r = same r Ordering.gt
composes Ordering.gt Ordering.gt r = same r Ordering.gt

text_compare-composes :
    (a b c : Text) → composes (text_compare a b) (text_compare b c) (text_compare a c) ≡ true
unfolding text_compare
text_compare-composes [] [] [] = refl
text_compare-composes [] [] (z ∷ c) = refl
text_compare-composes [] (y ∷ b) [] = refl
text_compare-composes [] (y ∷ b) (z ∷ c) = ground arith
text_compare-composes (x ∷ a) [] [] = refl
text_compare-composes (x ∷ a) [] (z ∷ c) = refl
text_compare-composes (x ∷ a) (y ∷ b) [] = ground arith
text_compare-composes (x ∷ a) (y ∷ b) (z ∷ c) = ground (arith, text_compare-composes a b c)

-- A comparison that a sort may use.
abbrev IsComparison : (FileEnt → FileEnt → Ordering) → Type 0
IsComparison cmp =
    ((a b : FileEnt) → cmp b a ≡ swap (cmp a b))
    × ((a b c : FileEnt) → composes (cmp a b) (cmp b c) (cmp a c) ≡ true)

text_compare-IsComparison :
    (field : FileEnt → Text) → IsComparison (λ a b. text_compare (field a) (field b))
text_compare-IsComparison field = (
  λ a b. text_compare-swap (field a) (field b),
  λ a b c. text_compare-composes (field a) (field b) (field c),
)

compare_size-IsComparison : IsComparison compare_size
unfolding compare_size lt64
compare_size-IsComparison = (λ a b. ground arith, λ a b c. ground arith)

module _ (cmp : FileEnt → FileEnt → Ordering) (h : IsComparison cmp) (desc : Bool) where
  less-asymm : (a b : FileEnt) → less cmp desc a b ≡ true → less cmp desc b a ≡ false
  unfolding less
  less-asymm a b l = ground (arith, h.0 a b, text_lt_asymm (join a.dir a.name) (join b.dir b.name))

  less_trans :
      (a b c : FileEnt)
      → less cmp desc b a ≡ false
      → less cmp desc c b ≡ false
      → less cmp desc c a ≡ false
  unfolding less
  less_trans a b c l m =
      ground (
        arith,
        h.1 c b a,
        text_le_trans (join a.dir a.name) (join b.dir b.name) (join c.dir c.name),
      )

abbrev pub descending : Text → Bool
descending dir = text_eq (to_lower dir) (codes "desc")

-- An unknown column leaves the rows alone; another one sorts them and keeps every row.
abbrev pub Sorts :
    Option (FileEnt → FileEnt → Ordering) → Text → List FileEnt → List FileEnt → Type 0
Sorts none dir files out = out ≡ files
Sorts (some cmp) dir files out =
    IsSorted (less cmp (descending dir)) out × ((p : FileEnt → Bool) → count p out ≡ count p files)

AreComparisons : Option (FileEnt → FileEnt → Ordering) → Type 0
AreComparisons none = Unit
AreComparisons (some cmp) = IsComparison cmp

either :
    (b : Bool) (o o' : Option (FileEnt → FileEnt → Ordering))
    → AreComparisons o
    → AreComparisons o'
    → AreComparisons (if b then o else o')
either true o o' h k = h
either false o o' h k = k

column-AreComparisons : (field : Text) → AreComparisons (column field)
unfolding column AreComparisons
column-AreComparisons field =
    either (text_eq field (codes "name")) _ _ (text_compare-IsComparison (λ f. f.name)) (
      either (text_eq field (codes "path")) _ _ (text_compare-IsComparison (λ f. f.dir)) (
        either (text_eq field (codes "size")) _ _ compare_size-IsComparison (
          either (text_eq field (codes "date")) _ _ (text_compare-IsComparison (λ f. f.mod_time)) (
            either (text_eq field (codes "created")) _ _
              (text_compare-IsComparison (λ f. f.created))
              (either (text_eq field (codes "captured")) _ _
                (text_compare-IsComparison (λ f. f.captured)) tt)))))

sorted_by-Sorts :
    (o : Option (FileEnt → FileEnt → Ordering)) (files : List FileEnt) (dir : Text)
    → AreComparisons o
    → Sorts o dir files (sorted_by o files (descending dir))
unfolding AreComparisons
sorted_by-Sorts none files dir h = refl
sorted_by-Sorts (some cmp) files dir h = (
  sort_stable-IsSorted (less cmp (descending dir)) (less-asymm cmp h (descending dir))
      (less_trans cmp h (descending dir)) files,
  λ p. sort_stable-count (less cmp (descending dir)) p files,
)

-- A sorted page shows every row as often as before, and no row comes before one that the chosen
-- column and direction, with ties broken by the full path, put ahead of it. A column that the code
-- does not know changes nothing.
pub sort_files-Sorts :
    (files : List FileEnt) (field dir : Text)
    → Sorts (column field) dir files (sort_files files field dir)
unfolding sort_files
sort_files-Sorts files field dir =
    sorted_by-Sorts (column field) files dir (column-AreComparisons field)
