-- ===== src/Results/View/Ordered.antt =====
-- What a sorted listing of server/results.go shows, said by its columns alone.
use duplicatefinder.Model.{FileEnt}
use duplicatefinder.FilePath.{join}
use duplicatefinder.Results.View.{Ordering, sort_files, less, compare_size, column}
use duplicatefinder.Results.View.Sorting.{count, IsSorted}
use duplicatefinder.Results.View.Sorted.{sort_files-Sorts, text_compare-swap}
use duplicatefinder.Base.{
  ◌&&◌, true, not, false, arith, ◌≡◌, all, to_lower, text_compare, All, [], codes, text_eq, lt64,
  ◌∷◌, text_lt, if◌then◌else◌, Text, List, Bool,
}

-- The columns by their names in a request, each with what is smaller in it: texts are compared as
-- they are, sizes as signed numbers of 64 bits.
pub data Column : Text → (FileEnt → FileEnt → Bool) → Type 0 where
  by_name : Column (codes "name") (λ a b. text_lt a.name b.name)
  by_path : Column (codes "path") (λ a b. text_lt a.dir b.dir)
  by_size : Column (codes "size") (λ a b. lt64 a.size b.size)
  by_date : Column (codes "date") (λ a b. text_lt a.mod_time b.mod_time)
  by_created : Column (codes "created") (λ a b. text_lt a.created b.created)
  by_captured : Column (codes "captured") (λ a b. text_lt a.captured b.captured)

abbrev pub full_path : FileEnt → Text
full_path f = join f.dir f.name

-- That `x` may stand before `y`: it is not larger, or, descending, not smaller; and where neither is
-- smaller, its path does not come behind.
abbrev pub Before : (FileEnt → FileEnt → Bool) → Bool → FileEnt → FileEnt → Type 0
Before smaller desc x y =
    ((if desc then smaller x y else smaller y x) ≡ false)
    × ((not (smaller x y) && (not (smaller y x) && text_lt (full_path y) (full_path x))) ≡ false)

abbrev pub IsOrdered : (FileEnt → FileEnt → Bool) → Bool → List FileEnt → Type 0
IsOrdered smaller desc [] = Unit
IsOrdered smaller desc (x ∷ xs) = All (Before smaller desc x) xs × IsOrdered smaller desc xs

-- A comparison that agrees with what is smaller.
abbrev Tells : (FileEnt → FileEnt → Bool) → (FileEnt → FileEnt → Ordering) → Type 0
Tells smaller cmp =
    (desc : Bool) (x y : FileEnt) → less cmp desc y x ≡ false → Before smaller desc x y

text-Tells :
    (key : FileEnt → Text)
    → Tells (λ a b. text_lt (key a) (key b)) (λ a b. text_compare (key a) (key b))
unfolding less
text-Tells key desc x y h = (
  ground (arith, h, text_compare-swap (key y) (key x)),
  ground (arith, h, text_compare-swap (key y) (key x)),
)

size-Tells : Tells (λ a b. lt64 a.size b.size) compare_size
unfolding less compare_size lt64
size-Tells desc x y h = (ground (arith, h), ground (arith, h))

All-Before :
    (smaller : FileEnt → FileEnt → Bool) (cmp : FileEnt → FileEnt → Ordering) (desc : Bool)
    (x : FileEnt) (ys : List FileEnt)
    → Tells smaller cmp
    → all (λ y. not (less cmp desc y x)) ys ≡ true
    → All (Before smaller desc x) ys
All-Before smaller cmp desc x [] t h = tt
All-Before smaller cmp desc x (y ∷ ys) t h =
    (t desc x y (ground (arith, h)), All-Before smaller cmp desc x ys t (ground (arith, h)))

IsSorted-IsOrdered :
    (smaller : FileEnt → FileEnt → Bool) (cmp : FileEnt → FileEnt → Ordering) (desc : Bool)
    (ys : List FileEnt)
    → Tells smaller cmp
    → IsSorted (less cmp desc) ys
    → IsOrdered smaller desc ys
IsSorted-IsOrdered smaller cmp desc [] t h = tt
IsSorted-IsOrdered smaller cmp desc (y ∷ ys) t (h, later) =
    (All-Before smaller cmp desc y ys t h, IsSorted-IsOrdered smaller cmp desc ys t later)

-- A listing sorted by a column that the code knows shows every row as often as before, and a row
-- before another one only if it is not the larger of the two in that column, or, where the direction
-- asks for it, not the smaller; rows alike in the column stand by their paths.
pub sort_files-IsOrdered :
    (files : List FileEnt) (field dir : Text) (smaller : FileEnt → FileEnt → Bool)
    → Column field smaller
    → IsOrdered smaller (text_eq (to_lower dir) (codes "desc")) (sort_files files field dir)
      × ((p : FileEnt → Bool) → count p (sort_files files field dir) ≡ count p files)
unfolding column text_eq
sort_files-IsOrdered files field dir smaller by_name =
    let (s, c) = sort_files-Sorts files (codes "name") dir in
    (IsSorted-IsOrdered _ _ _ _ (text-Tells (λ f. f.name)) s, c)
sort_files-IsOrdered files field dir smaller by_path =
    let (s, c) = sort_files-Sorts files (codes "path") dir in
    (IsSorted-IsOrdered _ _ _ _ (text-Tells (λ f. f.dir)) s, c)
sort_files-IsOrdered files field dir smaller by_size =
    let (s, c) = sort_files-Sorts files (codes "size") dir in
    (IsSorted-IsOrdered _ _ _ _ size-Tells s, c)
sort_files-IsOrdered files field dir smaller by_date =
    let (s, c) = sort_files-Sorts files (codes "date") dir in
    (IsSorted-IsOrdered _ _ _ _ (text-Tells (λ f. f.mod_time)) s, c)
sort_files-IsOrdered files field dir smaller by_created =
    let (s, c) = sort_files-Sorts files (codes "created") dir in
    (IsSorted-IsOrdered _ _ _ _ (text-Tells (λ f. f.created)) s, c)
sort_files-IsOrdered files field dir smaller by_captured =
    let (s, c) = sort_files-Sorts files (codes "captured") dir in
    (IsSorted-IsOrdered _ _ _ _ (text-Tells (λ f. f.captured)) s, c)
