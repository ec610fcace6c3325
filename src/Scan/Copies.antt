-- ===== src/Scan/Copies.antt =====
-- `physicalCopies`, `copyPhys` and `reclaimPhys` of server/scan.go.
use duplicatefinder.Base.{
  ◌+◌, not, ◌||◌, refl, ltb, arith, lt64, leb, length, if◌then◌else◌, ◌&&◌, add64, any, ◌≡◌, sub64,
  ◌∷◌, [], ◌==◌, List, Bool, ℕ, Text,
}

pub record FileLink : Type 0 where
  pub dev : ℕ
  pub ino : ℕ
  pub n : ℕ

-- A scanned entry, without its pinned handle, its created date and its junk; `mod` is in seconds
-- since 1970, as a bit pattern of 64 bits.
pub record FEnt : Type 0 where
  pub path : Text
  pub name : Text
  pub dir : Text
  pub size : ℕ
  pub holes : ℕ
  pub mod_unix : ℕ
  pub rel : Text
  pub link : FileLink

unfoldable pub link_eq : FileLink → FileLink → Bool
link_eq a b = a.dev == b.dev && a.ino == b.ino && a.n == b.n

abbrev pub seen_link : FileLink → List FileLink → Bool
seen_link l = any (link_eq l)

unfoldable pub copies_from : List FileLink → List FEnt → ℕ
copies_from seen [] = 0
copies_from seen (f ∷ fs) =
    let single = leb f.link.n 1 || f.link.ino == 0 in
    let again = seen_link f.link seen in
    let rest = copies_from (if single || again then seen else f.link ∷ seen) fs in
    if single then 1 + rest else if again then rest else 1 + rest

unfoldable pub physical_copies : List FEnt → ℕ
unfolding copies_from
physical_copies = copies_from []

unfoldable pub phys_from : List FileLink → List FEnt → List ℕ
phys_from seen [] = []
phys_from seen (f ∷ fs) =
    let linked = ltb 1 f.link.n && not (f.link.ino == 0) in
    let again = seen_link f.link seen in
    let rest = phys_from (if linked && not again then f.link ∷ seen else seen) fs in
    if linked && again then rest else sub64 f.size f.holes ∷ rest

unfoldable pub copy_phys : List FEnt → List ℕ
unfolding phys_from
copy_phys = phys_from []

unfoldable pub sum_largest : ℕ → ℕ → List ℕ → ℕ × ℕ
sum_largest sum largest [] = (sum, largest)
sum_largest sum largest (p ∷ ps) =
    sum_largest (add64 sum p) (if lt64 largest p then p else largest) ps

unfoldable pub reclaim_phys : List ℕ → ℕ
unfolding sum_largest
reclaim_phys ps = let s = sum_largest 0 0 ps in sub64 s.0 s.1

copies-phys :
    (seen : List FileLink) (fs : List FEnt) → copies_from seen fs ≡ length (phys_from seen fs)
unfolding copies_from phys_from
copies-phys seen [] = refl
copies-phys seen (f ∷ fs) = ground (arith, copies-phys seen fs, copies-phys (f.link ∷ seen) fs)

-- The number of copies that a group reports is the number of sizes that its reclaimable space is
-- measured from, whatever hard links its rows share.
pub physical_copies-length-copy_phys : (fs : List FEnt) → physical_copies fs ≡ length (copy_phys fs)
unfolding physical_copies copy_phys
physical_copies-length-copy_phys = copies-phys []
