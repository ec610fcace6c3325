-- ===== src/Scan/Windows/Walk.antt =====
-- The counting and logging of the walk in server/scan.go, and `distilCandidates` for the
-- duplicates: no candidate is lost. The walk counts a file by its entry, the sweep of the log by
-- its record.
use duplicatefinder.Scan.Windows.Counting.{records_with}
use mathlib.Core.Path.{ap₂, subst}
use duplicatefinder.FilePath.{base}
use duplicatefinder.KeyCounter.{Limits, Counter}
use duplicatefinder.KeyCounter.Complete.{after}
use duplicatefinder.Model.{MatchOpts}
use duplicatefinder.Scan.Copies.{FEnt}
use duplicatefinder.Scan.Spill.{
  each, max_int, new_spill, add_all, Result, Spill, SpillRec, ok, ◌>>=◌,
}
use duplicatefinder.Scan.Spill.Records.{IsRecord}
use duplicatefinder.Scan.Windows.{rec_key, cand_hash, distil}
use duplicatefinder.Scan.Windows.Candidates.{of_key, untagged, distil_complete}
use duplicatefinder.Base.{
  ◌∙◌, suc, arith, ◌≤◌, length, refl, inr, [], reverse, ap, inl, lt64, ◌==◌, Bool-cases, ◌∷◌, ◌≡◌,
  All, map, filter, ℕ, List,
}

-- A file that the walk visits, with the index of its root.
abbrev pub Visited : Type 0
Visited = ℕ × FEnt

-- The record that `spill.add` writes.
abbrev pub record_of : Visited → SpillRec
record_of (root, f) = record {
  root_idx = root;
  size = f.size;
  mod_unix = f.mod_unix;
  tag = 0;
  rel = f.rel;
  link = f.link;
  holes = f.holes;
}

-- `f.size > 0`.
abbrev pub counted_files : List Visited → List Visited
counted_files = filter (λ e. lt64 0 e.1.size)

-- The key that the walk counts.
abbrev pub walk_key : MatchOpts → Visited → ℕ
walk_key m e = cand_hash e.1 m

-- The counter and the log after the walk.
abbrev pub walk_counter : Limits → ℕ → MatchOpts → List Visited → Counter
walk_counter l share m es = after l share (reverse (map (walk_key m) (counted_files es)))

abbrev pub walk_log : List Visited → Result Spill
walk_log es = add_all new_spill (map record_of (counted_files es))

-- The sweep of the log for the duplicates.
unfoldable pub walk_and_distil : Limits → ℕ → MatchOpts → List Visited → Result (ℕ × Spill)
unfolding distil
walk_and_distil l share m es = walk_log es >>= λ s. distil (walk_counter l share m es) m s new_spill

-- A visited file: its name ends its path below the root, and its record fits the log.
pub record IsVisited (e : Visited) : Type 0 where
  pub named : base e.1.rel ≡ e.1.name
  pub fits : IsRecord (record_of e)

-- The key of a record is the one that the walk counted.
rec_key-record_of :
    (m : MatchOpts) (e : Visited) → IsVisited e → rec_key m (record_of e) ≡ walk_key m e
unfolding rec_key cand_hash
rec_key-record_of m (root, f) v = elim (Bool-cases m.name) [
  | inl n ↦ rw (n, v.named) refl
  | inr n ↦ rw n refl
]

keys-record_of :
    (m : MatchOpts) (es : List Visited)
    → All IsVisited es
    → map (rec_key m) (map record_of es) ≡ map (walk_key m) es
keys-record_of m [] a = refl
keys-record_of m (e ∷ es) (v, later) = ap₂ ◌∷◌ (rec_key-record_of m e v) (keys-record_of m es later)

-- The files of one key.
abbrev pub files_of_key : MatchOpts → ℕ → List Visited → List Visited
files_of_key m k = filter (λ e. walk_key m e == k)

of_key-record_of :
    (m : MatchOpts) (k : ℕ) (es : List Visited)
    → All IsVisited es
    → of_key m k (map record_of es) ≡ map record_of (files_of_key m k es)
of_key-record_of m k [] a = refl
of_key-record_of m k (e ∷ es) (v, later) =
    let key = rec_key-record_of m e v in
    elim (Bool-cases (walk_key m e == k)) [
      | inl same ↦ rw (key, same) (ap (◌∷◌ (record_of e)) (of_key-record_of m k es later))
      | inr other ↦ rw (key, other) (of_key-record_of m k es later)
    ]

counted_files-IsVisited : (es : List Visited) → All IsVisited es → All IsVisited (counted_files es)
counted_files-IsVisited [] a = tt
counted_files-IsVisited (e ∷ es) (v, later) = elim (Bool-cases (lt64 0 e.1.size)) [
  | inl some_bytes ↦ rw some_bytes (v, counted_files-IsVisited es later)
  | inr empty ↦ rw empty (counted_files-IsVisited es later)
]

records-IsRecord : (es : List Visited) → All IsVisited es → All IsRecord (map record_of es)
records-IsRecord [] a = tt
records-IsRecord (e ∷ es) (v, later) = (v.fits, records-IsRecord es later)

untagged-record_of : (es : List Visited) → map untagged (map record_of es) ≡ map record_of es
untagged-record_of [] = refl
untagged-record_of (e ∷ es) = ap (◌∷◌ (record_of e)) (untagged-record_of es)

count-length :
    (m : MatchOpts) (k : ℕ) (rs : List SpillRec)
    → records_with (rec_key m) k rs ≡ length (of_key m k rs)
count-length m k [] = refl
count-length m k (r ∷ rs) = elim (Bool-cases (rec_key m r == k)) [
  | inl same ↦ rw same (omega (arith, count-length m k rs))
  | inr other ↦ rw other (omega (arith, count-length m k rs))
]

length-map : {A B : Type 0} (f : A → B) (xs : List A) → length (map f xs) ≡ length xs
length-map f [] = refl
length-map f (x ∷ xs) = ap suc (length-map f xs)

-- Whatever files a walk visits, the distilled log is read back, and of a key that the walk counted
-- for two files with content or more, it holds the records of exactly those files, in their order,
-- also after the counter gave way to its table.
pub walk_and_distil_complete :
    (l : Limits) (share : ℕ) (m : MatchOpts) (es : List Visited)
    → All IsVisited es
    → length (counted_files es) ≤ max_int
    → (cs : List SpillRec) × ((walk_and_distil l share m es >>= λ p. each p.1) ≡ ok cs)
      × ((k : ℕ)
          → 2 ≤ length (files_of_key m k (counted_files es))
          → filter (λ r. rec_key m r == k) cs ≡ map record_of (files_of_key m k (counted_files es)))
unfolding walk_and_distil
walk_and_distil_complete l share m es visited short =
    let files = counted_files es in
    let are = counted_files-IsVisited es visited in
    let (cs, read, complete) =
      distil_complete l share m (map record_of files) (records-IsRecord files are)
        (omega (arith, short, length-map record_of files)) in
    (
      cs,
      subst
          (λ ks.
            ((add_all new_spill (map record_of files) >>= λ s.
            distil (after l share (reverse ks)) m s new_spill)
              >>= λ p. each p.1)
            ≡ ok cs)
          (keys-record_of m files are) read,
      λ k two.
          let same = of_key-record_of m k files are in
          complete k (
            omega (
              arith,
              two,
              count-length m k (map record_of files),
              ap length same,
              length-map record_of (files_of_key m k files),
            ))
          ∙ ap (map untagged) same
          ∙ untagged-record_of (files_of_key m k files),
    )
