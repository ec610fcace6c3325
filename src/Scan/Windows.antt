-- ===== src/Scan/Windows.antt =====
-- The passes over the enumeration log of server/stream.go: `candHash`, `spillRec.key`, `distil`,
-- `materialize`, `window`, `tagWindow`, `tagsIn`, `tagSlice` and `tagsDiffer`. The pinned handles,
-- which run parallel to the roots, are left out, and `sort.Slice` of distinct keys is any sort.
pub mod Counting
pub mod Whole
pub mod Candidates
pub mod Walk
use duplicatefinder.Scan.Spill.{◌>>=◌, ok, Result, Spill, SpillRec, add_raw, each}
use Prim.Native.Nat.{suc, ℕ, bit_xor}
use duplicatefinder.Base.{
  ◌^◌, true, ◌/◌, not, filter, ◌%◌, ◌||◌, ◌==◌, false, zero, ◌+◌, some, map, ◌&&◌, any, ◌*◌, ◌++◌,
  leb, ltb, if◌then◌else◌, none, [], ◌∷◌, Bool, List, Option, Text,
}
use duplicatefinder.FilePath.{base, join, dir}
use duplicatefinder.Model.{MatchOpts}
use duplicatefinder.KeyCounter.{Counts, count_of, put_count, Counter, hot}
use duplicatefinder.Results.View.{sort_stable, format_int}
use duplicatefinder.Scan.Copies.{FEnt}

-- `fnv.New64a()`, and `Write` of one byte.
abbrev pub fnv_offset : ℕ
fnv_offset = 14695981039346656037

unfoldable pub fnv_write : ℕ → Text → ℕ
fnv_write h [] = h
fnv_write h (c ∷ s) = fnv_write (bit_xor h c * 1099511628211 % 2 ^ 64) s

-- `binary.LittleEndian.PutUint64`.
unfoldable pub little_endian : ℕ → ℕ → Text
little_endian zero x = []
little_endian (suc k) x = x % 256 ∷ little_endian k (x / 256)

unfoldable pub cand_hash : FEnt → MatchOpts → ℕ
unfolding fnv_write little_endian
cand_hash f m =
    let h = fnv_write fnv_offset (little_endian 8 f.size) in
    let named = if m.name then fnv_write h (f.name ++ 0 ∷ []) else h in
    if m.modified then fnv_write named (format_int f.mod_unix ++ 0 ∷ []) else named

-- `spillRec.key`.
unfoldable pub rec_key : MatchOpts → SpillRec → ℕ
unfolding cand_hash
rec_key m r =
    cand_hash
      (record {
        path = [];
        name = if m.name then base r.rel else [];
        dir = [];
        size = r.size;
        holes = 0;
        mod_unix = r.mod_unix;
        rel = [];
        link = record { dev = 0; ino = 0; n = 0 };
      })
      m

-- The callback of `distil` over the records, with the count of those it kept.
unfoldable pub distil_from : Counter → MatchOpts → ℕ → Spill → List SpillRec → Result (ℕ × Spill)
unfolding add_raw
distil_from c m n out [] = ok (n, out)
distil_from c m n out (r ∷ rs) =
    let skip = distil_from c m n out rs in
    let kept = add_raw out (record r { tag = 0 }) >>= λ u. distil_from c m (suc n) u rs in
    if hot c (rec_key m r) then kept else skip

unfoldable pub distil : Counter → MatchOpts → Spill → Spill → Result (ℕ × Spill)
unfolding each distil_from
distil c m s out = each s >>= distil_from c m 0 out

-- `rootOf[i]`, with the guard on `i`.
unfoldable pub root_at : List Text → ℕ → Option Text
root_at [] i = none
root_at (d ∷ ds) zero = some d
root_at (d ∷ ds) (suc i) = root_at ds i

unfoldable pub entry_at : Text → SpillRec → FEnt
entry_at root r =
    let path = join root r.rel in
    record {
      path = path;
      name = base r.rel;
      dir = dir path;
      size = r.size;
      holes = r.holes;
      mod_unix = r.mod_unix;
      rel = r.rel;
      link = r.link;
    }

-- The entry of a record that the callback of `materialize` does not return early for.
unfoldable pub wanted : (SpillRec → Bool) → List Text → SpillRec → Option FEnt
unfolding root_at entry_at
wanted keep root_of r = elim (root_at root_of r.root_idx) [
  | none ↦ none
  | some root ↦ if keep r then some (entry_at root r) else none
]

-- The callback of `materialize` over the records: `held` entries so far, `max` at most.
unfoldable pub materialize_from :
    (SpillRec → Bool) → List Text → ℕ → ℕ → List SpillRec → List FEnt × ℕ
unfolding wanted
materialize_from keep root_of max held [] = ([], 0)
materialize_from keep root_of max held (r ∷ rs) = elim (wanted keep root_of r) [
  | none ↦ materialize_from keep root_of max held rs
  | some e ↦ elim (ltb 0 max && leb max held) [
    | true ↦ let rest = materialize_from keep root_of max held rs in (rest.0, suc rest.1)
    | false ↦ let rest = materialize_from keep root_of max (suc held) rs in (e ∷ rest.0, rest.1)
  ]
]

unfoldable pub materialize : (SpillRec → Bool) → List Text → ℕ → Spill → Result (List FEnt × ℕ)
unfolding each materialize_from
materialize keep root_of max s = each s >>= λ rs. ok (materialize_from keep root_of max 0 rs)

-- `inPart`.
abbrev pub in_part : ℕ → ℕ → ℕ → Bool
in_part part parts k = leb parts 1 || k % parts == part

-- `counts[k]++` for every record of the partition.
unfoldable pub count_keys : (SpillRec → ℕ) → ℕ → ℕ → Counts → List SpillRec → Counts
unfolding count_of put_count
count_keys key part parts counts [] = counts
count_keys key part parts counts (r ∷ rs) =
    let k = key r in
    let counts' =
      if in_part part parts k then put_count k (count_of k counts + 1) counts else counts in
    count_keys key part parts counts' rs

-- The keys with more records than the cap, in order.
unfoldable pub over_keys : ℕ → Counts → List ℕ
unfolding sort_stable
over_keys key_cap counts =
    sort_stable ltb (map (λ kn. kn.0) (filter (λ kn. ltb 0 key_cap && ltb key_cap kn.1) counts))

abbrev pub holds_key : ℕ → List ℕ → Bool
holds_key k = any (λ o. o == k)

pub record Window : Type 0 where
  pub ents : List FEnt
  pub over : List ℕ
  pub skipped : ℕ

-- `window` and `tagWindow` over the records, by any key.
unfoldable pub window_recs : (SpillRec → ℕ) → ℕ → ℕ → ℕ → ℕ → List Text → List SpillRec → Window
unfolding count_keys over_keys materialize_from
window_recs key part parts key_cap max root_of rs =
    let over = over_keys key_cap (count_keys key part parts [] rs) in
    let kept =
      materialize_from (λ r. in_part part parts (key r) && not (holds_key (key r) over)) root_of max
        0 rs in
    record { ents = kept.0; over = over; skipped = kept.1 }

unfoldable pub window : ℕ → ℕ → MatchOpts → List Text → ℕ → ℕ → Spill → Result Window
unfolding each window_recs rec_key
window part parts m root_of key_cap max s =
    each s >>= λ rs. ok (window_recs (rec_key m) part parts key_cap max root_of rs)

unfoldable pub tag_window : ℕ → ℕ → ℕ → ℕ → List Text → Spill → Result Window
unfolding each window_recs
tag_window part parts tag_cap max root_of s =
    each s >>= λ rs. ok (window_recs (λ r. r.tag) part parts tag_cap max root_of rs)

-- The distinct tags of a partition, as they are first seen.
unfoldable pub tags_from : ℕ → ℕ → List ℕ → List SpillRec → List ℕ
tags_from part parts seen [] = seen
tags_from part parts seen (r ∷ rs) =
    tags_from part parts
      (if in_part part parts r.tag && not (holds_key r.tag seen) then r.tag ∷ seen else seen) rs

unfoldable pub tags_in : ℕ → ℕ → Spill → Result (List ℕ)
unfolding each tags_from sort_stable
tags_in part parts s = each s >>= λ rs. ok (sort_stable ltb (tags_from part parts [] rs))

unfoldable pub tag_slice : ℕ → List Text → ℕ → Spill → Result (List FEnt × ℕ)
unfolding materialize
tag_slice tag root_of max s = materialize (λ r. r.tag == tag) root_of max s

-- The callback of `tagsDiffer`: `first` and `seen` in one, and `differ`.
unfoldable pub differ_from : Option ℕ → Bool → List SpillRec → Bool
differ_from first differ [] = differ
differ_from none differ (r ∷ rs) = differ_from (some r.tag) differ rs
differ_from (some t) differ (r ∷ rs) = differ_from (some t) (differ || not (r.tag == t)) rs

unfoldable pub tags_differ : Spill → Result Bool
unfolding each differ_from
tags_differ s = each s >>= λ rs. ok (differ_from none false rs)
