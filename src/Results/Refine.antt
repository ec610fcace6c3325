-- ===== src/Results/Refine.antt =====
-- `refineGroups` and `filterGroups` of server/results.go.
pub mod Laws
pub mod Criteria
use duplicatefinder.Base.{
  itoa, length, false, is_nil, true, ltb, member, ◌++◌, any, text_eq, ◌+◌, ◌&&◌, ◌∷◌, filter, [],
  not, if◌then◌else◌, Bool, ℕ, List, Text,
}
use duplicatefinder.Model.{Group, FileEnt, MatchOpts}

-- The criteria of one row, with a NUL behind the name and behind the modified time. A row with no
-- creation time gets a value of its own.
unfoldable pub refine_key : MatchOpts → FileEnt → Text
refine_key m f =
    (if m.name then f.name else [])
    ++ 0
      ∷ ((if m.modified then f.mod_time else [])
          ++ 0 ∷ (if m.created then (if is_nil f.created then b'?' ∷ f.id else f.created) else []))

-- The keys of the buckets, each once, in the order in which the rows bring them.
unfoldable pub first_keys : MatchOpts → List Text → List FileEnt → List Text
first_keys m seen [] = []
first_keys m seen (f ∷ fs) = elim (member (refine_key m f) seen) [
  | true ↦ first_keys m seen fs
  | false ↦ refine_key m f ∷ first_keys m (refine_key m f ∷ seen) fs
]

unfoldable pub bucket : MatchOpts → List FileEnt → Text → List FileEnt
bucket m fs k = filter (λ f. text_eq (refine_key m f) k) fs

-- The sub-groups of one group; `n` numbers those that are kept.
unfoldable pub sub_groups : MatchOpts → Group → ℕ → List Text → List Group
sub_groups m g n [] = []
sub_groups m g n (k ∷ ks) =
    let b = bucket m g.files k in
    let few = ltb (length b) 2 in
    let rest = sub_groups m g (if few then n else n + 1) ks in
    if few then rest else record g { id = g.id ++ b'-' ∷ itoa n; files = b } ∷ rest

unfoldable pub refine_group : MatchOpts → Group → List Group
unfolding first_keys sub_groups bucket refine_key
refine_group m g = sub_groups m g 0 (first_keys m [] g.files)

pub refine_all : MatchOpts → List Group → List Group
unfolding refine_group
refine_all m [] = []
refine_all m (g ∷ gs) = refine_group m g ++ refine_all m gs

unfoldable pub refine_groups : List Group → MatchOpts → List Group
unfolding refine_all
refine_groups gs m = if not m.name && not m.modified && not m.created then gs else refine_all m gs

-- A group stays, whole, if any of its rows passes.
unfoldable pub filter_groups : (FileEnt → Bool) → List Group → List Group
filter_groups pred = filter (λ g. any pred g.files)
