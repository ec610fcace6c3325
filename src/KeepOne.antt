-- ===== src/KeepOne.antt =====
-- `keepOneDropsWhy` and `keepOneDrops` of server/move.go: which requested copies a move holds
-- back, so that every duplicate group keeps a copy. The resolver (`canon.path`), File Station's
-- existence answers, the moved-copy test and the content reader are arguments.
mod Tallies
mod Picks
pub mod Safety
pub mod Content
pub mod Groups
use duplicatefinder.Base.{
  ℕ, zero, suc, ◌+◌, Bool, true, false, not, ◌&&◌, ◌||◌, Option, none, some, List, [], ◌∷◌, ◌++◌,
  map, find, ◌==◌, if◌then◌else◌, is_nil, Text, member, ltb,
}
use duplicatefinder.FilePath.{join}
use duplicatefinder.Model.{FileEnt, Group}
use duplicatefinder.Paths.{is_under}

pub record Request : Type 0 where
  pub requested : List Text
  pub ref_dirs : List Text
  pub canon : Text → Text
  pub on_disk : Text → Bool
  pub is_out : Option (Text → Bool)
  pub intact : Option (Text → Text → Bool)

abbrev pub Reader : Type 0
Reader = Option (Text → Text → Bool)

-- `original`: every path is one where no moved-copy test is given.
abbrev pub is_original : Option (Text → Bool) → Text → Bool
is_original none p = true
is_original (some out) p = not (out p)

-- The content reader's answer; with no reader every copy holds the content.
abbrev pub reads : Reader → Text → Text → Bool
reads none p hash = true
reads (some intact) p hash = intact p hash

module _ (q : Request) where
  abbrev pub original : Text → Bool
  original p = is_original q.is_out p

  -- This request leaves the path where it is.
  unfoldable pub staying : Text → Bool
  staying p = not (member p q.requested) || is_under p q.ref_dirs

  module _ (hash : Text) where
    -- `holds`, with the captured flag `stale` passed along.
    unfoldable pub holds : Bool → Text → Bool × Bool
    holds stale p = if reads q.intact p hash then (true, stale) else (false, true)

    -- The first loop: a requested original on disk.
    unfoldable pub requested_original : List Text → Bool
    unfolding staying
    requested_original [] = false
    requested_original (p ∷ ps) =
        (not (staying p) && q.on_disk p && original p) || requested_original ps

    -- The second loop: a staying original that holds the content, which is read only while none
    -- has been found. The state is `anyOriginal` and `stale`.
    pub original_step : Bool → Bool → Text → Bool × Bool
    unfolding staying holds
    original_step found stale p =
        if not found && staying p && q.on_disk p && original p
        then holds stale p
        else (found, stale)

    unfoldable pub staying_original : Bool → Bool → List Text → Bool × Bool
    unfolding original_step
    staying_original found stale [] = (found, stale)
    staying_original found stale (p ∷ ps) =
        staying_original (original_step found stale p).0 (original_step found stale p).1 ps

-- The counters and the four tiers of the third loop, each tier with its last path first.
pub record Tally : Type 0 where
  pub survivors : ℕ
  pub out_survivors : ℕ
  pub tier0 : List Text
  pub tier1 : List Text
  pub tier2 : List Text
  pub tier3 : List Text
  pub stale : Bool

abbrev pub put_if : Bool → Text → List Text → List Text
put_if b p tier = if b then p ∷ tier else tier

abbrev pub counts : Request → Bool → Text → Bool
counts q any_original p = not any_original || original q p

module _ (q : Request) (hash : Text) (any_original : Bool) where
  -- A staying path of the third loop.
  pub tally_staying : Tally → Text → Tally
  unfolding holds
  tally_staying t p =
      if not (q.on_disk p)
      then t
      else if not (counts q any_original p)
      then record t { out_survivors = t.out_survivors + 1 }
      else if t.survivors == 0
      then (let (h, stale) = holds q hash t.stale p in
          record t { survivors = if h then t.survivors + 1 else t.survivors; stale = stale })
      else t

  -- A requested path of the third loop.
  pub tally_leaving : Tally → Text → Tally
  tally_leaving t p = if not (counts q any_original p) then t else record t {
    tier0 = put_if (q.on_disk p && original q p) p t.tier0;
    tier1 = put_if (q.on_disk p) p t.tier1;
    tier2 = put_if (original q p) p t.tier2;
    tier3 = p ∷ t.tier3;
  }

  pub tally_step : Tally → Text → Tally
  unfolding tally_staying tally_leaving staying
  tally_step t p = if staying q p then tally_staying t p else tally_leaving t p

  pub tally : Tally → List Text → Tally
  unfolding tally_step
  tally t [] = t
  tally t (p ∷ ps) = tally (tally_step t p) ps

abbrev pub start : Bool → Tally
start stale = record {
  survivors = 0;
  out_survivors = 0;
  tier0 = [];
  tier1 = [];
  tier2 = [];
  tier3 = [];
  stale = stale;
}

pub candidates : Tally → List Text
candidates t = t.tier0 ++ (t.tier1 ++ (t.tier2 ++ t.tier3))

module _ (q : Request) (hash : Text) where
  -- The copy to hold back: the first candidate, or with a reader the first that holds the content.
  pub pick : Reader → Text → List Text → Text
  pick none first cands = first
  pick (some intact) first cands = elim (find (λ p. q.on_disk p && intact p hash) cands) [
    | none ↦ first
    | some p ↦ p
  ]

  pub pick_from : List Text → Option Text
  unfolding pick
  pick_from [] = none
  pick_from (c ∷ cands) = some (pick q.intact c (c ∷ cands))

  pub held_of : Tally → Option Text
  unfolding pick_from candidates
  held_of t = if ltb 0 t.survivors then none else pick_from (candidates t)

pub data Why : Type 0 where
  last_copy out_copies stale_copies : Why

pub why_of : Tally → Why
why_of t = if t.stale then stale_copies else if ltb 0 t.out_survivors then out_copies else last_copy

pub with_why : Why → Option Text → Option (Text × Why)
with_why w none = none
with_why w (some p) = some (p, w)

module _ (q : Request) where
  -- The body of the loop over the groups, for one group's hash and canonical paths.
  pub group_tally : Text → List Text → Tally
  unfolding requested_original staying_original tally
  group_tally hash paths =
      let (found, stale) = staying_original q hash (requested_original q hash paths) false paths in
      tally q hash found (start stale) paths

  unfoldable pub hold_back : Text → List Text → Option (Text × Why)
  hold_back hash paths = let t = group_tally hash paths in with_why (why_of t) (held_of q hash t)

  pub group_hash : Group → List FileEnt → Text
  group_hash g [] = g.hash
  group_hash g (f ∷ fs) = if is_nil g.hash then f.hash else g.hash

  unfoldable pub group_paths : List FileEnt → List Text
  group_paths = map (λ f. q.canon (join f.dir f.name))

  -- `keepOneDropsWhy`: every held-back path with the reason for it.
  unfoldable pub keep_one_drops_why : List Group → List (Text × Why)
  keep_one_drops_why [] = []
  keep_one_drops_why (g ∷ gs) =
      let rest = keep_one_drops_why gs in
      elim (hold_back (group_hash g g.files) (group_paths g.files)) [
        | none ↦ rest
        | some held ↦ held ∷ rest
      ]

  -- `keepOneDrops`: the keys of `drops`.
  unfoldable pub keep_one_drops : List Group → List Text
  unfolding keep_one_drops_why
  keep_one_drops gs = map (λ h. h.0) (keep_one_drops_why gs)
