-- ===== src/Vetting.antt =====
-- The vetting of one move in server/move.go: `refuse`, `identMatches`, `crossVolumeNeed`, with
-- `under` of server/selfmount.go and `fsCannotAddress` of server/fsapi.go.
pub mod Refusals
pub mod Idents
use duplicatefinder.FilePath.{base}
use duplicatefinder.Base.{
  add64, false, ◌||◌, ◌++◌, is_nil, has_prefix, true, ◌==◌, codes, member, ltb, any, ◌&&◌, some,
  text_eq, none, find, [], not, leb, ◌∷◌, if◌then◌else◌, List, Option, Bool, ℕ, Text,
}
use duplicatefinder.Model.{FileEnt}
use duplicatefinder.Paths.{volume_of, at_or_below, is_under}
use duplicatefinder.Scan.Junk.{is_temp_name}

pub record SelfMount : Type 0 where
  pub source : Text
  pub point : Text

unfoldable pub self_mount_under : List SelfMount → Text → Option SelfMount
self_mount_under m p = find (λ s. at_or_below p s.point) m

-- `entIdent`.
pub record Ident : Type 0 where
  pub size : ℕ
  pub mod_time : Text
  pub mod_unix : ℕ
  pub is_dir : Bool
  pub pfx : Text
  pub hash : Text

unfoldable pub ident_of : FileEnt → Ident
ident_of f = record {
  size = f.size;
  mod_time = f.mod_time;
  mod_unix = f.mod_unix;
  is_dir = f.is_dir;
  pfx = f.pfx;
  hash = f.hash;
}

unfoldable pub is_dir_ident : List Ident → Bool
is_dir_ident = any (λ w. w.is_dir)

unfoldable pub holds_under : Text → List Text → Bool
holds_under d held = any (has_prefix (d ++ b'/' ∷ [])) held

unfoldable pub fs_cannot_address : Text → Bool
fs_cannot_address name = text_eq name (codes ".DS_Store") || has_prefix (codes "._") name

-- The ranges of the bytes that follow a first byte, for `utf8.ValidString`.
abbrev pub between : ℕ → ℕ → ℕ → Bool
between lo hi c = leb lo c && leb c hi

abbrev pub follows : ℕ → Option (List (ℕ × ℕ))
follows c =
    let tail = (0x80, 0xBF) ∷ [] in
    if ltb c 0x80
    then some []
    else if between 0xC2 0xDF c
    then some tail
    else if c == 0xE0
    then some ((0xA0, 0xBF) ∷ tail)
    else if c == 0xED
    then some ((0x80, 0x9F) ∷ tail)
    else if between 0xE1 0xEF c
    then some ((0x80, 0xBF) ∷ tail)
    else if c == 0xF0
    then some ((0x90, 0xBF) ∷ (0x80, 0xBF) ∷ tail)
    else if between 0xF1 0xF3 c
    then some ((0x80, 0xBF) ∷ (0x80, 0xBF) ∷ tail)
    else if c == 0xF4
    then some ((0x80, 0x8F) ∷ (0x80, 0xBF) ∷ tail)
    else none

unfoldable pub valid_from : List (ℕ × ℕ) → Text → Bool
valid_from [] [] = true
valid_from (r ∷ pending) [] = false
valid_from [] (c ∷ s) = elim (follows c) [ none ↦ false | some pending ↦ valid_from pending s ]
valid_from (r ∷ pending) (c ∷ s) = between r.0 r.1 c && valid_from pending s

-- `moveVet`, as far as `refuse` reads it; the maps are lists of their true keys.
pub record MoveVet : Type 0 where
  pub tool : Text
  pub refs : List Text
  pub allowed : List Text
  pub idents : Text → List Ident
  pub keepers : List Text
  pub drops : List Text
  pub out_held : List Text
  pub stale_held : List Text
  pub self_mounts : List SelfMount
  pub vols : List Text

pub data Refused : Type 0 where
  in_self_mount : SelfMount → Refused
  outside_volumes stale_copies_left moved_copies_left : Refused
  keeps_one_copy keeps_one_inside reference_file : Refused
  not_unicode unaddressable not_in_results not_junk_now : Refused

-- The `switch` of `refuse`.
unfoldable pub refuse_cases : MoveVet → Text → Option Refused
refuse_cases v cp =
    if not (is_under cp v.vols)
    then some outside_volumes
    else if member cp v.stale_held
    then some stale_copies_left
    else if member cp v.out_held
    then some moved_copies_left
    else if member cp v.drops || member cp v.keepers
    then some keeps_one_copy
    else if is_dir_ident (v.idents cp) && (holds_under cp v.drops || holds_under cp v.keepers)
    then some keeps_one_inside
    else if is_under cp v.refs
    then some reference_file
    else if not (valid_from [] cp)
    then some not_unicode
    else if fs_cannot_address (base cp)
    then some unaddressable
    else if not (member cp v.allowed)
    then some not_in_results
    else if text_eq v.tool (codes "temp_files") && not (is_temp_name (base cp))
    then some not_junk_now
    else none

abbrev pub mount_refusal : Option SelfMount → Option Refused → Option Refused
mount_refusal (some m) rest = some (in_self_mount m)
mount_refusal none rest = rest

unfoldable pub refuse : MoveVet → Text → Option Refused
unfolding self_mount_under refuse_cases
refuse v cp = mount_refusal (self_mount_under v.self_mounts cp) (refuse_cases v cp)

-- The fields of an `fsEntry` that `identMatches` reads.
pub record FsEntry : Type 0 where
  pub is_dir : Bool
  pub mtime : ℕ
  pub size : ℕ

abbrev pub same_bool : Bool → Bool → Bool
same_bool true b = b
same_bool false b = not b

-- The tests that `continue` skips an identity for; `fmt` is `fmtTime` of a Unix time.
unfoldable pub agrees_with : (ℕ → Text) → FsEntry → Ident → Bool
agrees_with fmt e w =
    same_bool e.is_dir w.is_dir
    && (if not (w.mod_unix == 0) then e.mtime == w.mod_unix else text_eq (fmt e.mtime) w.mod_time)
    && (e.is_dir || e.size == w.size)

-- `if !found || (best.pfx == "" && w.pfx != "")`.
unfoldable pub better : Option Ident → Ident → Option Ident
better none w = some w
better (some b) w = if is_nil b.pfx && not (is_nil w.pfx) then some w else some b

-- The loop of `identMatches`, over `best` and `found`.
unfoldable pub match_from : (ℕ → Text) → FsEntry → Option Ident → List Ident → Option Ident
unfolding agrees_with better
match_from fmt e best [] = best
match_from fmt e best (w ∷ ws) =
    let ok = agrees_with fmt e w in
    let rest = match_from fmt e (if ok then better best w else best) ws in
    if ok && not (is_nil w.hash) then some w else rest

unfoldable pub ident_matches : (ℕ → Text) → FsEntry → List Ident → Option Ident
unfolding match_from
ident_matches fmt e wants = match_from fmt e none wants

abbrev pub first_size : List Ident → ℕ
first_size [] = 0
first_size (w ∷ ws) = w.size

-- `crossVolumeNeed`, over the canonical paths of the request.
unfoldable pub cross_volume_need : List Text → (Text → List Ident) → Text → List Text → ℕ → ℕ
cross_volume_need vols idents dest_vol [] need = need
cross_volume_need vols idents dest_vol (cp ∷ cps) need =
    let same_volume = is_nil dest_vol || text_eq (volume_of cp vols) dest_vol in
    let need' = if same_volume then need else add64 need (first_size (idents cp)) in
    cross_volume_need vols idents dest_vol cps need'
