-- ===== src/HashCache.antt =====
-- The hash store of server/hashcache.go. BLAKE3 tags of paths are an argument (`tag`); a map is an
-- association list, and what Go leaves to the order of a map goes by the order of the list. The
-- store is never nil, and its file is handed in as what was parsed of it.
pub mod Entries
pub mod Scanned
pub mod Served
pub mod History
pub mod Bounds
pub mod File
use duplicatefinder.Base.{
  ◌^◌, zero, true, take, map, not, [], ◌||◌, filter, length, ◌-◌, false, ◌*◌, ltb, suc, text_eq,
  ◌&&◌, leb, ◌%◌, none, if◌then◌else◌, ◌==◌, ◌/◌, ◌+◌, List, some, ℕ, Option, Bool, ◌∷◌, Text,
}
use duplicatefinder.Results.View.{sort_stable}
use duplicatefinder.Scan.Windows.{fnv_write, fnv_offset}

-- `m[key]`, `m[key] = a` and `delete(m, key)` of a map with 64-bit keys.
module _ {A : Type 0} where
  abbrev pub get : ℕ → List (ℕ × A) → Option A
  get key [] = none
  get key ((k, a) ∷ m) = let rest = get key m in if k == key then some a else rest

  abbrev pub put : ℕ → A → List (ℕ × A) → List (ℕ × A)
  put key a [] = (key, a) ∷ []
  put key a ((k, b) ∷ m) =
      let rest = put key a m in if k == key then (key, a) ∷ m else (k, b) ∷ rest

-- `hashCacheMax` and `changedMax`.
pub record CacheLimits : Type 0 where
  pub max : ℕ
  pub changed_max : ℕ

abbrev pub high : CacheLimits → ℕ
high l = l.max + l.max / 4

-- `hcEnt`.
pub record HcEnt : Type 0 where
  pub size : ℕ
  pub mod_unix : ℕ
  pub tag : Text
  pub pfx : Text
  pub hash : Text
  pub gen : ℕ

pub record ChangedRec : Type 0 where
  pub tag : Text
  pub prior : Text

pub record HashCache : Type 0 where
  pub gen : ℕ
  pub ents : List (ℕ × HcEnt)
  pub dirty : Bool
  pub changed : List (ℕ × ChangedRec)

unfoldable pub path_key : Text → ℕ
path_key p = fnv_write fnv_offset p

-- `loadHashCache` of a file with generation `gen` and entries `ents`, and its resumption.
abbrev pub load_hash_cache : ℕ → List (ℕ × HcEnt) → HashCache
load_hash_cache gen ents = record {
  gen = (gen + 1) % 2 ^ 32;
  ents = ents;
  dirty = false;
  changed = [];
}

abbrev pub load_hash_cache_resume : ℕ → List (ℕ × HcEnt) → ℕ → HashCache
load_hash_cache_resume gen ents resume =
    let c = load_hash_cache gen ents in if not (resume == 0) then record c { gen = resume } else c

-- `hex.DecodeString` and `hex.EncodeToString`.
abbrev pub hex_nibble : ℕ → Option ℕ
hex_nibble c =
    if leb b'0' c && leb c b'9'
    then some (c - b'0')
    else if leb b'a' c && leb c b'f'
    then some (c - b'a' + 10)
    else if leb b'A' c && leb c b'F'
    then some (c - b'A' + 10)
    else none

unfoldable pub hex_decode : Text → Option Text
hex_decode [] = some []
hex_decode (c ∷ []) = none
hex_decode (c ∷ d ∷ s) =
    let rest = hex_decode s in
    elim (hex_nibble c) [
      | none ↦ none
      | some h ↦ elim (hex_nibble d) [
        | none ↦ none
        | some l ↦ elim rest [ none ↦ none | some bs ↦ some ((h * 16 + l) ∷ bs) ]
      ]
    ]

abbrev pub hex_char : ℕ → ℕ
hex_char n = if ltb n 10 then b'0' + n else b'a' + (n - 10)

unfoldable pub hex_encode : Text → Text
hex_encode [] = []
hex_encode (b ∷ bs) = hex_char (b / 16) ∷ hex_char (b % 16) ∷ hex_encode bs

-- The first 16 bytes of a prefix in hexadecimal; `none` if it is no prefix.
unfoldable pub prefix_of : Text → Option Text
unfolding hex_decode
prefix_of pfx_hex = elim (hex_decode pfx_hex) [
  | none ↦ none
  | some pfx ↦ if ltb (length pfx) 16 then none else some (take 16 pfx)
]

module _ (tag_of : Text → Text) where
  -- The tests that make an entry comparable with a path's size and modification time.
  abbrev pub comparable : HcEnt → Text → ℕ → ℕ → Bool
  comparable e tag size mod_unix = e.size == size && e.mod_unix == mod_unix && text_eq e.tag tag

  abbrev pub served : HashCache → HcEnt → Text → ℕ → ℕ → Text → Option Text
  served c e path size mod_unix pfx =
      if e.gen == c.gen && comparable e (tag_of path) size mod_unix && text_eq e.pfx pfx
      then some (hex_encode e.hash)
      else none

  unfoldable pub lookup : HashCache → Text → ℕ → ℕ → Text → Option Text
  unfolding path_key prefix_of
  lookup c path size mod_unix pfx_hex = elim (prefix_of pfx_hex) [
    | none ↦ none
    | some pfx ↦ elim (get (path_key path) c.ents) [
      | none ↦ none
      | some e ↦ served c e path size mod_unix pfx
    ]
  ]

  -- `priorContentChanged` where `changed` has nothing of the path; `none` answers false.
  abbrev pub live_change : HashCache → Text → ℕ → ℕ → Text → Option Text
  live_change c path size mod_unix pfx = elim (get (path_key path) c.ents) [
    | none ↦ none
    | some e ↦
        if e.gen == c.gen || not (comparable e (tag_of path) size mod_unix) || text_eq e.pfx pfx
        then none
        else some (hex_encode e.hash)
  ]

  unfoldable pub prior_content_changed : HashCache → Text → ℕ → ℕ → Text → Option Text
  unfolding path_key prefix_of
  prior_content_changed c path size mod_unix pfx_hex = elim (prefix_of pfx_hex) [
    | none ↦ none
    | some pfx ↦
        let live = live_change c path size mod_unix pfx in
        elim (get (path_key path) c.changed) [
          | none ↦ live
          | some r ↦ if text_eq r.tag (tag_of path) then some (hex_encode r.prior) else live
        ]
  ]

  unfoldable pub changed_path : HashCache → Text → Bool
  unfolding path_key
  changed_path c path = elim (get (path_key path) c.changed) [
    | none ↦ false
    | some r ↦ text_eq r.tag (tag_of path)
  ]

-- The loops of the trims that delete entries until `keep` are left: `n` entries stand in the map,
-- which `test` says may go.
unfoldable pub drop_until : (HcEnt → Bool) → ℕ → ℕ → List (ℕ × HcEnt) → List (ℕ × HcEnt)
drop_until test keep n [] = []
drop_until test keep n ((k, e) ∷ m) =
    let fewer = drop_until test keep (n - 1) m in
    let same = drop_until test keep n m in
    if leb n keep then (k, e) ∷ m else if test e then fewer else (k, e) ∷ same

-- `gens[keep-1]` of the generations, newest first.
abbrev pub nth_or : ℕ → List ℕ → ℕ
nth_or i [] = 0
nth_or zero (g ∷ gs) = g
nth_or (suc i) (g ∷ gs) = nth_or i gs

unfoldable pub cutoff_of : ℕ → List (ℕ × HcEnt) → ℕ
unfolding sort_stable
cutoff_of keep ents = nth_or (keep - 1) (sort_stable (λ a b. ltb b a) (map (λ ke. ke.1.gen) ents))

unfoldable pub trim_locked : ℕ → List (ℕ × HcEnt) → List (ℕ × HcEnt)
unfolding cutoff_of drop_until
trim_locked keep ents =
    let cutoff = cutoff_of keep ents in
    let fresh = filter (λ ke. not (ltb ke.1.gen cutoff)) ents in
    if leb (length ents) keep then ents else drop_until (λ e. true) keep (length fresh) fresh

unfoldable pub trim_mid_scan_locked : ℕ → ℕ → List (ℕ × HcEnt) → List (ℕ × HcEnt)
unfolding trim_locked drop_until
trim_mid_scan_locked gen keep ents =
    trim_locked keep (drop_until (λ e. e.gen == gen) keep (length ents) ents)

module _ (l : CacheLimits) (tag_of : Text → Text) where
  -- The entry that `record` displaces, if it is evidence that the content moved.
  abbrev pub displaced : HashCache → HcEnt → Option HcEnt → Option HcEnt
  displaced c e none = none
  displaced c e (some old) =
      if not (old.gen == c.gen)
        && comparable tag_of old e.tag e.size e.mod_unix
        && (not (text_eq old.pfx e.pfx) || not (text_eq old.hash e.hash))
      then some old
      else none

  abbrev pub note_changed : HashCache → ℕ → Text → Option HcEnt → List (ℕ × ChangedRec)
  note_changed c key tag none = c.changed
  note_changed c key tag (some old) =
      if ltb (length c.changed) l.changed_max
      then put key (record { tag = tag; prior = old.hash }) c.changed
      else c.changed

  abbrev pub prior_text : Option HcEnt → Option Text
  prior_text none = none
  prior_text (some old) = some (hex_encode old.hash)

  -- `record` of an entry; the answer is the content that it displaced, if that is evidence.
  unfoldable pub record_ent : HashCache → ℕ → HcEnt → HashCache × Option Text
  unfolding trim_mid_scan_locked
  record_ent c key e =
      let old = displaced c e (get key c.ents) in
      let ents = put key e c.ents in
      (
        record {
          gen = c.gen;
          ents = if ltb (high l) (length ents) then trim_mid_scan_locked c.gen l.max ents else ents;
          dirty = true;
          changed = note_changed c key e.tag old;
        },
        prior_text old,
      )

  unfoldable pub record_hash : HashCache → Text → ℕ → ℕ → Text → Text → HashCache × Option Text
  unfolding record_ent path_key prefix_of hex_decode
  record_hash c path size mod_unix pfx_hex full_hex = elim (prefix_of pfx_hex) [
    | none ↦ (c, none)
    | some pfx ↦ elim (hex_decode full_hex) [
      | none ↦ (c, none)
      | some full ↦
          if not (length full == 32)
          then (c, none)
          else record_ent c (path_key path) (record {
            size = size;
            mod_unix = mod_unix;
            tag = tag_of path;
            pfx = pfx;
            hash = full;
            gen = c.gen;
          })
    ]
  ]
