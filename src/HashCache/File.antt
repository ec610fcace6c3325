-- ===== src/HashCache/File.antt =====
-- The file of the hash store: `saveTrim` and `loadHashCache` of server/hashcache.go, on the bytes of
-- the file. A file that cannot be opened is handed in as one without bytes.
pub mod RoundTrip
use duplicatefinder.Base.{
  ◌^◌, ◌%◌, text_eq, some, zero, ◌||◌, true, none, length, ◌*◌, not, ltb, take, if◌then◌else◌, ◌++◌,
  suc, ◌+◌, Option, false, [], List, Bool, ◌∷◌, drop, ℕ, Text,
}
use duplicatefinder.Scan.Windows.{little_endian}
use duplicatefinder.HashCache.{HashCache, HcEnt, CacheLimits, put, trim_locked}
use duplicatefinder.Results.View.{sort_stable}

abbrev pub hash_cache_magic : Text
hash_cache_magic = b'D' ∷ b'F' ∷ b'H' ∷ b'C' ∷ b'2' ∷ 0 ∷ 0 ∷ 0 ∷ []

-- One record of 92 bytes.
unfoldable pub put_ent : ℕ × HcEnt → Text
unfolding little_endian
put_ent ke =
    let e = ke.1 in
    little_endian 8 ke.0
    ++ (little_endian 8 e.size
        ++ (little_endian 8 e.mod_unix ++ (e.tag ++ (e.pfx ++ (e.hash ++ little_endian 4 e.gen)))))

unfoldable pub put_ents : List (ℕ × HcEnt) → Text
unfolding put_ent
put_ents [] = []
put_ents (ke ∷ m) = put_ent ke ++ put_ents m

-- The entries that a save writes: in the middle of a scan the newest, up to the cap.
abbrev pub saved_ents : CacheLimits → Bool → List (ℕ × HcEnt) → List (ℕ × HcEnt)
saved_ents l true ents = trim_locked l.max ents
saved_ents l false ents =
    if ltb l.max (length ents)
    then take l.max (sort_stable (λ a b. ltb b.1.gen a.1.gen) ents)
    else ents

-- The bytes of the file, and the store after the save; nothing is written if nothing changed.
unfoldable pub save_trim : CacheLimits → Bool → HashCache → HashCache × Option Text
unfolding put_ents
save_trim l final c =
    let all_ents = saved_ents l final c.ents in
    if not c.dirty then (c, none) else (
      record c { ents = if final then all_ents else c.ents; dirty = false },
      some (
          hash_cache_magic
          ++ (little_endian 4 c.gen
              ++ (little_endian 4 (length all_ents % 2 ^ 32) ++ put_ents all_ents))),
    )

-- `binary.LittleEndian.Uint64` and `Uint32`.
unfoldable pub from_le : Text → ℕ
from_le [] = 0
from_le (b ∷ s) = b + 256 * from_le s

unfoldable pub read_ent : Text → ℕ × HcEnt
unfolding from_le
read_ent s₀ =
    let s₁ = drop 8 s₀ in
    let s₂ = drop 8 s₁ in
    let s₃ = drop 8 s₂ in
    let s₄ = drop 16 s₃ in
    let s₅ = drop 16 s₄ in
    (
      from_le (take 8 s₀),
      record {
        size = from_le (take 8 s₁);
        mod_unix = from_le (take 8 s₂);
        tag = take 16 s₃;
        pfx = take 16 s₄;
        hash = take 32 s₅;
        gen = from_le (take 4 (drop 32 s₅));
      },
    )

-- The loop of `loadHashCache`: a truncated tail keeps what was read before it.
unfoldable pub read_ents : ℕ → Text → List (ℕ × HcEnt) → List (ℕ × HcEnt)
unfolding read_ent
read_ents zero s m = m
read_ents (suc k) s m =
    let ke = read_ent s in
    let rest = read_ents k (drop 92 s) (put ke.0 ke.1 m) in if ltb (length s) 92 then m else rest

abbrev pub empty_cache : HashCache
empty_cache = record { gen = 1; ents = []; dirty = false; changed = [] }

-- `i < count && int(i) <= hashCacheMax`.
abbrev pub rounds : CacheLimits → ℕ → ℕ
rounds l count = if ltb (suc l.max) count then suc l.max else count

unfoldable pub load_bytes : CacheLimits → Text → HashCache
unfolding read_ents from_le
load_bytes l s =
    let body = drop 16 s in
    let gen = from_le (take 4 (drop 8 s)) in
    let count = from_le (take 4 (drop 12 s)) in
    if ltb (length s) 16 || not (text_eq (take 8 s) hash_cache_magic) then empty_cache else record {
      gen = (gen + 1) % 2 ^ 32;
      ents = read_ents (rounds l count) body [];
      dirty = false;
      changed = [];
    }
