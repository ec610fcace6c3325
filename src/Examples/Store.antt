-- ===== src/Examples/Store.antt =====
-- The hash store of a scan: server/hashcache.go.
use duplicatefinder.Scan.Windows.{fnv_write}
use duplicatefinder.HashCache.File.{load_bytes, save_trim}
use duplicatefinder.Base.{
  text_eq, refl, arith, some, reverse, [], ◌≡◌, ◌∷◌, codes, take, ◌++◌, true, Text,
}
use duplicatefinder.HashCache.{
  hex_encode, prior_content_changed, lookup, record_hash, load_hash_cache, HashCache, HcEnt,
  CacheLimits,
}
use duplicatefinder.HashCache.Scanned.{HashEvent, recorded}
use duplicatefinder.HashCache.Served.{IsServed, lookup-IsServed}
use duplicatefinder.HashCache.History.{IsHistory, prior_content_changed-IsHistory}
use duplicatefinder.HashCache.Bounds.{IsCapped, recorded-IsCapped}
use duplicatefinder.HashCache.File.RoundTrip.{load_bytes-save_trim}

abbrev limits : CacheLimits
limits = record { max = 4; changed_max = 2 }

abbrev pfx_hex : Text
pfx_hex = codes "000102030405060708090a0b0c0d0e0f"

abbrev full_hex : Text
full_hex = pfx_hex ++ pfx_hex

abbrev pfx_bytes : Text
pfx_bytes = 0 ∷ 1 ∷ 2 ∷ 3 ∷ 4 ∷ 5 ∷ 6 ∷ 7 ∷ 8 ∷ 9 ∷ 10 ∷ 11 ∷ 12 ∷ 13 ∷ 14 ∷ 15 ∷ []

-- The tag of a path stands for BLAKE3.
abbrev padded : Text → Text
padded p = take 16 (p ++ pfx_bytes)

-- What an earlier scan stored for one path.
abbrev stored : HcEnt
stored = record {
  size = 9;
  mod_unix = 7;
  tag = padded (codes "/v/a");
  pfx = pfx_bytes;
  hash = reverse pfx_bytes ++ pfx_bytes;
  gen = 2;
}

abbrev opened : HashCache
opened = load_hash_cache 2 ((8070336854186830588, stored) ∷ [])

abbrev read_again : HashEvent
read_again = record {
  path = codes "/v/b";
  size = 5;
  mod_unix = 6;
  pfx_hex = pfx_hex;
  full_hex = full_hex;
}

abbrev dirty_store : HashCache
dirty_store = record opened { dirty = true }

lookup-IsServed_example :
    IsServed limits padded opened (read_again ∷ []) (codes "/v/b") 5 6 pfx_hex full_hex
unfolding recorded record_hash lookup fnv_write text_eq hex_encode
lookup-IsServed_example =
    lookup-IsServed limits padded opened (read_again ∷ []) (codes "/v/b") 5 6 pfx_hex full_hex refl
      (refl, tt) refl

-- The same path and times, with other content after the prefix.
abbrev changed_deep : HashEvent
changed_deep = record {
  path = codes "/v/a";
  size = 9;
  mod_unix = 7;
  pfx_hex = pfx_hex;
  full_hex = full_hex;
}

prior_content_changed-IsHistory_example :
    IsHistory limits padded opened (codes "/v/a") (hex_encode (reverse pfx_bytes ++ pfx_bytes))
unfolding recorded record_hash prior_content_changed fnv_write text_eq
prior_content_changed-IsHistory_example =
    prior_content_changed-IsHistory limits padded opened (changed_deep ∷ []) (codes "/v/a") 9 7
      pfx_hex (hex_encode (reverse pfx_bytes ++ pfx_bytes)) refl refl

recorded-IsCapped_example : IsCapped limits padded (recorded limits padded opened (read_again ∷ []))
recorded-IsCapped_example =
    recorded-IsCapped limits padded opened (read_again ∷ [])
      (record { ents_cap = omega arith; changed_cap = omega arith })

load_bytes-save_trim_example :
    (bytes : Text) × ((save_trim limits true dirty_store).1 ≡ some bytes)
    × (load_bytes limits bytes ≡ load_hash_cache 3 dirty_store.ents)
load_bytes-save_trim_example =
    load_bytes-save_trim limits true dirty_store refl (omega arith) (omega arith) (omega arith)
      (
        record {
          key_width = omega arith;
          size_width = omega arith;
          mod_width = omega arith;
          tag_width = refl;
          pfx_width = refl;
          hash_width = refl;
          gen_width = omega arith;
        },
        tt,
      )
      (refl, tt)
