-- ===== src/HashCache/History.antt =====
-- What `priorContentChanged` of server/hashcache.go answers during a scan.
use duplicatefinder.HashCache.Scanned.{
  start-IsScanned, Known, Witnessed, recorded-IsScanned, recorded, IsScanned, HashEvent, InHistory,
}
use duplicatefinder.Base.{
  if◌then◌else◌, ap, none, text_eq→eq, ◌||◌, refl, sym, text_eq, not, Bool-cases, ◌==◌, arith,
  Option-cases, ◌∙◌, Option, inr, [], some, inl, List, ◌≡◌, ℕ, Text,
}
use duplicatefinder.HashCache.{
  prior_content_changed, live_change, hex_encode, path_key, comparable, prefix_of, CacheLimits,
  HashCache, HcEnt, get,
}
use duplicatefinder.HashCache.Entries.{get-AllEnts}

module _ (l : CacheLimits) (tag_of : Text → Text) (c₀ : HashCache) where
  -- Content that a file is said to have had was stored for it by an earlier scan.
  pub record IsHistory (path prior : Text) : Type 0 where
    pub entry : HcEnt
    pub stored : InHistory l tag_of c₀ entry
    pub same_path : entry.tag ≡ tag_of path
    pub answer : prior ≡ hex_encode entry.hash

  live_change-IsHistory :
      (evs : List HashEvent) (c : HashCache) (path : Text) (size mod_unix : ℕ) (pfx prior : Text)
      → IsScanned l tag_of c₀ evs c
      → live_change tag_of c path size mod_unix pfx ≡ some prior
      → IsHistory path prior
  live_change-IsHistory evs c path size mod_unix pfx prior s q =
      elim (Option-cases (get (path_key path) c.ents)) [
        | inl e ↦ absurd (ground (arith, q, e))
        | inr (e, g) ↦
            elim (Bool-cases (
              e.gen == c.gen
              || not (comparable tag_of e (tag_of path) size mod_unix)
              || text_eq e.pfx pfx)) [
                | inl fails ↦ absurd (ground (arith, q, g, fails))
                | inr holds ↦
                    elim (get-AllEnts (Known l tag_of c₀ evs) (path_key path) c.ents e s.known g) [
                      | inl (now, _) ↦ absurd (ground (arith, holds, now, s.gen_eq))
                      | inr i ↦ record {
                        entry = e;
                        stored = i;
                        same_path = text_eq→eq e.tag (tag_of path) (ground (arith, holds));
                        answer = ground (arith, q, g, holds);
                      }
                    ]
              ]
      ]

  -- What was noted of the path, else the live entry.
  noted_or : HashCache → Text → Option Text → Option Text
  noted_or c path live = elim (get (path_key path) c.changed) [
    | none ↦ live
    | some r ↦ if text_eq r.tag (tag_of path) then some (hex_encode r.prior) else live
  ]

  prior_with :
      (c : HashCache) (path : Text) (size mod_unix : ℕ) (pfx_hex pfx : Text)
      → prefix_of pfx_hex ≡ some pfx
      → prior_content_changed tag_of c path size mod_unix pfx_hex
        ≡ noted_or c path (live_change tag_of c path size mod_unix pfx)
  unfolding prior_content_changed noted_or
  prior_with c path size mod_unix pfx_hex pfx p = rw (p, prior_content_changed) refl

  changed-IsHistory :
      (evs : List HashEvent) (c : HashCache) (path prior : Text) (live : Option Text)
      → IsScanned l tag_of c₀ evs c
      → (live ≡ some prior → IsHistory path prior)
      → noted_or c path live ≡ some prior
      → IsHistory path prior
  unfolding noted_or
  changed-IsHistory evs c path prior live s from_live q =
      elim (Option-cases (get (path_key path) c.changed)) [
        | inl e ↦ from_live (ground (arith, q, e))
        | inr (r, g) ↦ elim (Bool-cases (text_eq r.tag (tag_of path))) [
          | inr other ↦ from_live (ground (arith, q, g, other))
          | inl same ↦
              let (e, i, tag_eq, prior_eq) =
                get-AllEnts (Witnessed l tag_of c₀) (path_key path) c.changed r s.witnessed g in
              record {
                entry = e;
                stored = i;
                same_path = sym tag_eq ∙ text_eq→eq r.tag (tag_of path) same;
                answer = ground (arith, q, g, same, ap hex_encode prior_eq);
              }
        ]
      ]

  -- Whatever a scan recorded, content that a file is said to have had was stored for a path with
  -- the same tag before the scan began.
  pub prior_content_changed-IsHistory :
      (evs : List HashEvent) (path : Text) (size mod_unix : ℕ) (pfx_hex prior : Text)
      → c₀.changed ≡ []
      → prior_content_changed tag_of (recorded l tag_of c₀ evs) path size mod_unix pfx_hex
        ≡ some prior
      → IsHistory path prior
  unfolding prior_content_changed
  prior_content_changed-IsHistory evs path size mod_unix pfx_hex prior empty q =
      let c = recorded l tag_of c₀ evs in
      let s =
        recorded-IsScanned l tag_of c₀ evs evs c₀ (λ ev i. i)
          (start-IsScanned l tag_of c₀ evs empty) in
      elim (Option-cases (prefix_of pfx_hex)) [
        | inl e ↦ absurd (ground (arith, q, e))
        | inr (pfx, p) ↦
            changed-IsHistory evs c path prior (live_change tag_of c path size mod_unix pfx) s
              (λ live. live_change-IsHistory evs c path size mod_unix pfx prior s live)
              (sym (prior_with c path size mod_unix pfx_hex pfx p) ∙ q)
      ]
