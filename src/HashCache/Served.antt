-- ===== src/HashCache/Served.antt =====
-- What `lookup` of server/hashcache.go answers during a scan.
use duplicatefinder.HashCache.Scanned.{
  start-IsScanned, Known, recorded-IsScanned, recorded, IsScanned, HashEvent,
}
use mathlib.Core.List.{Memᴰ}
use duplicatefinder.Base.{
  ap, text_eq→eq, refl, sym, text_eq, ◌&&◌, false, Bool-cases, ◌==◌, arith, Option-cases, ◌∙◌, inr,
  [], some, inl, List, ◌≡◌, ℕ, Text,
}
use duplicatefinder.HashCache.{
  lookup, served, hex_encode, path_key, comparable, hex_decode, prefix_of, CacheLimits, HashCache,
  HcEnt, get,
}
use duplicatefinder.HashCache.Entries.{member-AllEnts, get-AllEnts, AllEnts}

module _ (l : CacheLimits) (tag_of : Text → Text) (c₀ : HashCache) where
  -- A hash that is served was recorded in this scan.
  pub record IsServed (evs : List HashEvent) (path : Text) (size mod_unix : ℕ) (pfx_hex h : Text)
      : Type 0 where
    pub event : HashEvent
    pub called : Memᴰ event evs
    pub same_path : tag_of event.path ≡ tag_of path
    pub same_size : event.size ≡ size
    pub same_time : event.mod_unix ≡ mod_unix
    pub same_prefix : prefix_of event.pfx_hex ≡ prefix_of pfx_hex
    pub full : Text
    pub full_eq : hex_decode event.full_hex ≡ some full
    pub answer : h ≡ hex_encode full

  served-IsServed :
      (evs : List HashEvent) (c : HashCache) (e : HcEnt) (path : Text) (size mod_unix : ℕ)
      (pfx_hex pfx h : Text)
      → AllEnts (λ e. (e.gen == c₀.gen) ≡ false) c₀.ents
      → IsScanned l tag_of c₀ evs c
      → Known l tag_of c₀ evs e
      → prefix_of pfx_hex ≡ some pfx
      → served tag_of c e path size mod_unix pfx ≡ some h
      → IsServed evs path size mod_unix pfx_hex h
  served-IsServed evs c e path size mod_unix pfx_hex pfx h old s known p q =
      elim (Bool-cases
        (e.gen == c.gen && comparable tag_of e (tag_of path) size mod_unix && text_eq e.pfx pfx)) [
          | inr fails ↦ absurd (ground (arith, q, fails))
          | inl holds ↦ elim known [
            | inr (k, i) ↦ absurd (
                ground (
                  arith,
                  holds,
                  s.gen_eq,
                  member-AllEnts (λ e. (e.gen == c₀.gen) ≡ false) k e c₀.ents old i,
                ))
            | inl (g, (ev, i, r)) ↦ record {
              event = ev;
              called = i;
              same_path = sym r.tag_eq ∙ text_eq→eq e.tag (tag_of path) (ground (arith, holds));
              same_size = sym r.size_eq ∙ ground (arith, holds);
              same_time = sym r.mod_eq ∙ ground (arith, holds);
              same_prefix =
                  r.pfx_eq ∙ ap some (text_eq→eq e.pfx pfx (ground (arith, holds))) ∙ sym p;
              full = e.hash;
              full_eq = r.hash_eq;
              answer = ground (arith, q, holds);
            }
          ]
        ]

  lookup_hit :
      (c : HashCache) (e : HcEnt) (path : Text) (size mod_unix : ℕ) (pfx_hex pfx : Text)
      → prefix_of pfx_hex ≡ some pfx
      → get (path_key path) c.ents ≡ some e
      → lookup tag_of c path size mod_unix pfx_hex ≡ served tag_of c e path size mod_unix pfx
  unfolding lookup
  lookup_hit c e path size mod_unix pfx_hex pfx p g = rw (p, lookup) (rw g refl)

  -- Whatever a scan recorded, a hash that it is served is one that it recorded itself, for a path
  -- with the same tag, at the same size, time and prefix, where the store began with the entries
  -- of other scans.
  pub lookup-IsServed :
      (evs : List HashEvent) (path : Text) (size mod_unix : ℕ) (pfx_hex h : Text)
      → c₀.changed ≡ []
      → AllEnts (λ e. (e.gen == c₀.gen) ≡ false) c₀.ents
      → lookup tag_of (recorded l tag_of c₀ evs) path size mod_unix pfx_hex ≡ some h
      → IsServed evs path size mod_unix pfx_hex h
  unfolding lookup
  lookup-IsServed evs path size mod_unix pfx_hex h empty old q =
      let c = recorded l tag_of c₀ evs in
      let s =
        recorded-IsScanned l tag_of c₀ evs evs c₀ (λ ev i. i)
          (start-IsScanned l tag_of c₀ evs empty) in
      elim (Option-cases (prefix_of pfx_hex)) [
        | inl e ↦ absurd (ground (arith, q, e))
        | inr (pfx, p) ↦ elim (Option-cases (get (path_key path) c.ents)) [
          | inl e ↦ absurd (ground (arith, q, p, e))
          | inr (e, g) ↦
              served-IsServed evs c e path size mod_unix pfx_hex pfx h old s
                (get-AllEnts (Known l tag_of c₀ evs) (path_key path) c.ents e s.known g) p
                (sym (lookup_hit c e path size mod_unix pfx_hex pfx p g) ∙ q)
        ]
      ]
