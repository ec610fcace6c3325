-- ===== src/HashCache/Scanned.antt =====
-- Where the entries of the hash store of server/hashcache.go come from.
use mathlib.Core.List.{Memᴰ}
use duplicatefinder.Base.{
  none, text_eq→eq, ◌||◌, refl, sym, text_eq, ◌&&◌, length, false, not, ltb, Bool-cases, ◌==◌,
  arith, Option-cases, ◌∙◌, Option, inr, [], some, inl, ◌⊎◌, ◌∷◌, List, ◌≡◌, ℕ, Text,
}
use duplicatefinder.HashCache.{
  path_key, comparable, high, record_ent, note_changed, hex_decode, displaced, prefix_of,
  ChangedRec, CacheLimits, HashCache, HcEnt, record_hash, get, put,
}
use duplicatefinder.HashCache.Entries.{
  trim_mid_scan_locked-AllEnts, put-AllEnts, get-AllEnts, AllEnts,
}

-- A call of `record`.
pub record HashEvent : Type 0 where
  pub path : Text
  pub size : ℕ
  pub mod_unix : ℕ
  pub pfx_hex : Text
  pub full_hex : Text

module _ (l : CacheLimits) (tag_of : Text → Text) where
  -- The store after the calls of a scan.
  unfoldable pub recorded : HashCache → List HashEvent → HashCache
  recorded c [] = c
  recorded c (ev ∷ evs) =
      recorded (record_hash l tag_of c ev.path ev.size ev.mod_unix ev.pfx_hex ev.full_hex).0 evs

  -- An entry that holds what a call recorded.
  pub record Holds (e : HcEnt) (ev : HashEvent) : Type 0 where
    pub tag_eq : e.tag ≡ tag_of ev.path
    pub size_eq : e.size ≡ ev.size
    pub mod_eq : e.mod_unix ≡ ev.mod_unix
    pub pfx_eq : prefix_of ev.pfx_hex ≡ some e.pfx
    pub hash_eq : hex_decode ev.full_hex ≡ some e.hash

  -- What `record` displaces as evidence stood there, of another scan, at the same size and time.
  pub record Displaced (c : HashCache) (e : HcEnt) (o : Option HcEnt) (old : HcEnt) : Type 0 where
    pub stood : o ≡ some old
    pub older : (old.gen == c.gen) ≡ false
    pub tag_eq : old.tag ≡ e.tag
    pub size_eq : old.size ≡ e.size
    pub mod_eq : old.mod_unix ≡ e.mod_unix
    pub differs : (text_eq old.pfx e.pfx && text_eq old.hash e.hash) ≡ false

  displaced-Displaced :
      (c : HashCache) (e : HcEnt) (o : Option HcEnt) (old : HcEnt)
      → displaced l tag_of c e o ≡ some old
      → Displaced c e o old
  displaced-Displaced c e none old h = cc
  displaced-Displaced c e (some x) old h =
      elim (Bool-cases (
        not (x.gen == c.gen)
        && comparable tag_of x e.tag e.size e.mod_unix
        && (not (text_eq x.pfx e.pfx) || not (text_eq x.hash e.hash)))) [
          | inr fails ↦ absurd (ground (arith, h, fails))
          | inl holds ↦
              let same : x ≡ old = ground (arith, h, holds) in
              rw (← same) (record {
                stood = refl;
                older = ground (arith, holds);
                tag_eq = text_eq→eq x.tag e.tag (ground (arith, holds));
                size_eq = ground (arith, holds);
                mod_eq = ground (arith, holds);
                differs = ground (arith, holds);
              })
        ]

  module _ (c₀ : HashCache) where
    abbrev pub InHistory : HcEnt → Type 0
    InHistory e = (k : ℕ) × Memᴰ (k, e) c₀.ents

    -- Read in this scan, or there before it.
    abbrev pub Known : List HashEvent → HcEnt → Type 0
    Known seen e = (e.gen ≡ c₀.gen) × ((ev : HashEvent) × Memᴰ ev seen × Holds e ev) ⊎ InHistory e

    abbrev pub Witnessed : ChangedRec → Type 0
    Witnessed r = (e : HcEnt) × InHistory e × (r.tag ≡ e.tag) × (r.prior ≡ e.hash)

    pub record IsScanned (seen : List HashEvent) (c : HashCache) : Type 0 where
      pub gen_eq : c.gen ≡ c₀.gen
      pub known : AllEnts (Known seen) c.ents
      pub witnessed : AllEnts Witnessed c.changed

    -- Only an older entry is evidence.
    displaced-InHistory :
        (seen : List HashEvent) (c : HashCache) (e : HcEnt) (key : ℕ) (old : HcEnt)
        → IsScanned seen c
        → displaced l tag_of c e (get key c.ents) ≡ some old
        → InHistory old × Displaced c e (get key c.ents) old
    displaced-InHistory seen c e key old s h =
        let d = displaced-Displaced c e (get key c.ents) old h in
        elim (get-AllEnts (Known seen) key c.ents old s.known d.stood) [
          | inl (g, _) ↦ absurd (ground (arith, d.older, g, s.gen_eq))
          | inr i ↦ (i, d)
        ]

    note_changed-Witnessed :
        (seen : List HashEvent) (c : HashCache) (e : HcEnt) (key : ℕ)
        → IsScanned seen c
        → AllEnts Witnessed
            (note_changed l tag_of c key e.tag (displaced l tag_of c e (get key c.ents)))
    note_changed-Witnessed seen c e key s =
        elim (Option-cases (displaced l tag_of c e (get key c.ents))) [
          | inl kept ↦ rw kept s.witnessed
          | inr (old, moved) ↦
              let (i, d) = displaced-InHistory seen c e key old s moved in
              elim (Bool-cases (ltb (length c.changed) l.changed_max)) [
                | inr full ↦ rw (moved, full) s.witnessed
                | inl room ↦
                    rw (moved, room)
                      (put-AllEnts Witnessed key (record { tag = e.tag; prior = old.hash })
                        c.changed (old, i, sym d.tag_eq, refl) s.witnessed)
              ]
        ]

    record_ent-IsScanned :
        (ev : HashEvent) (seen : List HashEvent) (c : HashCache) (key : ℕ) (e : HcEnt)
        → Memᴰ ev seen
        → e.gen ≡ c.gen
        → Holds e ev
        → IsScanned seen c
        → IsScanned seen (record_ent l tag_of c key e).0
    unfolding record_ent
    record_ent-IsScanned ev seen c key e i g holds s =
        let now : Known seen e = inl (g ∙ s.gen_eq, (ev, i, holds)) in
        let all = put-AllEnts (Known seen) key e c.ents now s.known in
        record {
          gen_eq = s.gen_eq;
          known = elim (Bool-cases (ltb (high l) (length (put key e c.ents)))) [
            | inl long ↦
                rw long
                  (trim_mid_scan_locked-AllEnts (Known seen) c.gen l.max (put key e c.ents) all)
            | inr fits ↦ rw fits all
          ];
          witnessed = note_changed-Witnessed seen c e key s;
        }

    record_hash-IsScanned :
        (ev : HashEvent) (seen : List HashEvent) (c : HashCache)
        → Memᴰ ev seen
        → IsScanned seen c
        → IsScanned seen
            (record_hash l tag_of c ev.path ev.size ev.mod_unix ev.pfx_hex ev.full_hex).0
    unfolding record_hash
    record_hash-IsScanned ev seen c i s = elim (Option-cases (prefix_of ev.pfx_hex)) [
      | inl e ↦ rw (e, record_hash) s
      | inr (pfx, e) ↦ elim (Option-cases (hex_decode ev.full_hex)) [
        | inl f ↦ rw (e, record_hash) (rw (f, record_hash) s)
        | inr (full, f) ↦ elim (Bool-cases (length full == 32)) [
          | inr short ↦ rw (e, record_hash) (rw (f, record_hash) (rw (short, record_hash) s))
          | inl whole ↦
              rw (e, record_hash)
                (rw (f, record_hash)
                  (rw (whole, record_hash)
                    (record_ent-IsScanned ev seen c (path_key ev.path)
                      (record {
                        size = ev.size;
                        mod_unix = ev.mod_unix;
                        tag = tag_of ev.path;
                        pfx = pfx;
                        hash = full;
                        gen = c.gen;
                      })
                      i refl
                      (record {
                        tag_eq = refl;
                        size_eq = refl;
                        mod_eq = refl;
                        pfx_eq = e;
                        hash_eq = f;
                      })
                      s)))
        ]
      ]
    ]

    pub recorded-IsScanned :
        (evs all_evs : List HashEvent) (c : HashCache)
        → ((ev : HashEvent) → Memᴰ ev evs → Memᴰ ev all_evs)
        → IsScanned all_evs c
        → IsScanned all_evs (recorded c evs)
    unfolding recorded
    recorded-IsScanned [] all_evs c sub s = s
    recorded-IsScanned (ev ∷ evs) all_evs c sub s =
        recorded-IsScanned evs all_evs
          (record_hash l tag_of c ev.path ev.size ev.mod_unix ev.pfx_hex ev.full_hex).0
          (λ w i. sub w (Memᴰ.tail i))
          (record_hash-IsScanned ev all_evs c (sub ev (Memᴰ.head refl)) s)

    pub start-IsScanned : (evs : List HashEvent) → c₀.changed ≡ [] → IsScanned evs c₀
    start-IsScanned evs empty = record {
      gen_eq = refl;
      known = from_history c₀.ents (λ k e i. (k, i));
      witnessed = rw empty tt;
    }
      where
        from_history :
            (m : List (ℕ × HcEnt))
            → ((k : ℕ) (e : HcEnt) → Memᴰ (k, e) m → InHistory e)
            → AllEnts (Known evs) m
        from_history [] f = tt
        from_history ((k, e) ∷ m) f =
            (inr (f k e (Memᴰ.head refl)), from_history m (λ j d i. f j d (Memᴰ.tail i)))
