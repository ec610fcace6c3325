-- ===== src/HashCache/Bounds.antt =====
-- The caps of the hash store of server/hashcache.go hold in memory.
use duplicatefinder.HashCache.Scanned.{HashEvent, recorded}
use duplicatefinder.Base.{
  not, filter, Option-cases, ◌≡◌, ◌==◌, leb→le, inr, ◌-◌, inl, [], ltb, ◌∷◌, leb, suc, Bool-cases,
  arith, true, ◌≤◌, List, length, ℕ, Text,
}
use duplicatefinder.HashCache.{
  path_key, hex_decode, prefix_of, record_hash, cutoff_of, displaced, high, trim_mid_scan_locked,
  record_ent, drop_until, trim_locked, CacheLimits, HashCache, HcEnt, get, put,
}

length-put-le :
    {A : Type 0} (key : ℕ) (a : A) (m : List (ℕ × A)) → length (put key a m) ≤ suc (length m)
length-put-le key a [] = omega arith
length-put-le key a ((k, b) ∷ m) = ground (arith, length-put-le key a m)

length-drop_until-le :
    (keep : ℕ) (m : List (ℕ × HcEnt)) → length (drop_until (λ e. true) keep (length m) m) ≤ keep
unfolding drop_until
length-drop_until-le keep [] = omega arith
length-drop_until-le keep ((k, e) ∷ m) =
    let one_less : suc (length m) - 1 ≡ length m = omega arith in
    elim (Bool-cases (leb (suc (length m)) keep)) [
      | inl fits ↦ rw fits (leb→le (suc (length m)) keep fits)
      | inr long ↦ rw (long, one_less) (length-drop_until-le keep m)
    ]

length-trim_locked-le : (keep : ℕ) (m : List (ℕ × HcEnt)) → length (trim_locked keep m) ≤ keep
unfolding trim_locked
length-trim_locked-le keep m = elim (Bool-cases (leb (length m) keep)) [
  | inl fits ↦ rw fits (leb→le (length m) keep fits)
  | inr long ↦
      rw long (length-drop_until-le keep (filter (λ ke. not (ltb ke.1.gen (cutoff_of keep m))) m))
]

module _ (l : CacheLimits) (tag_of : Text → Text) where
  -- Both maps of the store are within their caps.
  pub record IsCapped (c : HashCache) : Type 0 where
    pub ents_cap : length c.ents ≤ high l
    pub changed_cap : length c.changed ≤ l.changed_max

  record_ent-IsCapped :
      (c : HashCache) (key : ℕ) (e : HcEnt) → IsCapped c → IsCapped (record_ent l tag_of c key e).0
  unfolding record_ent trim_mid_scan_locked
  record_ent-IsCapped c key e h = record {
    ents_cap = elim (Bool-cases (ltb (high l) (length (put key e c.ents)))) [
      | inr fits ↦ rw fits (ground (arith, fits))
      | inl long ↦ rw long (
          omega (
            arith,
            length-trim_locked-le l.max (
                drop_until (λ x. x.gen == c.gen) l.max (length (put key e c.ents))
                  (put key e c.ents)),
          ))
    ];
    changed_cap = elim (Option-cases (displaced l tag_of c e (get key c.ents))) [
      | inl kept ↦ rw kept h.changed_cap
      | inr (old, moved) ↦ rw moved (
          ground (
            arith,
            h.changed_cap,
            length-put-le key (record { tag = e.tag; prior = old.hash }) c.changed,
          ))
    ];
  }

  record_hash-IsCapped :
      (c : HashCache) (ev : HashEvent)
      → IsCapped c
      → IsCapped (record_hash l tag_of c ev.path ev.size ev.mod_unix ev.pfx_hex ev.full_hex).0
  unfolding record_hash
  record_hash-IsCapped c ev h = elim (Option-cases (prefix_of ev.pfx_hex)) [
    | inl e ↦ rw (e, record_hash) h
    | inr (pfx, e) ↦ elim (Option-cases (hex_decode ev.full_hex)) [
      | inl f ↦ rw (e, record_hash) (rw (f, record_hash) h)
      | inr (full, f) ↦ elim (Bool-cases (length full == 32)) [
        | inr short ↦ rw (e, record_hash) (rw (f, record_hash) (rw (short, record_hash) h))
        | inl whole ↦
            rw (e, record_hash)
              (rw (f, record_hash)
                (rw (whole, record_hash) (record_ent-IsCapped c (path_key ev.path) _ h)))
      ]
    ]
  ]

  -- However many hashes a scan records, the store stays within its caps.
  pub recorded-IsCapped :
      (c : HashCache) (evs : List HashEvent) → IsCapped c → IsCapped (recorded l tag_of c evs)
  unfolding recorded
  recorded-IsCapped c [] h = h
  recorded-IsCapped c (ev ∷ evs) h =
      recorded-IsCapped
        (record_hash l tag_of c ev.path ev.size ev.mod_unix ev.pfx_hex ev.full_hex).0 evs
        (record_hash-IsCapped c ev h)
