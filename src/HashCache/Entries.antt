-- ===== src/HashCache/Entries.antt =====
-- What the maps of server/hashcache.go hold after they are written and trimmed.
use mathlib.Core.List.{Memᴰ}
use mathlib.Core.Path.{subst}
use duplicatefinder.Base.{
  sym, true, ltb, not, arith, ◌-◌, inr, leb, length, filter, inl, ◌≡◌, ◌∷◌, ◌==◌, Bool, some, All,
  [], Bool-cases, List, ℕ,
}
use duplicatefinder.HashCache.{
  cutoff_of, trim_locked, drop_until, trim_mid_scan_locked, HcEnt, get, put,
}

module _ {A : Type 0} (P : A → Type 0) where
  abbrev pub AllEnts : List (ℕ × A) → Type 0
  AllEnts = All (λ ka. P ka.1)

  pub member-AllEnts : (k : ℕ) (a : A) (m : List (ℕ × A)) → AllEnts m → Memᴰ (k, a) m → P a
  member-AllEnts k a [] h i = elim i [ ]
  member-AllEnts k a (kb ∷ m) (p, h) (Memᴰ.head e) = subst (λ (x : ℕ × A). P x.1) (sym e) p
  member-AllEnts k a (kb ∷ m) (p, h) (Memᴰ.tail i) = member-AllEnts k a m h i

  pub get-AllEnts : (key : ℕ) (m : List (ℕ × A)) (a : A) → AllEnts m → get key m ≡ some a → P a
  get-AllEnts key [] a h e = cc
  get-AllEnts key ((k, b) ∷ m) a (p, h) e = elim (Bool-cases (k == key)) [
    | inl same ↦ subst P (ground (arith, e, same)) p
    | inr other ↦ get-AllEnts key m a h (ground (arith, e, other))
  ]

  pub put-AllEnts : (key : ℕ) (a : A) (m : List (ℕ × A)) → P a → AllEnts m → AllEnts (put key a m)
  put-AllEnts key a [] p h = (p, tt)
  put-AllEnts key a ((k, b) ∷ m) p (q, h) = elim (Bool-cases (k == key)) [
    | inl same ↦ rw same (p, h)
    | inr other ↦ rw other (q, put-AllEnts key a m p h)
  ]

  filter-AllEnts : (p : ℕ × A → Bool) (m : List (ℕ × A)) → AllEnts m → AllEnts (filter p m)
  filter-AllEnts p [] h = tt
  filter-AllEnts p (ka ∷ m) (q, h) = elim (Bool-cases (p ka)) [
    | inl yes_it ↦ rw yes_it (q, filter-AllEnts p m h)
    | inr no_it ↦ rw no_it (filter-AllEnts p m h)
  ]

module _ (P : HcEnt → Type 0) where
  drop_until-AllEnts :
      (test : HcEnt → Bool) (keep n : ℕ) (m : List (ℕ × HcEnt))
      → AllEnts P m
      → AllEnts P (drop_until test keep n m)
  unfolding drop_until
  drop_until-AllEnts test keep n [] h = tt
  drop_until-AllEnts test keep n ((k, e) ∷ m) (p, h) = elim (Bool-cases (leb n keep)) [
    | inl done ↦ rw done (p, h)
    | inr more ↦ elim (Bool-cases (test e)) [
      | inl goes ↦ rw (more, goes) (drop_until-AllEnts test keep (n - 1) m h)
      | inr stays ↦ rw (more, stays) (p, drop_until-AllEnts test keep n m h)
    ]
  ]

  trim_locked-AllEnts :
      (keep : ℕ) (m : List (ℕ × HcEnt)) → AllEnts P m → AllEnts P (trim_locked keep m)
  unfolding trim_locked
  trim_locked-AllEnts keep m h = elim (Bool-cases (leb (length m) keep)) [
    | inl fits ↦ rw fits h
    | inr long ↦
        let fresh = filter (λ ke. not (ltb ke.1.gen (cutoff_of keep m))) m in
        rw long (
          drop_until-AllEnts (λ e. true) keep (length fresh) fresh
            (filter-AllEnts P (λ ke. not (ltb ke.1.gen (cutoff_of keep m))) m h))
  ]

  pub trim_mid_scan_locked-AllEnts :
      (gen keep : ℕ) (m : List (ℕ × HcEnt))
      → AllEnts P m
      → AllEnts P (trim_mid_scan_locked gen keep m)
  unfolding trim_mid_scan_locked
  trim_mid_scan_locked-AllEnts gen keep m h =
      trim_locked-AllEnts keep _ (drop_until-AllEnts (λ e. e.gen == gen) keep (length m) m h)
