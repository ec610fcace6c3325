-- ===== src/KeepOne/Tallies.antt =====
-- What the third loop of `keepOneDropsWhy` counts and collects.
use duplicatefinder.Base.{
  refl, ◌++◌, all_mono, all-append, and-eq_true, member, text_eq_refl, is_nil, [], inr, inl, ◌∷◌,
  any, List, false, all, or-eq_true, or-eq_true_left, or-eq_true_right, ◌<◌, ◌≡◌, Bool, true, not,
  ◌&&◌, ◌⊎◌, arith, Text,
}
use duplicatefinder.KeepOne.{
  start, candidates, tally, Request, Tally, staying, counts, reads, tally_step,
}

module _ (q : Request) (hash : Text) (f : Bool) where
  abbrev pub survives : Text → Bool
  survives p = staying q p && q.on_disk p && counts q f p && reads q.intact p hash

  abbrev pub available : Text → Bool
  available p = not (staying q p) && q.on_disk p && counts q f p

  step_survivors :
      (t : Tally) (p : Text)
      → 0 < (tally_step q hash f t p).survivors
      → (0 < t.survivors) ⊎ (survives p ≡ true)
  unfolding tally_step
  step_survivors t p h = ground arith

  -- A survivor is a staying copy that counts and holds the content.
  pub tally-survivors :
      (t : Tally) (ps : List Text)
      → 0 < (tally q hash f t ps).survivors
      → (0 < t.survivors) ⊎ (any survives ps ≡ true)
  unfolding tally
  tally-survivors t [] h = inl h
  tally-survivors t (p ∷ ps) h = elim (tally-survivors (tally_step q hash f t p) ps h) [
    | inr later ↦ inr (or-eq_true_right (survives p) (any survives ps) later)
    | inl now ↦ elim (step_survivors t p now) [
      | inl before ↦ inl before
      | inr here ↦ inr (or-eq_true_left (survives p) (any survives ps) here)
    ]
  ]

  step_keeps_survivors :
      (t : Tally) (p : Text) → 0 < t.survivors → 0 < (tally_step q hash f t p).survivors
  unfolding tally_step
  step_keeps_survivors t p h = ground arith

  step_finds_survivor :
      (t : Tally) (p : Text) → survives p ≡ true → 0 < (tally_step q hash f t p).survivors
  unfolding tally_step
  step_finds_survivor t p h = ground arith

  tally_keeps_survivors :
      (t : Tally) (ps : List Text) → 0 < t.survivors → 0 < (tally q hash f t ps).survivors
  unfolding tally
  tally_keeps_survivors t [] h = h
  tally_keeps_survivors t (p ∷ ps) h =
      tally_keeps_survivors (tally_step q hash f t p) ps (step_keeps_survivors t p h)

  -- Every such copy is noticed.
  pub tally_finds_survivor :
      (t : Tally) (ps : List Text) → any survives ps ≡ true → 0 < (tally q hash f t ps).survivors
  unfolding tally
  tally_finds_survivor t [] h = cc
  tally_finds_survivor t (p ∷ ps) h = elim (or-eq_true (survives p) (any survives ps) h) [
    | inl here ↦ tally_keeps_survivors (tally_step q hash f t p) ps (step_finds_survivor t p here)
    | inr later ↦ tally_finds_survivor (tally_step q hash f t p) ps later
  ]

  -- What holds of every requested copy that counts holds of every candidate.
  abbrev pub Tiers : (Text → Bool) → (Text → Bool) → (Text → Bool) → Tally → Type 0
  Tiers a b c t =
      (all a t.tier0 ≡ true)
      × (all b t.tier1 ≡ true)
      × (all c t.tier2 ≡ true)
      × (all c t.tier3 ≡ true)

  module _ (c : Text → Bool) where
    abbrev pub first_tiers : Text → Bool
    first_tiers p = q.on_disk p && c p

    step-Tiers :
        (t : Tally) (p : Text)
        → (staying q p ≡ false → counts q f p ≡ true → c p ≡ true)
        → Tiers first_tiers first_tiers c t
        → Tiers first_tiers first_tiers c (tally_step q hash f t p)
    unfolding tally_step
    step-Tiers t p h k = ground arith

    -- The hypothesis of `step-Tiers`, for each path of the loop.
    abbrev pub Admits : List Text → Type 0
    Admits [] = Unit
    Admits (p ∷ ps) = (staying q p ≡ false → counts q f p ≡ true → c p ≡ true) × Admits ps

    tally-Tiers :
        (t : Tally) (ps : List Text)
        → Admits ps
        → Tiers first_tiers first_tiers c t
        → Tiers first_tiers first_tiers c (tally q hash f t ps)
    unfolding tally
    tally-Tiers t [] h k = k
    tally-Tiers t (p ∷ ps) h k = tally-Tiers (tally_step q hash f t p) ps h.1 (step-Tiers t p h.0 k)

  step_keeps_tier1 :
      (t : Tally) (p : Text)
      → is_nil t.tier1 ≡ false
      → is_nil (tally_step q hash f t p).tier1 ≡ false
  unfolding tally_step
  step_keeps_tier1 t p h = ground arith

  step_fills_tier1 :
      (t : Tally) (p : Text) → available p ≡ true → is_nil (tally_step q hash f t p).tier1 ≡ false
  unfolding tally_step
  step_fills_tier1 t p h = ground arith

  tally_keeps_tier1 :
      (t : Tally) (ps : List Text)
      → is_nil t.tier1 ≡ false
      → is_nil (tally q hash f t ps).tier1 ≡ false
  unfolding tally
  tally_keeps_tier1 t [] h = h
  tally_keeps_tier1 t (p ∷ ps) h =
      tally_keeps_tier1 (tally_step q hash f t p) ps (step_keeps_tier1 t p h)

  -- A requested copy on disk that counts is a candidate.
  pub tally_fills_tier1 :
      (t : Tally) (ps : List Text)
      → any available ps ≡ true
      → is_nil (tally q hash f t ps).tier1 ≡ false
  unfolding tally
  tally_fills_tier1 t [] h = cc
  tally_fills_tier1 t (p ∷ ps) h = elim (or-eq_true (available p) (any available ps) h) [
    | inl here ↦ tally_keeps_tier1 (tally_step q hash f t p) ps (step_fills_tier1 t p here)
    | inr later ↦ tally_fills_tier1 (tally_step q hash f t p) ps later
  ]

  -- Some readable copy among the requested ones that count is in the second tier.
  module _ (d : Text → Bool) where
    abbrev readable : Text → Bool
    readable p = available p && d p

    step_keeps_readable :
        (t : Tally) (p : Text) → any d t.tier1 ≡ true → any d (tally_step q hash f t p).tier1 ≡ true
    unfolding tally_step
    step_keeps_readable t p h = ground arith

    step_finds_readable :
        (t : Tally) (p : Text) → readable p ≡ true → any d (tally_step q hash f t p).tier1 ≡ true
    unfolding tally_step
    step_finds_readable t p h = ground arith

    tally_keeps_readable :
        (t : Tally) (ps : List Text)
        → any d t.tier1 ≡ true
        → any d (tally q hash f t ps).tier1 ≡ true
    unfolding tally
    tally_keeps_readable t [] h = h
    tally_keeps_readable t (p ∷ ps) h =
        tally_keeps_readable (tally_step q hash f t p) ps (step_keeps_readable t p h)

    pub tally_finds_readable :
        (t : Tally) (ps : List Text)
        → any readable ps ≡ true
        → any d (tally q hash f t ps).tier1 ≡ true
    unfolding tally
    tally_finds_readable t [] h = cc
    tally_finds_readable t (p ∷ ps) h = elim (or-eq_true (readable p) (any readable ps) h) [
      | inl here ↦ tally_keeps_readable (tally_step q hash f t p) ps (step_finds_readable t p here)
      | inr later ↦ tally_finds_readable (tally_step q hash f t p) ps later
    ]

module _ (q : Request) (hash : Text) (f : Bool) where
  Admits-mono :
      (c d : Text → Bool)
      → ((p : Text) → c p ≡ true → d p ≡ true)
      → (ps : List Text) → Admits q hash f c ps
      → Admits q hash f d ps
  Admits-mono c d h [] a = a
  Admits-mono c d h (p ∷ ps) a = (λ s k. h p (a.0 s k), Admits-mono c d h ps a.1)

  -- What the tiers take up: requested members that count.
  abbrev pub collected : List Text → Text → Bool
  collected ps p = not (staying q p) && counts q f p && member p ps

  pub Admits-collected : (ps : List Text) → Admits q hash f (collected ps) ps
  Admits-collected [] = tt
  Admits-collected (p ∷ ps) = (
    λ s k. rw (s, k, text_eq_refl p) refl,
    Admits-mono (collected ps) (collected (p ∷ ps)) (λ x h. ground arith) ps (Admits-collected ps),
  )

  pub tally-collected :
      (s : Bool) (ps : List Text)
      → Tiers q hash f
          (first_tiers q hash f (collected ps))
          (first_tiers q hash f (collected ps))
          (collected ps)
          (tally q hash f (start s) ps)
  tally-collected s ps =
      tally-Tiers q hash f (collected ps) (start s) ps (Admits-collected ps)
        (refl, refl, refl, refl)

  pub candidates-all :
      (c : Text → Bool) (t : Tally)
      → Tiers q hash f (first_tiers q hash f c) (first_tiers q hash f c) c t
      → all c (candidates t) ≡ true
  unfolding candidates
  candidates-all c t h =
      let weaker =
        λ (x : Text) (e : first_tiers q hash f c x ≡ true). (and-eq_true (q.on_disk x) (c x) e).1 in
      all-append c t.tier0 _ (all_mono _ c weaker t.tier0 h.0) (
        all-append c t.tier1 _ (all_mono _ c weaker t.tier1 h.1)
          (all-append c t.tier2 t.tier3 h.2 h.3))

  pub candidates-first :
      (c : Text → Bool) (t : Tally)
      → Tiers q hash f (first_tiers q hash f c) (first_tiers q hash f c) c t
      → is_nil t.tier1 ≡ false
      → (k : Text) × (ks : List Text) × (candidates t ≡ k ∷ ks) × (q.on_disk k ≡ true)
  unfolding candidates
  candidates-first c t h n = first t.tier0 t.tier1 h.0 h.1 n
    where
      first :
          (xs ys : List Text)
          → all (first_tiers q hash f c) xs ≡ true
          → all (first_tiers q hash f c) ys ≡ true
          → is_nil ys ≡ false
          → (k : Text) × (ks : List Text) × (xs ++ (ys ++ (t.tier2 ++ t.tier3)) ≡ k ∷ ks)
            × (q.on_disk k ≡ true)
      first [] [] a b e = cc
      first [] (y ∷ ys) a b e = (y, ys ++ (t.tier2 ++ t.tier3), refl, ground arith)
      first (x ∷ xs) ys a b e = (x, xs ++ (ys ++ (t.tier2 ++ t.tier3)), refl, ground arith)
