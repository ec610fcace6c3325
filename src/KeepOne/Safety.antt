-- ===== src/KeepOne/Safety.antt =====
-- What `keepOneDropsWhy` of server/move.go leaves of one group: a copy on disk.
use duplicatefinder.KeepOne.Picks.{pick-reads, held_of-some, hold_back_of-held, pick-good}
use duplicatefinder.KeepOne.Tallies.{
  candidates-all, tally-survivors, survives, candidates-first, tally_fills_tier1, tally-collected,
  first_tiers, Tiers, collected, available,
}
use mathlib.Core.Path.{subst}
use duplicatefinder.Base.{
  all, ◌<◌, ltb→lt, text_eq_refl, any_of_member, ltb, is_nil, any_mono, Bool-cases, any-witness,
  or-eq_true_left, text_eq, or-eq_true_right, any, ◌≡◌, refl, sym, ◌∙◌, ◌⊎◌, inl, inr, Bool, true,
  false, not, ◌&&◌, ◌||◌, none, some, List, [], ◌∷◌, arith, Text,
}
use duplicatefinder.KeepOne.{
  candidates, reads, why_of, pick, Why, start, original, tally, hold_back, staying, group_tally,
  original_step, staying_original, requested_original, Request,
}

module _ (q : Request) (hash : Text) where
  abbrev pub stays : Text → Bool
  stays p = staying q p && q.on_disk p && original q p

  abbrev pub leaves : Text → Bool
  leaves p = not (staying q p) && q.on_disk p && original q p

  original_step_sound :
      (f s : Bool) (p : Text)
      → (original_step q hash f s p).0 ≡ true
      → (f ≡ true) ⊎ (stays p ≡ true)
  unfolding original_step
  original_step_sound f s p h = ground arith

  -- An original that the second loop finds is a staying one on disk.
  staying_original_sound :
      (f s : Bool) (ps : List Text)
      → (staying_original q hash f s ps).0 ≡ true
      → (f ≡ true) ⊎ (any stays ps ≡ true)
  unfolding staying_original
  staying_original_sound f s [] h = inl h
  staying_original_sound f s (p ∷ ps) h =
      elim (staying_original_sound (original_step q hash f s p).0 (original_step q hash f s p).1 ps
        h) [
          | inr later ↦ inr (or-eq_true_right (stays p) (any stays ps) later)
          | inl now ↦ elim (original_step_sound f s p now) [
            | inl before ↦ inl before
            | inr here ↦ inr (or-eq_true_left (stays p) (any stays ps) here)
          ]
        ]

  original_step-found : (s : Bool) (p : Text) → (original_step q hash true s p).0 ≡ true
  unfolding original_step
  original_step-found s p = refl

  pub staying_original-found :
      (s : Bool) (ps : List Text) → (staying_original q hash true s ps).0 ≡ true
  unfolding staying_original
  staying_original-found s [] = refl
  staying_original-found s (p ∷ ps) = staying_original-found (original_step q hash true s p).1 ps

  pub requested_original-eq-any : (ps : List Text) → requested_original q hash ps ≡ any leaves ps
  unfolding requested_original
  requested_original-eq-any [] = refl
  requested_original-eq-any (p ∷ ps) = rw (requested_original-eq-any ps) refl

  -- `anyOriginal` of one group.
  abbrev pub found_original : List Text → Bool
  found_original ps = (staying_original q hash (requested_original q hash ps) false ps).0

  pub found_original_sound :
      (ps : List Text) → found_original ps ≡ true → (any leaves ps ≡ true) ⊎ (any stays ps ≡ true)
  found_original_sound ps h =
      elim (staying_original_sound (requested_original q hash ps) false ps h) [
        | inl e ↦ inl (sym (requested_original-eq-any ps) ∙ e)
        | inr e ↦ inr e
      ]

  -- A copy on disk stays, or a requested one on disk is a candidate.
  pub available_or_stays :
      (ps : List Text)
      → any q.on_disk ps ≡ true
      → (any (λ p. staying q p && q.on_disk p) ps ≡ true)
        ⊎ (any (available q hash (found_original ps)) ps ≡ true)
  available_or_stays ps h =
      let (m, disk, up) = any-witness q.on_disk ps h in
      elim (Bool-cases (staying q m)) [
        | inl s ↦ inl (up _ (rw (s, disk) refl))
        | inr l ↦ elim (Bool-cases (found_original ps)) [
          | inr no_original ↦ inr (up _ (rw (l, disk, no_original) refl))
          | inl original ↦ elim (found_original_sound ps original) [
            | inl leaving ↦ inr (
                any_mono (leaves) (available q hash (found_original ps))
                  (λ p e. rw original (ground arith)) ps leaving)
            | inr s ↦ inl (any_mono (stays) _ (λ p e. ground arith) ps s)
          ]
        ]
      ]

  pub group_tally_lem :
      (ps : List Text)
      → group_tally q hash ps
        ≡ tally q hash
            (found_original ps)
            (start (staying_original q hash (requested_original q hash ps) false ps).1)
            ps
  unfolding group_tally
  group_tally_lem ps = refl

  abbrev pub stale_flag : List Text → Bool
  stale_flag ps = (staying_original q hash (requested_original q hash ps) false ps).1

  pub group-Tiers :
      (ps : List Text)
      → Tiers q hash
          (found_original ps)
          (first_tiers q hash (found_original ps) (collected q hash (found_original ps) ps))
          (first_tiers q hash (found_original ps) (collected q hash (found_original ps) ps))
          (collected q hash (found_original ps) ps)
          (group_tally q hash ps)
  group-Tiers ps =
      rw (group_tally_lem ps) (tally-collected q hash (found_original ps) (stale_flag ps) ps)

  -- The first candidate decides: what is held back is on disk and was requested.
  held_from :
      (ps : List Text) (k : Text) (ks : List Text)
      → candidates (group_tally q hash ps) ≡ k ∷ ks
      → q.on_disk k ≡ true
      → ltb 0 (group_tally q hash ps).survivors ≡ false
      → (h : Text) × (w : Why) × (hold_back q hash ps ≡ some (h, w))
        × (q.on_disk h ≡ true)
        × (collected q hash (found_original ps) ps h ≡ true)
        × (any (λ p. q.on_disk p && reads q.intact p hash) (k ∷ ks) ≡ true
            → reads q.intact h hash ≡ true)
  held_from ps k ks e d s =
      let c = collected q hash (found_original ps) ps in
      let every : all c (k ∷ ks) ≡ true =
        subst (λ l. all c l ≡ true) e
          (candidates-all q hash (found_original ps) c (group_tally q hash ps) (group-Tiers ps)) in
      let (d', c') = pick-good q hash c q.intact k ks every d in
      (
        pick q hash q.intact k (k ∷ ks),
        why_of (group_tally q hash ps),
        hold_back_of-held q hash ps _ (held_of-some q hash (group_tally q hash ps) k ks s e),
        d',
        c',
        pick-reads q hash q.intact k ks,
      )

  pub held_collected :
      (ps : List Text)
      → is_nil (group_tally q hash ps).tier1 ≡ false
      → ltb 0 (group_tally q hash ps).survivors ≡ false
      → (h : Text) × (w : Why) × (hold_back q hash ps ≡ some (h, w))
        × (q.on_disk h ≡ true)
        × (collected q hash (found_original ps) ps h ≡ true)
        × (any (λ p. q.on_disk p && reads q.intact p hash) (candidates (group_tally q hash ps))
              ≡ true
            → reads q.intact h hash ≡ true)
  held_collected ps n s =
      let f = found_original ps in
      let (k, ks, e, d) =
        candidates-first q hash f (collected q hash f ps) (group_tally q hash ps) (group-Tiers ps)
          n in
      let (h, w, b, d', c, r) = held_from ps k ks e d s in
      (
        h,
        w,
        b,
        d',
        c,
        λ a. r (subst (λ l. any (λ p. q.on_disk p && reads q.intact p hash) l ≡ true) e a),
      )

  no_survivors : (s : Bool) → 0 < (start s).survivors → ⊥
  no_survivors s h = omega arith

  abbrev pub is_kept : List Text → Text → Bool
  is_kept ps p = staying q p || elim (hold_back q hash ps) [ none ↦ false | some h ↦ text_eq p h.0 ]

  pub survivor_stays :
      (ps : List Text)
      → ltb 0 (group_tally q hash ps).survivors ≡ true
      → any (survives q hash (found_original ps)) ps ≡ true
  survivor_stays ps h =
      elim (tally-survivors q hash (found_original ps) (start (stale_flag ps)) ps
        (rw (← group_tally_lem ps) (ltb→lt 0 (group_tally q hash ps).survivors h))) [
          | inl before ↦ absurd (no_survivors (stale_flag ps) before)
          | inr found ↦ found
        ]

  pub held_kept :
      (ps : List Text) (k : Text) (w : Why) (g : Text → Bool)
      → hold_back q hash ps ≡ some (k, w)
      → collected q hash (found_original ps) ps k ≡ true
      → g k ≡ true
      → any (λ p. g p && is_kept ps p) ps ≡ true
  held_kept ps k w g e c h =
      any_of_member (λ p. g p && is_kept ps p) k ps (ground arith)
        (rw (h, e, text_eq_refl k) (or-eq_true_right (staying q k) true refl))

  -- A group with a copy on disk keeps one on disk.
  pub group_keeps_copy :
      (ps : List Text) → any q.on_disk ps ≡ true → any (λ p. q.on_disk p && is_kept ps p) ps ≡ true
  group_keeps_copy ps h = elim (available_or_stays ps h) [
    | inl s ↦ any_mono _ (λ p. q.on_disk p && is_kept ps p) (λ p e. ground arith) ps s
    | inr a ↦ elim (Bool-cases (ltb 0 (group_tally q hash ps).survivors)) [
      | inl some_stay ↦
          any_mono _ (λ p. q.on_disk p && is_kept ps p) (λ p e. ground arith) ps
            (survivor_stays ps some_stay)
      | inr none_stays ↦
          let (k, w, e, d, c, r) =
            held_collected ps
              (rw (group_tally_lem ps)
                (tally_fills_tier1 q hash (found_original ps) (start (stale_flag ps)) ps a))
              none_stays in
          held_kept ps k w q.on_disk e c d
    ]
  ]
