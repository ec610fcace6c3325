-- ===== src/KeepOne/Picks.antt =====
-- Which candidate is held back when no copy stays.
use mathlib.Core.Path.{subst}
use duplicatefinder.Base.{
  Option, [], inr, inl, none, find, find_sound, refl, Option-cases, find-some_of_any, arith, false,
  some, true, ◌&&◌, ◌∷◌, ◌≡◌, all, any, ltb, List, Bool, Text,
}
use duplicatefinder.KeepOne.{
  with_why, Why, pick_from, why_of, candidates, requested_original, reads, staying_original, start,
  group_tally, tally, Reader, Tally, pick, hold_back, held_of, Request,
}

with_why-some :
    (v : Why) (o : Option Text) (k : Text) (w : Why) → with_why v o ≡ some (k, w) → o ≡ some k
unfolding with_why
with_why-some v none k w h = cc
with_why-some v (some x) k w h = ground arith

module _ (q : Request) (hash : Text) where
  pub pick-good :
      (c : Text → Bool) (r : Reader) (k : Text) (ks : List Text)
      → all c (k ∷ ks) ≡ true
      → q.on_disk k ≡ true
      → (q.on_disk (pick q hash r k (k ∷ ks)) ≡ true) × (c (pick q hash r k (k ∷ ks)) ≡ true)
  unfolding pick
  pick-good c none k ks a d = (d, ground arith)
  pick-good c (some intact) k ks a d =
      elim (Option-cases (find (λ p. q.on_disk p && intact p hash) (k ∷ ks))) [
        | inl e ↦ rw (e, pick) (d, ground arith)
        | inr (x, e) ↦
            let (px, up) = find_sound (λ p. q.on_disk p && intact p hash) (k ∷ ks) x e in
            rw (e, pick) (ground arith, up c a)
      ]

  pub pick-reads :
      (r : Reader) (k : Text) (ks : List Text)
      → any (λ p. q.on_disk p && reads r p hash) (k ∷ ks) ≡ true
      → reads r (pick q hash r k (k ∷ ks)) hash ≡ true
  unfolding pick
  pick-reads none k ks a = refl
  pick-reads (some intact) k ks a =
      let (x, e) = find-some_of_any (λ p. q.on_disk p && intact p hash) (k ∷ ks) a in
      let (px, up) = find_sound (λ p. q.on_disk p && intact p hash) (k ∷ ks) x e in
      rw (e, pick) (ground arith)

  abbrev pub outcome : Text → Bool → List Text → Tally
  outcome h f ps =
      tally q h f (start (staying_original q h (requested_original q h ps) false ps).1) ps

  pub held_of-some :
      (t : Tally) (k : Text) (ks : List Text)
      → ltb 0 t.survivors ≡ false
      → candidates t ≡ k ∷ ks
      → held_of q hash t ≡ some (pick q hash q.intact k (k ∷ ks))
  unfolding held_of
  held_of-some t k ks n e = rw (n, e, pick_from) refl

  pub hold_back_of-held :
      (ps : List Text) (k : Text)
      → held_of q hash (group_tally q hash ps) ≡ some k
      → hold_back q hash ps ≡ some (k, why_of (group_tally q hash ps))
  unfolding hold_back with_why
  hold_back_of-held ps k e = rw (e, hold_back, with_why) refl

  pub pick-all :
      (c : Text → Bool) (r : Reader) (k : Text) (ks : List Text)
      → all c (k ∷ ks) ≡ true
      → c (pick q hash r k (k ∷ ks)) ≡ true
  unfolding pick
  pick-all c none k ks a = ground arith
  pick-all c (some intact) k ks a =
      elim (Option-cases (find (λ p. q.on_disk p && intact p hash) (k ∷ ks))) [
        | inl e ↦ rw (e, pick) (ground arith)
        | inr (x, e) ↦
            rw (e, pick) ((find_sound (λ p. q.on_disk p && intact p hash) (k ∷ ks) x e).1 c a)
      ]

  pick_from-all :
      (c : Text → Bool) (l : List Text) (k : Text)
      → all c l ≡ true
      → pick_from q hash l ≡ some k
      → c k ≡ true
  unfolding pick_from
  pick_from-all c [] k a h = cc
  pick_from-all c (x ∷ xs) k a h =
      let same : pick q hash q.intact x (x ∷ xs) ≡ k = ground arith in
      subst (λ y. c y ≡ true) same (pick-all c q.intact x xs a)

  pub held_of-all :
      (c : Text → Bool) (t : Tally) (k : Text)
      → all c (candidates t) ≡ true
      → held_of q hash t ≡ some k
      → c k ≡ true
  unfolding held_of
  held_of-all c t k a h = pick_from-all c (candidates t) k a (ground arith)

  pub held_of-hold_back :
      (ps : List Text) (k : Text) (w : Why)
      → hold_back q hash ps ≡ some (k, w)
      → held_of q hash (group_tally q hash ps) ≡ some k
  unfolding hold_back
  held_of-hold_back ps k w h = with_why-some (why_of (group_tally q hash ps)) _ k w h
