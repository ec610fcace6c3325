-- ===== src/KeepOne/Content.antt =====
-- What `keepOneDropsWhy` of server/move.go leaves of one group: content and originals.
use duplicatefinder.KeepOne.Picks.{held_of-hold_back, held_of-all}
use mathlib.Core.Path.{subst}
use duplicatefinder.KeepOne.Tallies.{
  candidates-all, tally_finds_survivor, tally_fills_tier1, collected, available,
  tally_finds_readable, survives,
}
use duplicatefinder.KeepOne.Safety.{
  group-Tiers, held_kept, held_collected, staying_original-found, requested_original-eq-any, leaves,
  stale_flag, group_tally_lem, survivor_stays, found_original, is_kept,
}
use duplicatefinder.Base.{
  ◌∙◌, sym, lt→ltb, none, false, some, is_nil, any_mono, ltb, inr, arith, inl, Bool-cases,
  any-witness, refl, or-eq_true_right, any-append, ◌||◌, true, ◌≡◌, ◌&&◌, any, Bool, List, Text,
}
use duplicatefinder.KeepOne.{
  with_why, staying_original, held_of, hold_back, Why, start, group_tally, counts, staying,
  original, reads, Tally, candidates, Request,
}

module _ (q : Request) (hash : Text) where
  -- A copy that the third loop may count.
  abbrev pub is_counted : List Text → Text → Bool
  is_counted ps p =
      q.on_disk p && reads q.intact p hash && (staying q p || counts q (found_original q hash ps) p)

  candidates_readable :
      (t : Tally) (d : Text → Bool) → any d t.tier1 ≡ true → any d (candidates t) ≡ true
  unfolding candidates
  candidates_readable t d h =
      rw (any-append d t.tier0, any-append d t.tier1, h)
        (or-eq_true_right (any d t.tier0) true refl)

  -- A group with a copy on disk that still holds the content, counted or staying, keeps one.
  pub group_keeps_content :
      (ps : List Text)
      → any (is_counted ps) ps ≡ true
      → any (λ p. (q.on_disk p && reads q.intact p hash) && is_kept q hash ps p) ps ≡ true
  group_keeps_content ps h =
      let f = found_original q hash ps in
      let d = λ (p : Text). q.on_disk p && reads q.intact p hash in
      let goal = λ (p : Text). d p && is_kept q hash ps p in
      let (m, e, up) = any-witness (is_counted ps) ps h in
      elim (Bool-cases (staying q m)) [
        | inl s ↦ up goal (ground arith)
        | inr l ↦ elim (Bool-cases (ltb 0 (group_tally q hash ps).survivors)) [
          | inl some_stay ↦
              any_mono (survives q hash f) goal (λ p k. ground arith) ps
                (survivor_stays q hash ps some_stay)
          | inr none_stays ↦
              let found : any d (group_tally q hash ps).tier1 ≡ true =
                rw (group_tally_lem q hash ps) (
                  tally_finds_readable q hash f d (start (stale_flag q hash ps)) ps
                    (up (λ p. available q hash f p && d p) (ground arith))) in
              let filled : is_nil (group_tally q hash ps).tier1 ≡ false =
                rw (group_tally_lem q hash ps) (
                  tally_fills_tier1 q hash f (start (stale_flag q hash ps)) ps
                    (up (available q hash f) (ground arith))) in
              let (k, w, b, disk, c, r) = held_collected q hash ps filled none_stays in
              held_kept q hash ps k w d b c
                (rw (disk, r (candidates_readable (group_tally q hash ps) d found)) refl)
        ]
      ]

  found_of_leaving :
      (ps : List Text) → any (leaves q hash) ps ≡ true → found_original q hash ps ≡ true
  found_of_leaving ps h =
      subst (λ b. (staying_original q hash b false ps).0 ≡ true)
        (sym (requested_original-eq-any q hash ps ∙ h)) (staying_original-found q hash false ps)

  -- A group with an original on disk keeps an original on disk.
  pub group_keeps_original :
      (ps : List Text)
      → any (λ p. q.on_disk p && original q p) ps ≡ true
      → any (λ p. (q.on_disk p && original q p) && is_kept q hash ps p) ps ≡ true
  group_keeps_original ps h =
      let f = found_original q hash ps in
      let g = λ (p : Text). q.on_disk p && original q p in
      let goal = λ (p : Text). g p && is_kept q hash ps p in
      let (m, e, up) = any-witness g ps h in
      elim (Bool-cases (staying q m)) [
        | inl s ↦ up goal (ground arith)
        | inr l ↦
            let found : f ≡ true = found_of_leaving ps (up (leaves q hash) (ground arith)) in
            elim (Bool-cases (ltb 0 (group_tally q hash ps).survivors)) [
              | inl some_stay ↦
                  any_mono (survives q hash f) goal (λ p k. ground arith) ps
                    (survivor_stays q hash ps some_stay)
              | inr none_stays ↦
                  let filled : is_nil (group_tally q hash ps).tier1 ≡ false =
                    rw (group_tally_lem q hash ps) (
                      tally_fills_tier1 q hash f (start (stale_flag q hash ps)) ps
                        (up (available q hash f) (ground arith))) in
                  let (k, w, b, disk, c, r) = held_collected q hash ps filled none_stays in
                  held_kept q hash ps k w g b c (ground arith)
            ]
      ]

  -- Nothing is held back where a staying copy that counts still holds the content.
  pub hold_back_of_survivor :
      (ps : List Text)
      → any (survives q hash (found_original q hash ps)) ps ≡ true
      → hold_back q hash ps ≡ none
  unfolding hold_back held_of with_why
  hold_back_of_survivor ps h =
      let more : ltb 0 (group_tally q hash ps).survivors ≡ true = lt→ltb 0 _ (
        rw (group_tally_lem q hash ps) (
          tally_finds_survivor q hash (found_original q hash ps) (start (stale_flag q hash ps)) ps
            h)) in
      rw (more, held_of, hold_back, with_why) refl

  -- What is held back is a requested, unprotected member that counts.
  pub hold_back-collected :
      (ps : List Text) (k : Text) (w : Why)
      → hold_back q hash ps ≡ some (k, w)
      → collected q hash (found_original q hash ps) ps k ≡ true
  hold_back-collected ps k w h =
      let f = found_original q hash ps in
      let c = collected q hash f ps in
      held_of-all q hash c (group_tally q hash ps) k
        (candidates-all q hash f c (group_tally q hash ps) (group-Tiers q hash ps))
        (held_of-hold_back q hash ps k w h)
