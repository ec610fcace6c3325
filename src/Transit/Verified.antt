-- ===== src/Transit/Verified.antt =====
-- The outcomes of `transitViaFS` of server/transit.go.
use duplicatefinder.Base.{
  none, inr, inl, Bool-cases, ◌&&◌, ◌∙◌, not, if◌then◌else◌, Text, refl, ℕ, true, false, ◌≡◌, Bool,
}
use duplicatefinder.Vetting.{Ident}
use duplicatefinder.Transit.{
  Claim, RenameAnswer, place_by, retire_by, put_in_place, hide, renamed, rename_refused,
  rename_unknown, claimed, parked, answer_lost, put_back, is_scanned, said, retire_original,
  transit, discard_copy, restore_original, remove_hidden, Answers, Store, TransitRef, Outcome,
  untouched, kept_both, moved_but, moved, reproduces,
}

-- What an outcome promises: untouched, that the original stays where it was; any other, that a
-- verified copy is in place; and success also that the source is gone. That two copies exist, as
-- `kept_both` reports, is not promised: see `kept_both_but_hidden` among the examples.
abbrev pub Promises : TransitRef → Store → Outcome × Store → Type 0
Promises ref s (untouched, t) = t.src ≡ s.src
Promises ref s (kept_both, t) = reproduces ref t.placed ≡ true
Promises ref s (moved_but, t) = reproduces ref t.placed ≡ true
Promises ref s (moved, t) = (reproduces ref t.placed ≡ true) × (t.src ≡ none)

Promises-if :
    (ref : TransitRef) (s : Store) (b : Bool) (x y : Outcome × Store)
    → Promises ref s x
    → Promises ref s y
    → Promises ref s (if b then x else y)
Promises-if ref s true x y h k = h
Promises-if ref s false x y h k = k

placed-if : (b : Bool) (s t : Store) → s.placed ≡ t.placed → (if b then s else t).placed ≡ t.placed
placed-if true s t h = h
placed-if false s t h = refl

src-if : (b : Bool) (s t : Store) → s.src ≡ t.src → (if b then s else t).src ≡ t.src
src-if true s t h = h
src-if false s t h = refl

module _ (fmt : ℕ → Text) (want : Ident) (ref : TransitRef) (a : Answers) where
  restore_original-Promises :
      (s₀ s : Store)
      → reproduces ref s.placed ≡ true
      → Promises ref s₀ (restore_original fmt want ref a s)
  unfolding restore_original
  restore_original-Promises s₀ s h =
      let put = placed-if a.restore_happened (put_back fmt want ref a s) s refl in
      Promises-if ref s₀ a.restore_said_ok _ _ h (
        Promises-if ref s₀ (said true a.src_back && said false a.hidden_back) _ _ (rw put h)
          (rw put h))

  remove_hidden-Promises :
      (s₀ s : Store)
      → reproduces ref s.placed ≡ true
      → s.src ≡ none
      → Promises ref s₀ (remove_hidden fmt want ref a s)
  unfolding remove_hidden
  remove_hidden-Promises s₀ s h g = Promises-if ref s₀ _ _ _ (restore_original-Promises s₀ s h) (
      Promises-if ref s₀ a.delete_said_ok _ _ (h, g)
        (Promises-if ref s₀ (said false a.hidden_left) _ _ (h, g)
          (restore_original-Promises s₀ (record s { hidden = a.delete_leaves }) h)))

  retire_by-Promises :
      (answer : RenameAnswer) (s₀ s : Store)
      → reproduces ref s.placed ≡ true
      → Promises ref s₀ (retire_by fmt want ref a answer s)
  unfolding retire_by
  retire_by-Promises renamed s₀ s h = remove_hidden-Promises s₀ (hide fmt want ref a s) h refl
  retire_by-Promises rename_refused s₀ s h = h
  retire_by-Promises rename_unknown s₀ s h =
      let put = placed-if a.retire_happened (hide fmt want ref a s) s refl in
      Promises-if ref s₀ (said true a.hidden_there) _ _
        (remove_hidden-Promises s₀ (hide fmt want ref a s) h refl) (rw put h)

  discard_copy-Promises :
      (s₀ s : Store) → s.src ≡ s₀.src → Promises ref s₀ (discard_copy fmt want ref a s)
  unfolding discard_copy
  discard_copy-Promises s₀ s h =
      src-if (is_scanned fmt want a.src_info) (record s { staged = a.discard_leaves }) s refl ∙ h

  place_by-Promises :
      (answer : Claim) (s₀ s : Store)
      → s.src ≡ s₀.src
      → reproduces ref s.staged ≡ true
      → Promises ref s₀ (place_by fmt want ref a answer s)
  unfolding place_by retire_original
  place_by-Promises claimed s₀ s h k =
      retire_by-Promises a.retire s₀ (put_in_place fmt want ref a s) k
  place_by-Promises parked s₀ s h k = discard_copy-Promises s₀ s h
  place_by-Promises answer_lost s₀ s h k = h

  -- Whatever the calls of a verified move do and answer, copies damaged, calls failing and answers
  -- lost: if it reports the original as untouched, the original's data are where they were; under
  -- every other outcome, also the one that reports two copies, the destination holds a copy that
  -- reproduces the content that left; and if it reports success, nothing is left at the source.
  pub transit-Promises : (s : Store) → Promises ref s (transit fmt want ref a s)
  unfolding transit
  transit-Promises s =
      let s' = record s { staged = a.copied } in
      Promises-if ref s (not a.staging_made) _ _ refl (
        Promises-if ref s (not a.copy_said_ok) _ _ (discard_copy-Promises s s' refl) (
          Promises-if ref s (not a.copy_readable) _ _ (discard_copy-Promises s s' refl)
            (elim (Bool-cases (reproduces ref a.copied)) [
              | inl good ↦ rw good (place_by-Promises a.claim s s' refl good)
              | inr bad ↦ rw bad (discard_copy-Promises s s' refl)
            ])))
