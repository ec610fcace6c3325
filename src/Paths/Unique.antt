-- ===== src/Paths/Unique.antt =====
-- `uniquePaths` of server/paths.go.
use mathlib.Core.Path.{subst}
use duplicatefinder.Base.{
  all_mono, and-intro, or-eq_true_right, or-eq_false, or-eq_true_left, sym, arith, inl,
  text_eq_refl, refl, inr, ◌&&◌, ◌||◌, [], text_eq→eq, not, Bool-cases, false, true, is_nil, ◌≡◌,
  ◌∷◌, Bool, member, all, List, text_eq, Text,
}
use duplicatefinder.FilePath.{clean}
use duplicatefinder.Paths.{unique_from, unique_paths}

-- No path stands twice in the list.
abbrev pub Distinct : List Text → Type 0
Distinct [] = Unit
Distinct (p ∷ ps) = (member p ps ≡ false) × Distinct ps

-- The test of the loop.
abbrev is_new : List Text → Text → Bool
is_new seen p = not (is_nil (clean p)) && not (member (clean p) seen)

unique_from-keep :
    (seen : List Text) (p : Text) (ps : List Text)
    → is_new seen p ≡ true
    → unique_from seen (p ∷ ps) ≡ clean p ∷ unique_from (clean p ∷ seen) ps
unfolding unique_from
unique_from-keep seen p ps h = rw (h, unique_from) refl

unique_from-skip :
    (seen : List Text) (p : Text) (ps : List Text)
    → is_new seen p ≡ false
    → unique_from seen (p ∷ ps) ≡ unique_from seen ps
unfolding unique_from
unique_from-skip seen p ps h = rw (h, unique_from) refl

member-unique_from :
    (seen ps : List Text) (x : Text) → member x seen ≡ true → member x (unique_from seen ps) ≡ false
unfolding unique_from
member-unique_from seen [] x h = refl
member-unique_from seen (p ∷ ps) x h = elim (Bool-cases (is_new seen p)) [
  | inr old ↦ rw (unique_from-skip seen p ps old) (member-unique_from seen ps x h)
  | inl new ↦ rw (unique_from-keep seen p ps new) (
      or-eq_false (text_eq x (clean p)) _ (apart new)
        (member-unique_from (clean p ∷ seen) ps x (or-eq_true_right (text_eq x (clean p)) _ h)))
]
  where
    apart : is_new seen p ≡ true → text_eq x (clean p) ≡ false
    apart new = elim (Bool-cases (text_eq x (clean p))) [
      | inr other ↦ other
      | inl same ↦
          let e = text_eq→eq x (clean p) same in
          let seen_p : member (clean p) seen ≡ true = rw (← e) h in ground (arith, seen_p, new)
    ]

unique_from-Distinct : (seen ps : List Text) → Distinct (unique_from seen ps)
unfolding unique_from
unique_from-Distinct seen [] = tt
unique_from-Distinct seen (p ∷ ps) = elim (Bool-cases (is_new seen p)) [
  | inr old ↦ subst Distinct (sym (unique_from-skip seen p ps old)) (unique_from-Distinct seen ps)
  | inl new ↦ subst Distinct (sym (unique_from-keep seen p ps new)) (
    member-unique_from (clean p ∷ seen) ps (clean p)
        (or-eq_true_left (text_eq (clean p) (clean p)) _ (text_eq_refl (clean p))),
    unique_from-Distinct (clean p ∷ seen) ps,
  )
]

-- The cleaned path is empty, or was seen before, or is in the list.
abbrev pub has_place : List Text → List Text → Text → Bool
has_place seen out p = is_nil (clean p) || member (clean p) seen || member (clean p) out

AllPlaced : List Text → List Text → List Text → Type 0
AllPlaced seen out ps = all (has_place seen out) ps ≡ true

unique_from-AllPlaced : (seen ps : List Text) → AllPlaced seen (unique_from seen ps) ps
unfolding unique_from AllPlaced
unique_from-AllPlaced seen [] = refl
unique_from-AllPlaced seen (p ∷ ps) = elim (Bool-cases (is_new seen p)) [
  | inr old ↦
      subst (λ out. AllPlaced seen out (p ∷ ps)) (sym (unique_from-skip seen p ps old))
        (and-intro _ _ (ground (arith, old)) (unique_from-AllPlaced seen ps))
  | inl new ↦
      let out = unique_from (clean p ∷ seen) ps in
      subst (λ o. AllPlaced seen o (p ∷ ps)) (sym (unique_from-keep seen p ps new))
        (and-intro _ _ (ground (arith, text_eq_refl (clean p))) (
          all_mono (has_place (clean p ∷ seen) out) (has_place seen (clean p ∷ out))
            (λ x h. ground (arith, h)) ps (unique_from-AllPlaced (clean p ∷ seen) ps)))
]

-- The folders of a request, cleaned: none stands twice, and every one that is not empty when
-- cleaned is there.
pub unique_paths-Distinct :
    (ps : List Text)
    → Distinct (unique_paths ps)
      × (all (λ p. is_nil (clean p) || member (clean p) (unique_paths ps)) ps ≡ true)
unfolding unique_paths AllPlaced
unique_paths-Distinct ps = (
  unique_from-Distinct [] ps,
  all_mono (has_place [] (unique_from [] ps))
      (λ p. is_nil (clean p) || member (clean p) (unique_from [] ps)) (λ x h. ground (arith, h)) ps
      (unique_from-AllPlaced [] ps),
)
