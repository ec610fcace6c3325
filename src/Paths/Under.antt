-- ===== src/Paths/Under.antt =====
-- Containment of one path in another, as the checks decide it by prefixes.
use mathlib.Core.List.{append_assoc}
use duplicatefinder.Base.{
  text_eq, ◌≡◌, refl, sym, ap, ◌∙◌, true, inl, inr, List, [], ◌∷◌, ◌++◌, or-eq_true,
  or-eq_true_right, Text, text_eq→eq, has_prefix, has_prefix-append, has_prefix→split,
}
use duplicatefinder.FilePath.{slash}
use duplicatefinder.Paths.{at_or_below, is_under}

below : (p r : Text) → has_prefix (r ++ slash ∷ []) p ≡ true → (t : Text) × (p ≡ r ++ slash ∷ t)
below p r h =
    let (t, e) = has_prefix→split (r ++ slash ∷ []) p h in (t, e ∙ append_assoc r (slash ∷ []) t)

at_or_below_of_split : (r t : Text) → at_or_below (r ++ slash ∷ t) r ≡ true
at_or_below_of_split r t =
    or-eq_true_right (text_eq (r ++ slash ∷ t) r) (has_prefix (r ++ slash ∷ []) (r ++ slash ∷ t))
      (rw (sym (append_assoc r (slash ∷ []) t)) (has_prefix-append (r ++ slash ∷ []) t))

-- Containment is transitive.
pub at_or_below_trans :
    (p q r : Text) → at_or_below p q ≡ true → at_or_below q r ≡ true → at_or_below p r ≡ true
at_or_below_trans p q r h k = elim (or-eq_true _ _ h) [
  | inl e ↦ rw (text_eq→eq p q e) k
  | inr d ↦ elim (or-eq_true _ _ k) [
    | inl e ↦ rw (← text_eq→eq q r e) h
    | inr d' ↦
        let (s, es) = below p q d in
        let (t, et) = below q r d' in
        let whole : p ≡ r ++ slash ∷ (t ++ slash ∷ s) =
          es ∙ ap (λ x. x ++ slash ∷ s) et ∙ append_assoc r (slash ∷ t) (slash ∷ s) in
        rw whole (at_or_below_of_split r (t ++ slash ∷ s))
  ]
]

-- What lies under a path of a contained place lies under one of the containing roots.
pub is_under_trans :
    (p q : Text) (roots : List Text)
    → at_or_below p q ≡ true
    → is_under q roots ≡ true
    → is_under p roots ≡ true
unfolding is_under
is_under_trans p q [] h k = k
is_under_trans p q (r ∷ roots) h k = elim (or-eq_true (at_or_below q r) (is_under q roots) k) [
  | inl here ↦ rw (at_or_below_trans p q r h here) refl
  | inr later ↦ or-eq_true_right (at_or_below p r) _ (is_under_trans p q roots h later)
]
