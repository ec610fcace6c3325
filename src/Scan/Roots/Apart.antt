-- ===== src/Scan/Roots/Apart.antt =====
-- The de-overlapping loop of `scanRoots` of server/scan.go.
use mathlib.Core.Path.{subst}
use duplicatefinder.Base.{
  and-intro, sym, Option, ◌∙◌, text_eq_refl, any-append, inr, all-append, refl, length-append, ◌≤◌,
  ◌++◌, inl, arith, length, true, false, ◌&&◌, [], Bool-cases, all, ◌≡◌, not, All, ◌∷◌, Bool,
  has_prefix, List, text_eq, Text,
}
use duplicatefinder.Model.{RootMap}
use duplicatefinder.Results.View.Sorting.{sort_stable-all, IsSorted, sort_stable-IsSorted}
use duplicatefinder.Scan.Roots.{
  sort_stable, resolve_roots, scan_roots, shorter, keep_roots, is_covered, covers,
}

-- Neither root is the other nor, when recursing, below it.
abbrev pub disjoint : Bool → RootMap → RootMap → Bool
disjoint recurse a b = not (covers recurse a.canon b.canon) && not (covers recurse b.canon a.canon)

abbrev pub Apart : Bool → List RootMap → Type 0
Apart recurse [] = Unit
Apart recurse (k ∷ ks) = (all (disjoint recurse k) ks ≡ true) × Apart recurse ks

has_prefix-length : (p s : Text) → has_prefix p s ≡ true → length p ≤ length s
unfolding has_prefix
has_prefix-length [] s h = omega arith
has_prefix-length (c ∷ p) [] h = cc
has_prefix-length (c ∷ p) (d ∷ s) h = ground (arith, has_prefix-length p s)

text_eq_sym : (s t : Text) → text_eq s t ≡ text_eq t s
unfolding text_eq
text_eq_sym [] [] = refl
text_eq_sym [] (d ∷ t) = refl
text_eq_sym (c ∷ s) [] = refl
text_eq_sym (c ∷ s) (d ∷ t) = ground (arith, text_eq_sym s t)

-- A root at least as long as `k` that `k` does not cover does not cover `k` either.
not_covered-disjoint :
    (recurse : Bool) (k w : RootMap)
    → shorter w k ≡ false
    → covers recurse w.canon k.canon ≡ false
    → disjoint recurse k w ≡ true
not_covered-disjoint recurse k w h n =
    let e = text_eq_sym k.canon w.canon in
    let len = has_prefix-length (w.canon ++ b'/' ∷ []) k.canon in
    let len' = length-append w.canon (b'/' ∷ []) in ground (arith, e, len, len')

disjoint-all :
    (recurse : Bool) (w : RootMap) (ks : List RootMap)
    → all (λ k. not (shorter w k)) ks ≡ true
    → is_covered recurse ks w.canon ≡ false
    → all (λ k. disjoint recurse k w) ks ≡ true
unfolding is_covered
disjoint-all recurse w [] h n = refl
disjoint-all recurse w (k ∷ ks) h n =
    ground (arith, disjoint-all recurse w ks, not_covered-disjoint recurse k w)

Apart-snoc :
    (recurse : Bool) (w : RootMap) (ks : List RootMap)
    → Apart recurse ks
    → all (λ k. disjoint recurse k w) ks ≡ true
    → Apart recurse (ks ++ w ∷ [])
Apart-snoc recurse w [] a h = (refl, tt)
Apart-snoc recurse w (k ∷ ks) a h = (
  all-append (disjoint recurse k) ks (w ∷ []) a.0 (ground arith),
  Apart-snoc recurse w ks a.1 (ground arith),
)

-- No root still to come is shorter than one that is kept.
abbrev Longer : List RootMap → List RootMap → Type 0
Longer ks ws = All (λ w. all (λ k. not (shorter w k)) ks ≡ true) ws

Longer-snoc :
    (w : RootMap) (ks ws : List RootMap)
    → Longer ks ws
    → all (λ v. not (shorter v w)) ws ≡ true
    → Longer (ks ++ w ∷ []) ws
Longer-snoc w ks [] h s = tt
Longer-snoc w ks (v ∷ ws) h s = (
  all-append (λ k. not (shorter v k)) ks (w ∷ []) h.0 (ground arith),
  Longer-snoc w ks ws h.1 (ground arith),
)

keep_roots-skip :
    (recurse : Bool) (ks ws : List RootMap) (w : RootMap)
    → is_covered recurse ks w.canon ≡ true
    → keep_roots recurse ks (w ∷ ws) ≡ keep_roots recurse ks ws
unfolding keep_roots
keep_roots-skip recurse ks ws w h = ground (arith, h)

keep_roots-add :
    (recurse : Bool) (ks ws : List RootMap) (w : RootMap)
    → is_covered recurse ks w.canon ≡ false
    → keep_roots recurse ks (w ∷ ws) ≡ keep_roots recurse (ks ++ w ∷ []) ws
unfolding keep_roots
keep_roots-add recurse ks ws w h = ground (arith, h)

keep_roots-Apart :
    (recurse : Bool) (ks ws : List RootMap)
    → Apart recurse ks
    → Longer ks ws
    → IsSorted shorter ws
    → Apart recurse (keep_roots recurse ks ws)
unfolding keep_roots
keep_roots-Apart recurse ks [] a l s = a
keep_roots-Apart recurse ks (w ∷ ws) a l s = elim (Bool-cases (is_covered recurse ks w.canon)) [
  | inl in_kept ↦
      rw (keep_roots-skip recurse ks ws w in_kept) (keep_roots-Apart recurse ks ws a l.1 s.1)
  | inr apart ↦ rw (keep_roots-add recurse ks ws w apart) (
      keep_roots-Apart recurse (ks ++ w ∷ []) ws
        (Apart-snoc recurse w ks a (disjoint-all recurse w ks l.0 apart))
        (Longer-snoc w ks ws l.1 s.0) s.1)
]

keep_roots-kept :
    (recurse : Bool) (ks ws : List RootMap) (c : Text)
    → is_covered recurse ks c ≡ true
    → is_covered recurse (keep_roots recurse ks ws) c ≡ true
unfolding keep_roots is_covered
keep_roots-kept recurse ks [] c h = h
keep_roots-kept recurse ks (w ∷ ws) c h = elim (Bool-cases (is_covered recurse ks w.canon)) [
  | inl in_kept ↦ rw (keep_roots-skip recurse ks ws w in_kept) (keep_roots-kept recurse ks ws c h)
  | inr apart ↦ rw (keep_roots-add recurse ks ws w apart) (
      keep_roots-kept recurse (ks ++ w ∷ []) ws c
        (any-append (λ k. covers recurse c k.canon) ks (w ∷ []) ∙ rw h refl))
]

-- What was resolved is covered by what is walked.
abbrev pub AllCovered : Bool → List RootMap → List RootMap → Type 0
AllCovered recurse kept found = all (λ w. is_covered recurse kept w.canon) found ≡ true

keep_roots-all :
    (recurse : Bool) (ks ws : List RootMap) → AllCovered recurse (keep_roots recurse ks ws) ws
unfolding keep_roots is_covered
keep_roots-all recurse ks [] = refl
keep_roots-all recurse ks (w ∷ ws) = elim (Bool-cases (is_covered recurse ks w.canon)) [
  | inl in_kept ↦
      subst (λ r. AllCovered recurse r (w ∷ ws)) (sym (keep_roots-skip recurse ks ws w in_kept))
        (and-intro _ _ (keep_roots-kept recurse ks ws w.canon in_kept)
          (keep_roots-all recurse ks ws))
  | inr apart ↦
      let own = any-append (λ k. covers recurse w.canon k.canon) ks (w ∷ []) in
      let now : is_covered recurse (ks ++ w ∷ []) w.canon ≡ true =
        ground (arith, own, text_eq_refl w.canon) in
      subst (λ r. AllCovered recurse r (w ∷ ws)) (sym (keep_roots-add recurse ks ws w apart))
        (and-intro _ _ (keep_roots-kept recurse (ks ++ w ∷ []) ws w.canon now)
          (keep_roots-all recurse (ks ++ w ∷ []) ws))
]

-- Of the roots that resolve, the scan walks a set in which no root is another or, when it
-- recurses, lies inside another; and every root that resolves is one of these or, when it
-- recurses, inside one: nothing is walked twice and nothing is left out.
pub scan_roots-Apart :
    (resolve : Text → Option Text) (recurse : Bool) (roots : List Text)
    → Apart recurse (scan_roots resolve recurse roots).0
      × AllCovered recurse (scan_roots resolve recurse roots).0 (resolve_roots resolve roots).0
unfolding scan_roots
scan_roots-Apart resolve recurse roots =
    let found = (resolve_roots resolve roots).0 in
    let sorted = sort_stable shorter found in
    (
      keep_roots-Apart recurse [] sorted tt (none_kept sorted)
          (sort_stable-IsSorted shorter (λ a b h. ground arith) (λ a b c h k. ground arith) found),
      sym (
            sort_stable-all shorter (λ w. is_covered recurse (keep_roots recurse [] sorted) w.canon)
              found)
          ∙ keep_roots-all recurse [] sorted,
    )
  where
    none_kept : (ws : List RootMap) → Longer [] ws
    none_kept [] = tt
    none_kept (w ∷ ws) = (refl, none_kept ws)
