-- ===== src/FilePath/Laws.antt =====
-- `filepath.Join`, `filepath.Clean` and `filepath.Base` on a proper component.
use mathlib.Core.List.{foldl, foldl-append, reverse-cons, append_assoc}
use duplicatefinder.Base.{
  ℕ, ◌≢◌, ◌≡◌, refl, sym, ap, ◌∙◌, Bool, true, false, ◌⊎◌, inl, inr, List, [], ◌∷◌, ◌++◌, reverse,
  arith, is_nil, Text,
}
use duplicatefinder.FilePath.{
  slash, onto_head, split_slash, join_slash, clean_step, is_abs, clean_segs, rooted_text, clean,
  join, has_slash, after_last, trim_slashes, base, is_proper,
}

onto_head-append : (c : ℕ) (a b : List Text) → a ≢ [] → onto_head c (a ++ b) ≡ onto_head c a ++ b
unfolding onto_head
onto_head-append c [] b h = absurd (h refl)
onto_head-append c (s ∷ a) b h = refl

split_slash-ne-nil : (a : Text) → split_slash a ≢ []
unfolding split_slash onto_head
split_slash-ne-nil [] = ground arith
split_slash-ne-nil (c ∷ a) = ground arith

split_slash-append : (a b : Text) → split_slash (a ++ slash ∷ b) ≡ split_slash a ++ split_slash b
unfolding split_slash
split_slash-append [] b = refl
split_slash-append (c ∷ a) b = ground (
  arith,
  split_slash-append a b,
  onto_head-append c (split_slash a) (split_slash b) (split_slash-ne-nil a),
)

split_slash-single : (n : Text) → has_slash n ≡ false → split_slash n ≡ n ∷ []
unfolding split_slash onto_head
split_slash-single [] h = refl
split_slash-single (c ∷ n) h = ground (arith, split_slash-single n)

clean_step-proper :
    (rooted : Bool) (out : List Text) (n : Text)
    → is_proper n ≡ true
    → clean_step rooted out n ≡ n ∷ out
unfolding clean_step
clean_step-proper rooted out n h = ground arith

has_slash_of_proper : (n : Text) → is_proper n ≡ true → has_slash n ≡ false
has_slash_of_proper n h = ground arith

is_nil_of_proper : (n : Text) → is_proper n ≡ true → is_nil n ≡ false
is_nil_of_proper n h = ground arith

-- A proper component stays the last one.
clean_segs-append :
    (a n : Text)
    → is_proper n ≡ true
    → (out : List Text) × (clean_segs (a ++ slash ∷ n) ≡ out ++ n ∷ [])
unfolding clean_segs
clean_segs-append a n h =
    let r = is_abs (a ++ slash ∷ n) in
    let kept = foldl (clean_step r) [] (split_slash a) in
    (
      reverse kept,
      rw (split_slash-append, split_slash-single n (has_slash_of_proper n h), foldl-append)
          (ap reverse (clean_step-proper r kept n h) ∙ reverse-cons n kept),
    )

join_slash-append :
    (out : List Text) (n : Text)
    → (join_slash (out ++ n ∷ []) ≡ n)
      ⊎ ((b : Text) × (join_slash (out ++ n ∷ []) ≡ b ++ slash ∷ n))
unfolding join_slash
join_slash-append [] n = inl refl
join_slash-append (s ∷ []) n = inr (s, refl)
join_slash-append (s ∷ t ∷ ts) n = elim (join_slash-append (t ∷ ts) n) [
  | inl e ↦ inr (s, ap (λ x. s ++ slash ∷ x) e)
  | inr (b, e) ↦
      inr
        (s ++ slash ∷ b, ap (λ x. s ++ slash ∷ x) e ∙ sym (append_assoc s (slash ∷ b) (slash ∷ n)))
]

has_slash-append : (b n : Text) → has_slash (b ++ slash ∷ n) ≡ true
has_slash-append [] n = refl
has_slash-append (c ∷ b) n = ground (arith, has_slash-append b n)

after_last-append : (b n : Text) → has_slash n ≡ false → after_last (b ++ slash ∷ n) ≡ n
unfolding after_last
after_last-append [] n h = rw h
after_last-append (c ∷ b) n h = rw (has_slash-append b n) (after_last-append b n h)

after_last_self : (n : Text) → has_slash n ≡ false → after_last n ≡ n
unfolding after_last
after_last_self [] h = refl
after_last_self (c ∷ n) h = ground arith

trim_slashes_self : (n : Text) → is_nil n ≡ false → has_slash n ≡ false → trim_slashes n ≡ n
unfolding trim_slashes
trim_slashes_self [] h k = refl
trim_slashes_self (c ∷ []) h k = ground arith
trim_slashes_self (c ∷ d ∷ n) h k = ground (arith, trim_slashes_self (d ∷ n))

trim_slashes-append :
    (b n : Text)
    → is_nil n ≡ false
    → has_slash n ≡ false
    → trim_slashes (b ++ slash ∷ n) ≡ b ++ slash ∷ n
unfolding trim_slashes
trim_slashes-append [] n h k = rw (trim_slashes_self n h k, h)
trim_slashes-append (c ∷ []) n h k = rw (trim_slashes-append [] n h k) (ground arith)
trim_slashes-append (c ∷ d ∷ b) n h k = rw (trim_slashes-append (d ∷ b) n h k) (ground arith)

base-slash : (b n : Text) → is_proper n ≡ true → base (b ++ slash ∷ n) ≡ n
unfolding base
base-slash [] n h =
    rw (trim_slashes-append [] n (is_nil_of_proper n h) (has_slash_of_proper n h))
      (after_last-append [] n (has_slash_of_proper n h))
base-slash (c ∷ b) n h =
    rw (trim_slashes-append (c ∷ b) n (is_nil_of_proper n h) (has_slash_of_proper n h))
      (after_last-append (c ∷ b) n (has_slash_of_proper n h))

base_self : (n : Text) → is_proper n ≡ true → base n ≡ n
unfolding base
base_self [] h = cc
base_self (c ∷ n) h =
    rw (trim_slashes_self (c ∷ n) refl (has_slash_of_proper (c ∷ n) h))
      (after_last_self (c ∷ n) (has_slash_of_proper (c ∷ n) h))

rooted_text-base :
    (r : Bool) (t n : Text)
    → is_proper n ≡ true
    → (t ≡ n) ⊎ ((b : Text) × (t ≡ b ++ slash ∷ n))
    → base (rooted_text r t) ≡ n
unfolding rooted_text
rooted_text-base true t n h (inl e) = rw e (base-slash [] n h)
rooted_text-base true t n h (inr (b, e)) = rw e (base-slash (slash ∷ b) n h)
rooted_text-base false t n h (inl e) = rw (e, is_nil_of_proper n h) (base_self n h)
rooted_text-base false t n h (inr ([], e)) = rw e (base-slash [] n h)
rooted_text-base false t n h (inr (c ∷ b, e)) = rw e (base-slash (c ∷ b) n h)

clean-append : (a n : Text) → is_proper n ≡ true → base (clean (a ++ slash ∷ n)) ≡ n
unfolding clean
clean-append a n h =
    let (out, e) = clean_segs-append a n h in
    rw e (rooted_text-base (is_abs (a ++ slash ∷ n)) _ n h (join_slash-append out n))

is_abs_of_proper : (n : Text) → is_proper n ≡ true → is_abs n ≡ false
unfolding is_abs
is_abs_of_proper [] h = refl
is_abs_of_proper (c ∷ n) h = ground arith

clean_segs_self : (n : Text) → is_proper n ≡ true → clean_segs n ≡ n ∷ []
unfolding clean_segs
clean_segs_self n h =
    rw (split_slash-single n (has_slash_of_proper n h))
      (ap reverse (clean_step-proper (is_abs n) [] n h))

clean_lem : (s : Text) → clean s ≡ rooted_text (is_abs s) (join_slash (clean_segs s))
unfolding clean
clean_lem s = refl

join_slash_one : (n : Text) → join_slash (n ∷ []) ≡ n
unfolding join_slash
join_slash_one n = refl

rooted_text_self : (n : Text) → is_proper n ≡ true → rooted_text false n ≡ n
unfolding rooted_text
rooted_text_self n h = rw (is_nil_of_proper n h)

clean_self : (n : Text) → is_proper n ≡ true → clean n ≡ n
clean_self n h =
    rw (clean_lem, is_abs_of_proper n h, clean_segs_self n h, join_slash_one) (rooted_text_self n h)

-- The base of a joined path is its last component, if that is a proper one.
pub base-join : (d n : Text) → is_proper n ≡ true → base (join d n) ≡ n
unfolding join
base-join [] [] h = cc
base-join [] (c ∷ n) h = rw (clean_self (c ∷ n) h) (base_self (c ∷ n) h)
base-join (c ∷ d) n h = clean-append (c ∷ d) n h

rooted_text-cases :
    (r : Bool) (t n : Text) {s : Text}
    → is_proper n ≡ true
    → s ≡ rooted_text r t
    → (t ≡ n) ⊎ ((b : Text) × (t ≡ b ++ slash ∷ n))
    → (s ≡ n) ⊎ ((b : Text) × (s ≡ b ++ slash ∷ n))
unfolding rooted_text
rooted_text-cases true t n h q (inl e) = inr ([], q ∙ ap (◌∷◌ slash) e)
rooted_text-cases true t n h q (inr (b, e)) = inr (slash ∷ b, q ∙ ap (◌∷◌ slash) e)
rooted_text-cases false t n h q (inl e) = inl (q ∙ rw (e, is_nil_of_proper n h) refl)
rooted_text-cases false t n h q (inr ([], e)) = inr ([], q ∙ rw e refl)
rooted_text-cases false t n h q (inr (c ∷ b, e)) = inr (c ∷ b, q ∙ rw e refl)

join-cases :
    (d n : Text) → is_proper n ≡ true → (join d n ≡ n) ⊎ ((b : Text) × (join d n ≡ b ++ slash ∷ n))
unfolding join
join-cases [] [] h = cc
join-cases [] (c ∷ n) h = inl (clean_self (c ∷ n) h)
join-cases (c ∷ d) n h =
    let (out, e) = clean_segs-append (c ∷ d) n h in
    rooted_text-cases (is_abs ((c ∷ d) ++ slash ∷ n)) _ n h
      (clean_lem ((c ∷ d) ++ slash ∷ n)
        ∙ ap (λ x. rooted_text (is_abs ((c ∷ d) ++ slash ∷ n)) (join_slash x)) e)
      (join_slash-append out n)

-- Cleaning a joined path again keeps its base.
pub base-clean-join : (d n : Text) → is_proper n ≡ true → base (clean (join d n)) ≡ n
base-clean-join d n h = elim (join-cases d n h) [
  | inl e ↦ rw (e, clean_self n h) (base_self n h)
  | inr (b, e) ↦ rw e (clean-append b n h)
]
