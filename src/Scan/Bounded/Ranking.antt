-- ===== src/Scan/Bounded/Ranking.antt =====
-- The orders of server/stream.go and server/corrupt.go by one key after another.
use mathlib.Core.Path.{subst}
use duplicatefinder.Base.{
  ==_iff, ltb, ◌==◌, refl, text_lt-cons, text_le_trans, ◌∷◌, text_eq_iff, [], text_lt_asymm,
  text_eq, text_lt, text_compare, ap, inr, sym, ◌∙◌, ◌↔◌, inl, arith, true, Bool-cases, false, not,
  ◌≡◌, if◌then◌else◌, Bool, Text,
}
use duplicatefinder.Scan.Bounded.Keeping.{Ranks}

-- A strict total order of keys with its test for equality.
pub record Key {K : Type 0} (same lt : K → K → Bool) : Type 0 where
  pub equal : (x y : K) → (same x y ≡ true) ↔ (x ≡ y)
  pub asymm : (x y : K) → lt x y ≡ true → lt y x ≡ false
  pub trans : (x y z : K) → lt y x ≡ false → lt z y ≡ false → lt z x ≡ false
  pub connex : (x y : K) → lt x y ≡ false → lt y x ≡ false → x ≡ y

module _ {A K : Type 0} (key : A → K) (same lt : K → K → Bool) (k : Key same lt)
    (next : A → A → Bool) (r : Ranks next) where
  -- A key that differs decides; else the next order does.
  abbrev pub by_key : A → A → Bool
  by_key a b = if not (same (key a) (key b)) then lt (key a) (key b) else next a b

  same_sym : (x y : K) → same x y ≡ same y x
  same_sym x y = elim (Bool-cases (same x y)) [
    | inl e ↦ e ∙ sym ((k.equal y x).1 (sym ((k.equal x y).0 e)))
    | inr e ↦ elim (Bool-cases (same y x)) [
      | inr f ↦ e ∙ sym f
      | inl f ↦ absurd (ground (arith, e, (k.equal x y).1 (sym ((k.equal y x).0 f))))
    ]
  ]

  by_key-asymm : (a b : A) → by_key a b ≡ true → by_key b a ≡ false
  by_key-asymm a b h =
      ground (arith, h, same_sym (key a) (key b), k.asymm (key a) (key b), r.asymm a b)

  key_irrefl : (x y : K) → x ≡ y → lt x y ≡ false
  key_irrefl x y e = elim (Bool-cases (lt x y)) [
    | inr f ↦ f
    | inl f ↦ absurd (ground (arith, f, k.asymm x y f, ap (lt y) e, ap (λ z. lt z y) e))
  ]

  -- That `b` does not come before `a`, by its levels.
  Follows : A → A → Type 0
  Follows b a = (lt (key b) (key a) ≡ false) × (key b ≡ key a → next b a ≡ false)

  follows→by_key : (a b : A) → Follows b a → by_key b a ≡ false
  unfolding Follows
  follows→by_key a b (here, rest) = elim (Bool-cases (same (key b) (key a))) [
    | inl e ↦ rw e (rest ((k.equal (key b) (key a)).0 e))
    | inr e ↦ rw e here
  ]

  by_key→follows : (a b : A) → by_key b a ≡ false → Follows b a
  unfolding Follows
  by_key→follows a b h = elim (Bool-cases (same (key b) (key a))) [
    | inl e ↦
        (key_irrefl (key b) (key a) ((k.equal (key b) (key a)).0 e), λ _. ground (arith, h, e))
    | inr e ↦ (ground (arith, h, e), λ q. absurd (ground (arith, e, (k.equal (key b) (key a)).1 q)))
  ]

  by_key_trans : (a b c : A) → by_key b a ≡ false → by_key c b ≡ false → by_key c a ≡ false
  unfolding Follows
  by_key_trans a b c h l =
      let (ba, next_ba) = by_key→follows a b h in
      let (cb, next_cb) = by_key→follows b c l in
      follows→by_key a c (
        k.trans (key a) (key b) (key c) ba cb,
        λ ca.
            let ab : key b ≡ key a =
              k.connex (key b) (key a) ba (subst (λ x. lt x (key b) ≡ false) ca cb) in
            r.trans a b c (next_ba ab) (next_cb (ca ∙ sym ab)),
      )

  pub by_key-Ranks : Ranks by_key
  by_key-Ranks = record { asymm = by_key-asymm; trans = by_key_trans }

-- The order of equal rows is left open.
pub path_order-Ranks : {A : Type 0} (path : A → Text) → Ranks (λ a b. text_lt (path a) (path b))
path_order-Ranks path = record {
  asymm = λ a b. text_lt_asymm (path a) (path b);
  trans = λ a b c. text_le_trans (path a) (path b) (path c);
}

text_lt-connex : (a b : Text) → text_lt a b ≡ false → text_lt b a ≡ false → a ≡ b
unfolding text_compare
text_lt-connex [] [] h k = refl
text_lt-connex [] (d ∷ b) h k = cc
text_lt-connex (c ∷ a) [] h k = cc
text_lt-connex (c ∷ a) (d ∷ b) h k =
    let e₁ = text_lt-cons c d a b in
    let e₂ = text_lt-cons d c b a in ground (arith, e₁, e₂, text_lt-connex a b)

pub text-Key : Key text_eq text_lt
text-Key = record {
  equal = text_eq_iff;
  asymm = text_lt_asymm;
  trans = text_le_trans;
  connex = text_lt-connex;
}

pub larger_first-Key : Key ◌==◌ (λ x y. ltb y x)
larger_first-Key = record {
  equal = ==_iff;
  asymm = λ x y h. ground (arith, h);
  trans = λ x y z h k. ground (arith, h, k);
  connex = λ x y h k. ground (arith, h, k);
}

pub Ranks-same : {A : Type 0} (f g : A → A → Bool) → ((a b : A) → f a b ≡ g a b) → Ranks f → Ranks g
Ranks-same f g e r = record {
  asymm = λ a b h. sym (e b a) ∙ r.asymm a b (e a b ∙ h);
  trans = λ a b c h k. sym (e c a) ∙ r.trans a b c (e b a ∙ h) (e c b ∙ k);
}
