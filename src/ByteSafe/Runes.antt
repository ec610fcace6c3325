-- ===== src/ByteSafe/Runes.antt =====
-- What one step of the decoder of server/bytesafe.go reads.
use duplicatefinder.Base.{
  false, ◌&&◌, ◌%◌, ◌/◌, ◌<◌, ◌==◌, Option-cases, none, ◌≢◌, Bool, true, ◌≤◌, refl, suc, ◌-◌, ◌*◌,
  inl, inr, [], Bool-cases, ◌+◌, ◌∷◌, arith, length, ◌++◌, some, ◌≡◌, Option, List, ℕ, Text,
}
use duplicatefinder.Vetting.{between, valid_from}
use duplicatefinder.ByteSafe.{
  append_rune, is_escape_rune, lead_bits, follows, esc_base, decode_valid, decode_tail, Decoded,
}

-- The bytes that a rune was decoded from: they decode alike, and are valid, before any text.
pub record Chunk (f : Text → Option Decoded) (g : Text → Bool) (n : ℕ) (d : Decoded) (s : Text)
    : Type 0 where
  pub bytes : Text
  pub after : Text
  pub splits : s ≡ bytes ++ after
  pub counts : length bytes + n ≡ d.width
  pub decodes : (t : Text) → f (bytes ++ t) ≡ some d
  pub valid : (t : Text) → g (bytes ++ t) ≡ valid_from [] t

decode_tail-Chunk :
    (acc n : ℕ) (ps : List (ℕ × ℕ)) (s : Text) (d : Decoded)
    → decode_tail acc n ps s ≡ some d
    → Chunk (decode_tail acc n ps) (valid_from ps) n d s
unfolding decode_tail valid_from
decode_tail-Chunk acc n [] s d h = record {
  bytes = [];
  after = s;
  splits = refl;
  counts = ground (arith, h);
  decodes = λ t. h;
  valid = λ t. refl;
}
decode_tail-Chunk acc n (r ∷ ps) [] d h = cc
decode_tail-Chunk acc n (r ∷ ps) (x ∷ s) d h = elim (Bool-cases (between r.0 r.1 x)) [
  | inr e ↦ absurd (ground (arith, h, e))
  | inl e ↦
      let c = decode_tail-Chunk (acc * 64 + (x - 0x80)) (suc n) ps s d (ground (arith, h, e)) in
      record {
        bytes = x ∷ c.bytes;
        after = c.after;
        splits = rw (← c.splits) refl;
        counts = omega (arith, c.counts);
        decodes = λ t. rw e (c.decodes t);
        valid = λ t. rw e (c.valid t);
      }
]

-- A byte that starts a valid rune, with the bytes of the rest of it.
pub decode_valid-Chunk :
    (c : ℕ) (s : Text) (d : Decoded)
    → decode_valid c s ≡ some d
    → Chunk (decode_valid c) (λ t. valid_from [] (c ∷ t)) 1 d s
unfolding decode_valid valid_from
decode_valid-Chunk c s d h = elim (Option-cases (follows c)) [
  | inl e ↦ absurd (ground (arith, h, e))
  | inr (ps, e) ↦
      let k = decode_tail-Chunk (lead_bits c) 1 ps s d (rw (← h) (rw (e, decode_valid) refl)) in
      record {
        bytes = k.bytes;
        after = k.after;
        splits = k.splits;
        counts = k.counts;
        decodes = λ t. rw (e, decode_valid) (k.decodes t);
        valid = λ t. rw (e, valid_from) (k.valid t);
      }
]

decodes_tail :
    (acc n : ℕ) (ps : List (ℕ × ℕ)) (s : Text)
    → valid_from ps s ≡ true
    → decode_tail acc n ps s ≢ none
unfolding decode_tail valid_from
decodes_tail acc n [] s v h = cc
decodes_tail acc n (r ∷ ps) [] v h = cc
decodes_tail acc n (r ∷ ps) (x ∷ s) v h =
    ground (arith, v, h, decodes_tail (acc * 64 + (x - 0x80)) (suc n) ps s)

-- A valid text starts with a valid rune.
pub valid→decodes : (c : ℕ) (s : Text) → valid_from [] (c ∷ s) ≡ true → decode_valid c s ≢ none
unfolding decode_valid valid_from
valid→decodes c s v h = elim (Option-cases (follows c)) [
  | inl e ↦ absurd (ground (arith, v, e))
  | inr (ps, e) ↦
      decodes_tail (lead_bits c) 1 ps s (rw (← v) (rw (e, valid_from) refl))
        (rw (← h) (rw (e, decode_valid) refl))
]

-- A byte that starts no rune is no ASCII.
pub undecodable-le : (c : ℕ) (s : Text) → decode_valid c s ≡ none → 0x80 ≤ c
unfolding decode_valid decode_tail
undecodable-le c s h = ground (arith, h)

-- An escape rune has four bytes; they are those of the two prefixes.
pub record EscapeRune (c : ℕ) (s : Text) (d : Decoded) : Type 0 where
  pub third : ℕ
  pub fourth : ℕ
  pub after : Text
  pub first_eq : c ≡ 0xF4
  pub rest_eq : s ≡ 0x8F ∷ third ∷ fourth ∷ after
  pub third_range : (0xBA ≤ third) × (third ≤ 0xBB)
  pub fourth_range : (0x80 ≤ fourth) × (fourth ≤ 0xBF)
  pub width_eq : d.width ≡ 4
  pub rune_eq : d.rune ≡ esc_base + (third - 0xB8) * 64 + (fourth - 0x80)

escape_shape :
    (c a b x : ℕ) (v : Text) (d : Decoded)
    → decode_valid c (a ∷ b ∷ x ∷ v) ≡ some d
    → 0x10FE80 ≤ d.rune
    → d.rune ≤ 0x10FEFF
    → EscapeRune c (a ∷ b ∷ x ∷ v) d
unfolding decode_valid decode_tail
escape_shape c a b x v d h lo hi = elim (Bool-cases (c == 0xF4)) [
  | inr e ↦ absurd (ground (arith, h, lo, hi, e))
  | inl e ↦ record {
    third = b;
    fourth = x;
    after = v;
    first_eq = ground (arith, e);
    rest_eq = let a_eq : a ≡ 0x8F = ground (arith, h, lo, hi, e) in rw a_eq refl;
    third_range = ground (arith, h, lo, hi, e);
    fourth_range = ground (arith, h, lo, hi, e);
    width_eq = ground (arith, h, lo, hi, e);
    rune_eq = ground (arith, h, lo, hi, e);
  }
]

-- Only the two prefixes start an escape rune.
pub is_escape_rune-EscapeRune :
    (c : ℕ) (s : Text) (d : Decoded)
    → decode_valid c s ≡ some d
    → is_escape_rune d.rune ≡ true
    → EscapeRune c s d
unfolding is_escape_rune decode_valid decode_tail
is_escape_rune-EscapeRune c [] d h e = absurd (ground (arith, h, e))
is_escape_rune-EscapeRune c (a ∷ []) d h e = absurd (ground (arith, h, e))
is_escape_rune-EscapeRune c (a ∷ b ∷ []) d h e = absurd (ground (arith, h, e))
is_escape_rune-EscapeRune c (a ∷ b ∷ x ∷ v) d h e =
    escape_shape c a b x v d h (ground (arith, e)) (ground (arith, e))

-- The four bytes of the escape rune of a byte, and what they decode to.
pub append_rune_escape :
    (c : ℕ)
    → 0x80 ≤ c
    → c < 256
    → append_rune (esc_base + c) ≡ 0xF4 ∷ 0x8F ∷ (0xB8 + c / 64) ∷ (0x80 + c % 64) ∷ []
unfolding append_rune
append_rune_escape c lo hi = ground arith

pub decode_valid_escape :
    (c : ℕ) (t : Text)
    → 0x80 ≤ c
    → c < 256
    → decode_valid 0xF4 (0x8F ∷ (0xB8 + c / 64) ∷ (0x80 + c % 64) ∷ t)
      ≡ some (record { rune = esc_base + c; width = 4 })
unfolding decode_valid decode_tail
decode_valid_escape c t lo hi = ground arith

decode_tail-width :
    (acc n : ℕ) (ps : List (ℕ × ℕ)) (s : Text) (d : Decoded)
    → decode_tail acc n ps s ≡ some d
    → (n + length ps ≡ d.width) × (ps ≡ [] → d.rune ≡ acc)
unfolding decode_tail
decode_tail-width acc n [] s d h = (ground (arith, h), λ e. ground (arith, h))
decode_tail-width acc n (r ∷ ps) [] d h = cc
decode_tail-width acc n (r ∷ ps) (x ∷ s) d h =
    (ground (arith, h, decode_tail-width (acc * 64 + (x - 0x80)) (suc n) ps s d), λ e. cc)

-- A rune that decodes is not taken for an undecodable byte.
pub decode_valid-decodable :
    (c : ℕ) (s : Text) (d : Decoded)
    → decode_valid c s ≡ some d
    → (d.rune == 0xFFFD && d.width == 1) ≡ false
unfolding decode_valid
decode_valid-decodable c s d h = elim (Option-cases (follows c)) [
  | inl e ↦ absurd (ground (arith, h, e))
  | inr ([], e) ↦
      let (w, r) =
        decode_tail-width (lead_bits c) 1 [] s d (rw (← h) (rw (e, decode_valid) refl)) in
      let r' = r refl in ground (arith, e, r')
  | inr (p ∷ ps, e) ↦
      let (w, r) =
        decode_tail-width (lead_bits c) 1 (p ∷ ps) s d (rw (← h) (rw (e, decode_valid) refl)) in
      ground (arith, w)
]
