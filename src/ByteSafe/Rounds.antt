-- ===== src/ByteSafe/Rounds.antt =====
-- One round of the loops of `escapeBytes` and `unescapeBytes` of server/bytesafe.go.
use mathlib.Core.List.{append_assoc}
use duplicatefinder.ByteSafe.Runes.{
  decode_valid_escape, append_rune_escape, undecodable-le, decode_valid-decodable,
  is_escape_rune-EscapeRune, decode_valid-Chunk,
}
use duplicatefinder.ByteSafe.{
  esc_base, undecodable, valid_from, Decoded, decode_valid, is_escape_rune, unescape_loop,
  escape_loop, must_escape, append_rune, decode_rune, escape_each,
}
use duplicatefinder.Base.{
  zero, ap, length-append, ◌%◌, drop-length-append, drop, ◌⊎◌, or-eq_true_right, ◌∙◌,
  take-length-append, or-eq_false, take, Bool-cases, ◌-◌, suc, refl, inr, ◌∷◌, [], All, inl, ◌<◌,
  false, arith, ◌++◌, some, ◌+◌, true, none, Option-cases, ◌≤◌, length, ◌≡◌, ℕ, Text,
}

-- One round of the loop, by what it decodes.
pub unescape_loop_kept :
    (m c : ℕ) (s : Text) (d : Decoded)
    → decode_rune c s ≡ d
    → is_escape_rune d.rune ≡ false
    → unescape_loop (suc m) (c ∷ s) ≡ take d.width (c ∷ s) ++ unescape_loop m (drop d.width (c ∷ s))
unfolding unescape_loop
unescape_loop_kept m c s d p e = rw (p, e) refl

pub unescape_loop_turned :
    (m c : ℕ) (s : Text) (d : Decoded)
    → decode_rune c s ≡ d
    → is_escape_rune d.rune ≡ true
    → unescape_loop (suc m) (c ∷ s)
      ≡ ((d.rune - esc_base) % 256) ∷ unescape_loop m (drop d.width (c ∷ s))
unfolding unescape_loop
unescape_loop_turned m c s d p e = rw (p, e) refl

pub decode_rune_valid :
    (c : ℕ) (s : Text) (d : Decoded) → decode_valid c s ≡ some d → decode_rune c s ≡ d
unfolding decode_rune
decode_rune_valid c s d h = rw (h, decode_rune) refl

-- A chunk that is no escape rune comes back as it is.
pub unescape_loop-chunk :
    (m : ℕ) (c : ℕ) (u t : Text) (d : Decoded)
    → decode_rune c (u ++ t) ≡ d
    → d.width ≡ suc (length u)
    → is_escape_rune d.rune ≡ false
    → unescape_loop (suc m) (c ∷ (u ++ t)) ≡ c ∷ (u ++ unescape_loop m t)
unescape_loop-chunk m c u t d p w e =
    unescape_loop_kept m c (u ++ t) d p e
    ∙ rw (take-length-append (c ∷ u) t d.width w, drop-length-append (c ∷ u) t d.width w) refl

-- The escape rune of a byte comes back as the byte.
pub unescape_loop-escaped :
    (m c : ℕ) (t : Text)
    → 0x80 ≤ c
    → c < 256
    → unescape_loop (suc m) (append_rune (esc_base + c) ++ t) ≡ c ∷ unescape_loop m t
unfolding is_escape_rune
unescape_loop-escaped m c t lo hi = rw (append_rune_escape c lo hi) (
    unescape_loop_turned m 0xF4 _ (record { rune = esc_base + c; width = 4 })
      (decode_rune_valid 0xF4 _ _ (decode_valid_escape c t lo hi)) (ground arith)
    ∙ ap (λ b. b ∷ unescape_loop m t) (omega arith))

-- The bytes that `escapeBytes` escapes are no ASCII.
abbrev pub High : ℕ → Type 0
High c = (0x80 ≤ c) × (c < 256)

pub unescape_loop-escape_each :
    (u t : Text) (m n : ℕ)
    → m ≡ length u + n
    → All High u
    → unescape_loop m (escape_each u ++ t) ≡ u ++ unescape_loop n t
unfolding escape_each
unescape_loop-escape_each [] t m n e a = let same : m ≡ n = omega arith in rw same refl
unescape_loop-escape_each (c ∷ u) t zero n e a = absurd (omega arith)
unescape_loop-escape_each (c ∷ u) t (suc m) n e ((lo, hi), a) =
    rw (append_assoc (append_rune (esc_base + c)) (escape_each u) t) (
      unescape_loop-escaped m c (escape_each u ++ t) lo hi
      ∙ ap (◌∷◌ c) (unescape_loop-escape_each u t m n (omega arith) a))

pub length-append_rune-le : (r : ℕ) → 1 ≤ length (append_rune r)
unfolding append_rune
length-append_rune-le r = ground arith

pub length-escape_each-le : (u : Text) → length u ≤ length (escape_each u)
unfolding escape_each
length-escape_each-le [] = omega arith
length-escape_each-le (c ∷ u) = omega (
  arith,
  length-append_rune-le (esc_base + c),
  length-escape_each-le u,
  length-append (append_rune (esc_base + c)) (escape_each u),
)

-- One round of `escapeBytes`: a chunk that is escaped or kept, and the text after it.
abbrev pub Escaped : ℕ → Text → Decoded → Type 0
Escaped c u d = (must_escape d ≡ true) × (All (λ b. b < 256) (c ∷ u) → All High (c ∷ u))

abbrev pub Kept : ℕ → Text → Decoded → Type 0
Kept c u d =
    (must_escape d ≡ false)
    × (is_escape_rune d.rune ≡ false)
    × ((t : Text) → decode_rune c (u ++ t) ≡ d)
    × ((t : Text) → valid_from [] (c ∷ (u ++ t)) ≡ valid_from [] t)

pub record Round (c : ℕ) (s : Text) : Type 0 where
  pub chunk : Text
  pub after : Text
  pub decoded : Decoded
  pub reads : decode_rune c s ≡ decoded
  pub splits : s ≡ chunk ++ after
  pub wide : decoded.width ≡ suc (length chunk)
  pub apart : Escaped c chunk decoded ⊎ Kept c chunk decoded

pub Round-undecodable : (c : ℕ) (s : Text) → decode_valid c s ≡ none → Round c s
unfolding must_escape decode_rune
Round-undecodable c s e = record {
  chunk = [];
  after = s;
  decoded = undecodable;
  reads = rw (e, decode_rune) refl;
  splits = refl;
  wide = refl;
  apart = inl (refl, λ (hi, _). ((undecodable-le c s e, hi), _));
}

pub Round-EscapeRune :
    (c : ℕ) (s : Text) (d : Decoded)
    → decode_valid c s ≡ some d
    → is_escape_rune d.rune ≡ true
    → Round c s
unfolding must_escape
Round-EscapeRune c s d e r =
    let q = is_escape_rune-EscapeRune c s d e r in
    record {
      chunk = 0x8F ∷ q.third ∷ q.fourth ∷ [];
      after = q.after;
      decoded = d;
      reads = decode_rune_valid c s d e;
      splits = q.rest_eq;
      wide = q.width_eq;
      apart =
          inl (
            or-eq_true_right _ _ r,
            λ a. ground (arith, q.first_eq, q.third_range, q.fourth_range),
          );
    }

pub Round-Kept :
    (c : ℕ) (s : Text) (d : Decoded)
    → decode_valid c s ≡ some d
    → is_escape_rune d.rune ≡ false
    → (r : Round c s) × Kept c r.chunk r.decoded
unfolding must_escape
Round-Kept c s d e r =
    let k = decode_valid-Chunk c s d e in
    let kept : Kept c k.bytes d = (
      or-eq_false _ _ (decode_valid-decodable c s d e) r,
      r,
      λ t. decode_rune_valid c (k.bytes ++ t) d (k.decodes t),
      k.valid,
    ) in
    (
      record {
        chunk = k.bytes;
        after = k.after;
        decoded = d;
        reads = decode_rune_valid c s d e;
        splits = k.splits;
        wide = omega (arith, k.counts);
        apart = inr kept;
      },
      kept,
    )

pub round : (c : ℕ) (s : Text) → Round c s
round c s = elim (Option-cases (decode_valid c s)) [
  | inl e ↦ Round-undecodable c s e
  | inr (d, e) ↦ elim (Bool-cases (is_escape_rune d.rune)) [
    | inl r ↦ Round-EscapeRune c s d e r
    | inr r ↦ (Round-Kept c s d e r).0
  ]
]

pub escape_loop_escaped :
    (k c : ℕ) (s : Text) (r : Round c s)
    → must_escape r.decoded ≡ true
    → escape_loop (suc k) (c ∷ s) ≡ escape_each (c ∷ r.chunk) ++ escape_loop k r.after
unfolding escape_loop
escape_loop_escaped k c s r e =
    rw (r.reads, e)
      (rw
        (
          r.splits,
          take-length-append (c ∷ r.chunk) r.after r.decoded.width r.wide,
          drop-length-append (c ∷ r.chunk) r.after r.decoded.width r.wide,
        )
        refl)

pub escape_loop_kept :
    (k c : ℕ) (s : Text) (r : Round c s)
    → must_escape r.decoded ≡ false
    → escape_loop (suc k) (c ∷ s) ≡ (c ∷ r.chunk) ++ escape_loop k r.after
unfolding escape_loop
escape_loop_kept k c s r e =
    rw (r.reads, e)
      (rw
        (
          r.splits,
          take-length-append (c ∷ r.chunk) r.after r.decoded.width r.wide,
          drop-length-append (c ∷ r.chunk) r.after r.decoded.width r.wide,
        )
        refl)
