-- ===== src/ByteSafe/Escaping.antt =====
-- `escapeBytes` and `unescapeBytes` of server/bytesafe.go undo each other.
use mathlib.Core.Path.{subst}
use duplicatefinder.ByteSafe.Rounds.{
  Round-Kept, unescape_loop_kept, escape_loop_kept, escape_loop_escaped, unescape_loop-escape_each,
  length-escape_each-le, unescape_loop-chunk, High, Kept, round,
}
use duplicatefinder.ByteSafe.Runes.{is_escape_rune-EscapeRune, valid→decodes, EscapeRune}
use duplicatefinder.ByteSafe.{
  decode_valid, escape_bytes, escape_marker, unescape_bytes, valid_from, decode_rune,
  is_escape_rune, escape_each, Decoded, holds_escape_rune, unescape_loop, escape_loop,
}
use duplicatefinder.Base.{
  drop-length-append, and-eq_true, not, ◌&&◌, Option-cases, take-append-drop, length-drop, take,
  Bool-cases, inr, sym, ◌-◌, inl, ap, ◌∙◌, All-append, length-append, refl, or-eq_true_right, arith,
  ◌++◌, zero, false, suc, true, ◌≤◌, ◌∷◌, ◌<◌, has_prefix, length, drop, ◌≡◌, [], All, contains, ℕ,
  Text,
}

abbrev pub AreBytes : Text → Type 0
AreBytes = All (λ b. b < 256)

unescape_loop-nil : (m : ℕ) → unescape_loop m [] ≡ []
unfolding unescape_loop
unescape_loop-nil zero = refl
unescape_loop-nil (suc m) = refl

pub escape_loop-nil : (k : ℕ) → escape_loop k [] ≡ []
unfolding escape_loop
escape_loop-nil zero = refl
escape_loop-nil (suc k) = refl

unescape-Escaped :
    (m : ℕ) (u t s : Text)
    → length (escape_each u ++ t) ≤ m
    → All High u
    → ((n : ℕ) → length t ≤ n → unescape_loop n t ≡ s)
    → unescape_loop m (escape_each u ++ t) ≡ u ++ s
unescape-Escaped m u t s le high ih =
    let len = length-append (escape_each u) t in
    let short = length-escape_each-le u in
    unescape_loop-escape_each u t m (m - length u) (omega (arith, le, len, short)) high
    ∙ ap (λ x. u ++ x) (ih (m - length u) (omega (arith, le, len, short)))

unescape-Kept :
    (m c : ℕ) (u t s : Text) (d : Decoded)
    → length ((c ∷ u) ++ t) ≤ m
    → Kept c u d
    → d.width ≡ suc (length u)
    → ((n : ℕ) → length t ≤ n → unescape_loop n t ≡ s)
    → unescape_loop m ((c ∷ u) ++ t) ≡ (c ∷ u) ++ s
unescape-Kept zero c u t s d le kept w ih = absurd (omega (arith, le))
unescape-Kept (suc m) c u t s d le (_, plain, reads, _) w ih =
    unescape_loop-chunk m c u t d (reads t) w plain
    ∙ ap (λ x. c ∷ (u ++ x)) (ih m (omega (arith, le, length-append u t)))

unescape_loop-escape_loop :
    (k m : ℕ) (s : Text)
    → length s ≤ k
    → length (escape_loop k s) ≤ m
    → AreBytes s
    → unescape_loop m (escape_loop k s) ≡ s
unescape_loop-escape_loop k m [] le fuel a = rw (escape_loop-nil k) (unescape_loop-nil m)
unescape_loop-escape_loop zero m (c ∷ s) le fuel a = absurd (omega (arith, le))
unescape_loop-escape_loop (suc k) m (c ∷ s) le fuel a =
    let r = round c s in
    let (a_chunk, a_after) = All-append (λ b. b < 256) (c ∷ r.chunk) r.after (rw (← r.splits) a) in
    let len = length-append r.chunk r.after in
    let short : length r.after ≤ k = omega (arith, le, len, ap length r.splits) in
    let ih : (n : ℕ)
        → length (escape_loop k r.after) ≤ n
        → unescape_loop n (escape_loop k r.after) ≡ r.after =
      λ n le_n. unescape_loop-escape_loop k n r.after short le_n a_after in
    elim r.apart [
      | inl (e, high) ↦
          let step = escape_loop_escaped k c s r e in
          rw step (
            unescape-Escaped m (c ∷ r.chunk) (escape_loop k r.after) r.after
              (subst (λ x. length x ≤ m) step fuel) (high a_chunk) ih
            ∙ ap (◌∷◌ c) (sym r.splits))
      | inr kept ↦
          let step = escape_loop_kept k c s r kept.0 in
          rw step (
            unescape-Kept m c r.chunk (escape_loop k r.after) r.after r.decoded
              (subst (λ x. length x ≤ m) step fuel) kept r.wide ih
            ∙ ap (◌∷◌ c) (sym r.splits))
    ]

-- The fast paths of both return what the loops would.
contains-drop : (p s : Text) (n : ℕ) → contains p (drop n s) ≡ true → contains p s ≡ true
unfolding contains
contains-drop p s zero h = h
contains-drop p [] (suc n) h = h
contains-drop p (c ∷ s) (suc n) h = or-eq_true_right _ _ (contains-drop p s n h)

holds-drop : (s : Text) (n : ℕ) → holds_escape_rune s ≡ false → holds_escape_rune (drop n s) ≡ false
unfolding holds_escape_rune
holds-drop s n h = ground (
  arith,
  h,
  contains-drop (0xF4 ∷ 0x8F ∷ 0xBA ∷ []) s n,
  contains-drop (0xF4 ∷ 0x8F ∷ 0xBB ∷ []) s n,
)

holds-suffix : (u s : Text) → holds_escape_rune (u ++ s) ≡ false → holds_escape_rune s ≡ false
holds-suffix u s h =
    rw (← drop-length-append u s (length u) refl) (holds-drop (u ++ s) (length u) h)

EscapeRune→holds :
    (c : ℕ) (s : Text) (d : Decoded) → EscapeRune c s d → holds_escape_rune (c ∷ s) ≡ true
unfolding holds_escape_rune contains has_prefix
EscapeRune→holds c s d q = rw (q.first_eq, q.rest_eq) (ground (arith, q.third_range))

escape_rune→holds :
    (c : ℕ) (s : Text)
    → is_escape_rune (decode_rune c s).rune ≡ true
    → holds_escape_rune (c ∷ s) ≡ true
unfolding decode_rune is_escape_rune
escape_rune→holds c s e = elim (Option-cases (decode_valid c s)) [
  | inl none_eq ↦ absurd (ground (arith, e, none_eq))
  | inr (d, some_eq) ↦
      EscapeRune→holds c s d
        (is_escape_rune-EscapeRune c s d some_eq (rw (← e) (rw (some_eq, decode_rune) refl)))
]

decode_rune-width-le : (c : ℕ) (s : Text) → 1 ≤ (decode_rune c s).width
decode_rune-width-le c s = let r = round c s in rw r.reads (omega (arith, r.wide))

-- No text without escape runes is changed by the way back.
unescape_loop-plain :
    (k : ℕ) (s : Text) → length s ≤ k → holds_escape_rune s ≡ false → unescape_loop k s ≡ s
unescape_loop-plain k [] le h = unescape_loop-nil k
unescape_loop-plain zero (c ∷ s) le h = absurd (omega (arith, le))
unescape_loop-plain (suc k) (c ∷ s) le h =
    let d = decode_rune c s in
    elim (Bool-cases (is_escape_rune d.rune)) [
      | inr e ↦
          unescape_loop_kept k c s d refl e
          ∙ ap (λ x. take d.width (c ∷ s) ++ x)
              (unescape_loop-plain k (drop d.width (c ∷ s))
                (omega (arith, le, length-drop d.width (c ∷ s), decode_rune-width-le c s))
                (holds-drop (c ∷ s) d.width h))
          ∙ take-append-drop d.width (c ∷ s)
      | inl e ↦ absurd (ground (arith, h, escape_rune→holds c s e))
    ]

escape_loop-plain :
    (k : ℕ) (s : Text)
    → length s ≤ k
    → valid_from [] s ≡ true
    → holds_escape_rune s ≡ false
    → escape_loop k s ≡ s
escape_loop-plain k [] le v h = escape_loop-nil k
escape_loop-plain zero (c ∷ s) le v h = absurd (omega (arith, le))
escape_loop-plain (suc k) (c ∷ s) le v h = elim (Option-cases (decode_valid c s)) [
  | inl e ↦ absurd (valid→decodes c s v e)
  | inr (d, e) ↦ elim (Bool-cases (is_escape_rune d.rune)) [
    | inl r ↦
        absurd (ground (arith, h, EscapeRune→holds c s d (is_escape_rune-EscapeRune c s d e r)))
    | inr r ↦
        let (q, (must, _, _, ok)) = Round-Kept c s d e r in
        let v' : valid_from [] q.after ≡ true = sym (ok q.after) ∙ rw (← ap (◌∷◌ c) q.splits) v in
        escape_loop_kept k c s q must
        ∙ ap (λ x. (c ∷ q.chunk) ++ x)
            (escape_loop-plain k q.after
              (omega (arith, le, length-append q.chunk q.after, ap length q.splits)) v'
              (holds-suffix (c ∷ q.chunk) q.after
                (subst (λ x. holds_escape_rune (c ∷ x) ≡ false) q.splits h)))
        ∙ ap (◌∷◌ c) (sym q.splits)
  ]
]

contains-marker_of_prefix :
    (b : ℕ) (s : Text) → contains (0xF4 ∷ 0x8F ∷ b ∷ []) s ≡ true → contains escape_marker s ≡ true
unfolding contains has_prefix
contains-marker_of_prefix b [] h = h
contains-marker_of_prefix b (c ∷ []) h = ground (arith, h)
contains-marker_of_prefix b (c ∷ d ∷ s) h = ground (arith, h, contains-marker_of_prefix b (d ∷ s))

unescape_bytes-eq-loop : (s : Text) → unescape_bytes s ≡ unescape_loop (length s) s
unfolding unescape_bytes holds_escape_rune
unescape_bytes-eq-loop s = elim (Bool-cases (contains escape_marker s)) [
  | inl e ↦ rw e refl
  | inr e ↦ rw e (
      sym (
        unescape_loop-plain (length s) s (omega arith)
          (ground (arith, e, contains-marker_of_prefix 0xBA s, contains-marker_of_prefix 0xBB s))))
]

pub escape_bytes-eq-loop : (s : Text) → escape_bytes s ≡ escape_loop (length s) s
unfolding escape_bytes
escape_bytes-eq-loop s = elim (Bool-cases (valid_from [] s && not (holds_escape_rune s))) [
  | inr e ↦ rw e refl
  | inl e ↦
      let (v, h) = and-eq_true _ _ e in
      rw e (sym (escape_loop-plain (length s) s (omega arith) v (ground (arith, h))))
]

-- Every string of bytes comes back from its escaped form.
pub unescape_bytes-escape_bytes : (s : Text) → AreBytes s → unescape_bytes (escape_bytes s) ≡ s
unescape_bytes-escape_bytes s a =
    unescape_bytes-eq-loop (escape_bytes s)
    ∙ rw (escape_bytes-eq-loop s)
        (unescape_loop-escape_loop (length s) _ s (omega arith) (omega arith) a)
