-- ===== src/ByteSafe/Valid.antt =====
-- What `escapeBytes` of server/bytesafe.go returns is valid UTF-8.
use duplicatefinder.ByteSafe.Runes.{append_rune_escape}
use mathlib.Core.Path.{subst}
use duplicatefinder.ByteSafe.Escaping.{escape_loop-nil, escape_bytes-eq-loop, AreBytes}
use duplicatefinder.Base.{
  zero, inr, ◌∙◌, inl, length-append, ap, ◌<◌, All-append, suc, arith, refl, ◌∷◌, true, ◌≡◌, ◌≤◌,
  ◌++◌, [], length, All, ℕ, Text,
}
use duplicatefinder.Vetting.{valid_from}
use duplicatefinder.ByteSafe.{escape_bytes, escape_each, escape_loop}
use duplicatefinder.ByteSafe.Rounds.{escape_loop_kept, escape_loop_escaped, round, High}

valid-escape_each : (u t : Text) → All High u → valid_from [] (escape_each u ++ t) ≡ valid_from [] t
unfolding escape_each valid_from
valid-escape_each [] t a = refl
valid-escape_each (c ∷ u) t ((lo, hi), a) =
    rw (append_rune_escape c lo hi) (ground (arith, valid-escape_each u t a))

valid-escape_loop :
    (k : ℕ) (s : Text) → length s ≤ k → AreBytes s → valid_from [] (escape_loop k s) ≡ true
unfolding valid_from
valid-escape_loop k [] le a = rw (escape_loop-nil k) refl
valid-escape_loop zero (c ∷ s) le a = absurd (omega (arith, le))
valid-escape_loop (suc k) (c ∷ s) le a =
    let r = round c s in
    let (a_chunk, a_after) =
      All-append (λ b. b < 256) (c ∷ r.chunk) r.after (subst AreBytes (ap (◌∷◌ c) r.splits) a) in
    let short : length r.after ≤ k =
      omega (arith, le, length-append r.chunk r.after, ap length r.splits) in
    let ih = valid-escape_loop k r.after short a_after in
    elim r.apart [
      | inl (e, high) ↦
          rw (escape_loop_escaped k c s r e)
            (valid-escape_each (c ∷ r.chunk) (escape_loop k r.after) (high a_chunk) ∙ ih)
      | inr (e, _, _, ok) ↦ rw (escape_loop_kept k c s r e) (ok (escape_loop k r.after) ∙ ih)
    ]

-- The escaped form of a string of bytes is valid UTF-8.
pub valid-escape_bytes : (s : Text) → AreBytes s → valid_from [] (escape_bytes s) ≡ true
valid-escape_bytes s a =
    rw (escape_bytes-eq-loop s) (valid-escape_loop (length s) s (omega arith) a)
