-- ===== src/Base/Order.antt =====
-- The order of Go strings.
use Prim.Native.Nat.{ℕ}
use mathlib.Core.Path.{◌≡◌, refl}
use mathlib.Core.Bool.{true, false, ◌&&◌, ◌||◌}
use mathlib.Core.List.{[], ◌∷◌}
use native.Mathlib.Omega.{arith}
use duplicatefinder.Base.Tests.{ltb, ◌==◌}
use duplicatefinder.Base.Bytes.{Text, text_compare, text_lt}

pub text_lt-cons :
    (c d : ℕ) (s t : Text) → text_lt (c ∷ s) (d ∷ t) ≡ (ltb c d || c == d && text_lt s t)
unfolding text_compare
text_lt-cons c d s t = ground arith

pub text_lt_irrefl : (s : Text) → text_lt s s ≡ false
unfolding text_compare
text_lt_irrefl [] = refl
text_lt_irrefl (c ∷ s) = rw (text_lt-cons c c s s) (ground (arith, text_lt_irrefl s))

-- `a ≤ b` and `b ≤ c` give `a ≤ c`, as the code tests it.
pub text_le_trans : (a b c : Text) → text_lt b a ≡ false → text_lt c b ≡ false → text_lt c a ≡ false
unfolding text_compare
text_le_trans [] b [] h k = refl
text_le_trans [] b (z ∷ c) h k = refl
text_le_trans (x ∷ a) [] c h k = cc
text_le_trans (x ∷ a) (y ∷ b) [] h k = cc
text_le_trans (x ∷ a) (y ∷ b) (z ∷ c) h k =
    let ih = text_le_trans a b c in
    let e₁ = text_lt-cons y x b a in
    let e₂ = text_lt-cons z y c b in rw (text_lt-cons z x c a) (ground (arith, ih, e₁, e₂))

pub text_lt_asymm : (a b : Text) → text_lt a b ≡ true → text_lt b a ≡ false
unfolding text_compare
text_lt_asymm [] [] h = refl
text_lt_asymm [] (y ∷ b) h = refl
text_lt_asymm (x ∷ a) [] h = cc
text_lt_asymm (x ∷ a) (y ∷ b) h =
    let e = text_lt-cons x y a b in rw (text_lt-cons y x b a) (ground (arith, text_lt_asymm a b, e))
