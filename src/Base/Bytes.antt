-- ===== src/Base/Bytes.antt =====
-- Go strings as lists of bytes, with the operations of `strings` that the program calls.
use Prim.Native.Nat.{zero, suc, ◌%◌, ◌/◌, ◌%◌, ◌/◌, suc, ℕ, ◌+◌, ◌-◌, compare, Ordering}
use Prim.Native.Char.{code}
use Prim.Native.String.{String}
use mathlib.Core.Path.{◌≡◌, refl}
use mathlib.Core.Logic.{inr, inl, ◌↔◌}
use mathlib.Core.Bool.{Bool, true, false, ◌&&◌, ◌||◌}
use mathlib.Core.List.{List, [], ◌∷◌, ◌++◌, map}
use native.Mathlib.Omega.{arith}
use duplicatefinder.Base.Tests.{
  ltb, ltb, or-eq_true_right, or-eq_true_left, or-eq_true, leb, ◌==◌, if◌then◌else◌, and-eq_true,
}
use duplicatefinder.Base.Lists.{any}

abbrev pub Text : Type 0
Text = List ℕ

-- The bytes of an ASCII literal.
abbrev pub codes : String → Text
codes String.[] = []
codes (String.◌∷◌ c s) = code c ∷ codes s

-- `a == b` on strings.
unfoldable pub text_eq : Text → Text → Bool
text_eq [] [] = true
text_eq [] (d ∷ t) = false
text_eq (c ∷ s) [] = false
text_eq (c ∷ s) (d ∷ t) = c == d && text_eq s t

-- `strings.HasPrefix(s, p)`, with the prefix first.
unfoldable pub has_prefix : Text → Text → Bool
has_prefix [] s = true
has_prefix (c ∷ p) [] = false
has_prefix (c ∷ p) (d ∷ s) = c == d && has_prefix p s

-- `strings.HasSuffix(s, p)`, with the suffix first.
unfoldable pub has_suffix : Text → Text → Bool
has_suffix p [] = text_eq p []
has_suffix p (d ∷ s) = text_eq p (d ∷ s) || has_suffix p s

-- `strings.Contains(s, p)`, with the needle first.
unfoldable pub contains : Text → Text → Bool
contains p [] = has_prefix p []
contains p (d ∷ s) = has_prefix p (d ∷ s) || contains p s

-- `strings.Compare(a, b)`, and `a < b`.
unfoldable pub text_compare : Text → Text → Ordering
text_compare [] [] = Ordering.eq
text_compare [] (d ∷ t) = Ordering.lt
text_compare (c ∷ s) [] = Ordering.gt
text_compare (c ∷ s) (d ∷ t) =
    let rest = text_compare s t in
    elim (compare c d) [
      | Ordering.lt ↦ Ordering.lt
      | Ordering.eq ↦ rest
      | Ordering.gt ↦ Ordering.gt
    ]

abbrev pub text_lt : Text → Text → Bool
text_lt a b = elim (text_compare a b) [ Ordering.lt ↦ true | _ ↦ false ]

-- `strings.ToLower` and `strings.ToUpper` of one byte; bytes outside ASCII are left alone.
abbrev pub lower : ℕ → ℕ
lower c = if leb b'A' c && leb c b'Z' then c + 32 else c

abbrev pub upper : ℕ → ℕ
upper c = if leb b'a' c && leb c b'z' then c - 32 else c

unfoldable pub to_lower : Text → Text
to_lower = map lower

unfoldable pub to_upper : Text → Text
to_upper = map upper

-- Membership in a `map[string]bool`, kept as the list of its true keys.
abbrev pub member : Text → List Text → Bool
member k = any (text_eq k)

pub text_eq_refl : (s : Text) → text_eq s s ≡ true
unfolding text_eq
text_eq_refl [] = refl
text_eq_refl (c ∷ s) = ground (arith, text_eq_refl s)

pub text_eq→eq : (s t : Text) → text_eq s t ≡ true → s ≡ t
unfolding text_eq
text_eq→eq [] [] h = refl
text_eq→eq [] (d ∷ t) h = cc
text_eq→eq (c ∷ s) [] h = cc
text_eq→eq (c ∷ s) (d ∷ t) h = ground (arith, text_eq→eq s t)

pub text_eq_iff : (s t : Text) → (text_eq s t ≡ true) ↔ (s ≡ t)
text_eq_iff s t = (text_eq→eq s t, λ e. rw e (text_eq_refl t))

pub has_prefix-append : (p s : Text) → has_prefix p (p ++ s) ≡ true
unfolding has_prefix
has_prefix-append [] s = refl
has_prefix-append (c ∷ p) s = ground (arith, has_prefix-append p s)

-- A prefix test that succeeds splits the text.
pub has_prefix→split : (p s : Text) → has_prefix p s ≡ true → (r : Text) × (s ≡ p ++ r)
unfolding has_prefix
has_prefix→split [] s h = (s, refl)
has_prefix→split (c ∷ p) [] h = cc
has_prefix→split (c ∷ p) (d ∷ s) h =
    let (r, e) = has_prefix→split p s (and-eq_true (c == d) (has_prefix p s) h).1 in
    (r, ground arith)

-- A listed text that passes a test makes the search succeed.
pub any_of_member :
    (g : Text → Bool) (k : Text) (ps : List Text)
    → member k ps ≡ true
    → g k ≡ true
    → any g ps ≡ true
any_of_member g k [] m h = cc
any_of_member g k (p ∷ ps) m h = elim (or-eq_true (text_eq k p) (member k ps) m) [
  | inl e ↦ or-eq_true_left (g p) (any g ps) (rw (← text_eq→eq k p e) h)
  | inr later ↦ or-eq_true_right (g p) (any g ps) (any_of_member g k ps later h)
]

-- `strconv.Itoa` of a number that is not negative, on fuel.
itoa_fuel : ℕ → ℕ → Text → Text
itoa_fuel zero n acc = acc
itoa_fuel (suc k) n acc =
    let rest = itoa_fuel k (n / 10) ((b'0' + n % 10) ∷ acc) in
    if ltb n 10 then (b'0' + n) ∷ acc else rest

unfoldable pub itoa : ℕ → Text
unfolding itoa_fuel
itoa n = itoa_fuel (suc n) n []
