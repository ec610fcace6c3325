-- ===== src/Scan/Windows/Whole.antt =====
-- What `window` and `tagWindow` of server/stream.go return: whole keys, up to the last-resort bound.
use mathlib.Core.Path.{subst}
use duplicatefinder.Base.{
  filter, map, ◌∙◌, false, ==_iff, true, leb, sym, Option-cases, zero, inr, ltb, inl, ap, ◌&&◌,
  Bool-cases, ◌+◌, not, refl, some, length, ◌-◌, suc, take, none, arith, cons_some, [], ◌==◌, ◌∷◌,
  if◌then◌else◌, ◌<◌, ◌≡◌, Bool, List, ℕ, Text,
}
use duplicatefinder.Results.View.Sorting.{sort_stable-IsSorted, IsSorted}
use duplicatefinder.Scan.Windows.{
  count_keys, Counts, over_keys, wanted, Window, FEnt, materialize_from, window_recs, in_part,
  holds_key, SpillRec,
}
use duplicatefinder.Scan.Windows.Counting.{holds-over_keys, records_with}

-- The entries of the records that pass a test, without any bound.
unfoldable pub entries : (SpillRec → Bool) → List Text → List SpillRec → List FEnt
entries keep root_of [] = []
entries keep root_of (r ∷ rs) = cons_some (wanted keep root_of r) (entries keep root_of rs)

-- `max` of a list, where 0 is no bound.
abbrev pub bounded : ℕ → List FEnt → List FEnt
bounded max l = if max == 0 then l else take max l

abbrev pub beyond : ℕ → List FEnt → ℕ
beyond max l = if max == 0 then 0 else length l - max

entries_same :
    (p q : SpillRec → Bool) (root_of : List Text) (rs : List SpillRec)
    → ((r : SpillRec) → p r ≡ q r)
    → entries p root_of rs ≡ entries q root_of rs
unfolding entries wanted
entries_same p q root_of [] e = refl
entries_same p q root_of (r ∷ rs) e =
    let first : wanted p root_of r ≡ wanted q root_of r = ground (arith, e r) in
    rw (first, entries_same p q root_of rs e) refl

-- One round of `materialize`, by what its callback does.
materialize_skips :
    (keep : SpillRec → Bool) (root_of : List Text) (max held : ℕ) (r : SpillRec)
    (rs : List SpillRec)
    → wanted keep root_of r ≡ none
    → materialize_from keep root_of max held (r ∷ rs) ≡ materialize_from keep root_of max held rs
unfolding materialize_from
materialize_skips keep root_of max held r rs e = rw (e, materialize_from) refl

materialize_counts :
    (keep : SpillRec → Bool) (root_of : List Text) (max held : ℕ) (r : SpillRec)
    (rs : List SpillRec) (f : FEnt)
    → wanted keep root_of r ≡ some f
    → (ltb 0 max && leb max held) ≡ true
    → materialize_from keep root_of max held (r ∷ rs) ≡ (
      (materialize_from keep root_of max held rs).0,
      suc (materialize_from keep root_of max held rs).1,
    )
unfolding materialize_from
materialize_counts keep root_of max held r rs f e full = rw (e, full, materialize_from) refl

materialize_takes :
    (keep : SpillRec → Bool) (root_of : List Text) (max held : ℕ) (r : SpillRec)
    (rs : List SpillRec) (f : FEnt)
    → wanted keep root_of r ≡ some f
    → (ltb 0 max && leb max held) ≡ false
    → materialize_from keep root_of max held (r ∷ rs) ≡ (
      f ∷ (materialize_from keep root_of max (suc held) rs).0,
      (materialize_from keep root_of max (suc held) rs).1,
    )
unfolding materialize_from
materialize_takes keep root_of max held r rs f e free = rw (e, free, materialize_from) refl

materialize_from_unbounded :
    (keep : SpillRec → Bool) (root_of : List Text) (held : ℕ) (rs : List SpillRec)
    → materialize_from keep root_of 0 held rs ≡ (entries keep root_of rs, 0)
unfolding materialize_from entries
materialize_from_unbounded keep root_of held [] = refl
materialize_from_unbounded keep root_of held (r ∷ rs) =
    elim (Option-cases (wanted keep root_of r)) [
      | inl e ↦
          materialize_skips keep root_of 0 held r rs e
          ∙ materialize_from_unbounded keep root_of held rs
          ∙ rw e refl
      | inr (f, e) ↦
          materialize_takes keep root_of 0 held r rs f e refl
          ∙ rw (e, materialize_from_unbounded keep root_of (suc held) rs) refl
    ]

materialize_from_bounded :
    (keep : SpillRec → Bool) (root_of : List Text) (max held room : ℕ) (rs : List SpillRec)
    → 0 < max
    → held + room ≡ max
    → materialize_from keep root_of max held rs
      ≡ (take room (entries keep root_of rs), length (entries keep root_of rs) - room)
unfolding materialize_from entries
materialize_from_bounded keep root_of max held zero [] pos e = refl
materialize_from_bounded keep root_of max held (suc room) [] pos e = ap (λ x. ([], x)) (omega arith)
materialize_from_bounded keep root_of max held zero (r ∷ rs) pos e =
    let ih = materialize_from_bounded keep root_of max held zero rs pos e in
    elim (Option-cases (wanted keep root_of r)) [
      | inl w ↦ materialize_skips keep root_of max held r rs w ∙ ih ∙ rw w refl
      | inr (f, w) ↦
          materialize_counts keep root_of max held r rs f w (ground (arith, pos, e))
          ∙ rw (ih, w) (ap (λ x. ([], x)) (omega arith))
    ]
materialize_from_bounded keep root_of max held (suc room) (r ∷ rs) pos e =
    elim (Option-cases (wanted keep root_of r)) [
      | inl w ↦
          materialize_skips keep root_of max held r rs w
          ∙ materialize_from_bounded keep root_of max held (suc room) rs pos e
          ∙ rw w refl
      | inr (f, w) ↦
          materialize_takes keep root_of max held r rs f w (ground (arith, pos, e))
          ∙ rw
              (
                materialize_from_bounded keep root_of max (suc held) room rs pos (omega (arith, e)),
                w,
              )
              (ap (λ x. (f ∷ take room (entries keep root_of rs), x)) (omega arith))
    ]

-- The records of the partition whose key has no more of them than the cap.
abbrev pub fits_key : (SpillRec → ℕ) → ℕ → List SpillRec → SpillRec → Bool
fits_key key cap rs r = not (ltb 0 cap && ltb cap (records_with key (key r) rs))

pub record Wholes (key : SpillRec → ℕ) (part parts cap max : ℕ) (root_of : List Text)
    (rs : List SpillRec) (w : Window) : Type 0 where
  pub listed :
      w.ents
      ≡ bounded max (entries (λ r. in_part part parts (key r) && fits_key key cap rs r) root_of rs)
  pub missing :
      w.skipped
      ≡ beyond max (entries (λ r. in_part part parts (key r) && fits_key key cap rs r) root_of rs)
  pub named :
      (k : ℕ)
      → holds_key k w.over
        ≡ (in_part part parts k && (ltb 0 cap && ltb cap (records_with key k rs)))
  pub in_order : IsSorted ltb w.over

materialize_from_lem :
    (keep : SpillRec → Bool) (root_of : List Text) (max : ℕ) (rs : List SpillRec)
    → materialize_from keep root_of max 0 rs
      ≡ (bounded max (entries keep root_of rs), beyond max (entries keep root_of rs))
materialize_from_lem keep root_of max rs = elim (Bool-cases (max == 0)) [
  | inl none_asked ↦ rw none_asked (
      subst (λ x. materialize_from keep root_of x 0 rs ≡ (entries keep root_of rs, 0))
        (sym ((==_iff max 0).0 none_asked)) (materialize_from_unbounded keep root_of 0 rs))
  | inr some_asked ↦ rw some_asked (
      materialize_from_bounded keep root_of max 0 max rs (ground (arith, some_asked)) (omega arith))
]

selects :
    (key : SpillRec → ℕ) (part parts cap : ℕ) (rs : List SpillRec) (r : SpillRec)
    → (in_part part parts (key r)
        && not (holds_key (key r) (over_keys cap (count_keys key part parts [] rs))))
      ≡ (in_part part parts (key r) && fits_key key cap rs r)
selects key part parts cap rs r =
    rw (holds-over_keys key part parts cap (key r) rs)
      (elim (Bool-cases (in_part part parts (key r))) [
        | inl here ↦ rw here refl
        | inr out ↦ rw out refl
      ])

over_keys-IsSorted : (cap : ℕ) (counts : Counts) → IsSorted ltb (over_keys cap counts)
unfolding over_keys
over_keys-IsSorted cap counts =
    sort_stable-IsSorted ltb (λ a b h. ground (arith, h)) (λ a b c h k. ground (arith, h, k))
      (map (λ kn. kn.0) (filter (λ kn. ltb 0 cap && ltb cap kn.1) counts))

-- Whatever the records, the partition and the bounds, a window lists the records of the partition
-- whose key has no more of them than the cap, in order and up to the last bound, counts the others
-- of these, and names exactly the keys of the partition that have more.
pub window_recs-Wholes :
    (key : SpillRec → ℕ) (part parts cap max : ℕ) (root_of : List Text) (rs : List SpillRec)
    → Wholes key part parts cap max root_of rs (window_recs key part parts cap max root_of rs)
unfolding window_recs
window_recs-Wholes key part parts cap max root_of rs =
    let over = over_keys cap (count_keys key part parts [] rs) in
    let keep = λ (r : SpillRec). in_part part parts (key r) && not (holds_key (key r) over) in
    let same =
      entries_same keep (λ r. in_part part parts (key r) && fits_key key cap rs r) root_of rs
        (λ r. selects key part parts cap rs r) in
    let run = materialize_from_lem keep root_of max rs in
    record {
      listed = ap (λ p. p.0) run ∙ ap (bounded max) same;
      missing = ap (λ p. p.1) run ∙ ap (beyond max) same;
      named = λ k. holds-over_keys key part parts cap k rs;
      in_order = over_keys-IsSorted cap (count_keys key part parts [] rs);
    }
