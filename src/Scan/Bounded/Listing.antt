-- ===== src/Scan/Bounded/Listing.antt =====
-- `boundedTop` of server/stream.go: what `final` lists of a stream.
use mathlib.Core.List.{append-nil}
use mathlib.Core.Path.{subst}
use duplicatefinder.Base.{
  ◌-◌, none, leb, ap, ◌++◌, if◌then◌else◌, take, ◌∙◌, [], sym, suc, refl, inl, inr, arith, ltb,
  Bool-cases, length, some, ◌∷◌, ◌≡◌, Option, List, ◌<◌, ℕ, Bool,
}
use duplicatefinder.Scan.Bounded.{
  sort_stable, bounded_add_all, TruncInfo, bounded_final, new_bounded_top, add_full, BoundedTop,
  bounded_add, heap_push, heap_less,
}
use duplicatefinder.Scan.Bounded.Keeping.{
  total-append, count-append, Keeps-same, Keeps-push, Keeps-drop, Keeps-replace, SortOf, Ranks,
  Keeps,
}
use duplicatefinder.Scan.Bounded.Truncates.{Cut, Keeps-length_out, Keeps-Cut}

-- The report of a list that was handed `n` entries.
abbrev pub truncation : ℕ → ℕ → Option TruncInfo
truncation limit n =
    if leb n limit then none else some (record { groups = 0; files = n - limit; cap = limit })

-- What `final` is to list and report of a stream.
pub record Lists {A : Type 0} (lt : A → A → Bool) (limit : ℕ) (fs : List A) : Type 0 where
  pub top : BoundedTop A
  pub accepted : bounded_add_all lt (new_bounded_top lt limit) fs ≡ some top
  pub sorted : List A
  pub sorts : SortOf lt fs sorted
  pub listed : (bounded_final lt top).0 ≡ take limit sorted
  pub report : (bounded_final lt top).1 ≡ truncation limit (length fs)

module _ {A : Type 0} (lt : A → A → Bool) (r : Ranks lt) (limit : ℕ) (pos : 0 < limit) where
  -- The list after the entries of `seen`.
  pub record After (seen : List A) (t : BoundedTop A) : Type 0 where
    pub limit_eq : t.limit ≡ limit
    pub out : List A
    pub keeps : Keeps lt limit seen t.ents out
    pub dropped_eq : t.dropped ≡ length out

  pub record Adds (seen : List A) (o : Option (BoundedTop A)) : Type 0 where
    pub top : BoundedTop A
    pub returns : o ≡ some top
    pub after : After seen top

  add_full-After :
      (seen : List A) (f : A) (t : BoundedTop A) (ents : List A)
      → t.ents ≡ ents
      → length ents ≡ limit
      → After seen t
      → Adds (f ∷ seen) (add_full lt t f ents)
  add_full-After seen f t [] e len a = absurd (omega (arith, len, pos))
  add_full-After seen f t (root ∷ h) e len a = elim (Bool-cases (lt f root)) [
    | inl better ↦ record {
      top = record t { ents = heap_push (heap_less lt) f h; dropped = suc t.dropped };
      returns = rw better refl;
      after = record {
        limit_eq = a.limit_eq;
        out = root ∷ a.out;
        keeps =
            Keeps-replace lt r limit seen a.out root h f better (sym len)
              (subst (λ x. Keeps lt limit seen x a.out) e a.keeps);
        dropped_eq = omega (arith, a.dropped_eq);
      };
    }
    | inr worse ↦ record {
      top = record t { ents = root ∷ h; dropped = suc t.dropped };
      returns = rw worse refl;
      after = record {
        limit_eq = a.limit_eq;
        out = f ∷ a.out;
        keeps =
            Keeps-drop lt r limit seen a.out root h f worse (sym len)
              (subst (λ x. Keeps lt limit seen x a.out) e a.keeps);
        dropped_eq = omega (arith, a.dropped_eq);
      };
    }
  ]

  pub bounded_add-After :
      (seen : List A) (f : A) (t : BoundedTop A)
      → After seen t
      → Adds (f ∷ seen) (bounded_add lt t f)
  unfolding bounded_add heap_push
  bounded_add-After seen f t a = elim (Bool-cases (ltb (length t.ents) t.limit)) [
    | inr full ↦
        rw full
          (add_full-After seen f t t.ents refl (ground (arith, full, a.limit_eq, a.keeps.fits)) a)
    | inl short ↦ elim a.keeps.full [
      | inr e ↦ absurd (ground (arith, short, e, a.limit_eq))
      | inl e ↦ record {
        top = record t { ents = heap_push (heap_less lt) f t.ents };
        returns = rw short refl;
        after = record {
          limit_eq = a.limit_eq;
          out = [];
          keeps =
              Keeps-push lt r limit seen t.ents f (ground (arith, short, a.limit_eq))
                (subst (Keeps lt limit seen t.ents) e a.keeps);
          dropped_eq = a.dropped_eq ∙ ap length e;
        };
      }
    ]
  ]

  pub bounded_add_all-After :
      (fs seen : List A) (t : BoundedTop A)
      → After seen t
      → Adds (fs ++ seen) (bounded_add_all lt t fs)
  unfolding bounded_add_all
  bounded_add_all-After [] seen t a = record { top = t; returns = refl; after = a }
  bounded_add_all-After (f ∷ fs) seen t a =
      let step = bounded_add-After seen f t a in
      let rest = bounded_add_all-After fs (f ∷ seen) step.top step.after in
      record {
        top = rest.top;
        returns = rw (step.returns, bounded_add_all) rest.returns;
        after = record {
          limit_eq = rest.after.limit_eq;
          out = rest.after.out;
          keeps =
              Keeps-same lt limit (fs ++ f ∷ seen) (f ∷ (fs ++ seen)) rest.top.ents rest.after.out
                (λ p. omega (arith, count-append p fs (f ∷ seen), count-append p fs seen))
                (λ w. omega (arith, total-append w fs (f ∷ seen), total-append w fs seen))
                rest.after.keeps;
          dropped_eq = rest.after.dropped_eq;
        };
      }

  pub new-After : After [] (new_bounded_top lt limit)
  new-After = record {
    limit_eq = refl;
    out = [];
    keeps = record {
      counts = λ p. omega arith;
      totals = λ w. omega arith;
      fits = omega arith;
      full = inl refl;
      worst_first = tt;
      below = refl;
    };
    dropped_eq = refl;
  }

  -- A whole stream, added to a new list.
  pub record Ran (fs : List A) : Type 0 where
    pub top : BoundedTop A
    pub accepted : bounded_add_all lt (new_bounded_top lt limit) fs ≡ some top
    pub limit_eq : top.limit ≡ limit
    pub rest : List A
    pub cut : Cut lt limit fs (sort_stable lt top.ents) rest
    pub dropped_eq : top.dropped ≡ length fs - limit

  pub bounded_add_all-Ran : (fs : List A) → Ran fs
  bounded_add_all-Ran fs =
      let run = bounded_add_all-After fs [] (new_bounded_top lt limit) new-After in
      let keeps =
        subst (λ x. Keeps lt limit x run.top.ents run.after.out) (append-nil fs) run.after.keeps in
      record {
        top = run.top;
        accepted = run.returns;
        limit_eq = run.after.limit_eq;
        rest = sort_stable lt run.after.out;
        cut = Keeps-Cut lt limit fs run.top.ents run.after.out r keeps;
        dropped_eq =
            run.after.dropped_eq ∙ Keeps-length_out lt limit fs run.top.ents run.after.out keeps;
      }

  reported :
      (t : BoundedTop A) (n : ℕ)
      → t.limit ≡ limit
      → t.dropped ≡ n - limit
      → (bounded_final lt t).1 ≡ truncation limit n
  unfolding bounded_final
  reported t n l d = rw (l, d) (ground arith)

  -- Whatever the stream, `add` accepts every entry, and `final` lists the first `limit` entries of
  -- the stream as sorted, with a report of how many more there were.
  pub bounded_add_all-Lists : (fs : List A) → Lists lt limit fs
  unfolding bounded_final
  bounded_add_all-Lists fs =
      let run = bounded_add_all-Ran fs in
      record {
        top = run.top;
        accepted = run.accepted;
        sorted = run.cut.whole;
        sorts = run.cut.sorts;
        listed = run.cut.front;
        report = reported run.top (length fs) run.limit_eq run.dropped_eq;
      }
