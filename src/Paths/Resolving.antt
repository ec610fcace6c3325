-- ===== src/Paths/Resolving.antt =====
-- The memo of `dirResolver` of server/paths.go.
use duplicatefinder.Base.{
  List, ◌≡◌, refl, sym, inl, inr, Option-cases, ap, Option, some, [], ◌∷◌, Text, text_eq→eq, arith,
}
use duplicatefinder.FilePath.{clean, join, dir, base}
use duplicatefinder.Paths.{or_else, Cache, cached, resolve_cleaned, canon_dir, canon_path}

module _ (eval : Text → Option Text) where
  -- Every memo entry is what the file system answers.
  abbrev pub IsCurrent : Cache → Type 0
  IsCurrent cache = (d v : Text) → cached cache d ≡ some v → eval d ≡ some v

  -- The answers with no memo.
  abbrev pub plain_dir : Text → Text
  plain_dir d = or_else (eval (clean d)) (clean d)

  abbrev pub plain_path : Text → Text
  plain_path p = join (plain_dir (dir (clean p))) (base (clean p))

  pub IsCurrent-nil : IsCurrent []
  unfolding cached
  IsCurrent-nil d v h = cc

  IsCurrent-cons :
      (cache : Cache) (k w : Text) → IsCurrent cache → eval k ≡ some w → IsCurrent ((k, w) ∷ cache)
  unfolding cached
  IsCurrent-cons cache k w c e d v h = ground (arith, text_eq→eq k d, c d v)

  resolve_cleaned-IsCurrent :
      (cache : Cache) (d : Text)
      → IsCurrent cache
      → ((resolve_cleaned eval cache d).0 ≡ eval d) × IsCurrent (resolve_cleaned eval cache d).1
  unfolding resolve_cleaned cached
  resolve_cleaned-IsCurrent cache d c = elim (Option-cases (cached cache d)) [
    | inr (v, hit) ↦ rw (hit, resolve_cleaned) (sym (c d v hit), c)
    | inl miss ↦ elim (Option-cases (eval d)) [
      | inr (v, e) ↦ rw (miss, e, resolve_cleaned) (refl, IsCurrent-cons cache d v c e)
      | inl e ↦ rw (miss, e, resolve_cleaned) (refl, c)
    ]
  ]

  -- A canonical directory does not depend on what the memo holds.
  pub canon_dir-IsCurrent :
      (cache : Cache) (d : Text)
      → IsCurrent cache
      → ((canon_dir eval cache d).0 ≡ plain_dir d) × IsCurrent (canon_dir eval cache d).1
  unfolding canon_dir
  canon_dir-IsCurrent cache d c =
      let (e, c') = resolve_cleaned-IsCurrent cache (clean d) c in
      (ap (λ o. or_else o (clean d)) e, c')

  -- A canonical path does not depend on what the memo holds.
  pub canon_path-IsCurrent :
      (cache : Cache) (p : Text)
      → IsCurrent cache
      → ((canon_path eval cache p).0 ≡ plain_path p) × IsCurrent (canon_path eval cache p).1
  unfolding canon_path
  canon_path-IsCurrent cache p c =
      let (e, c') = canon_dir-IsCurrent cache (dir (clean p)) c in
      (ap (λ d. join d (base (clean p))) e, c')

  -- The paths that one resolver makes canonical, one after another.
  unfoldable pub canon_paths : Cache → List Text → List Text × Cache
  unfolding canon_path
  canon_paths cache [] = ([], cache)
  canon_paths cache (p ∷ ps) =
      let here = canon_path eval cache p in
      let rest = canon_paths here.1 ps in (here.0 ∷ rest.0, rest.1)
