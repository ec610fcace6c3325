-- ===== src/Prune/Rows.antt =====
-- The row test of `pruneMoved` of server/move.go.
use duplicatefinder.FilePath.Laws.{base-join, base-clean-join}
use duplicatefinder.Paths.Resolving.{plain_dir, plain_path}
use duplicatefinder.Base.{
  refl, ◌&&◌, ◌||◌, is_nil, ◌∙◌, sym, Bool, true-ne-false, not, Bool-cases, false, [],
  or-eq_true_right, inr, text_eq→eq, ap, text_eq_iff, or-eq_true_left, inl, text_eq, or-eq_true,
  ◌∷◌, map, true, ◌≡◌, member, Option, List, Text,
}
use duplicatefinder.Prune.{
  is_under, is_dropped, is_candidate, moved_names, Moved, stays_listed, raw_path, FileEnt,
}
use duplicatefinder.FilePath.{dir, clean, base, is_proper}

module _ (eval : Text → Option Text) where
  -- The canonical form that `dirResolver.path` gives a row keeps the row's name.
  base-plain_path :
      (f : FileEnt) → is_proper f.name ≡ true → base (plain_path eval (raw_path f)) ≡ f.name
  base-plain_path f h =
      let same : base (clean (raw_path f)) ≡ f.name = base-clean-join f.dir f.name h in
      rw same (base-join (plain_dir eval (dir (clean (raw_path f)))) f.name h)

member-map-base :
    (p : Text) (ps : List Text) → member p ps ≡ true → member (base p) (map base ps) ≡ true
member-map-base p [] h = h
member-map-base p (q ∷ ps) h = elim (or-eq_true (text_eq p q) (member p ps) h) [
  | inl e ↦
      or-eq_true_left (text_eq (base p) (base q)) (member (base p) (map base ps))
        ((text_eq_iff (base p) (base q)).1 (ap base (text_eq→eq p q e)))
  | inr later ↦
      or-eq_true_right (text_eq (base p) (base q)) (member (base p) (map base ps))
        (member-map-base p ps later)
]

module _ (eval : Text → Option Text) (gone dirs : List Text) where
  -- A request whose paths the resolver canonicalizes.
  abbrev pub moved : Moved
  moved = record { canon_paths = gone; dir_paths = dirs; canon = plain_path eval }

  names_none :
      (f : FileEnt) (p : Text)
      → base p ≡ f.name
      → member f.name (moved_names moved) ≡ false
      → member p gone ≡ false
  unfolding moved_names
  names_none f p e h = elim (Bool-cases (member p gone)) [
    | inr no_member ↦ no_member
    | inl found ↦
        let named : member f.name (map base gone) ≡ true =
          rw (← e) (member-map-base p gone found) in
        absurd (true-ne-false (sym named ∙ h))
  ]

  -- The name test that saves `pruneMoved` the canonical form of most rows loses none: a row with a
  -- proper file name stays listed exactly when neither its stored path nor its canonical path moved
  -- and neither lies under a moved directory.
  pub stays_listed-iff_dropped :
      (f : FileEnt)
      → is_proper f.name ≡ true
      → stays_listed moved f ≡ not (is_dropped moved (plain_path eval (raw_path f)) (raw_path f))
  unfolding stays_listed is_candidate is_dropped
  stays_listed-iff_dropped f h = elim (Bool-cases (member f.name (moved_names moved))) [
    | inl named ↦ rw named refl
    | inr unnamed ↦
        rw
          (
            names_none f (plain_path eval (raw_path f)) (base-plain_path eval f h) unnamed,
            names_none f (raw_path f) (base-join f.dir f.name h) unnamed,
            unnamed,
          )
          (no_dirs dirs (is_under (plain_path eval (raw_path f)) dirs) (is_under (raw_path f) dirs))
  ]
    where
      no_dirs :
          (ds : List Text) (a b : Bool)
          → (not (not (is_nil ds)) || not (not (is_nil ds) && (a || b)))
            ≡ not (not (is_nil ds) && (a || b))
      no_dirs [] a b = refl
      no_dirs (d ∷ ds) a b = refl
