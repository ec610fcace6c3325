-- ===== src/Prune/Groups.antt =====
-- The groups and keepers that `pruneMoved` of server/move.go leaves.
use mathlib.Core.Path.{subst}
use mathlib.Core.List.{Memᴰ}
use duplicatefinder.Base.{
  some, none, text_eq_refl, member, ◌||◌, arith, Option, refl, [], ◌∷◌, true, ◌≡◌, length, text_eq,
  leb, any, Bool, all, List, Text,
}
use duplicatefinder.Prune.{
  duplicates, kept_rows, prune_group, cons_some, FileEnt, raw_path, Group, prune_groups, Moved,
}

module _ (m : Moved) (tool : Text) where
  prune_group-whole :
      (g : Group) (fs : List FileEnt) (rest : List Group)
      → all (λ x. leb 2 (length x.files)) rest ≡ true
      → all (λ x. leb 2 (length x.files)) (cons_some (prune_group m tool g fs).0 rest) ≡ true
  unfolding prune_group
  prune_group-whole g [] rest h = h
  prune_group-whole g (f ∷ []) rest h = h
  prune_group-whole g (f ∷ f' ∷ fs) rest h = ground arith

  -- After a move every group that is still listed has at least two rows.
  pub prune_groups-whole :
      (gs : List Group) → all (λ g. leb 2 (length g.files)) (prune_groups m tool gs).0 ≡ true
  unfolding prune_groups
  prune_groups-whole [] = refl
  prune_groups-whole (g ∷ gs) =
      prune_group-whole g (kept_rows m g.files) (prune_groups m tool gs).0 (prune_groups-whole gs)

module _ (m : Moved) where
  -- The row's canonical path is `p`.
  abbrev pub stands_at : Text → FileEnt → Bool
  stands_at p f = text_eq p (m.canon (raw_path f))

  abbrev pub is_listed : Text → List Group → Bool
  is_listed p = any (λ g. any (stands_at p) g.files)

  prune_group-accounts :
      (p : Text) (g : Group) (fs : List FileEnt) (gs : List Group) (ks : List Text)
      → any (stands_at p) fs ≡ true
      → (is_listed p (cons_some (prune_group m duplicates g fs).0 gs)
          || member p (cons_some (prune_group m duplicates g fs).1 ks))
        ≡ true
  unfolding prune_group
  prune_group-accounts p g [] gs ks h = cc
  prune_group-accounts p g (f ∷ []) gs ks h = ground (arith, text_eq_refl duplicates)
  prune_group-accounts p g (f ∷ f' ∷ fs) gs ks h = rw h refl

  prune_groups-later :
      (p : Text) (a : Option Group) (k : Option Text) (gs : List Group) (ks : List Text)
      → (is_listed p gs || member p ks) ≡ true
      → (is_listed p (cons_some a gs) || member p (cons_some k ks)) ≡ true
  prune_groups-later p none none gs ks h = h
  prune_groups-later p none (some k) gs ks h = ground arith
  prune_groups-later p (some a) none gs ks h = ground arith
  prune_groups-later p (some a) (some k) gs ks h = ground arith

  -- Of the duplicates result, no row that the move leaves in place is forgotten: it is still listed
  -- in a group, or, where its group dissolved, recorded as a keeper that no move may take.
  pub prune_groups-accounts :
      (p : Text) (gs : List Group) (g : Group)
      → Memᴰ g gs
      → any (stands_at p) (kept_rows m g.files) ≡ true
      → (is_listed p (prune_groups m duplicates gs).0 || member p (prune_groups m duplicates gs).1)
        ≡ true
  unfolding prune_groups
  prune_groups-accounts p [] g k h = elim k [ ]
  prune_groups-accounts p (x ∷ gs) g (Memᴰ.head e) h =
      prune_group-accounts p x (kept_rows m x.files) (prune_groups m duplicates gs).0
        (prune_groups m duplicates gs).1
        (subst (λ y. any (stands_at p) (kept_rows m y.files) ≡ true) e h)
  prune_groups-accounts p (x ∷ gs) g (Memᴰ.tail k) h =
      prune_groups-later p (prune_group m duplicates x (kept_rows m x.files)).0
        (prune_group m duplicates x (kept_rows m x.files)).1 (prune_groups m duplicates gs).0
        (prune_groups m duplicates gs).1 (prune_groups-accounts p gs g k h)
