-- ===== src/KeepOne/Groups.antt =====
-- The whole of `keepOneDrops`: over every group of the stored duplicates result.
use mathlib.Core.Path.{subst}
use duplicatefinder.KeepOne.Content.{
  hold_back-collected, group_keeps_content, group_keeps_original, is_counted,
}
use duplicatefinder.KeepOne.Safety.{group_keeps_copy, is_kept}
use mathlib.Core.List.{Memᴰ}
use duplicatefinder.Base.{
  text_eq, sym, false, none, [], or-eq_true_right, Option-cases, inr, some, refl, or-eq_true_left,
  arith, and-eq_true, inl, or-eq_true, member, any_mono, ◌∷◌, true, ◌||◌, ◌&&◌, not, ◌≡◌, Bool, any,
  List, Text, all,
}
use duplicatefinder.KeepOne.{
  Why, reads, original, hold_back, staying, group_hash, keep_one_drops_why, group_paths, Group,
  keep_one_drops, Request,
}

module _ (q : Request) where
  abbrev pub paths_of : Group → List Text
  paths_of g = group_paths q g.files

  abbrev pub hash_of : Group → Text
  hash_of g = group_hash q g g.files

  -- The copies a request leaves at their place: those it does not take, and the held-back ones.
  abbrev pub remains : List Group → Text → Bool
  remains gs p = staying q p || member p (keep_one_drops q gs)

  abbrev held_is : Group → Text → Bool
  held_is g p = elim (hold_back q (hash_of g) (paths_of g)) [
    | none ↦ false
    | some h ↦ text_eq p h.0
  ]

  drops_of_held :
      (gs : List Group) (g : Group) (p : Text)
      → Memᴰ g gs
      → held_is g p ≡ true
      → member p (keep_one_drops q gs) ≡ true
  unfolding keep_one_drops keep_one_drops_why
  drops_of_held [] g p m h = elim m [ ]
  drops_of_held (x ∷ gs) g p (Memᴰ.head e) h =
      subst (λ y. held_is y p ≡ true → member p (keep_one_drops q (x ∷ gs)) ≡ true) (sym e)
        (λ k. here k) h
    where
      here : held_is x p ≡ true → member p (keep_one_drops q (x ∷ gs)) ≡ true
      here k = ground arith
  drops_of_held (x ∷ gs) g p (Memᴰ.tail m) h = ground (arith, drops_of_held gs g p m h)

  kept-remains :
      (gs : List Group) (g : Group) (p : Text)
      → Memᴰ g gs
      → is_kept q (hash_of g) (paths_of g) p ≡ true
      → remains gs p ≡ true
  kept-remains gs g p m h = elim (or-eq_true (staying q p) (held_is g p) h) [
    | inl s ↦ or-eq_true_left (staying q p) (member p (keep_one_drops q gs)) s
    | inr k ↦
        or-eq_true_right (staying q p) (member p (keep_one_drops q gs)) (drops_of_held gs g p m k)
  ]

  remaining :
      (gs : List Group) (g : Group) (c : Text → Bool)
      → Memᴰ g gs
      → any (λ p. c p && is_kept q (hash_of g) (paths_of g) p) (paths_of g) ≡ true
      → any (λ p. c p && remains gs p) (paths_of g) ≡ true
  remaining gs g c m h =
      any_mono (λ p. c p && is_kept q (hash_of g) (paths_of g) p) (λ p. c p && remains gs p)
        (λ p e.
          let (cp, k) = and-eq_true (c p) (is_kept q (hash_of g) (paths_of g) p) e in
          rw (cp, kept-remains gs g p m k) refl)
        (paths_of g) h

  -- For every group of the stored result with a member that File Station still finds on disk, some
  -- member on disk is left at its place: not requested, protected by a reference folder, or held
  -- back. This holds for any request and any content reader.
  pub keep_one_drops-keeps_copy :
      (gs : List Group) (g : Group)
      → Memᴰ g gs
      → any q.on_disk (paths_of g) ≡ true
      → any (λ p. q.on_disk p && remains gs p) (paths_of g) ≡ true
  keep_one_drops-keeps_copy gs g m h =
      remaining gs g q.on_disk m (group_keeps_copy q (hash_of g) (paths_of g) h)

  -- For every group with a copy on disk that the reader finds intact, and that the request leaves
  -- or that counts beside the originals, some member that is on disk and intact is left at its
  -- place.
  pub keep_one_drops-keeps_content :
      (gs : List Group) (g : Group)
      → Memᴰ g gs
      → any (is_counted q (hash_of g) (paths_of g)) (paths_of g) ≡ true
      → any (λ p. (q.on_disk p && reads q.intact p (hash_of g)) && remains gs p) (paths_of g) ≡ true
  keep_one_drops-keeps_content gs g m h =
      remaining gs g (λ p. q.on_disk p && reads q.intact p (hash_of g)) m
        (group_keeps_content q (hash_of g) (paths_of g) h)

  -- For every group with an original on disk, that is a member which no move of the program put
  -- where it is, some original on disk is left at its place.
  pub keep_one_drops-keeps_original :
      (gs : List Group) (g : Group)
      → Memᴰ g gs
      → any (λ p. q.on_disk p && original q p) (paths_of g) ≡ true
      → any (λ p. (q.on_disk p && original q p) && remains gs p) (paths_of g) ≡ true
  keep_one_drops-keeps_original gs g m h =
      remaining gs g (λ p. q.on_disk p && original q p) m
        (group_keeps_original q (hash_of g) (paths_of g) h)

  -- Whatever is held back was requested and lies under no reference folder.
  pub keep_one_drops-requested :
      (gs : List Group) → all (λ p. not (staying q p)) (keep_one_drops q gs) ≡ true
  unfolding keep_one_drops keep_one_drops_why
  keep_one_drops-requested [] = refl
  keep_one_drops-requested (g ∷ gs) = elim (Option-cases (hold_back q (hash_of g) (paths_of g))) [
    | inl e ↦ rw (e, keep_one_drops_why) (keep_one_drops-requested gs)
    | inr (kw, e) ↦
        rw (e, keep_one_drops_why) (rw (requested_held g kw.0 kw.1 e) (keep_one_drops-requested gs))
  ]
    where
      requested_held :
          (x : Group) (k : Text) (w : Why)
          → hold_back q (hash_of x) (paths_of x) ≡ some (k, w)
          → not (staying q k) ≡ true
      requested_held x k w e =
          (and-eq_true (not (staying q k)) _
            (and-eq_true _ (member k (paths_of x))
              (hold_back-collected q (hash_of x) (paths_of x) k w e)).0).0
