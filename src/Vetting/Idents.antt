-- ===== src/Vetting/Idents.antt =====
-- What `identMatches` of server/move.go accepts.
use mathlib.Core.Path.{subst}
use duplicatefinder.Base.{
  text_eq, ◌||◌, ◌⊎◌, text_eq_iff, ◌==◌, Bool, ◌≢◌, sym, false, ◌≤◌, if◌then◌else◌, refl, [], inr,
  arith, inl, not, ◌&&◌, is_nil, Bool-cases, none, ◌∷◌, true, some, ◌≡◌, List, Option, ℕ, Text,
}
use duplicatefinder.Vetting.{
  same_bool, ident_matches, better, match_from, agrees_with, Ident, FsEntry,
}
use mathlib.Core.List.{Memᴰ}

same_bool_sound : (a b : Bool) → same_bool a b ≡ true → a ≡ b
same_bool_sound true b h = ground (arith, h)
same_bool_sound false b h = ground (arith, h)

same_bool_complete : (a b : Bool) → a ≡ b → same_bool a b ≡ true
same_bool_complete a true h = ground (arith, h)
same_bool_complete a false h = ground (arith, h)

module _ (fmt : ℕ → Text) (e : FsEntry) where
  -- What an identity and the entry on disk are to have in common: the kind, the modification time,
  -- by its number or else by its text, and of a file the size.
  pub record Agrees (w : Ident) : Type 0 where
    pub kind : e.is_dir ≡ w.is_dir
    pub time :
        (w.mod_unix ≢ 0) × (e.mtime ≡ w.mod_unix) ⊎ (w.mod_unix ≡ 0) × (fmt e.mtime ≡ w.mod_time)
    pub size : (e.is_dir ≡ true) ⊎ (e.size ≡ w.size)

  -- The identity passes the tests of `identMatches`.
  abbrev Passes : Ident → Type 0
  Passes w = agrees_with fmt e w ≡ true

  Passes-Agrees : (w : Ident) → Passes w → Agrees w
  unfolding agrees_with
  Passes-Agrees w h = record {
    kind = same_bool_sound e.is_dir w.is_dir (ground (arith, h));
    time = elim (Bool-cases (w.mod_unix == 0)) [
      | inl none_known ↦ inr (
        ground (arith, none_known),
        (text_eq_iff (fmt e.mtime) w.mod_time).0 (ground (arith, h, none_known)),
      )
      | inr known ↦ inl (λ z. ground (arith, z, known), ground (arith, h, known))
    ];
    size = elim (Bool-cases e.is_dir) [
      | inl folder ↦ inl folder
      | inr file ↦ inr (ground (arith, h, file))
    ];
  }

  time_passes :
      (w : Ident)
      → (w.mod_unix ≢ 0) × (e.mtime ≡ w.mod_unix) ⊎ (w.mod_unix ≡ 0) × (fmt e.mtime ≡ w.mod_time)
      → (if not (w.mod_unix == 0) then e.mtime == w.mod_unix else text_eq (fmt e.mtime) w.mod_time)
        ≡ true
  time_passes w (inl (known, same)) = ground (arith, known, same)
  time_passes w (inr (none_known, same)) =
      ground (arith, none_known, (text_eq_iff (fmt e.mtime) w.mod_time).1 same)

  size_passes :
      (w : Ident) → (e.is_dir ≡ true) ⊎ (e.size ≡ w.size) → (e.is_dir || e.size == w.size) ≡ true
  size_passes w (inl folder) = ground (arith, folder)
  size_passes w (inr same) = ground (arith, same)

  Agrees-Passes : (w : Ident) → Agrees w → Passes w
  unfolding agrees_with
  Agrees-Passes w a =
      let kind = same_bool_complete e.is_dir w.is_dir a.kind in
      let time = time_passes w a.time in ground (arith, kind, time, size_passes w a.size)

  match_from_sound :
      (ws seen : List Ident) (best : Option Ident)
      → ((b : Ident) → best ≡ some b → Memᴰ b seen × Passes b)
      → ((w : Ident) → Memᴰ w ws → Memᴰ w seen)
      → (w : Ident) → match_from fmt e best ws ≡ some w
      → Memᴰ w seen × Passes w
  unfolding match_from better
  match_from_sound [] seen best hb up w r = hb w r
  match_from_sound (x ∷ ws) seen best hb up w r = elim (Bool-cases (agrees_with fmt e x)) [
    | inr skip ↦
        match_from_sound ws seen best hb (λ y i. up y (Memᴰ.tail i)) w (ground (arith, r, skip))
    | inl ok ↦ elim (Bool-cases (is_nil x.hash)) [
      | inr hashed ↦
          let same : x ≡ w = ground (arith, r, ok, hashed) in
          rw (← same) (up x (Memᴰ.head refl), ok)
      | inl plain ↦
          match_from_sound ws seen (better best x)
            (λ b i. either_best best x b i (hb b) (up x (Memᴰ.head refl), ok))
            (λ y i. up y (Memᴰ.tail i)) w (ground (arith, r, ok, plain))
    ]
  ]
    where
      either_best :
          (o : Option Ident) (y b : Ident)
          → better o y ≡ some b
          → (o ≡ some b → Memᴰ b seen × Passes b)
          → Memᴰ y seen × Passes y
          → Memᴰ b seen × Passes b
      either_best none y b i f g = let same : y ≡ b = cc in rw (← same) g
      either_best (some z) y b i f g = elim (Bool-cases (is_nil z.pfx && not (is_nil y.pfx))) [
        | inl finer ↦ let same : y ≡ b = ground (arith, i, finer) in rw (← same) g
        | inr coarse ↦ f (ground (arith, i, coarse))
      ]

  -- How strong a check an identity allows: a content hash, a fingerprint, or neither.
  abbrev pub strength : Ident → ℕ
  strength w = if not (is_nil w.hash) then 2 else if not (is_nil w.pfx) then 1 else 0

  -- At least as strong as `n`, and there is one.
  abbrev pub AtLeast : ℕ → Option Ident → Type 0
  AtLeast n none = ⊥
  AtLeast n (some w) = n ≤ strength w

  better-AtLeast_new :
      (o : Option Ident) (w : Ident) → is_nil w.hash ≡ true → AtLeast (strength w) (better o w)
  unfolding better
  better-AtLeast_new none w h = omega arith
  better-AtLeast_new (some b) w h = elim (Bool-cases (is_nil b.pfx && not (is_nil w.pfx))) [
    | inl finer ↦ rw finer (omega arith)
    | inr coarse ↦ rw coarse (ground arith)
  ]

  better-AtLeast_old :
      (o : Option Ident) (w : Ident) (n : ℕ) → n ≤ 1 → AtLeast n o → AtLeast n (better o w)
  unfolding better
  better-AtLeast_old none w n le h = absurd h
  better-AtLeast_old (some b) w n le h = elim (Bool-cases (is_nil b.pfx && not (is_nil w.pfx))) [
    | inl finer ↦ rw finer (ground arith)
    | inr coarse ↦ rw coarse h
  ]

  strength_bound : (w : Ident) → strength w ≤ 2
  strength_bound w = ground arith

  hashed_strength : (x : Ident) (n : ℕ) → n ≤ 2 → is_nil x.hash ≡ false → AtLeast n (some x)
  hashed_strength x n le h = ground (arith, h)

  plain_strength : (x : Ident) → is_nil x.hash ≡ true → strength x ≤ 1
  plain_strength x h = ground (arith, h)

  match_from-AtLeast_old :
      (ws : List Ident) (best : Option Ident) (n : ℕ)
      → n ≤ 1
      → AtLeast n best
      → AtLeast n (match_from fmt e best ws)
  unfolding match_from
  match_from-AtLeast_old [] best n le h = h
  match_from-AtLeast_old (x ∷ ws) best n le h = elim (Bool-cases (agrees_with fmt e x)) [
    | inr skip ↦ rw skip (match_from-AtLeast_old ws best n le h)
    | inl ok ↦ elim (Bool-cases (is_nil x.hash)) [
      | inr hashed ↦ rw (ok, hashed) (hashed_strength x n (omega (arith, le)) hashed)
      | inl plain ↦
          rw (ok, plain)
            (match_from-AtLeast_old ws (better best x) n le (better-AtLeast_old best x n le h))
    ]
  ]

  match_from-AtLeast_head :
      (x : Ident) (ws : List Ident) (best : Option Ident) (n : ℕ)
      → strength x ≡ n
      → Passes x
      → AtLeast n (match_from fmt e best (x ∷ ws))
  unfolding match_from
  match_from-AtLeast_head x ws best n e' ok = elim (Bool-cases (is_nil x.hash)) [
    | inr hashed ↦
        rw (ok, hashed) (hashed_strength x n (omega (arith, e', strength_bound x)) hashed)
    | inl plain ↦
        rw (ok, plain)
          (match_from-AtLeast_old ws (better best x) n (omega (arith, e', plain_strength x plain))
            (subst (λ k. AtLeast k (better best x)) e' (better-AtLeast_new best x plain)))
  ]

  match_from-AtLeast :
      (ws : List Ident) (best : Option Ident) (w : Ident)
      → Memᴰ w ws
      → Passes w
      → AtLeast (strength w) (match_from fmt e best ws)
  unfolding match_from
  match_from-AtLeast [] best w i a = elim i [ ]
  match_from-AtLeast (x ∷ ws) best w (Memᴰ.head same) a =
      subst (λ y. AtLeast (strength y) (match_from fmt e best (x ∷ ws))) (sym same)
        (match_from-AtLeast_head x ws best (strength x) refl (subst (λ y. Passes y) same a))
  match_from-AtLeast (x ∷ ws) best w (Memᴰ.tail i) a = elim (Bool-cases (agrees_with fmt e x)) [
    | inr skip ↦ rw skip (match_from-AtLeast ws best w i a)
    | inl ok ↦ elim (Bool-cases (is_nil x.hash)) [
      | inr hashed ↦ rw (ok, hashed) (hashed_strength x (strength w) (strength_bound w) hashed)
      | inl plain ↦ rw (ok, plain) (match_from-AtLeast ws (better best x) w i a)
    ]
  ]

  -- What the move check accepts is an identity that some scan recorded and that the file on disk
  -- still agrees with in kind, modification time and, for a file, size.
  pub ident_matches-Agrees :
      (wants : List Ident) (w : Ident)
      → ident_matches fmt e wants ≡ some w
      → Memᴰ w wants × Agrees w
  unfolding ident_matches
  ident_matches-Agrees wants w h =
      let (i, passes) = match_from_sound wants wants none (λ b i. cc) (λ y i. i) w h in
      (i, Passes-Agrees w passes)

  -- And it accepts where any recorded identity agrees, with one that allows as strong a check of
  -- the content as that one: by hash, by fingerprint, or none.
  pub ident_matches-AtLeast :
      (wants : List Ident) (w : Ident)
      → Memᴰ w wants
      → Agrees w
      → AtLeast (strength w) (ident_matches fmt e wants)
  unfolding ident_matches
  ident_matches-AtLeast wants w i a = match_from-AtLeast wants none w i (Agrees-Passes w a)
