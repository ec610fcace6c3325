-- ===== src/Results/Refine/Criteria.antt =====
-- The criteria of `refineGroups` of server/results.go: what the key of a row stands for.
use duplicatefinder.Results.Refine.Laws.{refine_group-bucket}
use mathlib.Core.Path.{subst}
use mathlib.Core.List.{Memᴰ}
use duplicatefinder.Model.{Group, FileEnt, MatchOpts}
use duplicatefinder.Results.Refine.{refine_group, bucket, refine_key}
use duplicatefinder.Base.{
  ◌∙◌, length, ap, filter, ◌≤◌, sym, arith, refl, All, true, [], ◌&&◌, ◌∷◌, is_nil, ◌++◌, ◌==◌,
  ◌||◌, any, if◌then◌else◌, false, text_eq, ◌≡◌, not, Text, List, Bool,
}

-- The creation times of two rows agree: they are one time, or there is none and the rows are one.
abbrev pub same_created : FileEnt → FileEnt → Bool
same_created f g =
    if is_nil f.created then is_nil g.created && text_eq f.id g.id else text_eq f.created g.created

-- The rows share every criterion that is asked for.
abbrev pub shares : MatchOpts → FileEnt → FileEnt → Bool
shares m f g =
    (not m.name || text_eq f.name g.name)
    && ((not m.modified || text_eq f.mod_time g.mod_time) && (not m.created || same_created f g))

abbrev pub has_nul : Text → Bool
has_nul = any (λ c. c == 0)

abbrev pub starts_unknown : Text → Bool
starts_unknown [] = false
starts_unknown (c ∷ s) = c == b'?'

-- A name and a time hold no NUL, and a time is no question mark.
pub record IsRow (f : FileEnt) : Type 0 where
  pub name_plain : has_nul f.name ≡ false
  pub time_plain : has_nul f.mod_time ≡ false
  pub created_known : starts_unknown f.created ≡ false

-- Texts that end at a first NUL are apart where the parts are.
text_eq-nul :
    (a b u v : Text)
    → has_nul a ≡ false
    → has_nul b ≡ false
    → text_eq (a ++ 0 ∷ u) (b ++ 0 ∷ v) ≡ (text_eq a b && text_eq u v)
unfolding text_eq
text_eq-nul [] [] u v h k = refl
text_eq-nul [] (d ∷ b) u v h k = ground (arith, k)
text_eq-nul (c ∷ a) [] u v h k = ground (arith, h)
text_eq-nul (c ∷ a) (d ∷ b) u v h k = ground (arith, text_eq-nul a b u v, h, k)

-- A criterion that is not asked for is empty in every key.
text_eq-asked :
    (b : Bool) (x y : Text)
    → text_eq (if b then x else []) (if b then y else []) ≡ (not b || text_eq x y)
unfolding text_eq
text_eq-asked true x y = refl
text_eq-asked false x y = refl

has_nul-asked : (b : Bool) (x : Text) → has_nul x ≡ false → has_nul (if b then x else []) ≡ false
has_nul-asked true x h = h
has_nul-asked false x h = refl

-- What a key holds of the creation time.
abbrev created_text : FileEnt → Text
created_text f = if is_nil f.created then b'?' ∷ f.id else f.created

created_text-eq :
    (c d i j : Text)
    → starts_unknown c ≡ false
    → starts_unknown d ≡ false
    → text_eq (if is_nil c then b'?' ∷ i else c) (if is_nil d then b'?' ∷ j else d)
      ≡ (if is_nil c then is_nil d && text_eq i j else text_eq c d)
unfolding text_eq
created_text-eq [] [] i j h k = ground arith
created_text-eq [] (y ∷ d) i j h k = ground (arith, k)
created_text-eq (x ∷ c) [] i j h k = ground (arith, h)
created_text-eq (x ∷ c) (y ∷ d) i j h k = refl

module _ (m : MatchOpts) where
  -- Two rows have one key exactly if they share what is asked for.
  refine_key-shares :
      (f g : FileEnt) → IsRow f → IsRow g → text_eq (refine_key m f) (refine_key m g) ≡ shares m f g
  unfolding refine_key
  refine_key-shares f g p q =
      rw
        (
          text_eq-nul (if m.name then f.name else []) (if m.name then g.name else []) _ _
              (has_nul-asked m.name f.name p.name_plain) (has_nul-asked m.name g.name q.name_plain),
          text_eq-nul (if m.modified then f.mod_time else [])
              (if m.modified then g.mod_time else []) _ _
              (has_nul-asked m.modified f.mod_time p.time_plain)
              (has_nul-asked m.modified g.mod_time q.time_plain),
          text_eq-asked m.name f.name g.name,
          text_eq-asked m.modified f.mod_time g.mod_time,
          text_eq-asked m.created (created_text f) (created_text g),
          created_text-eq f.created g.created f.id g.id p.created_known q.created_known,
        )
        refl

  bucket-shares :
      (f : FileEnt) (fs : List FileEnt)
      → IsRow f
      → All IsRow fs
      → bucket m fs (refine_key m f) ≡ filter (λ g. shares m g f) fs
  unfolding bucket
  bucket-shares f [] p a = refl
  bucket-shares f (g ∷ fs) p (q, later) =
      rw (refine_key-shares g f q p)
        (ap (λ l. if shares m g f then g ∷ l else l) (bucket-shares f fs p later))

  member-IsRow : (fs : List FileEnt) (f : FileEnt) → Memᴰ f fs → All IsRow fs → IsRow f
  member-IsRow [] f i a = elim i [ ]
  member-IsRow (g ∷ fs) f (Memᴰ.head e) (q, later) = subst IsRow (sym e) q
  member-IsRow (g ∷ fs) f (Memᴰ.tail i) (q, later) = member-IsRow fs f i later

  -- A row that shares with another row of its group every criterion asked for is in a refined group,
  -- whose rows are all those of its group that share them with it, in the old order. The rows have
  -- no NUL in a name or a modified time, and no creation time that begins with a question mark.
  pub refine_group_complete :
      (g : Group) (f : FileEnt)
      → All IsRow g.files
      → Memᴰ f g.files
      → 2 ≤ length (filter (λ f'. shares m f' f) g.files)
      → (g' : Group) × Memᴰ g' (refine_group m g)
        × (g'.files ≡ filter (λ f'. shares m f' f) g.files)
  refine_group_complete g f rows i two =
      let same = bucket-shares f g.files (member-IsRow g.files f i rows) rows in
      let (g', j, e) = refine_group-bucket m g f i (ground (arith, two, ap length same)) in
      (g', j, e ∙ same)
