-- ===== src/Vetting/Refusals.antt =====
-- What `refuse` of server/move.go holds back, together with keep-one.
use mathlib.Core.List.{Memᴰ}
use duplicatefinder.KeepOne.Groups.{keep_one_drops-keeps_copy, paths_of, remains}
use duplicatefinder.Model.{Group}
use duplicatefinder.Base.{
  and-intro, and-eq_true, inr, any_mono, inl, or-eq_true, any_of_member, any, [], ◌∷◌, ◌++◌,
  has_prefix, List, arith, refl, none, some, not, ◌&&◌, true, false, ◌||◌, ◌≡◌, member, Option,
  Bool, Text,
}
use duplicatefinder.Vetting.{
  holds_under, is_dir_ident, mount_refusal, self_mount_under, is_under, Refused, SelfMount,
  refuse_cases, refuse, MoveVet,
}
use duplicatefinder.KeepOne.{keep_one_drops, staying, Request}

abbrev pub is_some : Option Refused → Bool
is_some none = false
is_some (some r) = true

is_some-mount_refusal :
    (m : Option SelfMount) (o : Option Refused)
    → is_some o ≡ true
    → is_some (mount_refusal m o) ≡ true
is_some-mount_refusal (some m) o h = refl
is_some-mount_refusal none o h = h

refuse_of_cases :
    (v : MoveVet) (cp : Text) → is_some (refuse_cases v cp) ≡ true → is_some (refuse v cp) ≡ true
unfolding refuse
refuse_of_cases v cp = is_some-mount_refusal (self_mount_under v.self_mounts cp) (refuse_cases v cp)

-- A test that answers `true` ends a chain of tests with a refusal.
refuse_cases-held :
    (v : MoveVet) (cp : Text)
    → (member cp v.drops
        || member cp v.keepers
        || is_under cp v.refs
        || is_dir_ident (v.idents cp) && (holds_under cp v.drops || holds_under cp v.keepers))
      ≡ true
    → is_some (refuse_cases v cp) ≡ true
unfolding refuse_cases
refuse_cases-held v cp h = ground (arith, h)

-- The request asks for the path, and vetting does not refuse it.
abbrev pub moves : Request → MoveVet → Text → Bool
moves q v p = member p q.requested && not (is_some (refuse v p))

refused-moves :
    (q : Request) (v : MoveVet) (p : Text)
    → is_some (refuse_cases v p) ≡ true
    → not (moves q v p) ≡ true
refused-moves q v p h = let r = refuse_of_cases v p h in ground (arith, r)

remains-moves :
    (q : Request) (v : MoveVet) (gs : List Group) (p : Text)
    → v.drops ≡ keep_one_drops q gs
    → v.refs ≡ q.ref_dirs
    → remains q gs p ≡ true
    → not (moves q v p) ≡ true
unfolding staying
remains-moves q v gs p drops refs h =
    elim (or-eq_true (staying q p) (member p (keep_one_drops q gs)) h) [
      | inl stays ↦ elim (or-eq_true (not (member p q.requested)) (is_under p q.ref_dirs) stays) [
        | inl unasked ↦ ground (arith, unasked)
        | inr under ↦
            let under' : is_under p v.refs ≡ true = rw refs under in
            refused-moves q v p (refuse_cases-held v p (ground (arith, under')))
      ]
      | inr held ↦
          let held' : member p v.drops ≡ true = rw drops held in
          refused-moves q v p (refuse_cases-held v p (ground (arith, held')))
    ]

-- Vetting with the held-back copies and reference folders of a request: for every stored group
-- with a member on disk, at least one member on disk does not move, since it is not requested or
-- is refused.
pub refuse-keeps_copy :
    (q : Request) (v : MoveVet) (gs : List Group) (g : Group)
    → v.drops ≡ keep_one_drops q gs
    → v.refs ≡ q.ref_dirs
    → Memᴰ g gs
    → any q.on_disk (paths_of q g) ≡ true
    → any (λ p. q.on_disk p && not (moves q v p)) (paths_of q g) ≡ true
refuse-keeps_copy q v gs g drops refs m h =
    any_mono (λ p. q.on_disk p && remains q gs p) (λ p. q.on_disk p && not (moves q v p))
      (λ p e.
        let (disk, r) = and-eq_true (q.on_disk p) (remains q gs p) e in
        and-intro (q.on_disk p) (not (moves q v p)) disk (remains-moves q v gs p drops refs r))
      (paths_of q g) (keep_one_drops-keeps_copy q gs g m h)

holds_under_of_member :
    (d p : Text) (held : List Text)
    → has_prefix (d ++ b'/' ∷ []) p ≡ true
    → member p held ≡ true
    → holds_under d held ≡ true
unfolding holds_under
holds_under_of_member d p held h m = any_of_member (has_prefix (d ++ b'/' ∷ [])) p held m h

-- A directory that a scan recorded as one does not move while a copy that is held back, by this
-- request or as the keeper of a dissolved group, lies inside it.
pub refuse-held_inside :
    (v : MoveVet) (d p : Text)
    → is_dir_ident (v.idents d) ≡ true
    → has_prefix (d ++ b'/' ∷ []) p ≡ true
    → (member p v.drops || member p v.keepers) ≡ true
    → is_some (refuse v d) ≡ true
refuse-held_inside v d p is_dir inside held = refuse_of_cases v d (
    refuse_cases-held v d (
      ground (
        arith,
        held,
        is_dir,
        holds_under_of_member d p v.drops inside,
        holds_under_of_member d p v.keepers inside,
      )))
