-- ===== src/EmptyFolders.antt =====
-- The walk state of server/emptyfolders.go: `emptyFolderScan` without the confirmation. `offered`
-- is what was handed to the bounded list `top`, the last one first; its bound comes after.
pub mod Safety
use duplicatefinder.FilePath.{dir}
use duplicatefinder.Base.{
  length, ◌++◌, ltb, has_prefix, ◌==◌, some, text_eq, ◌∷◌, ◌||◌, true, Option, ◌+◌, if◌then◌else◌,
  none, false, [], Bool, ℕ, List, Text,
}
use duplicatefinder.Scan.Junk.{merge_junk, is_temp_name, add_junk, no_junk, JunkInfo}

pub record DirEnt : Type 0 where
  pub path : Text
  pub mod_time : ℕ
  pub junk : Option JunkInfo

pub record Frame : Type 0 where
  pub path : Text
  pub mod_time : ℕ
  pub junk : Option JunkInfo
  pub is_root : Bool
  pub has_file : Bool
  pub empties : List DirEnt
  pub dropped : ℕ

-- The stack has its top first; `cur_root` is none for -1.
pub record EmptyFolderScan : Type 0 where
  pub stack : List Frame
  pub offered : List DirEnt
  pub dropped : ℕ
  pub cur_root : Option ℕ

-- The fields of an `fEnt` that the walk state reads.
pub record Entry : Type 0 where
  pub path : Text
  pub name : Text
  pub size : ℕ
  pub mod_time : ℕ
  pub is_dir : Bool

abbrev pub empty_folder_cap : ℕ
empty_folder_cap = 20000

abbrev pub new_scan : EmptyFolderScan
new_scan = record { stack = []; offered = []; dropped = 0; cur_root = none }

unfoldable pub junk_bytes : DirEnt → ℕ
junk_bytes d = elim d.junk [ none ↦ 0 | some j ↦ j.bytes ]

abbrev pub or_no_junk : Option JunkInfo → JunkInfo
or_no_junk none = no_junk
or_no_junk (some j) = j

unfoldable pub emit : DirEnt → List DirEnt → List DirEnt
emit d out = d ∷ out

-- The loop `for _, d := range f.empties { e.emit(d) }`.
unfoldable pub emit_all : List DirEnt → List DirEnt → List DirEnt
unfolding emit
emit_all [] out = out
emit_all (d ∷ ds) out = emit_all ds (emit d out)

-- What a frame's functions change beside the frame: `top` and `dropped` of the scan.
abbrev pub Sink : Type 0
Sink = List DirEnt × ℕ

unfoldable pub release_empties : Frame → Sink → Sink
unfolding emit_all
release_empties f s = (emit_all f.empties s.0, s.1 + f.dropped)

unfoldable pub mark_has_file : Frame → Sink → Frame × Sink
unfolding release_empties
mark_has_file f s =
    if f.has_file
    then (f, s)
    else (record f { has_file = true; empties = []; dropped = 0 }, release_empties f s)

unfoldable pub add_empty : Frame → DirEnt → Sink → Frame × Sink
unfolding emit
add_empty p d s =
    if p.has_file || p.is_root
    then (p, (emit d s.0, s.1))
    else if ltb (length p.empties) empty_folder_cap
    then (record p { empties = p.empties ++ d ∷ [] }, s)
    else (record p { dropped = p.dropped + 1 }, s)

abbrev pub ent_of : Frame → DirEnt
ent_of f = record { path = f.path; mod_time = f.mod_time; junk = f.junk }

-- The junk of a superseded folder becomes part of its parent's.
unfoldable pub pass_junk : Frame → Frame → Frame
pass_junk f parent = elim f.junk [
  | none ↦ parent
  | some j ↦
      if parent.has_file
      then parent
      else record parent { junk = some (merge_junk (or_no_junk parent.junk) j) }
]

-- `pop` for the frame `f` and its parent.
unfoldable pub pop_onto : Frame → Frame → Sink → Frame × Sink
unfolding release_empties mark_has_file add_empty pass_junk
pop_onto f parent s =
    if f.has_file || f.is_root
    then (if f.has_file
        then mark_has_file parent (release_empties f s)
        else (parent, release_empties f s))
    else (let added = add_empty parent (ent_of f) s in (pass_junk f added.0, added.1))

-- `pop` for the last frame, which has no parent.
unfoldable pub pop_last : Frame → Sink → Sink
unfolding release_empties
pop_last f s = if f.has_file || f.is_root then release_empties f s else s

-- Whether the walk is still inside the frame: `f.path == p || HasPrefix(p, f.path+"/")`.
abbrev pub inside : Text → Frame → Bool
inside p f = text_eq f.path p || has_prefix (f.path ++ b'/' ∷ []) p

-- `popTo` on the stack of `f` and `below`: frames are popped until the walk is inside the top.
unfoldable pub pop_frames : (Frame → Bool) → Frame → List Frame → Sink → List Frame × Sink
unfolding pop_onto pop_last
pop_frames keep f [] s = if keep f then (f ∷ [], s) else ([], pop_last f s)
pop_frames keep f (g ∷ below) s =
    let up = pop_onto f g s in
    let rest = pop_frames keep up.0 below up.1 in if keep f then (f ∷ g ∷ below, s) else rest

unfoldable pub pop_while : (Frame → Bool) → List Frame → Sink → List Frame × Sink
unfolding pop_frames
pop_while keep [] s = ([], s)
pop_while keep (f ∷ below) s = pop_frames keep f below s

abbrev pub sink_of : EmptyFolderScan → Sink
sink_of e = (e.offered, e.dropped)

abbrev pub with_stack : EmptyFolderScan → List Frame × Sink → EmptyFolderScan
with_stack e r = record e { stack = r.0; offered = r.1.0; dropped = r.1.1 }

unfoldable pub pop_to : EmptyFolderScan → Text → EmptyFolderScan
unfolding pop_while
pop_to e p = with_stack e (pop_while (inside p) e.stack (sink_of e))

unfoldable pub pop_all : EmptyFolderScan → EmptyFolderScan
unfolding pop_while
pop_all e = with_stack e (pop_while (λ f. false) e.stack (sink_of e))

abbrev pub new_frame : Text → ℕ → Bool → Frame
new_frame p m root = record {
  path = p;
  mod_time = m;
  junk = none;
  is_root = root;
  has_file = false;
  empties = [];
  dropped = 0;
}

-- The root's frame, for the first entry under it.
unfoldable pub ensure_root : Text → List Frame → List Frame
ensure_root p [] = new_frame (dir p) 0 true ∷ []
ensure_root p (f ∷ fs) = f ∷ fs

unfoldable pub add_file_junk : Entry → Frame → Frame
add_file_junk f top =
    if top.has_file
    then top
    else record top { junk = some (add_junk (or_no_junk top.junk) f.name f.size) }

unfoldable pub mark_top : List Frame → Sink → List Frame × Sink
unfolding mark_has_file
mark_top [] s = ([], s)
mark_top (f ∷ fs) s = let m = mark_has_file f s in (m.0 ∷ fs, m.1)

-- What an entry does to the stack that is left.
unfoldable pub enter : Entry → List Frame → Sink → List Frame × Sink
unfolding mark_top add_file_junk
enter f [] s = ([], s)
enter f (top ∷ fs) s =
    if f.is_dir
    then (new_frame f.path f.mod_time false ∷ top ∷ fs, s)
    else if is_temp_name f.name
    then (add_file_junk f top ∷ fs, s)
    else mark_top (top ∷ fs) s

abbrev pub same_root : Option ℕ → ℕ → Bool
same_root none i = false
same_root (some j) i = i == j

unfoldable pub cross_root : EmptyFolderScan → ℕ → EmptyFolderScan
unfolding pop_all
cross_root e i = if same_root e.cur_root i then e else record (pop_all e) { cur_root = some i }

unfoldable pub visit : EmptyFolderScan → ℕ → Entry → EmptyFolderScan
unfolding cross_root pop_to ensure_root enter
visit e i f =
    let e' = pop_to (cross_root e i) f.path in
    with_stack e' (enter f (ensure_root f.path e'.stack) (sink_of e'))

unfoldable pub note_unreadable : EmptyFolderScan → Text → EmptyFolderScan
unfolding pop_to mark_top
note_unreadable e p = let e' = pop_to e p in with_stack e' (mark_top e'.stack (sink_of e'))

-- The candidates that `finish` confirms, before the bound of `top`.
unfoldable pub candidates_at_end : EmptyFolderScan → List DirEnt × ℕ
unfolding pop_all
candidates_at_end e = let e' = pop_all e in sink_of e'
