-- ===== src/FilePath.antt =====
-- The functions of Go's `path/filepath` (Unix) and `strings.Split` that the program calls.
pub mod Laws
use mathlib.Core.List.{foldl}
use duplicatefinder.Base.{
  ℕ, Bool, true, false, not, ◌&&◌, ◌||◌, List, [], ◌∷◌, ◌++◌, reverse, ◌==◌, if◌then◌else◌, any,
  is_nil, Text, codes, text_eq,
}

abbrev pub slash : ℕ
slash = b'/'

abbrev pub is_slash : ℕ → Bool
is_slash c = c == slash

pub onto_head : ℕ → List Text → List Text
onto_head c [] = (c ∷ []) ∷ []
onto_head c (s ∷ ss) = (c ∷ s) ∷ ss

-- `strings.Split(s, "/")`.
pub split_slash : Text → List Text
split_slash [] = [] ∷ []
split_slash (c ∷ s) = let rest = split_slash s in if is_slash c then [] ∷ rest else onto_head c rest

-- `strings.Join(segs, "/")`.
pub join_slash : List Text → Text
join_slash [] = []
join_slash (s ∷ []) = s
join_slash (s ∷ t ∷ ts) = s ++ slash ∷ join_slash (t ∷ ts)

abbrev pub dot : Text
dot = codes "."

abbrev pub dot_dot : Text
dot_dot = codes ".."

-- What a `..` does to the components kept so far, the last one first.
pub step_up : Bool → List Text → List Text
step_up rooted [] = if rooted then [] else dot_dot ∷ []
step_up rooted (top ∷ rest) = if text_eq top dot_dot then dot_dot ∷ top ∷ rest else rest

pub clean_step : Bool → List Text → Text → List Text
unfolding step_up
clean_step rooted out seg =
    if is_nil seg || text_eq seg dot
    then out
    else if text_eq seg dot_dot
    then step_up rooted out
    else seg ∷ out

pub is_abs : Text → Bool
is_abs [] = false
is_abs (c ∷ s) = is_slash c

pub clean_segs : Text → List Text
unfolding clean_step split_slash is_abs onto_head
clean_segs s = reverse (foldl (clean_step (is_abs s)) [] (split_slash s))

pub rooted_text : Bool → Text → Text
rooted_text true body = slash ∷ body
rooted_text false body = if is_nil body then dot else body

-- `filepath.Clean`.
unfoldable pub clean : Text → Text
unfolding clean_segs rooted_text join_slash
clean s = rooted_text (is_abs s) (join_slash (clean_segs s))

-- `filepath.Join` of two elements: empty ones are left out.
unfoldable pub join : Text → Text → Text
unfolding clean
join [] [] = []
join [] (c ∷ n) = clean (c ∷ n)
join (c ∷ d) n = clean ((c ∷ d) ++ slash ∷ n)

abbrev pub has_slash : Text → Bool
has_slash = any is_slash

-- The text up to its last slash, the slash included; nothing without one.
pub through_last : Text → Text
through_last [] = []
through_last (c ∷ s) = let rest = through_last s in if has_slash (c ∷ s) then c ∷ rest else []

-- The text behind its last slash.
pub after_last : Text → Text
after_last [] = []
after_last (c ∷ s) =
    let rest = after_last s in if has_slash s then rest else if is_slash c then s else c ∷ s

-- `strings.TrimRight(s, "/")`.
unfoldable pub trim_slashes : Text → Text
trim_slashes [] = []
trim_slashes (c ∷ s) =
    let rest = trim_slashes s in if is_slash c && is_nil rest then [] else c ∷ rest

-- `filepath.Dir`.
unfoldable pub dir : Text → Text
unfolding clean through_last
dir p = clean (through_last p)

pub base_of_trimmed : Text → Text
unfolding after_last
base_of_trimmed [] = slash ∷ []
base_of_trimmed (c ∷ s) = after_last (c ∷ s)

-- `filepath.Base`.
unfoldable pub base : Text → Text
unfolding base_of_trimmed trim_slashes
base [] = dot
base (c ∷ s) = base_of_trimmed (trim_slashes (c ∷ s))

abbrev is_dot : ℕ → Bool
is_dot c = c == b'.'

-- The text from its last dot on.
pub from_last_dot : Text → Text
from_last_dot [] = []
from_last_dot (c ∷ s) =
    let rest = from_last_dot s in if any is_dot s then rest else if is_dot c then c ∷ s else []

-- `filepath.Ext`.
unfoldable pub ext : Text → Text
unfolding from_last_dot after_last
ext p = from_last_dot (after_last p)

-- A name that can stand as a path component.
abbrev pub is_proper : Text → Bool
is_proper n = not (is_nil n) && not (has_slash n) && not (text_eq n dot) && not (text_eq n dot_dot)
