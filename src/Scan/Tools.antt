-- ===== src/Scan/Tools.antt =====
-- `scanOrder`, `toolList`, `openTool` and the tables of tools of server/handlers.go.
use duplicatefinder.Base.{
  sym, Option, or-eq_true_right, or-eq_true_left, ◌∙◌, refl, text_eq_refl, or-eq_true, arith,
  text_eq→eq, false, true, Bool-cases, Bool, ◌≡◌, inl, filter, inr, none, member, ◌&&◌, some, [],
  text_eq, ◌∷◌, is_nil, ◌++◌, not, find, map, if◌then◌else◌, ◌⊎◌, codes, List, Text,
}

abbrev pub scan_order : List Text
scan_order =
    codes "empty_folders"
    ∷ codes "empty_files"
    ∷ codes "temp_files"
    ∷ codes "duplicates"
    ∷ codes "corrupted_files"
    ∷ []

abbrev pub move_folder_names : List (Text × Text)
move_folder_names =
    (codes "duplicates", codes "Duplicates")
    ∷ (codes "empty_folders", codes "Empty Folders")
    ∷ (codes "empty_files", codes "Empty Files")
    ∷ (codes "temp_files", codes "Temporary Files")
    ∷ []

abbrev pub read_only_tools : List Text
read_only_tools = codes "corrupted_files" ∷ []

abbrev pub valid_tools : List Text
valid_tools = map (λ r. r.0) move_folder_names ++ read_only_tools

-- `Tool`, `Tools` of a `ScanReq`.
pub record ScanReq : Type 0 where
  pub tool : Text
  pub tools : List Text

pub data ToolsError : Type 0 where
  unknown_tool : Text → ToolsError
  no_tool : ToolsError

unfoldable pub asked : ScanReq → List Text
asked r = if is_nil r.tools && not (is_nil r.tool) then r.tool ∷ [] else r.tools

abbrev pub not_empty : List Text → List Text ⊎ ToolsError
not_empty [] = inr no_tool
not_empty (t ∷ ts) = inl (t ∷ ts)

abbrev pub unless_unknown : Option Text → List Text → List Text ⊎ ToolsError
unless_unknown (some t) out = inr (unknown_tool t)
unless_unknown none out = not_empty out

-- The tools in scan order, or the first unknown one.
unfoldable pub tool_list : ScanReq → List Text ⊎ ToolsError
unfolding asked
tool_list r =
    unless_unknown (find (λ t. not (member t valid_tools)) (asked r))
      (filter (λ t. member t (asked r)) scan_order)

abbrev pub first_of : Text → List Text → Text
first_of t [] = t
first_of t (u ∷ us) = u

abbrev pub found_or : Option Text → Text → Text
found_or (some t) d = t
found_or none d = d

unfoldable pub open_tool : ScanReq → List Text → Text
open_tool r tools = found_or (find (λ t. text_eq t r.tool) tools) (first_of r.tool tools)

find-none_of :
    (p : Text → Bool) (ts : List Text) (t : Text)
    → find p ts ≡ none
    → member t ts ≡ true
    → p t ≡ false
find-none_of p [] t e m = cc
find-none_of p (u ∷ ts) t e m = elim (or-eq_true (text_eq t u) (member t ts) m) [
  | inl here ↦ rw (text_eq→eq t u here) (ground arith)
  | inr later ↦ find-none_of p ts t (ground arith) later
]

valid-in_order : (t : Text) → member t valid_tools ≡ true → member t scan_order ≡ true
valid-in_order t h = ground (arith, h)

member-filter :
    (p : Text → Bool) (ts : List Text) (t : Text) → member t (filter p ts) ≡ (member t ts && p t)
member-filter p [] t = refl
member-filter p (u ∷ ts) t = elim (Bool-cases (text_eq t u)) [
  | inl e ↦
      let same = text_eq→eq t u e in
      rw (← same) (ground (arith, text_eq_refl t, member-filter p ts t))
  | inr e ↦ ground (arith, member-filter p ts t)
]

member-nonempty : (ts : List Text) (t : Text) → member t ts ≡ true → is_nil ts ≡ false
member-nonempty [] t m = cc
member-nonempty (u ∷ ts) t m = refl

in_order :
    (r : ScanReq) (t : Text)
    → find (λ u. not (member u valid_tools)) (asked r) ≡ none
    → member t (filter (λ u. member u (asked r)) scan_order) ≡ member t (asked r)
in_order r t e = elim (Bool-cases (member t (asked r))) [
  | inl m ↦
      let valid : member t valid_tools ≡ true =
        ground (arith, find-none_of (λ u. not (member u valid_tools)) (asked r) t e m) in
      member-filter (λ u. member u (asked r)) scan_order t ∙ rw (m, valid-in_order t valid) refl
  | inr m ↦ member-filter (λ u. member u (asked r)) scan_order t ∙ ground arith
]

find-member :
    (p : Text → Bool) (ts : List Text) (t : Text) → find p ts ≡ some t → member t ts ≡ true
find-member p [] t e = cc
find-member p (u ∷ ts) t e = elim (Bool-cases (p u)) [
  | inl here ↦
      let same : u ≡ t = ground arith in
      rw same (or-eq_true_left (text_eq t t) (member t ts) (text_eq_refl t))
  | inr later ↦ or-eq_true_right (text_eq t u) (member t ts) (find-member p ts t (ground arith))
]

found_or-listed :
    (o : Option Text) (t : Text) (ts : List Text)
    → ((u : Text) → o ≡ some u → member u ts ≡ true)
    → member t ts ≡ true
    → member (found_or o t) ts ≡ true
found_or-listed (some u) t ts f h = f u refl
found_or-listed none t ts f h = h

open_tool-listed :
    (r : ScanReq) (ts : List Text) → is_nil ts ≡ false → member (open_tool r ts) ts ≡ true
unfolding open_tool
open_tool-listed r [] h = cc
open_tool-listed r (u ∷ us) h =
    found_or-listed (find (λ t. text_eq t r.tool) (u ∷ us)) u (u ∷ us)
      (find-member (λ t. text_eq t r.tool) (u ∷ us))
      (or-eq_true_left (text_eq u u) (member u us) (text_eq_refl u))

-- A list that passes both tests.
accepted :
    (o : Option Text) (out ts : List Text)
    → unless_unknown o out ≡ inl ts
    → (o ≡ none) × (out ≡ ts) × (is_nil ts ≡ false)
accepted (some t) out ts e = cc
accepted none [] ts e = cc
accepted none (t ∷ out) ts e = let same : (t ∷ out) ≡ ts = cc in (refl, same, rw (← same) refl)

-- A request that passes runs exactly the tools that it asks for, in scan order, and the view that
-- opens at its end is one of them.
pub tool_list-asked :
    (r : ScanReq) (ts : List Text)
    → tool_list r ≡ inl ts
    → (ts ≡ filter (λ t. member t (asked r)) scan_order)
      × ((t : Text) → member t ts ≡ member t (asked r))
      × (member (open_tool r ts) ts ≡ true)
unfolding tool_list
tool_list-asked r ts e =
    let (known, same, some_tool) =
      accepted (find (λ t. not (member t valid_tools)) (asked r))
        (filter (λ t. member t (asked r)) scan_order) ts e in
    (sym same, λ t. rw (← same) (in_order r t known), open_tool-listed r ts some_tool)
