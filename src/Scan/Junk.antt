-- ===== src/Scan/Junk.antt =====
-- `junkInfo` of server/scan.go and `isTempName` of server/tempfiles.go.
use Prim.Native.Nat.{min}
use duplicatefinder.Base.{
  length-append, arith, ◌≡◌, has_prefix, has_suffix, length, any, ◌||◌, leb, ltb, if◌then◌else◌,
  member, ◌++◌, codes, to_lower, ◌∷◌, add64, [], Bool, ◌+◌, ℕ, List, Text,
}

pub record JunkInfo : Type 0 where
  pub n : ℕ
  pub bytes : ℕ
  pub ex : List Text

abbrev pub junk_examples : ℕ
junk_examples = 3

abbrev pub no_junk : JunkInfo
no_junk = record { n = 0; bytes = 0; ex = [] }

unfoldable pub add_junk : JunkInfo → Text → ℕ → JunkInfo
add_junk j name size = record {
  n = j.n + 1;
  bytes = add64 j.bytes size;
  ex = if ltb (length j.ex) junk_examples then j.ex ++ name ∷ [] else j.ex;
}

-- The loop of `merge`.
unfoldable pub merge_ex : List Text → List Text → List Text
merge_ex ex [] = ex
merge_ex ex (name ∷ names) =
    let rest = merge_ex (ex ++ name ∷ []) names in
    if leb junk_examples (length ex) then ex else rest

unfoldable pub merge_junk : JunkInfo → JunkInfo → JunkInfo
unfolding merge_ex
merge_junk j c = record { n = j.n + c.n; bytes = add64 j.bytes c.bytes; ex = merge_ex j.ex c.ex }

abbrev pub temp_exact : List Text
temp_exact =
    codes "thumbs.db"
    ∷ codes ".ds_store"
    ∷ codes "desktop.ini"
    ∷ codes "ehthumbs.db"
    ∷ codes ".apdisk"
    ∷ codes "npm-debug.log"
    ∷ []

abbrev pub temp_suffix : List Text
temp_suffix =
    codes ".tmp" ∷ codes ".temp" ∷ codes ".crdownload" ∷ codes ".part" ∷ codes ".partial" ∷ []

abbrev pub temp_prefix : List Text
temp_prefix = codes "~$" ∷ codes ".~lock." ∷ codes "._" ∷ []

unfoldable pub is_temp_name : Text → Bool
is_temp_name name =
    let l = to_lower name in
    member l temp_exact
    || any (λ suf. has_suffix suf l) temp_suffix
    || any (λ pre. has_prefix pre l) temp_prefix

-- Between them, the names listed are all there are, or three.
abbrev pub IsJunk : JunkInfo → Type 0
IsJunk j = length j.ex ≡ min 3 j.n

length-merge_ex :
    (ex names : List Text)
    → length (merge_ex ex names)
      ≡ (if leb 3 (length ex) then length ex else min 3 (length ex + length names))
unfolding merge_ex
length-merge_ex ex [] = ground arith
length-merge_ex ex (name ∷ names) =
    ground (arith, length-merge_ex (ex ++ name ∷ []) names, length-append ex (name ∷ []))

-- Counting a file and folding in a child folder keep the report honest: it lists as many example
-- names as there are junk files, and three when there are more.
pub add_junk-merge_junk-IsJunk :
    (j c : JunkInfo) (name : Text) (size : ℕ)
    → IsJunk j
    → IsJunk c
    → IsJunk (add_junk j name size) × IsJunk (merge_junk j c)
unfolding add_junk merge_junk
add_junk-merge_junk-IsJunk j c name size h k = (
  ground (arith, h, length-append j.ex (name ∷ [])),
  ground (arith, h, k, length-merge_ex j.ex c.ex),
)
