-- ===== src/Corrupt/Difference.antt =====
-- `CompareContent` and `DiffShape` of server/internal/media/verify.go. The files are their bytes;
-- `FmtBytes`, which rounds in floating point, is an argument.
use duplicatefinder.Base.{
  zero, ◌/◌, ◌&&◌, codes, ◌%◌, ◌==◌, leb, ◌+◌, false, some, [], ◌++◌, ◌∷◌, true, suc, none,
  if◌then◌else◌, not, itoa, Option, Text, ℕ, List, Bool,
}

pub data DiffKind : Type 0 where
  zeros : DiffKind
  tail : DiffKind
  bitflip : DiffKind
  mixed : DiffKind

-- `ZeroSide`: 0, 1 or -1.
pub data ZeroSide : Type 0 where
  first_side : ZeroSide
  second_side : ZeroSide
  neither : ZeroSide

pub record DiffShape : Type 0 where
  pub kind : DiffKind
  pub zero_side : ZeroSide
  pub first_at : ℕ
  pub bytes : ℕ
  pub bits_set : ℕ

-- The variables of the loop; `FirstAt` is -1, here `none`, until a byte differs.
pub record Tally : Type 0 where
  pub first_at : Option ℕ
  pub last_diff : ℕ
  pub bytes : ℕ
  pub bits_set : ℕ
  pub a_all_zero : Bool
  pub b_all_zero : Bool

abbrev pub differ_bit : ℕ → ℕ → ℕ
differ_bit x y = if x % 2 == y % 2 then 0 else 1

-- `bits.OnesCount8(x ^ y)`, bit by bit.
abbrev pub ones_count : ℕ → ℕ → ℕ → ℕ
ones_count zero x y = 0
ones_count (suc n) x y = differ_bit x y + ones_count n (x / 2) (y / 2)

abbrev pub or_else : {A : Type 0} → Option A → A → Option A
or_else none a = some a
or_else (some b) a = some b

unfoldable pub tally_byte : ℕ → ℕ → ℕ → Tally → Tally
tally_byte off x y t = if x == y then t else record {
  first_at = or_else t.first_at off;
  last_diff = off;
  bytes = suc t.bytes;
  bits_set = if leb (suc t.bytes) 64 then t.bits_set + ones_count 8 x y else t.bits_set;
  a_all_zero = t.a_all_zero && x == 0;
  b_all_zero = t.b_all_zero && y == 0;
}

abbrev pub bool_eq : Bool → Bool → Bool
bool_eq true b = b
bool_eq false b = not b

-- The loop over both files, up to the end of the shorter.
unfoldable pub tally_from : ℕ → Tally → List ℕ → List ℕ → Tally
unfolding tally_byte
tally_from off t [] bs = t
tally_from off t (x ∷ xs) [] = t
tally_from off t (x ∷ xs) (y ∷ ys) = tally_from (suc off) (tally_byte off x y t) xs ys

abbrev pub no_tally : Tally
no_tally = record {
  first_at = none;
  last_diff = 0;
  bytes = 0;
  bits_set = 0;
  a_all_zero = true;
  b_all_zero = true;
}

abbrev pub min_zero_bytes : ℕ
min_zero_bytes = 512

unfoldable pub kind_of : Tally → ℕ → DiffKind
kind_of t size =
    if leb t.bytes 8 && leb t.bits_set 2
    then bitflip
    else if not (bool_eq t.a_all_zero t.b_all_zero) && leb min_zero_bytes t.bytes
    then (if suc t.last_diff == size then tail else zeros)
    else mixed

abbrev pub zero_side_of : DiffKind → Tally → ZeroSide
zero_side_of zeros t = if t.a_all_zero then first_side else second_side
zero_side_of tail t = if t.a_all_zero then first_side else second_side
zero_side_of bitflip t = neither
zero_side_of mixed t = neither

abbrev pub first_or_zero : Option ℕ → ℕ
first_or_zero none = 0
first_or_zero (some at) = at

-- Where a byte differs, `FirstAt` is set.
unfoldable pub classify : Tally → ℕ → Option DiffShape
unfolding kind_of
classify t size =
    if t.bytes == 0
    then none
    else some (record {
      kind = kind_of t size;
      zero_side = zero_side_of (kind_of t size) t;
      first_at = first_or_zero t.first_at;
      bytes = t.bytes;
      bits_set = t.bits_set;
    })

-- `none` where the files do not differ.
unfoldable pub compare_content : List ℕ → List ℕ → ℕ → Option DiffShape
unfolding tally_from classify
compare_content a b size = classify (tally_from 0 no_tally a b) size

abbrev pub side_eq : ZeroSide → ZeroSide → Bool
side_eq first_side first_side = true
side_eq second_side second_side = true
side_eq neither neither = true
side_eq _ _ = false

module _ (fmt_bytes : ℕ → Text) where
  abbrev pub zeros_note : ZeroSide → ZeroSide → Text → Text
  zeros_note side zero_side where_text =
      if side_eq side zero_side
      then codes "holds "
        ++ where_text
        ++ codes " where the other copy holds data — an interrupted copy or lost blocks"
      else codes "holds data where the other copy holds " ++ where_text

  unfoldable pub describe : DiffShape → ZeroSide → Text
  unfolding itoa
  describe d side = elim d.kind [
    | bitflip ↦
        itoa d.bits_set
        ++ (if d.bits_set == 1 then codes " bit" else codes " bits")
        ++ codes " differ at offset "
        ++ itoa d.first_at
        ++ codes " — the signature of bit rot or faulty memory"
    | zeros ↦
        zeros_note side d.zero_side
          (fmt_bytes d.bytes ++ codes " of zeros at offset " ++ itoa d.first_at)
    | tail ↦ zeros_note side d.zero_side (
        fmt_bytes d.bytes
        ++ codes " of zeros from offset "
        ++ itoa d.first_at
        ++ codes " to the end of the file")
    | mixed ↦
        fmt_bytes d.bytes
        ++ codes " of content differs from the other copy, starting at offset "
        ++ itoa d.first_at
  ]
