-- ===== src/Scan/Spill.antt =====
-- The enumeration log of server/stream.go: `spill.addRaw` and `spill.each`, with the variable-length
-- integers of encoding/binary. Writes do not fail, and the file is what was written to it.
pub mod Varints
pub mod Records
use duplicatefinder.Base.{
  ◌+◌, zero, drop, ◌&&◌, ◌/◌, take, ◌-◌, false, ◌*◌, ◌∷◌, suc, true, ◌^◌, ltb, ◌==◌, length, ◌%◌,
  List, [], ◌++◌, if◌then◌else◌, leb, ℕ, Bool, Text,
}
use duplicatefinder.Scan.Copies.{FileLink}

pub record SpillRec : Type 0 where
  pub root_idx : ℕ
  pub size : ℕ
  pub mod_unix : ℕ
  pub tag : ℕ
  pub rel : Text
  pub link : FileLink
  pub holes : ℕ

pub data SpillError : Type 0 where
  unexpected_eof overflow corrupt too_many : SpillError

pub data Result {ℓ} (A : Type ℓ) : Type ℓ where
  ok : A → Result A
  err : SpillError → Result A

infixl 5 ◌>>=◌
abbrev pub ◌>>=◌ {ℓ κ} : {A : Type ℓ} {B : Type κ} → Result A → (A → Result B) → Result B
ok a >>= f = f a
err e >>= f = err e

abbrev pub guard : Bool → SpillError → Result (Unit {0})
guard true e = ok tt
guard false e = err e

abbrev pub max_varint_len : ℕ
max_varint_len = 10

-- `binary.PutUvarint`; a number below 2 ^ 64 takes at most ten rounds.
unfoldable pub put_uvarint_from : ℕ → ℕ → Text
put_uvarint_from zero x = []
put_uvarint_from (suc k) x =
    let rest = put_uvarint_from k (x / 128) in
    if ltb x 0x80 then x ∷ [] else (x % 128 + 0x80) ∷ rest

abbrev pub put_uvarint : ℕ → Text
put_uvarint x = put_uvarint_from max_varint_len x

-- `binary.PutVarint` of a bit pattern: `uint64(x) << 1`, inverted if x is negative.
abbrev pub zigzag : ℕ → ℕ
zigzag x = if ltb x (2 ^ 63) then x * 2 % 2 ^ 64 else 2 ^ 64 - 1 - x * 2 % 2 ^ 64

abbrev pub put_varint : ℕ → Text
put_varint x = put_uvarint (zigzag x)

-- The rounds left of `binary.ReadUvarint`, with `x` read so far below `unit`.
unfoldable pub read_uvarint_from : ℕ → ℕ → ℕ → Text → Result (ℕ × Text)
read_uvarint_from zero unit x s = err overflow
read_uvarint_from (suc k) unit x [] = err unexpected_eof
read_uvarint_from (suc k) unit x (b ∷ s) =
    let rest = read_uvarint_from k (unit * 128) (x + b % 128 * unit) s in
    if ltb b 0x80 then if k == 0 && ltb 1 b then err overflow else ok (x + b * unit, s) else rest

abbrev pub read_uvarint : Text → Result (ℕ × Text)
read_uvarint s = read_uvarint_from max_varint_len 1 0 s

-- `int64(ux >> 1)`, inverted if the last bit is set.
abbrev pub unzigzag : ℕ → ℕ
unzigzag ux = if ux % 2 == 0 then ux / 2 else 2 ^ 64 - 1 - ux / 2

abbrev pub read_varint : Text → Result (ℕ × Text)
read_varint s = read_uvarint s >>= λ p. ok (unzigzag p.0, p.1)

-- `io.ReadFull` of `n` bytes.
abbrev pub read_full : ℕ → Text → Result (Text × Text)
read_full n s = if ltb (length s) n then err unexpected_eof else ok (take n s, drop n s)

abbrev pub spill_rel_max : ℕ
spill_rel_max = 2 ^ 16

-- The bytes that `addRaw` writes.
unfoldable pub put_rec : SpillRec → Text
put_rec r =
    put_uvarint r.root_idx
    ++ put_uvarint r.size
    ++ put_varint r.mod_unix
    ++ put_uvarint r.tag
    ++ put_uvarint r.link.n
    ++ put_uvarint r.link.dev
    ++ put_uvarint r.link.ino
    ++ put_uvarint r.holes
    ++ put_uvarint (length r.rel)
    ++ r.rel

pub record Spill : Type 0 where
  pub bytes : Text
  pub n : ℕ

-- `math.MaxInt` of a 64-bit build.
abbrev pub max_int : ℕ
max_int = 2 ^ 63 - 1

abbrev pub new_spill : Spill
new_spill = record { bytes = []; n = 0 }

unfoldable pub add_raw : Spill → SpillRec → Result Spill
add_raw s r =
    if s.n == max_int
    then err too_many
    else ok (record { bytes = s.bytes ++ put_rec r; n = suc s.n })

-- One round of the loop of `each`.
unfoldable pub read_rec : Text → Result (SpillRec × Text)
read_rec s₀ = do
  (root_idx, s₁) ← read_uvarint s₀
  (size, s₂) ← read_uvarint s₁
  (mod_unix, s₃) ← read_varint s₂
  (tag, s₄) ← read_uvarint s₃
  (nlink, s₅) ← read_uvarint s₄
  (dev, s₆) ← read_uvarint s₅
  (ino, s₇) ← read_uvarint s₆
  _ ← guard (leb nlink (2 ^ 32 - 1)) corrupt
  (holes, s₈) ← read_uvarint s₇
  _ ← guard (leb holes size) corrupt
  (rel_len, s₉) ← read_uvarint s₈
  _ ← guard (leb rel_len spill_rel_max && leb root_idx (2 ^ 31 - 1)) corrupt
  (rel, rest) ← read_full rel_len s₉
  ok (
    record {
      root_idx = root_idx;
      size = size;
      mod_unix = mod_unix;
      tag = tag;
      rel = rel;
      link = record { dev = dev; ino = ino; n = nlink };
      holes = holes;
    },
    rest,
  )

-- The records that `each` hands to its callback, unless one cannot be read.
unfoldable pub read_recs : ℕ → Text → Result (List SpillRec)
read_recs zero s = ok []
read_recs (suc k) s = do (r, rest) ← read_rec s; rs ← read_recs k rest; ok (r ∷ rs)

unfoldable pub each : Spill → Result (List SpillRec)
each s = read_recs s.n s.bytes

-- The calls of `addRaw` of a whole pass.
unfoldable pub add_all : Spill → List SpillRec → Result Spill
unfolding add_raw
add_all s [] = ok s
add_all s (r ∷ rs) = do u ← add_raw s r; add_all u rs
