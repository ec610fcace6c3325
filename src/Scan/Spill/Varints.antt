-- ===== src/Scan/Spill/Varints.antt =====
-- The integers of the enumeration log of server/stream.go are read back as they were written.
use duplicatefinder.Base.{
  ltb→lt, ◌^◌, ap, [], ◌≤◌, ◌∙◌, ◌∷◌, inr, inl, ltb, Bool-cases, arith, zero, ◌/◌, ◌≡◌, ◌*◌, ◌%◌,
  ◌++◌, ◌+◌, ◌<◌, suc, ℕ, Text,
}
use duplicatefinder.Scan.Spill.{
  put_varint, read_varint, put_uvarint_from, read_uvarint_from, put_uvarint, read_uvarint, ok,
  zigzag, unzigzag,
}

-- What `suc k` bytes can hold, if the last one is at most 1.
capacity : ℕ → ℕ
capacity zero = 2
capacity (suc k) = 128 * capacity k

regroup : (q m unit acc : ℕ) → acc + m * unit + q * (unit * 128) ≡ acc + (q * 128 + m) * unit
regroup q m unit acc = grind arith

scaled :
    (x unit acc : ℕ) → acc + (x % 128 + 0x80) % 128 * unit + x / 128 * (unit * 128) ≡ acc + x * unit
scaled x unit acc =
    let low : (x % 128 + 0x80) % 128 ≡ x % 128 = omega arith in
    let whole : x / 128 * 128 + x % 128 ≡ x = omega arith in
    rw low (regroup (x / 128) (x % 128) unit acc ∙ ap (λ y. acc + y * unit) whole)

read_one :
    (k x unit acc : ℕ) (s : Text)
    → x < 0x80
    → x < capacity k
    → read_uvarint_from (suc k) unit acc (x ∷ s) ≡ ok (acc + x * unit, s)
unfolding read_uvarint_from capacity
read_one zero x unit acc s small h = ground arith
read_one (suc k) x unit acc s small h = ground arith

read_more :
    (k b unit acc : ℕ) (s : Text)
    → 0x80 ≤ b
    → read_uvarint_from (suc k) unit acc (b ∷ s)
      ≡ read_uvarint_from k (unit * 128) (acc + b % 128 * unit) s
unfolding read_uvarint_from
read_more k b unit acc s h = ground arith

put_one : (k x : ℕ) → x < 0x80 → put_uvarint_from (suc k) x ≡ x ∷ []
unfolding put_uvarint_from
put_one k x h = ground arith

put_more :
    (k x : ℕ)
    → 0x80 ≤ x
    → put_uvarint_from (suc k) x ≡ (x % 128 + 0x80) ∷ put_uvarint_from k (x / 128)
unfolding put_uvarint_from
put_more k x h = ground arith

read_uvarint_from-put_uvarint_from :
    (k x unit acc : ℕ) (s : Text)
    → x < capacity k
    → read_uvarint_from (suc k) unit acc (put_uvarint_from (suc k) x ++ s) ≡ ok (acc + x * unit, s)
unfolding capacity
read_uvarint_from-put_uvarint_from zero x unit acc s h =
    let lt : x < 0x80 = omega (arith, h) in rw (put_one zero x lt) (read_one zero x unit acc s lt h)
read_uvarint_from-put_uvarint_from (suc k) x unit acc s h = elim (Bool-cases (ltb x 0x80)) [
  | inl small ↦
      let lt = ltb→lt x 0x80 small in rw (put_one (suc k) x lt) (read_one (suc k) x unit acc s lt h)
  | inr large ↦
      let le : 0x80 ≤ x = ground (arith, large) in
      rw (put_more (suc k) x le) (
        read_more (suc k) (x % 128 + 0x80) unit acc (put_uvarint_from (suc k) (x / 128) ++ s)
          (omega arith)
        ∙ read_uvarint_from-put_uvarint_from k (x / 128) (unit * 128)
            (acc + (x % 128 + 0x80) % 128 * unit) s (omega (arith, h))
        ∙ ap (λ y. ok (y, s)) (scaled x unit acc))
]

pub read_uvarint-put_uvarint :
    (x : ℕ) (s : Text) → x < 2 ^ 64 → read_uvarint (put_uvarint x ++ s) ≡ ok (x, s)
unfolding capacity
read_uvarint-put_uvarint x s h =
    read_uvarint_from-put_uvarint_from 9 x 1 0 s h ∙ ap (λ y. ok (y, s)) (omega arith)

pub unzigzag-zigzag : (x : ℕ) → x < 2 ^ 64 → unzigzag (zigzag x) ≡ x
unzigzag-zigzag x h = ground (arith, h)

pub zigzag-lt : (x : ℕ) → zigzag x < 2 ^ 64
zigzag-lt x = ground arith

pub read_varint-put_varint :
    (x : ℕ) (s : Text) → x < 2 ^ 64 → read_varint (put_varint x ++ s) ≡ ok (x, s)
read_varint-put_varint x s h =
    rw (read_uvarint-put_uvarint (zigzag x) s (zigzag-lt x))
      (ap (λ y. ok (y, s)) (unzigzag-zigzag x h))
