-- ===== src/Scan/Spill/Records.antt =====
-- The enumeration log of server/stream.go: `each` hands on what `addRaw` was given.
use mathlib.Core.Path.{subst}
use mathlib.Core.List.{append-nil, append_assoc}
use duplicatefinder.Base.{
  zero, suc, ◌+◌, [], ◌∷◌, leb→le, All, List, and-eq_true, ◌&&◌, length-take, false, and-intro,
  true, ◌∙◌, Bool, leb, refl, arith, drop-length-append, take-length-append, ap, length-append, ◌-◌,
  length, ◌^◌, ◌++◌, ℕ, ◌≤◌, ◌≡◌, ◌<◌, Text,
}
use duplicatefinder.Scan.Spill.{
  new_spill, max_int, add_raw, add_all, each, read_recs, put_varint, read_varint, corrupt, guard,
  SpillError, spill_rel_max, ◌>>=◌, put_rec, read_full, put_uvarint, read_uvarint, Result, ok, err,
  Spill, SpillRec, read_rec,
}
use duplicatefinder.Scan.Spill.Varints.{read_varint-put_varint, read_uvarint-put_uvarint}

-- What every record that is read lies in: the checks of `each`.
pub record IsSafe (r : SpillRec) : Type 0 where
  pub root_bound : r.root_idx ≤ 2 ^ 31 - 1
  pub link_bound : r.link.n ≤ 2 ^ 32 - 1
  pub holes_bound : r.holes ≤ r.size
  pub rel_bound : length r.rel ≤ spill_rel_max

-- A record whose numbers are 64 bits wide.
pub record IsRecord (r : SpillRec) : Type 0 where
  pub safe : IsSafe r
  pub size_width : r.size < 2 ^ 64
  pub mod_width : r.mod_unix < 2 ^ 64
  pub tag_width : r.tag < 2 ^ 64
  pub dev_width : r.link.dev < 2 ^ 64
  pub ino_width : r.link.ino < 2 ^ 64

-- One read of a number that stands next, and one check that passes.
read_next :
    {B : Type 0} (x : ℕ) (s : Text) (f : ℕ × Text → Result B) (z : Result B)
    → x < 2 ^ 64
    → f (x, s) ≡ z
    → (read_uvarint (put_uvarint x ++ s) >>= f) ≡ z
read_next x s f z h e = ap (λ r. r >>= f) (read_uvarint-put_uvarint x s h) ∙ e

read_next_signed :
    {B : Type 0} (x : ℕ) (s : Text) (f : ℕ × Text → Result B) (z : Result B)
    → x < 2 ^ 64
    → f (x, s) ≡ z
    → (read_varint (put_varint x ++ s) >>= f) ≡ z
read_next_signed x s f z h e = ap (λ r. r >>= f) (read_varint-put_varint x s h) ∙ e

guard_next :
    {B : Type 0} (b : Bool) (f : Unit {0} → Result B) (z : Result B) (e : SpillError)
    → b ≡ true
    → f tt ≡ z
    → (guard b e >>= f) ≡ z
guard_next b f z e h k = rw h k

le→leb : (a b : ℕ) → a ≤ b → leb a b ≡ true
le→leb a b h = ground arith

read_full-append : (u s : Text) → read_full (length u) (u ++ s) ≡ ok (u, s)
read_full-append u s =
    rw
      (
        length-append u s,
        take-length-append u s (length u) refl,
        drop-length-append u s (length u) refl,
      )
      (ground arith)

read_rec-put_rec :
    (r : SpillRec) (rest : Text) → IsRecord r → read_rec (put_rec r ++ rest) ≡ ok (r, rest)
unfolding read_rec put_rec
read_rec-put_rec r rest w = simp (append_assoc) (
    read_next r.root_idx _ _ _ (omega (arith, w.safe.root_bound)) (
      read_next r.size _ _ _ w.size_width (
        read_next_signed r.mod_unix _ _ _ w.mod_width (
          read_next r.tag _ _ _ w.tag_width (
            read_next r.link.n _ _ _ (omega (arith, w.safe.link_bound)) (
              read_next r.link.dev _ _ _ w.dev_width (
                read_next r.link.ino _ _ _ w.ino_width (
                  guard_next _ _ _ corrupt (le→leb r.link.n (2 ^ 32 - 1) w.safe.link_bound) (
                    read_next r.holes _ _ _ (omega (arith, w.safe.holes_bound, w.size_width)) (
                      guard_next _ _ _ corrupt (le→leb r.holes r.size w.safe.holes_bound) (
                        read_next (length r.rel) _ _ _ (omega (arith, w.safe.rel_bound)) (
                          guard_next _ _ _ corrupt
                            (and-intro _ _ (le→leb (length r.rel) spill_rel_max w.safe.rel_bound)
                              (le→leb r.root_idx (2 ^ 31 - 1) w.safe.root_bound))
                            (rw (read_full-append r.rel rest) refl)))))))))))))

-- Every result of `m` satisfies `P`.
record Ensures {A : Type 0} (P : A → Type 0) (m : Result A) : Type 0 where
  apply : (a : A) → m ≡ ok a → P a

>>=-Ensures :
    {A B : Type 0} (P : B → Type 0) (m : Result A) (f : A → Result B)
    → ((a : A) → m ≡ ok a → Ensures P (f a))
    → Ensures P (m >>= f)
>>=-Ensures P (ok a) f h = h a refl
>>=-Ensures P (err e) f h = record { apply = λ b q. absurd (ground (arith, q)) }

ok-Ensures : {A : Type 0} (P : A → Type 0) (a : A) → P a → Ensures P (ok a)
ok-Ensures P a p = record { apply = λ b q. subst P (ground (arith, q)) p }

guard_ok : (b : Bool) (e : SpillError) (u : Unit {0}) → guard b e ≡ ok u → b ≡ true
guard_ok true e u h = refl
guard_ok false e u h = cc

read_full-length : (n : ℕ) (s u t : Text) → read_full n s ≡ ok (u, t) → length u ≡ n
read_full-length n s u t h = ground (arith, h, length-take n s)

-- Whatever stands in the file, a record that is handed on passed the checks.
abbrev ReadsSafe : SpillRec × Text → Type 0
ReadsSafe p = IsSafe p.0

read_rec-ReadsSafe : (s : Text) → Ensures ReadsSafe (read_rec s)
unfolding read_rec
read_rec-ReadsSafe s = >>=-Ensures ReadsSafe (read_uvarint s) _ (λ root _.
    >>=-Ensures ReadsSafe (read_uvarint root.1) _ (λ size _.
      >>=-Ensures ReadsSafe (read_varint size.1) _ (λ mod_unix _.
        >>=-Ensures ReadsSafe (read_uvarint mod_unix.1) _ (λ tag _.
          >>=-Ensures ReadsSafe (read_uvarint tag.1) _ (λ nlink _.
            >>=-Ensures ReadsSafe (read_uvarint nlink.1) _ (λ dev _.
              >>=-Ensures ReadsSafe (read_uvarint dev.1) _ (λ ino _.
                >>=-Ensures ReadsSafe (guard (leb nlink.0 (2 ^ 32 - 1)) corrupt) _ (λ u₁ links.
                  >>=-Ensures ReadsSafe (read_uvarint ino.1) _ (λ holes _.
                    >>=-Ensures ReadsSafe (guard (leb holes.0 size.0) corrupt) _ (λ u₂ held.
                      >>=-Ensures ReadsSafe (read_uvarint holes.1) _ (λ rel_len _.
                        >>=-Ensures ReadsSafe
                          (guard (leb rel_len.0 spill_rel_max && leb root.0 (2 ^ 31 - 1)) corrupt) _
                          (λ u₃ lens.
                            >>=-Ensures ReadsSafe (read_full rel_len.0 rel_len.1) _ (λ rel full.
                              ok-Ensures ReadsSafe _ (
                                let (short, root_ok) =
                                  and-eq_true (leb rel_len.0 spill_rel_max)
                                    (leb root.0 (2 ^ 31 - 1)) (guard_ok _ corrupt u₃ lens) in
                                record {
                                  root_bound = leb→le root.0 (2 ^ 31 - 1) root_ok;
                                  link_bound =
                                      leb→le nlink.0 (2 ^ 32 - 1) (guard_ok _ corrupt u₁ links);
                                  holes_bound = leb→le holes.0 size.0 (guard_ok _ corrupt u₂ held);
                                  rel_bound = omega (
                                    arith,
                                    leb→le rel_len.0 spill_rel_max short,
                                    read_full-length rel_len.0 rel_len.1 rel.0 rel.1 full,
                                  );
                                }))))))))))))))

read_recs-IsSafe : (k : ℕ) (s : Text) → Ensures (All IsSafe) (read_recs k s)
unfolding read_recs
read_recs-IsSafe zero s = ok-Ensures (All IsSafe) [] tt
read_recs-IsSafe (suc k) s = >>=-Ensures (All IsSafe) (read_rec s) _ (λ p e.
    >>=-Ensures (All IsSafe) (read_recs k p.1) _ (λ rs f.
      ok-Ensures (All IsSafe) (p.0 ∷ rs)
        ((read_rec-ReadsSafe s).apply p e, (read_recs-IsSafe k p.1).apply rs f)))

-- Whatever the file holds, every record that a pass hands on has a root index, a link count, holes
-- and a path within their bounds.
pub each-IsSafe : (s : Spill) (rs : List SpillRec) → each s ≡ ok rs → All IsSafe rs
unfolding each
each-IsSafe s rs h = (read_recs-IsSafe s.n s.bytes).apply rs h

abbrev put_recs : List SpillRec → Text
put_recs [] = []
put_recs (r ∷ rs) = put_rec r ++ put_recs rs

read_recs-put_recs :
    (rs : List SpillRec) → All IsRecord rs → read_recs (length rs) (put_recs rs) ≡ ok rs
unfolding read_recs
read_recs-put_recs [] w = refl
read_recs-put_recs (r ∷ rs) (w, ws) =
    rw (read_rec-put_rec r (put_recs rs) w) (rw (read_recs-put_recs rs ws) refl)

add_raw_lem :
    (s : Spill) (r : SpillRec)
    → s.n < max_int
    → add_raw s r ≡ ok (record { bytes = s.bytes ++ put_rec r; n = suc s.n })
unfolding add_raw
add_raw_lem s r h = ground (arith, h)

-- The log after the records: their bytes one after another, and their number.
add_all_lem :
    (rs : List SpillRec) (s : Spill)
    → s.n + length rs ≤ max_int
    → add_all s rs ≡ ok (record { bytes = s.bytes ++ put_recs rs; n = s.n + length rs })
unfolding add_all
add_all_lem [] s h = let e : s.n + 0 ≡ s.n = omega arith in rw (append-nil s.bytes, e) refl
add_all_lem (r ∷ rs) s h =
    let u : Spill = record { bytes = s.bytes ++ put_rec r; n = suc s.n } in
    let n_eq : suc s.n + length rs ≡ s.n + suc (length rs) = omega arith in
    ap (λ m. m >>= λ v. add_all v rs) (add_raw_lem s r (omega (arith, h)))
    ∙ add_all_lem rs u (omega (arith, h))
    ∙ rw (n_eq, append_assoc s.bytes (put_rec r) (put_recs rs)) refl

-- A log that the records of a pass were added to hands on those records in their order.
pub each-add_all :
    (rs : List SpillRec)
    → All IsRecord rs
    → length rs ≤ max_int
    → (add_all new_spill rs >>= each) ≡ ok rs
unfolding each
each-add_all rs w h =
    let e : 0 + length rs ≡ length rs = omega arith in
    rw (add_all_lem rs new_spill (omega (arith, h))) (rw e (read_recs-put_recs rs w))
