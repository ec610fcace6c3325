-- ===== src/HashCache/File/RoundTrip.antt =====
-- The file of the hash store of server/hashcache.go is read back as it was saved.
use mathlib.Core.List.{append-nil, append_assoc}
use duplicatefinder.Base.{
  ◌%◌, ◌+◌, text_eq, some, ltb, true, ◌≤◌, Bool, drop, length-append, All, [], false, ◌==◌, any,
  sym, ◌∷◌, take-length-append, ◌∙◌, List, refl, drop-length-append, ◌/◌, zero, arith, ap, ◌++◌,
  ◌^◌, ◌*◌, length, ◌<◌, suc, ◌≡◌, ℕ, Text,
}
use duplicatefinder.Scan.Windows.{little_endian}
use duplicatefinder.HashCache.{load_hash_cache, HashCache, HcEnt, CacheLimits, put, trim_locked}
use duplicatefinder.HashCache.File.{
  rounds, hash_cache_magic, saved_ents, load_bytes, save_trim, put_ent, put_ents, read_ent,
  read_ents, from_le,
}

length-little_endian : (n x : ℕ) → length (little_endian n x) ≡ n
unfolding little_endian
length-little_endian zero x = refl
length-little_endian (suc n) x = ap suc (length-little_endian n (x / 256))

width : ℕ → ℕ
width zero = 1
width (suc n) = 256 * width n

from_le-little_endian : (n x : ℕ) → x < width n → from_le (little_endian n x) ≡ x
unfolding little_endian from_le width
from_le-little_endian zero x h = omega (arith, h)
from_le-little_endian (suc n) x h =
    omega (arith, from_le-little_endian n (x / 256) (omega (arith, h)))

-- An entry whose fields have the widths of the file.
pub record IsEnt (ke : ℕ × HcEnt) : Type 0 where
  pub key_width : ke.0 < 2 ^ 64
  pub size_width : ke.1.size < 2 ^ 64
  pub mod_width : ke.1.mod_unix < 2 ^ 64
  pub tag_width : length ke.1.tag ≡ 16
  pub pfx_width : length ke.1.pfx ≡ 16
  pub hash_width : length ke.1.hash ≡ 32
  pub gen_width : ke.1.gen < 2 ^ 32

read_ent_parts :
    (u₀ u₁ u₂ u₃ u₄ u₅ u₆ t : Text)
    → 8 ≡ length u₀
    → 8 ≡ length u₁
    → 8 ≡ length u₂
    → 16 ≡ length u₃
    → 16 ≡ length u₄
    → 32 ≡ length u₅
    → 4 ≡ length u₆
    → read_ent (u₀ ++ (u₁ ++ (u₂ ++ (u₃ ++ (u₄ ++ (u₅ ++ (u₆ ++ t))))))) ≡ (
      from_le u₀,
      record {
        size = from_le u₁;
        mod_unix = from_le u₂;
        tag = u₃;
        pfx = u₄;
        hash = u₅;
        gen = from_le u₆;
      },
    )
unfolding read_ent
read_ent_parts u₀ u₁ u₂ u₃ u₄ u₅ u₆ t l₀ l₁ l₂ l₃ l₄ l₅ l₆ =
    rw
      (
        drop-length-append u₀ (u₁ ++ (u₂ ++ (u₃ ++ (u₄ ++ (u₅ ++ (u₆ ++ t)))))) 8 l₀,
        drop-length-append u₁ (u₂ ++ (u₃ ++ (u₄ ++ (u₅ ++ (u₆ ++ t))))) 8 l₁,
        drop-length-append u₂ (u₃ ++ (u₄ ++ (u₅ ++ (u₆ ++ t)))) 8 l₂,
        drop-length-append u₃ (u₄ ++ (u₅ ++ (u₆ ++ t))) 16 l₃,
        drop-length-append u₄ (u₅ ++ (u₆ ++ t)) 16 l₄,
        drop-length-append u₅ (u₆ ++ t) 32 l₅,
      )
      (rw
        (
          take-length-append u₀ (u₁ ++ (u₂ ++ (u₃ ++ (u₄ ++ (u₅ ++ (u₆ ++ t)))))) 8 l₀,
          take-length-append u₁ (u₂ ++ (u₃ ++ (u₄ ++ (u₅ ++ (u₆ ++ t))))) 8 l₁,
          take-length-append u₂ (u₃ ++ (u₄ ++ (u₅ ++ (u₆ ++ t)))) 8 l₂,
          take-length-append u₃ (u₄ ++ (u₅ ++ (u₆ ++ t))) 16 l₃,
          take-length-append u₄ (u₅ ++ (u₆ ++ t)) 16 l₄,
          take-length-append u₅ (u₆ ++ t) 32 l₅,
          take-length-append u₆ t 4 l₆,
        )
        refl)

put_ent_parts :
    (ke : ℕ × HcEnt) (t : Text)
    → put_ent ke ++ t
      ≡ little_endian 8 ke.0
        ++ (little_endian 8 ke.1.size
            ++ (little_endian 8 ke.1.mod_unix
                ++ (ke.1.tag ++ (ke.1.pfx ++ (ke.1.hash ++ (little_endian 4 ke.1.gen ++ t))))))
unfolding put_ent
put_ent_parts ke t = simp append_assoc

read_ent-put_ent : (ke : ℕ × HcEnt) (t : Text) → IsEnt ke → read_ent (put_ent ke ++ t) ≡ ke
unfolding width
read_ent-put_ent ke t w =
    ap read_ent (put_ent_parts ke t)
    ∙ read_ent_parts (little_endian 8 ke.0) (little_endian 8 ke.1.size)
        (little_endian 8 ke.1.mod_unix) ke.1.tag ke.1.pfx ke.1.hash (little_endian 4 ke.1.gen) t
        (sym (length-little_endian 8 ke.0)) (sym (length-little_endian 8 ke.1.size))
        (sym (length-little_endian 8 ke.1.mod_unix)) (sym w.tag_width) (sym w.pfx_width)
        (sym w.hash_width) (sym (length-little_endian 4 ke.1.gen))
    ∙ rw
        (
          from_le-little_endian 8 ke.0 w.key_width,
          from_le-little_endian 8 ke.1.size w.size_width,
          from_le-little_endian 8 ke.1.mod_unix w.mod_width,
          from_le-little_endian 4 ke.1.gen w.gen_width,
        )
        refl

length-put_ent : (ke : ℕ × HcEnt) → IsEnt ke → length (put_ent ke) ≡ 92
unfolding put_ent
length-put_ent ke w =
    let g = little_endian 4 ke.1.gen in
    omega (
      arith,
      length-append ke.1.tag (ke.1.pfx ++ (ke.1.hash ++ g)),
      length-append ke.1.pfx (ke.1.hash ++ g),
      length-append ke.1.hash g,
      w.tag_width,
      w.pfx_width,
      w.hash_width,
    )

-- No key stands twice, and none of them in `acc`.
abbrev pub has_key : ℕ → List (ℕ × HcEnt) → Bool
has_key k = any (λ a. a.0 == k)

abbrev pub AreFresh : List (ℕ × HcEnt) → List (ℕ × HcEnt) → Type 0
AreFresh acc [] = Unit
AreFresh acc (ke ∷ m) = (has_key ke.0 acc ≡ false) × AreFresh (acc ++ ke ∷ []) m

put_absent :
    (k : ℕ) (e : HcEnt) (acc : List (ℕ × HcEnt))
    → has_key k acc ≡ false
    → put k e acc ≡ acc ++ (k, e) ∷ []
put_absent k e [] h = refl
put_absent k e ((j, d) ∷ acc) h = ground (arith, h, put_absent k e acc)

not_short : (n : ℕ) → 92 ≤ n → ltb n 92 ≡ false
not_short n le = ground (arith, le)

read_ents_more :
    (k : ℕ) (s : Text) (acc : List (ℕ × HcEnt)) (ke : ℕ × HcEnt) (t : Text)
    → read_ent s ≡ ke
    → drop 92 s ≡ t
    → 92 ≤ length s
    → read_ents (suc k) s acc ≡ read_ents k t (put ke.0 ke.1 acc)
unfolding read_ents
read_ents_more k s acc ke t r d le = rw (not_short (length s) le) (
    ap (λ x. read_ents k x (put (read_ent s).0 (read_ent s).1 acc)) d
    ∙ ap (λ (x : ℕ × HcEnt). read_ents k t (put x.0 x.1 acc)) r)

read_ents-put_ents :
    (m acc : List (ℕ × HcEnt))
    → All IsEnt m
    → AreFresh acc m
    → read_ents (length m) (put_ents m) acc ≡ acc ++ m
unfolding put_ents read_ents
read_ents-put_ents [] acc w f = sym (append-nil acc)
read_ents-put_ents (ke ∷ m) acc (w, ws) (absent, f) =
    let len = length-put_ent ke w in
    read_ents_more (length m) (put_ent ke ++ put_ents m) acc ke (put_ents m)
      (read_ent-put_ent ke (put_ents m) w)
      (drop-length-append (put_ent ke) (put_ents m) 92 (sym len))
      (omega (arith, len, length-append (put_ent ke) (put_ents m)))
    ∙ ap (read_ents (length m) (put_ents m)) (put_absent ke.0 ke.1 acc absent)
    ∙ read_ents-put_ents m (acc ++ ke ∷ []) ws f
    ∙ append_assoc acc (ke ∷ []) m

saved_ents_same :
    (l : CacheLimits) (final : Bool) (m : List (ℕ × HcEnt))
    → length m ≤ l.max
    → saved_ents l final m ≡ m
unfolding trim_locked
saved_ents_same l true m h = ground (arith, h)
saved_ents_same l false m h = ground (arith, h)

long_enough : (n : ℕ) → 8 ≤ n → ltb (suc (suc (suc (suc (suc (suc (suc (suc n)))))))) 16 ≡ false
long_enough n h = ground (arith, h)

load_bytes_parts :
    (l : CacheLimits) (g n body : Text)
    → 4 ≡ length g
    → 4 ≡ length n
    → load_bytes l (hash_cache_magic ++ (g ++ (n ++ body))) ≡ record {
      gen = (from_le g + 1) % 2 ^ 32;
      ents = read_ents (rounds l (from_le n)) body [];
      dirty = false;
      changed = [];
    }
unfolding load_bytes text_eq
load_bytes_parts l g n body lg ln =
    let size : ltb (length (hash_cache_magic ++ (g ++ (n ++ body)))) 16 ≡ false =
      long_enough (length (g ++ (n ++ body)))
        (omega (arith, lg, ln, length-append g (n ++ body), length-append n body)) in
    let skip : drop 8 (g ++ (n ++ body)) ≡ body =
      ap (drop 8) (sym (append_assoc g n body))
      ∙ drop-length-append (g ++ n) body 8 (omega (arith, length-append g n, lg, ln)) in
    rw
      (
        size,
        skip,
        drop-length-append g (n ++ body) 4 lg,
        take-length-append g (n ++ body) 4 lg,
        take-length-append n body 4 ln,
      )
      refl

-- A store within its cap that is saved at any time is read back with all its entries, for the next
-- generation.
pub load_bytes-save_trim :
    (l : CacheLimits) (final : Bool) (c : HashCache)
    → c.dirty ≡ true
    → c.gen < 2 ^ 32
    → length c.ents ≤ l.max
    → length c.ents < 2 ^ 32
    → All IsEnt c.ents
    → AreFresh [] c.ents
    → (bytes : Text) × ((save_trim l final c).1 ≡ some bytes)
      × (load_bytes l bytes ≡ load_hash_cache c.gen c.ents)
unfolding save_trim width
load_bytes-save_trim l final c d g fits count w f =
    let same = saved_ents_same l final c.ents fits in
    let n = length c.ents % 2 ^ 32 in
    let n_eq : n ≡ length c.ents = omega (arith, count) in
    let rounds_eq : rounds l (length c.ents) ≡ length c.ents = ground (arith, fits) in
    (
      hash_cache_magic ++ (little_endian 4 c.gen ++ (little_endian 4 n ++ put_ents c.ents)),
      rw (d, same) refl,
      load_bytes_parts l (little_endian 4 c.gen) (little_endian 4 n) (put_ents c.ents)
            (sym (length-little_endian 4 c.gen)) (sym (length-little_endian 4 n))
          ∙ rw
              (
                from_le-little_endian 4 c.gen g,
                from_le-little_endian 4 n (omega (arith, n_eq, count)),
                n_eq,
                rounds_eq,
                read_ents-put_ents c.ents [] w f,
              )
              refl,
    )
