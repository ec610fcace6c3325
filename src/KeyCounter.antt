-- ===== src/KeyCounter.antt =====
-- The candidate counter of server/stream.go: exact while few keys are known, then a table of
-- two-bit counters. Masks and shifts are written as remainders and quotients by powers of two.
pub mod Table
pub mod Complete
use Prim.Native.Nat.{ℕ, bit_xor}
use duplicatefinder.Base.{
  false, ◌&&◌, ◌+◌, length, ◌*◌, ltb, ◌^◌, leb, ◌==◌, Bool, [], if◌then◌else◌, ◌%◌, ◌-◌, ◌∷◌, ◌/◌,
  List, Text,
}

-- `keyCounterExactMax` and `keyCounterTabBits`, which the tests shrink.
pub record Limits : Type 0 where
  pub exact_max : ℕ
  pub tab_bits : ℕ

-- `k.exact`, in any order of its keys.
abbrev pub Counts : Type 0
Counts = List (ℕ × ℕ)

-- `exact == nil` is `table`; `released` has neither.
pub data Mode : Type 0 where
  exact : Counts → Mode
  table : (ℕ → ℕ) → ℕ → Mode
  released : Mode

pub record Counter : Type 0 where
  pub mode : Mode
  pub share : ℕ

abbrev pub release : Counter → Counter
release c = record c { mode = released }

unfoldable pub new_key_counter : ℕ → Counter
new_key_counter share = record { mode = exact []; share = share }

-- `k.exact[key]`; a missing key reads 0.
unfoldable pub count_of : ℕ → Counts → ℕ
count_of key [] = 0
count_of key ((k, c) ∷ counts) = let rest = count_of key counts in if k == key then c else rest

-- `k.exact[key] = c`.
unfoldable pub put_count : ℕ → ℕ → Counts → Counts
put_count key c [] = (key, c) ∷ []
put_count key c ((k, d) ∷ counts) =
    let rest = put_count key c counts in if k == key then (key, c) ∷ counts else (k, d) ∷ rest

abbrev pub u64 : ℕ → ℕ
u64 x = x % 2 ^ 64

-- `mix`: the finalizer of splitmix64.
pub mix : ℕ → ℕ
mix x =
    let a = bit_xor x (x / 2 ^ 33) in
    let b = u64 (a * 0xff51afd7ed558ccd) in
    let c = bit_xor b (b / 2 ^ 33) in let d = u64 (c * 0xc4ceb9fe1a85ec53) in bit_xor d (d / 2 ^ 33)

-- The two slots of a key; `bits` stands for the mask 2 ^ bits - 1.
abbrev pub slot_a : ℕ → ℕ → ℕ
slot_a bits key = key % 2 ^ bits

pub slot_b : ℕ → ℕ → ℕ
unfolding mix
slot_b bits key = mix key % 2 ^ bits

-- The two-bit field `i` of a byte, and the byte with that field set to `v`.
pub field : ℕ → ℕ → ℕ
field b i = b / 4 ^ i % 4

pub put_field : ℕ → ℕ → ℕ → ℕ
unfolding field
put_field b i v = b - field b i * 4 ^ i + v * 4 ^ i

pub get : (ℕ → ℕ) → ℕ → ℕ
unfolding field
get tab p = field (tab (p / 4)) (p % 4)

pub store : (ℕ → ℕ) → ℕ → ℕ → ℕ → ℕ
store tab j b i = if i == j then b else tab i

pub bump_at : (ℕ → ℕ) → ℕ → ℕ → ℕ
unfolding get put_field store
bump_at tab p =
    let v = get tab p in
    if ltb v 2 then store tab (p / 4) (put_field (tab (p / 4)) (p % 4) (v + 1)) else tab

pub bump : (ℕ → ℕ) → ℕ → ℕ → ℕ → ℕ
unfolding bump_at slot_b
bump tab bits key = bump_at (bump_at tab (slot_a bits key)) (slot_b bits key)

-- The loop of `degrade`.
pub replay : ℕ → Counts → (ℕ → ℕ) → ℕ → ℕ
unfolding bump
replay bits [] tab = tab
replay bits ((k, c) ∷ counts) tab =
    let once = bump tab bits k in replay bits counts (if leb 2 c then bump once bits k else once)

abbrev pub table_bits : Limits → ℕ → ℕ
table_bits l share = if ltb (share + 2) l.tab_bits then l.tab_bits - share else l.tab_bits

pub degrade : Limits → ℕ → Counts → Mode
unfolding replay
degrade l share counts = let bits = table_bits l share in table (replay bits counts (λ _. 0)) bits

abbrev pub exact_limit : Limits → ℕ → ℕ
exact_limit l share = let m = l.exact_max / 2 ^ share in if ltb m 1 then 1 else m

-- The count of a key in the map, one higher unless it is 2.
pub counted : ℕ → Counts → Counts
unfolding count_of put_count
counted key counts =
    let c = count_of key counts in if ltb c 2 then put_count key (c + 1) counts else counts

pub add_mode : Limits → ℕ → Mode → ℕ → Mode
unfolding counted degrade
add_mode l share (exact counts) key =
    let counts' = counted key counts in
    if ltb (exact_limit l share) (length counts') then degrade l share counts' else exact counts'
add_mode l share (table tab bits) key = table (bump tab bits key) bits
add_mode l share released key = released

unfoldable pub add : Limits → Counter → ℕ → Counter
unfolding add_mode
add l c key = record c { mode = add_mode l c.share c.mode key }

pub hot_mode : Mode → ℕ → Bool
unfolding count_of get slot_b
hot_mode (exact counts) key = leb 2 (count_of key counts)
hot_mode (table tab bits) key =
    leb 2 (get tab (slot_a bits key)) && leb 2 (get tab (slot_b bits key))
hot_mode released key = false

unfoldable pub hot : Counter → ℕ → Bool
unfolding hot_mode
hot c key = hot_mode c.mode key
