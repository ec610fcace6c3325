-- ===== src/KeyCounter/Complete.antt =====
-- `keyCounter` of server/stream.go after a sequence of added keys. `add` is never called behind
-- `release`, where Go would stop at the missing table.
use mathlib.Core.Path.{subst}
use duplicatefinder.KeyCounter.Table.{get-bump_at_self, get-bump_at_mono}
use Prim.Native.Nat.{ℕ, min}
use duplicatefinder.Base.{
  refl, true, length, ==_iff, ltb, ◌==◌, ◌≡◌, List, [], ◌∷◌, inr, inl, leb, ◌≤◌, ◌+◌, arith,
  Bool-cases, if◌then◌else◌,
}
use duplicatefinder.KeyCounter.{
  hot, hot_mode, table, released, add, exact_limit, new_key_counter, table_bits, table, Counter,
  exact, Mode, degrade, Limits, add_mode, counted, put_count, bump_at, slot_b, slot_a, count_of,
  Counts, replay, bump, get,
}

-- Both slots of `key` stand at `n` or more.
abbrev Stands : (ℕ → ℕ) → ℕ → ℕ → ℕ → Type 0
Stands tab bits key n = (n ≤ get tab (slot_a bits key)) × (n ≤ get tab (slot_b bits key))

bump_mono : (tab : ℕ → ℕ) (bits k r : ℕ) → get tab r ≤ get (bump tab bits k) r
unfolding bump
bump_mono tab bits k r = omega (
  arith,
  get-bump_at_mono tab (slot_a bits k) r,
  get-bump_at_mono (bump_at tab (slot_a bits k)) (slot_b bits k) r,
)

bump_keeps :
    (tab : ℕ → ℕ) (bits k key n : ℕ) → Stands tab bits key n → Stands (bump tab bits k) bits key n
bump_keeps tab bits k key n h = (
  omega (arith, bump_mono tab bits k (slot_a bits key)),
  omega (arith, bump_mono tab bits k (slot_b bits key)),
)

bump_raises :
    (tab : ℕ → ℕ) (bits key n : ℕ)
    → Stands tab bits key n
    → Stands (bump tab bits key) bits key (min 2 (n + 1))
unfolding bump
bump_raises tab bits key n h =
    let a = slot_a bits key in
    let b = slot_b bits key in
    (
      omega (arith, get-bump_at_self tab a, get-bump_at_mono (bump_at tab a) b a),
      omega (arith, get-bump_at_self (bump_at tab a) b, get-bump_at_mono tab a b),
    )

-- What one entry of the map does to the table.
abbrev replay_entry : ℕ → ℕ → ℕ → (ℕ → ℕ) → ℕ → ℕ
replay_entry bits k c tab = if leb 2 c then bump (bump tab bits k) bits k else bump tab bits k

entry_keeps :
    (tab : ℕ → ℕ) (bits k c key n : ℕ)
    → Stands tab bits key n
    → Stands (replay_entry bits k c tab) bits key n
entry_keeps tab bits k c key n h = elim (Bool-cases (leb 2 c)) [
  | inl two ↦ rw two (bump_keeps (bump tab bits k) bits k key n (bump_keeps tab bits k key n h))
  | inr one ↦ rw one (bump_keeps tab bits k key n h)
]

entry_raises :
    (tab : ℕ → ℕ) (bits key c : ℕ) → Stands (replay_entry bits key c tab) bits key (min 2 c)
entry_raises tab bits key c =
    let once = bump_raises tab bits key 0 (omega arith) in
    elim (Bool-cases (leb 2 c)) [
      | inl two ↦ rw two (
          let twice = bump_raises (bump tab bits key) bits key (min 2 (0 + 1)) once in
          (omega (arith, twice), omega (arith, twice)))
      | inr one ↦ let le : c ≤ 1 = ground arith in rw one (omega (arith, once), omega (arith, once))
    ]

replay_keeps :
    (bits : ℕ) (counts : Counts) (tab : ℕ → ℕ) (key n : ℕ)
    → Stands tab bits key n
    → Stands (replay bits counts tab) bits key n
unfolding replay
replay_keeps bits [] tab key n h = h
replay_keeps bits ((k, c) ∷ counts) tab key n h =
    replay_keeps bits counts (replay_entry bits k c tab) key n (entry_keeps tab bits k c key n h)

replay_raises :
    (bits : ℕ) (counts : Counts) (tab : ℕ → ℕ) (key : ℕ)
    → Stands (replay bits counts tab) bits key (min 2 (count_of key counts))
unfolding replay count_of
replay_raises bits [] tab key = omega arith
replay_raises bits ((k, c) ∷ counts) tab key = elim (Bool-cases (k == key)) [
  | inl same ↦ rw same (
      replay_keeps bits counts (replay_entry bits k c tab) key (min 2 c) (
        subst (λ x. Stands (replay_entry bits k c tab) bits x (min 2 c)) ((==_iff k key).0 same)
          (entry_raises tab bits k c)))
  | inr other ↦ rw other (replay_raises bits counts (replay_entry bits k c tab) key)
]

-- How often a key was added.
abbrev pub occurrences : ℕ → List ℕ → ℕ
occurrences key [] = 0
occurrences key (k ∷ ks) = (if k == key then 1 else 0) + occurrences key ks

-- The keys `ks`, added one after the other, the last one first in the list.
abbrev pub after : Limits → ℕ → List ℕ → Counter
after l share [] = new_key_counter share
after l share (k ∷ ks) = add l (after l share ks) k

abbrev Tracks : Mode → List ℕ → Type 0
Tracks (exact counts) ks = (key : ℕ) → count_of key counts ≡ min 2 (occurrences key ks)
Tracks (table tab bits) ks = (key : ℕ) → Stands tab bits key (min 2 (occurrences key ks))
Tracks released ks = ⊥

pub count_of-put_count :
    (k key c : ℕ) (counts : Counts)
    → count_of key (put_count k c counts) ≡ (if k == key then c else count_of key counts)
unfolding count_of put_count
count_of-put_count k key c [] = ground arith
count_of-put_count k key c ((j, d) ∷ counts) = ground (arith, count_of-put_count k key c counts)

count_of-counted :
    (k key : ℕ) (counts : Counts)
    → count_of key (counted k counts) ≡ (
        if k == key
        then (if ltb (count_of key counts) 2 then count_of key counts + 1 else count_of key counts)
        else count_of key counts)
unfolding counted
count_of-counted k key counts =
    ground (arith, count_of-put_count k key (count_of k counts + 1) counts)

counted-Tracks :
    (k : ℕ) (counts : Counts) (ks : List ℕ)
    → Tracks (exact counts) ks
    → Tracks (exact (counted k counts)) (k ∷ ks)
counted-Tracks k counts ks h key = ground (arith, h key, count_of-counted k key counts)

degrade-Tracks :
    (l : Limits) (share : ℕ) (counts : Counts) (ks : List ℕ)
    → Tracks (exact counts) ks
    → Tracks (degrade l share counts) ks
unfolding degrade
degrade-Tracks l share counts ks h key =
    let up = replay_raises (table_bits l share) counts (λ _. 0) key in
    (omega (arith, h key, up), omega (arith, h key, up))

add_mode-Tracks :
    (l : Limits) (share : ℕ) (m : Mode) (k : ℕ) (ks : List ℕ)
    → Tracks m ks
    → Tracks (add_mode l share m k) (k ∷ ks)
unfolding add_mode
add_mode-Tracks l share (exact counts) k ks h =
    elim (Bool-cases (ltb (exact_limit l share) (length (counted k counts)))) [
      | inl over ↦
          rw over
            (degrade-Tracks l share (counted k counts) (k ∷ ks) (counted-Tracks k counts ks h))
      | inr fits ↦ rw fits (counted-Tracks k counts ks h)
    ]
add_mode-Tracks l share (table tab bits) k ks h = λ key. elim (Bool-cases (k == key)) [
  | inl same ↦
      subst
        (λ x.
          Stands (bump tab bits k) bits x (min 2 ((if k == x then 1 else 0) + occurrences x ks)))
        ((==_iff k key).0 same) (raised (h k))
  | inr other ↦ rw other (kept key (h key))
]
  where
    raised :
        Stands tab bits k (min 2 (occurrences k ks))
        → Stands (bump tab bits k) bits k (min 2 ((if k == k then 1 else 0) + occurrences k ks))
    raised s =
        let up = bump_raises tab bits k (min 2 (occurrences k ks)) s in
        let e : (k == k) ≡ true = (==_iff k k).1 refl in rw e (omega (arith, up), omega (arith, up))

    kept :
        (key : ℕ)
        → Stands tab bits key (min 2 (occurrences key ks))
        → Stands (bump tab bits k) bits key (min 2 (0 + occurrences key ks))
    kept key s =
        let up = bump_keeps tab bits k key (min 2 (occurrences key ks)) s in
        (omega (arith, up), omega (arith, up))
add_mode-Tracks l share released k ks h = h

after-Tracks : (l : Limits) (share : ℕ) (ks : List ℕ) → Tracks (after l share ks).mode ks
unfolding add new_key_counter count_of
after-Tracks l share [] = λ key. refl
after-Tracks l share (k ∷ ks) =
    add_mode-Tracks l (after l share ks).share (after l share ks).mode k ks
      (after-Tracks l share ks)

hot_of_Tracks :
    (m : Mode) (ks : List ℕ) (key : ℕ)
    → Tracks m ks
    → 2 ≤ occurrences key ks
    → hot_mode m key ≡ true
unfolding hot_mode
hot_of_Tracks (exact counts) ks key h two = ground (arith, h key)
hot_of_Tracks (table tab bits) ks key h two = ground (arith, h key)
hot_of_Tracks released ks key h two = absurd h

-- Whatever the limits, a key that was added at least twice is hot, also after the exact counts
-- gave way to the table: the scan never misses a file that shares its key with another.
pub hot-after :
    (l : Limits) (share : ℕ) (ks : List ℕ) (key : ℕ)
    → 2 ≤ occurrences key ks
    → hot (after l share ks) key ≡ true
unfolding hot
hot-after l share ks key two =
    hot_of_Tracks (after l share ks).mode ks key (after-Tracks l share ks) two

exact_hot :
    (m : Mode) (counts : Counts) (ks : List ℕ) (key : ℕ)
    → m ≡ exact counts
    → Tracks m ks
    → hot_mode m key ≡ leb 2 (occurrences key ks)
unfolding hot_mode
exact_hot (exact cs) counts ks key e h = ground (arith, h key)
exact_hot (table tab bits) counts ks key e h = ground arith
exact_hot released counts ks key e h = absurd h

-- While the counter is exact, the hot keys are exactly those that were added at least twice.
pub hot-after_exact :
    (l : Limits) (share : ℕ) (ks : List ℕ) (key : ℕ) (counts : Counts)
    → (after l share ks).mode ≡ exact counts
    → hot (after l share ks) key ≡ leb 2 (occurrences key ks)
unfolding hot
hot-after_exact l share ks key counts e =
    exact_hot (after l share ks).mode counts ks key e (after-Tracks l share ks)
