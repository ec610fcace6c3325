-- ===== src/Examples/Streams.antt =====
-- Byte-safe strings and bounded lists of a scan: server/bytesafe.go and server/stream.go.
use duplicatefinder.Scan.Windows.{cand_hash, rec_key, window_recs}
use duplicatefinder.Scan.Spill.Records.{each-IsSafe, IsSafe, each-add_all, IsRecord}
use duplicatefinder.Model.{MatchOpts}
use duplicatefinder.Scan.Windows.Walk.{
  walk_and_distil_complete, walk_and_distil, Visited, IsVisited, record_of, walk_key, counted_files,
  files_of_key,
}
use duplicatefinder.FilePath.{base}
use duplicatefinder.Scan.Windows.Whole.{window_recs-Wholes, Wholes}
use duplicatefinder.Scan.Spill.{
  put_uvarint_from, read_uvarint_from, spill_rel_max, read_rec, put_rec, new_spill, read_recs,
  Spill, each, add_all, ok, ◌>>=◌, SpillRec,
}
use duplicatefinder.Scan.Bounded.Ranking.{path_order-Ranks}
use duplicatefinder.Scan.Spill.{ok, ◌>>=◌, SpillRec}
use duplicatefinder.Scan.Bounded.Listing.{bounded_add_all-Lists, Lists}
use duplicatefinder.Scan.Copies.{FEnt}
use duplicatefinder.Vetting.{valid_from}
use duplicatefinder.Scan.Spill.{ok, ◌>>=◌, SpillRec}
use duplicatefinder.Scan.Bounded.Groups.{group_add_all-ListsGroups, ListsGroups}
use duplicatefinder.ByteSafe.Quoting.{read_array-json_arr, read_array}
use duplicatefinder.Base.{
  lt64, map, ◌==◌, filter, false, ◌-◌, ◌≤◌, All, ◌<◌, ◌^◌, refl, length, some, has_prefix, ◌++◌,
  text_lt, true, contains, [], arith, codes, ◌≡◌, ◌∷◌, List, ℕ, Text,
}
use duplicatefinder.ByteSafe.{
  append_rune, escape_each, is_escape_rune, must_escape, decode_tail, decode_valid, decode_rune,
  escape_loop, holds_escape_rune, escape_bytes, unescape_bytes, json_arr,
}
use duplicatefinder.ByteSafe.Escaping.{unescape_bytes-escape_bytes}
use duplicatefinder.ByteSafe.Valid.{valid-escape_bytes}
use duplicatefinder.Scan.Spill.{ok, ◌>>=◌, SpillRec}
use duplicatefinder.Scan.Bounded.{RawGroup}

-- A Latin-1 byte and an escape rune in one name.
abbrev mixed : Text
mixed = b'a' ∷ 0xE9 ∷ b'b' ∷ 0xF4 ∷ 0x8F ∷ 0xBA ∷ 0x80 ∷ 0xC3 ∷ 0xA9 ∷ []

mixed_escaped : length (escape_bytes mixed) ≡ 24
unfolding escape_bytes valid_from holds_escape_rune contains has_prefix escape_loop decode_rune
    decode_valid decode_tail must_escape is_escape_rune escape_each append_rune
mixed_escaped = refl

unescape_bytes-escape_bytes_example : unescape_bytes (escape_bytes mixed) ≡ mixed
unescape_bytes-escape_bytes_example = unescape_bytes-escape_bytes mixed (omega arith)

valid-escape_bytes_example : valid_from [] (escape_bytes mixed) ≡ true
valid-escape_bytes_example = valid-escape_bytes mixed (omega arith)

read_array-json_arr_example :
    read_array (json_arr (codes "a\"b" ∷ mixed ∷ []) ++ codes "&x")
    ≡ some (codes "a\"b" ∷ mixed ∷ [], codes "&x")
read_array-json_arr_example = read_array-json_arr (codes "a\"b" ∷ mixed ∷ []) (codes "&x")

abbrev seen_at : Text → ℕ → FEnt
seen_at p n = record {
  path = p;
  name = p;
  dir = [];
  size = n;
  holes = 0;
  mod_unix = 0;
  rel = p;
  link = record { dev = 1; ino = 1; n = 1 };
}

abbrev three_files : List FEnt
three_files = seen_at (codes "c") 1 ∷ seen_at (codes "a") 1 ∷ seen_at (codes "b") 1 ∷ []

abbrev file_path : FEnt → Text
file_path f = f.path

bounded_add_all-Lists_example : Lists (λ a b. text_lt (file_path a) (file_path b)) 2 three_files
bounded_add_all-Lists_example =
    bounded_add_all-Lists (λ a b. text_lt (file_path a) (file_path b)) (path_order-Ranks file_path)
      2 (omega arith) three_files

abbrev pair_of : Text → ℕ → RawGroup
pair_of h n = record {
  size = n;
  hash = h;
  pfx = h;
  files = seen_at (codes "a") n ∷ seen_at (codes "b") n ∷ [];
  extra = 0;
}

abbrev three_groups : List RawGroup
three_groups = pair_of (codes "x") 5 ∷ pair_of (codes "y") 9 ∷ pair_of (codes "z") 7 ∷ []

group_add_all-ListsGroups_example : ListsGroups 2 three_groups
group_add_all-ListsGroups_example = group_add_all-ListsGroups 2 three_groups

abbrev logged : Text → ℕ → SpillRec
logged p n = record {
  root_idx = 0;
  size = n;
  mod_unix = 2 ^ 64 - 5;
  tag = 300;
  rel = p;
  link = record { dev = 1; ino = 77; n = 1 };
  holes = 0;
}

logged-IsRecord : (p : Text) (n : ℕ) → n < 2 ^ 64 → length p ≤ spill_rel_max → IsRecord (logged p n)
logged-IsRecord p n h k = record {
  safe = record {
    root_bound = omega arith;
    link_bound = omega arith;
    holes_bound = omega arith;
    rel_bound = k;
  };
  size_width = h;
  mod_width = omega arith;
  tag_width = omega arith;
  dev_width = omega arith;
  ino_width = omega arith;
}

abbrev three_logged : List SpillRec
three_logged = logged (codes "a") 700 ∷ logged (codes "b") 9 ∷ logged (codes "c/a") 700 ∷ []

three_logged-IsRecord : All IsRecord three_logged
three_logged-IsRecord = (
  logged-IsRecord (codes "a") 700 (omega arith) (omega arith),
  (
    logged-IsRecord (codes "b") 9 (omega arith) (omega arith),
    (logged-IsRecord (codes "c/a") 700 (omega arith) (omega arith), tt),
  ),
)

each-add_all_example : (add_all new_spill three_logged >>= each) ≡ ok three_logged
each-add_all_example = each-add_all three_logged three_logged-IsRecord (omega arith)

-- One record is read from sixteen bytes.
abbrev short_log : Spill
short_log = record { bytes = put_rec (logged (codes "a") 5); n = 1 }

each-IsSafe_example : All IsSafe (logged (codes "a") 5 ∷ [])
unfolding each read_recs read_rec read_uvarint_from put_rec put_uvarint_from
each-IsSafe_example = each-IsSafe short_log (logged (codes "a") 5 ∷ []) refl

window_recs-Wholes_example :
    Wholes
      (λ r. r.size)
      0
      2
      1
      0
      (codes "/v" ∷ [])
      three_logged
      (window_recs (λ r. r.size) 0 2 1 0 (codes "/v" ∷ []) three_logged)
window_recs-Wholes_example = window_recs-Wholes (λ r. r.size) 0 2 1 0 (codes "/v" ∷ []) three_logged

-- Two files of one size below a root, and a smaller one.
abbrev visited_at : Text → Text → ℕ → Visited
visited_at rel name n = (
  0,
  record {
    path = codes "/v/" ++ rel;
    name = name;
    dir = [];
    size = n;
    holes = 0;
    mod_unix = 0;
    rel = rel;
    link = record { dev = 1; ino = 2; n = 1 };
  },
)

abbrev three_visited : List Visited
three_visited =
    visited_at (codes "a") (codes "a") 700
    ∷ visited_at (codes "b") (codes "b") 9
    ∷ visited_at (codes "c/a") (codes "a") 700
    ∷ []

visited_at-IsVisited :
    (rel name : Text) (n : ℕ)
    → base rel ≡ name
    → n < 2 ^ 64
    → length rel ≤ spill_rel_max
    → IsVisited (visited_at rel name n)
visited_at-IsVisited rel name n e h k = record {
  named = e;
  fits = record {
    safe = record {
      root_bound = omega arith;
      link_bound = omega arith;
      holes_bound = omega arith;
      rel_bound = k;
    };
    size_width = h;
    mod_width = omega arith;
    tag_width = omega arith;
    dev_width = omega arith;
    ino_width = omega arith;
  };
}

three_visited-IsVisited : All IsVisited three_visited
unfolding base
three_visited-IsVisited = (
  visited_at-IsVisited (codes "a") (codes "a") 700 refl (omega arith) (omega arith),
  (
    visited_at-IsVisited (codes "b") (codes "b") 9 refl (omega arith) (omega arith),
    (visited_at-IsVisited (codes "c/a") (codes "a") 700 refl (omega arith) (omega arith), tt),
  ),
)

abbrev by_name : MatchOpts
by_name = record { name = true; modified = false; created = false }

walk_and_distil_complete_example :
    (cs : List SpillRec) × ((walk_and_distil
          (record { exact_max = 4; tab_bits = 3 })
          0
          by_name
          three_visited
        >>= λ p. each p.1)
      ≡ ok cs)
    × ((k : ℕ)
        → 2 ≤ length (files_of_key by_name k (counted_files three_visited))
        → filter (λ r. rec_key by_name r == k) cs
          ≡ map record_of (files_of_key by_name k (counted_files three_visited)))
unfolding lt64
walk_and_distil_complete_example =
    walk_and_distil_complete (record { exact_max = 4; tab_bits = 3 }) 0 by_name three_visited
      three_visited-IsVisited (omega arith)

-- The two of one size and name have one key.
two_share_a_key :
    walk_key by_name (visited_at (codes "a") (codes "a") 700)
    ≡ walk_key by_name (visited_at (codes "c/a") (codes "a") 700)
unfolding cand_hash
two_share_a_key = refl
