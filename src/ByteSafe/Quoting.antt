-- ===== src/ByteSafe/Quoting.antt =====
-- `jsonQuote` and `jsonArr` of server/bytesafe.go against a reader of JSON strings and arrays that
-- is written from the grammar of RFC 8259, on bytes.
use mathlib.Core.Path.{subst}
use mathlib.Core.List.{append_assoc}
use duplicatefinder.Base.{
  sym, true, length-append, false, ap, ◌<◌, ◌≤◌, zero, ◌∙◌, suc, length, List, ◌*◌, ◌+◌, arith, ltb,
  ◌-◌, refl, ◌||◌, [], ◌&&◌, leb, ◌∷◌, ◌==◌, ◌++◌, ◌≡◌, some, none, if◌then◌else◌, Option, ℕ, Text,
}
use duplicatefinder.ByteSafe.{
  json_quote, json_arr, array_items, quote_body, append_rune, quote_byte,
}

-- Inside a string: between characters, after a backslash, or with hexadecimal digits to come.
data Reading : Type 0 where
  plain escaped : Reading
  hex : ℕ → ℕ → Reading

abbrev hex_value : ℕ → Option ℕ
hex_value c =
    if leb b'0' c && leb c b'9'
    then some (c - b'0')
    else if leb b'a' c && leb c b'f'
    then some (c - b'a' + 10)
    else if leb b'A' c && leb c b'F'
    then some (c - b'A' + 10)
    else none

abbrev short_escape : ℕ → Option ℕ
short_escape c =
    if c == b'"' || c == b'\\' || c == b'/'
    then some c
    else if c == b'b'
    then some 8
    else if c == b'f'
    then some 12
    else if c == b'n'
    then some 10
    else if c == b'r'
    then some 13
    else if c == b't'
    then some 9
    else none

abbrev prepend : Text → Option (Text × Text) → Option (Text × Text)
prepend u none = none
prepend u (some (s, t)) = some (u ++ s, t)

-- The string up to its closing quote, and the text after that.
read_string : Reading → Text → Option (Text × Text)
read_string r [] = none
read_string plain (c ∷ s) =
    let more = read_string plain s in
    let escape = read_string escaped s in
    if c == b'"'
    then some ([], s)
    else if c == b'\\'
    then escape
    else if ltb c 0x20
    then none
    else prepend (c ∷ []) more
read_string escaped (c ∷ s) =
    let more = read_string plain s in
    let digits = read_string (hex 4 0) s in
    if c == b'u'
    then digits
    else elim (short_escape c) [ none ↦ none | some b ↦ prepend (b ∷ []) more ]
read_string (hex n acc) (c ∷ s) =
    let more = read_string plain s in
    elim (hex_value c) [
      | none ↦ none
      | some v ↦
          let digits = read_string (hex (n - 1) (acc * 16 + v)) s in
          if leb n 1 then prepend (append_rune (acc * 16 + v)) more else digits
    ]

abbrev read_quoted : Text → Option (Text × Text)
read_quoted [] = none
read_quoted (c ∷ s) = if c == b'"' then read_string plain s else none

read_string-quote_byte :
    (c : ℕ) (u : Text)
    → read_string plain (quote_byte c ++ u) ≡ prepend (c ∷ []) (read_string plain u)
unfolding read_string quote_byte append_rune
read_string-quote_byte c u = ground arith

read_string-quote_body : (s t : Text) → read_string plain (quote_body s ++ b'"' ∷ t) ≡ some (s, t)
unfolding read_string quote_body
read_string-quote_body [] t = refl
read_string-quote_body (c ∷ s) t = rw (append_assoc (quote_byte c) (quote_body s) (b'"' ∷ t)) (
    read_string-quote_byte c (quote_body s ++ b'"' ∷ t)
    ∙ ap (prepend (c ∷ [])) (read_string-quote_body s t))

read_quoted-json_quote : (s t : Text) → read_quoted (json_quote s ++ t) ≡ some (s, t)
unfolding json_quote
read_quoted-json_quote s t =
    rw (append_assoc (quote_body s) (b'"' ∷ []) t) (read_string-quote_body s t)

-- What follows a string in an array, and the strings after it.
abbrev item_then : Text → Option (List Text × Text) → Option (List Text × Text)
item_then s none = none
item_then s (some (items, t)) = some (s ∷ items, t)

-- The items of an array from one of them on, on fuel.
read_items : ℕ → Text → Option (List Text × Text)
read_items zero s = none
read_items (suc k) s = elim (read_quoted s) [
  | none ↦ none
  | some (item, []) ↦ none
  | some (item, c ∷ t) ↦
      let more = read_items k t in
      if c == b']' then some (item ∷ [], t) else if c == b',' then item_then item more else none
]

pub read_array : Text → Option (List Text × Text)
read_array [] = none
read_array (c ∷ []) = none
read_array (c ∷ d ∷ s) =
    let items = read_items (length (d ∷ s)) (d ∷ s) in
    if c == b'[' then (if d == b']' then some ([], s) else items) else none

read_items_last :
    (k : ℕ) (u s t : Text)
    → read_quoted u ≡ some (s, b']' ∷ t)
    → read_items (suc k) u ≡ some (s ∷ [], t)
unfolding read_items
read_items_last k u s t e = rw (e, read_items) refl

read_items_more :
    (k : ℕ) (u s t v : Text) (items : List Text)
    → read_quoted u ≡ some (s, b',' ∷ t)
    → read_items k t ≡ some (items, v)
    → read_items (suc k) u ≡ some (s ∷ items, v)
unfolding read_items
read_items_more k u s t v items e f = rw (e, read_items) (rw f refl)

read_items-array_items :
    (k : ℕ) (s : Text) (items : List Text) (t : Text)
    → length items < k
    → read_items k (json_quote s ++ (array_items false items ++ b']' ∷ t)) ≡ some (s ∷ items, t)
unfolding array_items
read_items-array_items zero s items t fuel = absurd (omega (arith, fuel))
read_items-array_items (suc k) s [] t fuel =
    read_items_last k _ s t (read_quoted-json_quote s (b']' ∷ t))
read_items-array_items (suc k) s (i ∷ items) t fuel =
    read_items_more k _ s _ t (i ∷ items)
      (read_quoted-json_quote s (b',' ∷ ((json_quote i ++ array_items false items) ++ b']' ∷ t)))
      (rw (append_assoc (json_quote i) (array_items false items) (b']' ∷ t))
        (read_items-array_items k i items t (omega (arith, fuel))))

length-array_items-le : (items : List Text) → length items ≤ length (array_items false items)
unfolding array_items
length-array_items-le [] = omega arith
length-array_items-le (i ∷ items) =
    omega
      (arith, length-array_items-le items, length-append (json_quote i) (array_items false items))

-- Every list of byte strings is read back from its JSON array.
pub read_array-json_arr :
    (items : List Text) (t : Text) → read_array (json_arr items ++ t) ≡ some (items, t)
unfolding read_array json_arr array_items json_quote
read_array-json_arr [] t = refl
read_array-json_arr (i ∷ items) t =
    let fuel = length-append (json_quote i) (array_items false items ++ b']' ∷ t) in
    let tail = length-append (array_items false items) (b']' ∷ t) in
    let whole : Text = json_quote i ++ (array_items false items ++ b']' ∷ t) in
    let regroup : (array_items true (i ∷ items) ++ b']' ∷ []) ++ t ≡ whole =
      append_assoc (array_items true (i ∷ items)) (b']' ∷ []) t
      ∙ append_assoc (json_quote i) (array_items false items) (b']' ∷ t) in
    subst (λ x. read_items (length x) x ≡ some (i ∷ items, t)) (sym regroup)
      (read_items-array_items (length whole) i items t
        (omega (arith, fuel, tail, length-array_items-le items)))
