-- ===== src/ByteSafe.antt =====
-- The byte-safe JSON strings of server/bytesafe.go: `escapeBytes`, `isEscapeRune`,
-- `holdsEscapeRune`, `unescapeBytes`, `jsonQuote` and `jsonArr`, on strings of bytes, with the
-- parts of unicode/utf8 that they call.
pub mod Runes
pub mod Rounds
pub mod Escaping
pub mod Valid
pub mod Quoting
use duplicatefinder.Base.{
  zero, take, codes, ◌*◌, drop, not, ◌%◌, suc, ◌&&◌, ◌-◌, length, ◌/◌, false, some, ◌||◌, none, any,
  contains, ◌++◌, ltb, [], Option, ◌==◌, ◌+◌, true, leb, List, Bool, ◌∷◌, ℕ, if◌then◌else◌, Text,
}
use duplicatefinder.Vetting.{between, follows, valid_from}

pub record Decoded : Type 0 where
  pub rune : ℕ
  pub width : ℕ

-- `utf8.RuneError, 1`.
abbrev pub undecodable : Decoded
undecodable = record { rune = 0xFFFD; width = 1 }

-- The bits that a first byte of `width` bytes holds of its rune.
abbrev pub lead_bits : ℕ → ℕ
lead_bits c =
    if ltb c 0x80
    then c
    else if ltb c 0xE0
    then c - 0xC0
    else if ltb c 0xF0
    then c - 0xE0
    else c - 0xF0

-- The bytes after the first, against the ranges that they must lie in.
unfoldable pub decode_tail : ℕ → ℕ → List (ℕ × ℕ) → Text → Option Decoded
decode_tail acc n [] s = some (record { rune = acc; width = n })
decode_tail acc n (r ∷ pending) [] = none
decode_tail acc n (r ∷ pending) (d ∷ s) =
    let rest = decode_tail (acc * 64 + (d - 0x80)) (suc n) pending s in
    if between r.0 r.1 d then rest else none

unfoldable pub decode_valid : ℕ → Text → Option Decoded
decode_valid c s = elim (follows c) [
  | none ↦ none
  | some pending ↦ decode_tail (lead_bits c) 1 pending s
]

-- `utf8.DecodeRuneInString` of a string with first byte `c`.
unfoldable pub decode_rune : ℕ → Text → Decoded
decode_rune c s = elim (decode_valid c s) [ none ↦ undecodable | some d ↦ d ]

-- `utf8.AppendRune(nil, r)`.
unfoldable pub append_rune : ℕ → Text
append_rune r =
    if ltb r 0x80
    then r ∷ []
    else if ltb r 0x800
    then (0xC0 + r / 64) ∷ (0x80 + r % 64) ∷ []
    else if between 0xD800 0xDFFF r || ltb 0x10FFFF r
    then 0xEF ∷ 0xBF ∷ 0xBD ∷ []
    else if ltb r 0x10000
    then (0xE0 + r / 4096) ∷ (0x80 + r / 64 % 64) ∷ (0x80 + r % 64) ∷ []
    else (0xF0 + r / 262144) ∷ (0x80 + r / 4096 % 64) ∷ (0x80 + r / 64 % 64) ∷ (0x80 + r % 64) ∷ []

abbrev pub esc_base : ℕ
esc_base = 0x10FE00

unfoldable pub is_escape_rune : ℕ → Bool
is_escape_rune r = leb (esc_base + 0x80) r && leb r (esc_base + 0xFF)

abbrev pub escape_rune_prefixes : List Text
escape_rune_prefixes = (0xF4 ∷ 0x8F ∷ 0xBA ∷ []) ∷ (0xF4 ∷ 0x8F ∷ 0xBB ∷ []) ∷ []

unfoldable pub holds_escape_rune : Text → Bool
holds_escape_rune s = any (λ p. contains p s) escape_rune_prefixes

-- `for _, c := range []byte(...)`.
unfoldable pub escape_each : Text → Text
escape_each [] = []
escape_each (c ∷ s) = append_rune (esc_base + c) ++ escape_each s

-- `(r == utf8.RuneError && n == 1) || isEscapeRune(r)`.
unfoldable pub must_escape : Decoded → Bool
must_escape d = (d.rune == 0xFFFD && d.width == 1) || is_escape_rune d.rune

-- The loop of `escapeBytes` over the rest of the string; one round takes at least one byte.
unfoldable pub escape_loop : ℕ → Text → Text
escape_loop zero s = []
escape_loop (suc k) [] = []
escape_loop (suc k) (c ∷ s) =
    let d = decode_rune c s in
    let rest = escape_loop k (drop d.width (c ∷ s)) in
    let chunk = take d.width (c ∷ s) in
    if must_escape d then escape_each chunk ++ rest else chunk ++ rest

unfoldable pub escape_bytes : Text → Text
escape_bytes s =
    if valid_from [] s && not (holds_escape_rune s) then s else escape_loop (length s) s

abbrev pub escape_marker : Text
escape_marker = 0xF4 ∷ 0x8F ∷ []

unfoldable pub unescape_loop : ℕ → Text → Text
unescape_loop zero s = []
unescape_loop (suc k) [] = []
unescape_loop (suc k) (c ∷ s) =
    let d = decode_rune c s in
    let rest = unescape_loop k (drop d.width (c ∷ s)) in
    if is_escape_rune d.rune
    then ((d.rune - esc_base) % 256) ∷ rest
    else take d.width (c ∷ s) ++ rest

unfoldable pub unescape_bytes : Text → Text
unescape_bytes s = if contains escape_marker s then unescape_loop (length s) s else s

-- `hex[n]`.
abbrev pub hex_digit : ℕ → ℕ
hex_digit n = if ltb n 10 then b'0' + n else b'a' + (n - 10)

-- One round of the loop of `jsonQuote`.
unfoldable pub quote_byte : ℕ → Text
quote_byte c =
    if c == b'"' || c == b'\\'
    then b'\\' ∷ c ∷ []
    else if c == 10
    then codes "\\n"
    else if c == 13
    then codes "\\r"
    else if c == 9
    then codes "\\t"
    else if ltb c 0x20
    then codes "\\u00" ++ hex_digit (c / 16) ∷ hex_digit (c % 16) ∷ []
    else c ∷ []

unfoldable pub quote_body : Text → Text
quote_body [] = []
quote_body (c ∷ s) = quote_byte c ++ quote_body s

unfoldable pub json_quote : Text → Text
json_quote s = b'"' ∷ (quote_body s ++ b'"' ∷ [])

-- The loop of `jsonArr`; the first item has no comma before it.
unfoldable pub array_items : Bool → List Text → Text
array_items first [] = []
array_items first (s ∷ items) =
    (if first then [] else b',' ∷ []) ++ json_quote s ++ array_items false items

unfoldable pub json_arr : List Text → Text
json_arr items = b'[' ∷ (array_items true items ++ b']' ∷ [])
