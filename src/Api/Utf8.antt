-- ===== src/Api/Utf8.antt =====
-- src/voxtral-c-api.cpp, `utf8_prefix_at_most`: how much of a text fits in a buffer without cutting a
-- character. Bytes are numbers.
pub mod Longest
use voxtral_cpp.Prelude.{
  ℕ, zero, suc, ◌+◌, ◌-◌, Bool, true, false, not, ◌&&◌, ◌||◌, min, Option, none, some, List, [],
  ◌∷◌, if◌then◌else◌, ltb, leb, ◌==◌, length, get_or, take, drop,
}

-- The number of bytes that the lead byte announces; 0 where the loop is left.
pub char_width : ℕ → ℕ
char_width lead =
    if leb lead 0x7f
    then 1
    else if leb 0xc2 lead && leb lead 0xdf
    then 2
    else if leb 0xe0 lead && leb lead 0xef
    then 3
    else if leb 0xf0 lead && leb lead 0xf4
    then 4
    else 0

-- `(continuation & 0xc0) == 0x80`
abbrev pub is_continuation : ℕ → Bool
is_continuation c = leb 0x80 c && ltb c 0xc0

abbrev pub all_continuation : List ℕ → Bool
all_continuation [] = true
all_continuation (c ∷ cs) = is_continuation c && all_continuation cs

-- The leads whose second byte has a narrower range.
pub second_excluded : ℕ → ℕ → ℕ → Bool
second_excluded width lead second =
    width == 3 && (lead == 0xe0 && ltb second 0xa0 || lead == 0xed && leb 0xa0 second)
    || width == 4 && (lead == 0xf0 && ltb second 0x90 || lead == 0xf4 && leb 0x90 second)

-- The body of the loop on the text from `i` on, with the room up to `end`: the width of a character,
-- or `none` for a `break`.
pub next_char : List ℕ → ℕ → Option ℕ
unfolding char_width second_excluded
next_char rest room =
    let width = char_width (get_or rest 0 0) in
    if width == 0
      || ltb room width
      || ltb (length rest) width
      || not (all_continuation (take (width - 1) (drop 1 rest)))
      || second_excluded width (get_or rest 0 0) (get_or rest 1 0)
    then none
    else some width

-- The `while` loop on the given number of rounds.
pub prefix_from : ℕ → List ℕ → ℕ → ℕ → ℕ
unfolding next_char
prefix_from zero rest room stable = stable
prefix_from (suc fuel) rest room stable = elim (ltb 0 room) [
  | false ↦ stable
  | true ↦ elim (next_char rest room) [
    | none ↦ stable
    | some width ↦ prefix_from fuel (drop width rest) (room - width) (stable + width)
  ]
]

unfoldable pub utf8_prefix_at_most : List ℕ → ℕ → ℕ
unfolding prefix_from
utf8_prefix_at_most text limit = let end_ = min (length text) limit in prefix_from end_ text end_ 0
