-- ===== src/Base/Parse.antt =====
-- `int(t)` of a Python text, and its `split(",")`.
use mev_bot.Base.{
  ℕ, ◌+◌, ◌-◌, ◌*◌, Bool, true, false, ◌&&◌, Option, none, some, List, [], ◌∷◌, leb, ◌==◌,
  if◌then◌else◌,
}
use mev_bot.Base.Int.{ℤ, pos, ◌-ℤ◌}
use mev_bot.Base.Text.{Text, strip}

abbrev pub is_digit : ℕ → Bool
is_digit c = leb b'0' c && leb c b'9'

-- The digits of `int(t)`, with single underscores between them; `after` says whether the character
-- before was a digit.
unfoldable pub read_digits : Bool → ℕ → Text → Option ℕ
read_digits true acc [] = some acc
read_digits false acc [] = none
read_digits after acc (c ∷ cs) = elim (is_digit c) [
  | true ↦ read_digits true (acc * 10 + (c - b'0')) cs
  | false ↦ elim (after && (c == b'_')) [ true ↦ read_digits false acc cs | false ↦ none ]
]

abbrev pub minus : Option ℕ → Option ℤ
minus none = none
minus (some n) = some (pos 0 -ℤ pos n)

abbrev pub plus : Option ℕ → Option ℤ
plus none = none
plus (some n) = some (pos n)

-- The sign of `int(t)` and what follows it.
unfoldable pub read_signed : Text → Option ℤ
unfolding read_digits
read_signed [] = none
read_signed (c ∷ cs) =
    if c == b'-'
    then minus (read_digits false 0 cs)
    else if c == b'+'
    then plus (read_digits false 0 cs)
    else plus (read_digits false 0 (c ∷ cs))

-- `int(t)` of a text; `none` is the ValueError.
unfoldable pub parse_int : Text → Option ℤ
unfolding read_signed strip
parse_int t = read_signed (strip t)

abbrev pub put_first : ℕ → List Text → List Text
put_first c [] = (c ∷ []) ∷ []
put_first c (t ∷ ts) = (c ∷ t) ∷ ts

-- `t.split(",")`
unfoldable pub split_commas : Text → List Text
split_commas [] = [] ∷ []
split_commas (c ∷ cs) =
    let rest = split_commas cs in if c == b',' then [] ∷ rest else put_first c rest
