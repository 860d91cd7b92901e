-- ===== src/UrlGuard/Text.antt =====
-- The text operations of packages/core/src/ingestion/url-guard.ts, on UTF-16 units. Letters fold to
-- lower case in ASCII, which is all that a literal address can hold.
use cobble_companion.Base.{
  ℕ, ◌+◌, ◌-◌, ◌*◌, ◌/◌, ◌%◌, Bool, true, false, ◌&&◌, ◌||◌, List, [], ◌∷◌, ◌==◌, leb, ltb,
  if◌then◌else◌, Text, length,
}

-- Put a unit in front of the first part.
unfoldable pub onto_first : ℕ → List Text → List Text
onto_first x [] = (x ∷ []) ∷ []
onto_first x (w ∷ ws) = (x ∷ w) ∷ ws

-- `split` at one unit, and at two colons.
unfoldable pub split : ℕ → Text → List Text
unfolding onto_first
split c [] = [] ∷ []
split c (x ∷ xs) = let rest = split c xs in if x == c then [] ∷ rest else onto_first x rest

abbrev pub colon : ℕ
colon = 58

unfoldable pub split_double_colon : Text → List Text
unfolding onto_first
split_double_colon [] = [] ∷ []
split_double_colon (x ∷ []) = (x ∷ []) ∷ []
split_double_colon (x ∷ y ∷ xs) =
    let later = split_double_colon xs in
    let rest = split_double_colon (y ∷ xs) in
    if x == colon && y == colon then [] ∷ later else onto_first x rest

unfoldable pub is_digit : ℕ → Bool
is_digit x = leb 48 x && leb x 57

unfoldable pub is_hex_digit : ℕ → Bool
unfolding is_digit
is_hex_digit x = is_digit x || (leb 97 x && leb x 102)

abbrev pub all_units : (ℕ → Bool) → Text → Bool
all_units p [] = true
all_units p (x ∷ xs) = p x && all_units p xs

-- Between one and `most` units, all of the class.
unfoldable pub is_run : (ℕ → Bool) → ℕ → Text → Bool
is_run p most t = (leb 1 (length t) && leb (length t) most) && all_units p t

unfoldable pub hex_value : ℕ → ℕ
unfolding is_digit
hex_value x = if is_digit x then x - 48 else x - 87

-- Number and parseInt on a run of digits, from the left.
unfoldable pub number_from : (ℕ → ℕ) → ℕ → ℕ → Text → ℕ
number_from value base acc [] = acc
number_from value base acc (x ∷ xs) = number_from value base (acc * base + value x) xs

unfoldable pub hex_digit : ℕ → ℕ
hex_digit n = if ltb n 10 then n + 48 else n + 87

-- `toString(16)` of a 16-bit number.
unfoldable pub to_hex : ℕ → Text
unfolding hex_digit
to_hex n =
    if ltb n 16
    then hex_digit n ∷ []
    else if ltb n 256
    then hex_digit (n / 16) ∷ hex_digit (n % 16) ∷ []
    else if ltb n 4096
    then hex_digit (n / 256) ∷ hex_digit ((n / 16) % 16) ∷ hex_digit (n % 16) ∷ []
    else hex_digit (n / 4096)
      ∷ hex_digit ((n / 256) % 16)
      ∷ hex_digit ((n / 16) % 16)
      ∷ hex_digit (n % 16)
      ∷ []

unfoldable pub lower : ℕ → ℕ
lower x = if leb 65 x && leb x 90 then x + 32 else x

unfoldable pub lower_case : Text → Text
unfolding lower
lower_case [] = []
lower_case (x ∷ xs) = lower x ∷ lower_case xs

-- One unit dropped at the front, or at the end.
unfoldable pub drop_front : ℕ → Text → Text
drop_front c [] = []
drop_front c (x ∷ xs) = if x == c then xs else x ∷ xs

unfoldable pub drop_end : ℕ → Text → Text
drop_end c [] = []
drop_end c (x ∷ []) = if x == c then [] else x ∷ []
drop_end c (x ∷ y ∷ xs) = x ∷ drop_end c (y ∷ xs)

-- `includes` of one unit.
abbrev pub includes : ℕ → Text → Bool
includes c [] = false
includes c (x ∷ xs) = x == c || includes c xs
