-- ===== src/Json.antt =====
-- The values that JSON.parse returns, and `Number(value)` on them.
-- A number is an exact decimal fraction, `digits / 10 ^ scale`: rounding to a double, Infinity, and the literals with 0x, 0o and 0b are
-- not in the model.
pub mod Decimal
use extension_jobs.Common.{
  ℕ, zero, suc, ◌+◌, ◌-◌, ◌*◌, ◌/◌, ◌%◌, ◌^◌, String, Bool, true, false, not, ◌&&◌, ◌||◌, Option,
  none, some, List, [], ◌∷◌, leb, ltb, ◌==◌, str_eq, all, codes, is_digit, is_space, map_option,
  if◌then◌else◌,
}

pub record Number : Type 0 where
  pub negative : Bool
  pub digits : ℕ
  pub scale : ℕ

mutual
  pub data Json : Type 0 where
    null : Json
    bool : Bool → Json
    number : Number → Json
    string : String → Json
    array : Items → Json
    object : Members → Json

  pub data Items : Type 0 where
    nil : Items
    item : Json → Items → Items

  pub data Members : Type 0 where
    end : Members
    member : String → Json → Members → Members

abbrev pub items : Items → List Json
items nil = []
items (item v vs) = v ∷ items vs

-- `body.key`: undefined where there is no such key.
abbrev pub field : String → Members → Option Json
field k end = none
field k (member j v ms) = let rest = field k ms in if str_eq j k then some v else rest

abbrev pub whole : ℕ → Number
whole n = record { negative = false; digits = n; scale = 0 }

abbrev pub denominator : Number → ℕ
denominator n = 10 ^ n.scale

-- The number without its fraction, and whether there is none.
abbrev pub truncated : Number → ℕ
truncated n = n.digits / denominator n

abbrev pub is_whole : Number → Bool
is_whole n = n.digits % denominator n == 0

-- `min <= number` and `number <= max`, for bounds that are not negative.
abbrev pub at_least : ℕ → Number → Bool
at_least low n = (not n.negative || n.digits == 0) && leb (low * denominator n) n.digits

abbrev pub no_more : ℕ → Number → Bool
no_more high n = n.negative || leb n.digits (high * denominator n)

-- The digits at the start: their value, how many, and what follows.
abbrev pub take_digits : ℕ → ℕ → List ℕ → ℕ × ℕ × List ℕ
take_digits value count [] = (value, count, [])
take_digits value count (c ∷ cs) = elim (is_digit c) [
  | true ↦ take_digits (value * 10 + (c - b'0')) (suc count) cs
  | false ↦ (value, count, c ∷ cs)
]

-- The exponent of a literal after its e: `(negative, value)`.
abbrev exponent_digits : Bool → List ℕ → Option (Bool × ℕ × List ℕ)
exponent_digits negative cs = counted (take_digits 0 0 cs)
  where
    counted : ℕ × ℕ × List ℕ → Option (Bool × ℕ × List ℕ)
    counted (value, zero, rest) = none
    counted (value, suc _, rest) = some (negative, value, rest)

abbrev exponent_signed : List ℕ → Option (Bool × ℕ × List ℕ)
exponent_signed [] = none
exponent_signed (c ∷ cs) =
    if c == b'-'
    then exponent_digits true cs
    else if c == b'+'
    then exponent_digits false cs
    else exponent_digits false (c ∷ cs)

abbrev exponent : List ℕ → Option (Bool × ℕ × List ℕ)
exponent [] = some (false, 0, [])
exponent (c ∷ cs) = if c == b'e' || c == b'E' then exponent_signed cs else some (false, 0, c ∷ cs)

-- `sign` digits `scale` after the point, and an exponent, with white space to the end.
abbrev scaled : Bool → ℕ → ℕ → Option (Bool × ℕ × List ℕ) → Option Number
scaled negative value scale none = none
scaled negative value scale (some (down, e, rest)) =
    if all is_space rest
    then some (record {
      negative = negative;
      digits = value * 10 ^ (if down then 0 else e);
      scale = scale + (if down then e else 0);
    })
    else none

abbrev fraction : Bool → ℕ → ℕ × ℕ × List ℕ → Option Number
fraction negative zero (value, zero, rest) = none
fraction negative before (value, after, rest) = scaled negative value after (exponent rest)

abbrev after_whole : Bool → ℕ × ℕ × List ℕ → Option Number
after_whole negative (value, count, []) = fraction negative count (value, 0, [])
after_whole negative (value, count, c ∷ cs) =
    if c == b'.'
    then fraction negative count (take_digits value 0 cs)
    else fraction negative count (value, 0, c ∷ cs)

abbrev unsigned : Bool → List ℕ → Option Number
unsigned negative cs = after_whole negative (take_digits 0 0 cs)

abbrev pub drop_spaces : List ℕ → List ℕ
drop_spaces [] = []
drop_spaces (c ∷ cs) = let rest = drop_spaces cs in if is_space c then rest else c ∷ cs

abbrev literal : List ℕ → Option Number
literal [] = some (whole 0)
literal (c ∷ cs) =
    if c == b'-'
    then unsigned true cs
    else if c == b'+'
    then unsigned false cs
    else unsigned false (c ∷ cs)

-- `Number(s)` on the characters of s: `none` is NaN.
unfoldable pub number_of_codes : List ℕ → Option Number
number_of_codes cs = literal (drop_spaces cs)

-- `Number(value)`: an array of one item has the text of the item.
unfoldable mutual
  pub to_number : Json → Option Number
  to_number null = some (whole 0)
  to_number (bool true) = some (whole 1)
  to_number (bool false) = some (whole 0)
  to_number (number n) = some n
  to_number (string s) = number_of_codes (codes s)
  to_number (array vs) = of_items vs
  to_number (object ms) = none

  pub of_items : Items → Option Number
  of_items nil = some (whole 0)
  of_items (item (bool b) nil) = none
  of_items (item v nil) = to_number v
  of_items (item v (item w vs)) = none
