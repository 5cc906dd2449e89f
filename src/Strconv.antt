-- ===== src/Strconv.antt =====
-- Go's strconv as the program uses it: `ParseInt(s, 10, 64)` and `Atoi` with the error dropped, and
-- `Itoa`. On a syntax error the value is 0, out of range it is the nearest bound of `int64`.
pub mod RoundTrip
use moon_eye.Base.{
  ℕ, zero, suc, ◌+◌, ◌-◌, ◌*◌, ◌/◌, ◌%◌, Bool, true, false, ◌&&◌, [], ◌∷◌, Str, Option, none, some,
  ltb, leb, ◌==◌, if◌then◌else◌,
}
use moon_eye.Base.Int.{ℤ, pos, negsuc}
use moon_eye.Base.Words.{sign_bit}

pub data Parsed : Type 0 where
  syntax out_of_range : Parsed
  value : ℕ → Parsed

abbrev pub is_digit : ℕ → Bool
is_digit c = leb b'0' c && leb c b'9'

-- The loop of `ParseUint`: it stops at the first byte that is no digit, or when 2 ^ 64 is reached.
unfoldable pub parse_digits : ℕ → Str → Parsed
parse_digits n [] = value n
parse_digits n (c ∷ s) =
    let n' = n * 10 + (c - b'0') in
    let rest = parse_digits n' s in
    if is_digit c then (if ltb n' 18446744073709551616 then rest else out_of_range) else syntax

unfoldable pub parse_uint : Str → Parsed
unfolding parse_digits
parse_uint [] = syntax
parse_uint (c ∷ s) = parse_digits 0 (c ∷ s)

-- `n, _ := strconv.ParseInt(s, 10, 64)` after the sign, for each sign.
abbrev pub signed_value : Bool → Parsed → ℤ
signed_value neg syntax = pos 0
signed_value false out_of_range = pos (sign_bit - 1)
signed_value true out_of_range = negsuc (sign_bit - 1)
signed_value false (value n) = if ltb n sign_bit then pos n else pos (sign_bit - 1)
signed_value true (value zero) = pos 0
signed_value true (value (suc n)) = if ltb n sign_bit then negsuc n else negsuc (sign_bit - 1)

unfoldable pub parse_int : Str → ℤ
unfolding parse_uint
parse_int [] = pos 0
parse_int (c ∷ s) =
    if c == b'+'
    then signed_value false (parse_uint s)
    else if c == b'-'
    then signed_value true (parse_uint s)
    else signed_value false (parse_uint (c ∷ s))

-- `n, _ := strconv.Atoi(s)`: `Atoi` is `ParseInt(s, 10, 0)`, where an `int` has 64 bits.
abbrev pub atoi : Str → ℤ
atoi = parse_int

-- The value of `strconv.Atoi` where it gives no error.
abbrev pub checked_value : Bool → Parsed → Option ℤ
checked_value false (value n) = if ltb n sign_bit then some (pos n) else none
checked_value true (value zero) = some (pos 0)
checked_value true (value (suc n)) = if ltb n sign_bit then some (negsuc n) else none
checked_value _ _ = none

unfoldable pub atoi_checked : Str → Option ℤ
unfolding parse_uint
atoi_checked [] = none
atoi_checked (c ∷ s) =
    if c == b'+'
    then checked_value false (parse_uint s)
    else if c == b'-'
    then checked_value true (parse_uint s)
    else checked_value false (parse_uint (c ∷ s))

-- The decimal digits of a number, on fuel: 20 digits serve every 64-bit number.
unfoldable pub format_digits : ℕ → ℕ → Str → Str
format_digits zero n acc = acc
format_digits (suc f) n acc =
    let digit = b'0' + n % 10 in
    let rest = format_digits f (n / 10) (digit ∷ acc) in if ltb n 10 then digit ∷ acc else rest

unfoldable pub itoa : ℕ → Str
unfolding format_digits
itoa n = format_digits 20 n []
