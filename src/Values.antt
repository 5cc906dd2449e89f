-- ===== src/Values.antt =====
-- Values of Go's dynamic type `any` as the program meets them, time.Time and float64, for
-- internal/sync and pkg/shared/mapx.
use moon_eye.Base.{
  ℕ, suc, ◌-◌, ◌/◌, ◌^◌, Bool, false, List, Str, Option, none, some, lookup, ◌==◌, if◌then◌else◌,
}
use moon_eye.Base.Int.{ℤ, pos, negsuc, ltb_ℤ, ◌+ℤ◌, ◌-ℤ◌, ◌*ℤ◌}
use moon_eye.Base.Words.{wrap64, sign_bit}

-- A `time.Time` as nanoseconds since the zero time, the start of the year 1.
abbrev pub Time : Type 0
Time = ℤ

abbrev pub zero_time : Time
zero_time = pos 0

abbrev pub second : ℤ
second = pos 1000000000

-- Seconds from the zero time to the Unix epoch.
abbrev pub unix_to_internal : ℤ
unix_to_internal = pos 62135596800

-- `time.Unix(n, 0)`: the sum of seconds is an `int64`.
unfoldable pub unix : ℤ → Time
unfolding wrap64 ◌+ℤ◌ ◌*ℤ◌
unix n = wrap64 (n +ℤ unix_to_internal) *ℤ second

-- `t.After(u)`.
abbrev pub after : Time → Time → Bool
after t u = ltb_ℤ u t

unfoldable pub is_zero : Time → Bool
is_zero (pos n) = n == 0
is_zero (negsuc n) = false

-- A finite `float64`: mantissa / 2 ^ halvings.
pub record Float64 : Type 0 where
  pub mantissa : ℤ
  pub halvings : ℕ

-- Truncation toward zero.
abbrev pub truncate : Float64 → ℤ
truncate f = elim f.mantissa [
  | pos n ↦ pos (n / 2 ^ f.halvings)
  | negsuc n ↦ pos 0 -ℤ pos (suc n / 2 ^ f.halvings)
]

-- `int64(f)`. Out of range the result is up to the machine: here that of amd64, -2 ^ 63.
unfoldable pub float_int64 : Float64 → ℤ
unfolding ◌-ℤ◌
float_int64 f =
    if ltb_ℤ (truncate f) (pos sign_bit)
    then (if ltb_ℤ (truncate f) (negsuc (sign_bit - 1)) then negsuc (sign_bit - 1) else truncate f)
    else negsuc (sign_bit - 1)

pub data Any : Type 0 where
  nil : Any
  int64 int : ℤ → Any
  float64 : Float64 → Any
  string : Str → Any
  bool : Bool → Any
  time : Time → Any
  raw : Str → Any

-- `map[string]any`. A nil map is the empty one.
abbrev pub Payload : Type 0
Payload = List (Str × Any)

abbrev pub any_or_nil : Option Any → Any
any_or_nil none = nil
any_or_nil (some v) = v

-- `payload[key]`: nil for a missing key.
abbrev pub get : Payload → Str → Any
get p k = any_or_nil (lookup k p)
