-- ===== src/Base/Words.antt =====
-- Go's 64-bit `int` and `int64`: an integer with its wrap-around written out.
use moon_eye.Base.{ℕ, ◌-◌, ◌%◌, ◌<◌, ◌≡◌, ltb, arith, if◌then◌else◌}
use moon_eye.Base.Int.{ℤ, pos, negsuc}

-- 2 ^ 63.
abbrev pub sign_bit : ℕ
sign_bit = 9223372036854775808

-- The bit pattern of an integer, modulo 2 ^ 64.
abbrev pub bits64 : ℤ → ℕ
bits64 (pos n) = n % 18446744073709551616
bits64 (negsuc n) = 18446744073709551615 - n % 18446744073709551616

-- The signed reading of a bit pattern below 2 ^ 64.
abbrev pub signed64 : ℕ → ℤ
signed64 b = if ltb b sign_bit then pos b else negsuc (18446744073709551615 - b)

-- An `int64` result: what is left of an integer after wrap-around.
unfoldable pub wrap64 : ℤ → ℤ
wrap64 z = signed64 (bits64 z)

abbrev pub IsInt64 : ℤ → Type 0
IsInt64 (pos n) = n < sign_bit
IsInt64 (negsuc n) = n < sign_bit

pub wrap64-IsInt64_id : (z : ℤ) → IsInt64 z → wrap64 z ≡ z
unfolding wrap64
wrap64-IsInt64_id (pos n) h = ground arith
wrap64-IsInt64_id (negsuc n) h = ground arith

pub wrap64-IsInt64 : (z : ℤ) → IsInt64 (wrap64 z)
unfolding wrap64
wrap64-IsInt64 (pos n) = ground arith
wrap64-IsInt64 (negsuc n) = ground arith
