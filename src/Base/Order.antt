-- ===== src/Base/Order.antt =====
-- The byte order of strings is a strict total order.
use moon_eye.Base.{◌≡◌, refl, true, false, [], ◌∷◌, Str, str_eq, str_lt, arith}

pub str_lt_trans : (s t u : Str) → str_lt s t ≡ true → str_lt t u ≡ true → str_lt s u ≡ true
unfolding str_lt
str_lt_trans s [] u p q = ground arith
str_lt_trans s (b ∷ t) [] p q = ground arith
str_lt_trans [] (b ∷ t) (c ∷ u) p q = refl
str_lt_trans (a ∷ s) (b ∷ t) (c ∷ u) p q = ground (arith, str_lt_trans s t u)

pub str_lt_irrefl : (s : Str) → str_lt s s ≡ false
unfolding str_lt
str_lt_irrefl [] = refl
str_lt_irrefl (a ∷ s) = ground (arith, str_lt_irrefl s)

-- Two strings that differ are ordered one way or the other.
pub str_lt_total : (s t : Str) → str_lt s t ≡ false → str_eq s t ≡ false → str_lt t s ≡ true
unfolding str_lt str_eq
str_lt_total [] [] p q = ground arith
str_lt_total [] (b ∷ t) p q = ground arith
str_lt_total (a ∷ s) [] p q = refl
str_lt_total (a ∷ s) (b ∷ t) p q = ground (arith, str_lt_total s t)
