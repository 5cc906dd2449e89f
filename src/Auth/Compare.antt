-- ===== src/Auth/Compare.antt =====
-- pkg/shared/crypto: `ConstantTimeCompare`, and that it decides equality.
use moon_eye.Base.{
  ℕ, zero, suc, ◌+◌, ◌*◌, ◌/◌, ◌%◌, ◌^◌, ◌<◌, ◌≡◌, refl, Bool, false, [], ◌∷◌, Str, length, ◌==◌,
  if◌then◌else◌, str_eq, arith, inl, inr, Bool-cases, ap₂, subst, eq-of-str_eq, str_eq_iff,
  str_eq_refl, ◌∙◌, sym,
}

-- `a ^ b` on n bits.
unfoldable pub xor_bits : ℕ → ℕ → ℕ → ℕ
xor_bits zero a b = 0
xor_bits (suc n) a b = (a % 2 + b % 2) % 2 + 2 * xor_bits n (a / 2) (b / 2)

-- `a | b` on n bits.
unfoldable pub or_bits : ℕ → ℕ → ℕ → ℕ
or_bits zero a b = 0
or_bits (suc n) a b = (if a % 2 == 1 then 1 else b % 2) + 2 * or_bits n (a / 2) (b / 2)

-- The loop, from the value that `out` has.
unfoldable pub differences : ℕ → Str → Str → ℕ
differences out (a ∷ s) (b ∷ t) = differences (or_bits 8 out (xor_bits 8 a b)) s t
differences out [] t = out
differences out (a ∷ s) [] = out

unfoldable pub constant_time_compare : Str → Str → Bool
constant_time_compare s t = if length s == length t then differences 0 s t == 0 else false

abbrev pub AreBytes : Str → Type 0
AreBytes [] = Unit
AreBytes (a ∷ s) = (a < 256) × AreBytes s

xor_bits-lt : (n a b : ℕ) → xor_bits n a b < 2 ^ n
unfolding xor_bits
xor_bits-lt zero a b = ground arith
xor_bits-lt (suc n) a b = ground (arith, xor_bits-lt n (a / 2) (b / 2))

or_bits-lt : (n a b : ℕ) → or_bits n a b < 2 ^ n
unfolding or_bits
or_bits-lt zero a b = ground arith
or_bits-lt (suc n) a b = ground (arith, or_bits-lt n (a / 2) (b / 2))

xor_bits-same : (n a : ℕ) → xor_bits n a a ≡ 0
unfolding xor_bits
xor_bits-same zero a = refl
xor_bits-same (suc n) a = ground (arith, xor_bits-same n (a / 2))

eq-of-xor_bits : (n a b : ℕ) → a < 2 ^ n → b < 2 ^ n → xor_bits n a b ≡ 0 → a ≡ b
unfolding xor_bits
eq-of-xor_bits zero a b h k e = ground arith
eq-of-xor_bits (suc n) a b h k e = ground (arith, eq-of-xor_bits n (a / 2) (b / 2))

or_bits-zero : (n a b : ℕ) → a < 2 ^ n → b < 2 ^ n → or_bits n a b ≡ 0 → (a ≡ 0) × (b ≡ 0)
unfolding or_bits
or_bits-zero zero a b h k e = ground arith
or_bits-zero (suc n) a b h k e = ground (arith, or_bits-zero n (a / 2) (b / 2))

or_bits-zeros : (n : ℕ) → or_bits n 0 0 ≡ 0
unfolding or_bits
or_bits-zeros zero = refl
or_bits-zeros (suc n) = ground (arith, or_bits-zeros n)

differences-zero : (out : ℕ) (s t : Str) → out < 256 → differences out s t ≡ 0 → out ≡ 0
unfolding differences
differences-zero out [] t h e = e
differences-zero out (a ∷ s) [] h e = e
differences-zero out (a ∷ s) (b ∷ t) h e =
    (or_bits-zero 8 out (xor_bits 8 a b) h (xor_bits-lt 8 a b) (
      differences-zero (or_bits 8 out (xor_bits 8 a b)) s t (or_bits-lt 8 out (xor_bits 8 a b))
        e)).0

eq-of-differences :
    (s t : Str) → AreBytes s → AreBytes t → length s ≡ length t → differences 0 s t ≡ 0 → s ≡ t
unfolding differences
eq-of-differences [] [] hs ht same e = refl
eq-of-differences [] (b ∷ t) hs ht same e = ground arith
eq-of-differences (a ∷ s) [] hs ht same e = ground arith
eq-of-differences (a ∷ s) (b ∷ t) hs ht same e =
    let none_yet =
      differences-zero (or_bits 8 0 (xor_bits 8 a b)) s t (or_bits-lt 8 0 (xor_bits 8 a b)) e in
    let no_bit = or_bits-zero 8 0 (xor_bits 8 a b) (ground arith) (xor_bits-lt 8 a b) none_yet in
    let head = eq-of-xor_bits 8 a b hs.0 ht.0 no_bit.1 in
    let tail =
      eq-of-differences s t hs.1 ht.1 (ground (arith, same)) (
        subst (λ x. differences x s t ≡ 0) {x = or_bits 8 0 (xor_bits 8 a b)} {y = 0} none_yet e) in
    ap₂ (λ x xs. x ∷ xs) head tail

differences-same : (s : Str) → differences 0 s s ≡ 0
unfolding differences
differences-same [] = refl
differences-same (a ∷ s) = rw (xor_bits-same 8 a, or_bits-zeros 8) (differences-same s)

-- On bytes the comparison in constant time gives what `==` on the two strings gives: the loop, which
-- looks at every byte, ends with 0 exactly when no byte differs.
pub constant_time_compare-str_eq :
    (s t : Str) → AreBytes s → AreBytes t → constant_time_compare s t ≡ str_eq s t
unfolding constant_time_compare
constant_time_compare-str_eq s t hs ht = elim (Bool-cases (str_eq s t)) [
  | inl same ↦
      subst (λ x. constant_time_compare s x ≡ str_eq s x) {x = s} {y = t} (eq-of-str_eq s t same)
        (rw (constant_time_compare, differences-same s, str_eq_refl s) ground arith)
  | inr differs ↦ elim (Bool-cases (constant_time_compare s t)) [
    | inl found ↦
        absurd (ground (arith, found, differs, str_eq_iff s t, eq-of-differences s t hs ht))
    | inr e ↦ e ∙ sym differs
  ]
]
