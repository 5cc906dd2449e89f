-- ===== src/Strconv/RoundTrip.antt =====
-- `Atoi` reads back what `Itoa` prints.
use native.Mathlib.Nat.{pow-suc, pow-zero}
use moon_eye.Base.{
  ℕ, zero, suc, ◌+◌, ◌-◌, ◌*◌, ◌/◌, ◌%◌, ◌^◌, ◌<◌, ◌≡◌, ◌∙◌, true, false, [], ◌∷◌, Str, some, inl,
  inr, Bool-cases, arith, ltb, ap,
}
use moon_eye.Base.Int.{pos}
use moon_eye.Base.Words.{sign_bit}
use moon_eye.Strconv.{
  parse_digits, parse_int, signed_value, value, is_digit, format_digits, itoa, atoi, checked_value,
  atoi_checked,
}

abbrev pub StartsWithDigit : Str → Type 0
StartsWithDigit [] = ⊥
StartsWithDigit (c ∷ s) = is_digit c ≡ true

parse_digits-digit :
    (m n : ℕ) (acc : Str)
    → m * 10 + n % 10 ≡ n
    → n < 18446744073709551616
    → parse_digits m ((b'0' + n % 10) ∷ acc) ≡ parse_digits n acc
unfolding parse_digits
parse_digits-digit m n acc e b =
    let e' : m * 10 + (b'0' + n % 10 - b'0') ≡ n = omega (arith, e) in
    ground (arith, ap (λ (k : ℕ). parse_digits k acc) e')

-- Printing in front of `acc` and then reading is reading `acc` from the printed number on.
parse_digits-format_digits :
    (f n : ℕ) (acc : Str)
    → n < 10 ^ f
    → n < 18446744073709551616
    → parse_digits 0 (format_digits f n acc) ≡ parse_digits n acc
unfolding format_digits
parse_digits-format_digits zero n acc h b =
    ap (λ k. parse_digits k acc) (omega (arith, pow-zero 10, h))
parse_digits-format_digits (suc f) n acc h b = elim (Bool-cases (ltb n 10)) [
  | inl small ↦ rw small (parse_digits-digit 0 n acc (ground arith) b)
  | inr large ↦ rw large (
      parse_digits-format_digits f (n / 10) ((b'0' + n % 10) ∷ acc) (omega (arith, pow-suc 10 f))
        (omega arith)
      ∙ parse_digits-digit (n / 10) n acc (omega arith) b)
]

format_digits-StartsWithDigit :
    (f n : ℕ) (acc : Str) → StartsWithDigit acc → StartsWithDigit (format_digits f n acc)
unfolding format_digits
format_digits-StartsWithDigit zero n acc h = h
format_digits-StartsWithDigit (suc f) n acc h = elim (Bool-cases (ltb n 10)) [
  | inl small ↦ rw small (ground arith)
  | inr large ↦
      rw large (format_digits-StartsWithDigit f (n / 10) ((b'0' + n % 10) ∷ acc) (ground arith))
]

itoa-StartsWithDigit : (n : ℕ) → StartsWithDigit (itoa n)
unfolding itoa
itoa-StartsWithDigit n = elim (Bool-cases (ltb n 10)) [
  | inl small ↦ rw (small, format_digits) (ground arith)
  | inr large ↦
      rw (large, format_digits)
        (format_digits-StartsWithDigit 19 (n / 10) ((b'0' + n % 10) ∷ []) (ground arith))
]

parse_int-unsigned :
    (s : Str) → StartsWithDigit s → parse_int s ≡ signed_value false (parse_digits 0 s)
unfolding parse_int
parse_int-unsigned [] h = absurd h
parse_int-unsigned (c ∷ s) h = ground arith

parse_digits-itoa : (n : ℕ) → n < sign_bit → parse_digits 0 (itoa n) ≡ value n
unfolding itoa parse_digits
parse_digits-itoa n h = parse_digits-format_digits 20 n [] (omega arith) (omega arith)

-- `Atoi(Itoa(n)) = n` for every `int` that is not negative.
pub atoi-itoa : (n : ℕ) → n < sign_bit → atoi (itoa n) ≡ pos n
atoi-itoa n h =
    rw (parse_int-unsigned (itoa n) (itoa-StartsWithDigit n), parse_digits-itoa n h) (ground arith)

atoi_checked-unsigned :
    (s : Str) → StartsWithDigit s → atoi_checked s ≡ checked_value false (parse_digits 0 s)
unfolding atoi_checked
atoi_checked-unsigned [] h = absurd h
atoi_checked-unsigned (c ∷ s) h = ground arith

-- `Atoi` reads what `Itoa` writes, without an error.
pub atoi_checked-itoa : (n : ℕ) → n < sign_bit → atoi_checked (itoa n) ≡ some (pos n)
atoi_checked-itoa n h =
    rw (atoi_checked-unsigned (itoa n) (itoa-StartsWithDigit n), parse_digits-itoa n h)
      (ground arith)
