-- ===== src/Grid/Indices.antt =====
-- The sorted indices of `OrderedSliceByIndex`: their bounds, and the keys for which it panics.
use moon_eye.Base.{
  ℕ, ◌≤◌, ◌≡◌, refl, ◌∙◌, ap, Bool, true, false, ◌||◌, List, [], ◌∷◌, Option, none, some, set, ◌==◌,
  arith, Bool-cases, inl, inr,
}
use moon_eye.Base.Int.{ℤ, pos, negsuc, ltb_ℤ, ◌+ℤ◌}
use moon_eye.Base.Words.{wrap64}
use moon_eye.Strconv.{itoa}
use moon_eye.Values.{Any, Payload, get}
use moon_eye.Grid.{
  indices, insert_int, sort_ints, last, make_row, fill_row, fill_made, ordered_slice_by_index,
}

-- Is there an index below zero?
abbrev pub any_negative : List ℤ → Bool
any_negative [] = false
any_negative (pos n ∷ is) = any_negative is
any_negative (negsuc n ∷ is) = true

any_negative-insert_int :
    (a : ℤ) (is : List ℤ) → any_negative (insert_int a is) ≡ any_negative (a ∷ is)
unfolding insert_int
any_negative-insert_int (pos n) [] = refl
any_negative-insert_int (negsuc n) [] = refl
any_negative-insert_int (pos n) (pos m ∷ is) = ground (arith, any_negative-insert_int (pos n) is)
any_negative-insert_int (pos n) (negsuc m ∷ is) = ground arith
any_negative-insert_int (negsuc n) (pos m ∷ is) =
    ground (arith, any_negative-insert_int (negsuc n) is)
any_negative-insert_int (negsuc n) (negsuc m ∷ is) = ground arith

any_negative-sort_ints : (is : List ℤ) → any_negative (sort_ints is) ≡ any_negative is
unfolding sort_ints
any_negative-sort_ints [] = refl
any_negative-sort_ints (pos n ∷ is) =
    any_negative-insert_int (pos n) (sort_ints is) ∙ any_negative-sort_ints is
any_negative-sort_ints (negsuc n ∷ is) = any_negative-insert_int (negsuc n) (sort_ints is)

fill_row-negative :
    (p : Payload) (row : List Any) (is : List ℤ) → any_negative is ≡ true → fill_row p row is ≡ none
unfolding fill_row
fill_row-negative p row [] h = cc
fill_row-negative p row (negsuc n ∷ is) h = refl
fill_row-negative p row (pos i ∷ is) h =
    ground (arith, fill_row-negative p (set row i (get p (itoa i))) is h)

fill_made-negative :
    (p : Payload) (is : List ℤ) (made : Option (List Any))
    → any_negative is ≡ true
    → fill_made p is made ≡ none
fill_made-negative p is none h = refl
fill_made-negative p is (some row) h = rw (fill_row-negative p row is h, fill_made)

-- A key that `Atoi` reads as a negative number makes the function panic.
pub ordered_slice_by_index-negative :
    (p : Payload) → any_negative (indices p) ≡ true → ordered_slice_by_index p ≡ none
unfolding ordered_slice_by_index
ordered_slice_by_index-negative [] h = cc
ordered_slice_by_index-negative (e ∷ p) h =
    let is = sort_ints (indices (e ∷ p)) in
    fill_made-negative (e ∷ p) is (make_row (wrap64 (last (pos 0) is +ℤ pos 1)))
      (any_negative-sort_ints (indices (e ∷ p)) ∙ h)

-- Is `i` one of the indices?
abbrev pub has : ℕ → List ℤ → Bool
has i [] = false
has i (pos n ∷ is) = (n == i) || has i is
has i (negsuc n ∷ is) = has i is

-- Every index is a number up to `m`.
abbrev pub AllAtMost : ℕ → List ℤ → Type 0
AllAtMost m [] = Unit
AllAtMost m (pos n ∷ is) = (n ≤ m) × AllAtMost m is
AllAtMost m (negsuc n ∷ is) = ⊥

has-insert_int : (i : ℕ) (a : ℤ) (is : List ℤ) → has i (insert_int a is) ≡ has i (a ∷ is)
unfolding insert_int
has-insert_int i a [] = refl
has-insert_int i (pos n) (pos m ∷ is) = ground (arith, has-insert_int i (pos n) is)
has-insert_int i (pos n) (negsuc m ∷ is) = ground (arith, has-insert_int i (pos n) is)
has-insert_int i (negsuc n) (pos m ∷ is) = ground (arith, has-insert_int i (negsuc n) is)
has-insert_int i (negsuc n) (negsuc m ∷ is) = ground (arith, has-insert_int i (negsuc n) is)

pub has-sort_ints : (i : ℕ) (is : List ℤ) → has i (sort_ints is) ≡ has i is
unfolding sort_ints
has-sort_ints i [] = refl
has-sort_ints i (pos n ∷ is) =
    has-insert_int i (pos n) (sort_ints is) ∙ ap (λ b. (n == i) || b) (has-sort_ints i is)
has-sort_ints i (negsuc n ∷ is) = has-insert_int i (negsuc n) (sort_ints is) ∙ has-sort_ints i is

AllAtMost-insert_int :
    (m : ℕ) (a : ℤ) (is : List ℤ) → AllAtMost m (a ∷ is) → AllAtMost m (insert_int a is)
unfolding insert_int
AllAtMost-insert_int m a [] h = h
AllAtMost-insert_int m (pos n) (pos k ∷ is) h = elim (Bool-cases (ltb_ℤ (pos k) (pos n))) [
  | inl below ↦ rw below (h.1.0, AllAtMost-insert_int m (pos n) is (h.0, h.1.1))
  | inr above ↦ rw above h
]
AllAtMost-insert_int m (pos n) (negsuc k ∷ is) h = absurd h.1
AllAtMost-insert_int m (negsuc n) (b ∷ is) h = absurd h

pub AllAtMost-sort_ints : (m : ℕ) (is : List ℤ) → AllAtMost m is → AllAtMost m (sort_ints is)
unfolding sort_ints
AllAtMost-sort_ints m [] h = tt
AllAtMost-sort_ints m (pos n ∷ is) h =
    AllAtMost-insert_int m (pos n) (sort_ints is) (h.0, AllAtMost-sort_ints m is h.1)
AllAtMost-sort_ints m (negsuc n ∷ is) h = absurd h

abbrev pub AllAtLeast : ℕ → List ℤ → Type 0
AllAtLeast n [] = Unit
AllAtLeast n (pos k ∷ is) = (n ≤ k) × AllAtLeast n is
AllAtLeast n (negsuc k ∷ is) = ⊥

abbrev pub IsSorted : List ℤ → Type 0
IsSorted [] = Unit
IsSorted (pos n ∷ is) = AllAtLeast n is × IsSorted is
IsSorted (negsuc n ∷ is) = ⊥

AllAtLeast-mono : (n k : ℕ) (is : List ℤ) → n ≤ k → AllAtLeast k is → AllAtLeast n is
AllAtLeast-mono n k [] le h = tt
AllAtLeast-mono n k (pos j ∷ is) le h = (omega (arith, h.0), AllAtLeast-mono n k is le h.1)
AllAtLeast-mono n k (negsuc j ∷ is) le h = absurd h

AllAtLeast-insert_int :
    (n k : ℕ) (is : List ℤ) → n ≤ k → AllAtLeast n is → AllAtLeast n (insert_int (pos k) is)
unfolding insert_int
AllAtLeast-insert_int n k [] le h = (le, tt)
AllAtLeast-insert_int n k (pos j ∷ is) le h = elim (Bool-cases (ltb_ℤ (pos j) (pos k))) [
  | inl below ↦ rw below (h.0, AllAtLeast-insert_int n k is le h.1)
  | inr above ↦ rw above (le, h)
]
AllAtLeast-insert_int n k (negsuc j ∷ is) le h = absurd h

IsSorted-insert_int : (n : ℕ) (is : List ℤ) → IsSorted is → IsSorted (insert_int (pos n) is)
unfolding insert_int
IsSorted-insert_int n [] h = (tt, tt)
IsSorted-insert_int n (pos k ∷ is) h = elim (Bool-cases (ltb_ℤ (pos k) (pos n))) [
  | inl below ↦
      rw below (AllAtLeast-insert_int k n is (ground arith) h.0, IsSorted-insert_int n is h.1)
  | inr above ↦ let le : n ≤ k = ground arith in rw above ((le, AllAtLeast-mono n k is le h.0), h)
]
IsSorted-insert_int n (negsuc k ∷ is) h = absurd h

pub sort_ints-IsSorted : (m : ℕ) (is : List ℤ) → AllAtMost m is → IsSorted (sort_ints is)
unfolding sort_ints
sort_ints-IsSorted m [] h = tt
sort_ints-IsSorted m (pos n ∷ is) h =
    IsSorted-insert_int n (sort_ints is) (sort_ints-IsSorted m is h.1)
sort_ints-IsSorted m (negsuc n ∷ is) h = absurd h

-- The last of sorted indices bounds them all, and keeps a bound of all.
pub last_bound :
    (b n : ℕ) (is : List ℤ)
    → IsSorted (pos n ∷ is)
    → AllAtMost b (pos n ∷ is)
    → (m : ℕ) × (last (pos n) is ≡ pos m)
      × AllAtMost m (pos n ∷ is)
      × (m ≤ b)
      × (has m (pos n ∷ is) ≡ true)
last_bound b n [] s h = (n, refl, (omega arith, tt), h.0, ground arith)
last_bound b n (pos k ∷ is) s h =
    let (m, e, all, le, found) = last_bound b k is s.1 h.1 in
    (m, e, (omega (arith, s.0.0, all.0), all), le, ground (arith, found))
last_bound b n (negsuc k ∷ is) s h = absurd h.1
