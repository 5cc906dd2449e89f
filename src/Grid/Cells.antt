-- ===== src/Grid/Cells.antt =====
-- The row that `OrderedSliceByIndex` builds, cell by cell.
use mathlib.Core.Bool.{false≢true}
use moon_eye.Base.{
  ℕ, zero, suc, ◌-◌, ◌≤◌, ◌<◌, ◌≡◌, refl, ◌∙◌, sym, ap, true, false, List, [], ◌∷◌, map, Str,
  Option, some, length, set, get_elem?, replicate, lt→ltb, ==_iff, ◌==◌, arith, Bool-cases, inl,
  inr, str_eq, str_eq_iff, length-set, get_elem?-set_self, get_elem?-set_ne, length-replicate,
  length-map, if◌then◌else◌, ◌≢◌, subst, ap₂,
}
use moon_eye.Base.Int.{ℤ, pos, negsuc, ◌+ℤ◌}
use moon_eye.Base.Words.{wrap64, sign_bit}
use moon_eye.Strconv.{atoi, itoa}
use moon_eye.Strconv.RoundTrip.{atoi-itoa}
use moon_eye.Values.{Any, nil, Payload, get}
use moon_eye.Grid.Indices.{
  has, AllAtMost, has-sort_ints, AllAtMost-sort_ints, IsSorted, sort_ints-IsSorted, last_bound,
}
use moon_eye.Grid.{
  indices, insert_int, sort_ints, last, make_row, fill_row, fill_made, blank,
  ordered_slice_by_index,
}

abbrev cell_of : Payload → ℕ → Any
cell_of p i = get p (itoa i)

get_elem?-set :
    (row : List Any) (n i : ℕ) (v : Any)
    → n < length row
    → get_elem? (set row n v) i ≡ (if n == i then some v else get_elem? row i)
get_elem?-set row n i v h = elim (Bool-cases (n == i)) [
  | inl same ↦
      rw same
        (ap (get_elem? (set row n v)) (sym ((==_iff n i).0 same)) ∙ get_elem?-set_self row n v h)
  | inr differs ↦ rw differs (get_elem?-set_ne row v (ground arith))
]

-- Filling writes the indexed cells and no others.
fill_row_cells :
    (p : Payload) (m : ℕ) (row : List Any) (is : List ℤ)
    → AllAtMost m is
    → length row ≡ suc m
    → (row' : List Any) × (fill_row p row is ≡ some row')
      × (length row' ≡ suc m)
      × ((i : ℕ)
          → i ≤ m
          → get_elem? row' i ≡ (if has i is then some (cell_of p i) else get_elem? row i))
unfolding fill_row
fill_row_cells p m row [] h len = (row, refl, len, λ i _. refl)
fill_row_cells p m row (negsuc n ∷ is) h len = absurd h
fill_row_cells p m row (pos n ∷ is) h len =
    let row1 = set row n (cell_of p n) in
    let (row', filled, len', cells) =
      fill_row_cells p m row1 is h.1 (length-set row n (cell_of p n) ∙ len) in
    (
      row',
      rw (lt→ltb n (length row) (omega (arith, h.0, len))) filled,
      len',
      λ i le.
          cells i le
          ∙ ground (
            arith,
            get_elem?-set row n i (cell_of p n) (omega (arith, h.0, len)),
            ap (cell_of p) {x = n} {y = i},
          ),
    )

has-tail : (i : ℕ) (a : ℤ) (is : List ℤ) → has i (a ∷ is) ≡ false → has i is ≡ false
has-tail i (pos n) is h = ground arith
has-tail i (negsuc n) is h = h

-- A key that is the decimal of `i` makes `i` an index.
has-indices :
    (i : ℕ) (p : Payload) → i < sign_bit → has i (indices p) ≡ false → get p (itoa i) ≡ nil
has-indices i [] b h = refl
has-indices i ((k, v) ∷ p) b h = elim (Bool-cases (str_eq k (itoa i))) [
  | inl same ↦
      let read : atoi k ≡ pos i = ap atoi ((str_eq_iff k (itoa i)).0 same) ∙ atoi-itoa i b in
      absurd (false≢true (sym h ∙ rw read (ground arith)))
  | inr differs ↦ rw differs (has-indices i p b (has-tail i (atoi k) (indices p) h))
]

get_elem?-replicate_nil : (n i : ℕ) → i < n → get_elem? (replicate n nil) i ≡ some nil
get_elem?-replicate_nil zero i h = elim h [ ]
get_elem?-replicate_nil (suc n) zero h = refl
get_elem?-replicate_nil (suc n) (suc i) h = get_elem?-replicate_nil n i (omega arith)

get_elem?-map-blank :
    (row : List Any) (i : ℕ) (v : Any)
    → get_elem? row i ≡ some v
    → get_elem? (map blank row) i ≡ some (blank v)
get_elem?-map-blank [] i v e = cc
get_elem?-map-blank (x ∷ row) zero v e = cc
get_elem?-map-blank (x ∷ row) (suc i) v e = get_elem?-map-blank row i v e

-- The row of a payload: as wide as its largest index, with `payload[Itoa(i)]` in cell `i`, and the
-- empty string where that is missing.
pub record IsRowOf (p : Payload) (row : List Any) : Type 0 where
  pub widest : ℕ
  pub indexed : has widest (indices p) ≡ true
  pub bound : (i : ℕ) → has i (indices p) ≡ true → i ≤ widest
  pub width : length row ≡ suc widest
  pub cells : (i : ℕ) → i ≤ widest → get_elem? row i ≡ some (blank (cell_of p i))

-- The cells of the made row after filling.
filled_cell :
    (p : Payload) (m i : ℕ) (row : List Any)
    → i ≤ m
    → i < sign_bit
    → get_elem? row i ≡ (
        if has i (sort_ints (indices p))
        then some (cell_of p i)
        else get_elem? (replicate (suc m) nil) i)
    → get_elem? (map blank row) i ≡ some (blank (cell_of p i))
filled_cell p m i row le b e = get_elem?-map-blank row i (cell_of p i) (e ∙ cell)
  where
    cell :
        (if has i (sort_ints (indices p))
          then some (cell_of p i)
          else get_elem? (replicate (suc m) nil) i)
        ≡ some (cell_of p i)
    cell = elim (Bool-cases (has i (sort_ints (indices p)))) [
      | inl known ↦ rw known
      | inr unknown ↦ rw unknown (
          get_elem?-replicate_nil (suc m) i (omega arith)
          ∙ ap some (sym (has-indices i p b (sym (has-sort_ints i (indices p)) ∙ unknown))))
    ]

wrap64-next : (m : ℕ) → m ≤ sign_bit - 2 → wrap64 (pos m +ℤ pos 1) ≡ pos (suc m)
unfolding wrap64 ◌+ℤ◌
wrap64-next m h = ground arith

le-of-has : (m i : ℕ) (is : List ℤ) → AllAtMost m is → has i is ≡ true → i ≤ m
le-of-has m i [] h k = cc
le-of-has m i (pos n ∷ is) h k = ground (arith, le-of-has m i is h.1)
le-of-has m i (negsuc n ∷ is) h k = absurd h

sort_ints-cons : (a : ℤ) (is : List ℤ) → sort_ints (a ∷ is) ≢ []
unfolding sort_ints
sort_ints-cons a is e = insert_int-cons a (sort_ints is) e
  where
    insert_int-cons : (a : ℤ) (is : List ℤ) → insert_int a is ≢ []
    insert_int-cons a [] e = cc
    insert_int-cons a (b ∷ bs) e = ground arith

made :
    (p : Payload) (is : List ℤ) (m : ℕ) (row : List Any) {js : List ℤ} {o : Option (List Any)}
    → o ≡ some (replicate (suc m) nil)
    → js ≡ is
    → fill_row p (replicate (suc m) nil) is ≡ some row
    → fill_made p js o ≡ some (map blank row)
made p is m row {js} {o} eo same filled = ap₂ (fill_made p) same eo ∙ rw (filled, fill_made)

-- A sorted list that has elements.
ordered_slice_by_index_sorted :
    (e : Str × Any) (p : Payload) (is : List ℤ)
    → sort_ints (indices (e ∷ p)) ≡ is
    → is ≢ []
    → AllAtMost (sign_bit - 2) (indices (e ∷ p))
    → (row : List Any) × (ordered_slice_by_index (e ∷ p) ≡ some row) × IsRowOf (e ∷ p) row
unfolding ordered_slice_by_index
ordered_slice_by_index_sorted e p [] same ne h = absurd (ne refl)
ordered_slice_by_index_sorted e p (negsuc n ∷ is) same ne h =
    absurd (subst IsSorted same (sort_ints-IsSorted (sign_bit - 2) (indices (e ∷ p)) h))
ordered_slice_by_index_sorted e p (pos n ∷ is) same ne h =
    let sorted = subst IsSorted same (sort_ints-IsSorted (sign_bit - 2) (indices (e ∷ p)) h) in
    let small =
      subst (AllAtMost (sign_bit - 2)) same
        (AllAtMost-sort_ints (sign_bit - 2) (indices (e ∷ p)) h) in
    let (m, at_end, all, le, found) = last_bound (sign_bit - 2) n is sorted small in
    let (row, filled, width, cells) =
      fill_row_cells (e ∷ p) m (replicate (suc m) nil) (pos n ∷ is) all
        (length-replicate (suc m) nil) in
    (
      map blank row,
      made (e ∷ p) (pos n ∷ is) m row
          (ap (λ (k : List ℤ). make_row (wrap64 (last (pos 0) k +ℤ pos 1))) same
            ∙ ap (λ (k : ℤ). make_row (wrap64 (k +ℤ pos 1))) at_end
            ∙ ap make_row (wrap64-next m le))
          same filled,
      record {
        widest = m;
        indexed = sym (has-sort_ints m (indices (e ∷ p))) ∙ ap (has m) same ∙ found;
        bound = λ i k.
            le-of-has m i (pos n ∷ is) all
              (ap (has i) (sym same) ∙ has-sort_ints i (indices (e ∷ p)) ∙ k);
        width = length-map row blank ∙ width;
        cells = λ i k. filled_cell (e ∷ p) m i row k (omega arith) (rw same (cells i k));
      },
    )

-- When every key reads as an index from 0 to 2 ^ 63 - 2, the function returns the row of the payload.
pub ordered_slice_by_index_cells :
    (e : Str × Any) (p : Payload)
    → AllAtMost (sign_bit - 2) (indices (e ∷ p))
    → (row : List Any) × (ordered_slice_by_index (e ∷ p) ≡ some row) × IsRowOf (e ∷ p) row
ordered_slice_by_index_cells e p =
    ordered_slice_by_index_sorted e p (sort_ints (indices (e ∷ p))) refl
      (sort_ints-cons (atoi e.0) (indices p))
