-- ===== src/Sheets/Google/RoundTrip.antt =====
-- A fetched row, written back by `ApplyChanges`, has the cells that were read.
use moon_eye.Base.{
  ℕ, zero, suc, ◌+◌, ◌-◌, ◌≤◌, ◌<◌, ◌≡◌, refl, ◌∙◌, sym, ap, ap₂, List, [], ◌∷◌, ◌++◌, map, Str,
  none, some, lookup, insert, str_eq, str_eq_iff, length, length-map, get_elem?, arith, Bool-cases,
  inl, inr, true,
}
use mathlib.Core.List.{append-nil, append_assoc}
use mathlib.Core.Option.{some-injective}
use moon_eye.Base.Int.{ℤ, pos}
use moon_eye.Base.Words.{sign_bit}
use moon_eye.Outcome.{ok}
use moon_eye.Strconv.{atoi, itoa}
use moon_eye.Strconv.RoundTrip.{atoi-itoa}
use moon_eye.Values.{Any, Payload, get}
use moon_eye.Grid.{indices, blank, ordered_slice_by_index}
use moon_eye.Grid.Indices.{has, AllAtMost}
use moon_eye.Grid.Cells.{IsRowOf, ordered_slice_by_index_cells}
use moon_eye.Sheets.Google.{row_payload, remote_rows, value_rows}

abbrev number_of : ℤ → ℕ
number_of (pos n) = n
number_of _ = 0

itoa-injective : (i j : ℕ) → i < sign_bit → j < sign_bit → itoa i ≡ itoa j → i ≡ j
itoa-injective i j hi hj e = ap number_of (sym (atoi-itoa i hi) ∙ ap atoi e ∙ atoi-itoa j hj)

get_elem?-lt : (xs : List Any) (i : ℕ) (v : Any) → get_elem? xs i ≡ some v → i < length xs
get_elem?-lt [] i v e = cc
get_elem?-lt (x ∷ xs) zero v e = omega arith
get_elem?-lt (x ∷ xs) (suc i) v e = omega (arith, get_elem?-lt xs i v e)

-- An index in range has a value.
get_elem?-some : (xs : List Any) (i : ℕ) → i < length xs → (v : Any) × (get_elem? xs i ≡ some v)
get_elem?-some [] i h = elim h [ ]
get_elem?-some (x ∷ xs) zero h = (x, refl)
get_elem?-some (x ∷ xs) (suc i) h = get_elem?-some xs i (omega arith)

get_elem?-map :
    (f : Any → Any) (xs : List Any) (i : ℕ) (v : Any)
    → get_elem? xs i ≡ some v
    → get_elem? (map f xs) i ≡ some (f v)
get_elem?-map f [] i v e = cc
get_elem?-map f (x ∷ xs) zero v e = ap some (ap f (some-injective x v e))
get_elem?-map f (x ∷ xs) (suc i) v e = get_elem?-map f xs i v e

-- Cells under their column numbers, from `j` on.
abbrev numbered : ℕ → List Any → Payload
numbered j [] = []
numbered j (c ∷ cs) = (itoa j, c) ∷ numbered (suc j) cs

abbrev KeysBelow : ℕ → Payload → Type 0
KeysBelow j [] = Unit
KeysBelow j ((k, v) ∷ m) = ((i : ℕ) × (k ≡ itoa i) × (i < j)) × KeysBelow j m

lookup-KeysBelow : (j : ℕ) (m : Payload) → j < sign_bit → KeysBelow j m → lookup (itoa j) m ≡ none
lookup-KeysBelow j [] b h = refl
lookup-KeysBelow j ((k, v) ∷ m) b ((i, e, lt), h) = elim (Bool-cases (str_eq k (itoa j))) [
  | inl same ↦
      let clash : i ≡ j =
        itoa-injective i j (omega arith) b (sym e ∙ (str_eq_iff k (itoa j)).0 same) in
      absurd (omega (arith, clash, lt))
  | inr differs ↦ rw differs (lookup-KeysBelow j m b h)
]

KeysBelow-append :
    (j : ℕ) (v : Any) (m : Payload) → KeysBelow j m → KeysBelow (suc j) (m ++ (itoa j, v) ∷ [])
KeysBelow-append j v [] h = ((j, refl, omega arith), tt)
KeysBelow-append j v (e ∷ m) ((i, same, lt), h) = ((i, same, omega arith), KeysBelow-append j v m h)

insert-fresh :
    (k : Str) (v : Any) (m : Payload) → lookup k m ≡ none → insert k v m ≡ m ++ (k, v) ∷ []
insert-fresh k v [] h = refl
insert-fresh k v ((i, w) ∷ m) h = ground (arith, insert-fresh k v m)

row_payload-append :
    (j : ℕ) (cs : List Any) (m : Payload)
    → j + length cs ≤ sign_bit
    → KeysBelow j m
    → row_payload j cs m ≡ m ++ numbered j cs
unfolding row_payload
row_payload-append j [] m b h = sym (append-nil m)
row_payload-append j (c ∷ cs) m b h =
    let fresh = insert-fresh (itoa j) c m (lookup-KeysBelow j m (omega arith) h) in
    ap (row_payload (suc j) cs) fresh
    ∙ row_payload-append (suc j) cs (m ++ (itoa j, c) ∷ []) (omega arith) (KeysBelow-append j c m h)
    ∙ append_assoc m ((itoa j, c) ∷ []) (numbered (suc j) cs)

indices-numbered :
    (j : ℕ) (cs : List Any)
    → j + length cs < sign_bit
    → AllAtMost (sign_bit - 2) (indices (numbered j cs))
indices-numbered j [] b = tt
indices-numbered j (c ∷ cs) b =
    rw (atoi-itoa j (omega arith)) (omega arith, indices-numbered (suc j) cs (omega arith))

has-numbered_bound :
    (i j : ℕ) (cs : List Any)
    → j + length cs < sign_bit
    → has i (indices (numbered j cs)) ≡ true
    → i < j + length cs
has-numbered_bound i j [] b h = cc
has-numbered_bound i j (c ∷ cs) b h =
    ground (arith, has-numbered_bound i (suc j) cs (omega arith), atoi-itoa j (omega arith))

has-numbered_last :
    (j : ℕ) (c : Any) (cs : List Any)
    → suc (j + length cs) < sign_bit
    → has (j + length cs) (indices (numbered j (c ∷ cs))) ≡ true
has-numbered_last j c [] b = rw (atoi-itoa j (omega arith)) (ground arith)
has-numbered_last j c (c' ∷ cs) b =
    ground (arith, has-numbered_last (suc j) c' cs (omega arith), atoi-itoa j (omega arith))

get-numbered :
    (i j k : ℕ) (cs : List Any) (v : Any)
    → k ≡ j + i
    → j + length cs < sign_bit
    → get_elem? cs i ≡ some v
    → get (numbered j cs) (itoa k) ≡ v
get-numbered i j k [] v at b e = cc
get-numbered zero j k (c ∷ cs) v at b e =
    rw ((str_eq_iff (itoa j) (itoa k)).1 (ap itoa (omega arith))) (some-injective c v e)
get-numbered (suc i) j k (c ∷ cs) v at b e = elim (Bool-cases (str_eq (itoa j) (itoa k))) [
  | inl same ↦
      let in_range : i < length cs = get_elem?-lt cs i v e in
      let clash : j ≡ k =
        itoa-injective j k (omega arith) (omega arith) ((str_eq_iff (itoa j) (itoa k)).0 same) in
      absurd (omega (arith, clash))
  | inr differs ↦ rw differs (get-numbered i (suc j) k cs v (omega arith) (omega arith) e)
]

list_ext :
    (xs ys : List Any)
    → length xs ≡ length ys
    → ((i : ℕ) → i < length ys → get_elem? xs i ≡ get_elem? ys i)
    → xs ≡ ys
list_ext [] [] e h = refl
list_ext [] (y ∷ ys) e h = absurd (omega arith)
list_ext (x ∷ xs) [] e h = absurd (omega arith)
list_ext (x ∷ xs) (y ∷ ys) e h =
    ap₂ ◌∷◌ (cc (h 0 (omega arith)))
      (list_ext xs ys (omega arith) (λ i lt. h (suc i) (omega arith)))

-- The row of cells under their column numbers.
row-numbered :
    (c : Any) (cs row : List Any)
    → length (c ∷ cs) < sign_bit
    → IsRowOf (numbered 0 (c ∷ cs)) row
    → row ≡ map blank (c ∷ cs)
row-numbered c cs row b is_row =
    list_ext row (map blank (c ∷ cs)) (is_row.width ∙ omega (arith, wide, length-map cs blank))
      λ i lt.
        let (v, e) = get_elem?-some (c ∷ cs) i (omega (arith, length-map cs blank)) in
        is_row.cells i (omega (arith, wide, length-map cs blank))
        ∙ ap (λ (u : Any). some (blank u))
            (get-numbered i 0 i (c ∷ cs) v (omega arith) (omega arith) e)
        ∙ sym (get_elem?-map blank (c ∷ cs) i v e)
  where
    below : is_row.widest < 0 + length (c ∷ cs)
    below = has-numbered_bound is_row.widest 0 (c ∷ cs) (omega arith) is_row.indexed

    above : 0 + length cs ≤ is_row.widest
    above = is_row.bound (0 + length cs) (has-numbered_last 0 c cs (omega arith))

    wide : is_row.widest ≡ length cs
    wide = omega (arith, below, above)

-- Reading cells into a payload and ordering the payload gives the cells back, with the empty string
-- for a nil cell.
pub ordered_slice_by_index-row_payload :
    (cells : List Any)
    → length cells < sign_bit
    → ordered_slice_by_index (row_payload 0 cells []) ≡ some (map blank cells)
unfolding ordered_slice_by_index row_payload
ordered_slice_by_index-row_payload [] b = refl
ordered_slice_by_index-row_payload (c ∷ cs) b =
    let keyed = row_payload-append 0 (c ∷ cs) [] (omega arith) tt in
    let (row, made, is_row) =
      ordered_slice_by_index_cells (itoa 0, c) (numbered 1 cs)
        (indices-numbered 0 (c ∷ cs) (omega arith)) in
    ap ordered_slice_by_index keyed ∙ made ∙ ap some (row-numbered c cs row b is_row)

abbrev pub AllNarrow : List (List Any) → Type 0
AllNarrow [] = Unit
AllNarrow (cells ∷ rows) = (length cells < sign_bit) × AllNarrow rows

-- The rows after the header are sent back as they were read.
pub value_rows-remote_rows :
    (i : ℕ) (rows : List (List Any))
    → AllNarrow rows
    → value_rows (remote_rows i rows) ≡ ok (map (map blank) rows)
unfolding value_rows remote_rows
value_rows-remote_rows i [] h = refl
value_rows-remote_rows i (cells ∷ rows) h =
    ground
      (arith, ordered_slice_by_index-row_payload cells h.0, value_rows-remote_rows (suc i) rows h.1)
