-- ===== src/Grid.antt =====
-- pkg/shared/mapx/mapx.go: a map keyed by column numbers as a row of cells. `none` stands for a
-- run-time panic. A slice that memory cannot hold is not modelled.
pub mod Indices
pub mod Cells
use moon_eye.Base.{
  ℕ, ◌+◌, Bool, true, false, List, [], ◌∷◌, map, Str, Option, none, some, length, set, replicate,
  ltb, if◌then◌else◌,
}
use moon_eye.Base.Int.{ℤ, pos, negsuc, ltb_ℤ, ◌+ℤ◌}
use moon_eye.Base.Words.{wrap64}
use moon_eye.Strconv.{atoi, itoa}
use moon_eye.Values.{Any, nil, string, Payload, get}

-- The indices of the keys, in the map's order. `Atoi` gives 0 for a key that is no number.
abbrev pub indices : Payload → List ℤ
indices [] = []
indices ((k, v) ∷ p) = atoi k ∷ indices p

-- `sort.Ints`.
unfoldable pub insert_int : ℤ → List ℤ → List ℤ
insert_int a [] = a ∷ []
insert_int a (b ∷ bs) = if ltb_ℤ b a then b ∷ insert_int a bs else a ∷ b ∷ bs

unfoldable pub sort_ints : List ℤ → List ℤ
unfolding insert_int
sort_ints [] = []
sort_ints (a ∷ as') = insert_int a (sort_ints as')

-- `indices[len(indices)-1]`, with the value for the empty list never used.
abbrev pub last : ℤ → List ℤ → ℤ
last d [] = d
last d (a ∷ as') = last a as'

-- `make([]interface{}, n)`.
abbrev pub make_row : ℤ → Option (List Any)
make_row (pos n) = some (replicate n nil)
make_row (negsuc n) = none

-- `for _, idx := range indices { row[idx] = payload[strconv.Itoa(idx)] }`.
unfoldable pub fill_row : Payload → List Any → List ℤ → Option (List Any)
fill_row p row [] = some row
fill_row p row (negsuc n ∷ is) = none
fill_row p row (pos i ∷ is) =
    let rest = fill_row p (set row i (get p (itoa i))) is in
    if ltb i (length row) then rest else none

abbrev pub blank : Any → Any
blank nil = string []
blank v = v

abbrev pub fill_made : Payload → List ℤ → Option (List Any) → Option (List Any)
fill_made p is none = none
fill_made p is (some row) = elim (fill_row p row is) [ none ↦ none | some r ↦ some (map blank r) ]

unfoldable pub ordered_slice_by_index : Payload → Option (List Any)
ordered_slice_by_index [] = some []
ordered_slice_by_index (e ∷ p) =
    let is = sort_ints (indices (e ∷ p)) in
    fill_made (e ∷ p) is (make_row (wrap64 (last (pos 0) is +ℤ pos 1)))
