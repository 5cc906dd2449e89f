-- ===== src/Tests/Cells.antt =====
-- Rows of cells as they are read from a sheet and written back.
use moon_eye.Base.{◌≡◌, List, [], ◌∷◌, codes, some, arith}
use moon_eye.Base.Int.{pos}
use moon_eye.Strconv.{atoi, itoa, parse_int, parse_uint, parse_digits}
use moon_eye.Strconv.RoundTrip.{atoi-itoa}
use moon_eye.Values.{Any, nil, string, int64, Payload}
use moon_eye.Grid.{ordered_slice_by_index}
use moon_eye.Grid.Cells.{IsRowOf, ordered_slice_by_index_cells}

abbrev cells : List Any
cells = string (codes "rent") ∷ nil ∷ int64 (pos 900) ∷ []

atoi-itoa_example : atoi (itoa 2024) ≡ pos 2024
atoi-itoa_example = atoi-itoa 2024 (omega arith)

abbrev columns : Payload
columns = (codes "2", string (codes "x")) ∷ []

ordered_slice_by_index_cells_example :
    (row : List Any) × (ordered_slice_by_index ((codes "0", int64 (pos 5)) ∷ columns) ≡ some row)
    × IsRowOf ((codes "0", int64 (pos 5)) ∷ columns) row
unfolding parse_int parse_uint parse_digits
ordered_slice_by_index_cells_example =
    ordered_slice_by_index_cells (codes "0", int64 (pos 5)) columns (omega arith)
