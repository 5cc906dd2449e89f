-- ===== src/Database/Pg.antt =====
-- pkg/shared/pgtypex and pkg/shared/uuidx: Go values as the values of pgx's types and back. A value
-- of pgtype that is not valid is NULL, here `none`.
use moon_eye.Base.{
  ℕ, ◌^◌, suc, zero, Bool, not, ◌||◌, [], ◌∷◌, Str, codes, Option, none, some, if◌then◌else◌,
}
use moon_eye.Base.Int.{ℤ, pos, negsuc, ◌*ℤ◌}
use moon_eye.Outcome.{Result, ok, err, other}
use moon_eye.Values.{Time, zero_time, Float64, Payload}

-- The 16 bytes of a uuid as a number.
abbrev pub Uuid : Type 0
Uuid = ℕ

-- `pgtype.Numeric`: int * 10 ^ exp.
pub record Numeric : Type 0 where
  pub int : ℤ
  pub exp : ℤ
  pub nan : Bool
  pub valid : Bool

-- What the code calls of gofrs/uuid, pgx, math/big and encoding/json.
pub record Driver : Type 0 where
  -- `uuid.FromString` and `UUID.String`.
  pub parse_uuid : Str → Result Uuid
  pub print_uuid : Uuid → Str
  -- `Scan` of a float64, a time.Time and a string.
  pub scan_float : Float64 → Result Numeric
  pub scan_time : Time → Result (Option Time)
  pub scan_text : Str → Result (Option Str)
  -- `big.Rat.Float64` of a fraction.
  pub rat_float : ℤ → ℕ → Float64
  -- `json.Marshal` and `json.Unmarshal` of a `map[string]any`.
  pub marshal_metadata : Payload → Result Str
  pub unmarshal_metadata : Str → Result Payload

abbrev pub time_or_zero : Option Time → Time
time_or_zero none = zero_time
time_or_zero (some t) = t

-- `TimeFromTimestamptz`.
abbrev pub time_from_timestamptz : Option Time → Time
time_from_timestamptz ts = time_or_zero ts

-- `PGToUUID`.
unfoldable pub pg_to_uuid : Option Uuid → Result Uuid
pg_to_uuid none = err (other (codes "uuid is null"))
pg_to_uuid (some id) = ok id

abbrev pub zero_float : Float64
zero_float = record { mantissa = pos 0; halvings = 0 }

module _ (d : Driver) where
  -- `StringToPGUUID`.
  unfoldable pub string_to_pg_uuid : Str → Result (Option Uuid)
  string_to_pg_uuid [] = err (other (codes "empty uuid string"))
  string_to_pg_uuid (c ∷ s) = elim (d.parse_uuid (c ∷ s)) [ ok id ↦ ok (some id) | err e ↦ err e ]

  -- `TextFromStringPtr`; `StringPtrFromText` gives the pointer back, here the same value.
  unfoldable pub text_from_string_ptr : Option Str → Result (Option Str)
  text_from_string_ptr none = ok none
  text_from_string_ptr (some s) = d.scan_text s

  abbrev pub rat_of : ℤ → ℤ → Float64
  rat_of int (pos zero) = d.rat_float int 1
  rat_of int (pos n) = d.rat_float (int *ℤ pos (10 ^ n)) 1
  rat_of int (negsuc n) = d.rat_float int (10 ^ suc n)

  -- `Float64FromNumeric`, which gives no error.
  unfoldable pub float64_from_numeric : Numeric → Float64
  float64_from_numeric n = if not n.valid || n.nan then zero_float else rat_of n.int n.exp
