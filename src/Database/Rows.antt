-- ===== src/Database/Rows.antt =====
-- The rows of the tables, as sqlc's models.go and the migrations have them, and the state of the database. What Postgres does to a row that is written (the rounding to
-- NUMERIC(18,2), the constraints) is the parameter `admit` of the statements.
use moon_eye.Base.{ℕ, suc, Bool, List, [], ◌∷◌, Str, Option, none, some}
use moon_eye.Base.Int.{ℤ}
use moon_eye.Outcome.{Error, Result, err, Action}
use moon_eye.Values.{Time}
use moon_eye.Database.Pg.{Uuid, Numeric}

pub record TransactionRow : Type 0 where
  pub id : Option Uuid
  pub user_id : Option Uuid
  pub account_id : Option Uuid
  pub amount : Numeric
  pub currency : Str
  pub type : Str
  pub category_id : Option Uuid
  pub description : Option Str
  pub occurred_at : Option Time
  pub metadata : Str
  pub version : ℤ
  pub last_modified : Option Time
  pub source : Str
  pub sheets_row_id : Option Str
  pub created_at : Option Time
  pub updated_at : Option Time
  pub deleted_at : Option Time

pub record ChangeEventRecord : Type 0 where
  pub id : ℕ
  pub entity_type : Str
  pub entity_id : Option Uuid
  pub user_id : Option Uuid
  pub op_type : Str
  pub payload : Str
  pub version : ℤ
  pub created_at : Option Time
  pub updated_at : Option Time
  pub deleted_at : Option Time

-- The columns of users that the statements read or write.
pub record UserRow : Type 0 where
  pub id : Option Uuid
  pub email : Str
  pub hashed_password : Str
  pub created_at : Option Time
  pub updated_at : Option Time
  pub deleted_at : Option Time

pub record RefreshTokenRow : Type 0 where
  pub id : Option Uuid
  pub user_id : Option Uuid
  pub encrypted_token : Str
  pub expires_at : Option Time
  pub revoked : Bool
  pub created_at : Option Time
  pub updated_at : Option Time
  pub deleted_at : Option Time

-- The columns of sheets_connections and sheet_mappings that the statements read.
pub record SheetsConnectionRow : Type 0 where
  pub id : Option Uuid
  pub user_id : Option Uuid
  pub sheet_id : Str
  pub sheet_range : Option Str
  pub sync_mode : Str
  pub last_synced_at : Option Time

pub record SheetMappingRow : Type 0 where
  pub id : Option Uuid
  pub connection_id : Option Uuid
  pub sheet_column : Str
  pub db_field : Str
  pub transform : Option Str

-- No statement of the program writes `sheets_connections` and `sheet_mappings`. `last_event` is the
-- BIGSERIAL of change_events and `ids` what gen_random_uuid() gives next; neither is rolled back.
-- `clock` gives the time at each reading; it may stand still, as NOW() does in a transaction. `drawn`
-- counts the random values that the process has read. `outages` tells for each statement to come
-- whether it fails for a reason outside the program.
pub record Database : Type 0 where
  pub transactions : List TransactionRow
  pub change_events : List ChangeEventRecord
  pub users : List UserRow
  pub refresh_tokens : List RefreshTokenRow
  pub sheets_connections : List SheetsConnectionRow
  pub sheet_mappings : List SheetMappingRow
  pub last_event : ℕ
  pub ids : ℕ → Uuid
  pub issued : ℕ
  pub clock : ℕ → Time
  pub ticks : ℕ
  pub drawn : ℕ
  pub outages : List (Option Error)

-- `NOW()` and `time.Now()`.
abbrev pub now : Database → Time
now s = s.clock s.ticks

abbrev pub tick : Database → Database
tick s = record s { ticks = suc s.ticks }

-- A read of the process's random source; `f` gives what it yields at each read.
unfoldable pub draw : {A : Type 0} → (ℕ → Result A) → Action Database A
draw f s = (f s.drawn, record s { drawn = suc s.drawn })

-- One statement: an outage leaves the tables as they are.
unfoldable pub execute : {A : Type 0} → Action Database A → Action Database A
execute f s = elim s.outages [
  | [] ↦ f s
  | none ∷ rest ↦ f (record s { outages = rest })
  | some e ∷ rest ↦ (err e, record s { outages = rest })
]
