-- ===== src/Database/Models.antt =====
-- internal/db/models.go: transactions with Go's own types.
use moon_eye.Base.{Str, Option}
use moon_eye.Base.Int.{ℤ}
use moon_eye.Values.{Time, Float64, Payload}
use moon_eye.Database.Pg.{Uuid}

pub record Transaction : Type 0 where
  pub id : Uuid
  pub user_id : Uuid
  pub account_id : Uuid
  pub amount : Float64
  pub currency : Str
  pub type : Str
  pub category_id : Option Uuid
  pub description : Option Str
  pub occurred_at : Time
  pub metadata : Payload
  pub version : ℤ
  pub last_modified : Time
  pub source : Str
  pub sheets_row_id : Option Str
  pub created_at : Time
  pub updated_at : Time
  pub deleted_at : Time

pub record CreateTransactionParams : Type 0 where
  pub user_id : Uuid
  pub account_id : Uuid
  pub amount : Float64
  pub currency : Str
  pub type : Str
  pub category_id : Option Uuid
  pub description : Option Str
  pub occurred_at : Time
  pub metadata : Payload
  pub version : ℤ
  pub last_modified : Time
  pub source : Str
  pub sheets_row_id : Option Str
  pub created_at : Time
  pub updated_at : Time
  pub deleted_at : Time

pub record UpdateTransactionParams : Type 0 where
  pub id : Uuid
  pub user_id : Uuid
  pub account_id : Uuid
  pub amount : Float64
  pub currency : Str
  pub type : Str
  pub category_id : Option Uuid
  pub description : Option Str
  pub occurred_at : Time
  pub metadata : Payload
  pub source : Str
  pub sheets_row_id : Option Str
  pub version : ℤ
  pub created_at : Time
  pub updated_at : Time
  pub deleted_at : Time

pub record TransactionFilter : Type 0 where
  pub user_id : Uuid
  pub account_id : Option Uuid
  pub type : Option Str
  pub from_occurred_at : Option Time
  pub to_occurred_at : Option Time
  pub limit : ℤ
  pub offset : ℤ

-- What `internal/db/change_event_repository.go` writes.
pub record ChangeEvent : Type 0 where
  pub entity_type : Str
  pub entity_id : Str
  pub user_id : Str
  pub op_type : Str
  pub payload : Str
  pub version : ℤ
