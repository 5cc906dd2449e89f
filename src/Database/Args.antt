-- ===== src/Database/Args.antt =====
-- internal/db/sqlc/transactions.sql.go and change_events.sql.go: the arguments of the statements.
use moon_eye.Base.{Bool, Str, Option}
use moon_eye.Base.Int.{ℤ}
use moon_eye.Values.{Time}
use moon_eye.Database.Pg.{Uuid, Numeric}

pub record CreateTransactionArg : Type 0 where
  pub user_id : Option Uuid
  pub account_id : Option Uuid
  pub amount : Numeric
  pub currency : Str
  pub type : Str
  pub category_id : Option Uuid
  pub description : Option Str
  pub occurred_at : Option Time
  pub metadata : Str
  pub version : ℤ
  pub last_modified : Option Time
  pub source : Str
  pub sheets_row_id : Option Str
  pub created_at : Option Time
  pub updated_at : Option Time
  pub deleted_at : Option Time

pub record ListTransactionsByFilterArg : Type 0 where
  pub user_id : Option Uuid
  pub has_account : Bool
  pub account_id : Option Uuid
  pub has_type : Bool
  pub type : Str
  pub has_from : Bool
  pub occurred_from : Option Time
  pub has_to : Bool
  pub occurred_to : Option Time
  pub limit : ℤ
  pub offset : ℤ

pub record UpdateTransactionArg : Type 0 where
  pub id : Option Uuid
  pub user_id : Option Uuid
  pub account_id : Option Uuid
  pub amount : Numeric
  pub currency : Str
  pub type : Str
  pub category_id : Option Uuid
  pub description : Option Str
  pub occurred_at : Option Time
  pub metadata : Str
  pub source : Str
  pub sheets_row_id : Option Str
  pub version : ℤ

pub record InsertChangeEventArg : Type 0 where
  pub entity_type : Str
  pub entity_id : Option Uuid
  pub user_id : Option Uuid
  pub op_type : Str
  pub version : ℤ
  pub payload : Str
