-- ===== src/Http/Messages.antt =====
-- The requests and responses of internal/api, with pkg/shared/httpx and pkg/shared/auth/context.go.
use moon_eye.Base.{ℕ, List, [], map, Str, Option, none, some, if◌then◌else◌}
use moon_eye.Base.Int.{ℤ}
use moon_eye.Outcome.{Error, is_panic, ok, err, Action}
use moon_eye.Values.{Time, Float64, Payload}
use moon_eye.Database.Rows.{Database}
use moon_eye.Sheets.Rows.{SheetsConnection}
use moon_eye.Transactions.Domain.{Transaction}
use moon_eye.Transactions.Service.{PaginationResult}

-- What the handlers read of an `http.Request`: headers and query parameters by name, the `id` of the
-- path, the body, and the values that the middleware puts into the context.
pub record Request : Type 0 where
  pub header : Str → Str
  pub query : Str → Str
  pub id : Str
  pub body : Str
  pub user_id : Option Str
  pub email : Option Str

-- `UserIDFromContext` and `EmailFromContext`.
abbrev pub value_or_empty : Option Str → Str
value_or_empty none = []
value_or_empty (some v) = v

abbrev pub user_id_from_context : Request → Str
user_id_from_context r = value_or_empty r.user_id

-- `WithUserID` and `WithEmail`.
unfoldable pub with_user : Str → Str → Request → Request
with_user user_id email r = record r { user_id = some user_id; email = some email }

pub record TransactionResponse : Type 0 where
  pub id : Str
  pub user_id : Str
  pub account_id : Str
  pub amount : Float64
  pub currency : Str
  pub type : Str
  pub category_id : Option Str
  pub description : Option Str
  pub occurred_at : Time
  pub metadata : Payload
  pub version : ℤ
  pub last_modified : Time
  pub source : Str
  pub sheets_row_id : Option Str
  pub created_at : Time
  pub updated_at : Time
  pub deleted_at : Time

unfoldable pub map_transaction : Transaction → TransactionResponse
map_transaction t = record {
  id = t.id;
  user_id = t.user_id;
  account_id = t.account_id;
  amount = t.amount;
  currency = t.currency;
  type = t.type;
  category_id = t.category_id;
  description = t.description;
  occurred_at = t.occurred_at;
  metadata = t.metadata;
  version = t.version;
  last_modified = t.last_modified;
  source = t.source;
  sheets_row_id = t.sheets_row_id;
  created_at = t.created_at;
  updated_at = t.updated_at;
  deleted_at = t.deleted_at;
}

unfoldable pub map_transactions : List Transaction → List TransactionResponse
map_transactions ts = map map_transaction ts

pub record SheetsConnectionResponse : Type 0 where
  pub id : Str
  pub user_id : Str
  pub sheet_id : Str
  pub sheet_range : Str
  pub sync_mode : Str
  pub last_synced_at : Option ℤ

unfoldable pub map_connection : SheetsConnection → SheetsConnectionResponse
map_connection c = record {
  id = c.id;
  user_id = c.user_id;
  sheet_id = c.sheet_id;
  sheet_range = c.sheet_range;
  sync_mode = c.sync_mode;
  last_synced_at = c.last_synced_at;
}

pub record UserResponse : Type 0 where
  pub id : Str
  pub email : Str
  pub created_at : Str

-- What is written, before it is encoded as JSON.
pub data Body : Type 0 where
  empty : Body
  text : Str → Body
  error : Str → Str → Body
  status : Str → Body
  transaction : TransactionResponse → Body
  transactions : List TransactionResponse → PaginationResult → Body
  connections : List SheetsConnectionResponse → Body
  user : UserResponse → Body
  tokens : Str × Str → Body

pub record Response : Type 0 where
  pub code : ℕ
  pub body : Body

-- `WriteJSON` and `WriteError`.
abbrev pub write_json : ℕ → Body → Response
write_json code body = record { code = code; body = body }

abbrev pub write_error : ℕ → Str → Str → Response
write_error code kind message = write_json code (error kind message)

-- A handler's answer to a result and to an error.
abbrev pub answering :
    {A : Type 0}
    → (A → Response)
    → (Error → Response)
    → Action Database A
    → Action Database Response
answering f g m s =
    let (r, s') = m s in
    elim r [ ok a ↦ (ok (f a), s') | err e ↦ (if is_panic e then err e else ok (g e), s') ]

abbrev pub respond : Response → Action Database Response
respond r s = (ok r, s)
