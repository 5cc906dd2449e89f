-- ===== src/Http/Handlers.antt =====
-- internal/api/handlers.go: the handlers of transactions, sheet connections and sync.
use moon_eye.Base.{List, [], ◌∷◌, map, Str, Option, none, some, codes}
use moon_eye.Strconv.{atoi}
use moon_eye.Outcome.{Error, Result, ok, err, Action}
use moon_eye.Values.{Time, Float64, Payload}
use moon_eye.Database.Rows.{Database}
use moon_eye.Sheets.Rows.{SheetsConnection}
use moon_eye.Transactions.Domain.{SyncQueue}
use moon_eye.Transactions.Service.{
  Runtime, TransactionService, CreateTransactionInput, UpdateTransactionInput,
  list_user_transactions_with_count, create_transaction, get_transaction, update_transaction,
  soft_delete_transaction,
}
use moon_eye.Http.Messages.{
  Request, Response, empty, text, status, transaction, transactions, connections,
  user_id_from_context, map_transaction, map_transactions, map_connection, write_json, write_error,
  answering, respond,
}

pub record CreateTransactionRequest : Type 0 where
  pub account_id : Str
  pub amount : Float64
  pub currency : Str
  pub type : Str
  pub category_id : Option Str
  pub description : Option Str
  pub occurred_at : Str
  pub metadata : Payload
  pub source : Str

-- What is not under src/: the decoding of JSON bodies, `time.Parse` of RFC 3339, and `json.Marshal`
-- of the payload of a sync job.
pub record Codec : Type 0 where
  pub decode_create : Str → Result CreateTransactionRequest
  pub decode_trigger : Str → Option Str
  pub parse_rfc3339 : Str → Result Time
  pub marshal_trigger : Str → Str → Str

-- `SheetsConnectionRepository`, the method that the handlers call.
pub record Connections : Type 0 where
  pub list_active_by_user : Str → Action Database (List SheetsConnection)

-- `Services`: the account service is a parameter of the routes, and no handler uses `Sync`.
pub record Services : Type 1 where
  pub transactions : TransactionService Database
  pub sync_queue : Option (SyncQueue Database)
  pub connections : Option Connections

abbrev pub missing_user : Response
missing_user = write_error 401 (codes "unauthorized") (codes "missing user")

abbrev pub invalid_request : Str → Response
invalid_request message = write_error 400 (codes "invalid_request") message

abbrev pub internal_error : Str → Error → Response
internal_error message e = write_error 500 (codes "internal_error") message

-- The id of the context, or for want of one the header's.
abbrev pub or_header : Str → Str → Str
or_header [] h = h
or_header (c ∷ s) h = c ∷ s

unfoldable pub user_id_from_request : Request → Str
user_id_from_request r = or_header (user_id_from_context r) (r.header (codes "X-Debug-User-ID"))

-- `if v == "" { return ... }`.
abbrev pub unless_empty : Str → Response → Action Database Response → Action Database Response
unless_empty [] r next = respond r
unless_empty (c ∷ v) r next = next

abbrev pub with_user_id : Request → (Str → Action Database Response) → Action Database Response
with_user_id r next = let u = user_id_from_request r in unless_empty u missing_user (next u)

-- A step that may refuse the request.
abbrev pub or_refuse :
    {A : Type 0} → Response → Result A → (A → Action Database Response) → Action Database Response
or_refuse r (ok a) next = next a
or_refuse r (err e) next = respond r

unfoldable pub create_input : Str → CreateTransactionRequest → Time → CreateTransactionInput
create_input user_id req occurred_at = record {
  user_id = user_id;
  account_id = req.account_id;
  amount = req.amount;
  currency = req.currency;
  type = req.type;
  category_id = req.category_id;
  description = req.description;
  occurred_at = occurred_at;
  metadata = req.metadata;
  source = req.source;
}

unfoldable pub update_input : CreateTransactionRequest → Time → UpdateTransactionInput
update_input req occurred_at = record {
  account_id = req.account_id;
  amount = req.amount;
  currency = req.currency;
  type = req.type;
  category_id = req.category_id;
  description = req.description;
  occurred_at = occurred_at;
  metadata = req.metadata;
  source = req.source;
}

unfoldable pub handle_health : Response
handle_health = write_json 200 (text (codes "{\"status\":\"ok\"}"))

unfoldable pub handle_oauth_callback : Response
handle_oauth_callback = write_json 501 (text (codes "oauth callback not implemented yet"))

module _ (rt : Runtime Database) (codec : Codec) (svc : Services) where
  unfoldable pub handle_list_transactions : Request → Action Database Response
  handle_list_transactions r = with_user_id r (λ user_id.
      answering (λ listed. write_json 200 (transactions (map_transactions listed.0) listed.1))
        (internal_error (codes "failed to list transactions"))
        (list_user_transactions_with_count rt svc.transactions user_id
          (atoi (r.query (codes "limit"))) (atoi (r.query (codes "offset")))))

  -- The body and its time, or a refusal.
  abbrev pub with_body :
      Request
      → (CreateTransactionRequest → Time → Action Database Response)
      → Action Database Response
  with_body r next =
      or_refuse (invalid_request (codes "invalid body")) (codec.decode_create r.body) (λ req.
        or_refuse (invalid_request (codes "invalid occurredAt"))
          (codec.parse_rfc3339 req.occurred_at) (λ occurred_at. next req occurred_at))

  unfoldable pub handle_create_transaction : Request → Action Database Response
  handle_create_transaction r = with_user_id r (λ user_id. with_body r (λ req occurred_at.
      answering (λ tx. write_json 201 (transaction (map_transaction tx)))
        (internal_error (codes "failed to create transaction"))
        (create_transaction rt svc.transactions (create_input user_id req occurred_at))))

  abbrev pub missing_id : Response
  missing_id = invalid_request (codes "missing id")

  unfoldable pub handle_get_transaction : Request → Action Database Response
  handle_get_transaction r = with_user_id r (λ user_id. unless_empty r.id missing_id (
      answering (λ tx. write_json 200 (transaction (map_transaction tx)))
        (internal_error (codes "failed to get transaction"))
        (get_transaction rt svc.transactions user_id r.id)))

  unfoldable pub handle_update_transaction : Request → Action Database Response
  handle_update_transaction r = with_user_id r (λ user_id. unless_empty r.id missing_id (
      with_body r (λ req occurred_at.
        answering (λ tx. write_json 200 (transaction (map_transaction tx)))
          (internal_error (codes "failed to update transaction"))
          (update_transaction rt svc.transactions user_id r.id (update_input req occurred_at)))))

  unfoldable pub handle_delete_transaction : Request → Action Database Response
  handle_delete_transaction r = with_user_id r (λ user_id. unless_empty r.id missing_id (
      answering (λ tx. write_json 204 empty) (internal_error (codes "failed to delete transaction"))
        (soft_delete_transaction rt svc.transactions user_id r.id)))

  unfoldable pub handle_list_sheets_connections : Connections → Request → Action Database Response
  handle_list_sheets_connections repo r = with_user_id r (λ user_id.
      answering (λ list. write_json 200 (connections (map map_connection list)))
        (internal_error (codes "failed to list connections")) (repo.list_active_by_user user_id))

  -- A body that does not decode counts as one without a connection.
  abbrev connection_or_empty : Option Str → Str
  connection_or_empty none = []
  connection_or_empty (some id) = id

  unfoldable pub handle_sync_trigger : SyncQueue Database → Request → Action Database Response
  handle_sync_trigger q r = with_user_id r (λ user_id.
      answering (λ done. write_json 202 (status (codes "accepted")))
        (internal_error (codes "failed to enqueue sync"))
        (q.enqueue_sync_job (record {
          entity = codes "sync";
          operation = codes "trigger";
          payload =
              codec.marshal_trigger user_id (connection_or_empty (codec.decode_trigger r.body));
        })))
