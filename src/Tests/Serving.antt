-- ===== src/Tests/Serving.antt =====
-- A request to write a transaction, over the sample database, with a Redis that takes every job;
-- and a job that comes back from it.
use moon_eye.Base.{◌≡◌, refl, [], Str, none, some, codes, if◌then◌else◌, str_eq}
use moon_eye.Base.Int.{pos}
use moon_eye.Outcome.{err, ok, other, Result, ◌>>=◌}
use moon_eye.Values.{Time, Float64, Any, string, raw, int}
use moon_eye.Database.Rows.{Database}
use moon_eye.Queue.Stream.{Message, RedisClient, message_values, decode_message}
use moon_eye.Http.Messages.{Request}
use moon_eye.Http.Handlers.{Codec, CreateTransactionRequest}
use moon_eye.Http.Accounts.{AccountCodec}
use moon_eye.Http.Routes.{
  Endpoint, protected, create_transaction, update_transaction, delete_transaction,
}
use moon_eye.App.Wiring.{new_services, AppResponse, api, serve_app}
use moon_eye.App.Answered.{creation, change, deletion}
use moon_eye.App.Served.{Serves, serve_app-Serves}
use moon_eye.Strconv.{itoa}
use moon_eye.Sheets.Sync.{SyncService, SyncJobPayload, sync_all}
use moon_eye.Transactions.Service.{TransactionService, enqueue}
use moon_eye.Queue.Fields.{IsWire, carried}
use moon_eye.App.Jobs.{message_of, app_queue, job_handler}
use moon_eye.App.Carried.{job_for, all_of_user, job_handler-enqueue}
use moon_eye.App.Health.{Pings}
use moon_eye.App.Quiet
use moon_eye.Sheets.Client.{noop_sheets_client}
use moon_eye.App.Quiet.{job_handler-Untouched}
use moon_eye.Transactions.Reading.{Untouched}
use moon_eye.Tests.Sample
use moon_eye.Tests.Sample.{runtime, admit_all}
use moon_eye.Tests.People.{driver, libraries, postgres, start}

abbrev lunch : CreateTransactionRequest
lunch = record {
  account_id = codes "cash";
  amount = record { mantissa = pos 50; halvings = 0 };
  currency = [];
  type = codes "expense";
  category_id = none;
  description = none;
  occurred_at = [];
  metadata = [];
  source = [];
}

abbrev codec : Codec
codec = record {
  decode_create = λ s. ok lunch;
  decode_trigger = λ s. none;
  parse_rfc3339 = λ s. ok (pos 5);
  marshal_trigger = λ user connection. user;
}

abbrev pub client : RedisClient Database
client = record {
  x_add = λ stream values s. (ok (codes "1-0"), s);
  x_group_create_mk_stream = λ stream group start s. (ok tt, s);
  x_read_group = λ group name stream from count block s. (ok none, s);
  x_ack = λ stream group id s. (ok tt, s);
}

abbrev pub seconds : Time → Float64
seconds t = record { mantissa = t; halvings = 0 }

abbrev accounts : AccountCodec
accounts = record {
  decode_credentials = λ s. err (other (codes "no body"));
  decode_refresh_token = λ s. ok s;
  format_time = λ t. [];
  no_rows_text = codes "no rows in result set";
}

abbrev headers : Str → Str
headers name = if str_eq name (codes "Authorization") then codes "Bearer ann" else []

abbrev post_lunch : Request
post_lunch = record {
  header = headers;
  query = λ name. [];
  id = codes "B";
  body = codes "{}";
  user_id = none;
  email = none;
}

abbrev answers : Pings Database (Unit {0})
answers = record {
  with_timeout = λ ctx n s. (ctx, s);
  ping_db = λ ctx s. (ok tt, s);
  ping_redis = some (λ ctx s. (ok tt, s));
}

abbrev answer : Endpoint → Result AppResponse × Database
answer e =
    serve_app runtime codec (new_services driver seconds admit_all (some client)) driver libraries
      postgres accounts answers tt (api (protected e)) post_lunch start

serve_app-Serves_example :
    Serves driver admit_all runtime
      (some client)
      libraries
      (creation driver admit_all runtime (some client))
      post_lunch
      start
      (answer create_transaction)
    × Serves driver admit_all runtime
        (some client)
        libraries
        (change driver admit_all runtime (some client) (codes "B"))
        post_lunch
        start
        (answer update_transaction)
    × Serves driver admit_all runtime
        (some client)
        libraries
        (deletion driver admit_all runtime (some client) (codes "B"))
        post_lunch
        start
        (answer delete_transaction)
serve_app-Serves_example =
    serve_app-Serves driver admit_all runtime (some client) libraries codec seconds postgres
      accounts (λ stream values s. (refl, refl, refl, refl)) (λ s. (refl, refl, refl, refl)) answers
      tt post_lunch start

abbrev wire : Any → Str
wire (string s) = s
wire (raw s) = s
wire (int (pos n)) = itoa n
wire _ = []

wire-IsWire : IsWire wire
wire-IsWire = record { text = λ s. refl; bytes = λ s. refl; number = λ n. refl }

abbrev with_queue : TransactionService Database
with_queue = record Sample.service { sync_q = some (app_queue client) }

-- The sample runtime writes the user alone.
abbrev unmarshal : Str → Result SyncJobPayload
unmarshal s = ok (all_of_user s (pos 4))

abbrev no_clock : Str → Time
no_clock s = pos 0

abbrev quiet : SyncService Database
quiet = Quiet.service driver seconds noop_sheets_client

job_handler-enqueue_example :
    let fields =
      message_values (message_of (job_for runtime (codes "update") (codes "ann") (pos 4))) in
    (enqueue runtime with_queue (codes "update") (codes "ann") (pos 4) start
      ≡ (ok tt, (client.x_add (codes "sync_queue") fields start).1))
    × (job_handler no_clock unmarshal quiet
          (decode_message (record { id = codes "1-0"; values = carried wire fields }))
        ≡ (quiet.list_active_by_user (codes "ann")
            >>= sync_all no_clock quiet (all_of_user (codes "ann") (pos 4))))
job_handler-enqueue_example =
    job_handler-enqueue runtime with_queue client no_clock unmarshal quiet wire (codes "update")
      (codes "ann") (codes "1-0") (pos 4) start refl refl wire-IsWire

abbrev update_message : Message
update_message = record {
  id = codes "1-0";
  entity = codes "transaction";
  operation = codes "update";
  payload = codes "ann";
  retry_count = pos 0;
}

job_handler-Untouched_example :
    Untouched (job_handler no_clock unmarshal quiet update_message start).1 start
job_handler-Untouched_example =
    job_handler-Untouched driver seconds no_clock noop_sheets_client
      (record {
        fetches = λ conn cursor s. (refl, refl, refl, refl, refl, refl);
        applies = λ conn rows s. (refl, refl, refl, refl, refl, refl);
      })
      unmarshal update_message start
