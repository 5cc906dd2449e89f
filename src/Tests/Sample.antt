-- ===== src/Tests/Sample.antt =====
-- A small database with one transaction, and libraries that convert without loss.
use moon_eye.Base.{false, true, [], ◌∷◌, Str, codes, none, some, arith}
use moon_eye.Base.Int.{pos}
use moon_eye.Outcome.{Result, ok, err, other}
use moon_eye.Values.{zero_time}
use moon_eye.Database.Pg.{Uuid, Driver}
use moon_eye.Database.Args.{UpdateTransactionArg}
use moon_eye.Database.Rows.{TransactionRow, Database, now, tick}
use moon_eye.Database.Versions.{Keeps}
use moon_eye.Transactions.Domain.{Transaction}
use moon_eye.Transactions.Adapter.{change_event_writer, transaction_adapter, tx_manager}
use moon_eye.Transactions.Service.{Runtime, TransactionService, UpdateTransactionInput}

abbrev first_code : Str → Result Uuid
first_code [] = err (other (codes "no uuid"))
first_code (c ∷ s) = ok c

abbrev pub driver : Driver
driver = record {
  parse_uuid = first_code;
  print_uuid = λ id. id ∷ [];
  scan_float = λ f. ok (record { int = f.mantissa; exp = pos 0; nan = false; valid = true });
  scan_time = λ t. ok (some t);
  scan_text = λ s. ok (some s);
  rat_float = λ n m. record { mantissa = n; halvings = 0 };
  marshal_metadata = λ p. ok [];
  unmarshal_metadata = λ s. ok [];
}

abbrev pub admit_all : TransactionRow → Result TransactionRow
admit_all r = ok r

pub admit_all-Keeps : Keeps admit_all
admit_all-Keeps = record {
  id = λ r r' e. ground (arith, e);
  user_id = λ r r' e. ground (arith, e);
  version = λ r r' e. ground (arith, e);
  deleted_at = λ r r' e. ground (arith, e);
}

abbrev pub rent : TransactionRow
rent = record {
  id = some 7;
  user_id = some 1;
  account_id = some 2;
  amount = record { int = pos 900; exp = pos 0; nan = false; valid = true };
  currency = codes "IDR";
  type = codes "expense";
  category_id = none;
  description = none;
  occurred_at = some (pos 5);
  metadata = [];
  version = pos 1;
  last_modified = some (pos 5);
  source = codes "app";
  sheets_row_id = none;
  created_at = some (pos 5);
  updated_at = some (pos 5);
  deleted_at = none;
}

abbrev pub sample : Database
sample = record {
  transactions = rent ∷ [];
  change_events = [];
  users = [];
  refresh_tokens = [];
  sheets_connections = [];
  sheet_mappings = [];
  last_event = 0;
  ids = λ n. 8;
  issued = 0;
  clock = λ n. pos 9;
  ticks = 0;
  drawn = 0;
  outages = [];
}

abbrev pub change_rent : UpdateTransactionArg
change_rent = record {
  id = some 7;
  user_id = some 1;
  account_id = some 2;
  amount = record { int = pos 950; exp = pos 0; nan = false; valid = true };
  currency = codes "IDR";
  type = codes "expense";
  category_id = none;
  description = none;
  occurred_at = some (pos 5);
  metadata = [];
  source = codes "app";
  sheets_row_id = none;
  version = pos 1;
}

abbrev pub runtime : Runtime Database
runtime = record {
  time_now = λ s. (now s, tick s);
  marshal_transaction = λ tx. tx.id;
  marshal_sync_job = λ user since. user;
}

abbrev pub service : TransactionService Database
service = record {
  repo = transaction_adapter driver admit_all;
  events = some (change_event_writer driver);
  sync_q = some (record { enqueue_sync_job = λ job s. (err (other (codes "queue is down")), s) });
  tx_runner = some (tx_manager driver admit_all);
}

abbrev pub lunch : Transaction
lunch = record {
  id = 7 ∷ [];
  user_id = 1 ∷ [];
  account_id = 2 ∷ [];
  amount = record { mantissa = pos 900; halvings = 0 };
  currency = codes "IDR";
  type = codes "expense";
  category_id = none;
  description = none;
  occurred_at = pos 5;
  metadata = [];
  version = pos 1;
  last_modified = pos 9;
  source = codes "app";
  sheets_row_id = none;
  created_at = pos 9;
  updated_at = pos 9;
  deleted_at = zero_time;
}

abbrev pub lunch_update : UpdateTransactionInput
lunch_update = record {
  account_id = 2 ∷ [];
  amount = record { mantissa = pos 950; halvings = 0 };
  currency = [];
  type = [];
  category_id = none;
  description = none;
  occurred_at = pos 5;
  metadata = [];
  source = [];
}
