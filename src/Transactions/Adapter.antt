-- ===== src/Transactions/Adapter.antt =====
-- internal/wiring/adapter.go and tx_manager.go, and internal/service/change_event_writer.go: the
-- interfaces of the service over the repositories of internal/db.
use moon_eye.Base.{List, Str, Option, none, some, length, map}
use moon_eye.Base.Int.{ℤ, pos}
use moon_eye.Outcome.{Result, ok, Action, lift, pure, and_then, ◌>>=◌}
use moon_eye.Values.{zero_time}
use moon_eye.Database.Pg.{Uuid, Driver}
use moon_eye.Database.Rows.{TransactionRow, Database}
use moon_eye.Database.Models
use moon_eye.Database.Repository
use moon_eye.Database.Tx
use moon_eye.Transactions.Domain.{
  Transaction, TransactionRepository, ChangeEventInput, ChangeEventWriter, TransactionUnitOfWork,
  TxManager,
}

module _ (d : Driver) where
  abbrev print_ptr : Option Uuid → Option Str
  print_ptr none = none
  print_ptr (some id) = some (d.print_uuid id)

  -- The optional category.
  abbrev parse_ptr : Option Str → Result (Option Uuid)
  parse_ptr none = ok none
  parse_ptr (some s) = and_then (d.parse_uuid s) (λ id. ok (some id))

  unfoldable pub db_transaction_to_domain : Models.Transaction → Transaction
  db_transaction_to_domain r = record {
    id = d.print_uuid r.id;
    user_id = d.print_uuid r.user_id;
    account_id = d.print_uuid r.account_id;
    amount = r.amount;
    currency = r.currency;
    type = r.type;
    category_id = print_ptr r.category_id;
    description = r.description;
    occurred_at = r.occurred_at;
    metadata = r.metadata;
    version = r.version;
    last_modified = r.last_modified;
    source = r.source;
    sheets_row_id = r.sheets_row_id;
    created_at = r.created_at;
    updated_at = r.updated_at;
    deleted_at = r.deleted_at;
  }

  unfoldable pub domain_transaction_to_create_params :
      Transaction → Result Models.CreateTransactionParams
  domain_transaction_to_create_params tx = and_then (d.parse_uuid tx.user_id) (λ user_id.
      and_then (d.parse_uuid tx.account_id) (λ account_id.
        and_then (parse_ptr tx.category_id) (λ category_id. ok (record {
          user_id = user_id;
          account_id = account_id;
          amount = tx.amount;
          currency = tx.currency;
          type = tx.type;
          category_id = category_id;
          description = tx.description;
          occurred_at = tx.occurred_at;
          metadata = tx.metadata;
          version = tx.version;
          last_modified = tx.last_modified;
          source = tx.source;
          sheets_row_id = tx.sheets_row_id;
          created_at = tx.occurred_at;
          updated_at = tx.last_modified;
          deleted_at = zero_time;
        }))))

  unfoldable pub domain_transaction_to_update_params :
      Transaction → Result Models.UpdateTransactionParams
  domain_transaction_to_update_params tx = and_then (d.parse_uuid tx.id) (λ id.
      and_then (d.parse_uuid tx.user_id) (λ user_id.
        and_then (d.parse_uuid tx.account_id) (λ account_id.
          and_then (parse_ptr tx.category_id) (λ category_id. ok (record {
            id = id;
            user_id = user_id;
            account_id = account_id;
            amount = tx.amount;
            currency = tx.currency;
            type = tx.type;
            category_id = category_id;
            description = tx.description;
            occurred_at = tx.occurred_at;
            metadata = tx.metadata;
            source = tx.source;
            sheets_row_id = tx.sheets_row_id;
            version = tx.version;
            created_at = zero_time;
            updated_at = zero_time;
            deleted_at = zero_time;
          })))))

  abbrev pub to_domain : Action Database Models.Transaction → Action Database Transaction
  to_domain m = m >>= λ row. pure (db_transaction_to_domain row)

  abbrev pub user_filter : Uuid → ℤ → ℤ → Models.TransactionFilter
  user_filter uid limit offset = record {
    user_id = uid;
    account_id = none;
    type = none;
    from_occurred_at = none;
    to_occurred_at = none;
    limit = limit;
    offset = offset;
  }

  unfoldable pub list_by_user : Str → ℤ → ℤ → Action Database (List Transaction)
  list_by_user user_id limit offset = do
    uid ← lift (d.parse_uuid user_id)
    rows ← Repository.list d (user_filter uid limit offset)
    pure (map db_transaction_to_domain rows)

  unfoldable pub count_by_user : Str → Action Database ℤ
  count_by_user user_id = do
    uid ← lift (d.parse_uuid user_id)
    rows ← Repository.list d (user_filter uid (pos 1) (pos 0))
    pure (pos (length rows))

  -- The user is not looked at.
  unfoldable pub get_by_id : Str → Str → Action Database Transaction
  get_by_id user_id id = lift (d.parse_uuid id) >>= λ uid. to_domain (Repository.get_by_id d uid)

  -- `dbChangeEventWriter.Create` and `txChangeEventWriter.Create`.
  unfoldable pub write_change_event : ChangeEventInput → Action Database (Unit {0})
  write_change_event e = Repository.insert_event d (record {
    entity_type = e.entity_type;
    entity_id = e.entity_id;
    user_id = e.user_id;
    op_type = e.operation;
    payload = e.payload;
    version = e.version;
  })

  abbrev pub change_event_writer : ChangeEventWriter Database
  change_event_writer = record { create = write_change_event }

  module _ (admit : TransactionRow → Result TransactionRow) where
    unfoldable pub create : Transaction → Action Database Transaction
    create tx = lift (domain_transaction_to_create_params tx) >>= λ params.
        to_domain (Repository.create d admit params)

    unfoldable pub update : Transaction → Action Database Transaction
    update tx = lift (domain_transaction_to_update_params tx) >>= λ params.
        to_domain (Repository.update d admit params)

    unfoldable pub soft_delete : Str → Str → Action Database Transaction
    soft_delete user_id id =
        lift (d.parse_uuid id) >>= λ uid. to_domain (Repository.soft_delete d admit uid)

    abbrev pub transaction_adapter : TransactionRepository Database
    transaction_adapter = record {
      list_by_user = list_by_user;
      count_by_user = count_by_user;
      create = create;
      get_by_id = get_by_id;
      update = update;
      soft_delete = soft_delete;
    }

    abbrev pub unit_of_work : TransactionUnitOfWork Database
    unit_of_work = record {
      transactions = transaction_adapter;
      change_events = change_event_writer;
    }

    abbrev pub tx_manager : TxManager Database
    tx_manager = record { run_in_tx = λ fn. Tx.run_in_tx (fn unit_of_work) }
