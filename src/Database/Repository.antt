-- ===== src/Database/Repository.antt =====
-- internal/db/transaction_repository_impl.go and change_event_repository.go. The pool and a
-- transaction reach the same tables here; `Tx` says what a transaction adds.
use moon_eye.Base.{
  ℕ, ◌-◌, ◌%◌, Bool, true, false, List, [], ◌∷◌, Str, Option, none, some, codes, ltb, if◌then◌else◌,
}
use moon_eye.Base.Int.{ℤ, pos, negsuc, leb_ℤ, ltb_ℤ}
use moon_eye.Outcome.{Result, ok, err, Action, lift, and_then, wrapped, wrapping, ◌>>=◌}
use moon_eye.Values.{Time, Payload}
use moon_eye.Database.Pg.{
  Uuid, Driver, time_from_timestamptz, pg_to_uuid, string_to_pg_uuid, text_from_string_ptr,
  float64_from_numeric,
}
use moon_eye.Database.Args.{CreateTransactionArg, ListTransactionsByFilterArg, UpdateTransactionArg}
use moon_eye.Database.Rows.{TransactionRow, Database}
use moon_eye.Database.Queries.{
  create_transaction, get_transaction_by_id_only, list_transactions_by_filter, update_transaction,
  soft_delete_transaction_by_id, insert_change_event,
}
use moon_eye.Database.Models.{
  Transaction, CreateTransactionParams, UpdateTransactionParams, TransactionFilter, ChangeEvent,
}

-- `int32(n)`.
abbrev signed32 : ℕ → ℤ
signed32 b = if ltb b 2147483648 then pos b else negsuc (4294967295 - b)

unfoldable pub int32 : ℤ → ℤ
int32 (pos n) = signed32 (n % 4294967296)
int32 (negsuc n) = signed32 (4294967295 - n % 4294967296)

abbrev is_set : {A : Type 0} → Option A → Bool
is_set none = false
is_set (some a) = true

abbrev text_or_empty : Option Str → Str
text_or_empty none = []
text_or_empty (some s) = s

module _ (d : Driver) where
  -- `if len(t.Metadata) > 0 { json.Unmarshal }`.
  abbrev pub metadata_of : Str → Result Payload
  metadata_of [] = ok []
  metadata_of (c ∷ s) = wrapped (codes "unmarshal metadata") (d.unmarshal_metadata (c ∷ s))

  unfoldable pub sqlc_transaction_to_db : TransactionRow → Result Transaction
  sqlc_transaction_to_db t = and_then (wrapped (codes "convert id") (pg_to_uuid t.id)) (λ id.
      and_then (wrapped (codes "convert user_id") (pg_to_uuid t.user_id)) (λ user_id.
        and_then (wrapped (codes "convert account_id") (pg_to_uuid t.account_id)) (λ account_id.
          and_then (metadata_of t.metadata) (λ metadata. ok (record {
            id = id;
            user_id = user_id;
            account_id = account_id;
            amount = float64_from_numeric d t.amount;
            currency = t.currency;
            type = t.type;
            category_id = t.category_id;
            description = t.description;
            occurred_at = time_from_timestamptz t.occurred_at;
            metadata = metadata;
            version = t.version;
            last_modified = time_from_timestamptz t.last_modified;
            source = t.source;
            sheets_row_id = t.sheets_row_id;
            created_at = time_from_timestamptz t.created_at;
            updated_at = time_from_timestamptz t.updated_at;
            deleted_at = time_from_timestamptz t.deleted_at;
          })))))

  -- The conversions at the start of `Create`, in their order.
  unfoldable pub create_arg : CreateTransactionParams → Result CreateTransactionArg
  create_arg p =
      and_then (wrapped (codes "marshal metadata") (d.marshal_metadata p.metadata)) (λ metadata.
        and_then (wrapped (codes "convert amount") (d.scan_float p.amount)) (λ amount.
          and_then (wrapped (codes "convert occurred_at") (d.scan_time p.occurred_at))
            (λ occurred_at.
              and_then (wrapped (codes "convert last_modified") (d.scan_time p.last_modified))
                (λ last_modified.
                  and_then
                    (wrapped (codes "convert description") (text_from_string_ptr d p.description))
                    (λ description.
                      and_then
                        (wrapped (codes "convert sheets_row_id")
                          (text_from_string_ptr d p.sheets_row_id))
                        (λ sheets_row_id.
                          and_then (wrapped (codes "convert created_at") (d.scan_time p.created_at))
                            (λ created_at.
                              and_then
                                (wrapped (codes "convert updated_at") (d.scan_time p.updated_at))
                                (λ updated_at.
                                  and_then
                                    (wrapped (codes "convert deleted_at")
                                      (d.scan_time p.deleted_at))
                                    (λ deleted_at. ok (record {
                                      user_id = some p.user_id;
                                      account_id = some p.account_id;
                                      amount = amount;
                                      currency = p.currency;
                                      type = p.type;
                                      category_id = p.category_id;
                                      description = description;
                                      occurred_at = occurred_at;
                                      metadata = metadata;
                                      version = p.version;
                                      last_modified = last_modified;
                                      source = p.source;
                                      sheets_row_id = sheets_row_id;
                                      created_at = created_at;
                                      updated_at = updated_at;
                                      deleted_at = deleted_at;
                                    }))))))))))

  -- The conversions at the start of `Update`.
  unfoldable pub update_arg : UpdateTransactionParams → Result UpdateTransactionArg
  update_arg p =
      and_then (wrapped (codes "marshal metadata") (d.marshal_metadata p.metadata)) (λ metadata.
        and_then (wrapped (codes "convert amount") (d.scan_float p.amount)) (λ amount.
          and_then (wrapped (codes "convert occurred_at") (d.scan_time p.occurred_at))
            (λ occurred_at.
              and_then
                (wrapped (codes "convert description") (text_from_string_ptr d p.description))
                (λ description.
                  and_then
                    (wrapped (codes "convert sheets_row_id")
                      (text_from_string_ptr d p.sheets_row_id))
                    (λ sheets_row_id. ok (record {
                      id = some p.id;
                      user_id = some p.user_id;
                      account_id = some p.account_id;
                      amount = amount;
                      currency = p.currency;
                      type = p.type;
                      category_id = p.category_id;
                      description = description;
                      occurred_at = occurred_at;
                      metadata = metadata;
                      source = p.source;
                      sheets_row_id = sheets_row_id;
                      version = p.version;
                    }))))))

  -- A time bound of the filter; the error of the conversion is dropped.
  abbrev pub time_bound : Option Time → Option Time
  time_bound none = none
  time_bound (some t) = elim (d.scan_time t) [ ok ts ↦ ts | err e ↦ none ]

  unfoldable pub to_list_filter_params : TransactionFilter → ListTransactionsByFilterArg
  to_list_filter_params f = record {
    user_id = some f.user_id;
    has_account = is_set f.account_id;
    account_id = f.account_id;
    has_type = is_set f.type;
    type = text_or_empty f.type;
    has_from = is_set f.from_occurred_at;
    occurred_from = time_bound f.from_occurred_at;
    has_to = is_set f.to_occurred_at;
    occurred_to = time_bound f.to_occurred_at;
    limit = int32 f.limit;
    offset = int32 f.offset;
  }

  -- The defaults at the start of `List`.
  abbrev pub with_defaults : TransactionFilter → TransactionFilter
  with_defaults f = record f {
    limit = if leb_ℤ f.limit (pos 0) then pos 50 else f.limit;
    offset = if ltb_ℤ f.offset (pos 0) then pos 0 else f.offset;
  }

  unfoldable pub rows_to_db : List TransactionRow → Result (List Transaction)
  rows_to_db [] = ok []
  rows_to_db (r ∷ rs) =
      and_then (sqlc_transaction_to_db r) (λ t. and_then (rows_to_db rs) (λ ts. ok (t ∷ ts)))

  unfoldable pub get_by_id : Uuid → Action Database Transaction
  get_by_id id =
      wrapping (codes "get transaction by id") (get_transaction_by_id_only (some id)) >>= λ row.
      lift (sqlc_transaction_to_db row)

  unfoldable pub list : TransactionFilter → Action Database (List Transaction)
  list filter =
      wrapping (codes "list transactions")
        (list_transactions_by_filter (to_list_filter_params (with_defaults filter)))
      >>= λ rows. lift (rows_to_db rows)

  -- The row that `Create` hands to the conversion: `CreatedAt` and `UpdatedAt` are not set.
  abbrev pub created_result : TransactionRow → TransactionRow
  created_result row = record row { created_at = none; updated_at = none }

  module _ (admit : TransactionRow → Result TransactionRow) where
    unfoldable pub create : CreateTransactionParams → Action Database Transaction
    create params = do
      arg ← lift (create_arg params)
      row ← wrapping (codes "create transaction") (create_transaction admit arg)
      lift (sqlc_transaction_to_db (created_result row))

    unfoldable pub update : UpdateTransactionParams → Action Database Transaction
    update params = do
      arg ← lift (update_arg params)
      row ← wrapping (codes "update transaction") (update_transaction admit arg)
      lift (sqlc_transaction_to_db row)

    unfoldable pub soft_delete : Uuid → Action Database Transaction
    soft_delete id =
        wrapping (codes "soft delete transaction") (soft_delete_transaction_by_id admit (some id))
        >>= λ row. lift (sqlc_transaction_to_db row)

  -- `SQLCChangeEventRepository.Insert`.
  unfoldable pub insert_event : ChangeEvent → Action Database (Unit {0})
  insert_event e = do
    entity_id ← lift (wrapped (codes "invalid entity_id") (string_to_pg_uuid d e.entity_id))
    user_id ← lift (wrapped (codes "invalid user_id") (string_to_pg_uuid d e.user_id))
    insert_change_event (record {
      entity_type = e.entity_type;
      entity_id = entity_id;
      user_id = user_id;
      op_type = e.op_type;
      version = e.version;
      payload = e.payload;
    })
