-- ===== src/Database/Queries.antt =====
-- internal/db/sqlc/transactions.sql.go and the insert of change_events.sql.go: the statements.
use moon_eye.Base.{
  ℕ, suc, ◌-◌, Bool, true, false, not, ◌&&◌, ◌||◌, List, [], ◌∷◌, ◌++◌, Option, none, some, codes,
  str_eq, length, take, drop, ◌==◌, if◌then◌else◌,
}
use moon_eye.Base.Int.{ℤ, pos, negsuc, ltb_ℤ, leb_ℤ, eq_ℤ, ◌+ℤ◌}
use moon_eye.Base.Words.{sign_bit}
use moon_eye.Outcome.{no_rows, other, Result, ok, err, Action, and_then}
use moon_eye.Values.{Time}
use moon_eye.Database.Pg.{Uuid}
use moon_eye.Database.Args.{
  CreateTransactionArg, ListTransactionsByFilterArg, UpdateTransactionArg, InsertChangeEventArg,
}
use moon_eye.Database.Rows.{TransactionRow, Database, now, tick, execute}

-- `column = $1`, which no NULL satisfies.
abbrev pub same_uuid : Option Uuid → Option Uuid → Bool
same_uuid (some a) (some b) = a == b
same_uuid _ _ = false

abbrev pub is_null : Option Time → Bool
is_null none = true
is_null (some t) = false

module _ {R : Type 0} where
  unfoldable pub where_rows : (R → Bool) → List R → List R
  where_rows test [] = []
  where_rows test (r ∷ rs) = let rest = where_rows test rs in if test r then r ∷ rest else rest

  -- `QueryRow(...).Scan(...)`: the first row, or `pgx.ErrNoRows`.
  abbrev pub first_row : List R → Result R
  first_row [] = err no_rows
  first_row (r ∷ rs) = ok r

  -- An UPDATE of the rows that pass the test: the table, and the rows that RETURNING gives.
  unfoldable pub update_rows : (R → Bool) → (R → Result R) → List R → Result (List R × List R)
  update_rows test f [] = ok ([], [])
  update_rows test f (r ∷ rs) = and_then (update_rows test f rs) (λ rest.
      if test r
      then and_then (f r) (λ r'. ok (r' ∷ rest.0, r' ∷ rest.1))
      else ok (r ∷ rest.0, rest.1))

  -- An UPDATE whose values no constraint can refuse.
  unfoldable pub set_where : (R → Bool) → (R → R) → List R → List R
  set_where test f [] = []
  set_where test f (r ∷ rs) =
      let rest = set_where test f rs in if test r then f r ∷ rest else r ∷ rest

abbrev pub write_update :
    Result (List TransactionRow × List TransactionRow) → Action Database TransactionRow
write_update (err e) s = (err e, s)
write_update (ok (rows, changed)) s = (first_row changed, record s { transactions = rows })

-- `ORDER BY occurred_at DESC`; rows of the same time stay in the order of the table.
abbrev pub later_or_same : Option Time → Option Time → Bool
later_or_same (some t) (some u) = leb_ℤ u t
later_or_same none _ = true
later_or_same (some t) none = false

unfoldable pub insert_row : TransactionRow → List TransactionRow → List TransactionRow
insert_row r [] = r ∷ []
insert_row r (q ∷ qs) =
    if later_or_same r.occurred_at q.occurred_at then r ∷ q ∷ qs else q ∷ insert_row r qs

unfoldable pub order_by_occurred_at : List TransactionRow → List TransactionRow
order_by_occurred_at [] = []
order_by_occurred_at (r ∷ rs) = insert_row r (order_by_occurred_at rs)

-- `LIMIT` and `OFFSET`, which must not be negative.
unfoldable pub page_rows : {R : Type 0} → ℤ → ℤ → List R → Result (List R)
page_rows (pos limit) (pos offset) rows = ok (take limit (drop offset rows))
page_rows (negsuc n) _ rows = err (other (codes "LIMIT must not be negative"))
page_rows (pos limit) (negsuc n) rows = err (other (codes "OFFSET must not be negative"))

-- `version = version + 1` in a BIGINT.
unfoldable pub next_version : ℤ → Result ℤ
next_version v =
    if ltb_ℤ v (pos (sign_bit - 1))
    then ok (v +ℤ pos 1)
    else err (other (codes "bigint out of range"))

-- `UPDATE transactions SET deleted_at = NOW(), ...` on one row.
unfoldable pub soft_deleted : Time → TransactionRow → Result TransactionRow
soft_deleted time r = and_then (next_version r.version) (λ v. ok (record r {
  deleted_at = some time;
  last_modified = some time;
  version = v;
  updated_at = some time;
}))

-- The `SET` list of `UpdateTransaction` on one row.
unfoldable pub updated : Time → UpdateTransactionArg → TransactionRow → Result TransactionRow
updated time arg r = and_then (next_version r.version) (λ v. ok (record r {
  account_id = arg.account_id;
  amount = arg.amount;
  currency = arg.currency;
  type = arg.type;
  category_id = arg.category_id;
  description = arg.description;
  occurred_at = arg.occurred_at;
  metadata = arg.metadata;
  last_modified = some time;
  source = arg.source;
  sheets_row_id = arg.sheets_row_id;
  version = v;
  updated_at = some time;
}))

-- The row that `CreateTransaction` inserts under an id.
abbrev pub created : Uuid → CreateTransactionArg → TransactionRow
created id arg = record {
  id = some id;
  user_id = arg.user_id;
  account_id = arg.account_id;
  amount = arg.amount;
  currency = arg.currency;
  type = arg.type;
  category_id = arg.category_id;
  description = arg.description;
  occurred_at = arg.occurred_at;
  metadata = arg.metadata;
  version = arg.version;
  last_modified = arg.last_modified;
  source = arg.source;
  sheets_row_id = arg.sheets_row_id;
  created_at = arg.created_at;
  updated_at = arg.updated_at;
  deleted_at = arg.deleted_at;
}

-- The primary key.
unfoldable pub has_id : Option Uuid → List TransactionRow → Bool
has_id id [] = false
has_id id (r ∷ rs) = same_uuid r.id id || has_id id rs

-- The tests of the `WHERE` clauses.
abbrev pub is_live : Option Uuid → TransactionRow → Bool
is_live id r = same_uuid r.id id && is_null r.deleted_at

abbrev pub is_live_of : Option Uuid → Option Uuid → TransactionRow → Bool
is_live_of id user_id r = same_uuid r.id id && same_uuid r.user_id user_id && is_null r.deleted_at

abbrev pub is_live_of_user : Option Uuid → TransactionRow → Bool
is_live_of_user user_id r = same_uuid r.user_id user_id && is_null r.deleted_at

-- `occurred_at >= $7`, which is not true of a NULL.
abbrev pub at_or_after : Option Time → Option Time → Bool
at_or_after (some t) (some u) = leb_ℤ u t
at_or_after _ _ = false

unfoldable pub matches : ListTransactionsByFilterArg → TransactionRow → Bool
matches arg r =
    is_live_of_user arg.user_id r
    && (not arg.has_account || same_uuid r.account_id arg.account_id)
    && (not arg.has_type || str_eq r.type arg.type)
    && (not arg.has_from || at_or_after r.occurred_at arg.occurred_from)
    && (not arg.has_to || at_or_after arg.occurred_to r.occurred_at)

unfoldable pub is_version_of : UpdateTransactionArg → TransactionRow → Bool
is_version_of arg r =
    same_uuid r.id arg.id && same_uuid r.user_id arg.user_id && eq_ℤ r.version arg.version

unfoldable pub get_transaction_by_id : Option Uuid → Option Uuid → Action Database TransactionRow
get_transaction_by_id id user_id =
    execute (λ s. (first_row (where_rows (is_live_of id user_id) s.transactions), s))

unfoldable pub get_transaction_by_id_only : Option Uuid → Action Database TransactionRow
get_transaction_by_id_only id =
    execute (λ s. (first_row (where_rows (is_live id) s.transactions), s))

unfoldable pub count_transactions_by_user : Option Uuid → Action Database ℕ
count_transactions_by_user user_id =
    execute (λ s. (ok (length (where_rows (is_live_of_user user_id) s.transactions)), s))

unfoldable pub list_transactions_by_filter :
    ListTransactionsByFilterArg → Action Database (List TransactionRow)
list_transactions_by_filter arg = execute (λ s. (
  page_rows arg.limit arg.offset (order_by_occurred_at (where_rows (matches arg) s.transactions)),
  s,
))

unfoldable pub list_transactions_by_user :
    Option Uuid → ℤ → ℤ → Action Database (List TransactionRow)
list_transactions_by_user user_id limit offset = execute (λ s. (
  page_rows limit offset
      (order_by_occurred_at (where_rows (is_live_of_user user_id) s.transactions)),
  s,
))

unfoldable pub insert_change_event : InsertChangeEventArg → Action Database (Unit {0})
insert_change_event arg = execute (λ s. (
  ok tt,
  record (tick s) {
    last_event = suc s.last_event;
    change_events =
        s.change_events
        ++ (record {
          id = suc s.last_event;
          entity_type = arg.entity_type;
          entity_id = arg.entity_id;
          user_id = arg.user_id;
          op_type = arg.op_type;
          payload = arg.payload;
          version = arg.version;
          created_at = some (now s);
          updated_at = some (now s);
          deleted_at = none;
        }
            ∷ []);
  },
))

module _ (admit : TransactionRow → Result TransactionRow) where
  -- The row that Postgres makes of the values, unless a constraint refuses it or its id is taken.
  abbrev pub insert_admitted : Result TransactionRow → Action Database TransactionRow
  insert_admitted (err e) s = (err e, s)
  insert_admitted (ok row) s =
      if has_id row.id s.transactions
      then (err (other (codes "duplicate key value")), s)
      else (ok row, record s { transactions = s.transactions ++ (row ∷ []) })

  unfoldable pub create_transaction : CreateTransactionArg → Action Database TransactionRow
  create_transaction arg = execute (λ s.
      insert_admitted (admit (created (s.ids s.issued) arg)) (record s { issued = suc s.issued }))

  -- `id = $1 AND user_id = $2 AND deleted_at IS NULL`.
  unfoldable pub soft_delete_transaction :
      Option Uuid → Option Uuid → Action Database TransactionRow
  soft_delete_transaction id user_id = execute (λ s.
      write_update
        (update_rows (is_live_of id user_id) (λ r. and_then (soft_deleted (now s) r) admit)
          s.transactions)
        (tick s))

  unfoldable pub soft_delete_transaction_by_id : Option Uuid → Action Database TransactionRow
  soft_delete_transaction_by_id id = execute (λ s.
      write_update
        (update_rows (is_live id) (λ r. and_then (soft_deleted (now s) r) admit) s.transactions)
        (tick s))

  unfoldable pub update_transaction : UpdateTransactionArg → Action Database TransactionRow
  update_transaction arg = execute (λ s.
      write_update
        (update_rows (is_version_of arg) (λ r. and_then (updated (now s) arg r) admit)
          s.transactions)
        (tick s))
