-- ===== src/Tests/Transactions.antt =====
-- Transactions over the sample database.
use moon_eye.Base.{◌≡◌, refl, List, [], ◌∷◌, some, codes, length}
use moon_eye.Base.Int.{pos, ◌≤ℤ◌}
use moon_eye.Outcome.{Result, ok, err, no_rows}
use moon_eye.Pagination.{normalize}
use moon_eye.Database.Pg.{Uuid, pg_to_uuid}
use moon_eye.Database.Rows.{TransactionRow, Database, tick, execute}
use moon_eye.Database.Queries.{
  update_rows, matches, where_rows, page_rows, insert_row, order_by_occurred_at, next_version,
  soft_deleted, updated, is_version_of, get_transaction_by_id_only, soft_delete_transaction_by_id,
  update_transaction, list_transactions_by_filter,
}
use moon_eye.Database.Repository
use moon_eye.Database.Tx.{run_in_tx}
use moon_eye.Database.Atomicity.{SameTables, Ends, begun, run_in_tx-Ends}
use moon_eye.Database.Versions.{update_transaction-stale, soft_delete_transaction_by_id-gone}
use moon_eye.Transactions.Domain.{Transaction}
use moon_eye.Transactions.Adapter.{create, list_by_user, change_event_writer}
use moon_eye.Transactions.Outbox.{
  WritesBoth, timed_update, store_new-WritesBoth, store_update-WritesBoth,
}
use moon_eye.Transactions.AnyUser.{get_and_delete-any_user}
use moon_eye.Transactions.Listing.{list_user_transactions-page}
use moon_eye.Transactions.Visibility.{AllOwned}
use moon_eye.Transactions.Service.{
  new_transaction, store_new, store_update, store_soft_delete, list_user_transactions,
}
use moon_eye.Transactions.Service
use moon_eye.Tests.Sample.{
  driver, admit_all, admit_all-Keeps, rent, sample, change_rent, runtime, service, lunch,
  lunch_update,
}

abbrev result_or : {A : Type 0} → A → Result A → A
result_or a (ok b) = b
result_or a (err e) = a

abbrev changed : Result TransactionRow × Database
changed = update_transaction admit_all change_rent sample

update_transaction-stale_example :
    update_transaction admit_all change_rent changed.1 ≡ (err no_rows, tick changed.1)
unfolding update_transaction execute update_rows updated next_version is_version_of
update_transaction-stale_example =
    update_transaction-stale admit_all admit_all-Keeps change_rent change_rent sample changed.1
      (result_or rent changed.0) refl refl refl refl refl

abbrev removed : Result TransactionRow × Database
removed = soft_delete_transaction_by_id admit_all (some 7) sample

soft_delete_transaction_by_id-gone_example :
    (get_transaction_by_id_only (some 7) removed.1 ≡ (err no_rows, removed.1))
    × (soft_delete_transaction_by_id admit_all (some 7) removed.1 ≡ (err no_rows, tick removed.1))
unfolding soft_delete_transaction_by_id execute update_rows soft_deleted next_version
soft_delete_transaction_by_id-gone_example =
    soft_delete_transaction_by_id-gone admit_all admit_all-Keeps (some 7) sample removed.1
      (result_or rent removed.0) refl refl

run_in_tx-Ends_example :
    SameTables (begun sample) sample
    × Ends
        (begun sample)
        (soft_delete_transaction_by_id admit_all (some 7) (begun sample))
        (run_in_tx (soft_delete_transaction_by_id admit_all (some 7)) sample)
run_in_tx-Ends_example = run_in_tx-Ends (soft_delete_transaction_by_id admit_all (some 7)) sample

store_new-WritesBoth_example :
    WritesBoth driver admit_all runtime service
      (codes "create")
      (create driver admit_all lunch)
      sample
      (store_new runtime service lunch sample)
store_new-WritesBoth_example =
    store_new-WritesBoth driver admit_all runtime service (change_event_writer driver) refl refl
      lunch sample

store_update-WritesBoth_example :
    WritesBoth driver admit_all runtime service
      (codes "update")
      (timed_update driver admit_all runtime service lunch_update lunch)
      sample
      (store_update runtime service lunch_update lunch sample)
store_update-WritesBoth_example =
    store_update-WritesBoth driver admit_all runtime service (change_event_writer driver) refl refl
      lunch_update lunch sample (λ st. refl)

abbrev listed : Result (List Transaction) × Database
listed = list_user_transactions runtime service (1 ∷ []) (pos 0) (pos 0) sample

list_user_transactions-page_example :
    (uid : Uuid) × (driver.parse_uuid (1 ∷ []) ≡ ok uid)
    × AllOwned (driver.print_uuid uid) (result_or [] listed.0)
    × (pos (length (result_or [] listed.0)) ≤ℤ (normalize (pos 0) (pos 0)).0)
unfolding list_user_transactions list_by_user normalize Repository.list list_transactions_by_filter
    execute where_rows matches order_by_occurred_at insert_row page_rows Repository.rows_to_db
    Repository.sqlc_transaction_to_db Repository.to_list_filter_params Repository.int32 pg_to_uuid
list_user_transactions-page_example =
    list_user_transactions-page driver admit_all runtime service (1 ∷ []) (pos 0) (pos 0) sample
      (result_or [] listed.0) refl refl

get_and_delete-any_user_example :
    (Service.get_transaction runtime service (1 ∷ []) (7 ∷ []) sample
      ≡ Service.get_transaction runtime service (3 ∷ []) (7 ∷ []) sample)
    × (Service.soft_delete_transaction runtime service (1 ∷ []) (7 ∷ []) sample
        ≡ Service.soft_delete_transaction runtime service (3 ∷ []) (7 ∷ []) sample)
get_and_delete-any_user_example =
    get_and_delete-any_user driver admit_all runtime service refl refl (1 ∷ []) (3 ∷ []) (7 ∷ [])
      sample
