-- ===== src/Tests/Asking.antt =====
-- An update of the sample transaction, and what its sync job asks for.
use moon_eye.Base.{refl, [], some, codes, arith}
use moon_eye.Base.Int.{pos, ◌+ℤ◌}
use moon_eye.Outcome.{Result}
use moon_eye.Database.Rows.{Database}
use moon_eye.Transactions.Domain.{Transaction}
use moon_eye.Transactions.Service.{update_transaction}
use moon_eye.App.Stored
use moon_eye.App.Asked.{AsksFor, update_transaction-AsksFor}
use moon_eye.App.Wiring
use moon_eye.Database.Repository
use moon_eye.Database.Queries
use moon_eye.Database.Rows
use moon_eye.Database.Pg
use moon_eye.Database.Tx
use moon_eye.Transactions.Adapter
use moon_eye.Transactions.Service
use moon_eye.Tests.Sample.{runtime, admit_all, lunch, lunch_update}
use moon_eye.Tests.People.{driver, start}
use moon_eye.Tests.Serving.{client, seconds}

abbrev updated : Result Transaction × Database
updated =
    update_transaction runtime (Stored.service driver admit_all runtime (some client)) []
      (codes "B") lunch_update start

abbrev made : Transaction
made = record lunch {
  id = codes "B";
  user_id = codes "<";
  account_id = codes ";";
  amount = record { mantissa = pos 950; halvings = 0 };
  version = pos 2;
  last_modified = pos 9;
  created_at = pos 5;
  deleted_at = pos 0;
}

abbrev later_on : Database
later_on = record updated.1 { outages = [] }

update_transaction-AsksFor_example :
    AsksFor driver admit_all runtime (some client) seconds later_on (codes "update") made updated.1
unfolding update_transaction Wiring.new_transaction_service Adapter.get_by_id Repository.get_by_id
    Queries.get_transaction_by_id_only Rows.execute Queries.where_rows
    Repository.sqlc_transaction_to_db Pg.pg_to_uuid Service.store_update Tx.run_in_tx Tx.run_begun
    Service.update_in Adapter.update Adapter.domain_transaction_to_update_params
    Service.apply_updates Adapter.db_transaction_to_domain Repository.update ◌+ℤ◌
    Pg.float64_from_numeric Pg.string_to_pg_uuid Pg.text_from_string_ptr Queries.insert_change_event
    Queries.is_version_of Queries.next_version Queries.update_rows Queries.update_transaction
    Queries.updated Repository.insert_event Repository.update_arg Tx.commit
    Adapter.write_change_event Service.emit_in Service.enqueue
update_transaction-AsksFor_example =
    update_transaction-AsksFor driver admit_all runtime (some client)
      (λ stream values s. (refl, refl, refl, refl)) (λ s. (refl, refl, refl, refl)) seconds later_on
      [] (codes "B") lunch_update start made 1 2 refl refl (omega arith) refl (omega arith)
      (refl, refl)
