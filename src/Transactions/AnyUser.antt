-- ===== src/Transactions/AnyUser.antt =====
-- Whom the service lets read and delete a transaction.
use moon_eye.Base.{◌≡◌, refl, ap, ◌∙◌, sym, some, Str, codes}
use moon_eye.Base.Int.{pos, ◌-ℤ◌}
use moon_eye.Base.Words.{wrap64}
use moon_eye.Outcome.{Result, Action, pure, ◌>>=◌, ◌>>◌}
use moon_eye.Database.Pg.{Driver}
use moon_eye.Database.Rows.{TransactionRow, Database}
use moon_eye.Transactions.Domain.{Transaction}
use moon_eye.Transactions.Adapter.{get_by_id, soft_delete, transaction_adapter, tx_manager}
use moon_eye.Transactions.Service.{
  Runtime, TransactionService, enqueue, get_transaction, soft_delete_in, store_soft_delete,
  soft_delete_transaction,
}

module _ (d : Driver) (admit : TransactionRow → Result TransactionRow) (rt : Runtime Database)
    (svc : TransactionService Database) (adapted : svc.repo ≡ transaction_adapter d admit)
    (with_tx : svc.tx_runner ≡ some (tx_manager d admit)) where
  store_soft_delete-any_user :
      (user_id other_id id : Str)
      → store_soft_delete rt svc user_id id ≡ store_soft_delete rt svc other_id id
  unfolding store_soft_delete soft_delete_in soft_delete
  store_soft_delete-any_user user_id other_id id = rw (with_tx, store_soft_delete) refl

  -- With the adapters of the repositories, reading and deleting a transaction by its id do the same
  -- for every user: neither looks at whose transaction it is.
  pub get_and_delete-any_user :
      (user_id other_id id : Str) (s : Database)
      → (get_transaction rt svc user_id id s ≡ get_transaction rt svc other_id id s)
        × (soft_delete_transaction rt svc user_id id s
            ≡ soft_delete_transaction rt svc other_id id s)
  unfolding get_transaction soft_delete_transaction get_by_id
  get_and_delete-any_user user_id other_id id s = (
    ap (λ r. r.get_by_id user_id id s) adapted ∙ ap (λ r. r.get_by_id other_id id s) (sym adapted),
    ap
        (λ (m : Action Database Transaction).
          (m >>= λ tx.
          enqueue rt svc (codes "delete") tx.user_id (wrap64 (tx.version -ℤ pos 1)) >> pure tx)
            s)
        (store_soft_delete-any_user user_id other_id id),
  )
