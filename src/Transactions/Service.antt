-- ===== src/Transactions/Service.antt =====
-- internal/service/transaction_service.go: the use cases, with parts that may be missing.
use moon_eye.Base.{List, [], ◌∷◌, Str, Option, none, some, codes}
use moon_eye.Base.Int.{ℤ, pos, ◌-ℤ◌}
use moon_eye.Base.Words.{wrap64}
use moon_eye.Outcome.{ok, Action, pure, ◌>>=◌, ◌>>◌}
use moon_eye.Values.{Time, Float64, Payload, zero_time}
use moon_eye.Pagination.{normalize}
use moon_eye.Transactions.Domain.{
  Transaction, TransactionRepository, ChangeEventInput, ChangeEventWriter, SyncQueue,
  TransactionUnitOfWork, TxManager,
}

-- What is not under src/: `time.Now()`, and `json.Marshal` of a transaction and of the payload of a
-- sync job, whose errors are dropped.
pub record Runtime (S : Type 0) : Type 0 where
  pub time_now : S → Time × S
  pub marshal_transaction : Transaction → Str
  pub marshal_sync_job : Str → ℤ → Str

pub record TransactionService (S : Type 0) : Type 1 where
  pub repo : TransactionRepository S
  pub events : Option (ChangeEventWriter S)
  pub sync_q : Option (SyncQueue S)
  pub tx_runner : Option (TxManager S)

pub record CreateTransactionInput : Type 0 where
  pub user_id : Str
  pub account_id : Str
  pub amount : Float64
  pub currency : Str
  pub type : Str
  pub category_id : Option Str
  pub description : Option Str
  pub occurred_at : Time
  pub metadata : Payload
  pub source : Str

pub record UpdateTransactionInput : Type 0 where
  pub account_id : Str
  pub amount : Float64
  pub currency : Str
  pub type : Str
  pub category_id : Option Str
  pub description : Option Str
  pub occurred_at : Time
  pub metadata : Payload
  pub source : Str

pub record PaginationResult : Type 0 where
  pub limit : ℤ
  pub offset : ℤ
  pub total : ℤ

-- `if s == "" { s = d }`.
abbrev pub or_default : Str → Str → Str
or_default d [] = d
or_default d (c ∷ s) = c ∷ s

-- The transaction that `CreateTransaction` builds.
unfoldable pub new_transaction : CreateTransactionInput → Time → Transaction
new_transaction input now = record {
  id = [];
  user_id = input.user_id;
  account_id = input.account_id;
  amount = input.amount;
  currency = or_default (codes "IDR") input.currency;
  type = input.type;
  category_id = input.category_id;
  description = input.description;
  occurred_at = input.occurred_at;
  metadata = input.metadata;
  version = pos 1;
  last_modified = now;
  source = or_default (codes "app") input.source;
  sheets_row_id = none;
  created_at = now;
  updated_at = now;
  deleted_at = zero_time;
}

-- `applyUpdates`.
unfoldable pub apply_updates : UpdateTransactionInput → Time → Transaction → Transaction
apply_updates input now t = record t {
  account_id = input.account_id;
  amount = input.amount;
  currency = or_default t.currency input.currency;
  type = or_default t.type input.type;
  category_id = input.category_id;
  description = input.description;
  occurred_at = input.occurred_at;
  metadata = input.metadata;
  source = or_default t.source input.source;
  last_modified = now;
}

module _ {S : Type 0} (rt : Runtime S) (s : TransactionService S) where
  abbrev time_now : Action S Time
  time_now st = let (t, st') = rt.time_now st in (ok t, st')

  -- `_ = call()`: the state is kept and the error is not.
  abbrev ignoring : Action S (Unit {0}) → Action S (Unit {0})
  ignoring m st = (ok tt, (m st).1)

  abbrev pub event_of : Str → Transaction → ChangeEventInput
  event_of op tx = record {
    entity_type = codes "transaction";
    entity_id = tx.id;
    user_id = tx.user_id;
    operation = op;
    version = tx.version;
    payload = rt.marshal_transaction tx;
  }

  -- `if s.syncQ != nil { _ = s.syncQ.EnqueueSyncJob(...) }`.
  unfoldable pub enqueue : Str → Str → ℤ → Action S (Unit {0})
  enqueue op user_id since_version = elim s.sync_q [
    | none ↦ pure tt
    | some q ↦ ignoring (
        q.enqueue_sync_job (record {
          entity = codes "transaction";
          operation = op;
          payload = rt.marshal_sync_job user_id since_version;
        }))
  ]

  -- `if s.events != nil`, through the unit of work: an error ends the transaction.
  unfoldable pub emit_in : TransactionUnitOfWork S → Str → Transaction → Action S (Unit {0})
  emit_in uow op tx = elim s.events [
    | none ↦ pure tt
    | some w ↦ uow.change_events.create (event_of op tx)
  ]

  -- The same without a transaction: the error is dropped.
  unfoldable pub emit_ignoring : Str → Transaction → Action S (Unit {0})
  emit_ignoring op tx = elim s.events [
    | none ↦ pure tt
    | some w ↦ ignoring (w.create (event_of op tx))
  ]

  unfoldable pub list_user_transactions : Str → ℤ → ℤ → Action S (List Transaction)
  list_user_transactions user_id limit offset =
      let (l, o) = normalize limit offset in s.repo.list_by_user user_id l o

  -- The body of the transaction in `CreateTransaction`.
  unfoldable pub create_in : Transaction → TransactionUnitOfWork S → Action S Transaction
  create_in tx uow = do tx' ← uow.transactions.create tx; emit_in uow (codes "create") tx'; pure tx'

  unfoldable pub store_new : Transaction → Action S Transaction
  store_new tx = elim s.tx_runner [
    | none ↦ s.repo.create tx
    | some runner ↦ runner.run_in_tx (create_in tx)
  ]

  unfoldable pub create_transaction : CreateTransactionInput → Action S Transaction
  create_transaction input = do
    now ← time_now
    tx ← store_new (new_transaction input now)
    enqueue (codes "create") tx.user_id (pos 0)
    pure tx

  unfoldable pub list_user_transactions_with_count :
      Str → ℤ → ℤ → Action S (List Transaction × PaginationResult)
  list_user_transactions_with_count user_id limit offset =
      let (l, o) = normalize limit offset in
      s.repo.list_by_user user_id l o >>= λ items. s.repo.count_by_user user_id >>= λ total.
      pure (items, record { limit = l; offset = o; total = total })

  unfoldable pub get_transaction : Str → Str → Action S Transaction
  get_transaction user_id id = s.repo.get_by_id user_id id

  unfoldable pub update_in :
      UpdateTransactionInput → Transaction → TransactionUnitOfWork S → Action S Transaction
  update_in input existing uow = do
    now ← time_now
    tx ← uow.transactions.update (apply_updates input now existing)
    emit_in uow (codes "update") tx
    pure tx

  unfoldable pub store_update : UpdateTransactionInput → Transaction → Action S Transaction
  store_update input existing = elim s.tx_runner [
    | none ↦ (do
      now ← time_now
      tx ← s.repo.update (apply_updates input now existing)
      emit_ignoring (codes "update") tx
      pure tx)
    | some runner ↦ runner.run_in_tx (update_in input existing)
  ]

  unfoldable pub update_transaction : Str → Str → UpdateTransactionInput → Action S Transaction
  update_transaction user_id id input = do
    existing ← s.repo.get_by_id user_id id
    tx ← store_update input existing
    enqueue (codes "update") tx.user_id (wrap64 (tx.version -ℤ pos 1))
    pure tx

  unfoldable pub soft_delete_in : Str → Str → TransactionUnitOfWork S → Action S Transaction
  soft_delete_in user_id id uow = do
    deleted ← uow.transactions.soft_delete user_id id
    emit_in uow (codes "delete") deleted
    pure deleted

  unfoldable pub store_soft_delete : Str → Str → Action S Transaction
  store_soft_delete user_id id = elim s.tx_runner [
    | none ↦ (do
      deleted ← s.repo.soft_delete user_id id
      emit_ignoring (codes "delete") deleted
      pure deleted)
    | some runner ↦ runner.run_in_tx (soft_delete_in user_id id)
  ]

  unfoldable pub soft_delete_transaction : Str → Str → Action S Transaction
  soft_delete_transaction user_id id = do
    deleted ← store_soft_delete user_id id
    enqueue (codes "delete") deleted.user_id (wrap64 (deleted.version -ℤ pos 1))
    pure deleted
