-- ===== src/Transactions/Domain.antt =====
-- internal/domain/transaction.go and internal/service/interfaces.go, over a state `S`. A change made
-- through a pointer is the value that the operation returns.
use moon_eye.Base.{List, Str, Option}
use moon_eye.Base.Int.{ℤ}
use moon_eye.Outcome.{Action}
use moon_eye.Values.{Time, Float64, Payload}

pub record Transaction : Type 0 where
  pub id : Str
  pub user_id : Str
  pub account_id : Str
  pub amount : Float64
  pub currency : Str
  pub type : Str
  pub category_id : Option Str
  pub description : Option Str
  pub occurred_at : Time
  pub metadata : Payload
  pub version : ℤ
  pub last_modified : Time
  pub source : Str
  pub sheets_row_id : Option Str
  pub created_at : Time
  pub updated_at : Time
  pub deleted_at : Time

pub record TransactionRepository (S : Type 0) : Type 0 where
  pub list_by_user : Str → ℤ → ℤ → Action S (List Transaction)
  pub count_by_user : Str → Action S ℤ
  pub create : Transaction → Action S Transaction
  pub get_by_id : Str → Str → Action S Transaction
  pub update : Transaction → Action S Transaction
  pub soft_delete : Str → Str → Action S Transaction

pub record ChangeEventInput : Type 0 where
  pub entity_type : Str
  pub entity_id : Str
  pub user_id : Str
  pub operation : Str
  pub version : ℤ
  pub payload : Str

pub record ChangeEventWriter (S : Type 0) : Type 0 where
  pub create : ChangeEventInput → Action S (Unit {0})

pub record SyncJob : Type 0 where
  pub entity : Str
  pub operation : Str
  pub payload : Str

pub record SyncQueue (S : Type 0) : Type 0 where
  pub enqueue_sync_job : SyncJob → Action S (Unit {0})

pub record TransactionUnitOfWork (S : Type 0) : Type 0 where
  pub transactions : TransactionRepository S
  pub change_events : ChangeEventWriter S

pub record TxManager (S : Type 0) : Type 1 where
  pub run_in_tx : {A : Type 0} → (TransactionUnitOfWork S → Action S A) → Action S A
