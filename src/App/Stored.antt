-- ===== src/App/Stored.antt =====
-- Creating, updating and deleting a transaction, to the tables and the queue, as
-- cmd/api/finance-api/main.go puts the parts together.
use moon_eye.Base.{◌≡◌, refl, ap, ◌∙◌, sym, subst, Str, Option, none, some, codes}
use moon_eye.Base.Int.{ℤ, pos, ◌-ℤ◌}
use moon_eye.Outcome.{Error, Result, ok, err, Action, pure, bind_ok, ◌>>◌}
use moon_eye.Values.{Time, Payload}
use moon_eye.Base.Words.{wrap64}
use moon_eye.Database.Pg.{Driver}
use moon_eye.Database.Rows.{TransactionRow, Database}
use moon_eye.Database.Atomicity.{SameTables}
use moon_eye.Transactions.Domain.{Transaction}
use moon_eye.Transactions.Service.{
  Runtime, TransactionService, CreateTransactionInput, UpdateTransactionInput, new_transaction,
  enqueue, store_new, store_update, store_soft_delete, create_transaction, update_transaction,
  soft_delete_transaction,
}
use moon_eye.Transactions.Adapter.{create, soft_delete, get_by_id, change_event_writer}
use moon_eye.Transactions.Outbox.{
  WritesBoth, timed_update, store_new-WritesBoth, store_update-WritesBoth,
  store_soft_delete-WritesBoth,
}
use moon_eye.Transactions.Reading.{get_by_id-Reads}
use moon_eye.Transactions.Queueing.{enqueue-ok}
use moon_eye.Queue.Stream.{RedisClient, message_values}
use moon_eye.App.Jobs.{message_of}
use moon_eye.App.Carried.{job_for, sent_to_stream}
use moon_eye.App.Wiring.{new_transaction_service}

pub SameTables-trans : (s t u : Database) → SameTables t s → SameTables u t → SameTables u s
SameTables-trans s t u h k = (k.0 ∙ h.0, k.1 ∙ h.1, k.2 ∙ h.2, k.3 ∙ h.3)

-- Redis, if there is one, does not write to Postgres.
abbrev pub LeavesTables : Option (RedisClient Database) → Type 0
LeavesTables none = Unit
LeavesTables (some client) =
    (stream : Str) (values : Payload) (s : Database) → SameTables (client.x_add stream values s).1 s

enqueue-SameTables :
    (d : Driver) (admit : TransactionRow → Result TransactionRow) (rt : Runtime Database)
    (redis : Option (RedisClient Database)) (op user_id : Str) (since : ℤ) (s : Database)
    → LeavesTables redis
    → SameTables (enqueue rt (new_transaction_service d admit redis) op user_id since s).1 s
unfolding enqueue new_transaction_service
enqueue-SameTables d admit rt none op user_id since s leaves = (refl, refl, refl, refl)
enqueue-SameTables d admit rt (some client) op user_id since s leaves =
    let job = job_for rt op user_id since in
    subst (λ t. SameTables t s) (sym (sent_to_stream client job s))
      (leaves (codes "sync_queue") (message_values (message_of job)) s)

abbrev pub version_before : Transaction → ℤ
version_before tx = wrap64 (tx.version -ℤ pos 1)

-- The transaction is the one that an update by this id starts from.
abbrev pub Found : Driver → Str → Str → Database → Transaction → Type 0
Found d user_id id s existing = (get_by_id d user_id id s).0 ≡ ok existing

module _ (d : Driver) (admit : TransactionRow → Result TransactionRow) (rt : Runtime Database)
    (redis : Option (RedisClient Database)) where
  abbrev pub service : TransactionService Database
  service = new_transaction_service d admit redis

  module _ {I : Type 0} (op : Str) (write : I → Action Database Transaction) (fits : I → Type 0)
      (since : Transaction → ℤ) where
    -- How a use case ends that makes one of the writes: with its row and its event, and then its job
    -- is queued, or with the tables as before.
    pub data Stores (s : Database) : Result Transaction × Database → Type 0 where
      failed : (e : Error) (t : Database) → SameTables t s → Stores s (err e, t)
      stored :
          (i : I) (tx : Transaction) (s' t' t : Database)
          → fits i
          → SameTables s' s
          → WritesBoth d admit rt service op (write i) s' (ok tx, t')
          → SameTables t t'
          → t ≡ (enqueue rt service op tx.user_id (since tx) t').1
          → Stores s (ok tx, t)

    module _ (leaves : LeavesTables redis) where
      -- What follows the writes: the job is queued, and then the transaction is given.
      abbrev queued : Transaction → Action Database Transaction
      queued tx = enqueue rt service op tx.user_id (since tx) >> pure tx

      queued_lem :
          (tx : Transaction) (s : Database)
          → queued tx s ≡ (ok tx, (enqueue rt service op tx.user_id (since tx) s).1)
      queued_lem tx s =
          let sent = enqueue rt service op tx.user_id (since tx) in
          bind_ok sent (λ _. pure tx) s (sent s).1 tt
            (ap (λ r. (r, (sent s).1)) (enqueue-ok rt service op tx.user_id (since tx) s))

      queued-Stores :
          (i : I) (s s' : Database) (r : Result Transaction) (t' : Database)
          → fits i
          → SameTables s' s
          → WritesBoth d admit rt service op (write i) s' (r, t')
          → Stores s (elim r [ ok tx ↦ queued tx t' | err e ↦ (err e, t') ])
      queued-Stores i s s' (ok tx) t' fit same both = subst (Stores s) (sym (queued_lem tx t')) (
          stored i tx s' t' _ fit same both
            (enqueue-SameTables d admit rt redis op tx.user_id (since tx) t' leaves) refl)
      queued-Stores i s s' (err e) t' fit same both =
          failed e t' (SameTables-trans s s' t' same both)

  module _ (leaves : LeavesTables redis)
      (timed : (s : Database) → SameTables (rt.time_now s).1 s) where
    pub create_transaction-Stores :
        (input : CreateTransactionInput) (s : Database)
        → Stores
            (codes "create")
            (λ time. create d admit (new_transaction input time))
            (λ (time : Time). Unit)
            (λ tx. pos 0)
            s
            (create_transaction rt service input s)
    unfolding create_transaction new_transaction_service
    create_transaction-Stores input s =
        let (time, s') = rt.time_now s in
        let new = new_transaction input time in
        let wrote = store_new rt service new s' in
        queued-Stores (codes "create") (λ now. create d admit (new_transaction input now))
          (λ (now : Time). Unit) (λ tx. pos 0) leaves time s s' wrote.0 wrote.1 tt (timed s)
          (store_new-WritesBoth d admit rt service (change_event_writer d) refl refl new s')

    pub soft_delete_transaction-Stores :
        (user_id id : Str) (s : Database)
        → Stores
            (codes "delete")
            (λ _. soft_delete d admit user_id id)
            (λ (_ : Unit {0}). Unit)
            version_before
            s
            (soft_delete_transaction rt service user_id id s)
    unfolding soft_delete_transaction new_transaction_service
    soft_delete_transaction-Stores user_id id s =
        let wrote = store_soft_delete rt service user_id id s in
        queued-Stores (codes "delete") (λ _. soft_delete d admit user_id id)
          (λ (_ : Unit {0}). Unit) version_before leaves tt s s wrote.0 wrote.1 tt
          (refl, refl, refl, refl)
          (store_soft_delete-WritesBoth d admit rt service (change_event_writer d) refl refl user_id
            id s)

    module _ (user_id id : Str) (input : UpdateTransactionInput) (s : Database) where
      abbrev Updates : Result Transaction × Database → Type 0
      Updates =
          Stores (codes "update") (timed_update d admit rt service input) (Found d user_id id s)
            version_before s

      updated-Stores :
          (r : Result Transaction) (s' : Database)
          → (get_by_id d user_id id s).0 ≡ r
          → SameTables s' s
          → Updates (elim r [
            | ok existing ↦
                let wrote = store_update rt service input existing s' in
                elim wrote.0 [
                  | ok tx ↦
                      (enqueue rt service (codes "update") tx.user_id (version_before tx)
                          >> pure tx)
                        wrote.1
                  | err e ↦ (err e, wrote.1)
                ]
            | err e ↦ (err e, s')
          ])
      unfolding new_transaction_service
      updated-Stores (err e) s' found same = failed e s' same
      updated-Stores (ok existing) s' found same =
          let wrote = store_update rt service input existing s' in
          queued-Stores (codes "update") (timed_update d admit rt service input)
            (Found d user_id id s) version_before leaves existing s s' wrote.0 wrote.1 found same
            (store_update-WritesBoth d admit rt service (change_event_writer d) refl refl input
              existing s' (λ st. (timed st).1))

      pub update_transaction-Stores : Updates (update_transaction rt service user_id id input s)
      unfolding update_transaction new_transaction_service
      update_transaction-Stores =
          let same = get_by_id-Reads d user_id id s in
          let got = get_by_id d user_id id s in
          updated-Stores got.0 got.1 refl (same.0, same.1, same.2, same.3)
