-- ===== src/Transactions/Queueing.antt =====
-- The sync queue does not decide how a use case ends.
use moon_eye.Base.{◌≡◌, refl, inl, inr, codes, Str, Option-cases}
use moon_eye.Outcome.{ok, Action, pure, ◌>>=◌, Result-cases}
use moon_eye.Base.Int.{ℤ, pos, ◌-ℤ◌}
use moon_eye.Base.Words.{wrap64}
use moon_eye.Transactions.Service.{
  Runtime, TransactionService, CreateTransactionInput, new_transaction, enqueue, store_new,
  store_soft_delete, create_transaction, soft_delete_transaction,
}

module _ {S : Type 0} (rt : Runtime S) (svc : TransactionService S) where
  pub enqueue-ok :
      (op user_id : Str) (since : ℤ) (st : S) → (enqueue rt svc op user_id since st).0 ≡ ok tt
  unfolding enqueue
  enqueue-ok op user_id since st = elim (Option-cases svc.sync_q) [
    | inl e ↦ rw (e, enqueue) refl
    | inr (q, e) ↦ rw (e, enqueue) refl
  ]

  -- A result, then the queue.
  then_enqueue :
      {A : Type 0} (m : Action S A) (op : Str) (user : A → Str) (since : A → ℤ) (st : S)
      → ((m >>= λ a. enqueue rt svc op (user a) (since a) >>= λ _. pure a) st).0 ≡ (m st).0
  then_enqueue m op user since st = elim (Result-cases (m st).0) [
    | inl (a, e) ↦ rw (e, ◌>>=◌, enqueue-ok op (user a) (since a) (m st).1) refl
    | inr (x, e) ↦ rw (e, ◌>>=◌) refl
  ]

  -- Creating gives what storing the transaction gives, whether the sync job can be queued or not.
  pub create_transaction-result :
      (input : CreateTransactionInput) (st : S)
      → let (time, st') = rt.time_now st in
        (create_transaction rt svc input st).0
        ≡ (store_new rt svc (new_transaction input time) st').0
  unfolding create_transaction
  create_transaction-result input st =
      then_enqueue (store_new rt svc (new_transaction input (rt.time_now st).0)) (codes "create")
        (λ tx. tx.user_id) (λ tx. pos 0) (rt.time_now st).1

  -- Deleting gives what marking the transaction gives, whether the sync job can be queued or not.
  pub soft_delete_transaction-result :
      (user_id id : Str) (st : S)
      → (soft_delete_transaction rt svc user_id id st).0
        ≡ (store_soft_delete rt svc user_id id st).0
  unfolding soft_delete_transaction
  soft_delete_transaction-result user_id id st =
      then_enqueue (store_soft_delete rt svc user_id id) (codes "delete") (λ tx. tx.user_id)
        (λ tx. wrap64 (tx.version -ℤ pos 1)) st
