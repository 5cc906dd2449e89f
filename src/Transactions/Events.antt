-- ===== src/Transactions/Events.antt =====
-- Which operations leave the change events alone.
use moon_eye.Base.{
  ◌≡◌, refl, ◌∙◌, List, [], ◌∷◌, Str, Option, none, some, inl, inr, arith, suc, codes,
}
use moon_eye.Outcome.{
  Error, Result, ok, err, and_then, Action, lift, pure, wrapping, ◌>>=◌, Result-cases,
}
use moon_eye.Database.Pg.{Driver, Uuid}
use moon_eye.Database.Args.{CreateTransactionArg, UpdateTransactionArg}
use moon_eye.Database.Rows.{TransactionRow, Database, execute, tick, now}
use moon_eye.Database.Queries.{
  created, soft_deleted, updated, is_live, is_version_of, update_rows, write_update,
  insert_admitted, create_transaction, update_transaction, soft_delete_transaction_by_id,
}
use moon_eye.Database.Repository
use moon_eye.Transactions.Domain.{Transaction}
use moon_eye.Transactions.Adapter.{
  create, update, soft_delete, db_transaction_to_domain, domain_transaction_to_create_params,
  domain_transaction_to_update_params,
}

abbrev pub KeepsEvents : {A : Type 0} → Action Database A → Type 0
KeepsEvents m = (s : Database) → (m s).1.change_events ≡ s.change_events

pub lift-KeepsEvents : {A : Type 0} (r : Result A) → KeepsEvents (lift r)
lift-KeepsEvents r s = refl

pub bind-KeepsEvents :
    {A B : Type 0} (m : Action Database A) (f : A → Action Database B)
    → KeepsEvents m
    → ((a : A) → KeepsEvents (f a))
    → KeepsEvents (m >>= f)
bind-KeepsEvents m f hm hf s = elim (Result-cases (m s).0) [
  | inl (a, e) ↦ rw (e, ◌>>=◌) (hf a (m s).1 ∙ hm s)
  | inr (x, e) ↦ rw (e, ◌>>=◌) (hm s)
]

wrapping-KeepsEvents :
    {A : Type 0} (msg : Str) (m : Action Database A) → KeepsEvents m → KeepsEvents (wrapping msg m)
wrapping-KeepsEvents msg m h s = h s

-- The shape of a repository's operation: convert, run a statement, convert back.
statement-KeepsEvents :
    {A B C : Type 0} (r : Result A) (msg : Str) (q : A → Action Database B) (g : B → Result C)
    → ((a : A) → KeepsEvents (q a))
    → KeepsEvents (lift r >>= λ a. wrapping msg (q a) >>= λ b. lift (g b))
statement-KeepsEvents r msg q g h =
    bind-KeepsEvents (lift r) (λ a. wrapping msg (q a) >>= λ b. lift (g b)) (lift-KeepsEvents r)
      (λ a.
        bind-KeepsEvents (wrapping msg (q a)) (λ b. lift (g b))
          (wrapping-KeepsEvents msg (q a) (h a)) (λ b. lift-KeepsEvents (g b)))

-- The shape of an adapter's operation.
adapted-KeepsEvents :
    {A B C : Type 0} (r : Result A) (m : A → Action Database B) (h : B → C)
    → ((a : A) → KeepsEvents (m a))
    → KeepsEvents (lift r >>= λ a. m a >>= λ b. pure (h b))
adapted-KeepsEvents r m h k =
    bind-KeepsEvents (lift r) (λ a. m a >>= λ b. pure (h b)) (lift-KeepsEvents r)
      (λ a. bind-KeepsEvents (m a) (λ b. pure (h b)) (k a) (λ b. lift-KeepsEvents (ok (h b))))

execute-tables :
    {A : Type 0} (f : Action Database A) (s : Database) (o : List (Option Error))
    → KeepsEvents f
    → s.outages ≡ o
    → (execute f s).1.change_events ≡ s.change_events
unfolding execute
execute-tables f s [] h e = rw e (h (record s { outages = [] }))
execute-tables f s (none ∷ rest) h e = rw e (h (record s { outages = rest }))
execute-tables f s (some x ∷ rest) h e = rw e refl

pub execute-KeepsEvents :
    {A : Type 0} (f : Action Database A) → KeepsEvents f → KeepsEvents (execute f)
execute-KeepsEvents f h s = execute-tables f s s.outages h refl

write_update-KeepsEvents :
    (p : Result (List TransactionRow × List TransactionRow)) → KeepsEvents (write_update p)
write_update-KeepsEvents (ok (rows, changed)) s = refl
write_update-KeepsEvents (err e) s = refl

insert_admitted-KeepsEvents :
    (admit : TransactionRow → Result TransactionRow) (r : Result TransactionRow)
    → KeepsEvents (insert_admitted admit r)
insert_admitted-KeepsEvents admit (ok row) s = ground arith
insert_admitted-KeepsEvents admit (err e) s = refl

module _ (d : Driver) (admit : TransactionRow → Result TransactionRow) where
  create_transaction-KeepsEvents :
      (arg : CreateTransactionArg) → KeepsEvents (create_transaction admit arg)
  unfolding create_transaction
  create_transaction-KeepsEvents arg = execute-KeepsEvents _ (λ s.
      insert_admitted-KeepsEvents admit (admit (created (s.ids s.issued) arg))
        (record s { issued = suc s.issued }))

  update_transaction-KeepsEvents :
      (arg : UpdateTransactionArg) → KeepsEvents (update_transaction admit arg)
  unfolding update_transaction
  update_transaction-KeepsEvents arg = execute-KeepsEvents _ (λ s.
      write_update-KeepsEvents
        (update_rows (is_version_of arg) (λ r. and_then (updated (now s) arg r) admit)
          s.transactions)
        (tick s))

  soft_delete_transaction_by_id-KeepsEvents :
      (id : Option Uuid) → KeepsEvents (soft_delete_transaction_by_id admit id)
  unfolding soft_delete_transaction_by_id
  soft_delete_transaction_by_id-KeepsEvents id = execute-KeepsEvents _ (λ s.
      write_update-KeepsEvents
        (update_rows (is_live id) (λ r. and_then (soft_deleted (now s) r) admit) s.transactions)
        (tick s))

  pub create-KeepsEvents : (tx : Transaction) → KeepsEvents (create d admit tx)
  unfolding create Repository.create
  create-KeepsEvents tx =
      adapted-KeepsEvents (domain_transaction_to_create_params d tx) (Repository.create d admit)
        (db_transaction_to_domain d)
        (λ params.
          statement-KeepsEvents (Repository.create_arg d params) (codes "create transaction")
            (create_transaction admit)
            (λ row. Repository.sqlc_transaction_to_db d (Repository.created_result d row))
            create_transaction-KeepsEvents)

  pub update-KeepsEvents : (tx : Transaction) → KeepsEvents (update d admit tx)
  unfolding update Repository.update
  update-KeepsEvents tx =
      adapted-KeepsEvents (domain_transaction_to_update_params d tx) (Repository.update d admit)
        (db_transaction_to_domain d)
        (λ params.
          statement-KeepsEvents (Repository.update_arg d params) (codes "update transaction")
            (update_transaction admit) (Repository.sqlc_transaction_to_db d)
            update_transaction-KeepsEvents)

  pub soft_delete-KeepsEvents : (user_id id : Str) → KeepsEvents (soft_delete d admit user_id id)
  unfolding soft_delete Repository.soft_delete
  soft_delete-KeepsEvents user_id id =
      adapted-KeepsEvents (d.parse_uuid id) (Repository.soft_delete d admit)
        (db_transaction_to_domain d)
        (λ uid.
          statement-KeepsEvents (ok (some uid)) (codes "soft delete transaction")
            (soft_delete_transaction_by_id admit) (Repository.sqlc_transaction_to_db d)
            soft_delete_transaction_by_id-KeepsEvents)
