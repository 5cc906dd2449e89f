-- ===== src/Transactions/Outbox.antt =====
-- The outbox: a transaction is written together with its change event, or not at all.
use moon_eye.Base.{
  ◌≡◌, refl, ap, ◌∙◌, sym, subst, List, [], ◌∷◌, ◌++◌, Str, Option, none, some, inl, inr, arith,
  codes, suc,
}
use moon_eye.Outcome.{Error, Result, ok, err, Action, pure, ◌>>=◌, Result-cases}
use moon_eye.Database.Pg.{Driver, Uuid, string_to_pg_uuid}
use moon_eye.Database.Args.{InsertChangeEventArg}
use moon_eye.Database.Rows.{TransactionRow, ChangeEventRecord, Database, execute, now}
use moon_eye.Database.Queries.{insert_change_event}
use moon_eye.Database.Repository
use moon_eye.Database.Tx.{run_in_tx}
use moon_eye.Database.Atomicity.{SameTables, Ends, begun, run_in_tx-Ends}
use moon_eye.Transactions.Domain.{Transaction, ChangeEventInput, ChangeEventWriter}
use moon_eye.Transactions.Adapter.{
  create, update, soft_delete, write_change_event, unit_of_work, tx_manager,
}
use moon_eye.Transactions.Events.{
  KeepsEvents, create-KeepsEvents, update-KeepsEvents, soft_delete-KeepsEvents,
}
use moon_eye.Transactions.Service.{
  Runtime, TransactionService, UpdateTransactionInput, apply_updates, event_of, emit_in, create_in,
  store_new, update_in, store_update, soft_delete_in, store_soft_delete,
}

-- The input was appended as one event, and the transactions are as they were.
pub record IsLogged (d : Driver) (e : ChangeEventInput) (s t : Database) : Type 0 where
  pub event : ChangeEventRecord
  pub appended : t.change_events ≡ s.change_events ++ (event ∷ [])
  pub transactions : t.transactions ≡ s.transactions
  pub entity_id : string_to_pg_uuid d e.entity_id ≡ ok event.entity_id
  pub user_id : string_to_pg_uuid d e.user_id ≡ ok event.user_id
  pub entity_type : event.entity_type ≡ e.entity_type
  pub op_type : event.op_type ≡ e.operation
  pub version : event.version ≡ e.version
  pub payload : event.payload ≡ e.payload

module _ (d : Driver) where
  abbrev arg_of : ChangeEventInput → Option Uuid → Option Uuid → InsertChangeEventArg
  arg_of e entity_id user_id = record {
    entity_type = e.entity_type;
    entity_id = entity_id;
    user_id = user_id;
    op_type = e.operation;
    version = e.version;
    payload = e.payload;
  }

  abbrev event_at : ChangeEventInput → Option Uuid → Option Uuid → Database → ChangeEventRecord
  event_at e entity_id user_id s = record {
    id = suc s.last_event;
    entity_type = e.entity_type;
    entity_id = entity_id;
    user_id = user_id;
    op_type = e.operation;
    payload = e.payload;
    version = e.version;
    created_at = some (now s);
    updated_at = some (now s);
    deleted_at = none;
  }

  IsLogged-event_at :
      (e : ChangeEventInput) (entity_id user_id : Option Uuid) (s t : Database)
      → t.change_events ≡ s.change_events ++ (event_at e entity_id user_id s ∷ [])
      → t.transactions ≡ s.transactions
      → string_to_pg_uuid d e.entity_id ≡ ok entity_id
      → string_to_pg_uuid d e.user_id ≡ ok user_id
      → IsLogged d e s t
  IsLogged-event_at e entity_id user_id s t h1 h2 h3 h4 = record {
    event = event_at e entity_id user_id s;
    appended = h1;
    transactions = h2;
    entity_id = h3;
    user_id = h4;
    entity_type = refl;
    op_type = refl;
    version = refl;
    payload = refl;
  }

  insert-IsLogged :
      (e : ChangeEventInput) (entity_id user_id : Option Uuid) (s : Database)
      (o : List (Option Error))
      → string_to_pg_uuid d e.entity_id ≡ ok entity_id
      → string_to_pg_uuid d e.user_id ≡ ok user_id
      → s.outages ≡ o
      → (insert_change_event (arg_of e entity_id user_id) s).0 ≡ ok tt
      → IsLogged d e s (insert_change_event (arg_of e entity_id user_id) s).1
  unfolding insert_change_event execute
  insert-IsLogged e entity_id user_id s [] h k out success =
      IsLogged-event_at e entity_id user_id s _ (rw out refl) (rw out refl) h k
  insert-IsLogged e entity_id user_id s (none ∷ rest) h k out success =
      IsLogged-event_at e entity_id user_id s _ (rw out refl) (rw out refl) h k
  insert-IsLogged e entity_id user_id s (some x ∷ rest) h k out success =
      absurd (ground (arith, rw out at success))

  write_change_event-IsLogged :
      (e : ChangeEventInput) (s : Database)
      → (write_change_event d e s).0 ≡ ok tt
      → IsLogged d e s (write_change_event d e s).1
  unfolding write_change_event Repository.insert_event
  write_change_event-IsLogged e s success = elim (Result-cases (string_to_pg_uuid d e.entity_id)) [
    | inl (entity_id, h) ↦ elim (Result-cases (string_to_pg_uuid d e.user_id)) [
      | inl (user_id, k) ↦
          rw (h, k)
            (insert-IsLogged e entity_id user_id s s.outages h k refl (rw (h, k) at success))
      | inr (x, k) ↦ absurd (ground (arith, h, k, success))
    ]
    | inr (x, h) ↦ absurd (ground (arith, h, success))
  ]

-- A write and then a step of it that both succeed.
abbrev and_also :
    (m : Action Database Transaction)
    → (Transaction → Action Database (Unit {0}))
    → Action Database Transaction
and_also m k = m >>= λ tx. k tx >>= λ _. pure tx

and_also-ok :
    (m : Action Database Transaction) (k : Transaction → Action Database (Unit {0})) (b : Database)
    (tx : Transaction)
    → (and_also m k b).0 ≡ ok tx
    → ((m b).0 ≡ ok tx) × ((k tx (m b).1).0 ≡ ok tt) × ((and_also m k b).1 ≡ (k tx (m b).1).1)
and_also-ok m k b tx h = elim (Result-cases (m b).0) [
  | inl (a, e) ↦ elim (Result-cases (k a (m b).1).0) [
    | inl (u, e2) ↦
        subst
          (λ (x : Transaction).
            ((m b).0 ≡ ok x) × ((k x (m b).1).0 ≡ ok tt) × ((and_also m k b).1 ≡ (k x (m b).1).1))
          {x = a} {y = tx} (ground (arith, rw (e, ◌>>=◌, e2) at h)) (e, e2, rw (e, ◌>>=◌, e2) refl)
    | inr (x, e2) ↦ absurd (ground (arith, rw (e, ◌>>=◌, e2) at h))
  ]
  | inr (x, e) ↦ absurd (ground (arith, rw (e, ◌>>=◌) at h))
]

module _ (d : Driver) (admit : TransactionRow → Result TransactionRow) (rt : Runtime Database)
    (svc : TransactionService Database) where
  -- How an operation ends whose write is `m`. With a result, that is the result of the write, the
  -- transactions are as the write left them, and the change events are the old ones and one that
  -- describes the result. With an error both tables are as before.
  abbrev pub WritesBoth :
      Str → Action Database Transaction → Database → Result Transaction × Database → Type 0
  WritesBoth op m s (ok tx, t) =
      ((m (begun s)).0 ≡ ok tx)
      × ((m (begun s)).1.change_events ≡ s.change_events)
      × IsLogged d (event_of rt svc op tx) (m (begun s)).1 t
  WritesBoth op m s (err e, t) = SameTables t s

  -- The write of an update: the time is read first.
  abbrev pub timed_update : UpdateTransactionInput → Transaction → Action Database Transaction
  timed_update input existing s =
      update d admit (apply_updates input (rt.time_now s).0 existing) (rt.time_now s).1

  module _ (writer : ChangeEventWriter Database) (with_events : svc.events ≡ some writer)
      (with_tx : svc.tx_runner ≡ some (tx_manager d admit)) where
    abbrev emit : Str → Transaction → Action Database (Unit {0})
    emit op tx = emit_in rt svc (unit_of_work d admit) op tx

    emit-events :
        (op : Str) (tx : Transaction) (s : Database)
        → emit op tx s ≡ write_change_event d (event_of rt svc op tx) s
    unfolding emit_in
    emit-events op tx s = rw (with_events, emit_in) refl

    body-WritesBoth :
        (op : Str) (m : Action Database Transaction) (s t : Database) (r : Result Transaction)
        → KeepsEvents m
        → SameTables (begun s) s
        → Ends (begun s) (and_also m (emit op) (begun s)) (r, t)
        → WritesBoth op m s (r, t)
    body-WritesBoth op m s t (err e) keeps same ends =
        (ends.0 ∙ same.0, ends.1 ∙ same.1, ends.2 ∙ same.2, ends.3 ∙ same.3)
    body-WritesBoth op m s t (ok tx) keeps same ends =
        let (wrote, emitted, left) = and_also-ok m (emit op) (begun s) tx ends.0 in
        let logged =
          write_change_event-IsLogged d (event_of rt svc op tx) (m (begun s)).1
            (ap (λ p. p.0) (sym (emit-events op tx (m (begun s)).1)) ∙ emitted) in
        let last = left ∙ ap (λ p. p.1) (emit-events op tx (m (begun s)).1) in
        (
          wrote,
          keeps (begun s) ∙ same.1,
          record {
            event = logged.event;
            appended = ends.1.1 ∙ ap (λ q. q.change_events) last ∙ logged.appended;
            transactions = ends.1.0 ∙ ap (λ q. q.transactions) last ∙ logged.transactions;
            entity_id = logged.entity_id;
            user_id = logged.user_id;
            entity_type = logged.entity_type;
            op_type = logged.op_type;
            version = logged.version;
            payload = logged.payload;
          },
        )

    run-WritesBoth :
        (op : Str) (m : Action Database Transaction) (s : Database)
        → KeepsEvents m
        → WritesBoth op m s (run_in_tx (and_also m (emit op)) s)
    run-WritesBoth op m s keeps =
        let p = run_in_tx (and_also m (emit op)) s in
        body-WritesBoth op m s p.1 p.0 keeps (run_in_tx-Ends (and_also m (emit op)) s).0
          (run_in_tx-Ends (and_also m (emit op)) s).1

    -- Creating through a transaction with events: the row and a create event of the created
    -- transaction are both written, or an error is returned and neither is.
    pub store_new-WritesBoth :
        (tx : Transaction) (s : Database)
        → WritesBoth (codes "create") (create d admit tx) s (store_new rt svc tx s)
    unfolding store_new create_in
    store_new-WritesBoth tx s =
        rw (with_tx, store_new)
          (run-WritesBoth (codes "create") (create d admit tx) s (create-KeepsEvents d admit tx))

    -- Deleting through a transaction with events: the row is marked and a delete event is written, or
    -- an error is returned and neither is.
    pub store_soft_delete-WritesBoth :
        (user_id id : Str) (s : Database)
        → WritesBoth
            (codes "delete")
            (soft_delete d admit user_id id)
            s
            (store_soft_delete rt svc user_id id s)
    unfolding store_soft_delete soft_delete_in
    store_soft_delete-WritesBoth user_id id s =
        rw (with_tx, store_soft_delete)
          (run-WritesBoth (codes "delete") (soft_delete d admit user_id id) s
            (soft_delete-KeepsEvents d admit user_id id))

    -- Updating through a transaction with events: the row is changed and an update event is written,
    -- or an error is returned and neither is. It is assumed that reading the time writes no event.
    pub store_update-WritesBoth :
        (input : UpdateTransactionInput) (existing : Transaction) (s : Database)
        → ((st : Database) → (rt.time_now st).1.change_events ≡ st.change_events)
        → WritesBoth
            (codes "update")
            (timed_update input existing)
            s
            (store_update rt svc input existing s)
    unfolding store_update update_in
    store_update-WritesBoth input existing s quiet =
        rw (with_tx, store_update)
          (run-WritesBoth (codes "update") (timed_update input existing) s (λ st.
            update-KeepsEvents d admit (apply_updates input (rt.time_now st).0 existing)
              (rt.time_now st).1
            ∙ quiet st))
