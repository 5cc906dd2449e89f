-- ===== src/App/Asked.antt =====
-- What the sync job of an update or a deletion asks for: `sinceVersion` is the version before.
use moon_eye.Base.{
  ℕ, ◌<◌, ◌≡◌, refl, ap, ◌∙◌, sym, subst, length, length-append, List, [], ◌∷◌, ◌++◌, Str, Option,
  some, inl, inr, true, codes, arith, Bool, Bool-cases, str_eq_iff,
}
use moon_eye.Base.Int.{ℤ, pos, ◌-ℤ◌, ltb_ℤ}
use moon_eye.Base.Words.{wrap64, sign_bit}
use moon_eye.Outcome.{Result, ok, err, Action}
use moon_eye.Database.Pg.{Driver, Uuid, string_to_pg_uuid}
use moon_eye.Database.Rows.{TransactionRow, ChangeEventRecord, Database}
use moon_eye.Database.Atomicity.{SameTables}
use moon_eye.Database.Queries.{where_rows}
use moon_eye.Database.SyncReaders.{
  is_transaction_since, order_by_version, scan_rows, scan_event, list_transaction_events_since,
}
use moon_eye.Database.Picked.{Among, list_transaction_events_since-all, added-Among}
use moon_eye.Values.{Time, Float64}
use moon_eye.Transactions.Domain.{Transaction}
use moon_eye.Transactions.Service.{
  Runtime, UpdateTransactionInput, enqueue, update_transaction, soft_delete_transaction,
}
use moon_eye.Transactions.Outbox.{WritesBoth}
use moon_eye.Queue.Stream.{RedisClient}
use moon_eye.App.Stored.{
  LeavesTables, Stores, version_before, failed, stored, service, update_transaction-Stores,
  soft_delete_transaction-Stores,
}

where_rows-append :
    (p : ChangeEventRecord → Bool) (rs : List ChangeEventRecord) (r : ChangeEventRecord)
    → p r ≡ true
    → where_rows p (rs ++ (r ∷ [])) ≡ where_rows p rs ++ (r ∷ [])
unfolding where_rows
where_rows-append p [] r h = rw h refl
where_rows-append p (x ∷ rs) r h = elim (Bool-cases (p x)) [
  | inl e ↦ rw (e, where_rows) (ap (λ l. x ∷ l) (where_rows-append p rs r h))
  | inr e ↦ rw (e, where_rows) (where_rows-append p rs r h)
]

before-below : (v : ℕ) → v < sign_bit → ltb_ℤ (wrap64 (pos v -ℤ pos 1)) (pos v) ≡ true
unfolding wrap64 ◌-ℤ◌
before-below v h = ground arith

module _ (d : Driver) where
  parsed_user :
      (id : Str) (uid : Uuid) (o : Option Uuid)
      → d.parse_uuid id ≡ ok uid
      → string_to_pg_uuid d id ≡ ok o
      → o ≡ some uid
  unfolding string_to_pg_uuid
  parsed_user [] uid o h k = ground arith
  parsed_user (c ∷ id) uid o h k = ground (arith, rw (h, string_to_pg_uuid) at k)

event-asked :
    (uid : Uuid) (v : ℕ) (version : ℤ) (e : ChangeEventRecord)
    → v < sign_bit
    → version ≡ pos v
    → e.user_id ≡ some uid
    → e.entity_type ≡ codes "transaction"
    → e.version ≡ version
    → is_transaction_since uid (wrap64 (version -ℤ pos 1)) e ≡ true
unfolding is_transaction_since
event-asked uid v version e small fits user kind at =
    rw (user, at, fits, before-below v small, kind)
      (ground (arith, str_eq_iff (codes "transaction") (codes "transaction")))

-- Fewer than 1000 events of the user were there after the version, which is how many a sync asks for.
abbrev pub HasRoom : Uuid → Transaction → Database → Type 0
HasRoom uid tx s =
    length (where_rows (is_transaction_since uid (version_before tx)) s.change_events) < 1000

-- A database with the same events that is up.
abbrev pub Follows : Database → Database → Type 0
Follows t u = (u.change_events ≡ t.change_events) × (u.outages ≡ [])

module _ (d : Driver) (admit : TransactionRow → Result TransactionRow) (rt : Runtime Database)
    (redis : Option (RedisClient Database)) where
  -- A job is handed to the queue, if there is one, the last thing of all, that asks for the user's
  -- events after the version before; and what the sync service then lists for it, over a database `u`
  -- with the same events, has the event of the write among its rows.
  pub record AsksFor (epoch : Time → Float64) (u : Database) (op : Str) (tx : Transaction)
      (t : Database) : Type 0 where
    pub written : Database
    pub queued :
        t ≡ (enqueue rt (service d admit rt redis) op tx.user_id (version_before tx) written).1
    pub event : ChangeEventRecord
    pub op_type : event.op_type ≡ op
    pub event_version : event.version ≡ tx.version
    pub rows : List ChangeEventRecord
    pub listed :
        (list_transaction_events_since d epoch tx.user_id (version_before tx) 1000 u).0
        ≡ scan_rows (scan_event d epoch) rows
    pub among : Among event rows

  made-AsksFor :
      (epoch : Time → Float64) (u : Database) (op : Str) (m : Action Database Transaction)
      (s s' t' t : Database) (tx : Transaction) (uid : Uuid) (v : ℕ)
      → SameTables s' s
      → WritesBoth d admit rt (service d admit rt redis) op m s' (ok tx, t')
      → SameTables t t'
      → t ≡ (enqueue rt (service d admit rt redis) op tx.user_id (version_before tx) t').1
      → tx.version ≡ pos v
      → v < sign_bit
      → d.parse_uuid tx.user_id ≡ ok uid
      → HasRoom uid tx s
      → Follows t u
      → AsksFor epoch u op tx t
  made-AsksFor epoch u op m s s' t' t tx uid v before both after sent version small user room
        (same, calm) =
      let logged = both.2 in
      let asking = is_transaction_since uid (version_before tx) in
      let were = where_rows asking s.change_events in
      let named = parsed_user d tx.user_id uid logged.event.user_id user logged.user_id in
      let now_there =
        ap (where_rows asking) (
          same ∙ after.1 ∙ logged.appended ∙ ap (λ l. l ++ (logged.event ∷ [])) (both.1 ∙ before.1))
        ∙ where_rows-append asking s.change_events logged.event (
            event-asked uid v tx.version logged.event small version named logged.entity_type
              logged.version) in
      record {
        written = t';
        queued = sent;
        event = logged.event;
        op_type = logged.op_type;
        event_version = logged.version;
        rows = order_by_version (were ++ (logged.event ∷ []));
        listed =
            list_transaction_events_since-all d epoch tx.user_id uid (version_before tx) 1000 u user
              calm
              (omega (arith, room, ap length now_there, length-append were (logged.event ∷ [])))
            ∙ ap (λ rows. scan_rows (scan_event d epoch) (order_by_version rows)) now_there;
        among = added-Among logged.event were;
      }

  Stores-AsksFor :
      {I : Type 0} (epoch : Time → Float64) (u : Database) (op : Str)
      (write : I → Action Database Transaction) (fits : I → Type 0) (s : Database)
      (p : Result Transaction × Database) (tx : Transaction) (uid : Uuid) (v : ℕ)
      → Stores d admit rt redis op write fits version_before s p
      → p.0 ≡ ok tx
      → tx.version ≡ pos v
      → v < sign_bit
      → d.parse_uuid tx.user_id ≡ ok uid
      → HasRoom uid tx s
      → Follows p.1 u
      → AsksFor epoch u op tx p.1
  Stores-AsksFor epoch u op write fits s p tx uid v (failed e t same) done version small user room
        follows =
      ground (arith, done)
  Stores-AsksFor epoch u op write fits s p tx uid v
        (stored i made s' t' t fit before both after sent) done version small user room follows =
      let same = subst (λ r. made ≡ elim r [ ok x ↦ x | err e ↦ tx ]) done refl in
      subst (λ x. AsksFor epoch u op x t) same
        (made-AsksFor epoch u op (write i) s s' t' t made uid v before both after sent
          (ap (λ x. x.version) same ∙ version) small (ap (λ x. d.parse_uuid x.user_id) same ∙ user)
          (subst (λ x. HasRoom uid x s) {x = tx} {y = made} (sym same) room) follows)

  module _ (leaves : LeavesTables redis)
      (timed : (s : Database) → SameTables (rt.time_now s).1 s) where
    -- After an update through finance-api's service that gives a transaction, a sync job is handed
    -- to the queue, if there is one, as the last thing, for the events of the transaction's user
    -- after the version before; and the rows that the sync service lists for it, with its limit of
    -- 1000, have the update's change event among them, at the transaction's version. It is assumed
    -- that fewer than 1000 of these events were there before, that the listing finds the events as
    -- the update left them and the database up, that the version is not negative and fits into 64
    -- bits, that the user's id parses, and that reading the time and adding to the stream write to no
    -- table.
    pub update_transaction-AsksFor :
        (epoch : Time → Float64) (u : Database) (user_id id : Str) (input : UpdateTransactionInput)
        (s : Database) (tx : Transaction) (uid : Uuid) (v : ℕ)
        → let p = update_transaction rt (service d admit rt redis) user_id id input s in
          p.0 ≡ ok tx
          → tx.version ≡ pos v
          → v < sign_bit
          → d.parse_uuid tx.user_id ≡ ok uid
          → HasRoom uid tx s
          → Follows p.1 u
          → AsksFor epoch u (codes "update") tx p.1
    update_transaction-AsksFor epoch u user_id id input s tx uid v =
        Stores-AsksFor epoch u (codes "update") _ _ s _ tx uid v
          (update_transaction-Stores d admit rt redis leaves timed user_id id input s)

    -- The same of a deletion and its change event.
    pub soft_delete_transaction-AsksFor :
        (epoch : Time → Float64) (u : Database) (user_id id : Str) (s : Database) (tx : Transaction)
        (uid : Uuid) (v : ℕ)
        → let p = soft_delete_transaction rt (service d admit rt redis) user_id id s in
          p.0 ≡ ok tx
          → tx.version ≡ pos v
          → v < sign_bit
          → d.parse_uuid tx.user_id ≡ ok uid
          → HasRoom uid tx s
          → Follows p.1 u
          → AsksFor epoch u (codes "delete") tx p.1
    soft_delete_transaction-AsksFor epoch u user_id id s tx uid v =
        Stores-AsksFor epoch u (codes "delete") _ _ s _ tx uid v
          (soft_delete_transaction-Stores d admit rt redis leaves timed user_id id s)
