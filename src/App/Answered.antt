-- ===== src/App/Answered.antt =====
-- The routes that write a transaction, in the handlers that cmd/api/finance-api/main.go builds: what
-- an answer says about the tables.
use moon_eye.Base.{
  ◌≡◌, ◌≤◌, refl, [], ◌∷◌, Str, Option, inl, inr, codes, arith, Bool-cases, if◌then◌else◌,
}
use moon_eye.Base.Int.{ℤ, pos}
use moon_eye.Outcome.{Error, is_panic, Result, ok, err, Action}
use moon_eye.Values.{Time, Float64}
use moon_eye.Database.Pg.{Driver}
use moon_eye.Database.Rows.{TransactionRow, Database}
use moon_eye.Database.Atomicity.{SameTables}
use moon_eye.Transactions.Domain.{Transaction}
use moon_eye.Transactions.Service.{Runtime, new_transaction, enqueue}
use moon_eye.Transactions.Adapter.{create, soft_delete}
use moon_eye.Transactions.Outbox.{WritesBoth, timed_update}
use moon_eye.Queue.Stream.{RedisClient}
use moon_eye.Http.Messages.{Request, Response, empty, transaction, map_transaction, write_json}
use moon_eye.Http.Handlers.{
  Codec, CreateTransactionRequest, create_input, update_input, internal_error, invalid_request,
  missing_user, missing_id, or_refuse, unless_empty, with_body, user_id_from_request,
  handle_create_transaction, handle_update_transaction, handle_delete_transaction,
}
use moon_eye.App.Wiring.{new_services}
use moon_eye.App.Stored.{
  LeavesTables, Stores, version_before, failed, stored, Found, service, create_transaction-Stores,
  update_transaction-Stores, soft_delete_transaction-Stores,
}

-- What a route writes for a user, since which version its sync job asks, how it answers, and what a
-- write goes by in the tables.
pub record Writing (I : Type 0) : Type 1 where
  pub op : Str
  pub write : Str → I → Action Database Transaction
  pub since : Transaction → ℤ
  pub fits : Str → Database → I → Type 0
  pub reply : Transaction → Response

module _ (d : Driver) (admit : TransactionRow → Result TransactionRow) (rt : Runtime Database)
    (redis : Option (RedisClient Database)) where
  module _ {I : Type 0} (w : Writing I) where
    -- How a request ends that is answered for a user.
    pub data Handles (user_id : Str) (s : Database) : Result Response × Database → Type 0 where
      refused :
          (p : Response) (t : Database)
          → 400 ≤ p.code
          → SameTables t s
          → Handles user_id s (ok p, t)
      panicked : (e : Error) (t : Database) → SameTables t s → Handles user_id s (err e, t)
      written :
          (i : I) (tx : Transaction) (s' t' t : Database)
          → w.fits user_id s i
          → SameTables s' s
          → WritesBoth d admit rt (service d admit rt redis) w.op (w.write user_id i) s' (ok tx, t')
          → SameTables t t'
          → t ≡ (enqueue rt (service d admit rt redis) w.op tx.user_id (w.since tx) t').1
          → Handles user_id s (ok (w.reply tx), t)

    module _ (user_id : Str) (s : Database) where
      or_refuse-Handles :
          {A : Type 0} (p : Response) (r : Result A) (next : A → Action Database Response)
          → 400 ≤ p.code
          → ((a : A) → Handles user_id s (next a s))
          → Handles user_id s (or_refuse p r next s)
      or_refuse-Handles p (ok a) next h k = k a
      or_refuse-Handles p (err e) next h k = refused p s h (refl, refl, refl, refl)

      unless_empty-Handles :
          (v : Str) (p : Response) (next : Action Database Response)
          → 400 ≤ p.code
          → Handles user_id s (next s)
          → Handles user_id s (unless_empty v p next s)
      unless_empty-Handles [] p next h k = refused p s h (refl, refl, refl, refl)
      unless_empty-Handles (c ∷ v) p next h k = k

      answered-Handles :
          {J : Type 0} (choose : J → I) (message : Str) (p : Result Transaction × Database)
          → Stores d admit rt redis w.op
              (λ j. w.write user_id (choose j))
              (λ j. w.fits user_id s (choose j))
              w.since
              s
              p
          → Handles user_id s (elim p.0 [
            | ok a ↦ (ok (w.reply a), p.1)
            | err e ↦ (if is_panic e then err e else ok (internal_error message e), p.1)
          ])
      answered-Handles choose message p (failed e t same) = elim (Bool-cases (is_panic e)) [
        | inl h ↦ rw h (panicked e t same)
        | inr h ↦ rw h (refused (internal_error message e) t (omega arith) same)
      ]
      answered-Handles choose message p (stored j tx s' t' t fit before both after sent) =
          written (choose j) tx s' t' t fit before both after sent

  -- A decoded body, its time, and the time of the clock.
  abbrev pub creation : Writing (CreateTransactionRequest × Time × Time)
  creation = record {
    op = codes "create";
    write = λ user_id i. create d admit (new_transaction (create_input user_id i.0 i.1) i.2);
    fits = λ user_id s i. Unit;
    since = λ tx. pos 0;
    reply = λ tx. write_json 201 (transaction (map_transaction tx));
  }

  -- A decoded body, its time, and the transaction that was found under the id.
  abbrev pub change : Str → Writing (CreateTransactionRequest × Time × Transaction)
  change id = record {
    op = codes "update";
    write =
        λ user_id i. timed_update d admit rt (service d admit rt redis) (update_input i.0 i.1) i.2;
    fits = λ user_id s i. Found d user_id id s i.2;
    since = version_before;
    reply = λ tx. write_json 200 (transaction (map_transaction tx));
  }

  abbrev pub deletion : Str → Writing (Unit {0})
  deletion id = record {
    op = codes "delete";
    write = λ user_id i. soft_delete d admit user_id id;
    fits = λ user_id s i. Unit;
    since = version_before;
    reply = λ tx. write_json 204 empty;
  }

  module _ (codec : Codec) (epoch : Time → Float64) (leaves : LeavesTables redis)
      (timed : (s : Database) → SameTables (rt.time_now s).1 s) where
    module _ {I : Type 0} (w : Writing I) where
      -- A decoded body and its time.
      with_body-Handles :
          (user_id : Str) (r : Request) (s : Database)
          (next : CreateTransactionRequest → Time → Action Database Response)
          → ((req : CreateTransactionRequest) (occurred_at : Time)
              → Handles w user_id s (next req occurred_at s))
          → Handles w user_id s (with_body rt codec (new_services d epoch admit redis) r next s)
      with_body-Handles user_id r s next k =
          or_refuse-Handles w user_id s (invalid_request (codes "invalid body"))
            (codec.decode_create r.body) _ (omega arith)
            (λ req.
              or_refuse-Handles w user_id s (invalid_request (codes "invalid occurredAt"))
                (codec.parse_rfc3339 req.occurred_at) _ (omega arith) (k req))

    pub handle_create-Handles :
        (r : Request) (s : Database)
        → Handles creation
            (user_id_from_request r)
            s
            (handle_create_transaction rt codec (new_services d epoch admit redis) r s)
    unfolding handle_create_transaction new_services
    handle_create-Handles r s =
        let u = user_id_from_request r in
        unless_empty-Handles creation u s u missing_user _ (omega arith) (
          with_body-Handles creation u r s _ (λ req occurred_at.
            answered-Handles creation u s (λ time. (req, occurred_at, time))
              (codes "failed to create transaction") _
              (create_transaction-Stores d admit rt redis leaves timed
                (create_input u req occurred_at) s)))

    pub handle_update-Handles :
        (r : Request) (s : Database)
        → Handles
            (change r.id)
            (user_id_from_request r)
            s
            (handle_update_transaction rt codec (new_services d epoch admit redis) r s)
    unfolding handle_update_transaction new_services
    handle_update-Handles r s =
        let u = user_id_from_request r in
        let w = change r.id in
        unless_empty-Handles w u s u missing_user _ (omega arith) (
          unless_empty-Handles w u s r.id (missing_id rt codec (new_services d epoch admit redis)) _
            (omega arith)
            (with_body-Handles w u r s _ (λ req occurred_at.
              answered-Handles w u s (λ existing. (req, occurred_at, existing))
                (codes "failed to update transaction") _
                (update_transaction-Stores d admit rt redis leaves timed u r.id
                  (update_input req occurred_at) s))))

    pub handle_delete-Handles :
        (r : Request) (s : Database)
        → Handles
            (deletion r.id)
            (user_id_from_request r)
            s
            (handle_delete_transaction rt codec (new_services d epoch admit redis) r s)
    unfolding handle_delete_transaction new_services
    handle_delete-Handles r s =
        let u = user_id_from_request r in
        let w = deletion r.id in
        unless_empty-Handles w u s u missing_user _ (omega arith) (
          unless_empty-Handles w u s r.id (missing_id rt codec (new_services d epoch admit redis)) _
            (omega arith)
            (answered-Handles w u s (λ i. i) (codes "failed to delete transaction") _
              (soft_delete_transaction-Stores d admit rt redis leaves timed u r.id s)))
