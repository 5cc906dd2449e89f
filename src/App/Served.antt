-- ===== src/App/Served.antt =====
-- POST /api/v1/transactions, and PUT and DELETE of one, as cmd/api/finance-api/main.go serves them,
-- with the middleware.
use moon_eye.Base.{◌≡◌, ◌≢◌, ◌≤◌, refl, [], Str, Option, some, codes, arith}
use moon_eye.Outcome.{Result, ok, err, Action}
use moon_eye.Values.{Time, Float64}
use moon_eye.Database.Pg.{Driver}
use moon_eye.Database.Rows.{TransactionRow, Database}
use moon_eye.Database.Atomicity.{SameTables}
use moon_eye.Transactions.Domain.{Transaction}
use moon_eye.Transactions.Service.{Runtime, enqueue}
use moon_eye.Transactions.Outbox.{WritesBoth}
use moon_eye.Auth.Crypto.{Libraries, verify}
use moon_eye.Auth.Service.{Postgres}
use moon_eye.Queue.Stream.{RedisClient}
use moon_eye.Http.Messages.{Request, Response, empty, write_json, with_user}
use moon_eye.Http.Handlers.{
  Codec, user_id_from_request, handle_create_transaction, handle_update_transaction,
  handle_delete_transaction,
}
use moon_eye.Http.Accounts.{AccountCodec}
use moon_eye.Http.Routes.{
  Endpoint, protected, create_transaction, update_transaction, delete_transaction, bearer_token,
  endpoint,
}
use moon_eye.Http.Access.{Passes, refused, passed, serve-Passes}
use moon_eye.App.Wiring.{new_services, AppResponse, page, api, recovered, serve_api, serve_app}
use moon_eye.App.Health.{Pings}
use moon_eye.App.Stored.{SameTables-trans, LeavesTables, service}
use moon_eye.App.Answered.{
  Writing, creation, change, deletion, Handles, handle_create-Handles, handle_update-Handles,
  handle_delete-Handles,
}

module _ (d : Driver) (admit : TransactionRow → Result TransactionRow) (rt : Runtime Database)
    (redis : Option (RedisClient Database)) (lib : Libraries) where
  -- `Recoverer` on an answer.
  abbrev recovering : Result Response × Database → Result AppResponse × Database
  recovering p = elim p.0 as (λ _. Result AppResponse × Database) [
    | ok q ↦ (ok (page q), p.1)
    | err e ↦ (ok (page (write_json 500 empty)), p.1)
  ]

  module _ {I : Type 0} (w : Writing I) where
    -- How a request to write a transaction is answered. Either the answer is an error, and the
    -- tables are as before. Or a Bearer token of the request verifies, the row and its event were
    -- both written as the route writes them when asked by the user that the token names, and then
    -- the sync job was handed to the queue.
    pub data Serves (r : Request) (s : Database) : Result AppResponse × Database → Type 0 where
      declined :
          (p : Response) (t : Database)
          → 400 ≤ p.code
          → SameTables t s
          → Serves r s (ok (page p), t)
      written :
          (token user_id email user : Str) (v : Database)
          → bearer_token (r.header (codes "Authorization")) ≡ some token
          → verify lib token s ≡ (ok (user_id, email), v)
          → (user_id ≢ [] → user ≡ user_id)
          → (i : I) (tx : Transaction) (s' t' t : Database) → w.fits user v i
          → SameTables s' s
          → WritesBoth d admit rt (service d admit rt redis) w.op (w.write user i) s' (ok tx, t')
          → SameTables t t'
          → t ≡ (enqueue rt (service d admit rt redis) w.op tx.user_id (w.since tx) t').1
          → Serves r s (ok (page (w.reply tx)), t)

    passed-Serves :
        (r : Request) (s v : Database) (token user_id email user : Str)
        (p : Result Response × Database)
        → bearer_token (r.header (codes "Authorization")) ≡ some token
        → verify lib token s ≡ (ok (user_id, email), v)
        → SameTables v s
        → (user_id ≢ [] → user ≡ user_id)
        → Handles d admit rt redis w user v p
        → Serves r s (recovering p)
    passed-Serves r s v token user_id email user p bearer verified same named
          (Handles.refused q t h left) =
        declined q t h (SameTables-trans s v t same left)
    passed-Serves r s v token user_id email user p bearer verified same named
          (Handles.panicked e t left) =
        declined (write_json 500 empty) t (omega arith) (SameTables-trans s v t same left)
    passed-Serves r s v token user_id email user p bearer verified same named
          (Handles.written i tx s' t' t fit before both after sent) =
        written token user_id email user v bearer verified named i tx s' t' t fit
          (SameTables-trans s v s' same before) both after sent

    Passes-Serves :
        (handle : Request → Action Database Response) (r : Request) (s : Database)
        (p : Result Response × Database)
        → ((user_id email : Str) (t : Database)
            → let q = with_user user_id email r in
              Handles d admit rt redis w (user_id_from_request q) t (handle q t))
        → Passes lib handle r s p
        → Serves r s (recovering p)
    Passes-Serves handle r s p handles (refused message t same) = declined _ t (omega arith) same
    Passes-Serves handle r s p handles (passed token user_id email t bearer verified same named) =
        passed-Serves r s t token user_id email (user_id_from_request (with_user user_id email r)) _
          bearer verified same named (handles user_id email t)

  module _ (codec : Codec) (epoch : Time → Float64) (pg : Postgres) (accounts : AccountCodec)
      (leaves : LeavesTables redis) (timed : (s : Database) → SameTables (rt.time_now s).1 s)
      {C : Type 0} (pings : Pings Database C) (context : C) where
    abbrev served : Endpoint → Request → Action Database AppResponse
    served e r =
        serve_app rt codec (new_services d epoch admit redis) d lib pg accounts pings context
          (api (protected e)) r

    Passes-served :
        (e : Endpoint) (handle : Request → Action Database Response) (r : Request) (s : Database)
        {I : Type 0} (w : Writing I)
        → endpoint rt codec (new_services d epoch admit redis) d lib pg (some accounts) e
          ≡ some handle
        → ((user_id email : Str) (t : Database)
            → let q = with_user user_id email r in
              Handles d admit rt redis w (user_id_from_request q) t (handle q t))
        → Serves w r s (served e r s)
    unfolding serve_app recovered serve_api
    Passes-served e handle r s w found handles = Passes-Serves w handle r s _ handles (
        serve-Passes rt codec (new_services d epoch admit redis) d lib pg (some accounts) e handle r
          s found)

    -- What finance-api makes of a request to create, update or delete a transaction: either the
    -- answer is an error, 400 or above, and the tables are as before; or the request has a Bearer
    -- token that verifies, the row and its event were both written, and then a sync job was handed
    -- to the queue, if there is one, which may have failed. A created transaction is written for the
    -- user of the token, unless that is empty. An update and a deletion are of the transaction that
    -- has the id of the request, whoever it belongs to; an update starts from what was found under
    -- that id. It is assumed that reading the time and adding to the stream write to no table.
    pub serve_app-Serves :
        (r : Request) (s : Database)
        → Serves (creation d admit rt redis) r s (served create_transaction r s)
          × Serves (change d admit rt redis r.id) r s (served update_transaction r s)
          × Serves (deletion d admit rt redis r.id) r s (served delete_transaction r s)
    unfolding endpoint with_user
    serve_app-Serves r s =
        let svc = new_services d epoch admit redis in
        (
          Passes-served create_transaction (handle_create_transaction rt codec svc) r s
              (creation d admit rt redis) refl
              (λ user_id email.
                handle_create-Handles d admit rt redis codec epoch leaves timed
                  (with_user user_id email r)),
          Passes-served update_transaction (handle_update_transaction rt codec svc) r s
              (change d admit rt redis r.id) refl
              (λ user_id email.
                handle_update-Handles d admit rt redis codec epoch leaves timed
                  (with_user user_id email r)),
          Passes-served delete_transaction (handle_delete_transaction rt codec svc) r s
              (deletion d admit rt redis r.id) refl
              (λ user_id email.
                handle_delete-Handles d admit rt redis codec epoch leaves timed
                  (with_user user_id email r)),
        )
