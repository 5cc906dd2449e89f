-- ===== src/Http/Access.antt =====
-- Who gets through the middleware to the handlers of transactions, connections and sync.
use moon_eye.Base.{
  ◌≡◌, ◌≢◌, refl, ap, sym, subst, [], ◌∷◌, Str, Option, none, some, inl, inr, codes, arith,
}
use moon_eye.Outcome.{Result, ok, Action, Result-cases}
use moon_eye.Database.Pg.{Driver}
use moon_eye.Database.Rows.{Database}
use moon_eye.Database.Atomicity.{SameTables}
use moon_eye.Transactions.Service.{Runtime}
use moon_eye.Auth.Crypto.{Libraries, verify, time_now}
use moon_eye.Auth.Service.{Postgres}
use moon_eye.Http.Messages.{Request, Response, with_user}
use moon_eye.Http.Handlers.{Codec, Services, user_id_from_request}
use moon_eye.Http.Accounts.{AccountCodec}
use moon_eye.Http.Routes.{
  Endpoint, protected, bearer_token, unauthorized, pass_verified, pass_token, pass_header,
  jwt_middleware, endpoint, protect, serve,
}

verify-SameTables :
    (lib : Libraries) (token : Str) (s : Database) → SameTables (verify lib token s).1 s
unfolding verify time_now
verify-SameTables lib token s = (ground arith, ground arith, ground arith, ground arith)

-- A verified user comes before the header.
with_user-user_id_from_request :
    (user_id email : Str) (r : Request)
    → user_id ≢ []
    → user_id_from_request (with_user user_id email r) ≡ user_id
unfolding user_id_from_request with_user
with_user-user_id_from_request [] email r h = absurd (h refl)
with_user-user_id_from_request (c ∷ s) email r h = refl

-- What becomes of a request that a handler behind the middleware is to answer.
pub data Passes (lib : Libraries) (handle : Request → Action Database Response) (r : Request)
    (s : Database) : Result Response × Database → Type 0 where
  -- It is refused with 401, and the tables are as before.
  refused :
      (message : Str) (t : Database)
      → SameTables t s
      → Passes lib handle r s (ok (unauthorized message), t)
  -- Its Authorization header has a Bearer token that verifies, the tables are as before, and the
  -- handler answers for the user that the token names, whatever other headers say.
  passed :
      (token user_id email : Str) (t : Database)
      → bearer_token (r.header (codes "Authorization")) ≡ some token
      → verify lib token s ≡ (ok (user_id, email), t)
      → SameTables t s
      → (user_id ≢ [] → user_id_from_request (with_user user_id email r) ≡ user_id)
      → Passes lib handle r s (handle (with_user user_id email r) t)

module _ (lib : Libraries) (handle : Request → Action Database Response) (r : Request)
    (s : Database) where
  verified-Passes :
      (token : Str)
      → bearer_token (r.header (codes "Authorization")) ≡ some token
      → Passes lib handle r s (pass_token lib handle r (some token) s)
  verified-Passes token bearer = elim (Result-cases (verify lib token s).0) [
    | inl ((user_id, email), e) ↦
        subst (Passes lib handle r s)
          (ap (λ v. pass_verified handle r v (verify lib token s).1) (sym e))
          (passed token user_id email (verify lib token s).1 bearer
            (ap (λ v. (v, (verify lib token s).1)) e) (verify-SameTables lib token s)
            (with_user-user_id_from_request user_id email r))
    | inr (x, e) ↦
        subst (Passes lib handle r s)
          (ap (λ v. pass_verified handle r v (verify lib token s).1) (sym e))
          (refused (codes "invalid token") (verify lib token s).1 (verify-SameTables lib token s))
  ]

  token-Passes :
      (o : Option Str)
      → bearer_token (r.header (codes "Authorization")) ≡ o
      → Passes lib handle r s (pass_token lib handle r o s)
  token-Passes none bearer =
      refused (codes "invalid Authorization header") s (refl, refl, refl, refl)
  token-Passes (some token) bearer = verified-Passes token bearer

  header-Passes :
      (header : Str)
      → r.header (codes "Authorization") ≡ header
      → Passes lib handle r s (pass_header lib handle r header s)
  header-Passes [] h = refused (codes "missing Authorization header") s (refl, refl, refl, refl)
  header-Passes (c ∷ header) h = token-Passes (bearer_token (c ∷ header)) (ap bearer_token h)

  pub jwt_middleware-Passes : Passes lib handle r s (jwt_middleware lib handle r s)
  unfolding jwt_middleware
  jwt_middleware-Passes = header-Passes (r.header (codes "Authorization")) refl

-- A request for a registered route of transactions, connections or sync is either refused with 401,
-- with the tables as before, or it has a Bearer token that verifies and is answered by the route's
-- handler, started on unchanged tables, for the user that the token names: that user comes before
-- the header X-Debug-User-ID unless the token's user id is empty.
pub serve-Passes :
    (rt : Runtime Database) (codec : Codec) (svc : Services) (d : Driver) (lib : Libraries)
    (pg : Postgres) (accounts : Option AccountCodec) (e : Endpoint)
    (handle : Request → Action Database Response) (r : Request) (s : Database)
    → endpoint rt codec svc d lib pg accounts e ≡ some handle
    → Passes lib handle r s (serve rt codec svc d lib pg accounts (protected e) r s)
unfolding serve protect
serve-Passes rt codec svc d lib pg accounts e handle r s found =
    subst (Passes lib handle r s)
      (ap (λ h. protect rt codec svc d lib pg accounts h r s) (sym found))
      (jwt_middleware-Passes lib handle r s)
