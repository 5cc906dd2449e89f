-- ===== src/Auth/Lookup.antt =====
-- What a lookup or a revocation of a refresh token gives, and from what.
use moon_eye.Base.{
  ◌≡◌, refl, ◌∙◌, ap, subst, List, [], ◌∷◌, Str, Option, none, some, inl, inr, arith, codes,
}
use moon_eye.Outcome.{Error, Result, ok, Action, Result-cases, of_wrapping}
use moon_eye.Database.Pg.{Uuid}
use moon_eye.Database.Rows.{RefreshTokenRow, Database, now, execute}
use moon_eye.Database.Queries.{where_rows, first_row}
use moon_eye.Database.Atomicity.{execute_calm}
use moon_eye.Database.Users.{reading}
use moon_eye.Database.RefreshTokens.{
  RefreshToken, has_token_id, sqlc_refresh_token_to_token, get_refresh_token_by_id,
  query_refresh_token_by_id, revoke_row, revoke_refresh_token,
}
use moon_eye.Auth.Service.{when_missing}
use moon_eye.Auth.Keeping.{IsRevoked, set_where-IsRevoked}

-- With the database up, looking for a token gives its row.
pub query_refresh_token_by_id-found :
    (id : Uuid) (row : RefreshTokenRow) (s : Database)
    → s.outages ≡ []
    → first_row (where_rows (has_token_id (some id)) s.refresh_tokens) ≡ ok row
    → query_refresh_token_by_id (some id) s ≡ (ok row, s)
unfolding query_refresh_token_by_id
query_refresh_token_by_id-found id row s calm h =
    execute_calm _ s calm ∙ ap (λ (r : Result RefreshTokenRow). (r, s)) h

pub get_refresh_token_by_id-found :
    (id : Uuid) (row : RefreshTokenRow) (s : Database)
    → query_refresh_token_by_id (some id) s ≡ (ok row, s)
    → get_refresh_token_by_id id s ≡ (ok (sqlc_refresh_token_to_token row), s)
unfolding get_refresh_token_by_id
get_refresh_token_by_id-found id row s found =
    ap
      (λ (p : Result RefreshTokenRow × Database).
        reading (codes "get refresh token by id") sqlc_refresh_token_to_token (λ u. p) s)
      found

pub when_missing-ok :
    {A : Type 0} (e : Error) (msg : Str) (m : Action Database A) (s t : Database) (a : A)
    → m s ≡ (ok a, t)
    → when_missing e msg m s ≡ (ok a, t)
when_missing-ok {A = A} e msg m s t a h =
    ap (λ (p : Result A × Database). when_missing e msg (λ u. p) s) h

-- A statement that gives a result was run.
pub of_execute :
    {A : Type 0} (f : Action Database A) (s t : Database) (a : A) (o : List (Option Error))
    → s.outages ≡ o
    → execute f s ≡ (ok a, t)
    → (rest : List (Option Error)) × (f (record s { outages = rest }) ≡ (ok a, t))
unfolding execute
of_execute f s t a [] e h = ([], rw e at h)
of_execute f s t a (none ∷ rest) e h = (rest, rw e at h)
of_execute f s t a (some x ∷ rest) e h = absurd (ground (arith, rw e at h))

pub of_when_missing :
    {A : Type 0} (e : Error) (msg : Str) (m : Action Database A) (s t : Database) (a : A)
    → when_missing e msg m s ≡ (ok a, t)
    → m s ≡ (ok a, t)
of_when_missing e msg m s t a h = elim (Result-cases (m s).0) [
  | inl (b, eq) ↦ ap (λ r. (r, (m s).1)) eq ∙ (rw (eq, when_missing) at h)
  | inr (x, eq) ↦ absurd (ground (arith, rw (eq, when_missing) at h))
]

pub of_get_refresh_token_by_id :
    (id : Uuid) (s t : Database) (token : RefreshToken)
    → get_refresh_token_by_id id s ≡ (ok token, t)
    → (row : RefreshTokenRow) × (sqlc_refresh_token_to_token row ≡ token)
      × (query_refresh_token_by_id (some id) s ≡ (ok row, t))
unfolding get_refresh_token_by_id
of_get_refresh_token_by_id id s t token h =
    let query = query_refresh_token_by_id (some id) s in
    elim (Result-cases query.0) [
      | inl (row, e) ↦
          let last = rw (e, reading) at h in
          (row, ground (arith, last), ap (λ r. (r, query.1)) e ∙ ap (λ p. (ok row, p.1)) last)
      | inr (x, e) ↦ absurd (ground (arith, rw (e, reading) at h))
    ]

pub of_query_refresh_token_by_id :
    (id : Uuid) (row : RefreshTokenRow) (s t : Database)
    → query_refresh_token_by_id (some id) s ≡ (ok row, t)
    → (first_row (where_rows (has_token_id (some id)) s.refresh_tokens) ≡ ok row) × (now s ≡ now t)
unfolding query_refresh_token_by_id
of_query_refresh_token_by_id id row s t h =
    let (rest, ran) = of_execute _ s t row s.outages refl h in
    (ap (λ p. p.0) ran, ap (λ p. now p.1) ran)

pub revoke_refresh_token-IsRevoked :
    (id : Uuid) (row : RefreshTokenRow) (s t : Database)
    → first_row (where_rows (has_token_id (some id)) s.refresh_tokens) ≡ ok row
    → revoke_refresh_token id s ≡ (ok tt, t)
    → IsRevoked id t.refresh_tokens
unfolding revoke_refresh_token revoke_row
revoke_refresh_token-IsRevoked id row s t found h =
    let done = of_wrapping (codes "revoke refresh token") (revoke_row (some id)) s t tt h in
    let (rest, ran) = of_execute _ s t tt s.outages refl done in
    subst (IsRevoked id) (ap (λ p. p.1.refresh_tokens) ran)
      (set_where-IsRevoked id (now s) s.refresh_tokens row found)
