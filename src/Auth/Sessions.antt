-- ===== src/Auth/Sessions.antt =====
-- internal/service/auth_service.go: what `Revoke` leaves behind, and what any later calls make of the
-- token.
use moon_eye.Base.{◌≡◌, ◌∙◌, ap, subst, true, List, [], Str, Option, some, arith, codes}
use moon_eye.Outcome.{
  Error, ok, err, lift, pure, ◌>>=◌, ◌>>◌, bind_ok, bind_err, of_bind, refresh_token_invalid,
}
use moon_eye.Database.Pg.{Uuid, Driver}
use moon_eye.Database.Rows.{RefreshTokenRow, Database}
use moon_eye.Database.Queries.{where_rows, first_row}
use moon_eye.Database.RefreshTokens.{
  RefreshToken, has_token_id, sqlc_refresh_token_to_token, get_refresh_token_by_id,
  revoke_refresh_token,
}
use moon_eye.Auth.Crypto.{Libraries, decode_refresh_token}
use moon_eye.Auth.Service.{
  Postgres, or_else, when_missing, register, authenticate, check_token, rotate_and_give, reissue,
  find_token, refresh_parts, refresh, revoke,
}
use moon_eye.Auth.Keeping.{IsRevoked}
use moon_eye.Auth.Lasting.{
  register-KeepsRevoked, authenticate-KeepsRevoked, refresh-KeepsRevoked, revoke-KeepsRevoked,
}
use moon_eye.Auth.Lookup.{
  query_refresh_token_by_id-found, get_refresh_token_by_id-found, when_missing-ok,
  revoke_refresh_token-IsRevoked,
}

pub data Call : Type 0 where
  register_with authenticate_with : Str → Str → Call
  refresh_with revoke_with : Str → Call

module _ (d : Driver) (lib : Libraries) (pg : Postgres) where
  -- The state after a call.
  abbrev pub after_call : Call → Database → Database
  after_call (register_with email password) s = (register d lib pg email password s).1
  after_call (authenticate_with email password) s = (authenticate d lib pg email password s).1
  after_call (refresh_with token) s = (refresh d lib pg token s).1
  after_call (revoke_with token) s = (revoke d lib pg token s).1

  -- What calls lead to. Between them statements may begin or stop to fail.
  pub data Leads : Database → Database → Type 0 where
    stay : {s : Database} → Leads s s
    call : {s t : Database} (c : Call) → Leads (after_call c s) t → Leads s t
    outage :
        {s t : Database} (o : List (Option Error)) → Leads (record s { outages = o }) t → Leads s t

  after_call-IsRevoked :
      (id : Uuid) (c : Call) (s : Database)
      → IsRevoked id s.refresh_tokens
      → IsRevoked id (after_call c s).refresh_tokens
  after_call-IsRevoked id (register_with email password) s h =
      (register-KeepsRevoked id d lib pg email password).kept s h
  after_call-IsRevoked id (authenticate_with email password) s h =
      (authenticate-KeepsRevoked id d lib pg email password).kept s h
  after_call-IsRevoked id (refresh_with token) s h =
      (refresh-KeepsRevoked id d lib pg token).kept s h
  after_call-IsRevoked id (revoke_with token) s h = (revoke-KeepsRevoked id d lib pg token).kept s h

  Leads-IsRevoked :
      (id : Uuid) {s t : Database}
      → Leads s t
      → IsRevoked id s.refresh_tokens
      → IsRevoked id t.refresh_tokens
  Leads-IsRevoked id stay h = h
  Leads-IsRevoked id {s = s} (call c rest) h =
      Leads-IsRevoked id rest (after_call-IsRevoked id c s h)
  Leads-IsRevoked id (outage o rest) h = Leads-IsRevoked id rest h

  check_token-revoked :
      (row : RefreshToken) (secret : Str) (s : Database)
      → row.revoked ≡ true
      → check_token d lib pg row secret s ≡ (err refresh_token_invalid, s)
  unfolding check_token
  check_token-revoked row secret s h = ground (arith, h)

  find_token-revoked :
      (id : Uuid) (secret : Str) (s : Database)
      → s.outages ≡ []
      → IsRevoked id s.refresh_tokens
      → find_token d lib pg id secret s ≡ (err refresh_token_invalid, s)
  unfolding find_token sqlc_refresh_token_to_token
  find_token-revoked id secret s calm (r, found, revoked) =
      let row = sqlc_refresh_token_to_token r in
      let query = query_refresh_token_by_id-found id r s calm found in
      let lookup =
        when_missing-ok refresh_token_invalid (codes "get refresh token")
          (get_refresh_token_by_id id) s s row (get_refresh_token_by_id-found id r s query) in
      bind_ok
        (when_missing refresh_token_invalid (codes "get refresh token")
          (get_refresh_token_by_id id))
        (λ q. check_token d lib pg q secret >> pure q) s s row lookup
      ∙ bind_err (check_token d lib pg row secret) (λ done. pure row) s s refresh_token_invalid
          (check_token-revoked row secret s revoked)

  refused :
      (token : Str) (id : Uuid) (secret : Str) (s : Database)
      → decode_refresh_token lib d token ≡ ok (id, secret)
      → s.outages ≡ []
      → IsRevoked id s.refresh_tokens
      → refresh d lib pg token s ≡ (err refresh_token_invalid, s)
  unfolding refresh refresh_parts
  refused token id secret s decoded calm h =
      bind_ok (lift (or_else refresh_token_invalid (decode_refresh_token lib d token)))
        (refresh_parts d lib pg) s s (id, secret)
        (ap (λ r. (or_else refresh_token_invalid r, s)) decoded)
      ∙ bind_err (find_token d lib pg id secret)
          (λ row. reissue d lib pg row.user_id >>= rotate_and_give d lib pg id) s s
          refresh_token_invalid (find_token-revoked id secret s calm h)

  decoded-parts :
      (token : Str) (parts a : Uuid × Str) (s u : Database)
      → decode_refresh_token lib d token ≡ ok parts
      → lift (or_else refresh_token_invalid (decode_refresh_token lib d token)) s ≡ (ok a, u)
      → (a ≡ parts) × (u ≡ s)
  decoded-parts token parts a s u decoded h = ground (arith, rw decoded at h)

  -- After a successful revocation of a token that exists, its row is revoked.
  revoke-IsRevoked :
      (token : Str) (id : Uuid) (secret : Str) (row : RefreshTokenRow) (s t : Database)
      → decode_refresh_token lib d token ≡ ok (id, secret)
      → first_row (where_rows (has_token_id (some id)) s.refresh_tokens) ≡ ok row
      → revoke d lib pg token s ≡ (ok tt, t)
      → IsRevoked id t.refresh_tokens
  unfolding revoke
  revoke-IsRevoked token id secret row s t decoded found done =
      let (a, u, e, rest) =
        of_bind (lift (or_else refresh_token_invalid (decode_refresh_token lib d token)))
          (λ parts. revoke_refresh_token parts.0) s t tt done in
      let (same, unchanged) = decoded-parts token (id, secret) a s u decoded e in
      revoke_refresh_token-IsRevoked id row s t found (
        subst (λ v. revoke_refresh_token id v ≡ (ok tt, t)) {x = u} {y = s} unchanged
          (subst (λ (b : Uuid × Str). revoke_refresh_token b.0 u ≡ (ok tt, t)) {x = a}
            {y = (id, secret)} same rest))

  -- A revoked token stays refused. After `Revoke` of a token whose row exists, every later `Refresh`
  -- of a token with its id is refused as invalid and changes nothing, whatever calls of the service
  -- came in between, if the database is up at that time.
  pub revoke-refresh :
      (token again : Str) (id : Uuid) (secret other : Str) (row : RefreshTokenRow)
      (s t u : Database)
      → decode_refresh_token lib d token ≡ ok (id, secret)
      → first_row (where_rows (has_token_id (some id)) s.refresh_tokens) ≡ ok row
      → revoke d lib pg token s ≡ (ok tt, t)
      → Leads t u
      → decode_refresh_token lib d again ≡ ok (id, other)
      → u.outages ≡ []
      → refresh d lib pg again u ≡ (err refresh_token_invalid, u)
  revoke-refresh token again id secret other row s t u decoded found done calls decoded_again calm =
      refused again id other u decoded_again calm
        (Leads-IsRevoked id calls (revoke-IsRevoked token id secret row s t decoded found done))
