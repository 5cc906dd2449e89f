-- ===== src/Auth/Failing.antt =====
-- internal/service/auth_service.go: what a `Refresh` that fails leaves behind.
use moon_eye.Base.{◌≡◌, refl, ◌∙◌, subst, List, Str, inl, inr, codes}
use moon_eye.Outcome.{
  Error, Result, ok, err, Action, lift, pure, wrapped, ◌>>=◌, ◌>>◌, Result-cases,
  refresh_token_invalid,
}
use moon_eye.Database.Pg.{Uuid, Driver}
use moon_eye.Database.Rows.{RefreshTokenRow, Database}
use moon_eye.Database.Tx.{run_in_tx}
use moon_eye.Database.Atomicity.{SameTables, begun, Ends, run_in_tx-Ends}
use moon_eye.Database.RefreshTokens.{RefreshToken, create_refresh_token, revoke_refresh_token}
use moon_eye.Auth.Crypto.{Libraries, decode_refresh_token}
use moon_eye.Auth.Service.{
  Postgres, or_else, tokens, rotate, rotate_and_give, reissue, find_token, refresh_parts, refresh,
}
use moon_eye.Auth.Reads.{find_token-KeepsTokens, reissue-KeepsTokens}

-- What became of the refresh tokens: if there is an error, nothing.
abbrev KeptIfFailed : {A : Type 0} → Database → Result A × Database → Type 0
KeptIfFailed s (ok a, t) = Unit
KeptIfFailed s (err e, t) = t.refresh_tokens ≡ s.refresh_tokens

-- A call that keeps the refresh tokens where it fails.
abbrev FailsSafely : {A : Type 0} → Action Database A → Type 0
FailsSafely m = (s : Database) → KeptIfFailed s (m s)

kept_from :
    {A : Type 0} (s t : Database) (p : Result A × Database)
    → t.refresh_tokens ≡ s.refresh_tokens
    → KeptIfFailed t p
    → KeptIfFailed s p
kept_from s t (ok a, u) same kept = tt
kept_from s t (err e, u) same kept = kept ∙ same

then-FailsSafely :
    {A B : Type 0} (m : Action Database A) (f : A → Action Database B)
    → ((s : Database) → (m s).1.refresh_tokens ≡ s.refresh_tokens)
    → ((a : A) → FailsSafely (f a))
    → FailsSafely (m >>= f)
then-FailsSafely m f keeps safe s = elim (Result-cases (m s).0) [
  | inl (a, e) ↦ rw (e, ◌>>=◌) (kept_from s (m s).1 (f a (m s).1) (keeps s) (safe a (m s).1))
  | inr (x, e) ↦ rw (e, ◌>>=◌) (keeps s)
]

given_kept :
    {A B : Type 0} (b : B) (s : Database) (p : Result A × Database)
    → KeptIfFailed s p
    → KeptIfFailed s
        (elim p.0 as (λ _. Result B × Database) [ ok a ↦ (ok b, p.1) | err e ↦ (err e, p.1) ])
given_kept b s (ok a, t) kept = tt
given_kept b s (err e, t) kept = kept

-- Nothing can fail after the call.
give-FailsSafely :
    {A B : Type 0} (m : Action Database A) (b : B) → FailsSafely m → FailsSafely (m >> pure b)
give-FailsSafely m b safe s = given_kept b s (m s) (safe s)

wrapped-kept :
    {A : Type 0} (msg : Str) (s : Database) (p : Result A × Database)
    → KeptIfFailed s p
    → KeptIfFailed s (wrapped msg p.0, p.1)
wrapped-kept msg s (ok a, t) kept = tt
wrapped-kept msg s (err e, t) kept = kept

run_in_tx-kept :
    {A : Type 0} (f : Action Database A) (s : Database) (p : Result A × Database)
    → SameTables (begun s) s
    → Ends (begun s) (f (begun s)) p
    → KeptIfFailed s p
run_in_tx-kept f s (ok a, t) same ends = tt
run_in_tx-kept f s (err e, t) same ends = ends.3 ∙ same.3

module _ (d : Driver) (lib : Libraries) (pg : Postgres) where
  rotate-FailsSafely : (id : Uuid) (token : RefreshToken) → FailsSafely (rotate d lib pg id token)
  unfolding rotate
  rotate-FailsSafely id token s =
      let body : Action Database (Unit {0}) =
        revoke_refresh_token id >> create_refresh_token d pg.admit_token token in
      let (same, ends) = run_in_tx-Ends body s in
      wrapped-kept (codes "rotate refresh token") s (run_in_tx body s)
        (run_in_tx-kept body s (run_in_tx body s) same ends)

  rotate_and_give-FailsSafely :
      (id : Uuid) (issued : Str × RefreshToken × Str)
      → FailsSafely (rotate_and_give d lib pg id issued)
  unfolding rotate_and_give
  rotate_and_give-FailsSafely id issued =
      give-FailsSafely (rotate d lib pg id issued.1) (tokens d lib pg issued)
        (rotate-FailsSafely id issued.1)

  refresh_parts-FailsSafely : (parts : Uuid × Str) → FailsSafely (refresh_parts d lib pg parts)
  unfolding refresh_parts
  refresh_parts-FailsSafely parts =
      let same = λ (s : Database) (rows : List RefreshTokenRow). rows ≡ s.refresh_tokens in
      then-FailsSafely (find_token d lib pg parts.0 parts.1)
        (λ row. reissue d lib pg row.user_id >>= rotate_and_give d lib pg parts.0)
        (λ s. (find_token-KeepsTokens (same s) d lib pg parts.0 parts.1).kept s refl)
        (λ row.
          then-FailsSafely (reissue d lib pg row.user_id) (rotate_and_give d lib pg parts.0)
            (λ s. (reissue-KeepsTokens (same s) d lib pg row.user_id).kept s refl)
            (rotate_and_give-FailsSafely parts.0))

  refresh-FailsSafely : (token : Str) → FailsSafely (refresh d lib pg token)
  unfolding refresh
  refresh-FailsSafely token =
      then-FailsSafely (lift (or_else refresh_token_invalid (decode_refresh_token lib d token)))
        (refresh_parts d lib pg) (λ s. refl) (refresh_parts-FailsSafely)

  -- A `Refresh` that fails, for whatever reason, leaves the refresh tokens as they were: it does not
  -- use up the token that it was given.
  pub refresh-kept :
      (token : Str) (e : Error) (s t : Database)
      → refresh d lib pg token s ≡ (err e, t)
      → t.refresh_tokens ≡ s.refresh_tokens
  refresh-kept token e s t h = subst (KeptIfFailed s) h (refresh-FailsSafely token s)
