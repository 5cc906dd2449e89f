-- ===== src/Tests/Auth.antt =====
-- Sessions over a database with one user and one refresh token.
use moon_eye.Base.{◌≡◌, refl, [], ◌∷◌, Str, none, some, codes, arith, str_eq}
use moon_eye.Outcome.{Error, Result, ok, err, other, refresh_token_invalid}
use moon_eye.Database.Rows.{RefreshTokenRow, Database, execute, draw}
use moon_eye.Database.Queries.{where_rows, set_where}
use moon_eye.Database.Tx.{commit, run_begun, run_in_tx}
use moon_eye.Database.Users.{get_user_by_id, query_user_by_id, sqlc_row_to_user}
use moon_eye.Database.RefreshTokens.{
  create_refresh_token, create_refresh_token_row, has_token, has_user, get_refresh_token_by_id,
  query_refresh_token_by_id, sqlc_refresh_token_to_token, revoke_row, revoke_refresh_token,
}
use moon_eye.Auth.Compare.{
  xor_bits, or_bits, differences, constant_time_compare, constant_time_compare-str_eq,
}
use moon_eye.Auth.Crypto.{
  index_of, init_key, encrypt, decrypt, init_jwt_key, claims_of, time_now, sign, must_new_v4,
  encode_refresh_token, decode_parts, decode_refresh_token,
}
use moon_eye.Auth.Service.{
  Postgres, new_refresh_token, issue, stored_secret, check_token, rotate, rotate_and_give, reissue,
  find_token, refresh_parts, refresh, revoke, authenticate,
}
use moon_eye.Auth.Sessions.{stay, revoke-refresh}
use moon_eye.Auth.Accepted.{IsAccepted, find_token-IsAccepted}
use moon_eye.Auth.Failing.{refresh-kept}
use moon_eye.Auth.NotNull.{NotNullUpdatedAt, authenticate-refresh-fail}
use moon_eye.Auth.Encoding.{ReadsBack, decode_refresh_token-encode_refresh_token}
use moon_eye.Tests.People.{driver, libraries, postgres, stored, start, token}

constant_time_compare-str_eq_example :
    constant_time_compare (1 ∷ 200 ∷ []) (1 ∷ 201 ∷ []) ≡ str_eq (1 ∷ 200 ∷ []) (1 ∷ 201 ∷ [])
constant_time_compare-str_eq_example =
    constant_time_compare-str_eq (1 ∷ 200 ∷ []) (1 ∷ 201 ∷ []) (ground arith, (ground arith, tt))
      (ground arith, (ground arith, tt))

driver-ReadsBack : ReadsBack driver libraries
unfolding index_of
driver-ReadsBack = record {
  no_colon = λ id. ground arith;
  not_empty = λ id h. ground (arith, h);
  uuid = λ id. ground arith;
  base64 = λ s. refl;
  some_text = λ s h. h;
}

decode_refresh_token-encode_refresh_token_example :
    decode_refresh_token libraries driver (encode_refresh_token libraries driver 5 (3 ∷ []))
    ≡ ok (5, 3 ∷ [])
decode_refresh_token-encode_refresh_token_example =
    decode_refresh_token-encode_refresh_token driver libraries 5 (3 ∷ []) driver-ReadsBack
      (λ h. ground (arith, h))

find_token-IsAccepted_example : IsAccepted driver libraries postgres 5 (3 ∷ []) start
unfolding find_token check_token get_refresh_token_by_id query_refresh_token_by_id
    sqlc_refresh_token_to_token where_rows execute time_now stored_secret decrypt init_key
    constant_time_compare differences or_bits xor_bits
find_token-IsAccepted_example =
    find_token-IsAccepted driver libraries postgres 5 (3 ∷ []) start
      (find_token driver libraries postgres 5 (3 ∷ []) start).1 (sqlc_refresh_token_to_token stored)
      refl

abbrev revoked : Result (Unit {0}) × Database
revoked = revoke driver libraries postgres token start

revoke-refresh_example :
    refresh driver libraries postgres token revoked.1 ≡ (err refresh_token_invalid, revoked.1)
unfolding revoke index_of decode_parts decode_refresh_token where_rows execute revoke_refresh_token
    revoke_row set_where
revoke-refresh_example =
    revoke-refresh driver libraries postgres token token 5 (3 ∷ []) (3 ∷ []) stored start revoked.1
      revoked.1 refl refl refl stay refl refl

abbrev require_updated_at : RefreshTokenRow → Result RefreshTokenRow
require_updated_at r = elim r.updated_at [
  | none ↦ err (other (codes "null value in column updated_at"))
  | some t ↦ ok r
]

require_updated_at-NotNullUpdatedAt : NotNullUpdatedAt require_updated_at
require_updated_at-NotNullUpdatedAt r missing =
    (other (codes "null value in column updated_at"), rw missing refl)

abbrev strict_postgres : Postgres
strict_postgres = record postgres { admit_token = require_updated_at }

authenticate-refresh-fail_example :
    ((e : Error) × ((authenticate driver libraries strict_postgres
          (codes "ann")
          (codes "secret")
          start).0
        ≡ err e))
    × ((e : Error) × ((refresh driver libraries strict_postgres token start).0 ≡ err e))
authenticate-refresh-fail_example =
    authenticate-refresh-fail driver libraries strict_postgres require_updated_at-NotNullUpdatedAt
      (codes "ann") (codes "secret") token start

abbrev refreshed : Result (Str × Str) × Database
refreshed = refresh driver libraries strict_postgres token start

abbrev error_or : Error → Result (Str × Str) → Error
error_or e (ok given) = e
error_or e (err x) = x

refresh-kept_example : refreshed.1.refresh_tokens ≡ start.refresh_tokens
unfolding index_of decode_parts decode_refresh_token refresh refresh_parts find_token check_token
    get_refresh_token_by_id query_refresh_token_by_id sqlc_refresh_token_to_token where_rows execute
    time_now stored_secret decrypt init_key constant_time_compare differences or_bits xor_bits
    reissue get_user_by_id query_user_by_id sqlc_row_to_user issue sign init_jwt_key claims_of
    new_refresh_token must_new_v4 draw encrypt rotate rotate_and_give run_in_tx run_begun commit
    revoke_refresh_token revoke_row set_where create_refresh_token create_refresh_token_row
    has_token has_user encode_refresh_token
refresh-kept_example =
    refresh-kept driver libraries strict_postgres token (error_or refresh_token_invalid refreshed.0)
      start refreshed.1 refl
