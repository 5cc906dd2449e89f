-- ===== src/Tests/People.antt =====
-- A database with one user and one refresh token, and libraries for it.
use moon_eye.Base.{◌+◌, ◌-◌, false, true, [], ◌∷◌, Str, some, none, codes, replicate}
use moon_eye.Base.Int.{pos}
use moon_eye.Outcome.{Result, ok, err, other}
use moon_eye.Database.Pg.{Uuid, Driver}
use moon_eye.Database.Rows.{UserRow, RefreshTokenRow, Database}
use moon_eye.Auth.Crypto.{Aead, Claims, Libraries}
use moon_eye.Auth.Service.{Postgres}
use moon_eye.Tests.Sample

abbrev code_less_59 : Str → Result Uuid
code_less_59 [] = err (other (codes "no uuid"))
code_less_59 (c ∷ s) = ok (c - 59)

-- A uuid prints as a code above that of the colon.
abbrev pub driver : Driver
driver = record Sample.driver { print_uuid = λ id. (id + 59) ∷ []; parse_uuid = code_less_59 }

abbrev plain_gcm : Aead
plain_gcm = record { nonce_size = 0; seal = λ nonce s. s; open_sealed = λ nonce s. ok s }

-- A token is the user's id.
abbrev claims_of_token : Str → Claims
claims_of_token token = record {
  subject = token;
  issued_at = pos 0;
  expires_at = pos 100;
  user_id = token;
  email = [];
}

abbrev pub libraries : Libraries
libraries = record {
  app_crypto_key = codes "key";
  jwt_signing_key = codes "key";
  hex_decode = λ s. ok (replicate 32 0);
  base64_encode = λ s. s;
  base64_decode = λ s. ok s;
  new_gcm = λ key. ok plain_gcm;
  read_random = λ n size. ok (4 ∷ []);
  new_v4 = λ n. ok 6;
  generate_from_password = λ p n. ok p;
  compare_hash_and_password = λ h p. ok tt;
  signed_string = λ key claims. ok claims.user_id;
  parse_with_claims = λ key time token. ok (claims_of_token token, true);
  to_lower = λ s. s;
  trim_space = λ s. s;
}

abbrev pub postgres : Postgres
postgres = record { lower = λ s. s; admit_user = λ r. ok r; admit_token = λ r. ok r }

abbrev ann : UserRow
ann = record {
  id = some 1;
  email = codes "ann";
  hashed_password = codes "secret";
  created_at = some (pos 5);
  updated_at = some (pos 5);
  deleted_at = none;
}

abbrev pub stored : RefreshTokenRow
stored = record {
  id = some 5;
  user_id = some 1;
  encrypted_token = 3 ∷ [];
  expires_at = some (pos 20);
  revoked = false;
  created_at = some (pos 5);
  updated_at = some (pos 5);
  deleted_at = none;
}

abbrev pub start : Database
start = record Sample.sample { users = ann ∷ []; refresh_tokens = stored ∷ [] }

-- The refresh token of id 5 with the secret 3.
abbrev pub token : Str
token = 64 ∷ 58 ∷ 3 ∷ []

abbrev pub result_or : {A : Type 0} → A → Result A → A
result_or a (ok b) = b
result_or a (err e) = a
