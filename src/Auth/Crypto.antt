-- ===== src/Auth/Crypto.antt =====
-- pkg/shared/crypto, pkg/shared/auth and pkg/shared/stringsx: encryption of secrets, access and
-- refresh tokens, and what these call of Go's libraries.
use moon_eye.Base.{
  ℕ, suc, ◌-◌, Bool, true, false, ◌||◌, [], ◌∷◌, ◌++◌, Str, Option, none, some, codes, length, take,
  drop, ltb, leb, ◌==◌, if◌then◌else◌,
}
use moon_eye.Base.Int.{ℤ, pos, ◌+ℤ◌}
use moon_eye.Outcome.{
  Error, other, panic, wrap, Result, ok, err, Action, pure, lift, and_then, wrapped, ◌>>=◌,
}
use moon_eye.Values.{Time}
use moon_eye.Database.Pg.{Uuid, Driver}
use moon_eye.Database.Rows.{Database, now, tick, draw}

-- `cipher.AEAD`, for no additional data: `Seal` and `Open` take the nonce and the text.
pub record Aead : Type 0 where
  pub nonce_size : ℕ
  pub seal : Str → Str → Str
  pub open_sealed : Str → Str → Result Str

-- `Claims`, with the registered claims that are set.
pub record Claims : Type 0 where
  pub subject : Str
  pub issued_at : Time
  pub expires_at : Time
  pub user_id : Str
  pub email : Str

-- What the code calls. A function of a number gives what the process's random source yields at that
-- read.
pub record Libraries : Type 0 where
  -- `APP_CRYPTO_KEY` and `JWT_SIGNING_KEY`.
  pub app_crypto_key : Str
  pub jwt_signing_key : Str
  pub hex_decode : Str → Result Str
  pub base64_encode : Str → Str
  pub base64_decode : Str → Result Str
  -- `aes.NewCipher` and `cipher.NewGCM`.
  pub new_gcm : Str → Result Aead
  -- `io.ReadFull(rand.Reader, b)` for a length, and `uuid.NewV4`.
  pub read_random : ℕ → ℕ → Result Str
  pub new_v4 : ℕ → Result Uuid
  -- bcrypt, with its random salt.
  pub generate_from_password : Str → ℕ → Result Str
  pub compare_hash_and_password : Str → Str → Result (Unit {0})
  -- `token.SignedString` of HS256, and `jwt.ParseWithClaims` at a time with an HMAC key: the claims
  -- and `token.Valid`.
  pub signed_string : Str → Claims → Result Str
  pub parse_with_claims : Str → Time → Str → Result (Claims × Bool)
  pub to_lower : Str → Str
  pub trim_space : Str → Str

abbrev pub key_missing : Error
key_missing =
    other
      (codes "crypto: APP_CRYPTO_KEY must be set and decode to 32 bytes (hex 64 chars or base64)")

abbrev pub jwt_key_missing : Error
jwt_key_missing = other (codes "auth: JWT_SIGNING_KEY must be set")

-- `strings.Index(s, ":")`.
unfoldable pub index_of : ℕ → Str → Option ℕ
index_of c [] = none
index_of c (a ∷ s) =
    let rest = index_of c s in
    if a == c then some 0 else elim rest [ none ↦ none | some i ↦ some (suc i) ]

-- 15 minutes and 7 days in nanoseconds.
abbrev pub access_token_expiry : ℤ
access_token_expiry = pos 900000000000

abbrev pub refresh_token_expiry : ℤ
refresh_token_expiry = pos 604800000000000

-- `time.Now()`.
unfoldable pub time_now : Action Database Time
time_now s = (ok (now s), tick s)

module _ (lib : Libraries) where
  abbrev key_of_size : Result Str → Option Str
  key_of_size (ok k) = if length k == 32 then some k else none
  key_of_size (err e) = none

  -- The key of the first decoding that gives 32 bytes.
  abbrev first_key : Option Str → Option Str → Result Str
  first_key (some k) _ = ok k
  first_key none (some k) = ok k
  first_key none none = err (wrap (codes "key must decode to 32 bytes") key_missing)

  -- `initKey`, whose result the process keeps.
  unfoldable pub init_key : Result Str
  init_key = elim lib.app_crypto_key [
    | [] ↦ err key_missing
    | c ∷ raw ↦
        first_key (key_of_size (lib.hex_decode (c ∷ raw)))
          (key_of_size (lib.base64_decode (c ∷ raw)))
  ]

  abbrev pub gcm : Result Aead
  gcm = and_then init_key lib.new_gcm

  unfoldable pub encrypt : Str → Action Database Str
  encrypt plaintext = do
    aead ← lift gcm
    nonce ← draw (λ n. wrapped (codes "rand nonce") (lib.read_random n aead.nonce_size))
    pure (nonce ++ aead.seal nonce plaintext)

  unfoldable pub decrypt : Str → Result Str
  decrypt ciphertext = and_then gcm (λ aead.
      if ltb (length ciphertext) aead.nonce_size
      then err (other (codes "crypto: ciphertext too short"))
      else aead.open_sealed (take aead.nonce_size ciphertext) (drop aead.nonce_size ciphertext))

  -- `initJWTKey`.
  unfoldable pub init_jwt_key : Result Str
  init_jwt_key = elim lib.jwt_signing_key [ [] ↦ err jwt_key_missing | c ∷ raw ↦ ok (c ∷ raw) ]

  unfoldable pub claims_of : Str → Str → ℤ → Time → Claims
  claims_of user_id email exp time = record {
    subject = user_id;
    issued_at = time;
    expires_at = time +ℤ exp;
    user_id = user_id;
    email = email;
  }

  unfoldable pub sign : Str → Str → ℤ → Action Database Str
  sign user_id email exp = do
    key ← lift init_jwt_key
    time ← time_now
    lift (wrapped (codes "jwt sign") (lib.signed_string key (claims_of user_id email exp time)))

  -- The user's id and email of a token that is valid.
  abbrev claims_if_valid : Claims × Bool → Result (Str × Str)
  claims_if_valid (claims, true) = ok (claims.user_id, claims.email)
  claims_if_valid (claims, false) = err (other (codes "jwt: invalid token or claims"))

  unfoldable pub verify : Str → Action Database (Str × Str)
  verify token = do
    key ← lift init_jwt_key
    time ← time_now
    parsed ← lift (wrapped (codes "jwt verify") (lib.parse_with_claims key time token))
    lift (claims_if_valid parsed)

  -- `uuid.Must(uuid.NewV4())`.
  unfoldable pub must_new_v4 : Action Database Uuid
  must_new_v4 = draw (λ n. elim (lib.new_v4 n) [ ok id ↦ ok id | err e ↦ err panic ])

  unfoldable pub normalize_email : Str → Str
  normalize_email s = lib.trim_space (lib.to_lower s)

  module _ (d : Driver) where
    unfoldable pub encode_refresh_token : Uuid → Str → Str
    encode_refresh_token id secret = d.print_uuid id ++ (codes ":" ++ lib.base64_encode secret)

    abbrev invalid_format : Error
    invalid_format = other (codes "invalid refresh token format")

    -- The parts of the string round the colon.
    unfoldable pub decode_parts : Str → Str → Result (Uuid × Str)
    decode_parts id_text secret_text =
        and_then (d.parse_uuid id_text)
          (λ id. and_then (lib.base64_decode secret_text) (λ secret. ok (id, secret)))

    unfoldable pub decode_refresh_token : Str → Result (Uuid × Str)
    decode_refresh_token s = elim (index_of 58 s) [
      | none ↦ err invalid_format
      | some i ↦
          if i == 0 || leb (length s - 1) i
          then err invalid_format
          else decode_parts (take i s) (drop (suc i) s)
    ]
