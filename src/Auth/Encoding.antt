-- ===== src/Auth/Encoding.antt =====
-- pkg/shared/auth/refresh_token.go: what is encoded decodes to the same id and secret.
use moon_eye.Base.{
  ℕ, suc, ◌-◌, ◌<◌, false, leb, ◌≡◌, ◌≢◌, refl, ap, [], ◌∷◌, ◌++◌, Str, none, some, length, take,
  drop, arith, ◌==◌, length-append,
}
use moon_eye.Outcome.{ok}
use moon_eye.Database.Pg.{Uuid, Driver}
use moon_eye.Auth.Crypto.{
  Libraries, index_of, encode_refresh_token, decode_parts, decode_refresh_token,
}

index_of-append :
    (c : ℕ) (s t : Str) → index_of c s ≡ none → index_of c (s ++ (c ∷ t)) ≡ some (length s)
unfolding index_of
index_of-append c [] t h = ground arith
index_of-append c (a ∷ s) t h = ground (arith, h, index_of-append c s t)

take-append : (s t : Str) → take (length s) (s ++ t) ≡ s
take-append [] t = refl
take-append (a ∷ s) t = ap (λ x. a ∷ x) (take-append s t)

drop-append : (s t : Str) (c : ℕ) → drop (suc (length s)) (s ++ (c ∷ t)) ≡ t
drop-append [] t c = refl
drop-append (a ∷ s) t c = drop-append s t c

length-not_empty : (s : Str) → s ≢ [] → 0 < length s
length-not_empty [] h = absurd (h refl)
length-not_empty (a ∷ s) h = ground arith

-- What gofrs/uuid and encoding/base64 do with their own output: a uuid prints as a text that is not
-- empty and has no colon, and both read back what they wrote; only no bytes encode as no text.
pub record ReadsBack (d : Driver) (lib : Libraries) : Type 0 where
  pub no_colon : (id : Uuid) → index_of 58 (d.print_uuid id) ≡ none
  pub not_empty : (id : Uuid) → d.print_uuid id ≢ []
  pub uuid : (id : Uuid) → d.parse_uuid (d.print_uuid id) ≡ ok id
  pub base64 : (bytes : Str) → lib.base64_decode (lib.base64_encode bytes) ≡ ok bytes
  pub some_text : (bytes : Str) → bytes ≢ [] → lib.base64_encode bytes ≢ []

-- A refresh token that was encoded from an id and a secret that is not empty decodes to them.
pub decode_refresh_token-encode_refresh_token :
    (d : Driver) (lib : Libraries) (id : Uuid) (secret : Str)
    → ReadsBack d lib
    → secret ≢ []
    → decode_refresh_token lib d (encode_refresh_token lib d id secret) ≡ ok (id, secret)
unfolding decode_refresh_token encode_refresh_token decode_parts
decode_refresh_token-encode_refresh_token d lib id secret back given =
    let text = d.print_uuid id in
    let body = lib.base64_encode secret in
    let whole = text ++ (58 ∷ body) in
    let before = length-not_empty text (back.not_empty id) in
    let behind = length-not_empty body (back.some_text secret given) in
    let size = length-append text (58 ∷ body) in
    let start : (length text == 0) ≡ false = ground (arith, before) in
    let end : leb (length whole - 1) (length text) ≡ false = ground (arith, behind, size) in
    rw
      (
        decode_refresh_token,
        encode_refresh_token,
        index_of-append 58 text body (back.no_colon id),
        start,
        end,
        take-append text (58 ∷ body),
        drop-append text body 58,
        back.uuid id,
        back.base64 secret,
      )
      refl
