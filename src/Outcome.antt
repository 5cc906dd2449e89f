-- ===== src/Outcome.antt =====
-- Go's `error` results: the errors of internal/service/auth_service.go and
-- internal/db/user_repository.go that callers test for, any other error by its text, and the
-- wrapping of `fmt.Errorf` with `%w`. A fallible call that changes state returns the state too.
use moon_eye.Base.{
  ◌≡◌, refl, ap, ◌∙◌, ◌⊎◌, inl, inr, Bool, true, false, [], ◌++◌, Str, codes, arith,
}

pub data Error : Type 0 where
  -- `db.ErrNoRows` is `pgx.ErrNoRows`.
  no_rows invalid_credentials refresh_token_invalid : Error
  -- A run-time panic: it leaves every caller as an error that is not handled would.
  panic : Error
  other : Str → Error
  wrap : Str → Error → Error

-- `errors.Is(err, db.ErrNoRows)`: the error, or what it wraps.
unfoldable pub is_no_rows : Error → Bool
is_no_rows no_rows = true
is_no_rows (wrap msg e) = is_no_rows e
is_no_rows _ = false

-- `errors.Is(err, service.ErrInvalidCredentials)`.
unfoldable pub is_invalid_credentials : Error → Bool
is_invalid_credentials invalid_credentials = true
is_invalid_credentials (wrap msg e) = is_invalid_credentials e
is_invalid_credentials _ = false

-- `errors.Is(err, service.ErrRefreshTokenInvalid)`.
unfoldable pub is_refresh_token_invalid : Error → Bool
is_refresh_token_invalid refresh_token_invalid = true
is_refresh_token_invalid (wrap msg e) = is_refresh_token_invalid e
is_refresh_token_invalid _ = false

-- A panic reaches no handler's error path.
unfoldable pub is_panic : Error → Bool
is_panic panic = true
is_panic (wrap msg e) = is_panic e
is_panic _ = false

-- `err.Error()`, with the text of pgx's own error.
unfoldable pub error_text : Str → Error → Str
error_text missing no_rows = missing
error_text missing invalid_credentials = codes "invalid credentials"
error_text missing refresh_token_invalid = codes "refresh token invalid"
error_text missing panic = []
error_text missing (other msg) = msg
error_text missing (wrap msg e) = msg ++ (codes ": " ++ error_text missing e)

pub data Result {ℓ} (A : Type ℓ) : Type ℓ where
  ok : A → Result A
  err : Error → Result A

-- `if err != nil { return err }` between pure calls.
abbrev pub and_then {ℓ κ} : {A : Type ℓ} {B : Type κ} → Result A → (A → Result B) → Result B
and_then (ok a) f = f a
and_then (err e) f = err e

-- `fmt.Errorf("msg: %w", err)` round a result.
abbrev pub wrapped {ℓ} : {A : Type ℓ} → Str → Result A → Result A
wrapped msg (ok a) = ok a
wrapped msg (err e) = err (wrap msg e)

-- A call that reads and changes a state `S`; what was written before an error stays written.
abbrev pub Action {ℓ} : Type ℓ → Type ℓ → Type ℓ
Action S A = S → Result A × S

module _ {ℓ} {S A : Type ℓ} where
  abbrev pub pure : A → Action S A
  pure a s = (ok a, s)

  abbrev pub fail : Error → Action S A
  fail e s = (err e, s)

  abbrev pub lift : Result A → Action S A
  lift r s = (r, s)

  abbrev pub wrapping : Str → Action S A → Action S A
  wrapping msg m s = let (r, s') = m s in (wrapped msg r, s')

module _ {ℓ} {S A B : Type ℓ} where
  infixl 5 ◌>>=◌ ◌>>◌
  abbrev pub ◌>>=◌ : Action S A → (A → Action S B) → Action S B
  ◌>>=◌ m f s = let (r, s') = m s in elim r [ ok a ↦ f a s' | err e ↦ (err e, s') ]

  abbrev pub ◌>>◌ : Action S A → Action S B → Action S B
  m >> k = m >>= λ _. k

-- A pure result that is split keeps its equation.
pub Result-cases {ℓ} :
    {A : Type ℓ} (r : Result A) → ((a : A) × (r ≡ ok a)) ⊎ ((e : Error) × (r ≡ err e))
Result-cases (ok a) = inl (a, refl)
Result-cases (err e) = inr (e, refl)

-- The rest of a chain after a call with a known outcome.
module _ {ℓ} {S A B : Type ℓ} (m : Action S A) (f : A → Action S B) (s t : S) where
  pub bind_ok : (a : A) → m s ≡ (ok a, t) → (m >>= f) s ≡ f a t
  bind_ok a h = ap (λ (p : Result A × S). elim p.0 [ ok b ↦ f b p.1 | err e ↦ (err e, p.1) ]) h

  pub bind_err : (e : Error) → m s ≡ (err e, t) → (m >>= f) s ≡ (err e, t)
  bind_err e h = ap (λ (p : Result A × S). elim p.0 [ ok b ↦ f b p.1 | err x ↦ (err x, p.1) ]) h

-- A chain that gives a result went through its first call, and the rest gave the result.
pub of_bind {ℓ} :
    {S A B : Type ℓ} (m : Action S A) (f : A → Action S B) (s t : S) (b : B)
    → (m >>= f) s ≡ (ok b, t)
    → (a : A) × (u : S) × (m s ≡ (ok a, u)) × (f a u ≡ (ok b, t))
of_bind m f s t b h = elim (Result-cases (m s).0) [
  | inl (a, e) ↦ (a, (m s).1, ap (λ r. (r, (m s).1)) e, rw (e, ◌>>=◌) at h)
  | inr (x, e) ↦ absurd (ground (arith, rw (e, ◌>>=◌) at h))
]

pub of_wrapping {ℓ} :
    {S A : Type ℓ} (msg : Str) (m : Action S A) (s t : S) (a : A)
    → wrapping msg m s ≡ (ok a, t)
    → m s ≡ (ok a, t)
of_wrapping msg m s t a h = elim (Result-cases (m s).0) [
  | inl (b, e) ↦ ap (λ r. (r, (m s).1)) e ∙ (rw (e, wrapping) at h)
  | inr (x, e) ↦ absurd (ground (arith, rw (e, wrapping) at h))
]
