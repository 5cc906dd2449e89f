-- ===== src/Auth/Keeping.antt =====
-- A refresh token that is revoked stays revoked, whatever is called.
use moon_eye.Base.{
  ◌≡◌, refl, sym, subst, Bool, true, false, List, [], ◌∷◌, ◌++◌, Str, Option, none, some, inl, inr,
  arith, if◌then◌else◌, Bool-cases,
}
use moon_eye.Outcome.{Error, Result, ok, err, Action, lift, wrapping, ◌>>=◌, Result-cases}
use moon_eye.Values.{Time}
use moon_eye.Database.Pg.{Uuid}
use moon_eye.Database.Rows.{RefreshTokenRow, Database, execute}
use moon_eye.Database.Queries.{where_rows, first_row, set_where}
use moon_eye.Database.Tx.{run_in_tx}
use moon_eye.Database.Atomicity.{begun, Ends, run_in_tx-Ends}
use moon_eye.Database.Users.{reading}
use moon_eye.Database.RefreshTokens.{has_token_id, revoked_at}

-- The token that a lookup of the id finds is revoked.
abbrev pub IsRevoked : Uuid → List RefreshTokenRow → Type 0
IsRevoked id rows =
    (row : RefreshTokenRow) × (first_row (where_rows (has_token_id (some id)) rows) ≡ ok row)
    × (row.revoked ≡ true)

module _ (id : Uuid) (r : RefreshTokenRow) (rows : List RefreshTokenRow) where
  hit : has_token_id (some id) r ≡ true → r.revoked ≡ true → IsRevoked id (r ∷ rows)
  unfolding where_rows
  hit e h = rw e (r, refl, h)

  miss : has_token_id (some id) r ≡ false → IsRevoked id rows → IsRevoked id (r ∷ rows)
  unfolding where_rows
  miss e h = rw e h

  after_miss : has_token_id (some id) r ≡ false → IsRevoked id (r ∷ rows) → IsRevoked id rows
  unfolding where_rows
  after_miss e h = rw e at h

  of_hit : has_token_id (some id) r ≡ true → IsRevoked id (r ∷ rows) → r.revoked ≡ true
  unfolding where_rows
  of_hit e h = let (row, found, revoked) = rw e at h in ground (arith, found, revoked)

abbrev set_revoked : Uuid → Time → List RefreshTokenRow → List RefreshTokenRow
set_revoked id time rows = set_where (has_token_id (some id)) (revoked_at time) rows

module _ (id : Uuid) (time : Time) (r : RefreshTokenRow) (rows : List RefreshTokenRow) where
  set_where-hit :
      has_token_id (some id) r ≡ true
      → set_revoked id time (r ∷ rows) ≡ revoked_at time r ∷ set_revoked id time rows
  unfolding set_where
  set_where-hit e = rw e refl

  set_where-miss :
      has_token_id (some id) r ≡ false
      → set_revoked id time (r ∷ rows) ≡ r ∷ set_revoked id time rows
  unfolding set_where
  set_where-miss e = rw e refl

pub IsRevoked-append :
    (id : Uuid) (rows added : List RefreshTokenRow)
    → IsRevoked id rows
    → IsRevoked id (rows ++ added)
unfolding where_rows
IsRevoked-append id [] added h = absurd (ground (arith, h.1))
IsRevoked-append id (r ∷ rows) added h = elim (Bool-cases (has_token_id (some id) r)) [
  | inl e ↦ hit id r (rows ++ added) e (of_hit id r rows e h)
  | inr e ↦ miss id r (rows ++ added) e (IsRevoked-append id rows added (after_miss id r rows e h))
]

-- Once the rows of an id are set to revoked, a lookup that finds a row finds a revoked one.
pub set_where-IsRevoked :
    (id : Uuid) (time : Time) (rows : List RefreshTokenRow) (row : RefreshTokenRow)
    → first_row (where_rows (has_token_id (some id)) rows) ≡ ok row
    → IsRevoked id (set_where (has_token_id (some id)) (revoked_at time) rows)
unfolding where_rows
set_where-IsRevoked id time [] row h = absurd (ground (arith, h))
set_where-IsRevoked id time (r ∷ rows) row h = elim (Bool-cases (has_token_id (some id) r)) [
  | inl e ↦
      subst (IsRevoked id) (sym (set_where-hit id time r rows e))
        (hit id (revoked_at time r) (set_revoked id time rows) e refl)
  | inr e ↦
      subst (IsRevoked id) (sym (set_where-miss id time r rows e))
        (miss id r (set_revoked id time rows) e (set_where-IsRevoked id time rows row (rw e at h)))
]

pub IsRevoked-set_where :
    (id other : Uuid) (time : Time) (rows : List RefreshTokenRow)
    → IsRevoked id rows
    → IsRevoked id (set_where (has_token_id (some other)) (revoked_at time) rows)
unfolding where_rows set_where
IsRevoked-set_where id other time [] h = h
IsRevoked-set_where id other time (r ∷ rows) h = elim (Bool-cases (has_token_id (some other) r)) [
  | inl f ↦
      subst (IsRevoked id) (sym (set_where-hit other time r rows f))
        (elim (Bool-cases (has_token_id (some id) r)) [
          | inl e ↦ hit id (revoked_at time r) (set_revoked other time rows) e refl
          | inr e ↦
              miss id (revoked_at time r) (set_revoked other time rows) e
                (IsRevoked-set_where id other time rows (after_miss id r rows e h))
        ])
  | inr f ↦
      subst (IsRevoked id) (sym (set_where-miss other time r rows f))
        (elim (Bool-cases (has_token_id (some id) r)) [
          | inl e ↦ hit id r (set_revoked other time rows) e (of_hit id r rows e h)
          | inr e ↦
              miss id r (set_revoked other time rows) e
                (IsRevoked-set_where id other time rows (after_miss id r rows e h))
        ])
]

-- What holds of the refresh tokens before the operation holds after it.
pub record KeepsTokens (P : List RefreshTokenRow → Type 0) {A : Type 0} (m : Action Database A)
    : Type 0 where
  pub kept : (s : Database) → P s.refresh_tokens → P (m s).1.refresh_tokens

module _ (P : List RefreshTokenRow → Type 0) where
  pub quiet-KeepsTokens :
      {A : Type 0} (m : Action Database A)
      → ((s : Database) → (m s).1.refresh_tokens ≡ s.refresh_tokens)
      → KeepsTokens P m
  quiet-KeepsTokens m same = record { kept = λ s h. subst P (sym (same s)) h }

  pub bind-KeepsTokens :
      {A B : Type 0} (m : Action Database A) (f : A → Action Database B)
      → KeepsTokens P m
      → ((a : A) → KeepsTokens P (f a))
      → KeepsTokens P (m >>= f)
  bind-KeepsTokens m f hm hf = record {
    kept = λ s h. elim (Result-cases (m s).0) [
      | inl (a, e) ↦ rw (e, ◌>>=◌) ((hf a).kept (m s).1 (hm.kept s h))
      | inr (x, e) ↦ rw (e, ◌>>=◌) (hm.kept s h)
    ];
  }

  pub wrapping-KeepsTokens :
      {A : Type 0} (msg : Str) (m : Action Database A)
      → KeepsTokens P m
      → KeepsTokens P (wrapping msg m)
  wrapping-KeepsTokens msg m h = record { kept = h.kept }

  pub lifting-KeepsTokens :
      {A B : Type 0} (r : Result A) (f : A → Action Database B)
      → ((a : A) → KeepsTokens P (f a))
      → KeepsTokens P (lift r >>= f)
  lifting-KeepsTokens r f hf =
      bind-KeepsTokens (lift r) f (quiet-KeepsTokens (lift r) (λ s. refl)) hf

  execute-from :
      {A : Type 0} (f : Action Database A) (s : Database) (o : List (Option Error))
      → KeepsTokens P f
      → s.outages ≡ o
      → P s.refresh_tokens
      → P (execute f s).1.refresh_tokens
  unfolding execute
  execute-from f s [] k e h = rw e (k.kept (record s { outages = [] }) h)
  execute-from f s (none ∷ rest) k e h = rw e (k.kept (record s { outages = rest }) h)
  execute-from f s (some x ∷ rest) k e h = rw e h

  pub execute-KeepsTokens :
      {A : Type 0} (f : Action Database A) → KeepsTokens P f → KeepsTokens P (execute f)
  execute-KeepsTokens f k = record { kept = λ s h. execute-from f s s.outages k refl h }

  ended :
      {A : Type 0} (f : Action Database A) (s t : Database) (r : Result A)
      → KeepsTokens P f
      → P s.refresh_tokens
      → Ends s (f s) (r, t)
      → P t.refresh_tokens
  ended f s t (ok a) k h ends = subst P (sym ends.1.3) (k.kept s h)
  ended f s t (err e) k h ends = subst P (sym ends.3) h

  pub run_in_tx-KeepsTokens :
      {A : Type 0} (f : Action Database A) → KeepsTokens P f → KeepsTokens P (run_in_tx f)
  run_in_tx-KeepsTokens f k = record {
    kept = λ s h.
        let (same, ends) = run_in_tx-Ends f s in
        ended f (begun s) (run_in_tx f s).1 (run_in_tx f s).0 k (subst P (sym same.3) h) ends;
  }

  pub reading-KeepsTokens :
      {R A : Type 0} (msg : Str) (g : R → A) (m : Action Database R)
      → KeepsTokens P m
      → KeepsTokens P (reading msg g m)
  reading-KeepsTokens msg g m k = record {
    kept = λ s h. elim (Result-cases (m s).0) [
      | inl (a, e) ↦ rw (e, reading) (k.kept s h)
      | inr (x, e) ↦ rw (e, reading) (k.kept s h)
    ];
  }

  pub if-KeepsTokens :
      {A : Type 0} (b : Bool) (m n : Action Database A)
      → KeepsTokens P m
      → KeepsTokens P n
      → KeepsTokens P (if b then m else n)
  if-KeepsTokens true m n hm hn = hm
  if-KeepsTokens false m n hm hn = hn

-- The operation leaves a revoked token revoked.
abbrev pub KeepsRevoked : {A : Type 0} → Uuid → Action Database A → Type 0
KeepsRevoked id m = KeepsTokens (IsRevoked id) m
