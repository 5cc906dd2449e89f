-- ===== src/App/Agreement.antt =====
-- When GET /health says that a program is well, and how finance-api and sync-service differ in it.
use moon_eye.Base.{◌≡◌, ◌⊎◌, ◌∙◌, ap, subst, some, arith, inl, inr, str_eq}
use moon_eye.Base.Int.{ℤ}
use moon_eye.Outcome.{ok, Action, Result-cases}
use moon_eye.App.Health.{Pings, health_timeout, health_code, finance_health, sync_health}

module _ {S C : Type 0} (with_timeout : C → ℤ → S → C × S)
    (ping_db ping_redis : C → Action S (Unit {0})) where
  abbrev pub pings : Pings S C
  pings = record { with_timeout = with_timeout; ping_db = ping_db; ping_redis = some ping_redis }

  -- The database answers, and then Redis does.
  abbrev pub BothAnswer : C → S → Type 0
  BothAnswer ctx s = ((ping_db ctx s).0 ≡ ok tt) × ((ping_redis ctx (ping_db ctx s).1).0 ≡ ok tt)

  -- A context with a timeout: making it changes nothing, and a ping that succeeds before it is done
  -- succeeds in the same way without the timeout.
  pub record IsTimeout : Type 0 where
    pub made : (ctx : C) (n : ℤ) (s : S) → (with_timeout ctx n s).1 ≡ s
    pub asked_db :
        (ctx : C) (n : ℤ) (s t : S)
        → (ping_db (with_timeout ctx n s).0 t).0 ≡ ok tt
        → ping_db ctx t ≡ ping_db (with_timeout ctx n s).0 t
    pub asked_redis :
        (ctx : C) (n : ℤ) (s t : S)
        → (ping_redis (with_timeout ctx n s).0 t).0 ≡ ok tt
        → ping_redis ctx t ≡ ping_redis (with_timeout ctx n s).0 t

  finance-answers :
      (ctx : C) (s : S)
      → let (within, s1) = with_timeout ctx health_timeout s in
        (((finance_health pings ctx s).0.0 ≡ 200) × BothAnswer within s1)
        ⊎ (((finance_health pings ctx s).0.0 ≡ 503) × ¬ BothAnswer within s1)
  unfolding finance_health health_code str_eq
  finance-answers ctx s =
      let (within, s1) = with_timeout ctx health_timeout s in
      elim (Result-cases (ping_db within s1).0) [
        | inl (u, e) ↦ elim (Result-cases (ping_redis within (ping_db within s1).1).0) [
          | inl (v, e') ↦ inl (ground arith, (e, e'))
          | inr (x, e') ↦ inr (ground arith, λ h. ground (arith, h.1))
        ]
        | inr (x, e) ↦ elim (Result-cases (ping_redis within (ping_db within s1).1).0) [
          | inl (v, e') ↦ inr (ground arith, λ h. ground (arith, h.0))
          | inr (y, e') ↦ inr (ground arith, λ h. ground (arith, h.0))
        ]
      ]

  sync-answers :
      (ctx : C) (s : S)
      → (((sync_health ping_db ping_redis ctx s).0.0 ≡ 200) × BothAnswer ctx s)
        ⊎ (((sync_health ping_db ping_redis ctx s).0.0 ≡ 503) × ¬ BothAnswer ctx s)
  unfolding sync_health
  sync-answers ctx s = elim (Result-cases (ping_db ctx s).0) [
    | inl (u, e) ↦ elim (Result-cases (ping_redis ctx (ping_db ctx s).1).0) [
      | inl (v, e') ↦ inl (ground arith, (e, e'))
      | inr (x, e') ↦ inr (ground arith, λ h. ground (arith, h.1))
    ]
    | inr (x, e) ↦ inr (ground arith, λ h. ground (arith, h.0))
  ]

  BothAnswer-later :
      (ctx : C) (s : S)
      → IsTimeout
      → let (within, s1) = with_timeout ctx health_timeout s in
        BothAnswer within s1 → BothAnswer ctx s
  BothAnswer-later ctx s patient (db, redis) =
      let (within, s1) = with_timeout ctx health_timeout s in
      let asked = patient.asked_db ctx health_timeout s s1 db in
      let asked' = patient.asked_redis ctx health_timeout s (ping_db within s1).1 redis in
      subst (BothAnswer ctx) (patient.made ctx health_timeout s) (
        ap (λ p. p.0) asked ∙ db,
        ap (λ p. (ping_redis ctx p.1).0) asked ∙ ap (λ p. p.0) asked' ∙ redis,
      )

  -- For one request context and one state, with a Redis: finance-api answers 200 if the database and
  -- then Redis answer in the context with the timeout of 3 seconds, and 503 if not; sync-service
  -- answers 200 if they answer in the context itself, and 503 if not; and where finance-api answers
  -- 200, sync-service does. It is assumed that making a context with a timeout changes nothing, and
  -- that a ping which succeeds before the timeout does the same without it.
  pub health-codes :
      (ctx : C) (s : S)
      → IsTimeout
      → let (within, s1) = with_timeout ctx health_timeout s in
        let finance = (finance_health pings ctx s).0.0 in
        let sync = (sync_health ping_db ping_redis ctx s).0.0 in
        (((finance ≡ 200) × BothAnswer within s1) ⊎ ((finance ≡ 503) × ¬ BothAnswer within s1))
        × (((sync ≡ 200) × BothAnswer ctx s) ⊎ ((sync ≡ 503) × ¬ BothAnswer ctx s))
        × ((finance ≡ 503) ⊎ (sync ≡ 200))
  health-codes ctx s patient = (
    finance-answers ctx s,
    sync-answers ctx s,
    elim (finance-answers ctx s) [
      | inr (down, h) ↦ inl down
      | inl (up, both) ↦ elim (sync-answers ctx s) [
        | inl (up', both') ↦ inr up'
        | inr (down', not_both) ↦ absurd (not_both (BothAnswer-later ctx s patient both))
      ]
    ],
  )
