-- ===== src/App/Opened.antt =====
-- pkg/shared/db/pg.go and pkg/shared/redisx/client.go: no connection is left open behind an error.
use moon_eye.Base.{ℕ, suc, ◌-◌, ◌≡◌, refl, ◌∙◌, Str, codes, arith, subst, sym}
use moon_eye.Outcome.{Result, ok, err, Action, lift, wrapped, wrapping, ◌>>=◌, bind_ok, bind_err}
use moon_eye.App.Connect.{
  PoolConfig, Connections, kept_if_alive, with_limits, open_pool, open_client, new_postgres_pool,
  new_redis_client,
}

module _ {S : Type 0} (open_in : S → ℕ) where
  -- A result comes with one more open connection, an error with as many as before.
  abbrev pub OpensOne : {A : Type 0} → S → Result A × S → Type 0
  OpensOne s (ok a, t) = open_in t ≡ suc (open_in s)
  OpensOne s (err e, t) = open_in t ≡ open_in s

  -- How many connections are open: opening adds one, a ping none, and closing takes one away.
  pub record IsCounted {P C O : Type 0} (lib : Connections S P C O) : Type 0 where
    pub pool_opens : (cfg : PoolConfig) (s : S) → OpensOne s (lib.new_with_config cfg s)
    pub pool_answers : (p : P) (s : S) → open_in (lib.ping_pool p s).1 ≡ open_in s
    pub pool_closes : (p : P) (s : S) → open_in (lib.close_pool p s) ≡ open_in s - 1
    pub client_opens : (o : O) (s : S) → open_in (lib.new_client o s).1 ≡ suc (open_in s)
    pub client_answers : (c : C) (s : S) → open_in (lib.ping_client c s).1 ≡ open_in s
    pub client_closes : (c : C) (s : S) → open_in (lib.close_client c s) ≡ open_in s - 1

  wrapped-OpensOne :
      {A : Type 0} (s : S) (msg : Str) (r : Result A) (t : S)
      → OpensOne s (r, t)
      → OpensOne s (wrapped msg r, t)
  wrapped-OpensOne s msg (ok a) t o = o
  wrapped-OpensOne s msg (err e) t o = o

  module _ {A B : Type 0} (s : S) where
    of_parse :
        (r : Result A) (f : A → Action S B)
        → ((a : A) → OpensOne s (f a s))
        → OpensOne s ((lift r >>= f) s)
    of_parse (ok a) f k = k a
    of_parse (err e) f k = refl

    of_opened :
        (m : Action S A) (f : A → Action S B) (r : Result A) (t : S)
        → m s ≡ (r, t)
        → OpensOne s (r, t)
        → ((a : A) (u : S) → open_in u ≡ suc (open_in s) → OpensOne s (f a u))
        → OpensOne s ((m >>= f) s)
    of_opened m f (ok a) t h o k = subst (OpensOne s) (sym (bind_ok m f s t a h)) (k a t o)
    of_opened m f (err e) t h o k = subst (OpensOne s) (sym (bind_err m f s t e h)) o

  -- What was opened after `s` is kept if it answers, and closed if not.
  answered-OpensOne :
      {A : Type 0} (msg : Str) (close : A → S → S) (a : A) (s : S) (r : Result (Unit {0})) (t : S)
      → ((u : S) → open_in (close a u) ≡ open_in u - 1)
      → open_in t ≡ suc (open_in s)
      → OpensOne {A = A} s (elim r [ ok _ ↦ (ok a, t) | err e ↦ (wrapped msg (err e), close a t) ])
  answered-OpensOne msg close a s (ok u) t closes h = h
  answered-OpensOne msg close a s (err e) t closes h = omega (arith, closes t)

module _ {S P C O : Type 0} (open_in : S → ℕ) (lib : Connections S P C O)
    (counted : IsCounted open_in lib) where
  -- Both ways to connect: either a connection is given, and one more is open, or an error, and as
  -- many are open as before.
  pub connect-OpensOne :
      (dsn url : Str) (s : S)
      → OpensOne open_in s (new_postgres_pool lib dsn s)
        × OpensOne open_in s (new_redis_client lib url s)
  unfolding new_postgres_pool new_redis_client
  connect-OpensOne dsn url s = (
    of_parse open_in s (wrapped (codes "parse dsn") (lib.parse_config dsn)) (open_pool lib) (λ cfg.
        let opened = lib.new_with_config (with_limits lib cfg) s in
        of_opened open_in s
          (wrapping (codes "new pool") (lib.new_with_config (with_limits lib cfg)))
          (kept_if_alive (codes "ping db") lib.ping_pool lib.close_pool)
          (wrapped (codes "new pool") opened.0) opened.1 refl
          (wrapped-OpensOne open_in s (codes "new pool") opened.0 opened.1
            (counted.pool_opens (with_limits lib cfg) s))
          (λ p u h.
            answered-OpensOne open_in (codes "ping db") lib.close_pool p s (lib.ping_pool p u).0
              (lib.ping_pool p u).1 (counted.pool_closes p) (counted.pool_answers p u ∙ h))),
    of_parse open_in s (wrapped (codes "parse redis url") (lib.parse_url url)) (open_client lib)
        (λ opts.
          let made = lib.new_client opts s in
          answered-OpensOne open_in (codes "ping redis") lib.close_client made.0 s
            (lib.ping_client made.0 made.1).0 (lib.ping_client made.0 made.1).1
            (counted.client_closes made.0)
            (counted.client_answers made.0 made.1 ∙ counted.client_opens opts s)),
  )
