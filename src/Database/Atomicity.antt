-- ===== src/Database/Atomicity.antt =====
-- What `RunInTx` promises.
use moon_eye.Base.{◌≡◌, refl, List, [], ◌∷◌, Option, none, some, inl, inr, subst}
use moon_eye.Outcome.{Error, Result, ok, err, Action, pure, Result-cases}
use moon_eye.Database.Rows.{Database, execute}
use moon_eye.Database.Tx.{rollback_to, commit, run_begun, run_in_tx}

-- With the database up a statement does its work.
pub execute_calm :
    {A : Type 0} (f : Action Database A) (s : Database) → s.outages ≡ [] → execute f s ≡ f s
unfolding execute
execute_calm f s calm = rw calm

-- The tables that both hold.
abbrev pub SameTables : Database → Database → Type 0
SameTables s t =
    (s.transactions ≡ t.transactions)
    × (s.change_events ≡ t.change_events)
    × (s.users ≡ t.users)
    × (s.refresh_tokens ≡ t.refresh_tokens)

execute-pure-tables :
    (s : Database) (o : List (Option Error)) → s.outages ≡ o → SameTables (execute (pure tt) s).1 s
unfolding execute
execute-pure-tables s [] h = rw h (refl, refl, refl, refl)
execute-pure-tables s (none ∷ rest) h = rw h (refl, refl, refl, refl)
execute-pure-tables s (some e ∷ rest) h = rw h (refl, refl, refl, refl)

pub execute-pure-SameTables : (s : Database) → SameTables (execute (pure tt) s).1 s
execute-pure-SameTables s = execute-pure-tables s s.outages refl

-- The state in which the function of a transaction runs.
abbrev pub begun : Database → Database
begun s = (execute (pure tt) s).1

module _ {A : Type 0} where
  -- The end of a transaction: everything as the function left it, or everything as before.
  abbrev pub Ends : Database → Result A × Database → Result A × Database → Type 0
  Ends s inner (ok a, t) = (inner.0 ≡ ok a) × SameTables t inner.1
  Ends s inner (err e, t) = SameTables t s

  commit-Ends :
      (f : Action Database A) (s : Database) (a : A)
      → (f s).0 ≡ ok a
      → Ends s (f s) (commit s a (f s).1)
  unfolding commit
  commit-Ends f s a h = elim (Result-cases (execute (pure tt) (f s).1).0) [
    | inl (u, e) ↦
        subst (Ends s (f s)) {x = (ok a, begun (f s).1)} {y = commit s a (f s).1} (rw (e, commit))
          (h, execute-pure-SameTables (f s).1)
    | inr (x, e) ↦
        subst (Ends s (f s)) {x = (err x, rollback_to s (begun (f s).1))} {y = commit s a (f s).1}
          (rw (e, commit)) (refl, refl, refl, refl)
  ]

  run_begun-Ends : (f : Action Database A) (s : Database) → Ends s (f s) (run_begun f s)
  unfolding run_begun
  run_begun-Ends f s = elim (Result-cases (f s).0) [
    | inl (a, e) ↦
        subst (Ends s (f s)) {x = commit s a (f s).1} {y = run_begun f s} (rw (e, run_begun))
          (commit-Ends f s a e)
    | inr (x, e) ↦
        subst (Ends s (f s)) {x = (err x, rollback_to s (f s).1)} {y = run_begun f s}
          (rw (e, run_begun)) (refl, refl, refl, refl)
  ]

  run_in_tx-begun :
      (f : Action Database A) (s : Database) → Ends (begun s) (f (begun s)) (run_in_tx f s)
  unfolding run_in_tx
  run_in_tx-begun f s = elim (Result-cases (execute (pure tt) s).0) [
    | inl (u, e) ↦
        subst (Ends (begun s) (f (begun s))) {x = run_begun f (begun s)} {y = run_in_tx f s}
          (rw (e, run_in_tx)) (run_begun-Ends f (begun s))
    | inr (x, e) ↦
        subst (Ends (begun s) (f (begun s))) {x = (err x, begun s)} {y = run_in_tx f s}
          (rw (e, run_in_tx)) (refl, refl, refl, refl)
  ]

  -- A transaction is all or nothing. If it gives a result, the function gave that result and the
  -- tables are as the function left them; if it gives an error, be it of the function, of its begin
  -- or of its commit, the tables are as before.
  pub run_in_tx-Ends :
      (f : Action Database A) (s : Database)
      → SameTables (begun s) s × Ends (begun s) (f (begun s)) (run_in_tx f s)
  run_in_tx-Ends f s = (execute-pure-SameTables s, run_in_tx-begun f s)
