-- ===== src/Database/Tx.antt =====
-- internal/db/tx.go: `RunInTx`. A function that goes on after a failed statement is not modelled:
-- Postgres refuses its further statements.
use moon_eye.Outcome.{ok, err, Action, pure}
use moon_eye.Database.Rows.{Database, execute}

-- What a rollback restores, and what it leaves: sequences, clock, random source
-- and outages.
abbrev pub rollback_to : Database → Database → Database
rollback_to old s = record s {
  transactions = old.transactions;
  change_events = old.change_events;
  users = old.users;
  refresh_tokens = old.refresh_tokens;
}

module _ {A : Type 0} where
  unfoldable pub commit : Database → A → Action Database A
  commit old a s =
      let (r, s') = execute (pure tt) s in
      elim r [ ok _ ↦ (ok a, s') | err e ↦ (err e, rollback_to old s') ]

  -- After `BeginTx`.
  unfoldable pub run_begun : Action Database A → Action Database A
  run_begun f s =
      let (r, s') = f s in elim r [ ok a ↦ commit s a s' | err e ↦ (err e, rollback_to s s') ]

  unfoldable pub run_in_tx : Action Database A → Action Database A
  run_in_tx f s =
      let (r, s') = execute (pure tt) s in elim r [ ok _ ↦ run_begun f s' | err e ↦ (err e, s') ]
