-- ===== src/Projection/Runner.antt =====
-- internal/service/projection/runner.go: the loop that reads events after the cursor, runs every
-- processor on each, and moves the cursor when the whole batch has succeeded.
use moon_eye.Base.{ℕ, zero, suc, Bool, true, false, ◌&&◌, List, [], ◌∷◌, ltb, if◌then◌else◌}
use moon_eye.Base.Int.{ℤ, pos, negsuc}
use moon_eye.Outcome.{ok, err, Action, pure, ◌>>◌}
use moon_eye.Projection.Store.{ChangeEventRow}

-- The fields of `Runner` that decide what it does, over a state `S`; a source, a cursor or a
-- processor that is missing is not modelled, as `Start` then returns at once.
pub record Runner (S : Type 0) : Type 0 where
  pub list_since : ℕ → ℤ → Action S (List ChangeEventRow)
  pub get_cursor : Action S ℕ
  pub set_cursor : ℕ → Action S (Unit {0})
  pub processors : List (ChangeEventRow → Action S (Unit {0}))
  pub batch_size : ℤ

-- `if batchSize <= 0 { batchSize = DefaultBatchSize }`.
abbrev pub batch_size : ℤ → ℕ
batch_size (pos zero) = 50
batch_size (pos n) = n
batch_size (negsuc n) = 50

module _ {S : Type 0} where
  -- The inner loop: the first processor that fails ends it.
  unfoldable pub run_processors :
      List (ChangeEventRow → Action S (Unit {0})) → ChangeEventRow → Action S (Unit {0})
  run_processors [] ev = pure tt
  run_processors (p ∷ ps) ev = p ev >> run_processors ps ev

  -- The outer loop, from the `maxID` so far: whether it is still `ok`, and `maxID`.
  unfoldable pub run_events :
      List (ChangeEventRow → Action S (Unit {0})) → ℕ → List ChangeEventRow → S → (Bool × ℕ) × S
  run_events ps max_id [] s = ((true, max_id), s)
  run_events ps max_id (ev ∷ evs) s =
      let (r, s') = run_processors ps ev s in
      let rest = run_events ps (if ltb max_id ev.id then ev.id else max_id) evs s' in
      elim r [ ok _ ↦ rest | err _ ↦ ((false, max_id), s') ]

  -- What follows the loops. A failed `Set` is logged, and nothing more.
  unfoldable pub finish_batch : Runner S → (Bool × ℕ) × S → S
  finish_batch r ((done, max_id), s) = if done && ltb 0 max_id then (r.set_cursor max_id s).1 else s

  unfoldable pub handle_batch : Runner S → List ChangeEventRow → S → S
  handle_batch r [] s = s
  handle_batch r (ev ∷ evs) s = finish_batch r (run_events r.processors 0 (ev ∷ evs) s)

  -- One turn of the `for` loop in `Start`, without its waits, which change no state.
  unfoldable pub round : Runner S → S → S
  round r s =
      let (cursor, s1) = r.get_cursor s in
      elim cursor [
        | err e ↦ s1
        | ok last_id ↦
            let (events, s2) = r.list_since last_id (pos (batch_size r.batch_size)) s1 in
            elim events [ err e ↦ s2 | ok evs ↦ handle_batch r evs s2 ]
      ]

  -- `Start` when its context is cancelled in or after its n-th turn.
  unfoldable pub rounds : Runner S → ℕ → S → S
  rounds r zero s = s
  rounds r (suc n) s = rounds r n (round r s)
