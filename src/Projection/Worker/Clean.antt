-- ===== src/Projection/Worker/Clean.antt =====
-- A turn of the runner over events that every processor accepts, with the database up.
use moon_eye.Base.{
  ℕ, ◌≡◌, ◌<◌, refl, ◌∙◌, ap, true, false, List, [], ◌∷◌, Str, codes, str_eq, lookup, insert, take,
  ltb, lt→ltb, if◌then◌else◌,
}
use moon_eye.Base.Int.{ℤ, pos}
use moon_eye.Outcome.{Result, ok, err, Action, pure, ◌>>=◌, ◌>>◌}
use moon_eye.Projection.Store.{ChangeEventRow, Store, SummaryKey, Totals, BalanceKey, statement}
use moon_eye.Projection.Source.{
  since, order_by_id, page_size, list_since, get_cursor, set_cursor, cursor_or_zero,
}
use moon_eye.Projection.Summary
use moon_eye.Projection.Summary.Effects
use moon_eye.Projection.Balance
use moon_eye.Projection.Balance.Effects as BalanceEffects
use moon_eye.Projection.Runner.{
  Runner, batch_size, run_processors, run_events, finish_batch, handle_batch, round,
}
use moon_eye.Projection.Worker.{worker_runner}

statement_calm :
    {A : Type 0} (f : Store → A × Store) (s : Store)
    → s.outages ≡ []
    → statement f s ≡ (ok (f s).0, (f s).1)
unfolding statement
statement_calm f s calm = rw calm

-- The largest id, from `m` on.
abbrev pub largest_id : ℕ → List ChangeEventRow → ℕ
largest_id m [] = m
largest_id m (ev ∷ evs) = largest_id (if ltb m ev.id then ev.id else m) evs

-- After a call that succeeds comes the next.
bind_ok :
    {A B : Type 0} (m : Action Store A) (k : A → Action Store B) (s s' : Store) (a : A)
    → m s ≡ (ok a, s')
    → (m >>= k) s ≡ k a s'
bind_ok m k s s' a h =
    ap (λ (p : Result _ × Store). elim p.0 [ ok a ↦ k a p.1 | err e ↦ (err e, p.1) ]) h

module _ (summary : Summary.Codec) (balance : Balance.Codec) where
  -- Both projectors can read the event's payload, unless it is of another entity.
  pub data IsReadable (ev : ChangeEventRow) : Type 0 where
    readable :
        (t : Summary.TransactionPayload) (b : Balance.TransactionPayloadBalance)
        → str_eq ev.entity_type (codes "transaction") ≡ true
        → summary.unmarshal ev.payload ≡ ok t
        → balance.unmarshal ev.payload ≡ ok b
        → IsReadable ev
    foreign : str_eq ev.entity_type (codes "transaction") ≡ false → IsReadable ev

  abbrev pub AllReadable : List ChangeEventRow → Type 0
  AllReadable [] = Unit
  AllReadable (ev ∷ evs) = IsReadable ev × AllReadable evs

  abbrev on_ok {ℓ} : {A : Type 0} {B : Type ℓ} → (A → B → B) → Result A → B → B
  on_ok f (ok a) x = f a x
  on_ok f (err e) x = x

  -- What one event does to each table.
  abbrev pub summary_effect :
      ChangeEventRow → List (SummaryKey × Totals) → List (SummaryKey × Totals)
  summary_effect ev rows =
      if str_eq ev.entity_type (codes "transaction")
      then on_ok (Effects.effect summary ev.op_type) (summary.unmarshal ev.payload) rows
      else rows

  abbrev pub balance_effect : ChangeEventRow → List (BalanceKey × ℤ) → List (BalanceKey × ℤ)
  balance_effect ev rows =
      if str_eq ev.entity_type (codes "transaction")
      then on_ok (BalanceEffects.effect balance ev.op_type) (balance.unmarshal ev.payload) rows
      else rows

  -- The store after the events, each applied once and in order.
  abbrev pub applied : List ChangeEventRow → Store → Store
  applied [] s = s
  applied (ev ∷ evs) s =
      applied evs
        (record s { summary = summary_effect ev s.summary; balance = balance_effect ev s.balance })

  summary_readable :
      (ev : ChangeEventRow) (s : Store)
      → IsReadable ev
      → s.outages ≡ []
      → Summary.process summary ev s ≡ (ok tt, record s { summary = summary_effect ev s.summary })
  unfolding Summary.process
  summary_readable ev s (readable t b kind r1 r2) calm =
      Effects.process_calm summary ev t s kind r1 calm ∙ rw (kind, r1) refl
  summary_readable ev s (foreign kind) calm = rw (kind, Summary.process) refl

  balance_readable :
      (ev : ChangeEventRow) (s : Store)
      → IsReadable ev
      → s.outages ≡ []
      → Balance.process balance ev s ≡ (ok tt, record s { balance = balance_effect ev s.balance })
  unfolding Balance.process
  balance_readable ev s (readable t b kind r1 r2) calm =
      BalanceEffects.process_calm balance ev b s kind r2 calm ∙ rw (kind, r2) refl
  balance_readable ev s (foreign kind) calm = rw (kind, Balance.process) refl

  abbrev processors : List (ChangeEventRow → Action Store (Unit {0}))
  processors = Summary.process summary ∷ Balance.process balance ∷ []

  run_processors_readable :
      (ev : ChangeEventRow) (s : Store)
      → IsReadable ev
      → s.outages ≡ []
      → run_processors processors ev s ≡ (ok tt, applied (ev ∷ []) s)
  unfolding run_processors
  run_processors_readable ev s h calm =
      let s1 = record s { summary = summary_effect ev s.summary } in
      bind_ok (Summary.process summary ev) (λ _. Balance.process balance ev >> pure tt) s s1 tt
        (summary_readable ev s h calm)
      ∙ bind_ok (Balance.process balance ev) (λ _. pure tt) s1 (applied (ev ∷ []) s) tt
          (balance_readable ev s1 h calm)

  run_events_readable :
      (m : ℕ) (evs : List ChangeEventRow) (s : Store)
      → AllReadable evs
      → s.outages ≡ []
      → run_events processors m evs s ≡ ((true, largest_id m evs), applied evs s)
  unfolding run_events
  run_events_readable m [] s h calm = refl
  run_events_readable m (ev ∷ evs) s h calm =
      let m' = if ltb m ev.id then ev.id else m in
      ap
        (λ (p : Result (Unit {0}) × Store). elim p.0 [
          | ok _ ↦ run_events processors m' evs p.1
          | err _ ↦ ((false, m), p.1)
        ])
        (run_processors_readable ev s h.0 calm)
      ∙ run_events_readable m' evs (applied (ev ∷ []) s) h.1 calm

  applied-outages : (evs : List ChangeEventRow) (s : Store) → (applied evs s).outages ≡ s.outages
  applied-outages [] s = refl
  applied-outages (ev ∷ evs) s = applied-outages evs (applied (ev ∷ []) s)

  module _ (name : Str) (size : ℤ) where
    abbrev worker : Runner Store
    worker = worker_runner summary balance name size

    -- The batch that a turn reads: the first events after the cursor, in the order of their ids.
    abbrev pub batch : Store → List ChangeEventRow
    batch s =
        take (page_size (pos (batch_size size)))
          (order_by_id (since (cursor_or_zero (lookup name s.cursors)) s.change_events))

    finish_readable :
        (n : ℕ) (s : Store)
        → 0 < n
        → s.outages ≡ []
        → finish_batch worker ((true, n), s) ≡ record s { cursors = insert name n s.cursors }
    unfolding finish_batch set_cursor
    finish_readable n s h calm = rw (lt→ltb 0 n h) (
        ap (λ p. p.1)
          (statement_calm (λ s. (tt, record s { cursors = insert name n s.cursors })) s calm))

    -- With the database up, a turn handles the batch that it reads.
    pub round-handles :
        (s : Store)
        → s.outages ≡ []
        → round (worker_runner summary balance name size) s ≡ handle_batch worker (batch s) s
    unfolding round get_cursor list_since
    round-handles s calm =
        ap
          (λ (p : Result ℕ × Store). elim p.0 [
            | err e ↦ p.1
            | ok last_id ↦
                let (events, s2) = worker.list_since last_id (pos (batch_size size)) p.1 in
                elim events [ err e ↦ s2 | ok es ↦ handle_batch worker es s2 ]
          ])
          (statement_calm (λ s. (cursor_or_zero (lookup name s.cursors), s)) s calm)
        ∙ ap
            (λ (p : Result (List ChangeEventRow) × Store). elim p.0 [
              | err e ↦ p.1
              | ok es ↦ handle_batch worker es p.1
            ])
            (statement_calm
              (λ s'. (
                take (page_size (pos (batch_size size)))
                    (order_by_id (since (cursor_or_zero (lookup name s.cursors)) s'.change_events)),
                s',
              ))
              s calm)

    -- A turn that reads nothing does nothing.
    pub round-idle :
        (s : Store)
        → s.outages ≡ []
        → batch s ≡ []
        → round (worker_runner summary balance name size) s ≡ s
    unfolding handle_batch
    round-idle s calm read = round-handles s calm ∙ ap (λ es. handle_batch worker es s) read

    -- With the database up, a turn whose batch is not empty, has a positive id and holds only events
    -- that both projectors can read applies every event of the batch once, in the order of the ids,
    -- to both tables, and then moves the cursor to the largest id of the batch.
    pub round-applied :
        (s : Store) (ev : ChangeEventRow) (evs : List ChangeEventRow)
        → s.outages ≡ []
        → batch s ≡ ev ∷ evs
        → 0 < largest_id 0 (ev ∷ evs)
        → AllReadable (ev ∷ evs)
        → let t = applied (ev ∷ evs) s in
          round (worker_runner summary balance name size) s
          ≡ record t { cursors = insert name (largest_id 0 (ev ∷ evs)) t.cursors }
    unfolding handle_batch
    round-applied s ev evs calm read positive h =
        round-handles s calm
        ∙ ap (λ es. handle_batch worker es s) read
        ∙ ap (finish_batch worker) (run_events_readable 0 (ev ∷ evs) s h calm)
        ∙ finish_readable (largest_id 0 (ev ∷ evs)) (applied (ev ∷ evs) s) positive
            (applied-outages (ev ∷ evs) s ∙ calm)
