-- ===== src/Projection/Worker/Cursor.antt =====
-- When the cursor moves, whatever fails.
use moon_eye.Base.{
  ℕ, ◌≡◌, refl, ◌∙◌, ap, Bool, true, false, ◌⊎◌, List, [], ◌∷◌, Str, Option, none, some, insert,
  ltb, Bool-cases, inl, inr, ◌<◌, arith,
}
use moon_eye.Base.Int.{ℤ, pos}
use moon_eye.Outcome.{Error, Result, ok, err, Result-cases}
use moon_eye.Projection.Store.{ChangeEventRow, Store, statement}
use moon_eye.Projection.Source.{list_since, get_cursor, set_cursor}
use moon_eye.Projection.Summary
use moon_eye.Projection.Balance
use moon_eye.Projection.Runner.{Runner, batch_size, run_events, finish_batch, handle_batch, round}
use moon_eye.Projection.Worker.{worker_runner}
use moon_eye.Projection.Worker.Kept.{
  KeepsCursors, AllKeep, statement-KeepsCursors, run_events-cursors, summary-KeepsCursors,
  balance-KeepsCursors,
}
use moon_eye.Projection.Worker.Accepted.{
  processors, BothAccept, NoneAbove, HasId, run_events-IsAccepted, taken_if_positive,
}

module _ (summary : Summary.Codec) (balance : Balance.Codec) where
  module _ (name : Str) (size : ℤ) where
    abbrev worker : Runner Store
    worker = worker_runner summary balance name size

    -- A turn that advances: the batch that was read after the cursor, every event of which both
    -- projectors accepted, and the cursor at the largest id of the batch.
    pub record Advances (s : Store) : Type 0 where
      pub cursor : ℕ
      pub before : Store
      pub events : List ChangeEventRow
      pub largest : ℕ
      pub at_cursor : get_cursor name s ≡ (ok cursor, before)
      pub read : (list_since cursor (pos (batch_size size)) before).0 ≡ ok events
      pub accepted :
          BothAccept summary balance events (list_since cursor (pos (batch_size size)) before).1
      pub above : NoneAbove largest events
      pub taken : HasId largest events
      pub moved :
          (round (worker_runner summary balance name size) s).cursors
          ≡ insert name largest s.cursors

    set_cursor-cursors :
        (n : ℕ) (t : Store) (o : List (Option Error))
        → t.outages ≡ o
        → ((set_cursor name n t).1.cursors ≡ insert name n t.cursors)
          ⊎ ((set_cursor name n t).1.cursors ≡ t.cursors)
    unfolding set_cursor statement
    set_cursor-cursors n t [] e = inl (rw e refl)
    set_cursor-cursors n t (none ∷ rest) e = inl (rw e refl)
    set_cursor-cursors n t (some x ∷ rest) e = inr (rw e refl)

    finish_cursors :
        (p : (Bool × ℕ) × Store)
        → ((p.0.0 ≡ true)
            × (0 < p.0.1)
            × ((finish_batch worker p).cursors ≡ insert name p.0.1 p.1.cursors))
          ⊎ ((finish_batch worker p).cursors ≡ p.1.cursors)
    unfolding finish_batch
    finish_cursors ((false, n), t) = inr refl
    finish_cursors ((true, n), t) = elim (Bool-cases (ltb 0 n)) [
      | inl positive ↦ elim (set_cursor-cursors n t t.outages refl) [
        | inl moved ↦ inl (refl, ground arith, rw (positive, finish_batch) moved)
        | inr kept ↦ inr (rw (positive, finish_batch) kept)
      ]
      | inr none_seen ↦ inr (rw (none_seen, finish_batch) refl)
    ]

    AllKeep-processors : AllKeep (processors summary balance)
    AllKeep-processors =
        (summary-KeepsCursors summary balance, (balance-KeepsCursors summary balance, tt))

    get_cursor-KeepsCursors : KeepsCursors (get_cursor name)
    unfolding get_cursor
    get_cursor-KeepsCursors = statement-KeepsCursors _ (λ t. refl)

    list_since-KeepsCursors : (c : ℕ) (n : ℤ) → KeepsCursors (list_since c n)
    unfolding list_since
    list_since-KeepsCursors c n = statement-KeepsCursors _ (λ t. refl)

    round_read :
        (s s1 : Store) (c : ℕ) (evs : List ChangeEventRow)
        → get_cursor name s ≡ (ok c, s1)
        → (list_since c (pos (batch_size size)) s1).0 ≡ ok evs
        → round worker s ≡ handle_batch worker evs (list_since c (pos (batch_size size)) s1).1
    unfolding round
    round_read s s1 c evs h k =
        ap
          (λ (p : Result ℕ × Store). elim p.0 [
            | err e ↦ p.1
            | ok last_id ↦
                let (events, s2) = worker.list_since last_id (pos (batch_size size)) p.1 in
                elim events [ err e ↦ s2 | ok es ↦ handle_batch worker es s2 ]
          ])
          h
        ∙ ap
            (λ (r : Result (List ChangeEventRow)). elim r [
              | err e ↦ (list_since c (pos (batch_size size)) s1).1
              | ok es ↦ handle_batch worker es (list_since c (pos (batch_size size)) s1).1
            ])
            k

    batch_cursors :
        (s s1 : Store) (c : ℕ) (evs : List ChangeEventRow)
        → get_cursor name s ≡ (ok c, s1)
        → s1.cursors ≡ s.cursors
        → (list_since c (pos (batch_size size)) s1).0 ≡ ok evs
        → ((round worker s).cursors ≡ s.cursors) ⊎ Advances s
    unfolding handle_batch
    batch_cursors s s1 c [] h same k = inl (
        ap (λ t. t.cursors) (round_read s s1 c [] h k)
        ∙ list_since-KeepsCursors c (pos (batch_size size)) s1
        ∙ same)
    batch_cursors s s1 c (ev ∷ evs) h same k =
        let s2 = (list_since c (pos (batch_size size)) s1).1 in
        let p = run_events (processors summary balance) 0 (ev ∷ evs) s2 in
        let kept =
          run_events-cursors (processors summary balance) 0 (ev ∷ evs) s2 AllKeep-processors
          ∙ list_since-KeepsCursors c (pos (batch_size size)) s1
          ∙ same in
        let turn = ap (λ t. t.cursors) (round_read s s1 c (ev ∷ evs) h k) in
        elim (finish_cursors p) [
          | inr still ↦ inl (turn ∙ still ∙ kept)
          | inl (still_ok, positive, moved) ↦
              let run = run_events-IsAccepted summary balance 0 (ev ∷ evs) s2 still_ok in
              inr (record {
                cursor = c;
                before = s1;
                events = ev ∷ evs;
                largest = p.0.1;
                at_cursor = h;
                read = k;
                accepted = run.accepted;
                above = run.above;
                taken = taken_if_positive summary balance p.0.1 (ev ∷ evs) positive run.taken;
                moved = turn ∙ moved ∙ ap (insert name p.0.1) kept;
              })
        ]

    -- Whatever statements fail, a turn either leaves the cursor as it was, or both projectors accepted
    -- every event of the batch that was read after the cursor, one after the other, and the cursor is
    -- now the largest id of an event of that batch.
    pub round-cursors : (s : Store) → ((round worker s).cursors ≡ s.cursors) ⊎ Advances s
    unfolding round
    round-cursors s =
        let s1 = (get_cursor name s).1 in
        elim (Result-cases (get_cursor name s).0) [
          | inr (x, e) ↦ inl (rw (e, round) (get_cursor-KeepsCursors s))
          | inl (c, e) ↦ elim (Result-cases (list_since c (pos (batch_size size)) s1).0) [
            | inr (x, e2) ↦ inl (
                rw (e, round, e2)
                  (list_since-KeepsCursors c (pos (batch_size size)) s1
                    ∙ get_cursor-KeepsCursors s))
            | inl (evs, e2) ↦
                batch_cursors s s1 c evs (ap (λ r. (r, s1)) e) (get_cursor-KeepsCursors s) e2
          ]
        ]
