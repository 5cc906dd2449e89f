-- ===== src/Projection/Worker/Caught.antt =====
-- The runner catches up: after enough turns both tables hold what all events add up to.
use moon_eye.Base.{
  ℕ, zero, suc, ◌≤◌, ◌≡◌, refl, ◌∙◌, sym, ap, subst, List, [], ◌∷◌, ◌++◌, Str, inl, inr, ◌⊎◌, arith,
  lookup, insert, take, drop, length, length-drop, take-append-drop, lookup-insert_self,
}
use moon_eye.Base.Int.{ℤ}
use moon_eye.Projection.Store.{ChangeEventRow, Store, SummaryKey, Totals, BalanceKey}
use moon_eye.Projection.Source.{since, order_by_id, cursor_or_zero}
use moon_eye.Projection.Summary
use moon_eye.Projection.Balance
use moon_eye.Projection.Runner.{round, rounds}
use moon_eye.Projection.Worker.{worker_runner}
use moon_eye.Projection.Worker.Clean.{
  largest_id, AllReadable, summary_effect, balance_effect, applied, batch, round-applied,
  round-idle,
}
use moon_eye.Projection.Worker.Growing.{
  Grows, order_by_id-Grows, Grows-since, largest_id-ge, largest_id-first, since-largest_id,
  since-since, page_positive,
}

nil_or_cons :
    (xs : List ChangeEventRow)
    → (xs ≡ []) ⊎ ((x : ChangeEventRow) × (ys : List ChangeEventRow) × (xs ≡ x ∷ ys))
nil_or_cons [] = inl refl
nil_or_cons (x ∷ xs) = inr (x, xs, refl)

module _ (summary : Summary.Codec) (balance : Balance.Codec) where
  -- What events add up to, each taken once and in order.
  abbrev pub summed : List ChangeEventRow → List (SummaryKey × Totals) → List (SummaryKey × Totals)
  summed [] rows = rows
  summed (ev ∷ evs) rows = summed evs (summary_effect summary balance ev rows)

  abbrev pub balanced : List ChangeEventRow → List (BalanceKey × ℤ) → List (BalanceKey × ℤ)
  balanced [] rows = rows
  balanced (ev ∷ evs) rows = balanced evs (balance_effect summary balance ev rows)

  summed-append :
      (xs ys : List ChangeEventRow) (rows : List (SummaryKey × Totals))
      → summed (xs ++ ys) rows ≡ summed ys (summed xs rows)
  summed-append [] ys rows = refl
  summed-append (x ∷ xs) ys rows = summed-append xs ys (summary_effect summary balance x rows)

  balanced-append :
      (xs ys : List ChangeEventRow) (rows : List (BalanceKey × ℤ))
      → balanced (xs ++ ys) rows ≡ balanced ys (balanced xs rows)
  balanced-append [] ys rows = refl
  balanced-append (x ∷ xs) ys rows = balanced-append xs ys (balance_effect summary balance x rows)

  -- The fields of the store after the events.
  applied_fields :
      (evs : List ChangeEventRow) (s : Store)
      → ((applied summary balance evs s).summary ≡ summed evs s.summary)
        × ((applied summary balance evs s).balance ≡ balanced evs s.balance)
        × ((applied summary balance evs s).change_events ≡ s.change_events)
        × ((applied summary balance evs s).cursors ≡ s.cursors)
        × ((applied summary balance evs s).outages ≡ s.outages)
  applied_fields [] s = (refl, refl, refl, refl, refl)
  applied_fields (ev ∷ evs) s = applied_fields evs (applied summary balance (ev ∷ []) s)

  AllReadable-take :
      (n : ℕ) (evs : List ChangeEventRow)
      → AllReadable summary balance evs
      → AllReadable summary balance (take n evs)
  AllReadable-take zero evs h = tt
  AllReadable-take (suc n) [] h = tt
  AllReadable-take (suc n) (ev ∷ evs) h = (h.0, AllReadable-take n evs h.1)

  AllReadable-drop :
      (n : ℕ) (evs : List ChangeEventRow)
      → AllReadable summary balance evs
      → AllReadable summary balance (drop n evs)
  AllReadable-drop zero evs h = h
  AllReadable-drop (suc n) [] h = tt
  AllReadable-drop (suc n) (ev ∷ evs) h = AllReadable-drop n evs h.1

  module _ (name : Str) (size : ℤ) where
    -- The cursor, and the events that the runner has not taken.
    abbrev pub cursor : Store → ℕ
    cursor s = cursor_or_zero (lookup name s.cursors)

    abbrev pub pending : Store → List ChangeEventRow
    pending s = since (cursor s) s.change_events

    -- What a turn makes of the store when events are pending.
    record IsTurn (s t : Store) : Type 0 where
      page : ℕ
      calm : t.outages ≡ []
      events : t.change_events ≡ s.change_events
      left : pending t ≡ drop (suc page) (pending s)
      summed_page : t.summary ≡ summed (take (suc page) (pending s)) s.summary
      balanced_page : t.balance ≡ balanced (take (suc page) (pending s)) s.balance

    IsTurn-round :
        (s : Store) (ev : ChangeEventRow) (evs : List ChangeEventRow)
        → s.outages ≡ []
        → Grows 0 s.change_events
        → pending s ≡ ev ∷ evs
        → AllReadable summary balance (ev ∷ evs)
        → IsTurn s (round (worker_runner summary balance name size) s)
    IsTurn-round s ev evs calm grows read h =
        let c = cursor s in
        let (q, paged) = page_positive size in
        let grown0 = Grows-since c 0 s.change_events grows in
        let grown = subst (Grows c) read grown0 in
        let taken = ev ∷ take q evs in
        let whole : batch summary balance name size s ≡ taken =
          ap (λ n. take n (order_by_id (pending s))) paged
          ∙ ap (take (suc q)) (order_by_id-Grows c (pending s) grown0 ∙ read) in
        let t = applied summary balance taken s in
        let fields = applied_fields taken s in
        let last = largest_id 0 taken in
        let first : last ≡ largest_id c taken =
          largest_id-first 0 ev (take q evs) (omega arith)
          ∙ sym (largest_id-first c ev (take q evs) grown.0) in
        let ge : ev.id ≤ last =
          subst (λ n. ev.id ≤ n) (sym (largest_id-first 0 ev (take q evs) (omega arith)))
            (largest_id-ge ev.id (take q evs)) in
        let done =
          round-applied summary balance name size s ev (take q evs) calm whole (omega arith)
            (h.0, AllReadable-take q evs h.1) in
        let moved : cursor (record t { cursors = insert name last t.cursors }) ≡ last =
          ap cursor_or_zero (lookup-insert_self name last t.cursors) in
        subst (IsTurn s) (sym done) (record {
          page = q;
          calm = fields.4 ∙ calm;
          events = fields.2;
          left =
              ap (λ n. since n t.change_events) moved
              ∙ ap (since last) fields.2
              ∙ sym (since-since c last s.change_events (omega arith))
              ∙ ap (λ n. since n (pending s)) first
              ∙ ap (since (largest_id c taken)) read
              ∙ since-largest_id (suc q) c (ev ∷ evs) grown
              ∙ ap (drop (suc q)) (sym read);
          summed_page = fields.0 ∙ ap (λ p. summed (take (suc q) p) s.summary) (sym read);
          balanced_page = fields.1 ∙ ap (λ p. balanced (take (suc q) p) s.balance) (sym read);
        })

    round_nothing :
        (s : Store)
        → s.outages ≡ []
        → pending s ≡ []
        → round (worker_runner summary balance name size) s ≡ s
    unfolding order_by_id
    round_nothing s calm none_left =
        let (q, paged) = page_positive size in
        round-idle summary balance name size s calm (
          ap (λ n. take n (order_by_id (pending s))) paged
          ∙ ap (λ evs. take (suc q) (order_by_id evs)) none_left)

    -- Everything that was pending at `s` has been taken once.
    abbrev pub CaughtUp : Store → Store → Type 0
    CaughtUp s t =
        (t.summary ≡ summed (pending s) s.summary)
        × (t.balance ≡ balanced (pending s) s.balance)
        × (pending t ≡ [])

    CaughtUp-turn : (s s' t : Store) → IsTurn s s' → CaughtUp s' t → CaughtUp s t
    CaughtUp-turn s s' t turn caught =
        let k = suc turn.page in
        let whole = take-append-drop k (pending s) in
        (
          caught.0
              ∙ ap (λ evs. summed evs s'.summary) turn.left
              ∙ ap (summed (drop k (pending s))) turn.summed_page
              ∙ sym (summed-append (take k (pending s)) (drop k (pending s)) s.summary)
              ∙ ap (λ evs. summed evs s.summary) whole,
          caught.1
              ∙ ap (λ evs. balanced evs s'.balance) turn.left
              ∙ ap (balanced (drop k (pending s))) turn.balanced_page
              ∙ sym (balanced-append (take k (pending s)) (drop k (pending s)) s.balance)
              ∙ ap (λ evs. balanced evs s.balance) whole,
          caught.2,
        )

    rounds_nothing :
        (n : ℕ) (s : Store)
        → s.outages ≡ []
        → pending s ≡ []
        → rounds (worker_runner summary balance name size) n s ≡ s
    unfolding rounds
    rounds_nothing zero s calm none_left = refl
    rounds_nothing (suc n) s calm none_left =
        ap (rounds (worker_runner summary balance name size) n) (round_nothing s calm none_left)
        ∙ rounds_nothing n s calm none_left

    CaughtUp-nothing :
        (n : ℕ) (s : Store)
        → s.outages ≡ []
        → pending s ≡ []
        → CaughtUp s (rounds (worker_runner summary balance name size) n s)
    CaughtUp-nothing n s calm none_left =
        subst (CaughtUp s) (sym (rounds_nothing n s calm none_left)) (
          ap (λ evs. summed evs s.summary) (sym none_left),
          ap (λ evs. balanced evs s.balance) (sym none_left),
          none_left,
        )

    -- The runner catches up: with the database up, as many turns as there are pending events bring
    -- both tables to what all of them add up to, each taken exactly once and in the order of the ids,
    -- and none is left, however they fall into batches. It is assumed that the ids grow along the
    -- table and that both projectors can read the pending events.
    pub rounds-CaughtUp :
        (n : ℕ) (s : Store)
        → s.outages ≡ []
        → Grows 0 s.change_events
        → AllReadable summary balance (pending s)
        → length (pending s) ≤ n
        → CaughtUp s (rounds (worker_runner summary balance name size) n s)
    unfolding rounds
    rounds-CaughtUp zero s calm grows h few = elim (nil_or_cons (pending s)) [
      | inl none_left ↦ CaughtUp-nothing zero s calm none_left
      | inr (ev, evs, read) ↦ absurd (omega (arith, ap length read))
    ]
    rounds-CaughtUp (suc n) s calm grows h few = elim (nil_or_cons (pending s)) [
      | inl none_left ↦ CaughtUp-nothing (suc n) s calm none_left
      | inr (ev, evs, read) ↦
          let s' = round (worker_runner summary balance name size) s in
          let turn =
            IsTurn-round s ev evs calm grows read (subst (AllReadable summary balance) read h) in
          let k = suc turn.page in
          CaughtUp-turn s s' (rounds (worker_runner summary balance name size) n s') turn (
            rounds-CaughtUp n s' turn.calm (subst (Grows 0) (sym turn.events) grows)
              (subst (AllReadable summary balance) (sym turn.left)
                (AllReadable-drop k (pending s) h))
              (omega (arith, ap length turn.left, length-drop k (pending s), ap length read)))
    ]
