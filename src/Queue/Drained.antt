-- ===== src/Queue/Drained.antt =====
-- The worker of the table sync_queue comes to its end of work.
use moon_eye.Base.{
  ℕ, zero, suc, ◌+◌, ◌-◌, ◌<◌, ◌≤◌, ◌≡◌, refl, ap, sym, subst, ◌∙◌, true, false, List, [], ◌∷◌,
  none, some, inl, inr, arith, length, Bool-cases,
}
use moon_eye.Base.Int.{ℤ, pos, leb_ℤ, eq_ℤ}
use moon_eye.Outcome.{ok, Action, pure, ◌>>◌, bind_ok}
use moon_eye.Values.{Time}
use moon_eye.Queue.Items.{
  SyncQueueItem, SyncStore, statement, store_now, store_tick, first_of, earliest, begin_tx,
  after_commit, commit_item, after_query, take_item, process_queue_item, delete_item,
  delete_queue_item, finish_item, process_taken, consume_once, turns, closed,
}

statement_calm :
    {A : Type 0} (f : Action SyncStore A) (s : SyncStore) → s.outages ≡ [] → statement f s ≡ f s
unfolding statement
statement_calm f s calm = rw calm

-- Every item is due whenever the time is read, and has a serial number above 0.
abbrev pub AllReady : (ℕ → Time) → List SyncQueueItem → Type 0
AllReady clock [] = Unit
AllReady clock (x ∷ xs) =
    ((k : ℕ) → leb_ℤ x.available_at (clock k) ≡ true)
    × (eq_ℤ x.id (pos 0) ≡ false)
    × AllReady clock xs

earliest-due :
    (time : Time) (x : SyncQueueItem) (xs : List SyncQueueItem)
    → leb_ℤ x.available_at time ≡ true
    → earliest time (x ∷ xs) ≡ some (first_of x (earliest time xs))
unfolding earliest
earliest-due time x xs h = rw h refl

earliest-ready :
    (clock : ℕ → Time) (k : ℕ) (x : SyncQueueItem) (xs : List SyncQueueItem)
    → AllReady clock (x ∷ xs)
    → (y : SyncQueueItem) × (earliest (clock k) (x ∷ xs) ≡ some y) × (eq_ℤ y.id (pos 0) ≡ false)
unfolding earliest
earliest-ready clock k x [] h = (x, rw (h.0 k) refl, h.1)
earliest-ready clock k x (z ∷ xs) h =
    let (y, found, named) = earliest-ready clock k z xs h.2 in
    elim (Bool-cases (leb_ℤ x.available_at y.available_at)) [
      | inl before ↦ (
        x,
        earliest-due (clock k) x (z ∷ xs) (h.0 k)
            ∙ ap (λ o. some (first_of x o)) found
            ∙ (rw before refl),
        h.1,
      )
      | inr behind ↦ (
        y,
        earliest-due (clock k) x (z ∷ xs) (h.0 k)
            ∙ ap (λ o. some (first_of x o)) found
            ∙ (rw behind refl),
        named,
      )
    ]

length-delete_item_le : (id : ℤ) (xs : List SyncQueueItem) → length (delete_item id xs) ≤ length xs
unfolding delete_item
length-delete_item_le id [] = ground arith
length-delete_item_le id (x ∷ xs) = ground (arith, length-delete_item_le id xs)

length-delete_item :
    (time : Time) (xs : List SyncQueueItem) (y : SyncQueueItem)
    → earliest time xs ≡ some y
    → length (delete_item y.id xs) < length xs
unfolding delete_item earliest
length-delete_item time [] y h = ground (arith, h)
length-delete_item time (x ∷ xs) y h =
    ground (arith, h, length-delete_item_le y.id xs, length-delete_item time xs y)

AllReady-delete_item :
    (clock : ℕ → Time) (id : ℤ) (xs : List SyncQueueItem)
    → AllReady clock xs
    → AllReady clock (delete_item id xs)
unfolding delete_item
AllReady-delete_item clock id [] h = h
AllReady-delete_item clock id (x ∷ xs) h = elim (Bool-cases (eq_ℤ x.id id)) [
  | inl e ↦ rw e (AllReady-delete_item clock id xs h.2)
  | inr e ↦ rw e (h.0, h.1, AllReady-delete_item clock id xs h.2)
]

process_taken-named :
    (y : SyncQueueItem) (s : SyncStore)
    → s.outages ≡ []
    → eq_ℤ y.id (pos 0) ≡ false
    → process_taken (some y) s ≡ (ok tt, record s { items = delete_item y.id s.items })
unfolding process_taken finish_item process_queue_item delete_queue_item
process_taken-named y s calm named =
    rw named (statement_calm (λ u. (ok tt, record u { items = delete_item y.id u.items })) s calm)

-- A turn with the database up that finds an item deletes it.
consume_once-found :
    (s : SyncStore) (y : SyncQueueItem)
    → s.outages ≡ []
    → earliest (store_now s) s.items ≡ some y
    → eq_ℤ y.id (pos 0) ≡ false
    → ((consume_once s).1.items ≡ delete_item y.id s.items)
      × ((consume_once s).1.outages ≡ [])
      × ((consume_once s).1.clock ≡ s.clock)
      × ((consume_once s).1.open_transactions ≡ s.open_transactions)
unfolding consume_once begin_tx take_item commit_item process_taken finish_item process_queue_item
    delete_queue_item
consume_once-found s y calm found named =
    let s1 = record s { open_transactions = suc s.open_transactions } in
    let began =
      statement_calm (λ u. (ok tt, record u { open_transactions = suc u.open_transactions })) s
        calm in
    let queried =
      statement_calm (λ u. (ok (earliest (store_now u) u.items), store_tick u)) s1 calm
      ∙ ap (λ o. (ok o, store_tick s1)) found in
    let s2 = store_tick s1 in
    let taken = ap after_query queried ∙ ap (after_commit y) (statement_calm (pure tt) s2 calm) in
    let last = process_taken-named y (closed s2) calm named in
    let whole =
      bind_ok (begin_tx >> take_item) process_taken s (closed s2) (some y)
        (bind_ok begin_tx (λ u. take_item) s s1 tt began ∙ taken)
      ∙ last in
    (
      ap (λ p. p.1.items) whole,
      ap (λ p. p.1.outages) whole ∙ calm,
      ap (λ p. p.1.clock) whole,
      ap (λ p. p.1.open_transactions) whole ∙ omega arith,
    )

-- A turn with the database up that finds no item leaves its transaction open.
consume_once-idle :
    (s : SyncStore)
    → s.outages ≡ []
    → s.items ≡ []
    → ((consume_once s).1.items ≡ [])
      × ((consume_once s).1.outages ≡ [])
      × ((consume_once s).1.clock ≡ s.clock)
      × ((consume_once s).1.open_transactions ≡ suc s.open_transactions)
unfolding consume_once begin_tx take_item process_taken earliest
consume_once-idle s calm none_left =
    let s1 = record s { open_transactions = suc s.open_transactions } in
    let began =
      statement_calm (λ u. (ok tt, record u { open_transactions = suc u.open_transactions })) s
        calm in
    let queried =
      statement_calm (λ u. (ok (earliest (store_now u) u.items), store_tick u)) s1 calm
      ∙ ap (λ xs. (ok (earliest (store_now s1) xs), store_tick s1)) none_left in
    let whole =
      bind_ok (begin_tx >> take_item) process_taken s (store_tick s1) none
        (bind_ok begin_tx (λ u. take_item) s s1 tt began ∙ ap after_query queried) in
    (
      ap (λ p. p.1.items) whole ∙ none_left,
      ap (λ p. p.1.outages) whole ∙ calm,
      ap (λ p. p.1.clock) whole,
      ap (λ p. p.1.open_transactions) whole,
    )

-- What n turns come to, from a number of items and of open transactions.
abbrev Drains : ℕ → ℕ → ℕ → SyncStore → Type 0
Drains n size opened t = (t.items ≡ []) × (opened + (n - size) ≤ t.open_transactions)

turns-from :
    (n : ℕ) (s : SyncStore) (xs : List SyncQueueItem)
    → s.items ≡ xs
    → s.outages ≡ []
    → AllReady s.clock xs
    → length xs ≤ n
    → Drains n (length xs) s.open_transactions (turns n s)
unfolding turns
turns-from zero s [] is calm ready enough = (is, omega arith)
turns-from zero s (x ∷ xs) is calm ready enough = absurd (omega (arith, enough))
turns-from (suc n) s [] is calm ready enough =
    let (left, still, same, opened) = consume_once-idle s calm is in
    let (gone, leaked) = turns-from n (consume_once s).1 [] left still tt (omega arith) in
    (gone, omega (arith, leaked, opened))
turns-from (suc n) s (x ∷ xs) is calm ready enough =
    let (y, found, named) = earliest-ready s.clock s.ticks x xs ready in
    let (left, still, same, opened) =
      consume_once-found s y calm (ap (earliest (store_now s)) is ∙ found) named in
    let rest = delete_item y.id (x ∷ xs) in
    let shorter = length-delete_item (store_now s) (x ∷ xs) y found in
    let (gone, leaked) =
      turns-from n (consume_once s).1 rest (left ∙ ap (delete_item y.id) is) still
        (subst (λ c. AllReady c rest) (sym same) (AllReady-delete_item s.clock y.id (x ∷ xs) ready))
        (omega (arith, shorter, enough)) in
    (gone, omega (arith, leaked, opened, shorter, enough))

-- With the database up, as many turns of the worker as the table has items empty the table, if every
-- item is due at all times and has an id other than 0; and each turn beyond that leaves one more
-- transaction open.
pub turns_drain :
    (n : ℕ) (s : SyncStore)
    → s.outages ≡ []
    → AllReady s.clock s.items
    → length s.items ≤ n
    → ((turns n s).items ≡ [])
      × (s.open_transactions + (n - length s.items) ≤ (turns n s).open_transactions)
turns_drain n s calm ready enough = turns-from n s s.items refl calm ready enough
