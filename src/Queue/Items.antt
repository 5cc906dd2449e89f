-- ===== src/Queue/Items.antt =====
-- internal/sync/worker.go: the worker of the table sync_queue. `StartWorker` takes a number of turns
-- of its ticker, after which its context is done. Its log is left out.
use moon_eye.Base.{ℕ, zero, suc, ◌-◌, ◌^◌, List, [], ◌∷◌, Str, Option, none, some, if◌then◌else◌}
use moon_eye.Base.Int.{ℤ, pos, negsuc, leb_ℤ, eq_ℤ, ◌+ℤ◌, ◌*ℤ◌}
use moon_eye.Base.Words.{wrap64}
use moon_eye.Outcome.{Error, panic, Result, ok, err, Action, pure, lift, ◌>>=◌, ◌>>◌}
use moon_eye.Values.{Time, second}

pub record SyncQueueItem : Type 0 where
  pub id : ℤ
  pub user_id : Str
  pub op_type : Str
  pub payload : Str
  pub attempts : ℤ
  pub available_at : Time
  pub max_attempts : ℤ
  pub created_at : Time

-- The table, the time at each reading, the transactions that are open, and which statements to come
-- fail for a reason outside the program.
pub record SyncStore : Type 0 where
  pub items : List SyncQueueItem
  pub clock : ℕ → Time
  pub ticks : ℕ
  pub open_transactions : ℕ
  pub outages : List (Option Error)

abbrev pub store_now : SyncStore → Time
store_now s = s.clock s.ticks

abbrev pub store_tick : SyncStore → SyncStore
store_tick s = record s { ticks = suc s.ticks }

unfoldable pub statement : {A : Type 0} → Action SyncStore A → Action SyncStore A
statement f s = elim s.outages [
  | [] ↦ f s
  | none ∷ rest ↦ f (record s { outages = rest })
  | some e ∷ rest ↦ (err e, record s { outages = rest })
]

-- The end of a transaction, committed or not.
abbrev pub closed : SyncStore → SyncStore
closed s = record s { open_transactions = s.open_transactions - 1 }

abbrev pub first_of : SyncQueueItem → Option SyncQueueItem → SyncQueueItem
first_of x none = x
first_of x (some y) = if leb_ℤ x.available_at y.available_at then x else y

-- `WHERE available_at <= now() ORDER BY available_at LIMIT 1`, with no other worker.
unfoldable pub earliest : Time → List SyncQueueItem → Option SyncQueueItem
earliest time [] = none
earliest time (x ∷ xs) =
    let rest = earliest time xs in
    if leb_ℤ x.available_at time then some (first_of x rest) else rest

unfoldable pub begin_tx : Action SyncStore (Unit {0})
begin_tx = statement (λ s. (ok tt, record s { open_transactions = suc s.open_transactions }))

abbrev pub after_commit :
    SyncQueueItem → Result (Unit {0}) × SyncStore → Result (Option SyncQueueItem) × SyncStore
after_commit item (ok done, s) = (ok (some item), closed s)
after_commit item (err e, s) = (err e, closed s)

unfoldable pub commit_item : SyncQueueItem → Action SyncStore (Option SyncQueueItem)
commit_item item s = after_commit item (statement (pure tt) s)

-- What follows the query. Without an item the error is cleared, so the transaction is neither
-- committed nor rolled back.
abbrev pub after_query :
    Result (Option SyncQueueItem) × SyncStore → Result (Option SyncQueueItem) × SyncStore
after_query (ok none, s) = (ok none, s)
after_query (ok (some item), s) = commit_item item s
after_query (err e, s) = (err e, closed s)

-- The item that is due, locked and released again.
unfoldable pub take_item : Action SyncStore (Option SyncQueueItem)
take_item s = after_query (statement (λ u. (ok (earliest (store_now u) u.items), store_tick u)) s)

-- `processQueueItem`, which is still to do: it logs, sleeps and gives no error.
unfoldable pub process_queue_item : SyncQueueItem → Action SyncStore (Unit {0})
process_queue_item item = pure tt

unfoldable pub set_attempts : ℤ → ℤ → Time → List SyncQueueItem → List SyncQueueItem
set_attempts id attempts time [] = []
set_attempts id attempts time (x ∷ xs) =
    let rest = set_attempts id attempts time xs in
    if eq_ℤ x.id id then record x { attempts = attempts; available_at = time } ∷ rest else x ∷ rest

-- `time.Duration(1<<attempts) * time.Second`. A negative shift panics.
abbrev pub shifted : ℤ → Result ℤ
shifted (pos n) = ok (wrap64 (wrap64 (pos (2 ^ n)) *ℤ second))
shifted (negsuc n) = err panic

-- An item with no attempts left is available at once.
unfoldable pub mark_attempt_failure : SyncQueueItem → Action SyncStore (Unit {0})
mark_attempt_failure item =
    let attempts = wrap64 (item.attempts +ℤ pos 1) in
    lift (shifted attempts) >>= λ backoff.
    if leb_ℤ item.max_attempts attempts
    then statement (λ s. (
      ok tt,
      record (store_tick s) { items = set_attempts item.id attempts (store_now s) s.items },
    ))
    else (λ s.
        statement
          (λ u. (
            ok tt,
            record u { items = set_attempts item.id attempts (store_now s +ℤ backoff) u.items },
          ))
          (store_tick s))

unfoldable pub delete_item : ℤ → List SyncQueueItem → List SyncQueueItem
delete_item id [] = []
delete_item id (x ∷ xs) = let rest = delete_item id xs in if eq_ℤ x.id id then rest else x ∷ rest

unfoldable pub delete_queue_item : ℤ → Action SyncStore (Unit {0})
delete_queue_item id = statement (λ s. (ok tt, record s { items = delete_item id s.items }))

-- An item that was processed is deleted, else its attempt is counted.
unfoldable pub finish_item : SyncQueueItem → Action SyncStore (Unit {0})
finish_item item s =
    let (r, s') = process_queue_item item s in
    elim r [ ok _ ↦ delete_queue_item item.id s' | err e ↦ mark_attempt_failure item s' ]

unfoldable pub process_taken : Option SyncQueueItem → Action SyncStore (Unit {0})
process_taken none = pure tt
process_taken (some item) = if eq_ℤ item.id (pos 0) then pure tt else finish_item item

unfoldable pub consume_once : Action SyncStore (Unit {0})
consume_once = (begin_tx >> take_item) >>= process_taken

-- `StartWorker`: an error of a turn is logged.
unfoldable pub turns : ℕ → SyncStore → SyncStore
turns zero s = s
turns (suc n) s = turns n (consume_once s).1
