-- ===== src/Database/Picked.antt =====
-- internal/db/sync_repositories.go: what `ListTransactionEventsSince` lists when its limit cuts
-- nothing off.
use moon_eye.Base.{
  ℕ, zero, suc, ◌≤◌, ◌≡◌, refl, ap, ◌∙◌, List, [], ◌∷◌, ◌++◌, Str, take, length, inl, inr, arith,
  Bool-cases,
}
use moon_eye.Base.Int.{ℤ, leb_ℤ}
use moon_eye.Values.{Time, Float64}
use moon_eye.Outcome.{ok}
use moon_eye.Database.Pg.{Driver, Uuid}
use moon_eye.Database.Rows.{ChangeEventRecord, Database, execute}
use moon_eye.Database.Queries.{where_rows}
use moon_eye.Database.SyncReaders.{
  insert_by_version, order_by_version, is_transaction_since, scan_rows, scan_event,
  list_transaction_events_since,
}

-- The row is one of the rows.
pub data Among (r : ChangeEventRecord) : List ChangeEventRecord → Type 0 where
  here : (rs : List ChangeEventRecord) → Among r (r ∷ rs)
  later : (q : ChangeEventRecord) (rs : List ChangeEventRecord) → Among r rs → Among r (q ∷ rs)

append-Among : (r : ChangeEventRecord) (rs : List ChangeEventRecord) → Among r (rs ++ (r ∷ []))
append-Among r [] = here []
append-Among r (q ∷ rs) = later q (rs ++ (r ∷ [])) (append-Among r rs)

inserted-Among :
    (r : ChangeEventRecord) (qs : List ChangeEventRecord) → Among r (insert_by_version r qs)
unfolding insert_by_version
inserted-Among r [] = here []
inserted-Among r (q ∷ qs) = elim (Bool-cases (leb_ℤ r.version q.version)) [
  | inl e ↦ rw (e, insert_by_version) (here (q ∷ qs))
  | inr e ↦ rw (e, insert_by_version) (later q (insert_by_version r qs) (inserted-Among r qs))
]

insert_by_version-Among :
    (r x : ChangeEventRecord) (qs : List ChangeEventRecord)
    → Among r qs
    → Among r (insert_by_version x qs)
unfolding insert_by_version
insert_by_version-Among r x _ (here qs) = elim (Bool-cases (leb_ℤ x.version r.version)) [
  | inl e ↦ rw (e, insert_by_version) (later x (r ∷ qs) (here qs))
  | inr e ↦ rw (e, insert_by_version) (here (insert_by_version x qs))
]
insert_by_version-Among r x _ (later q qs h) = elim (Bool-cases (leb_ℤ x.version q.version)) [
  | inl e ↦ rw (e, insert_by_version) (later x (q ∷ qs) (later q qs h))
  | inr e ↦
      rw (e, insert_by_version)
        (later q (insert_by_version x qs) (insert_by_version-Among r x qs h))
]

order_by_version-Among :
    (r : ChangeEventRecord) (rs : List ChangeEventRecord)
    → Among r rs
    → Among r (order_by_version rs)
unfolding order_by_version
order_by_version-Among r _ (here rs) = inserted-Among r (order_by_version rs)
order_by_version-Among r _ (later q rs h) =
    insert_by_version-Among r q (order_by_version rs) (order_by_version-Among r rs h)

length-insert_by_version :
    (r : ChangeEventRecord) (qs : List ChangeEventRecord)
    → length (insert_by_version r qs) ≡ suc (length qs)
unfolding insert_by_version
length-insert_by_version r [] = refl
length-insert_by_version r (q ∷ qs) = elim (Bool-cases (leb_ℤ r.version q.version)) [
  | inl e ↦ rw (e, insert_by_version) refl
  | inr e ↦ rw (e, insert_by_version) (ap suc (length-insert_by_version r qs))
]

length-order_by_version : (rs : List ChangeEventRecord) → length (order_by_version rs) ≡ length rs
unfolding order_by_version
length-order_by_version [] = refl
length-order_by_version (r ∷ rs) =
    length-insert_by_version r (order_by_version rs) ∙ ap suc (length-order_by_version rs)

take-all : (n : ℕ) (rs : List ChangeEventRecord) → length rs ≤ n → take n rs ≡ rs
take-all zero [] h = refl
take-all zero (r ∷ rs) h = absurd (omega (arith, h))
take-all (suc n) [] h = refl
take-all (suc n) (r ∷ rs) h = ap (λ xs. r ∷ xs) (take-all n rs (omega (arith, h)))

-- With the database up and no more rows than the limit, all of them are listed, the oldest version
-- first.
pub list_transaction_events_since-all :
    (d : Driver) (epoch : Time → Float64) (user_id : Str) (uid : Uuid) (since : ℤ) (limit : ℕ)
    (u : Database)
    → d.parse_uuid user_id ≡ ok uid
    → u.outages ≡ []
    → length (where_rows (is_transaction_since uid since) u.change_events) ≤ limit
    → (list_transaction_events_since d epoch user_id since limit u).0
      ≡ scan_rows
          (scan_event d epoch)
          (order_by_version (where_rows (is_transaction_since uid since) u.change_events))
unfolding list_transaction_events_since execute
list_transaction_events_since-all d epoch user_id uid since limit u parsed calm few =
    let rows = order_by_version (where_rows (is_transaction_since uid since) u.change_events) in
    rw (parsed, calm)
      (ap (scan_rows (scan_event d epoch)) (
        take-all limit rows (
          omega (
            arith,
            few,
            length-order_by_version (where_rows (is_transaction_since uid since) u.change_events),
          ))))

-- A table to which one row of the query was added: that row is listed.
pub added-Among :
    (r : ChangeEventRecord) (rows : List ChangeEventRecord)
    → Among r (order_by_version (rows ++ (r ∷ [])))
added-Among r rows = order_by_version-Among r (rows ++ (r ∷ [])) (append-Among r rows)
