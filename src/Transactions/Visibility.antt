-- ===== src/Transactions/Visibility.antt =====
-- Which transactions the queries of the adapter show.
use moon_eye.Base.{
  ◌≡◌, refl, ap, sym, subst, Bool-cases, true, List, [], ◌∷◌, map, Str, Option, none, some, inl,
  inr, arith, ℕ, zero, suc, take, drop, if◌then◌else◌, length,
}
use moon_eye.Base.Int.{ℤ, pos, leb_ℤ, negsuc, ◌≤ℤ◌}
use moon_eye.Outcome.{Error, ok, ◌>>=◌, Result-cases}
use moon_eye.Database.Pg.{Driver, Uuid, pg_to_uuid}
use moon_eye.Database.Args.{ListTransactionsByFilterArg}
use moon_eye.Database.Rows.{TransactionRow, Database, execute}
use moon_eye.Database.Queries.{
  same_uuid, later_or_same, where_rows, page_rows, matches, insert_row, order_by_occurred_at,
  list_transactions_by_filter,
}
use moon_eye.Database.Models
use moon_eye.Database.Repository
use moon_eye.Transactions.Domain.{Transaction}
use moon_eye.Transactions.Adapter.{db_transaction_to_domain, user_filter}

-- Every row is of this user.
abbrev AllOf : Uuid → List TransactionRow → Type 0
AllOf uid [] = Unit
AllOf uid (r ∷ rs) = (r.user_id ≡ some uid) × AllOf uid rs

-- Every transaction has this user id.
abbrev pub AllOwned : Str → List Transaction → Type 0
AllOwned user_id [] = Unit
AllOwned user_id (t ∷ ts) = (t.user_id ≡ user_id) × AllOwned user_id ts

same_uuid-some : (o : Option Uuid) (uid : Uuid) → same_uuid o (some uid) ≡ true → o ≡ some uid
same_uuid-some none uid h = ground arith
same_uuid-some (some a) uid h = ap some (ground (arith, h))

matches-user :
    (arg : ListTransactionsByFilterArg) (r : TransactionRow)
    → matches arg r ≡ true
    → same_uuid r.user_id arg.user_id ≡ true
unfolding matches
matches-user arg r h = ground arith

AllOf-where_rows :
    (arg : ListTransactionsByFilterArg) (uid : Uuid) (rs : List TransactionRow)
    → arg.user_id ≡ some uid
    → AllOf uid (where_rows (matches arg) rs)
unfolding where_rows
AllOf-where_rows arg uid [] e = tt
AllOf-where_rows arg uid (r ∷ rs) e = elim (Bool-cases (matches arg r)) [
  | inl here ↦
      rw (here, where_rows)
        (
          same_uuid-some r.user_id uid
              (subst (λ o. same_uuid r.user_id o ≡ true) e (matches-user arg r here)),
          AllOf-where_rows arg uid rs e,
        )
  | inr not_here ↦ rw (not_here, where_rows) (AllOf-where_rows arg uid rs e)
]

AllOf-insert_row :
    (uid : Uuid) (r : TransactionRow) (rs : List TransactionRow)
    → r.user_id ≡ some uid
    → AllOf uid rs
    → AllOf uid (insert_row r rs)
unfolding insert_row
AllOf-insert_row uid r [] h k = (h, tt)
AllOf-insert_row uid r (q ∷ qs) h k =
    elim (Bool-cases (later_or_same r.occurred_at q.occurred_at)) [
      | inl here ↦ rw (here, insert_row) (h, k)
      | inr not_here ↦ rw (not_here, insert_row) (k.0, AllOf-insert_row uid r qs h k.1)
    ]

AllOf-order :
    (uid : Uuid) (rs : List TransactionRow) → AllOf uid rs → AllOf uid (order_by_occurred_at rs)
unfolding order_by_occurred_at
AllOf-order uid [] h = tt
AllOf-order uid (r ∷ rs) h =
    AllOf-insert_row uid r (order_by_occurred_at rs) h.0 (AllOf-order uid rs h.1)

AllOf-drop : (uid : Uuid) (n : ℕ) (rs : List TransactionRow) → AllOf uid rs → AllOf uid (drop n rs)
AllOf-drop uid zero rs h = h
AllOf-drop uid (suc n) [] h = tt
AllOf-drop uid (suc n) (r ∷ rs) h = AllOf-drop uid n rs h.1

AllOf-take : (uid : Uuid) (n : ℕ) (rs : List TransactionRow) → AllOf uid rs → AllOf uid (take n rs)
AllOf-take uid zero rs h = tt
AllOf-take uid (suc n) [] h = tt
AllOf-take uid (suc n) (r ∷ rs) h = (h.0, AllOf-take uid n rs h.1)

length-take : (n : ℕ) (rs : List TransactionRow) → pos (length (take n rs)) ≤ℤ pos n
length-take zero rs = omega arith
length-take (suc n) [] = omega arith
length-take (suc n) (r ∷ rs) = omega (arith, length-take n rs)

-- A page is of the same rows, and no longer than its limit.
page_rows-ok :
    (limit offset : ℤ) (uid : Uuid) (rs page : List TransactionRow)
    → AllOf uid rs
    → page_rows limit offset rs ≡ ok page
    → AllOf uid page × (pos (length page) ≤ℤ limit)
unfolding page_rows
page_rows-ok (pos n) (pos m) uid rs page h e =
    subst (λ p. AllOf uid p × (pos (length p) ≤ℤ pos n)) {x = take n (drop m rs)} {y = page}
      (ground (arith, e))
      (AllOf-take uid n (drop m rs) (AllOf-drop uid m rs h), length-take n (drop m rs))
page_rows-ok (pos n) (negsuc m) uid rs page h e = absurd (ground (arith, e))
page_rows-ok (negsuc n) offset uid rs page h e = absurd (ground (arith, e))

list_transactions_by_filter-ok :
    (arg : ListTransactionsByFilterArg) (s : Database) (o : List (Option Error))
    (rows : List TransactionRow)
    → s.outages ≡ o
    → (list_transactions_by_filter arg s).0 ≡ ok rows
    → page_rows arg.limit arg.offset
        (order_by_occurred_at (where_rows (matches arg) s.transactions))
      ≡ ok rows
unfolding list_transactions_by_filter execute
list_transactions_by_filter-ok arg s [] rows out h = rw out at h
list_transactions_by_filter-ok arg s (none ∷ rest) rows out h = rw out at h
list_transactions_by_filter-ok arg s (some x ∷ rest) rows out h =
    absurd (ground (arith, rw out at h))

module _ (d : Driver) where
  sqlc_transaction_to_db-user :
      (r : TransactionRow) (t : Models.Transaction) (uid : Uuid)
      → r.user_id ≡ some uid
      → Repository.sqlc_transaction_to_db d r ≡ ok t
      → t.user_id ≡ uid
  unfolding Repository.sqlc_transaction_to_db pg_to_uuid
  sqlc_transaction_to_db-user r t uid h k = ground (arith, h, k)

  rows_to_db-owned :
      (uid : Uuid) (rows : List TransactionRow) (ts : List Models.Transaction)
      → AllOf uid rows
      → Repository.rows_to_db d rows ≡ ok ts
      → AllOwned (d.print_uuid uid) (map (db_transaction_to_domain d) ts)
        × (length ts ≡ length rows)
  unfolding Repository.rows_to_db db_transaction_to_domain
  rows_to_db-owned uid [] ts h k =
      subst
        (λ ts. AllOwned (d.print_uuid uid) (map (db_transaction_to_domain d) ts) × (length ts ≡ 0))
        {x = []} {y = ts} (ground (arith, k)) (tt, refl)
  rows_to_db-owned uid (r ∷ rows) ts h k =
      elim (Result-cases (Repository.sqlc_transaction_to_db d r)) [
        | inl (t, e) ↦ elim (Result-cases (Repository.rows_to_db d rows)) [
          | inl (us, e2) ↦
              let (owned, long) = rows_to_db-owned uid rows us h.1 e2 in
              subst
                (λ ts.
                  AllOwned (d.print_uuid uid) (map (db_transaction_to_domain d) ts)
                  × (length ts ≡ suc (length rows)))
                {x = t ∷ us} {y = ts} (ground (arith, rw (e, e2) at k))
                ((ap d.print_uuid (sqlc_transaction_to_db-user r t uid h.0 e), owned), ap suc long)
          | inr (x, e2) ↦ absurd (ground (arith, rw (e, e2) at k))
        ]
        | inr (x, e) ↦ absurd (ground (arith, rw e at k))
      ]

  -- What a listing by the repository gives.
  pub list-owned :
      (uid : Uuid) (limit offset : ℤ) (s : Database) (ts : List Models.Transaction)
      → (Repository.list d (user_filter d uid limit offset) s).0 ≡ ok ts
      → AllOwned (d.print_uuid uid) (map (db_transaction_to_domain d) ts)
        × (pos (length ts) ≤ℤ Repository.int32 (if leb_ℤ limit (pos 0) then pos 50 else limit))
  unfolding Repository.list Repository.to_list_filter_params
  list-owned uid limit offset s ts h =
      let arg =
        Repository.to_list_filter_params d
          (Repository.with_defaults d (user_filter d uid limit offset)) in
      elim (Result-cases (list_transactions_by_filter arg s).0) [
        | inl (rows, e) ↦
            let (mine, short) =
              page_rows-ok arg.limit arg.offset uid
                (order_by_occurred_at (where_rows (matches arg) s.transactions)) rows
                (AllOf-order uid (where_rows (matches arg) s.transactions)
                  (AllOf-where_rows arg uid s.transactions refl))
                (list_transactions_by_filter-ok arg s s.outages rows refl e) in
            let (owned, long) = rows_to_db-owned uid rows ts mine (rw (e, ◌>>=◌) at h) in
            (owned, subst (λ n. pos n ≤ℤ arg.limit) (sym long) short)
        | inr (x, e) ↦ absurd (ground (arith, rw (e, ◌>>=◌) at h))
      ]
