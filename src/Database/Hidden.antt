-- ===== src/Database/Hidden.antt =====
-- What the repository shows of a transaction that it has just created.
use moon_eye.Base.{
  ◌≡◌, ap, ap₂, ◌∙◌, sym, subst, false, List, [], ◌∷◌, ◌++◌, Option, some, codes, inl, inr, arith,
  Bool-cases,
}
use moon_eye.Outcome.{no_rows, wrap, Result, ok, err, ◌>>=◌, Result-cases}
use moon_eye.Values.{Time}
use moon_eye.Database.Pg.{Uuid, Driver, pg_to_uuid}
use moon_eye.Database.Args.{CreateTransactionArg}
use moon_eye.Database.Rows.{TransactionRow, Database}
use moon_eye.Database.Queries.{
  is_null, where_rows, first_row, has_id, is_live, created, create_transaction,
  get_transaction_by_id_only,
}
use moon_eye.Database.Models.{Transaction, CreateTransactionParams}
use moon_eye.Database.Repository.{
  create_arg, sqlc_transaction_to_db, created_result, create, get_by_id,
}
use moon_eye.Database.Atomicity.{execute_calm}
use moon_eye.Database.Versions.{Keeps}

where_rows-hidden :
    (id : Option Uuid) (rs : List TransactionRow) (row : TransactionRow)
    → has_id id rs ≡ false
    → is_null row.deleted_at ≡ false
    → where_rows (is_live id) (rs ++ (row ∷ [])) ≡ []
unfolding where_rows has_id
where_rows-hidden id [] row h k = ground arith
where_rows-hidden id (r ∷ rs) row h k = ground (arith, where_rows-hidden id rs row)

create_transaction-ok :
    (admit : TransactionRow → Result TransactionRow) (arg : CreateTransactionArg) (s s1 : Database)
    (row : TransactionRow)
    → s.outages ≡ []
    → create_transaction admit arg s ≡ (ok row, s1)
    → (admit (created (s.ids s.issued) arg) ≡ ok row)
      × (has_id row.id s.transactions ≡ false)
      × (s1.transactions ≡ s.transactions ++ (row ∷ []))
      × (s1.outages ≡ [])
unfolding create_transaction
create_transaction-ok admit arg s s1 row calm h =
    let done = sym (execute_calm _ s calm) ∙ h in
    elim (Result-cases (admit (created (s.ids s.issued) arg))) [
      | inl (r, e) ↦ elim (Bool-cases (has_id r.id s.transactions)) [
        | inl taken ↦ absurd (ground (arith, rw (e, taken) at done))
        | inr fresh ↦
            let last = rw (e, fresh) at done in
            let (kept, unused, added) =
              subst
                (λ (x : TransactionRow).
                  (admit (created (s.ids s.issued) arg) ≡ ok x)
                  × (has_id x.id s.transactions ≡ false)
                  × (s1.transactions ≡ s.transactions ++ (x ∷ [])))
                {x = r} {y = row} (ground (arith, last))
                (e, fresh, ap (λ p. p.1.transactions) (sym last)) in
            (kept, unused, added, ap (λ p. p.1.outages) (sym last) ∙ calm)
      ]
      | inr (x, e) ↦ absurd (ground (arith, rw e at done))
    ]

none_found :
    (id : Option Uuid) (s : Database)
    → s.outages ≡ []
    → where_rows (is_live id) s.transactions ≡ []
    → get_transaction_by_id_only id s ≡ (err no_rows, s)
unfolding get_transaction_by_id_only
none_found id s calm h = execute_calm _ s calm ∙ ap (λ rs. (first_row rs, s)) h

module _ (d : Driver) where
  create_arg-deleted_at :
      (p : CreateTransactionParams) (arg : CreateTransactionArg) (z : Option Time)
      → d.scan_time p.deleted_at ≡ ok z
      → create_arg d p ≡ ok arg
      → arg.deleted_at ≡ z
  unfolding create_arg
  create_arg-deleted_at p arg z h k = ground (arith, h, k)

  sqlc_transaction_to_db-id :
      (r : TransactionRow) (t : Transaction) → sqlc_transaction_to_db d r ≡ ok t → r.id ≡ some t.id
  unfolding sqlc_transaction_to_db pg_to_uuid
  sqlc_transaction_to_db-id r t h = ground (arith, h)

  module _ (admit : TransactionRow → Result TransactionRow) (keeps : Keeps admit) where
    -- The steps of a creation that succeeds.
    create-steps :
        (params : CreateTransactionParams) (z : Time) (t : Transaction) (s s1 : Database)
        → d.scan_time params.deleted_at ≡ ok (some z)
        → s.outages ≡ []
        → create d admit params s ≡ (ok t, s1)
        → (row : TransactionRow) × (row.id ≡ some t.id)
          × (is_null row.deleted_at ≡ false)
          × (has_id row.id s.transactions ≡ false)
          × (s1.transactions ≡ s.transactions ++ (row ∷ []))
          × (s1.outages ≡ [])
    unfolding create
    create-steps params z t s s1 scanned calm h = elim (Result-cases (create_arg d params)) [
      | inl (arg, e) ↦ elim (Result-cases (create_transaction admit arg s).0) [
        | inl (row, e2) ↦
            let stored = rw (e, ◌>>=◌, e2) at h in
            let (kept, fresh, added, up) =
              create_transaction-ok admit arg s s1 row calm
                (ap₂ (λ a b. (a, b)) e2 (ap (λ p. p.1) stored)) in
            (
              row,
              sqlc_transaction_to_db-id (created_result d row) t (ap (λ p. p.0) stored),
              keeps.deleted_at (created (s.ids s.issued) arg) row kept
                  ∙ ap is_null (create_arg-deleted_at params arg (some z) scanned e),
              fresh,
              added,
              up,
            )
        | inr (x, e2) ↦ absurd (ground (arith, rw (e, ◌>>=◌, e2) at h))
      ]
      | inr (x, e) ↦ absurd (ground (arith, rw (e, ◌>>=◌) at h))
    ]

    -- A transaction that was created with a deletion time that pgx makes a timestamp is not found by
    -- its id right after, with the database up and where Postgres keeps whether that time is NULL.
    pub create-get_by_id :
        (params : CreateTransactionParams) (z : Time) (t : Transaction) (s s1 : Database)
        → d.scan_time params.deleted_at ≡ ok (some z)
        → s.outages ≡ []
        → create d admit params s ≡ (ok t, s1)
        → get_by_id d t.id s1 ≡ (err (wrap (codes "get transaction by id") no_rows), s1)
    unfolding get_by_id
    create-get_by_id params z t s s1 scanned calm h =
        let (row, same_id, deleted, fresh, added, up) =
          create-steps params z t s s1 scanned calm h in
        let none_live =
          ap (where_rows (is_live (some t.id))) added
          ∙ where_rows-hidden (some t.id) s.transactions row
              (subst (λ id. has_id id s.transactions ≡ false) same_id fresh) deleted in
        let found = none_found (some t.id) s1 up none_live in
        rw (ap (λ p. p.0) found, ◌>>=◌)
          (ap (λ x. (err (wrap (codes "get transaction by id") no_rows), x)) (ap (λ p. p.1) found))
