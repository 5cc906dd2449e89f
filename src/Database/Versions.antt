-- ===== src/Database/Versions.antt =====
-- Optimistic locking and soft deletion: what an UPDATE leaves in the table.
use moon_eye.Base.{
  ◌≡◌, refl, ap, ◌∙◌, sym, Bool, true, false, List, [], ◌∷◌, Option, some, inl, inr, subst, arith,
  if◌then◌else◌,
}
use moon_eye.Base.Int.{ℤ, pos, ◌+ℤ◌, +ℤ_parts}
use moon_eye.Outcome.{no_rows, Result, ok, err, and_then, Result-cases}
use moon_eye.Values.{Time}
use moon_eye.Database.Pg.{Uuid}
use moon_eye.Database.Args.{UpdateTransactionArg}
use moon_eye.Database.Rows.{TransactionRow, Database, now, tick}
use moon_eye.Database.Atomicity.{execute_calm}
use moon_eye.Database.Queries.{
  is_null, where_rows, first_row, update_rows, write_update, next_version, soft_deleted, updated,
  is_live, is_version_of, get_transaction_by_id_only, soft_delete_transaction_by_id,
  update_transaction,
}

-- No row passes the test.
abbrev pub NonePass : (TransactionRow → Bool) → List TransactionRow → Type 0
NonePass test [] = Unit
NonePass test (r ∷ rs) = (test r ≡ false) × NonePass test rs

pub where_rows-NonePass :
    (test : TransactionRow → Bool) (rs : List TransactionRow)
    → NonePass test rs
    → where_rows test rs ≡ []
unfolding where_rows
where_rows-NonePass test [] h = refl
where_rows-NonePass test (r ∷ rs) h = rw h.0 (where_rows-NonePass test rs h.1)

pub update_rows-NonePass :
    (test : TransactionRow → Bool) (f : TransactionRow → Result TransactionRow)
    (rs : List TransactionRow)
    → NonePass test rs
    → update_rows test f rs ≡ ok (rs, [])
unfolding update_rows
update_rows-NonePass test f [] h = refl
update_rows-NonePass test f (r ∷ rs) h = rw (update_rows-NonePass test f rs h.1, h.0)

-- A row that the update writes passes no more.
abbrev pub Settles : (TransactionRow → Bool) → (TransactionRow → Result TransactionRow) → Type 0
Settles test f = (r r' : TransactionRow) → test r ≡ true → f r ≡ ok r' → test r' ≡ false

-- The table of an update that succeeds.
abbrev NonePassIn :
    (TransactionRow → Bool) → Result (List TransactionRow × List TransactionRow) → Type 0
NonePassIn test (ok (rows, changed)) = NonePass test rows
NonePassIn test (err e) = Unit

module _ (test : TransactionRow → Bool) (f : TransactionRow → Result TransactionRow) where
  NonePassIn-step :
      (r : TransactionRow) (rest : Result (List TransactionRow × List TransactionRow)) (b : Bool)
      (q : Result TransactionRow)
      → Settles test f
      → NonePassIn test rest
      → test r ≡ b
      → f r ≡ q
      → NonePassIn test (
          and_then rest
            (λ p. if b then and_then q (λ r'. ok (r' ∷ p.0, r' ∷ p.1)) else ok (r ∷ p.0, p.1)))
  NonePassIn-step r (err e) b q settles h k w = tt
  NonePassIn-step r (ok p) false q settles h k w = (k, h)
  NonePassIn-step r (ok p) true (err e) settles h k w = tt
  NonePassIn-step r (ok p) true (ok r') settles h k w = (settles r r' k w, h)

  NonePassIn-update_rows :
      (rs : List TransactionRow) → Settles test f → NonePassIn test (update_rows test f rs)
  unfolding update_rows
  NonePassIn-update_rows [] settles = tt
  NonePassIn-update_rows (r ∷ rs) settles =
      NonePassIn-step r (update_rows test f rs) (test r) (f r) settles
        (NonePassIn-update_rows rs settles) refl refl

  -- After an update of settling rows no row passes its test.
  pub NonePass-update_rows :
      (rs rs' changed : List TransactionRow)
      → Settles test f
      → update_rows test f rs ≡ ok (rs', changed)
      → NonePass test rs'
  NonePass-update_rows rs rs' changed settles h =
      subst (NonePassIn test) h (NonePassIn-update_rows rs settles)

-- `admit` keeps what the program relies on: the keys, the version, and that a time is not NULL.
pub record Keeps (admit : TransactionRow → Result TransactionRow) : Type 0 where
  pub id : (r r' : TransactionRow) → admit r ≡ ok r' → r'.id ≡ r.id
  pub user_id : (r r' : TransactionRow) → admit r ≡ ok r' → r'.user_id ≡ r.user_id
  pub version : (r r' : TransactionRow) → admit r ≡ ok r' → r'.version ≡ r.version
  pub deleted_at :
      (r r' : TransactionRow) → admit r ≡ ok r' → is_null r'.deleted_at ≡ is_null r.deleted_at

next_version-ok : (a v : ℤ) → next_version a ≡ ok v → v ≡ a +ℤ pos 1
unfolding next_version
next_version-ok a v h = ground arith

-- What a successful UPDATE leaves when its rows settle.
write_update-NonePass :
    (test : TransactionRow → Bool) (f : TransactionRow → Result TransactionRow) (s s1 : Database)
    (row : TransactionRow)
    → Settles test f
    → write_update (update_rows test f s.transactions) (tick s) ≡ (ok row, s1)
    → NonePass test s1.transactions × (s1.outages ≡ s.outages)
write_update-NonePass test f s s1 row settles h =
    elim (Result-cases (update_rows test f s.transactions)) [
      | inl ((rows, changed), e) ↦
          let same = rw e at h in
          subst (λ t. NonePass test t.transactions × (t.outages ≡ s.outages))
            {x = record (tick s) { transactions = rows }} {y = s1} (ap (λ p. p.1) same)
            (NonePass-update_rows test f s.transactions rows changed settles e, refl)
      | inr (x, e) ↦ absurd (ground (arith, rw e at h))
    ]

NonePass-same :
    (test test' : TransactionRow → Bool) (rs : List TransactionRow)
    → ((r : TransactionRow) → test' r ≡ test r)
    → NonePass test rs
    → NonePass test' rs
NonePass-same test test' [] same h = tt
NonePass-same test test' (r ∷ rs) same h = (same r ∙ h.0, NonePass-same test test' rs same h.1)

module _ (admit : TransactionRow → Result TransactionRow) (keeps : Keeps admit) where
  soft_deleted-Settles :
      (id : Option Uuid) (time : Time)
      → Settles (is_live id) (λ r. and_then (soft_deleted time r) admit)
  unfolding soft_deleted
  soft_deleted-Settles id time r r' live h = elim (Result-cases (next_version r.version)) [
    | inl (v, e) ↦ ground (
      arith,
      keeps.deleted_at
          (record r {
            deleted_at = some time;
            last_modified = some time;
            version = v;
            updated_at = some time;
          })
          r' (rw (e, soft_deleted) at h),
    )
    | inr (x, e) ↦ ground (arith, e)
  ]

  updated-Settles :
      (arg : UpdateTransactionArg) (time : Time)
      → Settles (is_version_of arg) (λ r. and_then (updated time arg r) admit)
  unfolding updated is_version_of next_version
  updated-Settles arg time r r' h k = elim (Result-cases (next_version r.version)) [
    | inl (v, e) ↦ ground (
      arith,
      +ℤ_parts r.version (pos 1),
      next_version-ok r.version v e,
      keeps.version
          (record r {
            account_id = arg.account_id;
            amount = arg.amount;
            currency = arg.currency;
            type = arg.type;
            category_id = arg.category_id;
            description = arg.description;
            occurred_at = arg.occurred_at;
            metadata = arg.metadata;
            last_modified = some time;
            source = arg.source;
            sheets_row_id = arg.sheets_row_id;
            version = v;
            updated_at = some time;
          })
          r' (rw (e, updated) at k),
    )
    | inr (x, e) ↦ absurd (ground (arith, rw (e, updated) at k))
  ]

  -- Optimistic locking: after an update that succeeded, a second update of the same row that names
  -- the same version finds no row and leaves the tables as they are, with the database up and where
  -- Postgres keeps the keys and versions that it is given.
  pub update_transaction-stale :
      (arg arg' : UpdateTransactionArg) (s s1 : Database) (row : TransactionRow)
      → s.outages ≡ []
      → update_transaction admit arg s ≡ (ok row, s1)
      → arg'.id ≡ arg.id
      → arg'.user_id ≡ arg.user_id
      → arg'.version ≡ arg.version
      → update_transaction admit arg' s1 ≡ (err no_rows, tick s1)
  unfolding update_transaction is_version_of
  update_transaction-stale arg arg' s s1 row calm h same_id same_user same_version =
      let (none_pass, up) =
        write_update-NonePass (is_version_of arg) (λ r. and_then (updated (now s) arg r) admit) s s1
          row (updated-Settles arg (now s)) (sym (execute_calm _ s calm) ∙ h) in
      execute_calm _ s1 (up ∙ calm)
      ∙ ap (λ p. write_update p (tick s1))
          (update_rows-NonePass (is_version_of arg') (λ r. and_then (updated (now s1) arg' r) admit)
            s1.transactions
            (NonePass-same (is_version_of arg) (is_version_of arg') s1.transactions
              (λ r. rw (same_id, same_user, same_version)) none_pass))

  -- A transaction that was deleted is gone: it is neither found nor deleted again, with the database
  -- up and where Postgres keeps whether the deletion time that it is given is NULL.
  pub soft_delete_transaction_by_id-gone :
      (id : Option Uuid) (s s1 : Database) (row : TransactionRow)
      → s.outages ≡ []
      → soft_delete_transaction_by_id admit id s ≡ (ok row, s1)
      → (get_transaction_by_id_only id s1 ≡ (err no_rows, s1))
        × (soft_delete_transaction_by_id admit id s1 ≡ (err no_rows, tick s1))
  unfolding soft_delete_transaction_by_id get_transaction_by_id_only
  soft_delete_transaction_by_id-gone id s s1 row calm h =
      let (none_pass, up) =
        write_update-NonePass (is_live id) (λ r. and_then (soft_deleted (now s) r) admit) s s1 row
          (soft_deleted-Settles id (now s)) (sym (execute_calm _ s calm) ∙ h) in
      (
        execute_calm _ s1 (up ∙ calm)
            ∙ ap (λ rs. (first_row rs, s1))
                (where_rows-NonePass (is_live id) s1.transactions none_pass),
        execute_calm _ s1 (up ∙ calm)
            ∙ ap (λ p. write_update p (tick s1))
                (update_rows-NonePass (is_live id) (λ r. and_then (soft_deleted (now s1) r) admit)
                  s1.transactions none_pass),
      )
