-- ===== src/Transactions/Listing.antt =====
-- What a user's listing shows, and what its total counts.
use moon_eye.Base.{
  ◌≡◌, refl, ap, ◌∙◌, sym, subst, suc, List, [], ◌∷◌, map, Str, length, inl, inr, arith,
  if◌then◌else◌,
}
use moon_eye.Base.Int.{ℤ, pos, negsuc, leb_ℤ, ◌≤ℤ◌}
use moon_eye.Outcome.{Result, ok, ◌>>=◌, Result-cases}
use moon_eye.Pagination.{normalize, normalize-bounds}
use moon_eye.Database.Pg.{Driver, Uuid}
use moon_eye.Database.Rows.{TransactionRow, Database}
use moon_eye.Database.Repository
use moon_eye.Transactions.Domain.{Transaction}
use moon_eye.Transactions.Adapter.{
  db_transaction_to_domain, user_filter, list_by_user, count_by_user, transaction_adapter,
}
use moon_eye.Transactions.Visibility.{AllOwned, list-owned}
use moon_eye.Transactions.Service.{Runtime, TransactionService, list_user_transactions}

length-map : {A B : Type 0} (f : A → B) (xs : List A) → length (map f xs) ≡ length xs
length-map f [] = refl
length-map f (x ∷ xs) = ap suc (length-map f xs)

int32-page :
    (limit : ℤ)
    → pos 1 ≤ℤ limit
    → limit ≤ℤ pos 200
    → Repository.int32 (if leb_ℤ limit (pos 0) then pos 50 else limit) ≡ limit
unfolding Repository.int32
int32-page (pos n) h k = ground arith
int32-page (negsuc n) h k = absurd (omega (arith, h))

module _ (d : Driver) where
  -- A page of at most 200 rows that the adapter lists is all of the user, and no longer than its
  -- limit.
  list_by_user-page :
      (user_id : Str) (limit offset : ℤ) (s : Database) (ts : List Transaction)
      → pos 1 ≤ℤ limit
      → limit ≤ℤ pos 200
      → (list_by_user d user_id limit offset s).0 ≡ ok ts
      → (uid : Uuid) × (d.parse_uuid user_id ≡ ok uid)
        × AllOwned (d.print_uuid uid) ts
        × (pos (length ts) ≤ℤ limit)
  unfolding list_by_user
  list_by_user-page user_id limit offset s ts low high h =
      elim (Result-cases (d.parse_uuid user_id)) [
        | inl (uid, e) ↦
            elim (Result-cases (Repository.list d (user_filter d uid limit offset) s).0) [
              | inl (rows, e2) ↦
                  let (owned, short) = list-owned d uid limit offset s rows e2 in
                  let (mine, fits) =
                    subst (λ xs. AllOwned (d.print_uuid uid) xs × (pos (length xs) ≤ℤ limit))
                      {x = map (db_transaction_to_domain d) rows} {y = ts}
                      (ground (arith, rw (e, ◌>>=◌, e2) at h))
                      (
                        owned,
                        subst (λ n. pos n ≤ℤ limit)
                            (sym (length-map (db_transaction_to_domain d) rows))
                            (subst (λ l. pos (length rows) ≤ℤ l) (int32-page limit low high) short),
                      ) in
                  (uid, e, mine, fits)
              | inr (x, e2) ↦ absurd (ground (arith, rw (e, ◌>>=◌, e2) at h))
            ]
        | inr (x, e) ↦ absurd (ground (arith, rw (e, ◌>>=◌) at h))
      ]

  -- The count of a user's transactions is never above 1.
  pub count_by_user-at_most_one :
      (user_id : Str) (s : Database) (n : ℤ) → (count_by_user d user_id s).0 ≡ ok n → n ≤ℤ pos 1
  unfolding count_by_user
  count_by_user-at_most_one user_id s n h = elim (Result-cases (d.parse_uuid user_id)) [
    | inl (uid, e) ↦
        elim (Result-cases (Repository.list d (user_filter d uid (pos 1) (pos 0)) s).0) [
          | inl (rows, e2) ↦
              subst (λ m. m ≤ℤ pos 1) {x = pos (length rows)} {y = n}
                (ground (arith, rw (e, ◌>>=◌, e2) at h))
                (subst (λ l. pos (length rows) ≤ℤ l)
                  (int32-page (pos 1) (omega arith) (omega arith))
                  (list-owned d uid (pos 1) (pos 0) s rows e2).1)
          | inr (x, e2) ↦ absurd (ground (arith, rw (e, ◌>>=◌, e2) at h))
        ]
    | inr (x, e) ↦ absurd (ground (arith, rw (e, ◌>>=◌) at h))
  ]

  -- A listing through the adapter shows transactions of the user alone, and no more than the
  -- normalized limit, whatever limit and offset are asked for.
  pub list_user_transactions-page :
      (admit : TransactionRow → Result TransactionRow) (rt : Runtime Database)
      (svc : TransactionService Database) (user_id : Str) (limit offset : ℤ) (s : Database)
      (ts : List Transaction)
      → svc.repo ≡ transaction_adapter d admit
      → (list_user_transactions rt svc user_id limit offset s).0 ≡ ok ts
      → (uid : Uuid) × (d.parse_uuid user_id ≡ ok uid)
        × AllOwned (d.print_uuid uid) ts
        × (pos (length ts) ≤ℤ (normalize limit offset).0)
  unfolding list_user_transactions
  list_user_transactions-page admit rt svc user_id limit offset s ts adapted h =
      let (low, high, _, _) = normalize-bounds limit offset in
      let (l, o) = normalize limit offset in
      list_by_user-page user_id l o s ts low high
        (ap (λ r. (r.list_by_user user_id l o s).0) (sym adapted) ∙ h)
