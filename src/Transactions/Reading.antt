-- ===== src/Transactions/Reading.antt =====
-- The calls of internal/db that write to no table.
use moon_eye.Base.{◌≡◌, refl, ◌∙◌, List, [], ◌∷◌, Option, none, some, inl, inr, Str, codes}
use moon_eye.Outcome.{Error, Result, Action, lift, pure, wrapping, ◌>>=◌, Result-cases}
use moon_eye.Database.Pg.{Driver}
use moon_eye.Database.Rows.{Database, execute}
use moon_eye.Database.Queries.{first_row, where_rows, is_live, get_transaction_by_id_only}
use moon_eye.Database.Repository
use moon_eye.Transactions.Adapter.{get_by_id, to_domain, db_transaction_to_domain}

-- Every table is as it was.
abbrev pub Untouched : Database → Database → Type 0
Untouched t s =
    (t.transactions ≡ s.transactions)
    × (t.change_events ≡ s.change_events)
    × (t.users ≡ s.users)
    × (t.refresh_tokens ≡ s.refresh_tokens)
    × (t.sheets_connections ≡ s.sheets_connections)
    × (t.sheet_mappings ≡ s.sheet_mappings)

pub Untouched-refl : (s : Database) → Untouched s s
Untouched-refl s = (refl, refl, refl, refl, refl, refl)

Untouched-trans : (s t u : Database) → Untouched t s → Untouched u t → Untouched u s
Untouched-trans s t u h k = (k.0 ∙ h.0, k.1 ∙ h.1, k.2 ∙ h.2, k.3 ∙ h.3, k.4 ∙ h.4, k.5 ∙ h.5)

-- A call that reads.
abbrev pub Reads : {A : Type 0} → Action Database A → Type 0
Reads m = (s : Database) → Untouched (m s).1 s

pub bind-Reads :
    {A B : Type 0} (m : Action Database A) (f : A → Action Database B)
    → Reads m
    → ((a : A) → Reads (f a))
    → Reads (m >>= f)
bind-Reads m f hm hf s = elim (Result-cases (m s).0) [
  | inl (a, e) ↦ rw (e, ◌>>=◌) (Untouched-trans s (m s).1 (f a (m s).1).1 (hm s) (hf a (m s).1))
  | inr (x, e) ↦ rw (e, ◌>>=◌) (hm s)
]

query-outages :
    {A : Type 0} (f : Database → Result A) (s : Database) (o : List (Option Error))
    → s.outages ≡ o
    → Untouched (execute (λ u. (f u, u)) s).1 s
unfolding execute
query-outages f s [] e = rw e (Untouched-refl s)
query-outages f s (none ∷ rest) e = rw e (refl, refl, refl, refl, refl, refl)
query-outages f s (some x ∷ rest) e = rw e (refl, refl, refl, refl, refl, refl)

pub query-Reads : {A : Type 0} (f : Database → Result A) → Reads (execute (λ u. (f u, u)))
query-Reads f s = query-outages f s s.outages refl

-- The shape of a reader: an id is parsed, a query runs, and its rows are converted.
pub reader-Reads :
    {A B C : Type 0} (r : Result A) (f : A → Database → Result B) (g : B → Result C)
    → Reads (lift r >>= λ a. execute (λ u. (f a u, u)) >>= λ b. lift (g b))
reader-Reads r f g =
    bind-Reads (lift r) (λ a. execute (λ u. (f a u, u)) >>= λ b. lift (g b)) Untouched-refl
      (λ a.
        bind-Reads (execute (λ u. (f a u, u))) (λ b. lift (g b)) (query-Reads (f a))
          (λ b. Untouched-refl))

-- Getting a transaction.
pub get_by_id-Reads : (d : Driver) (user_id id : Str) → Reads (get_by_id d user_id id)
unfolding get_by_id Repository.get_by_id get_transaction_by_id_only
get_by_id-Reads d user_id id =
    bind-Reads (lift (d.parse_uuid id)) (λ uid. to_domain d (Repository.get_by_id d uid))
      Untouched-refl
      (λ uid.
        let fetched =
          wrapping (codes "get transaction by id") (get_transaction_by_id_only (some uid)) in
        bind-Reads (Repository.get_by_id d uid) (λ row. pure (db_transaction_to_domain d row))
          (bind-Reads fetched (λ row. lift (Repository.sqlc_transaction_to_db d row))
            (query-Reads (λ s. first_row (where_rows (is_live (some uid)) s.transactions)))
            (λ row. Untouched-refl))
          (λ row. Untouched-refl))
