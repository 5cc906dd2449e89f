-- ===== src/Sheets/Sync/Ownership.antt =====
-- What one sync does: whose connections it serves.
use moon_eye.Base.{◌≡◌, refl, Str, Option, none, some, str_eq_iff, arith, ◌≢◌}
use moon_eye.Base.Int.{ℤ}
use moon_eye.Outcome.{Result, ok, err}
use moon_eye.Values.{Time}
use moon_eye.Sheets.Rows.{SheetsConnection}
use moon_eye.Sheets.Sync.{SyncService, owned, not_owned, sync_owned, sync_user_transactions}

module _ {S : Type 0} (parse_rfc3339 : Str → Time) (svc : SyncService S) where
  -- A connection of another user ends the sync with an error, and nothing but the lookup was called.
  pub sync_user_transactions-foreign :
      (user_id conn_id mode : Str) (since : ℤ) (conn : SheetsConnection) (s s1 : S)
      → svc.get_connection conn_id s ≡ (ok (some conn), s1)
      → conn.user_id ≢ user_id
      → sync_user_transactions parse_rfc3339 svc user_id conn_id mode since s ≡ (err not_owned, s1)
  unfolding sync_user_transactions sync_owned owned
  sync_user_transactions-foreign user_id conn_id mode since conn s s1 found other_user =
      ground (arith, str_eq_iff conn.user_id user_id)

  found_connection :
      (user_id conn_id mode : Str) (since : ℤ) (s : S) (r : Result (Option SheetsConnection))
      → (svc.get_connection conn_id s).0 ≡ r
      → (sync_user_transactions parse_rfc3339 svc user_id conn_id mode since s).0 ≡ ok tt
      → (conn : SheetsConnection) × ((svc.get_connection conn_id s).0 ≡ ok (some conn))
        × (conn.user_id ≡ user_id)
  unfolding sync_user_transactions sync_owned owned
  found_connection user_id conn_id mode since s (ok none) e h = absurd (ground arith)
  found_connection user_id conn_id mode since s (ok (some conn)) e h =
      (conn, e, ground (arith, str_eq_iff conn.user_id user_id))
  found_connection user_id conn_id mode since s (err x) e h = absurd (ground arith)

  -- A sync that succeeds is of a connection that was found and belongs to the user.
  pub sync_user_transactions-owned :
      (user_id conn_id mode : Str) (since : ℤ) (s : S)
      → (sync_user_transactions parse_rfc3339 svc user_id conn_id mode since s).0 ≡ ok tt
      → (conn : SheetsConnection) × ((svc.get_connection conn_id s).0 ≡ ok (some conn))
        × (conn.user_id ≡ user_id)
  sync_user_transactions-owned user_id conn_id mode since s =
      found_connection user_id conn_id mode since s (svc.get_connection conn_id s).0 refl
