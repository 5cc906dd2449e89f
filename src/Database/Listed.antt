-- ===== src/Database/Listed.antt =====
-- internal/db/sync_repositories.go: which events `ListTransactionEventsSince` lists.
use moon_eye.Base.{
  ℕ, suc, ◌≤◌, zero, ◌≡◌, refl, ◌∙◌, sym, Option-cases, ap, subst, true, List, [], ◌∷◌, Str, Option,
  none, some, codes, inl, inr, arith, length, take, length-take, Bool-cases, eq-of-str_eq,
}
use moon_eye.Base.Int.{ℤ, leb_ℤ, ltb_ℤ, ◌≤ℤ◌}
use moon_eye.Outcome.{Error, ok, Result-cases, ◌>>=◌, of_bind, lift}
use moon_eye.Values.{Time, Float64}
use moon_eye.Sheets.Rows.{ChangeEvent}
use moon_eye.Database.Pg.{Uuid, Driver}
use moon_eye.Database.Rows.{ChangeEventRecord, Database, execute}
use moon_eye.Database.Queries.{where_rows}
use moon_eye.Database.SyncReaders.{
  scan_rows, insert_by_version, order_by_version, is_transaction_since, scan_event,
  list_transaction_events_since, not_null, uuid_text,
}

-- What the test of the query says of a record that passes it.
is_transaction_since-true :
    (uid : Uuid) (since : ℤ) (r : ChangeEventRecord)
    → is_transaction_since uid since r ≡ true
    → (r.user_id ≡ some uid)
      × (r.entity_type ≡ codes "transaction")
      × (ltb_ℤ since r.version ≡ true)
unfolding is_transaction_since
is_transaction_since-true uid since r h = elim (Option-cases r.user_id) [
  | inl e ↦ absurd (ground (arith, rw e at h))
  | inr (u, e) ↦ (
    e ∙ ap some (ground (arith, rw e at h)),
    eq-of-str_eq r.entity_type (codes "transaction") (ground (arith, rw e at h)),
    ground (arith, rw e at h),
  )
]

-- Records of a user's transactions after `since`, from the version `low` on, in ascending order.
IsOrdered : Uuid → ℤ → ℤ → List ChangeEventRecord → Type 0
IsOrdered uid since low [] = Unit
IsOrdered uid since low (r ∷ rs) =
    (is_transaction_since uid since r ≡ true)
    × (low ≤ℤ r.version)
    × IsOrdered uid since r.version rs

-- Events of a user's transactions after `since`, from the version `low` on, in ascending order.
abbrev pub AreListed : Str → ℤ → ℤ → List ChangeEvent → Type 0
AreListed user_id since low [] = Unit
AreListed user_id since low (e ∷ es) =
    (e.user_id ≡ user_id)
    × (e.entity_type ≡ codes "transaction")
    × (ltb_ℤ since e.version ≡ true)
    × (low ≤ℤ e.version)
    × AreListed user_id since e.version es

insert_by_version-IsOrdered :
    (uid : Uuid) (since low : ℤ) (r : ChangeEventRecord) (qs : List ChangeEventRecord)
    → is_transaction_since uid since r ≡ true
    → low ≤ℤ r.version
    → IsOrdered uid since low qs
    → IsOrdered uid since low (insert_by_version r qs)
unfolding IsOrdered insert_by_version
insert_by_version-IsOrdered uid since low r [] h k o = (h, k, tt)
insert_by_version-IsOrdered uid since low r (q ∷ qs) h k (a, b, o) =
    elim (Bool-cases (leb_ℤ r.version q.version)) [
      | inl e ↦
          subst (IsOrdered uid since low) {x = r ∷ q ∷ qs} {y = insert_by_version r (q ∷ qs)}
            (sym (rw e)) (h, k, (a, ground (arith, e), o))
      | inr e ↦
          subst (IsOrdered uid since low) {x = q ∷ insert_by_version r qs}
            {y = insert_by_version r (q ∷ qs)} (sym (rw e))
            (a, b, insert_by_version-IsOrdered uid since q.version r qs h (ground (arith, e)) o)
    ]

order_by_version-IsOrdered :
    (uid : Uuid) (since : ℤ) (rs : List ChangeEventRecord)
    → IsOrdered uid since since (order_by_version (where_rows (is_transaction_since uid since) rs))
unfolding IsOrdered order_by_version where_rows
order_by_version-IsOrdered uid since [] = tt
order_by_version-IsOrdered uid since (r ∷ rs) =
    let rest = order_by_version-IsOrdered uid since rs in
    elim (Bool-cases (is_transaction_since uid since r)) [
      | inl e ↦
          subst (λ xs. IsOrdered uid since since (order_by_version xs))
            {x = r ∷ where_rows (is_transaction_since uid since) rs}
            {y = where_rows (is_transaction_since uid since) (r ∷ rs)} (sym (rw e))
            (insert_by_version-IsOrdered uid since since r
              (order_by_version (where_rows (is_transaction_since uid since) rs)) e
              (ground (arith, (is_transaction_since-true uid since r e).2)) rest)
      | inr e ↦
          subst (λ xs. IsOrdered uid since since (order_by_version xs))
            {x = where_rows (is_transaction_since uid since) rs}
            {y = where_rows (is_transaction_since uid since) (r ∷ rs)} (sym (rw e)) rest
    ]

take-IsOrdered :
    (uid : Uuid) (since low : ℤ) (n : ℕ) (rs : List ChangeEventRecord)
    → IsOrdered uid since low rs
    → IsOrdered uid since low (take n rs)
unfolding IsOrdered
take-IsOrdered uid since low zero rs o = tt
take-IsOrdered uid since low (suc n) [] o = tt
take-IsOrdered uid since low (suc n) (r ∷ rs) (a, b, o) =
    (a, b, take-IsOrdered uid since r.version n rs o)

-- The rows that the query gives.
abbrev rows_since : Uuid → ℤ → ℕ → List ChangeEventRecord → List ChangeEventRecord
rows_since uid since limit table =
    take limit (order_by_version (where_rows (is_transaction_since uid since) table))

-- A query that succeeds reads the table as it is.
of_query :
    {A : Type 0} (f : List ChangeEventRecord → A) (s t : Database) (a : A) (o : List (Option Error))
    → s.outages ≡ o
    → execute (λ s. (ok (f s.change_events), s)) s ≡ (ok a, t)
    → f s.change_events ≡ a
unfolding execute
of_query f s t a [] e h = ground (arith, rw e at h)
of_query f s t a (none ∷ rest) e h = ground (arith, rw e at h)
of_query f s t a (some x ∷ rest) e h = absurd (ground (arith, rw e at h))

module _ (d : Driver) (epoch : Time → Float64) where
  scan_event-kept :
      (r : ChangeEventRecord) (e : ChangeEvent) (uid : Uuid)
      → r.user_id ≡ some uid
      → scan_event d epoch r ≡ ok e
      → (e.user_id ≡ d.print_uuid uid) × (e.entity_type ≡ r.entity_type) × (e.version ≡ r.version)
  unfolding scan_event
  scan_event-kept r e uid h k = elim (Result-cases (uuid_text d epoch r.entity_id)) [
    | inl (a, p) ↦ elim (Result-cases (not_null r.created_at)) [
      | inl (c, q) ↦ (
        ground (arith, rw (p, h, q) at k),
        ground (arith, rw (p, h, q) at k),
        ground (arith, rw (p, h, q) at k),
      )
      | inr (x, q) ↦ absurd (ground (arith, rw (p, h, q) at k))
    ]
    | inr (x, p) ↦ absurd (ground (arith, rw p at k))
  ]

  scan_rows-AreListed :
      (uid : Uuid) (since low : ℤ) (rows : List ChangeEventRecord) (es : List ChangeEvent)
      → IsOrdered uid since low rows
      → scan_rows (scan_event d epoch) rows ≡ ok es
      → AreListed (d.print_uuid uid) since low es × (length es ≡ length rows)
  unfolding IsOrdered scan_rows
  scan_rows-AreListed uid since low [] es o h =
      subst (λ es. AreListed (d.print_uuid uid) since low es × (length es ≡ 0)) {x = []} {y = es}
        (ground (arith, h)) (tt, refl)
  scan_rows-AreListed uid since low (r ∷ rs) es (a, b, o) h =
      elim (Result-cases (scan_event d epoch r)) [
        | inl (e, p) ↦ elim (Result-cases (scan_rows (scan_event d epoch) rs)) [
          | inl (fs, q) ↦
              let (user, type, newer) = is_transaction_since-true uid since r a in
              let (user', type', version) = scan_event-kept r e uid user p in
              let (listed, long) = scan_rows-AreListed uid since r.version rs fs o q in
              subst
                (λ es. AreListed (d.print_uuid uid) since low es × (length es ≡ suc (length rs)))
                {x = e ∷ fs} {y = es} (ground (arith, rw (p, q) at h))
                (
                  (
                    user',
                    type' ∙ type,
                    ap (ltb_ℤ since) version ∙ newer,
                    subst (λ v. low ≤ℤ v) (sym version) b,
                    subst (λ v. AreListed (d.print_uuid uid) since v fs) (sym version) listed,
                  ),
                  ap suc long,
                )
          | inr (x, q) ↦ absurd (ground (arith, rw (p, q) at h))
        ]
        | inr (x, p) ↦ absurd (ground (arith, rw p at h))
      ]

  -- The rows of the query, scanned.
  query-AreListed :
      (uid : Uuid) (since : ℤ) (limit : ℕ) (s t : Database) (es : List ChangeEvent)
      → (execute (λ s. (ok (rows_since uid since limit s.change_events), s)) >>= λ rows.
            lift (scan_rows (scan_event d epoch) rows))
          s
        ≡ (ok es, t)
      → AreListed (d.print_uuid uid) since since es × (length es ≤ limit)
  query-AreListed uid since limit s t es h =
      let (rows, u, ran, scanned) =
        of_bind (execute (λ s. (ok (rows_since uid since limit s.change_events), s)))
          (λ rows. lift (scan_rows (scan_event d epoch) rows)) s t es h in
      let read = of_query (rows_since uid since limit) s u rows s.outages refl ran in
      let sorted = order_by_version (where_rows (is_transaction_since uid since) s.change_events) in
      let (listed, long) =
        scan_rows-AreListed uid since since rows es
          (subst (IsOrdered uid since since) read (
            take-IsOrdered uid since since limit sorted
              (order_by_version-IsOrdered uid since s.change_events)))
          (ap (λ p. p.0) scanned) in
      (listed, omega (arith, long, ap length read, length-take limit sorted))

  -- What `ListTransactionEventsSince` lists: events of the user's transactions alone, each of a later
  -- version than the one asked for, in ascending order of their versions and no more than the limit.
  pub list_transaction_events_since-AreListed :
      (user_id : Str) (since : ℤ) (limit : ℕ) (s : Database) (es : List ChangeEvent)
      → (list_transaction_events_since d epoch user_id since limit s).0 ≡ ok es
      → (uid : Uuid) × (d.parse_uuid user_id ≡ ok uid)
        × AreListed (d.print_uuid uid) since since es
        × (length es ≤ limit)
  unfolding list_transaction_events_since
  list_transaction_events_since-AreListed user_id since limit s es h =
      let t = (list_transaction_events_since d epoch user_id since limit s).1 in
      let (uid, u, parsed, rest) =
        of_bind (lift (d.parse_uuid user_id))
          (λ uid. execute (λ s. (ok (rows_since uid since limit s.change_events), s)) >>= λ rows.
            lift (scan_rows (scan_event d epoch) rows))
          s t es (ap (λ r. (r, t)) h) in
      let (listed, short) = query-AreListed uid since limit s t es (
        subst
          (λ v.
            (execute (λ s. (ok (rows_since uid since limit s.change_events), s)) >>= λ rows.
            lift (scan_rows (scan_event d epoch) rows))
              v
            ≡ (ok es, t))
          (sym (ap (λ p. p.1) parsed)) rest) in
      (uid, ap (λ p. p.0) parsed, listed, short)
