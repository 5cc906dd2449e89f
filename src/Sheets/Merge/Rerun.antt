-- ===== src/Sheets/Merge/Rerun.antt =====
-- Merging again with the same remote rows changes nothing: a sync that was applied and runs once
-- more writes the same rows.
use mathlib.Core.Option.{some-injective}
use moon_eye.Base.{
  ◌≡◌, refl, ◌∙◌, sym, ap, ap₂, subst, List, [], ◌∷◌, Str, Option, none, some, str_eq, str_lt,
  str_eq_iff, arith, Bool-cases, Option-cases, inl, inr, true, false, ◌≢◌,
}
use moon_eye.Base.Order.{str_lt_total, str_lt_irrefl}
use moon_eye.Values.{Time}
use moon_eye.Sheets.Rows.{SheetRowChange}
use moon_eye.Sheets.Merge.{merge_sheet_rows}
use moon_eye.Sheets.Merge.Keys.{find_row, AllAbove, AllAbove-trans, IsAscending}
use moon_eye.Sheets.Merge.ByRow.{
  last_with, winner, settle, row_ids, find_row-merge_sheet_rows, merge_sheet_rows-IsAscending,
}
use moon_eye.Sheets.Merge.Newest.{
  IsNewestOf, not_replaces-of-IsNotOlder, merge_sheet_rows-IsNewestOf,
}

find_row-AllAbove :
    (id : Str) (rs : List SheetRowChange) → AllAbove id (row_ids rs) → find_row id rs ≡ none
unfolding find_row
find_row-AllAbove id [] h = refl
find_row-AllAbove id (r ∷ rs) h = ground (
  arith,
  str_eq_iff r.row_id id,
  str_lt_irrefl id,
  ap (λ (k : Str). str_lt id k) {x = r.row_id} {y = id},
  find_row-AllAbove id rs h.1,
)

find_row-head :
    (r : SheetRowChange) (rs : List SheetRowChange) → find_row r.row_id (r ∷ rs) ≡ some r
unfolding find_row
find_row-head r rs = ground (arith, str_eq_iff r.row_id r.row_id)

-- In a list whose ids ascend, the last row with an id is the first.
last_with-eq-find_row :
    (id : Str) (rs : List SheetRowChange)
    → IsAscending (row_ids rs)
    → last_with id rs ≡ find_row id rs
unfolding find_row
last_with-eq-find_row id [] h = refl
last_with-eq-find_row id (r ∷ rs) h = elim (Bool-cases (str_eq r.row_id id)) [
  | inl same ↦
      let above : find_row id rs ≡ none =
        find_row-AllAbove id rs
          (subst (λ k. AllAbove k (row_ids rs)) ((str_eq_iff r.row_id id).0 same) h.0) in
      ground (arith, last_with-eq-find_row id rs h.1)
  | inr differs ↦ ground (arith, last_with-eq-find_row id rs h.1)
]

head_not_below :
    (x y : SheetRowChange) (xs ys : List SheetRowChange)
    → IsAscending (row_ids (y ∷ ys))
    → find_row x.row_id (x ∷ xs) ≡ find_row x.row_id (y ∷ ys)
    → str_lt x.row_id y.row_id ≡ false
head_not_below x y xs ys h e = elim (Bool-cases (str_lt x.row_id y.row_id)) [
  | inl below ↦ cc (
    find_row-head x xs,
    e,
    find_row-AllAbove x.row_id (y ∷ ys)
        (below, AllAbove-trans x.row_id y.row_id (row_ids ys) below h.0),
  )
  | inr above ↦ above
]

find_row-tails :
    (x y : SheetRowChange) (xs ys : List SheetRowChange) (id : Str)
    → x.row_id ≡ y.row_id
    → str_eq x.row_id id ≡ false
    → find_row id (x ∷ xs) ≡ find_row id (y ∷ ys)
    → find_row id xs ≡ find_row id ys
unfolding find_row
find_row-tails x y xs ys id same differs e = ground (arith, ap (λ (k : Str). str_eq k id) same)

-- Two ascending lists with the same row under every id are equal.
pub eq-of-find_row :
    (xs ys : List SheetRowChange)
    → IsAscending (row_ids xs)
    → IsAscending (row_ids ys)
    → ((id : Str) → find_row id xs ≡ find_row id ys)
    → xs ≡ ys
eq-of-find_row [] [] hx hy e = refl
eq-of-find_row [] (y ∷ ys) hx hy e = unfold find_row in cc (find_row-head y ys, e y.row_id)
eq-of-find_row (x ∷ xs) [] hx hy e = unfold find_row in cc (find_row-head x xs, e x.row_id)
eq-of-find_row (x ∷ xs) (y ∷ ys) hx hy e = ap₂ ◌∷◌ same (eq-of-find_row xs ys hx.1 hy.1 tails)
  where
    ids_eq : str_eq x.row_id y.row_id ≡ true
    ids_eq = ground (
      arith,
      str_lt_total x.row_id y.row_id (head_not_below x y xs ys hy (e x.row_id)),
      head_not_below y x ys xs hx (sym (e y.row_id)),
    )

    id_eq : x.row_id ≡ y.row_id
    id_eq = (str_eq_iff x.row_id y.row_id).0 ids_eq

    same : x ≡ y
    same = some-injective x y (
        sym (find_row-head x xs)
        ∙ e x.row_id
        ∙ ap (λ k. find_row k (y ∷ ys)) id_eq
        ∙ find_row-head y ys)

    tails : (id : Str) → find_row id xs ≡ find_row id ys
    tails id = elim (Bool-cases (str_eq x.row_id id)) [
      | inl here ↦
          let at_id = (str_eq_iff x.row_id id).0 here in
          find_row-AllAbove id xs (subst (λ k. AllAbove k (row_ids xs)) at_id hx.0)
          ∙ sym (
              find_row-AllAbove id ys
                (subst (λ k. AllAbove k (row_ids ys)) (sym id_eq ∙ at_id) hy.0))
      | inr elsewhere ↦ find_row-tails x y xs ys id id_eq elsewhere (e id)
    ]

module _ (parse_rfc3339 : Str → Time) where
  -- Rows that are not newer leave what is there.
  settle-newest :
      (id : Str) (w : SheetRowChange) (rs : List SheetRowChange)
      → IsNewestOf parse_rfc3339 w id rs
      → settle parse_rfc3339 id (some w) rs ≡ some w
  settle-newest id w [] h = refl
  settle-newest id w (r ∷ rs) h = elim (Bool-cases (str_eq r.row_id id)) [
    | inl same ↦
        rw
          (
            same,
            not_replaces-of-IsNotOlder parse_rfc3339 r w (h.0 ((str_eq_iff r.row_id id).0 same)),
          )
          (settle-newest id w rs h.1)
    | inr differs ↦ rw differs (settle-newest id w rs h.1)
  ]

  settle-some :
      (id : Str) (cur : SheetRowChange) (rs : List SheetRowChange)
      → settle parse_rfc3339 id (some cur) rs ≢ none
  settle-some id cur [] e = cc
  settle-some id cur (r ∷ rs) e = elim (Bool-cases (str_eq r.row_id id)) [
    | inl same ↦ settle-some id (winner parse_rfc3339 (some cur) r) rs (rw same at e)
    | inr differs ↦ settle-some id cur rs (rw differs at e)
  ]

  settle-none :
      (id : Str) (cur : Option SheetRowChange) (rs : List SheetRowChange)
      → settle parse_rfc3339 id cur rs ≡ none
      → settle parse_rfc3339 id none rs ≡ none
  settle-none id none rs e = e
  settle-none id (some cur) rs e = absurd (settle-some id cur rs e)

  -- Merging the merged rows with the same remote rows again gives the merged rows.
  pub merge_sheet_rows_idem :
      (local remote : List SheetRowChange)
      → merge_sheet_rows parse_rfc3339 (merge_sheet_rows parse_rfc3339 local remote) remote
        ≡ merge_sheet_rows parse_rfc3339 local remote
  merge_sheet_rows_idem local remote =
      eq-of-find_row (merge_sheet_rows parse_rfc3339 merged remote) merged
        (merge_sheet_rows-IsAscending parse_rfc3339 merged remote)
        (merge_sheet_rows-IsAscending parse_rfc3339 local remote)
        λ id.
          find_row-merge_sheet_rows parse_rfc3339 merged remote id
          ∙ ap (λ (o : Option SheetRowChange). settle parse_rfc3339 id o remote)
              (last_with-eq-find_row id merged
                (merge_sheet_rows-IsAscending parse_rfc3339 local remote))
          ∙ settled id
    where
      merged : List SheetRowChange
      merged = merge_sheet_rows parse_rfc3339 local remote

      settled :
          (id : Str) → settle parse_rfc3339 id (find_row id merged) remote ≡ find_row id merged
      settled id = elim (Option-cases (find_row id merged)) [
        | inl absent ↦ rw absent (
            settle-none id (last_with id local) remote
              (sym (find_row-merge_sheet_rows parse_rfc3339 local remote id) ∙ absent))
        | inr (w, e) ↦ rw e (
            settle-newest id w remote
              (merge_sheet_rows-IsNewestOf parse_rfc3339 local remote id w e).0)
      ]
