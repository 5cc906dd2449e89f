-- ===== src/Sheets/Merge/Newest.antt =====
-- The version order of `MergeSheetRows`: version first, then creation time.
use mathlib.Core.Bool.{false≢true}
use mathlib.Core.Option.{some-injective}
use moon_eye.Base.{
  ◌≡◌, ◌∙◌, sym, ap, true, false, List, [], ◌∷◌, Str, Option, none, some, str_eq, str_eq_iff, arith,
  Bool-cases, inl, inr,
}
use moon_eye.Base.Int.{ℤ, ◌≤ℤ◌}
use moon_eye.Values.{Time}
use moon_eye.Sheets.Rows.{SheetRowChange}
use moon_eye.Sheets.Merge.{extract_version, extract_created_at, replaces, merge_sheet_rows}
use moon_eye.Sheets.Merge.Keys.{find_row}
use moon_eye.Sheets.Merge.ByRow.{last_with, winner, settle, find_row-merge_sheet_rows}

module _ (parse_rfc3339 : Str → Time) where
  abbrev version : SheetRowChange → ℤ
  version r = extract_version r.payload

  abbrev created : SheetRowChange → Time
  created r = extract_created_at parse_rfc3339 r.payload

  -- `w` has a higher version than `r`, or the same one and no earlier creation time.
  pub record IsNotOlder (w r : SheetRowChange) : Type 0 where
    pub by_version : version r ≤ℤ version w
    pub by_time : version w ≤ℤ version r → created r ≤ℤ created w

  -- `w` is not older than any row of the list with this id.
  abbrev pub IsNewestOf : SheetRowChange → Str → List SheetRowChange → Type 0
  IsNewestOf w id [] = Unit
  IsNewestOf w id (r ∷ rs) = (r.row_id ≡ id → IsNotOlder w r) × IsNewestOf w id rs

  pub IsNotOlder-refl : (r : SheetRowChange) → IsNotOlder r r
  IsNotOlder-refl r = omega arith

  pub IsNotOlder-trans : (a b c : SheetRowChange) → IsNotOlder a b → IsNotOlder b c → IsNotOlder a c
  IsNotOlder-trans a b c p q = record {
    by_version = omega (arith, p.by_version, q.by_version);
    by_time = λ h. omega (
      arith,
      p.by_version,
      q.by_version,
      p.by_time (omega (arith, q.by_version)),
      q.by_time (omega (arith, p.by_version)),
    );
  }

  pub IsNotOlder-of-replaces :
      (r cur : SheetRowChange) → replaces parse_rfc3339 r cur ≡ true → IsNotOlder r cur
  unfolding replaces
  IsNotOlder-of-replaces r cur h = record { by_version = ground arith; by_time = ground arith }

  pub IsNotOlder-of-not_replaces :
      (r cur : SheetRowChange) → replaces parse_rfc3339 r cur ≡ false → IsNotOlder cur r
  unfolding replaces
  IsNotOlder-of-not_replaces r cur h = record { by_version = ground arith; by_time = ground arith }

  -- A row that is not older is never replaced.
  pub not_replaces-of-IsNotOlder :
      (r cur : SheetRowChange) → IsNotOlder cur r → replaces parse_rfc3339 r cur ≡ false
  unfolding replaces
  not_replaces-of-IsNotOlder r cur h = ground (arith, h.by_version, h.by_time)

  winner-IsNotOlder_new :
      (cur : Option SheetRowChange) (r : SheetRowChange) → IsNotOlder (winner parse_rfc3339 cur r) r
  winner-IsNotOlder_new none r = IsNotOlder-refl r
  winner-IsNotOlder_new (some cur) r = elim (Bool-cases (replaces parse_rfc3339 r cur)) [
    | inl wins ↦ rw wins (IsNotOlder-refl r)
    | inr loses ↦ rw loses (IsNotOlder-of-not_replaces r cur loses)
  ]

  winner-IsNotOlder_old :
      (cur r : SheetRowChange) → IsNotOlder (winner parse_rfc3339 (some cur) r) cur
  winner-IsNotOlder_old cur r = elim (Bool-cases (replaces parse_rfc3339 r cur)) [
    | inl wins ↦ rw wins (IsNotOlder-of-replaces r cur wins)
    | inr loses ↦ rw loses (IsNotOlder-refl cur)
  ]

  settle-IsNotOlder :
      (id : Str) (cur w : SheetRowChange) (rs : List SheetRowChange)
      → settle parse_rfc3339 id (some cur) rs ≡ some w
      → IsNotOlder w cur
  settle-IsNotOlder id cur w [] e = rw (some-injective cur w e) (IsNotOlder-refl w)
  settle-IsNotOlder id cur w (r ∷ rs) e = elim (Bool-cases (str_eq r.row_id id)) [
    | inl same ↦
        let win = winner parse_rfc3339 (some cur) r in
        IsNotOlder-trans w win cur (settle-IsNotOlder id win w rs (rw same at e))
          (winner-IsNotOlder_old cur r)
    | inr differs ↦ settle-IsNotOlder id cur w rs (rw differs at e)
  ]

  settle-IsNewestOf :
      (id : Str) (cur : Option SheetRowChange) (w : SheetRowChange) (rs : List SheetRowChange)
      → settle parse_rfc3339 id cur rs ≡ some w
      → IsNewestOf w id rs
  settle-IsNewestOf id cur w [] e = tt
  settle-IsNewestOf id cur w (r ∷ rs) e = elim (Bool-cases (str_eq r.row_id id)) [
    | inl same ↦
        let win = winner parse_rfc3339 cur r in
        let e' : settle parse_rfc3339 id (some win) rs ≡ some w = rw same at e in
        (
          λ _.
              IsNotOlder-trans w win r (settle-IsNotOlder id win w rs e')
                (winner-IsNotOlder_new cur r),
          settle-IsNewestOf id (some win) w rs e',
        )
    | inr differs ↦ (
      λ h. absurd (false≢true (sym differs ∙ (str_eq_iff r.row_id id).1 h)),
      settle-IsNewestOf id cur w rs (rw differs at e),
    )
  ]

  -- The row that the merge keeps under an id is not older than any remote row with that id, nor
  -- than the last local one.
  pub merge_sheet_rows-IsNewestOf :
      (local remote : List SheetRowChange) (id : Str) (w : SheetRowChange)
      → find_row id (merge_sheet_rows parse_rfc3339 local remote) ≡ some w
      → IsNewestOf w id remote
        × ((r : SheetRowChange) → last_with id local ≡ some r → IsNotOlder w r)
  merge_sheet_rows-IsNewestOf local remote id w e =
      let e' = sym (find_row-merge_sheet_rows parse_rfc3339 local remote id) ∙ e in
      (
        settle-IsNewestOf id (last_with id local) w remote e',
        λ r h.
            settle-IsNotOlder id r w remote
              (ap (λ (o : Option SheetRowChange). settle parse_rfc3339 id o remote) (sym h) ∙ e'),
      )
