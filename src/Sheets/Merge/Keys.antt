-- ===== src/Sheets/Merge/Keys.antt =====
-- Sorting and collecting the keys of the map in `MergeSheetRows`.
use moon_eye.Base.{
  ◌≡◌, refl, ◌∙◌, ap, sym, Option-cases, Bool, true, false, ◌||◌, List, [], ◌∷◌, Str, Option, none,
  some, lookup, insert, str_eq, str_lt, str_eq_iff, str_eq_refl, arith, Bool-cases, inl, inr,
  if◌then◌else◌,
}
use moon_eye.Base.Order.{str_lt_trans, str_lt_total}
use moon_eye.Sheets.Rows.{SheetRowChange}
use moon_eye.Sheets.Merge.{ById, keys, collect, insert_string, sort_strings}

-- Is `k` among the strings?
unfoldable pub mem : Str → List Str → Bool
mem k [] = false
mem k (a ∷ as') = str_eq a k || mem k as'

-- The first row with this id.
unfoldable pub find_row : Str → List SheetRowChange → Option SheetRowChange
find_row id [] = none
find_row id (r ∷ rs) = if str_eq r.row_id id then some r else find_row id rs

abbrev pub is_some : Option SheetRowChange → Bool
is_some none = false
is_some (some r) = true

-- Every string of the list is above `a`.
abbrev pub AllAbove : Str → List Str → Type 0
AllAbove a [] = Unit
AllAbove a (b ∷ bs) = (str_lt a b ≡ true) × AllAbove a bs

-- Strictly ascending, so without repetition.
abbrev pub IsAscending : List Str → Type 0
IsAscending [] = Unit
IsAscending (a ∷ as') = AllAbove a as' × IsAscending as'

abbrev pub IsDistinct : List Str → Type 0
IsDistinct [] = Unit
IsDistinct (a ∷ as') = (mem a as' ≡ false) × IsDistinct as'

pub mem-insert_string :
    (k a : Str) (bs : List Str) → mem k (insert_string a bs) ≡ str_eq a k || mem k bs
unfolding mem insert_string
mem-insert_string k a [] = refl
mem-insert_string k a (b ∷ bs) = ground (arith, mem-insert_string k a bs)

pub mem-sort_strings : (k : Str) (as' : List Str) → mem k (sort_strings as') ≡ mem k as'
unfolding mem sort_strings
mem-sort_strings k [] = refl
mem-sort_strings k (a ∷ as') =
    mem-insert_string k a (sort_strings as') ∙ ground (arith, mem-sort_strings k as')

pub AllAbove-trans : (a b : Str) (cs : List Str) → str_lt a b ≡ true → AllAbove b cs → AllAbove a cs
AllAbove-trans a b [] p h = tt
AllAbove-trans a b (c ∷ cs) p h = (str_lt_trans a b c p h.0, AllAbove-trans a b cs p h.1)

AllAbove-insert_string :
    (x a : Str) (bs : List Str)
    → str_lt x a ≡ true
    → AllAbove x bs
    → AllAbove x (insert_string a bs)
unfolding insert_string
AllAbove-insert_string x a [] p h = (p, tt)
AllAbove-insert_string x a (b ∷ bs) p h = elim (Bool-cases (str_lt b a)) [
  | inl below ↦ rw below (h.0, AllAbove-insert_string x a bs p h.1)
  | inr above ↦ rw above (p, h)
]

IsAscending-insert_string :
    (a : Str) (bs : List Str) → mem a bs ≡ false → IsAscending bs → IsAscending (insert_string a bs)
unfolding insert_string mem
IsAscending-insert_string a [] n h = (tt, tt)
IsAscending-insert_string a (b ∷ bs) n h = elim (Bool-cases (str_lt b a)) [
  | inl below ↦
      rw below
        (AllAbove-insert_string b a bs below h.0, IsAscending-insert_string a bs (ground arith) h.1)
  | inr above ↦
      let p : str_lt a b ≡ true = str_lt_total b a above (ground arith) in
      rw above ((p, AllAbove-trans a b bs p h.0), h)
]

-- Distinct keys come out strictly ascending.
pub sort_strings-IsAscending : (as' : List Str) → IsDistinct as' → IsAscending (sort_strings as')
unfolding sort_strings
sort_strings-IsAscending [] h = tt
sort_strings-IsAscending (a ∷ as') h =
    IsAscending-insert_string a (sort_strings as') (mem-sort_strings a as' ∙ h.0)
      (sort_strings-IsAscending as' h.1)

-- Every row stands under its own id, and no key is repeated.
abbrev pub IsKeyed : ById → Type 0
IsKeyed [] = Unit
IsKeyed ((k, r) ∷ m) = (r.row_id ≡ k) × IsKeyed m

pub mem-keys : (k : Str) (m : ById) → mem k (keys m) ≡ is_some (lookup k m)
unfolding mem
mem-keys k [] = refl
mem-keys k ((j, r) ∷ m) = ground (arith, mem-keys k m)

pub mem-keys-insert :
    (k j : Str) (r : SheetRowChange) (m : ById)
    → mem k (keys (insert j r m)) ≡ str_eq j k || mem k (keys m)
unfolding mem
mem-keys-insert k j r [] = refl
mem-keys-insert k j r ((i, q) ∷ m) = ground (arith, mem-keys-insert k j r m, str_eq_iff i j)

pub insert-IsDistinct :
    (j : Str) (r : SheetRowChange) (m : ById)
    → IsDistinct (keys m)
    → IsDistinct (keys (insert j r m))
unfolding mem
insert-IsDistinct j r [] h = (refl, tt)
insert-IsDistinct j r ((i, q) ∷ m) h = elim (Bool-cases (str_eq i j)) [
  | inl same ↦ rw same (ap (λ (k : Str). mem k (keys m)) (sym ((str_eq_iff i j).0 same)) ∙ h.0, h.1)
  | inr differs ↦ rw differs (
    mem-keys-insert i j r m ∙ ground (arith, str_eq_iff j i, str_eq_iff i j),
    insert-IsDistinct j r m h.1,
  )
]

pub insert-IsKeyed : (r : SheetRowChange) (m : ById) → IsKeyed m → IsKeyed (insert r.row_id r m)
insert-IsKeyed r [] h = (refl, tt)
insert-IsKeyed r ((i, q) ∷ m) h = elim (Bool-cases (str_eq i r.row_id)) [
  | inl same ↦ rw same (refl, h.1)
  | inr differs ↦ rw differs (h.0, insert-IsKeyed r m h.1)
]

pub lookup-IsKeyed :
    (k : Str) (m : ById) (r : SheetRowChange) → IsKeyed m → lookup k m ≡ some r → r.row_id ≡ k
lookup-IsKeyed k [] r h e = cc
lookup-IsKeyed k ((j, q) ∷ m) r h e = ground (arith, lookup-IsKeyed k m r h.1, str_eq_iff j k)

-- What is collected under ids that the map has is found under those ids.
pub find_row-collect :
    (id : Str) (m : ById) (ids : List Str)
    → IsKeyed m
    → ((k : Str) → mem k ids ≡ true → is_some (lookup k m) ≡ true)
    → find_row id (collect m ids) ≡ (if mem id ids then lookup id m else none)
unfolding find_row mem
find_row-collect id m [] keyed has = refl
find_row-collect id m (k ∷ ids) keyed has = elim (Option-cases (lookup k m)) [
  | inl missing ↦ cc (has k (ground (arith, str_eq_refl k)), ap is_some missing)
  | inr (r, e) ↦
      let rest = find_row-collect id m ids keyed (λ j h. has j (ground arith)) in
      rw e (
        ground (
          arith,
          rest,
          lookup-IsKeyed k m r keyed e,
          str_eq_iff r.row_id id,
          str_eq_iff k id,
          ap (λ (j : Str). lookup j m) {x = k} {y = id},
        ))
]
