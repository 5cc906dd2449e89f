-- ===== src/Projection/Worker/Growing.antt =====
-- Events whose ids grow, and what is left of them after a page.
use moon_eye.Base.{
  ℕ, zero, suc, ◌≤◌, ◌<◌, ◌≡◌, refl, ap, List, [], ◌∷◌, inl, inr, arith, Bool-cases, take, drop,
  ltb, lt→ltb, if◌then◌else◌,
}
use moon_eye.Base.Int.{ℤ, pos, negsuc}
use moon_eye.Projection.Store.{ChangeEventRow}
use moon_eye.Projection.Source.{since, insert_event, order_by_id, page_size}
use moon_eye.Projection.Runner.{batch_size}
use moon_eye.Projection.Worker.Clean.{largest_id}

-- The ids grow along the table, from above `m` on, as those of a BIGSERIAL do.
abbrev pub Grows : ℕ → List ChangeEventRow → Type 0
Grows m [] = Unit
Grows m (ev ∷ evs) = (m < ev.id) × Grows ev.id evs

pub order_by_id-Grows : (m : ℕ) (evs : List ChangeEventRow) → Grows m evs → order_by_id evs ≡ evs
unfolding order_by_id insert_event
order_by_id-Grows m [] g = refl
order_by_id-Grows m (ev ∷ []) g = refl
order_by_id-Grows m (ev ∷ f ∷ evs) (a, (b, g)) =
    ground (arith, order_by_id-Grows ev.id (f ∷ evs) (b, g))

pub since-Grows : (c m : ℕ) (evs : List ChangeEventRow) → c ≤ m → Grows m evs → since c evs ≡ evs
since-Grows c m [] h g = refl
since-Grows c m (ev ∷ evs) h (a, g) = ground (arith, since-Grows c ev.id evs (omega arith) g)

pub Grows-since : (c m : ℕ) (evs : List ChangeEventRow) → Grows m evs → Grows c (since c evs)
Grows-since c m [] g = tt
Grows-since c m (ev ∷ evs) (a, g) = elim (Bool-cases (ltb c ev.id)) [
  | inl above ↦
      rw (above, since-Grows c ev.id evs (ground (arith, above)) g) (ground (arith, above), g)
  | inr below ↦ rw below (Grows-since c ev.id evs g)
]

pub largest_id-ge : (m : ℕ) (evs : List ChangeEventRow) → m ≤ largest_id m evs
largest_id-ge m [] = omega arith
largest_id-ge m (ev ∷ evs) = ground (arith, largest_id-ge m evs, largest_id-ge ev.id evs)

pub largest_id-first :
    (m : ℕ) (ev : ChangeEventRow) (evs : List ChangeEventRow)
    → m < ev.id
    → largest_id m (ev ∷ evs) ≡ largest_id ev.id evs
largest_id-first m ev evs h = ap (λ b. largest_id (if b then ev.id else m) evs) (lt→ltb m ev.id h)

-- After the largest id of a page comes what the page left.
pub since-largest_id :
    (p m : ℕ) (evs : List ChangeEventRow)
    → Grows m evs
    → since (largest_id m (take p evs)) evs ≡ drop p evs
since-largest_id zero m evs g = since-Grows m m evs (omega arith) g
since-largest_id (suc p) m [] g = refl
since-largest_id (suc p) m (ev ∷ evs) (a, g) = ground (
  arith,
  since-largest_id p ev.id evs g,
  largest_id-ge ev.id (take p evs),
  largest_id-ge m (take p evs),
)

pub since-since :
    (c k : ℕ) (evs : List ChangeEventRow) → c ≤ k → since k (since c evs) ≡ since k evs
since-since c k [] h = refl
since-since c k (ev ∷ evs) h = ground (arith, since-since c k evs h)

pub page_positive : (size : ℤ) → (q : ℕ) × (page_size (pos (batch_size size)) ≡ suc q)
page_positive (pos zero) = (49, refl)
page_positive (pos (suc n)) = (n, refl)
page_positive (negsuc n) = (49, refl)
