-- ===== src/Pagination.antt =====
-- pkg/shared/pagination/pagination.go: the limit and the offset of a page.
use moon_eye.Base.{◌≡◌, if◌then◌else◌, arith}
use moon_eye.Base.Int.{ℤ, pos, leb_ℤ, ltb_ℤ, ◌≤ℤ◌}

abbrev pub default_limit : ℤ
default_limit = pos 50

abbrev pub max_limit : ℤ
max_limit = pos 200

abbrev cap_limit : ℤ → ℤ
cap_limit limit = if ltb_ℤ max_limit limit then max_limit else limit

unfoldable pub normalize : ℤ → ℤ → ℤ × ℤ
normalize limit offset = (
  cap_limit (if leb_ℤ limit (pos 0) then default_limit else limit),
  if ltb_ℤ offset (pos 0) then pos 0 else offset,
)

pub normalize-bounds :
    (limit offset : ℤ)
    → let (l, o) = normalize limit offset in
      (pos 1 ≤ℤ l) × (l ≤ℤ pos 200) × (pos 0 ≤ℤ o) × (normalize l o ≡ (l, o))
unfolding normalize
normalize-bounds limit offset = ground arith
