-- ===== src/Administrator/Find.antt =====
-- `Find` of authority/administrator/collection.go: pages of the sorted list.
pub mod Search
pub mod Pages
use certificates.Base.{
  ℕ, zero, suc, Bool, List, [], ◌∷◌, Bytes, ltb, if◌then◌else◌, drop, ℤ, pos, negsuc,
}
use certificates.Administrator.{Admin, Collection}
use certificates.Administrator.Remove.{sorted_index}

abbrev pub default_admin_limit : ℕ
default_admin_limit = 20

abbrev pub default_admin_max : ℕ
default_admin_max = 100

unfoldable pub limit_of : ℤ → ℕ
limit_of (negsuc n) = default_admin_limit
limit_of (pos zero) = default_admin_limit
limit_of (pos (suc n)) = if ltb default_admin_max (suc n) then default_admin_max else suc n

-- The loop from the index on, with the number of admins that still fit, and the cursor after it.
unfoldable pub page : ℕ → List Admin → List Admin × Bytes
page n [] = ([], [])
page zero (a ∷ admins) = ([], a.id)
page (suc n) (a ∷ admins) = let (slice, next) = page n admins in (a ∷ slice, next)

unfoldable pub find : Bytes → ℤ → Collection → List Admin × Bytes
find cursor limit c = page (limit_of limit) (drop (sorted_index c.sorted cursor) c.sorted)
