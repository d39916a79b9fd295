-- ===== src/Administrator/Find/Pages.antt =====
-- The pages that `Find` of authority/administrator/collection.go returns, one after another.
use certificates.Base.{
  ℕ, zero, suc, ◌≤◌, ◌<◌, ◌≡◌, refl, sym, ap, subst, ◌∙◌, inl, inr, Bool-cases, true, false, List,
  [], ◌∷◌, ◌++◌, Bytes, All, map, if◌then◌else◌, length, is_empty, ℤ, pos, negsuc, arith,
  append_assoc,
}
use certificates.Acme.Names.{bytes_ltb}
use certificates.Acme.Names.Sorted.{bytes_ltb_irrefl}
use certificates.Administrator.{Admin, Collection}
use certificates.Administrator.Find.{limit_of, page, find}
use certificates.Administrator.Find.Search.{IsSorted, from, drop-sorted_index}

-- On a sorted list, a page starts at the first admin whose identifier is not below the cursor.
pub find_exact :
    (cursor : Bytes) (limit : ℤ) (c : Collection)
    → IsSorted c.sorted
    → find cursor limit c ≡ page (limit_of limit) (from cursor c.sorted)
unfolding find
find_exact cursor limit c s = ap (page (limit_of limit)) (drop-sorted_index cursor c.sorted s)

limit-positive : (limit : ℤ) → 0 < limit_of limit
unfolding limit_of
limit-positive (negsuc n) = omega arith
limit-positive (pos zero) = omega arith
limit-positive (pos (suc n)) = ground arith

-- A client that asks for the pages one after another until the cursor is empty, with a bound on
-- their number.
unfoldable pub all_pages : ℕ → Bytes → ℤ → Collection → List Admin
all_pages zero cursor limit c = []
all_pages (suc n) cursor limit c =
    let (slice, next) = find cursor limit c in
    let rest = all_pages n next limit c in slice ++ (if is_empty next then [] else rest)

-- What is left behind a page.
rest_of : ℕ → List Admin → List Admin
rest_of n [] = []
rest_of zero (a ∷ admins) = a ∷ admins
rest_of (suc n) (a ∷ admins) = rest_of n admins

first_id : List Admin → Bytes
first_id [] = []
first_id (a ∷ admins) = a.id

page-splits :
    (n : ℕ) (admins : List Admin)
    → ((page n admins).0 ++ rest_of n admins ≡ admins)
      × ((page n admins).1 ≡ first_id (rest_of n admins))
unfolding page rest_of first_id
page-splits n [] = (refl, refl)
page-splits zero (a ∷ admins) = (refl, refl)
page-splits (suc n) (a ∷ admins) =
    let (parts, next) = page-splits n admins in (ap (λ l. a ∷ l) parts, next)

rest_of-shorter : (n : ℕ) (admins : List Admin) → length (rest_of n admins) ≤ length admins
unfolding rest_of
rest_of-shorter n [] = omega arith
rest_of-shorter zero (a ∷ admins) = omega arith
rest_of-shorter (suc n) (a ∷ admins) = omega (arith, rest_of-shorter n admins)

rest_of-length :
    (n : ℕ) (a : Admin) (admins : List Admin)
    → 0 < n
    → length (rest_of n (a ∷ admins)) < suc (length admins)
unfolding rest_of
rest_of-length zero a admins h = absurd (omega arith)
rest_of-length (suc n) a admins h = omega (arith, rest_of-shorter n admins)

bytes_ltb_empty : (s : Bytes) → bytes_ltb s [] ≡ false
unfolding bytes_ltb
bytes_ltb_empty [] = refl
bytes_ltb_empty (b ∷ s) = refl

rest_of-less :
    (n : ℕ) (admins : List Admin) (y : Admin) (after : List Admin)
    → 0 < n
    → rest_of n admins ≡ y ∷ after
    → length (y ∷ after) < length admins
unfolding rest_of
rest_of-less n [] y after h e = absurd (ground arith)
rest_of-less n (a ∷ admins) y after h e =
    subst (λ l. length l < suc (length admins)) e (rest_of-length n a admins h)

from-empty : (admins : List Admin) → from [] admins ≡ admins
unfolding from
from-empty [] = refl
from-empty (a ∷ admins) = rw (bytes_ltb_empty a.id) refl

from-suffix :
    (cursor : Bytes) (admins : List Admin)
    → (before : List Admin) × (before ++ from cursor admins ≡ admins)
unfolding from
from-suffix cursor [] = ([], refl)
from-suffix cursor (a ∷ admins) = elim (Bool-cases (bytes_ltb a.id cursor)) [
  | inl less ↦
      let (before, e) = from-suffix cursor admins in (a ∷ before, rw less (ap (λ l. a ∷ l) e))
  | inr more ↦ ([], rw more refl)
]

above-member :
    (a y : Admin) (before after : List Admin)
    → All (λ z. bytes_ltb a.id z ≡ true) (map (λ b. b.id) (before ++ y ∷ after))
    → bytes_ltb a.id y.id ≡ true
above-member a y [] after h = h.0
above-member a y (b ∷ before) after h = above-member a y before after h.1

-- From the identifier of an admin of a sorted list on, there are the admin and those behind it.
from-here :
    (y : Admin) (before after : List Admin)
    → IsSorted (before ++ y ∷ after)
    → from y.id (before ++ y ∷ after) ≡ y ∷ after
unfolding from
from-here y [] after s = rw (bytes_ltb_irrefl y.id) refl
from-here y (a ∷ before) after s =
    rw (above-member a y before after s.0) (from-here y before after s.1)

named-member :
    (y : Admin) (before after : List Admin)
    → All (λ a. is_empty a.id ≡ false) (before ++ y ∷ after)
    → is_empty y.id ≡ false
named-member y [] after h = h.0
named-member y (b ∷ before) after h = named-member y before after h.1

module _ (limit : ℤ) (c : Collection) (sorted : IsSorted c.sorted)
    (named : All (λ a. is_empty a.id ≡ false) c.sorted) where
  -- The page and what the client gets behind it.
  page_then :
      (n : ℕ) (cursor : Bytes) (rest : List Admin)
      → ((next : Bytes)
          → length (from next c.sorted) < n
          → all_pages n next limit c ≡ from next c.sorted)
      → length (from cursor c.sorted) < suc n
      → rest_of (limit_of limit) (from cursor c.sorted) ≡ rest
      → (page (limit_of limit) (from cursor c.sorted)).0
          ++ (if is_empty (page (limit_of limit) (from cursor c.sorted)).1
              then []
              else all_pages n (page (limit_of limit) (from cursor c.sorted)).1 limit c)
        ≡ from cursor c.sorted
  unfolding first_id
  page_then n cursor [] behind h e =
      let (parts, next) = page-splits (limit_of limit) (from cursor c.sorted) in
      let last : (page (limit_of limit) (from cursor c.sorted)).1 ≡ [] = next ∙ ap first_id e in
      rw last (ap (λ r. (page (limit_of limit) (from cursor c.sorted)).0 ++ r) (sym e) ∙ parts)
  page_then n cursor (y ∷ after) behind h e =
      let slice : List Admin = (page (limit_of limit) (from cursor c.sorted)).0 in
      let (parts, next) = page-splits (limit_of limit) (from cursor c.sorted) in
      let (before, whole) = from-suffix cursor c.sorted in
      let split : slice ++ y ∷ after ≡ from cursor c.sorted =
        ap (λ r. slice ++ r) (sym e) ∙ parts in
      let all : (before ++ slice) ++ y ∷ after ≡ c.sorted =
        append_assoc before slice (y ∷ after) ∙ ap (λ r. before ++ r) split ∙ whole in
      let here : from y.id c.sorted ≡ y ∷ after =
        subst (λ l. from y.id l ≡ y ∷ after) all
          (from-here y (before ++ slice) after (subst IsSorted (sym all) sorted)) in
      let has_name =
        named-member y (before ++ slice) after
          (subst (All (λ a. is_empty a.id ≡ false)) (sym all) named) in
      let fits =
        rest_of-less (limit_of limit) (from cursor c.sorted) y after (limit-positive limit) e in
      let then_rest = behind y.id (subst (λ l. length l < n) (sym here) (omega arith)) in
      rw (next, ap first_id e, has_name) (ap (λ r. slice ++ r) (then_rest ∙ here) ∙ split)

  all_pages_from :
      (n : ℕ) (cursor : Bytes)
      → length (from cursor c.sorted) < n
      → all_pages n cursor limit c ≡ from cursor c.sorted
  unfolding all_pages
  all_pages_from zero cursor h = absurd (omega arith)
  all_pages_from (suc n) cursor h = rw (find_exact cursor limit c sorted) (
      page_then n cursor (rest_of (limit_of limit) (from cursor c.sorted)) (all_pages_from n) h
        refl)

  -- On a sorted list in which every admin has an identifier, the pages that a client gets by
  -- following the cursors from the empty one are together the list, each admin once and in order.
  pub all_pages-sorted : all_pages (suc (length c.sorted)) [] limit c ≡ c.sorted
  all_pages-sorted =
      all_pages_from (suc (length c.sorted)) []
        (subst (λ l. length l < suc (length c.sorted)) (sym (from-empty c.sorted)) (omega arith))
      ∙ from-empty c.sorted
