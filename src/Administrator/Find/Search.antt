-- ===== src/Administrator/Find/Search.antt =====
-- sort.Search on the sorted list of administrators.
use certificates.Base.{
  ℕ, zero, suc, ◌+◌, ◌/◌, ◌≤◌, ◌<◌, ◌≡◌, refl, ap, ◌∙◌, inl, inr, Bool, Bool-cases, true, false,
  not, List, [], ◌∷◌, Bytes, All, map, if◌then◌else◌, length, drop, arith,
}
use certificates.Acme.Names.{bytes_ltb}
use certificates.Acme.Names.Sorted.{bytes_ltb_trans, IsAscending}
use certificates.Administrator.{Admin}
use certificates.Administrator.Remove.{search_loop, search, at_least, sorted_index}

-- The identifiers of the list ascend.
abbrev pub IsSorted : List Admin → Type 0
IsSorted admins = IsAscending (map (λ a. a.id) admins)

-- The number of admins whose identifier is below the given one, and the others.
unfoldable pub below : Bytes → List Admin → ℕ
below id [] = 0
below id (a ∷ admins) = if bytes_ltb a.id id then suc (below id admins) else 0

unfoldable pub from : Bytes → List Admin → List Admin
from id [] = []
from id (a ∷ admins) = if bytes_ltb a.id id then from id admins else a ∷ admins

at_least_below :
    (id : Bytes) (admins : List Admin) (i : ℕ) → i < below id admins → at_least admins id i ≡ false
unfolding below
at_least_below id [] i h = absurd (omega arith)
at_least_below id (a ∷ admins) zero h = ground arith
at_least_below id (a ∷ admins) (suc i) h = ground (arith, at_least_below id admins i)

-- What is not below the identifier has nothing below it behind.
at_least_behind :
    (id : Bytes) (a : Admin) (admins : List Admin) (i : ℕ)
    → bytes_ltb a.id id ≡ false
    → All (λ y. bytes_ltb a.id y ≡ true) (map (λ b. b.id) admins)
    → at_least admins id i ≡ true
at_least_behind id a [] i h above = refl
at_least_behind id a (b ∷ admins) zero h above = elim (Bool-cases (bytes_ltb b.id id)) [
  | inl less ↦ let all = bytes_ltb_trans a.id b.id id above.0 less in absurd (ground arith)
  | inr more ↦ ap not more
]
at_least_behind id a (b ∷ admins) (suc i) h above = at_least_behind id a admins i h above.1

at_least_above :
    (id : Bytes) (admins : List Admin) (i : ℕ)
    → IsSorted admins
    → below id admins ≤ i
    → at_least admins id i ≡ true
unfolding below
at_least_above id [] i s h = refl
at_least_above id (a ∷ admins) zero s h = ground arith
at_least_above id (a ∷ admins) (suc i) s h =
    ground (arith, at_least_above id admins i s.1, at_least_behind id a admins i)

below-length : (id : Bytes) (admins : List Admin) → below id admins ≤ length admins
unfolding below
below-length id [] = omega arith
below-length id (a ∷ admins) = ground (arith, below-length id admins)

drop-below : (id : Bytes) (admins : List Admin) → drop (below id admins) admins ≡ from id admins
unfolding below from
drop-below id [] = refl
drop-below id (a ∷ admins) = elim (Bool-cases (bytes_ltb a.id id)) [
  | inl less ↦ rw (less) (drop-below id admins)
  | inr more ↦ rw (more) refl
]

search_loop-finds :
    (f : ℕ → Bool) (k n i j : ℕ)
    → ((m : ℕ) → m < k → f m ≡ false)
    → ((m : ℕ) → k ≤ m → f m ≡ true)
    → i ≤ k
    → k ≤ j
    → j ≤ i + n
    → search_loop f n i j ≡ k
unfolding search_loop
search_loop-finds f k zero i j low high h1 h2 h3 = omega arith
search_loop-finds f k (suc n) i j low high h1 h2 h3 =
    let h : ℕ = (i + j) / 2 in
    elim (Bool-cases (f h)) [
      | inl yes_there ↦
          let upper : k ≤ h = ground (arith, low h) in
          let rest = search_loop-finds f k n i h low high h1 upper in ground arith
      | inr not_there ↦
          let lower : h < k = ground (arith, high h) in
          let rest = search_loop-finds f k n (suc h) j low high (omega arith) h2 in ground arith
    ]

-- The search finds the first admin whose identifier is not below the given one.
pub drop-sorted_index :
    (id : Bytes) (admins : List Admin)
    → IsSorted admins
    → drop (sorted_index admins id) admins ≡ from id admins
unfolding sorted_index search
drop-sorted_index id admins s =
    ap (λ n. drop n admins)
      (search_loop-finds (at_least admins id) (below id admins) (length admins) 0 (length admins)
        (at_least_below id admins) (λ m. at_least_above id admins m s) (omega arith)
        (below-length id admins) (omega arith))
    ∙ drop-below id admins
