-- ===== src/Acme/Nosql/Keys/Lists.antt =====
-- sliceIndex and removeElement of acme/db/nosql/eab.go, and the search of addEAKID.
use certificates.Base.{
  ℕ, suc, Bool, false, ◌||◌, Option, some, none, List, [], ◌∷◌, ◌++◌, Bytes, take, drop, bytes_eq,
  if◌then◌else◌,
}

-- The loop of addEAKID over the identifiers.
abbrev pub has_id : List Bytes → Bytes → Bool
has_id [] item = false
has_id (id ∷ ids) item = bytes_eq id item || has_id ids item

-- `none` is -1.
abbrev pub slice_index : List Bytes → Bytes → Option ℕ
slice_index [] item = none
slice_index (id ∷ ids) item =
    let rest = slice_index ids item in
    if bytes_eq id item then some 0 else elim rest [ some i ↦ some (suc i) | none ↦ none ]

abbrev pub remove_element : List Bytes → Bytes → List Bytes
remove_element ids item = elim (slice_index ids item) [
  | none ↦ ids
  | some i ↦ take i ids ++ drop (suc i) ids
]
