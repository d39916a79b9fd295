-- ===== src/Acme/Nosql/Keys/Removal.antt =====
-- The lists of identifiers that addEAKID and deleteEAKID of acme/db/nosql/eab.go store: what
-- removeElement and append do to them.
use certificates.Base.{
  ◌≡◌, refl, sym, ap, ◌∙◌, subst, inl, inr, true, false, ◌&&◌, ◌||◌, not, Bool-cases, List, [], ◌∷◌,
  ◌++◌, Bytes, bytes_eq, bytes_eq_iff, arith,
}
use certificates.Acme.Nosql.Keys.Lists.{has_id, remove_element}

-- No identifier occurs twice.
abbrev pub Distinct : List Bytes → Type 0
Distinct [] = Unit {0}
Distinct (id ∷ ids) = (has_id ids id ≡ false) × Distinct ids

pub remove_element-here :
    (id e : Bytes) (ids : List Bytes) → bytes_eq id e ≡ true → remove_element (id ∷ ids) e ≡ ids
remove_element-here id e ids h = ground arith

pub remove_element-later :
    (id e : Bytes) (ids : List Bytes)
    → bytes_eq id e ≡ false
    → remove_element (id ∷ ids) e ≡ id ∷ remove_element ids e
remove_element-later id e ids h = ground arith

pub has_id-append :
    (ids : List Bytes) (e id : Bytes) → has_id (ids ++ e ∷ []) id ≡ (has_id ids id || bytes_eq e id)
has_id-append [] e id = ground arith
has_id-append (i ∷ ids) e id = ground (arith, has_id-append ids e id)

pub bytes_eq_sym : (a b : Bytes) → bytes_eq a b ≡ bytes_eq b a
bytes_eq_sym a b = elim (Bool-cases (bytes_eq a b)) [
  | inl h ↦ h ∙ sym ((bytes_eq_iff b a).1 (sym ((bytes_eq_iff a b).0 h)))
  | inr h ↦ elim (Bool-cases (bytes_eq b a)) [
    | inl k ↦ h ∙ absurd (ground (arith, (bytes_eq_iff a b).1 (sym ((bytes_eq_iff b a).0 k))))
    | inr k ↦ h ∙ sym k
  ]
]

pub bytes_eq_common :
    (a b c : Bytes) → bytes_eq a c ≡ true → bytes_eq b c ≡ true → bytes_eq a b ≡ true
bytes_eq_common a b c h k =
    (bytes_eq_iff a b).1 ((bytes_eq_iff a c).0 h ∙ sym ((bytes_eq_iff b c).0 k))

pub Distinct-append :
    (ids : List Bytes) (e : Bytes) → Distinct ids → has_id ids e ≡ false → Distinct (ids ++ e ∷ [])
Distinct-append [] e d h = (refl, tt)
Distinct-append (i ∷ ids) e d h = (
  ground (arith, has_id-append ids e i, bytes_eq_sym i e),
  Distinct-append ids e d.1 (ground arith),
)

-- A list without repetitions loses exactly the identifier.
pub has_id-remove :
    (ids : List Bytes) (e id : Bytes)
    → Distinct ids
    → has_id (remove_element ids e) id ≡ (has_id ids id && not (bytes_eq e id))
has_id-remove [] e id d = refl
has_id-remove (i ∷ ids) e id d = elim (Bool-cases (bytes_eq i e)) [
  | inl b ↦
      let same : i ≡ e = (bytes_eq_iff i e).0 b in
      let fresh : has_id ids e ≡ false = subst (λ x. has_id ids x ≡ false) same d.0 in
      let r : has_id (remove_element (i ∷ ids) e) id ≡ has_id ids id =
        ap (λ l. has_id l id) (remove_element-here i e ids b) in
      (elim (Bool-cases (bytes_eq e id)) [
        | inl c ↦
            let k : has_id ids id ≡ false =
              subst (λ x. has_id ids x ≡ false) ((bytes_eq_iff e id).0 c) fresh in
            r ∙ ground arith
        | inr c ↦ r ∙ ground (arith, same)
      ])
  | inr b ↦
      ap (λ l. has_id l id) (remove_element-later i e ids b)
      ∙ ground (arith, has_id-remove ids e id d.1, bytes_eq_common i e id)
]

pub Distinct-remove :
    (ids : List Bytes) (e : Bytes) → Distinct ids → Distinct (remove_element ids e)
Distinct-remove [] e d = tt
Distinct-remove (i ∷ ids) e d = elim (Bool-cases (bytes_eq i e)) [
  | inl b ↦ subst Distinct (sym (remove_element-here i e ids b)) d.1
  | inr b ↦
      subst Distinct (sym (remove_element-later i e ids b))
        (ground (arith, has_id-remove ids e i d.1), Distinct-remove ids e d.1)
]
