-- ===== src/Administrator/Stored.antt =====
-- `Store` and `Update` of authority/administrator/collection.go.
use certificates.Base.{
  ◌≡◌, inl, inr, refl, true, Option, none, some, Bytes, arith, bytes_eq, bytes_eq_iff, ok, err,
  Bool-cases, Option-cases, ==_refl, ◌&&◌, sym, ap, ap₂, ℕ, subst, ◌∙◌,
}
use certificates.Administrator.{
  AdminType, Admin, Provisioner, AdminError, Collection, set, is_super, same_type, set_type, is_one,
  store_sub_prov, store_id, store, update_found, update,
}

-- Two collections that answer every call alike.
pub record SameLoads (c d : Collection) : Type 0 where
  pub same_ids : (id : Bytes) → c.by_id id ≡ d.by_id id
  pub same_subjects : (sub prov : Bytes) → c.by_sub_prov sub prov ≡ d.by_sub_prov sub prov
  pub same_provisioners : (prov : Bytes) → c.by_prov prov ≡ d.by_prov prov
  pub same_sorted : c.sorted ≡ d.sorted
  pub same_count : c.super_count ≡ d.super_count

SameLoads-refl : (c : Collection) → SameLoads c c
SameLoads-refl c = record {
  same_ids = λ id. refl;
  same_subjects = λ sub prov. refl;
  same_provisioners = λ prov. refl;
  same_sorted = refl;
  same_count = refl;
}

-- Taking out a key that was put in over nothing.
set_undone :
    {A : Type 0} (k : Bytes) (v : A) (m : Bytes → Option A) (j : Bytes)
    → m k ≡ none
    → set k none (set k (some v) m) j ≡ m j
unfolding set
set_undone k v m j absent = elim (Bool-cases (bytes_eq j k)) [
  | inl e ↦ rw e (sym (ap m ((bytes_eq_iff j k).0 e) ∙ absent))
  | inr e ↦ rw e refl
]

abbrev entered : Admin → Collection → Collection
entered adm c = record c { by_id = set adm.id (some adm) c.by_id }

store_sub_prov-SameLoads :
    (o : Option Admin) (adm : Admin) (prov : Bytes) (c c' : Collection) (e : AdminError)
    → c.by_id adm.id ≡ none
    → store_sub_prov o adm prov (entered adm c) ≡ (c', err e)
    → SameLoads c' c
unfolding store_sub_prov
store_sub_prov-SameLoads none adm prov c c' e absent h = absurd (cc)
store_sub_prov-SameLoads (some other) adm prov c c' e absent h =
    let same : record (entered adm c) { by_id = set adm.id none (entered adm c).by_id } ≡ c' =
      ground arith in
    subst (λ d. SameLoads d c) same
      (record {
        same_ids = λ id. set_undone adm.id adm c.by_id id absent;
        same_subjects = λ sub prov. refl;
        same_provisioners = λ prov. refl;
        same_sorted = refl;
        same_count = refl;
      })

store_id-SameLoads :
    (o : Option Admin) (adm : Admin) (prov : Bytes) (c c' : Collection) (e : AdminError)
    → c.by_id adm.id ≡ o
    → store_id o adm prov c ≡ (c', err e)
    → SameLoads c' c
unfolding store_id
store_id-SameLoads (some other) adm prov c c' e p h =
    subst (λ d. SameLoads d c) (ground arith) (SameLoads-refl c)
store_id-SameLoads none adm prov c c' e p h =
    store_sub_prov-SameLoads (c.by_sub_prov adm.subject prov) adm prov c c' e p h

-- A `Store` that returns an error leaves every load, the sorted list and the count as they were,
-- also where the identifier had been entered already and is taken out again.
pub store-SameLoads :
    (adm : Admin) (prov : Provisioner) (c c' : Collection) (e : AdminError)
    → store adm prov c ≡ (c', err e)
    → SameLoads c' c
unfolding store
store-SameLoads adm prov c c' e h = elim (Bool-cases (bytes_eq adm.provisioner_id prov.prov_id)) [
  | inr apart ↦ subst (λ d. SameLoads d c) (ground arith) (SameLoads-refl c)
  | inl same ↦ store_id-SameLoads (c.by_id adm.id) adm prov.name c c' e refl (rw same at h)
]

same_type-eq : (a b : AdminType) → same_type a b ≡ true → a ≡ b
unfolding same_type
same_type-eq a b h = ground arith

set_type-same : (a : ℕ) (t : AdminType) (types : ℕ → AdminType) → set_type a t types a ≡ t
unfolding set_type
set_type-same a t types = rw (==_refl a) refl

update_found-counts :
    (found : Admin) (t : AdminType) (c c' : Collection) (adm : Admin)
    → update_found found t c ≡ (c', ok adm)
    → (found ≡ adm)
      × (c'.type_of adm.address ≡ t)
      × (c'.super_count ≡ c.super_count)
      × (c'.super_count_by_provisioner ≡ c.super_count_by_provisioner)
unfolding update_found set_type
update_found-counts found t c c' adm h = elim (Bool-cases (same_type (c.type_of found.address) t)) [
  | inl kept ↦
      let a : found ≡ adm = ground arith in
      let b : c ≡ c' = ground arith in
      (
        a,
        ap₂ (λ (d : Collection) (m : Admin). d.type_of m.address) (sym b) (sym a)
            ∙ same_type-eq (c.type_of found.address) t kept,
        ap (λ (d : Collection). d.super_count) (sym b),
        ap (λ (d : Collection). d.super_count_by_provisioner) (sym b),
      )
  | inr changed ↦ elim (Bool-cases (is_super (c.type_of found.address) && is_one c.super_count)) [
    | inl last ↦ absurd (ground arith)
    | inr fine ↦
        let a : found ≡ adm = ground arith in
        let b : record c { type_of = set_type found.address t c.type_of } ≡ c' = ground arith in
        (
          a,
          ap₂ (λ (d : Collection) (m : Admin). d.type_of m.address) (sym b) (sym a)
              ∙ set_type-same found.address t c.type_of,
          ap (λ (d : Collection). d.super_count) (sym b),
          ap (λ (d : Collection). d.super_count_by_provisioner) (sym b),
        )
  ]
]

-- An `Update` that returns an admin found it by its identifier and gave it the new type, and left
-- the counts of super admins as they were, whatever the type was before.
pub update_counts :
    (id : Bytes) (t : AdminType) (c c' : Collection) (adm : Admin)
    → update id t c ≡ (c', ok adm)
    → (c.by_id id ≡ some adm)
      × (c'.type_of adm.address ≡ t)
      × (c'.super_count ≡ c.super_count)
      × (c'.super_count_by_provisioner ≡ c.super_count_by_provisioner)
unfolding update
update_counts id t c c' adm h = elim (Option-cases (c.by_id id)) [
  | inl absent ↦ absurd (ground arith)
  | inr (found, e) ↦
      let (same, typed, count, counts) =
        update_found-counts found t c c' adm (rw (e, update) at h) in
      (e ∙ ap (λ (a : Admin). some a) same, typed, count, counts)
]
