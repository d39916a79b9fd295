-- ===== src/Administrator/Remove/Removed.antt =====
-- What `Remove` of authority/administrator/collection.go leaves.
use certificates.Base.{
  ℕ, suc, ◌≡◌, refl, sym, ap, subst, ◌∙◌, inl, inr, Bool, Bool-cases, true, false, ◌&&◌, Option,
  none, some, List, ◌++◌, Bytes, bytes_eq, bytes_eq_iff, bytes_eq_refl, if◌then◌else◌, length, take,
  drop, get_elem?, Outcome, ok, err, arith,
}
use certificates.Administrator.{Admin, Provisioner, Collection, set, set_sub_prov, is_super, is_one}
use certificates.Administrator.Find.Search.{IsSorted}
use certificates.Administrator.Remove.{
  RemoveError, admin_not_found, pred_int, sorted_index, removed, remove_replaced, remove_at,
  remove_from, remove_of, remove_found, remove, replace_loop,
}
use certificates.Administrator.Remove.Without.{Without, take-drop-Without, IsSorted-without}

-- What a removal that returns nil has done.
pub record Removal (provisioners : Bytes → Option Provisioner) (id : Bytes) (c c' : Collection)
    : Type 0 where
  pub adm : Admin
  pub prov : Provisioner
  pub was_there : c.by_id id ≡ some adm
  pub has_provisioner : provisioners adm.provisioner_id ≡ some prov
  pub not_last : (is_super (c.type_of adm.address) && is_one c.super_count) ≡ false
  pub id_gone : c'.by_id adm.id ≡ none
  pub other_ids : (j : Bytes) → bytes_eq j adm.id ≡ false → c'.by_id j ≡ c.by_id j
  pub subject_gone : c'.by_sub_prov adm.subject prov.name ≡ none
  pub in_list : Admin
  pub same_id : in_list.id ≡ adm.id
  pub left_out : Without in_list c.sorted c'.sorted
  pub count_lowered :
      c'.super_count
      ≡ (if is_super (c.type_of adm.address) then pred_int c.super_count else c.super_count)

removed-count :
    (adm : Admin) (prov : Bytes) (i : ℕ) (admins : List Admin) (c : Collection)
    → (removed adm prov i admins c).super_count
      ≡ (if is_super (c.type_of adm.address) then pred_int c.super_count else c.super_count)
unfolding removed
removed-count adm prov i admins c = elim (Bool-cases (is_super (c.type_of adm.address))) [
  | inl super ↦ rw super refl
  | inr plain ↦ rw plain refl
]

removed-maps :
    (adm : Admin) (prov : Bytes) (i : ℕ) (admins : List Admin) (c : Collection)
    → ((removed adm prov i admins c).by_id ≡ set adm.id none c.by_id)
      × ((removed adm prov i admins c).by_sub_prov
          ≡ set_sub_prov adm.subject prov none c.by_sub_prov)
      × ((removed adm prov i admins c).sorted ≡ take i c.sorted ++ drop (suc i) c.sorted)
unfolding removed
removed-maps adm prov i admins c = elim (Bool-cases (is_super (c.type_of adm.address))) [
  | inl super ↦ rw super (refl, refl, refl)
  | inr plain ↦ rw plain (refl, refl, refl)
]

replaced-ok :
    (r : List Admin × Bool) (adm : Admin) (prov : Bytes) (i : ℕ) (c c' : Collection)
    → remove_replaced r adm prov i c ≡ (c', ok tt)
    → (admins : List Admin) × (removed adm prov i admins c ≡ c')
unfolding remove_replaced
replaced-ok (admins, true) adm prov i c c' h = (admins, ap (λ z. z.0) h)
replaced-ok (admins, false) adm prov i c c' h = absurd (ground arith)

at-ok :
    (o : Option Admin) (adm : Admin) (prov : Bytes) (i : ℕ) (admins : List Admin)
    (c c' : Collection)
    → remove_at o adm prov i admins c ≡ (c', ok tt)
    → (a : Admin) × (o ≡ some a)
      × (a.id ≡ adm.id)
      × ((left : List Admin) × (removed adm prov i left c ≡ c'))
unfolding remove_at
at-ok none adm prov i admins c c' h = absurd (ground arith)
at-ok (some a) adm prov i admins c c' h = elim (Bool-cases (bytes_eq a.id adm.id)) [
  | inl same ↦ (
    a,
    refl,
    (bytes_eq_iff a.id adm.id).0 same,
    replaced-ok (replace_loop (length admins) adm.id 0 (admins, false)) adm prov i c c'
        (ground arith),
  )
  | inr other ↦ absurd (ground arith)
]

-- The search of the sorted list succeeded.
abbrev LeftOut : Admin → Bytes → Collection → Collection → Type 0
LeftOut adm prov c c' =
    (a : Admin) × (i : ℕ) × (left : List Admin) × (get_elem? c.sorted i ≡ some a)
    × (a.id ≡ adm.id)
    × (removed adm prov i left c ≡ c')

from-ok :
    (o : Option (List Admin)) (adm : Admin) (prov : Bytes) (c c' : Collection)
    → remove_from o adm prov c ≡ (c', ok tt)
    → LeftOut adm prov c c'
unfolding remove_from
from-ok none adm prov c c' h = absurd (ground arith)
from-ok (some admins) adm prov c c' h =
    let i : ℕ = sorted_index c.sorted adm.id in
    let (a, there, same, (left, e)) = at-ok (get_elem? c.sorted i) adm prov i admins c c' h in
    (a, i, left, there, same, e)

of-ok :
    (o : Option Provisioner) (adm : Admin) (c c' : Collection)
    → remove_of o adm c ≡ (c', ok tt)
    → (prov : Provisioner) × (o ≡ some prov) × LeftOut adm prov.name c c'
unfolding remove_of
of-ok none adm c c' h = absurd (ground arith)
of-ok (some prov) adm c c' h = (prov, refl, from-ok (c.by_prov prov.name) adm prov.name c c' h)

found-ok :
    (provisioners : Bytes → Option Provisioner) (adm : Admin) (c c' : Collection)
    → remove_found provisioners adm c ≡ (c', ok tt)
    → ((is_super (c.type_of adm.address) && is_one c.super_count) ≡ false)
      × ((prov : Provisioner) × (provisioners adm.provisioner_id ≡ some prov)
          × LeftOut adm prov.name c c')
unfolding remove_found
found-ok provisioners adm c c' h =
    elim (Bool-cases (is_super (c.type_of adm.address) && is_one c.super_count)) [
      | inl last ↦ absurd (ground arith)
      | inr more ↦ (more, of-ok (provisioners adm.provisioner_id) adm c c' (ground arith))
    ]

Removal-of :
    (provisioners : Bytes → Option Provisioner) (id : Bytes) (adm : Admin) (c c' : Collection)
    → c.by_id id ≡ some adm
    → remove_found provisioners adm c ≡ (c', ok tt)
    → Removal provisioners id c c'
unfolding set
Removal-of provisioners id adm c c' was h =
    let (more, (prov, known, (a, i, left, there, same, e))) = found-ok provisioners adm c c' h in
    let (ids, subjects, sorted) = removed-maps adm prov.name i left c in
    let without = take-drop-Without c.sorted i a there in
    record {
      adm = adm;
      prov = prov;
      was_there = was;
      has_provisioner = known;
      not_last = more;
      id_gone =
          ap (λ d. d.by_id adm.id) (sym e)
          ∙ ap (λ m. m adm.id) ids
          ∙ rw (bytes_eq_refl adm.id) refl;
      other_ids = λ j d. ap (λ d. d.by_id j) (sym e) ∙ ap (λ m. m j) ids ∙ rw d refl;
      subject_gone =
          ap (λ d. d.by_sub_prov adm.subject prov.name) (sym e)
          ∙ ap (λ m. m adm.subject prov.name) subjects
          ∙ rw (bytes_eq_refl adm.subject, bytes_eq_refl prov.name) refl;
      in_list = a;
      same_id = same;
      left_out = subst (Without a c.sorted) (sym sorted ∙ ap (λ d. d.sorted) e) without;
      count_lowered = ap (λ d. d.super_count) (sym e) ∙ removed-count adm prov.name i left c;
    }

-- Whatever the collection holds, a removal that returns nil took an admin out under its identifier
-- and its subject, left one element with that identifier out of the sorted list and nothing else, was
-- not that of the last super admin by the count, and lowered the count exactly for a super admin.
pub remove-Removal :
    (provisioners : Bytes → Option Provisioner) (id : Bytes) (c c' : Collection)
    → remove provisioners id c ≡ (c', ok tt)
    → Removal provisioners id c c'
unfolding remove
remove-Removal provisioners id c c' h = go (c.by_id id) refl h
  where
    go :
        (o : Option Admin)
        → c.by_id id ≡ o
        → elim o as (λ _. Collection × Outcome RemoveError (Unit {0})) [
          | none ↦ (c, err admin_not_found)
          | some adm ↦ remove_found provisioners adm c
        ]
          ≡ (c', ok tt)
        → Removal provisioners id c c'
    go none was h = absurd (ground arith)
    go (some adm) was h = Removal-of provisioners id adm c c' was h

-- A removal that returns nil keeps the list sorted.
pub remove-IsSorted :
    (provisioners : Bytes → Option Provisioner) (id : Bytes) (c c' : Collection)
    → IsSorted c.sorted
    → remove provisioners id c ≡ (c', ok tt)
    → IsSorted c'.sorted
remove-IsSorted provisioners id c c' s h =
    let w = (remove-Removal provisioners id c c' h).left_out in
    subst IsSorted (sym w.rest) (IsSorted-without w.before _ w.after (subst IsSorted w.whole s))
