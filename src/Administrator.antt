-- ===== src/Administrator.antt =====
-- The administrators of authority/administrator/: the maps of `Collection` with `Store`, `Update`,
-- the loads and the counts of collection.go; `Remove` and `Find` are in modules of their own. A map is a function from keys to values. An admin is a
-- pointer that all maps share: `type_of` of the collection holds the one field that changes.
pub mod Stored
pub mod Remove
pub mod Find
mod Examples
use certificates.Base.{
  ℕ, Bool, true, false, ◌&&◌, Option, some, none, List, [], ◌∷◌, ◌++◌, Bytes, ◌==◌, if◌then◌else◌,
  bytes_eq, Outcome, ok, err, panic, ℤ, pos, negsuc, suc, zero,
}
use certificates.Acme.Names.{bytes_ltb}

pub data AdminType : Type 0 where
  unknown admin super_admin : AdminType

-- linkedca.Admin; `address` tells pointers apart.
pub record Admin : Type 0 where
  pub address : ℕ
  pub id : Bytes
  pub provisioner_id : Bytes
  pub subject : Bytes

-- What the collection asks of a provisioner.
pub record Provisioner : Type 0 where
  pub prov_id : Bytes
  pub name : Bytes

pub data AdminError : Type 0 where
  wrong_provisioner same_id same_subject last_super_admin : AdminError

pub record Collection : Type 0 where
  pub by_id : Bytes → Option Admin
  pub by_sub_prov : Bytes → Bytes → Option Admin
  pub by_prov : Bytes → Option (List Admin)
  pub sorted : List Admin
  pub super_count : ℤ
  pub super_count_by_provisioner : Bytes → Option ℤ
  pub type_of : ℕ → AdminType

-- m[k] = v, and delete(m, k) where v is `none`
unfoldable pub set : {A : Type 0} → Bytes → Option A → (Bytes → Option A) → Bytes → Option A
set k v m j = if bytes_eq j k then v else m j

abbrev pub set_sub_prov :
    Bytes → Bytes → Option Admin → (Bytes → Bytes → Option Admin) → Bytes → Bytes → Option Admin
set_sub_prov sub prov v m s p = if bytes_eq s sub && bytes_eq p prov then v else m s p

abbrev succ_int : ℤ → ℤ
succ_int (pos n) = pos (suc n)
succ_int (negsuc zero) = pos 0
succ_int (negsuc (suc n)) = negsuc n

unfoldable pub is_super : AdminType → Bool
is_super super_admin = true
is_super _ = false

-- sort.Sort on adminSlice
unfoldable pub insert_admin : Admin → List Admin → List Admin
insert_admin adm [] = adm ∷ []
insert_admin adm (a ∷ admins) =
    if bytes_ltb a.id adm.id then a ∷ insert_admin adm admins else adm ∷ a ∷ admins

unfoldable pub sort_admins : List Admin → List Admin
sort_admins [] = []
sort_admins (a ∷ admins) = insert_admin a (sort_admins admins)

abbrev pub load_by_provisioner : Bytes → Collection → List Admin
load_by_provisioner prov c = elim (c.by_prov prov) [ none ↦ [] | some admins ↦ admins ]

-- SuperCountByProvisioner
abbrev pub super_count_of : Bytes → Collection → ℤ
super_count_of prov c = elim (c.super_count_by_provisioner prov) [ none ↦ pos 0 | some n ↦ n ]

-- The count of super admins of a provisioner after a super admin was added.
next_count : Option (List Admin) → Bytes → Collection → ℤ
next_count none prov c = pos 1
next_count (some admins) prov c = succ_int (super_count_of prov c)

abbrev counted : Bytes → Collection → Collection
counted prov c = record c {
  super_count = succ_int c.super_count;
  super_count_by_provisioner =
      set prov (some (next_count (c.by_prov prov) prov c)) c.super_count_by_provisioner;
}

-- From the test for the type on; the two maps by keys have the admin already.
unfoldable pub add_to_lists : Admin → Bytes → Collection → Collection
unfolding is_super next_count
add_to_lists adm prov c =
    let c1 = if is_super (c.type_of adm.address) then counted prov c else c in
    record c1 {
      by_prov = set prov (some (load_by_provisioner prov c ++ adm ∷ [])) c.by_prov;
      sorted = sort_admins (c.sorted ++ adm ∷ []);
    }

-- The second LoadOrStore; a failure takes the admin out of `byID` again.
unfoldable pub store_sub_prov :
    Option Admin → Admin → Bytes → Collection → Collection × Outcome AdminError (Unit {0})
store_sub_prov (some other) adm prov c =
    (record c { by_id = set adm.id none c.by_id }, err same_subject)
store_sub_prov none adm prov c = (
  add_to_lists adm prov
      (record c { by_sub_prov = set_sub_prov adm.subject prov (some adm) c.by_sub_prov }),
  ok tt,
)

-- The first LoadOrStore.
unfoldable pub store_id :
    Option Admin → Admin → Bytes → Collection → Collection × Outcome AdminError (Unit {0})
store_id (some other) adm prov c = (c, err same_id)
store_id none adm prov c =
    store_sub_prov (c.by_sub_prov adm.subject prov) adm prov
      (record c { by_id = set adm.id (some adm) c.by_id })

unfoldable pub store : Admin → Provisioner → Collection → Collection × Outcome AdminError (Unit {0})
store adm prov c =
    if bytes_eq adm.provisioner_id prov.prov_id
    then store_id (c.by_id adm.id) adm prov.name c
    else (c, err wrong_provisioner)

same_type : AdminType → AdminType → Bool
same_type unknown unknown = true
same_type admin admin = true
same_type super_admin super_admin = true
same_type _ _ = false

unfoldable pub is_one : ℤ → Bool
is_one (pos n) = n == 1
is_one (negsuc n) = false

-- `adm.Type = nu.Type`, where the pointer is shared
set_type : ℕ → AdminType → (ℕ → AdminType) → ℕ → AdminType
set_type a t types b = if b == a then t else types b

unfoldable pub update_found : Admin → AdminType → Collection → Collection × Outcome AdminError Admin
unfolding same_type is_super is_one set_type
update_found adm t c =
    if same_type (c.type_of adm.address) t
    then (c, ok adm)
    else if is_super (c.type_of adm.address) && is_one c.super_count
    then (c, err last_super_admin)
    else (record c { type_of = set_type adm.address t c.type_of }, ok adm)

-- Update; where there is no admin of the identifier the code reads `adm.Id` of a nil `adm`.
unfoldable pub update : Bytes → AdminType → Collection → Collection × Outcome AdminError Admin
update id t c = elim (c.by_id id) [ none ↦ (c, panic) | some adm ↦ update_found adm t c ]
