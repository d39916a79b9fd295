-- ===== src/Administrator/Remove.antt =====
-- `Remove` of authority/administrator/collection.go, and sort.Search of the standard library, which
-- it calls. The collection of provisioners is an argument.
pub mod Without
pub mod Removed
use certificates.Base.{
  ℕ, zero, suc, ◌+◌, ◌-◌, ◌/◌, Bool, true, false, ◌&&◌, not, Option, none, some, List, [], ◌∷◌,
  ◌++◌, Bytes, ltb, ◌==◌, if◌then◌else◌, bytes_eq, length, get_elem?, take, drop, Outcome, ok, err,
  panic, ℤ, pos, negsuc,
}
use certificates.Acme.Names.{bytes_ltb}
use certificates.Administrator.{
  AdminType, Admin, Provisioner, Collection, set, set_sub_prov, is_super, is_one, super_count_of,
}

pub data RemoveError : Type 0 where
  admin_not_found last_super_admin provisioner_not_found admins_not_found : RemoveError
  not_in_sorted_list not_in_provisioner_list : RemoveError

abbrev pred_int : ℤ → ℤ
pred_int (pos zero) = negsuc zero
pred_int (pos (suc n)) = pos n
pred_int (negsuc n) = negsuc (suc n)

-- The loop of sort.Search; each round halves the range, so its length is fuel enough.
unfoldable pub search_loop : (ℕ → Bool) → ℕ → ℕ → ℕ → ℕ
search_loop f zero i j = i
search_loop f (suc n) i j =
    let h = (i + j) / 2 in
    let (i', j') : ℕ × ℕ = if f h then (i, h) else (suc h, j) in
    let rest = search_loop f n i' j' in if ltb i j then rest else i

unfoldable pub search : ℕ → (ℕ → Bool) → ℕ
unfolding search_loop
search n f = search_loop f n 0 n

-- `c.sorted[i].Id >= id`; the search asks for no index out of range.
abbrev pub at_least : List Admin → Bytes → ℕ → Bool
at_least sorted id i = elim (get_elem? sorted i) [ none ↦ true | some a ↦ not (bytes_ltb a.id id) ]

unfoldable pub sorted_index : List Admin → Bytes → ℕ
sorted_index sorted id = search (length sorted) (at_least sorted id)

-- `s[i] = a`
unfoldable pub set_at : ℕ → Admin → List Admin → List Admin
set_at i a [] = []
set_at zero a (x ∷ xs) = a ∷ xs
set_at (suc i) a (x ∷ xs) = x ∷ set_at i a xs

-- `s[len(s)-1]`, of a slice that starts with the admin
unfoldable pub last_of : Admin → List Admin → Admin
last_of a [] = a
last_of a (x ∷ xs) = last_of x xs

-- One round of the loop over `adminsByProv`, which reads the slice that earlier rounds wrote.
unfoldable pub replace_found : Option Admin → Bytes → ℕ → List Admin × Bool → List Admin × Bool
unfolding set_at last_of
replace_found none id i (admins, found) = (admins, found)
replace_found (some a) id i ([], found) = ([], found)
replace_found (some a) id i (x ∷ admins, found) =
    if bytes_eq a.id id
    then (set_at i (last_of x admins) (x ∷ admins), true)
    else (x ∷ admins, found)

-- The rounds that are left, and the index.
unfoldable pub replace_loop : ℕ → Bytes → ℕ → List Admin × Bool → List Admin × Bool
unfolding replace_found
replace_loop zero id i (admins, found) = (admins, found)
replace_loop (suc n) id i (admins, found) =
    replace_loop n id (suc i) (replace_found (get_elem? admins i) id i (admins, found))

-- From the removal from the sorted list on; the slice of the provisioner loses its last element.
unfoldable pub removed : Admin → Bytes → ℕ → List Admin → Collection → Collection
removed adm prov index admins c =
    let c1 = record c {
      by_prov = set prov (some (take (length admins - 1) admins)) c.by_prov;
      sorted = take index c.sorted ++ drop (suc index) c.sorted;
      by_id = set adm.id none c.by_id;
      by_sub_prov = set_sub_prov adm.subject prov none c.by_sub_prov;
    } in
    if is_super (c.type_of adm.address)
    then record c1 {
      super_count = pred_int c.super_count;
      super_count_by_provisioner =
          set prov (some (pred_int (super_count_of prov c))) c.super_count_by_provisioner;
    }
    else c1

unfoldable pub remove_replaced :
    List Admin × Bool → Admin → Bytes → ℕ → Collection → Collection × Outcome RemoveError (Unit {0})
remove_replaced (admins, found) adm prov index c =
    if found then (removed adm prov index admins c, ok tt) else (c, err not_in_provisioner_list)

-- The admin at the index of the search; an index at the end of the list panics.
unfoldable pub remove_at :
    Option Admin
    → Admin
    → Bytes
    → ℕ
    → List Admin
    → Collection
    → Collection × Outcome RemoveError (Unit {0})
unfolding remove_replaced
remove_at none adm prov index admins c = (c, panic)
remove_at (some a) adm prov index admins c =
    if bytes_eq a.id adm.id
    then remove_replaced (replace_loop (length admins) adm.id 0 (admins, false)) adm prov index c
    else (c, err not_in_sorted_list)

unfoldable pub remove_from :
    Option (List Admin) → Admin → Bytes → Collection → Collection × Outcome RemoveError (Unit {0})
unfolding remove_at
remove_from none adm prov c = (c, err admins_not_found)
remove_from (some admins) adm prov c =
    let index = sorted_index c.sorted adm.id in
    remove_at (get_elem? c.sorted index) adm prov index admins c

unfoldable pub remove_of :
    Option Provisioner → Admin → Collection → Collection × Outcome RemoveError (Unit {0})
unfolding remove_from
remove_of none adm c = (c, err provisioner_not_found)
remove_of (some prov) adm c = remove_from (c.by_prov prov.name) adm prov.name c

unfoldable pub remove_found :
    (Bytes → Option Provisioner) → Admin → Collection → Collection × Outcome RemoveError (Unit {0})
unfolding remove_of
remove_found provisioners adm c =
    if is_super (c.type_of adm.address) && is_one c.super_count
    then (c, err last_super_admin)
    else remove_of (provisioners adm.provisioner_id) adm c

unfoldable pub remove :
    (Bytes → Option Provisioner) → Bytes → Collection → Collection × Outcome RemoveError (Unit {0})
unfolding remove_found
remove provisioners id c = elim (c.by_id id) [
  | none ↦ (c, err admin_not_found)
  | some adm ↦ remove_found provisioners adm c
]
