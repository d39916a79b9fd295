-- ===== src/Administrator/Examples.antt =====
-- The theorems on authority/administrator/ at a collection with two super admins.
use certificates.Base.{
  Bytes, All, Option, is_empty, false, ◌≡◌, refl, none, some, [], ◌∷◌, codes, ok, err, pos,
  bytes_eq,
}
use certificates.Administrator.{
  set, store_sub_prov, admin, super_admin, Admin, Provisioner, same_subject, Collection, store,
  store_id, update, update_found,
}
use certificates.Acme.Names.{bytes_ltb}
use certificates.Administrator.{is_super, is_one}
use certificates.Administrator.Remove.{
  remove, remove_found, remove_of, remove_from, remove_at, remove_replaced, replace_loop,
  replace_found, set_at, last_of, sorted_index, search, search_loop,
}
use certificates.Administrator.Remove.Removed.{Removal, remove-Removal}
use certificates.Administrator.Find.Search.{IsSorted}
use certificates.Administrator.Find.Pages.{all_pages, all_pages-sorted}
use certificates.Administrator.Stored.{update_counts}

abbrev joe : Admin
joe = record { address = 0; id = codes "a"; provisioner_id = codes "p"; subject = codes "joe" }

abbrev company : Provisioner
company = record { prov_id = codes "p"; name = codes "company" }

abbrev ann : Admin
ann = record { address = 1; id = codes "b"; provisioner_id = codes "p"; subject = codes "ann" }

abbrev two_admins : Collection
two_admins = record {
  by_id = set (codes "a") (some joe) (set (codes "b") (some ann) (λ id. none));
  by_sub_prov =
      λ sub prov. set (codes "joe") (some joe) (set (codes "ann") (some ann) (λ s. none)) sub;
  by_prov = set (codes "company") (some (joe ∷ ann ∷ [])) (λ prov. none);
  sorted = joe ∷ ann ∷ [];
  super_count = pos 2;
  super_count_by_provisioner = set (codes "company") (some (pos 2)) (λ prov. none);
  type_of = λ address. super_admin;
}

-- The same subject under a new identifier.
abbrev second_joe : Admin
second_joe = record {
  address = 2;
  id = codes "c";
  provisioner_id = codes "p";
  subject = codes "joe";
}

abbrev refused : Collection
refused = (store second_joe company two_admins).0

second_joe-store : store second_joe company two_admins ≡ (refused, err same_subject)
unfolding store store_id store_sub_prov set bytes_eq
second_joe-store = refl

abbrev demoted : Collection
demoted = (update (codes "a") admin two_admins).0

joe-update : update (codes "a") admin two_admins ≡ (demoted, ok joe)
unfolding update update_found set bytes_eq
joe-update = refl

update_counts_example :
    (two_admins.by_id (codes "a") ≡ some joe)
    × (demoted.type_of joe.address ≡ admin)
    × (demoted.super_count ≡ two_admins.super_count)
    × (demoted.super_count_by_provisioner ≡ two_admins.super_count_by_provisioner)
update_counts_example = update_counts (codes "a") admin two_admins demoted joe joe-update

two_admins-IsSorted : IsSorted two_admins.sorted
unfolding bytes_ltb
two_admins-IsSorted = ((refl, tt), (tt, tt))

two_admins-named : All (λ (a : Admin). is_empty a.id ≡ false) two_admins.sorted
two_admins-named = (refl, (refl, tt))

all_pages-sorted_example : all_pages 3 [] (pos 1) two_admins ≡ two_admins.sorted
all_pages-sorted_example = all_pages-sorted (pos 1) two_admins two_admins-IsSorted two_admins-named

abbrev companies : Bytes → Option Provisioner
companies id = some company

abbrev without_ann : Collection
without_ann = (remove companies (codes "b") two_admins).0

ann-is_removed : remove companies (codes "b") two_admins ≡ (without_ann, ok tt)
unfolding remove remove_found remove_of remove_from remove_at remove_replaced replace_loop
    replace_found set_at last_of sorted_index search search_loop set bytes_eq bytes_ltb is_super
    is_one
ann-is_removed = refl

remove-Removal_example : Removal companies (codes "b") two_admins without_ann
remove-Removal_example = remove-Removal companies (codes "b") two_admins without_ann ann-is_removed
