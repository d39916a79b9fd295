-- ===== src/Authority/Examples.antt =====
-- The theorems on the authority's policies at a concrete database, policy and administrator.
mod Store
use certificates.Base.{
  ◌≡◌, ◌↔◌, ◌⊎◌, inl, refl, sym, ap, ◌∙◌, true, false, Option, none, some, [], ◌∷◌, Bytes, codes,
  arith, bytes_eq, bytes_eq_refl, if◌then◌else◌, All, Outcome, ok, err,
}
use certificates.Policy.Types.{External}
use certificates.Acme.Nosql.{Got, found, missing, Swap, swapped, kept, failed, same_key}
use certificates.Authority.Linked.{LinkedPolicy, LinkedAdmin, super_admin}
use certificates.Authority.AdminDb.{AdminKv, authority_policies_table}
use certificates.Authority.AdminDb.Rows.{
  AdminRow, admin_text, policy_text, DbAuthorityPolicy, linked_to_db,
}
use certificates.Authority.AdminDb.Admins.{get_admins, admins_of, unmarshal_db_admin, admin_of_text}
use certificates.Base.{
  to_lower, trim_space, contains, last_index_byte, equal_fold, has_prefix, has_suffix,
}
use certificates.Policy.Labels.{domain_to_reverse_labels}
use certificates.Policy.Matching.{
  late_star, labels_of, blocked_start, match_domain_constraint, match_labels, match_wildcard,
  labels_fold,
}
use certificates.Policy.Constraints.{
  check_name_constraints, check_permitted, permitted_loop, check_excluded,
}
use certificates.Policy.Engine.{validate_names, each, check_dns, dns_to_ascii, check_parsed_dns}
use certificates.Policy.Entry.{SshCertificate, host_cert, are_sans_allowed}
use certificates.Policy.Dedupe.{
  dedupe, dedupe_loop, has_key, remove_duplicates, remove_duplicate_ip_nets,
}
use certificates.Policy.Build.{zero_engine, new, run_options, without_duplicates, with_counts}
use certificates.Policy.Options.{
  normalize_all, with_subject_common_name_verification, with_permitted_common_names,
  with_permitted_dns_domains, with_permitted_ips_or_cidrs, with_permitted_email_addresses,
  with_permitted_uri_domains,
}
use certificates.Policy.Options.Normalize.{normalize_dns_domain, to_ascii, with_labels}
use certificates.Authority.Engine.{
  Engine, is_ssh_certificate_allowed, new_engine, new_x509_policy_engine, new_ssh_policy_engine,
}
use certificates.Authority.AdminDb.{save}
use certificates.Authority.AdminDb.Policies.{
  create_authority_policy as write, delete_authority_policy as delete,
  get_authority_policy as read_authority_policy, read_policy, unmarshal_policy,
}
use certificates.Authority.AdminDb.Policies.Stored.{
  nosql_db, AdminKvLaws, HasOwnId, create_authority_policy-get_authority_policy,
}
use certificates.Authority.Reload.{
  PolicyConfig, PolicyState, create_authority_policy, admin_lock_out, remove_authority_policy,
  check_authority_policy, check_policy, is_allowed, all_allowed, reload_policy_engines,
}
use certificates.Authority.Reload.InForce.{LoadsFromDb, MayBeSigned, CurrentMayBeSigned}
use certificates.Authority.Reload.OverNosql.{
  create_authority_policy-NobodyLockedOut, remove_authority_policy-no_engine,
}
use certificates.Authority.Reload.NoLockOut.{NobodyIsLockedOut, check_policy_exact}
use certificates.Authority.Reload.Failures.{CreationFails, create_authority_policy-CreationFails}
use certificates.Authority.Engine.Exact.{
  NoSshPolicy, PassesOwnType, is_ssh_certificate_allowed_exact,
}
use certificates.Authority.AdminDb.Rows.RoundTrip.{without_empty}
use Store.{
  as_is, home, ann, ann_row, Texts, text_at, put, swap_over, swap_to, one_admin,
  one_admin-AdminKvLaws, from_db, from_db-LoadsFromDb, for_ann, no_policy,
}

abbrev with_policy_of_ann : PolicyState Texts
with_policy_of_ann =
    (create_authority_policy as_is (nosql_db home one_admin) from_db (some ann) (some for_ann)
      no_policy).1

ann-is_listed : (get_admins home one_admin no_policy.admin_state).0 ≡ ok (ann ∷ [])
unfolding get_admins admins_of unmarshal_db_admin admin_of_text bytes_eq
ann-is_listed = refl

for_ann-is_created :
    create_authority_policy as_is
      (nosql_db home one_admin)
      from_db
      (some ann)
      (some for_ann)
      no_policy
    ≡ (ok (some for_ann), with_policy_of_ann)
unfolding with_subject_common_name_verification get_admins admins_of unmarshal_db_admin
    admin_of_text bytes_eq check_authority_policy check_policy create_authority_policy is_allowed
    all_allowed reload_policy_engines new_engine new_x509_policy_engine new_ssh_policy_engine new
    run_options without_duplicates with_counts with_permitted_common_names
    with_permitted_dns_domains with_permitted_ips_or_cidrs with_permitted_email_addresses
    with_permitted_uri_domains normalize_all normalize_dns_domain to_lower trim_space contains
    last_index_byte to_ascii late_star with_labels domain_to_reverse_labels dedupe remove_duplicates
    remove_duplicate_ip_nets dedupe_loop has_key are_sans_allowed validate_names each check_dns
    dns_to_ascii check_parsed_dns check_name_constraints check_permitted permitted_loop
    check_excluded labels_of blocked_start match_domain_constraint match_labels match_wildcard
    labels_fold equal_fold has_prefix has_suffix write save read_authority_policy read_policy
    unmarshal_policy put text_at swap_over swap_to linked_to_db
for_ann-is_created = refl

create_authority_policy-NobodyLockedOut_example :
    All (MayBeSigned as_is with_policy_of_ann.policy_engine) (ann ∷ [])
    × CurrentMayBeSigned as_is with_policy_of_ann.policy_engine (some ann)
create_authority_policy-NobodyLockedOut_example =
    create_authority_policy-NobodyLockedOut as_is home one_admin from_db one_admin-AdminKvLaws
      from_db-LoadsFromDb (some ann) (some for_ann) (some for_ann) no_policy with_policy_of_ann
      (ann ∷ []) ann-is_listed for_ann-is_created

check_policy_exact_example :
    (check_policy as_is (some ann) (ann ∷ []) (some for_ann) ≡ ok tt)
    ↔ NobodyIsLockedOut as_is (some ann) (ann ∷ []) (some for_ann)
check_policy_exact_example = check_policy_exact as_is (some ann) (ann ∷ []) (some for_ann)

-- An engine with a policy for users, and a certificate of a host.
abbrev users_only : Engine
users_only = record {
  x509_policy = none;
  ssh_user_policy = some zero_engine;
  ssh_host_policy = none;
}

abbrev host_certificate : SshCertificate
host_certificate = record { cert_type = host_cert; valid_principals = codes "web" ∷ [] }

is_ssh_certificate_allowed_exact_example :
    (is_ssh_certificate_allowed as_is (some users_only) host_certificate ≡ ok tt)
    ↔ (NoSshPolicy users_only ⊎ PassesOwnType as_is users_only host_certificate)
is_ssh_certificate_allowed_exact_example =
    is_ssh_certificate_allowed_exact as_is users_only host_certificate

abbrev stored_row : DbAuthorityPolicy
stored_row = record { id = home; authority_id = home; policy = none }

abbrev with_row : PolicyState Texts
with_row = record {
  admin_state = put authority_policies_table home (some (policy_text stored_row)) (λ t k. none);
  policy_engine = some users_only;
}

abbrev without_row : PolicyState Texts
without_row = (remove_authority_policy as_is (nosql_db home one_admin) from_db with_row).1

abbrev id_read : {E : Type 0} → Outcome E (Option DbAuthorityPolicy) → Bytes
id_read (ok (some p)) = p.id
id_read _ = []

with_row-HasOwnId : HasOwnId home one_admin with_row.admin_state
unfolding read_policy unmarshal_policy put text_at bytes_eq
with_row-HasOwnId old h = sym (ap id_read h)

with_row-is_removed :
    remove_authority_policy as_is (nosql_db home one_admin) from_db with_row ≡ (ok tt, without_row)
unfolding remove_authority_policy delete read_authority_policy reload_policy_engines new_engine
    read_policy unmarshal_policy save put text_at swap_over swap_to bytes_eq
with_row-is_removed = refl

remove_authority_policy-no_engine_example : without_row.policy_engine ≡ none
remove_authority_policy-no_engine_example =
    remove_authority_policy-no_engine as_is home one_admin from_db one_admin-AdminKvLaws
      from_db-LoadsFromDb with_row without_row with_row-HasOwnId with_row-is_removed

abbrev bob : LinkedAdmin
bob = record ann { subject = codes "bob" }

bob-is_refused :
    create_authority_policy as_is
      (nosql_db home one_admin)
      from_db
      (some bob)
      (some for_ann)
      no_policy
    ≡ (err (admin_lock_out (codes "bob" ∷ [])), no_policy)
unfolding with_subject_common_name_verification get_admins admins_of unmarshal_db_admin
    admin_of_text bytes_eq check_authority_policy check_policy create_authority_policy is_allowed
    all_allowed reload_policy_engines new_engine new_x509_policy_engine new_ssh_policy_engine new
    run_options without_duplicates with_counts with_permitted_common_names
    with_permitted_dns_domains with_permitted_ips_or_cidrs with_permitted_email_addresses
    with_permitted_uri_domains normalize_all normalize_dns_domain to_lower trim_space contains
    last_index_byte to_ascii late_star with_labels domain_to_reverse_labels dedupe remove_duplicates
    remove_duplicate_ip_nets dedupe_loop has_key are_sans_allowed validate_names each check_dns
    dns_to_ascii check_parsed_dns check_name_constraints check_permitted permitted_loop
    check_excluded labels_of blocked_start match_domain_constraint match_labels match_wildcard
    labels_fold equal_fold has_prefix has_suffix write save read_authority_policy read_policy
    unmarshal_policy put text_at swap_over swap_to linked_to_db
bob-is_refused = refl

create_authority_policy-CreationFails_example :
    CreationFails as_is home one_admin from_db
      (some bob)
      (some for_ann)
      no_policy
      no_policy
      (admin_lock_out (codes "bob" ∷ []))
create_authority_policy-CreationFails_example =
    create_authority_policy-CreationFails as_is home one_admin from_db one_admin-AdminKvLaws
      (some bob) (some for_ann) no_policy no_policy (admin_lock_out (codes "bob" ∷ []))
      bob-is_refused

abbrev written : Texts
written = (write home one_admin (some for_ann) (λ t k. none)).1

for_ann-is_written : write home one_admin (some for_ann) (λ t k. none) ≡ (ok tt, written)
unfolding write save put swap_over swap_to
for_ann-is_written = refl

create_authority_policy-get_authority_policy_example :
    read_authority_policy home one_admin written ≡ (ok (without_empty (some for_ann)), written)
create_authority_policy-get_authority_policy_example =
    create_authority_policy-get_authority_policy home one_admin one_admin-AdminKvLaws (some for_ann)
      (λ t k. none) written for_ann-is_written
