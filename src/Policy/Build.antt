-- ===== src/Policy/Build.antt =====
-- `New` of policy/engine.go: options, removal of duplicates, and the counts.
pub mod Counted
use certificates.Base.{
  ℕ, ◌+◌, Bool, false, List, [], ◌∷◌, Bytes, length, Outcome, ok, err, panic, ◌>>=◌,
}
use certificates.Policy.Types.{External}
use certificates.Policy.Engine.{NamePolicyEngine}
use certificates.Policy.Dedupe.{remove_duplicates, remove_duplicate_ip_nets}

-- Why a constraint of the configuration is refused.
pub data ConstraintError : Type 0 where
  empty_constraint wildcard_unsupported empty_labels leading_period : ConstraintError
  inner_wildcard partial_wildcard not_ascii bad_labels : ConstraintError
  too_many_ats bad_mailbox has_scheme square_brackets has_port is_ip bad_cidr : ConstraintError

-- NamePolicyOption
abbrev pub NamePolicyOption : Type 0
NamePolicyOption = NamePolicyEngine → Outcome ConstraintError NamePolicyEngine

-- &NamePolicyEngine{}
abbrev pub zero_engine : NamePolicyEngine
zero_engine = record {
  verify_subject_common_name = false;
  allow_literal_wildcard_names = false;
  permitted_common_names = [];
  excluded_common_names = [];
  permitted_dns_domains = [];
  excluded_dns_domains = [];
  permitted_ip_ranges = [];
  excluded_ip_ranges = [];
  permitted_email_addresses = [];
  excluded_email_addresses = [];
  permitted_uri_domains = [];
  excluded_uri_domains = [];
  permitted_principals = [];
  excluded_principals = [];
  number_of_common_name_constraints = 0;
  number_of_dns_domain_constraints = 0;
  number_of_ip_range_constraints = 0;
  number_of_email_address_constraints = 0;
  number_of_uri_domain_constraints = 0;
  number_of_principal_constraints = 0;
  total_number_of_permitted_constraints = 0;
  total_number_of_excluded_constraints = 0;
  total_number_of_constraints = 0;
}

-- `for _, option := range opts { ... }`
unfoldable pub run_options : List NamePolicyOption → NamePolicyOption
run_options [] e = ok e
run_options (option ∷ opts) e = option e >>= λ e'. run_options opts e'

unfoldable pub without_duplicates : External → NamePolicyEngine → NamePolicyEngine
without_duplicates x e = record e {
  permitted_common_names = remove_duplicates e.permitted_common_names;
  permitted_dns_domains = remove_duplicates e.permitted_dns_domains;
  permitted_ip_ranges = remove_duplicate_ip_nets x e.permitted_ip_ranges;
  permitted_email_addresses = remove_duplicates e.permitted_email_addresses;
  permitted_uri_domains = remove_duplicates e.permitted_uri_domains;
  permitted_principals = remove_duplicates e.permitted_principals;
  excluded_common_names = remove_duplicates e.excluded_common_names;
  excluded_dns_domains = remove_duplicates e.excluded_dns_domains;
  excluded_ip_ranges = remove_duplicate_ip_nets x e.excluded_ip_ranges;
  excluded_email_addresses = remove_duplicates e.excluded_email_addresses;
  excluded_uri_domains = remove_duplicates e.excluded_uri_domains;
  excluded_principals = remove_duplicates e.excluded_principals;
}

abbrev pub permitted_total : NamePolicyEngine → ℕ
permitted_total e =
    length e.permitted_common_names
    + length e.permitted_dns_domains
    + length e.permitted_ip_ranges
    + length e.permitted_email_addresses
    + length e.permitted_uri_domains
    + length e.permitted_principals

abbrev pub excluded_total : NamePolicyEngine → ℕ
excluded_total e =
    length e.excluded_common_names
    + length e.excluded_dns_domains
    + length e.excluded_ip_ranges
    + length e.excluded_email_addresses
    + length e.excluded_uri_domains
    + length e.excluded_principals

unfoldable pub with_counts : NamePolicyEngine → NamePolicyEngine
with_counts e = record e {
  number_of_common_name_constraints =
      length e.permitted_common_names + length e.excluded_common_names;
  number_of_dns_domain_constraints = length e.permitted_dns_domains + length e.excluded_dns_domains;
  number_of_ip_range_constraints = length e.permitted_ip_ranges + length e.excluded_ip_ranges;
  number_of_email_address_constraints =
      length e.permitted_email_addresses + length e.excluded_email_addresses;
  number_of_uri_domain_constraints = length e.permitted_uri_domains + length e.excluded_uri_domains;
  number_of_principal_constraints = length e.permitted_principals + length e.excluded_principals;
  total_number_of_permitted_constraints = permitted_total e;
  total_number_of_excluded_constraints = excluded_total e;
  total_number_of_constraints = permitted_total e + excluded_total e;
}

-- New
unfoldable pub new : External → List NamePolicyOption → Outcome ConstraintError NamePolicyEngine
unfolding run_options without_duplicates with_counts
new x opts = run_options opts zero_engine >>= λ e. ok (with_counts (without_duplicates x e))
