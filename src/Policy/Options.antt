-- ===== src/Policy/Options.antt =====
-- The options of policy/options.go: each one normalises and checks the texts of the configuration
-- and sets one list of the engine.
pub mod Normalize
pub mod Sound
use certificates.Base.{
  ℕ, Bool, true, false, ◌&&◌, ◌||◌, not, Option, none, some, List, [], ◌∷◌, ◌++◌, Bytes, codes, ltb,
  ◌==◌, if◌then◌else◌, Outcome, ok, err, panic, ◌>>=◌,
}
use certificates.Policy.Types.{External, IpNet, Ip}
use certificates.Policy.Network.{network_for}
use certificates.Policy.Engine.{NamePolicyEngine}
use certificates.Policy.Build.{ConstraintError, NamePolicyOption, bad_cidr}
use Normalize.{normalize_common_name, normalize_dns_domain, normalize_email, normalize_uri_domain}

-- The loop of an option over its arguments.
unfoldable pub normalize_all :
    {A : Type 0}
    → (Bytes → Outcome ConstraintError A)
    → List Bytes
    → Outcome ConstraintError (List A)
normalize_all f [] = ok []
normalize_all f (s ∷ texts) =
    let rest = normalize_all f texts in f s >>= λ a. (rest >>= λ as'. ok (a ∷ as'))

unfoldable pub with_subject_common_name_verification : NamePolicyOption
with_subject_common_name_verification e = ok (record e { verify_subject_common_name = true })

unfoldable pub with_allow_literal_wildcard_names : NamePolicyOption
with_allow_literal_wildcard_names e = ok (record e { allow_literal_wildcard_names = true })

unfoldable pub with_permitted_common_names : List Bytes → NamePolicyOption
with_permitted_common_names common_names e = do
  names ← normalize_all normalize_common_name common_names
  ok (record e { permitted_common_names = names })

unfoldable pub with_excluded_common_names : List Bytes → NamePolicyOption
with_excluded_common_names common_names e = do
  names ← normalize_all normalize_common_name common_names
  ok (record e { excluded_common_names = names })

unfoldable pub with_permitted_principals : List Bytes → NamePolicyOption
with_permitted_principals principals e = ok (record e { permitted_principals = principals })

unfoldable pub with_excluded_principals : List Bytes → NamePolicyOption
with_excluded_principals principals e = ok (record e { excluded_principals = principals })

unfoldable pub with_permitted_ip_ranges : List IpNet → NamePolicyOption
with_permitted_ip_ranges ranges e = ok (record e { permitted_ip_ranges = ranges })

unfoldable pub with_excluded_ip_ranges : List IpNet → NamePolicyOption
with_excluded_ip_ranges ranges e = ok (record e { excluded_ip_ranges = ranges })

module _ (x : External) where
  unfoldable pub with_permitted_dns_domains : List Bytes → NamePolicyOption
  with_permitted_dns_domains domains e = do
    ds ← normalize_all (normalize_dns_domain x) domains
    ok (record e { permitted_dns_domains = ds })

  unfoldable pub with_excluded_dns_domains : List Bytes → NamePolicyOption
  with_excluded_dns_domains domains e = do
    ds ← normalize_all (normalize_dns_domain x) domains
    ok (record e { excluded_dns_domains = ds })

  parse_cidr : Bytes → Outcome ConstraintError IpNet
  parse_cidr cidr = elim (x.parse_cidr cidr) [ none ↦ err bad_cidr | some nw ↦ ok nw ]

  unfoldable pub with_permitted_cidrs : List Bytes → NamePolicyOption
  unfolding parse_cidr
  with_permitted_cidrs cidrs e = do
    networks ← normalize_all parse_cidr cidrs
    ok (record e { permitted_ip_ranges = networks })

  unfoldable pub with_excluded_cidrs : List Bytes → NamePolicyOption
  unfolding parse_cidr
  with_excluded_cidrs cidrs e = do
    networks ← normalize_all parse_cidr cidrs
    ok (record e { excluded_ip_ranges = networks })

  parse_one_ip : Bytes → Outcome ConstraintError IpNet
  parse_one_ip text = elim (x.parse_ip text) [ none ↦ err bad_cidr | some ip ↦ ok (network_for ip) ]

  unfoldable pub parse_ip_or_cidr : Bytes → Outcome ConstraintError IpNet
  unfolding parse_one_ip
  parse_ip_or_cidr text = elim (x.parse_cidr text) [ none ↦ parse_one_ip text | some nw ↦ ok nw ]

  unfoldable pub with_permitted_ips_or_cidrs : List Bytes → NamePolicyOption
  with_permitted_ips_or_cidrs texts e = do
    networks ← normalize_all parse_ip_or_cidr texts
    ok (record e { permitted_ip_ranges = networks })

  unfoldable pub with_excluded_ips_or_cidrs : List Bytes → NamePolicyOption
  with_excluded_ips_or_cidrs texts e = do
    networks ← normalize_all parse_ip_or_cidr texts
    ok (record e { excluded_ip_ranges = networks })

  unfoldable pub with_permitted_email_addresses : List Bytes → NamePolicyOption
  with_permitted_email_addresses emails e = do
    es ← normalize_all (normalize_email x) emails
    ok (record e { permitted_email_addresses = es })

  unfoldable pub with_excluded_email_addresses : List Bytes → NamePolicyOption
  with_excluded_email_addresses emails e = do
    es ← normalize_all (normalize_email x) emails
    ok (record e { excluded_email_addresses = es })

  unfoldable pub with_permitted_uri_domains : List Bytes → NamePolicyOption
  with_permitted_uri_domains domains e = do
    us ← normalize_all (normalize_uri_domain x) domains
    ok (record e { permitted_uri_domains = us })

  unfoldable pub with_excluded_uri_domains : List Bytes → NamePolicyOption
  with_excluded_uri_domains domains e = do
    us ← normalize_all (normalize_uri_domain x) domains
    ok (record e { excluded_uri_domains = us })
