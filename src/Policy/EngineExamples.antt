-- ===== src/Policy/EngineExamples.antt =====
-- The theorems on the engine of policy/ at concrete engines and names.
use certificates.Base.{
  ◌≡◌, ◌↔◌, ◌⊎◌, inl, refl, Bool, true, false, none, some, List, [], ◌∷◌, Bytes, codes, Outcome, ok,
  panic, bytes_eq, ◌>>=◌, last_index_byte, contains, trim_space, to_lower,
}
use mathlib.Core.List.{}
use certificates.Policy.Types.{dns, Names, External, MatchError}
use certificates.Policy.Labels.{domain_to_reverse_labels}
use certificates.Policy.Mailbox.{Rfc2821Mailbox, parse_rfc2821_mailbox, is_atext, well_dotted}
use certificates.Policy.Matching.{match_domain_constraint, late_star}
use certificates.Policy.Matching.Total.{Returns}
use certificates.Policy.Constraints.{check_name_constraints}
use certificates.Policy.Constraints.Exact.{Passes, check_name_constraints_exact}
use certificates.Policy.Engine.{NamePolicyEngine, validate_names}
use certificates.Policy.Engine.Exact.{AllChecked, validate_names_exact}
use certificates.Policy.Engine.Panics.{only_email, validate_names-email_panics}
use certificates.Policy.Entry.Agree.{hosts}
use certificates.Policy.Dedupe.{
  dedupe, dedupe_loop, has_key, remove_duplicates, remove_duplicate_ip_nets,
}
use certificates.Policy.Build.{NamePolicyOption, zero_engine, new, run_options, without_duplicates}
use certificates.Policy.Build.Counted.{HasCounts, IsCounted, IsDistinct, new-IsCounted}
use certificates.Policy.Options.{
  with_permitted_dns_domains, with_excluded_dns_domains, normalize_all,
}
use certificates.Policy.Options.Normalize.{
  tidy, to_ascii, with_labels, normalize_dns_domain, normalize_email,
}
use certificates.Policy.Options.Sound.{
  match_domain_constraint-normalize_dns_domain, normalize_email_panics,
}

-- Libraries that take every text as it is.
abbrev plain_libraries : External
plain_libraries = record {
  idna_lookup_to_ascii = λ s. some s;
  idna_to_ascii = λ s. some s;
  split_sans = λ l. record { dns_names = l; ips = []; email_addresses = []; uris = [] };
  parse_ip = λ s. none;
  parse_cidr = λ s. none;
  split_host_port = λ s. none;
  ip_string = λ i. i;
  cidr_string = λ n. n.ip;
}

-- A matcher of texts by equality.
abbrev same_text : Bytes → Bytes → Outcome MatchError Bool
same_text name k = ok (bytes_eq name k)

abbrev web : Bytes
web = codes "web"

abbrev mail : Bytes
mail = codes "mail"

check_name_constraints_exact_example :
    (check_name_constraints dns web (same_text web) (web ∷ []) (mail ∷ []) ≡ ok tt)
    ↔ Passes dns web (same_text web) (web ∷ []) (mail ∷ [])
check_name_constraints_exact_example =
    check_name_constraints_exact dns web (same_text web) (web ∷ []) (mail ∷ [])

mail-rejects : same_text web mail ≡ ok false
unfolding bytes_eq
mail-rejects = refl

web-matches : same_text web web ≡ ok true
unfolding bytes_eq
web-matches = refl

abbrev example_domain : Bytes
example_domain = codes "example.com"

-- An engine that permits one domain and its counts.
abbrev one_domain : NamePolicyEngine
one_domain = record zero_engine {
  permitted_dns_domains = example_domain ∷ [];
  number_of_dns_domain_constraints = 1;
  total_number_of_permitted_constraints = 1;
  total_number_of_constraints = 1;
}

abbrev two_hosts : Names
two_hosts = hosts (example_domain ∷ web ∷ []) []

validate_names_exact_example : (validate_names plain_libraries one_domain two_hosts [] ≡ ok tt) ↔ (
    (one_domain.total_number_of_constraints ≡ 0)
    ⊎ AllChecked plain_libraries one_domain two_hosts [])
validate_names_exact_example = validate_names_exact plain_libraries one_domain two_hosts []

-- An engine that excludes one email domain.
abbrev no_mail : NamePolicyEngine
no_mail = record zero_engine {
  excluded_email_addresses = example_domain ∷ [];
  number_of_email_address_constraints = 1;
  total_number_of_excluded_constraints = 1;
  total_number_of_constraints = 1;
}

abbrev no_domain : Rfc2821Mailbox
no_domain = record { local = codes "joe"; domain = [] }

no_domain-read : parse_rfc2821_mailbox (codes "joe@") ≡ some no_domain
unfolding parse_rfc2821_mailbox is_atext well_dotted contains domain_to_reverse_labels
no_domain-read = refl

example_domain-plain : contains example_domain (b'@' ∷ []) ≡ false
unfolding contains
example_domain-plain = refl

validate_names-email_panics_example :
    validate_names plain_libraries no_mail (only_email (codes "joe@")) [] ≡ panic
validate_names-email_panics_example =
    validate_names-email_panics plain_libraries no_mail (codes "joe@") [] example_domain []
      no_domain refl refl no_domain-read refl (inl refl) refl (λ h. cc) example_domain-plain

abbrev itself : Bytes → Bytes
itself s = s

abbrev domain_options : List NamePolicyOption
domain_options = (λ e. ok (record e { permitted_dns_domains = web ∷ web ∷ [] })) ∷ []

abbrev web_engine : NamePolicyEngine
web_engine = record zero_engine {
  permitted_dns_domains = web ∷ [];
  number_of_dns_domain_constraints = 1;
  total_number_of_permitted_constraints = 1;
  total_number_of_constraints = 1;
}

web_engine-new : new plain_libraries domain_options ≡ ok web_engine
unfolding new run_options without_duplicates dedupe remove_duplicates remove_duplicate_ip_nets
    dedupe_loop has_key bytes_eq
web_engine-new = refl

new-IsCounted_example : IsCounted web_engine × IsDistinct plain_libraries web_engine
new-IsCounted_example = new-IsCounted plain_libraries domain_options web_engine web_engine-new

abbrev only_uris : NamePolicyEngine
only_uris = record zero_engine {
  permitted_uri_domains = example_domain ∷ [];
  number_of_uri_domain_constraints = 1;
  total_number_of_permitted_constraints = 1;
  total_number_of_constraints = 1;
}

only_uris-HasCounts : HasCounts only_uris
only_uris-HasCounts = record {
  common_names = refl;
  dns_domains = refl;
  ip_ranges = refl;
  email_addresses = refl;
  uri_domains = refl;
  principals = refl;
  permitted = refl;
  excluded = refl;
  total = refl;
}

normalize_email_panics_example :
    (normalize_email plain_libraries (codes " @") ≡ panic) ↔ (tidy (codes " @") ≡ codes "@")
normalize_email_panics_example = normalize_email_panics plain_libraries (codes " @")

example_domain-normal :
    normalize_dns_domain plain_libraries (codes " Example.com") ≡ ok example_domain
unfolding normalize_dns_domain to_lower trim_space contains late_star last_index_byte to_ascii
    with_labels domain_to_reverse_labels
example_domain-normal = refl

example_domain-read :
    domain_to_reverse_labels example_domain ≡ some (codes "com" ∷ codes "example" ∷ [])
unfolding domain_to_reverse_labels last_index_byte
example_domain-read = refl

match_domain_constraint-normalize_dns_domain_example :
    Returns (match_domain_constraint false example_domain example_domain)
match_domain_constraint-normalize_dns_domain_example =
    match_domain_constraint-normalize_dns_domain plain_libraries false (codes " Example.com")
      example_domain example_domain (codes "com" ∷ codes "example" ∷ []) example_domain-normal
      example_domain-read (λ h. cc) (λ h. cc)

example_domain-options :
    (with_permitted_dns_domains plain_libraries (codes " Example.com" ∷ []) zero_engine
      >>= with_excluded_dns_domains plain_libraries [])
    ≡ ok (record zero_engine { permitted_dns_domains = example_domain ∷ [] })
unfolding with_permitted_dns_domains with_excluded_dns_domains normalize_all
example_domain-options = rw example_domain-normal refl
