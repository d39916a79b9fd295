-- ===== src/Policy/Build/Counted.antt =====
-- The counts of `New` of policy/engine.go, and the tests on them in policy/validate.go.
use certificates.Base.{
  ℕ, ◌∙◌, ap₂, ◌↔◌, length-eq-zero, ◌+◌, ◌<◌, ◌≡◌, refl, true, false, List, [], ◌∷◌, Bytes, length,
  ◌==◌, ltb, arith, ok, err, bind-eq-ok, ok-injective, sym, ap,
}
use certificates.Policy.Types.{External, Names, not_allowed, dns}
use certificates.Policy.Engine.{NamePolicyEngine, each, check_dns, validate_names}
use certificates.Policy.Dedupe.{remove_duplicates, remove_duplicate_ip_nets}
use certificates.Policy.Dedupe.Exact.{Fresh, dedupe-Fresh}
use certificates.Policy.Build.{
  NamePolicyOption, permitted_total, excluded_total, with_counts, without_duplicates, run_options,
  zero_engine, new,
}

-- The counts are those of the lists.
pub record HasCounts (e : NamePolicyEngine) : Type 0 where
  pub common_names :
      e.number_of_common_name_constraints
      ≡ length e.permitted_common_names + length e.excluded_common_names
  pub dns_domains :
      e.number_of_dns_domain_constraints
      ≡ length e.permitted_dns_domains + length e.excluded_dns_domains
  pub ip_ranges :
      e.number_of_ip_range_constraints ≡ length e.permitted_ip_ranges + length e.excluded_ip_ranges
  pub email_addresses :
      e.number_of_email_address_constraints
      ≡ length e.permitted_email_addresses + length e.excluded_email_addresses
  pub uri_domains :
      e.number_of_uri_domain_constraints
      ≡ length e.permitted_uri_domains + length e.excluded_uri_domains
  pub principals :
      e.number_of_principal_constraints
      ≡ length e.permitted_principals + length e.excluded_principals
  pub permitted : e.total_number_of_permitted_constraints ≡ permitted_total e
  pub excluded : e.total_number_of_excluded_constraints ≡ excluded_total e
  pub total : e.total_number_of_constraints ≡ permitted_total e + excluded_total e

with_counts-HasCounts : (e : NamePolicyEngine) → HasCounts (with_counts e)
unfolding with_counts
with_counts-HasCounts e = record {
  common_names = refl;
  dns_domains = refl;
  ip_ranges = refl;
  email_addresses = refl;
  uri_domains = refl;
  principals = refl;
  permitted = refl;
  excluded = refl;
  total = refl;
}

new-some :
    (x : External) (opts : List NamePolicyOption) (e : NamePolicyEngine)
    → new x opts ≡ ok e
    → (e' : NamePolicyEngine) × (run_options opts zero_engine ≡ ok e')
      × (e ≡ with_counts (without_duplicates x e'))
unfolding new
new-some x opts e h =
    let (e', ran, made) =
      bind-eq-ok (run_options opts zero_engine) (λ e'. ok (with_counts (without_duplicates x e')))
        h in
    (e', ran, sym (ok-injective (with_counts (without_duplicates x e')) e made))

-- Every engine that `New` returns has the counts of its lists.
pub new-HasCounts :
    (x : External) (opts : List NamePolicyOption) (e : NamePolicyEngine)
    → new x opts ≡ ok e
    → HasCounts e
new-HasCounts x opts e h =
    let (e', ran, made) = new-some x opts e h in
    rw made (with_counts-HasCounts (without_duplicates x e'))

-- In an engine with the counts of its lists, where no DNS domain is permitted or excluded and
-- some constraint of another kind permits names, a list of names with a DNS name in it is refused
-- for its first DNS name.
pub validate_names-implicit_deny :
    (x : External) (e : NamePolicyEngine) (name : Bytes) (rest : List Bytes) (names : Names)
    (principals : List Bytes)
    → HasCounts e
    → e.permitted_dns_domains ≡ []
    → e.excluded_dns_domains ≡ []
    → 0 < permitted_total e
    → names.dns_names ≡ name ∷ rest
    → validate_names x e names principals
      ≡ err (record { reason = not_allowed; name_type = dns; name = name })
unfolding validate_names each check_dns
validate_names-implicit_deny x e name rest names principals c p q some first =
    let constrained : (e.total_number_of_constraints == 0) ≡ false = ground (arith, c.total) in
    let unset : (e.number_of_dns_domain_constraints == 0) ≡ true = ground (
      arith,
      c.dns_domains,
      ap (λ (l : List Bytes). length l) p,
      ap (λ (l : List Bytes). length l) q,
    ) in
    let others : ltb 0 e.total_number_of_permitted_constraints ≡ true =
      ground (arith, c.permitted) in
    rw (constrained, first, unset, others, each, check_dns)

-- An engine with the counts of its lists, all of which are empty, lets every name through.
pub validate_names-unconstrained :
    (x : External) (e : NamePolicyEngine) (names : Names) (principals : List Bytes)
    → HasCounts e
    → permitted_total e ≡ 0
    → excluded_total e ≡ 0
    → validate_names x e names principals ≡ ok tt
unfolding validate_names
validate_names-unconstrained x e names principals c p q =
    let free : (e.total_number_of_constraints == 0) ≡ true = ground (arith, c.total) in rw free

abbrev NoPermitted : NamePolicyEngine → Type 0
NoPermitted e =
    (e.permitted_common_names ≡ [])
    × (e.permitted_dns_domains ≡ [])
    × (e.permitted_ip_ranges ≡ [])
    × (e.permitted_email_addresses ≡ [])
    × (e.permitted_uri_domains ≡ [])
    × (e.permitted_principals ≡ [])

abbrev NoExcluded : NamePolicyEngine → Type 0
NoExcluded e =
    (e.excluded_common_names ≡ [])
    × (e.excluded_dns_domains ≡ [])
    × (e.excluded_ip_ranges ≡ [])
    × (e.excluded_email_addresses ≡ [])
    × (e.excluded_uri_domains ≡ [])
    × (e.excluded_principals ≡ [])

-- What the tests on the counts take them for: a count is zero exactly when the lists that it counts
-- are empty.
pub record IsCounted (e : NamePolicyEngine) : Type 0 where
  pub of_common_names :
      (e.number_of_common_name_constraints ≡ 0)
      ↔ ((e.permitted_common_names ≡ []) × (e.excluded_common_names ≡ []))
  pub of_dns_domains :
      (e.number_of_dns_domain_constraints ≡ 0)
      ↔ ((e.permitted_dns_domains ≡ []) × (e.excluded_dns_domains ≡ []))
  pub of_ip_ranges :
      (e.number_of_ip_range_constraints ≡ 0)
      ↔ ((e.permitted_ip_ranges ≡ []) × (e.excluded_ip_ranges ≡ []))
  pub of_email_addresses :
      (e.number_of_email_address_constraints ≡ 0)
      ↔ ((e.permitted_email_addresses ≡ []) × (e.excluded_email_addresses ≡ []))
  pub of_uri_domains :
      (e.number_of_uri_domain_constraints ≡ 0)
      ↔ ((e.permitted_uri_domains ≡ []) × (e.excluded_uri_domains ≡ []))
  pub of_principals :
      (e.number_of_principal_constraints ≡ 0)
      ↔ ((e.permitted_principals ≡ []) × (e.excluded_principals ≡ []))
  pub of_permitted : (e.total_number_of_permitted_constraints ≡ 0) ↔ NoPermitted e
  pub of_excluded : (e.total_number_of_excluded_constraints ≡ 0) ↔ NoExcluded e
  pub of_all : (e.total_number_of_constraints ≡ 0) ↔ (NoPermitted e × NoExcluded e)

-- Two lists of lengths that add up to a count.
pair-zero :
    {A : Type 0} (n : ℕ) (xs ys : List A)
    → n ≡ length xs + length ys
    → (n ≡ 0) ↔ ((xs ≡ []) × (ys ≡ []))
pair-zero n xs ys h = (
  (λ z. (length-eq-zero xs (omega arith), length-eq-zero ys (omega arith))),
  λ (p, q). h ∙ ap₂ (λ (a b : List _). length a + length b) p q,
)

permitted_total-zero : (e : NamePolicyEngine) → (permitted_total e ≡ 0) ↔ NoPermitted e
permitted_total-zero e = (
  (λ z. (
    length-eq-zero e.permitted_common_names (omega arith),
    length-eq-zero e.permitted_dns_domains (omega arith),
    length-eq-zero e.permitted_ip_ranges (omega arith),
    length-eq-zero e.permitted_email_addresses (omega arith),
    length-eq-zero e.permitted_uri_domains (omega arith),
    length-eq-zero e.permitted_principals (omega arith),
  )),
  λ (a, b, c, d, f, g). rw (a, b, c, d, f, g) refl,
)

excluded_total-zero : (e : NamePolicyEngine) → (excluded_total e ≡ 0) ↔ NoExcluded e
excluded_total-zero e = (
  (λ z. (
    length-eq-zero e.excluded_common_names (omega arith),
    length-eq-zero e.excluded_dns_domains (omega arith),
    length-eq-zero e.excluded_ip_ranges (omega arith),
    length-eq-zero e.excluded_email_addresses (omega arith),
    length-eq-zero e.excluded_uri_domains (omega arith),
    length-eq-zero e.excluded_principals (omega arith),
  )),
  λ (a, b, c, d, f, g). rw (a, b, c, d, f, g) refl,
)

HasCounts-IsCounted : (e : NamePolicyEngine) → HasCounts e → IsCounted e
HasCounts-IsCounted e c =
    let (p, p') = permitted_total-zero e in
    let (q, q') = excluded_total-zero e in
    record {
      of_common_names = pair-zero _ _ _ c.common_names;
      of_dns_domains = pair-zero _ _ _ c.dns_domains;
      of_ip_ranges = pair-zero _ _ _ c.ip_ranges;
      of_email_addresses = pair-zero _ _ _ c.email_addresses;
      of_uri_domains = pair-zero _ _ _ c.uri_domains;
      of_principals = pair-zero _ _ _ c.principals;
      of_permitted = ((λ z. p (sym c.permitted ∙ z)), λ l. c.permitted ∙ p' l);
      of_excluded = ((λ z. q (sym c.excluded ∙ z)), λ l. c.excluded ∙ q' l);
      of_all = (
        (λ z. (p (omega (arith, c.total)), q (omega (arith, c.total)))),
        λ (l, m). c.total ∙ ap₂ (λ a b. a + b) (p' l) (q' m),
      );
    }

-- No constraint stands twice in a list.
pub record IsDistinct (x : External) (e : NamePolicyEngine) : Type 0 where
  pub permitted_common_names_once : Fresh (λ s. s) [] e.permitted_common_names
  pub permitted_dns_domains_once : Fresh (λ s. s) [] e.permitted_dns_domains
  pub permitted_ip_ranges_once : Fresh x.cidr_string [] e.permitted_ip_ranges
  pub permitted_email_addresses_once : Fresh (λ s. s) [] e.permitted_email_addresses
  pub permitted_uri_domains_once : Fresh (λ s. s) [] e.permitted_uri_domains
  pub permitted_principals_once : Fresh (λ s. s) [] e.permitted_principals
  pub excluded_common_names_once : Fresh (λ s. s) [] e.excluded_common_names
  pub excluded_dns_domains_once : Fresh (λ s. s) [] e.excluded_dns_domains
  pub excluded_ip_ranges_once : Fresh x.cidr_string [] e.excluded_ip_ranges
  pub excluded_email_addresses_once : Fresh (λ s. s) [] e.excluded_email_addresses
  pub excluded_uri_domains_once : Fresh (λ s. s) [] e.excluded_uri_domains
  pub excluded_principals_once : Fresh (λ s. s) [] e.excluded_principals

without_duplicates-IsDistinct :
    (x : External) (e : NamePolicyEngine) → IsDistinct x (with_counts (without_duplicates x e))
unfolding with_counts without_duplicates remove_duplicates remove_duplicate_ip_nets
without_duplicates-IsDistinct x e = record {
  permitted_common_names_once = (dedupe-Fresh (λ s. s) e.permitted_common_names).0;
  permitted_dns_domains_once = (dedupe-Fresh (λ s. s) e.permitted_dns_domains).0;
  permitted_ip_ranges_once = (dedupe-Fresh x.cidr_string e.permitted_ip_ranges).0;
  permitted_email_addresses_once = (dedupe-Fresh (λ s. s) e.permitted_email_addresses).0;
  permitted_uri_domains_once = (dedupe-Fresh (λ s. s) e.permitted_uri_domains).0;
  permitted_principals_once = (dedupe-Fresh (λ s. s) e.permitted_principals).0;
  excluded_common_names_once = (dedupe-Fresh (λ s. s) e.excluded_common_names).0;
  excluded_dns_domains_once = (dedupe-Fresh (λ s. s) e.excluded_dns_domains).0;
  excluded_ip_ranges_once = (dedupe-Fresh x.cidr_string e.excluded_ip_ranges).0;
  excluded_email_addresses_once = (dedupe-Fresh (λ s. s) e.excluded_email_addresses).0;
  excluded_uri_domains_once = (dedupe-Fresh (λ s. s) e.excluded_uri_domains).0;
  excluded_principals_once = (dedupe-Fresh (λ s. s) e.excluded_principals).0;
}

-- In every engine that `New` returns, the count of each kind is zero exactly when no constraint of
-- the kind is set, the count of the permitted ones exactly when none of the six kinds permits
-- names, that of the excluded ones exactly when none excludes names, and the total exactly when no
-- constraint is set at all; and in none of its twelve lists does a constraint stand twice, where
-- networks are compared by their texts.
pub new-IsCounted :
    (x : External) (opts : List NamePolicyOption) (e : NamePolicyEngine)
    → new x opts ≡ ok e
    → IsCounted e × IsDistinct x e
new-IsCounted x opts e h =
    let (e', ran, made) = new-some x opts e h in
    (HasCounts-IsCounted e (new-HasCounts x opts e h), rw made (without_duplicates-IsDistinct x e'))
