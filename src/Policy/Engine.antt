-- ===== src/Policy/Engine.antt =====
-- The engine of policy/engine.go and its `validateNames` and `validateCommonName` of
-- policy/validate.go. The state of an engine is fixed when it is built.
pub mod Dns
pub mod Exact
pub mod Panics
use certificates.Base.{
  ℕ, Bool, true, false, ◌&&◌, Option, none, some, List, [], ◌∷◌, Bytes, ltb, ◌==◌, if◌then◌else◌,
  is_empty, drop, has_prefix, Outcome, ok, err, panic, ◌>>◌,
}
use certificates.Policy.Labels.{domain_to_reverse_labels}
use certificates.Policy.Types.{
  NamePolicyReason, not_allowed, cannot_parse_domain, cannot_parse_rfc822_name, NameType, cn, dns,
  ip, email, uri, principal, NamePolicyError, Ip, IpNet, Url, Names, External,
}
use certificates.Policy.Mailbox.{Rfc2821Mailbox, parse_rfc2821_mailbox}
use certificates.Policy.Network.{match_ip_constraint}
use certificates.Policy.Matching.{
  wildcard_prefix, match_domain_constraint, match_email_constraint, match_uri_constraint,
  match_principal_constraint, match_common_name_constraint,
}
use certificates.Policy.Constraints.{Verdict, check_name_constraints}

pub record NamePolicyEngine : Type 0 where
  pub verify_subject_common_name : Bool
  pub allow_literal_wildcard_names : Bool
  pub permitted_common_names : List Bytes
  pub excluded_common_names : List Bytes
  pub permitted_dns_domains : List Bytes
  pub excluded_dns_domains : List Bytes
  pub permitted_ip_ranges : List IpNet
  pub excluded_ip_ranges : List IpNet
  pub permitted_email_addresses : List Bytes
  pub excluded_email_addresses : List Bytes
  pub permitted_uri_domains : List Bytes
  pub excluded_uri_domains : List Bytes
  pub permitted_principals : List Bytes
  pub excluded_principals : List Bytes
  pub number_of_common_name_constraints : ℕ
  pub number_of_dns_domain_constraints : ℕ
  pub number_of_ip_range_constraints : ℕ
  pub number_of_email_address_constraints : ℕ
  pub number_of_uri_domain_constraints : ℕ
  pub number_of_principal_constraints : ℕ
  pub total_number_of_permitted_constraints : ℕ
  pub total_number_of_excluded_constraints : ℕ
  pub total_number_of_constraints : ℕ

abbrev refuse : NamePolicyReason → NameType → Bytes → Verdict
refuse why t name = err (record { reason = why; name_type = t; name = name })

-- `for _, name := range names { ... }` with an early return on an error
unfoldable pub each : {A : Type 0} → (A → Verdict) → List A → Verdict
each check [] = ok tt
each check (a ∷ names) = check a >> each check names

-- No constraint of this kind is set, and some constraint of another kind permits names.
abbrev pub implicitly_denied : NamePolicyEngine → ℕ → Bool
implicitly_denied e n = n == 0 && ltb 0 e.total_number_of_permitted_constraints

module _ (x : External) (e : NamePolicyEngine) where
  -- The ASCII form of a DNS name, with a leading `*.` kept.
  unfoldable pub dns_to_ascii : Bytes → Option Bytes
  dns_to_ascii name =
      if has_prefix name wildcard_prefix
      then elim (x.idna_lookup_to_ascii (drop 1 name)) [
        | none ↦ none
        | some parsed ↦ some (b'*' ∷ parsed)
      ]
      else x.idna_lookup_to_ascii name

  unfoldable pub check_parsed_dns : Bytes → Bytes → Verdict
  check_parsed_dns name parsed = elim (domain_to_reverse_labels parsed) [
    | none ↦ refuse cannot_parse_domain dns name
    | some labels ↦
        check_name_constraints dns name
          (match_domain_constraint e.allow_literal_wildcard_names parsed) e.permitted_dns_domains
          e.excluded_dns_domains
  ]

  -- One round of each loop of `validateNames`.
  unfoldable pub check_dns : Bytes → Verdict
  check_dns name =
      if implicitly_denied e e.number_of_dns_domain_constraints
      then refuse not_allowed dns name
      else elim (dns_to_ascii name) [
        | none ↦ refuse cannot_parse_domain dns name
        | some parsed ↦ check_parsed_dns name parsed
      ]

  unfoldable pub check_ip : Ip → Verdict
  check_ip name =
      if implicitly_denied e e.number_of_ip_range_constraints
      then refuse not_allowed ip (x.ip_string name)
      else check_name_constraints ip (x.ip_string name) (λ c. ok (match_ip_constraint name c))
          e.permitted_ip_ranges e.excluded_ip_ranges

  unfoldable pub check_mailbox : Bytes → Rfc2821Mailbox → Verdict
  check_mailbox name mailbox = elim (x.idna_to_ascii mailbox.domain) [
    | none ↦ refuse cannot_parse_domain email name
    | some ascii ↦
        check_name_constraints email name
          (match_email_constraint e.allow_literal_wildcard_names
            (record mailbox { domain = ascii }))
          e.permitted_email_addresses e.excluded_email_addresses
  ]

  unfoldable pub check_email : Bytes → Verdict
  check_email name =
      if implicitly_denied e e.number_of_email_address_constraints
      then refuse not_allowed email name
      else elim (parse_rfc2821_mailbox name) [
        | none ↦ refuse cannot_parse_rfc822_name email name
        | some mailbox ↦ check_mailbox name mailbox
      ]

  unfoldable pub check_uri : Url → Verdict
  check_uri name =
      if implicitly_denied e e.number_of_uri_domain_constraints
      then refuse not_allowed uri name.string
      else check_name_constraints uri name.string
          (match_uri_constraint x e.allow_literal_wildcard_names name) e.permitted_uri_domains
          e.excluded_uri_domains

  unfoldable pub check_principal : Bytes → Verdict
  check_principal name =
      if implicitly_denied e e.number_of_principal_constraints
      then refuse not_allowed principal name
      else check_name_constraints principal name (λ c. ok (match_principal_constraint name c))
          e.permitted_principals e.excluded_principals

  unfoldable pub validate_names : Names → List Bytes → Verdict
  validate_names names principals =
      if e.total_number_of_constraints == 0
      then ok tt
      else each check_dns names.dns_names
        >> (each check_ip names.ips
            >> (each check_email names.email_addresses
                >> (each check_uri names.uris >> each check_principal principals)))

  -- `pe.NameType = CNNameType`
  as_common_name : Verdict → Verdict
  as_common_name (ok u) = ok u
  as_common_name (err pe) = err (record pe { name_type = cn })
  as_common_name panic = panic

  unfoldable pub check_common_name : Bytes → Verdict
  check_common_name name =
      check_name_constraints cn name (λ c. ok (match_common_name_constraint name c))
        e.permitted_common_names e.excluded_common_names

  -- The common name as one of the other kinds of names.
  unfoldable pub common_name_as_san : Bytes → Verdict
  unfolding as_common_name
  common_name_as_san name = as_common_name (validate_names (x.split_sans (name ∷ [])) [])

  unfoldable pub validate_common_name : Bytes → Verdict
  validate_common_name name =
      if e.total_number_of_constraints == 0
      then ok tt
      else if is_empty name
      then ok tt
      else if ltb 0 e.number_of_common_name_constraints
      then elim (check_common_name name) [
        | ok u ↦ ok tt
        | err pe ↦ common_name_as_san name
        | panic ↦ panic
      ]
      else common_name_as_san name
