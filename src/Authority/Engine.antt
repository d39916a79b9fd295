-- ===== src/Authority/Engine.antt =====
-- The engines of authority/policy/: the constructors of policy.go there, and engine.go.
pub mod Exact
use certificates.Base.{
  ℕ, Bool, true, false, Option, none, some, List, [], ◌∷◌, ◌++◌, Bytes, ◌==◌, if◌then◌else◌,
  Outcome, ok, err, panic, ◌>>=◌,
}
use certificates.Policy.Types.{External}
use certificates.Policy.Constraints.{Verdict}
use certificates.Policy.Engine.{NamePolicyEngine}
use certificates.Policy.Build.{ConstraintError, NamePolicyOption, new}
use certificates.Policy.Options.{
  with_permitted_common_names, with_excluded_common_names, with_permitted_principals,
  with_excluded_principals, with_permitted_dns_domains, with_excluded_dns_domains,
  with_permitted_ips_or_cidrs, with_excluded_ips_or_cidrs, with_permitted_email_addresses,
  with_excluded_email_addresses, with_permitted_uri_domains, with_excluded_uri_domains,
  with_allow_literal_wildcard_names, with_subject_common_name_verification,
}
use certificates.Policy.Entry.{X509Names, SshCertificate, SshError, user_cert, host_cert}
use certificates.Policy.Entry as Entry
use certificates.Authority.Options.{
  X509NameOptions, X509PolicyOptions, SshNameOptions, SshPolicyOptions, Options, x509_has_names,
  ssh_has_names, get_x509_options, get_ssh_options, get_allowed_name_options,
  get_denied_name_options, are_wildcard_names_allowed, get_allowed_user_name_options,
  get_denied_user_name_options, get_allowed_host_name_options, get_denied_host_name_options,
}

-- The engine that the options build: no engine where there are none.
abbrev EngineOr : Type 0
EngineOr = Outcome ConstraintError (Option NamePolicyEngine)

-- sshPolicyEngineType
pub data SshPolicyEngineType : Type 0 where
  user_policy_engine_type host_policy_engine_type : SshPolicyEngineType

-- Engine
pub record Engine : Type 0 where
  pub x509_policy : Option NamePolicyEngine
  pub ssh_user_policy : Option NamePolicyEngine
  pub ssh_host_policy : Option NamePolicyEngine

pub data SshPolicyError : Type 0 where
  host_certificates_not_allowed user_certificates_not_allowed : SshPolicyError
  unexpected_certificate_type : ℕ → SshPolicyError
  refused : SshError → SshPolicyError

abbrev has_no_ssh_policy : Engine → Bool
has_no_ssh_policy e = elim e.ssh_host_policy [
  | none ↦ elim e.ssh_user_policy [ none ↦ true | some p ↦ false ]
  | some p ↦ false
]

-- The error as the authority returns it.
abbrev pub refused_of : Outcome SshError (Unit {0}) → Outcome SshPolicyError (Unit {0})
refused_of (ok u) = ok u
refused_of (err e) = err (refused e)
refused_of panic = panic

module _ (x : External) where
  unfoldable permitted_x509 : Option X509NameOptions → List NamePolicyOption
  permitted_x509 none = []
  permitted_x509 (some allowed) =
      if x509_has_names allowed
      then with_permitted_common_names allowed.common_names
        ∷ with_permitted_dns_domains x allowed.dns_domains
        ∷ with_permitted_ips_or_cidrs x allowed.ip_ranges
        ∷ with_permitted_email_addresses x allowed.email_addresses
        ∷ with_permitted_uri_domains x allowed.uri_domains
        ∷ []
      else []

  unfoldable excluded_x509 : Option X509NameOptions → List NamePolicyOption
  excluded_x509 none = []
  excluded_x509 (some denied) =
      if x509_has_names denied
      then with_excluded_common_names denied.common_names
        ∷ with_excluded_dns_domains x denied.dns_domains
        ∷ with_excluded_ips_or_cidrs x denied.ip_ranges
        ∷ with_excluded_email_addresses x denied.email_addresses
        ∷ with_excluded_uri_domains x denied.uri_domains
        ∷ []
      else []

  -- From the test that there are options on.
  unfoldable x509_engine : Bool → List NamePolicyOption → EngineOr
  x509_engine wildcards [] = ok none
  x509_engine wildcards (option ∷ options) =
      let wildcard = if wildcards then with_allow_literal_wildcard_names ∷ [] else [] in
      new x (((option ∷ options) ++ wildcard) ++ with_subject_common_name_verification ∷ [])
      >>= λ e. ok (some e)

  -- The argument is the pointer in the interface that every caller passes; the interface itself is
  -- not nil.
  unfoldable pub new_x509_policy_engine : Option X509PolicyOptions → EngineOr
  unfolding permitted_x509 excluded_x509 x509_engine
  new_x509_policy_engine o =
      x509_engine (are_wildcard_names_allowed o)
        (permitted_x509 (get_allowed_name_options o) ++ excluded_x509 (get_denied_name_options o))

  unfoldable permitted_ssh : Option SshNameOptions → List NamePolicyOption
  permitted_ssh none = []
  permitted_ssh (some allowed) =
      if ssh_has_names allowed
      then with_permitted_dns_domains x allowed.dns_domains
        ∷ with_permitted_ips_or_cidrs x allowed.ip_ranges
        ∷ with_permitted_email_addresses x allowed.email_addresses
        ∷ with_permitted_principals allowed.principals
        ∷ []
      else []

  unfoldable excluded_ssh : Option SshNameOptions → List NamePolicyOption
  excluded_ssh none = []
  excluded_ssh (some denied) =
      if ssh_has_names denied
      then with_excluded_dns_domains x denied.dns_domains
        ∷ with_excluded_ips_or_cidrs x denied.ip_ranges
        ∷ with_excluded_email_addresses x denied.email_addresses
        ∷ with_excluded_principals denied.principals
        ∷ []
      else []

  unfoldable ssh_engine : List NamePolicyOption → EngineOr
  ssh_engine [] = ok none
  ssh_engine (option ∷ options) = new x (option ∷ options) >>= λ e. ok (some e)

  unfoldable pub new_ssh_policy_engine : Option SshPolicyOptions → SshPolicyEngineType → EngineOr
  unfolding permitted_ssh excluded_ssh ssh_engine
  new_ssh_policy_engine o user_policy_engine_type = ssh_engine (
      permitted_ssh (get_allowed_user_name_options o)
      ++ excluded_ssh (get_denied_user_name_options o))
  new_ssh_policy_engine o host_policy_engine_type = ssh_engine (
      permitted_ssh (get_allowed_host_name_options o)
      ++ excluded_ssh (get_denied_host_name_options o))

  -- New
  unfoldable pub new_engine : Option Options → Outcome ConstraintError (Option Engine)
  new_engine none = ok none
  new_engine (some options) = do
    x509 ← new_x509_policy_engine (get_x509_options (some options))
    host ← new_ssh_policy_engine (get_ssh_options (some options)) host_policy_engine_type
    user ← new_ssh_policy_engine (get_ssh_options (some options)) user_policy_engine_type
    ok (some (record { x509_policy = x509; ssh_user_policy = user; ssh_host_policy = host }))

  abbrev x509_certificate_by : Option NamePolicyEngine → X509Names → Verdict
  x509_certificate_by none cert = ok tt
  x509_certificate_by (some p) cert = Entry.is_x509_certificate_allowed x p cert

  abbrev pub sans_by : Option NamePolicyEngine → List Bytes → Verdict
  sans_by none sans = ok tt
  sans_by (some p) sans = Entry.are_sans_allowed x p sans

  abbrev pub is_x509_certificate_allowed : Option Engine → X509Names → Verdict
  is_x509_certificate_allowed none cert = ok tt
  is_x509_certificate_allowed (some e) cert = x509_certificate_by e.x509_policy cert

  abbrev pub are_sans_allowed : Option Engine → List Bytes → Verdict
  are_sans_allowed none sans = ok tt
  are_sans_allowed (some e) sans = sans_by e.x509_policy sans

  -- The call of an engine that is nil panics.
  abbrev ssh_certificate_by :
      Option NamePolicyEngine → SshCertificate → Outcome SshPolicyError (Unit {0})
  ssh_certificate_by none cert = panic
  ssh_certificate_by (some p) cert = refused_of (Entry.is_ssh_certificate_allowed x p cert)

  -- The two cases of a known type: the engine of that type, the other one, and the error.
  abbrev by_own_type :
      Option NamePolicyEngine
      → Option NamePolicyEngine
      → SshPolicyError
      → SshCertificate
      → Outcome SshPolicyError (Unit {0})
  by_own_type none (some other) e cert = err e
  by_own_type none none e cert = ssh_certificate_by none cert
  by_own_type (some own) other e cert = ssh_certificate_by (some own) cert

  unfoldable by_cert_type : Engine → SshCertificate → Outcome SshPolicyError (Unit {0})
  by_cert_type e cert =
      if cert.cert_type == host_cert
      then by_own_type e.ssh_host_policy e.ssh_user_policy host_certificates_not_allowed cert
      else if cert.cert_type == user_cert
      then by_own_type e.ssh_user_policy e.ssh_host_policy user_certificates_not_allowed cert
      else err (unexpected_certificate_type cert.cert_type)

  unfoldable pub is_ssh_certificate_allowed :
      Option Engine → SshCertificate → Outcome SshPolicyError (Unit {0})
  unfolding by_cert_type
  is_ssh_certificate_allowed none cert = ok tt
  is_ssh_certificate_allowed (some e) cert =
      if has_no_ssh_policy e then ok tt else by_cert_type e cert
