-- ===== src/Authority/Options.antt =====
-- The options of authority/policy/options.go, and `LinkedToCertificates` of policy.go beside it.
-- A pointer that may be nil is an Option; a getter of a nil pointer has the result of its early
-- return.
use certificates.Base.{Bool, true, ◌||◌, Option, none, some, List, [], Bytes, ltb, length}
use certificates.Authority.Linked.{
  LinkedX509Names, LinkedX509Policy, LinkedSshHostNames, LinkedSshUserNames, LinkedSshHostPolicy,
  LinkedSshUserPolicy, LinkedSshPolicy, LinkedPolicy,
}

pub record X509NameOptions : Type 0 where
  pub common_names : List Bytes
  pub dns_domains : List Bytes
  pub ip_ranges : List Bytes
  pub email_addresses : List Bytes
  pub uri_domains : List Bytes

pub record X509PolicyOptions : Type 0 where
  pub allowed_names : Option X509NameOptions
  pub denied_names : Option X509NameOptions
  pub allow_wildcard_names : Bool

pub record SshNameOptions : Type 0 where
  pub dns_domains : List Bytes
  pub ip_ranges : List Bytes
  pub email_addresses : List Bytes
  pub principals : List Bytes

-- SSHUserCertificateOptions, and SSHHostCertificateOptions, which has the same fields.
pub record SshCertificateOptions : Type 0 where
  pub allowed_names : Option SshNameOptions
  pub denied_names : Option SshNameOptions

pub record SshPolicyOptions : Type 0 where
  pub user : Option SshCertificateOptions
  pub host : Option SshCertificateOptions

pub record Options : Type 0 where
  pub x509 : Option X509PolicyOptions
  pub ssh : Option SshPolicyOptions

abbrev pub x509_has_names : X509NameOptions → Bool
x509_has_names o =
    ltb 0 (length o.common_names)
    || ltb 0 (length o.dns_domains)
    || ltb 0 (length o.ip_ranges)
    || ltb 0 (length o.email_addresses)
    || ltb 0 (length o.uri_domains)

abbrev pub ssh_has_names : SshNameOptions → Bool
ssh_has_names o =
    ltb 0 (length o.dns_domains)
    || ltb 0 (length o.ip_ranges)
    || ltb 0 (length o.email_addresses)
    || ltb 0 (length o.principals)

abbrev pub get_x509_options : Option Options → Option X509PolicyOptions
get_x509_options none = none
get_x509_options (some o) = o.x509

abbrev pub get_ssh_options : Option Options → Option SshPolicyOptions
get_ssh_options none = none
get_ssh_options (some o) = o.ssh

abbrev pub get_allowed_name_options : Option X509PolicyOptions → Option X509NameOptions
get_allowed_name_options none = none
get_allowed_name_options (some o) = o.allowed_names

abbrev pub get_denied_name_options : Option X509PolicyOptions → Option X509NameOptions
get_denied_name_options none = none
get_denied_name_options (some o) = o.denied_names

abbrev pub are_wildcard_names_allowed : Option X509PolicyOptions → Bool
are_wildcard_names_allowed none = true
are_wildcard_names_allowed (some o) = o.allow_wildcard_names

abbrev pub get_ssh_allowed : Option SshCertificateOptions → Option SshNameOptions
get_ssh_allowed none = none
get_ssh_allowed (some o) = o.allowed_names

abbrev pub get_ssh_denied : Option SshCertificateOptions → Option SshNameOptions
get_ssh_denied none = none
get_ssh_denied (some o) = o.denied_names

abbrev pub get_allowed_user_name_options : Option SshPolicyOptions → Option SshNameOptions
get_allowed_user_name_options none = none
get_allowed_user_name_options (some o) = get_ssh_allowed o.user

abbrev pub get_denied_user_name_options : Option SshPolicyOptions → Option SshNameOptions
get_denied_user_name_options none = none
get_denied_user_name_options (some o) = get_ssh_denied o.user

abbrev pub get_allowed_host_name_options : Option SshPolicyOptions → Option SshNameOptions
get_allowed_host_name_options none = none
get_allowed_host_name_options (some o) = get_ssh_allowed o.host

abbrev pub get_denied_host_name_options : Option SshPolicyOptions → Option SshNameOptions
get_denied_host_name_options none = none
get_denied_host_name_options (some o) = get_ssh_denied o.host

-- The block for `allow` and the one for `deny` of an X.509 policy.
abbrev x509_name_options : Option LinkedX509Names → Option X509NameOptions
x509_name_options none = none
x509_name_options (some n) = some (record {
  common_names = n.common_names;
  dns_domains = n.dns;
  ip_ranges = n.ips;
  email_addresses = n.emails;
  uri_domains = n.uris;
})

abbrev x509_policy_options : Option LinkedX509Policy → Option X509PolicyOptions
x509_policy_options none = none
x509_policy_options (some p) = some (record {
  allowed_names = x509_name_options p.allow;
  denied_names = x509_name_options p.deny;
  allow_wildcard_names = p.allow_wildcard_names;
})

abbrev host_name_options : Option LinkedSshHostNames → Option SshNameOptions
host_name_options none = none
host_name_options (some n) = some (record {
  dns_domains = n.dns;
  ip_ranges = n.ips;
  email_addresses = [];
  principals = n.principals;
})

abbrev user_name_options : Option LinkedSshUserNames → Option SshNameOptions
user_name_options none = none
user_name_options (some n) = some (record {
  dns_domains = [];
  ip_ranges = [];
  email_addresses = n.emails;
  principals = n.principals;
})

abbrev host_options : Option LinkedSshHostPolicy → Option SshCertificateOptions
host_options none = none
host_options (some p) =
    some (record {
      allowed_names = host_name_options p.allow;
      denied_names = host_name_options p.deny;
    })

abbrev user_options : Option LinkedSshUserPolicy → Option SshCertificateOptions
user_options none = none
user_options (some p) =
    some (record {
      allowed_names = user_name_options p.allow;
      denied_names = user_name_options p.deny;
    })

abbrev ssh_policy_options : Option LinkedSshPolicy → Option SshPolicyOptions
ssh_policy_options none = none
ssh_policy_options (some p) =
    some (record { user = user_options p.user; host = host_options p.host })

-- The test that X.509 or SSH is set.
abbrev options_of : Option LinkedX509Policy → Option LinkedSshPolicy → Option Options
options_of none none = none
options_of x509 ssh =
    some (record { x509 = x509_policy_options x509; ssh = ssh_policy_options ssh })

abbrev pub linked_to_certificates : Option LinkedPolicy → Option Options
linked_to_certificates none = none
linked_to_certificates (some p) = options_of p.x509 p.ssh
