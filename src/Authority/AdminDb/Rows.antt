-- ===== src/Authority/AdminDb/Rows.antt =====
-- The rows of authority/admin/db/nosql/policy.go and admin.go, and the conversions of policies
-- between the rows and the messages.
pub mod RoundTrip
use certificates.Base.{ℕ, Bool, Option, none, some, List, Bytes}
use certificates.Authority.Linked.{
  LinkedX509Names, LinkedX509Policy, LinkedSshHostNames, LinkedSshUserNames, LinkedSshHostPolicy,
  LinkedSshUserPolicy, LinkedSshPolicy, LinkedPolicy, LinkedAdminType,
}

pub record DbX509Names : Type 0 where
  pub common_names : List Bytes
  pub dns_domains : List Bytes
  pub ip_ranges : List Bytes
  pub email_addresses : List Bytes
  pub uri_domains : List Bytes

pub record DbX509Policy : Type 0 where
  pub allow : Option DbX509Names
  pub deny : Option DbX509Names
  pub allow_wildcard_names : Bool

pub record DbSshHostNames : Type 0 where
  pub dns_domains : List Bytes
  pub ip_ranges : List Bytes
  pub principals : List Bytes

pub record DbSshUserNames : Type 0 where
  pub email_addresses : List Bytes
  pub principals : List Bytes

pub record DbSshHostPolicy : Type 0 where
  pub allow : Option DbSshHostNames
  pub deny : Option DbSshHostNames

pub record DbSshUserPolicy : Type 0 where
  pub allow : Option DbSshUserNames
  pub deny : Option DbSshUserNames

pub record DbSshPolicy : Type 0 where
  pub user : Option DbSshUserPolicy
  pub host : Option DbSshHostPolicy

pub record DbPolicy : Type 0 where
  pub x509 : Option DbX509Policy
  pub ssh : Option DbSshPolicy

pub record DbAuthorityPolicy : Type 0 where
  pub id : Bytes
  pub authority_id : Bytes
  pub policy : Option DbPolicy

-- A time is a number of seconds, 0 the zero time.
pub record DbAdmin : Type 0 where
  pub id : Bytes
  pub authority_id : Bytes
  pub provisioner_id : Bytes
  pub subject : Bytes
  pub type : LinkedAdminType
  pub created_at : ℕ
  pub deleted_at : ℕ

-- What a stored text is: no bytes, which a nil text leaves in some stores, the text of a nil
-- pointer, the value that json.Marshal was given, or a text that json.Unmarshal refuses.
pub data AdminRow : Type 0 where
  empty_text null_text malformed_text : AdminRow
  policy_text : DbAuthorityPolicy → AdminRow
  admin_text : DbAdmin → AdminRow

abbrev linked_x509_names : Option DbX509Names → Option LinkedX509Names
linked_x509_names none = none
linked_x509_names (some n) = some (record {
  dns = n.dns_domains;
  ips = n.ip_ranges;
  emails = n.email_addresses;
  uris = n.uri_domains;
  common_names = n.common_names;
})

abbrev linked_x509 : Option DbX509Policy → Option LinkedX509Policy
linked_x509 none = none
linked_x509 (some p) = some (record {
  allow = linked_x509_names p.allow;
  deny = linked_x509_names p.deny;
  allow_wildcard_names = p.allow_wildcard_names;
})

abbrev linked_host_names : Option DbSshHostNames → Option LinkedSshHostNames
linked_host_names none = none
linked_host_names (some n) =
    some (record { dns = n.dns_domains; ips = n.ip_ranges; principals = n.principals })

abbrev linked_user_names : Option DbSshUserNames → Option LinkedSshUserNames
linked_user_names none = none
linked_user_names (some n) = some (record { emails = n.email_addresses; principals = n.principals })

abbrev linked_host : Option DbSshHostPolicy → Option LinkedSshHostPolicy
linked_host none = none
linked_host (some p) =
    some (record { allow = linked_host_names p.allow; deny = linked_host_names p.deny })

abbrev linked_user : Option DbSshUserPolicy → Option LinkedSshUserPolicy
linked_user none = none
linked_user (some p) =
    some (record { allow = linked_user_names p.allow; deny = linked_user_names p.deny })

abbrev linked_ssh : Option DbSshPolicy → Option LinkedSshPolicy
linked_ssh none = none
linked_ssh (some p) = some (record { host = linked_host p.host; user = linked_user p.user })

abbrev pub db_to_linked : Option DbPolicy → Option LinkedPolicy
db_to_linked none = none
db_to_linked (some p) = some (record { x509 = linked_x509 p.x509; ssh = linked_ssh p.ssh })

abbrev db_x509_names : Option LinkedX509Names → Option DbX509Names
db_x509_names none = none
db_x509_names (some n) = some (record {
  common_names = n.common_names;
  dns_domains = n.dns;
  ip_ranges = n.ips;
  email_addresses = n.emails;
  uri_domains = n.uris;
})

abbrev db_x509 : Option LinkedX509Policy → Option DbX509Policy
db_x509 none = none
db_x509 (some p) = some (record {
  allow = db_x509_names p.allow;
  deny = db_x509_names p.deny;
  allow_wildcard_names = p.allow_wildcard_names;
})

abbrev db_host_names : Option LinkedSshHostNames → Option DbSshHostNames
db_host_names none = none
db_host_names (some n) =
    some (record { dns_domains = n.dns; ip_ranges = n.ips; principals = n.principals })

abbrev db_user_names : Option LinkedSshUserNames → Option DbSshUserNames
db_user_names none = none
db_user_names (some n) = some (record { email_addresses = n.emails; principals = n.principals })

abbrev db_host : Option LinkedSshHostPolicy → Option DbSshHostPolicy
db_host none = none
db_host (some p) = some (record { allow = db_host_names p.allow; deny = db_host_names p.deny })

abbrev db_user : Option LinkedSshUserPolicy → Option DbSshUserPolicy
db_user none = none
db_user (some p) = some (record { allow = db_user_names p.allow; deny = db_user_names p.deny })

abbrev db_ssh : Option LinkedSshPolicy → Option DbSshPolicy
db_ssh none = none
db_ssh (some p) = some (record { user = db_user p.user; host = db_host p.host })

-- The test that X.509 or SSH is set.
unfoldable db_policy : Option LinkedX509Policy → Option LinkedSshPolicy → Option DbPolicy
db_policy none none = none
db_policy x509 ssh = some (record { x509 = db_x509 x509; ssh = db_ssh ssh })

unfoldable pub linked_to_db : Option LinkedPolicy → Option DbPolicy
unfolding db_policy
linked_to_db none = none
linked_to_db (some p) = db_policy p.x509 p.ssh
