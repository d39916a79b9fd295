-- ===== src/Acme/Api.antt =====
-- The handlers for orders of acme/api/order.go: the requests, what the context of a request holds,
-- and the operations of `acme.DB` that the handlers call. The reply's links are left out.
pub mod NewOrder
pub mod Owned
mod Examples
use certificates.Base.{
  ◌≡◌, refl, arith, ℕ, Bool, true, false, Option, none, some, List, [], ◌∷◌, Bytes, codes, is_empty,
  length, ltb, ◌==◌, drop, has_prefix, if◌then◌else◌, Outcome, ok, err, panic, ◌>>◌,
}
use certificates.Policy.Types.{External, NamePolicyError}
use certificates.Policy.Constraints.{Verdict}
use certificates.Policy.Engine.{NamePolicyEngine}
use certificates.Policy.Entry as Entry
use certificates.Acme.Types.{
  IdentifierType, ip, dns, permanent_identifier, unsupported, Identifier, Error, problem, malformed,
  server_internal, rejected_identifier, plain, wrapped, Challenge, Authorization, Order,
}
use certificates.Acme.Account.{Account}
use certificates.Acme.Db.{Action}
use certificates.Authority.Options.{X509NameOptions, X509PolicyOptions}
use certificates.Authority.Engine.{Engine, new_x509_policy_engine, sans_by, are_sans_allowed}

-- NewOrderRequest; a time of 0 is the zero time.
pub record NewOrderRequest : Type 0 where
  pub identifiers : List Identifier
  pub not_before : ℕ
  pub not_after : ℕ

-- acme.PolicyNames, acme.X509Policy and acme.Policy of acme/account.go
pub record PolicyNames : Type 0 where
  pub dns_names : List Bytes
  pub ip_ranges : List Bytes

pub record AccountPolicy : Type 0 where
  pub allowed : PolicyNames
  pub denied : PolicyNames
  pub allow_wildcard_names : Bool

-- The ACME provisioner: its identifier, the engine of its policy, and the default duration of a
-- certificate in seconds.
pub record AcmeProvisioner : Type 0 where
  pub id : Bytes
  pub x509_policy : Option NamePolicyEngine
  pub default_tls_cert_duration : ℕ

-- The third-party functions that the handlers call, `x509util.SanitizeName` among them, and the
-- engine of the authority in force.
pub record OrderCalls : Type 0 where
  pub libraries : External
  pub sanitize_name : Bytes → Option Bytes
  pub authority_engine : Option Engine

-- The operations of the database. The identifier that one sets on its argument comes back. The
-- policy is that of the key of an account, where there is a key.
pub record OrderDb (S : Type 0) : Type 0 where
  pub get_account_policy : Bytes → Bytes → S → Outcome Error (Option (Option AccountPolicy))
  pub create_challenge : Challenge → Action S Bytes
  pub create_authorization : Authorization → Action S Bytes
  pub create_order : Order → Action S Bytes
  pub get_order : Bytes → S → Outcome Error Order

unfoldable pub trim_if_wildcard : Bytes → Bytes × Bool
trim_if_wildcard value =
    if has_prefix value (codes "*.") then (drop 2 value, true) else (value, false)

-- The getters of acme.Policy, as the options that they give; those of a nil pointer have no names.
abbrev name_options : PolicyNames → X509NameOptions
name_options n = record {
  common_names = [];
  dns_domains = n.dns_names;
  ip_ranges = n.ip_ranges;
  email_addresses = [];
  uri_domains = [];
}

abbrev account_policy_options : Option AccountPolicy → X509PolicyOptions
account_policy_options none = record {
  allowed_names = none;
  denied_names = none;
  allow_wildcard_names = false;
}
account_policy_options (some p) = record {
  allowed_names = some (name_options p.allowed);
  denied_names = some (name_options p.denied);
  allow_wildcard_names = p.allow_wildcard_names;
}

-- What `acme.WrapError` makes of an error of an engine or of a configuration.
abbrev rejected : Verdict → Outcome Error (Unit {0})
rejected (ok u) = ok u
rejected (err e) = err (problem rejected_identifier)
rejected panic = panic

pub wrapped-ok : {A : Type 0} (r : Outcome Error A) (a : A) → wrapped r ≡ ok a → r ≡ ok a
wrapped-ok (ok b) a h = h
wrapped-ok (err e) a h = absurd (ground arith)
wrapped-ok panic a h = absurd (ground arith)

module _ (calls : OrderCalls) where
  is_valid_identifier : IdentifierType → Bytes → Bool
  is_valid_identifier ip value = elim (calls.libraries.parse_ip value) [
    | none ↦ false
    | some a ↦ true
  ]
  is_valid_identifier dns value = elim (calls.sanitize_name (trim_if_wildcard value).0) [
    | none ↦ false
    | some n ↦ true
  ]
  is_valid_identifier permanent_identifier value = if is_empty value then false else true
  is_valid_identifier (unsupported t) value = false

  unfoldable pub valid_identifiers : List Identifier → Bool
  unfolding is_valid_identifier
  valid_identifiers [] = true
  valid_identifiers (i ∷ ids) =
      if is_valid_identifier i.type i.value then valid_identifiers ids else false

  -- NewOrderRequest.Validate
  unfoldable pub validate_request : NewOrderRequest → Outcome Error (Unit {0})
  validate_request n =
      if length n.identifiers == 0
      then err (problem malformed)
      else if valid_identifiers n.identifiers
      then ok tt
      else err (problem malformed)

  -- newACMEPolicyEngine
  unfoldable pub new_acme_policy_engine :
      Option (Option AccountPolicy) → Outcome Error (Option NamePolicyEngine)
  new_acme_policy_engine none = ok none
  new_acme_policy_engine (some p) =
      elim (new_x509_policy_engine calls.libraries (some (account_policy_options p))) [
        | ok e ↦ ok e
        | err e ↦ err (problem server_internal)
        | panic ↦ panic
      ]

  -- The address of a text that is none is nil.
  abbrev ip_of_text : Bytes → Bytes
  ip_of_text value = elim (calls.libraries.parse_ip value) [ none ↦ [] | some a ↦ a ]

  by_identifier_type : NamePolicyEngine → IdentifierType → Bytes → Outcome Error (Unit {0})
  by_identifier_type p ip value =
      rejected (Entry.is_ip_allowed calls.libraries p (ip_of_text value))
  by_identifier_type p dns value = rejected (Entry.is_dns_allowed calls.libraries p value)
  by_identifier_type p permanent_identifier value = err (problem rejected_identifier)
  by_identifier_type p (unsupported t) value = err (problem rejected_identifier)

  -- ACME.AuthorizeOrderIdentifier of authority/provisioner/acme.go, with the error as it is wrapped.
  unfoldable pub authorize_order_identifier :
      Option NamePolicyEngine → Identifier → Outcome Error (Unit {0})
  unfolding by_identifier_type
  authorize_order_identifier none i = ok tt
  authorize_order_identifier (some p) i = by_identifier_type p i.type i.value

  -- The policies of the account, of the provisioner and of the authority.
  unfoldable pub check_identifier :
      Option NamePolicyEngine → AcmeProvisioner → Identifier → Outcome Error (Unit {0})
  check_identifier acme_policy prov i =
      rejected (sans_by calls.libraries acme_policy (i.value ∷ []))
      >> (authorize_order_identifier prov.x509_policy i
          >> rejected (are_sans_allowed calls.libraries calls.authority_engine (i.value ∷ [])))

  unfoldable pub check_identifiers :
      Option NamePolicyEngine → AcmeProvisioner → List Identifier → Outcome Error (Unit {0})
  check_identifiers acme_policy prov [] = ok tt
  check_identifiers acme_policy prov (i ∷ ids) =
      check_identifier acme_policy prov i >> check_identifiers acme_policy prov ids
