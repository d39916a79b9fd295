-- ===== src/Acme/Api/NewOrder.antt =====
-- `NewOrder` of acme/api/order.go, with the authorizations and challenges that it makes.
pub mod Authorizations
pub mod Created
use certificates.Base.{
  ℕ, ◌+◌, ◌-◌, Bool, true, false, Option, none, some, List, [], ◌∷◌, ◌++◌, Bytes, ◌==◌,
  if◌then◌else◌, Outcome, ok, err, panic, ◌>>◌, ◌>>=◌,
}
use certificates.Acme.Types.{
  IdentifierType, ip, dns, permanent_identifier, unsupported, Identifier, Error, problem,
  server_internal, wrap_ise, wrapped, pending, ChallengeType, http01, dns01, tlsalpn01,
  deviceattest01, Challenge, Authorization, Order,
}
use certificates.Acme.Account.{Account}
use certificates.Acme.Db.{Action}
use certificates.Acme.Nosql.{◌>=>◌}
use certificates.Acme.Api.{
  NewOrderRequest, AcmeProvisioner, OrderCalls, OrderDb, AccountPolicy, trim_if_wildcard,
  validate_request, new_acme_policy_engine, check_identifiers,
}

-- What the context of the request holds: the account, the provisioner, the body that was parsed, and
-- `RequireEAB` of the provisioner where it is an ACME provisioner; then the challenges that the
-- provisioner allows, the random token of each authorization, and the clock.
pub record OrderContext : Type 0 where
  pub account : Outcome Error Account
  pub provisioner : Outcome Error AcmeProvisioner
  pub request : Outcome Error NewOrderRequest
  pub acme_provisioner : Outcome Error Bool
  pub is_challenge_enabled : ChallengeType → Bool
  pub random_token : ℕ → Option Bytes
  pub now : ℕ

-- A day, and a minute.
abbrev pub default_order_expiry : ℕ
default_order_expiry = 86400

abbrev pub default_order_backdate : ℕ
default_order_backdate = 60

unfoldable types_for : IdentifierType → Bool → List ChallengeType
types_for ip wildcard = http01 ∷ tlsalpn01 ∷ []
types_for dns wildcard = if wildcard then dns01 ∷ [] else dns01 ∷ http01 ∷ tlsalpn01 ∷ []
types_for permanent_identifier wildcard = deviceattest01 ∷ []
types_for (unsupported t) wildcard = []

unfoldable pub challenge_types : Authorization → List ChallengeType
unfolding types_for
challenge_types az = types_for az.identifier.type az.wildcard

-- An error of the database as a server error.
abbrev pub wrapped_db : {S A : Type 0} → Outcome Error A × S → Outcome Error A × S
wrapped_db (r, s) = (wrapped r, s)

-- What an authorization gets from the identifier of the order.
unfoldable pub for_identifier : Authorization → Authorization
for_identifier az = record az {
  wildcard = (trim_if_wildcard az.identifier.value).1;
  identifier = record {
    type = az.identifier.type;
    value = (trim_if_wildcard az.identifier.value).0;
  };
}

abbrev pub new_challenge : Authorization → ChallengeType → Challenge
new_challenge az typ = record {
  id = [];
  account_id = az.account_id;
  authorization_id = [];
  value = az.identifier.value;
  type = typ;
  status = pending;
  token = az.token;
  validated_at = [];
  error = none;
}

module _ (ctx : OrderContext) {S : Type 0} (db : OrderDb S) where
  -- The loop over the types of the challenges.
  unfoldable pub create_challenges : Authorization → List ChallengeType → Action S (List Challenge)
  create_challenges az [] s = (ok [], s)
  create_challenges az (typ ∷ types) s = elim (ctx.is_challenge_enabled typ) [
    | true ↦ wrapped_db (db.create_challenge (new_challenge az typ) s) >=> λ id s1.
        create_challenges az types s1 >=> λ challenges s2.
        (ok (record (new_challenge az typ) { id = id } ∷ challenges), s2)
    | false ↦ create_challenges az types s
  ]

  -- From the token on.
  unfoldable pub store_authorization : Option Bytes → Authorization → Action S Authorization
  store_authorization none az s = (err (problem server_internal), s)
  store_authorization (some token) az s =
      let az1 = record az { token = token } in
      create_challenges az1 (challenge_types az1) s >=> λ challenges s1.
      wrapped_db (db.create_authorization (record az1 { challenges = challenges }) s1) >=> λ id s2.
      (ok (record az1 { challenges = challenges; id = id }), s2)

  -- newAuthorization
  unfoldable pub new_authorization : Option Bytes → Authorization → Action S Authorization
  new_authorization token az s = store_authorization token (for_identifier az) s

  -- The authorization of an identifier of the order, as it is handed over.
  abbrev pub pending_authorization : Order → Identifier → Authorization
  pending_authorization o i = record {
    id = [];
    account_id = o.account_id;
    token = [];
    identifier = i;
    status = pending;
    challenges = [];
    wildcard = false;
    expires_at = o.expires_at;
    error = none;
  }

  -- The loop over the identifiers, from an index on.
  unfoldable pub new_authorizations : ℕ → Order → List Identifier → Action S (List Bytes)
  new_authorizations n o [] s = (ok [], s)
  new_authorizations n o (i ∷ ids) s =
      new_authorization (ctx.random_token n) (pending_authorization o i) s >=> λ az s1.
      new_authorizations (n + 1) o ids s1 >=> λ az_ids s2. (ok (az.id ∷ az_ids), s2)

  unfoldable pub requested_order : Account → AcmeProvisioner → NewOrderRequest → Order
  requested_order acc prov nor = record {
    id = [];
    account_id = acc.id;
    provisioner_id = prov.id;
    status = pending;
    expires_at = ctx.now + default_order_expiry;
    identifiers = nor.identifiers;
    not_before = nor.not_before;
    not_after = nor.not_after;
    error = none;
    authorization_ids = [];
    certificate_id = [];
  }

  -- The times that the request leaves out; the start is moved back after the end was taken from it.
  -- The clock is past the first minute of its epoch.
  unfoldable pub with_times : AcmeProvisioner → NewOrderRequest → Order → Order
  with_times prov nor o =
      let start = if o.not_before == 0 then ctx.now else o.not_before in
      record o {
        not_after =
            if o.not_after == 0 then start + prov.default_tls_cert_duration else o.not_after;
        not_before = if nor.not_before == 0 then start - default_order_backdate else start;
      }

  unfoldable pub create_requested : Account → AcmeProvisioner → NewOrderRequest → Action S Order
  create_requested acc prov nor s =
      let o = requested_order acc prov nor in
      new_authorizations 0 o nor.identifiers s >=> λ az_ids s1.
      let o' = with_times prov nor (record o { authorization_ids = az_ids }) in
      wrapped_db (db.create_order o' s1) >=> λ id s2. (ok (record o' { id = id }), s2)

  -- The key of the account, where the provisioner requires one.
  unfoldable pub account_policy :
      Bool → AcmeProvisioner → Account → S → Outcome Error (Option (Option AccountPolicy))
  account_policy require_eab prov acc s =
      if require_eab then wrapped (db.get_account_policy prov.id acc.id s) else ok none

  module _ (calls : OrderCalls) where
    -- The part of the handler before the order is made.
    unfoldable pub authorize_order : S → Outcome Error (Account × AcmeProvisioner × NewOrderRequest)
    authorize_order s = do
      acc ← ctx.account
      prov ← ctx.provisioner
      nor ← ctx.request
      _ ← validate_request calls nor
      require_eab ← ctx.acme_provisioner
      eak ← account_policy require_eab prov acc s
      acme_policy ← new_acme_policy_engine calls eak
      _ ← check_identifiers calls acme_policy prov nor.identifiers
      ok (acc, prov, nor)

    -- NewOrder
    unfoldable pub new_order : Action S Order
    new_order s = (authorize_order s, s) >=> λ (acc, prov, nor) s1. create_requested acc prov nor s1
