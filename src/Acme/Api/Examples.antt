-- ===== src/Acme/Api/Examples.antt =====
-- The theorems on the handlers for orders at concrete requests.
mod Requests
use certificates.Base.{
  ℕ, ◌+◌, ◌≡◌, ◌≢◌, refl, inl, true, false, none, some, [], ◌∷◌, codes, All, drop, has_prefix,
  bytes_eq, ok, err, arith,
}
use certificates.Policy.Types.{External}
use certificates.Acme.Types.{
  valid, pending, dns, Identifier, problem, unauthorized, plain, dns01, Authorization, Order,
}
use certificates.Acme.Account.{Account}
use certificates.Acme.Names.{CertificateRequest}
use certificates.Acme.Db.{Db}
use certificates.Acme.Order.{update_status}
use certificates.Acme.Finalize.{Signer, finalize}
use certificates.Acme.Api.{
  NewOrderRequest, AcmeProvisioner, OrderCalls, OrderDb, trim_if_wildcard, valid_identifiers,
  validate_request, new_acme_policy_engine, authorize_order_identifier, check_identifier,
  check_identifiers,
}
use certificates.Acme.Api.NewOrder.{
  OrderContext, create_challenges, challenge_types, for_identifier, store_authorization,
  new_authorization, new_authorizations, requested_order, with_times, create_requested,
  account_policy, authorize_order, new_order, pending_authorization,
}
use certificates.Acme.Api.NewOrder.Authorizations.{new_authorization-wildcard}
use certificates.Acme.Api.NewOrder.Created.{OrderCreated, new_order-OrderCreated}
use certificates.Acme.Api.Owned.{
  OwnerContext, OwnOrder, owned_by, get_order, finalize_order, strangers_refused,
  finalize_order-OwnOrder,
}
use Requests.{
  as_it_is, every_name, joe, acme, star_id, star_request, of_joe, stored_order, numbered, empty_db,
}

abbrev star_order : Order
star_order = record {
  id = 9 ∷ [];
  account_id = codes "joe";
  provisioner_id = codes "acme";
  status = pending;
  expires_at = 87400;
  identifiers = star_id ∷ [];
  not_before = 940;
  not_after = 87400;
  error = none;
  authorization_ids = (8 ∷ []) ∷ [];
  certificate_id = [];
}

star_order-is_new : new_order of_joe numbered every_name 7 ≡ (ok star_order, 10)
unfolding new_order authorize_order validate_request valid_identifiers trim_if_wildcard has_prefix
    account_policy new_acme_policy_engine check_identifiers check_identifier
    authorize_order_identifier create_requested requested_order new_authorizations new_authorization
    store_authorization for_identifier challenge_types create_challenges with_times
star_order-is_new = refl

new_order-OrderCreated_example : OrderCreated of_joe numbered every_name 7 10 star_order
new_order-OrderCreated_example =
    new_order-OrderCreated of_joe numbered every_name 7 10 star_order star_order-is_new

abbrev star_authorization : Authorization
star_authorization = record {
  id = 8 ∷ [];
  account_id = codes "joe";
  token = codes "token";
  identifier = record { type = dns; value = codes "web" };
  status = pending;
  challenges =
      record {
        id = 7 ∷ [];
        account_id = codes "joe";
        authorization_id = [];
        value = codes "web";
        type = dns01;
        status = pending;
        token = codes "token";
        validated_at = [];
        error = none;
      }
      ∷ [];
  wildcard = true;
  expires_at = 87400;
  error = none;
}

star_authorization-is_new :
    new_authorization of_joe numbered
      (some (codes "token"))
      (pending_authorization of_joe numbered star_order star_id)
      7
    ≡ (ok star_authorization, 9)
unfolding new_authorization store_authorization for_identifier challenge_types create_challenges
    trim_if_wildcard has_prefix
star_authorization-is_new = refl

star_id-has_prefix : has_prefix (codes "*.web") (codes "*.") ≡ true
unfolding has_prefix
star_id-has_prefix = refl

new_authorization-wildcard_example :
    All
      (λ ch. (ch.type ≡ dns01) × (ch.value ≡ drop 2 (codes "*.web")))
      star_authorization.challenges
new_authorization-wildcard_example =
    new_authorization-wildcard of_joe numbered (some (codes "token")) star_order star_id 7 9
      star_authorization refl star_id-has_prefix star_authorization-is_new

abbrev no_names : CertificateRequest
no_names = record {
  common_name = [];
  dns_names = [];
  ip_addresses = [];
  email_addresses = [];
  uris = [];
}

abbrev no_signer : Signer
no_signer = record {
  authorize_sign = err plain;
  template_options = λ r. err plain;
  sign = λ r. err plain;
}

abbrev by_joe : OwnerContext
by_joe = record {
  account = ok joe;
  provisioner = ok acme;
  csr = ok no_names;
  order_id = codes "1";
  now = 2000;
}

abbrev ann : Account
ann = record joe { id = codes "ann" }

abbrev by_ann : OwnerContext
by_ann = record by_joe { account = ok ann }

ann-is_not_joe : codes "ann" ≢ codes "joe"
ann-is_not_joe h = absurd (ground arith)

strangers_refused_example :
    (get_order by_ann numbered empty_db 7 ≡ (err (problem unauthorized), 7))
    × (finalize_order by_ann numbered empty_db as_it_is no_signer 7
        ≡ (err (problem unauthorized), 7))
strangers_refused_example =
    strangers_refused by_ann numbered empty_db as_it_is no_signer ann acme no_names stored_order 7
      refl refl refl refl (inl ann-is_not_joe)

joe-is_owner : finalize_order by_joe numbered empty_db as_it_is no_signer 7 ≡ (ok stored_order, 7)
unfolding finalize_order owned_by bytes_eq finalize update_status
joe-is_owner = refl

finalize_order-OwnOrder_example :
    OwnOrder by_joe numbered empty_db as_it_is no_signer 7 7 stored_order
finalize_order-OwnOrder_example =
    finalize_order-OwnOrder by_joe numbered empty_db as_it_is no_signer 7 7 stored_order
      joe-is_owner
