-- ===== src/Acme/Examples.antt =====
-- The theorems on acme/ at concrete orders, requests and a database that keeps what is written.
use certificates.Base.{
  ◌≡◌, ◌↔◌, ◌⊎◌, refl, false, Option, none, some, List, [], ◌∷◌, Bytes, codes, map, ok, to_lower,
  bytes_eq,
}
use certificates.Policy.Types.{External}
use certificates.Policy.Dedupe.{dedupe_loop, has_key}
use certificates.Acme.Types.{
  Status, valid, pending, ready, dns, Identifier, Challenge, http01, Authorization, Order,
}
use certificates.Acme.Db.{Db}
use certificates.Acme.Authorization as Authz
use certificates.Acme.Authorization.Steps.{AuthzRuns, update_status-AuthzRuns}
use certificates.Acme.Order as Orders
use certificates.Acme.Order.Steps.{OrderRuns, update_status-OrderRuns}
use certificates.Acme.Names.{
  CertificateRequest, canonicalize, with_common_name, unique_sorted_lower_names, unique_sorted_ips,
  insert, sort_strings,
}
use certificates.Acme.Names.Sorted.{IsAscending}
use certificates.Acme.Names.Unique.{SameKeys, unique_sorted_lower_names_exact}
use certificates.Acme.Sans.{San, collect, sans, dns_sans, ip_sans}
use certificates.Acme.Sans.Exact.{Agrees, sans_exact}
use certificates.Acme.Finalize.{Signer, finalize, signed, sign_request, permanent_identifier_of}
use certificates.Acme.Finalize.Issue.{Issues, finalize-ok}

abbrev pub plain_libraries : External
plain_libraries = record {
  idna_lookup_to_ascii = λ s. some s;
  idna_to_ascii = λ s. some s;
  split_sans = λ l. record { dns_names = l; ips = []; email_addresses = []; uris = [] };
  parse_ip = λ s. none;
  parse_cidr = λ s. none;
  split_host_port = λ s. none;
  ip_string = λ i. i;
  cidr_string = λ n. n.ip;
}

abbrev web_identifier : Identifier
web_identifier = record { type = dns; value = codes "web" }

abbrev proven : Challenge
proven = record {
  id = codes "ch";
  account_id = codes "acc";
  authorization_id = codes "az";
  value = codes "web";
  type = http01;
  status = valid;
  token = codes "t";
  validated_at = codes "now";
  error = none;
}

abbrev web_authorization : Authorization
web_authorization = record {
  id = codes "az";
  account_id = codes "acc";
  token = codes "t";
  identifier = web_identifier;
  status = pending;
  challenges = proven ∷ [];
  wildcard = false;
  expires_at = 100;
  error = none;
}

abbrev pub web_order : Status → Order
web_order st = record {
  id = codes "o";
  account_id = codes "acc";
  provisioner_id = codes "p";
  status = st;
  expires_at = 100;
  identifiers = web_identifier ∷ [];
  not_before = 0;
  not_after = 90;
  error = none;
  authorization_ids = codes "az" ∷ [];
  certificate_id = [];
}

-- The state is the last order that was written. Every authorization is pending with a valid
-- challenge.
abbrev small_db : Db (Option Order)
small_db = record {
  get_authorization = λ id s. (ok web_authorization, s);
  update_authorization = λ az s. (ok tt, s);
  update_challenge = λ ch s. (ok tt, s);
  update_order = λ o s. (ok tt, some o);
  create_certificate = λ c s. (ok (codes "cert"), s);
}

abbrev pub willing : Signer
willing = record {
  authorize_sign = ok tt;
  template_options = λ r. ok tt;
  sign = λ r. ok (codes "leaf", []);
}

abbrev pub web_request : CertificateRequest
web_request = record {
  common_name = codes "Web";
  dns_names = [];
  ip_addresses = [];
  email_addresses = [];
  uris = [];
}

update_status-AuthzRuns_example :
    AuthzRuns small_db 50 web_authorization none
      (Authz.update_status small_db 50 web_authorization none)
update_status-AuthzRuns_example = update_status-AuthzRuns small_db 50 web_authorization none

update_status-OrderRuns_example :
    OrderRuns small_db 50
      (web_order pending)
      none
      (Orders.update_status small_db 50 (web_order pending) none)
update_status-OrderRuns_example = update_status-OrderRuns small_db 50 (web_order pending) none

unique_sorted_lower_names_exact_example :
    IsAscending (unique_sorted_lower_names (codes "Web" ∷ codes "web" ∷ []))
    × SameKeys
        (unique_sorted_lower_names (codes "Web" ∷ codes "web" ∷ []))
        (map to_lower (codes "Web" ∷ codes "web" ∷ []))
    × ((others : List Bytes)
        → (unique_sorted_lower_names (codes "Web" ∷ codes "web" ∷ [])
            ≡ unique_sorted_lower_names others)
          ↔ SameKeys (map to_lower (codes "Web" ∷ codes "web" ∷ [])) (map to_lower others))
unique_sorted_lower_names_exact_example =
    unique_sorted_lower_names_exact (codes "Web" ∷ codes "web" ∷ [])

abbrev web_san : List San
web_san = San.dns_san (codes "web") ∷ []

web_request-sans :
    sans plain_libraries (web_order ready) (canonicalize plain_libraries web_request) ≡ ok web_san
unfolding sans canonicalize with_common_name collect unique_sorted_lower_names sort_strings
    dedupe_loop has_key insert dns_sans bytes_eq to_lower unique_sorted_ips ip_sans
web_request-sans = refl

sans_exact_example :
    (sans plain_libraries (web_order ready) (canonicalize plain_libraries web_request) ≡ ok web_san)
    ↔ Agrees plain_libraries (web_order ready) (canonicalize plain_libraries web_request) web_san
sans_exact_example =
    sans_exact plain_libraries (web_order ready) (canonicalize plain_libraries web_request) web_san

-- The order that `Finalize` makes of a pending one.
abbrev issued_order : Order
issued_order = record (web_order valid) { certificate_id = codes "cert" }

issued :
    finalize small_db plain_libraries willing 50 (web_order pending) web_request none
    ≡ ((issued_order, ok tt), some issued_order)
unfolding finalize Orders.update_status Orders.load_statuses Orders.load_status Orders.decide
    Orders.count Orders.save Authz.update_status Authz.any_valid Authz.save signed sign_request
    permanent_identifier_of sans canonicalize with_common_name collect unique_sorted_lower_names
    sort_strings dedupe_loop has_key insert dns_sans bytes_eq to_lower unique_sorted_ips ip_sans
issued = refl

finalize-ok_example :
    (o1 : Order) × (s1 : Option Order) × (Orders.update_status small_db 50 (web_order pending) none
      ≡ ((o1, ok tt), s1))
    × (((o1.status ≡ valid) × (issued_order ≡ o1) × (some issued_order ≡ s1))
        ⊎ Issues small_db plain_libraries willing o1 web_request s1 issued_order
            (some issued_order))
finalize-ok_example =
    finalize-ok small_db plain_libraries willing 50 (web_order pending) web_request none
      (some issued_order) issued_order issued

-- An order that has expired is written as invalid.
abbrev late_order : Order
late_order = Orders.expired (web_order pending)

expires_late :
    Orders.update_status small_db 200 (web_order pending) none
    ≡ ((late_order, ok tt), some late_order)
unfolding Orders.update_status Orders.save
expires_late = refl
