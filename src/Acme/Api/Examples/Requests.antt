-- ===== src/Acme/Api/Examples/Requests.antt =====
-- A request, an account, a provisioner and a database for the examples.
use certificates.Base.{ℕ, ◌+◌, true, false, none, some, [], ◌∷◌, codes, ok, err}
use certificates.Policy.Types.{External}
use certificates.Acme.Types.{valid, dns, Identifier, plain, Order}
use certificates.Acme.Account.{Account}
use certificates.Acme.Db.{Db}
use certificates.Acme.Api.{NewOrderRequest, AcmeProvisioner, OrderCalls, OrderDb}
use certificates.Acme.Api.NewOrder.{OrderContext}

abbrev pub as_it_is : External
as_it_is = record {
  idna_lookup_to_ascii = λ s. some s;
  idna_to_ascii = λ s. some s;
  split_sans = λ l. record { dns_names = l; ips = []; email_addresses = []; uris = [] };
  parse_ip = λ s. none;
  parse_cidr = λ s. none;
  split_host_port = λ s. none;
  ip_string = λ i. i;
  cidr_string = λ n. n.ip;
}

abbrev pub every_name : OrderCalls
every_name = record { libraries = as_it_is; sanitize_name = λ s. some s; authority_engine = none }

abbrev pub joe : Account
joe = record { id = codes "joe"; key = []; contact = []; status = valid }

abbrev pub acme : AcmeProvisioner
acme = record { id = codes "acme"; x509_policy = none; default_tls_cert_duration = 86400 }

abbrev pub star_id : Identifier
star_id = record { type = dns; value = codes "*.web" }

abbrev pub star_request : NewOrderRequest
star_request = record { identifiers = star_id ∷ []; not_before = 0; not_after = 0 }

abbrev pub of_joe : OrderContext
of_joe = record {
  account = ok joe;
  provisioner = ok acme;
  request = ok star_request;
  acme_provisioner = ok false;
  is_challenge_enabled = λ t. true;
  random_token = λ n. some (codes "token");
  now = 1000;
}

abbrev pub stored_order : Order
stored_order = record {
  id = codes "1";
  account_id = codes "joe";
  provisioner_id = codes "acme";
  status = valid;
  expires_at = 87400;
  identifiers = star_id ∷ [];
  not_before = 940;
  not_after = 87400;
  error = none;
  authorization_ids = [];
  certificate_id = codes "2";
}

-- A database that gives numbers, and has one order.
abbrev pub numbered : OrderDb ℕ
numbered = record {
  get_account_policy = λ p a s. ok none;
  create_challenge = λ ch s. (ok (s ∷ []), s + 1);
  create_authorization = λ az s. (ok (s ∷ []), s + 1);
  create_order = λ o s. (ok (s ∷ []), s + 1);
  get_order = λ id s. ok stored_order;
}

abbrev pub empty_db : Db ℕ
empty_db = record {
  get_authorization = λ id s. (err plain, s);
  update_authorization = λ az s. (err plain, s);
  update_challenge = λ ch s. (err plain, s);
  update_order = λ o s. (err plain, s);
  create_certificate = λ c s. (err plain, s);
}
