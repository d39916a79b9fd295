-- ===== src/Acme/ChallengeExamples.antt =====
-- The theorem on acme/challenge.go at an HTTP answer that proves a challenge.
use certificates.Base.{
  ◌≡◌, ◌⊎◌, refl, codes, Option, some, none, [], ◌∷◌, ◌++◌, Outcome, ok, err, bytes_eq, trim_space,
}
use certificates.Policy.Types.{External}
use certificates.Acme.Types.{pending, valid, plain, Error, Challenge, deviceattest01, http01}
use certificates.Acme.Db.{Db}
use certificates.Acme.Challenge.{
  failed, Client, key_authorization, write, http01_validate, validate_challenge,
}
use certificates.Acme.Challenge.Proof.{IsProved, validate_challenge-IsProved}

abbrev plain_libraries : External
plain_libraries = record {
  idna_lookup_to_ascii = λ s. some s;
  idna_to_ascii = λ s. some s;
  split_sans = λ l. record { dns_names = l; ips = []; email_addresses = []; uris = [] };
  parse_ip = λ s. none;
  parse_cidr = λ s. none;
  split_host_port = λ s. none;
  ip_string = λ i. i;
  cidr_string = λ n. n.ip;
}

-- The state is the last challenge that was written.
abbrev challenge_db : Db (Option Challenge)
challenge_db = record {
  get_authorization = λ id s. (err plain, s);
  update_authorization = λ az s. (err plain, s);
  update_challenge = λ ch s. (ok tt, some ch);
  update_order = λ o s. (err plain, s);
  create_certificate = λ c s. (err plain, s);
}

-- Every web server answers with one key authorization and a line feed.
abbrev web_client : Client
web_client = record {
  get = λ host path. some (record { code = 200; body = some (codes "t.print" ++ 10 ∷ []) });
  lookup_txt = λ domain. none;
  tls_dial = λ host. failed 0;
  encoded_thumbprint = some (codes "print");
  sha256 = λ s. s;
  base64 = λ s. s;
  asn1_octets = λ s. none;
  now_text = codes "now";
}

abbrev web_challenge : Challenge
web_challenge = record {
  id = codes "ch";
  account_id = codes "acc";
  authorization_id = codes "az";
  value = codes "web";
  type = http01;
  status = pending;
  token = codes "t";
  validated_at = [];
  error = none;
}

abbrev proved_challenge : Challenge
proved_challenge = record web_challenge { status = valid; validated_at = codes "now" }

-- No device is attested.
abbrev no_device :
    Challenge → Option Challenge → (Challenge × Outcome Error (Unit {0})) × Option Challenge
no_device ch s = ((ch, err plain), s)

web_challenge-validate :
    validate_challenge challenge_db plain_libraries web_client no_device web_challenge none
    ≡ ((proved_challenge, ok tt), some proved_challenge)
unfolding validate_challenge http01_validate key_authorization bytes_eq trim_space write
web_challenge-validate = refl

validate_challenge-IsProved_example :
    ((web_challenge.status ≡ valid)
      × (proved_challenge ≡ web_challenge)
      × (some proved_challenge ≡ none))
    ⊎ ((web_challenge.status ≡ pending)
        × ((web_challenge.type ≡ deviceattest01)
            ⊎ IsProved challenge_db plain_libraries web_client http01 web_challenge none
                proved_challenge
                (some proved_challenge)))
validate_challenge-IsProved_example =
    validate_challenge-IsProved challenge_db plain_libraries web_client no_device web_challenge none
      (some proved_challenge) proved_challenge web_challenge-validate refl
