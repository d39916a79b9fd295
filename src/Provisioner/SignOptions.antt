-- ===== src/Provisioner/SignOptions.antt =====
-- The validators of certificate requests and the common name of authority/provisioner/sign_options.go.
-- A map of texts to true is the list of its keys.
pub mod Exact
use certificates.Base.{
  ℕ, ◌/◌, Bool, true, false, ◌&&◌, ltb, ◌==◌, List, [], ◌∷◌, map, length, is_empty, Bytes, bytes_eq,
  if◌then◌else◌, Outcome, ok, err, panic, ◌>>◌,
}
use certificates.Policy.Types.{External, Url}
use certificates.Policy.Dedupe.{has_key}
use certificates.Acme.Names.{CertificateRequest}

-- errs.Forbidden and errs.BadRequest
pub data SignError : Type 0 where
  forbidden bad_request : SignError

abbrev pub Check : Type 0
Check = Outcome SignError (Unit {0})

abbrev first_is : Bytes → List Bytes → Check
first_is e [] = panic
first_is e (a ∷ rest) =
    if is_empty a then err forbidden else if bytes_eq a e then ok tt else err forbidden

-- emailOnlyIdentity.Valid
unfoldable pub email_only_identity : Bytes → CertificateRequest → Check
email_only_identity e req =
    if ltb 0 (length req.dns_names)
    then err forbidden
    else if ltb 0 (length req.ip_addresses)
    then err forbidden
    else if ltb 0 (length req.uris)
    then err forbidden
    else if length req.email_addresses == 0
    then err forbidden
    else if ltb 1 (length req.email_addresses)
    then err forbidden
    else first_is e req.email_addresses

-- The types of a public key that the validators tell apart, with the bytes of an RSA key.
pub data PublicKey : Type 0 where
  rsa : ℕ → PublicKey
  ecdsa ed25519 unknown : PublicKey

-- publicKeyMinimumLengthValidator.Valid, over a number of bits
unfoldable pub public_key_minimum_length : ℕ → PublicKey → Check
public_key_minimum_length bits (rsa size) = if ltb size (bits / 8) then err forbidden else ok tt
public_key_minimum_length bits ecdsa = ok tt
public_key_minimum_length bits ed25519 = ok tt
public_key_minimum_length bits unknown = err bad_request

-- defaultPublicKeyValidator.Valid; the least number of bytes is of a third-party package.
unfoldable pub default_public_key : ℕ → PublicKey → Check
default_public_key least (rsa size) = if ltb size least then err forbidden else ok tt
default_public_key least ecdsa = ok tt
default_public_key least ed25519 = ok tt
default_public_key least unknown = err bad_request

-- commonNameValidator.Valid
unfoldable pub common_name_validator : Bytes → CertificateRequest → Check
common_name_validator v req =
    if is_empty req.common_name
    then ok tt
    else if bytes_eq req.common_name v
    then ok tt
    else err forbidden

-- commonNameSliceValidator.Valid
unfoldable pub common_name_slice : List Bytes → CertificateRequest → Check
common_name_slice v req =
    if is_empty req.common_name
    then ok tt
    else if has_key v req.common_name
    then ok tt
    else err forbidden

unfoldable pub all_in : List Bytes → List Bytes → Bool
all_in [] keys = true
all_in (k ∷ list) keys = has_key keys k && all_in list keys

-- reflect.DeepEqual on the maps of two lists
unfoldable pub deep_equal : List Bytes → List Bytes → Bool
unfolding all_in
deep_equal want got = all_in want got && all_in got want

-- What dnsNamesValidator, ipAddressesValidator, emailAddressesValidator and urisValidator share.
unfoldable pub names_match : List Bytes → List Bytes → Check
names_match want got =
    if is_empty got then ok tt else if deep_equal want got then ok tt else err forbidden

module _ (x : External) where
  -- defaultSANsValidator.Valid
  unfoldable pub default_sans : List Bytes → CertificateRequest → Check
  default_sans v req =
      let want = x.split_sans v in
      names_match want.dns_names req.dns_names
      >> (names_match want.email_addresses req.email_addresses
          >> (names_match (map x.ip_string want.ips) (map x.ip_string req.ip_addresses)
              >> names_match (map (λ (u : Url). u.string) want.uris) req.uris))

-- forceCNOption.Modify on the common name and the DNS names of a certificate
unfoldable pub force_cn : Bool → Bytes → List Bytes → Outcome SignError Bytes
force_cn false name dns_names = ok name
force_cn true (b ∷ name) dns_names = ok (b ∷ name)
force_cn true [] [] = err bad_request
force_cn true [] (d ∷ dns_names) = ok d
