-- ===== src/Acme/Challenge.antt =====
-- The http-01, dns-01 and tls-alpn-01 validations of acme/challenge.go. The challenge comes back
-- beside the error. `deviceAttest01Validate` is an argument of `validate_challenge`.
pub mod Evidence
pub mod Proof
use certificates.Base.{
  ℕ, Bool, true, false, not, ◌&&◌, ◌||◌, Option, some, none, List, [], ◌∷◌, ◌++◌, Bytes, codes, ltb,
  leb, ◌==◌, length, drop, is_empty, if◌then◌else◌, bytes_eq, has_prefix, trim_space, equal_fold,
  Outcome, ok, err,
}
use certificates.Policy.Types.{Ip, External}
use certificates.Policy.Network.{to4}
use certificates.Policy.Dedupe.{has_key}
use certificates.Acme.Types.{
  Status, pending, valid, invalid, Error, problem, Problem, server_internal, connection,
  dns_problem, rejected_identifier, wrapped, ChallengeType, http01, dns01, tlsalpn01,
  deviceattest01, unknown, Challenge,
}
use certificates.Acme.Db.{Db}
use certificates.Acme.Sans.{ip_equal}

-- What `Get` returns: the status code, and the body unless it cannot be read.
pub record Response : Type 0 where
  pub code : ℕ
  pub body : Option Bytes

pub record Extension : Type 0 where
  pub id : List ℕ
  pub critical : Bool
  pub value : Bytes

pub record PeerCertificate : Type 0 where
  pub dns_names : List Bytes
  pub ip_addresses : List Ip
  pub extensions : List Extension

-- What `TLSDial` returns: the alert of the error (0 where it has none), or the state of the
-- connection.
pub data Dialed : Type 0 where
  failed : ℕ → Dialed
  connected : List PeerCertificate → Bytes → Dialed

-- The network client and the cryptographic libraries. `none` is an error.
pub record Client : Type 0 where
  pub get : Bytes → Bytes → Option Response
  pub lookup_txt : Bytes → Option (List Bytes)
  pub tls_dial : Bytes → Dialed
  pub encoded_thumbprint : Option Bytes
  pub sha256 : Bytes → Bytes
  pub base64 : Bytes → Bytes
  pub asn1_octets : Bytes → Option (Bytes × Bytes)
  pub now_text : Bytes

-- Whether the address is not an IPv4 address.
is_v6 : Option Ip → Bool
is_v6 none = false
is_v6 (some ip) = elim (to4 ip) [ none ↦ true | some v4 ↦ false ]

unfoldable pub http01_challenge_host : External → Bytes → Bytes
unfolding is_v6
http01_challenge_host x value =
    if is_v6 (x.parse_ip value) then b'[' ∷ (value ++ b']' ∷ []) else value

abbrev pub http01_path : Bytes → Bytes
http01_path token = codes "/.well-known/acme-challenge/" ++ token

-- strings.TrimPrefix(ch.Value, "*.")
abbrev pub txt_domain : Bytes → Bytes
txt_domain value =
    codes "_acme-challenge." ++ (if has_prefix value (codes "*.") then drop 2 value else value)

-- idPeAcmeIdentifier
abbrev pub acme_identifier : List ℕ
acme_identifier = 1 ∷ 3 ∷ 6 ∷ 1 ∷ 5 ∷ 5 ∷ 7 ∷ 1 ∷ 31 ∷ []

abbrev pub acme_protocol : Bytes
acme_protocol = codes "acme-tls/1"

module _ {S : Type 0} (db : Db S) (x : External) (net : Client) where
  abbrev Result : Type 0
  Result = (Challenge × Outcome Error (Unit {0})) × S

  -- KeyAuthorization, with `none` for an error.
  unfoldable pub key_authorization : Bytes → Option Bytes
  key_authorization token = elim net.encoded_thumbprint [
    | none ↦ none
    | some print ↦ some (token ++ b'.' ∷ print)
  ]

  unfoldable pub write : Challenge → S → Result
  write ch s = let (r, s') = db.update_challenge ch s in ((ch, wrapped r), s')

  unfoldable pub store_error : Bool → Problem → Challenge → S → Result
  store_error mark_invalid p ch s =
      write (record ch { error = some p; status = if mark_invalid then invalid else ch.status }) s

  -- The challenge as it is written once it is validated.
  abbrev pub passed : Challenge → Challenge
  passed ch = record ch { status = valid; error = none; validated_at = net.now_text }

  unfoldable pub without_key : Challenge → S → Result
  without_key ch s = ((ch, err (problem server_internal)), s)

  http_body : Option Bytes → Option Bytes → Challenge → S → Result
  http_body none expected ch s = ((ch, err (problem server_internal)), s)
  http_body (some body) none ch s = without_key ch s
  http_body (some body) (some expected) ch s =
      if bytes_eq (trim_space body) expected
      then write (passed ch) s
      else store_error true rejected_identifier ch s

  http_reply : Option Response → Challenge → S → Result
  unfolding http_body
  http_reply none ch s = store_error false connection ch s
  http_reply (some r) ch s =
      if leb 400 r.code
      then store_error false connection ch s
      else http_body r.body (key_authorization ch.token) ch s

  unfoldable pub http01_validate : Challenge → S → Result
  unfolding http_reply
  http01_validate ch s =
      http_reply (net.get (http01_challenge_host x ch.value) (http01_path ch.token)) ch s

  dns_records : Option (List Bytes) → Option Bytes → Challenge → S → Result
  dns_records none expected ch s = store_error false dns_problem ch s
  dns_records (some records) none ch s = without_key ch s
  dns_records (some records) (some key) ch s =
      if has_key records (net.base64 (net.sha256 key))
      then write (passed ch) s
      else store_error false rejected_identifier ch s

  unfoldable pub dns01_validate : Challenge → S → Result
  unfolding dns_records
  dns01_validate ch s =
      dns_records (net.lookup_txt (txt_domain ch.value)) (key_authorization ch.token) ch s

  -- The only address of the certificate is that of the challenge.
  ip_matches : List Ip → Option Ip → Bool
  ip_matches (ip ∷ []) (some value) = ip_equal x ip value
  ip_matches (ip ∷ []) none = ip_equal x ip []
  ip_matches _ value = false

  -- The only DNS name of the certificate is that of the challenge.
  name_matches : List Bytes → Bytes → Bool
  name_matches (name ∷ []) value = equal_fold name value
  name_matches _ value = false

  unfoldable pub leaf_matches : PeerCertificate → Bytes → Bool
  unfolding ip_matches name_matches
  leaf_matches leaf value =
      if is_empty leaf.dns_names
      then ip_matches leaf.ip_addresses (x.parse_ip value)
      else name_matches leaf.dns_names value

  -- The value of the extension is the octets of the hash, and nothing else.
  octets_match : Bytes → Option (Bytes × Bytes) → Bool
  octets_match hash none = false
  octets_match hash (some (value, rest)) = is_empty rest && bytes_eq hash value

  -- The loop over the extensions; the obsolete one changes the text of the error only.
  unfoldable pub has_proof : Bytes → List Extension → Bool
  unfolding octets_match
  has_proof hash [] = false
  has_proof hash (ext ∷ exts) =
      let rest = has_proof hash exts in
      if bytes_eq acme_identifier ext.id
      then ext.critical && octets_match hash (net.asn1_octets ext.value)
      else rest

  tls_leaf : PeerCertificate → Option Bytes → Challenge → S → Result
  tls_leaf leaf key ch s =
      if leaf_matches leaf ch.value
      then elim key [
        | none ↦ without_key ch s
        | some k ↦
            if has_proof (net.sha256 k) leaf.extensions
            then write (passed ch) s
            else store_error true rejected_identifier ch s
      ]
      else store_error true rejected_identifier ch s

  tls_dialed : Dialed → Challenge → S → Result
  unfolding tls_leaf
  tls_dialed (failed alert) ch s =
      if alert == 120
      then store_error true rejected_identifier ch s
      else store_error false connection ch s
  tls_dialed (connected [] protocol) ch s = store_error true rejected_identifier ch s
  tls_dialed (connected (leaf ∷ certs) protocol) ch s =
      if bytes_eq protocol acme_protocol
      then tls_leaf leaf (key_authorization ch.token) ch s
      else store_error true rejected_identifier ch s

  unfoldable pub tlsalpn01_validate : Challenge → S → Result
  unfolding tls_dialed
  tlsalpn01_validate ch s = tls_dialed (net.tls_dial ch.value) ch s

  by_type : (Challenge → S → Result) → ChallengeType → Challenge → S → Result
  by_type device http01 ch s = http01_validate ch s
  by_type device dns01 ch s = dns01_validate ch s
  by_type device tlsalpn01 ch s = tlsalpn01_validate ch s
  by_type device deviceattest01 ch s = device ch s
  by_type device (unknown t) ch s = ((ch, err (problem server_internal)), s)

  is_pending : Status → Bool
  is_pending pending = true
  is_pending _ = false

  -- Challenge.Validate; `device` is deviceAttest01Validate.
  unfoldable pub validate_challenge : (Challenge → S → Result) → Challenge → S → Result
  unfolding by_type is_pending
  validate_challenge device ch s =
      if is_pending ch.status then by_type device ch.type ch s else ((ch, ok tt), s)
