-- ===== src/Policy/Entry.antt =====
-- The exported checks of policy/engine.go: certificates, requests, SANs, single names and SSH
-- certificates.
pub mod Agree
use certificates.Base.{
  ℕ, Bool, List, [], ◌∷◌, Bytes, ltb, ◌==◌, if◌then◌else◌, length, Outcome, ok, err, panic, ◌>>◌,
  ◌>>=◌,
}
use certificates.Policy.Types.{NamePolicyError, Ip, Names, External}
use certificates.Policy.Constraints.{Verdict}
use certificates.Policy.Engine.{NamePolicyEngine, validate_names, validate_common_name}

-- The fields of x509.Certificate and of x509.CertificateRequest that the engine reads.
pub record X509Names : Type 0 where
  pub sans : Names
  pub common_name : Bytes

-- ssh.Certificate, with ssh.UserCert and ssh.HostCert of the SSH protocol.
pub record SshCertificate : Type 0 where
  pub cert_type : ℕ
  pub valid_principals : List Bytes

abbrev pub user_cert : ℕ
user_cert = 1

abbrev pub host_cert : ℕ
host_cert = 2

pub data SshError : Type 0 where
  url_principals ip_principals unexpected_type : SshError
  policy : NamePolicyError → SshError

-- What `splitSSHPrincipals` returns beside its error.
pub record SshNames : Type 0 where
  pub san_names : Names
  pub principals : List Bytes

with_policy : Verdict → Outcome SshError (Unit {0})
with_policy (ok u) = ok u
with_policy (err e) = err (policy e)
with_policy panic = panic

module _ (x : External) where
  host_names : Names → Outcome SshError SshNames
  host_names n =
      if ltb 0 (length n.uris)
      then err url_principals
      else ok (record {
        san_names = record {
          dns_names = n.dns_names;
          ips = n.ips;
          email_addresses = n.email_addresses;
          uris = [];
        };
        principals = [];
      })

  -- A later error replaces the one for IP principals.
  user_names : Names → Outcome SshError SshNames
  user_names n =
      if ltb 0 (length n.uris)
      then err url_principals
      else if ltb 0 (length n.ips)
      then err ip_principals
      else ok (record {
        san_names = record {
          dns_names = [];
          ips = n.ips;
          email_addresses = n.email_addresses;
          uris = [];
        };
        principals = n.dns_names;
      })

  unfoldable pub split_ssh_principals : SshCertificate → Outcome SshError SshNames
  unfolding host_names user_names
  split_ssh_principals cert =
      if cert.cert_type == host_cert
      then host_names (x.split_sans cert.valid_principals)
      else if cert.cert_type == user_cert
      then user_names (x.split_sans cert.valid_principals)
      else err unexpected_type

  module _ (e : NamePolicyEngine) where
    unfoldable pub is_x509_certificate_allowed : X509Names → Verdict
    is_x509_certificate_allowed cert =
        validate_names x e cert.sans []
        >> (if e.verify_subject_common_name
            then validate_common_name x e cert.common_name
            else ok tt)

    unfoldable pub is_x509_certificate_request_allowed : X509Names → Verdict
    is_x509_certificate_request_allowed csr =
        validate_names x e csr.sans []
        >> (if e.verify_subject_common_name
            then validate_common_name x e csr.common_name
            else ok tt)

    unfoldable pub are_sans_allowed : List Bytes → Verdict
    are_sans_allowed sans = validate_names x e (x.split_sans sans) []

    unfoldable pub is_dns_allowed : Bytes → Verdict
    is_dns_allowed dns =
        validate_names x e
          (record { dns_names = dns ∷ []; ips = []; email_addresses = []; uris = [] }) []

    unfoldable pub is_ip_allowed : Ip → Verdict
    is_ip_allowed ip =
        validate_names x e
          (record { dns_names = []; ips = ip ∷ []; email_addresses = []; uris = [] }) []

    unfoldable pub is_ssh_certificate_allowed : SshCertificate → Outcome SshError (Unit {0})
    unfolding with_policy
    is_ssh_certificate_allowed cert = do
      names ← split_ssh_principals cert
      with_policy (validate_names x e names.san_names names.principals)
