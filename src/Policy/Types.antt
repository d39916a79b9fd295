-- ===== src/Policy/Types.antt =====
-- The types of policy/engine.go, and the code outside the repository that the engine calls.
use certificates.Base.{Option, List, Bytes}

-- NamePolicyReason
pub data NamePolicyReason : Type 0 where
  not_allowed cannot_parse_domain cannot_parse_rfc822_name : NamePolicyReason
  cannot_match_name_to_constraint : NamePolicyReason

-- NameType
pub data NameType : Type 0 where
  cn dns ip email uri principal : NameType

-- NamePolicyError, without the text of `detail`.
pub record NamePolicyError : Type 0 where
  pub reason : NamePolicyReason
  pub name_type : NameType
  pub name : Bytes

-- The errors of the match functions; `Error()` of them is the `detail` above.
pub data MatchError : Type 0 where
  bad_domain bad_constraint empty_host host_asterisk bad_host_port host_is_ip : MatchError

-- net.IP, net.IPMask: 4 or 16 bytes.
abbrev pub Ip : Type 0
Ip = Bytes

-- net.IPNet
pub record IpNet : Type 0 where
  pub ip : Ip
  pub mask : Bytes

-- url.URL: the field and the method that the engine reads.
pub record Url : Type 0 where
  pub host : Bytes
  pub string : Bytes

-- What `x509util.SplitSANs` returns.
pub record Names : Type 0 where
  pub dns_names : List Bytes
  pub ips : List Ip
  pub email_addresses : List Bytes
  pub uris : List Url

-- golang.org/x/net/idna, go.step.sm/crypto/x509util and the text formats of package net.
-- `none` is an error.
pub record External : Type 0 where
  pub idna_lookup_to_ascii : Bytes → Option Bytes
  pub idna_to_ascii : Bytes → Option Bytes
  pub split_sans : List Bytes → Names
  pub parse_ip : Bytes → Option Ip
  pub parse_cidr : Bytes → Option IpNet
  pub split_host_port : Bytes → Option Bytes
  pub ip_string : Ip → Bytes
  pub cidr_string : IpNet → Bytes
