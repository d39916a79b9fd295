-- ===== src/Acme/Sans.antt =====
-- `Order.sans`, `numberOfIdentifierType` and `ipsAreEqual` of acme/order.go.
pub mod Address
pub mod Exact
pub mod Requested
pub mod Sorts
use certificates.Base.{
  ℕ, suc, Bool, true, false, ◌&&◌, ◌||◌, Option, none, some, List, [], ◌∷◌, ◌++◌, Bytes, map, ltb,
  ◌==◌, length, take, drop, is_empty, bytes_eq, if◌then◌else◌, Outcome, ok, err, panic, ◌>>=◌,
}
use certificates.Policy.Types.{External, Ip}
use certificates.Policy.Network.{v4_in_v6_prefix}
use certificates.Acme.Types.{
  IdentifierType, ip, dns, permanent_identifier, unsupported, Identifier, Error, problem, bad_csr,
  server_internal, Order,
}
use certificates.Acme.Names.{CertificateRequest, unique_sorted_lower_names, unique_sorted_ips}

-- x509util.SubjectAlternativeName
pub data San : Type 0 where
  dns_san ip_san permanent_san : Bytes → San

same_type : IdentifierType → IdentifierType → Bool
same_type ip ip = true
same_type dns dns = true
same_type permanent_identifier permanent_identifier = true
same_type (unsupported s) (unsupported t) = bytes_eq s t
same_type _ _ = false

unfoldable pub number_of_identifier_type : IdentifierType → List Identifier → ℕ
unfolding same_type
number_of_identifier_type t [] = 0
number_of_identifier_type t (i ∷ ids) =
    if same_type i.type t
    then suc (number_of_identifier_type t ids)
    else number_of_identifier_type t ids

-- The slices that the loop over the identifiers fills.
pub record Wanted : Type 0 where
  pub names : List Bytes
  pub ips : List Ip
  pub pids : List Bytes

module _ (x : External) where
  parsed_ip : Bytes → Ip
  parsed_ip value = elim (x.parse_ip value) [ none ↦ [] | some i ↦ i ]

  add : IdentifierType → Bytes → Wanted → Outcome Error Wanted
  add dns value w = ok (record w { names = value ∷ w.names })
  add ip value w = ok (record w { ips = parsed_ip value ∷ w.ips })
  add permanent_identifier value w = ok (record w { pids = value ∷ w.pids })
  add (unsupported t) value w = err (problem server_internal)

  -- `for _, n := range o.Identifiers { ... }`
  unfoldable pub collect : List Identifier → Outcome Error Wanted
  unfolding add parsed_ip
  collect [] = ok (record { names = []; ips = []; pids = [] })
  collect (i ∷ ids) = collect ids >>= λ w. add i.type i.value w

  -- x.Equal(y) of package net
  pub ip_equal : Ip → Ip → Bool
  ip_equal a b =
      if length a == length b
      then bytes_eq a b
      else if length a == 4 && length b == 16
      then bytes_eq (take 12 b) v4_in_v6_prefix && bytes_eq a (drop 12 b)
      else if length a == 16 && length b == 4
      then bytes_eq (take 12 a) v4_in_v6_prefix && bytes_eq (drop 12 a) b
      else false

  unfoldable pub ips_are_equal : Ip → Ip → Bool
  unfolding ip_equal
  ips_are_equal a b = if is_empty a || is_empty b then false else ip_equal a b

  -- The loop over the DNS names of the request; both lists have one length.
  unfoldable pub dns_sans : List Bytes → List Bytes → Outcome Error (List San)
  dns_sans (c ∷ csr_names) (o ∷ names) =
      let rest = dns_sans csr_names names in
      if bytes_eq c o then (rest >>= λ sans. ok (dns_san c ∷ sans)) else err (problem bad_csr)
  dns_sans _ _ = ok []

  -- The loop over the addresses of the request; both lists have one length.
  unfoldable pub ip_sans : List Ip → List Ip → Outcome Error (List San)
  ip_sans (c ∷ csr_ips) (o ∷ ips) =
      let rest = ip_sans csr_ips ips in
      if ips_are_equal c o
      then (rest >>= λ sans. ok (ip_san (x.ip_string c) ∷ sans))
      else err (problem bad_csr)
  ip_sans _ _ = ok []

  compare_names : CertificateRequest → List Bytes → Outcome Error (List San)
  compare_names csr names =
      if length csr.dns_names == length names
      then dns_sans csr.dns_names names
      else err (problem bad_csr)

  compare_ips : CertificateRequest → List Ip → Outcome Error (List San)
  compare_ips csr ips =
      if length csr.ip_addresses == length ips
      then ip_sans csr.ip_addresses ips
      else err (problem bad_csr)

  unfoldable pub sans : Order → CertificateRequest → Outcome Error (List San)
  unfolding compare_names compare_ips
  sans o csr =
      if ltb 0 (length csr.email_addresses) || ltb 0 (length csr.uris)
      then err (problem bad_csr)
      else do
        w ← collect o.identifiers
        ds ← compare_names csr (unique_sorted_lower_names w.names)
        is ← compare_ips csr (unique_sorted_ips x w.ips)
        ok (ds ++ is)
