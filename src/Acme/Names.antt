-- ===== src/Acme/Names.antt =====
-- `uniqueSortedLowerNames`, `uniqueSortedIPs` and `canonicalize` of acme/order.go. A Go map is the
-- list of its keys, and `sort.Strings` is insertion by the order of bytes.
pub mod Addresses
pub mod Sorted
pub mod Unique
use certificates.Base.{
  ℕ, Bool, true, false, Option, none, some, List, [], ◌∷◌, ◌++◌, Bytes, map, ltb, ◌==◌, is_empty,
  if◌then◌else◌, to_lower,
}
use certificates.Policy.Types.{External, Ip}
use certificates.Policy.Dedupe.{dedupe_loop}

-- s < t on strings, bytes.Compare(s, t) < 0 on byte slices
unfoldable pub bytes_ltb : Bytes → Bytes → Bool
bytes_ltb [] [] = false
bytes_ltb [] (b ∷ t) = true
bytes_ltb (a ∷ s) [] = false
bytes_ltb (a ∷ s) (b ∷ t) = if a == b then bytes_ltb s t else ltb a b

unfoldable pub insert : Bytes → List Bytes → List Bytes
insert name [] = name ∷ []
insert name (x ∷ names) = if bytes_ltb x name then x ∷ insert name names else name ∷ x ∷ names

unfoldable pub sort_strings : List Bytes → List Bytes
sort_strings [] = []
sort_strings (name ∷ names) = insert name (sort_strings names)

-- The keys of `nameMap`.
abbrev pub keys_of : List Bytes → List Bytes
keys_of = dedupe_loop (λ s. s) []

unfoldable pub unique_sorted_lower_names : List Bytes → List Bytes
unique_sorted_lower_names names = sort_strings (keys_of (map to_lower names))

-- The fields of x509.CertificateRequest that orders read.
pub record CertificateRequest : Type 0 where
  pub common_name : Bytes
  pub dns_names : List Bytes
  pub ip_addresses : List Ip
  pub email_addresses : List Bytes
  pub uris : List Bytes

module _ (x : External) where
  -- net.ParseIP(ip.String()); nil is the empty address
  reparse : Ip → Ip
  reparse ip = elim (x.parse_ip (x.ip_string ip)) [ none ↦ [] | some parsed ↦ parsed ]

  -- The map has one entry for each text, whose value depends on the text only.
  unfoldable pub unique_sorted_ips : List Ip → List Ip
  unfolding reparse
  unique_sorted_ips ips = sort_strings (map reparse (dedupe_loop (λ ip. x.ip_string ip) [] ips))

  -- The common name as an address or a DNS name.
  unfoldable pub with_common_name : CertificateRequest → CertificateRequest
  with_common_name csr =
      if is_empty csr.common_name then csr else elim (x.parse_ip csr.common_name) [
        | some ip ↦ record csr { ip_addresses = csr.ip_addresses ++ ip ∷ [] }
        | none ↦ record csr { dns_names = csr.dns_names ++ csr.common_name ∷ [] }
      ]

  unfoldable pub canonicalize : CertificateRequest → CertificateRequest
  canonicalize csr =
      let c = with_common_name csr in
      record c {
        dns_names = unique_sorted_lower_names c.dns_names;
        ip_addresses = unique_sorted_ips c.ip_addresses;
      }
