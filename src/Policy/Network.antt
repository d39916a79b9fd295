-- ===== src/Policy/Network.antt =====
-- IP ranges: `net.IPNet.Contains` as `matchIPConstraint` calls it, and `networkFor` and `isIPv4` of
-- policy/options.go.
pub mod Exact
use Prim.Native.Nat.{bit_and}
use certificates.Base.{
  ℕ, Bool, true, false, ◌&&◌, ◌||◌, not, Option, none, some, List, [], ◌∷◌, Bytes, ◌==◌,
  if◌then◌else◌, length, take, drop, bytes_eq,
}
use certificates.Policy.Types.{Ip, IpNet}

-- The bytes before an IPv4 address in its 16-byte form.
abbrev pub v4_in_v6_prefix : Bytes
v4_in_v6_prefix = 0 ∷ 0 ∷ 0 ∷ 0 ∷ 0 ∷ 0 ∷ 0 ∷ 0 ∷ 0 ∷ 0 ∷ 255 ∷ 255 ∷ []

-- ip.To4(), with `none` for nil.
unfoldable pub to4 : Ip → Option Ip
unfolding bytes_eq
to4 ip =
    if length ip == 4
    then some ip
    else if length ip == 16 && bytes_eq (take 12 ip) v4_in_v6_prefix
    then some (drop 12 ip)
    else none

unfoldable pub shorten : Ip → Ip
shorten ip = elim (to4 ip) [ none ↦ ip | some x ↦ x ]

-- networkNumberAndMask, with `none` for (nil, nil).
unfoldable pub network_number_and_mask : IpNet → Option (Ip × Bytes)
network_number_and_mask n =
    let ip = shorten n.ip in
    if not (length ip == 4 || length ip == 16)
    then none
    else if length n.mask == 4
    then if length ip == 4 then some (ip, n.mask) else none
    else if length n.mask == 16
    then some (ip, if length ip == 4 then drop 12 n.mask else n.mask)
    else none

-- The loop over the bytes of two addresses of one length.
unfoldable pub masked_eq : Ip → Bytes → Ip → Bool
masked_eq (a ∷ nn) (m ∷ mask) (b ∷ ip) = bit_and a m == bit_and b m && masked_eq nn mask ip
masked_eq _ _ _ = true

pub in_network : Option (Ip × Bytes) → Ip → Bool
in_network none ip = length ip == 0
in_network (some (nn, mask)) ip = length ip == length nn && masked_eq nn mask ip

unfoldable pub contains_ip : IpNet → Ip → Bool
unfolding in_network
contains_ip n ip = in_network (network_number_and_mask n) (shorten ip)

-- matchIPConstraint, which never returns an error.
unfoldable pub match_ip_constraint : Ip → IpNet → Bool
unfolding contains_ip
match_ip_constraint ip constraint = contains_ip constraint ip

abbrev pub ones : ℕ → Bytes
ones ℕ.zero = []
ones (ℕ.suc n) = 255 ∷ ones n

unfoldable pub is_ipv4 : Ip → Bool
is_ipv4 ip = elim (to4 ip) [ none ↦ false | some x ↦ true ]

-- net.CIDRMask(128, 128) and net.CIDRMask(32, 32) are all ones.
unfoldable pub network_for : Ip → IpNet
network_for ip = record { ip = ip; mask = if is_ipv4 ip then ones 4 else ones 16 }
