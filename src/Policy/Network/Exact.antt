-- ===== src/Policy/Network/Exact.antt =====
-- `networkFor` of policy/options.go and `matchIPConstraint` of policy/validate.go.
use Prim.Native.Nat.{bit_and}
use certificates.Base.{
  ℕ, zero, suc, ◌<◌, ◌-◌, ◌≡◌, ◌↔◌, ◌≢◌, ◌⊎◌, inl, inr, refl, sym, Bool, true, ◌&&◌, none, some, [],
  ◌∷◌, Bytes, ◌==◌, ==_iff, All, arith, length, drop, bytes_eq, bytes_eq_iff, Bool-cases,
  Option-cases,
}
use certificates.Policy.Types.{Ip}
use certificates.Policy.Network.{
  to4, shorten, network_number_and_mask, masked_eq, in_network, match_ip_constraint, ones, is_ipv4,
  network_for,
}

abbrev pub IsByte : ℕ → Type 0
IsByte c = c < 256

-- Whether the mask 255 keeps each number below the bound.
kept_below : ℕ → Bool
kept_below zero = true
kept_below (suc bound) = bit_and bound 255 == bound && kept_below bound

kept_at : (bound byte : ℕ) → byte < bound → kept_below bound ≡ true → bit_and byte 255 ≡ byte
unfolding kept_below
kept_at zero byte low kept = absurd (omega arith)
kept_at (suc bound) byte low kept =
    ground (arith, λ (below : byte < bound). kept_at bound byte below)

full_mask : (byte : ℕ) → IsByte byte → bit_and byte 255 ≡ byte
full_mask byte low = kept_at 256 byte low (unfold kept_below in refl)

-- Under a mask of ones the loop compares the bytes.
masked_eq-ones :
    (n : ℕ) (a b : Bytes)
    → length a ≡ n
    → length b ≡ n
    → All IsByte a
    → All IsByte b
    → masked_eq a (ones n) b ≡ bytes_eq a b
unfolding masked_eq bytes_eq
masked_eq-ones zero [] [] la lb ha hb = refl
masked_eq-ones (suc n) (x ∷ a) (y ∷ b) la lb ha hb =
    rw (
      full_mask x ha.0,
      full_mask y hb.0,
      masked_eq-ones n a b (omega arith) (omega arith) ha.1 hb.1,
    )
masked_eq-ones zero (x ∷ a) b la lb ha hb = absurd (omega arith)
masked_eq-ones zero [] (y ∷ b) la lb ha hb = absurd (omega arith)
masked_eq-ones (suc n) [] b la lb ha hb = absurd (omega arith)
masked_eq-ones (suc n) (x ∷ a) [] la lb ha hb = absurd (omega arith)

length-drop : (n : ℕ) (xs : Bytes) → length (drop n xs) ≡ length xs - n
length-drop zero xs = omega arith
length-drop (suc n) [] = omega arith
length-drop (suc n) (x ∷ xs) = omega (arith, length-drop n xs)

All-drop : (n : ℕ) (xs : Bytes) → All IsByte xs → All IsByte (drop n xs)
All-drop zero xs h = h
All-drop (suc n) [] h = h
All-drop (suc n) (x ∷ xs) h = All-drop n xs h.1

length-to4 : (ip x : Ip) → to4 ip ≡ some x → length x ≡ 4
unfolding to4
length-to4 ip x h = ground (arith, length-drop 12 ip)

to4-cases : (ip x : Ip) → to4 ip ≡ some x → (x ≡ ip) ⊎ (x ≡ drop 12 ip)
unfolding to4
to4-cases ip x h = ground arith

to4-none : (ip : Ip) → to4 ip ≡ none → length ip ≢ 4
unfolding to4
to4-none ip h = ground arith

to4-IsByte : (ip x : Ip) → to4 ip ≡ some x → All IsByte ip → All IsByte x
to4-IsByte ip x h bytes = elim (to4-cases ip x h) [
  | inl e ↦ rw e bytes
  | inr e ↦ rw e (All-drop 12 ip bytes)
]

shorten-IsByte : (ip : Ip) → All IsByte ip → All IsByte (shorten ip)
unfolding shorten
shorten-IsByte ip bytes = elim (Option-cases (to4 ip)) [
  | inl e ↦ rw (e, shorten) bytes
  | inr (x, e) ↦ rw (e, shorten) (to4-IsByte ip x e bytes)
]

-- A well-formed address: 4 or 16 bytes.
abbrev pub IsIp : Ip → Type 0
IsIp ip = ((length ip ≡ 4) ⊎ (length ip ≡ 16)) × All IsByte ip

network_of :
    (ip : Ip)
    → IsIp ip
    → network_number_and_mask (network_for ip) ≡ some (shorten ip, ones (length (shorten ip)))
unfolding network_number_and_mask network_for is_ipv4 shorten
network_of ip h = elim (Option-cases (to4 ip)) [
  | inl e ↦ ground (arith, to4-none ip)
  | inr (x, e) ↦ ground (arith, length-to4 ip x)
]

in_network-ones :
    (a b : Bytes)
    → All IsByte a
    → All IsByte b
    → (in_network (some (a, ones (length a))) b ≡ true) ↔ (b ≡ a)
unfolding in_network
in_network-ones a b ha hb = elim (Bool-cases (length b == length a)) [
  | inl e ↦
      let same = (==_iff (length b) (length a)).0 e in
      rw (e, masked_eq-ones (length a) a b refl same ha hb)
        ((λ h. sym ((bytes_eq_iff a b).0 h)), λ h. (bytes_eq_iff a b).1 (sym h))
  | inr e ↦ ((λ h. ground arith), λ h. absurd (ground arith))
]

-- The network that is made for an address of 4 or 16 bytes holds exactly that address, whether
-- either of the two is written with 4 bytes or, as an IPv4 address, with 16.
pub match_ip_constraint-network_for :
    (ip jp : Ip)
    → IsIp ip
    → All IsByte jp
    → (match_ip_constraint jp (network_for ip) ≡ true) ↔ (shorten jp ≡ shorten ip)
unfolding match_ip_constraint
match_ip_constraint-network_for ip jp h hj =
    rw (network_of ip h)
      (in_network-ones (shorten ip) (shorten jp) (shorten-IsByte ip h.1) (shorten-IsByte jp hj))
