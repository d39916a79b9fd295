-- ===== src/Acme/Names/Addresses.antt =====
-- `uniqueSortedIPs` of acme/order.go.
use mathlib.Core.Bool.{}
use certificates.Base.{
  ◌≡◌, inl, inr, refl, ◌∙◌, false, none, some, List, [], ◌∷◌, Bytes, map, All, Bool-cases, bytes_eq,
}
use certificates.Policy.Types.{External, Ip}
use certificates.Policy.Dedupe.{has_key, dedupe_loop}
use certificates.Policy.Dedupe.Exact.{has_key-All}
use certificates.Acme.Names.{reparse, unique_sorted_ips}
use certificates.Acme.Names.Sorted.{has_key-sort_strings}
use certificates.Acme.Names.Unique.{SameKeys}

-- Values that depend on the key only are not lost with the duplicates.
module _ {A : Type 0} (key : A → Bytes) (value : Bytes → Bytes) where
  abbrev values : List A → List Bytes
  values = map (λ a. value (key a))

  has_key-dedupe_loop :
      (keys : List Bytes) (items : List A) (k : Bytes)
      → All (λ j. bytes_eq (value j) k ≡ false) keys
      → has_key (values (dedupe_loop key keys items)) k ≡ has_key (values items) k
  unfolding dedupe_loop has_key
  has_key-dedupe_loop keys [] k h = refl
  has_key-dedupe_loop keys (a ∷ items) k h = elim (Bool-cases (has_key keys (key a))) [
    | inl e ↦
        rw (e, dedupe_loop, has_key-All (λ j. bytes_eq (value j) k ≡ false) keys (key a) h e)
          (has_key-dedupe_loop keys items k h)
    | inr e ↦ elim (Bool-cases (bytes_eq (value (key a)) k)) [
      | inl f ↦ rw (e, dedupe_loop, f) refl
      | inr f ↦ rw (e, dedupe_loop, f) (has_key-dedupe_loop (key a ∷ keys) items k (f, h))
    ]
  ]

-- The address that the text of an address is read as.
abbrev pub reread : External → Ip → Ip
reread x ip = elim (x.parse_ip (x.ip_string ip)) [ none ↦ [] | some parsed ↦ parsed ]

-- The result holds exactly the addresses that the texts of the given ones are read as.
pub unique_sorted_ips-SameKeys :
    (x : External) (ips : List Ip) → SameKeys (unique_sorted_ips x ips) (map (reread x) ips)
unfolding unique_sorted_ips reparse
unique_sorted_ips-SameKeys x ips k =
    has_key-sort_strings (map (reread x) (dedupe_loop (λ ip. x.ip_string ip) [] ips)) k
    ∙ has_key-dedupe_loop (λ ip. x.ip_string ip)
        (λ text. elim (x.parse_ip text) [ none ↦ [] | some parsed ↦ parsed ]) [] ips k tt
