-- ===== src/Policy/Dedupe.antt =====
-- `removeDuplicates` and `removeDuplicateIPNets` of policy/engine.go. The map of the keys that were
-- seen is the list of them.
pub mod Exact
use certificates.Base.{
  ℕ, Bool, true, false, ◌||◌, List, [], ◌∷◌, Bytes, leb, if◌then◌else◌, length, bytes_eq,
}
use certificates.Policy.Types.{IpNet, External}

-- `_, ok := keys[item]`
unfoldable pub has_key : List Bytes → Bytes → Bool
has_key [] k = false
has_key (j ∷ keys) k = bytes_eq j k || has_key keys k

module _ {A : Type 0} (key : A → Bytes) where
  unfoldable pub dedupe_loop : List Bytes → List A → List A
  dedupe_loop keys [] = []
  dedupe_loop keys (a ∷ items) = elim (has_key keys (key a)) [
    | true ↦ dedupe_loop keys items
    | false ↦ a ∷ dedupe_loop (key a ∷ keys) items
  ]

  unfoldable pub dedupe : List A → List A
  dedupe items = if leb (length items) 1 then items else dedupe_loop [] items

unfoldable pub remove_duplicates : List Bytes → List Bytes
unfolding dedupe
remove_duplicates = dedupe (λ s. s)

unfoldable pub remove_duplicate_ip_nets : External → List IpNet → List IpNet
unfolding dedupe
remove_duplicate_ip_nets x = dedupe (λ n. x.cidr_string n)
