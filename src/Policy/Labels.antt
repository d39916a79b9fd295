-- ===== src/Policy/Labels.antt =====
-- `domainToReverseLabels` of policy/validate.go. The loop removes at least one byte a round, so
-- the length of the text is enough fuel.
pub mod Loop
pub mod Exact
use certificates.Base.{
  ℕ, zero, suc, ◌+◌, Bool, true, false, ◌&&◌, Option, none, some, List, [], ◌∷◌, ◌++◌, Bytes, leb,
  if◌then◌else◌, is_empty, length, take, drop, not, last_index_byte,
}

-- `for len(domain) > 0 { ... }`
unfoldable pub reverse_labels : ℕ → Bytes → List Bytes
reverse_labels zero domain = []
reverse_labels (suc fuel) domain = elim (is_empty domain) [
  | true ↦ []
  | false ↦ elim (last_index_byte domain b'.') [
    | none ↦ domain ∷ []
    | some i ↦ drop (suc i) domain ∷ reverse_labels fuel (take i domain)
  ]
]

abbrev pub is_label_byte : ℕ → Bool
is_label_byte c = leb 33 c && leb c 126

all_label_bytes : Bytes → Bool
all_label_bytes [] = true
all_label_bytes (c ∷ label) = is_label_byte c && all_label_bytes label

-- `for _, label := range reverseLabels { ... }`
unfoldable pub labels_valid : List Bytes → Bool
unfolding all_label_bytes
labels_valid [] = true
labels_valid (label ∷ labels) = not (is_empty label) && all_label_bytes label && labels_valid labels

-- `len(reverseLabels) > 0 && reverseLabels[0] == ""`
abbrev pub ends_with_empty : List Bytes → Bool
ends_with_empty [] = false
ends_with_empty (label ∷ labels) = is_empty label

unfoldable pub domain_to_reverse_labels : Bytes → Option (List Bytes)
unfolding reverse_labels labels_valid
domain_to_reverse_labels domain =
    let labels = reverse_labels (length domain) domain in
    if ends_with_empty labels then none else if labels_valid labels then some labels else none
