-- ===== src/Policy/Labels/Exact.antt =====
-- The texts and the labels of `domainToReverseLabels` of policy/validate.go.
use certificates.Base.{
  ℕ, ◌≤◌, ◌≡◌, ◌≢◌, ◌↔◌, refl, sym, subst, ◌∙◌, ◌⊎◌, inl, inr, true, false, some, List, [], ◌∷◌,
  Bytes, ◌==◌, length, is_empty, All, All-map, NoByte, arith,
}
use certificates.Policy.Labels.{
  reverse_labels, labels_valid, all_label_bytes, ends_with_empty, domain_to_reverse_labels,
}
use certificates.Policy.Labels.Loop.{
  join, dotted, dotted-join, reverse_labels-Splits, reverse_labels-dotted, reverse_labels-join,
}

-- A printable byte other than the dot.
abbrev pub IsLabelByte : ℕ → Type 0
IsLabelByte c = (33 ≤ c) × (c ≤ 126) × (c ≢ b'.')

abbrev pub IsLabel : Bytes → Type 0
IsLabel l = (l ≢ []) × All IsLabelByte l

all_label_bytes_lem : (l : Bytes) → all_label_bytes l ≡ true → NoByte b'.' l → All IsLabelByte l
unfolding all_label_bytes
all_label_bytes_lem [] h free = tt
all_label_bytes_lem (c ∷ l) h free = (ground arith, all_label_bytes_lem l (ground arith) free.1)

IsLabelByte-All : (l : Bytes) → All IsLabelByte l → all_label_bytes l ≡ true
unfolding all_label_bytes
IsLabelByte-All [] h = refl
IsLabelByte-All (c ∷ l) h = ground (arith, IsLabelByte-All l)

not-empty : (l : Bytes) → is_empty l ≡ false → l ≢ []
not-empty [] h = cc
not-empty (c ∷ l) h = λ e. cc

is_empty-false : (l : Bytes) → l ≢ [] → is_empty l ≡ false
is_empty-false [] h = absurd (h refl)
is_empty-false (c ∷ l) h = refl

labels_valid-All :
    (ls : List Bytes) → labels_valid ls ≡ true → All (NoByte b'.') ls → All IsLabel ls
unfolding labels_valid
labels_valid-All [] h free = tt
labels_valid-All (l ∷ ls) h free = (
  (not-empty l (ground arith), all_label_bytes_lem l (ground arith) free.0),
  labels_valid-All ls (ground arith) free.1,
)

All-labels_valid : (ls : List Bytes) → All IsLabel ls → labels_valid ls ≡ true
unfolding labels_valid
All-labels_valid [] h = refl
All-labels_valid (l ∷ ls) h =
    ground (arith, is_empty-false l h.0.0, IsLabelByte-All l h.0.1, All-labels_valid ls h.1)

IsLabel-NoByte : (l : Bytes) → All IsLabelByte l → NoByte b'.' l
IsLabel-NoByte l = All-map IsLabelByte (λ c. (c == b'.') ≡ false) (λ c h. ground arith) l

IsLabel-free : (ls : List Bytes) → All IsLabel ls → All (NoByte b'.') ls
IsLabel-free = All-map IsLabel (NoByte b'.') (λ l h. IsLabel-NoByte l h.1)

IsLabel-full : (ls : List Bytes) → All IsLabel ls → All (λ l. is_empty l ≡ false) ls
IsLabel-full = All-map IsLabel (λ l. is_empty l ≡ false) (λ l h. is_empty-false l h.0)

-- The texts that stand for some labels: with or without a dot in front.
abbrev pub Spells : Bytes → List Bytes → Type 0
Spells domain ls = (domain ≡ join ls) ⊎ ((ls ≢ []) × (domain ≡ b'.' ∷ join ls))

Spells-of : (s : Bytes) (ls : List Bytes) → (s ≡ join ls) ⊎ (s ≡ dotted ls) → Spells s ls
Spells-of s ls (inl e) = inl e
Spells-of s [] (inr e) = inl e
Spells-of s (l ∷ ls) (inr e) = inr ((λ h. cc), e ∙ dotted-join l ls)

accepted_loop :
    (s : Bytes) (ls : List Bytes)
    → domain_to_reverse_labels s ≡ some ls
    → (reverse_labels (length s) s ≡ ls) × (labels_valid ls ≡ true)
unfolding domain_to_reverse_labels
accepted_loop s ls h = ground arith

pub domain_to_reverse_labels_sound :
    (s : Bytes) (ls : List Bytes)
    → domain_to_reverse_labels s ≡ some ls
    → All IsLabel ls × Spells s ls
domain_to_reverse_labels_sound s ls h =
    let (same, valid) = accepted_loop s ls h in
    let (free, spells) = reverse_labels-Splits (length s) s (omega arith) in
    (
      labels_valid-All ls valid (subst (All (NoByte b'.')) same free),
      Spells-of s ls (subst (λ (t : List Bytes). (s ≡ join t) ⊎ (s ≡ dotted t)) same spells),
    )

ends_with_empty-IsLabel : (ls : List Bytes) → All IsLabel ls → ends_with_empty ls ≡ false
ends_with_empty-IsLabel [] h = refl
ends_with_empty-IsLabel (l ∷ ls) h = is_empty-false l h.0.0

loop-Spells :
    (s : Bytes) (ls : List Bytes) → All IsLabel ls → Spells s ls → reverse_labels (length s) s ≡ ls
loop-Spells s ls h (inl e) = rw e (
    reverse_labels-join (length (join ls)) ls (omega arith) (IsLabel-full ls h) (IsLabel-free ls h))
loop-Spells s [] h (inr e) = absurd (e.0 refl)
loop-Spells s (l ∷ ls) h (inr e) = rw (e.1 ∙ sym (dotted-join l ls)) (
    reverse_labels-dotted (length (dotted (l ∷ ls))) (l ∷ ls) (omega arith)
      (IsLabel-free (l ∷ ls) h))

pub domain_to_reverse_labels_complete :
    (s : Bytes) (ls : List Bytes)
    → All IsLabel ls
    → Spells s ls
    → domain_to_reverse_labels s ≡ some ls
unfolding domain_to_reverse_labels
domain_to_reverse_labels_complete s ls h sp =
    rw (loop-Spells s ls h sp, ends_with_empty-IsLabel ls h, All-labels_valid ls h)

-- The text is accepted with the labels `ls` exactly when every label is made of printable bytes
-- other than the dot and is not empty, and the text is the labels, last first in the list, joined
-- by dots, or the same with one dot in front.
pub domain_to_reverse_labels_exact :
    (s : Bytes) (ls : List Bytes)
    → (domain_to_reverse_labels s ≡ some ls) ↔ (All IsLabel ls × Spells s ls)
domain_to_reverse_labels_exact s ls =
    (domain_to_reverse_labels_sound s ls, λ h. domain_to_reverse_labels_complete s ls h.0 h.1)
