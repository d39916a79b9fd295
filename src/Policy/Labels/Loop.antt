-- ===== src/Policy/Labels/Loop.antt =====
-- The loop of `domainToReverseLabels` of policy/validate.go.
use certificates.Base.{
  ℕ, zero, suc, ◌≤◌, ◌≡◌, refl, ap, ◌⊎◌, inl, inr, false, List, [], ◌∷◌, ◌++◌, Bytes, length,
  is_empty, All, NoByte, LastByte-view, arith, length-append, take-append_length,
  drop-suc-append_length, last_index_byte-none, last_index_byte-split,
}
use certificates.Policy.Labels.{reverse_labels}

-- The text of labels given last first: `join ["com", "example"]` is `example.com`.
abbrev pub join : List Bytes → Bytes
join [] = []
join (l ∷ []) = l
join (l ∷ m ∷ ls) = join (m ∷ ls) ++ b'.' ∷ l

-- The same with a dot before each label.
abbrev pub dotted : List Bytes → Bytes
dotted [] = []
dotted (l ∷ ls) = dotted ls ++ b'.' ∷ l

pub dotted-join : (l : Bytes) (ls : List Bytes) → dotted (l ∷ ls) ≡ b'.' ∷ join (l ∷ ls)
dotted-join l [] = refl
dotted-join l (m ∷ ls) = ap (λ (t : Bytes). t ++ b'.' ∷ l) (dotted-join m ls)

reverse_labels-last :
    (fuel : ℕ) (s : Bytes)
    → is_empty s ≡ false
    → NoByte b'.' s
    → reverse_labels (suc fuel) s ≡ s ∷ []
unfolding reverse_labels
reverse_labels-last fuel s e h = rw (e, last_index_byte-none s b'.' h, reverse_labels)

is_empty-append : (p : Bytes) (c : ℕ) (q : Bytes) → is_empty (p ++ c ∷ q) ≡ false
is_empty-append [] c q = refl
is_empty-append (a ∷ p) c q = refl

reverse_labels-split :
    (fuel : ℕ) (p q : Bytes)
    → NoByte b'.' q
    → reverse_labels (suc fuel) (p ++ b'.' ∷ q) ≡ q ∷ reverse_labels fuel p
unfolding reverse_labels
reverse_labels-split fuel p q h = rw (
  is_empty-append p b'.' q,
  last_index_byte-split p b'.' q h,
  drop-suc-append_length p b'.' q,
  take-append_length p (b'.' ∷ q),
  reverse_labels,
)

abbrev pub Splits : Bytes → List Bytes → Type 0
Splits s ls = (s ≡ join ls) ⊎ (s ≡ dotted ls)

Splits-cons : (p q : Bytes) (ls : List Bytes) → Splits p ls → Splits (p ++ b'.' ∷ q) (q ∷ ls)
Splits-cons p q [] (inl e) = inr (rw e)
Splits-cons p q [] (inr e) = inr (rw e)
Splits-cons p q (l ∷ ls) (inl e) = inl (rw e)
Splits-cons p q (l ∷ ls) (inr e) = inr (rw e)

pub reverse_labels-Splits :
    (fuel : ℕ) (s : Bytes)
    → length s ≤ fuel
    → All (NoByte b'.') (reverse_labels fuel s) × Splits s (reverse_labels fuel s)
unfolding reverse_labels
reverse_labels-Splits zero [] h = (tt, inl refl)
reverse_labels-Splits zero (c ∷ s) h = absurd (omega arith)
reverse_labels-Splits (suc fuel) [] h = (tt, inl refl)
reverse_labels-Splits (suc fuel) (c ∷ s) h = elim (LastByte-view (c ∷ s) b'.') [
  | inl v ↦ rw (reverse_labels-last fuel (c ∷ s) refl v.0) ((v.0, tt), inl refl)
  | inr (p, q, split, free, found) ↦
      let shorter : length p ≤ fuel = omega (arith, ap length split, length-append p (b'.' ∷ q)) in
      let rest = reverse_labels-Splits fuel p shorter in
      rw (split, reverse_labels-split fuel p q free)
        ((free, rest.0), Splits-cons p q (reverse_labels fuel p) rest.1)
]

pub reverse_labels-dotted :
    (fuel : ℕ) (ls : List Bytes)
    → length (dotted ls) ≤ fuel
    → All (NoByte b'.') ls
    → reverse_labels fuel (dotted ls) ≡ ls
unfolding reverse_labels
reverse_labels-dotted zero [] h free = refl
reverse_labels-dotted (suc fuel) [] h free = refl
reverse_labels-dotted zero (l ∷ ls) h free =
    absurd (omega (arith, length-append (dotted ls) (b'.' ∷ l)))
reverse_labels-dotted (suc fuel) (l ∷ ls) h free =
    rw (reverse_labels-split fuel (dotted ls) l free.0) (
      ap (λ (t : List Bytes). l ∷ t)
        (reverse_labels-dotted fuel ls (omega (arith, length-append (dotted ls) (b'.' ∷ l)))
          free.1))

pub reverse_labels-join :
    (fuel : ℕ) (ls : List Bytes)
    → length (join ls) ≤ fuel
    → All (λ l. is_empty l ≡ false) ls
    → All (NoByte b'.') ls
    → reverse_labels fuel (join ls) ≡ ls
unfolding reverse_labels
reverse_labels-join zero [] h full free = refl
reverse_labels-join (suc fuel) [] h full free = refl
reverse_labels-join zero ([] ∷ []) h full free = cc
reverse_labels-join zero ((c ∷ l) ∷ []) h full free = absurd (omega arith)
reverse_labels-join (suc fuel) (l ∷ []) h full free = reverse_labels-last fuel l full.0 free.0
reverse_labels-join zero (l ∷ m ∷ ls) h full free =
    absurd (omega (arith, length-append (join (m ∷ ls)) (b'.' ∷ l)))
reverse_labels-join (suc fuel) (l ∷ m ∷ ls) h full free =
    rw (reverse_labels-split fuel (join (m ∷ ls)) l free.0) (
      ap (λ (t : List Bytes). l ∷ t)
        (reverse_labels-join fuel (m ∷ ls) (omega (arith, length-append (join (m ∷ ls)) (b'.' ∷ l)))
          full.1 free.1))
