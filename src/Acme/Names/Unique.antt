-- ===== src/Acme/Names/Unique.antt =====
-- `uniqueSortedLowerNames` of acme/order.go.
use mathlib.Core.Bool.{false≢true}
use certificates.Base.{
  ◌≡◌, ◌↔◌, inl, inr, refl, sym, subst, ap, ◌∙◌, true, false, List, [], ◌∷◌, Bytes, map, All, arith,
  Bool-cases, bytes_eq, bytes_eq_iff, bytes_eq_refl, to_lower,
}
use certificates.Policy.Dedupe.{has_key}
use certificates.Acme.Names.{bytes_ltb, keys_of, unique_sorted_lower_names}
use certificates.Acme.Names.Sorted.{
  bytes_ltb_irrefl, bytes_ltb_trans, IsAscending, has_key-sort_strings, keys_of-IsAscending,
  has_key-keys_of,
}

-- The two lists hold the same texts.
abbrev pub SameKeys : List Bytes → List Bytes → Type 0
SameKeys xs ys = (k : Bytes) → has_key xs k ≡ has_key ys k

bytes_eq_symm : (s t : Bytes) → bytes_eq s t ≡ true → bytes_eq t s ≡ true
bytes_eq_symm s t h = (bytes_eq_iff t s).1 (sym ((bytes_eq_iff s t).0 h))

above-has_key :
    (x : Bytes) (names : List Bytes) (k : Bytes)
    → All (λ y. bytes_ltb x y ≡ true) names
    → has_key names k ≡ true
    → bytes_ltb x k ≡ true
unfolding has_key
above-has_key x [] k up h = absurd (ground arith)
above-has_key x (y ∷ names) k up h = elim (Bool-cases (bytes_eq y k)) [
  | inl e ↦ subst (λ (t : Bytes). bytes_ltb x t ≡ true) ((bytes_eq_iff y k).0 e) up.0
  | inr e ↦ above-has_key x names k up.1 (rw (e, has_key) at h)
]

head-new :
    (x : Bytes) (names : List Bytes)
    → All (λ y. bytes_ltb x y ≡ true) names
    → has_key names x ≡ false
head-new x names up = elim (Bool-cases (has_key names x)) [
  | inl e ↦ absurd (false≢true (sym (bytes_ltb_irrefl x) ∙ above-has_key x names x up e))
  | inr e ↦ e
]

-- Two ascending lists with the same keys begin with the same name.
head-eq :
    (x : Bytes) (xs : List Bytes) (y : Bytes) (ys : List Bytes)
    → IsAscending (x ∷ xs)
    → IsAscending (y ∷ ys)
    → SameKeys (x ∷ xs) (y ∷ ys)
    → x ≡ y
unfolding has_key
head-eq x xs y ys ux uy same = elim (Bool-cases (bytes_eq x y)) [
  | inl e ↦ (bytes_eq_iff x y).0 e
  | inr e ↦
      let in_xs : has_key xs y ≡ true = ground (arith, same y, bytes_eq_refl y) in
      let in_ys : has_key ys x ≡ true =
        ground (arith, same x, bytes_eq_refl x, bytes_eq_symm y x) in
      absurd (
        false≢true (
          sym (bytes_ltb_irrefl x)
          ∙ bytes_ltb_trans x y x (above-has_key x xs y ux.0 in_xs)
              (above-has_key y ys x uy.0 in_ys)))
]

tail-SameKeys :
    (x : Bytes) (xs ys : List Bytes)
    → has_key xs x ≡ false
    → has_key ys x ≡ false
    → SameKeys (x ∷ xs) (x ∷ ys)
    → SameKeys xs ys
unfolding has_key
tail-SameKeys x xs ys nx ny same k = elim (Bool-cases (bytes_eq x k)) [
  | inl e ↦
      let eq = (bytes_eq_iff x k).0 e in sym (ap (has_key xs) eq) ∙ nx ∙ sym ny ∙ ap (has_key ys) eq
  | inr e ↦ ground (arith, same k)
]

pub IsAscending-unique :
    (xs ys : List Bytes) → IsAscending xs → IsAscending ys → SameKeys xs ys → xs ≡ ys
unfolding has_key
IsAscending-unique [] [] ux uy same = refl
IsAscending-unique [] (y ∷ ys) ux uy same = absurd (ground (arith, same y, bytes_eq_refl y))
IsAscending-unique (x ∷ xs) [] ux uy same = absurd (ground (arith, same x, bytes_eq_refl x))
IsAscending-unique (x ∷ xs) (y ∷ ys) ux uy same =
    let e = head-eq x xs y ys ux uy same in
    let uy' = subst (λ (z : Bytes). IsAscending (z ∷ ys)) (sym e) uy in
    let same' = subst (λ (z : Bytes). SameKeys (x ∷ xs) (z ∷ ys)) (sym e) same in
    let rest =
      IsAscending-unique xs ys ux.1 uy.1
        (tail-SameKeys x xs ys (head-new x xs ux.0) (head-new x ys uy'.0) same') in
    cc (e, rest)

-- The result is in strictly ascending order, so it has no duplicates; it holds exactly the lowered
-- names; and two inputs give one result exactly when their lowered names are the same as sets.
pub unique_sorted_lower_names_exact :
    (names : List Bytes)
    → IsAscending (unique_sorted_lower_names names)
      × SameKeys (unique_sorted_lower_names names) (map to_lower names)
      × ((others : List Bytes)
          → (unique_sorted_lower_names names ≡ unique_sorted_lower_names others)
            ↔ SameKeys (map to_lower names) (map to_lower others))
unfolding unique_sorted_lower_names
unique_sorted_lower_names_exact names =
    (ascending names, holds names, λ others. (shown others, hidden others))
  where
    ascending : (l : List Bytes) → IsAscending (unique_sorted_lower_names l)
    ascending l = keys_of-IsAscending (map to_lower l)

    holds : (l : List Bytes) → SameKeys (unique_sorted_lower_names l) (map to_lower l)
    holds l k =
        has_key-sort_strings (keys_of (map to_lower l)) k ∙ has_key-keys_of (map to_lower l) k

    shown :
        (others : List Bytes)
        → unique_sorted_lower_names names ≡ unique_sorted_lower_names others
        → SameKeys (map to_lower names) (map to_lower others)
    shown others e k = sym (holds names k) ∙ ap (λ (l : List Bytes). has_key l k) e ∙ holds others k

    hidden :
        (others : List Bytes)
        → SameKeys (map to_lower names) (map to_lower others)
        → unique_sorted_lower_names names ≡ unique_sorted_lower_names others
    hidden others same =
        IsAscending-unique (unique_sorted_lower_names names) (unique_sorted_lower_names others)
          (ascending names) (ascending others) (λ k. holds names k ∙ same k ∙ sym (holds others k))
