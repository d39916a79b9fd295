-- ===== src/Acme/Names/Sorted.antt =====
-- The order on byte strings, and insertion into a strictly sorted list.
use mathlib.Core.Bool.{false≢true}
use certificates.Base.{
  ◌≡◌, inl, inr, refl, sym, ap, true, false, List, [], ◌∷◌, Bytes, All, All-map, arith, Bool-cases,
  bytes_eq, bytes_eq_iff, bytes_eq_refl, ◌||◌, ◌∙◌,
}
use certificates.Policy.Dedupe.{has_key, dedupe_loop}
use certificates.Policy.Dedupe.Exact.{Fresh, dedupe_loop-Fresh}
use certificates.Acme.Names.{bytes_ltb, insert, sort_strings, keys_of}

pub bytes_ltb_irrefl : (s : Bytes) → bytes_ltb s s ≡ false
unfolding bytes_ltb
bytes_ltb_irrefl [] = refl
bytes_ltb_irrefl (a ∷ s) = ground (arith, bytes_ltb_irrefl s)

pub bytes_ltb_trans :
    (s t u : Bytes) → bytes_ltb s t ≡ true → bytes_ltb t u ≡ true → bytes_ltb s u ≡ true
unfolding bytes_ltb
bytes_ltb_trans s [] [] h k = absurd (ground arith)
bytes_ltb_trans s (b ∷ t) [] h k = absurd (ground arith)
bytes_ltb_trans [] t (c ∷ u) h k = refl
bytes_ltb_trans (a ∷ s) [] (c ∷ u) h k = absurd (ground arith)
bytes_ltb_trans (a ∷ s) (b ∷ t) (c ∷ u) h k = ground (arith, bytes_ltb_trans s t u)

pub bytes_ltb_total :
    (s t : Bytes) → bytes_ltb s t ≡ false → bytes_eq s t ≡ false → bytes_ltb t s ≡ true
unfolding bytes_ltb bytes_eq
bytes_ltb_total [] [] h k = cc
bytes_ltb_total [] (b ∷ t) h k = cc
bytes_ltb_total (a ∷ s) [] h k = refl
bytes_ltb_total (a ∷ s) (b ∷ t) h k = ground (arith, bytes_ltb_total s t)

-- Each name is below all behind it: the list is sorted and has no duplicates.
abbrev pub IsAscending : List Bytes → Type 0
IsAscending [] = Unit
IsAscending (x ∷ names) = All (λ y. bytes_ltb x y ≡ true) names × IsAscending names

has_key-insert :
    (name : Bytes) (names : List Bytes) (k : Bytes)
    → has_key (insert name names) k ≡ (bytes_eq name k || has_key names k)
unfolding insert has_key
has_key-insert name [] k = refl
has_key-insert name (x ∷ names) k = ground (arith, has_key-insert name names k)

pub has_key-sort_strings :
    (names : List Bytes) (k : Bytes) → has_key (sort_strings names) k ≡ has_key names k
unfolding sort_strings has_key
has_key-sort_strings [] k = refl
has_key-sort_strings (x ∷ names) k =
    ground (arith, has_key-insert x (sort_strings names) k, has_key-sort_strings names k)

All-insert :
    (x name : Bytes) (names : List Bytes)
    → bytes_ltb x name ≡ true
    → All (λ y. bytes_ltb x y ≡ true) names
    → All (λ y. bytes_ltb x y ≡ true) (insert name names)
unfolding insert
All-insert x name [] h all = (h, tt)
All-insert x name (y ∷ names) h all = elim (Bool-cases (bytes_ltb y name)) [
  | inl e ↦ rw (e, insert) (all.0, All-insert x name names h all.1)
  | inr e ↦ rw (e, insert) (h, all)
]

-- `name` is below all names that are above one it is below.
All-above :
    (name x : Bytes) (names : List Bytes)
    → bytes_ltb name x ≡ true
    → All (λ y. bytes_ltb x y ≡ true) names
    → All (λ y. bytes_ltb name y ≡ true) names
All-above name x names h =
    All-map (λ y. bytes_ltb x y ≡ true) (λ y. bytes_ltb name y ≡ true)
      (λ y k. bytes_ltb_trans name x y h k) names

insert-IsAscending :
    (name : Bytes) (names : List Bytes)
    → has_key names name ≡ false
    → IsAscending names
    → IsAscending (insert name names)
unfolding insert has_key
insert-IsAscending name [] new up = (tt, tt)
insert-IsAscending name (x ∷ names) new up = elim (Bool-cases (bytes_ltb x name)) [
  | inl e ↦
      rw (e, insert)
        (All-insert x name names e up.0, insert-IsAscending name names (ground arith) up.1)
  | inr e ↦
      let below : bytes_ltb name x ≡ true = bytes_ltb_total x name e (ground arith) in
      rw (e, insert) ((below, All-above name x names below up.0), up)
]

Fresh-new :
    (keys names : List Bytes) (k : Bytes)
    → Fresh (λ s. s) keys names
    → has_key keys k ≡ true
    → has_key names k ≡ false
unfolding has_key
Fresh-new keys [] k f h = refl
Fresh-new keys (a ∷ names) k f h = elim (Bool-cases (bytes_eq a k)) [
  | inl e ↦
      let same = (bytes_eq_iff a k).0 e in
      absurd (false≢true (sym f.0 ∙ ap (has_key keys) same ∙ h))
  | inr e ↦ rw (e, has_key) (Fresh-new (a ∷ keys) names k f.1 (rw (e, has_key) h))
]

sort_strings-IsAscending :
    (keys names : List Bytes) → Fresh (λ s. s) keys names → IsAscending (sort_strings names)
unfolding sort_strings
sort_strings-IsAscending keys [] f = tt
sort_strings-IsAscending keys (a ∷ names) f =
    insert-IsAscending a (sort_strings names)
      (has_key-sort_strings names a
        ∙ Fresh-new (a ∷ keys) names a f.1 (unfold has_key in ground (arith, bytes_eq_refl a)))
      (sort_strings-IsAscending (a ∷ keys) names f.1)

dedupe_loop-Fresh_keys :
    (keys names : List Bytes) → Fresh (λ s. s) keys (dedupe_loop (λ s. s) keys names)
dedupe_loop-Fresh_keys = dedupe_loop-Fresh (λ s. s)

-- Sorting the keys of a map gives an ascending list.
pub keys_of-IsAscending : (names : List Bytes) → IsAscending (sort_strings (keys_of names))
keys_of-IsAscending names =
    sort_strings-IsAscending [] (keys_of names) (dedupe_loop-Fresh_keys [] names)

has_key-dedupe_loop :
    (keys names : List Bytes) (k : Bytes)
    → (has_key keys k || has_key (dedupe_loop (λ s. s) keys names) k)
      ≡ (has_key keys k || has_key names k)
unfolding dedupe_loop has_key
has_key-dedupe_loop keys [] k = refl
has_key-dedupe_loop keys (a ∷ names) k = elim (Bool-cases (has_key keys a)) [
  | inl e ↦
      rw (e, dedupe_loop)
        (ground (
          arith,
          has_key-dedupe_loop keys names k,
          λ (b : bytes_eq a k ≡ true). ap (has_key keys) (sym ((bytes_eq_iff a k).0 b)) ∙ e,
        ))
  | inr e ↦ rw (e, dedupe_loop) (ground (arith, has_key-dedupe_loop (a ∷ keys) names k))
]

pub has_key-keys_of : (names : List Bytes) (k : Bytes) → has_key (keys_of names) k ≡ has_key names k
has_key-keys_of names k = unfold has_key in has_key-dedupe_loop [] names k
