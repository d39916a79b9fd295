-- ===== src/Base/Text.antt =====
-- Go strings as lists of bytes, with the operations of package `strings` that the program calls.
-- Letter case and white space are those of ASCII; bytes above 127 are left alone.
use Prim.Native.Nat.{ℕ, suc, ◌+◌}
use Prim.Native.Char.{code}
use Prim.Native.String.{String}
use mathlib.Core.Path.{◌≡◌, refl, ap}
use mathlib.Core.Logic.{◌↔◌, ◌⊎◌, inl, inr}
use mathlib.Core.Bool.{Bool, true, false, ◌&&◌, ◌||◌}
use mathlib.Core.Option.{Option, none, some}
use mathlib.Core.List.{List, [], ◌∷◌, ◌++◌, map, reverse}
use native.Mathlib.Omega.{arith}
use certificates.Base.Tests.{leb, ◌==◌, if◌then◌else◌, ==_iff, ==_refl, Bool-cases}
use certificates.Base.Lists.{length, All}

abbrev pub Bytes : Type 0
Bytes = List ℕ

-- The bytes of an ASCII text.
abbrev pub codes : String → Bytes
codes String.[] = []
codes (String.◌∷◌ c s) = code c ∷ codes s

-- s == t
unfoldable pub bytes_eq : Bytes → Bytes → Bool
bytes_eq [] [] = true
bytes_eq [] (b ∷ t) = false
bytes_eq (a ∷ s) [] = false
bytes_eq (a ∷ s) (b ∷ t) = a == b && bytes_eq s t

-- strings.LastIndexByte, with `none` for -1.
unfoldable pub last_index_byte : Bytes → ℕ → Option ℕ
last_index_byte [] b = none
last_index_byte (a ∷ s) b = elim (last_index_byte s b) [
  | some i ↦ some (suc i)
  | none ↦ if a == b then some 0 else none
]

-- strings.HasPrefix(s, p)
unfoldable pub has_prefix : Bytes → Bytes → Bool
has_prefix s [] = true
has_prefix [] (b ∷ p) = false
has_prefix (a ∷ s) (b ∷ p) = a == b && has_prefix s p

-- strings.HasSuffix(s, p)
unfoldable pub has_suffix : Bytes → Bytes → Bool
unfolding has_prefix
has_suffix s p = has_prefix (reverse s) (reverse p)

-- strings.Contains(s, p)
unfoldable pub contains : Bytes → Bytes → Bool
unfolding has_prefix
contains [] p = has_prefix [] p
contains (a ∷ s) p = has_prefix (a ∷ s) p || contains s p

-- strings.Count(s, p) for a one-byte p
unfoldable pub count_byte : Bytes → ℕ → ℕ
count_byte [] b = 0
count_byte (a ∷ s) b = if a == b then suc (count_byte s b) else count_byte s b

abbrev pub lower_byte : ℕ → ℕ
lower_byte c = if leb b'A' c && leb c b'Z' then c + 32 else c

-- strings.ToLower
unfoldable pub to_lower : Bytes → Bytes
to_lower = map lower_byte

-- strings.EqualFold
unfoldable pub equal_fold : Bytes → Bytes → Bool
unfolding bytes_eq to_lower
equal_fold s t = bytes_eq (to_lower s) (to_lower t)

abbrev is_space : ℕ → Bool
is_space c = c == 32 || (leb 9 c && leb c 13)

trim_left : Bytes → Bytes
trim_left [] = []
trim_left (c ∷ s) = let rest = trim_left s in if is_space c then rest else c ∷ s

-- strings.TrimSpace
unfoldable pub trim_space : Bytes → Bytes
unfolding trim_left
trim_space s = reverse (trim_left (reverse (trim_left s)))

pub bytes_eq_iff : (s t : Bytes) → (bytes_eq s t ≡ true) ↔ (s ≡ t)
unfolding bytes_eq
bytes_eq_iff [] [] = ((λ _. refl), λ _. refl)
bytes_eq_iff [] (b ∷ t) = ((λ h. cc), λ h. cc)
bytes_eq_iff (a ∷ s) [] = ((λ h. cc), λ h. cc)
bytes_eq_iff (a ∷ s) (b ∷ t) =
    ((λ h. ground (arith, bytes_eq_iff s t)), λ h. ground (arith, bytes_eq_iff s t))

pub bytes_eq_refl : (s : Bytes) → bytes_eq s s ≡ true
bytes_eq_refl s = (bytes_eq_iff s s).1 refl

-- The last occurrence of a byte splits the text.
abbrev pub NoByte : ℕ → Bytes → Type 0
NoByte b = All (λ c. (c == b) ≡ false)

abbrev pub LastByte : Bytes → ℕ → Type 0
LastByte s b =
    (NoByte b s × (last_index_byte s b ≡ none))
    ⊎ ((p : Bytes) × (q : Bytes) × (s ≡ p ++ b ∷ q)
        × NoByte b q
        × (last_index_byte s b ≡ some (length p)))

pub LastByte-view : (s : Bytes) (b : ℕ) → LastByte s b
unfolding last_index_byte
LastByte-view [] b = inl (tt, refl)
LastByte-view (a ∷ s) b = elim (LastByte-view s b) [
  | inl h ↦ elim (Bool-cases (a == b)) [
    | inl e ↦ inr ([], s, ap (λ (x : ℕ). x ∷ s) ((==_iff a b).0 e), h.0, rw (h.1, e))
    | inr e ↦ inl ((e, h.0), rw (h.1, e))
  ]
  | inr (p, q, split, free, found) ↦ inr (a ∷ p, q, ap (λ (t : Bytes). a ∷ t) split, free, rw found)
]

pub last_index_byte-none : (s : Bytes) (b : ℕ) → NoByte b s → last_index_byte s b ≡ none
unfolding last_index_byte
last_index_byte-none [] b h = refl
last_index_byte-none (a ∷ s) b h = rw (last_index_byte-none s b h.1, h.0)

pub last_index_byte-split :
    (p : Bytes) (b : ℕ) (q : Bytes) → NoByte b q → last_index_byte (p ++ b ∷ q) b ≡ some (length p)
unfolding last_index_byte
last_index_byte-split [] b q h = rw (last_index_byte-none q b h, ==_refl b)
last_index_byte-split (a ∷ p) b q h = rw (last_index_byte-split p b q h)
