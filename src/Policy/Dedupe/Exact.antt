-- ===== src/Policy/Dedupe/Exact.antt =====
-- `removeDuplicates` and `removeDuplicateIPNets` of policy/engine.go, and the constraints that they
-- shorten.
use mathlib.Core.List.{Sublistᴰ}
use certificates.Base.{
  ◌≡◌, inl, inr, refl, Bool, true, false, List, [], ◌∷◌, Bytes, All, arith, bytes_eq, bytes_eq_iff,
  Bool-cases, Outcome, ok, subst,
}
use certificates.Policy.Types.{NameType, MatchError}
use certificates.Policy.Constraints.{
  check_excluded, permitted_loop, check_permitted, check_name_constraints,
}
use certificates.Policy.Dedupe.{has_key, dedupe_loop, dedupe}

module _ {A : Type 0} (key : A → Bytes) where
  -- No key stands twice, nor in `keys`.
  abbrev pub Fresh : List Bytes → List A → Type 0
  Fresh keys [] = Unit
  Fresh keys (a ∷ items) = (has_key keys (key a) ≡ false) × Fresh (key a ∷ keys) items

  pub dedupe_loop-Fresh :
      (keys : List Bytes) (items : List A) → Fresh keys (dedupe_loop key keys items)
  unfolding dedupe_loop
  dedupe_loop-Fresh keys [] = tt
  dedupe_loop-Fresh keys (a ∷ items) = elim (Bool-cases (has_key keys (key a))) [
    | inl e ↦ rw (e, dedupe_loop) (dedupe_loop-Fresh keys items)
    | inr e ↦ rw (e, dedupe_loop) (e, dedupe_loop-Fresh (key a ∷ keys) items)
  ]

  dedupe_loop-Sublist :
      (keys : List Bytes) (items : List A) → Sublistᴰ (dedupe_loop key keys items) items
  unfolding dedupe_loop
  dedupe_loop-Sublist keys [] = Sublistᴰ.slnil
  dedupe_loop-Sublist keys (a ∷ items) = elim (Bool-cases (has_key keys (key a))) [
    | inl e ↦ rw (e, dedupe_loop) (Sublistᴰ.cons (dedupe_loop-Sublist keys items))
    | inr e ↦
        rw (e, dedupe_loop) (Sublistᴰ.cons-cons refl (dedupe_loop-Sublist (key a ∷ keys) items))
  ]

  -- The early return for short lists changes nothing.
  pub dedupe-loop : (items : List A) → dedupe key items ≡ dedupe_loop key [] items
  unfolding dedupe
  dedupe-loop [] = unfold dedupe_loop in refl
  dedupe-loop (a ∷ []) = unfold dedupe_loop has_key in refl
  dedupe-loop (a ∷ b ∷ items) = ground arith

  -- The result has no two items of one key, and is the items in their order with some left out.
  pub dedupe-Fresh :
      (items : List A) → Fresh [] (dedupe key items) × Sublistᴰ (dedupe key items) items
  dedupe-Fresh items =
      rw (dedupe-loop items) (dedupe_loop-Fresh [] items, dedupe_loop-Sublist [] items)

-- A key that was seen has what holds of all keys that were seen.
pub has_key-All :
    (P : Bytes → Type 0) (keys : List Bytes) (k : Bytes) → All P keys → has_key keys k ≡ true → P k
unfolding has_key
has_key-All P [] k all h = absurd (ground arith)
has_key-All P (j ∷ keys) k all h = elim (Bool-cases (bytes_eq j k)) [
  | inl e ↦ subst P ((bytes_eq_iff j k).0 e) all.0
  | inr e ↦ has_key-All P keys k all.1 (rw e at h)
]

-- The matches of a constraint depend on its key only.
module _ {A : Type 0} (key : A → Bytes) (name_type : NameType) (name : Bytes)
    (matches : Bytes → Outcome MatchError Bool) where
  check_excluded-dedupe :
      (keys : List Bytes) (items : List A)
      → All (λ k. matches k ≡ ok false) keys
      → check_excluded name_type name (λ a. matches (key a)) (dedupe_loop key keys items)
        ≡ check_excluded name_type name (λ a. matches (key a)) items
  unfolding dedupe_loop check_excluded
  check_excluded-dedupe keys [] h = refl
  check_excluded-dedupe keys (a ∷ items) h = elim (Bool-cases (has_key keys (key a))) [
    | inl e ↦
        rw
          (e, has_key-All (λ k. matches k ≡ ok false) keys (key a) h e, dedupe_loop, check_excluded)
          (check_excluded-dedupe keys items h)
    | inr e ↦
        rw (e, dedupe_loop)
          (ground (
            arith,
            λ (m : matches (key a) ≡ ok false). check_excluded-dedupe (key a ∷ keys) items (m, h),
          ))
  ]

  permitted_loop-dedupe :
      (keys : List Bytes) (items : List A)
      → All (λ k. matches k ≡ ok false) keys
      → permitted_loop name_type name (λ a. matches (key a)) false (dedupe_loop key keys items)
        ≡ permitted_loop name_type name (λ a. matches (key a)) false items
  unfolding dedupe_loop permitted_loop
  permitted_loop-dedupe keys [] h = refl
  permitted_loop-dedupe keys (a ∷ items) h = elim (Bool-cases (has_key keys (key a))) [
    | inl e ↦
        rw
          (e, has_key-All (λ k. matches k ≡ ok false) keys (key a) h e, dedupe_loop, permitted_loop)
          (permitted_loop-dedupe keys items h)
    | inr e ↦
        rw (e, dedupe_loop)
          (ground (
            arith,
            λ (m : matches (key a) ≡ ok false). permitted_loop-dedupe (key a ∷ keys) items (m, h),
          ))
  ]

  permitted_loop-dedupe_all :
      (items : List A)
      → permitted_loop name_type name (λ a. matches (key a)) true (dedupe_loop key [] items)
        ≡ permitted_loop name_type name (λ a. matches (key a)) true items
  unfolding dedupe_loop permitted_loop has_key
  permitted_loop-dedupe_all [] = refl
  permitted_loop-dedupe_all (a ∷ items) =
      ground (
        arith,
        λ (m : matches (key a) ≡ ok false). permitted_loop-dedupe (key a ∷ []) items (m, tt),
      )

  -- Where a match depends on the key of a constraint only, the check of a name by the constraints
  -- without their duplicates has the outcome of the check by all of them, errors included.
  pub check_name_constraints-dedupe :
      (permitted excluded : List A)
      → check_name_constraints name_type name
          (λ a. matches (key a))
          (dedupe key permitted)
          (dedupe key excluded)
        ≡ check_name_constraints name_type name (λ a. matches (key a)) permitted excluded
  unfolding check_name_constraints check_permitted
  check_name_constraints-dedupe permitted excluded = rw (
    dedupe-loop key permitted,
    dedupe-loop key excluded,
    check_excluded-dedupe [] excluded tt,
    permitted_loop-dedupe_all permitted,
  )
