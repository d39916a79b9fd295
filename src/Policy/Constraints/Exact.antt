-- ===== src/Policy/Constraints/Exact.antt =====
-- `checkNameConstraints` of policy/validate.go, for any kind of name and any matcher.
use certificates.Base.{
  ◌≡◌, ◌↔◌, ◌⊎◌, inl, inr, refl, ap, Bool, true, false, List, [], ◌∷◌, ◌++◌, Bytes, All, arith,
  Outcome, ok, err, seq-eq-ok,
}
use certificates.Policy.Types.{NameType, MatchError, not_allowed}
use certificates.Policy.Constraints.{
  check_excluded, permitted_loop, check_permitted, check_name_constraints,
}

module _ {C : Type 0} (name_type : NameType) (name : Bytes)
    (matches : C → Outcome MatchError Bool) where
  abbrev pub Rejects : C → Type 0
  Rejects c = matches c ≡ ok false

  -- A constraint that matches stands behind constraints that return and do not match.
  abbrev pub FirstMatch : List C → Type 0
  FirstMatch cs =
      (before : List C) × (c : C) × (after : List C) × (cs ≡ before ++ c ∷ after)
      × All Rejects before
      × (matches c ≡ ok true)

  -- The name passes: no excluded constraint matches it, and if there are permitted ones, one
  -- matches. Every match that is tried returns.
  abbrev pub Passes : List C → List C → Type 0
  Passes permitted excluded = All Rejects excluded × ((permitted ≡ []) ⊎ FirstMatch permitted)

  check_excluded_sound :
      (cs : List C) → check_excluded name_type name matches cs ≡ ok tt → All Rejects cs
  unfolding check_excluded
  check_excluded_sound [] h = tt
  check_excluded_sound (c ∷ cs) h = (ground arith, check_excluded_sound cs (ground arith))

  check_excluded_complete :
      (cs : List C) → All Rejects cs → check_excluded name_type name matches cs ≡ ok tt
  unfolding check_excluded
  check_excluded_complete [] h = refl
  check_excluded_complete (c ∷ cs) h = rw (h.0, check_excluded) (check_excluded_complete cs h.1)

  FirstMatch-cons : (c : C) (cs : List C) → Rejects c → FirstMatch cs → FirstMatch (c ∷ cs)
  FirstMatch-cons c cs h (before, d, after, e, all, found) =
      (c ∷ before, d, after, ap (λ (t : List C). c ∷ t) e, (h, all), found)

  permitted_loop-head :
      (allowed : Bool) (c : C) (cs : List C)
      → permitted_loop name_type name matches allowed (c ∷ cs) ≡ ok true
      → (matches c ≡ ok true)
        ⊎ ((matches c ≡ ok false) × (permitted_loop name_type name matches false cs ≡ ok true))
  unfolding permitted_loop
  permitted_loop-head allowed c cs h = ground arith

  permitted_loop_sound :
      (allowed : Bool) (cs : List C)
      → permitted_loop name_type name matches allowed cs ≡ ok true
      → ((cs ≡ []) × (allowed ≡ true)) ⊎ FirstMatch cs
  unfolding permitted_loop
  permitted_loop_sound allowed [] h = inl (refl, ground arith)
  permitted_loop_sound allowed (c ∷ cs) h = elim (permitted_loop-head allowed c cs h) [
    | inl e ↦ inr ([], c, cs, refl, tt, e)
    | inr (e, rest) ↦ elim (permitted_loop_sound false cs rest) [
      | inl none_left ↦ absurd (ground arith)
      | inr found ↦ inr (FirstMatch-cons c cs e found)
    ]
  ]

  permitted_loop-found :
      (allowed : Bool) (before : List C) (c : C) (after : List C)
      → All Rejects before
      → matches c ≡ ok true
      → permitted_loop name_type name matches allowed (before ++ c ∷ after) ≡ ok true
  unfolding permitted_loop
  permitted_loop-found allowed [] c after h found = rw found
  permitted_loop-found allowed (b ∷ before) c after h found =
      rw h.0 (permitted_loop-found false before c after h.1 found)

  check_permitted_sound :
      (cs : List C) → check_permitted name_type name matches cs ≡ ok tt → (cs ≡ []) ⊎ FirstMatch cs
  unfolding check_permitted
  check_permitted_sound cs h =
      let loop : permitted_loop name_type name matches true cs ≡ ok true = ground arith in
      elim (permitted_loop_sound true cs loop) [ inl e ↦ inl e.0 | inr found ↦ inr found ]

  check_permitted_complete :
      (cs : List C) → (cs ≡ []) ⊎ FirstMatch cs → check_permitted name_type name matches cs ≡ ok tt
  unfolding check_permitted
  check_permitted_complete cs (inl e) = rw e (unfold permitted_loop in refl)
  check_permitted_complete cs (inr (before, c, after, e, all, found)) =
      rw (e, permitted_loop-found true before c after all found)

  -- The check returns nil exactly when every excluded constraint returns false on the name, and
  -- either there is no permitted constraint or one returns true behind others that return false.
  pub check_name_constraints_exact :
      (permitted excluded : List C)
      → (check_name_constraints name_type name matches permitted excluded ≡ ok tt)
        ↔ Passes permitted excluded
  unfolding check_name_constraints
  check_name_constraints_exact permitted excluded = (
    (λ h.
        let (e, p) = seq-eq-ok (check_excluded name_type name matches excluded) _ h in
        (check_excluded_sound excluded e, check_permitted_sound permitted p)),
    λ h. rw (check_excluded_complete excluded h.0, check_permitted_complete permitted h.1),
  )

  -- An excluded constraint that matches, behind others that return false, makes the check refuse
  -- the name, whatever is permitted.
  pub check_name_constraints_excluded :
      (permitted before : List C) (c : C) (after : List C)
      → All Rejects before
      → matches c ≡ ok true
      → check_name_constraints name_type name matches permitted (before ++ c ∷ after)
        ≡ err (record { reason = not_allowed; name_type = name_type; name = name })
  unfolding check_name_constraints check_excluded
  check_name_constraints_excluded permitted [] c after h found = rw found
  check_name_constraints_excluded permitted (b ∷ before) c after h found =
      rw h.0 (check_name_constraints_excluded permitted before c after h.1 found)
