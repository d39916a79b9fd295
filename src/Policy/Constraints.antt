-- ===== src/Policy/Constraints.antt =====
-- `checkNameConstraints` of policy/validate.go. The match function is the closure that is passed,
-- already applied to the parsed name.
pub mod Exact
use certificates.Base.{
  Bool, true, false, List, [], ◌∷◌, Bytes, if◌then◌else◌, Outcome, ok, err, panic, ◌>>=◌, ◌>>◌,
}
use certificates.Policy.Types.{
  NamePolicyReason, not_allowed, cannot_match_name_to_constraint, NameType, NamePolicyError,
  MatchError,
}

abbrev pub Verdict : Type 0
Verdict = Outcome NamePolicyError (Unit {0})

module _ {C : Type 0} (name_type : NameType) (name : Bytes)
    (matches : C → Outcome MatchError Bool) where
  abbrev refusal : NamePolicyReason → NamePolicyError
  refusal why = record { reason = why; name_type = name_type; name = name }

  -- The loop over the excluded constraints.
  unfoldable pub check_excluded : List C → Verdict
  check_excluded [] = ok tt
  check_excluded (c ∷ excluded) =
      let rest = check_excluded excluded in
      elim (matches c) [
        | ok true ↦ err (refusal not_allowed)
        | ok false ↦ rest
        | err e ↦ err (refusal cannot_match_name_to_constraint)
        | panic ↦ panic
      ]

  -- The loop over the permitted constraints; `allowed` is the variable `ok`.
  unfoldable pub permitted_loop : Bool → List C → Outcome NamePolicyError Bool
  permitted_loop allowed [] = ok allowed
  permitted_loop allowed (c ∷ permitted) =
      let rest = permitted_loop false permitted in
      elim (matches c) [
        | ok true ↦ ok true
        | ok false ↦ rest
        | err e ↦ err (refusal cannot_match_name_to_constraint)
        | panic ↦ panic
      ]

  unfoldable pub check_permitted : List C → Verdict
  check_permitted permitted = do
    allowed ← permitted_loop true permitted
    if allowed then ok tt else err (refusal not_allowed)

  unfoldable pub check_name_constraints : List C → List C → Verdict
  check_name_constraints permitted excluded = check_excluded excluded >> check_permitted permitted
