-- ===== src/Policy/Matching/Panics.antt =====
-- The string indexing of `matchDomainConstraint` of policy/validate.go.
use certificates.Base.{
  ◌≡◌, ◌≢◌, ◌↔◌, ◌⊎◌, inl, refl, Bool, true, false, [], ◌∷◌, Bytes, arith, bytes_eq, has_prefix,
  Outcome, ok, err, panic,
}
use certificates.Policy.Types.{MatchError}
use certificates.Policy.Matching.{
  star, blocked_start, labels_of, match_labels, match_wildcard, match_domain_constraint,
}

-- Whether the call panics.
abbrev panics : Outcome MatchError Bool → Bool
panics panic = true
panics (ok b) = false
panics (err e) = false

match_labels-returns : (d k : Bytes) → panics (match_labels d k) ≡ false
unfolding match_labels labels_of
match_labels-returns d k = ground arith

match_wildcard-returns : (allow : Bool) (d k : Bytes) → panics (match_wildcard allow d k) ≡ false
unfolding match_wildcard
match_wildcard-returns allow d k = ground (arith, match_labels-returns d k)

-- The matcher panics exactly on a constraint that is not empty and a domain that is empty or a
-- lone asterisk.
pub match_domain_constraint_panics :
    (allow : Bool) (domain constraint : Bytes)
    → (match_domain_constraint allow domain constraint ≡ panic)
      ↔ ((constraint ≢ []) × ((domain ≡ []) ⊎ (domain ≡ star)))
unfolding match_domain_constraint blocked_start bytes_eq
match_domain_constraint_panics allow domain [] = ((λ h. cc), λ h. absurd (h.0 refl))
match_domain_constraint_panics allow [] (k ∷ ks) = ((λ h. ((λ e. cc), inl refl)), λ h. refl)
match_domain_constraint_panics allow (c ∷ []) (k ∷ ks) = (
  (λ h. ((λ e. cc), ground (arith, match_wildcard-returns allow (c ∷ []) (k ∷ ks)))),
  λ h. ground arith,
)
match_domain_constraint_panics allow (c ∷ d ∷ s) (k ∷ ks) = (
  (λ h. absurd (ground (arith, match_wildcard-returns allow (c ∷ d ∷ s) (k ∷ ks)))),
  λ h. ground arith,
)

-- Without `allowLiteralWildcardNames` no constraint but the empty one matches a domain that starts
-- with an asterisk and a dot.
pub match_domain_constraint_wildcard :
    (domain constraint : Bytes)
    → constraint ≢ []
    → match_domain_constraint false (b'*' ∷ b'.' ∷ domain) constraint ≡ ok false
unfolding match_domain_constraint match_wildcard blocked_start bytes_eq has_prefix
match_domain_constraint_wildcard domain [] h = absurd (h refl)
match_domain_constraint_wildcard domain (k ∷ ks) h = refl
