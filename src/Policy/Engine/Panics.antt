-- ===== src/Policy/Engine/Panics.antt =====
-- The email names of `validateNames` of policy/validate.go and the string indexing of its matcher.
use certificates.Base.{
  ◌≡◌, ◌≢◌, ◌⊎◌, Bool, false, some, List, [], ◌∷◌, Bytes, ◌==◌, contains, panic,
}
use certificates.Policy.Types.{Names, External}
use certificates.Policy.Mailbox.{Rfc2821Mailbox, parse_rfc2821_mailbox}
use certificates.Policy.Matching.{star, match_email_constraint}
use certificates.Policy.Matching.Panics.{match_domain_constraint_panics}
use certificates.Policy.Constraints.{check_excluded, check_name_constraints}
use certificates.Policy.Engine.{
  NamePolicyEngine, each, implicitly_denied, check_mailbox, check_email, validate_names,
}

-- The domain of an email address that the matcher cannot index.
abbrev pub IsUnindexable : Bytes → Type 0
IsUnindexable d = (d ≡ []) ⊎ (d ≡ star)

match_email_constraint-panics :
    (allow : Bool) (m : Rfc2821Mailbox) (k : Bytes)
    → IsUnindexable m.domain
    → k ≢ []
    → contains k (b'@' ∷ []) ≡ false
    → match_email_constraint allow m k ≡ panic
unfolding match_email_constraint
match_email_constraint-panics allow m k bad full plain =
    rw plain ((match_domain_constraint_panics allow m.domain k).1 (full, bad))

abbrev pub only_email : Bytes → Names
only_email name = record { dns_names = []; ips = []; email_addresses = name ∷ []; uris = [] }

-- In an engine that has constraints and does not deny email addresses for want of email
-- constraints, the check of an email address panics where the address parses, the ASCII form of
-- its domain is empty or a lone asterisk, and the first excluded email constraint is not empty and
-- holds no `@`.
pub validate_names-email_panics :
    (x : External) (e : NamePolicyEngine) (name ascii k : Bytes) (ks : List Bytes)
    (m : Rfc2821Mailbox)
    → (e.total_number_of_constraints == 0) ≡ false
    → implicitly_denied e e.number_of_email_address_constraints ≡ false
    → parse_rfc2821_mailbox name ≡ some m
    → x.idna_to_ascii m.domain ≡ some ascii
    → IsUnindexable ascii
    → e.excluded_email_addresses ≡ k ∷ ks
    → k ≢ []
    → contains k (b'@' ∷ []) ≡ false
    → validate_names x e (only_email name) [] ≡ panic
unfolding validate_names each check_email check_mailbox check_name_constraints check_excluded
validate_names-email_panics x e name ascii k ks m some_set fine parsed form bad first full plain =
    rw (
      some_set,
      fine,
      parsed,
      check_email,
      check_mailbox,
      form,
      first,
      match_email_constraint-panics e.allow_literal_wildcard_names (record m { domain = ascii }) k
          bad full plain,
      check_name_constraints,
      check_excluded,
    )
