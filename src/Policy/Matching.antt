-- ===== src/Policy/Matching.antt =====
-- The match functions of policy/validate.go.
pub mod Shape
pub mod Fold
pub mod Domain
pub mod Panics
pub mod Total
use certificates.Base.{
  ℕ, suc, ◌+◌, Bool, true, false, ◌&&◌, ◌||◌, not, Option, none, some, List, [], ◌∷◌, Bytes, codes,
  ltb, ◌==◌, if◌then◌else◌, is_empty, length, bytes_eq, has_prefix, has_suffix, contains,
  last_index_byte, equal_fold, Outcome, ok, err, panic, ◌>>=◌,
}
use certificates.Policy.Labels.{domain_to_reverse_labels}
use certificates.Policy.Mailbox.{Rfc2821Mailbox, parse_rfc2821_mailbox}
use certificates.Policy.Types.{
  External, MatchError, bad_domain, bad_constraint, empty_host, host_asterisk, bad_host_port,
  host_is_ip, Url,
}

abbrev pub star : Bytes
star = b'*' ∷ []

abbrev pub wildcard_prefix : Bytes
wildcard_prefix = b'*' ∷ b'.' ∷ []

-- domain[1] != '.', on the bytes behind the first
second_not_period : Bytes → Outcome MatchError Bool
second_not_period [] = panic
second_not_period (d ∷ rest) = ok (not (d == b'.'))

-- `domain[0] == '.'` or `domain[0] == '*' && domain[1] != '.'`. An index out of range panics.
unfoldable pub blocked_start : Bytes → Outcome MatchError Bool
unfolding second_not_period
blocked_start [] = panic
blocked_start (c ∷ rest) =
    if c == b'.' then ok true else if c == b'*' then second_not_period rest else ok false

-- strings.LastIndex(domain, "*") > 0
unfoldable pub late_star : Bytes → Bool
late_star domain = elim (last_index_byte domain b'*') [ none ↦ false | some i ↦ ltb 0 i ]

unfoldable pub labels_of : Bytes → MatchError → Outcome MatchError (List Bytes)
labels_of domain e = elim (domain_to_reverse_labels domain) [ none ↦ err e | some ls ↦ ok ls ]

-- The loop over `constraintLabels`; `domainLabels` is at least as long where it is called.
unfoldable pub labels_fold : List Bytes → List Bytes → Bool
labels_fold [] domain_labels = true
labels_fold (c ∷ constraint_labels) [] = false
labels_fold (c ∷ constraint_labels) (d ∷ domain_labels) =
    equal_fold c d && labels_fold constraint_labels domain_labels

-- `constraint[0] == '.'`
pub starts_with_period : Bytes → Bool
starts_with_period [] = false
starts_with_period (c ∷ rest) = c == b'.'

tail : Bytes → Bytes
tail [] = []
tail (c ∷ rest) = rest

-- From the parsing of the domain on; the constraint is not empty.
unfoldable pub match_labels : Bytes → Bytes → Outcome MatchError Bool
unfolding starts_with_period tail
match_labels domain constraint = do
  domain_labels ← labels_of domain bad_domain
  let must_have_subdomains = starts_with_period constraint
  let constraint' = if must_have_subdomains then tail constraint else constraint
  constraint_labels ← labels_of constraint' bad_constraint
  let expected =
      if must_have_subdomains then suc (length constraint_labels) else length constraint_labels
  if length domain_labels == expected
      then ok (labels_fold constraint_labels domain_labels)
      else ok false

-- From the test for a wildcard on.
unfoldable pub match_wildcard : Bool → Bytes → Bytes → Outcome MatchError Bool
match_wildcard allow domain constraint =
    if has_prefix domain wildcard_prefix && not allow
    then ok false
    else if late_star domain
    then ok false
    else if contains constraint (b'.' ∷ b'.' ∷ [])
    then ok false
    else match_labels domain constraint

-- matchDomainConstraint; `allow` is `e.allowLiteralWildcardNames`.
unfoldable pub match_domain_constraint : Bool → Bytes → Bytes → Outcome MatchError Bool
match_domain_constraint allow domain constraint =
    if is_empty constraint then ok true else if bytes_eq domain (32 ∷ []) then ok false else do
      blocked ← blocked_start domain
      if blocked then ok false else match_wildcard allow domain constraint

match_mailbox : Rfc2821Mailbox → Option Rfc2821Mailbox → Outcome MatchError Bool
unfolding bytes_eq equal_fold
match_mailbox mailbox none = err bad_constraint
match_mailbox mailbox (some c) =
    ok (bytes_eq mailbox.local c.local && equal_fold mailbox.domain c.domain)

unfoldable pub match_email_constraint : Bool → Rfc2821Mailbox → Bytes → Outcome MatchError Bool
unfolding match_mailbox
match_email_constraint allow mailbox constraint =
    if contains constraint (b'@' ∷ [])
    then match_mailbox mailbox (parse_rfc2821_mailbox constraint)
    else match_domain_constraint allow mailbox.domain constraint

module _ (x : External) where
  -- The host without its port.
  host_only : Bytes → Outcome MatchError Bytes
  unfolding contains has_suffix
  host_only host =
      if contains host (b':' ∷ []) && not (has_suffix host (b']' ∷ []))
      then elim (x.split_host_port host) [ none ↦ err bad_host_port | some h ↦ ok h ]
      else ok host

  is_ip_host : Bytes → Bool
  unfolding has_prefix has_suffix
  is_ip_host host =
      (has_prefix host (b'[' ∷ []) && has_suffix host (b']' ∷ []))
      || (elim (x.parse_ip host) [ none ↦ false | some ip ↦ true ])

  unfoldable pub match_uri_constraint : Bool → Url → Bytes → Outcome MatchError Bool
  unfolding host_only is_ip_host
  match_uri_constraint allow uri constraint =
      if is_empty uri.host
      then err empty_host
      else if contains uri.host star
      then err host_asterisk
      else do
        host ← host_only uri.host
        if is_ip_host host then err host_is_ip else match_domain_constraint allow host constraint

unfoldable pub match_principal_constraint : Bytes → Bytes → Bool
unfolding bytes_eq equal_fold
match_principal_constraint principal constraint =
    if bytes_eq constraint star then true else equal_fold principal constraint

unfoldable pub match_common_name_constraint : Bytes → Bytes → Bool
unfolding bytes_eq equal_fold
match_common_name_constraint common_name constraint =
    if bytes_eq constraint star then false else equal_fold common_name constraint
