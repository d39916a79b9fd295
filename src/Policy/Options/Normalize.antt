-- ===== src/Policy/Options/Normalize.antt =====
-- The four `normalizeAndValidate...` functions of policy/options.go.
use certificates.Base.{
  Bool, true, false, ◌&&◌, ◌||◌, not, Option, none, some, [], ◌∷◌, ◌++◌, Bytes, ltb, ◌==◌,
  if◌then◌else◌, is_empty, drop, bytes_eq, has_prefix, contains, count_byte, to_lower, trim_space,
  Outcome, ok, err, panic, ◌>>=◌,
}
use certificates.Policy.Labels.{domain_to_reverse_labels}
use certificates.Policy.Types.{External}
use certificates.Policy.Mailbox.{Rfc2821Mailbox, parse_rfc2821_mailbox}
use certificates.Policy.Matching.{star, wildcard_prefix, late_star}
use certificates.Policy.Build.{
  ConstraintError, empty_constraint, wildcard_unsupported, empty_labels, leading_period,
  inner_wildcard, partial_wildcard, not_ascii, bad_labels, too_many_ats, bad_mailbox, has_scheme,
  square_brackets, has_port, is_ip,
}

abbrev Normalized : Type 0
Normalized = Outcome ConstraintError Bytes

-- strings.ToLower(strings.TrimSpace(constraint))
abbrev pub tidy : Bytes → Bytes
tidy constraint = to_lower (trim_space constraint)

unfoldable pub normalize_common_name : Bytes → Normalized
normalize_common_name constraint =
    let c = tidy constraint in
    if is_empty c
    then err empty_constraint
    else if bytes_eq c star
    then err wildcard_unsupported
    else ok c

-- `len(c) >= 2 && c[0] == '*' && c[1] != '.'`
pub is_partial_wildcard : Bytes → Bool
is_partial_wildcard [] = false
is_partial_wildcard (a ∷ []) = false
is_partial_wildcard (a ∷ b ∷ rest) = a == b'*' && not (b == b'.')

-- The last test of three of the functions.
unfoldable pub with_labels : Bytes → Normalized
with_labels c = elim (domain_to_reverse_labels c) [ none ↦ err bad_labels | some ls ↦ ok c ]

abbrev pub cut_wildcard : Bytes → Bytes
cut_wildcard c = if has_prefix c wildcard_prefix then drop 1 c else c

module _ (x : External) where
  unfoldable pub to_ascii : Bytes → Normalized
  to_ascii c = elim (x.idna_lookup_to_ascii c) [ none ↦ err not_ascii | some a ↦ ok a ]

  unfoldable pub normalize_dns_domain : Bytes → Normalized
  unfolding is_partial_wildcard
  normalize_dns_domain constraint =
      let c = tidy constraint in
      if is_empty c
      then err empty_constraint
      else if contains c (b'.' ∷ b'.' ∷ [])
      then err empty_labels
      else if has_prefix c (b'.' ∷ [])
      then err leading_period
      else if late_star c
      then err inner_wildcard
      else if is_partial_wildcard c
      then err partial_wildcard
      else do a ← to_ascii (cut_wildcard c); with_labels a

  email_mailbox : Option Rfc2821Mailbox → Normalized
  email_mailbox none = err bad_mailbox
  email_mailbox (some mailbox) = do
    domain ← to_ascii mailbox.domain
    with_labels (mailbox.local ++ b'@' ∷ domain)

  -- From `normalizedConstraint[0] == '.'` on: an index into the empty text panics.
  unfoldable pub email_rest : Bytes → Normalized
  unfolding email_mailbox
  email_rest [] = panic
  email_rest (a ∷ c) =
      if a == b'.'
      then err leading_period
      else if contains (a ∷ c) (b'@' ∷ [])
      then email_mailbox (parse_rfc2821_mailbox (a ∷ c))
      else do d ← to_ascii (a ∷ c); with_labels d

  -- `if normalizedConstraint[0] == '@' { normalizedConstraint = normalizedConstraint[1:] }`
  unfoldable pub cut_at : Bytes → Bytes
  cut_at [] = []
  cut_at (a ∷ c) = if a == b'@' then c else a ∷ c

  unfoldable pub normalize_email : Bytes → Normalized
  normalize_email constraint =
      let c = tidy constraint in
      if is_empty c
      then err empty_constraint
      else if contains c star
      then err wildcard_unsupported
      else if ltb 1 (count_byte c b'@')
      then err too_many_ats
      else email_rest (cut_at c)

  has_host_port : Bytes → Bool
  has_host_port c = elim (x.split_host_port c) [ none ↦ false | some h ↦ true ]

  is_ip_text : Bytes → Bool
  is_ip_text c = elim (x.parse_ip c) [ none ↦ false | some ip ↦ true ]

  unfoldable pub uri_rest : Bytes → Normalized
  unfolding has_host_port is_ip_text
  uri_rest c =
      if contains c (b'[' ∷ []) || contains c (b']' ∷ [])
      then err square_brackets
      else if has_host_port c
      then err has_port
      else if is_ip_text c
      then err is_ip
      else do a ← to_ascii c; with_labels a

  unfoldable pub normalize_uri_domain : Bytes → Normalized
  normalize_uri_domain constraint =
      let c = tidy constraint in
      if is_empty c
      then err empty_constraint
      else if contains c (b':' ∷ b'/' ∷ b'/' ∷ [])
      then err has_scheme
      else if contains c (b'.' ∷ b'.' ∷ [])
      then err empty_labels
      else if has_prefix c (b'.' ∷ [])
      then err leading_period
      else if late_star c
      then err inner_wildcard
      else uri_rest (cut_wildcard c)
