-- ===== src/Policy/Mailbox.antt =====
-- `parseRFC2821Mailbox` of policy/validate.go. A loop that may read two bytes in a round is a
-- machine that reads one: its flag says that a backslash was read.
pub mod RoundTrip
use certificates.Base.{
  ℕ, ◌-◌, Bool, true, false, ◌&&◌, ◌||◌, Option, none, some, List, [], ◌∷◌, ◌++◌, Bytes, leb, ◌==◌,
  if◌then◌else◌, is_empty, length, get_elem?, contains,
}
use certificates.Policy.Labels.{domain_to_reverse_labels}

pub record Rfc2821Mailbox : Type 0 where
  pub local : Bytes
  pub domain : Bytes

-- What may stand behind a backslash in a quoted string.
abbrev pub is_quoted_pair : ℕ → Bool
is_quoted_pair c = c == 11 || c == 12 || (leb 1 c && leb c 9) || (leb 14 c && leb c 127)

abbrev pub is_qtext : ℕ → Bool
is_qtext c =
    c == 11
    || c == 12
    || c == 32
    || c == 33
    || c == 127
    || (leb 1 c && leb c 8)
    || (leb 14 c && leb c 31)
    || (leb 35 c && leb c 91)
    || (leb 93 c && leb c 126)

-- The `QuotedString` loop: the local part and what follows the closing quote.
unfoldable pub quoted_string : Bool → Bytes → Bytes → Option (Bytes × Bytes)
quoted_string escape local [] = none
quoted_string true local (c ∷ s) =
    let next = quoted_string false (local ++ c ∷ []) s in if is_quoted_pair c then next else none
quoted_string false local (c ∷ s) =
    let escaped = quoted_string true local s in
    let next = quoted_string false (local ++ c ∷ []) s in
    if c == b'"'
    then some (local, s)
    else if c == b'\\'
    then escaped
    else if is_qtext c
    then next
    else none

is_atext_symbol : ℕ → Bool
is_atext_symbol c =
    c == b'!'
    || c == b'#'
    || c == b'$'
    || c == b'%'
    || c == b'&'
    || c == 39
    || c == b'*'
    || c == b'+'
    || c == b'-'
    || c == b'/'
    || c == b'='
    || c == b'?'
    || c == b'^'
    || c == b'_'
    || c == b'`'
    || c == b'{'
    || c == b'|'
    || c == b'}'
    || c == b'~'
    || c == b'.'

unfoldable pub is_atext : ℕ → Bool
unfolding is_atext_symbol
is_atext c =
    (leb b'0' c && leb c b'9')
    || (leb b'a' c && leb c b'z')
    || (leb b'A' c && leb c b'Z')
    || is_atext_symbol c

-- The `NextChar` loop: the local part and what is left.
unfoldable pub atoms : Bool → Bytes → Bytes → Option (Bytes × Bytes)
atoms true local [] = none
atoms false local [] = some (local, [])
atoms true local (c ∷ s) = atoms false (local ++ c ∷ []) s
atoms false local (c ∷ s) =
    let escaped = atoms true local s in
    let next = atoms false (local ++ c ∷ []) s in
    if c == b'\\' then escaped else if is_atext c then next else some (local, c ∷ s)

-- localPartBytes[i] == '.'
period_at : Bytes → ℕ → Bool
period_at local i = elim (get_elem? local i) [ none ↦ false | some c ↦ c == b'.' ]

-- The checks behind the loop.
unfoldable pub well_dotted : Bytes → Bool
unfolding period_at
well_dotted local =
    if is_empty local
    then false
    else if period_at local 0
        || period_at local (length local - 1)
        || contains local (b'.' ∷ b'.' ∷ [])
    then false
    else true

unquoted : Option (Bytes × Bytes) → Option (Bytes × Bytes)
unquoted none = none
unquoted (some (local, rest)) = if well_dotted local then some (local, rest) else none

-- `in == "" || in[0] != '@'`, and the check of the domain
with_domain : Bytes → Bytes → Option Rfc2821Mailbox
with_domain local [] = none
with_domain local (c ∷ domain) =
    if c == b'@'
    then elim (domain_to_reverse_labels domain) [
      | none ↦ none
      | some labels ↦ some (record { local = local; domain = domain })
    ]
    else none

finish : Option (Bytes × Bytes) → Option Rfc2821Mailbox
unfolding with_domain
finish none = none
finish (some (local, rest)) = with_domain local rest

unfoldable pub parse_rfc2821_mailbox : Bytes → Option Rfc2821Mailbox
unfolding quoted_string atoms unquoted finish
parse_rfc2821_mailbox [] = none
parse_rfc2821_mailbox (c ∷ s) =
    if c == b'"'
    then finish (quoted_string false [] s)
    else finish (unquoted (atoms false [] (c ∷ s)))
