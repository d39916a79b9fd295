-- ===== src/Policy/Mailbox/RoundTrip.antt =====
-- The texts that `parseRFC2821Mailbox` of policy/validate.go reads.
use mathlib.Core.Bool.{false≢true}
use certificates.Base.{
  ℕ, ◌≤◌, ◌-◌, ◌≢◌, length, length-append, get_elem?, contains, ◌≡◌, refl, ap, ◌∙◌, ◌⊎◌, inl, inr,
  Bool, true, false, ◌||◌, Option, none, some, List, [], ◌∷◌, ◌++◌, append_assoc, append-nil, Bytes,
  ◌==◌, if◌then◌else◌, All, arith, Bool-cases, Option-cases, has_prefix,
}
use certificates.Policy.Labels.{domain_to_reverse_labels}
use certificates.Policy.Mailbox.{
  Rfc2821Mailbox, is_qtext, quoted_string, atoms, unquoted, finish, parse_rfc2821_mailbox,
  well_dotted, is_atext, is_quoted_pair, period_at,
}

-- A byte that a quoted string can hold, behind a backslash if need be: any byte of ASCII but NUL, LF
-- and CR.
abbrev pub IsQuotable : ℕ → Type 0
IsQuotable c = (1 ≤ c) × (c ≤ 127) × (c ≢ 10) × (c ≢ 13)

-- A quote, a backslash and a tab stand behind a backslash.
abbrev needs_escape : ℕ → Bool
needs_escape c = c == b'"' || c == b'\\' || c == 9

abbrev escape_byte : ℕ → Bytes
escape_byte c = if needs_escape c then b'\\' ∷ c ∷ [] else c ∷ []

unfoldable pub escape : Bytes → Bytes
escape [] = []
escape (c ∷ local) = escape_byte c ++ escape local

-- The quoted form of a mailbox (RFC 2821, section 4.1.2).
unfoldable pub render : Rfc2821Mailbox → Bytes
unfolding escape
render m = b'"' ∷ (escape m.local ++ b'"' ∷ b'@' ∷ m.domain)

quoted_string-byte :
    (local : Bytes) (c : ℕ) (s : Bytes)
    → IsQuotable c
    → quoted_string false local (escape_byte c ++ s) ≡ quoted_string false (local ++ c ∷ []) s
unfolding quoted_string
quoted_string-byte local c s h = elim (Bool-cases (needs_escape c)) [
  | inl e ↦ let fine : is_quoted_pair c ≡ true = ground arith in rw (e, fine)
  | inr e ↦
      let text : is_qtext c ≡ true = ground arith in
      let quote : (c == b'"') ≡ false = ground arith in
      let slash : (c == b'\\') ≡ false = ground arith in rw (e, quote, slash, text)
]

quoted_string-escape :
    (done local rest : Bytes)
    → All IsQuotable local
    → quoted_string false done (escape local ++ b'"' ∷ rest) ≡ some (done ++ local, rest)
unfolding escape
quoted_string-escape done [] rest h = rw append-nil (unfold quoted_string in refl)
quoted_string-escape done (c ∷ local) rest h =
    ap (quoted_string false done) (append_assoc (escape_byte c) (escape local) (b'"' ∷ rest))
    ∙ quoted_string-byte done c (escape local ++ b'"' ∷ rest) h.0
    ∙ quoted_string-escape (done ++ c ∷ []) local rest h.1
    ∙ ap (λ (t : Bytes). some (t, rest)) (append_assoc done (c ∷ []) local)

-- A mailbox whose local part holds only the bytes from 1 to 127 without LF and CR, and whose domain
-- has acceptable labels, is read back from its quoted form, in which a quote, a backslash and a tab
-- stand behind a backslash.
pub parse-render :
    (m : Rfc2821Mailbox) (ls : List Bytes)
    → All IsQuotable m.local
    → domain_to_reverse_labels m.domain ≡ some ls
    → parse_rfc2821_mailbox (render m) ≡ some m
unfolding parse_rfc2821_mailbox render
parse-render m ls h d = rw (quoted_string-escape [] m.local (b'@' ∷ m.domain) h, d)

finish-domain :
    (o : Option (Bytes × Bytes)) (m : Rfc2821Mailbox)
    → finish o ≡ some m
    → (ls : List Bytes) × (domain_to_reverse_labels m.domain ≡ some ls)
      × (o ≡ some (m.local, b'@' ∷ m.domain))
unfolding finish
finish-domain none m h = cc
finish-domain (some (local, [])) m h = cc
finish-domain (some (local, c ∷ s)) m h = elim (Option-cases (domain_to_reverse_labels s)) [
  | inl e ↦ absurd (ground arith)
  | inr (ls, e) ↦ (ls, ground arith, ground arith)
]

-- `rest` is what is left of `s` behind some bytes.
abbrev pub IsSuffix : Bytes → Bytes → Type 0
IsSuffix rest s = (p : Bytes) × (s ≡ p ++ rest)

IsSuffix-cons : (c : ℕ) (s rest : Bytes) → IsSuffix rest s → IsSuffix rest (c ∷ s)
IsSuffix-cons c s rest (p, e) = (c ∷ p, ap (λ (t : Bytes). c ∷ t) e)

quoted_string-suffix :
    (escaped : Bool) (done s local rest : Bytes)
    → quoted_string escaped done s ≡ some (local, rest)
    → IsSuffix rest s
unfolding quoted_string
quoted_string-suffix escaped done [] local rest h = absurd (ground arith)
quoted_string-suffix true done (c ∷ s) local rest h =
    IsSuffix-cons c s rest (quoted_string-suffix false (done ++ c ∷ []) s local rest (ground arith))
quoted_string-suffix false done (c ∷ s) local rest h = elim (Bool-cases (c == b'"')) [
  | inl e ↦ (c ∷ [], ground arith)
  | inr e ↦ elim (Bool-cases (c == b'\\')) [
    | inl b ↦ IsSuffix-cons c s rest (quoted_string-suffix true done s local rest (ground arith))
    | inr b ↦
        IsSuffix-cons c s rest
          (quoted_string-suffix false (done ++ c ∷ []) s local rest (ground arith))
  ]
]

atoms-suffix :
    (escaped : Bool) (done s local rest : Bytes)
    → atoms escaped done s ≡ some (local, rest)
    → IsSuffix rest s
unfolding atoms
atoms-suffix true done [] local rest h = absurd (ground arith)
atoms-suffix false done [] local rest h = ([], ground arith)
atoms-suffix true done (c ∷ s) local rest h =
    IsSuffix-cons c s rest (atoms-suffix false (done ++ c ∷ []) s local rest h)
atoms-suffix false done (c ∷ s) local rest h = elim (Bool-cases (c == b'\\')) [
  | inl e ↦ IsSuffix-cons c s rest (atoms-suffix true done s local rest (ground arith))
  | inr e ↦ elim (Bool-cases (is_atext c)) [
    | inl b ↦
        IsSuffix-cons c s rest (atoms-suffix false (done ++ c ∷ []) s local rest (ground arith))
    | inr b ↦ ([], ground arith)
  ]
]

unquoted-some :
    (o : Option (Bytes × Bytes)) (local rest : Bytes)
    → unquoted o ≡ some (local, rest)
    → (o ≡ some (local, rest)) × (well_dotted local ≡ true)
unfolding unquoted
unquoted-some none local rest h = absurd (ground arith)
unquoted-some (some (l, r)) local rest h = (ground arith, ground arith)

-- The local part is not empty, neither starts nor ends with a dot and has no two dots in a row.
pub record IsDotted (local : Bytes) : Type 0 where
  pub not_empty : local ≢ []
  pub no_first : ¬ ((t : Bytes) × (local ≡ b'.' ∷ t))
  pub no_last : ¬ ((t : Bytes) × (local ≡ t ++ b'.' ∷ []))
  pub no_pair : ¬ ((a : Bytes) × (b : Bytes) × (local ≡ a ++ b'.' ∷ b'.' ∷ b))

get_elem?-append_length :
    (t : Bytes) (c : ℕ) (s : Bytes) → get_elem? (t ++ c ∷ s) (length t) ≡ some c
get_elem?-append_length [] c s = refl
get_elem?-append_length (d ∷ t) c s = get_elem?-append_length t c s

period_at-last : (t : Bytes) → period_at (t ++ b'.' ∷ []) (length (t ++ b'.' ∷ []) - 1) ≡ true
unfolding period_at
period_at-last t =
    let size : length (t ++ b'.' ∷ []) - 1 ≡ length t =
      omega (arith, length-append t (b'.' ∷ [])) in
    rw (size, period_at, get_elem?-append_length t b'.' [])

contains-dots : (a b : Bytes) → contains (a ++ b'.' ∷ b'.' ∷ b) (b'.' ∷ b'.' ∷ []) ≡ true
unfolding contains has_prefix
contains-dots [] b = refl
contains-dots (c ∷ a) b = let rest = contains-dots a b in ground arith

well_dotted-IsDotted : (local : Bytes) → well_dotted local ≡ true → IsDotted local
unfolding well_dotted
well_dotted-IsDotted local h = record {
  not_empty = λ e. absurd (false≢true (rw e at h));
  no_first = λ (t, e). absurd (false≢true (unfold period_at in rw e at h));
  no_last = λ (t, e).
      absurd (ground (arith, ap (λ (l : Bytes). period_at l (length l - 1)) e, period_at-last t));
  no_pair = λ (a, b, e).
      absurd
        (ground (arith, ap (λ (l : Bytes). contains l (b'.' ∷ b'.' ∷ [])) e, contains-dots a b));
}

-- An accepted text ends in `@` and the returned domain, whose labels are acceptable. Unless the
-- text is quoted, the local part is not empty, neither starts nor ends with a dot and has no two
-- dots in a row.
pub parse_sound :
    (s : Bytes) (m : Rfc2821Mailbox)
    → parse_rfc2821_mailbox s ≡ some m
    → IsSuffix (b'@' ∷ m.domain) s
      × ((ls : List Bytes) × (domain_to_reverse_labels m.domain ≡ some ls))
      × ((has_prefix s (b'"' ∷ []) ≡ true) ⊎ IsDotted m.local)
unfolding parse_rfc2821_mailbox has_prefix
parse_sound [] m h = absurd (ground arith)
parse_sound (c ∷ s) m h = elim (Bool-cases (c == b'"')) [
  | inl e ↦
      let (ls, domain_ok, read) = finish-domain (quoted_string false [] s) m (ground arith) in
      (
        IsSuffix-cons c s (b'@' ∷ m.domain)
            (quoted_string-suffix false [] s m.local (b'@' ∷ m.domain) read),
        (ls, domain_ok),
        inl (ground arith),
      )
  | inr e ↦
      let (ls, domain_ok, read) =
        finish-domain (unquoted (atoms false [] (c ∷ s))) m (ground arith) in
      let (read', dots) = unquoted-some (atoms false [] (c ∷ s)) m.local (b'@' ∷ m.domain) read in
      (
        atoms-suffix false [] (c ∷ s) m.local (b'@' ∷ m.domain) read',
        (ls, domain_ok),
        inr (well_dotted-IsDotted m.local dots),
      )
]
