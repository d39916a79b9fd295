-- ===== src/Policy/Matching/Shape.antt =====
-- The tests of `matchDomainConstraint` of policy/validate.go on texts that are spelled by labels.
use certificates.Base.{
  ℕ, ◌≡◌, ◌≢◌, refl, ap, ◌∙◌, false, List, [], ◌∷◌, ◌++◌, append_assoc, Bytes, ◌==◌, All,
  All-append, NoByte, arith, bytes_eq, has_prefix, contains, last_index_byte-none, ok, subst, sym,
  append-nil, is_empty,
}
use certificates.Policy.Labels.Loop.{join}
use certificates.Policy.Labels.Exact.{IsLabel, IsLabelByte}
use certificates.Policy.Matching.{wildcard_prefix, blocked_start, late_star, starts_with_period}

abbrev pub Headed : Bytes → Type 0
Headed t = (c : ℕ) × (s : Bytes) × (t ≡ c ∷ s) × IsLabelByte c

Headed-append : (t u : Bytes) → Headed t → Headed (t ++ u)
Headed-append t u (c, s, e, h) = (c, s ++ u, ap (λ (x : Bytes). x ++ u) e, h)

-- The text of some labels begins with a byte of a label.
pub join-Headed : (l : Bytes) (ls : List Bytes) → All IsLabel (l ∷ ls) → Headed (join (l ∷ ls))
join-Headed [] [] h = absurd (h.0.0 refl)
join-Headed (c ∷ l) [] h = (c, l, refl, h.0.1.0)
join-Headed l (m ∷ ls) h = Headed-append (join (m ∷ ls)) (b'.' ∷ l) (join-Headed m ls h.1)

pub NoByte-join : (b : ℕ) (ls : List Bytes) → b ≢ b'.' → All (NoByte b) ls → NoByte b (join ls)
NoByte-join b [] ne h = tt
NoByte-join b (l ∷ []) ne h = h.0
NoByte-join b (l ∷ m ∷ ls) ne h =
    All-append (λ c. (c == b) ≡ false) (join (m ∷ ls)) (b'.' ∷ l) (NoByte-join b (m ∷ ls) ne h.1)
      (ground arith, h.0)

abbrev pub two_dots : Bytes
two_dots = b'.' ∷ b'.' ∷ []

-- A label in front brings in no two dots.
contains-label : (l t : Bytes) → IsLabel l → contains (l ++ t) two_dots ≡ contains t two_dots
unfolding contains has_prefix
contains-label [] t h = absurd (h.0 refl)
contains-label (c ∷ []) t h = ground arith
contains-label (c ∷ d ∷ l) t h = ground (arith, contains-label (d ∷ l) t ((λ e. cc), h.1.1))

contains-dot : (l t : Bytes) → IsLabel l → contains (b'.' ∷ (l ++ t)) two_dots ≡ contains t two_dots
unfolding contains has_prefix
contains-dot [] t h = absurd (h.0 refl)
contains-dot (c ∷ l) t h = ground (arith, contains-label (c ∷ l) t h)

pub contains-join :
    (l : Bytes) (ls : List Bytes) (t : Bytes)
    → All IsLabel (l ∷ ls)
    → contains (join (l ∷ ls) ++ t) two_dots ≡ contains t two_dots
contains-join l [] t h = contains-label l t h.0
contains-join l (m ∷ ls) t h =
    ap (λ (s : Bytes). contains s two_dots) (append_assoc (join (m ∷ ls)) (b'.' ∷ l) t)
    ∙ contains-join m ls (b'.' ∷ (l ++ t)) h.1
    ∙ contains-dot l t h.0

pub contains-dot_join :
    (l : Bytes) (ls : List Bytes)
    → All IsLabel (l ∷ ls)
    → contains (b'.' ∷ join (l ∷ ls)) two_dots ≡ contains (join (l ∷ ls)) two_dots
unfolding contains has_prefix
contains-dot_join l ls h = let (c, s, e, b) = join-Headed l ls h in rw e (ground arith)

pub not-space : (t : Bytes) → Headed t → bytes_eq t (32 ∷ []) ≡ false
unfolding bytes_eq
not-space t (c, s, e, h) = rw e (ground arith)

pub not-blocked : (t : Bytes) → Headed t → NoByte b'*' t → blocked_start t ≡ ok false
unfolding blocked_start
not-blocked t (c, s, e, h) free = rw e (ground (arith, subst (NoByte b'*') e free))

pub not-wildcard : (t : Bytes) → NoByte b'*' t → has_prefix t wildcard_prefix ≡ false
unfolding has_prefix
not-wildcard [] free = refl
not-wildcard (c ∷ t) free = ground arith

pub not-late_star : (t : Bytes) → NoByte b'*' t → late_star t ≡ false
unfolding late_star
not-late_star t free = rw (last_index_byte-none t b'*' free, late_star)

pub starts-join :
    (l : Bytes) (ls : List Bytes)
    → All IsLabel (l ∷ ls)
    → starts_with_period (join (l ∷ ls)) ≡ false
unfolding starts_with_period
starts-join l ls h = let (c, s, e, b) = join-Headed l ls h in rw e (ground arith)

pub full-join :
    (l : Bytes) (ls : List Bytes) → All IsLabel (l ∷ ls) → is_empty (join (l ∷ ls)) ≡ false
full-join l ls h = let (c, s, e, b) = join-Headed l ls h in rw e refl

pub undotted-join :
    (l : Bytes) (ls : List Bytes) → All IsLabel (l ∷ ls) → contains (join (l ∷ ls)) two_dots ≡ false
undotted-join l ls h =
    ap (λ (s : Bytes). contains s two_dots) (sym (append-nil (join (l ∷ ls))))
    ∙ contains-join l ls [] h
    ∙ unfold contains has_prefix in refl
