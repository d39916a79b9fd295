-- ===== src/Policy/Matching/Total.antt =====
-- `matchDomainConstraint` of policy/validate.go on texts with acceptable labels.
use certificates.Base.{
  ℕ, suc, ◌≡◌, ◌≢◌, inl, inr, refl, ap, Bool, true, false, some, List, [], ◌∷◌, Bytes, ◌==◌, All,
  arith, is_empty, length, contains, has_prefix, bytes_eq, Outcome, ok, Bool-cases, if◌then◌else◌,
  ◌&&◌, not, ==_iff,
}
use certificates.Policy.Types.{MatchError, bad_domain, bad_constraint}
use certificates.Policy.Labels.{domain_to_reverse_labels}
use certificates.Policy.Labels.Exact.{
  IsLabel, Spells, domain_to_reverse_labels_sound, domain_to_reverse_labels_complete,
}
use certificates.Policy.Matching.{
  star, blocked_start, labels_of, starts_with_period, tail, match_labels, match_wildcard,
  labels_fold, match_domain_constraint, wildcard_prefix, late_star,
}
use certificates.Policy.Matching.Shape.{join-Headed, two_dots}
use certificates.Policy.Matching.Fold.{compared}

-- The constraint behind its leading dot has labels too.
tail-labels :
    (k : Bytes) (cs : List Bytes)
    → domain_to_reverse_labels k ≡ some cs
    → starts_with_period k ≡ true
    → domain_to_reverse_labels (tail k) ≡ some cs
unfolding starts_with_period tail
tail-labels [] cs h p = absurd (ground arith)
tail-labels (c ∷ k) cs h p =
    let (labels, spells) = domain_to_reverse_labels_sound (c ∷ k) cs h in go cs labels spells
  where
    go :
        (cs : List Bytes)
        → All IsLabel cs
        → Spells (c ∷ k) cs
        → domain_to_reverse_labels k ≡ some cs
    go [] labels (inl e) = absurd (ground arith)
    go [] labels (inr e) = absurd (e.0 refl)
    go (l ∷ ls) labels (inl e) =
        let (d, s, f, byte) = join-Headed l ls labels in absurd (ground arith)
    go (l ∷ ls) labels (inr e) =
        domain_to_reverse_labels_complete k (l ∷ ls) labels (inl (ground arith))

-- The call neither fails nor panics.
abbrev pub Returns : Outcome MatchError Bool → Type 0
Returns o = (b : Bool) × (o ≡ ok b)

Returns-if :
    (t : Bool) (o p : Outcome MatchError Bool)
    → Returns o
    → Returns p
    → Returns (if t then o else p)
Returns-if true o p ho hp = ho
Returns-if false o p ho hp = hp

labels_of-some :
    (s : Bytes) (e : MatchError) (ls : List Bytes)
    → domain_to_reverse_labels s ≡ some ls
    → labels_of s e ≡ ok ls
unfolding labels_of
labels_of-some s e ls h = rw (h, labels_of)

match_labels-compared :
    (d k : Bytes) (ds cs : List Bytes)
    → domain_to_reverse_labels d ≡ some ds
    → domain_to_reverse_labels k ≡ some cs
    → (n : ℕ) × (match_labels d k ≡ compared n cs ds)
unfolding match_labels
match_labels-compared d k ds cs hd hk = elim (Bool-cases (starts_with_period k)) [
  | inl p ↦ (
    suc (length cs),
    rw (
      labels_of-some d bad_domain ds hd,
      p,
      labels_of-some (tail k) bad_constraint cs (tail-labels k cs hk p),
    ),
  )
  | inr p ↦
      (length cs, rw (labels_of-some d bad_domain ds hd, p, labels_of-some k bad_constraint cs hk))
]

match_wildcard-Returns :
    (allow : Bool) (d k : Bytes) (ds cs : List Bytes)
    → domain_to_reverse_labels d ≡ some ds
    → domain_to_reverse_labels k ≡ some cs
    → Returns (match_wildcard allow d k)
unfolding match_wildcard
match_wildcard-Returns allow d k ds cs hd hk =
    let (n, e) = match_labels-compared d k ds cs hd hk in
    let last : Returns (match_labels d k) =
      rw e (Returns-if (length ds == n) (ok (labels_fold cs ds)) (ok false) (_, refl) (_, refl)) in
    Returns-if (has_prefix d wildcard_prefix && not allow) (ok false) _ (false, refl)
      (Returns-if (late_star d) (ok false) _ (false, refl)
        (Returns-if (contains k two_dots) (ok false) (match_labels d k) (false, refl) last))

blocked_start-Returns : (d : Bytes) → d ≢ [] → d ≢ star → Returns (blocked_start d)
unfolding blocked_start
blocked_start-Returns [] h g = absurd (h refl)
blocked_start-Returns (c ∷ []) h g = elim (Bool-cases (c == b'*')) [
  | inl e ↦ absurd (g (ap (λ (b : ℕ). b ∷ []) ((==_iff c b'*').0 e)))
  | inr e ↦ rw e (Returns-if (c == b'.') (ok true) (ok false) (_, refl) (_, refl))
]
blocked_start-Returns (c ∷ d ∷ s) h g =
    Returns-if (c == b'.') (ok true) _ (_, refl)
      (Returns-if (c == b'*') (ok (not (d == b'.'))) (ok false) (_, refl) (_, refl))

-- On a domain with acceptable labels that is neither empty nor a lone asterisk, and a constraint
-- with acceptable labels, the matcher returns a Boolean.
pub match_domain_constraint-Returns :
    (allow : Bool) (d k : Bytes) (ds cs : List Bytes)
    → domain_to_reverse_labels d ≡ some ds
    → domain_to_reverse_labels k ≡ some cs
    → d ≢ []
    → d ≢ star
    → Returns (match_domain_constraint allow d k)
unfolding match_domain_constraint
match_domain_constraint-Returns allow d k ds cs hd hk full more =
    let (b, e) = blocked_start-Returns d full more in
    Returns-if (is_empty k) (ok true) _ (_, refl)
      (Returns-if (bytes_eq d (32 ∷ [])) (ok false) _ (_, refl)
        (rw e (
          Returns-if b (ok false) (match_wildcard allow d k) (_, refl)
            (match_wildcard-Returns allow d k ds cs hd hk))))
