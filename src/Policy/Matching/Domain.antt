-- ===== src/Policy/Matching/Domain.antt =====
-- `matchDomainConstraint` of policy/validate.go on domains and constraints that are spelled by labels.
use certificates.Base.{
  suc, ◌≡◌, inl, refl, ◌∙◌, Bool, false, List, [], ◌∷◌, ◌++◌, Bytes, All, NoByte, arith, is_empty,
  length, contains, ok,
}
use certificates.Policy.Types.{MatchError, bad_domain, bad_constraint}
use certificates.Policy.Labels.Loop.{join}
use certificates.Policy.Labels.Exact.{IsLabel, domain_to_reverse_labels_complete}
use certificates.Policy.Matching.{match_labels, match_wildcard, match_domain_constraint, labels_of}
use certificates.Policy.Matching.Shape.{
  join-Headed, NoByte-join, contains-dot_join, not-space, not-blocked, not-wildcard, not-late_star,
  two_dots, starts-join, full-join, undotted-join,
}
use certificates.Policy.Matching.Fold.{
  Decides, lowered, compared, compared_exact, compared_subdomain,
}

labels_of-join : (ls : List Bytes) (e : MatchError) → All IsLabel ls → labels_of (join ls) e ≡ ok ls
unfolding labels_of
labels_of-join ls e h = rw (domain_to_reverse_labels_complete (join ls) ls h (inl refl), labels_of)

match_labels-plain :
    (d : Bytes) (ds : List Bytes) (c : Bytes) (cs : List Bytes)
    → All IsLabel (d ∷ ds)
    → All IsLabel (c ∷ cs)
    → match_labels (join (d ∷ ds)) (join (c ∷ cs)) ≡ compared (length (c ∷ cs)) (c ∷ cs) (d ∷ ds)
unfolding match_labels
match_labels-plain d ds c cs labels h = rw (
  labels_of-join (d ∷ ds) bad_domain labels,
  starts-join c cs h,
  labels_of-join (c ∷ cs) bad_constraint h,
)

match_labels-dot :
    (d : Bytes) (ds : List Bytes) (c : Bytes) (cs : List Bytes)
    → All IsLabel (d ∷ ds)
    → All IsLabel (c ∷ cs)
    → match_labels (join (d ∷ ds)) (b'.' ∷ join (c ∷ cs))
      ≡ compared (suc (length (c ∷ cs))) (c ∷ cs) (d ∷ ds)
unfolding match_labels
match_labels-dot d ds c cs labels h =
    rw (labels_of-join (d ∷ ds) bad_domain labels, labels_of-join (c ∷ cs) bad_constraint h)

module _ (allow : Bool) (d : Bytes) (ds : List Bytes) (labels : All IsLabel (d ∷ ds))
    (no_star : All (NoByte b'*') (d ∷ ds)) where
  -- The tests before the labels are compared let such a domain through.
  reach_labels :
      (k : Bytes)
      → is_empty k ≡ false
      → contains k two_dots ≡ false
      → match_domain_constraint allow (join (d ∷ ds)) k ≡ match_labels (join (d ∷ ds)) k
  unfolding match_domain_constraint match_wildcard
  reach_labels k full undotted =
      let headed = join-Headed d ds labels in
      let free = NoByte-join b'*' (d ∷ ds) (omega arith) no_star in
      rw (
        full,
        not-space (join (d ∷ ds)) headed,
        not-blocked (join (d ∷ ds)) headed free,
        not-wildcard (join (d ∷ ds)) free,
        not-late_star (join (d ∷ ds)) free,
        undotted,
      )

  -- On a domain that is spelled by acceptable labels without an asterisk, the matcher returns
  -- whether a constraint spelled by acceptable labels, without a dot in front, has the same labels
  -- up to letter case.
  pub match_domain_constraint_exact :
      (c : Bytes) (cs : List Bytes)
      → All IsLabel (c ∷ cs)
      → Decides
          (match_domain_constraint allow (join (d ∷ ds)) (join (c ∷ cs)))
          (lowered (d ∷ ds) ≡ lowered (c ∷ cs))
  match_domain_constraint_exact c cs h =
      rw
        (
          reach_labels (join (c ∷ cs)) (full-join c cs h) (undotted-join c cs h),
          match_labels-plain d ds c cs labels h,
        )
        (compared_exact (c ∷ cs) (d ∷ ds))

  -- On a domain that is spelled by acceptable labels without an asterisk, the matcher returns
  -- whether the domain has exactly one more label in front of the labels of the constraint, up to
  -- letter case, where the constraint is spelled by acceptable labels with a dot in front.
  pub match_domain_constraint_subdomain :
      (c : Bytes) (cs : List Bytes)
      → All IsLabel (c ∷ cs)
      → Decides
          (match_domain_constraint allow (join (d ∷ ds)) (b'.' ∷ join (c ∷ cs)))
          ((x : Bytes) × (lowered (d ∷ ds) ≡ lowered (c ∷ cs) ++ x ∷ []))
  match_domain_constraint_subdomain c cs h =
      rw
        (
          reach_labels (b'.' ∷ join (c ∷ cs)) refl
              (contains-dot_join c cs h ∙ undotted-join c cs h),
          match_labels-dot d ds c cs labels h,
        )
        (compared_subdomain (c ∷ cs) (d ∷ ds))
