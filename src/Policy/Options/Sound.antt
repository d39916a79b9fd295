-- ===== src/Policy/Options/Sound.antt =====
-- The constraints that policy/options.go accepts, and the matchers of policy/validate.go.
use certificates.Base.{
  ◌≡◌, ◌≢◌, ◌↔◌, inl, inr, refl, ap, ◌∙◌, Bool, false, some, List, [], ◌∷◌, Bytes, All, arith,
  is_empty, contains, has_prefix, count_byte, ◌>>=◌, ok-injective, subst, Outcome, ok, panic,
  bind-eq-ok, Option-cases,
}
use certificates.Policy.Labels.{domain_to_reverse_labels}
use certificates.Policy.Types.{External}
use certificates.Policy.Matching.{star}
use certificates.Policy.Matching.Total.{Returns, match_domain_constraint-Returns}
use certificates.Policy.Matching.{match_domain_constraint}
use certificates.Policy.Engine.{NamePolicyEngine}
use certificates.Policy.Build.{ConstraintError}
use certificates.Policy.Options.{
  normalize_all, with_permitted_dns_domains, with_excluded_dns_domains,
}
use certificates.Policy.Options.Normalize.{
  tidy, with_labels, to_ascii, cut_at, email_rest, cut_wildcard, normalize_dns_domain,
  normalize_email, normalize_uri_domain, uri_rest,
}

-- A constraint whose labels are acceptable.
abbrev pub HasLabels : Bytes → Type 0
HasLabels c = (ls : List Bytes) × (domain_to_reverse_labels c ≡ some ls)

with_labels-HasLabels : (c k : Bytes) → with_labels c ≡ ok k → HasLabels k
unfolding with_labels
with_labels-HasLabels c k h = elim (Option-cases (domain_to_reverse_labels c)) [
  | inl e ↦ absurd (ground arith)
  | inr (ls, e) ↦ (ls, ground arith)
]

module _ (x : External) where
  ascii-HasLabels : (c k : Bytes) → (to_ascii x c >>= λ a. with_labels a) ≡ ok k → HasLabels k
  ascii-HasLabels c k h =
      let (a, e, f) = bind-eq-ok (to_ascii x c) (λ a. with_labels a) h in
      with_labels-HasLabels a k f

  normalize_dns_domain-HasLabels : (c k : Bytes) → normalize_dns_domain x c ≡ ok k → HasLabels k
  unfolding normalize_dns_domain
  normalize_dns_domain-HasLabels c k h = ascii-HasLabels (cut_wildcard (tidy c)) k (ground arith)

  normalize_uri_domain-HasLabels : (c k : Bytes) → normalize_uri_domain x c ≡ ok k → HasLabels k
  unfolding normalize_uri_domain uri_rest
  normalize_uri_domain-HasLabels c k h = ascii-HasLabels (cut_wildcard (tidy c)) k (ground arith)

normalize_all-All :
    (f : Bytes → Outcome ConstraintError Bytes)
    → ((c k : Bytes) → f c ≡ ok k → HasLabels k)
    → (texts ks : List Bytes) → normalize_all f texts ≡ ok ks
    → All HasLabels ks
unfolding normalize_all
normalize_all-All f sound [] ks h = subst (All HasLabels) (ok-injective [] ks h) tt
normalize_all-All f sound (c ∷ texts) ks h =
    let (k, e, rest) = bind-eq-ok (f c) (λ a. normalize_all f texts >>= λ as'. ok (a ∷ as')) h in
    let (tail, e', made) = bind-eq-ok (normalize_all f texts) (λ as'. ok (k ∷ as')) rest in
    subst (All HasLabels) (ok-injective (k ∷ tail) ks made)
      (sound c k e, normalize_all-All f sound texts tail e')

-- After `WithPermittedDNSDomains` and `WithExcludedDNSDomains` have accepted their texts, every DNS
-- constraint of the engine that they return has acceptable labels.
pub with_dns_domains-HasLabels :
    (x : External) (permitted excluded : List Bytes) (e e' : NamePolicyEngine)
    → (with_permitted_dns_domains x permitted e >>= with_excluded_dns_domains x excluded) ≡ ok e'
    → All HasLabels e'.permitted_dns_domains × All HasLabels e'.excluded_dns_domains
unfolding with_permitted_dns_domains with_excluded_dns_domains
with_dns_domains-HasLabels x permitted excluded e e' h =
    let (e1, first, second) =
      bind-eq-ok (with_permitted_dns_domains x permitted e) (with_excluded_dns_domains x excluded)
        h in
    let (ps, np, mp) =
      bind-eq-ok (normalize_all (normalize_dns_domain x) permitted)
        (λ ds. ok (record e { permitted_dns_domains = ds })) first in
    let (xs, nx, mx) =
      bind-eq-ok (normalize_all (normalize_dns_domain x) excluded)
        (λ ds. ok (record e1 { excluded_dns_domains = ds })) second in
    let sound = normalize_all-All (normalize_dns_domain x) (normalize_dns_domain-HasLabels x) in
    let made = ok-injective (record e1 { excluded_dns_domains = xs }) e' mx in
    (
      subst (All HasLabels)
          (ap (λ (g : NamePolicyEngine). g.permitted_dns_domains)
              (ok-injective (record e { permitted_dns_domains = ps }) e1 mp)
            ∙ ap (λ (g : NamePolicyEngine). g.permitted_dns_domains) made)
          (sound permitted ps np),
      subst (All HasLabels) (ap (λ (g : NamePolicyEngine). g.excluded_dns_domains) made)
          (sound excluded xs nx),
    )

-- A DNS constraint that the configuration accepts never makes the matcher fail: it returns a
-- Boolean on every domain with acceptable labels that is neither empty nor a lone asterisk.
pub match_domain_constraint-normalize_dns_domain :
    (x : External) (allow : Bool) (text k d : Bytes) (ds : List Bytes)
    → normalize_dns_domain x text ≡ ok k
    → domain_to_reverse_labels d ≡ some ds
    → d ≢ []
    → d ≢ star
    → Returns (match_domain_constraint allow d k)
match_domain_constraint-normalize_dns_domain x allow text k d ds h hd full more =
    let (cs, hk) = normalize_dns_domain-HasLabels x text k h in
    match_domain_constraint-Returns allow d k ds cs hd hk full more

with_labels-returns : (c : Bytes) → with_labels c ≢ panic
unfolding with_labels
with_labels-returns c h = ground arith

email_rest-panics : (x : External) (c : Bytes) → (email_rest x c ≡ panic) ↔ (c ≡ [])
unfolding email_rest to_ascii with_labels
email_rest-panics x [] = ((λ h. refl), λ h. refl)
email_rest-panics x (a ∷ c) = ((λ h. absurd (ground arith)), λ h. cc)

cut_at-nil : (x : External) (c : Bytes) → is_empty c ≡ false → cut_at x c ≡ [] → c ≡ b'@' ∷ []
unfolding cut_at
cut_at-nil x [] h e = absurd (ground arith)
cut_at-nil x (a ∷ c) h e = ground arith

normalize_email_lone_at :
    (x : External) (text : Bytes) → tidy text ≡ b'@' ∷ [] → normalize_email x text ≡ panic
unfolding normalize_email email_rest cut_at contains has_prefix count_byte
normalize_email_lone_at x text e = rw e refl

-- The normalisation of an email constraint panics exactly on the texts that are a lone `@` once
-- they are trimmed and lowered.
pub normalize_email_panics :
    (x : External) (text : Bytes) → (normalize_email x text ≡ panic) ↔ (tidy text ≡ b'@' ∷ [])
unfolding normalize_email
normalize_email_panics x text = (
  (λ h.
      cut_at-nil x (tidy text) (ground arith)
        ((email_rest-panics x (cut_at x (tidy text))).0 (ground arith))),
  λ e. normalize_email_lone_at x text e,
)
