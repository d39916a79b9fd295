-- ===== src/Policy/Engine/Exact.antt =====
-- The names that `validateNames` of policy/validate.go lets through.
use certificates.Base.{
  ◌≡◌, ◌↔◌, ◌⊎◌, inl, inr, refl, List, [], ◌∷◌, Bytes, ◌==◌, All, arith, ok, seq-eq-ok, Bool-cases,
}
use certificates.Policy.Types.{Names, External}
use certificates.Policy.Constraints.{Verdict}
use certificates.Policy.Engine.{
  NamePolicyEngine, each, check_dns, check_ip, check_email, check_uri, check_principal,
  validate_names,
}

abbrev pub Accepts : {A : Type 0} → (A → Verdict) → List A → Type 0
Accepts check = All (λ a. check a ≡ ok tt)

each_sound :
    {A : Type 0} (check : A → Verdict) (names : List A)
    → each check names ≡ ok tt
    → Accepts check names
unfolding each
each_sound check [] h = tt
each_sound check (a ∷ names) h =
    let (head, rest) = seq-eq-ok (check a) (each check names) h in
    (head, each_sound check names rest)

each_complete :
    {A : Type 0} (check : A → Verdict) (names : List A)
    → Accepts check names
    → each check names ≡ ok tt
unfolding each
each_complete check [] h = refl
each_complete check (a ∷ names) h = rw h.0 (each_complete check names h.1)

module _ (x : External) (e : NamePolicyEngine) where
  -- Every name passes the check of its kind.
  pub record AllChecked (names : Names) (principals : List Bytes) : Type 0 where
    pub dns_ok : Accepts (check_dns x e) names.dns_names
    pub ips_ok : Accepts (check_ip x e) names.ips
    pub emails_ok : Accepts (check_email x e) names.email_addresses
    pub uris_ok : Accepts (check_uri x e) names.uris
    pub principals_ok : Accepts (check_principal x e) principals

  -- `validateNames` returns nil exactly when the engine has no constraints at all, or every name
  -- of every kind passes the check of its kind.
  pub validate_names_exact :
      (names : Names) (principals : List Bytes)
      → (validate_names x e names principals ≡ ok tt)
        ↔ ((e.total_number_of_constraints ≡ 0) ⊎ AllChecked names principals)
  unfolding validate_names
  validate_names_exact names principals = elim (Bool-cases (e.total_number_of_constraints == 0)) [
    | inl z ↦ ((λ h. inl (ground arith)), λ h. rw z)
    | inr z ↦ (
      (λ h.
          let (d, r1) = seq-eq-ok (each (check_dns x e) names.dns_names) _ (rw z at h) in
          let (i, r2) = seq-eq-ok (each (check_ip x e) names.ips) _ r1 in
          let (m, r3) = seq-eq-ok (each (check_email x e) names.email_addresses) _ r2 in
          let (u, p) = seq-eq-ok (each (check_uri x e) names.uris) _ r3 in
          inr (record {
            dns_ok = each_sound (check_dns x e) names.dns_names d;
            ips_ok = each_sound (check_ip x e) names.ips i;
            emails_ok = each_sound (check_email x e) names.email_addresses m;
            uris_ok = each_sound (check_uri x e) names.uris u;
            principals_ok = each_sound (check_principal x e) principals p;
          })),
      elim [
        | inl n ↦ absurd (ground arith)
        | inr a ↦ rw (
          z,
          each_complete (check_dns x e) names.dns_names a.dns_ok,
          each_complete (check_ip x e) names.ips a.ips_ok,
          each_complete (check_email x e) names.email_addresses a.emails_ok,
          each_complete (check_uri x e) names.uris a.uris_ok,
          each_complete (check_principal x e) principals a.principals_ok,
        )
      ],
    )
  ]
