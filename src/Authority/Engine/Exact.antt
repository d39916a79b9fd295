-- ===== src/Authority/Engine/Exact.antt =====
-- What the engines of authority/policy/ let through, on every configuration.
use certificates.Base.{
  ap, ◌≡◌, ◌↔◌, ◌⊎◌, inl, inr, refl, Bool, true, false, Bool-cases, Option, none, some, ◌==◌,
  Outcome, ok, err, panic, arith,
}
use certificates.Policy.Types.{External}
use certificates.Policy.Engine.{NamePolicyEngine}
use certificates.Policy.Entry.{SshCertificate, SshError, user_cert, host_cert}
use certificates.Policy.Entry as Entry
use certificates.Authority.Engine.{
  Engine, SshPolicyError, refused_of, host_certificates_not_allowed, user_certificates_not_allowed,
  by_own_type, by_cert_type, has_no_ssh_policy, is_ssh_certificate_allowed,
}

-- Neither of the SSH engines is configured.
abbrev pub NoSshPolicy : Engine → Type 0
NoSshPolicy e = (e.ssh_host_policy ≡ none) × (e.ssh_user_policy ≡ none)

no_ssh_policy : (e : Engine) → has_no_ssh_policy e ≡ true → NoSshPolicy e
no_ssh_policy e h = go e.ssh_host_policy e.ssh_user_policy h
  where
    go :
        (host user : Option NamePolicyEngine)
        → elim host as (λ _. Bool) [
          | none ↦ elim user as (λ _. Bool) [ none ↦ true | some p ↦ false ]
          | some p ↦ false
        ]
          ≡ true
        → (host ≡ none) × (user ≡ none)
    go none none h = (refl, refl)
    go none (some u) h = absurd (ground arith)
    go (some p) user h = absurd (ground arith)

refused_of-ok : (r : Outcome SshError (Unit {0})) → refused_of r ≡ ok tt → r ≡ ok tt
refused_of-ok (ok tt) h = refl
refused_of-ok (err e) h = absurd (ground arith)
refused_of-ok panic h = absurd (ground arith)

module _ (x : External) where
  -- An engine is configured, and it lets the certificate through.
  abbrev pub PassesSsh : Option NamePolicyEngine → SshCertificate → Type 0
  PassesSsh own cert =
      (p : NamePolicyEngine) × (own ≡ some p) × (Entry.is_ssh_certificate_allowed x p cert ≡ ok tt)

  -- The engine of the certificate's own type is configured and lets it through.
  abbrev pub PassesOwnType : Engine → SshCertificate → Type 0
  PassesOwnType e cert =
      ((cert.cert_type ≡ host_cert) × PassesSsh e.ssh_host_policy cert)
      ⊎ ((cert.cert_type ≡ user_cert) × PassesSsh e.ssh_user_policy cert)

  by_own_type_passes :
      (own other : Option NamePolicyEngine) (e : SshPolicyError) (cert : SshCertificate)
      → by_own_type x own other e cert ≡ ok tt
      → PassesSsh own cert
  by_own_type_passes none (some p) e cert h = absurd (ground arith)
  by_own_type_passes none none e cert h = absurd (ground arith)
  by_own_type_passes (some p) other e cert h =
      (p, refl, refused_of-ok (Entry.is_ssh_certificate_allowed x p cert) h)

  passes_by_own_type :
      (own other : Option NamePolicyEngine) (e : SshPolicyError) (cert : SshCertificate)
      → PassesSsh own cert
      → by_own_type x own other e cert ≡ ok tt
  passes_by_own_type none other e cert (p, h, k) = absurd (ground arith)
  passes_by_own_type (some q) other e cert (p, h, k) =
      let same : Entry.is_ssh_certificate_allowed x q cert ≡ ok tt = cc in ap refused_of same

  by_cert_type_exact :
      (e : Engine) (cert : SshCertificate) → (by_cert_type x e cert ≡ ok tt) ↔ PassesOwnType e cert
  unfolding by_cert_type
  by_cert_type_exact e cert = (
    λ h. elim (Bool-cases (cert.cert_type == host_cert)) [
      | inl is_host ↦ inl (
        ground arith,
        by_own_type_passes e.ssh_host_policy e.ssh_user_policy host_certificates_not_allowed cert
            (ground arith),
      )
      | inr not_host ↦ inr (
        ground arith,
        by_own_type_passes e.ssh_user_policy e.ssh_host_policy user_certificates_not_allowed cert
            (ground arith),
      )
    ],
    elim [
      | inl (t, passes) ↦
          let allowed =
            passes_by_own_type e.ssh_host_policy e.ssh_user_policy host_certificates_not_allowed
              cert passes in
          ground arith
      | inr (t, passes) ↦
          let allowed =
            passes_by_own_type e.ssh_user_policy e.ssh_host_policy user_certificates_not_allowed
              cert passes in
          ground arith
    ],
  )

  -- An engine of the authority allows an SSH certificate exactly where it has no SSH policy at all, or
  -- where the certificate is for a host or for a user, the policy of that type is configured, and the
  -- policy allows the certificate.
  pub is_ssh_certificate_allowed_exact :
      (e : Engine) (cert : SshCertificate)
      → (is_ssh_certificate_allowed x (some e) cert ≡ ok tt)
        ↔ (NoSshPolicy e ⊎ PassesOwnType e cert)
  unfolding is_ssh_certificate_allowed
  is_ssh_certificate_allowed_exact e cert = (
    λ h. elim (Bool-cases (has_no_ssh_policy e)) [
      | inl nothing ↦ inl (no_ssh_policy e nothing)
      | inr something ↦ inr ((by_cert_type_exact e cert).0 (ground arith))
    ],
    λ h. elim (Bool-cases (has_no_ssh_policy e)) [
      | inl nothing ↦ rw nothing refl
      | inr something ↦ elim h [
        | inl nothing ↦ absurd (ground arith)
        | inr passes ↦ let allowed = (by_cert_type_exact e cert).1 passes in ground arith
      ]
    ],
  )
