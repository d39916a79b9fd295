-- ===== src/Provisioner/SshValidity/Period.antt =====
-- The duration that sshCertValidityValidator of authority/provisioner/sign_ssh_options.go computes, with
-- the wrap-around of its product.
use certificates.Base.{
  ℕ, ◌+◌, ◌-◌, ◌*◌, ◌≤◌, ◌<◌, ◌≡◌, ◌∙◌, ap, false, Bool-cases, inl, inr, ltb, ltb→le, ◌==◌, pos, ok,
  ◌>>=◌, arith,
}
use certificates.Provisioner.Claims.{Duration, Claimer}
use certificates.Provisioner.Validity.{wrap_int64}
use certificates.Provisioner.SshValidity.{SshDates, ssh_duration, ssh_limits, within, ssh_validity}

wrap_period : (n : ℕ) → wrap_int64 (pos (n + 36028797018963968000000000)) ≡ wrap_int64 (pos n)
unfolding wrap_int64
wrap_period n = ground arith

-- A certificate that ends 2^55 seconds later.
abbrev pub prolonged : SshDates → SshDates
prolonged cert = record cert { valid_before = cert.valid_before + 36028797018963968 }

ssh_duration-prolonged :
    (cert : SshDates)
    → cert.valid_after ≤ cert.valid_before
    → ssh_duration (prolonged cert) ≡ ssh_duration cert
unfolding ssh_duration
ssh_duration-prolonged cert h =
    let n = (cert.valid_before - cert.valid_after) * 1000000000 in
    let e : (cert.valid_before + 36028797018963968 - cert.valid_after) * 1000000000
        ≡ n + 36028797018963968000000000 =
      omega arith in
    ap (λ m. wrap_int64 (pos m)) e ∙ wrap_period n

-- What a validation that returns nil has seen.
ssh_validity-ok :
    (now : ℕ) (c : Claimer) (backdate : Duration) (cert : SshDates)
    → ssh_validity now c backdate cert ≡ ok tt
    → ((cert.valid_after == 0) ≡ false)
      × (now ≤ cert.valid_before)
      × (cert.valid_after ≤ cert.valid_before)
      × ((ssh_limits cert.cert_type c >>= λ (min, max). within (ssh_duration cert) min max backdate)
          ≡ ok tt)
unfolding ssh_validity
ssh_validity-ok now c backdate cert h = elim (Bool-cases (cert.valid_after == 0)) [
  | inl a ↦ absurd (ground arith)
  | inr a ↦ elim (Bool-cases (ltb cert.valid_before now)) [
    | inl b ↦ absurd (ground arith)
    | inr b ↦ elim (Bool-cases (ltb cert.valid_before cert.valid_after)) [
      | inl d ↦ absurd (ground arith)
      | inr d ↦ (
        a,
        ltb→le cert.valid_before now b,
        ltb→le cert.valid_before cert.valid_after d,
        ground arith,
      )
    ]
  ]
]

ssh_validity-from :
    (now : ℕ) (c : Claimer) (backdate : Duration) (cert : SshDates)
    → (cert.valid_after == 0) ≡ false
    → now ≤ cert.valid_before
    → cert.valid_after ≤ cert.valid_before
    → (ssh_limits cert.cert_type c >>= λ (min, max). within (ssh_duration cert) min max backdate)
      ≡ ok tt
    → ssh_validity now c backdate cert ≡ ok tt
unfolding ssh_validity
ssh_validity-from now c backdate cert a b d h =
    let b' : ltb cert.valid_before now ≡ false = ground arith in
    let d' : ltb cert.valid_before cert.valid_after ≡ false = ground arith in rw (a, b', d') h

-- Where the validator accepts the dates of a certificate, it accepts them with 2^55 seconds more at the
-- end too, as long as that end fits in a uint64: its test of the maximum duration does not see them.
pub ssh_validity-prolonged :
    (now : ℕ) (c : Claimer) (backdate : Duration) (cert : SshDates)
    → ssh_validity now c backdate cert ≡ ok tt
    → (prolonged cert).valid_before < 18446744073709551616
    → ssh_validity now c backdate (prolonged cert) ≡ ok tt
ssh_validity-prolonged now c backdate cert h fits =
    let (a, b, d, checked) = ssh_validity-ok now c backdate cert h in
    let same = ssh_duration-prolonged cert d in
    ssh_validity-from now c backdate (prolonged cert) a (omega arith) (omega arith)
      (rw same checked)
