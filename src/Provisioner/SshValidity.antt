-- ===== src/Provisioner/SshValidity.antt =====
-- The dates of an SSH certificate in authority/provisioner/sign_ssh_options.go: sshDefaultDuration,
-- sshLimitDuration and sshCertValidityValidator. ValidAfter and ValidBefore are seconds in a uint64, a
-- duration is nanoseconds in an int64, and the time that is passed is the Unix time in seconds.
pub mod Period
use certificates.Base.{
  ℕ, zero, suc, ◌+◌, ◌-◌, ◌*◌, ◌/◌, ◌%◌, Bool, true, false, ltb, ◌==◌, if◌then◌else◌, Option, some,
  none, ℤ, pos, negsuc, ltb_int, ◌+ℤ◌, Outcome, ok, err, panic, ◌>>=◌,
}
use certificates.Provisioner.Claims.{
  Duration, Claimer, CertTypeError, default_ssh_cert_duration, min_user_ssh_cert_duration,
  max_user_ssh_cert_duration, min_host_ssh_cert_duration, max_host_ssh_cert_duration,
}
use certificates.Provisioner.SignOptions.{SignError, forbidden, bad_request}
use certificates.Provisioner.Validity.{wrap_int64}

pub data SshSignError : Type 0 where
  claims_error : CertTypeError → SshSignError
  sign_error : SignError → SshSignError

pub record SshDates : Type 0 where
  pub cert_type : ℕ
  pub valid_after : ℕ
  pub valid_before : ℕ

-- uint64(d / time.Second)
unfoldable pub whole_seconds : Duration → ℕ
whole_seconds (pos n) = n / 1000000000
whole_seconds (negsuc n) = (18446744073709551616 - suc n / 1000000000) % 18446744073709551616

-- time.Unix(int64(t), 0), in nanoseconds
unfoldable pub unix_time : ℕ → ℤ
unix_time t = elim (wrap_int64 (pos t)) [
  | pos n ↦ pos (n * 1000000000)
  | negsuc n ↦ negsuc (n * 1000000000 + 999999999)
]

-- uint64(t.Unix())
unfoldable pub unix_seconds : ℤ → ℕ
unix_seconds (pos n) = n / 1000000000 % 18446744073709551616
unix_seconds (negsuc n) = 18446744073709551615 - n / 1000000000 % 18446744073709551616

default_duration : ℕ → Claimer → Outcome SshSignError Duration
default_duration cert_type c = elim (default_ssh_cert_duration cert_type c) [
  | ok d ↦ ok d
  | err e ↦ err (claims_error e)
  | panic ↦ panic
]

-- The start, which is now where none is set, and the backdate that belongs to it.
abbrev pub ssh_start : ℕ → Duration → SshDates → ℕ × ℕ
ssh_start now backdate cert =
    if cert.valid_after == 0 then (now, whole_seconds backdate) else (cert.valid_after, 0)

-- Apply backdate safely
abbrev pub backdated : ℕ → ℕ → ℕ
backdated start backdate = if ltb backdate start then start - backdate else start

-- sshDefaultDuration.Modify
unfoldable pub ssh_default_duration :
    ℕ → Claimer → Duration → SshDates → Outcome SshSignError SshDates
unfolding default_duration
ssh_default_duration now c backdate cert =
    let (start, back) = ssh_start now backdate cert in
    default_duration cert.cert_type c >>= λ d. ok (record {
      cert_type = cert.cert_type;
      valid_after = backdated start back;
      valid_before =
          if cert.valid_before == 0
          then (start + whole_seconds d) % 18446744073709551616
          else cert.valid_before;
    })

-- The end within the limit, or an error.
unfoldable pub limited_before : ℕ → ℤ → ℕ → Duration → Outcome SshSignError ℕ
limited_before valid_before not_after start d =
    let end = unix_time start +ℤ d in
    if valid_before == 0
    then ok (unix_seconds (if ltb_int not_after end then not_after else end))
    else if ltb_int not_after (unix_time valid_before)
    then err (sign_error forbidden)
    else ok valid_before

-- sshLimitDuration.Modify, where `none` is the zero time
unfoldable pub ssh_limit_duration :
    ℕ → Claimer → Option ℤ → Duration → SshDates → Outcome SshSignError SshDates
unfolding default_duration
ssh_limit_duration now c none backdate cert = ssh_default_duration now c backdate cert
ssh_limit_duration now c (some not_after) backdate cert =
    let (start, back) = ssh_start now backdate cert in
    default_duration cert.cert_type c >>= λ d.
    (if ltb_int not_after (unix_time start)
      then err (sign_error forbidden)
      else limited_before cert.valid_before not_after start d >>= λ valid_before. ok (record {
        cert_type = cert.cert_type;
        valid_after = backdated start back;
        valid_before = valid_before;
      }))

abbrev both : Option Duration → Option Duration → Outcome SshSignError (Duration × Duration)
both (some min) (some max) = ok (min, max)
both _ _ = panic

-- The minimum and the maximum for the type of the certificate.
unfoldable pub ssh_limits : ℕ → Claimer → Outcome SshSignError (Duration × Duration)
ssh_limits zero c = err (sign_error bad_request)
ssh_limits (suc zero) c = both (min_user_ssh_cert_duration c) (max_user_ssh_cert_duration c)
ssh_limits (suc (suc zero)) c = both (min_host_ssh_cert_duration c) (max_host_ssh_cert_duration c)
ssh_limits _ c = err (sign_error bad_request)

-- time.Duration(cert.ValidBefore-cert.ValidAfter) * time.Second
unfoldable pub ssh_duration : SshDates → Duration
ssh_duration cert = wrap_int64 (pos ((cert.valid_before - cert.valid_after) * 1000000000))

abbrev pub within : Duration → Duration → Duration → Duration → Outcome SshSignError (Unit {0})
within d min max backdate =
    if ltb_int d min
    then err (sign_error forbidden)
    else if ltb_int (wrap_int64 (max +ℤ backdate)) d
    then err (sign_error forbidden)
    else ok tt

-- sshCertValidityValidator.Valid
unfoldable pub ssh_validity : ℕ → Claimer → Duration → SshDates → Outcome SshSignError (Unit {0})
ssh_validity now c backdate cert =
    if cert.valid_after == 0
    then err (sign_error bad_request)
    else if ltb cert.valid_before now
    then err (sign_error bad_request)
    else if ltb cert.valid_before cert.valid_after
    then err (sign_error bad_request)
    else ssh_limits cert.cert_type c >>= λ (min, max). within (ssh_duration cert) min max backdate
