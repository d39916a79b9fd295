-- ===== src/Provisioner/DateExamples.antt =====
-- The theorems on dates and names of authority/provisioner/sign_options.go at concrete requests.
use certificates.Base.{some, none, ◌≡◌, refl, pos, ok, arith}
use certificates.Provisioner.Claims.{
  Claims, Claimer, min_user_ssh_cert_duration, max_user_ssh_cert_duration,
}
use certificates.Provisioner.SshValidity.{SshDates, ssh_validity, ssh_limits, ssh_duration}
use certificates.Provisioner.SshValidity.Period.{ssh_validity-prolonged}
use certificates.Provisioner.Validity.{
  Dates, ProfileLimitDuration, ValidityValidator, profile_default_duration, profile_limit_duration,
  start_time, relative_time, valid_validity, truncate_second, sub_time, wrap_int64,
}
use certificates.Provisioner.Validity.Bounds.{
  Limited, IsAccepted, profile_limit_duration-valid_validity,
}
use certificates.Provisioner.Validity.Default.{no_dates, profile_default_duration-valid_validity}

-- A credential of an hour, from second 100 on, and a request without dates.
abbrev credential : ProfileLimitDuration
credential = record {
  def = pos 86400000000000;
  not_before = pos 100000000000;
  not_after = pos 3700000000000;
}

abbrev limits : ValidityValidator
limits = record { min = pos 300000000000; max = pos 86400000000000 }

abbrev limited_dates : Dates
limited_dates = record { not_before = pos 140000000000; not_after = pos 3700000000000 }

limited_here :
    profile_limit_duration (pos 200000000000) credential (no_dates 60000000000) ≡ ok limited_dates
unfolding profile_limit_duration start_time relative_time wrap_int64
limited_here = refl

accepted_here :
    valid_validity (pos 201000000000) limits (no_dates 60000000000) limited_dates ≡ ok tt
unfolding valid_validity truncate_second sub_time wrap_int64
accepted_here = refl

profile_limit_duration-valid_validity_example :
    Limited (pos 200000000000) credential (no_dates 60000000000) limited_dates
    × IsAccepted (pos 201000000000) limits (no_dates 60000000000) limited_dates
profile_limit_duration-valid_validity_example =
    profile_limit_duration-valid_validity (pos 200000000000) (pos 201000000000) credential limits
      (no_dates 60000000000) limited_dates limited_here accepted_here

profile_default_duration-valid_validity_example :
    valid_validity
      (pos 201000000000)
      limits
      (no_dates 60000000000)
      (profile_default_duration (pos 200000000000) (pos 3600000000000) (no_dates 60000000000))
    ≡ ok tt
profile_default_duration-valid_validity_example =
    profile_default_duration-valid_validity 200000000000 201000000000 3600 60 (pos 300000000000)
      86400000000000 (record { positive = omega arith; above = omega arith; below = omega arith })
      (omega arith) (omega arith) (omega arith)

abbrev user_claims : Claims
user_claims = record {
  min_tls_dur = none;
  max_tls_dur = none;
  default_tls_dur = none;
  min_user_ssh_dur = some (pos 300000000000);
  max_user_ssh_dur = some (pos 86400000000000);
  default_user_ssh_dur = some (pos 57600000000000);
  min_host_ssh_dur = none;
  max_host_ssh_dur = none;
  default_host_ssh_dur = none;
  enable_ssh_ca = none;
  disable_renewal = none;
  allow_renewal_after_expiry = none;
}

abbrev user_claimer : Claimer
user_claimer = record { global = user_claims; claims = none }

-- A user certificate of an hour.
abbrev hour : SshDates
hour = record { cert_type = 1; valid_after = 1700000000; valid_before = 1700003600 }

hour_accepted : ssh_validity 1700000000 user_claimer (pos 60000000000) hour ≡ ok tt
unfolding ssh_validity ssh_limits min_user_ssh_cert_duration max_user_ssh_cert_duration ssh_duration
    wrap_int64
hour_accepted = refl

ssh_validity-prolonged_example :
    ssh_validity 1700000000 user_claimer
      (pos 60000000000)
      (record { cert_type = 1; valid_after = 1700000000; valid_before = 36028798718967568 })
    ≡ ok tt
ssh_validity-prolonged_example =
    ssh_validity-prolonged 1700000000 user_claimer (pos 60000000000) hour hour_accepted
      (omega arith)

-- A user certificate of 584 years and about an hour.
abbrev centuries : SshDates
centuries = record { cert_type = 1; valid_after = 1700000000; valid_before = 20146747674 }

centuries_accepted : ssh_validity 1700000000 user_claimer (pos 60000000000) centuries ≡ ok tt
unfolding ssh_validity ssh_limits min_user_ssh_cert_duration max_user_ssh_cert_duration ssh_duration
    wrap_int64
centuries_accepted = refl
