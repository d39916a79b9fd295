-- ===== src/Provisioner/Validity.antt =====
-- The dates of a certificate: TimeDuration of authority/provisioner/timeduration.go, and the modifiers
-- and the validator of dates of authority/provisioner/sign_options.go. A time is its nanoseconds since
-- the zero time, without a bound; a duration is an int64.
pub mod Bounds
pub mod Default
pub mod Requested
use certificates.Base.{
  ℕ, ◌+◌, ◌-◌, ◌%◌, ◌*◌, Bool, true, false, not, ltb, ◌==◌, if◌then◌else◌, ℤ, pos, negsuc, pos_part,
  neg_part, ltb_int, ◌+ℤ◌, negated, Outcome, ok, err,
}
use certificates.Provisioner.Claims.{Duration}
use certificates.Provisioner.SignOptions.{SignError, forbidden, bad_request, Check}

abbrev pub Time : Type 0
Time = ℤ

abbrev pub is_zero : ℤ → Bool
is_zero a = pos_part a + neg_part a == 0

pub record TimeDuration : Type 0 where
  pub t : Time
  pub d : Duration

-- TimeDuration.IsZero
abbrev pub is_unset : TimeDuration → Bool
is_unset td = if is_zero td.t then is_zero td.d else false

-- TimeDuration.RelativeTime
unfoldable pub relative_time : TimeDuration → Time → Time
relative_time td base =
    if is_zero td.t then (if is_zero td.d then pos 0 else base +ℤ td.d) else td.t

pub record SignOptions : Type 0 where
  pub not_after : TimeDuration
  pub not_before : TimeDuration
  pub backdate : Duration

-- The validity of a certificate.
pub record Dates : Type 0 where
  pub not_before : Time
  pub not_after : Time

-- Wrap-around of an int64.
unfoldable pub wrap_int64 : ℤ → Duration
wrap_int64 (pos n) =
    let m = n % 18446744073709551616 in
    if ltb m 9223372036854775808 then pos m else negsuc (18446744073709551615 - m)
wrap_int64 (negsuc n) =
    let m = n % 18446744073709551616 in
    if ltb m 9223372036854775808 then negsuc m else pos (18446744073709551615 - m)

-- The requested start, or now, and the backdate where there is no requested one.
unfoldable pub start_time : Time → SignOptions → Time × Duration
start_time now so =
    let not_before = relative_time so.not_before now in
    if is_zero not_before then (now, wrap_int64 (negated so.backdate)) else (not_before, pos 0)

-- 24 * time.Hour
abbrev pub default_cert_validity : Duration
default_cert_validity = pos 86400000000000

-- profileDefaultDuration.Modify
unfoldable pub profile_default_duration : Time → Duration → SignOptions → Dates
profile_default_duration now v so =
    let (not_before, backdate) = start_time now so in
    let requested = relative_time so.not_after not_before in
    record {
      not_before = not_before +ℤ backdate;
      not_after =
          if is_zero requested
          then not_before +ℤ (if is_zero v then default_cert_validity else v)
          else requested;
    }

pub record ProfileLimitDuration : Type 0 where
  pub def : Duration
  pub not_before : Time
  pub not_after : Time

-- The end of the default duration, or that of the credential.
abbrev pub limited_end : ProfileLimitDuration → Time → Time
limited_end v t = if ltb_int v.not_after t then v.not_after else t

-- profileLimitDuration.Modify
unfoldable pub profile_limit_duration :
    Time → ProfileLimitDuration → SignOptions → Outcome SignError Dates
profile_limit_duration now v so =
    let (not_before, backdate) = start_time now so in
    let requested = relative_time so.not_after not_before in
    if ltb_int not_before v.not_before
    then err forbidden
    else if ltb_int v.not_after requested
    then err forbidden
    else ok (record {
      not_before = not_before +ℤ backdate;
      not_after = if is_zero requested then limited_end v (not_before +ℤ v.def) else requested;
    })

-- Truncate(time.Second)
unfoldable pub truncate_second : Time → Time
truncate_second (pos n) = pos (n - n % 1000000000)
truncate_second (negsuc n) = negsuc (n + (999999999 - n % 1000000000))

-- Time.Sub, which stops at the least and at the greatest int64.
unfoldable pub sub_time : Time → Time → Duration
sub_time a b =
    let d = a +ℤ negated b in
    if ltb_int (pos 9223372036854775807) d
    then pos 9223372036854775807
    else if ltb_int d (negsuc 9223372036854775807)
    then negsuc 9223372036854775807
    else d

pub record ValidityValidator : Type 0 where
  pub min : Duration
  pub max : Duration

-- validityValidator.Valid
unfoldable pub valid_validity : Time → ValidityValidator → SignOptions → Dates → Check
valid_validity time v so dates =
    let na = truncate_second dates.not_after in
    let nb = truncate_second dates.not_before in
    let now = truncate_second time in
    let d = sub_time na nb in
    if ltb_int na now
    then err bad_request
    else if ltb_int na nb
    then err bad_request
    else if ltb_int d v.min
    then err forbidden
    else if ltb_int (wrap_int64 (v.max +ℤ so.backdate)) d
    then err forbidden
    else ok tt
