-- ===== src/Provisioner/Validity/Default.antt =====
-- A request without dates: profileDefaultDuration and validityValidator of
-- authority/provisioner/sign_options.go over the claims of a provisioner.
use certificates.Base.{
  ℕ, ◌+◌, ◌-◌, ◌*◌, ◌%◌, ◌≤◌, ◌<◌, ◌≡◌, false, pos, ◌≤ℤ◌, ◌+ℤ◌, negated, ok, arith,
}
use certificates.Provisioner.Claims.{Duration}
use certificates.Provisioner.Claims.Valid.{IsOrdered}
use certificates.Provisioner.Validity.{
  SignOptions, Dates, is_zero, relative_time, start_time, profile_default_duration, truncate_second,
  sub_time, wrap_int64, valid_validity,
}
use certificates.Provisioner.Validity.Bounds.{valid_validity_iff}

-- The options of a request that asks for no dates.
abbrev pub no_dates : ℕ → SignOptions
no_dates backdate = record {
  not_after = record { t = pos 0; d = pos 0 };
  not_before = record { t = pos 0; d = pos 0 };
  backdate = pos backdate;
}

-- Dates of whole seconds k after and b before a time.
truncate_default :
    (n k : ℕ)
    → truncate_second (pos n +ℤ pos (1000000000 * k)) ≡ pos (n - n % 1000000000 + 1000000000 * k)
unfolding truncate_second
truncate_default n k = ground arith

truncate_backdated :
    (n b : ℕ)
    → 1000000000 * b ≤ n
    → truncate_second (pos n +ℤ negated (pos (1000000000 * b)))
      ≡ pos (n - n % 1000000000 - 1000000000 * b)
unfolding truncate_second
truncate_backdated n b h = ground arith

wrap_sum : (m n : ℕ) → m + n < 9223372036854775808 → wrap_int64 (pos m +ℤ pos n) ≡ pos (m + n)
unfolding wrap_int64
wrap_sum m n h = ground arith

wrap_small_negated :
    (n : ℕ) → n < 9223372036854775808 → wrap_int64 (negated (pos n)) ≡ negated (pos n)
unfolding wrap_int64
wrap_small_negated n h = ground arith

-- The dates of a request without dates.
abbrev whole_dates : ℕ → ℕ → ℕ → Dates
whole_dates n k b = record {
  not_before = pos n +ℤ negated (pos (1000000000 * b));
  not_after = pos n +ℤ pos (1000000000 * k);
}

nonzero : (k : ℕ) → 1 ≤ k → is_zero (pos (1000000000 * k)) ≡ false
nonzero k h = ground arith

earlier :
    (later n k : ℕ)
    → later ≤ n + 1000000000 * k
    → truncate_second (pos later) ≤ℤ pos (n - n % 1000000000 + 1000000000 * k)
unfolding truncate_second
earlier later n k h = omega arith

default_dates :
    (n k b : ℕ)
    → 1 ≤ k
    → 1000000000 * b < 9223372036854775808
    → profile_default_duration (pos n) (pos (1000000000 * k)) (no_dates (1000000000 * b))
      ≡ whole_dates n k b
unfolding profile_default_duration start_time relative_time
default_dates n k b h c = rw (wrap_small_negated (1000000000 * b) c, nonzero k h)

sub_whole :
    (n k b : ℕ)
    → 1000000000 * b ≤ n
    → 1000000000 * k + 1000000000 * b < 9223372036854775808
    → sub_time
        (pos (n - n % 1000000000 + 1000000000 * k))
        (pos (n - n % 1000000000 - 1000000000 * b))
      ≡ pos (1000000000 * k + 1000000000 * b)
unfolding sub_time
sub_whole n k b h c = ground arith

-- Where the claims of a provisioner are in order and its default duration and the backdate are whole
-- seconds, a request without dates is accepted: the dates that it gets at a time, which is not before
-- the backdate, pass the validator with the minimum and the maximum of the claims, at each time up
-- to the end of the default duration. The maximum and the backdate fit in an int64 together.
pub profile_default_duration-valid_validity :
    (n later k b : ℕ) (min : Duration) (max : ℕ)
    → IsOrdered min (pos max) (pos (1000000000 * k))
    → 1000000000 * b ≤ n
    → max + 1000000000 * b < 9223372036854775808
    → later ≤ n + 1000000000 * k
    → valid_validity
        (pos later)
        (record { min = min; max = pos max })
        (no_dates (1000000000 * b))
        (profile_default_duration (pos n) (pos (1000000000 * k)) (no_dates (1000000000 * b)))
      ≡ ok tt
profile_default_duration-valid_validity n later k b min max o hb fits h =
    let positive : 1 ≤ k = omega (arith, o.positive, o.above) in
    let dates = default_dates n k b positive (omega arith) in
    let na = truncate_default n k in
    let nb = truncate_backdated n b hb in
    let below : 1000000000 * k ≤ max = omega (arith, o.below) in
    let d = sub_whole n k b hb (omega arith) in
    let w = wrap_sum max (1000000000 * b) fits in
    rw dates (
      (valid_validity_iff (pos later) (record { min = min; max = pos max })
          (no_dates (1000000000 * b)) (whole_dates n k b)).1
        (record {
          not_past = rw na (earlier later n k h);
          forward = rw (na, nb) (omega arith);
          long_enough = rw (na, nb, d) (omega (arith, o.above));
          short_enough = rw (na, nb, d, w) (omega (arith, o.below));
        }))
