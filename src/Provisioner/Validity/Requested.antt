-- ===== src/Provisioner/Validity/Requested.antt =====
-- The dates that a request asks for, and the whole seconds and the difference of times, of
-- authority/provisioner/timeduration.go and sign_options.go.
use certificates.Base.{
  zero, suc, ◌%◌, ◌≡◌, ◌≢◌, refl, ◌⊎◌, inl, inr, true, false, Bool-cases, ℤ, pos, negsuc, pos_part,
  neg_part, ltb_int, ltb_int→lt, ltb_int→le, ◌≤ℤ◌, ◌<ℤ◌, ◌+ℤ◌, negated, arith,
}
use certificates.Provisioner.Claims.{Duration}
use certificates.Provisioner.Validity.{
  Time, TimeDuration, SignOptions, is_zero, relative_time, start_time, truncate_second, sub_time,
  wrap_int64,
}

-- The time that is asked for: an absolute one, one relative to a base, or none, which is the zero
-- time.
pub data Asks (td : TimeDuration) (base r : Time) : Type 0 where
  absolute : td.t ≢ pos 0 → r ≡ td.t → Asks td base r
  relative : td.t ≡ pos 0 → td.d ≢ pos 0 → r ≡ base +ℤ td.d → Asks td base r
  nothing : td.t ≡ pos 0 → td.d ≡ pos 0 → r ≡ pos 0 → Asks td base r

-- The start that is asked for, or the present less the backdate where none is.
pub data Starts (now : Time) (so : SignOptions) (start : Time) (shift : Duration) : Type 0 where
  requested :
      start ≢ pos 0 → Asks so.not_before now start → shift ≡ pos 0 → Starts now so start shift
  present :
      Asks so.not_before now (pos 0)
      → start ≡ now
      → shift ≡ wrap_int64 (negated so.backdate)
      → Starts now so start shift

pub zero-cases : (a : ℤ) → ((is_zero a ≡ true) × (a ≡ pos 0)) ⊎ ((is_zero a ≡ false) × (a ≢ pos 0))
zero-cases (pos zero) = inl (refl, refl)
zero-cases (pos (suc n)) = inr (ground arith, λ e. cc)
zero-cases (negsuc n) = inr (ground arith, λ e. cc)

pub relative_time-Asks : (td : TimeDuration) (base : Time) → Asks td base (relative_time td base)
unfolding relative_time
relative_time-Asks td base = elim (zero-cases td.t) [
  | inl (z, t) ↦ elim (zero-cases td.d) [
    | inl (y, d) ↦ Asks.nothing t d (rw (z, y) refl)
    | inr (y, d) ↦ Asks.relative t d (rw (z, y) refl)
  ]
  | inr (z, t) ↦ Asks.absolute t (rw z refl)
]

pub start_time-Starts :
    (now : Time) (so : SignOptions) → Starts now so (start_time now so).0 (start_time now so).1
unfolding start_time
start_time-Starts now so =
    let asks = relative_time-Asks so.not_before now in
    elim (zero-cases (relative_time so.not_before now)) [
      | inl (z, t) ↦ rw (z, start_time) (Starts.present (rw t at asks) refl refl)
      | inr (z, t) ↦ rw (z, start_time) (Starts.requested t asks refl)
    ]

-- The last whole second that is not after a time.
pub record IsSecond (t second : Time) : Type 0 where
  pub not_after : second ≤ℤ t
  pub less_than_next : t <ℤ (second +ℤ pos 1000000000)
  pub whole : (pos_part second % 1000000000 ≡ 0) × (neg_part second % 1000000000 ≡ 0)

pub truncate_second-IsSecond : (t : Time) → IsSecond t (truncate_second t)
unfolding truncate_second
truncate_second-IsSecond (pos n) = record {
  not_after = ground arith;
  less_than_next = ground arith;
  whole = (ground arith, ground arith);
}
truncate_second-IsSecond (negsuc n) = record {
  not_after = ground arith;
  less_than_next = ground arith;
  whole = (ground arith, ground arith);
}

-- The difference of two times as an int64, which stops at the least and the greatest one.
pub data Between (a b : Time) (d : Duration) : Type 0 where
  exact :
      d ≡ a +ℤ negated b
      → d ≤ℤ pos 9223372036854775807
      → negsuc 9223372036854775807 ≤ℤ d
      → Between a b d
  longest :
      pos 9223372036854775807 <ℤ (a +ℤ negated b) → d ≡ pos 9223372036854775807 → Between a b d
  least :
      (a +ℤ negated b) <ℤ negsuc 9223372036854775807
      → d ≡ negsuc 9223372036854775807
      → Between a b d

pub sub_time-Between : (a b : Time) → Between a b (sub_time a b)
unfolding sub_time
sub_time-Between a b =
    let d = a +ℤ negated b in
    elim (Bool-cases (ltb_int (pos 9223372036854775807) d)) [
      | inl e ↦ Between.longest (ltb_int→lt (pos 9223372036854775807) d e) (rw e refl)
      | inr e ↦ elim (Bool-cases (ltb_int d (negsuc 9223372036854775807))) [
        | inl f ↦ Between.least (ltb_int→lt d (negsuc 9223372036854775807) f) (rw (e, f) refl)
        | inr f ↦
            rw (e, f)
              (Between.exact refl (ltb_int→le (pos 9223372036854775807) d e)
                (ltb_int→le d (negsuc 9223372036854775807) f))
      ]
    ]
