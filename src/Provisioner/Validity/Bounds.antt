-- ===== src/Provisioner/Validity/Bounds.antt =====
-- What the dates of a certificate are bounded by: profileLimitDuration and validityValidator of
-- authority/provisioner/sign_options.go.
use certificates.Base.{
  ◌≡◌, ◌≢◌, ◌<ℤ◌, refl, pos, ltb_int→lt, sym, ap, ok-injective, subst, ◌↔◌, inl, inr, Bool, false,
  Bool-cases, if◌then◌else◌, ℤ, ltb_int, ltb_int→le, ◌≤ℤ◌, ◌+ℤ◌, ok, err, arith,
}
use certificates.Provisioner.Claims.{Duration}
use certificates.Provisioner.SignOptions.{SignError, forbidden, bad_request, Check}
use certificates.Provisioner.Validity.Requested.{
  Asks, Starts, IsSecond, Between, zero-cases, relative_time-Asks, start_time-Starts,
  truncate_second-IsSecond, sub_time-Between,
}
use certificates.Provisioner.Validity.{
  Time, SignOptions, Dates, ProfileLimitDuration, ValidityValidator, is_zero, relative_time,
  start_time, limited_end, profile_limit_duration, truncate_second, sub_time, wrap_int64,
  valid_validity,
}

-- The dates that the validator asks for, in whole seconds.
pub record Accepted (time : Time) (v : ValidityValidator) (so : SignOptions) (dates : Dates)
    : Type 0 where
  pub not_past : truncate_second time ≤ℤ truncate_second dates.not_after
  pub forward : truncate_second dates.not_before ≤ℤ truncate_second dates.not_after
  pub long_enough :
      v.min ≤ℤ sub_time (truncate_second dates.not_after) (truncate_second dates.not_before)
  pub short_enough :
      sub_time (truncate_second dates.not_after) (truncate_second dates.not_before)
      ≤ℤ wrap_int64 (v.max +ℤ so.backdate)

le→ltb_int : (a b : ℤ) → b ≤ℤ a → ltb_int a b ≡ false
le→ltb_int a b h = ground arith

abbrev accepted_check : Check
accepted_check = ok tt

guards :
    (a b c d : Bool)
    → ((if a
          then err bad_request
          else if b
          then err bad_request
          else if c
          then err forbidden
          else if d
          then err forbidden
          else accepted_check)
        ≡ accepted_check)
      ↔ ((a ≡ false) × (b ≡ false) × (c ≡ false) × (d ≡ false))
guards a b c d = ((λ h. ground arith), λ (p, q, r, t). ground arith)

pub valid_validity_iff :
    (time : Time) (v : ValidityValidator) (so : SignOptions) (dates : Dates)
    → (valid_validity time v so dates ≡ ok tt) ↔ Accepted time v so dates
unfolding valid_validity
valid_validity_iff time v so dates =
    let na = truncate_second dates.not_after in
    let nb = truncate_second dates.not_before in
    let now = truncate_second time in
    let d = sub_time na nb in
    let longest = wrap_int64 (v.max +ℤ so.backdate) in
    let (there, back) =
      guards (ltb_int na now) (ltb_int na nb) (ltb_int d v.min) (ltb_int longest d) in
    (
      (λ h.
          let (e1, e2, e3, e4) = there h in
          record {
            not_past = ltb_int→le na now e1;
            forward = ltb_int→le na nb e2;
            long_enough = ltb_int→le d v.min e3;
            short_enough = ltb_int→le longest d e4;
          }),
      λ a. back (
        le→ltb_int na now a.not_past,
        le→ltb_int na nb a.forward,
        le→ltb_int d v.min a.long_enough,
        le→ltb_int longest d a.short_enough,
      ),
    )

-- What an accepted certificate keeps to, in whole seconds.
pub record IsAccepted (time : Time) (v : ValidityValidator) (so : SignOptions) (dates : Dates)
    : Type 0 where
  pub now : Time
  pub start : Time
  pub end : Time
  pub duration : Duration
  pub now_second : IsSecond time now
  pub start_second : IsSecond dates.not_before start
  pub end_second : IsSecond dates.not_after end
  pub length_is : Between end start duration
  pub not_past : now ≤ℤ end
  pub forward : start ≤ℤ end
  pub long_enough : v.min ≤ℤ duration
  pub short_enough : duration ≤ℤ wrap_int64 (v.max +ℤ so.backdate)

Accepted-IsAccepted :
    (time : Time) (v : ValidityValidator) (so : SignOptions) (dates : Dates)
    → Accepted time v so dates
    → IsAccepted time v so dates
Accepted-IsAccepted time v so dates a = record {
  now = truncate_second time;
  start = truncate_second dates.not_before;
  end = truncate_second dates.not_after;
  duration = sub_time (truncate_second dates.not_after) (truncate_second dates.not_before);
  now_second = truncate_second-IsSecond time;
  start_second = truncate_second-IsSecond dates.not_before;
  end_second = truncate_second-IsSecond dates.not_after;
  length_is = sub_time-Between (truncate_second dates.not_after) (truncate_second dates.not_before);
  not_past = a.not_past;
  forward = a.forward;
  long_enough = a.long_enough;
  short_enough = a.short_enough;
}

-- The end of a certificate that starts at `start`, where `asked` is the end that was asked for.
pub data Ends (v : ProfileLimitDuration) (start asked end : Time) : Type 0 where
  as_asked : asked ≢ pos 0 → end ≡ asked → Ends v start asked end
  by_default :
      asked ≡ pos 0
      → (start +ℤ v.def) ≤ℤ v.not_after
      → end ≡ start +ℤ v.def
      → Ends v start asked end
  by_credential :
      asked ≡ pos 0 → v.not_after <ℤ (start +ℤ v.def) → end ≡ v.not_after → Ends v start asked end

Ends_le :
    (v : ProfileLimitDuration) (start asked end : Time)
    → asked ≤ℤ v.not_after
    → Ends v start asked end
    → end ≤ℤ v.not_after
Ends_le v start asked end h (as_asked n e) = rw e h
Ends_le v start asked end h (by_default z le e) = rw e le
Ends_le v start asked end h (by_credential z lt e) = rw e (omega arith)

-- The end of the code is the one of the relation.
limited-Ends :
    (v : ProfileLimitDuration) (start asked : Time)
    → Ends v start asked (if is_zero asked then limited_end v (start +ℤ v.def) else asked)
limited-Ends v start asked = elim (zero-cases asked) [
  | inl (z, e) ↦ elim (Bool-cases (ltb_int v.not_after (start +ℤ v.def))) [
    | inl f ↦ by_credential e (ltb_int→lt v.not_after (start +ℤ v.def) f) (rw (z, f) refl)
    | inr f ↦ by_default e (ltb_int→le v.not_after (start +ℤ v.def) f) (rw (z, f) refl)
  ]
  | inr (z, e) ↦ as_asked e (rw z refl)
]

-- What a certificate that was set under a credential keeps to.
pub record Limited (now : Time) (v : ProfileLimitDuration) (so : SignOptions) (dates : Dates)
    : Type 0 where
  pub start : Time
  pub shift : Duration
  pub asked : Time
  pub starts : Starts now so start shift
  pub start_is : dates.not_before ≡ start +ℤ shift
  pub starts_after : v.not_before ≤ℤ start
  pub asks : Asks so.not_after start asked
  pub ends : Ends v start asked dates.not_after
  pub ends_before : dates.not_after ≤ℤ v.not_after

profile_limit_duration-Limited :
    (now : Time) (v : ProfileLimitDuration) (so : SignOptions) (dates : Dates)
    → profile_limit_duration now v so ≡ ok dates
    → Limited now v so dates
unfolding profile_limit_duration
profile_limit_duration-Limited now v so dates h =
    let start = (start_time now so).0 in
    let asked = relative_time so.not_after start in
    elim (Bool-cases (ltb_int start v.not_before)) [
      | inl e ↦ absurd (ground arith)
      | inr e ↦ elim (Bool-cases (ltb_int v.not_after asked)) [
        | inl f ↦ absurd (ground arith)
        | inr f ↦
            let made : Dates = record {
              not_before = start +ℤ (start_time now so).1;
              not_after = if is_zero asked then limited_end v (start +ℤ v.def) else asked;
            } in
            let same : made ≡ dates = ok-injective {E = SignError} made dates (ground arith) in
            let ends =
              subst (λ (t : Dates). Ends v start asked t.not_after) same
                (limited-Ends v start asked) in
            record {
              start = start;
              shift = (start_time now so).1;
              asked = asked;
              starts = start_time-Starts now so;
              start_is = ap (λ (t : Dates). t.not_before) (sym same);
              starts_after = ltb_int→le start v.not_before e;
              asks = relative_time-Asks so.not_after start;
              ends = ends;
              ends_before =
                  Ends_le v start asked dates.not_after (ltb_int→le v.not_after asked f) ends;
            }
      ]
    ]

-- Where the dates of a certificate were set under a credential at one time, and accepted at another:
-- the certificate starts at the start that was asked for, absolute or relative to the first time, or
-- where none was at the first time less the backdate; before the backdate is taken off, its start is
-- not before that of the credential. It ends at the end that was asked for, absolute or relative to
-- the start, or where none was after the default duration or with the credential, whichever comes
-- first, and never after the credential. In whole seconds it ends neither before the second time nor
-- before its start, and its duration is between the minimum and the maximum with the backdate.
pub profile_limit_duration-valid_validity :
    (now later : Time) (v : ProfileLimitDuration) (limits : ValidityValidator) (so : SignOptions)
    (dates : Dates)
    → profile_limit_duration now v so ≡ ok dates
    → valid_validity later limits so dates ≡ ok tt
    → Limited now v so dates × IsAccepted later limits so dates
profile_limit_duration-valid_validity now later v limits so dates h k = (
  profile_limit_duration-Limited now v so dates h,
  Accepted-IsAccepted later limits so dates ((valid_validity_iff later limits so dates).0 k),
)
