-- ===== src/Provisioner/Claims.antt =====
-- authority/provisioner/claims.go: the claims of a provisioner over those of the authority. A nil
-- pointer of the global claims that is read panics, which is `none` here.
pub mod Valid
pub mod Merge
use certificates.Base.{
  Bool, true, false, Option, none, some, ℤ, pos, ltb_int, if◌then◌else◌, not, ◌&&◌, ℕ, zero, suc,
  Outcome, ok, err, panic,
}

-- time.Duration
abbrev pub Duration : Type 0
Duration = ℤ

pub record Claims : Type 0 where
  pub min_tls_dur : Option Duration
  pub max_tls_dur : Option Duration
  pub default_tls_dur : Option Duration
  pub min_user_ssh_dur : Option Duration
  pub max_user_ssh_dur : Option Duration
  pub default_user_ssh_dur : Option Duration
  pub min_host_ssh_dur : Option Duration
  pub max_host_ssh_dur : Option Duration
  pub default_host_ssh_dur : Option Duration
  pub enable_ssh_ca : Option Bool
  pub disable_renewal : Option Bool
  pub allow_renewal_after_expiry : Option Bool

pub record Claimer : Type 0 where
  pub global : Claims
  pub claims : Option Claims

-- `c.claims.F`, with `none` where `c.claims` or the field is nil
unfoldable pub own : {A : Type 0} → (Claims → Option A) → Claimer → Option A
own f c = elim c.claims [ none ↦ none | some claims ↦ f claims ]

-- The own value, else the global one.
unfoldable pub own_or_global : {A : Type 0} → (Claims → Option A) → Claimer → Option A
unfolding own
own_or_global f c = elim (own f c) [ some a ↦ some a | none ↦ f c.global ]

-- `if default < global then default else global`, and the same with the greater of the two
lower_of : Duration → Option Duration → Option Duration
lower_of d none = none
lower_of d (some g) = some (if ltb_int d g then d else g)

upper_of : Duration → Option Duration → Option Duration
upper_of d none = none
upper_of d (some g) = some (if ltb_int g d then d else g)

-- The own minimum, else the global one, lowered to the own default.
unfoldable pub min_duration :
    (Claims → Option Duration) → (Claims → Option Duration) → Claimer → Option Duration
unfolding own lower_of
min_duration minimum default c = elim (own minimum c) [
  | some d ↦ some d
  | none ↦ elim (own default c) [ some d ↦ lower_of d (minimum c.global) | none ↦ minimum c.global ]
]

-- The own maximum, else the global one, raised to the own default.
unfoldable pub max_duration :
    (Claims → Option Duration) → (Claims → Option Duration) → Claimer → Option Duration
unfolding own upper_of
max_duration maximum default c = elim (own maximum c) [
  | some d ↦ some d
  | none ↦ elim (own default c) [ some d ↦ upper_of d (maximum c.global) | none ↦ maximum c.global ]
]

unfoldable pub default_tls_cert_duration : Claimer → Option Duration
unfolding own_or_global
default_tls_cert_duration = own_or_global (λ c. c.default_tls_dur)

unfoldable pub min_tls_cert_duration : Claimer → Option Duration
unfolding min_duration
min_tls_cert_duration = min_duration (λ c. c.min_tls_dur) (λ c. c.default_tls_dur)

unfoldable pub max_tls_cert_duration : Claimer → Option Duration
unfolding max_duration
max_tls_cert_duration = max_duration (λ c. c.max_tls_dur) (λ c. c.default_tls_dur)

unfoldable pub is_disable_renewal : Claimer → Option Bool
unfolding own_or_global
is_disable_renewal = own_or_global (λ c. c.disable_renewal)

unfoldable pub allow_renewal_after_expiry : Claimer → Option Bool
unfolding own_or_global
allow_renewal_after_expiry = own_or_global (λ c. c.allow_renewal_after_expiry)

unfoldable pub default_user_ssh_cert_duration : Claimer → Option Duration
unfolding own_or_global
default_user_ssh_cert_duration = own_or_global (λ c. c.default_user_ssh_dur)

unfoldable pub min_user_ssh_cert_duration : Claimer → Option Duration
unfolding min_duration
min_user_ssh_cert_duration = min_duration (λ c. c.min_user_ssh_dur) (λ c. c.default_user_ssh_dur)

unfoldable pub max_user_ssh_cert_duration : Claimer → Option Duration
unfolding max_duration
max_user_ssh_cert_duration = max_duration (λ c. c.max_user_ssh_dur) (λ c. c.default_user_ssh_dur)

unfoldable pub default_host_ssh_cert_duration : Claimer → Option Duration
unfolding own_or_global
default_host_ssh_cert_duration = own_or_global (λ c. c.default_host_ssh_dur)

unfoldable pub min_host_ssh_cert_duration : Claimer → Option Duration
unfolding min_duration
min_host_ssh_cert_duration = min_duration (λ c. c.min_host_ssh_dur) (λ c. c.default_host_ssh_dur)

unfoldable pub max_host_ssh_cert_duration : Claimer → Option Duration
unfolding max_duration
max_host_ssh_cert_duration = max_duration (λ c. c.max_host_ssh_dur) (λ c. c.default_host_ssh_dur)

unfoldable pub is_ssh_ca_enabled : Claimer → Option Bool
unfolding own_or_global
is_ssh_ca_enabled = own_or_global (λ c. c.enable_ssh_ca)

pub data ClaimsError : Type 0 where
  min_not_positive max_not_positive default_not_positive : ClaimsError
  max_below_min default_below_min max_below_default : ClaimsError

-- d <= 0
abbrev pub not_positive : Duration → Bool
not_positive d = not (ltb_int (pos 0) d)

-- The `switch` of `Validate`; `none` is nil.
unfoldable pub check_order : Duration → Duration → Duration → Option ClaimsError
check_order min max def =
    if not_positive min
    then some min_not_positive
    else if not_positive max
    then some max_not_positive
    else if not_positive def
    then some default_not_positive
    else if ltb_int max min
    then some max_below_min
    else if ltb_int def min
    then some default_below_min
    else if ltb_int max def
    then some max_below_default
    else none

-- `none` is a panic; `some none` is nil.
unfoldable pub validate : Claimer → Option (Option ClaimsError)
validate c = elim (min_tls_cert_duration c) [
  | none ↦ none
  | some min ↦ elim (max_tls_cert_duration c) [
    | none ↦ none
    | some max ↦ elim (default_tls_cert_duration c) [
      | none ↦ none
      | some def ↦ some (check_order min max def)
    ]
  ]
]

-- NewClaimer: the claimer comes back beside what its check returned.
unfoldable pub new_claimer : Option Claims → Claims → Claimer × Option (Option ClaimsError)
unfolding validate
new_claimer claims global =
    let c : Claimer = record { global = global; claims = claims } in (c, validate c)

pub data CertTypeError : Type 0 where
  cert_type_unset cert_type_unknown : CertTypeError

-- DefaultSSHCertDuration; ssh.UserCert is 1 and ssh.HostCert is 2.
unfoldable pub default_ssh_cert_duration : ℕ → Claimer → Outcome CertTypeError Duration
unfolding default_user_ssh_cert_duration default_host_ssh_cert_duration
default_ssh_cert_duration zero c = err cert_type_unset
default_ssh_cert_duration (suc zero) c = elim (default_user_ssh_cert_duration c) [
  | some d ↦ ok d
  | none ↦ panic
]
default_ssh_cert_duration (suc (suc zero)) c = elim (default_host_ssh_cert_duration c) [
  | some d ↦ ok d
  | none ↦ panic
]
default_ssh_cert_duration _ c = err cert_type_unknown

abbrev is_set : {A : Type 0} → Option A → Bool
is_set (some a) = true
is_set none = false

-- The fields of the merge of the own and the global claims.
abbrev pub merged_fields : Claimer → Claims
merged_fields c = record {
  min_tls_dur = min_tls_cert_duration c;
  max_tls_dur = max_tls_cert_duration c;
  default_tls_dur = default_tls_cert_duration c;
  min_user_ssh_dur = min_user_ssh_cert_duration c;
  max_user_ssh_dur = max_user_ssh_cert_duration c;
  default_user_ssh_dur = default_user_ssh_cert_duration c;
  min_host_ssh_dur = min_host_ssh_cert_duration c;
  max_host_ssh_dur = max_host_ssh_cert_duration c;
  default_host_ssh_dur = default_host_ssh_cert_duration c;
  enable_ssh_ca = is_ssh_ca_enabled c;
  disable_renewal = is_disable_renewal c;
  allow_renewal_after_expiry = allow_renewal_after_expiry c;
}

abbrev all_set : Claims → Bool
all_set m =
    is_set m.min_tls_dur
    && is_set m.max_tls_dur
    && is_set m.default_tls_dur
    && is_set m.min_user_ssh_dur
    && is_set m.max_user_ssh_dur
    && is_set m.default_user_ssh_dur
    && is_set m.min_host_ssh_dur
    && is_set m.max_host_ssh_dur
    && is_set m.default_host_ssh_dur
    && is_set m.enable_ssh_ca
    && is_set m.disable_renewal
    && is_set m.allow_renewal_after_expiry

-- Claims(): the merge of the own and the global claims, where every value exists.
unfoldable pub merged : Claimer → Option Claims
merged c = let m = merged_fields c in if all_set m then some m else none
