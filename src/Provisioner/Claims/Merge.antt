-- ===== src/Provisioner/Claims/Merge.antt =====
-- `Claims` and `Validate` of authority/provisioner/claims.go together.
use certificates.Base.{◌≡◌, sym, ap, ◌∙◌, Bool, true, false, if◌then◌else◌, Option, none, some}
use certificates.Provisioner.Claims.{
  Duration, Claims, Claimer, own, own_or_global, min_duration, max_duration, all_set, merged_fields,
  merged, validate, default_tls_cert_duration, min_tls_cert_duration, max_tls_cert_duration,
}
use certificates.Provisioner.Claims.Valid.{validate_exact}

-- An own value is what the claimer hands out.
module _ (first second : Claims → Option Duration) (claims global : Claims) (d : Duration)
    (is_own : first claims ≡ some d) where
  min_duration-own :
      min_duration first second (record { global = global; claims = some claims }) ≡ some d
  unfolding min_duration own
  min_duration-own = rw (is_own, min_duration)

  max_duration-own :
      max_duration first second (record { global = global; claims = some claims }) ≡ some d
  unfolding max_duration own
  max_duration-own = rw (is_own, max_duration)

  own_or_global-own :
      own_or_global first (record { global = global; claims = some claims }) ≡ some d
  unfolding own_or_global own
  own_or_global-own = rw (is_own, own_or_global)

some_if : (b : Bool) (a m : Claims) → (if b then some a else none) ≡ some m → a ≡ m
some_if true a m h = cc
some_if false a m h = absurd (cc)

merged-fields : (c : Claimer) (m : Claims) → merged c ≡ some m → merged_fields c ≡ m
unfolding merged
merged-fields c m h = some_if (all_set (merged_fields c)) (merged_fields c) m h

-- When a claimer's claims validate and merge, the merged claims, set on a provisioner over any
-- global claims, validate as well.
pub validate-merged :
    (c : Claimer) (global m : Claims)
    → merged c ≡ some m
    → validate c ≡ some none
    → validate (record { global = global; claims = some m }) ≡ some none
unfolding min_tls_cert_duration max_tls_cert_duration default_tls_cert_duration
validate-merged c global m whole h =
    let fields = merged-fields c m whole in
    let (min, max, def, p, q, r, o) = (validate_exact c).0 h in
    (validate_exact (record { global = global; claims = some m })).1 (
      min,
      max,
      def,
      min_duration-own (λ c. c.min_tls_dur) (λ c. c.default_tls_dur) m global min
          (sym (ap (λ (n : Claims). n.min_tls_dur) fields) ∙ p),
      max_duration-own (λ c. c.max_tls_dur) (λ c. c.default_tls_dur) m global max
          (sym (ap (λ (n : Claims). n.max_tls_dur) fields) ∙ q),
      own_or_global-own (λ c. c.default_tls_dur) (λ c. c.default_tls_dur) m global def
          (sym (ap (λ (n : Claims). n.default_tls_dur) fields) ∙ r),
      o,
    )
