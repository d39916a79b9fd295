-- ===== src/Provisioner/Claims/Valid.antt =====
-- `Validate` of authority/provisioner/claims.go.
use certificates.Base.{
  ◌≡◌, refl, ◌↔◌, Option, none, some, pos, ltb_int, ◌≤ℤ◌, ◌<ℤ◌, arith, Bool-cases, inl, inr, ap,
  ltb_int→le,
}
use certificates.Provisioner.Claims.{
  Duration, Claims, Claimer, ClaimsError, own, own_or_global, lower_of, upper_of, min_duration,
  max_duration, check_order, validate, default_tls_cert_duration, min_tls_cert_duration,
  max_tls_cert_duration,
}

-- The three TLS durations are set, positive and in order.
pub record IsOrdered (min max def : Duration) : Type 0 where
  pub positive : pos 0 <ℤ min
  pub above : min ≤ℤ def
  pub below : def ≤ℤ max

check_order_iff :
    (min max def : Duration) → (check_order min max def ≡ none) ↔ IsOrdered min max def
unfolding check_order
check_order_iff min max def = ((λ h. ground arith), λ h. ground arith)

-- The three durations that `Validate` compares, when each exists.
IsOrdered-parts :
    (min max def : Option Duration)
    → elim min [
      | none ↦ none
      | some a ↦ elim max [
        | none ↦ none
        | some b ↦ elim def [ none ↦ none | some d ↦ some (check_order a b d) ]
      ]
    ]
      ≡ some none
    → (a : Duration) × (b : Duration) × (d : Duration) × (min ≡ some a)
      × (max ≡ some b)
      × (def ≡ some d)
      × IsOrdered a b d
IsOrdered-parts none max def h = absurd (cc)
IsOrdered-parts (some a) none def h = absurd (cc)
IsOrdered-parts (some a) (some b) none h = absurd (cc)
IsOrdered-parts (some a) (some b) (some d) h =
    (a, b, d, refl, refl, refl, (check_order_iff a b d).0 (cc))

parts_ordered :
    (min max def : Option Duration) (a b d : Duration)
    → min ≡ some a
    → max ≡ some b
    → def ≡ some d
    → IsOrdered a b d
    → elim min [
      | none ↦ none
      | some a ↦ elim max [
        | none ↦ none
        | some b ↦ elim def [ none ↦ none | some d ↦ some (check_order a b d) ]
      ]
    ]
      ≡ some none
parts_ordered min max def a b d p q r o =
    rw (p, q, r) (ap (λ (e : Option ClaimsError). some e) ((check_order_iff a b d).1 o))

-- `Validate` accepts a claimer exactly when the minimum, default and maximum TLS durations that it
-- hands out exist, the minimum is positive, and they stand in this order.
pub validate_exact :
    (c : Claimer)
    → (validate c ≡ some none) ↔ (
        (min : Duration) × (max : Duration) × (def : Duration) × (min_tls_cert_duration c
          ≡ some min)
        × (max_tls_cert_duration c ≡ some max)
        × (default_tls_cert_duration c ≡ some def)
        × IsOrdered min max def)
unfolding validate
validate_exact c = (
  (λ h.
      IsOrdered-parts (min_tls_cert_duration c) (max_tls_cert_duration c)
        (default_tls_cert_duration c) h),
  λ (min, max, def, p, q, r, o).
      parts_ordered (min_tls_cert_duration c) (max_tls_cert_duration c)
        (default_tls_cert_duration c) min max def p q r o,
)

lower_of_le :
    (d g : Duration)
    → pos 0 <ℤ d
    → pos 0 <ℤ g
    → (m : Duration) × (lower_of d (some g) ≡ some m) × (pos 0 <ℤ m) × (m ≤ℤ d)
unfolding lower_of
lower_of_le d g p q = elim (Bool-cases (ltb_int d g)) [
  | inl h ↦ (d, rw h refl, p, omega arith)
  | inr h ↦ (g, rw h refl, q, ltb_int→le d g h)
]

upper_of_le : (d g : Duration) → (m : Duration) × (upper_of d (some g) ≡ some m) × (d ≤ℤ m)
unfolding upper_of
upper_of_le d g = elim (Bool-cases (ltb_int g d)) [
  | inl h ↦ (d, rw h refl, omega arith)
  | inr h ↦ (g, rw h refl, ltb_int→le g d h)
]

-- Over global claims with a maximum and a positive minimum TLS duration, a provisioner that sets a
-- positive default TLS duration and neither minimum nor maximum is accepted, however its default
-- lies to the global bounds.
pub validate-default_only :
    (global claims : Claims) (min max d : Duration)
    → global.min_tls_dur ≡ some min
    → global.max_tls_dur ≡ some max
    → pos 0 <ℤ min
    → claims.min_tls_dur ≡ none
    → claims.max_tls_dur ≡ none
    → claims.default_tls_dur ≡ some d
    → pos 0 <ℤ d
    → validate (record { global = global; claims = some claims }) ≡ some none
unfolding own own_or_global min_duration max_duration min_tls_cert_duration max_tls_cert_duration
    default_tls_cert_duration
validate-default_only global claims min max d gmin gmax above nomin nomax own_d positive =
    let (low, e, p, q) = lower_of_le d min positive above in
    let (high, f, r) = upper_of_le d max in
    (validate_exact (record { global = global; claims = some claims })).1 (
      low,
      high,
      d,
      rw (nomin, own_d, gmin) e,
      rw (nomax, own_d, gmax) f,
      rw own_d refl,
      record { positive = p; above = q; below = r },
    )
