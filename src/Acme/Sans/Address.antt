-- ===== src/Acme/Sans/Address.antt =====
-- `x.Equal(y)` of package net, which `ipsAreEqual` of acme/order.go and the tls-alpn-01 validation
-- of acme/challenge.go call.
use certificates.Base.{
  ℕ, zero, suc, subst, ◌≡◌, ◌≢◌, ◌↔◌, ◌⊎◌, inl, inr, refl, sym, ap, ap₂, ◌∙◌, true, ◌&&◌, some,
  none, [], ◌∷◌, ◌++◌, Bytes, ◌==◌, ==_refl, length, take, drop, arith, Bool-cases, bytes_eq,
  bytes_eq_iff, bytes_eq_refl,
}
use certificates.Policy.Types.{External, Ip}
use certificates.Policy.Network.{v4_in_v6_prefix}
use certificates.Acme.Sans.{ip_equal, ips_are_equal}

-- The address that a text is parsed as, which is nil where the text is none.
abbrev pub Parses : External → Bytes → Ip → Type 0
Parses x value v = (x.parse_ip value ≡ some v) ⊎ ((x.parse_ip value ≡ none) × (v ≡ []))

-- The addresses are the same bytes, or one is an IPv4 address and the other is the same address
-- mapped into IPv6.
abbrev pub SameAddress : Ip → Ip → Type 0
SameAddress a b =
    (a ≡ b)
    ⊎ ((length a ≡ 4) × (b ≡ v4_in_v6_prefix ++ a))
    ⊎ ((length b ≡ 4) × (a ≡ v4_in_v6_prefix ++ b))

take-drop : (n : ℕ) (s : Bytes) → take n s ++ drop n s ≡ s
take-drop zero s = refl
take-drop (suc n) [] = refl
take-drop (suc n) (c ∷ s) = ap (λ (t : Bytes). c ∷ t) (take-drop n s)

-- The mapped form of an IPv4 address, by the two halves that are compared.
halves :
    (a b : Ip)
    → bytes_eq (take 12 b) v4_in_v6_prefix ≡ true
    → bytes_eq a (drop 12 b) ≡ true
    → b ≡ v4_in_v6_prefix ++ a
halves a b h k =
    sym (take-drop 12 b)
    ∙ ap₂ (λ (p q : Bytes). p ++ q) ((bytes_eq_iff (take 12 b) v4_in_v6_prefix).0 h)
        (sym ((bytes_eq_iff a (drop 12 b)).0 k))

module _ (x : External) where
  ip_equal_sound : (a b : Ip) → ip_equal x a b ≡ true → SameAddress a b
  unfolding ip_equal
  ip_equal_sound a b h = elim (Bool-cases (length a == length b)) [
    | inl e ↦ inl ((bytes_eq_iff a b).0 (rw (e, ip_equal) at h))
    | inr e ↦ elim (Bool-cases (length a == 4 && length b == 16)) [
      | inl v ↦
          let h' : (bytes_eq (take 12 b) v4_in_v6_prefix && bytes_eq a (drop 12 b)) ≡ true =
            rw (e, v, ip_equal) at h in
          inr (inl (ground arith, halves a b (ground arith) (ground arith)))
      | inr v ↦ elim (Bool-cases (length a == 16 && length b == 4)) [
        | inl w ↦
            let h' : (bytes_eq (take 12 a) v4_in_v6_prefix && bytes_eq (drop 12 a) b) ≡ true =
              rw (e, v, w, ip_equal) at h in
            let tail : drop 12 a ≡ b = (bytes_eq_iff (drop 12 a) b).0 (ground arith) in
            inr (
              inr (
                ground arith,
                halves b a (ground arith) ((bytes_eq_iff b (drop 12 a)).1 (sym tail)),
              ))
        | inr w ↦ absurd (ground arith)
      ]
    ]
  ]

  ip_equal-mapped : (a : Ip) → length a ≡ 4 → ip_equal x a (v4_in_v6_prefix ++ a) ≡ true
  unfolding ip_equal
  ip_equal-mapped a h = rw (h, bytes_eq_refl v4_in_v6_prefix, bytes_eq_refl a)

  mapped-ip_equal : (a : Ip) → length a ≡ 4 → ip_equal x (v4_in_v6_prefix ++ a) a ≡ true
  unfolding ip_equal
  mapped-ip_equal a h = rw (h, bytes_eq_refl v4_in_v6_prefix, bytes_eq_refl a)

  ip_equal-same : (a : Ip) → ip_equal x a a ≡ true
  unfolding ip_equal
  ip_equal-same a = rw (==_refl (length a), bytes_eq_refl a)

  pub ip_equal_iff : (a b : Ip) → (ip_equal x a b ≡ true) ↔ SameAddress a b
  ip_equal_iff a b = (
    ip_equal_sound a b,
    elim [
      | inl e ↦ subst (λ c. ip_equal x a c ≡ true) e (ip_equal-same a)
      | inr (inl (n, e)) ↦ subst (λ c. ip_equal x a c ≡ true) (sym e) (ip_equal-mapped a n)
      | inr (inr (n, e)) ↦ subst (λ c. ip_equal x c b ≡ true) (sym e) (mapped-ip_equal b n)
    ],
  )

  -- Two addresses that are not nil and are the same.
  abbrev pub AreEqual : Ip → Ip → Type 0
  AreEqual a b = (a ≢ []) × (b ≢ []) × SameAddress a b

  pub ips_are_equal_iff : (a b : Ip) → (ips_are_equal x a b ≡ true) ↔ AreEqual a b
  unfolding ips_are_equal
  ips_are_equal_iff [] b = ((λ h. absurd (ground arith)), λ h. absurd (h.0 refl))
  ips_are_equal_iff (c ∷ a) [] = ((λ h. absurd (ground arith)), λ (p, q, r). absurd (q refl))
  ips_are_equal_iff (c ∷ a) (d ∷ b) = (
    (λ h. ((λ e. cc), (λ e. cc), (ip_equal_iff (c ∷ a) (d ∷ b)).0 h)),
    λ (p, q, r). (ip_equal_iff (c ∷ a) (d ∷ b)).1 r,
  )
