-- ===== src/Policy/Entry/Agree.antt =====
-- The exported checks of policy/engine.go beside one another.
use certificates.Base.{
  ℕ, ◌≡◌, ◌↔◌, ◌⊎◌, inl, inr, false, List, [], ◌∷◌, Bytes, ◌==◌, All, All-map, arith, ok,
  Bool-cases,
}
use certificates.Policy.Types.{Ip, Names, External}
use certificates.Policy.Engine.{NamePolicyEngine, check_dns, check_ip, validate_names}
use certificates.Policy.Engine.Exact.{Accepts, validate_names_exact}
use certificates.Policy.Entry.{is_dns_allowed, is_ip_allowed}

abbrev only_dns : Bytes → Names
only_dns d = record { dns_names = d ∷ []; ips = []; email_addresses = []; uris = [] }

abbrev only_ip : Ip → Names
only_ip i = record { dns_names = []; ips = i ∷ []; email_addresses = []; uris = [] }

abbrev pub hosts : List Bytes → List Ip → Names
hosts dns_names ips = record { dns_names = dns_names; ips = ips; email_addresses = []; uris = [] }

accept-All : {A : Type 0} (P : A → Type 0) (all : (a : A) → P a) (names : List A) → All P names
accept-All P all [] = tt
accept-All P all (a ∷ names) = (all a, accept-All P all names)

-- Under constraints, what a name alone needs is its check.
checked : {n : ℕ} {P : Type 0} → (n == 0) ≡ false → (n ≡ 0) ⊎ P → P
checked z (inl e) = absurd (ground arith)
checked z (inr p) = p

module _ (x : External) (e : NamePolicyEngine) where
  is_dns_allowed_iff :
      (d : Bytes)
      → (is_dns_allowed x e d ≡ ok tt)
        ↔ ((e.total_number_of_constraints ≡ 0) ⊎ (check_dns x e d ≡ ok tt))
  unfolding is_dns_allowed
  is_dns_allowed_iff d =
      let exact = validate_names_exact x e (only_dns d) [] in
      (
        (λ h. elim (exact.0 h) [ inl z ↦ inl z | inr a ↦ inr a.dns_ok.0 ]),
        elim [
          | inl z ↦ exact.1 (inl z)
          | inr c ↦ exact.1 (
              inr (record {
                dns_ok = (c, tt);
                ips_ok = tt;
                emails_ok = tt;
                uris_ok = tt;
                principals_ok = tt;
              }))
        ],
      )

  is_ip_allowed_iff :
      (i : Ip)
      → (is_ip_allowed x e i ≡ ok tt)
        ↔ ((e.total_number_of_constraints ≡ 0) ⊎ (check_ip x e i ≡ ok tt))
  unfolding is_ip_allowed
  is_ip_allowed_iff i =
      let exact = validate_names_exact x e (only_ip i) [] in
      (
        (λ h. elim (exact.0 h) [ inl z ↦ inl z | inr a ↦ inr a.ips_ok.0 ]),
        elim [
          | inl z ↦ exact.1 (inl z)
          | inr c ↦ exact.1 (
              inr (record {
                dns_ok = tt;
                ips_ok = (c, tt);
                emails_ok = tt;
                uris_ok = tt;
                principals_ok = tt;
              }))
        ],
      )

  -- A list of names of only DNS names and addresses is let through exactly when each name is let
  -- through on its own by `IsDNSAllowed` or `IsIPAllowed`.
  pub validate_names-single :
      (dns_names : List Bytes) (ips : List Ip)
      → (validate_names x e (hosts dns_names ips) [] ≡ ok tt)
        ↔ (Accepts (is_dns_allowed x e) dns_names × Accepts (is_ip_allowed x e) ips)
  validate_names-single dns_names ips =
      let exact = validate_names_exact x e (hosts dns_names ips) [] in
      (
        (λ h. elim (exact.0 h) [
          | inl z ↦ (
            accept-All (λ d. is_dns_allowed x e d ≡ ok tt) (λ d. (is_dns_allowed_iff d).1 (inl z))
                dns_names,
            accept-All (λ i. is_ip_allowed x e i ≡ ok tt) (λ i. (is_ip_allowed_iff i).1 (inl z))
                ips,
          )
          | inr a ↦ (
            All-map (λ d. check_dns x e d ≡ ok tt) (λ d. is_dns_allowed x e d ≡ ok tt)
                (λ d c. (is_dns_allowed_iff d).1 (inr c)) dns_names a.dns_ok,
            All-map (λ i. check_ip x e i ≡ ok tt) (λ i. is_ip_allowed x e i ≡ ok tt)
                (λ i c. (is_ip_allowed_iff i).1 (inr c)) ips a.ips_ok,
          )
        ]),
        λ (ds, is). elim (Bool-cases (e.total_number_of_constraints == 0)) [
          | inl z ↦ exact.1 (inl (ground arith))
          | inr z ↦ exact.1 (
              inr (record {
                dns_ok =
                    All-map (λ d. is_dns_allowed x e d ≡ ok tt) (λ d. check_dns x e d ≡ ok tt)
                      (λ d h. checked z ((is_dns_allowed_iff d).0 h)) dns_names ds;
                ips_ok =
                    All-map (λ i. is_ip_allowed x e i ≡ ok tt) (λ i. check_ip x e i ≡ ok tt)
                      (λ i h. checked z ((is_ip_allowed_iff i).0 h)) ips is;
                emails_ok = tt;
                uris_ok = tt;
                principals_ok = tt;
              }))
        ],
      )
