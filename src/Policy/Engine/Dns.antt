-- ===== src/Policy/Engine/Dns.antt =====
-- The DNS names that `validateNames` of policy/validate.go lets through.
use certificates.Base.{
  ◌≡◌, ◌≢◌, ◌↔◌, ◌⊎◌, inl, inr, refl, false, some, List, [], ◌∷◌, Bytes, ◌==◌, All, arith, ok,
  Bool-cases, Option-cases, has_prefix,
}
use certificates.Policy.Labels.{domain_to_reverse_labels}
use certificates.Policy.Labels.Exact.{IsLabel, Spells, domain_to_reverse_labels_exact}
use certificates.Policy.Types.{dns, External}
use certificates.Policy.Matching.{wildcard_prefix, match_domain_constraint}
use certificates.Policy.Constraints.Exact.{Passes, check_name_constraints_exact}
use certificates.Policy.Engine.{
  NamePolicyEngine, implicitly_denied, dns_to_ascii, check_parsed_dns, check_dns,
}

-- The ASCII form of a name: that of the whole name, or of a wildcard a `*` and the ASCII form of what
-- stands behind its `*`.
pub data IsAscii (x : External) (name ascii : Bytes) : Type 0 where
  of_wildcard :
      (rest a : Bytes)
      → name ≡ b'*' ∷ b'.' ∷ rest
      → x.idna_lookup_to_ascii (b'.' ∷ rest) ≡ some a
      → ascii ≡ b'*' ∷ a
      → IsAscii x name ascii
  of_name :
      ¬ ((rest : Bytes) × (name ≡ b'*' ∷ b'.' ∷ rest))
      → x.idna_lookup_to_ascii name ≡ some ascii
      → IsAscii x name ascii

-- Whether a name begins with `*.`.
wildcard-cases :
    (name : Bytes)
    → ((rest : Bytes) × (name ≡ b'*' ∷ b'.' ∷ rest))
      ⊎ ((has_prefix name wildcard_prefix ≡ false)
          × ¬ ((rest : Bytes) × (name ≡ b'*' ∷ b'.' ∷ rest)))
unfolding has_prefix
wildcard-cases [] = inr (refl, λ (r, e). cc)
wildcard-cases (a ∷ []) = inr (ground arith, λ (r, e). cc)
wildcard-cases (a ∷ b ∷ rest) = elim (Bool-cases (has_prefix (a ∷ b ∷ rest) wildcard_prefix)) [
  | inl e ↦ inl (rest, ground arith)
  | inr e ↦ inr (e, λ (r, f). ground arith)
]

module _ (x : External) (e : NamePolicyEngine) where
  pub dns_to_ascii-IsAscii :
      (name ascii : Bytes) → dns_to_ascii x e name ≡ some ascii → IsAscii x name ascii
  unfolding dns_to_ascii has_prefix
  dns_to_ascii-IsAscii name ascii h = elim (wildcard-cases name) [
    | inl (rest, w) ↦
        let h' : dns_to_ascii x e (b'*' ∷ b'.' ∷ rest) ≡ some ascii = rw w at h in
        elim (Option-cases (x.idna_lookup_to_ascii (b'.' ∷ rest))) [
          | inl n ↦ absurd (ground arith)
          | inr (a, n) ↦ IsAscii.of_wildcard rest a w n (ground arith)
        ]
    | inr (p, w) ↦ IsAscii.of_name w (rw (p, dns_to_ascii) at h)
  ]

  pub IsAscii-dns_to_ascii :
      (name ascii : Bytes) → IsAscii x name ascii → dns_to_ascii x e name ≡ some ascii
  unfolding dns_to_ascii has_prefix
  IsAscii-dns_to_ascii name ascii (of_wildcard rest a w n made) = rw (w, n, made)
  IsAscii-dns_to_ascii name ascii (of_name w n) = elim (wildcard-cases name) [
    | inl wild ↦ absurd (w wild)
    | inr (p, w') ↦ rw (p, dns_to_ascii) n
  ]

  -- There are DNS constraints, or no constraint of any kind permits names.
  abbrev pub MayBeNamed : Type 0
  MayBeNamed =
      (e.number_of_dns_domain_constraints ≢ 0) ⊎ (e.total_number_of_permitted_constraints ≡ 0)

  -- What `validateNames` asks of one DNS name.
  pub record DnsAccepted (name : Bytes) : Type 0 where
    pub may_be_named : MayBeNamed
    pub ascii : Bytes
    pub is_ascii : IsAscii x name ascii
    pub labels : List Bytes
    pub are_labels : All IsLabel labels
    pub spelt : Spells ascii labels
    pub passes :
        Passes dns name
          (match_domain_constraint e.allow_literal_wildcard_names ascii)
          e.permitted_dns_domains
          e.excluded_dns_domains

  denied-MayBeNamed : (implicitly_denied e e.number_of_dns_domain_constraints ≡ false) ↔ MayBeNamed
  denied-MayBeNamed = (
    (λ h. elim (Bool-cases (e.number_of_dns_domain_constraints == 0)) [
      | inl z ↦ inr (ground arith)
      | inr z ↦ inl (λ k. ground arith)
    ]),
    elim [ inl n ↦ ground arith | inr t ↦ ground arith ],
  )

  pub check_dns_sound : (name : Bytes) → check_dns x e name ≡ ok tt → DnsAccepted name
  unfolding check_dns check_parsed_dns
  check_dns_sound name h = elim (Option-cases (dns_to_ascii x e name)) [
    | inl z ↦ absurd (ground arith)
    | inr (ascii, z) ↦ elim (Option-cases (domain_to_reverse_labels ascii)) [
      | inl y ↦ absurd (ground arith)
      | inr (ls, y) ↦
          let (are_labels, spelt) = (domain_to_reverse_labels_exact ascii ls).0 y in
          record {
            may_be_named = denied-MayBeNamed.0 (ground arith);
            ascii = ascii;
            is_ascii = dns_to_ascii-IsAscii name ascii z;
            labels = ls;
            are_labels = are_labels;
            spelt = spelt;
            passes =
                (check_name_constraints_exact dns name
                    (match_domain_constraint e.allow_literal_wildcard_names ascii)
                    e.permitted_dns_domains e.excluded_dns_domains).0
                  (ground arith);
          }
    ]
  ]

  pub check_dns_complete : (name : Bytes) → DnsAccepted name → check_dns x e name ≡ ok tt
  unfolding check_dns check_parsed_dns
  check_dns_complete name a =
      rw
        (
          denied-MayBeNamed.1 a.may_be_named,
          IsAscii-dns_to_ascii name a.ascii a.is_ascii,
          check_parsed_dns,
          (domain_to_reverse_labels_exact a.ascii a.labels).1 (a.are_labels, a.spelt),
        )
        ((check_name_constraints_exact dns name
            (match_domain_constraint e.allow_literal_wildcard_names a.ascii) e.permitted_dns_domains
            e.excluded_dns_domains).1
          a.passes)
