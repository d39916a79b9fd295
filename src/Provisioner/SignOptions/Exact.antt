-- ===== src/Provisioner/SignOptions/Exact.antt =====
-- defaultSANsValidator of authority/provisioner/sign_options.go against the names that it was made of.
use certificates.Base.{
  ◌≡◌, refl, sym, ◌∙◌, subst, ◌⊎◌, inl, inr, ◌↔◌, true, Bool-cases, &&-eq-true, List, [], ◌∷◌, map,
  Bytes, bytes_eq, bytes_eq_iff, bytes_eq_refl, ok, seq-eq-ok, arith,
}
use certificates.Policy.Types.{External, Url}
use certificates.Policy.Dedupe.{has_key}
use certificates.Acme.Names.{CertificateRequest}
use certificates.Acme.Names.Unique.{SameKeys}
use certificates.Provisioner.SignOptions.{all_in, deep_equal, names_match, default_sans}

all_in-has_key :
    (l m : List Bytes) (k : Bytes) → all_in l m ≡ true → has_key l k ≡ true → has_key m k ≡ true
unfolding all_in has_key
all_in-has_key [] m k h e = absurd cc
all_in-has_key (a ∷ l) m k h e = elim (Bool-cases (bytes_eq a k)) [
  | inl same ↦
      subst (λ b. has_key m b ≡ true) ((bytes_eq_iff a k).0 same)
        (&&-eq-true (has_key m a) (all_in l m) h).0
  | inr other ↦ all_in-has_key l m k (&&-eq-true (has_key m a) (all_in l m) h).1 (ground arith)
]

has_key-all_in :
    (l m : List Bytes) → ((k : Bytes) → has_key l k ≡ true → has_key m k ≡ true) → all_in l m ≡ true
unfolding all_in has_key
has_key-all_in [] m h = refl
has_key-all_in (a ∷ l) m h =
    let here = h a (ground (arith, bytes_eq_refl a)) in
    let rest = has_key-all_in l m (λ k e. h k (ground arith)) in ground arith

deep_equal_iff : (want got : List Bytes) → (deep_equal want got ≡ true) ↔ SameKeys want got
unfolding deep_equal
deep_equal_iff want got = (
  (λ h k.
      let (there, back) = &&-eq-true (all_in want got) (all_in got want) h in
      elim (Bool-cases (has_key want k)) [
        | inl e ↦ e ∙ sym (all_in-has_key want got k there e)
        | inr e ↦ elim (Bool-cases (has_key got k)) [
          | inl g ↦ absurd (let w = all_in-has_key got want k back g in cc)
          | inr g ↦ e ∙ sym g
        ]
      ]),
  λ same.
      let there = has_key-all_in want got (λ k e. sym (same k) ∙ e) in
      let back = has_key-all_in got want (λ k e. same k ∙ e) in ground arith,
)

-- No name of a kind was requested, or those that were wanted.
abbrev pub Match : List Bytes → List Bytes → Type 0
Match want got = (got ≡ []) ⊎ SameKeys want got

names_match_iff : (want got : List Bytes) → (names_match want got ≡ ok tt) ↔ Match want got
unfolding names_match
names_match_iff want [] = ((λ h. inl refl), λ m. refl)
names_match_iff want (g ∷ got) = (
  (λ h. inr ((deep_equal_iff want (g ∷ got)).0 (ground arith))),
  λ m. elim m [
    | inl e ↦ absurd cc
    | inr same ↦ ground (arith, (deep_equal_iff want (g ∷ got)).1 same)
  ],
)

module _ (x : External) where
  -- What the validator asks of each kind of name.
  pub record Matches (v : List Bytes) (req : CertificateRequest) : Type 0 where
    pub dns_match : Match (x.split_sans v).dns_names req.dns_names
    pub emails_match : Match (x.split_sans v).email_addresses req.email_addresses
    pub ips_match : Match (map x.ip_string (x.split_sans v).ips) (map x.ip_string req.ip_addresses)
    pub uris_match : Match (map (λ (u : Url). u.string) (x.split_sans v).uris) req.uris

  -- A validator for subject alternative names accepts a request if and only if, for the DNS names, the
  -- email addresses, the texts of the IP addresses and the URIs each, the request has none of the kind
  -- or exactly the wanted ones, in any order and number.
  pub default_sans_exact :
      (v : List Bytes) (req : CertificateRequest) → (default_sans x v req ≡ ok tt) ↔ Matches v req
  unfolding default_sans
  default_sans_exact v req = (
    (λ h.
        let (d, h1) = seq-eq-ok (names_match _ _) _ h in
        let (e, h2) = seq-eq-ok (names_match _ _) _ h1 in
        let (i, u) = seq-eq-ok (names_match _ _) _ h2 in
        record {
          dns_match = (names_match_iff _ _).0 d;
          emails_match = (names_match_iff _ _).0 e;
          ips_match = (names_match_iff _ _).0 i;
          uris_match = (names_match_iff _ _).0 u;
        }),
    λ m. rw (
      (names_match_iff _ _).1 m.dns_match,
      (names_match_iff _ _).1 m.emails_match,
      (names_match_iff _ _).1 m.ips_match,
      (names_match_iff _ _).1 m.uris_match,
    ),
  )
