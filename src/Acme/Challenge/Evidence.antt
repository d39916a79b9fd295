-- ===== src/Acme/Challenge/Evidence.antt =====
-- What the validations of acme/challenge.go look for in the answers from the network.
use mathlib.Core.Bool.{false≢true}
use certificates.Base.{
  ◌≡◌, inl, inr, refl, sym, ap, ◌∙◌, true, Option, none, some, List, [], ◌∷◌, ◌++◌, Bytes, codes,
  All, arith, bytes_eq, bytes_eq_iff, equal_fold, is_empty, has_prefix, if◌then◌else◌, Bool-cases,
  Option-cases, to_lower,
}
use certificates.Policy.Types.{External, Ip}
use certificates.Policy.Network.{to4}
use certificates.Policy.Dedupe.{has_key}
use certificates.Acme.Db.{Db}
use certificates.Acme.Sans.Address.{Parses, SameAddress, ip_equal_iff}
use certificates.Acme.Challenge.{
  Extension, PeerCertificate, Client, is_v6, http01_challenge_host, txt_domain, acme_identifier,
  key_authorization, ip_matches, name_matches, leaf_matches, octets_match, has_proof,
}

-- The text stands in the list.
abbrev pub Listed : List Bytes → Bytes → Type 0
Listed l k = (before after : List Bytes) × (l ≡ before ++ k ∷ after)

pub has_key-Listed : (l : List Bytes) (k : Bytes) → has_key l k ≡ true → Listed l k
unfolding has_key
has_key-Listed [] k h = absurd (ground arith)
has_key-Listed (j ∷ l) k h = elim (Bool-cases (bytes_eq j k)) [
  | inl e ↦ ([], l, ap (λ (t : Bytes). t ∷ l) ((bytes_eq_iff j k).0 e))
  | inr e ↦
      let (before, after, split) = has_key-Listed l k (rw (e, has_key) at h) in
      (j ∷ before, after, ap (λ (t : List Bytes). j ∷ t) split)
]

-- The domain of the TXT records: that of the challenge without the `*.` of a wildcard.
pub data TxtDomain (value domain : Bytes) : Type 0 where
  of_wildcard :
      (rest : Bytes)
      → value ≡ b'*' ∷ b'.' ∷ rest
      → domain ≡ codes "_acme-challenge." ++ rest
      → TxtDomain value domain
  of_name :
      ¬ ((rest : Bytes) × (value ≡ b'*' ∷ b'.' ∷ rest))
      → domain ≡ codes "_acme-challenge." ++ value
      → TxtDomain value domain

pub txt_domain-TxtDomain : (value : Bytes) → TxtDomain value (txt_domain value)
unfolding has_prefix
txt_domain-TxtDomain [] = TxtDomain.of_name (λ (r, e). cc) refl
txt_domain-TxtDomain (a ∷ []) = TxtDomain.of_name (λ (r, e). cc) (ground arith)
txt_domain-TxtDomain (a ∷ b ∷ rest) = elim (Bool-cases (has_prefix (a ∷ b ∷ rest) (codes "*."))) [
  | inl e ↦ TxtDomain.of_wildcard rest (ground arith) (rw e refl)
  | inr e ↦ TxtDomain.of_name (λ (r, f). ground arith) (rw e refl)
]

module _ (x : External) where
  -- The host that is asked: an address that is not an IPv4 address stands in brackets.
  pub data Host (value host : Bytes) : Type 0 where
    bracketed :
        (ip : Ip)
        → x.parse_ip value ≡ some ip
        → to4 ip ≡ none
        → host ≡ b'[' ∷ (value ++ b']' ∷ [])
        → Host value host
    plain :
        ¬ ((ip : Ip) × (x.parse_ip value ≡ some ip) × (to4 ip ≡ none))
        → host ≡ value
        → Host value host

  pub http01_challenge_host-Host : (value : Bytes) → Host value (http01_challenge_host x value)
  unfolding http01_challenge_host is_v6
  http01_challenge_host-Host value = elim (Option-cases (x.parse_ip value)) [
    | inl e ↦ Host.plain (λ (ip, f, g). ground arith) (rw (e, http01_challenge_host) refl)
    | inr (ip, e) ↦ elim (Option-cases (to4 ip)) [
      | inl f ↦ Host.bracketed ip e f (rw (e, http01_challenge_host, is_v6, f) refl)
      | inr (v4, f) ↦
          Host.plain (λ (i, g, h). ground arith) (rw (e, http01_challenge_host, is_v6, f) refl)
    ]
  ]

  -- The leaf names the value and nothing else: its one DNS name, up to the case, or its one address.
  pub data NamesOnly (leaf : PeerCertificate) (value : Bytes) : Type 0 where
    by_name :
        (name : Bytes)
        → leaf.dns_names ≡ name ∷ []
        → to_lower name ≡ to_lower value
        → NamesOnly leaf value
    by_address :
        (ip v : Ip)
        → leaf.dns_names ≡ []
        → leaf.ip_addresses ≡ ip ∷ []
        → Parses x value v
        → SameAddress ip v
        → NamesOnly leaf value

module _ {S : Type 0} (db : Db S) (x : External) (net : Client) where
  pub leaf_matches-NamesOnly :
      (leaf : PeerCertificate) (value : Bytes)
      → leaf_matches db x net leaf value ≡ true
      → NamesOnly x leaf value
  unfolding leaf_matches bytes_eq equal_fold
  leaf_matches-NamesOnly leaf value h =
      go leaf.dns_names leaf.ip_addresses (x.parse_ip value) refl refl refl
        (unfold leaf_matches in h)
    where
      go :
          (names : List Bytes) (ips : List Ip) (parsed : Option Ip)
          → leaf.dns_names ≡ names
          → leaf.ip_addresses ≡ ips
          → x.parse_ip value ≡ parsed
          → (if is_empty names
              then ip_matches db x net ips parsed
              else name_matches db x net names value)
            ≡ true
          → NamesOnly x leaf value
      go [] [] p d i e t = absurd (unfold ip_matches in ground arith)
      go [] (ip ∷ []) none d i e t =
          NamesOnly.by_address ip [] d i (inr (e, refl)) ((ip_equal_iff x ip []).0 t)
      go [] (ip ∷ []) (some v) d i e t =
          NamesOnly.by_address ip v d i (inl e) ((ip_equal_iff x ip v).0 t)
      go [] (ip ∷ j ∷ ips) p d i e t = absurd (ground arith)
      go (name ∷ []) ips p d i e t =
          NamesOnly.by_name name d ((bytes_eq_iff (to_lower name) (to_lower value)).0 t)
      go (name ∷ n ∷ names) ips p d i e t = absurd (ground arith)

  -- The first acme extension is critical, and its value is the octets of the hash and nothing else.
  pub record Carries (hash : Bytes) (exts : List Extension) : Type 0 where
    pub before : List Extension
    pub ext : Extension
    pub after : List Extension
    pub split : exts ≡ before ++ ext ∷ after
    pub others : All (λ e. ¬ (e.id ≡ acme_identifier)) before
    pub is_acme : ext.id ≡ acme_identifier
    pub is_critical : ext.critical ≡ true
    pub octets : net.asn1_octets ext.value ≡ some (hash, [])

  octets_match-some :
      (hash : Bytes) (o : Option (Bytes × Bytes))
      → octets_match db x net hash o ≡ true
      → o ≡ some (hash, [])
  unfolding octets_match
  octets_match-some hash none h = absurd (ground arith)
  octets_match-some hash (some (v, [])) h =
      ap (λ (t : Bytes). some (t, [])) (sym ((bytes_eq_iff hash v).0 h))
  octets_match-some hash (some (v, c ∷ rest)) h = absurd (ground arith)

  pub has_proof-Carries :
      (hash : Bytes) (exts : List Extension)
      → has_proof db x net hash exts ≡ true
      → Carries hash exts
  unfolding has_proof
  has_proof-Carries hash [] h = absurd (ground arith)
  has_proof-Carries hash (ext ∷ exts) h = elim (Bool-cases (bytes_eq acme_identifier ext.id)) [
    | inl e ↦ record {
      before = [];
      ext = ext;
      after = exts;
      split = refl;
      others = tt;
      is_acme = sym ((bytes_eq_iff acme_identifier ext.id).0 e);
      is_critical = ground arith;
      octets = octets_match-some hash (net.asn1_octets ext.value) (ground arith);
    }
    | inr e ↦
        let c = has_proof-Carries hash exts (rw (e, has_proof) at h) in
        record {
          before = ext ∷ c.before;
          ext = c.ext;
          after = c.after;
          split = ap (λ (l : List Extension). ext ∷ l) c.split;
          others = (
            (λ same.
                absurd (false≢true (sym e ∙ (bytes_eq_iff acme_identifier ext.id).1 (sym same)))),
            c.others,
          );
          is_acme = c.is_acme;
          is_critical = c.is_critical;
          octets = c.octets;
        }
  ]

  -- The key authorization: the token, a dot and the thumbprint of the account key.
  abbrev pub IsKey : Bytes → Bytes → Type 0
  IsKey token key =
      (print : Bytes) × (net.encoded_thumbprint ≡ some print) × (key ≡ token ++ b'.' ∷ print)

  pub key_authorization-IsKey :
      (token key : Bytes) → key_authorization db x net token ≡ some key → IsKey token key
  unfolding key_authorization
  key_authorization-IsKey token key h = elim (Option-cases net.encoded_thumbprint) [
    | inl e ↦ absurd (ground arith)
    | inr (print, e) ↦ (print, e, ground arith)
  ]
