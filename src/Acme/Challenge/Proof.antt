-- ===== src/Acme/Challenge/Proof.antt =====
-- What makes a challenge of acme/challenge.go valid.
use certificates.Base.{
  ◌<◌, ◌≡◌, ◌≢◌, ◌⊎◌, inl, inr, refl, ◌∙◌, ap, Bool, true, false, Option, none, some, List, [], ◌∷◌,
  ◌++◌, codes, Bytes, arith, trim_space, bytes_eq, bytes_eq_iff, Outcome, ok, Bool-cases, leb,
  if◌then◌else◌, ◌==◌,
}
use certificates.Policy.Types.{External}
use certificates.Policy.Dedupe.{has_key}
use certificates.Acme.Types.{
  Status, valid, pending, invalid, ready, deactivated, other, Error, Problem, ChallengeType, http01,
  dns01, tlsalpn01, deviceattest01, unknown, Challenge, rejected_identifier, connection,
  dns_problem,
}
use certificates.Acme.Db.{Db}
use certificates.Acme.Challenge.Evidence.{
  Listed, has_key-Listed, TxtDomain, txt_domain-TxtDomain, Host, http01_challenge_host-Host,
  NamesOnly, leaf_matches-NamesOnly, Carries, has_proof-Carries, IsKey, key_authorization-IsKey,
}
use certificates.Acme.Challenge.{
  Response, PeerCertificate, Dialed, connected, failed, Client, http01_challenge_host, http01_path,
  txt_domain, acme_protocol, key_authorization, write, store_error, passed, without_key, http_body,
  http_reply, http01_validate, dns_records, dns01_validate, leaf_matches, has_proof, tls_leaf,
  tls_dialed, tlsalpn01_validate, by_type, is_pending, validate_challenge,
}

module _ {S : Type 0} (db : Db S) (x : External) (net : Client) where
  -- The answer from the network that proves the control of the identifier of a challenge.
  pub data Proof (ch : Challenge) (key : Bytes) : ChallengeType → Type 0 where
    over_http :
        (host body : Bytes) (r : Response)
        → Host x ch.value host
        → net.get host (codes "/.well-known/acme-challenge/" ++ ch.token) ≡ some r
        → r.code < 400
        → r.body ≡ some body
        → trim_space body ≡ key
        → Proof ch key http01
    over_dns :
        (domain : Bytes) (records : List Bytes)
        → TxtDomain ch.value domain
        → net.lookup_txt domain ≡ some records
        → Listed records (net.base64 (net.sha256 key))
        → Proof ch key dns01
    over_tls :
        (leaf : PeerCertificate) (certs : List PeerCertificate)
        → net.tls_dial ch.value ≡ connected (leaf ∷ certs) acme_protocol
        → NamesOnly x leaf ch.value
        → Carries db x net (net.sha256 key) leaf.extensions
        → Proof ch key tlsalpn01

  -- The challenge was proved by the key authorization, and was written as valid.
  abbrev pub IsProved : ChallengeType → Challenge → S → Challenge → S → Type 0
  IsProved t ch s ch' s' =
      (key : Bytes) × IsKey db x net ch.token key
      × Proof ch key t
      × (ch' ≡ record ch { status = valid; error = none; validated_at = net.now_text })
      × (db.update_challenge ch' s ≡ (ok tt, s'))

  write-ok :
      (nu : Challenge) (s s' : S) (ch' : Challenge)
      → write db x net nu s ≡ ((ch', ok tt), s')
      → (ch' ≡ nu) × (db.update_challenge ch' s ≡ (ok tt, s'))
  unfolding write
  write-ok nu s s' ch' h = (ground arith, ground arith)

  store_error-not_valid :
      (mark : Bool) (p : Problem) (ch : Challenge) (s s' : S) (ch' : Challenge)
      → ch.status ≡ pending
      → store_error db x net mark p ch s ≡ ((ch', ok tt), s')
      → ch'.status ≢ valid
  unfolding store_error
  store_error-not_valid true p ch s s' ch' e h =
      let (same, w) = write-ok (record ch { error = some p; status = invalid }) s s' ch' h in
      λ v. absurd (cc (same, v))
  store_error-not_valid false p ch s s' ch' e h =
      let (same, w) = write-ok (record ch { error = some p }) s s' ch' h in
      λ v. absurd (cc (same, v, e))

  -- A test that passes writes the challenge as valid; one that fails does not leave it valid.
  tested :
      (test mark : Bool) (p : Problem) (ch : Challenge) (s s' : S) (ch' : Challenge)
      → ch.status ≡ pending
      → (if test then write db x net (passed db x net ch) s else store_error db x net mark p ch s)
        ≡ ((ch', ok tt), s')
      → ch'.status ≡ valid
      → (test ≡ true) × (ch' ≡ passed db x net ch) × (db.update_challenge ch' s ≡ (ok tt, s'))
  tested true mark p ch s s' ch' e h v =
      let (same, w) = write-ok (passed db x net ch) s s' ch' h in (refl, same, w)
  tested false mark p ch s s' ch' e h v = absurd (store_error-not_valid mark p ch s s' ch' e h v)

  http_reply-IsProved :
      (r : Option Response) (ch : Challenge) (s s' : S) (ch' : Challenge)
      → net.get (http01_challenge_host x ch.value) (http01_path ch.token) ≡ r
      → ch.status ≡ pending
      → http_reply db x net r ch s ≡ ((ch', ok tt), s')
      → ch'.status ≡ valid
      → IsProved http01 ch s ch' s'
  unfolding http_reply http_body without_key
  http_reply-IsProved none ch s s' ch' g e h v =
      absurd (store_error-not_valid false connection ch s s' ch' e h v)
  http_reply-IsProved (some r) ch s s' ch' g e h v = elim (Bool-cases (leb 400 r.code)) [
    | inl late ↦ absurd (store_error-not_valid false connection ch s s' ch' e (rw late at h) v)
    | inr fine ↦
        body r.body (key_authorization db x net ch.token) (ground arith) refl refl (rw fine at h)
  ]
    where
      body :
          (b k : Option Bytes)
          → r.code < 400
          → r.body ≡ b
          → key_authorization db x net ch.token ≡ k
          → http_body db x net b k ch s ≡ ((ch', ok tt), s')
          → IsProved http01 ch s ch' s'
      body none k low p q h' = absurd (cc)
      body (some b) none low p q h' = absurd (cc)
      body (some b) (some k) low p q h' =
          let (test, same, w) =
            tested (bytes_eq (trim_space b) k) true rejected_identifier ch s s' ch' e h' v in
          (
            k,
            key_authorization-IsKey db x net ch.token k q,
            over_http (http01_challenge_host x ch.value) b r (http01_challenge_host-Host x ch.value)
                g low p ((bytes_eq_iff (trim_space b) k).0 test),
            same,
            w,
          )

  dns_records-IsProved :
      (records : Option (List Bytes)) (key : Option Bytes) (ch : Challenge) (s s' : S)
      (ch' : Challenge)
      → net.lookup_txt (txt_domain ch.value) ≡ records
      → key_authorization db x net ch.token ≡ key
      → ch.status ≡ pending
      → dns_records db x net records key ch s ≡ ((ch', ok tt), s')
      → ch'.status ≡ valid
      → IsProved dns01 ch s ch' s'
  unfolding dns_records without_key
  dns_records-IsProved none key ch s s' ch' g q e h v =
      absurd (store_error-not_valid false dns_problem ch s s' ch' e h v)
  dns_records-IsProved (some records) none ch s s' ch' g q e h v = absurd (cc)
  dns_records-IsProved (some records) (some key) ch s s' ch' g q e h v =
      let (test, same, w) =
        tested (has_key records (net.base64 (net.sha256 key))) false rejected_identifier ch s s' ch'
          e h v in
      (
        key,
        key_authorization-IsKey db x net ch.token key q,
        over_dns (txt_domain ch.value) records (txt_domain-TxtDomain ch.value) g
            (has_key-Listed records (net.base64 (net.sha256 key)) test),
        same,
        w,
      )

  tls_leaf-IsProved :
      (leaf : PeerCertificate) (certs : List PeerCertificate) (key : Option Bytes) (ch : Challenge)
      (s s' : S) (ch' : Challenge)
      → net.tls_dial ch.value ≡ connected (leaf ∷ certs) acme_protocol
      → key_authorization db x net ch.token ≡ key
      → leaf_matches db x net leaf ch.value ≡ true
      → ch.status ≡ pending
      → tls_leaf db x net leaf key ch s ≡ ((ch', ok tt), s')
      → ch'.status ≡ valid
      → IsProved tlsalpn01 ch s ch' s'
  unfolding tls_leaf without_key
  tls_leaf-IsProved leaf certs none ch s s' ch' g q m e h v = absurd (ground arith)
  tls_leaf-IsProved leaf certs (some key) ch s s' ch' g q m e h v =
      let (test, same, w) =
        tested (has_proof db x net (net.sha256 key) leaf.extensions) true rejected_identifier ch s
          s' ch' e (rw m at h) v in
      (
        key,
        key_authorization-IsKey db x net ch.token key q,
        over_tls leaf certs g (leaf_matches-NamesOnly db x net leaf ch.value m)
            (has_proof-Carries db x net (net.sha256 key) leaf.extensions test),
        same,
        w,
      )

  tls_dialed-IsProved :
      (d : Dialed) (ch : Challenge) (s s' : S) (ch' : Challenge)
      → net.tls_dial ch.value ≡ d
      → ch.status ≡ pending
      → tls_dialed db x net d ch s ≡ ((ch', ok tt), s')
      → ch'.status ≡ valid
      → IsProved tlsalpn01 ch s ch' s'
  unfolding tls_dialed tls_leaf
  tls_dialed-IsProved (failed alert) ch s s' ch' g e h v = elim (Bool-cases (alert == 120)) [
    | inl a ↦ absurd (store_error-not_valid true rejected_identifier ch s s' ch' e (rw a at h) v)
    | inr a ↦ absurd (store_error-not_valid false connection ch s s' ch' e (rw a at h) v)
  ]
  tls_dialed-IsProved (connected [] protocol) ch s s' ch' g e h v =
      absurd (store_error-not_valid true rejected_identifier ch s s' ch' e h v)
  tls_dialed-IsProved (connected (leaf ∷ certs) protocol) ch s s' ch' g e h v =
      elim (Bool-cases (bytes_eq protocol acme_protocol)) [
        | inr apart ↦
            absurd (store_error-not_valid true rejected_identifier ch s s' ch' e (rw apart at h) v)
        | inl agreed ↦ elim (Bool-cases (leaf_matches db x net leaf ch.value)) [
          | inl m ↦
              tls_leaf-IsProved leaf certs (key_authorization db x net ch.token) ch s s' ch'
                (g ∙ ap (connected (leaf ∷ certs)) ((bytes_eq_iff protocol acme_protocol).0 agreed))
                refl m e (rw agreed at h) v
          | inr m ↦ absurd (
              store_error-not_valid true rejected_identifier ch s s' ch' e
                (rw (agreed, tls_leaf, m) at h) v)
        ]
      ]

  by_type-IsProved :
      (device : Challenge → S → (Challenge × Outcome Error (Unit {0})) × S) (t : ChallengeType)
      (ch : Challenge) (s s' : S) (ch' : Challenge)
      → ch.type ≡ t
      → ch.status ≡ pending
      → by_type db x net device t ch s ≡ ((ch', ok tt), s')
      → ch'.status ≡ valid
      → (t ≡ deviceattest01) ⊎ IsProved t ch s ch' s'
  unfolding by_type http01_validate dns01_validate tlsalpn01_validate
  by_type-IsProved device http01 ch s s' ch' k e h v =
      inr (http_reply-IsProved _ ch s s' ch' refl e h v)
  by_type-IsProved device dns01 ch s s' ch' k e h v =
      inr (dns_records-IsProved _ _ ch s s' ch' refl refl e h v)
  by_type-IsProved device tlsalpn01 ch s s' ch' k e h v =
      inr (tls_dialed-IsProved _ ch s s' ch' refl e h v)
  by_type-IsProved device deviceattest01 ch s s' ch' k e h v = inl refl
  by_type-IsProved device (unknown t) ch s s' ch' k e h v = absurd (cc)

  by_status-IsProved :
      (st : Status) (device : Challenge → S → (Challenge × Outcome Error (Unit {0})) × S)
      (ch : Challenge) (s s' : S) (ch' : Challenge)
      → ch.status ≡ st
      → (if is_pending db x net st then by_type db x net device ch.type ch s else ((ch, ok tt), s))
        ≡ ((ch', ok tt), s')
      → ch'.status ≡ valid
      → ((ch.status ≡ valid) × (ch' ≡ ch) × (s' ≡ s))
        ⊎ ((ch.status ≡ pending) × ((ch.type ≡ deviceattest01) ⊎ IsProved ch.type ch s ch' s'))
  unfolding is_pending
  by_status-IsProved pending device ch s s' ch' e h v =
      inr (e, by_type-IsProved device ch.type ch s s' ch' refl e h v)
  by_status-IsProved valid device ch s s' ch' e h v = inl (e, ground arith, ground arith)
  by_status-IsProved invalid device ch s s' ch' e h v = absurd (cc)
  by_status-IsProved deactivated device ch s s' ch' e h v = absurd (cc)
  by_status-IsProved ready device ch s s' ch' e h v = absurd (cc)
  by_status-IsProved (other t) device ch s s' ch' e h v = absurd (cc)

  -- Where `Validate` returns nil and leaves the challenge valid, either the challenge was valid and
  -- nothing changed, or it was pending, and then unless it is of type device-attest-01 the network
  -- gave the proof of its type. The key authorization is the token, a dot and the thumbprint. The
  -- proof is the key authorization as the trimmed body of an HTTP answer below 400 from the well-known
  -- path of the host; or its encoded hash among the TXT records of the domain, without the `*.` of a
  -- wildcard; or an acme-tls/1 connection whose leaf has the identifier as its only DNS name, or no
  -- DNS name and the identifier as its only address, and whose first acme extension is critical and
  -- holds the octets of the hash and nothing else. The challenge was written as valid, without an
  -- error and with the time.
  pub validate_challenge-IsProved :
      (device : Challenge → S → (Challenge × Outcome Error (Unit {0})) × S) (ch : Challenge)
      (s s' : S) (ch' : Challenge)
      → validate_challenge db x net device ch s ≡ ((ch', ok tt), s')
      → ch'.status ≡ valid
      → ((ch.status ≡ valid) × (ch' ≡ ch) × (s' ≡ s))
        ⊎ ((ch.status ≡ pending) × ((ch.type ≡ deviceattest01) ⊎ IsProved ch.type ch s ch' s'))
  unfolding validate_challenge
  validate_challenge-IsProved device ch s s' ch' h v =
      by_status-IsProved ch.status device ch s s' ch' refl h v
