-- ===== src/Acme/Nosql/Certs/RoundTrip.antt =====
-- Certificates that were stored and are loaded again: CreateCertificate, GetCertificate,
-- GetCertificateBySerial and parseBundle of acme/db/nosql/certificate.go.
use certificates.Base.{
  ◌≡◌, refl, ◌∙◌, subst, ℕ, zero, suc, ◌≤◌, some, none, List, [], ◌∷◌, ◌++◌, All, length,
  length-append, Bytes, bytes_eq, ok, arith,
}
use certificates.Acme.Db.{Certificate}
use certificates.Acme.Nosql.{
  DbCert, found, Row, cert_row, serial_row, Kv, cert_table, cert_by_serial_table, save,
}
use certificates.Acme.Nosql.Laws.{KvLaws, save-Saved, then-eq-ok}
use certificates.Acme.Nosql.Certs.{
  X509, certificate_type, pem, pem_all, parse_block, parse_blocks, parse_bundle, create_certificate,
  get_certificate, get_certificate_by_serial,
}

-- What encoding/pem documents: the text of a block is not empty, and a text that starts with it
-- decodes to the block and the rest.
pub record PemLaws (x : X509) : Type 0 where
  pub encoded : (raw : Bytes) → ¬ (pem x raw ≡ [])
  pub decoded_first :
      (raw rest : Bytes)
      → x.decode (pem x raw ++ rest)
        ≡ (some (record { type = certificate_type; bytes = raw }), rest)

-- crypto/x509 parses the certificate, and its raw bytes are those that were parsed.
abbrev pub Parses : X509 → Bytes → Type 0
Parses x raw = x.parse raw ≡ some raw

append-eq-nil_left : (xs ys : Bytes) → xs ++ ys ≡ [] → xs ≡ []
append-eq-nil_left [] ys h = refl
append-eq-nil_left (a ∷ xs) ys h = cc

positive : (xs : Bytes) → ¬ (xs ≡ []) → 1 ≤ length xs
positive [] h = absurd (h refl)
positive (a ∷ xs) h = omega arith

abbrev pub new_cert : X509 → Bytes → ℕ → Certificate → DbCert
new_cert x id now cert = record {
  id = id;
  created_at = now;
  account_id = cert.account_id;
  order_id = cert.order_id;
  leaf = pem x cert.leaf;
  intermediates = pem_all x cert.intermediates;
}

module _ (x : X509) (pem_laws : PemLaws x) where
  pub parse_block_pem :
      (raw : Bytes)
      → Parses x raw
      → parse_block x (record { type = certificate_type; bytes = raw }) ≡ ok raw
  unfolding parse_block bytes_eq
  parse_block_pem raw h = rw h

  -- One round on the text of a certificate.
  pub parse_blocks-pem :
      (fuel : ℕ) (raw : Bytes) (rest : Bytes) (crts : List Bytes)
      → Parses x raw
      → parse_blocks x fuel rest ≡ ok crts
      → parse_blocks x (suc fuel) (pem x raw ++ rest) ≡ ok (raw ∷ crts)
  unfolding parse_blocks parse_block bytes_eq
  parse_blocks-pem fuel raw rest crts h ih = go (pem x raw ++ rest) refl
    where
      go : (b : Bytes) → pem x raw ++ rest ≡ b → parse_blocks x (suc fuel) b ≡ ok (raw ∷ crts)
      go [] e = absurd (pem_laws.encoded raw (append-eq-nil_left (pem x raw) rest e))
      go (c ∷ cs) e =
          let d : x.decode (c ∷ cs)
              ≡ (some (record { type = certificate_type; bytes = raw }), rest) =
            subst (λ b. x.decode b ≡ (some (record { type = certificate_type; bytes = raw }), rest))
              e (pem_laws.decoded_first raw rest) in
          ground (arith, d, h, ih)

  pub parse_blocks-pem_all :
      (fuel : ℕ) (raws : List Bytes)
      → length raws ≤ fuel
      → All (Parses x) raws
      → parse_blocks x fuel (pem_all x raws) ≡ ok raws
  unfolding parse_blocks
  parse_blocks-pem_all fuel [] h a = refl
  parse_blocks-pem_all zero (raw ∷ raws) h a = absurd (omega arith)
  parse_blocks-pem_all (suc fuel) (raw ∷ raws) h a =
      parse_blocks-pem fuel raw (pem_all x raws) raws a.0
        (parse_blocks-pem_all fuel raws (omega arith) a.1)

  pub length-pem_all : (raws : List Bytes) → length raws ≤ length (pem_all x raws)
  length-pem_all [] = omega arith
  length-pem_all (raw ∷ raws) =
      let one : 1 ≤ length (pem x raw) = positive (pem x raw) (pem_laws.encoded raw) in
      omega (arith, length-append (pem x raw) (pem_all x raws), length-pem_all raws)

  pub parse_bundle-pem_all :
      (raws : List Bytes) → All (Parses x) raws → parse_bundle x (pem_all x raws) ≡ ok raws
  unfolding parse_bundle
  parse_bundle-pem_all raws a =
      parse_blocks-pem_all (length (pem_all x raws)) raws (length-pem_all raws) a

module _ {S : Type 0} (kv : Kv S) (x : X509) (laws : KvLaws kv) (pem_laws : PemLaws x) where
  pub get_certificate-found :
      (id : Bytes) (now : ℕ) (cert : Certificate) (s : S)
      → All (Parses x) (cert.leaf ∷ cert.intermediates)
      → kv.get cert_table id s ≡ found (cert_row (new_cert x id now cert))
      → get_certificate kv x id s ≡ ok (record cert { id = id })
  unfolding get_certificate
  get_certificate-found id now cert s a h =
      rw (h, parse_bundle-pem_all x pem_laws (cert.leaf ∷ cert.intermediates) a)

  -- A creation of a certificate under a new identifier that returns nil, where the package x509 parses
  -- each certificate of the chain as itself: both the identifier that came back and the serial
  -- number of the leaf load the certificate with its identifier set and its whole chain in order.
  pub create_certificate-get_certificate :
      (now : ℕ) (id id' : Bytes) (cert : Certificate) (s s' : S)
      → All (Parses x) (cert.leaf ∷ cert.intermediates)
      → create_certificate kv x now (some id) cert s ≡ (ok id', s')
      → (id' ≡ id)
        × (get_certificate kv x id s' ≡ ok (record cert { id = id }))
        × (get_certificate_by_serial kv x (x.serial cert.leaf) s' ≡ ok (record cert { id = id }))
  unfolding create_certificate get_certificate_by_serial bytes_eq
  create_certificate-get_certificate now id id' cert s s' a h =
      let serial = x.serial cert.leaf in
      let row : Row = serial_row (record { serial = serial; certificate_id = id }) in
      let (_, s1, e1, f1) =
        then-eq-ok (save kv cert_table id (some (cert_row (new_cert x id now cert))) none s) _ h in
      let (_, s2, e2, f2) =
        then-eq-ok (save kv cert_by_serial_table serial (some row) none s1) _ f1 in
      let at1 = save-Saved kv laws cert_table id (cert_row (new_cert x id now cert)) none s s1 e1 in
      let at2 = save-Saved kv laws cert_by_serial_table serial row none s1 s2 e2 in
      let same : s2 ≡ s' = ground arith in
      let back : get_certificate kv x id s' ≡ ok (record cert { id = id }) =
        get_certificate-found id now cert s' a (
          subst (λ t. kv.get cert_table id t ≡ found (cert_row (new_cert x id now cert))) same
            (at2.others cert_table id refl ∙ at1.now_is)) in
      let entry : kv.get cert_by_serial_table serial s' ≡ found row =
        subst (λ t. kv.get cert_by_serial_table serial t ≡ found row) same at2.now_is in
      (ground arith, back, rw entry back)
