-- ===== src/Acme/Nosql/Certs.antt =====
-- acme/db/nosql/certificate.go. A certificate is its raw bytes. The packages encoding/pem and
-- crypto/x509 are the record `X509`. The random identifier is an argument, `none` where there is
-- none.
pub mod RoundTrip
use certificates.Base.{
  ℕ, zero, suc, ◌<◌, Bool, true, false, Option, some, none, List, [], ◌∷◌, ◌++◌, Bytes, codes,
  length, bytes_eq, if◌then◌else◌, Outcome, ok, err, panic, ◌>>=◌,
}
use certificates.Acme.Types.{Error, problem, malformed, plain}
use certificates.Acme.Db.{Action, Certificate}
use certificates.Acme.Nosql.{
  DbCert, DbSerial, Row, cert_row, serial_row, cert_table, cert_by_serial_table, Got, decoded,
  loaded, Kv, save, ◌>=>◌,
}

-- pem.Block without headers.
pub record Block : Type 0 where
  pub type : Bytes
  pub bytes : Bytes

-- pem.EncodeToMemory, pem.Decode with the block and the rest, x509.ParseCertificate, and the text of
-- a serial number.
pub record X509 : Type 0 where
  pub encode : Block → Bytes
  pub decode : Bytes → Option Block × Bytes
  pub parse : Bytes → Option Bytes
  pub serial : Bytes → Bytes

abbrev pub certificate_type : Bytes
certificate_type = codes "CERTIFICATE"

abbrev pub read_cert : Row → Option DbCert
read_cert (cert_row c) = some c
read_cert _ = none

abbrev pub read_serial : Row → Option DbSerial
read_serial (serial_row r) = some r
read_serial _ = none

module _ (x : X509) where
  abbrev pub pem : Bytes → Bytes
  pem raw = x.encode (record { type = certificate_type; bytes = raw })

  -- The loop that encodes the intermediates.
  abbrev pub pem_all : List Bytes → Bytes
  pem_all [] = []
  pem_all (raw ∷ raws) = pem raw ++ pem_all raws

  -- One block of a bundle.
  unfoldable pub parse_block : Block → Outcome Error Bytes
  parse_block block =
      if bytes_eq block.type certificate_type
      then elim (x.parse block.bytes) [ some crt ↦ ok crt | none ↦ err plain ]
      else err plain

  -- The loop; without a block the rest of the data is an error.
  unfoldable pub parse_blocks : ℕ → Bytes → Outcome Error (List Bytes)
  parse_blocks fuel [] = ok []
  parse_blocks zero (b ∷ bs) = err plain
  parse_blocks (suc fuel) (b ∷ bs) =
      let (block, rest) = x.decode (b ∷ bs) in
      let crts = parse_blocks fuel rest in
      elim block [
        | none ↦ elim rest [ [] ↦ ok [] | c ∷ cs ↦ err plain ]
        | some bl ↦ parse_block bl >>= λ crt. (crts >>= λ list. ok (crt ∷ list))
      ]

  -- Every block takes at least one byte, so the length is enough fuel.
  unfoldable pub parse_bundle : Bytes → Outcome Error (List Bytes)
  parse_bundle b = parse_blocks (length b) b

  -- certs[0] and certs[1:]
  abbrev pub certificate_from : DbCert → List Bytes → Outcome Error Certificate
  certificate_from dbc [] = panic
  certificate_from dbc (leaf ∷ intermediates) = ok (record {
    id = dbc.id;
    account_id = dbc.account_id;
    order_id = dbc.order_id;
    leaf = leaf;
    intermediates = intermediates;
  })

module _ {S : Type 0} (kv : Kv S) (x : X509) where
  -- The identifier, which is set in the certificate, comes back.
  unfoldable pub create_certificate : ℕ → Option Bytes → Certificate → Action S Bytes
  create_certificate now none cert s = (err plain, s)
  create_certificate now (some id) cert s =
      save kv cert_table id
        (some (
          cert_row (record {
            id = id;
            created_at = now;
            account_id = cert.account_id;
            order_id = cert.order_id;
            leaf = pem x cert.leaf;
            intermediates = pem_all x cert.intermediates;
          })))
        none s
      >=> λ u s1.
          save kv cert_by_serial_table (x.serial cert.leaf)
            (some (serial_row (record { serial = x.serial cert.leaf; certificate_id = id }))) none
            s1
          >=> λ u s2. (ok id, s2)

  unfoldable pub get_certificate : Bytes → S → Outcome Error Certificate
  get_certificate id s =
      loaded (problem malformed) (decoded read_cert (kv.get cert_table id s)) >>= λ dbc.
      (parse_bundle x (dbc.leaf ++ dbc.intermediates) >>= λ certs. certificate_from x dbc certs)

  unfoldable pub get_certificate_by_serial : Bytes → S → Outcome Error Certificate
  get_certificate_by_serial serial s =
      loaded (problem malformed) (decoded read_serial (kv.get cert_by_serial_table serial s))
      >>= λ r. get_certificate r.certificate_id s
