-- ===== src/Acme/Finalize.antt =====
-- `Order.Finalize` of acme/order.go. The object comes back beside the error.
pub mod Keeps
pub mod Issue
use certificates.Base.{
  ℕ, Bool, true, false, Option, none, some, List, [], ◌∷◌, Bytes, is_empty, if◌then◌else◌, Outcome,
  ok, err, panic, ◌>>=◌,
}
use certificates.Policy.Types.{External}
use certificates.Acme.Types.{
  Status, valid, invalid, pending, ready, IdentifierType, ip, dns, permanent_identifier,
  unsupported, Identifier, Error, problem, order_not_ready, server_internal, wrapped, wrap_ise,
  Order,
}
use certificates.Acme.Db.{Db, Certificate}
use certificates.Acme.Order as Orders
use certificates.Acme.Names.{CertificateRequest, canonicalize}
use certificates.Acme.Sans.{San, permanent_san, sans}

-- What is handed to `auth.Sign`: the request, the names of the template data, the permanent
-- identifier that was attested, and the validity.
pub record SignRequest : Type 0 where
  pub csr : CertificateRequest
  pub names : List San
  pub attested : Option Bytes
  pub not_before : ℕ
  pub not_after : ℕ

-- The provisioner and the certificate authority. A signed chain has a leaf.
pub record Signer : Type 0 where
  pub authorize_sign : Outcome Error (Unit {0})
  pub template_options : SignRequest → Outcome Error (Unit {0})
  pub sign : SignRequest → Outcome Error (Bytes × List Bytes)

pid_of : IdentifierType → Bytes → Option Bytes
pid_of permanent_identifier value = some value
pid_of _ value = none

-- The value of the first permanent identifier, or the empty text.
unfoldable pub permanent_identifier_of : List Identifier → Bytes
unfolding pid_of
permanent_identifier_of [] = []
permanent_identifier_of (i ∷ ids) = elim (pid_of i.type i.value) [
  | some value ↦ value
  | none ↦ permanent_identifier_of ids
]

unfoldable pub sign_request : External → Order → CertificateRequest → Outcome Error SignRequest
sign_request x o csr =
    let pid = permanent_identifier_of o.identifiers in
    if is_empty pid
    then (do
      names ← sans x o csr
      ok (record {
        csr = csr;
        names = names;
        attested = none;
        not_before = o.not_before;
        not_after = o.not_after;
      }))
    else ok (record {
      csr = csr;
      names = permanent_san pid ∷ [];
      attested = some pid;
      not_before = o.not_before;
      not_after = o.not_after;
    })

-- From the canonical request to the signed chain.
unfoldable pub signed :
    External → Signer → Order → CertificateRequest → Outcome Error (Bytes × List Bytes)
signed x ca o csr = do
  request ← sign_request x o csr
  u ← wrapped ca.authorize_sign
  v ← wrapped (ca.template_options request)
  wrapped (ca.sign request)

module _ {S : Type 0} (db : Db S) (x : External) (ca : Signer) where
  abbrev Result : Type 0
  Result = (Order × Outcome Error (Unit {0})) × S

  -- The order that has its certificate is written.
  complete : Order → Outcome Error Bytes → S → Result
  complete o (ok id) s = Orders.save db (record o { certificate_id = id; status = valid }) s
  complete o (err e) s = ((o, err (wrap_ise e)), s)
  complete o panic s = ((o, panic), s)

  -- The certificate is stored.
  store : Order → Outcome Error (Bytes × List Bytes) → S → Result
  unfolding complete
  store o (ok (leaf, rest)) s =
      let (r, s') =
        db.create_certificate
          (record {
            id = [];
            account_id = o.account_id;
            order_id = o.id;
            leaf = leaf;
            intermediates = rest;
          })
          s in
      complete o r s'
  store o (err e) s = ((o, err e), s)
  store o panic s = ((o, panic), s)

  by_status : Status → Order → CertificateRequest → S → Result
  unfolding store
  by_status invalid o csr s = ((o, err (problem order_not_ready)), s)
  by_status valid o csr s = ((o, ok tt), s)
  by_status pending o csr s = ((o, err (problem order_not_ready)), s)
  by_status ready o csr s = store o (signed x ca o (canonicalize x csr)) s
  by_status _ o csr s = ((o, err (problem server_internal)), s)

  after_update : Outcome Error (Unit {0}) → Order → CertificateRequest → S → Result
  unfolding by_status
  after_update (ok u) o csr s = by_status o.status o csr s
  after_update (err e) o csr s = ((o, err e), s)
  after_update panic o csr s = ((o, panic), s)

  unfoldable pub finalize : ℕ → Order → CertificateRequest → S → Result
  unfolding after_update
  finalize now o csr s =
      let ((o', r), s') = Orders.update_status db now o s in after_update r o' csr s'
