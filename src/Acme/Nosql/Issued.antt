-- ===== src/Acme/Nosql/Issued.antt =====
-- Order.Finalize of acme/order.go over the tables of acme/db/nosql/: the order and the certificate
-- that are loaded after it.
use certificates.Base.{
  ℕ, ◌≡◌, refl, sym, ◌∙◌, ap, ap₂, subst, ◌⊎◌, inl, inr, All, some, List, ◌∷◌, Bytes, bytes_eq,
  Outcome, ok, err, panic, arith, bind-eq-ok,
}
use certificates.Policy.Types.{External}
use certificates.Acme.Types.{Error, Order, valid, wrapped}
use certificates.Acme.Db.{Db, Certificate}
use certificates.Acme.Order as Orders
use certificates.Acme.Order.Keeps as OrderKept
use certificates.Acme.Names.{CertificateRequest, canonicalize}
use certificates.Acme.Finalize.{Signer, SignRequest, signed, sign_request, finalize}
use certificates.Acme.Finalize.Issue.{Issues, certificate_of, finalize-ok}
use certificates.Acme.Nosql.{Kv, cert_table}
use certificates.Acme.Nosql.Laws.{KvLaws}
use certificates.Acme.Nosql.WellFormed.{WellFormed}
use certificates.Acme.Nosql.Certs.{X509, create_certificate, get_certificate}
use certificates.Acme.Nosql.Certs.RoundTrip.{PemLaws, Parses, create_certificate-get_certificate}
use certificates.Acme.Nosql.Orders.{nosql_db, get_order}
use certificates.Acme.Nosql.Orders.Keyed.{nosql_db-Keeps}
use certificates.Acme.Nosql.Orders.Updated.{update_order-get_order}
use certificates.Acme.Nosql.Tables.{create_certificate-WellFormed}

module _ {S : Type 0} (kv : Kv S) (x509 : X509) where
  -- The order and the certificate that are loaded are those of an issuance.
  pub record Stored (o : Order) (id : Bytes) (s : S) : Type 0 where
    pub order : Order
    pub order_loaded : get_order kv o.id s ≡ ok order
    pub order_valid : order.status ≡ valid
    pub order_certificate : order.certificate_id ≡ id
    pub certificate : Certificate
    pub certificate_loaded : get_certificate kv x509 id s ≡ ok certificate
    pub certificate_order : certificate.order_id ≡ o.id
    pub certificate_account : certificate.account_id ≡ o.account_id

module _ (x509 : X509) (ca : Signer) where
  -- Every chain that the authority signs is of certificates that parse.
  abbrev pub SignsX509 : Type 0
  SignsX509 =
      (request : SignRequest) (leaf : Bytes) (rest : List Bytes)
      → ca.sign request ≡ ok (leaf, rest)
      → All (Parses x509) (leaf ∷ rest)

wrapped-ok : {A : Type 0} (m : Outcome Error A) (a : A) → wrapped m ≡ ok a → m ≡ ok a
wrapped-ok (ok b) a h = h
wrapped-ok (err e) a h = absurd (ground arith)
wrapped-ok panic a h = absurd (ground arith)

-- The database of a call in which a certificate gets an identifier.
abbrev pub db_at : {S : Type 0} → Kv S → X509 → ℕ → Bytes → Db S
db_at kv x509 now id = nosql_db kv (create_certificate kv x509 now (some id))

module _ {S : Type 0} (kv : Kv S) (laws : KvLaws kv) (x509 : X509) (pem_laws : PemLaws x509)
    (x : External) (ca : Signer) where
  signed-Parses :
      SignsX509 x509 ca
      → (o : Order) (csr : CertificateRequest) (leaf : Bytes) (rest : List Bytes)
      → signed x ca o csr ≡ ok (leaf, rest)
      → All (Parses x509) (leaf ∷ rest)
  unfolding signed
  signed-Parses signs o csr leaf rest h =
      let (request, _, h1) = bind-eq-ok (sign_request x o csr) _ h in
      let (_, _, h2) = bind-eq-ok (wrapped ca.authorize_sign) _ h1 in
      let (_, _, h3) = bind-eq-ok (wrapped (ca.template_options request)) _ h2 in
      signs request leaf rest (wrapped-ok (ca.sign request) (leaf, rest) h3)

  get_certificate-same :
      (id : Bytes) (s t : S)
      → kv.get cert_table id s ≡ kv.get cert_table id t
      → get_certificate kv x509 id s ≡ get_certificate kv x509 id t
  unfolding get_certificate
  get_certificate-same id s t h = rw h

  Issues-Stored :
      SignsX509 x509 ca
      → (now : ℕ) (id : Bytes) (o1 o' : Order) (csr : CertificateRequest) (s1 s' : S)
      → WellFormed kv s1
      → Issues (db_at kv x509 now id) x ca o1 csr s1 o' s'
      → Stored kv x509 o' id s'
  unfolding bytes_eq
  Issues-Stored signs now id o1 o' csr s1 s' wf i =
      let cert = certificate_of (db_at kv x509 now id) x ca o1 i.leaf i.rest in
      let parsed = signed-Parses signs o1 (canonicalize x csr) i.leaf i.rest i.chain_signed in
      let (id_is, back, _) =
        create_certificate-get_certificate kv x509 laws pem_laws now id i.certificate_id cert s1
          i.stored parsed i.created in
      let wf2 =
        subst (WellFormed kv) (ap (λ r. r.1) i.created)
          (create_certificate-WellFormed kv laws x509 now (some id) cert s1 wf) in
      let (was, _, loaded_now, others) =
        update_order-get_order kv laws o' i.stored s' wf2 i.updated in
      let status_is : o'.status ≡ valid = ap (λ (o : Order). o.status) i.order_written in
      let id_written : o'.certificate_id ≡ i.certificate_id =
        ap (λ (o : Order). o.certificate_id) i.order_written in
      record {
        order = record was {
          status = o'.status;
          error = o'.error;
          certificate_id = o'.certificate_id;
        };
        order_loaded = loaded_now;
        order_valid = status_is;
        order_certificate = id_written ∙ id_is;
        certificate = record cert { id = id };
        certificate_loaded = get_certificate-same id s' i.stored (others cert_table id refl) ∙ back;
        certificate_order = ap (λ (o : Order). o.id) (sym i.order_written);
        certificate_account = ap (λ (o : Order). o.account_id) (sym i.order_written);
      }

  -- Over tables in which each row stands at its identifier, where the authority signs chains of
  -- certificates that parse, a `Finalize` that returns nil either found the order valid, or left the
  -- order and its certificate stored: the order loads as valid with the certificate's identifier, and
  -- that identifier loads a certificate of this order and its account.
  pub finalize-Stored :
      SignsX509 x509 ca
      → (now : ℕ) (id : Bytes) (o o' : Order) (csr : CertificateRequest) (s s' : S)
      → WellFormed kv s
      → finalize (db_at kv x509 now id) x ca now o csr s ≡ ((o', ok tt), s')
      → ((o'.status ≡ valid)
          × (Orders.update_status (db_at kv x509 now id) now o s ≡ ((o', ok tt), s')))
        ⊎ Stored kv x509 o' id s'
  finalize-Stored signs now id o o' csr s s' wf h =
      let (o1, s1, ran, way) = finalize-ok (db_at kv x509 now id) x ca now o csr s s' o' h in
      let wf1 : WellFormed kv s1 = subst (WellFormed kv) (ap (λ r. r.1) ran) (
        OrderKept.update_status_keeps (db_at kv x509 now id) (WellFormed kv)
          (nosql_db-Keeps kv laws x509 now (some id)) now o s wf) in
      elim way [
        | inl (is_valid, o_is, s_is) ↦
            inl (rw o_is is_valid, ran ∙ ap₂ (λ o t. ((o, ok tt), t)) (sym o_is) (sym s_is))
        | inr issues ↦ inr (Issues-Stored signs now id o1 o' csr s1 s' wf1 issues)
      ]
