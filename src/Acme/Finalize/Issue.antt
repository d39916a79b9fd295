-- ===== src/Acme/Finalize/Issue.antt =====
-- The branches of `Order.Finalize` of acme/order.go.
use certificates.Base.{ℕ, ◌≡◌, ◌⊎◌, inl, inr, refl, List, [], Bytes, arith, Outcome, ok, err, panic}
use certificates.Policy.Types.{External}
use certificates.Acme.Types.{
  Status, valid, invalid, pending, deactivated, ready, other, Error, problem, order_not_ready,
  Order,
}
use certificates.Acme.Db.{Db, Certificate}
use certificates.Acme.Order as Orders
use certificates.Acme.Names.{CertificateRequest, canonicalize}
use certificates.Acme.Finalize.{Signer, signed, complete, store, by_status, after_update, finalize}

module _ {S : Type 0} (db : Db S) (x : External) (ca : Signer) where
  -- The certificate record of an order and a chain.
  abbrev pub certificate_of : Order → Bytes → List Bytes → Certificate
  certificate_of o leaf rest = record {
    id = [];
    account_id = o.account_id;
    order_id = o.id;
    leaf = leaf;
    intermediates = rest;
  }

  -- A ready order `o`, with the database in the state `s`, was issued a certificate.
  pub record Issues (o : Order) (csr : CertificateRequest) (s : S) (o' : Order) (s' : S)
      : Type 0 where
    pub was_ready : o.status ≡ ready
    pub leaf : Bytes
    pub rest : List Bytes
    pub chain_signed : signed x ca o (canonicalize x csr) ≡ ok (leaf, rest)
    pub certificate_id : Bytes
    pub stored : S
    pub created : db.create_certificate (certificate_of o leaf rest) s ≡ (ok certificate_id, stored)
    pub order_written : o' ≡ record o { certificate_id = certificate_id; status = valid }
    pub updated : db.update_order o' stored ≡ (ok tt, s')

  abbrev finished : Order → Bytes → Order
  finished o id = record o { certificate_id = id; status = valid }

  save-ok :
      (nu : Order) (s s' : S) (o' : Order)
      → Orders.save db nu s ≡ ((o', ok tt), s')
      → (o' ≡ nu) × (db.update_order nu s ≡ (ok tt, s'))
  unfolding Orders.save
  save-ok nu s s' o' h = (ground arith, ground arith)

  complete-ok :
      (r : Outcome Error Bytes) (o : Order) (s s' : S) (o' : Order)
      → complete db x ca o r s ≡ ((o', ok tt), s')
      → (id : Bytes) × (r ≡ ok id)
        × (o' ≡ finished o id)
        × (db.update_order (finished o id) s ≡ (ok tt, s'))
  unfolding complete
  complete-ok (ok id) o s s' o' h =
      let (same, written) = save-ok (finished o id) s s' o' h in (id, refl, same, written)
  complete-ok (err e) o s s' o' h = absurd (ground arith)
  complete-ok panic o s s' o' h = absurd (ground arith)

  store-ok :
      (r : Outcome Error (Bytes × List Bytes)) (o : Order) (csr : CertificateRequest) (s s' : S)
      (o' : Order)
      → o.status ≡ ready
      → signed x ca o (canonicalize x csr) ≡ r
      → store db x ca o r s ≡ ((o', ok tt), s')
      → Issues o csr s o' s'
  unfolding store
  store-ok (ok (leaf, rest)) o csr s s' o' rdy e h =
      let made = db.create_certificate (certificate_of o leaf rest) s in
      let (id, created, written, updated) = complete-ok made.0 o made.1 s' o' h in
      record {
        was_ready = rdy;
        leaf = leaf;
        rest = rest;
        chain_signed = e;
        certificate_id = id;
        stored = made.1;
        created = ground arith;
        order_written = written;
        updated = rw written updated;
      }
  store-ok (err z) o csr s s' o' rdy e h = absurd (ground arith)
  store-ok panic o csr s s' o' rdy e h = absurd (ground arith)

  by_status-ok :
      (st : Status) (o : Order) (csr : CertificateRequest) (s s' : S) (o' : Order)
      → o.status ≡ st
      → by_status db x ca st o csr s ≡ ((o', ok tt), s')
      → ((o.status ≡ valid) × (o' ≡ o) × (s' ≡ s)) ⊎ Issues o csr s o' s'
  unfolding by_status
  by_status-ok valid o csr s s' o' e h = inl (e, ground arith, ground arith)
  by_status-ok ready o csr s s' o' e h = inr (store-ok _ o csr s s' o' e refl h)
  by_status-ok invalid o csr s s' o' e h = absurd (ground arith)
  by_status-ok pending o csr s s' o' e h = absurd (ground arith)
  by_status-ok deactivated o csr s s' o' e h = absurd (ground arith)
  by_status-ok (other t) o csr s s' o' e h = absurd (ground arith)

  after_update-ok :
      (r : Outcome Error (Unit {0})) (o : Order) (csr : CertificateRequest) (s s' : S) (o' : Order)
      → after_update db x ca r o csr s ≡ ((o', ok tt), s')
      → (r ≡ ok tt) × (((o.status ≡ valid) × (o' ≡ o) × (s' ≡ s)) ⊎ Issues o csr s o' s')
  unfolding after_update
  after_update-ok (ok tt) o csr s s' o' h = (refl, by_status-ok o.status o csr s s' o' refl h)
  after_update-ok (err e) o csr s s' o' h = absurd (ground arith)
  after_update-ok panic o csr s s' o' h = absurd (ground arith)

  -- Where `Finalize` returns nil, `UpdateStatus` returned nil, and then either the order was valid
  -- and neither it nor the database changed any more, or the order was ready: the chain was
  -- signed for the canonical request, its certificate was stored, and the order was written as
  -- valid with the identifier of that certificate.
  pub finalize-ok :
      (now : ℕ) (o : Order) (csr : CertificateRequest) (s s' : S) (o' : Order)
      → finalize db x ca now o csr s ≡ ((o', ok tt), s')
      → (o1 : Order) × (s1 : S) × (Orders.update_status db now o s ≡ ((o1, ok tt), s1))
        × (((o1.status ≡ valid) × (o' ≡ o1) × (s' ≡ s1)) ⊎ Issues o1 csr s1 o' s')
  unfolding finalize
  finalize-ok now o csr s s' o' h =
      let ran = Orders.update_status db now o s in
      let (fine, way) = after_update-ok ran.0.1 ran.0.0 csr ran.1 s' o' h in
      (ran.0.0, ran.1, ground arith, way)

  -- Where `UpdateStatus` returns nil and leaves the order pending or invalid, `Finalize` does
  -- nothing more: the order and the database stay as `UpdateStatus` left them, and the error is
  -- that the order is not ready.
  pub finalize-not_ready :
      (now : ℕ) (o o1 : Order) (csr : CertificateRequest) (s s1 : S)
      → Orders.update_status db now o s ≡ ((o1, ok tt), s1)
      → (o1.status ≡ pending) ⊎ (o1.status ≡ invalid)
      → finalize db x ca now o csr s ≡ ((o1, err (problem order_not_ready)), s1)
  unfolding finalize
  finalize-not_ready now o o1 csr s s1 e (inl st) = rw (e, st, after_update, by_status)
  finalize-not_ready now o o1 csr s s1 e (inr st) = rw (e, st, after_update, by_status)
