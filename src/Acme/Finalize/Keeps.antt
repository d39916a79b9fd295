-- ===== src/Acme/Finalize/Keeps.antt =====
-- What `Order.Finalize` of acme/order.go leaves of the database.
use certificates.Base.{ℕ, List, Bytes, Outcome, ok, err, panic}
use certificates.Policy.Types.{External}
use certificates.Acme.Types.{
  Status, valid, invalid, pending, deactivated, ready, other, Error, Order,
}
use certificates.Acme.Db.{Db, Keeps}
use certificates.Acme.Order as Orders
use certificates.Acme.Order.Keeps as Kept
use certificates.Acme.Names.{CertificateRequest, canonicalize}
use certificates.Acme.Finalize.{Signer, signed, complete, store, by_status, after_update, finalize}

module _ {S : Type 0} (db : Db S) (x : External) (ca : Signer) (P : S → Type 0)
    (keeps : Keeps db P) where
  complete_keeps :
      (o : Order) (r : Outcome Error Bytes) (s : S) → P s → P (complete db x ca o r s).1
  unfolding complete Orders.save
  complete_keeps o (ok id) s h = keeps.update_order _ s h
  complete_keeps o (err e) s h = h
  complete_keeps o panic s h = h

  store_keeps :
      (o : Order) (r : Outcome Error (Bytes × List Bytes)) (s : S) → P s → P (store db x ca o r s).1
  unfolding store
  store_keeps o (ok (leaf, rest)) s h = complete_keeps o _ _ (keeps.create_certificate _ s h)
  store_keeps o (err e) s h = h
  store_keeps o panic s h = h

  by_status_keeps :
      (st : Status) (o : Order) (csr : CertificateRequest) (s : S)
      → P s
      → P (by_status db x ca st o csr s).1
  unfolding by_status
  by_status_keeps invalid o csr s h = h
  by_status_keeps valid o csr s h = h
  by_status_keeps pending o csr s h = h
  by_status_keeps ready o csr s h = store_keeps o (signed x ca o (canonicalize x csr)) s h
  by_status_keeps deactivated o csr s h = h
  by_status_keeps (other t) o csr s h = h

  after_update_keeps :
      (r : Outcome Error (Unit {0})) (o : Order) (csr : CertificateRequest) (s : S)
      → P s
      → P (after_update db x ca r o csr s).1
  unfolding after_update
  after_update_keeps (ok u) o csr s h = by_status_keeps o.status o csr s h
  after_update_keeps (err e) o csr s h = h
  after_update_keeps panic o csr s h = h

  pub finalize_keeps :
      (now : ℕ) (o : Order) (csr : CertificateRequest) (s : S)
      → P s
      → P (finalize db x ca now o csr s).1
  unfolding finalize
  finalize_keeps now o csr s h =
      let ran = Orders.update_status db now o s in
      after_update_keeps ran.0.1 ran.0.0 csr ran.1 (Kept.update_status_keeps db P keeps now o s h)
