-- ===== src/Acme/Api/Owned.antt =====
-- `GetOrder` and `FinalizeOrder` of acme/api/order.go: only the account and the provisioner of an
-- order reach it.
use certificates.Base.{
  ℕ, ◌≡◌, ◌≢◌, refl, sym, ap, ◌∙◌, ◌⊎◌, inl, inr, Bool-cases, Bytes, bytes_eq, bytes_eq_iff,
  if◌then◌else◌, Outcome, ok, err, panic, ◌>>=◌, bind-eq-ok, ok-injective, subst, ap₂, arith,
}
use certificates.Policy.Types.{External}
use certificates.Acme.Types.{Error, problem, unauthorized, wrapped, Order}
use certificates.Acme.Account.{Account}
use certificates.Acme.Names.{CertificateRequest}
use certificates.Acme.Db.{Action, Db}
use certificates.Acme.Nosql.{◌>=>◌}
use certificates.Acme.Nosql.Laws.{then-eq-ok}
use certificates.Acme.Order as Orders
use certificates.Acme.Finalize.{Signer, finalize}
use certificates.Acme.Api.{AcmeProvisioner, OrderDb, wrapped-ok}

-- What the context of the request holds: the account, the provisioner, the identifier in the path,
-- the request for a certificate that was parsed and whose signature was checked, and the clock.
pub record OwnerContext : Type 0 where
  pub account : Outcome Error Account
  pub provisioner : Outcome Error AcmeProvisioner
  pub csr : Outcome Error CertificateRequest
  pub order_id : Bytes
  pub now : ℕ

-- The reply: the order as the operation left it, or its error.
abbrev replied : {S : Type 0} → (Order × Outcome Error (Unit {0})) × S → Outcome Error Order × S
replied ((o, r), s) = (wrapped r >>= λ u. ok o, s)

-- The two tests for the owner.
unfoldable pub owned_by : Account → AcmeProvisioner → Order → Outcome Error Order
owned_by acc prov o =
    if bytes_eq acc.id o.account_id
    then (if bytes_eq prov.id o.provisioner_id then ok o else err (problem unauthorized))
    else err (problem unauthorized)

module _ (ctx : OwnerContext) {S : Type 0} (orders : OrderDb S) (db : Db S) where
  abbrev owned_order : Account → AcmeProvisioner → S → Outcome Error Order
  owned_order acc prov s = wrapped (orders.get_order ctx.order_id s) >>= λ o. owned_by acc prov o

  -- GetOrder
  unfoldable pub get_order : Action S Order
  get_order s =
      (ctx.account >>= λ acc. (ctx.provisioner >>= λ prov. owned_order acc prov s), s) >=> λ o s1.
      replied (Orders.update_status db ctx.now o s1)

  -- FinalizeOrder
  unfoldable pub finalize_order : External → Signer → Action S Order
  finalize_order x ca s =
      (
        ctx.account >>= λ acc.
            (ctx.provisioner >>= λ prov.
            (ctx.csr >>= λ csr. (owned_order acc prov s >>= λ o. ok (o, csr)))),
        s,
      )
      >=> λ (o, csr) s1. replied (finalize db x ca ctx.now o csr s1)

-- The order is of another account or of another provisioner.
abbrev pub IsStranger : Account → AcmeProvisioner → Order → Type 0
IsStranger acc prov o = (acc.id ≢ o.account_id) ⊎ (prov.id ≢ o.provisioner_id)

owned_by_stranger :
    (acc : Account) (prov : AcmeProvisioner) (o : Order)
    → IsStranger acc prov o
    → owned_by acc prov o ≡ err (problem unauthorized)
unfolding owned_by
owned_by_stranger acc prov o h = elim (Bool-cases (bytes_eq acc.id o.account_id)) [
  | inl own ↦ elim (Bool-cases (bytes_eq prov.id o.provisioner_id)) [
    | inl same ↦ elim h [
      | inl d ↦ absurd (d ((bytes_eq_iff acc.id o.account_id).0 own))
      | inr d ↦ absurd (d ((bytes_eq_iff prov.id o.provisioner_id).0 same))
    ]
    | inr other ↦ rw (own, other) refl
  ]
  | inr other ↦ rw other refl
]

owned_by-ok :
    (acc : Account) (prov : AcmeProvisioner) (o o1 : Order)
    → owned_by acc prov o ≡ ok o1
    → (acc.id ≡ o1.account_id) × (prov.id ≡ o1.provisioner_id) × (o ≡ o1)
unfolding owned_by
owned_by-ok acc prov o o1 h = elim (Bool-cases (bytes_eq acc.id o.account_id)) [
  | inl own ↦ elim (Bool-cases (bytes_eq prov.id o.provisioner_id)) [
    | inl mine ↦
        let same : o ≡ o1 = ok-injective {E = Error} o o1 (ground arith) in
        (
          (bytes_eq_iff acc.id o.account_id).0 own ∙ ap (λ z. z.account_id) same,
          (bytes_eq_iff prov.id o.provisioner_id).0 mine ∙ ap (λ z. z.provisioner_id) same,
          same,
        )
    | inr other ↦ absurd (ground arith)
  ]
  | inr other ↦ absurd (ground arith)
]

replied-ok :
    {S : Type 0} (r : (Order × Outcome Error (Unit {0})) × S) (o : Order) (s : S)
    → replied r ≡ (ok o, s)
    → r ≡ ((o, ok tt), s)
replied-ok ((o1, ok tt), s1) o s h =
    ap₂ (λ y t. ((y, ok tt), t)) (ok-injective {E = Error} o1 o (ap (λ z. z.0) h)) (ap (λ z. z.1) h)
replied-ok ((o1, err e), s1) o s h = absurd (ground arith)
replied-ok ((o1, panic), s1) o s h = absurd (ground arith)

module _ (ctx : OwnerContext) {S : Type 0} (orders : OrderDb S) (db : Db S) (x : External)
    (ca : Signer) where
  -- Where the request has an account and a provisioner, a body that parses, and the identifier of an
  -- order that is found, an account or a provisioner that does not own the order gets an unauthorized
  -- error from both handlers, and the database stays as it was.
  pub strangers_refused :
      (acc : Account) (prov : AcmeProvisioner) (csr : CertificateRequest) (o : Order) (s : S)
      → ctx.account ≡ ok acc
      → ctx.provisioner ≡ ok prov
      → ctx.csr ≡ ok csr
      → orders.get_order ctx.order_id s ≡ ok o
      → IsStranger acc prov o
      → (get_order ctx orders db s ≡ (err (problem unauthorized), s))
        × (finalize_order ctx orders db x ca s ≡ (err (problem unauthorized), s))
  unfolding get_order finalize_order
  strangers_refused acc prov csr o s is_acc is_prov is_csr there stranger =
      let refused = owned_by_stranger acc prov o stranger in
      (rw (is_acc, is_prov, there, refused) refl, rw (is_acc, is_prov, is_csr, there, refused) refl)

  -- An order of the database that belongs to the account and the provisioner of the request, and what
  -- `Order.Finalize` leaves of it for the request's certificate.
  pub record OwnOrder (s s' : S) (o' : Order) : Type 0 where
    pub acc : Account
    pub prov : AcmeProvisioner
    pub csr : CertificateRequest
    pub o : Order
    pub from_account : ctx.account ≡ ok acc
    pub from_provisioner : ctx.provisioner ≡ ok prov
    pub from_request : ctx.csr ≡ ok csr
    pub stored : orders.get_order ctx.order_id s ≡ ok o
    pub own_account : acc.id ≡ o.account_id
    pub own_provisioner : prov.id ≡ o.provisioner_id
    pub finalized : finalize db x ca ctx.now o csr s ≡ ((o', ok tt), s')

  -- An order that `FinalizeOrder` returns belongs to the account and the provisioner of the request,
  -- and is what `Order.Finalize` leaves of the order in the database for the request's certificate.
  pub finalize_order-OwnOrder :
      (s s' : S) (o' : Order) → finalize_order ctx orders db x ca s ≡ (ok o', s') → OwnOrder s s' o'
  unfolding finalize_order
  finalize_order-OwnOrder s s' o' h =
      let (oc, s1, e, h1) = then-eq-ok _ _ h in
      let (acc, is_acc, e1) = bind-eq-ok ctx.account _ (ap (λ z. z.0) e) in
      let (prov, is_prov, e2) = bind-eq-ok ctx.provisioner _ e1 in
      let (csr, is_csr, e3) = bind-eq-ok ctx.csr _ e2 in
      let (o1, own, e4) = bind-eq-ok (owned_order ctx orders db acc prov s) _ e3 in
      let (o2, got, own') = bind-eq-ok (wrapped (orders.get_order ctx.order_id s)) _ own in
      let (account, provisioner, same) = owned_by-ok acc prov o2 o1 own' in
      let pair = ok-injective {E = Error} (o1, csr) oc e4 in
      let here : s1 ≡ s = sym (ap (λ z. z.1) e) in
      let ran : replied (finalize db x ca ctx.now o1 csr s) ≡ (ok o', s') =
        subst (λ t. replied (finalize db x ca ctx.now o1 csr t) ≡ (ok o', s')) here
          (subst
            (λ (z : Order × CertificateRequest).
              replied (finalize db x ca ctx.now z.0 z.1 s1) ≡ (ok o', s'))
            (sym pair) h1) in
      record {
        acc = acc;
        prov = prov;
        csr = csr;
        o = o1;
        from_account = is_acc;
        from_provisioner = is_prov;
        from_request = is_csr;
        stored = wrapped-ok (orders.get_order ctx.order_id s) o1 (got ∙ ap ok same);
        own_account = account;
        own_provisioner = provisioner;
        finalized = replied-ok (finalize db x ca ctx.now o1 csr s) o' s' ran;
      }
