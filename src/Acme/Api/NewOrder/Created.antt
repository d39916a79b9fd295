-- ===== src/Acme/Api/NewOrder/Created.antt =====
-- What an order that `NewOrder` of acme/api/order.go returns went through, and what stays when the
-- handler refuses.
use certificates.Base.{
  Bool, true, false, none, ◌≢◌, ◌≡◌, refl, sym, ap, ap₂, subst, ◌∙◌, Option, List, [], ◌∷◌, All,
  Outcome, ok, err, panic, ◌>>=◌, bind-eq-ok, seq-eq-ok, ok-injective, arith,
}
use certificates.Policy.Constraints.{Verdict}
use certificates.Policy.Engine.{NamePolicyEngine}
use certificates.Acme.Types.{Identifier, Error, pending, Order}
use certificates.Acme.Account.{Account}
use certificates.Acme.Nosql.Laws.{then-eq-ok}
use certificates.Authority.Engine.{sans_by, are_sans_allowed}
use certificates.Acme.Api.{
  NewOrderRequest, AcmeProvisioner, AccountPolicy, OrderCalls, OrderDb, validate_request,
  wrapped-ok, rejected, authorize_order_identifier, check_identifier, check_identifiers,
  new_acme_policy_engine,
}
use certificates.Acme.Api.NewOrder.{
  OrderContext, new_authorizations, requested_order, with_times, create_requested, account_policy,
  authorize_order, new_order, wrapped_db,
}
use certificates.Acme.Api.NewOrder.Authorizations.{
  AuthorizationRuns, new_authorizations-Runs, ok-pair,
}

rejected-ok : (v : Verdict) → rejected v ≡ ok tt → v ≡ ok tt
rejected-ok (ok tt) h = refl
rejected-ok (err e) h = absurd (ground arith)
rejected-ok panic h = absurd (ground arith)

module _ (calls : OrderCalls) where
  -- An identifier passes the policies of the account, of the provisioner and of the authority.
  pub record PassesPolicies (acme_policy : Option NamePolicyEngine) (prov : AcmeProvisioner)
      (i : Identifier) : Type 0 where
    pub by_account : sans_by calls.libraries acme_policy (i.value ∷ []) ≡ ok tt
    pub by_provisioner : authorize_order_identifier calls prov.x509_policy i ≡ ok tt
    pub by_authority :
        are_sans_allowed calls.libraries calls.authority_engine (i.value ∷ []) ≡ ok tt

  check_identifiers-ok :
      (acme_policy : Option NamePolicyEngine) (prov : AcmeProvisioner) (ids : List Identifier)
      → check_identifiers calls acme_policy prov ids ≡ ok tt
      → All (PassesPolicies acme_policy prov) ids
  unfolding check_identifiers check_identifier
  check_identifiers-ok acme_policy prov [] h = tt
  check_identifiers-ok acme_policy prov (i ∷ ids) h =
      let (here, behind) = seq-eq-ok (check_identifier calls acme_policy prov i) _ h in
      let (first, others) =
        seq-eq-ok (rejected (sans_by calls.libraries acme_policy (i.value ∷ []))) _ here in
      let (second, third) =
        seq-eq-ok (authorize_order_identifier calls prov.x509_policy i) _ others in
      (
        record {
          by_account = rejected-ok _ first;
          by_provisioner = second;
          by_authority = rejected-ok _ third;
        },
        check_identifiers-ok acme_policy prov ids behind,
      )

wrapped_db-ok :
    {A S : Type 0} (r : Outcome Error A × S) (a : A) (s : S)
    → wrapped_db r ≡ (ok a, s)
    → r ≡ (ok a, s)
wrapped_db-ok (r, s1) a s h =
    ap₂ (λ x y. (x, y)) (wrapped-ok r a (ap (λ z. z.0) h)) (ap (λ z. z.1) h)

module _ (ctx : OrderContext) {S : Type 0} (db : OrderDb S) (calls : OrderCalls) where
  -- The key of the account is read exactly where the provisioner requires one.
  pub data KeyRead (require_eab : Bool) (acc : Account) (prov : AcmeProvisioner) (s : S)
      (key : Option (Option AccountPolicy)) : Type 0 where
    required :
        require_eab ≡ true
        → db.get_account_policy prov.id acc.id s ≡ ok key
        → KeyRead require_eab acc prov s key
    not_required : require_eab ≡ false → key ≡ none → KeyRead require_eab acc prov s key

  -- What the handler checked: the request is valid, and each of its identifiers passes the policies.
  pub record Authorized (s : S) (acc : Account) (prov : AcmeProvisioner) (nor : NewOrderRequest)
      : Type 0 where
    pub from_account : ctx.account ≡ ok acc
    pub from_provisioner : ctx.provisioner ≡ ok prov
    pub from_request : ctx.request ≡ ok nor
    pub is_valid : validate_request calls nor ≡ ok tt
    pub require_eab : Bool
    pub from_acme : ctx.acme_provisioner ≡ ok require_eab
    pub acme_policy : Option NamePolicyEngine
    pub of_key :
        (account_policy ctx db require_eab prov acc s >>= λ eak. new_acme_policy_engine calls eak)
        ≡ ok acme_policy
    pub all_pass : All (PassesPolicies calls acme_policy prov) nor.identifiers
    pub not_empty : nor.identifiers ≢ []
    pub key : Option (Option AccountPolicy)
    pub key_read : KeyRead require_eab acc prov s key
    pub from_key : new_acme_policy_engine calls key ≡ ok acme_policy

  account_policy-KeyRead :
      (require_eab : Bool) (acc : Account) (prov : AcmeProvisioner) (s : S)
      (key : Option (Option AccountPolicy))
      → account_policy ctx db require_eab prov acc s ≡ ok key
      → KeyRead require_eab acc prov s key
  unfolding account_policy
  account_policy-KeyRead true acc prov s key h =
      KeyRead.required refl (wrapped-ok (db.get_account_policy prov.id acc.id s) key h)
  account_policy-KeyRead false acc prov s key h =
      KeyRead.not_required refl (sym (ok-injective {E = Error} none key h))

  validate_request-not_empty :
      (nor : NewOrderRequest) → validate_request calls nor ≡ ok tt → nor.identifiers ≢ []
  unfolding validate_request
  validate_request-not_empty nor h e = absurd (ground arith)

  authorize_order-Authorized :
      (s : S) (acc : Account) (prov : AcmeProvisioner) (nor : NewOrderRequest)
      → authorize_order ctx db calls s ≡ ok (acc, prov, nor)
      → Authorized s acc prov nor
  unfolding authorize_order
  authorize_order-Authorized s acc prov nor h =
      let (acc', is_acc, h1) = bind-eq-ok ctx.account _ h in
      let (prov', is_prov, h2) = bind-eq-ok ctx.provisioner _ h1 in
      let (nor', is_nor, h3) = bind-eq-ok ctx.request _ h2 in
      let (tt, valid, h4) = bind-eq-ok (validate_request calls nor') _ h3 in
      let (eab, is_acme, h45) = bind-eq-ok ctx.acme_provisioner _ h4 in
      let (eak, key, h5) = bind-eq-ok (account_policy ctx db eab prov' acc' s) _ h45 in
      let (acme, built, h6) = bind-eq-ok (new_acme_policy_engine calls eak) _ h5 in
      let (tt, passed, h7) =
        bind-eq-ok (check_identifiers calls acme prov' nor'.identifiers) _ h6 in
      let same = ok-injective {E = Error} (acc', prov', nor') (acc, prov, nor) h7 in
      subst (λ (z : Account × AcmeProvisioner × NewOrderRequest). Authorized s z.0 z.1 z.2) same
        (record {
          from_account = is_acc;
          from_provisioner = is_prov;
          from_request = is_nor;
          is_valid = valid;
          require_eab = eab;
          from_acme = is_acme;
          acme_policy = acme;
          of_key = ap (λ r. r >>= λ k. new_acme_policy_engine calls k) key ∙ built;
          all_pass = check_identifiers-ok calls acme prov' nor'.identifiers passed;
          not_empty = validate_request-not_empty nor' valid;
          key = eak;
          key_read = account_policy-KeyRead eab acc' prov' s eak key;
          from_key = built;
        })

  -- What an order that the handler returns has gone through.
  pub record OrderCreated (s s' : S) (o : Order) : Type 1 where
    pub acc : Account
    pub prov : AcmeProvisioner
    pub nor : NewOrderRequest
    pub authorized : Authorized s acc prov nor
    pub still_pending : o.status ≡ pending
    pub of_account : o.account_id ≡ acc.id
    pub of_provisioner : o.provisioner_id ≡ prov.id
    pub for_identifiers : o.identifiers ≡ nor.identifiers
    pub between : S
    pub runs :
        AuthorizationRuns ctx db
          (requested_order ctx db acc prov nor)
          0
          nor.identifiers
          o.authorization_ids
          s
          between
    pub stored : db.create_order (record o { id = [] }) between ≡ (ok o.id, s')

  create_requested-OrderCreated :
      (acc : Account) (prov : AcmeProvisioner) (nor : NewOrderRequest) (s s' : S) (o : Order)
      → Authorized s acc prov nor
      → create_requested ctx db acc prov nor s ≡ (ok o, s')
      → OrderCreated s s' o
  unfolding create_requested requested_order with_times
  create_requested-OrderCreated acc prov nor s s' o authorized h =
      let asked : Order = requested_order ctx db acc prov nor in
      let (az_ids, s1, made, h1) =
        then-eq-ok (new_authorizations ctx db 0 asked nor.identifiers s) _ h in
      let full : Order = with_times ctx db prov nor (record asked { authorization_ids = az_ids }) in
      let (id, s2, wrote, h2) = then-eq-ok (wrapped_db (db.create_order full s1)) _ h1 in
      subst (λ (z : Order × S). OrderCreated s z.1 z.0)
        (ok-pair (record full { id = id }) o s2 s' h2)
        (record {
          acc = acc;
          prov = prov;
          nor = nor;
          authorized = authorized;
          still_pending = refl;
          of_account = refl;
          of_provisioner = refl;
          for_identifiers = refl;
          between = s1;
          runs = new_authorizations-Runs ctx db asked 0 nor.identifiers az_ids s s1 made;
          stored = wrapped_db-ok (db.create_order full s1) id s2 wrote;
        })

  -- An order that the handler returns was asked for by a valid request of the account for at least
  -- one identifier, in which every identifier passes the policies of the account's key, of the
  -- provisioner and of the authority; the key is read from the database exactly where the provisioner
  -- requires one. The order is pending, is for those identifiers, the account and the provisioner, has
  -- one new authorization for each identifier, in their order, and was stored with them.
  pub new_order-OrderCreated :
      (s s' : S) (o : Order) → new_order ctx db calls s ≡ (ok o, s') → OrderCreated s s' o
  unfolding new_order
  new_order-OrderCreated s s' o h =
      let ((acc, prov, nor), s1, checked, h1) =
        then-eq-ok (authorize_order ctx db calls s, s) _ h in
      let here : s1 ≡ s = sym (ap (λ z. z.1) checked) in
      create_requested-OrderCreated acc prov nor s s' o
        (authorize_order-Authorized s acc prov nor (ap (λ z. z.0) checked))
        (subst (λ t. create_requested ctx db acc prov nor t ≡ (ok o, s')) here h1)

  -- A request of an account and a provisioner that is valid, but of which an identifier does not pass
  -- the policies with an error, gets that error, and the database stays as it was.
  pub new_order-refused :
      (acc : Account) (prov : AcmeProvisioner) (nor : NewOrderRequest) (require_eab : Bool)
      (acme_policy : Option NamePolicyEngine) (e : Error) (s : S)
      → ctx.account ≡ ok acc
      → ctx.provisioner ≡ ok prov
      → ctx.request ≡ ok nor
      → validate_request calls nor ≡ ok tt
      → ctx.acme_provisioner ≡ ok require_eab
      → (account_policy ctx db require_eab prov acc s >>= λ eak. new_acme_policy_engine calls eak)
        ≡ ok acme_policy
      → check_identifiers calls acme_policy prov nor.identifiers ≡ err e
      → new_order ctx db calls s ≡ (err e, s)
  unfolding new_order authorize_order account_policy
  new_order-refused acc prov nor require_eab acme_policy e s is_acc is_prov is_nor valid is_acme key
        refused =
      let (eak, found, built) =
        bind-eq-ok (account_policy ctx db require_eab prov acc s)
          (λ k. new_acme_policy_engine calls k) key in
      rw (is_acc, is_prov, is_nor, valid, is_acme, found, built, refused) refl
