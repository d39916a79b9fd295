-- ===== src/Acme/Sans/Sorts.antt =====
-- The loop of `Order.sans` of acme/order.go over the identifiers of an order, as a relation.
use certificates.Base.{
  ◌≡◌, refl, sym, subst, List, [], ◌∷◌, Bytes, arith, ok, bind-eq-ok, ok-injective, inl, inr,
  Option-cases,
}
use certificates.Policy.Types.{External, Ip}
use certificates.Acme.Types.{
  IdentifierType, ip, dns, permanent_identifier, unsupported, Identifier, Error,
}
use certificates.Acme.Sans.{Wanted, add, parsed_ip, collect}
use certificates.Acme.Sans.Address.{Parses}

-- Every identifier is a DNS name, an address or a permanent identifier, and the three lists hold the
-- values of each kind, in their order.
pub data Sorts (x : External) : List Identifier → List Bytes → List Ip → List Bytes → Type 0 where
  done : Sorts x [] [] [] []
  a_name :
      (i : Identifier) (ids : List Identifier) (names : List Bytes) (ips : List Ip)
      (pids : List Bytes)
      → i.type ≡ dns
      → Sorts x ids names ips pids
      → Sorts x (i ∷ ids) (i.value ∷ names) ips pids
  an_address :
      (i : Identifier) (v : Ip) (ids : List Identifier) (names : List Bytes) (ips : List Ip)
      (pids : List Bytes)
      → i.type ≡ ip
      → Parses x i.value v
      → Sorts x ids names ips pids
      → Sorts x (i ∷ ids) names (v ∷ ips) pids
  a_device :
      (i : Identifier) (ids : List Identifier) (names : List Bytes) (ips : List Ip)
      (pids : List Bytes)
      → i.type ≡ permanent_identifier
      → Sorts x ids names ips pids
      → Sorts x (i ∷ ids) names ips (i.value ∷ pids)

module _ (x : External) where
  -- The three lists that the loop fills.
  abbrev Holds : List Identifier → Wanted → Type 0
  Holds ids w = Sorts x ids w.names w.ips w.pids

  parsed_ip-Parses : (value : Bytes) → Parses x value (parsed_ip x value)
  unfolding parsed_ip
  parsed_ip-Parses value = elim (Option-cases (x.parse_ip value)) [
    | inl e ↦ inr (e, rw (e, parsed_ip) refl)
    | inr (v, e) ↦ inl (rw (e, parsed_ip) refl)
  ]

  Parses-parsed_ip : (value : Bytes) (v : Ip) → Parses x value v → parsed_ip x value ≡ v
  unfolding parsed_ip
  Parses-parsed_ip value v (inl e) = rw (e, parsed_ip) refl
  Parses-parsed_ip value v (inr (e, n)) = rw (e, parsed_ip) (sym n)

  add-Sorts :
      (t : IdentifierType) (i : Identifier) (ids : List Identifier) (w0 w : Wanted)
      → i.type ≡ t
      → Holds ids w0
      → add x t i.value w0 ≡ ok w
      → Holds (i ∷ ids) w
  unfolding add
  add-Sorts dns i ids w0 w e s h =
      subst (Holds (i ∷ ids)) (ok-injective {E = Error} _ w h)
        (a_name i ids w0.names w0.ips w0.pids e s)
  add-Sorts ip i ids w0 w e s h = subst (Holds (i ∷ ids)) (ok-injective {E = Error} _ w h) (
      an_address i (parsed_ip x i.value) ids w0.names w0.ips w0.pids e (parsed_ip-Parses i.value) s)
  add-Sorts permanent_identifier i ids w0 w e s h =
      subst (Holds (i ∷ ids)) (ok-injective {E = Error} _ w h)
        (a_device i ids w0.names w0.ips w0.pids e s)
  add-Sorts (unsupported t) i ids w0 w e s h = absurd (ground arith)

  pub collect-Sorts : (ids : List Identifier) (w : Wanted) → collect x ids ≡ ok w → Holds ids w
  unfolding collect
  collect-Sorts [] w h = subst (Holds []) (ok-injective {E = Error} _ w h) done
  collect-Sorts (i ∷ ids) w h =
      let (w0, rest, made) = bind-eq-ok (collect x ids) (λ u. add x i.type i.value u) h in
      add-Sorts i.type i ids w0 w refl (collect-Sorts ids w0 rest) made

  pub Sorts-collect :
      (ids : List Identifier) (names : List Bytes) (ips : List Ip) (pids : List Bytes)
      → Sorts x ids names ips pids
      → collect x ids ≡ ok (record { names = names; ips = ips; pids = pids })
  unfolding collect add
  Sorts-collect _ _ _ _ done = refl
  Sorts-collect _ _ _ _ (a_name i ids names ips pids e s) =
      rw (Sorts-collect ids names ips pids s, e)
  Sorts-collect _ _ _ _ (an_address i v ids names ips pids e p s) =
      rw (Sorts-collect ids names ips pids s, e, Parses-parsed_ip i.value v p)
  Sorts-collect _ _ _ _ (a_device i ids names ips pids e s) =
      rw (Sorts-collect ids names ips pids s, e)
