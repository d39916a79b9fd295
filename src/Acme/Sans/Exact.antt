-- ===== src/Acme/Sans/Exact.antt =====
-- `Order.sans` of acme/order.go: the names of a request beside those of an order.
use mathlib.Core.Bool.{}
use certificates.Base.{
  suc, subst, to_lower, ◌≡◌, ◌↔◌, inl, inr, refl, sym, ap, ap₂, ◌∙◌, List, [], ◌∷◌, ◌++◌, Bytes,
  map, ◌==◌, ==_iff, ==_refl, length, arith, Bool-cases, bytes_eq, bytes_eq_iff, bytes_eq_refl,
  Outcome, ok, ◌>>=◌, bind-eq-ok, ok-injective, length-eq-zero,
}
use certificates.Policy.Types.{External, Ip}
use certificates.Acme.Types.{Error, Order}
use certificates.Acme.Names.{CertificateRequest, unique_sorted_lower_names, unique_sorted_ips}
use certificates.Policy.Dedupe.{has_key}
use certificates.Acme.Names.Addresses.{reread, unique_sorted_ips-SameKeys}
use certificates.Acme.Names.Sorted.{IsAscending}
use certificates.Acme.Names.Unique.{SameKeys, IsAscending-unique, unique_sorted_lower_names_exact}
use certificates.Acme.Sans.Address.{AreEqual, ips_are_equal_iff}
use certificates.Acme.Sans.Sorts.{Sorts, collect-Sorts, Sorts-collect}
use certificates.Acme.Sans.{
  San, dns_san, ip_san, Wanted, collect, ips_are_equal, dns_sans, ip_sans, compare_names,
  compare_ips, sans,
}

-- The addresses are the same one by one, and none is nil.
abbrev pub SameIps : External → List Ip → List Ip → Type 0
SameIps x [] [] = Unit
SameIps x (a ∷ as') (b ∷ bs) = AreEqual x a b × SameIps x as' bs
SameIps x _ _ = ⊥

module _ (x : External) where
  dns_sans_sound :
      (cs ns : List Bytes) (l : List San)
      → length cs ≡ length ns
      → dns_sans x cs ns ≡ ok l
      → (cs ≡ ns) × (l ≡ map dns_san cs)
  unfolding dns_sans
  dns_sans_sound [] [] l len h = (refl, sym (ok-injective [] l h))
  dns_sans_sound [] (n ∷ ns) l len h = absurd (ground arith)
  dns_sans_sound (c ∷ cs) [] l len h = absurd (ground arith)
  dns_sans_sound (c ∷ cs) (n ∷ ns) l len h = elim (Bool-cases (bytes_eq c n)) [
    | inl e ↦
        let (rest, tail, made) =
          bind-eq-ok (dns_sans x cs ns) (λ t. ok (dns_san c ∷ t)) (rw (e, dns_sans) at h) in
        let (same, ls) = dns_sans_sound cs ns rest (ground arith) tail in
        let head = (bytes_eq_iff c n).0 e in
        (cc (head, same), cc (ls, ok-injective (dns_san c ∷ rest) l made))
    | inr e ↦ absurd (ground arith)
  ]

  dns_sans_complete : (cs : List Bytes) → dns_sans x cs cs ≡ ok (map dns_san cs)
  unfolding dns_sans
  dns_sans_complete [] = refl
  dns_sans_complete (c ∷ cs) = rw (bytes_eq_refl c, dns_sans_complete cs)

  abbrev ip_texts : List Ip → List San
  ip_texts = map (λ i. ip_san (x.ip_string i))

  ip_sans_sound :
      (cs is : List Ip) (l : List San)
      → length cs ≡ length is
      → ip_sans x cs is ≡ ok l
      → SameIps x cs is × (l ≡ ip_texts cs)
  unfolding ip_sans
  ip_sans_sound [] [] l len h = (tt, sym (ok-injective [] l h))
  ip_sans_sound [] (n ∷ ns) l len h = absurd (ground arith)
  ip_sans_sound (c ∷ cs) [] l len h = absurd (ground arith)
  ip_sans_sound (c ∷ cs) (n ∷ ns) l len h = elim (Bool-cases (ips_are_equal x c n)) [
    | inl e ↦
        let (rest, tail, made) =
          bind-eq-ok (ip_sans x cs ns) (λ t. ok (ip_san (x.ip_string c) ∷ t))
            (rw (e, ip_sans) at h) in
        let (same, ls) = ip_sans_sound cs ns rest (ground arith) tail in
        (
          ((ips_are_equal_iff x c n).0 e, same),
          cc (ls, ok-injective (ip_san (x.ip_string c) ∷ rest) l made),
        )
    | inr e ↦ absurd (ground arith)
  ]

  ip_sans_complete :
      (cs is : List Ip)
      → SameIps x cs is
      → (length cs ≡ length is) × (ip_sans x cs is ≡ ok (ip_texts cs))
  unfolding ip_sans
  ip_sans_complete [] [] h = (refl, refl)
  ip_sans_complete [] (n ∷ ns) h = absurd h
  ip_sans_complete (c ∷ cs) [] h = absurd h
  ip_sans_complete (c ∷ cs) (n ∷ ns) h =
      let (len, rest) = ip_sans_complete cs ns h.1 in
      (ap suc len, rw ((ips_are_equal_iff x c n).1 h.0, rest))

  -- The order and the request agree.
  pub record Agrees (o : Order) (csr : CertificateRequest) (list : List San) : Type 0 where
    pub names : List Bytes
    pub ips : List Ip
    pub pids : List Bytes
    pub sorted : Sorts x o.identifiers names ips pids
    pub no_emails : csr.email_addresses ≡ []
    pub no_uris : csr.uris ≡ []
    pub names_ascend : IsAscending csr.dns_names
    pub same_names : SameKeys csr.dns_names (map to_lower names)
    pub wanted_ips : SameKeys (unique_sorted_ips x ips) (map (reread x) ips)
    pub same_ips : SameIps x csr.ip_addresses (unique_sorted_ips x ips)
    pub list_of_all : list ≡ map dns_san csr.dns_names ++ ip_texts csr.ip_addresses

  compare_names_sound :
      (csr : CertificateRequest) (ns : List Bytes) (l : List San)
      → compare_names x csr ns ≡ ok l
      → (csr.dns_names ≡ ns) × (l ≡ map dns_san csr.dns_names)
  unfolding compare_names
  compare_names_sound csr ns l h = elim (Bool-cases (length csr.dns_names == length ns)) [
    | inl e ↦
        dns_sans_sound csr.dns_names ns l ((==_iff (length csr.dns_names) (length ns)).0 e)
          (rw (e, compare_names) at h)
    | inr e ↦ absurd (ground arith)
  ]

  compare_ips_sound :
      (csr : CertificateRequest) (is : List Ip) (l : List San)
      → compare_ips x csr is ≡ ok l
      → SameIps x csr.ip_addresses is × (l ≡ ip_texts csr.ip_addresses)
  unfolding compare_ips
  compare_ips_sound csr is l h = elim (Bool-cases (length csr.ip_addresses == length is)) [
    | inl e ↦
        ip_sans_sound csr.ip_addresses is l ((==_iff (length csr.ip_addresses) (length is)).0 e)
          (rw (e, compare_ips) at h)
    | inr e ↦ absurd (ground arith)
  ]

  -- The part of `sans` behind the test for emails and URIs.
  abbrev matched : CertificateRequest → Wanted → Outcome Error (List San)
  matched csr w = compare_names x csr (unique_sorted_lower_names w.names) >>= λ ds.
      (compare_ips x csr (unique_sorted_ips x w.ips) >>= λ is. ok (ds ++ is))

  sans_sound :
      (o : Order) (csr : CertificateRequest) (list : List San)
      → sans x o csr ≡ ok list
      → Agrees o csr list
  unfolding sans
  sans_sound o csr list h =
      let body : (collect x o.identifiers >>= matched csr) ≡ ok list = ground arith in
      let emails : length csr.email_addresses ≡ 0 = ground arith in
      let uris : length csr.uris ≡ 0 = ground arith in
      let (w, got, rest) = bind-eq-ok (collect x o.identifiers) (matched csr) body in
      let (ds, dns_ok, rest') =
        bind-eq-ok (compare_names x csr (unique_sorted_lower_names w.names))
          (λ ds. (compare_ips x csr (unique_sorted_ips x w.ips) >>= λ is. ok (ds ++ is))) rest in
      let (is, ips_ok, made) =
        bind-eq-ok (compare_ips x csr (unique_sorted_ips x w.ips)) (λ is. ok (ds ++ is)) rest' in
      let (names, listed) = compare_names_sound csr (unique_sorted_lower_names w.names) ds dns_ok in
      let (addresses, listed') = compare_ips_sound csr (unique_sorted_ips x w.ips) is ips_ok in
      record {
        names = w.names;
        ips = w.ips;
        pids = w.pids;
        sorted = collect-Sorts x o.identifiers w got;
        no_emails = length-eq-zero csr.email_addresses emails;
        no_uris = length-eq-zero csr.uris uris;
        names_ascend = subst IsAscending (sym names) (unique_sorted_lower_names_exact w.names).0;
        same_names =
            λ k. ap (λ l. has_key l k) names ∙ (unique_sorted_lower_names_exact w.names).1 k;
        wanted_ips = unique_sorted_ips-SameKeys x w.ips;
        same_ips = addresses;
        list_of_all =
            sym (ok-injective (ds ++ is) list made)
            ∙ ap₂ (λ (a b : List San). a ++ b) listed listed';
      }

  sans_complete :
      (o : Order) (csr : CertificateRequest) (list : List San)
      → Agrees o csr list
      → sans x o csr ≡ ok list
  unfolding sans compare_names compare_ips
  sans_complete o csr list a =
      let (len, ips) = ip_sans_complete csr.ip_addresses (unique_sorted_ips x a.ips) a.same_ips in
      let names : csr.dns_names ≡ unique_sorted_lower_names a.names =
        IsAscending-unique csr.dns_names (unique_sorted_lower_names a.names) a.names_ascend
          (unique_sorted_lower_names_exact a.names).0
          (λ k. a.same_names k ∙ sym ((unique_sorted_lower_names_exact a.names).1 k)) in
      rw (
        a.no_emails,
        a.no_uris,
        Sorts-collect x o.identifiers a.names a.ips a.pids a.sorted,
        ← names,
        ==_refl (length csr.dns_names),
        dns_sans_complete csr.dns_names,
        len,
        ==_refl (length (unique_sorted_ips x a.ips)),
        ips,
        a.list_of_all,
      )

  -- `sans` returns a list exactly when every identifier of the order is of a supported type, the
  -- request has no email and no URI, its DNS names are in strictly ascending order and are the same
  -- set as the lowered DNS names of the order, and its addresses are the same one by one as what
  -- `uniqueSortedIPs` makes of those of the order, up to the mapping of IPv4 into IPv6, and none is
  -- nil; what it makes of them holds exactly the addresses that their texts are read as. The list
  -- then holds the names and the addresses of the request, in their order.
  pub sans_exact :
      (o : Order) (csr : CertificateRequest) (list : List San)
      → (sans x o csr ≡ ok list) ↔ Agrees o csr list
  sans_exact o csr list = (sans_sound o csr list, sans_complete o csr list)
