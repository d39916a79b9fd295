-- ===== src/Acme/Sans/Requested.antt =====
-- `canonicalize` and `Order.sans` of acme/order.go together.
use certificates.Base.{◌≡◌, sym, ◌∙◌, List, map, to_lower, ok}
use certificates.Policy.Types.{External}
use certificates.Acme.Types.{Order}
use certificates.Acme.Names.{CertificateRequest, canonicalize, with_common_name}
use certificates.Acme.Names.Unique.{SameKeys, unique_sorted_lower_names_exact}
use certificates.Acme.Sans.{San, Wanted, collect, sans}
use certificates.Acme.Sans.Sorts.{Sorts-collect}
use certificates.Acme.Sans.Exact.{sans_exact}

-- Where `sans` accepts a canonical request, the DNS names of the request, with the common name
-- among them if it is not empty and no address, are those of the order as sets, letter case aside.
pub sans-canonicalize :
    (x : External) (o : Order) (csr : CertificateRequest) (list : List San)
    → sans x o (canonicalize x csr) ≡ ok list
    → (w : Wanted) × (collect x o.identifiers ≡ ok w)
      × SameKeys (map to_lower (with_common_name x csr).dns_names) (map to_lower w.names)
unfolding canonicalize
sans-canonicalize x o csr list h =
    let a = (sans_exact x o (canonicalize x csr) list).0 h in
    (
      record { names = a.names; ips = a.ips; pids = a.pids },
      Sorts-collect x o.identifiers a.names a.ips a.pids a.sorted,
      λ k.
          sym ((unique_sorted_lower_names_exact (with_common_name x csr).dns_names).1 k)
          ∙ a.same_names k,
    )
