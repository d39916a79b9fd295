-- ===== src/Acme/Nosql/Orders/Keyed.antt =====
-- What UpdateOrder of acme/db/nosql/order.go leaves of the tables, and with it the record of operations
-- that orders call.
use certificates.Base.{ℕ, refl, Option, some, Bytes}
use certificates.Acme.Types.{Order}
use certificates.Acme.Db.{read_keeps, Keeps}
use certificates.Acme.Nosql.{order_row, order_table, Kv}
use certificates.Acme.Nosql.Laws.{KvLaws}
use certificates.Acme.Nosql.WellFormed.{WellFormed, save-WellFormed}
use certificates.Acme.Nosql.Certs.{X509, create_certificate}
use certificates.Acme.Nosql.Tables.{update_authorization-WellFormed, create_certificate-WellFormed}
use certificates.Acme.Nosql.Orders.{get_db_order, update_order, nosql_db, order_with}

module _ {S : Type 0} (kv : Kv S) (laws : KvLaws kv) where
  pub update_order-WellFormed :
      (o : Order) (s : S) → WellFormed kv s → WellFormed kv (update_order kv o s).1
  unfolding update_order
  update_order-WellFormed o s h =
      read_keeps (WellFormed kv) (get_db_order kv o.id s) _ (λ e. e) s h
        (λ old.
          save-WellFormed kv laws order_table old.id (some (order_row (order_with o old)))
            (some (order_row old)) s (refl, refl) h)

  -- The operations of the record, over certificates that are stored under an identifier.
  pub nosql_db-Keeps :
      (x : X509) (now : ℕ) (id : Option Bytes)
      → Keeps (nosql_db kv (create_certificate kv x now id)) (WellFormed kv)
  nosql_db-Keeps x now id = record {
    get_authorization = λ az s h. h;
    update_authorization = update_authorization-WellFormed kv laws;
    update_order = update_order-WellFormed;
    create_certificate = create_certificate-WellFormed kv laws x now id;
  }
