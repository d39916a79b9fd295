-- ===== src/Acme/Nosql/Orders.antt =====
-- acme/db/nosql/order.go, and the part of `acme.DB` that the package implements for orders,
-- authorizations and challenges.
pub mod Keyed
pub mod Updated
pub mod Created
use certificates.Base.{
  ℕ, Bool, true, false, ◌&&◌, Option, some, none, List, [], ◌∷◌, ◌++◌, Bytes, is_empty,
  if◌then◌else◌, Outcome, ok, err, panic, ◌>>=◌,
}
use certificates.Acme.Types.{
  Error, problem, malformed, plain, wrap_ise, wrapped, Status, pending, Order,
}
use certificates.Acme.Db.{Action, Db, Certificate}
use certificates.Acme.Order as Order
use certificates.Acme.Nosql.{
  DbOrder, Row, order_row, ids_row, order_table, orders_by_account_id_table, Got, found, missing,
  broken, decoded, loaded, Kv, save, ◌>=>◌,
}
use certificates.Acme.Nosql.Challenges.{update_challenge}
use certificates.Acme.Nosql.Authz.{get_authorization, update_authorization}

abbrev pub read_order : Row → Option DbOrder
read_order (order_row o) = some o
read_order _ = none

abbrev pub read_ids : Row → Option (List Bytes)
read_ids (ids_row ids) = some ids
read_ids _ = none

abbrev pub order_of : DbOrder → Order
order_of dbo = record {
  id = dbo.id;
  account_id = dbo.account_id;
  provisioner_id = dbo.provisioner_id;
  status = dbo.status;
  expires_at = dbo.expires_at;
  identifiers = dbo.identifiers;
  not_before = dbo.not_before;
  not_after = dbo.not_after;
  error = dbo.error;
  authorization_ids = dbo.authorization_ids;
  certificate_id = dbo.certificate_id;
}

-- The values that an update changes.
abbrev pub order_with : Order → DbOrder → DbOrder
order_with o old = record old {
  status = o.status;
  error = o.error;
  certificate_id = o.certificate_id;
}

module _ {S : Type 0} (kv : Kv S) where
  unfoldable pub get_db_order : Bytes → S → Outcome Error DbOrder
  get_db_order id s = loaded (problem malformed) (decoded read_order (kv.get order_table id s))

  unfoldable pub get_order : Bytes → S → Outcome Error Order
  get_order id s = get_db_order id s >>= λ dbo. ok (order_of dbo)

  unfoldable pub update_order : Order → Action S (Unit {0})
  update_order o s = elim (get_db_order o.id s) [
    | ok old ↦
        save kv order_table old.id (some (order_row (order_with o old))) (some (order_row old)) s
    | err e ↦ (err e, s)
    | panic ↦ (panic, s)
  ]

  -- The operations that `Order.UpdateStatus` and `Order.Finalize` call.
  abbrev pub nosql_db : (Certificate → Action S Bytes) → Db S
  nosql_db create_certificate = record {
    get_authorization = λ id s. (get_authorization kv id s, s);
    update_authorization = update_authorization kv;
    update_challenge = update_challenge kv;
    update_order = update_order;
    create_certificate = create_certificate;
  }

module _ {S : Type 0} (kv : Kv S) (db : Db S) (now : ℕ) where
  keep_pending : Status → Bytes → List Bytes → List Bytes
  keep_pending pending oid rest = oid ∷ rest
  keep_pending _ oid rest = rest

  -- One round of the loop over the old identifiers: load an order and bring it up to date.
  unfoldable pub refresh : Bytes → Action S Status
  refresh oid s = elim (get_order kv oid s) [
    | ok o ↦
        let ((o', u), s') = Order.update_status db now o s in
        (wrapped (u >>= λ v. ok o'.status), s')
    | err e ↦ (err (wrap_ise e), s)
    | panic ↦ (panic, s)
  ]

  -- The whole loop.
  unfoldable pub pending_orders : List Bytes → Action S (List Bytes)
  unfolding keep_pending
  pending_orders [] s = (ok [], s)
  pending_orders (oid ∷ oids) s =
      let (r, s1) = refresh oid s in
      elim r [
        | ok st ↦
            let (rest, s2) = pending_orders oids s1 in
            (rest >>= λ list. ok (keep_pending st oid list), s2)
        | err e ↦ (err e, s1)
        | panic ↦ (panic, s1)
      ]

  -- A failed save takes out the orders that were added; errors of a deletion are ignored.
  unfoldable pub delete_orders : List Bytes → S → S
  delete_orders [] s = s
  delete_orders (oid ∷ oids) s = delete_orders oids (kv.del order_table oid s).1

  -- An empty list is nil in the database.
  abbrev pub ids_text : List Bytes → Option Row
  ids_text [] = none
  ids_text (id ∷ ids) = some (ids_row (id ∷ ids))

  index_saved : Outcome Error (Unit {0}) → List Bytes → List Bytes → Action S (List Bytes)
  index_saved (ok u) ids added s = (ok ids, s)
  index_saved (err e) ids added s = (err e, delete_orders added s)
  index_saved panic ids added s = (panic, s)

  unfoldable pub write_index : Bytes → List Bytes → List Bytes → List Bytes → Action S (List Bytes)
  unfolding index_saved
  write_index account_id old ids added s =
      if is_empty old && is_empty ids
      then (ok [], s)
      else let (r, s') =
          save kv orders_by_account_id_table account_id (ids_text ids) (ids_text old) s in
        index_saved r ids added s'

  unfoldable pub with_index : Bytes → List Bytes → Got (List Bytes) → Action S (List Bytes)
  with_index account_id added broken s = (err plain, s)
  with_index account_id added missing s = write_index account_id [] added added s
  with_index account_id added (found old) s =
      pending_orders old s >=> λ ids. write_index account_id old (ids ++ added) added

  unfoldable pub update_add_order_ids : Bytes → List Bytes → Action S (List Bytes)
  update_add_order_ids account_id added s =
      with_index account_id added
        (decoded read_ids (kv.get orders_by_account_id_table account_id s)) s

  unfoldable pub create_order : Option Bytes → Order → Action S Order
  create_order none o s = (err plain, s)
  create_order (some id) o s =
      save kv order_table id
        (some (
          order_row (record {
            id = id;
            account_id = o.account_id;
            provisioner_id = o.provisioner_id;
            identifiers = o.identifiers;
            authorization_ids = o.authorization_ids;
            status = o.status;
            not_before = o.not_before;
            not_after = o.not_after;
            created_at = now;
            expires_at = o.expires_at;
            certificate_id = [];
            error = none;
          })))
        none s
      >=> λ u s'. update_add_order_ids o.account_id (id ∷ []) s' >=> λ ids s''.
          (ok (record o { id = id }), s'')

  unfoldable pub get_orders_by_account_id : Bytes → Action S (List Bytes)
  get_orders_by_account_id account_id = update_add_order_ids account_id []
