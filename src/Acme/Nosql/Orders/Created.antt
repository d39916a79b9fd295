-- ===== src/Acme/Nosql/Orders/Created.antt =====
-- CreateOrder and the index of the orders of an account, of acme/db/nosql/order.go: what their runs
-- leave of the stored orders.
use certificates.Base.{
  ℕ, refl, inl, ◌&&◌, Option, some, none, List, [], ◌∷◌, ◌++◌, Bytes, is_empty, Outcome, ok, err,
  panic,
}
use certificates.Acme.Types.{Error, wrap_ise, Order}
use certificates.Acme.Db.{Db, Keeps, if_keeps, read_keeps}
use certificates.Acme.Order.Keeps as Kept
use certificates.Acme.Nosql.{
  DbOrder, Row, order_row, order_table, orders_by_account_id_table, Got, found, missing, broken,
  decoded, Kv, save,
}
use certificates.Acme.Nosql.Laws.{KvLaws, then_keeps}
use certificates.Acme.Nosql.Orders.{
  get_order, read_ids, refresh, pending_orders, delete_orders, ids_text, index_saved, write_index,
  with_index, update_add_order_ids, create_order,
}
use certificates.Acme.Nosql.WellFormed.{WellFormed, save-WellFormed, del-WellFormed, TextOk}

-- The row of a new order.
abbrev pub new_order : Bytes → ℕ → Order → DbOrder
new_order id now o = record {
  id = id;
  account_id = o.account_id;
  provisioner_id = o.provisioner_id;
  identifiers = o.identifiers;
  authorization_ids = o.authorization_ids;
  status = o.status;
  not_before = o.not_before;
  not_after = o.not_after;
  created_at = now;
  expires_at = o.expires_at;
  certificate_id = [];
  error = none;
}

module _ {S : Type 0} (kv : Kv S) (laws : KvLaws kv) (db : Db S) (keeps : Keeps db (WellFormed kv))
    (now : ℕ) where
  abbrev K : S → Type 0
  K = WellFormed kv

  delete_orders_keyed : (ids : List Bytes) (s : S) → K s → K (delete_orders kv db now ids s)
  unfolding delete_orders
  delete_orders_keyed [] s h = h
  delete_orders_keyed (oid ∷ ids) s h =
      delete_orders_keyed ids (kv.del order_table oid s).1
        (del-WellFormed kv laws order_table oid s h)

  refresh_keyed : (oid : Bytes) (s : S) → K s → K (refresh kv db now oid s).1
  unfolding refresh
  refresh_keyed oid s h =
      read_keeps K (get_order kv oid s) _ (λ e. wrap_ise e) s h
        (λ o. Kept.update_status_keeps db K keeps now o s h)

  pending_orders_keyed : (ids : List Bytes) (s : S) → K s → K (pending_orders kv db now ids s).1
  unfolding pending_orders
  pending_orders_keyed [] s h = h
  pending_orders_keyed (oid ∷ ids) s h =
      let ran = refresh kv db now oid s in
      let h1 = refresh_keyed oid s h in
      read_keeps K ran.0 _ (λ e. e) ran.1 h1 (λ st. pending_orders_keyed ids ran.1 h1)

  index_saved_keyed :
      (r : Outcome Error (Unit {0})) (ids added : List Bytes) (s : S)
      → K s
      → K (index_saved kv db now r ids added s).1
  unfolding index_saved
  index_saved_keyed (ok u) ids added s h = h
  index_saved_keyed (err e) ids added s h = delete_orders_keyed added s h
  index_saved_keyed panic ids added s h = h

  write_index_keyed :
      (account_id : Bytes) (old ids added : List Bytes) (s : S)
      → K s
      → K (write_index kv db now account_id old ids added s).1
  unfolding write_index
  write_index_keyed account_id old ids added s h = if_keeps K (is_empty old && is_empty ids) _ _ h (
      index_saved_keyed _ ids added _
        (save-WellFormed kv laws orders_by_account_id_table account_id _ _ s (own ids) h))
    where
      own :
          (list : List Bytes)
          → TextOk orders_by_account_id_table account_id (ids_text kv db now list)
      own [] = tt
      own (i ∷ l) = inl refl

  with_index_keyed :
      (account_id : Bytes) (added : List Bytes) (g : Got (List Bytes)) (s : S)
      → K s
      → K (with_index kv db now account_id added g s).1
  unfolding with_index
  with_index_keyed account_id added broken s h = h
  with_index_keyed account_id added missing s h = write_index_keyed account_id [] added added s h
  with_index_keyed account_id added (found old) s h =
      then_keeps K (pending_orders kv db now old s) _ (pending_orders_keyed old s h)
        (λ ids s1 h1. write_index_keyed account_id old (ids ++ added) added s1 h1)

  pub update_add_order_ids_keyed :
      (account_id : Bytes) (added : List Bytes) (s : S)
      → K s
      → K (update_add_order_ids kv db now account_id added s).1
  unfolding update_add_order_ids
  update_add_order_ids_keyed account_id added s h =
      with_index_keyed account_id added
        (decoded read_ids (kv.get orders_by_account_id_table account_id s)) s h

  pub create_order_keyed :
      (id : Option Bytes) (o : Order) (s : S) → K s → K (create_order kv db now id o s).1
  unfolding create_order
  create_order_keyed none o s h = h
  create_order_keyed (some id) o s h =
      let row : Row = order_row (new_order id now o) in
      then_keeps K (save kv order_table id (some row) none s) _
        (save-WellFormed kv laws order_table id (some row) none s (refl, refl) h)
        (λ u s1 h1.
          then_keeps K (update_add_order_ids kv db now o.account_id (id ∷ []) s1) _
            (update_add_order_ids_keyed o.account_id (id ∷ []) s1 h1) (λ ids s2 h2. h2))
