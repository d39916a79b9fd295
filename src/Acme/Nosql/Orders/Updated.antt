-- ===== src/Acme/Nosql/Orders/Updated.antt =====
-- UpdateOrder of acme/db/nosql/order.go with the order that is loaded after it.
use certificates.Base.{◌≡◌, refl, sym, subst, false, some, Bytes, Outcome, ok, err, panic, arith}
use certificates.Acme.Types.{Error, Order}
use certificates.Acme.Nosql.{
  DbOrder, Row, order_row, order_table, Got, found, missing, broken, Kv, same_key, save,
}
use certificates.Acme.Nosql.Laws.{KvLaws, save-Saved}
use certificates.Acme.Nosql.WellFormed.{WellFormed}
use certificates.Acme.Nosql.Orders.{get_db_order, get_order, update_order, order_with, order_of}

module _ {S : Type 0} (kv : Kv S) (laws : KvLaws kv) where
  pub get_order-found :
      (id : Bytes) (dbo : DbOrder) (s : S)
      → kv.get order_table id s ≡ found (order_row dbo)
      → get_order kv id s ≡ ok (order_of dbo)
  unfolding get_order get_db_order
  get_order-found id dbo s h = rw h

  -- What an update that returns nil did: it found a row, and saved over it at the row's identifier.
  update_order-ok :
      (o : Order) (s s' : S)
      → update_order kv o s ≡ (ok tt, s')
      → (old : DbOrder) × (get_db_order kv o.id s ≡ ok old)
        × (save kv order_table old.id (some (order_row (order_with o old))) (some (order_row old)) s
            ≡ (ok tt, s'))
  unfolding update_order
  update_order-ok o s s' h = go (get_db_order kv o.id s) refl
    where
      go :
          (r : Outcome Error DbOrder)
          → get_db_order kv o.id s ≡ r
          → (old : DbOrder) × (get_db_order kv o.id s ≡ ok old)
            × (save kv order_table old.id
                  (some (order_row (order_with o old)))
                  (some (order_row old))
                  s
                ≡ (ok tt, s'))
      go (ok old) e = (old, e, ground arith)
      go (err f) e = absurd (ground arith)
      go panic e = absurd (ground arith)

  get_db_order-ok :
      (id : Bytes) (dbo : DbOrder) (s : S)
      → get_db_order kv id s ≡ ok dbo
      → kv.get order_table id s ≡ found (order_row dbo)
  unfolding get_db_order
  get_db_order-ok id dbo s h = go (kv.get order_table id s) refl
    where
      go :
          (g : Got Row)
          → kv.get order_table id s ≡ g
          → kv.get order_table id s ≡ found (order_row dbo)
      go (found (order_row d)) e = ground arith
      go (found r) e = absurd (ground arith)
      go missing e = absurd (ground arith)
      go broken e = absurd (ground arith)

  -- Over tables in which each row stands at its identifier, an update of an order that returns nil
  -- found the order, and after it the order loads with the new status, error and certificate and
  -- with its other values as they were stored, while each other key of each table is as it was.
  pub update_order-get_order :
      (o : Order) (s s' : S)
      → WellFormed kv s
      → update_order kv o s ≡ (ok tt, s')
      → (was : Order) × (get_order kv o.id s ≡ ok was)
        × (get_order kv o.id s'
            ≡ ok (record was {
              status = o.status;
              error = o.error;
              certificate_id = o.certificate_id;
            }))
        × ((t k : Bytes) → same_key order_table o.id t k ≡ false → kv.get t k s' ≡ kv.get t k s)
  update_order-get_order o s s' wf h =
      let (old, found_it, saved_it) = update_order-ok o s s' h in
      let at = get_db_order-ok o.id old s found_it in
      let own : old.id ≡ o.id = (wf order_table o.id (order_row old) at).1 in
      let done =
        save-Saved kv laws order_table old.id (order_row (order_with o old)) (some (order_row old))
          s s' saved_it in
      (
        order_of old,
        get_order-found o.id old s at,
        get_order-found o.id (order_with o old) s' (
            subst (λ id. kv.get order_table id s' ≡ found (order_row (order_with o old))) own
              done.now_is),
        λ t k d. done.others t k (subst (λ id. same_key order_table id t k ≡ false) (sym own) d),
      )
