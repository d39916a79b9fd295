-- ===== src/Acme/Order/Keeps.antt =====
-- What `Order.UpdateStatus` of acme/order.go leaves of the database.
use certificates.Base.{ℕ, List, [], ◌∷◌, Bytes, length, ltb, ◌==◌, Outcome, ok, err, panic}
use certificates.Acme.Types.{
  Status, valid, invalid, pending, deactivated, ready, other, Error, wrap_ise, Order,
}
use certificates.Acme.Db.{Db, Keeps, if_keeps, read_keeps}
use certificates.Acme.Authorization.Keeps as Kept
use certificates.Acme.Order.{
  count, expired, save, load_status, load_statuses, decide, after_loading, by_status, update_status,
}

module _ {S : Type 0} (db : Db S) (P : S → Type 0) (keeps : Keeps db P) where
  save_keeps : (o : Order) (s : S) → P s → P (save db o s).1
  unfolding save
  save_keeps o s h = keeps.update_order o s h

  load_status_keeps : (now : ℕ) (id : Bytes) (s : S) → P s → P (load_status db now id s).1
  unfolding load_status
  load_status_keeps now id s h =
      let got = db.get_authorization id s in
      let h1 = keeps.get_authorization id s h in
      read_keeps P got.0 _ (λ e. wrap_ise e) got.1 h1
        (λ az. Kept.update_status_keeps db P keeps now az got.1 h1)

  load_statuses_keeps :
      (now : ℕ) (ids : List Bytes) (s : S) → P s → P (load_statuses db now ids s).1
  unfolding load_statuses
  load_statuses_keeps now [] s h = h
  load_statuses_keeps now (id ∷ ids) s h =
      let ran = load_status db now id s in
      let h1 = load_status_keeps now id s h in
      read_keeps P ran.0 _ (λ e. e) ran.1 h1 (λ st. load_statuses_keeps now ids ran.1 h1)

  after_loading_keeps :
      (r : Outcome Error (List Status)) (o : Order) (s : S) → P s → P (after_loading db r o s).1
  unfolding after_loading decide
  after_loading_keeps (ok list) o s h =
      if_keeps P (ltb 0 (count invalid list)) _ _ (save_keeps (record o { status = invalid }) s h) (
        if_keeps P (ltb 0 (count pending list)) _ _ h (
          if_keeps P (count valid list == length o.authorization_ids) _ _
            (save_keeps (record o { status = ready }) s h) h))
  after_loading_keeps (err e) o s h = h
  after_loading_keeps panic o s h = h

  by_status_keeps :
      (st : Status) (now : ℕ) (o : Order) (s : S) → P s → P (by_status db st now o s).1
  unfolding by_status
  by_status_keeps invalid now o s h = h
  by_status_keeps valid now o s h = h
  by_status_keeps deactivated now o s h = h
  by_status_keeps (other t) now o s h = h
  by_status_keeps ready now o s h =
      if_keeps P (ltb o.expires_at now) _ _ (save_keeps (expired o) s h) h
  by_status_keeps pending now o s h =
      let ran = load_statuses db now o.authorization_ids s in
      if_keeps P (ltb o.expires_at now) _ _ (save_keeps (expired o) s h)
        (after_loading_keeps ran.0 o ran.1 (load_statuses_keeps now o.authorization_ids s h))

  pub update_status_keeps : (now : ℕ) (o : Order) (s : S) → P s → P (update_status db now o s).1
  unfolding update_status
  update_status_keeps now o s h = by_status_keeps o.status now o s h
