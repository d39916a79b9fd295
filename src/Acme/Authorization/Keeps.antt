-- ===== src/Acme/Authorization/Keeps.antt =====
-- What `Authorization.UpdateStatus` of acme/authorization.go leaves of the database.
use certificates.Base.{ℕ, none, ltb}
use certificates.Acme.Types.{
  Status, valid, invalid, pending, deactivated, ready, other, Authorization,
}
use certificates.Acme.Db.{Db, Keeps, if_keeps}
use certificates.Acme.Authorization.{any_valid, save, by_status, update_status}

module _ {S : Type 0} (db : Db S) (P : S → Type 0) (keeps : Keeps db P) where
  save_keeps : (az : Authorization) (s : S) → P s → P (save db az s).1
  unfolding save
  save_keeps az s h = keeps.update_authorization az s h

  by_status_keeps :
      (st : Status) (now : ℕ) (az : Authorization) (s : S) → P s → P (by_status db st now az s).1
  unfolding by_status
  by_status_keeps invalid now az s h = h
  by_status_keeps valid now az s h = h
  by_status_keeps deactivated now az s h = h
  by_status_keeps ready now az s h = h
  by_status_keeps (other t) now az s h = h
  by_status_keeps pending now az s h =
      if_keeps P (ltb az.expires_at now) _ _ (save_keeps (record az { status = invalid }) s h) (
        if_keeps P (any_valid az.challenges) _ _
          (save_keeps (record az { status = valid; error = none }) s h) h)

  pub update_status_keeps :
      (now : ℕ) (az : Authorization) (s : S) → P s → P (update_status db now az s).1
  unfolding update_status
  update_status_keeps now az s h = by_status_keeps az.status now az s h
