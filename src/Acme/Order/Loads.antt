-- ===== src/Acme/Order/Loads.antt =====
-- The loop of `Order.UpdateStatus` of acme/order.go that brings the authorizations of an order up to
-- date, as a relation between the database before and after it.
use certificates.Base.{ℕ, ◌≡◌, refl, List, [], ◌∷◌, Bytes, arith, Outcome, ok, err, panic, ◌>>=◌}
use certificates.Acme.Types.{Status, Error, wrap_ise, wrapped, Authorization}
use certificates.Acme.Db.{Db}
use certificates.Acme.Authorization as Authz
use certificates.Acme.Authorization.Steps.{AuthzRuns, update_status-AuthzRuns}
use certificates.Acme.Order.{load_status, load_statuses}

-- How one authorization is loaded and brought up to date: its status afterwards, or an internal
-- error where it cannot be read, or where its `UpdateStatus` returns an error.
pub data LoadsOne {S : Type 0} (db : Db S) (now : ℕ) (az_id : Bytes) (s : S)
    (r : Outcome Error Status) (s' : S) : Type 0 where
  unread :
      (e : Error)
      → db.get_authorization az_id s ≡ (err e, s')
      → r ≡ err (wrap_ise e)
      → LoadsOne db now az_id s r s'
  breaks : db.get_authorization az_id s ≡ (panic, s') → r ≡ panic → LoadsOne db now az_id s r s'
  stuck :
      (az az' : Authorization) (e : Error) (s1 : S)
      → db.get_authorization az_id s ≡ (ok az, s1)
      → AuthzRuns db now az s1 ((az', err e), s')
      → r ≡ err (wrap_ise e)
      → LoadsOne db now az_id s r s'
  crashes :
      (az az' : Authorization) (s1 : S)
      → db.get_authorization az_id s ≡ (ok az, s1)
      → AuthzRuns db now az s1 ((az', panic), s')
      → r ≡ panic
      → LoadsOne db now az_id s r s'
  updates :
      (az az' : Authorization) (s1 : S)
      → db.get_authorization az_id s ≡ (ok az, s1)
      → AuthzRuns db now az s1 ((az', ok tt), s')
      → r ≡ ok az'.status
      → LoadsOne db now az_id s r s'

-- The authorizations are loaded in order, up to the first that fails.
pub data LoadsAll {S : Type 0} (db : Db S) (now : ℕ)
    : List Bytes → S → Outcome Error (List Status) → S → Type 0 where
  done : (s : S) → LoadsAll db now [] s (ok []) s
  fails :
      (az_id : Bytes) (ids : List Bytes) (s s' : S) (e : Error)
      → LoadsOne db now az_id s (err e) s'
      → LoadsAll db now (az_id ∷ ids) s (err e) s'
  breaks :
      (az_id : Bytes) (ids : List Bytes) (s s' : S)
      → LoadsOne db now az_id s panic s'
      → LoadsAll db now (az_id ∷ ids) s panic s'
  next :
      (az_id : Bytes) (ids : List Bytes) (st : Status) (r : Outcome Error (List Status))
      (s s1 s' : S)
      → LoadsOne db now az_id s (ok st) s1
      → LoadsAll db now ids s1 r s'
      → LoadsAll db now (az_id ∷ ids) s (r >>= λ list. ok (st ∷ list)) s'

module _ {S : Type 0} (db : Db S) (now : ℕ) where
  loaded :
      (az_id : Bytes) (s s1 s' : S) (az az' : Authorization) (u : Outcome Error (Unit {0}))
      → db.get_authorization az_id s ≡ (ok az, s1)
      → AuthzRuns db now az s1 ((az', u), s')
      → LoadsOne db now az_id s (wrapped (u >>= λ _. ok az'.status)) s'
  loaded az_id s s1 s' az az' (ok t) g a = LoadsOne.updates az az' s1 g a refl
  loaded az_id s s1 s' az az' (err e) g a = LoadsOne.stuck az az' e s1 g a refl
  loaded az_id s s1 s' az az' panic g a = LoadsOne.crashes az az' s1 g a refl

  load_status-LoadsOne :
      (az_id : Bytes) (s : S)
      → LoadsOne db now az_id s (load_status db now az_id s).0 (load_status db now az_id s).1
  unfolding load_status
  load_status-LoadsOne az_id s = go (db.get_authorization az_id s).0 refl
    where
      go :
          (r : Outcome Error Authorization)
          → (db.get_authorization az_id s).0 ≡ r
          → LoadsOne db now az_id s (load_status db now az_id s).0 (load_status db now az_id s).1
      go (ok az) e =
          let s1 = (db.get_authorization az_id s).1 in
          let ran = Authz.update_status db now az s1 in
          rw (e, load_status)
            (loaded az_id s s1 ran.1 az ran.0.0 ran.0.1 (ground arith)
              (update_status-AuthzRuns db now az s1))
      go (err x) e = rw (e, load_status) (LoadsOne.unread x (ground arith) refl)
      go panic e = rw (e, load_status) (LoadsOne.breaks (ground arith) refl)

  -- The loop of the code runs as the relation says.
  pub load_statuses-LoadsAll :
      (ids : List Bytes) (s : S)
      → LoadsAll db now ids s (load_statuses db now ids s).0 (load_statuses db now ids s).1
  unfolding load_statuses
  load_statuses-LoadsAll [] s = LoadsAll.done s
  load_statuses-LoadsAll (az_id ∷ ids) s =
      go (load_status db now az_id s).0 refl (load_status-LoadsOne az_id s)
        (load_statuses-LoadsAll ids (load_status db now az_id s).1)
    where
      go :
          (r : Outcome Error Status)
          → (load_status db now az_id s).0 ≡ r
          → LoadsOne db now az_id s (load_status db now az_id s).0 (load_status db now az_id s).1
          → LoadsAll db now ids
              (load_status db now az_id s).1
              (load_statuses db now ids (load_status db now az_id s).1).0
              (load_statuses db now ids (load_status db now az_id s).1).1
          → LoadsAll db now
              (az_id ∷ ids)
              s
              (load_statuses db now (az_id ∷ ids) s).0
              (load_statuses db now (az_id ∷ ids) s).1
      go (ok st) e one rest =
          rw (e, load_statuses)
            (LoadsAll.next az_id ids st (load_statuses db now ids (load_status db now az_id s).1).0
              s (load_status db now az_id s).1
              (load_statuses db now ids (load_status db now az_id s).1).1 (rw e at one) rest)
      go (err x) e one rest =
          rw (e, load_statuses)
            (LoadsAll.fails az_id ids s (load_status db now az_id s).1 x (rw e at one))
      go panic e one rest =
          rw (e, load_statuses)
            (LoadsAll.breaks az_id ids s (load_status db now az_id s).1 (rw e at one))
