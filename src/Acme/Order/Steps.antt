-- ===== src/Acme/Order/Steps.antt =====
-- The ways in which `Order.UpdateStatus` of acme/order.go runs.
use mathlib.Core.Bool.{false≢true}
use certificates.Base.{
  ℕ, suc, ◌<◌, ◌≤◌, ◌≡◌, ◌≢◌, ◌⊎◌, inl, inr, refl, sym, ap, some, List, [], ◌∷◌, ◌∙◌, Bytes, ltb,
  ltb→lt, ltb→le, ◌==◌, ==_iff, length, arith, Outcome, ok, err, panic, Bool-cases,
}
use certificates.Acme.Types.{
  Status, valid, invalid, pending, deactivated, ready, other, Error, problem, malformed,
  server_internal, wrapped, Order,
}
use certificates.Acme.Db.{Db}
use certificates.Acme.Order.Loads.{LoadsAll, load_statuses-LoadsAll}
use certificates.Acme.Order.Count.{
  AllValid, Occurs, count-AllValid, AllValid-count, count-Occurs, not-Occurs,
}
use certificates.Acme.Order.{
  is_status, count, save, load_status, load_statuses, decide, after_loading, by_status,
  update_status,
}

module _ {S : Type 0} (db : Db S) where
  load_statuses-head :
      (now : ℕ) (az_id : Bytes) (ids : List Bytes) (s s' : S) (list : List Status)
      → load_statuses db now (az_id ∷ ids) s ≡ (ok list, s')
      → (st : Status) × (rest : List Status) × (s1 : S) × (load_status db now az_id s ≡ (ok st, s1))
        × (load_statuses db now ids s1 ≡ (ok rest, s'))
        × (list ≡ st ∷ rest)
  unfolding load_statuses
  load_statuses-head now az_id ids s s' list h =
      go (load_status db now az_id s).0 refl
        (load_statuses db now ids (load_status db now az_id s).1).0 refl
    where
      go :
          (r : Outcome Error Status)
          → (load_status db now az_id s).0 ≡ r
          → (q : Outcome Error (List Status))
          → (load_statuses db now ids (load_status db now az_id s).1).0 ≡ q
          → (st : Status) × (rest : List Status) × (s1 : S) × (load_status db now az_id s
              ≡ (ok st, s1))
            × (load_statuses db now ids s1 ≡ (ok rest, s'))
            × (list ≡ st ∷ rest)
      go (ok st) e (ok rest) f =
          (st, rest, (load_status db now az_id s).1, (ground arith), (ground arith), (ground arith))
      go (ok st) e (err x) f = absurd (ground arith)
      go (ok st) e panic f = absurd (ground arith)
      go (err x) e q f = absurd (ground arith)
      go panic e q f = absurd (ground arith)

  length-load_statuses :
      (now : ℕ) (ids : List Bytes) (s s' : S) (list : List Status)
      → load_statuses db now ids s ≡ (ok list, s')
      → length list ≡ length ids
  unfolding load_statuses
  length-load_statuses now [] s s' list h = ground arith
  length-load_statuses now (az_id ∷ ids) s s' list h =
      let (st, rest, s1, head, tail, made) = load_statuses-head now az_id ids s s' list h in
      rw made (ap suc (length-load_statuses now ids s1 s' rest tail))

abbrev pub Result : Type 0 → Type 0
Result S = (Order × Outcome Error (Unit {0})) × S

-- The order was written, and comes back beside the wrapped error of the write, if any.
abbrev pub Writes : {S : Type 0} → Db S → Order → S → Result S → Type 0
Writes db o s r = r ≡ ((o, wrapped (db.update_order o s).0), (db.update_order o s).1)

-- What becomes of a pending order whose authorizations have the statuses of the list.
pub data Decides {S : Type 0} (db : Db S) (o : Order) (list : List Status) (s : S) (r : Result S)
    : Type 0 where
  rejects :
      Occurs invalid list → Writes db (record o { status = invalid }) s r → Decides db o list s r
  waits : ¬ Occurs invalid list → Occurs pending list → r ≡ ((o, ok tt), s) → Decides db o list s r
  readies :
      AllValid list
      → length list ≡ length o.authorization_ids
      → Writes db (record o { status = ready }) s r
      → Decides db o list s r
  confused :
      ¬ Occurs invalid list
      → ¬ Occurs pending list
      → ¬ AllValid list
      → r ≡ ((o, err (problem server_internal)), s)
      → Decides db o list s r

-- Every way in which `UpdateStatus` may run at a time, with the order, the error and the database
-- that it leaves.
pub data OrderRuns {S : Type 0} (db : Db S) (now : ℕ) (o : Order) (s : S) (r : Result S)
    : Type 0 where
  settled : (o.status ≡ valid) ⊎ (o.status ≡ invalid) → r ≡ ((o, ok tt), s) → OrderRuns db now o s r
  expires :
      (o.status ≡ ready) ⊎ (o.status ≡ pending)
      → o.expires_at < now
      → Writes db (record o { status = invalid; error = some malformed }) s r
      → OrderRuns db now o s r
  holds : o.status ≡ ready → now ≤ o.expires_at → r ≡ ((o, ok tt), s) → OrderRuns db now o s r
  fails :
      (e : Error) (s' : S)
      → o.status ≡ pending
      → now ≤ o.expires_at
      → LoadsAll db now o.authorization_ids s (err e) s'
      → r ≡ ((o, err e), s')
      → OrderRuns db now o s r
  breaks :
      (s' : S)
      → o.status ≡ pending
      → now ≤ o.expires_at
      → LoadsAll db now o.authorization_ids s panic s'
      → r ≡ ((o, panic), s')
      → OrderRuns db now o s r
  loads :
      (list : List Status) (s' : S)
      → o.status ≡ pending
      → now ≤ o.expires_at
      → LoadsAll db now o.authorization_ids s (ok list) s'
      → Decides db o list s' r
      → OrderRuns db now o s r
  refuses :
      o.status ≢ valid
      → o.status ≢ invalid
      → o.status ≢ ready
      → o.status ≢ pending
      → r ≡ ((o, err (problem server_internal)), s)
      → OrderRuns db now o s r

module _ {S : Type 0} (db : Db S) where
  decide-Decides :
      (list : List Status) (o : Order) (s : S)
      → length list ≡ length o.authorization_ids
      → Decides db o list s (decide db list o s)
  unfolding decide is_status save
  decide-Decides list o s len = elim (Bool-cases (ltb 0 (count invalid list))) [
    | inl i ↦ rejects (count-Occurs invalid list i) (rw i)
    | inr i ↦ elim (Bool-cases (ltb 0 (count pending list))) [
      | inl p ↦ waits (not-Occurs invalid list refl i) (count-Occurs pending list p) (rw (i, p))
      | inr p ↦ elim (Bool-cases (count valid list == length o.authorization_ids)) [
        | inl v ↦
            readies
              (count-AllValid list
                ((==_iff (count valid list) (length o.authorization_ids)).0 v ∙ sym len))
              len (rw (i, p, v))
        | inr v ↦
            confused (not-Occurs invalid list refl i) (not-Occurs pending list refl p)
              (λ all. false≢true (
                sym v
                ∙ (==_iff (count valid list) (length o.authorization_ids)).1
                    (AllValid-count list all ∙ len)))
              (rw (i, p, v))
      ]
    ]
  ]

  runs_loaded :
      (r : Outcome Error (List Status)) (s' : S) (now : ℕ) (o : Order) (s : S)
      → o.status ≡ pending
      → now ≤ o.expires_at
      → load_statuses db now o.authorization_ids s ≡ (r, s')
      → LoadsAll db now o.authorization_ids s r s'
      → OrderRuns db now o s (after_loading db r o s')
  unfolding after_loading
  runs_loaded (ok list) s' now o s e early h l =
      loads list s' e early l
        (decide-Decides list o s' (length-load_statuses db now o.authorization_ids s s' list h))
  runs_loaded (err x) s' now o s e early h l = fails x s' e early l refl
  runs_loaded panic s' now o s e early h l = breaks s' e early l refl

  runs_at :
      (st : Status) (now : ℕ) (o : Order) (s : S)
      → o.status ≡ st
      → OrderRuns db now o s (by_status db st now o s)
  unfolding by_status save
  runs_at valid now o s e = settled (inl e) refl
  runs_at invalid now o s e = settled (inr e) refl
  runs_at deactivated now o s e = refuses (λ h. cc) (λ h. cc) (λ h. cc) (λ h. cc) refl
  runs_at (other t) now o s e = refuses (λ h. cc) (λ h. cc) (λ h. cc) (λ h. cc) refl
  runs_at ready now o s e = elim (Bool-cases (ltb o.expires_at now)) [
    | inl late ↦ expires (inl e) (ltb→lt o.expires_at now late) (rw late)
    | inr early ↦ holds e (ltb→le o.expires_at now early) (rw early)
  ]
  runs_at pending now o s e = elim (Bool-cases (ltb o.expires_at now)) [
    | inl late ↦ expires (inr e) (ltb→lt o.expires_at now late) (rw late)
    | inr early ↦
        let ran = load_statuses db now o.authorization_ids s in
        rw early (
          runs_loaded ran.0 ran.1 now o s e (ltb→le o.expires_at now early) refl
            (load_statuses-LoadsAll db now o.authorization_ids s))
  ]

  -- `UpdateStatus` runs in one of the ways of `OrderRuns`: a valid or an invalid order is left alone; a
  -- pending or ready one is written as invalid once it has expired; a ready one that has not
  -- expired is left alone; a pending one that has not expired is written as invalid if an
  -- authorization is invalid, else left alone if one is pending, else written as ready if all are
  -- valid, and an error otherwise. The authorizations are read and brought up to date in order, up to
  -- the first that cannot be read or updated, whose error is the one of the order. Any other status is
  -- an error.
  pub update_status-OrderRuns :
      (now : ℕ) (o : Order) (s : S) → OrderRuns db now o s (update_status db now o s)
  unfolding update_status
  update_status-OrderRuns now o s = runs_at o.status now o s refl
