-- ===== src/Acme/Nosql/Accounts/Stored.antt =====
-- Accounts that were stored: CreateAccount, UpdateAccount and the getters of
-- acme/db/nosql/account.go.
use certificates.Base.{
  ◌≡◌, refl, sym, subst, ◌∙◌, ap, ℕ, Option, some, none, Bytes, bytes_eq, Outcome, ok, err, panic,
  arith,
}
use certificates.Acme.Types.{Error, absent}
use certificates.Acme.Db.{Action}
use certificates.Acme.Account.{Account, key_to_id}
use certificates.Acme.Nosql.{
  DbAccount, found, missing, account_row, id_row, Swap, swapped, kept, failed, Kv, account_table,
  account_by_key_id_table, save, ◌>=>◌,
}
use certificates.Acme.Nosql.Laws.{KvLaws, save-Saved, then-eq-ok}
use certificates.Acme.Nosql.Accounts.{
  create_account, store_account, undone, get_account_by_key_id, get_account_id_by_key_id,
  get_account, get_db_account, account_of,
}

abbrev pub new_account : ℕ → Bytes → Account → DbAccount
new_account now id acc = record {
  id = id;
  key = acc.key;
  contact = acc.contact;
  status = acc.status;
  created_at = now;
  deactivated_at = 0;
}

pub undone_keeps :
    {S A : Type 0} (P : S → Type 0) (undo : S → S) (p : Outcome Error A × S)
    → ((s : S) → P s → P (undo s))
    → P p.1
    → P (undone undo p).1
unfolding undone
undone_keeps P undo (ok a, s) f h = h
undone_keeps P undo (err e, s) f h = f s h
undone_keeps P undo (panic, s) f h = h

module _ {S : Type 0} (kv : Kv S) (laws : KvLaws kv) where
  undone-ok :
      {A : Type 0} (undo : S → S) (p : Outcome Error A × S) (a : A) (s' : S)
      → undone undo p ≡ (ok a, s')
      → p ≡ (ok a, s')
  unfolding undone
  undone-ok undo (ok b, s) a s' h = h
  undone-ok undo (err e, s) a s' h = absurd (ground arith)
  undone-ok undo (panic, s) a s' h = absurd (ground arith)

  -- What a creation that succeeds did: the entry of the key was free and is the identifier, and the
  -- account is stored.
  pub store_account-ok :
      (now : ℕ) (id kid : Bytes) (acc acc' : Account) (s s' : S)
      → store_account kv now id kid acc s ≡ (ok acc', s')
      → (kv.get account_by_key_id_table kid s ≡ missing)
        × (kv.get account_by_key_id_table kid s' ≡ found (id_row id))
        × (kv.get account_table id s' ≡ found (account_row (new_account now id acc)))
        × (acc' ≡ record acc { id = id })
  unfolding store_account bytes_eq
  store_account-ok now id kid acc acc' s s' h =
      go (kv.cmp_and_swap account_by_key_id_table kid none (some (id_row id)) s).0 refl
    where
      go :
          (w : Swap)
          → (kv.cmp_and_swap account_by_key_id_table kid none (some (id_row id)) s).0 ≡ w
          → (kv.get account_by_key_id_table kid s ≡ missing)
            × (kv.get account_by_key_id_table kid s' ≡ found (id_row id))
            × (kv.get account_table id s' ≡ found (account_row (new_account now id acc)))
            × (acc' ≡ record acc { id = id })
      go kept e = absurd (ground arith)
      go failed e = absurd (ground arith)
      go swapped e =
          let s1 = (kv.cmp_and_swap account_by_key_id_table kid none (some (id_row id)) s).1 in
          let written =
            save kv account_table id (some (account_row (new_account now id acc))) none s1 in
          let rest : Unit {0} → Action S Account = λ u s2. (ok (record acc { id = id }), s2) in
          let swap : kv.cmp_and_swap account_by_key_id_table kid none (some (id_row id)) s
              ≡ (swapped, s1) =
            ground arith in
          let ran : written >=> rest ≡ (ok acc', s') =
            undone-ok (λ s2. (kv.del account_by_key_id_table kid s2).1) (written >=> rest) acc' s'
              (ground arith) in
          let (_, s2, sv, fin) = then-eq-ok written rest ran in
          let at =
            save-Saved kv laws account_table id (account_row (new_account now id acc)) none s1 s2
              sv in
          let same : s2 ≡ s' = ground arith in
          (
            laws.swap_old account_by_key_id_table kid none (some (id_row id)) s s1 swap,
            subst (λ x. kv.get account_by_key_id_table kid x ≡ found (id_row id)) same
                (at.others account_by_key_id_table kid refl
                  ∙ laws.swap_new account_by_key_id_table kid none (id_row id) s s1 swap),
            subst (λ x. kv.get account_table id x ≡ found (account_row (new_account now id acc)))
                same at.now_is,
            ground arith,
          )

  pub get_account-found :
      (id : Bytes) (dba : DbAccount) (s : S)
      → kv.get account_table id s ≡ found (account_row dba)
      → get_account kv id s ≡ ok (account_of dba)
  unfolding get_account get_db_account
  get_account-found id dba s h = rw h

  pub get_account_by_key_id-found :
      (kid id : Bytes) (s : S)
      → kv.get account_by_key_id_table kid s ≡ found (id_row id)
      → get_account_by_key_id kv kid s ≡ get_account kv id s
  unfolding get_account_by_key_id get_account_id_by_key_id
  get_account_by_key_id-found kid id s h = rw h

  pub get_account_by_key_id-missing :
      (kid : Bytes) (s : S)
      → kv.get account_by_key_id_table kid s ≡ missing
      → get_account_by_key_id kv kid s ≡ err absent
  unfolding get_account_by_key_id get_account_id_by_key_id
  get_account_by_key_id-missing kid s h = rw h

  -- A creation of an account under a new identifier that returns nil found no account for the
  -- identifier of the key; after it, the account that is loaded by the identifier of the key, and the
  -- one loaded by its own identifier, are the account that came back, which is the one given with
  -- its identifier set.
  pub create_account-get_account :
      (thumbprint : Bytes → Option Bytes) (base64 : Bytes → Bytes) (now : ℕ) (id : Bytes)
      (acc acc' : Account) (s s' : S)
      → create_account kv thumbprint base64 now (some id) acc s ≡ (ok acc', s')
      → (kid : Bytes) × (key_to_id thumbprint base64 acc.key ≡ ok kid)
        × (get_account_by_key_id kv kid s ≡ err absent)
        × (get_account_by_key_id kv kid s' ≡ ok acc')
        × (get_account kv id s' ≡ ok acc')
        × (acc' ≡ record acc { id = id })
  unfolding create_account
  create_account-get_account thumbprint base64 now id acc acc' s s' h =
      go (key_to_id thumbprint base64 acc.key) refl
    where
      go :
          (r : Outcome Error Bytes)
          → key_to_id thumbprint base64 acc.key ≡ r
          → (kid : Bytes) × (key_to_id thumbprint base64 acc.key ≡ ok kid)
            × (get_account_by_key_id kv kid s ≡ err absent)
            × (get_account_by_key_id kv kid s' ≡ ok acc')
            × (get_account kv id s' ≡ ok acc')
            × (acc' ≡ record acc { id = id })
      go (ok kid) q =
          let (free, entry, stored, same) =
            store_account-ok now id kid acc acc' s s' (ground arith) in
          let back = get_account-found id (new_account now id acc) s' stored ∙ ap ok (sym same) in
          (
            kid,
            q,
            get_account_by_key_id-missing kid s free,
            get_account_by_key_id-found kid id s' entry ∙ back,
            back,
            same,
          )
      go (err e) q = absurd (ground arith)
      go panic q = absurd (ground arith)
