-- ===== src/Acme/Nosql/KeyTables.antt =====
-- What the operations of acme/db/nosql/account.go and acme/db/nosql/eab.go leave of the tables.
use certificates.Base.{
  ℕ, refl, Option, some, none, List, [], ◌∷◌, ◌++◌, Bytes, inr, bytes_eq, is_empty, Outcome, ok,
  err,
}
use certificates.Acme.Types.{Error, plain}
use certificates.Acme.Account.{Account, ExternalAccountKey, key_to_id}
use certificates.Acme.Db.{if_keeps, read_keeps}
use certificates.Acme.Nosql.{
  Row, account_row, id_row, key_row, reference_row, ids_row, account_table, account_by_key_id_table,
  key_table, key_by_reference_table, keys_by_provisioner_table, Swap, swapped, kept, failed, Kv,
  save, ◌>=>◌,
}
use certificates.Acme.Nosql.Laws.{KvLaws, then_keeps}
use certificates.Acme.Nosql.WellFormed.{
  WellFormed, save-WellFormed, del-WellFormed, cmp_and_swap-WellFormed,
}
use certificates.Acme.Nosql.Accounts.{
  create_account, store_account, update_account, get_db_account, account_with,
}
use certificates.Acme.Nosql.Accounts.Stored.{new_account, undone_keeps}
use certificates.Acme.Nosql.Keys.{
  add_eak_id, delete_eak_id, save_ids, get_eak_ids, save_reference, reference_key, create_key,
  del_row, delete_reference, delete_key, update_key, get_db_key, row_of, old_text,
}
use certificates.Acme.Nosql.Keys.Index.{new_row}
use certificates.Acme.Nosql.Keys.Lists.{has_id, remove_element}

swap_keeps :
    {S A : Type 0} (P : S → Type 0) (w : Swap) (x : Outcome Error A × S) (s : S)
    → P s
    → P x.1
    → P
        (elim w as (λ _. Outcome Error A × S) [
          | failed ↦ (err plain, s)
          | kept ↦ (err plain, s)
          | swapped ↦ x
        ]).1
swap_keeps P swapped x s h k = k
swap_keeps P kept x s h k = h
swap_keeps P failed x s h k = h

module _ {S : Type 0} (kv : Kv S) (laws : KvLaws kv) where
  abbrev W : S → Type 0
  W = WellFormed kv

  store_account-WellFormed :
      (now : ℕ) (id kid : Bytes) (acc : Account) (s : S)
      → W s
      → W (store_account kv now id kid acc s).1
  unfolding store_account
  store_account-WellFormed now id kid acc s h =
      let ran = kv.cmp_and_swap account_by_key_id_table kid none (some (id_row id)) s in
      let h1 =
        cmp_and_swap-WellFormed kv laws account_by_key_id_table kid none (some (id_row id)) s refl
          h in
      let row : Row = account_row (new_account now id acc) in
      swap_keeps W ran.0 _ ran.1 h1 (
        undone_keeps W _
          (save kv account_table id (some row) none ran.1 >=> λ u s2.
            (ok (record acc { id = id }), s2))
          (λ t k. del-WellFormed kv laws account_by_key_id_table kid t k)
          (then_keeps W (save kv account_table id (some row) none ran.1) _
            (save-WellFormed kv laws account_table id (some row) none ran.1 (refl, refl) h1)
            (λ u s2 h2. h2)))

  pub create_account-WellFormed :
      (thumbprint : Bytes → Option Bytes) (base64 : Bytes → Bytes) (now : ℕ) (id : Option Bytes)
      (acc : Account) (s : S)
      → W s
      → W (create_account kv thumbprint base64 now id acc s).1
  unfolding create_account
  create_account-WellFormed thumbprint base64 now none acc s h = h
  create_account-WellFormed thumbprint base64 now (some id) acc s h =
      read_keeps W (key_to_id thumbprint base64 acc.key) _ (λ e. e) s h
        (λ kid. store_account-WellFormed now id kid acc s h)

  pub update_account-WellFormed :
      (now : ℕ) (acc : Account) (s : S) → W s → W (update_account kv now acc s).1
  unfolding update_account
  update_account-WellFormed now acc s h =
      read_keeps W (get_db_account kv acc.id s) _ (λ e. e) s h
        (λ old.
          save-WellFormed kv laws account_table old.id
            (some (account_row (account_with now acc old))) (some (account_row old)) s (refl, refl)
            h)

  save_ids-WellFormed :
      (p : Bytes) (ids old : List Bytes) (s : S) → W s → W (save_ids kv p ids old s).1
  unfolding save_ids
  save_ids-WellFormed p ids old s h =
      save-WellFormed kv laws keys_by_provisioner_table p (some (ids_row ids)) (old_text old) s
        (inr refl) h

  add_eak_id-WellFormed : (p e : Bytes) (s : S) → W s → W (add_eak_id kv p e s).1
  unfolding add_eak_id
  add_eak_id-WellFormed p e s h = if_keeps W (is_empty e) _ _ h (
      read_keeps W (get_eak_ids kv p s) _ (λ f. f) s h
        (λ ids. if_keeps W (has_id ids e) _ _ h (save_ids-WellFormed p (ids ++ e ∷ []) ids s h)))

  delete_eak_id-WellFormed : (p e : Bytes) (s : S) → W s → W (delete_eak_id kv p e s).1
  unfolding delete_eak_id
  delete_eak_id-WellFormed p e s h =
      read_keeps W (get_eak_ids kv p s) _ (λ f. f) s h
        (λ ids. save_ids-WellFormed p (remove_element ids e) ids s h)

  save_reference-WellFormed :
      (p ref key : Bytes) (s : S) → W s → W (save_reference kv p ref key s).1
  unfolding save_reference
  save_reference-WellFormed p ref key s h = if_keeps W (is_empty ref) _ _ h (
      save-WellFormed kv laws key_by_reference_table (reference_key p ref)
        (some (reference_row (record { reference = ref; external_account_key_id = key }))) none s
        refl h)

  pub create_key-WellFormed :
      (now : ℕ) (id random : Option Bytes) (p ref : Bytes) (s : S)
      → W s
      → W (create_key kv now id random p ref s).1
  unfolding create_key
  create_key-WellFormed now none random p ref s h = h
  create_key-WellFormed now (some id) none p ref s h = h
  create_key-WellFormed now (some id) (some random) p ref s h =
      let row = new_row id p ref random now in
      then_keeps W (save kv key_table id (some row) none s) _
        (save-WellFormed kv laws key_table id (some row) none s (refl, refl) h)
        (λ u s1 h1.
          then_keeps W (add_eak_id kv p id s1) _ (add_eak_id-WellFormed p id s1 h1) (λ v s2 h2.
            then_keeps W (save_reference kv p ref id s2) _
              (save_reference-WellFormed p ref id s2 h2) (λ w s3 h3. h3)))

  del_row-WellFormed : (t k : Bytes) (s : S) → W s → W (del_row kv t k s).1
  unfolding del_row
  del_row-WellFormed t k s h = del-WellFormed kv laws t k s h

  delete_reference-WellFormed : (p ref : Bytes) (s : S) → W s → W (delete_reference kv p ref s).1
  unfolding delete_reference
  delete_reference-WellFormed p ref s h =
      if_keeps W (is_empty ref) _ _ h
        (del_row-WellFormed key_by_reference_table (reference_key p ref) s h)

  pub delete_key-WellFormed : (p k : Bytes) (s : S) → W s → W (delete_key kv p k s).1
  unfolding delete_key
  delete_key-WellFormed p k s h =
      read_keeps W (get_db_key kv k s) _ (λ e. e) s h
        (λ dbeak.
          if_keeps W (bytes_eq dbeak.provisioner_id p) _ _
            (then_keeps W (delete_reference kv p dbeak.reference s) _
              (delete_reference-WellFormed p dbeak.reference s h)
              (λ u s1 h1.
                then_keeps W (del_row kv key_table k s1) _ (del_row-WellFormed key_table k s1 h1)
                  (λ v s2 h2. delete_eak_id-WellFormed p k s2 h2)))
            h)

  pub update_key-WellFormed :
      (p : Bytes) (eak : ExternalAccountKey) (s : S) → W s → W (update_key kv p eak s).1
  unfolding update_key
  update_key-WellFormed p eak s h =
      read_keeps W (get_db_key kv eak.id s) _ (λ e. e) s h
        (λ old.
          if_keeps W (bytes_eq old.provisioner_id p) _ _
            (if_keeps W (bytes_eq old.provisioner_id eak.provisioner_id) _ _
              (if_keeps W (bytes_eq old.reference eak.reference) _ _
                (save-WellFormed kv laws key_table eak.id (some (row_of eak)) (some (key_row old)) s
                  (refl, refl) h)
                h)
              h)
            h)
