-- ===== src/Acme/Nosql/Keys.antt =====
-- acme/db/nosql/eab.go: external account keys, their index by provisioner and by reference. The
-- random identifier and the random bytes of a key are arguments, `none` where there are none. The
-- mutexes only order whole operations.
pub mod Lists
pub mod Removal
pub mod Index
use certificates.Base.{
  ℕ, Bool, true, false, Option, some, none, List, [], ◌∷◌, ◌++◌, Bytes, codes, is_empty, bytes_eq,
  if◌then◌else◌, Outcome, ok, err, panic, ◌>>=◌,
}
use certificates.Acme.Types.{Error, problem, unauthorized, absent, plain}
use certificates.Acme.Account.{ExternalAccountKey}
use certificates.Acme.Db.{Action}
use certificates.Acme.Nosql.{
  DbKey, DbReference, Row, key_row, reference_row, ids_row, key_table, key_by_reference_table,
  keys_by_provisioner_table, Got, found, missing, broken, decoded, loaded, Kv, save, ◌>=>◌,
}
use certificates.Acme.Nosql.Orders.{read_ids}
use certificates.Acme.Nosql.Keys.Lists.{has_id, remove_element}

abbrev pub read_key : Row → Option DbKey
read_key (key_row k) = some k
read_key _ = none

abbrev pub read_reference : Row → Option DbReference
read_reference (reference_row r) = some r
read_reference _ = none

abbrev pub eak_of : DbKey → ExternalAccountKey
eak_of dbeak = record {
  id = dbeak.id;
  provisioner_id = dbeak.provisioner_id;
  reference = dbeak.reference;
  account_id = dbeak.account_id;
  hmac_key = dbeak.hmac_key;
  created_at = dbeak.created_at;
  bound_at = dbeak.bound_at;
}

-- What an update stores.
abbrev pub row_of : ExternalAccountKey → Row
row_of eak = key_row (record {
  id = eak.id;
  provisioner_id = eak.provisioner_id;
  reference = eak.reference;
  account_id = eak.account_id;
  hmac_key = eak.hmac_key;
  created_at = eak.created_at;
  bound_at = eak.bound_at;
})

abbrev pub reference_key : Bytes → Bytes → Bytes
reference_key provisioner_id reference = provisioner_id ++ codes "." ++ reference

-- An empty list that was read is passed as nil.
abbrev pub old_text : List Bytes → Option Row
old_text [] = none
old_text (id ∷ ids) = some (ids_row (id ∷ ids))

-- The index that was read; a missing key is the empty list.
abbrev pub ids_read : Got (List Bytes) → Outcome Error (List Bytes)
ids_read (found ids) = ok ids
ids_read missing = ok []
ids_read broken = err plain

module _ {S : Type 0} (kv : Kv S) where
  unfoldable pub get_db_key : Bytes → S → Outcome Error DbKey
  get_db_key id s = loaded absent (decoded read_key (kv.get key_table id s))

  unfoldable pub get_eak_ids : Bytes → S → Outcome Error (List Bytes)
  get_eak_ids provisioner_id s =
      ids_read (decoded read_ids (kv.get keys_by_provisioner_table provisioner_id s))

  unfoldable pub save_ids : Bytes → List Bytes → List Bytes → Action S (Unit {0})
  save_ids provisioner_id ids old s =
      save kv keys_by_provisioner_table provisioner_id (some (ids_row ids)) (old_text old) s

  unfoldable pub add_eak_id : Bytes → Bytes → Action S (Unit {0})
  add_eak_id provisioner_id eak_id s =
      if is_empty eak_id then (err plain, s) else elim (get_eak_ids provisioner_id s) [
        | ok ids ↦
            if has_id ids eak_id
            then (err plain, s)
            else save_ids provisioner_id (ids ++ eak_id ∷ []) ids s
        | err e ↦ (err e, s)
        | panic ↦ (panic, s)
      ]

  unfoldable pub delete_eak_id : Bytes → Bytes → Action S (Unit {0})
  delete_eak_id provisioner_id eak_id s = elim (get_eak_ids provisioner_id s) [
    | ok ids ↦ save_ids provisioner_id (remove_element ids eak_id) ids s
    | err e ↦ (err e, s)
    | panic ↦ (panic, s)
  ]

  -- The entry of the reference, where there is one.
  unfoldable pub save_reference : Bytes → Bytes → Bytes → Action S (Unit {0})
  save_reference provisioner_id reference key_id s =
      if is_empty reference
      then (ok tt, s)
      else save kv key_by_reference_table (reference_key provisioner_id reference)
          (some
            (reference_row (record { reference = reference; external_account_key_id = key_id })))
          none s

  unfoldable pub create_key :
      ℕ → Option Bytes → Option Bytes → Bytes → Bytes → Action S ExternalAccountKey
  create_key now none random provisioner_id reference s = (err plain, s)
  create_key now (some key_id) none provisioner_id reference s = (err plain, s)
  create_key now (some key_id) (some random) provisioner_id reference s =
      let dbeak : DbKey = record {
        id = key_id;
        provisioner_id = provisioner_id;
        reference = reference;
        account_id = [];
        hmac_key = random;
        created_at = now;
        bound_at = 0;
      } in
      save kv key_table key_id (some (key_row dbeak)) none s >=> λ u s1.
      add_eak_id provisioner_id key_id s1 >=> λ u s2.
      save_reference provisioner_id reference key_id s2 >=> λ u s3. (ok (eak_of dbeak), s3)

  unfoldable pub get_key : Bytes → Bytes → S → Outcome Error ExternalAccountKey
  get_key provisioner_id key_id s = get_db_key key_id s >>= λ dbeak.
      (if bytes_eq dbeak.provisioner_id provisioner_id
        then ok (eak_of dbeak)
        else err (problem unauthorized))

  -- An error of a deletion is returned.
  unfoldable pub del_row : Bytes → Bytes → Action S (Unit {0})
  del_row table key s = let (b, s') = kv.del table key s in ((if b then ok tt else err plain), s')

  unfoldable pub delete_reference : Bytes → Bytes → Action S (Unit {0})
  delete_reference provisioner_id reference s =
      if is_empty reference
      then (ok tt, s)
      else del_row key_by_reference_table (reference_key provisioner_id reference) s

  unfoldable pub delete_key : Bytes → Bytes → Action S (Unit {0})
  delete_key provisioner_id key_id s = elim (get_db_key key_id s) [
    | ok dbeak ↦
        if bytes_eq dbeak.provisioner_id provisioner_id
        then (delete_reference provisioner_id dbeak.reference s >=> λ u s1.
            del_row key_table key_id s1 >=> λ u s2. delete_eak_id provisioner_id key_id s2)
        else (err plain, s)
    | err e ↦ (err e, s)
    | panic ↦ (panic, s)
  ]

  -- The loop over the identifiers.
  unfoldable pub load_keys : List Bytes → S → Outcome Error (List ExternalAccountKey)
  load_keys [] s = ok []
  load_keys (id ∷ ids) s =
      let rest = load_keys ids s in
      if is_empty id
      then rest
      else get_db_key id s >>= λ dbeak. (rest >>= λ keys. ok (eak_of dbeak ∷ keys))

  unfoldable pub get_keys : Bytes → S → Outcome Error (List ExternalAccountKey)
  get_keys provisioner_id s = get_eak_ids provisioner_id s >>= λ ids. load_keys ids s

  -- `none` is a nil key without an error.
  unfoldable pub get_key_by_reference :
      Bytes → Bytes → S → Outcome Error (Option ExternalAccountKey)
  get_key_by_reference provisioner_id reference s =
      if is_empty reference
      then ok none
      else loaded absent (
          decoded read_reference
            (kv.get key_by_reference_table (reference_key provisioner_id reference) s))
        >>= λ r. (get_key provisioner_id r.external_account_key_id s >>= λ eak. ok (some eak))

  unfoldable pub update_key : Bytes → ExternalAccountKey → Action S (Unit {0})
  update_key provisioner_id eak s = elim (get_db_key eak.id s) [
    | ok old ↦
        if bytes_eq old.provisioner_id provisioner_id
        then (if bytes_eq old.provisioner_id eak.provisioner_id
            then (if bytes_eq old.reference eak.reference
                then save kv key_table eak.id (some (row_of eak)) (some (key_row old)) s
                else (err plain, s))
            else (err plain, s))
        else (err plain, s)
    | err e ↦ (err e, s)
    | panic ↦ (panic, s)
  ]
