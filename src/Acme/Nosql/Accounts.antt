-- ===== src/Acme/Nosql/Accounts.antt =====
-- acme/db/nosql/account.go. The random identifier is an argument, `none` where there is none.
pub mod Stored
use certificates.Base.{
  ℕ, Bool, true, false, Option, some, none, Bytes, Outcome, ok, err, panic, ◌>>=◌,
}
use certificates.Acme.Types.{Error, absent, plain, Status, deactivated}
use certificates.Acme.Account.{Account, key_to_id}
use certificates.Acme.Db.{Action}
use certificates.Acme.Nosql.{
  DbAccount, Row, account_row, id_row, account_table, account_by_key_id_table, Got, Swap, swapped,
  kept, failed, decoded, loaded, Kv, save, ◌>=>◌,
}

abbrev pub read_account : Row → Option DbAccount
read_account (account_row a) = some a
read_account _ = none

abbrev pub read_id : Row → Option Bytes
read_id (id_row id) = some id
read_id _ = none

abbrev pub account_of : DbAccount → Account
account_of dbacc = record {
  id = dbacc.id;
  key = dbacc.key;
  contact = dbacc.contact;
  status = dbacc.status;
}

abbrev pub is_deactivated : Status → Bool
is_deactivated deactivated = true
is_deactivated _ = false

-- The time of a deactivation is set where the status changes to deactivated.
abbrev deactivated_time : ℕ → Status → Status → ℕ → ℕ
deactivated_time now nu old was = elim (is_deactivated nu) [
  | true ↦ elim (is_deactivated old) [ true ↦ was | false ↦ now ]
  | false ↦ was
]

-- The values that an update changes.
abbrev pub account_with : ℕ → Account → DbAccount → DbAccount
account_with now acc old = record old {
  contact = acc.contact;
  status = acc.status;
  deactivated_at = deactivated_time now acc.status old.status old.deactivated_at;
}

-- The error of the second save comes back, after the index entry is deleted.
pub undone : {S A : Type 0} → (S → S) → Outcome Error A × S → Outcome Error A × S
undone undo (ok a, s) = (ok a, s)
undone undo (err e, s) = (err e, undo s)
undone undo (panic, s) = (panic, s)

module _ {S : Type 0} (kv : Kv S) where
  unfoldable pub get_account_id_by_key_id : Bytes → S → Outcome Error Bytes
  get_account_id_by_key_id kid s =
      loaded absent (decoded read_id (kv.get account_by_key_id_table kid s))

  unfoldable pub get_db_account : Bytes → S → Outcome Error DbAccount
  get_db_account id s = loaded absent (decoded read_account (kv.get account_table id s))

  unfoldable pub get_account : Bytes → S → Outcome Error Account
  get_account id s = get_db_account id s >>= λ dbacc. ok (account_of dbacc)

  unfoldable pub get_account_by_key_id : Bytes → S → Outcome Error Account
  get_account_by_key_id kid s = get_account_id_by_key_id kid s >>= λ id. get_account id s

  -- The index from the key to the account, then the account.
  unfoldable pub store_account : ℕ → Bytes → Bytes → Account → Action S Account
  unfolding undone
  store_account now id kid acc s =
      let (r, s1) = kv.cmp_and_swap account_by_key_id_table kid none (some (id_row id)) s in
      elim r [
        | failed ↦ (err plain, s1)
        | kept ↦ (err plain, s1)
        | swapped ↦
            undone (λ s2. (kv.del account_by_key_id_table kid s2).1)
              (save kv account_table id
                  (some (
                    account_row (record {
                      id = id;
                      key = acc.key;
                      contact = acc.contact;
                      status = acc.status;
                      created_at = now;
                      deactivated_at = 0;
                    })))
                  none s1
                >=> λ u s2. (ok (record acc { id = id }), s2))
      ]

  -- The account comes back with its identifier.
  unfoldable pub create_account :
      (Bytes → Option Bytes) → (Bytes → Bytes) → ℕ → Option Bytes → Account → Action S Account
  create_account thumbprint base64 now none acc s = (err plain, s)
  create_account thumbprint base64 now (some id) acc s =
      elim (key_to_id thumbprint base64 acc.key) [
        | ok kid ↦ store_account now id kid acc s
        | err e ↦ (err e, s)
        | panic ↦ (panic, s)
      ]

  unfoldable pub update_account : ℕ → Account → Action S (Unit {0})
  update_account now acc s = elim (get_db_account acc.id s) [
    | ok old ↦
        save kv account_table old.id (some (account_row (account_with now acc old)))
          (some (account_row old)) s
    | err e ↦ (err e, s)
    | panic ↦ (panic, s)
  ]
