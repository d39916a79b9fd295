-- ===== src/Authority/AdminDb/Admins.antt =====
-- The administrators of authority/admin/db/nosql/admin.go. The random identifier of `CreateAdmin`
-- is an argument, `none` where the generator fails, and so is the time.
use certificates.Base.{
  ◌≡◌, refl, ℕ, Option, none, some, List, [], ◌∷◌, Bytes, bytes_eq, ◌==◌, if◌then◌else◌, Outcome,
  ok, err, panic,
}
use certificates.Acme.Nosql.{Got, found, missing, broken}
use certificates.Authority.Linked.{LinkedAdmin, unknown_admin}
use certificates.Authority.AdminDb.{
  AdminDbError, not_found, authority_mismatch, deleted, server_internal, other_error, AdminAction,
  AdminKv, admins_table, save,
}
use certificates.Authority.AdminDb.Rows.{
  DbAdmin, AdminRow, empty_text, null_text, malformed_text, policy_text, admin_text,
}

abbrev pub convert_admin : DbAdmin → LinkedAdmin
convert_admin a = record {
  id = a.id;
  authority_id = a.authority_id;
  provisioner_id = a.provisioner_id;
  subject = a.subject;
  type = a.type;
  created_at = a.created_at;
  deleted_at = a.deleted_at;
}

-- json.Unmarshal into a new dbAdmin
unfoldable pub admin_of_text : AdminRow → Option DbAdmin
admin_of_text (admin_text a) = some a
admin_of_text null_text = some (record {
  id = [];
  authority_id = [];
  provisioner_id = [];
  subject = [];
  type = unknown_admin;
  created_at = 0;
  deleted_at = 0;
})
admin_of_text empty_text = none
admin_of_text malformed_text = none
admin_of_text (policy_text p) = none

module _ (authority_id : Bytes) where
  abbrev checked_admin : DbAdmin → Outcome AdminDbError DbAdmin
  checked_admin a =
      if a.deleted_at == 0
      then (if bytes_eq a.authority_id authority_id then ok a else err authority_mismatch)
      else err deleted

  unfoldable pub unmarshal_db_admin : AdminRow → Outcome AdminDbError DbAdmin
  unmarshal_db_admin row = elim (admin_of_text row) [
    | none ↦ err other_error
    | some a ↦ checked_admin a
  ]

  unfoldable pub read_admin : Got AdminRow → Outcome AdminDbError DbAdmin
  read_admin missing = err not_found
  read_admin broken = err other_error
  read_admin (found row) = unmarshal_db_admin row

  -- One entry of the loop of `GetAdmins`, before those that were read after it.
  next_admin :
      Outcome AdminDbError DbAdmin
      → Outcome AdminDbError (List LinkedAdmin)
      → Outcome AdminDbError (List LinkedAdmin)
  next_admin (err deleted) rest = rest
  next_admin (err authority_mismatch) rest = rest
  next_admin (err e) rest = err e
  next_admin panic rest = panic
  next_admin (ok a) (ok admins) =
      ok (if bytes_eq a.authority_id authority_id then convert_admin a ∷ admins else admins)
  next_admin (ok a) (err e) = err e
  next_admin (ok a) panic = panic

  unfoldable pub admins_of : List AdminRow → Outcome AdminDbError (List LinkedAdmin)
  unfolding next_admin
  admins_of [] = ok []
  admins_of (row ∷ rows) = next_admin (unmarshal_db_admin row) (admins_of rows)

  module _ {S : Type 0} (kv : AdminKv S) where
    abbrev pub get_db_admin : Bytes → S → Outcome AdminDbError DbAdmin
    get_db_admin id s = read_admin (kv.get admins_table id s)

    unfoldable pub get_admin : Bytes → AdminAction S LinkedAdmin
    get_admin id s = elim (get_db_admin id s) [
      | ok a ↦ (ok (convert_admin a), s)
      | err e ↦ (err e, s)
      | panic ↦ (panic, s)
    ]

    unfoldable pub get_admins : AdminAction S (List LinkedAdmin)
    get_admins s = elim (kv.list admins_table s) [
      | none ↦ (err other_error, s)
      | some rows ↦ (admins_of rows, s)
    ]

    -- The admin comes back with the identifiers that are set on it.
    unfoldable pub create_admin :
        Option Bytes → ℕ → LinkedAdmin → S → Outcome AdminDbError (Unit {0}) × LinkedAdmin × S
    create_admin none now adm s = (err server_internal, record adm { id = [] }, s)
    create_admin (some id) now adm s =
        let adm' = record adm { id = id; authority_id = authority_id } in
        let row = admin_text (record {
          id = id;
          authority_id = authority_id;
          provisioner_id = adm.provisioner_id;
          subject = adm.subject;
          type = adm.type;
          created_at = now;
          deleted_at = 0;
        }) in
        let (r, s') = save kv admins_table id (some row) none s in (r, adm', s')

    unfoldable pub update_admin : LinkedAdmin → AdminAction S (Unit {0})
    update_admin adm s = elim (get_db_admin adm.id s) [
      | ok old ↦
          save kv admins_table old.id (some (admin_text (record old { type = adm.type })))
            (some (admin_text old)) s
      | err e ↦ (err e, s)
      | panic ↦ (panic, s)
    ]

    unfoldable pub delete_admin : ℕ → Bytes → AdminAction S (Unit {0})
    delete_admin now id s = elim (get_db_admin id s) [
      | ok old ↦
          save kv admins_table old.id (some (admin_text (record old { deleted_at = now })))
            (some (admin_text old)) s
      | err e ↦ (err e, s)
      | panic ↦ (panic, s)
    ]

    pub get_admins_keeps : (s : S) → (get_admins s).1 ≡ s
    unfolding get_admins
    get_admins_keeps s = go (kv.list admins_table s)
      where
        go :
            (l : Option (List AdminRow))
            → (elim l as (λ _. Outcome AdminDbError (List LinkedAdmin) × S) [
              | none ↦ (err other_error, s)
              | some rows ↦ (admins_of rows, s)
            ]).1
              ≡ s
        go none = refl
        go (some rows) = refl
