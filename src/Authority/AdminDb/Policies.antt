-- ===== src/Authority/AdminDb/Policies.antt =====
-- The policies of authority/admin/db/nosql/policy.go.
pub mod Stored
use certificates.Base.{
  Option, none, some, List, [], ◌∷◌, Bytes, bytes_eq, if◌then◌else◌, Outcome, ok, err, panic,
}
use certificates.Acme.Nosql.{Got, found, missing, broken}
use certificates.Authority.Linked.{LinkedPolicy}
use certificates.Authority.AdminDb.{
  AdminDbError, not_found, authority_mismatch, server_internal, other_error, AdminAction, AdminKv,
  authority_policies_table, save,
}
use certificates.Authority.AdminDb.Rows.{
  DbPolicy, DbAuthorityPolicy, AdminRow, empty_text, null_text, malformed_text, policy_text,
  admin_text, db_to_linked, linked_to_db,
}

-- convert, also of a nil pointer
abbrev convert_policy : Option DbAuthorityPolicy → Option LinkedPolicy
convert_policy none = none
convert_policy (some p) = db_to_linked p.policy

-- unmarshalDBAuthorityPolicy; the text of a nil pointer leaves the fields as they are.
unfoldable pub unmarshal_policy : AdminRow → Outcome AdminDbError (Option DbAuthorityPolicy)
unmarshal_policy empty_text = ok none
unmarshal_policy null_text = ok (some (record { id = []; authority_id = []; policy = none }))
unmarshal_policy malformed_text = err other_error
unmarshal_policy (policy_text p) = ok (some p)
unmarshal_policy (admin_text a) = err other_error

-- What WrapErrorISE makes of an error of `save`.
abbrev wrapped :
    {S : Type 0} → Outcome AdminDbError (Unit {0}) × S → Outcome AdminDbError (Unit {0}) × S
wrapped (ok u, s) = (ok u, s)
wrapped (err e, s) = (err server_internal, s)
wrapped (panic, s) = (panic, s)

-- The text of a pointer.
abbrev policy_text_of : Option DbAuthorityPolicy → AdminRow
policy_text_of none = null_text
policy_text_of (some p) = policy_text p

module _ (authority_id : Bytes) where
  -- The row of a new policy.
  abbrev pub policy_row : Option LinkedPolicy → AdminRow
  policy_row p =
      policy_text
        (record { id = authority_id; authority_id = authority_id; policy = linked_to_db p })

  unfoldable owned : Option DbAuthorityPolicy → Outcome AdminDbError (Option DbAuthorityPolicy)
  owned none = ok none
  owned (some p) =
      if bytes_eq p.authority_id authority_id then ok (some p) else err authority_mismatch

  unfoldable policy_of_row :
      Outcome AdminDbError (Option DbAuthorityPolicy)
      → Outcome AdminDbError (Option DbAuthorityPolicy)
  unfolding owned
  policy_of_row (ok p) = owned p
  policy_of_row (err e) = err e
  policy_of_row panic = panic

  -- getDBAuthorityPolicy of what the store returned
  unfoldable pub read_policy : Got AdminRow → Outcome AdminDbError (Option DbAuthorityPolicy)
  unfolding policy_of_row unmarshal_policy
  read_policy missing = err not_found
  read_policy broken = err other_error
  read_policy (found row) = policy_of_row (unmarshal_policy row)

  module _ {S : Type 0} (kv : AdminKv S) where
    abbrev pub get_db_authority_policy : S → Outcome AdminDbError (Option DbAuthorityPolicy)
    get_db_authority_policy s = read_policy (kv.get authority_policies_table authority_id s)

    unfoldable pub create_authority_policy : Option LinkedPolicy → AdminAction S (Unit {0})
    create_authority_policy p s =
        wrapped (save kv authority_policies_table authority_id (some (policy_row p)) none s)

    abbrev converted :
        Outcome AdminDbError (Option DbAuthorityPolicy)
        → S
        → Outcome AdminDbError (Option LinkedPolicy) × S
    converted (ok p) s = (ok (convert_policy p), s)
    converted (err e) s = (err e, s)
    converted panic s = (panic, s)

    unfoldable pub get_authority_policy : AdminAction S (Option LinkedPolicy)
    get_authority_policy s = converted (get_db_authority_policy s) s

    abbrev update_read :
        Outcome AdminDbError (Option DbAuthorityPolicy)
        → Option LinkedPolicy
        → AdminAction S (Unit {0})
    update_read (ok old) p s = wrapped (
        save kv authority_policies_table authority_id (some (policy_row p))
          (some (policy_text_of old)) s)
    update_read (err e) p s = (err e, s)
    update_read panic p s = (panic, s)

    unfoldable pub update_authority_policy : Option LinkedPolicy → AdminAction S (Unit {0})
    update_authority_policy p s = update_read (get_db_authority_policy s) p s

    -- `old.ID` of a nil `old` panics.
    abbrev delete_read : Outcome AdminDbError (Option DbAuthorityPolicy) → AdminAction S (Unit {0})
    delete_read (ok none) s = (panic, s)
    delete_read (ok (some old)) s =
        wrapped (save kv authority_policies_table old.id none (some (policy_text old)) s)
    delete_read (err e) s = (err e, s)
    delete_read panic s = (panic, s)

    unfoldable pub delete_authority_policy : AdminAction S (Unit {0})
    delete_authority_policy s = delete_read (get_db_authority_policy s) s
