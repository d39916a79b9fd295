-- ===== src/Authority/AdminDb.antt =====
-- The administration database: the operations of `DB` of authority/admin/db.go that the authority's
-- policies use, and the package authority/admin/db/nosql/ over a key-value store (nosql.go).
pub mod Rows
pub mod Policies
pub mod Admins
use certificates.Base.{Option, some, none, List, Bytes, codes, Outcome, ok, err}
use certificates.Acme.Nosql.{Got, Swap, swapped, kept, failed}
use certificates.Authority.Linked.{LinkedPolicy, LinkedAdmin}
use Rows.{AdminRow}

-- The errors that the callers tell apart: those of admin.Error by their type, and the others.
pub data AdminDbError : Type 0 where
  not_found authority_mismatch deleted server_internal other_error : AdminDbError

abbrev pub AdminAction : Type 0 → Type 0 → Type 0
AdminAction S A = S → Outcome AdminDbError A × S

pub record AdminDb (S : Type 0) : Type 0 where
  pub get_admins : AdminAction S (List LinkedAdmin)
  pub create_authority_policy : Option LinkedPolicy → AdminAction S (Unit {0})
  pub get_authority_policy : AdminAction S (Option LinkedPolicy)
  pub update_authority_policy : Option LinkedPolicy → AdminAction S (Unit {0})
  pub delete_authority_policy : AdminAction S (Unit {0})

abbrev pub admins_table : Bytes
admins_table = codes "admins"

abbrev pub authority_policies_table : Bytes
authority_policies_table = codes "authority_policies"

-- The store github.com/smallstep/nosql over a type of states. `none` is a nil text; `list` gives
-- the texts of a table.
pub record AdminKv (S : Type 0) : Type 0 where
  pub get : Bytes → Bytes → S → Got AdminRow
  pub cmp_and_swap : Bytes → Bytes → Option AdminRow → Option AdminRow → S → Swap × S
  pub list : Bytes → S → Option (List AdminRow)

abbrev saved : Swap → Outcome AdminDbError (Unit {0})
saved swapped = ok tt
saved kept = err other_error
saved failed = err other_error

-- DB.save; json.Marshal of the rows returns no error.
unfoldable pub save :
    {S : Type 0}
    → AdminKv S
    → Bytes
    → Bytes
    → Option AdminRow
    → Option AdminRow
    → AdminAction S (Unit {0})
save kv table id nu old s = let (r, s') = kv.cmp_and_swap table id old nu s in (saved r, s')
