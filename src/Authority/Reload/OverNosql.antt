-- ===== src/Authority/Reload/OverNosql.antt =====
-- authority/policy.go over the database of authority/admin/db/nosql/.
use certificates.Base.{◌≡◌, Option, none, List, Bytes, All, ok}
use certificates.Policy.Types.{External}
use certificates.Authority.Linked.{LinkedPolicy, LinkedAdmin}
use certificates.Authority.AdminDb.{AdminKv}
use certificates.Authority.AdminDb.Admins.{get_admins}
use certificates.Authority.AdminDb.Policies.Stored.{
  nosql_db, AdminKvLaws, HasOwnId, nosql_db-ReturnsPolicies, nosql_db-RemovesPolicy,
}
use certificates.Authority.Reload.{
  PolicyConfig, PolicyState, create_authority_policy, update_authority_policy,
  remove_authority_policy,
}
use certificates.Authority.Reload.InForce.{
  LoadsFromDb, MayBeSigned, CurrentMayBeSigned, create_authority_policy-MayBeSigned,
  update_authority_policy-MayBeSigned, remove_authority_policy-ok,
}

module _ (x : External) {S : Type 0} (authority_id : Bytes) (kv : AdminKv S)
    (config : PolicyConfig) where
  -- Where a swap of the store writes what it is given, and the configuration has policies come from
  -- this database, the creation of an authority's policy that returns no error leaves an engine in
  -- force that allows the subject of each administrator whom the database lists, and of the
  -- administrator who asked for the change, where there is one.
  pub create_authority_policy-NobodyLockedOut :
      AdminKvLaws kv
      → LoadsFromDb config
      → (current : Option LinkedAdmin) (p q : Option LinkedPolicy) (a a' : PolicyState S)
        (admins : List LinkedAdmin)
      → (get_admins authority_id kv a.admin_state).0 ≡ ok admins
      → create_authority_policy x (nosql_db authority_id kv) config current p a ≡ (ok q, a')
      → All (MayBeSigned x a'.policy_engine) admins × CurrentMayBeSigned x a'.policy_engine current
  create_authority_policy-NobodyLockedOut laws loads current p q a a' admins listed h =
      create_authority_policy-MayBeSigned x (nosql_db authority_id kv) config loads
        (nosql_db-ReturnsPolicies authority_id kv laws) current p q a a' admins listed h

  -- Where a swap of the store writes what it is given, and the configuration has policies come from
  -- this database, the update of an authority's policy that returns no error leaves an engine in
  -- force that allows the subject of each administrator whom the database lists, and of the
  -- administrator who asked for the change, where there is one.
  pub update_authority_policy-NobodyLockedOut :
      AdminKvLaws kv
      → LoadsFromDb config
      → (current : Option LinkedAdmin) (p q : Option LinkedPolicy) (a a' : PolicyState S)
        (admins : List LinkedAdmin)
      → (get_admins authority_id kv a.admin_state).0 ≡ ok admins
      → update_authority_policy x (nosql_db authority_id kv) config current p a ≡ (ok q, a')
      → All (MayBeSigned x a'.policy_engine) admins × CurrentMayBeSigned x a'.policy_engine current
  update_authority_policy-NobodyLockedOut laws loads current p q a a' admins listed h =
      update_authority_policy-MayBeSigned x (nosql_db authority_id kv) config loads
        (nosql_db-ReturnsPolicies authority_id kv laws) current p q a a' admins listed h

  -- Where a swap of the store with a nil text leaves no text or an empty one, the configuration has
  -- policies come from this database, and a row of the authority there has the authority's own
  -- identifier, a removal of the authority's policy that returns no error leaves no engine in force.
  pub remove_authority_policy-no_engine :
      AdminKvLaws kv
      → LoadsFromDb config
      → (a a' : PolicyState S) → HasOwnId authority_id kv a.admin_state
      → remove_authority_policy x (nosql_db authority_id kv) config a ≡ (ok tt, a')
      → a'.policy_engine ≡ none
  remove_authority_policy-no_engine laws loads a a' own h =
      remove_authority_policy-ok x (nosql_db authority_id kv) config loads a a'
        (nosql_db-RemovesPolicy authority_id kv laws a.admin_state own) h
