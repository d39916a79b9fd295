-- ===== src/Authority/Reload.antt =====
-- authority/policy.go: the authority's policy is checked against the administrators, stored, and
-- loaded again. The administration database is a parameter; its state and the engine in force are
-- the state. The mutex of the functions makes each of them one step.
pub mod NoLockOut
pub mod InForce
pub mod OverNosql
pub mod Failures
use certificates.Base.{
  Bool, true, false, Option, none, some, List, [], ◌∷◌, Bytes, if◌then◌else◌, Outcome, ok, err,
  panic, ◌>>◌, ◌⊎◌, inl, inr,
}
use certificates.Policy.Types.{
  External, NamePolicyReason, NamePolicyError, not_allowed, cannot_parse_domain,
  cannot_parse_rfc822_name, cannot_match_name_to_constraint,
}
use certificates.Policy.Constraints.{Verdict}
use certificates.Policy.Engine.{NamePolicyEngine}
use certificates.Policy.Build.{ConstraintError}
use certificates.Authority.Linked.{LinkedPolicy, LinkedAdmin}
use certificates.Authority.Options.{Options, linked_to_certificates, get_x509_options}
use certificates.Authority.Engine.{
  Engine, new_x509_policy_engine, new_engine, is_x509_certificate_allowed, sans_by,
}
use certificates.Authority.AdminDb.{
  AdminDb, AdminDbError, not_found, authority_mismatch, deleted, server_internal, other_error,
}

-- PolicyError, with the error of the configuration or the subjects that the text names. The error
-- of a reload is that of the database or of the configuration.
pub data PolicyError : Type 0 where
  admin_lock_out : List Bytes → PolicyError
  store_failure : AdminDbError → PolicyError
  reload_failure : AdminDbError ⊎ ConstraintError → PolicyError
  configuration_failure : ConstraintError → PolicyError
  evaluation_failure : NamePolicyError → PolicyError
  internal_failure : AdminDbError → PolicyError

-- The fields of `Authority` that the policy reads: `EnableAdmin` and `Policy` of the configuration,
-- and whether the database is the client of a linked authority.
pub record PolicyConfig : Type 0 where
  pub enable_admin : Bool
  pub linked_ca : Bool
  pub policy : Option Options

-- The state: that of the database, and `policyEngine`.
pub record PolicyState (S : Type 0) : Type 0 where
  pub admin_state : S
  pub policy_engine : Option Engine

abbrev pub PolicyAction : Type 0 → Type 0 → Type 0
PolicyAction S A = PolicyState S → Outcome PolicyError A × PolicyState S

lock_out : List Bytes → NamePolicyReason → NamePolicyError → PolicyError
lock_out sans not_allowed e = admin_lock_out sans
lock_out sans cannot_parse_domain e = evaluation_failure e
lock_out sans cannot_parse_rfc822_name e = evaluation_failure e
lock_out sans cannot_match_name_to_constraint e = evaluation_failure e

-- isAllowed of the result of `AreSANsAllowed`
unfoldable allowed_of : List Bytes → Verdict → Outcome PolicyError (Unit {0})
unfolding lock_out
allowed_of sans (ok u) = ok u
allowed_of sans (err e) = err (lock_out sans e.reason e)
allowed_of sans panic = panic

-- The rest of a function runs where the database returned no error.
abbrev pub after_db :
    {S A B : Type 0}
    → (AdminDbError → PolicyError)
    → PolicyState S
    → Outcome AdminDbError A × S
    → (A → PolicyAction S B)
    → Outcome PolicyError B × PolicyState S
after_db f a (ok v, s) k = k v (record a { admin_state = s })
after_db f a (err e, s) k = (err (f e), record a { admin_state = s })
after_db f a (panic, s) k = (panic, record a { admin_state = s })

abbrev pub after_check :
    {S A B : Type 0}
    → Outcome PolicyError A × PolicyState S
    → (A → PolicyAction S B)
    → Outcome PolicyError B × PolicyState S
after_check (ok v, a) k = k v a
after_check (err e, a) k = (err e, a)
after_check (panic, a) k = (panic, a)

abbrev pub after_reload :
    {S B : Type 0}
    → B
    → Outcome (AdminDbError ⊎ ConstraintError) (Unit {0}) × PolicyState S
    → Outcome PolicyError B × PolicyState S
after_reload b (ok u, a) = (ok b, a)
after_reload b (err e, a) = (err (reload_failure e), a)
after_reload b (panic, a) = (panic, a)

module _ (x : External) where
  unfoldable pub is_allowed : NamePolicyEngine → List Bytes → Outcome PolicyError (Unit {0})
  unfolding allowed_of
  is_allowed engine sans = allowed_of sans (sans_by x (some engine) sans)

  -- The loop over the other admins.
  unfoldable pub all_allowed : NamePolicyEngine → List LinkedAdmin → Outcome PolicyError (Unit {0})
  all_allowed engine [] = ok tt
  all_allowed engine (adm ∷ admins) =
      is_allowed engine (adm.subject ∷ []) >> all_allowed engine admins

  abbrev current_allowed : NamePolicyEngine → Option LinkedAdmin → Outcome PolicyError (Unit {0})
  current_allowed engine none = ok tt
  current_allowed engine (some adm) = is_allowed engine (adm.subject ∷ [])

  unfoldable checked_by :
      Option LinkedAdmin
      → List LinkedAdmin
      → Outcome ConstraintError (Option NamePolicyEngine)
      → Outcome PolicyError (Unit {0})
  checked_by current others (err e) = err (configuration_failure e)
  checked_by current others panic = panic
  checked_by current others (ok none) = ok tt
  checked_by current others (ok (some engine)) =
      current_allowed engine current >> all_allowed engine others

  unfoldable pub check_policy :
      Option LinkedAdmin → List LinkedAdmin → Option LinkedPolicy → Outcome PolicyError (Unit {0})
  unfolding checked_by
  check_policy current others p = elim (linked_to_certificates p) [
    | none ↦ ok tt
    | some options ↦
        checked_by current others (new_x509_policy_engine x (get_x509_options (some options)))
  ]

  -- The argument `LoadByProvisioner` stands for the collection's method.
  unfoldable pub check_provisioner_policy :
      (Bytes → List LinkedAdmin) → Bytes → Option LinkedPolicy → Outcome PolicyError (Unit {0})
  check_provisioner_policy load_by_provisioner prov_name none = ok tt
  check_provisioner_policy load_by_provisioner prov_name (some p) =
      check_policy none (load_by_provisioner prov_name) (some p)

  module _ {S : Type 0} where
    -- The engine in force changes only where the new one was built.
    unfoldable installed :
        Outcome ConstraintError (Option Engine)
        → PolicyState S
        → Outcome (AdminDbError ⊎ ConstraintError) (Unit {0}) × PolicyState S
    installed (ok engine) a = (ok tt, record a { policy_engine = engine })
    installed (err e) a = (err (inr e), a)
    installed panic a = (panic, a)

    -- The policy that was read; a policy that is not found is nil.
    unfoldable load_with :
        Outcome AdminDbError (Option LinkedPolicy)
        → PolicyState S
        → Outcome (AdminDbError ⊎ ConstraintError) (Unit {0}) × PolicyState S
    unfolding installed
    load_with (ok p) a = installed (new_engine x (linked_to_certificates p)) a
    load_with (err not_found) a = installed (new_engine x (linked_to_certificates none)) a
    load_with (err e) a = (err (inl e), a)
    load_with panic a = (panic, a)

  module _ {S : Type 0} (db : AdminDb S) (config : PolicyConfig) where
    unfoldable pub reload_policy_engines :
        PolicyState S → Outcome (AdminDbError ⊎ ConstraintError) (Unit {0}) × PolicyState S
    unfolding load_with installed
    reload_policy_engines a =
        if config.enable_admin
        then (if config.linked_ca
            then (ok tt, a)
            else (let (p, s) = db.get_authority_policy a.admin_state in
                load_with p (record a { admin_state = s })))
        else installed (new_engine x config.policy) a

    -- checkAuthorityPolicy
    unfoldable pub check_authority_policy :
        Option LinkedAdmin → Option LinkedPolicy → PolicyAction S (Unit {0})
    check_authority_policy current none a = (ok tt, a)
    check_authority_policy current (some p) a =
        after_db internal_failure a (db.get_admins a.admin_state)
          (λ admins a'. (check_policy current admins (some p), a'))

    -- GetAuthorityPolicy
    abbrev pub get_authority_policy : PolicyAction S (Option LinkedPolicy)
    get_authority_policy a =
        after_db internal_failure a (db.get_authority_policy a.admin_state) (λ p a'. (ok p, a'))

    unfoldable pub create_authority_policy :
        Option LinkedAdmin → Option LinkedPolicy → PolicyAction S (Option LinkedPolicy)
    create_authority_policy current p a = after_check (check_authority_policy current p a) (λ _ a1.
        after_db store_failure a1 (db.create_authority_policy p a1.admin_state)
          (λ _ a2. after_reload p (reload_policy_engines a2)))

    unfoldable pub update_authority_policy :
        Option LinkedAdmin → Option LinkedPolicy → PolicyAction S (Option LinkedPolicy)
    update_authority_policy current p a = after_check (check_authority_policy current p a) (λ _ a1.
        after_db store_failure a1 (db.update_authority_policy p a1.admin_state)
          (λ _ a2. after_reload p (reload_policy_engines a2)))

    unfoldable pub remove_authority_policy : PolicyAction S (Unit {0})
    remove_authority_policy a =
        after_db store_failure a (db.delete_authority_policy a.admin_state)
          (λ _ a1. after_reload tt (reload_policy_engines a1))
