-- ===== src/Authority/Reload/Failures.antt =====
-- The error paths of authority/policy.go over the database of authority/admin/db/nosql/.
use certificates.Base.{
  ◌≡◌, ◌⊎◌, inl, inr, refl, sym, ap, ap₂, subst, ◌∙◌, Bool-cases, Option, none, some, List, Bytes,
  Outcome, ok, err, panic, arith,
}
use certificates.Policy.Types.{External}
use certificates.Policy.Build.{ConstraintError}
use certificates.Authority.Linked.{LinkedPolicy, LinkedAdmin}
use certificates.Authority.Engine.{Engine, new_engine}
use certificates.Authority.Options.{linked_to_certificates}
use certificates.Authority.AdminDb.{
  AdminDbError, AdminKv, not_found, authority_mismatch, deleted, server_internal, other_error,
}
use certificates.Authority.AdminDb.Rows.RoundTrip.{without_empty}
use certificates.Authority.AdminDb.Policies.{get_authority_policy, create_authority_policy as write}
use certificates.Authority.AdminDb.Policies.Stored.{
  nosql_db, AdminKvLaws, create_authority_policy-get_authority_policy, get_authority_policy_keeps,
}
use certificates.Authority.AdminDb.Admins.{get_admins, get_admins_keeps}
use certificates.Authority.Reload.{
  PolicyConfig, PolicyState, PolicyError, reload_failure, store_failure, internal_failure,
  check_policy, check_authority_policy, after_check, after_db, after_reload, reload_policy_engines,
  load_with, installed, create_authority_policy,
}

module _ (x : External) {S : Type 0} (authority_id : Bytes) (kv : AdminKv S)
    (config : PolicyConfig) where
  -- How the creation of a policy fails: the check refused it and nothing changed; or the database
  -- did not store it; or it is stored and could not be loaded. The engine in force stays.
  pub data CreationFails (current : Option LinkedAdmin) (p : Option LinkedPolicy)
      (a a' : PolicyState S) : PolicyError → Type 0 where
    refused_by_check :
        {e : PolicyError}
        → check_authority_policy x (nosql_db authority_id kv) config current p a ≡ (err e, a)
        → a' ≡ a
        → CreationFails current p a a' e
    not_stored :
        {e : AdminDbError}
        → a'.policy_engine ≡ a.policy_engine
        → CreationFails current p a a' (store_failure e)
    not_loaded :
        {e : AdminDbError ⊎ ConstraintError}
        → a'.policy_engine ≡ a.policy_engine
        → get_authority_policy authority_id kv a'.admin_state
          ≡ (ok (without_empty p), a'.admin_state)
        → CreationFails current p a a' (reload_failure e)

  check_authority_policy_keeps :
      (current : Option LinkedAdmin) (p : Option LinkedPolicy) (a : PolicyState S)
      → (check_authority_policy x (nosql_db authority_id kv) config current p a).1 ≡ a
  unfolding check_authority_policy
  check_authority_policy_keeps current none a = refl
  check_authority_policy_keeps current (some p) a =
      go (get_admins authority_id kv a.admin_state) (get_admins_keeps authority_id kv a.admin_state)
    where
      go :
          (r : Outcome AdminDbError (List LinkedAdmin) × S)
          → r.1 ≡ a.admin_state
          → (after_db
              (λ e. internal_failure e)
              a
              r
              (λ admins b. (check_policy x current admins (some p), b))).1
            ≡ a
      go (ok l, s) e = ap (λ z. record a { admin_state = z }) e
      go (err c, s) e = ap (λ z. record a { admin_state = z }) e
      go (panic, s) e = ap (λ z. record a { admin_state = z }) e

  installed_err :
      (r : Outcome ConstraintError (Option Engine)) (a a' : PolicyState S)
      (e : AdminDbError ⊎ ConstraintError)
      → installed x r a ≡ (err e, a')
      → a' ≡ a
  unfolding installed
  installed_err (ok engine) a a' e h = absurd (ground arith)
  installed_err (err c) a a' e h = sym (ap (λ z. z.1) h)
  installed_err panic a a' e h = absurd (ground arith)

  load_with_err :
      (r : Outcome AdminDbError (Option LinkedPolicy)) (a a' : PolicyState S)
      (e : AdminDbError ⊎ ConstraintError)
      → load_with x r a ≡ (err e, a')
      → a' ≡ a
  unfolding load_with
  load_with_err (ok p) a a' e h = installed_err (new_engine x (linked_to_certificates p)) a a' e h
  load_with_err (err not_found) a a' e h =
      installed_err (new_engine x (linked_to_certificates none)) a a' e h
  load_with_err (err authority_mismatch) a a' e h = sym (ap (λ z. z.1) h)
  load_with_err (err deleted) a a' e h = sym (ap (λ z. z.1) h)
  load_with_err (err server_internal) a a' e h = sym (ap (λ z. z.1) h)
  load_with_err (err other_error) a a' e h = sym (ap (λ z. z.1) h)
  load_with_err panic a a' e h = absurd (ground arith)

  -- A reload that fails changes nothing.
  reload_policy_engines_err :
      (a a' : PolicyState S) (e : AdminDbError ⊎ ConstraintError)
      → reload_policy_engines x (nosql_db authority_id kv) config a ≡ (err e, a')
      → a' ≡ a
  unfolding reload_policy_engines
  reload_policy_engines_err a a' e h = elim (Bool-cases config.enable_admin) [
    | inl on ↦ elim (Bool-cases config.linked_ca) [
      | inl linked ↦ absurd (ground arith)
      | inr own ↦
          load_with_err (get_authority_policy authority_id kv a.admin_state).0
            (record a { admin_state = (get_authority_policy authority_id kv a.admin_state).1 }) a' e
            (ground arith)
          ∙ ap (λ z. record a { admin_state = z })
              (get_authority_policy_keeps authority_id kv a.admin_state)
    ]
    | inr off ↦ installed_err (new_engine x config.policy) a a' e (ground arith)
  ]

  reloaded_err :
      {B : Type 0} (b : B) (r : Outcome (AdminDbError ⊎ ConstraintError) (Unit {0}) × PolicyState S)
      (a' : PolicyState S) (e : PolicyError)
      → after_reload b r ≡ (err e, a')
      → (c : AdminDbError ⊎ ConstraintError) × (reload_failure c ≡ e) × (r ≡ (err c, a'))
  reloaded_err b (ok u, a1) a' e h = absurd (ground arith)
  reloaded_err {B} b (err c, a1) a' e h =
      let failure : ◌≡◌ {A = Outcome PolicyError B} (err (reload_failure c)) (err e) =
        ap (λ z. z.0) h in
      (c, cc, ap (λ z. (err c, z.1)) h)
  reloaded_err b (panic, a1) a' e h = absurd (ground arith)

  module _ (laws : AdminKvLaws kv) (current : Option LinkedAdmin) (p : Option LinkedPolicy) where
    -- The write and the reload.
    write_fails :
        (a a' : PolicyState S) (e : PolicyError) (r : Outcome AdminDbError (Unit {0}) × S)
        → write authority_id kv p a.admin_state ≡ r
        → after_db
            (λ c. store_failure c)
            a
            r
            (λ _ a2. after_reload p (reload_policy_engines x (nosql_db authority_id kv) config a2))
          ≡ (err e, a')
        → CreationFails current p a a' e
    write_fails a a' e (ok tt, s) same h =
        let b : PolicyState S = record a { admin_state = s } in
        let (c, failure, reloaded) =
          reloaded_err p (reload_policy_engines x (nosql_db authority_id kv) config b) a' e h in
        let kept = reload_policy_engines_err b a' c reloaded in
        let stored =
          create_authority_policy-get_authority_policy authority_id kv laws p a.admin_state s
            same in
        subst (CreationFails current p a a') failure (
          not_loaded (ap (λ z. z.policy_engine) kept) (
            subst (λ z. get_authority_policy authority_id kv z ≡ (ok (without_empty p), z))
              (sym (ap (λ z. z.admin_state) kept)) stored))
    write_fails a a' e (err c, s) same h =
        let failure : ◌≡◌ {A = Outcome PolicyError (Option LinkedPolicy)} (err (store_failure c))
            (err e) =
          ap (λ z. z.0) h in
        let is_store : store_failure c ≡ e = cc in
        subst (CreationFails current p a a') is_store
          (not_stored (sym (ap (λ z. z.1.policy_engine) h)))
    write_fails a a' e (panic, s) same h = absurd (ground arith)

    checked_fails :
        (a a' : PolicyState S) (e : PolicyError)
        (r : Outcome PolicyError (Unit {0}) × PolicyState S)
        → check_authority_policy x (nosql_db authority_id kv) config current p a ≡ r
        → r.1 ≡ a
        → after_check r (λ _ a1.
          after_db
            (λ c. store_failure c)
            a1
            (write authority_id kv p a1.admin_state)
            (λ _ a2. after_reload p (reload_policy_engines x (nosql_db authority_id kv) config a2)))
          ≡ (err e, a')
        → CreationFails current p a a' e
    checked_fails a a' e (ok tt, a1) same kept h =
        write_fails a a' e (write authority_id kv p a.admin_state) refl (
          subst
            (λ z.
              after_db (λ c. store_failure c) z (write authority_id kv p z.admin_state)
                (λ _ a2.
                  after_reload p (reload_policy_engines x (nosql_db authority_id kv) config a2))
              ≡ (err e, a'))
            kept h)
    checked_fails a a' e (err c, a1) same kept h =
        let failure : ◌≡◌ {A = Outcome PolicyError (Option LinkedPolicy)} (err c) (err e) =
          ap (λ z. z.0) h in
        let is_c : c ≡ e = cc in
        refused_by_check (same ∙ ap₂ (λ c' b. (err c', b)) is_c kept) (sym (ap (λ z. z.1) h) ∙ kept)
    checked_fails a a' e (panic, a1) same kept h = absurd (ground arith)

    -- Where a swap of the store writes what it is given, a creation of a policy that returns an error
    -- has one of three ends. Either the check returned that error and nothing changed; or the error is
    -- the one of a store failure; or the error is the one of a failed reload and the policy is in the
    -- database. In the last two the engine in force is the one before.
    pub create_authority_policy-CreationFails :
        (a a' : PolicyState S) (e : PolicyError)
        → create_authority_policy x (nosql_db authority_id kv) config current p a ≡ (err e, a')
        → CreationFails current p a a' e
    unfolding create_authority_policy
    create_authority_policy-CreationFails a a' e h =
        checked_fails a a' e
          (check_authority_policy x (nosql_db authority_id kv) config current p a) refl
          (check_authority_policy_keeps current p a) h
