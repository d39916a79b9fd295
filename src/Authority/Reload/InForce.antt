-- ===== src/Authority/Reload/InForce.antt =====
-- authority/policy.go: the engine in force after a policy was created, updated or removed, over any
-- database that returns the policy it stored.
use certificates.Base.{
  ◌≡◌, ◌⊎◌, inl, inr, refl, sym, ap, subst, ◌∙◌, true, false, Option, none, some, List, [], ◌∷◌,
  All, Outcome, ok, err, panic, ok-injective, arith,
}
use certificates.Policy.Types.{External}
use certificates.Policy.Engine.{NamePolicyEngine}
use certificates.Policy.Build.{ConstraintError}
use certificates.Authority.Linked.{LinkedPolicy, LinkedAdmin}
use certificates.Authority.Options.{linked_to_certificates, get_x509_options}
use certificates.Authority.Engine.{Engine, new_x509_policy_engine, new_engine, are_sans_allowed}
use certificates.Authority.AdminDb.{AdminDb, AdminDbError, not_found, AdminAction}
use certificates.Authority.Reload.{
  PolicyConfig, PolicyState, check_policy, after_db, after_check, after_reload,
  reload_policy_engines, installed, load_with, check_authority_policy, store_failure,
  internal_failure, create_authority_policy, update_authority_policy, remove_authority_policy,
}
use certificates.Authority.Reload.NoLockOut.{
  LetsIn, LetsCurrentIn, check_policy_exact, x509_of, new_engine-x509, are_sans_allowed_by,
  after_check-ok, after_db-ok, after_reload-ok, no_engine-current, no_engine-others,
}

-- A database returns a policy with the options of the one that was written.
pub record ReturnsPolicies {S : Type 0} (db : AdminDb S) : Type 0 where
  pub created :
      (p : Option LinkedPolicy) (s s' : S)
      → db.create_authority_policy p s ≡ (ok tt, s')
      → (q : Option LinkedPolicy) × ((db.get_authority_policy s').0 ≡ ok q)
        × (linked_to_certificates q ≡ linked_to_certificates p)
  pub updated :
      (p : Option LinkedPolicy) (s s' : S)
      → db.update_authority_policy p s ≡ (ok tt, s')
      → (q : Option LinkedPolicy) × ((db.get_authority_policy s').0 ≡ ok q)
        × (linked_to_certificates q ≡ linked_to_certificates p)

-- A deletion in a state of the database leaves no policy.
abbrev pub RemovesPolicy : {S : Type 0} → AdminDb S → S → Type 0
RemovesPolicy {S} db s =
    (s' : S)
    → db.delete_authority_policy s ≡ (ok tt, s')
    → ((db.get_authority_policy s').0 ≡ err not_found) ⊎ ((db.get_authority_policy s').0 ≡ ok none)

-- The configuration has policies come from the administration database.
pub record LoadsFromDb (config : PolicyConfig) : Type 0 where
  pub enabled : config.enable_admin ≡ true
  pub own_db : config.linked_ca ≡ false

module _ (x : External) where
  -- The subject passes the X.509 policy of the engine in force.
  abbrev pub MayBeSigned : Option Engine → LinkedAdmin → Type 0
  MayBeSigned e adm = are_sans_allowed x e (adm.subject ∷ []) ≡ ok tt

  abbrev pub CurrentMayBeSigned : Option Engine → Option LinkedAdmin → Type 0
  CurrentMayBeSigned e none = Unit {0}
  CurrentMayBeSigned e (some adm) = MayBeSigned e adm

  each_signed :
      (e : Option Engine) (admins : List LinkedAdmin)
      → All (LetsIn x (x509_of e)) admins
      → All (MayBeSigned e) admins
  each_signed e [] h = tt
  each_signed e (adm ∷ admins) (h, hs) =
      (are_sans_allowed_by x e (adm.subject ∷ []) ∙ h, each_signed e admins hs)

  current_signed :
      (e : Option Engine) (current : Option LinkedAdmin)
      → LetsCurrentIn x (x509_of e) current
      → CurrentMayBeSigned e current
  current_signed e none h = tt
  current_signed e (some adm) h = are_sans_allowed_by x e (adm.subject ∷ []) ∙ h

  module _ {S : Type 0} where
    installed-ok :
        (r : Outcome ConstraintError (Option Engine)) (a a' : PolicyState S)
        → installed x r a ≡ (ok tt, a')
        → r ≡ ok a'.policy_engine
    unfolding installed
    installed-ok (ok e) a a' h = ap (λ z. ok z.1.policy_engine) h
    installed-ok (err c) a a' h = absurd (ground arith)
    installed-ok panic a a' h = absurd (ground arith)

  module _ {S : Type 0} (db : AdminDb S) (config : PolicyConfig) where
    -- The state after the policy was read.
    abbrev after_read : PolicyState S → PolicyState S
    after_read a = record a { admin_state = (db.get_authority_policy a.admin_state).1 }

    reload_policy_engines_by :
        (a : PolicyState S)
        → LoadsFromDb config
        → reload_policy_engines x db config a
          ≡ load_with x (db.get_authority_policy a.admin_state).0 (after_read a)
    unfolding reload_policy_engines
    reload_policy_engines_by a loads = rw (loads.enabled, loads.own_db) refl

    reload_policy_engines-ok :
        (a a' : PolicyState S) (q : Option LinkedPolicy)
        → LoadsFromDb config
        → (db.get_authority_policy a.admin_state).0 ≡ ok q
        → reload_policy_engines x db config a ≡ (ok tt, a')
        → new_engine x (linked_to_certificates q) ≡ ok a'.policy_engine
    unfolding load_with new_engine
    reload_policy_engines-ok a a' q loads got h =
        let loaded : load_with x (ok q) (after_read a) ≡ (ok tt, a') =
          subst (λ r. load_with x r (after_read a) ≡ (ok tt, a')) got
            (sym (reload_policy_engines_by a loads) ∙ h) in
        installed-ok (new_engine x (linked_to_certificates q)) (after_read a) a' loaded

    reload_policy_engines_without :
        (a a' : PolicyState S)
        → LoadsFromDb config
        → (db.get_authority_policy a.admin_state).0 ≡ err not_found
        → reload_policy_engines x db config a ≡ (ok tt, a')
        → a'.policy_engine ≡ none
    unfolding load_with new_engine
    reload_policy_engines_without a a' loads got h =
        let loaded : load_with x (err not_found) (after_read a) ≡ (ok tt, a') =
          subst (λ r. load_with x r (after_read a) ≡ (ok tt, a')) got
            (sym (reload_policy_engines_by a loads) ∙ h) in
        sym (
          ok-injective {E = ConstraintError} none a'.policy_engine
            (installed-ok (ok none) (after_read a) a' loaded))

    -- The check of a policy was one of the engine that is built from it.
    check_authority_policy-ok :
        (current : Option LinkedAdmin) (p : Option LinkedPolicy) (a a' : PolicyState S)
        (admins : List LinkedAdmin) (e : Option NamePolicyEngine)
        → check_authority_policy x db config current p a ≡ (ok tt, a')
        → (db.get_admins a.admin_state).0 ≡ ok admins
        → new_x509_policy_engine x (get_x509_options (linked_to_certificates p)) ≡ ok e
        → All (LetsIn x e) admins × LetsCurrentIn x e current
    unfolding check_authority_policy new_x509_policy_engine
    check_authority_policy-ok current none a a' admins e h listed built =
        let same = ok-injective {E = ConstraintError} none e built in
        (
          subst (λ z. All (LetsIn x z) admins) same (no_engine-others x admins),
          subst (λ z. LetsCurrentIn x z current) same (no_engine-current x current),
        )
    check_authority_policy-ok current (some p) a a' admins e h listed built =
        let (found, s, got, h1) =
          after_db-ok (λ e. internal_failure e) a (db.get_admins a.admin_state)
            (λ l b. (check_policy x current l (some p), b)) h in
        let same : found ≡ admins =
          ok-injective {E = AdminDbError} found admins (sym (ap (λ z. z.0) got) ∙ listed) in
        let passed = (check_policy_exact x current found (some p)).0 (ap (λ z. z.0) h1) in
        let engine =
          ok-injective {E = ConstraintError} passed.engine e (sym passed.built ∙ built) in
        (
          subst (λ z. All (LetsIn x z) admins) engine
              (subst (λ l. All (LetsIn x passed.engine) l) same passed.others_in),
          subst (λ z. LetsCurrentIn x z current) engine passed.current_in,
        )

    -- A check, a write that the database returns, and a reload.
    changed :
        (op : AdminAction S (Unit {0})) (current : Option LinkedAdmin) (p q : Option LinkedPolicy)
        (a a' : PolicyState S) (admins : List LinkedAdmin)
        → LoadsFromDb config
        → ((s s' : S)
            → op s ≡ (ok tt, s')
            → (r : Option LinkedPolicy) × ((db.get_authority_policy s').0 ≡ ok r)
              × (linked_to_certificates r ≡ linked_to_certificates p))
        → (db.get_admins a.admin_state).0 ≡ ok admins
        → after_check (check_authority_policy x db config current p a) (λ _ a1.
          after_db store_failure a1
            (op a1.admin_state)
            (λ _ a2. after_reload p (reload_policy_engines x db config a2)))
          ≡ (ok q, a')
        → All (MayBeSigned a'.policy_engine) admins × CurrentMayBeSigned a'.policy_engine current
    changed op current p q a a' admins loads returns listed h =
        let (tt, a1, checked, h1) =
          after_check-ok (check_authority_policy x db config current p a) _ h in
        let (_, s1, wrote, h2) = after_db-ok store_failure a1 (op a1.admin_state) _ h1 in
        let (r, got, same) = returns a1.admin_state s1 wrote in
        let engine =
          reload_policy_engines-ok (record a1 { admin_state = s1 }) a' r loads got
            (after_reload-ok p (reload_policy_engines x db config (record a1 { admin_state = s1 }))
              h2) in
        let x509 =
          new_engine-x509 x (linked_to_certificates p) a'.policy_engine
            (subst (λ o. new_engine x o ≡ ok a'.policy_engine) same engine) in
        let (others, own) =
          check_authority_policy-ok current p a a1 admins (x509_of a'.policy_engine) checked listed
            x509 in
        (each_signed a'.policy_engine admins others, current_signed a'.policy_engine current own)

    module _ (loads : LoadsFromDb config) where
      pub create_authority_policy-MayBeSigned :
          ReturnsPolicies db
          → (current : Option LinkedAdmin) (p q : Option LinkedPolicy) (a a' : PolicyState S)
            (admins : List LinkedAdmin)
          → (db.get_admins a.admin_state).0 ≡ ok admins
          → create_authority_policy x db config current p a ≡ (ok q, a')
          → All (MayBeSigned a'.policy_engine) admins × CurrentMayBeSigned a'.policy_engine current
      unfolding create_authority_policy
      create_authority_policy-MayBeSigned returns current p q a a' admins listed h =
          changed (λ s. db.create_authority_policy p s) current p q a a' admins loads
            (λ s s' w. returns.created p s s' w) listed h

      pub update_authority_policy-MayBeSigned :
          ReturnsPolicies db
          → (current : Option LinkedAdmin) (p q : Option LinkedPolicy) (a a' : PolicyState S)
            (admins : List LinkedAdmin)
          → (db.get_admins a.admin_state).0 ≡ ok admins
          → update_authority_policy x db config current p a ≡ (ok q, a')
          → All (MayBeSigned a'.policy_engine) admins × CurrentMayBeSigned a'.policy_engine current
      unfolding update_authority_policy
      update_authority_policy-MayBeSigned returns current p q a a' admins listed h =
          changed (λ s. db.update_authority_policy p s) current p q a a' admins loads
            (λ s s' w. returns.updated p s s' w) listed h

      pub remove_authority_policy-ok :
          (a a' : PolicyState S)
          → RemovesPolicy db a.admin_state
          → remove_authority_policy x db config a ≡ (ok tt, a')
          → a'.policy_engine ≡ none
      unfolding remove_authority_policy new_engine
      remove_authority_policy-ok a a' removes h =
          let (tt, s1, wrote, h1) =
            after_db-ok (λ e. store_failure e) a (db.delete_authority_policy a.admin_state) _ h in
          let b : PolicyState S = record a { admin_state = s1 } in
          let reloaded = after_reload-ok tt (reload_policy_engines x db config b) h1 in
          elim (removes s1 wrote) [
            | inl gone ↦ reload_policy_engines_without b a' loads gone reloaded
            | inr empty ↦ sym (
                ok-injective {E = ConstraintError} none a'.policy_engine
                  (reload_policy_engines-ok b a' none loads empty reloaded))
          ]
