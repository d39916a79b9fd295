-- ===== src/Authority/Reload/NoLockOut.antt =====
-- authority/policy.go: what the check of a policy, a change of it and its removal leave in force.
use certificates.Base.{
  subst, ok-injective, ◌≡◌, ◌↔◌, ◌⊎◌, refl, sym, ap, ◌∙◌, Option, none, some, List, [], ◌∷◌, Bytes,
  All, Outcome, ok, err, panic, seq-eq-ok, bind-eq-ok, arith,
}
use certificates.Policy.Types.{External}
use certificates.Policy.Constraints.{Verdict}
use certificates.Policy.Engine.{NamePolicyEngine}
use certificates.Policy.Build.{ConstraintError}
use certificates.Authority.Linked.{LinkedPolicy, LinkedAdmin}
use certificates.Authority.Options.{Options, linked_to_certificates, get_x509_options}
use certificates.Authority.Engine.{
  Engine, new_ssh_policy_engine, host_policy_engine_type, user_policy_engine_type,
  new_x509_policy_engine, new_engine, sans_by, are_sans_allowed,
}
use certificates.Authority.AdminDb.{AdminDbError}
use certificates.Authority.Reload.{
  PolicyError, PolicyState, PolicyAction, allowed_of, is_allowed, all_allowed, current_allowed,
  checked_by, check_policy, after_db, after_check, after_reload,
}

allowed_of-ok : (sans : List Bytes) (v : Verdict) → allowed_of sans v ≡ ok tt → v ≡ ok tt
unfolding allowed_of
allowed_of-ok sans (ok tt) h = refl
allowed_of-ok sans (err e) h = absurd (ground arith)
allowed_of-ok sans panic h = absurd (ground arith)

-- The X.509 engine of an authority's engine.
abbrev pub x509_of : Option Engine → Option NamePolicyEngine
x509_of none = none
x509_of (some e) = e.x509_policy

module _ (x : External) where
  -- The subject of an administrator passes an X.509 engine; without one every subject does.
  abbrev pub LetsIn : Option NamePolicyEngine → LinkedAdmin → Type 0
  LetsIn engine adm = sans_by x engine (adm.subject ∷ []) ≡ ok tt

  abbrev pub LetsCurrentIn : Option NamePolicyEngine → Option LinkedAdmin → Type 0
  LetsCurrentIn engine none = Unit {0}
  LetsCurrentIn engine (some adm) = LetsIn engine adm

  -- The engine that a policy builds lets the current administrator and the others in.
  pub record NobodyIsLockedOut (current : Option LinkedAdmin) (others : List LinkedAdmin)
      (p : Option LinkedPolicy) : Type 0 where
    pub engine : Option NamePolicyEngine
    pub built : new_x509_policy_engine x (get_x509_options (linked_to_certificates p)) ≡ ok engine
    pub current_in : LetsCurrentIn engine current
    pub others_in : All (LetsIn engine) others

  is_allowed_iff :
      (e : NamePolicyEngine) (adm : LinkedAdmin)
      → (is_allowed x e (adm.subject ∷ []) ≡ ok tt) ↔ LetsIn (some e) adm
  unfolding is_allowed
  is_allowed_iff e adm = (
    λ h. allowed_of-ok (adm.subject ∷ []) (sans_by x (some e) (adm.subject ∷ [])) h,
    λ h. ap (allowed_of (adm.subject ∷ [])) h,
  )

  all_allowed_iff :
      (e : NamePolicyEngine) (admins : List LinkedAdmin)
      → (all_allowed x e admins ≡ ok tt) ↔ All (LetsIn (some e)) admins
  unfolding all_allowed
  all_allowed_iff e [] = (λ h. tt, λ h. refl)
  all_allowed_iff e (adm ∷ admins) =
      let rest = all_allowed_iff e admins in
      let first = is_allowed_iff e adm in
      (
        λ h.
            let (h1, h2) =
              seq-eq-ok (is_allowed x e (adm.subject ∷ [])) (all_allowed x e admins) h in
            (first.0 h1, rest.0 h2),
        λ (h1, h2). rw (first.1 h1) (rest.1 h2),
      )

  current_allowed_iff :
      (e : NamePolicyEngine) (current : Option LinkedAdmin)
      → (current_allowed x e current ≡ ok tt) ↔ LetsCurrentIn (some e) current
  current_allowed_iff e none = (λ h. tt, λ h. refl)
  current_allowed_iff e (some adm) = is_allowed_iff e adm

  pub no_engine-current : (current : Option LinkedAdmin) → LetsCurrentIn none current
  no_engine-current none = tt
  no_engine-current (some adm) = refl

  pub no_engine-others : (admins : List LinkedAdmin) → All (LetsIn none) admins
  no_engine-others [] = tt
  no_engine-others (adm ∷ admins) = (refl, no_engine-others admins)

  -- The check after the engine was built.
  checked_by_exact :
      (current : Option LinkedAdmin) (others : List LinkedAdmin)
      (r : Outcome ConstraintError (Option NamePolicyEngine))
      → (checked_by x current others r ≡ ok tt) ↔ (
          (engine : Option NamePolicyEngine) × (r ≡ ok engine)
          × LetsCurrentIn engine current
          × All (LetsIn engine) others)
  unfolding checked_by
  checked_by_exact current others (err e) =
      (λ h. absurd (ground arith), λ (e', h, k, l). absurd (ground arith))
  checked_by_exact current others panic =
      (λ h. absurd (ground arith), λ (e', h, k, l). absurd (ground arith))
  checked_by_exact current others (ok none) =
      (λ h. (none, refl, no_engine-current current, no_engine-others others), λ h. refl)
  checked_by_exact current others (ok (some e)) = (
    λ h.
        let (h1, h2) = seq-eq-ok (current_allowed x e current) (all_allowed x e others) h in
        (some e, refl, (current_allowed_iff e current).0 h1, (all_allowed_iff e others).0 h2),
    λ (e', h, in_current, in_others).
        let same : e' ≡ some e = cc in
        let now =
          (current_allowed_iff e current).1
            (subst (λ z. LetsCurrentIn z current) same in_current) in
        rw now ((all_allowed_iff e others).1 (subst (λ z. All (LetsIn z) others) same in_others)),
  )

  check_policy_by :
      (current : Option LinkedAdmin) (others : List LinkedAdmin) (p : Option LinkedPolicy)
      → check_policy x current others p
        ≡ checked_by x current others
            (new_x509_policy_engine x (get_x509_options (linked_to_certificates p)))
  unfolding check_policy checked_by new_x509_policy_engine
  check_policy_by current others p = go (linked_to_certificates p)
    where
      go :
          (o : Option Options)
          → elim o as (λ _. Outcome PolicyError (Unit {0})) [
            | none ↦ ok tt
            | some options ↦
                checked_by x current others
                  (new_x509_policy_engine x (get_x509_options (some options)))
          ]
            ≡ checked_by x current others (new_x509_policy_engine x (get_x509_options o))
      go none = refl
      go (some o) = refl

  -- A policy passes the check exactly where an X.509 engine can be built from it, or none is
  -- needed, and that engine lets the subject of the current administrator, where there is one, and
  -- of every other administrator in.
  pub check_policy_exact :
      (current : Option LinkedAdmin) (others : List LinkedAdmin) (p : Option LinkedPolicy)
      → (check_policy x current others p ≡ ok tt) ↔ NobodyIsLockedOut current others p
  check_policy_exact current others p =
      let exact =
        checked_by_exact current others
          (new_x509_policy_engine x (get_x509_options (linked_to_certificates p))) in
      let by_engine = check_policy_by current others p in
      (
        λ h.
            let (e, built, in_current, in_others) = exact.0 (sym by_engine ∙ h) in
            record { engine = e; built = built; current_in = in_current; others_in = in_others },
        λ n. by_engine ∙ exact.1 (n.engine, n.built, n.current_in, n.others_in),
      )

  -- The engine of the authority has the X.509 engine that the check builds.
  pub new_engine-x509 :
      (o : Option Options) (e : Option Engine)
      → new_engine x o ≡ ok e
      → new_x509_policy_engine x (get_x509_options o) ≡ ok (x509_of e)
  unfolding new_engine new_x509_policy_engine
  new_engine-x509 none e h = ap (λ z. ok (x509_of z)) (ok-injective {E = ConstraintError} none e h)
  new_engine-x509 (some o) e h =
      let (x509, built, h1) = bind-eq-ok (new_x509_policy_engine x o.x509) _ h in
      let (host, _, h2) = bind-eq-ok (new_ssh_policy_engine x o.ssh host_policy_engine_type) _ h1 in
      let (user, _, h3) = bind-eq-ok (new_ssh_policy_engine x o.ssh user_policy_engine_type) _ h2 in
      built ∙ ap (λ z. ok (x509_of z)) (ok-injective {E = ConstraintError} _ e h3)

  pub are_sans_allowed_by :
      (e : Option Engine) (sans : List Bytes)
      → are_sans_allowed x e sans ≡ sans_by x (x509_of e) sans
  are_sans_allowed_by none sans = refl
  are_sans_allowed_by (some e) sans = refl

pub after_check-ok :
    {S A B : Type 0} (r : Outcome PolicyError A × PolicyState S) (k : A → PolicyAction S B) {b : B}
    {a' : PolicyState S}
    → after_check r k ≡ (ok b, a')
    → (v : A) × (a1 : PolicyState S) × (r ≡ (ok v, a1)) × (k v a1 ≡ (ok b, a'))
after_check-ok (ok v, a1) k h = (v, a1, refl, h)
after_check-ok (err e, a1) k h = absurd (ground arith)
after_check-ok (panic, a1) k h = absurd (ground arith)

pub after_db-ok :
    {S A B : Type 0} (f : AdminDbError → PolicyError) (a : PolicyState S)
    (r : Outcome AdminDbError A × S) (k : A → PolicyAction S B) {b : B} {a' : PolicyState S}
    → after_db f a r k ≡ (ok b, a')
    → (v : A) × (s : S) × (r ≡ (ok v, s)) × (k v (record a { admin_state = s }) ≡ (ok b, a'))
after_db-ok f a (ok v, s) k h = (v, s, refl, h)
after_db-ok f a (err e, s) k h = absurd (ground arith)
after_db-ok f a (panic, s) k h = absurd (ground arith)

pub after_reload-ok :
    {S B : Type 0} (c : B) (r : Outcome (AdminDbError ⊎ ConstraintError) (Unit {0}) × PolicyState S)
    {b : B} {a' : PolicyState S}
    → after_reload c r ≡ (ok b, a')
    → r ≡ (ok tt, a')
after_reload-ok c (ok tt, a1) h = ap (λ z. (ok tt, z.1)) h
after_reload-ok c (err e, a1) h = absurd (ground arith)
after_reload-ok c (panic, a1) h = absurd (ground arith)
