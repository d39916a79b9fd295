-- ===== src/Authority/AdminDb/Policies/Stored.antt =====
-- The database of authority/admin/db/nosql/ as the one that authority/policy.go uses, and what the
-- package relies on of its store.
use certificates.Base.{
  ◌≡◌, ◌⊎◌, inl, inr, refl, ap, subst, ◌∙◌, Option, none, some, Bytes, bytes_eq_iff, Outcome, ok,
  err, panic, arith,
}
use certificates.Acme.Nosql.{found, missing, Swap, swapped, kept, failed}
use certificates.Authority.Linked.{LinkedPolicy}
use certificates.Authority.AdminDb.{
  AdminDb, AdminDbError, not_found, AdminKv, save, authority_policies_table,
}
use certificates.Authority.AdminDb.Rows.{
  DbAuthorityPolicy, AdminRow, empty_text, policy_text, linked_to_db,
}
use certificates.Authority.AdminDb.Policies.{
  create_authority_policy, get_authority_policy, update_authority_policy, delete_authority_policy,
  get_db_authority_policy, policy_row, wrapped, converted, update_read, delete_read, policy_text_of,
  read_policy, policy_of_row, owned, unmarshal_policy,
}
use certificates.Authority.AdminDb.Rows.RoundTrip.{
  without_empty, db_to_linked-linked_to_db, linked_to_certificates-without_empty,
}
use certificates.Authority.AdminDb.Admins.{get_admins}
use certificates.Authority.Reload.InForce.{ReturnsPolicies, RemovesPolicy}

-- DB of authority/admin/db/nosql/
abbrev pub nosql_db : {S : Type 0} → Bytes → AdminKv S → AdminDb S
nosql_db authority_id kv = record {
  get_admins = λ s. get_admins authority_id kv s;
  create_authority_policy = λ p s. create_authority_policy authority_id kv p s;
  get_authority_policy = λ s. get_authority_policy authority_id kv s;
  update_authority_policy = λ p s. update_authority_policy authority_id kv p s;
  delete_authority_policy = λ s. delete_authority_policy authority_id kv s;
}

-- The documented behaviour of the store: a swap writes the new text, and a nil text leaves no text
-- or an empty one.
pub record AdminKvLaws {S : Type 0} (kv : AdminKv S) : Type 0 where
  pub swap_new :
      (t k : Bytes) (old : Option AdminRow) (r : AdminRow) (s s' : S)
      → kv.cmp_and_swap t k old (some r) s ≡ (swapped, s')
      → kv.get t k s' ≡ found r
  pub swap_nil :
      (t k : Bytes) (old : Option AdminRow) (s s' : S)
      → kv.cmp_and_swap t k old none s ≡ (swapped, s')
      → (kv.get t k s' ≡ missing) ⊎ (kv.get t k s' ≡ found empty_text)

-- The row under the authority's key has the authority's identifier, as every row that this package
-- writes there.
abbrev pub HasOwnId : {S : Type 0} → Bytes → AdminKv S → S → Type 0
HasOwnId authority_id kv s =
    (old : DbAuthorityPolicy)
    → get_db_authority_policy authority_id kv s ≡ ok (some old)
    → old.id ≡ authority_id

module _ {S : Type 0} (authority_id : Bytes) (kv : AdminKv S) (laws : AdminKvLaws kv) where
  save-swapped :
      (t k : Bytes) (nu old : Option AdminRow) (s s' : S)
      → wrapped (save kv t k nu old s) ≡ (ok tt, s')
      → kv.cmp_and_swap t k old nu s ≡ (swapped, s')
  unfolding save
  save-swapped t k nu old s s' h = go (kv.cmp_and_swap t k old nu s).0 refl
    where
      go :
          (w : Swap)
          → (kv.cmp_and_swap t k old nu s).0 ≡ w
          → kv.cmp_and_swap t k old nu s ≡ (swapped, s')
      go swapped e = ground arith
      go kept e = absurd (ground arith)
      go failed e = absurd (ground arith)

  read_policy-policy_row :
      (p : Option LinkedPolicy)
      → read_policy authority_id (found (policy_row authority_id p))
        ≡ ok (
            some
              (record { id = authority_id; authority_id = authority_id; policy = linked_to_db p }))
  unfolding read_policy policy_of_row owned unmarshal_policy
  read_policy-policy_row p = rw ((bytes_eq_iff authority_id authority_id).1 refl) refl

  -- After a write of a policy the one that was written comes back.
  written_comes_back :
      (p : Option LinkedPolicy) (old : Option AdminRow) (s s' : S)
      → wrapped
          (save kv authority_policies_table authority_id (some (policy_row authority_id p)) old s)
        ≡ (ok tt, s')
      → get_authority_policy authority_id kv s' ≡ (ok (without_empty p), s')
  unfolding get_authority_policy
  written_comes_back p old s s' h =
      let now =
        laws.swap_new authority_policies_table authority_id old (policy_row authority_id p) s s' (
          save-swapped authority_policies_table authority_id (some (policy_row authority_id p)) old
            s s' h) in
      let read = ap (read_policy authority_id) now ∙ read_policy-policy_row p in
      ap (λ r. converted authority_id kv r s') read
      ∙ ap (λ q. (ok q, s')) (db_to_linked-linked_to_db p)

  -- Where a swap of the store writes the new text, a policy that was created without an error comes
  -- back, as nil where it has neither an X.509 nor an SSH part.
  pub create_authority_policy-get_authority_policy :
      (p : Option LinkedPolicy) (s s' : S)
      → create_authority_policy authority_id kv p s ≡ (ok tt, s')
      → get_authority_policy authority_id kv s' ≡ (ok (without_empty p), s')
  unfolding create_authority_policy
  create_authority_policy-get_authority_policy p s s' h = written_comes_back p none s s' h

  -- Where a swap of the store writes the new text, a policy that was updated without an error comes
  -- back, as nil where it has neither an X.509 nor an SSH part.
  update_authority_policy-get_authority_policy :
      (p : Option LinkedPolicy) (s s' : S)
      → update_authority_policy authority_id kv p s ≡ (ok tt, s')
      → get_authority_policy authority_id kv s' ≡ (ok (without_empty p), s')
  unfolding update_authority_policy
  update_authority_policy-get_authority_policy p s s' h =
      go (get_db_authority_policy authority_id kv s) h
    where
      go :
          (r : Outcome AdminDbError (Option DbAuthorityPolicy))
          → update_read authority_id kv r p s ≡ (ok tt, s')
          → get_authority_policy authority_id kv s' ≡ (ok (without_empty p), s')
      go (ok old) e = written_comes_back p (some (policy_text_of old)) s s' e
      go (err e) h = absurd (ground arith)
      go panic h = absurd (ground arith)

  deleted_is_gone :
      (old : DbAuthorityPolicy) (s s' : S)
      → old.id ≡ authority_id
      → wrapped (save kv authority_policies_table old.id none (some (policy_text old)) s)
        ≡ (ok tt, s')
      → (get_authority_policy authority_id kv s' ≡ (err not_found, s'))
        ⊎ (get_authority_policy authority_id kv s' ≡ (ok none, s'))
  unfolding get_authority_policy read_policy policy_of_row owned unmarshal_policy
  deleted_is_gone old s s' own h =
      let swap =
        save-swapped authority_policies_table old.id none (some (policy_text old)) s s' h in
      let gone = laws.swap_nil authority_policies_table authority_id (some (policy_text old)) s s' (
        subst
          (λ k.
            kv.cmp_and_swap authority_policies_table k (some (policy_text old)) none s
            ≡ (swapped, s'))
          own swap) in
      elim gone [
        | inl absent ↦
            inl (ap (λ g. converted authority_id kv (read_policy authority_id g) s') absent)
        | inr empty ↦
            inr (ap (λ g. converted authority_id kv (read_policy authority_id g) s') empty)
      ]

  delete_authority_policy-get_authority_policy :
      (s s' : S)
      → HasOwnId authority_id kv s
      → delete_authority_policy authority_id kv s ≡ (ok tt, s')
      → (get_authority_policy authority_id kv s' ≡ (err not_found, s'))
        ⊎ (get_authority_policy authority_id kv s' ≡ (ok none, s'))
  unfolding delete_authority_policy
  delete_authority_policy-get_authority_policy s s' own h =
      go (get_db_authority_policy authority_id kv s) own h
    where
      go :
          (r : Outcome AdminDbError (Option DbAuthorityPolicy))
          → ((old : DbAuthorityPolicy) → r ≡ ok (some old) → old.id ≡ authority_id)
          → delete_read authority_id kv r s ≡ (ok tt, s')
          → (get_authority_policy authority_id kv s' ≡ (err not_found, s'))
            ⊎ (get_authority_policy authority_id kv s' ≡ (ok none, s'))
      go (ok (some old)) own e = deleted_is_gone old s s' (own old refl) e
      go (ok none) own e = absurd (ground arith)
      go (err e) own h = absurd (ground arith)
      go panic own h = absurd (ground arith)

  pub nosql_db-ReturnsPolicies : ReturnsPolicies (nosql_db authority_id kv)
  nosql_db-ReturnsPolicies = record {
    created = λ p s s' h. (
      without_empty p,
      ap (λ r. r.0) (create_authority_policy-get_authority_policy p s s' h),
      linked_to_certificates-without_empty p,
    );
    updated = λ p s s' h. (
      without_empty p,
      ap (λ r. r.0) (update_authority_policy-get_authority_policy p s s' h),
      linked_to_certificates-without_empty p,
    );
  }

  pub nosql_db-RemovesPolicy :
      (s : S) → HasOwnId authority_id kv s → RemovesPolicy (nosql_db authority_id kv) s
  nosql_db-RemovesPolicy s own s' h =
      elim (delete_authority_policy-get_authority_policy s s' own h) [
        | inl gone ↦ inl (ap (λ r. r.0) gone)
        | inr empty ↦ inr (ap (λ r. r.0) empty)
      ]

module _ {S : Type 0} (authority_id : Bytes) (kv : AdminKv S) where
  pub get_authority_policy_keeps : (s : S) → (get_authority_policy authority_id kv s).1 ≡ s
  unfolding get_authority_policy
  get_authority_policy_keeps s = go (get_db_authority_policy authority_id kv s)
    where
      go :
          (r : Outcome AdminDbError (Option DbAuthorityPolicy))
          → (converted authority_id kv r s).1 ≡ s
      go (ok p) = refl
      go (err e) = refl
      go panic = refl
