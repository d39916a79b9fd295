-- ===== src/Acme/Nosql/Keys/Index.antt =====
-- The index of addEAKID and deleteEAKID of acme/db/nosql/eab.go, and the operations that call them.
use certificates.Base.{
  ℕ, ◌&&◌, not, subst, ok-injective, bytes_eq_refl, inl, inr, ◌≡◌, refl, sym, ◌∙◌, ap, false,
  Bool-cases, Option, some, none, List, [], ◌∷◌, ◌++◌, Bytes, bytes_eq, Outcome, ok, err, panic,
  arith,
}
use certificates.Acme.Types.{Error}
use certificates.Acme.Account.{ExternalAccountKey}
use certificates.Acme.Nosql.{
  Got, found, Row, ids_row, key_row, DbKey, ◌>=>◌, keys_by_provisioner_table, key_table,
  key_by_reference_table, decoded, Kv, save, same_key,
}
use certificates.Acme.Nosql.Laws.{KvLaws, save-Saved, then-eq-ok, text_of}
use certificates.Acme.Nosql.Orders.{read_ids}
use certificates.Acme.Nosql.Keys.{
  get_eak_ids, ids_read, save_ids, old_text, add_eak_id, delete_eak_id, del_row, delete_reference,
  delete_key, create_key, get_db_key, reference_key,
}
use certificates.Acme.Nosql.Keys.Lists.{has_id, remove_element}
use certificates.Acme.Nosql.Keys.Removal.{
  Distinct, Distinct-append, Distinct-remove, has_id-remove, remove_element-here,
}

abbrev pub new_row : Bytes → Bytes → Bytes → Bytes → ℕ → Row
new_row id p ref random now = key_row (record {
  id = id;
  provisioner_id = p;
  reference = ref;
  account_id = [];
  hmac_key = random;
  created_at = now;
  bound_at = 0;
})

module _ {S : Type 0} (kv : Kv S) (laws : KvLaws kv) where
  -- The raw text of the index of a provisioner.
  abbrev pub index_at : Bytes → S → Got Row
  index_at p s = kv.get keys_by_provisioner_table p s

  pub save_ids-ok :
      (p : Bytes) (ids old : List Bytes) (s s' : S)
      → save_ids kv p ids old s ≡ (ok tt, s')
      → (index_at p s ≡ text_of (old_text old)) × (index_at p s' ≡ found (ids_row ids))
  unfolding save_ids
  save_ids-ok p ids old s s' h =
      let sv = save-Saved kv laws keys_by_provisioner_table p (ids_row ids) (old_text old) s s' h in
      (sv.was, sv.now_is)

  pub get_eak_ids-found :
      (p : Bytes) (ids : List Bytes) (s : S)
      → index_at p s ≡ found (ids_row ids)
      → get_eak_ids kv p s ≡ ok ids
  unfolding get_eak_ids
  get_eak_ids-found p ids s h = rw h

  pub get_eak_ids-same :
      (p : Bytes) (s t : S) → index_at p s ≡ index_at p t → get_eak_ids kv p s ≡ get_eak_ids kv p t
  unfolding get_eak_ids
  get_eak_ids-same p s t h = ap (λ g. ids_read (decoded read_ids g)) h

  pub add_eak_id-ok :
      (p e : Bytes) (s s' : S)
      → add_eak_id kv p e s ≡ (ok tt, s')
      → (ids : List Bytes) × (get_eak_ids kv p s ≡ ok ids)
        × (has_id ids e ≡ false)
        × (save_ids kv p (ids ++ e ∷ []) ids s ≡ (ok tt, s'))
  unfolding add_eak_id
  add_eak_id-ok p e s s' h = go (get_eak_ids kv p s) refl
    where
      go :
          (r : Outcome Error (List Bytes))
          → get_eak_ids kv p s ≡ r
          → (ids : List Bytes) × (get_eak_ids kv p s ≡ ok ids)
            × (has_id ids e ≡ false)
            × (save_ids kv p (ids ++ e ∷ []) ids s ≡ (ok tt, s'))
      go (ok ids) q = elim (Bool-cases (has_id ids e)) [
        | inl b ↦ absurd (ground arith)
        | inr b ↦ (ids, q, b, ground arith)
      ]
      go (err f) q = absurd (ground arith)
      go panic q = absurd (ground arith)

  pub delete_eak_id-ok :
      (p e : Bytes) (s s' : S)
      → delete_eak_id kv p e s ≡ (ok tt, s')
      → (ids : List Bytes) × (get_eak_ids kv p s ≡ ok ids)
        × (save_ids kv p (remove_element ids e) ids s ≡ (ok tt, s'))
  unfolding delete_eak_id
  delete_eak_id-ok p e s s' h = go (get_eak_ids kv p s) refl
    where
      go :
          (r : Outcome Error (List Bytes))
          → get_eak_ids kv p s ≡ r
          → (ids : List Bytes) × (get_eak_ids kv p s ≡ ok ids)
            × (save_ids kv p (remove_element ids e) ids s ≡ (ok tt, s'))
      go (ok ids) q = (ids, q, ground arith)
      go (err f) q = absurd (ground arith)
      go panic q = absurd (ground arith)

  -- Where the stored index is an empty list, no save of a longer one succeeds.
  pub add_eak_id_empty :
      (p e : Bytes) (s s' : S)
      → index_at p s ≡ found (ids_row [])
      → ¬ (add_eak_id kv p e s ≡ (ok tt, s'))
  add_eak_id_empty p e s s' i h =
      let (ids, q, _, sv) = add_eak_id-ok p e s s' h in
      let e1 = get_eak_ids-found p [] s i in
      let n : ids ≡ [] = cc in
      let was = (save_ids-ok p (ids ++ e ∷ []) ids s s' sv).0 in
      let was' : index_at p s ≡ text_of (old_text []) =
        subst (λ l. index_at p s ≡ text_of (old_text l)) n was in
      cc

  pub del_row-index :
      (t k p : Bytes) (s s' : S)
      → same_key t k keys_by_provisioner_table p ≡ false
      → del_row kv t k s ≡ (ok tt, s')
      → index_at p s' ≡ index_at p s
  unfolding del_row
  del_row-index t k p s s' d h =
      laws.del_others t k s s' (kv.del t k s).0 keys_by_provisioner_table p (ground arith) d

  pub delete_reference-index :
      (p ref : Bytes) (s s' : S)
      → delete_reference kv p ref s ≡ (ok tt, s')
      → index_at p s' ≡ index_at p s
  unfolding delete_reference bytes_eq
  delete_reference-index p [] s s' h = ground arith
  delete_reference-index p (b ∷ bs) s s' h =
      del_row-index key_by_reference_table (reference_key p (b ∷ bs)) p s s' refl h

  pub delete_key-ok :
      (p k : Bytes) (s s' : S)
      → delete_key kv p k s ≡ (ok tt, s')
      → (s1 : S) × (index_at p s1 ≡ index_at p s) × (delete_eak_id kv p k s1 ≡ (ok tt, s'))
  unfolding delete_key bytes_eq
  delete_key-ok p k s s' h = go (get_db_key kv k s) refl
    where
      run : DbKey → Outcome Error (Unit {0}) × S
      run dbeak = delete_reference kv p dbeak.reference s >=> λ u s1.
          del_row kv key_table k s1 >=> λ u s2. delete_eak_id kv p k s2

      steps :
          (dbeak : DbKey)
          → run dbeak ≡ (ok tt, s')
          → (s1 : S) × (index_at p s1 ≡ index_at p s) × (delete_eak_id kv p k s1 ≡ (ok tt, s'))
      steps dbeak r =
          let (_, s1, e1, f1) = then-eq-ok (delete_reference kv p dbeak.reference s) _ r in
          let (_, s2, e2, f2) = then-eq-ok (del_row kv key_table k s1) _ f1 in
          (
            s2,
            del_row-index key_table k p s1 s2 refl e2
                ∙ delete_reference-index p dbeak.reference s s1 e1,
            f2,
          )

      go :
          (r : Outcome Error DbKey)
          → get_db_key kv k s ≡ r
          → (s1 : S) × (index_at p s1 ≡ index_at p s) × (delete_eak_id kv p k s1 ≡ (ok tt, s'))
      go (ok dbeak) q = elim (Bool-cases (bytes_eq dbeak.provisioner_id p)) [
        | inl b ↦ steps dbeak (ground arith)
        | inr b ↦ absurd (ground arith)
      ]
      go (err f) q = absurd (ground arith)
      go panic q = absurd (ground arith)

  pub create_key-ok :
      (now : ℕ) (id rnd : Option Bytes) (p ref : Bytes) (s s' : S) (eak : ExternalAccountKey)
      → create_key kv now id rnd p ref s ≡ (ok eak, s')
      → (s1 s2 : S) × (key : Bytes) × (index_at p s1 ≡ index_at p s)
        × (add_eak_id kv p key s1 ≡ (ok tt, s2))
  unfolding create_key bytes_eq
  create_key-ok now none rnd p ref s s' eak h = absurd (ground arith)
  create_key-ok now (some key) none p ref s s' eak h = absurd (ground arith)
  create_key-ok now (some key) (some r) p ref s s' eak h =
      let (_, s1, e1, f1) =
        then-eq-ok (save kv key_table key (some (new_row key p ref r now)) none s) _ h in
      let (_, s2, e2, _) = then-eq-ok (add_eak_id kv p key s1) _ f1 in
      let sv = save-Saved kv laws key_table key (new_row key p ref r now) none s s1 e1 in
      (s1, s2, key, sv.others keys_by_provisioner_table p refl, e2)

  -- After a key was deleted whose provisioner has an index that holds no other key, the creation of
  -- a key for that provisioner never succeeds, whatever its arguments, in every state whose index
  -- for the provisioner is as the deletion left it.
  pub create_key-delete_last :
      (p k : Bytes) (s s' t t' : S) (eak : ExternalAccountKey) (now : ℕ) (id rnd : Option Bytes)
      (ref : Bytes)
      → get_eak_ids kv p s ≡ ok (k ∷ [])
      → delete_key kv p k s ≡ (ok tt, s')
      → index_at p t ≡ index_at p s'
      → ¬ (create_key kv now id rnd p ref t ≡ (ok eak, t'))
  unfolding get_eak_ids
  create_key-delete_last p k s s' t t' eak now id rnd ref one gone same new =
      let (s1, i1, d) = delete_key-ok p k s s' gone in
      let (ids, q, sv) = delete_eak_id-ok p k s1 s' d in
      let n : ids ≡ k ∷ [] = ok-injective ids (k ∷ []) (sym q ∙ get_eak_ids-same p s1 s i1 ∙ one) in
      let now_is = (save_ids-ok p (remove_element ids k) ids s1 s' sv).1 in
      let left : remove_element ids k ≡ [] =
        ap (λ l. remove_element l k) n ∙ remove_element-here k k [] (bytes_eq_refl k) in
      let (t1, t2, key, i2, a) = create_key-ok now id rnd p ref t t' eak new in
      add_eak_id_empty p key t1 t2 (i2 ∙ same ∙ now_is ∙ ap (λ l. found (ids_row l)) left) a

  -- Where the index of a provisioner lists no key twice, a successful addEAKID for it stores an index
  -- that lists no key twice and, beside the keys before, exactly the new one, which was not there.
  pub add_eak_id-Distinct :
      (p e : Bytes) (ids : List Bytes) (s s' : S)
      → get_eak_ids kv p s ≡ ok ids
      → Distinct ids
      → add_eak_id kv p e s ≡ (ok tt, s')
      → (has_id ids e ≡ false)
        × (get_eak_ids kv p s' ≡ ok (ids ++ e ∷ []))
        × Distinct (ids ++ e ∷ [])
  add_eak_id-Distinct p e ids s s' q d h =
      let (ids', q', new, sv) = add_eak_id-ok p e s s' h in
      let same : ids' ≡ ids = ok-injective ids' ids (sym q' ∙ q) in
      let new' : has_id ids e ≡ false = subst (λ l. has_id l e ≡ false) same new in
      let i = (save_ids-ok p (ids' ++ e ∷ []) ids' s s' sv).1 in
      (
        new',
        get_eak_ids-found p (ids ++ e ∷ []) s' (i ∙ ap (λ l. found (ids_row (l ++ e ∷ []))) same),
        Distinct-append ids e d new',
      )

  -- Where the index of a provisioner lists no key twice, a successful deletion of a key of the
  -- provisioner stores an index that lists no key twice and exactly the keys before that are not the
  -- deleted one.
  pub delete_key-Distinct :
      (p k : Bytes) (ids : List Bytes) (s s' : S)
      → get_eak_ids kv p s ≡ ok ids
      → Distinct ids
      → delete_key kv p k s ≡ (ok tt, s')
      → (ids' : List Bytes) × (get_eak_ids kv p s' ≡ ok ids')
        × Distinct ids'
        × ((id : Bytes) → has_id ids' id ≡ (has_id ids id && not (bytes_eq k id)))
  delete_key-Distinct p k ids s s' q d h =
      let (s1, i1, del) = delete_key-ok p k s s' h in
      let (ids1, q1, sv) = delete_eak_id-ok p k s1 s' del in
      let same : ids1 ≡ ids = ok-injective ids1 ids (sym q1 ∙ get_eak_ids-same p s1 s i1 ∙ q) in
      let i = (save_ids-ok p (remove_element ids1 k) ids1 s1 s' sv).1 in
      (
        remove_element ids k,
        get_eak_ids-found p (remove_element ids k) s'
            (i ∙ ap (λ l. found (ids_row (remove_element l k))) same),
        Distinct-remove ids k d,
        λ id. has_id-remove ids k id d,
      )
