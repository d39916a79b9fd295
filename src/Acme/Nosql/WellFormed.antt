-- ===== src/Acme/Nosql/WellFormed.antt =====
-- Which row may stand where in the tables of acme/db/nosql/nosql.go, and what the calls of the store
-- do to that.
use certificates.Base.{◌≡◌, sym, ◌∙◌, subst, ◌⊎◌, inl, inr, Option, some, none, Bytes, arith}
use certificates.Acme.Nosql.{
  Row, nonce_row, challenge_row, authz_row, order_row, account_row, cert_row, serial_row, key_row,
  reference_row, ids_row, id_row, nonce_table, challenge_table, authz_table, order_table,
  account_table, cert_table, cert_by_serial_table, key_table, key_by_reference_table,
  orders_by_account_id_table, keys_by_provisioner_table, account_by_key_id_table, found, Kv, save,
}
use certificates.Acme.Nosql.Laws.{KvLaws, text_of, save-either, del-either}

-- Each table holds rows of its type, and a row with an identifier stands at it.
abbrev pub RowOk : Bytes → Bytes → Row → Type 0
RowOk t k (nonce_row n) = (t ≡ nonce_table) × (n.id ≡ k)
RowOk t k (challenge_row c) = (t ≡ challenge_table) × (c.id ≡ k)
RowOk t k (authz_row a) = (t ≡ authz_table) × (a.id ≡ k)
RowOk t k (order_row o) = (t ≡ order_table) × (o.id ≡ k)
RowOk t k (account_row a) = (t ≡ account_table) × (a.id ≡ k)
RowOk t k (cert_row c) = (t ≡ cert_table) × (c.id ≡ k)
RowOk t k (serial_row r) = (t ≡ cert_by_serial_table) × (r.serial ≡ k)
RowOk t k (key_row r) = (t ≡ key_table) × (r.id ≡ k)
RowOk t k (reference_row r) = t ≡ key_by_reference_table
RowOk t k (ids_row ids) = (t ≡ orders_by_account_id_table) ⊎ (t ≡ keys_by_provisioner_table)
RowOk t k (id_row id) = t ≡ account_by_key_id_table

abbrev pub TextOk : Bytes → Bytes → Option Row → Type 0
TextOk t k none = Unit {0}
TextOk t k (some r) = RowOk t k r

module _ {S : Type 0} (kv : Kv S) where
  abbrev pub WellFormed : S → Type 0
  WellFormed s = (t k : Bytes) (r : Row) → kv.get t k s ≡ found r → RowOk t k r

module _ {S : Type 0} (kv : Kv S) (laws : KvLaws kv) where
  text_ok :
      (t k : Bytes) (nu : Option Row) (r : Row) → TextOk t k nu → text_of nu ≡ found r → RowOk t k r
  text_ok t k none r h e = absurd cc
  text_ok t k (some r') r h e = let same : r' ≡ r = cc in subst (RowOk t k) same h

  pub save-WellFormed :
      (t k : Bytes) (nu old : Option Row) (s : S)
      → TextOk t k nu
      → WellFormed kv s
      → WellFormed kv (save kv t k nu old s).1
  save-WellFormed t k nu old s own h t' k' r at = elim (save-either kv laws t k t' k' nu old s) [
    | inl same ↦ h t' k' r (sym same ∙ at)
    | inr (t_is, k_is, nu_is) ↦
        subst (λ a. RowOk a k' r) t_is
          (subst (λ b. RowOk t b r) k_is (text_ok t k nu r own (sym nu_is ∙ at)))
  ]

  pub del-WellFormed : (t k : Bytes) (s : S) → WellFormed kv s → WellFormed kv (kv.del t k s).1
  del-WellFormed t k s h t' k' r at = elim (del-either kv laws t k t' k' s) [
    | inl same ↦ h t' k' r (sym same ∙ at)
    | inr gone ↦ absurd (ground arith)
  ]

  pub take_out-WellFormed :
      (t k : Bytes) (s : S) → WellFormed kv s → WellFormed kv (kv.take_out t k s).1
  take_out-WellFormed t k s h t' k' r at = elim (laws.take_leaves t k s t' k') [
    | inl same ↦ h t' k' r (sym same ∙ at)
    | inr gone ↦ absurd (ground arith)
  ]

  -- The part of the state of a call of CmpAndSwap, which is that of a save.
  pub cmp_and_swap-WellFormed :
      (t k : Bytes) (old nu : Option Row) (s : S)
      → TextOk t k nu
      → WellFormed kv s
      → WellFormed kv (kv.cmp_and_swap t k old nu s).1
  unfolding save
  cmp_and_swap-WellFormed t k old nu s own h = save-WellFormed t k nu old s own h
