-- ===== src/Acme/Nosql/Tables.antt =====
-- What the operations of acme/db/nosql/ on challenges, authorizations, nonces, certificates, accounts
-- and external account keys leave of the tables.
use certificates.Base.{ℕ, refl, Option, some, none, Bytes, ok}
use certificates.Acme.Types.{Challenge, Authorization}
use certificates.Acme.Db.{read_keeps, Certificate}
use certificates.Acme.Nosql.{
  Row, nonce_row, challenge_row, authz_row, cert_row, serial_row, nonce_table, challenge_table,
  authz_table, cert_table, cert_by_serial_table, Kv, save, ◌>=>◌,
}
use certificates.Acme.Nosql.Laws.{KvLaws, then_keeps}
use certificates.Acme.Nosql.WellFormed.{WellFormed, RowOk, save-WellFormed, take_out-WellFormed}
use certificates.Acme.Nosql.Nonce.{create_nonce, delete_nonce}
use certificates.Acme.Nosql.Challenges.{
  create_challenge, update_challenge, get_db_challenge, challenge_with,
}
use certificates.Acme.Nosql.Authz.{
  create_authorization, update_authorization, get_db_authz, authz_with,
}
use certificates.Acme.Nosql.Certs.{X509, create_certificate}
use certificates.Acme.Nosql.Certs.RoundTrip.{new_cert}

module _ {S : Type 0} (kv : Kv S) (laws : KvLaws kv) where
  -- A save of a new row, and a result that is returned after it.
  pub saved_row-WellFormed :
      {A : Type 0} (t k : Bytes) (nu : Row) (a : A) (s : S)
      → RowOk t k nu
      → WellFormed kv s
      → WellFormed kv (save kv t k (some nu) none s >=> λ u s1. (ok a, s1)).1
  saved_row-WellFormed t k nu a s own h =
      then_keeps (WellFormed kv) (save kv t k (some nu) none s) _
        (save-WellFormed kv laws t k (some nu) none s own h) (λ u s1 h1. h1)

  pub create_nonce-WellFormed :
      (base64 : Bytes → Bytes) (now : ℕ) (random : Option Bytes) (s : S)
      → WellFormed kv s
      → WellFormed kv (create_nonce kv base64 now random s).1
  unfolding create_nonce
  create_nonce-WellFormed base64 now none s h = h
  create_nonce-WellFormed base64 now (some random) s h =
      let id = base64 random in
      saved_row-WellFormed nonce_table id
        (nonce_row (record { id = id; created_at = now; deleted_at = 0 })) id s (refl, refl) h

  pub delete_nonce-WellFormed :
      (n : Bytes) (s : S) → WellFormed kv s → WellFormed kv (delete_nonce kv n s).1
  unfolding delete_nonce
  delete_nonce-WellFormed n s h = take_out-WellFormed kv laws nonce_table n s h

  pub create_challenge-WellFormed :
      (now : ℕ) (id : Option Bytes) (ch : Challenge) (s : S)
      → WellFormed kv s
      → WellFormed kv (create_challenge kv now id ch s).1
  unfolding create_challenge
  create_challenge-WellFormed now none ch s h = h
  create_challenge-WellFormed now (some id) ch s h =
      saved_row-WellFormed challenge_table id _ (record ch { id = id }) s (refl, refl) h

  pub create_authorization-WellFormed :
      (now : ℕ) (id : Option Bytes) (az : Authorization) (s : S)
      → WellFormed kv s
      → WellFormed kv (create_authorization kv now id az s).1
  unfolding create_authorization
  create_authorization-WellFormed now none az s h = h
  create_authorization-WellFormed now (some id) az s h =
      saved_row-WellFormed authz_table id _ (record az { id = id }) s (refl, refl) h

  pub update_challenge-WellFormed :
      (ch : Challenge) (s : S) → WellFormed kv s → WellFormed kv (update_challenge kv ch s).1
  unfolding update_challenge
  update_challenge-WellFormed ch s h =
      read_keeps (WellFormed kv) (get_db_challenge kv ch.id s) _ (λ e. e) s h
        (λ old.
          save-WellFormed kv laws challenge_table old.id
            (some (challenge_row (challenge_with ch old))) (some (challenge_row old)) s (refl, refl)
            h)

  pub update_authorization-WellFormed :
      (az : Authorization) (s : S)
      → WellFormed kv s
      → WellFormed kv (update_authorization kv az s).1
  unfolding update_authorization
  update_authorization-WellFormed az s h =
      read_keeps (WellFormed kv) (get_db_authz kv az.id s) _ (λ e. e) s h
        (λ old.
          save-WellFormed kv laws authz_table old.id (some (authz_row (authz_with az old)))
            (some (authz_row old)) s (refl, refl) h)

  pub create_certificate-WellFormed :
      (x : X509) (now : ℕ) (id : Option Bytes) (cert : Certificate) (s : S)
      → WellFormed kv s
      → WellFormed kv (create_certificate kv x now id cert s).1
  unfolding create_certificate
  create_certificate-WellFormed x now none cert s h = h
  create_certificate-WellFormed x now (some id) cert s h =
      let row : Row = cert_row (new_cert x id now cert) in
      let serial = x.serial cert.leaf in
      let entry : Row = serial_row (record { serial = serial; certificate_id = id }) in
      then_keeps (WellFormed kv) (save kv cert_table id (some row) none s) _
        (save-WellFormed kv laws cert_table id (some row) none s (refl, refl) h)
        (λ u s1 h1. saved_row-WellFormed cert_by_serial_table serial entry id s1 (refl, refl) h1)
