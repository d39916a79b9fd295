-- ===== src/Acme/Nosql/Nonce.antt =====
-- acme/db/nosql/nonce.go. The random identifier is an argument, `none` where there is none.
pub mod Once
use certificates.Base.{ℕ, Option, some, none, Bytes, Outcome, ok, err}
use certificates.Acme.Types.{Error, problem, bad_nonce, plain}
use certificates.Acme.Db.{Action}
use certificates.Acme.Nosql.{
  DbNonce, Row, nonce_row, nonce_table, Swap, swapped, kept, failed, Kv, save, ◌>=>◌,
}

deleted : Swap → Outcome Error (Unit {0})
deleted swapped = ok tt
deleted kept = err (problem bad_nonce)
deleted failed = err plain

module _ {S : Type 0} (kv : Kv S) where
  unfoldable pub create_nonce : (Bytes → Bytes) → ℕ → Option Bytes → Action S Bytes
  create_nonce base64 now none s = (err plain, s)
  create_nonce base64 now (some random) s =
      let id = base64 random in
      save kv nonce_table id
        (some (nonce_row (record { id = id; created_at = now; deleted_at = 0 }))) none s
      >=> λ u s'. (ok id, s')

  unfoldable pub delete_nonce : Bytes → Action S (Unit {0})
  unfolding deleted
  delete_nonce nonce s = let (r, s') = kv.take_out nonce_table nonce s in (deleted r, s')
