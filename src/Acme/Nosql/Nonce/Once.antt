-- ===== src/Acme/Nosql/Nonce/Once.antt =====
-- A nonce over its life: CreateNonce and DeleteNonce of acme/db/nosql/nonce.go.
use certificates.Base.{◌≡◌, refl, ap, Bytes, ok, err, arith}
use certificates.Acme.Types.{problem, bad_nonce}
use certificates.Acme.Nosql.{found, missing, Row, Swap, swapped, kept, failed, Kv, nonce_table}
use certificates.Acme.Nosql.Laws.{KvLaws}
use certificates.Acme.Nosql.Nonce.{delete_nonce, deleted}

module _ {S : Type 0} (kv : Kv S) (laws : KvLaws kv) where
  pub delete_nonce-ok :
      (n : Bytes) (s s' : S)
      → delete_nonce kv n s ≡ (ok tt, s')
      → kv.take_out nonce_table n s ≡ (swapped, s')
  unfolding delete_nonce deleted
  delete_nonce-ok n s s' h = go (kv.take_out nonce_table n s).0 refl
    where
      go :
          (w : Swap)
          → (kv.take_out nonce_table n s).0 ≡ w
          → kv.take_out nonce_table n s ≡ (swapped, s')
      go swapped e = ground arith
      go kept e = absurd (ground arith)
      go failed e = absurd (ground arith)

  -- A deletion of a nonce that returns nil found the nonce stored, and after it every deletion of the
  -- nonce returns the error for a bad nonce, in each state that has nothing stored at its key, as
  -- the state that the deletion returned.
  pub delete_nonce_once :
      (n : Bytes) (s s' : S)
      → delete_nonce kv n s ≡ (ok tt, s')
      → ((r : Row) × (kv.get nonce_table n s ≡ found r))
        × (kv.get nonce_table n s' ≡ missing)
        × ((t : S)
            → kv.get nonce_table n t ≡ missing
            → (delete_nonce kv n t).0 ≡ err (problem bad_nonce))
  unfolding delete_nonce deleted
  delete_nonce_once n s s' h =
      let (r, f, m) = laws.take_found nonce_table n s s' (delete_nonce-ok n s s' h) in
      ((r, f), m, λ t gone. ap (λ w. deleted w) (laws.take_missing nonce_table n t gone))
