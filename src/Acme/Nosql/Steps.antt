-- ===== src/Acme/Nosql/Steps.antt =====
-- The states of the tables of acme/db/nosql/ that the operations of the interface DB of acme/db.go
-- reach, with Order.UpdateStatus and Order.Finalize running over them.
use certificates.Base.{ℕ, ◌≡◌, Option, [], Bytes}
use certificates.Policy.Types.{External}
use certificates.Acme.Types.{Challenge, Authorization, Order}
use certificates.Acme.Account.{Account, ExternalAccountKey}
use certificates.Acme.Db.{Certificate}
use certificates.Acme.Names.{CertificateRequest}
use certificates.Acme.Order as Orders
use certificates.Acme.Order.Keeps as OrderKept
use certificates.Acme.Finalize.{Signer, finalize}
use certificates.Acme.Finalize.Keeps.{finalize_keeps}
use certificates.Acme.Nosql.{Kv, missing}
use certificates.Acme.Nosql.Laws.{KvLaws}
use certificates.Acme.Nosql.WellFormed.{WellFormed}
use certificates.Acme.Nosql.Nonce.{create_nonce, delete_nonce}
use certificates.Acme.Nosql.Challenges.{create_challenge, update_challenge}
use certificates.Acme.Nosql.Authz.{create_authorization, update_authorization}
use certificates.Acme.Nosql.Accounts.{create_account, update_account}
use certificates.Acme.Nosql.Certs.{X509, create_certificate}
use certificates.Acme.Nosql.Keys.{create_key, delete_key, update_key}
use certificates.Acme.Nosql.Orders.{create_order, update_order, get_orders_by_account_id, nosql_db}
use certificates.Acme.Nosql.Tables as Tables
use certificates.Acme.Nosql.KeyTables as KeyTables
use certificates.Acme.Nosql.Orders.Keyed.{update_order-WellFormed, nosql_db-Keeps}
use certificates.Acme.Nosql.Orders.Created.{update_add_order_ids_keyed, create_order_keyed}

module _ {S : Type 0} (kv : Kv S) (x509 : X509) (x : External) (ca : Signer)
    (thumbprint : Bytes → Option Bytes) (base64 : Bytes → Bytes) where
  -- One operation, at any time and with any random identifiers, whatever it returns.
  pub data Step : S → S → Type 0 where
    nonce_created :
        (now : ℕ) (random : Option Bytes) (s : S) → Step s (create_nonce kv base64 now random s).1
    nonce_deleted : (n : Bytes) (s : S) → Step s (delete_nonce kv n s).1
    challenge_created :
        (now : ℕ) (id : Option Bytes) (ch : Challenge) (s : S)
        → Step s (create_challenge kv now id ch s).1
    challenge_updated : (ch : Challenge) (s : S) → Step s (update_challenge kv ch s).1
    authorization_created :
        (now : ℕ) (id : Option Bytes) (az : Authorization) (s : S)
        → Step s (create_authorization kv now id az s).1
    authorization_updated : (az : Authorization) (s : S) → Step s (update_authorization kv az s).1
    account_created :
        (now : ℕ) (id : Option Bytes) (acc : Account) (s : S)
        → Step s (create_account kv thumbprint base64 now id acc s).1
    account_updated : (now : ℕ) (acc : Account) (s : S) → Step s (update_account kv now acc s).1
    key_created :
        (now : ℕ) (id random : Option Bytes) (p ref : Bytes) (s : S)
        → Step s (create_key kv now id random p ref s).1
    key_deleted : (p k : Bytes) (s : S) → Step s (delete_key kv p k s).1
    key_updated : (p : Bytes) (eak : ExternalAccountKey) (s : S) → Step s (update_key kv p eak s).1
    certificate_created :
        (now : ℕ) (id : Option Bytes) (cert : Certificate) (s : S)
        → Step s (create_certificate kv x509 now id cert s).1
    order_created :
        (now : ℕ) (id cert_id : Option Bytes) (o : Order) (s : S)
        → Step s
            (create_order kv (nosql_db kv (create_certificate kv x509 now cert_id)) now id o s).1
    order_updated : (o : Order) (s : S) → Step s (update_order kv o s).1
    orders_listed :
        (now : ℕ) (cert_id : Option Bytes) (account_id : Bytes) (s : S)
        → Step s
            (get_orders_by_account_id kv
              (nosql_db kv (create_certificate kv x509 now cert_id))
              now
              account_id
              s).1
    order_refreshed :
        (now : ℕ) (cert_id : Option Bytes) (o : Order) (s : S)
        → Step s
            (Orders.update_status (nosql_db kv (create_certificate kv x509 now cert_id)) now o s).1
    order_finalized :
        (now : ℕ) (cert_id : Option Bytes) (o : Order) (csr : CertificateRequest) (s : S)
        → Step s
            (finalize (nosql_db kv (create_certificate kv x509 now cert_id)) x ca now o csr s).1

  -- The states that a sequence of operations reaches from a state without texts.
  pub data Reachable : S → Type 0 where
    start : (s : S) → ((t k : Bytes) → kv.get t k s ≡ missing) → Reachable s
    after : (s0 s : S) → Reachable s0 → Step s0 s → Reachable s

  module _ (laws : KvLaws kv) where
    Step-WellFormed : {s s' : S} → Step s s' → WellFormed kv s → WellFormed kv s'
    unfolding get_orders_by_account_id
    Step-WellFormed (nonce_created now random s) h =
        Tables.create_nonce-WellFormed kv laws base64 now random s h
    Step-WellFormed (nonce_deleted n s) h = Tables.delete_nonce-WellFormed kv laws n s h
    Step-WellFormed (challenge_created now id ch s) h =
        Tables.create_challenge-WellFormed kv laws now id ch s h
    Step-WellFormed (challenge_updated ch s) h = Tables.update_challenge-WellFormed kv laws ch s h
    Step-WellFormed (authorization_created now id az s) h =
        Tables.create_authorization-WellFormed kv laws now id az s h
    Step-WellFormed (authorization_updated az s) h =
        Tables.update_authorization-WellFormed kv laws az s h
    Step-WellFormed (account_created now id acc s) h =
        KeyTables.create_account-WellFormed kv laws thumbprint base64 now id acc s h
    Step-WellFormed (account_updated now acc s) h =
        KeyTables.update_account-WellFormed kv laws now acc s h
    Step-WellFormed (key_created now id random p ref s) h =
        KeyTables.create_key-WellFormed kv laws now id random p ref s h
    Step-WellFormed (key_deleted p k s) h = KeyTables.delete_key-WellFormed kv laws p k s h
    Step-WellFormed (key_updated p eak s) h = KeyTables.update_key-WellFormed kv laws p eak s h
    Step-WellFormed (certificate_created now id cert s) h =
        Tables.create_certificate-WellFormed kv laws x509 now id cert s h
    Step-WellFormed (order_created now id cert_id o s) h =
        create_order_keyed kv laws _ (nosql_db-Keeps kv laws x509 now cert_id) now id o s h
    Step-WellFormed (order_updated o s) h = update_order-WellFormed kv laws o s h
    Step-WellFormed (orders_listed now cert_id account_id s) h =
        update_add_order_ids_keyed kv laws _ (nosql_db-Keeps kv laws x509 now cert_id) now
          account_id [] s h
    Step-WellFormed (order_refreshed now cert_id o s) h =
        OrderKept.update_status_keeps _ (WellFormed kv) (nosql_db-Keeps kv laws x509 now cert_id)
          now o s h
    Step-WellFormed (order_finalized now cert_id o csr s) h =
        finalize_keeps _ x ca (WellFormed kv) (nosql_db-Keeps kv laws x509 now cert_id) now o csr s
          h

    -- In every state that any sequence of these operations reaches from empty tables, whatever the
    -- operations return: each table holds only rows of its own type, and a row that has an identifier
    -- stands at that identifier.
    pub Reachable-WellFormed : {s : S} → Reachable s → WellFormed kv s
    Reachable-WellFormed (start s empty) = λ t k r at. let none_there = empty t k in absurd cc
    Reachable-WellFormed (after s0 s ran step) = Step-WellFormed step (Reachable-WellFormed ran)
