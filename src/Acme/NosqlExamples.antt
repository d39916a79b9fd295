-- ===== src/Acme/NosqlExamples.antt =====
-- Concrete runs of the operations of acme/db/nosql/ over a small store.
mod Store
use native.Mathlib.Decide.{ℕ_discrete}
use certificates.Base.{
  ◌≡◌, refl, ◌⊎◌, inl, inr, ℕ, Bool, true, false, not, ◌&&◌, Option, some, none, List, [], ◌∷◌,
  ◌++◌, Bytes, codes, bytes_eq, to_lower, All, Outcome, ok, err, panic,
}
use certificates.Policy.Types.{External}
use certificates.Acme.Types.{
  Error, problem, bad_nonce, absent, Status, valid, invalid, ready, Order,
}
use certificates.Acme.Account.{Account, ExternalAccountKey, key_to_id}
use certificates.Acme.Db.{Certificate}
use certificates.Acme.Names.{
  CertificateRequest, canonicalize, with_common_name, unique_sorted_lower_names, unique_sorted_ips,
  sort_strings, insert,
}
use certificates.Acme.Sans.{sans, collect, dns_sans, ip_sans}
use certificates.Policy.Dedupe.{dedupe_loop, has_key}
use certificates.Acme.Order as Orders
use certificates.Acme.Finalize.{
  Signer, SignRequest, signed, sign_request, permanent_identifier_of, finalize,
}
use certificates.Acme.Nosql.{
  Row, DbOrder, order_row, order_table, nonce_table, Got, found, missing, Kv, same_key, save,
}
use certificates.Acme.Nosql.WellFormed.{WellFormed, RowOk}
use certificates.Acme.Nosql.Nonce.{create_nonce, delete_nonce}
use certificates.Acme.Nosql.Nonce.Once.{delete_nonce_once}
use certificates.Acme.Nosql.Accounts.{
  create_account, store_account, get_account, get_account_by_key_id,
}
use certificates.Acme.Nosql.Accounts.Stored.{create_account-get_account}
use certificates.Acme.Nosql.Certs.{create_certificate, get_certificate, get_certificate_by_serial}
use certificates.Acme.Nosql.Certs.RoundTrip.{create_certificate-get_certificate}
use certificates.Acme.Nosql.Keys.{
  create_key, delete_key, get_eak_ids, get_db_key, add_eak_id, save_ids, save_reference,
  delete_reference, del_row, delete_eak_id,
}
use certificates.Acme.Nosql.Keys.Lists.{has_id}
use certificates.Acme.Nosql.Keys.Removal.{Distinct}
use certificates.Acme.Nosql.Keys.Index.{index_at, create_key-delete_last, delete_key-Distinct}
use certificates.Acme.Nosql.Orders.{
  get_order, update_order, create_order, nosql_db, get_db_order, update_add_order_ids, with_index,
  write_index,
}
use certificates.Acme.Nosql.Orders.Updated.{update_order-get_order}
use certificates.Acme.Nosql.Steps.{
  Step, order_created, Reachable, start, after, Reachable-WellFormed,
}
use certificates.Acme.Nosql.Issued.{Stored, SignsX509, db_at, finalize-Stored}
use certificates.Acme.Examples.{plain_libraries, willing, web_request, web_order}
use certificates.Acme.NosqlExamples.Store.{
  Texts, no_texts, swap, memory, memory-KvLaws, lengths, lengths-PemLaws, lengths-Parses,
}

abbrev with_nonce : Texts
with_nonce = (create_nonce memory (λ b. b) 10 (some (codes "n")) no_texts).1

abbrev without_nonce : Texts
without_nonce = (delete_nonce memory (codes "n") with_nonce).1

nonce_gone : delete_nonce memory (codes "n") with_nonce ≡ (ok tt, without_nonce)
unfolding delete_nonce create_nonce save swap bytes_eq
nonce_gone = refl

abbrev acme_account : Account
acme_account = record { id = []; key = codes "k"; contact = []; status = valid }

abbrev stored_account : Account
stored_account = record acme_account { id = codes "a" }

abbrev with_account : Texts
with_account =
    (create_account memory (λ k. some k) (λ b. b) 10 (some (codes "a")) acme_account no_texts).1

account_stored :
    create_account memory (λ k. some k) (λ b. b) 10 (some (codes "a")) acme_account no_texts
    ≡ (ok stored_account, with_account)
unfolding create_account store_account save swap bytes_eq
account_stored = refl

create_account-get_account_example :
    (kid : Bytes) × (key_to_id (λ k. some k) (λ b. b) (codes "k") ≡ ok kid)
    × (get_account_by_key_id memory kid no_texts ≡ err absent)
    × (get_account_by_key_id memory kid with_account ≡ ok stored_account)
    × (get_account memory (codes "a") with_account ≡ ok stored_account)
    × (stored_account ≡ record acme_account { id = codes "a" })
create_account-get_account_example =
    create_account-get_account memory memory-KvLaws (λ k. some k) (λ b. b) 10 (codes "a")
      acme_account stored_account no_texts with_account account_stored

abbrev chain : Certificate
chain = record {
  id = [];
  account_id = codes "a";
  order_id = codes "o";
  leaf = codes "leaf";
  intermediates = codes "ca" ∷ codes "root" ∷ [];
}

abbrev with_chain : Texts
with_chain = (create_certificate memory lengths 10 (some (codes "c")) chain no_texts).1

chain_stored :
    create_certificate memory lengths 10 (some (codes "c")) chain no_texts
    ≡ (ok (codes "c"), with_chain)
unfolding create_certificate save swap bytes_eq
chain_stored = refl

create_certificate-get_certificate_example :
    (codes "c" ≡ codes "c")
    × (get_certificate memory lengths (codes "c") with_chain ≡ ok (record chain { id = codes "c" }))
    × (get_certificate_by_serial memory lengths (codes "leaf") with_chain
        ≡ ok (record chain { id = codes "c" }))
create_certificate-get_certificate_example =
    create_certificate-get_certificate memory lengths memory-KvLaws lengths-PemLaws 10 (codes "c")
      (codes "c") chain no_texts with_chain (refl, (refl, (refl, tt))) chain_stored

-- A key of the provisioner `p`, and its deletion.
abbrev with_eak : Texts
with_eak =
    (create_key memory 10 (some (codes "k")) (some (codes "secret")) (codes "p") [] no_texts).1

abbrev key_deleted_state : Texts
key_deleted_state = (delete_key memory (codes "p") (codes "k") with_eak).1

one_key : get_eak_ids memory (codes "p") with_eak ≡ ok (codes "k" ∷ [])
unfolding get_eak_ids create_key save swap bytes_eq add_eak_id save_ids save_reference
one_key = refl

key_gone : delete_key memory (codes "p") (codes "k") with_eak ≡ (ok tt, key_deleted_state)
unfolding delete_key create_key save swap bytes_eq get_db_key add_eak_id get_eak_ids save_ids
    save_reference delete_reference del_row delete_eak_id ℕ_discrete
key_gone = refl

abbrev second_key : ExternalAccountKey
second_key = record {
  id = codes "l";
  provisioner_id = codes "p";
  reference = [];
  account_id = [];
  hmac_key = codes "secret";
  created_at = 11;
  bound_at = 0;
}

create_key-delete_last_example : ¬ (
    create_key memory 11 (some (codes "l")) (some (codes "secret")) (codes "p") [] key_deleted_state
    ≡ (ok second_key, key_deleted_state))
create_key-delete_last_example =
    create_key-delete_last memory memory-KvLaws (codes "p") (codes "k") with_eak key_deleted_state
      key_deleted_state key_deleted_state second_key 11 (some (codes "l")) (some (codes "secret"))
      [] one_key key_gone refl

-- An order that is ready, stored under its identifier.
abbrev ready_order : Order
ready_order = record (web_order ready) { id = codes "o" }

abbrev with_order : Texts
with_order =
    (create_order memory (nosql_db memory (create_certificate memory lengths 20 (some (codes "c"))))
      20 (some (codes "o")) ready_order no_texts).1

order_reached : Reachable memory lengths plain_libraries willing (λ k. some k) (λ b. b) with_order
order_reached =
    after no_texts with_order (start no_texts (λ t k. refl))
      (order_created 20 (some (codes "o")) (some (codes "c")) ready_order no_texts)

Reachable-WellFormed_example : WellFormed memory with_order
Reachable-WellFormed_example =
    Reachable-WellFormed memory lengths plain_libraries willing (λ k. some k) (λ b. b) memory-KvLaws
      order_reached

with_order-WellFormed : WellFormed memory with_order
with_order-WellFormed =
    Reachable-WellFormed memory lengths plain_libraries willing (λ k. some k) (λ b. b) memory-KvLaws
      order_reached

abbrev invalid_order : Order
invalid_order = record ready_order { status = invalid }

abbrev with_invalid : Texts
with_invalid = (update_order memory invalid_order with_order).1

order_updated_here : update_order memory invalid_order with_order ≡ (ok tt, with_invalid)
unfolding update_order create_order save swap bytes_eq get_db_order update_add_order_ids with_index
    write_index ℕ_discrete
order_updated_here = refl

update_order-get_order_example :
    (was : Order) × (get_order memory (codes "o") with_order ≡ ok was)
    × (get_order memory (codes "o") with_invalid
        ≡ ok (record was { status = invalid; error = none; certificate_id = [] }))
    × ((t k : Bytes)
        → same_key order_table (codes "o") t k ≡ false
        → memory.get t k with_invalid ≡ memory.get t k with_order)
update_order-get_order_example =
    update_order-get_order memory memory-KvLaws invalid_order with_order with_invalid
      with_order-WellFormed order_updated_here

signs_plainly : SignsX509 lengths willing
signs_plainly request leaf rest h = lengths-Parses (leaf ∷ rest)

abbrev issued_order : Order
issued_order = record ready_order { status = valid; certificate_id = codes "c" }

abbrev with_issued : Texts
with_issued =
    (finalize (db_at memory lengths 20 (codes "c")) plain_libraries willing 20 ready_order
      web_request with_order).1

order_issued :
    finalize
      (db_at memory lengths 20 (codes "c"))
      plain_libraries
      willing
      20
      ready_order
      web_request
      with_order
    ≡ ((issued_order, ok tt), with_issued)
unfolding finalize Orders.update_status Orders.save signed sign_request permanent_identifier_of sans
    canonicalize with_common_name collect unique_sorted_lower_names sort_strings dedupe_loop has_key
    insert dns_sans bytes_eq to_lower unique_sorted_ips ip_sans create_certificate update_order
    get_db_order save swap create_order update_add_order_ids with_index write_index ℕ_discrete
order_issued = refl

finalize-Stored_example :
    ((valid ≡ valid)
      × (Orders.update_status (db_at memory lengths 20 (codes "c")) 20 ready_order with_order
          ≡ ((issued_order, ok tt), with_issued)))
    ⊎ Stored memory lengths issued_order (codes "c") with_issued
finalize-Stored_example =
    finalize-Stored memory memory-KvLaws lengths lengths-PemLaws plain_libraries willing
      signs_plainly 20 (codes "c") ready_order issued_order web_request with_order with_issued
      with_order-WellFormed order_issued
