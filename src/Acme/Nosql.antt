-- ===== src/Acme/Nosql.antt =====
-- The database of acme/db/nosql/ over a key-value store: the tables of nosql.go and what is kept in
-- them, the store that the package calls, and `save`.
pub mod Laws
pub mod WellFormed
pub mod Tables
pub mod KeyTables
pub mod Steps
pub mod Issued
pub mod Nonce
pub mod Challenges
pub mod Authz
pub mod Orders
pub mod Accounts
pub mod Keys
pub mod Certs
use certificates.Base.{
  ℕ, Bool, Option, some, none, List, Bytes, codes, ◌&&◌, bytes_eq, Outcome, ok, err, panic,
}
use certificates.Acme.Types.{Status, Problem, Error, plain, ChallengeType, Identifier}
use certificates.Acme.Db.{Action}

pub record DbNonce : Type 0 where
  pub id : Bytes
  pub created_at : ℕ
  pub deleted_at : ℕ

pub record DbChallenge : Type 0 where
  pub id : Bytes
  pub account_id : Bytes
  pub type : ChallengeType
  pub status : Status
  pub token : Bytes
  pub value : Bytes
  pub validated_at : Bytes
  pub created_at : ℕ
  pub error : Option Problem

pub record DbAuthz : Type 0 where
  pub id : Bytes
  pub account_id : Bytes
  pub identifier : Identifier
  pub status : Status
  pub token : Bytes
  pub challenge_ids : List Bytes
  pub wildcard : Bool
  pub created_at : ℕ
  pub expires_at : ℕ
  pub error : Option Problem

pub record DbOrder : Type 0 where
  pub id : Bytes
  pub account_id : Bytes
  pub provisioner_id : Bytes
  pub identifiers : List Identifier
  pub authorization_ids : List Bytes
  pub status : Status
  pub not_before : ℕ
  pub not_after : ℕ
  pub created_at : ℕ
  pub expires_at : ℕ
  pub certificate_id : Bytes
  pub error : Option Problem

-- A time of 0 is the zero time.
pub record DbAccount : Type 0 where
  pub id : Bytes
  pub key : Bytes
  pub contact : List Bytes
  pub status : Status
  pub created_at : ℕ
  pub deactivated_at : ℕ

pub record DbCert : Type 0 where
  pub id : Bytes
  pub created_at : ℕ
  pub account_id : Bytes
  pub order_id : Bytes
  pub leaf : Bytes
  pub intermediates : Bytes

pub record DbSerial : Type 0 where
  pub serial : Bytes
  pub certificate_id : Bytes

pub record DbKey : Type 0 where
  pub id : Bytes
  pub provisioner_id : Bytes
  pub reference : Bytes
  pub account_id : Bytes
  pub hmac_key : Bytes
  pub created_at : ℕ
  pub bound_at : ℕ

pub record DbReference : Type 0 where
  pub reference : Bytes
  pub external_account_key_id : Bytes

-- What a stored text is: the value that json.Marshal was given, or an identifier as it is.
pub data Row : Type 0 where
  nonce_row : DbNonce → Row
  challenge_row : DbChallenge → Row
  authz_row : DbAuthz → Row
  order_row : DbOrder → Row
  account_row : DbAccount → Row
  cert_row : DbCert → Row
  serial_row : DbSerial → Row
  key_row : DbKey → Row
  reference_row : DbReference → Row
  ids_row : List Bytes → Row
  id_row : Bytes → Row

abbrev pub account_table : Bytes
account_table = codes "acme_accounts"

abbrev pub account_by_key_id_table : Bytes
account_by_key_id_table = codes "acme_keyID_accountID_index"

abbrev pub authz_table : Bytes
authz_table = codes "acme_authzs"

abbrev pub challenge_table : Bytes
challenge_table = codes "acme_challenges"

abbrev pub nonce_table : Bytes
nonce_table = codes "nonces"

abbrev pub order_table : Bytes
order_table = codes "acme_orders"

abbrev pub orders_by_account_id_table : Bytes
orders_by_account_id_table = codes "acme_account_orders_index"

abbrev pub cert_table : Bytes
cert_table = codes "acme_certs"

abbrev pub cert_by_serial_table : Bytes
cert_by_serial_table = codes "acme_serial_certs_index"

abbrev pub key_table : Bytes
key_table = codes "acme_external_account_keys"

abbrev pub key_by_reference_table : Bytes
key_by_reference_table = codes "acme_external_account_keyID_reference_index"

abbrev pub keys_by_provisioner_table : Bytes
keys_by_provisioner_table = codes "acme_external_account_keyID_provisionerID_index"

-- What a read returns: a value, the error for a missing key, or another error.
pub data Got (A : Type 0) : Type 0 where
  found : A → Got A
  missing broken : Got A

-- What CmpAndSwap and the transaction return.
pub data Swap : Type 0 where
  swapped kept failed : Swap

-- The store github.com/smallstep/nosql over a type of states. `none` is a nil text. `take_out` is
-- the transaction that gets a key and deletes it: `kept` is the error for a missing key.
pub record Kv (S : Type 0) : Type 0 where
  pub get : Bytes → Bytes → S → Got Row
  pub cmp_and_swap : Bytes → Bytes → Option Row → Option Row → S → Swap × S
  pub del : Bytes → Bytes → S → Bool × S
  pub take_out : Bytes → Bytes → S → Swap × S
  pub rows : Bytes → S → Option (List Row)

abbrev pub same_key : Bytes → Bytes → Bytes → Bytes → Bool
same_key t k t' k' = bytes_eq t t' && bytes_eq k k'

-- json.Unmarshal into a type: an error on a text of another type.
abbrev pub decoded : {A : Type 0} → (Row → Option A) → Got Row → Got A
decoded read (found r) = elim (read r) [ some a ↦ found a | none ↦ broken ]
decoded read missing = missing
decoded read broken = broken

saved : Swap → Outcome Error (Unit {0})
saved swapped = ok tt
saved kept = err plain
saved failed = err plain

-- DB.save
unfoldable pub save :
    {S : Type 0} → Kv S → Bytes → Bytes → Option Row → Option Row → Action S (Unit {0})
unfolding saved
save kv table id nu old s = let (r, s') = kv.cmp_and_swap table id old nu s in (saved r, s')

-- A value that was read, with the error for a missing key.
abbrev pub loaded : {A : Type 0} → Error → Got A → Outcome Error A
loaded missing_error (found a) = ok a
loaded missing_error missing = err missing_error
loaded missing_error broken = err plain

-- The rest of an action runs where the first part returned no error.
infixl 5 ◌>=>◌
abbrev pub ◌>=>◌ : {S A B : Type 0} → Outcome Error A × S → (A → Action S B) → Outcome Error B × S
(ok a, s) >=> f = f a s
(err e, s) >=> f = (err e, s)
(panic, s) >=> f = (panic, s)
