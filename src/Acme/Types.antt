-- ===== src/Acme/Types.antt =====
-- The data of acme/: statuses, identifiers, challenges, authorizations, orders and errors. The URLs
-- that the API writes into a reply are left out.
use certificates.Base.{ℕ, Bool, Option, List, Bytes, Outcome, ok, err, panic}

-- Status; `other` is any other text that a database may hold.
pub data Status : Type 0 where
  valid invalid pending deactivated ready : Status
  other : Bytes → Status

pub data IdentifierType : Type 0 where
  ip dns permanent_identifier : IdentifierType
  unsupported : Bytes → IdentifierType

pub record Identifier : Type 0 where
  pub type : IdentifierType
  pub value : Bytes

-- The types of acme.Error that the modelled code makes, without their texts.
pub data Problem : Type 0 where
  malformed order_not_ready bad_csr server_internal rejected_identifier connection : Problem
  bad_nonce unauthorized : Problem
  dns_problem : Problem

-- A Go error: an acme.Error, ErrNotFound of acme/db.go, or any other.
pub data Error : Type 0 where
  problem : Problem → Error
  absent plain : Error

-- WrapErrorISE: an acme.Error keeps its type, any other error becomes a server error.
abbrev pub wrap_ise : Error → Error
wrap_ise (problem p) = problem p
wrap_ise absent = problem server_internal
wrap_ise plain = problem server_internal

abbrev pub wrapped : {A : Type 0} → Outcome Error A → Outcome Error A
wrapped (ok a) = ok a
wrapped (err e) = err (wrap_ise e)
wrapped panic = panic

pub data ChallengeType : Type 0 where
  http01 dns01 tlsalpn01 deviceattest01 : ChallengeType
  unknown : Bytes → ChallengeType

pub record Challenge : Type 0 where
  pub id : Bytes
  pub account_id : Bytes
  pub authorization_id : Bytes
  pub value : Bytes
  pub type : ChallengeType
  pub status : Status
  pub token : Bytes
  pub validated_at : Bytes
  pub error : Option Problem

-- Times are seconds: the clock rounds to seconds.
pub record Authorization : Type 0 where
  pub id : Bytes
  pub account_id : Bytes
  pub token : Bytes
  pub identifier : Identifier
  pub status : Status
  pub challenges : List Challenge
  pub wildcard : Bool
  pub expires_at : ℕ
  pub error : Option Problem

pub record Order : Type 0 where
  pub id : Bytes
  pub account_id : Bytes
  pub provisioner_id : Bytes
  pub status : Status
  pub expires_at : ℕ
  pub identifiers : List Identifier
  pub not_before : ℕ
  pub not_after : ℕ
  pub error : Option Problem
  pub authorization_ids : List Bytes
  pub certificate_id : Bytes
