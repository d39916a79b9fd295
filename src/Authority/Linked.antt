-- ===== src/Authority/Linked.antt =====
-- The messages of go.step.sm/linkedca that hold a policy and an administrator: the fields that the
-- code reads. A nil slice is an empty list, a nil pointer is `none`.
use certificates.Base.{ℕ, Bool, Option, List, Bytes}

pub record LinkedX509Names : Type 0 where
  pub dns : List Bytes
  pub ips : List Bytes
  pub emails : List Bytes
  pub uris : List Bytes
  pub common_names : List Bytes

pub record LinkedX509Policy : Type 0 where
  pub allow : Option LinkedX509Names
  pub deny : Option LinkedX509Names
  pub allow_wildcard_names : Bool

pub record LinkedSshHostNames : Type 0 where
  pub dns : List Bytes
  pub ips : List Bytes
  pub principals : List Bytes

pub record LinkedSshUserNames : Type 0 where
  pub emails : List Bytes
  pub principals : List Bytes

pub record LinkedSshHostPolicy : Type 0 where
  pub allow : Option LinkedSshHostNames
  pub deny : Option LinkedSshHostNames

pub record LinkedSshUserPolicy : Type 0 where
  pub allow : Option LinkedSshUserNames
  pub deny : Option LinkedSshUserNames

pub record LinkedSshPolicy : Type 0 where
  pub host : Option LinkedSshHostPolicy
  pub user : Option LinkedSshUserPolicy

pub record LinkedPolicy : Type 0 where
  pub x509 : Option LinkedX509Policy
  pub ssh : Option LinkedSshPolicy

pub data LinkedAdminType : Type 0 where
  unknown_admin plain_admin super_admin : LinkedAdminType

-- A time is a number of seconds, 0 the zero time.
pub record LinkedAdmin : Type 0 where
  pub id : Bytes
  pub authority_id : Bytes
  pub provisioner_id : Bytes
  pub subject : Bytes
  pub type : LinkedAdminType
  pub created_at : ℕ
  pub deleted_at : ℕ
