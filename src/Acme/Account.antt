-- ===== src/Acme/Account.antt =====
-- acme/account.go: accounts and external account keys. A key is its bytes, and a time of 0 is the
-- zero time.
use certificates.Base.{
  ℕ, Bool, true, false, Option, some, none, List, [], Bytes, ◌==◌, not, if◌then◌else◌, Outcome, ok,
  err,
}
use certificates.Acme.Types.{Error, problem, server_internal, unauthorized, Status, valid}

pub record Account : Type 0 where
  pub id : Bytes
  pub key : Bytes
  pub contact : List Bytes
  pub status : Status

pub record ExternalAccountKey : Type 0 where
  pub id : Bytes
  pub provisioner_id : Bytes
  pub reference : Bytes
  pub account_id : Bytes
  pub hmac_key : Bytes
  pub created_at : ℕ
  pub bound_at : ℕ

-- Account.IsValid
abbrev pub is_valid : Account → Bool
is_valid a = elim a.status [ valid ↦ true | _ ↦ false ]

-- KeyToID. The thumbprint and its text form are of third-party packages.
abbrev pub key_to_id : (Bytes → Option Bytes) → (Bytes → Bytes) → Bytes → Outcome Error Bytes
key_to_id thumbprint base64 key = elim (thumbprint key) [
  | none ↦ err (problem server_internal)
  | some kid ↦ ok (base64 kid)
]

abbrev pub already_bound : ExternalAccountKey → Bool
already_bound eak = not (eak.bound_at == 0)

unfoldable pub bind_to : ℕ → Account → ExternalAccountKey → Outcome Error ExternalAccountKey
bind_to now account eak =
    if already_bound eak
    then err (problem unauthorized)
    else ok (record eak { account_id = account.id; bound_at = now; hmac_key = [] })
