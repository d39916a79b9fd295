-- ===== src/Authority/AdminDb/Rows/RoundTrip.antt =====
-- The conversions of authority/admin/db/nosql/policy.go there and back.
use certificates.Base.{◌≡◌, refl, ap, ap₂, Option, none, some}
use certificates.Authority.Linked.{
  LinkedX509Names, LinkedX509Policy, LinkedSshHostNames, LinkedSshUserNames, LinkedSshHostPolicy,
  LinkedSshUserPolicy, LinkedSshPolicy, LinkedPolicy,
}
use certificates.Authority.Options.{linked_to_certificates}
use certificates.Authority.AdminDb.Rows.{
  linked_x509_names, linked_x509, linked_host_names, linked_user_names, linked_host, linked_user,
  linked_ssh, db_to_linked, db_x509_names, db_x509, db_host_names, db_user_names, db_host, db_user,
  db_ssh, db_policy, linked_to_db,
}

x509_names-back : (n : Option LinkedX509Names) → linked_x509_names (db_x509_names n) ≡ n
x509_names-back none = refl
x509_names-back (some n) = refl

host_names-back : (n : Option LinkedSshHostNames) → linked_host_names (db_host_names n) ≡ n
host_names-back none = refl
host_names-back (some n) = refl

user_names-back : (n : Option LinkedSshUserNames) → linked_user_names (db_user_names n) ≡ n
user_names-back none = refl
user_names-back (some n) = refl

x509-back : (p : Option LinkedX509Policy) → linked_x509 (db_x509 p) ≡ p
x509-back none = refl
x509-back (some p) =
    ap₂
      (λ allow deny.
        some (record { allow = allow; deny = deny; allow_wildcard_names = p.allow_wildcard_names }))
      (x509_names-back p.allow) (x509_names-back p.deny)

host-back : (p : Option LinkedSshHostPolicy) → linked_host (db_host p) ≡ p
host-back none = refl
host-back (some p) =
    ap₂ (λ allow deny. some (record { allow = allow; deny = deny })) (host_names-back p.allow)
      (host_names-back p.deny)

user-back : (p : Option LinkedSshUserPolicy) → linked_user (db_user p) ≡ p
user-back none = refl
user-back (some p) =
    ap₂ (λ allow deny. some (record { allow = allow; deny = deny })) (user_names-back p.allow)
      (user_names-back p.deny)

ssh-back : (p : Option LinkedSshPolicy) → linked_ssh (db_ssh p) ≡ p
ssh-back none = refl
ssh-back (some p) =
    ap₂ (λ host user. some (record { host = host; user = user })) (host-back p.host)
      (user-back p.user)

-- A policy as it comes back: one with neither part is nil.
abbrev back : Option LinkedX509Policy → Option LinkedSshPolicy → Option LinkedPolicy
back none none = none
back x509 ssh = some (record { x509 = x509; ssh = ssh })

abbrev pub without_empty : Option LinkedPolicy → Option LinkedPolicy
without_empty none = none
without_empty (some p) = back p.x509 p.ssh

policy-back :
    (x509 : Option LinkedX509Policy) (ssh : Option LinkedSshPolicy)
    → db_to_linked (db_policy x509 ssh) ≡ back x509 ssh
unfolding db_policy
policy-back none none = refl
policy-back (some x) ssh =
    ap₂ (λ a b. some (record { x509 = a; ssh = b })) (x509-back (some x)) (ssh-back ssh)
policy-back none (some s) = ap (λ b. some (record { x509 = none; ssh = b })) (ssh-back (some s))

-- A policy that is converted to a row and back is the same, but that one with neither an X.509 nor
-- an SSH part is nil.
pub db_to_linked-linked_to_db :
    (p : Option LinkedPolicy) → db_to_linked (linked_to_db p) ≡ without_empty p
unfolding linked_to_db
db_to_linked-linked_to_db none = refl
db_to_linked-linked_to_db (some p) = policy-back p.x509 p.ssh

back_options :
    (x509 : Option LinkedX509Policy) (ssh : Option LinkedSshPolicy)
    → linked_to_certificates (back x509 ssh)
      ≡ linked_to_certificates (some (record { x509 = x509; ssh = ssh }))
back_options none none = refl
back_options (some x) none = refl
back_options none (some s) = refl
back_options (some x) (some s) = refl

-- The options of a policy are those of the one that comes back.
pub linked_to_certificates-without_empty :
    (p : Option LinkedPolicy) → linked_to_certificates (without_empty p) ≡ linked_to_certificates p
linked_to_certificates-without_empty none = refl
linked_to_certificates-without_empty (some p) = back_options p.x509 p.ssh
