-- ===== src/Acme/Nosql/Authz.antt =====
-- acme/db/nosql/authz.go.
use certificates.Base.{
  ℕ, Option, some, none, List, [], ◌∷◌, Bytes, map, bytes_eq, if◌then◌else◌, Outcome, ok, err,
  panic, ◌>>=◌,
}
use certificates.Acme.Types.{Error, problem, malformed, plain, Challenge, Authorization}
use certificates.Acme.Db.{Action}
use certificates.Acme.Nosql.{DbAuthz, Row, authz_row, authz_table, decoded, loaded, Kv, save, ◌>=>◌}
use certificates.Acme.Nosql.Challenges.{get_challenge}

abbrev pub read_authz : Row → Option DbAuthz
read_authz (authz_row a) = some a
read_authz _ = none

abbrev pub authz_of : DbAuthz → List Challenge → Authorization
authz_of dbaz challenges = record {
  id = dbaz.id;
  account_id = dbaz.account_id;
  token = dbaz.token;
  identifier = dbaz.identifier;
  status = dbaz.status;
  challenges = challenges;
  wildcard = dbaz.wildcard;
  expires_at = dbaz.expires_at;
  error = dbaz.error;
}

-- The values that an update changes.
abbrev pub authz_with : Authorization → DbAuthz → DbAuthz
authz_with az old = record old { status = az.status; error = az.error }

module _ {S : Type 0} (kv : Kv S) where
  unfoldable pub get_db_authz : Bytes → S → Outcome Error DbAuthz
  get_db_authz id s = loaded (problem malformed) (decoded read_authz (kv.get authz_table id s))

  -- The loop over the identifiers of the challenges.
  unfoldable pub get_challenges : List Bytes → S → Outcome Error (List Challenge)
  get_challenges [] s = ok []
  get_challenges (id ∷ ids) s =
      get_challenge kv id s >>= λ ch. (get_challenges ids s >>= λ chs. ok (ch ∷ chs))

  unfoldable pub get_authorization : Bytes → S → Outcome Error Authorization
  get_authorization id s = get_db_authz id s >>= λ dbaz.
      (get_challenges dbaz.challenge_ids s >>= λ chs. ok (authz_of dbaz chs))

  unfoldable pub create_authorization : ℕ → Option Bytes → Authorization → Action S Authorization
  create_authorization now none az s = (err plain, s)
  create_authorization now (some id) az s =
      save kv authz_table id
        (some (
          authz_row (record {
            id = id;
            account_id = az.account_id;
            identifier = az.identifier;
            status = az.status;
            token = az.token;
            challenge_ids = map (λ (ch : Challenge). ch.id) az.challenges;
            wildcard = az.wildcard;
            created_at = now;
            expires_at = az.expires_at;
            error = none;
          })))
        none s
      >=> λ u s'. (ok (record az { id = id }), s')

  unfoldable pub update_authorization : Authorization → Action S (Unit {0})
  update_authorization az s = elim (get_db_authz az.id s) [
    | ok old ↦
        save kv authz_table old.id (some (authz_row (authz_with az old))) (some (authz_row old)) s
    | err e ↦ (err e, s)
    | panic ↦ (panic, s)
  ]

  -- The loop over the entries; the challenges are not loaded.
  unfoldable pub authzs_of_account : Bytes → List Row → Outcome Error (List Authorization)
  authzs_of_account account_id [] = ok []
  authzs_of_account account_id (r ∷ rows) =
      let rest = authzs_of_account account_id rows in
      elim (read_authz r) [
        | none ↦ err plain
        | some dbaz ↦
            if bytes_eq dbaz.account_id account_id
            then (rest >>= λ authzs. ok (authz_of dbaz [] ∷ authzs))
            else rest
      ]

  unfoldable pub get_authorizations_by_account_id : Bytes → S → Outcome Error (List Authorization)
  get_authorizations_by_account_id account_id s = elim (kv.rows authz_table s) [
    | none ↦ err plain
    | some rows ↦ authzs_of_account account_id rows
  ]
