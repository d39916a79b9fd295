-- ===== src/Acme/Nosql/Challenges.antt =====
-- acme/db/nosql/challenge.go. The random identifier is an argument, `none` where there is none; it
-- comes back with the challenge, whose identifier is set.
use certificates.Base.{ℕ, Option, some, none, [], Bytes, Outcome, ok, err, panic}
use certificates.Acme.Types.{Error, problem, malformed, plain, pending, Challenge}
use certificates.Acme.Db.{Action}
use certificates.Acme.Nosql.{
  DbChallenge, Row, challenge_row, challenge_table, decoded, loaded, Kv, save, ◌>=>◌,
}

abbrev pub read_challenge : Row → Option DbChallenge
read_challenge (challenge_row c) = some c
read_challenge _ = none

abbrev pub challenge_of : DbChallenge → Challenge
challenge_of dbch = record {
  id = dbch.id;
  account_id = dbch.account_id;
  authorization_id = [];
  value = dbch.value;
  type = dbch.type;
  status = dbch.status;
  token = dbch.token;
  validated_at = dbch.validated_at;
  error = dbch.error;
}

-- The values that an update changes.
abbrev pub challenge_with : Challenge → DbChallenge → DbChallenge
challenge_with ch old = record old {
  status = ch.status;
  error = ch.error;
  validated_at = ch.validated_at;
}

module _ {S : Type 0} (kv : Kv S) where
  unfoldable pub get_db_challenge : Bytes → S → Outcome Error DbChallenge
  get_db_challenge id s =
      loaded (problem malformed) (decoded read_challenge (kv.get challenge_table id s))

  unfoldable pub create_challenge : ℕ → Option Bytes → Challenge → Action S Challenge
  create_challenge now none ch s = (err plain, s)
  create_challenge now (some id) ch s =
      save kv challenge_table id
        (some (
          challenge_row (record {
            id = id;
            account_id = ch.account_id;
            type = ch.type;
            status = pending;
            token = ch.token;
            value = ch.value;
            validated_at = [];
            created_at = now;
            error = none;
          })))
        none s
      >=> λ u s'. (ok (record ch { id = id }), s')

  unfoldable pub get_challenge : Bytes → S → Outcome Error Challenge
  get_challenge id s = elim (get_db_challenge id s) [
    | ok dbch ↦ ok (challenge_of dbch)
    | err e ↦ err e
    | panic ↦ panic
  ]

  unfoldable pub update_challenge : Challenge → Action S (Unit {0})
  update_challenge ch s = elim (get_db_challenge ch.id s) [
    | ok old ↦
        save kv challenge_table old.id (some (challenge_row (challenge_with ch old)))
          (some (challenge_row old)) s
    | err e ↦ (err e, s)
    | panic ↦ (panic, s)
  ]
