-- ===== src/Acme/Authorization.antt =====
-- `Authorization.UpdateStatus` of acme/authorization.go. The object comes back beside the error.
pub mod Keeps
pub mod Steps
use certificates.Base.{
  ℕ, Bool, true, false, ◌||◌, Option, none, List, [], ◌∷◌, ltb, if◌then◌else◌, Outcome, ok, err,
}
use certificates.Acme.Types.{
  Status, valid, invalid, pending, Error, problem, server_internal, wrapped, Challenge,
  Authorization,
}
use certificates.Acme.Db.{Db}

is_valid : Status → Bool
is_valid valid = true
is_valid _ = false

-- The loop over the challenges.
unfoldable pub any_valid : List Challenge → Bool
unfolding is_valid
any_valid [] = false
any_valid (ch ∷ challenges) = is_valid ch.status || any_valid challenges

module _ {S : Type 0} (db : Db S) where
  unfoldable pub save : Authorization → S → (Authorization × Outcome Error (Unit {0})) × S
  save az s = let (r, s') = db.update_authorization az s in ((az, wrapped r), s')

  by_status : Status → ℕ → Authorization → S → (Authorization × Outcome Error (Unit {0})) × S
  by_status invalid now az s = ((az, ok tt), s)
  by_status valid now az s = ((az, ok tt), s)
  by_status pending now az s =
      if ltb az.expires_at now
      then save (record az { status = invalid }) s
      else if any_valid az.challenges
      then save (record az { status = valid; error = none }) s
      else ((az, ok tt), s)
  by_status _ now az s = ((az, err (problem server_internal)), s)

  unfoldable pub update_status :
      ℕ → Authorization → S → (Authorization × Outcome Error (Unit {0})) × S
  unfolding by_status
  update_status now az s = by_status az.status now az s
