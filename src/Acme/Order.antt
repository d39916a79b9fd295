-- ===== src/Acme/Order.antt =====
-- `Order.UpdateStatus` of acme/order.go. The object comes back beside the error.
pub mod Count
pub mod Keeps
pub mod Loads
pub mod Steps
use certificates.Base.{
  ℕ, suc, Bool, true, false, Option, some, none, List, [], ◌∷◌, Bytes, ltb, ◌==◌, length,
  if◌then◌else◌, Outcome, ok, err, panic, ◌>>=◌,
}
use certificates.Acme.Types.{
  Status, valid, invalid, pending, deactivated, ready, Error, problem, malformed, server_internal,
  wrap_ise, wrapped, Authorization, Order,
}
use certificates.Acme.Db.{Db, Action}
use certificates.Acme.Authorization as Authz

-- `count[st]`, where `list` holds the statuses that were counted.
pub is_status : Status → Status → Bool
is_status valid valid = true
is_status invalid invalid = true
is_status pending pending = true
is_status _ _ = false

unfoldable pub count : Status → List Status → ℕ
unfolding is_status
count st [] = 0
count st (t ∷ list) = if is_status st t then suc (count st list) else count st list

-- The order as it is written once it has expired.
abbrev pub expired : Order → Order
expired o = record o { status = invalid; error = some malformed }

module _ {S : Type 0} (db : Db S) where
  unfoldable pub save : Order → S → (Order × Outcome Error (Unit {0})) × S
  save o s = let (r, s') = db.update_order o s in ((o, wrapped r), s')

  -- One round: load an authorization, update it, and return its status.
  unfoldable pub load_status : ℕ → Bytes → Action S Status
  load_status now az_id s =
      let (r, s1) = db.get_authorization az_id s in
      elim r [
        | ok az ↦
            let ((az', u), s2) = Authz.update_status db now az s1 in
            (wrapped (u >>= λ _. ok az'.status), s2)
        | err e ↦ (err (wrap_ise e), s1)
        | panic ↦ (panic, s1)
      ]

  -- `for _, azID := range o.AuthorizationIDs { ... }`
  unfoldable pub load_statuses : ℕ → List Bytes → Action S (List Status)
  load_statuses now [] s = (ok [], s)
  load_statuses now (az_id ∷ ids) s =
      let (r, s1) = load_status now az_id s in
      elim r [
        | ok st ↦ let (rest, s2) = load_statuses now ids s1 in (rest >>= λ list. ok (st ∷ list), s2)
        | err e ↦ (err e, s1)
        | panic ↦ (panic, s1)
      ]

  -- The `switch` over the counts.
  unfoldable pub decide : List Status → Order → S → (Order × Outcome Error (Unit {0})) × S
  decide list o s =
      if ltb 0 (count invalid list)
      then save (record o { status = invalid }) s
      else if ltb 0 (count pending list)
      then ((o, ok tt), s)
      else if count valid list == length o.authorization_ids
      then save (record o { status = ready }) s
      else ((o, err (problem server_internal)), s)

  after_loading : Outcome Error (List Status) → Order → S → (Order × Outcome Error (Unit {0})) × S
  after_loading (ok list) o s = decide list o s
  after_loading (err e) o s = ((o, err e), s)
  after_loading panic o s = ((o, panic), s)

  by_status : Status → ℕ → Order → S → (Order × Outcome Error (Unit {0})) × S
  unfolding after_loading
  by_status invalid now o s = ((o, ok tt), s)
  by_status valid now o s = ((o, ok tt), s)
  by_status ready now o s = if ltb o.expires_at now then save (expired o) s else ((o, ok tt), s)
  by_status pending now o s =
      if ltb o.expires_at now
      then save (expired o) s
      else let (r, s') = load_statuses now o.authorization_ids s in after_loading r o s'
  by_status _ now o s = ((o, err (problem server_internal)), s)

  unfoldable pub update_status : ℕ → Order → S → (Order × Outcome Error (Unit {0})) × S
  unfolding by_status
  update_status now o s = by_status o.status now o s
