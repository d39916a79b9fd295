-- ===== src/Acme/Db.antt =====
-- The part of the interface `DB` of acme/db.go that challenges, authorizations and orders call,
-- over a state of the database. An operation returns the new state beside its outcome.
use certificates.Base.{Bool, true, false, if◌then◌else◌, List, Bytes, Outcome, ok, err, panic}
use certificates.Acme.Types.{Error, Challenge, Authorization, Order}

abbrev pub Action : Type 0 → Type 0 → Type 0
Action S A = S → Outcome Error A × S

-- acme.Certificate: the chain that was signed, leaf first.
pub record Certificate : Type 0 where
  pub id : Bytes
  pub account_id : Bytes
  pub order_id : Bytes
  pub leaf : Bytes
  pub intermediates : List Bytes

pub record Db (S : Type 0) : Type 0 where
  pub get_authorization : Bytes → Action S Authorization
  pub update_authorization : Authorization → Action S (Unit {0})
  pub update_challenge : Challenge → Action S (Unit {0})
  pub update_order : Order → Action S (Unit {0})
  -- `cert.ID` is set by the database and comes back.
  pub create_certificate : Certificate → Action S Bytes

-- A property of the database's state that each of the operations keeps, whatever it returns.
pub record Keeps {S : Type 0} (db : Db S) (P : S → Type 0) : Type 0 where
  pub get_authorization : (id : Bytes) (s : S) → P s → P (db.get_authorization id s).1
  pub update_authorization : (az : Authorization) (s : S) → P s → P (db.update_authorization az s).1
  pub update_order : (o : Order) (s : S) → P s → P (db.update_order o s).1
  pub create_certificate : (c : Certificate) (s : S) → P s → P (db.create_certificate c s).1

pub if_keeps :
    {A S : Type 0} (P : S → Type 0) (b : Bool) (x y : A × S)
    → P x.1
    → P y.1
    → P (if b then x else y).1
if_keeps P true x y hx hy = hx
if_keeps P false x y hx hy = hy

-- An action that runs where a value was read.
pub read_keeps :
    {S A B : Type 0} (P : S → Type 0) (r : Outcome Error A) (f : A → Outcome Error B × S)
    (g : Error → Error) (s : S)
    → P s
    → ((a : A) → P (f a).1)
    → P
        (elim r as (λ _. Outcome Error B × S) [
          | ok a ↦ f a
          | err e ↦ (err (g e), s)
          | panic ↦ (panic, s)
        ]).1
read_keeps P (ok a) f g s h k = k a
read_keeps P (err e) f g s h k = h
read_keeps P panic f g s h k = h
