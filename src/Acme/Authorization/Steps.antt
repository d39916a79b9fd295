-- ===== src/Acme/Authorization/Steps.antt =====
-- The ways in which `Authorization.UpdateStatus` of acme/authorization.go runs.
use mathlib.Core.Bool.{false≢true}
use certificates.Base.{
  ℕ, ◌<◌, ◌≤◌, ◌≡◌, ◌≢◌, ◌⊎◌, inl, inr, refl, sym, ◌∙◌, true, false, none, List, [], ◌∷◌, ◌++◌, ltb,
  ltb→lt, ltb→le, arith, Outcome, ok, err, Bool-cases, ap,
}
use certificates.Acme.Types.{
  Status, valid, invalid, pending, deactivated, ready, other, Error, problem, server_internal,
  Challenge, Authorization,
}
use certificates.Acme.Db.{Db}
use certificates.Acme.Authorization.{any_valid, is_valid, save, by_status, update_status}

-- Some challenge of the list is valid.
abbrev pub HasValid : List Challenge → Type 0
HasValid challenges =
    (before : List Challenge) × (ch : Challenge) × (after : List Challenge) × (challenges
      ≡ before ++ ch ∷ after)
    × (ch.status ≡ valid)

any_valid-HasValid :
    (challenges : List Challenge) → any_valid challenges ≡ true → HasValid challenges
unfolding any_valid is_valid
any_valid-HasValid [] h = absurd (ground arith)
any_valid-HasValid (ch ∷ challenges) h = elim (Bool-cases (is_valid ch.status)) [
  | inl e ↦ ([], ch, challenges, refl, ground arith)
  | inr e ↦
      let (before, c, after, split, ok_c) = any_valid-HasValid challenges (rw e at h) in
      (ch ∷ before, c, after, ap (λ (l : List Challenge). ch ∷ l) split, ok_c)
]

HasValid-any_valid :
    (before : List Challenge) (ch : Challenge) (after : List Challenge)
    → ch.status ≡ valid
    → any_valid (before ++ ch ∷ after) ≡ true
unfolding any_valid is_valid
HasValid-any_valid [] ch after h = ground arith
HasValid-any_valid (b ∷ before) ch after h = ground (arith, HasValid-any_valid before ch after h)

no-HasValid : (challenges : List Challenge) → any_valid challenges ≡ false → ¬ HasValid challenges
no-HasValid challenges h (before, ch, after, split, v) =
    false≢true (sym h ∙ ap any_valid split ∙ HasValid-any_valid before ch after v)

abbrev pub Result : Type 0 → Type 0
Result S = (Authorization × Outcome Error (Unit {0})) × S

-- Every way in which `UpdateStatus` may run at a time, with the authorization, the error and the
-- database that it leaves. `save` writes the authorization.
pub data AuthzRuns {S : Type 0} (db : Db S) (now : ℕ) (az : Authorization) (s : S) (r : Result S)
    : Type 0 where
  settled :
      (az.status ≡ valid) ⊎ (az.status ≡ invalid) → r ≡ ((az, ok tt), s) → AuthzRuns db now az s r
  expires :
      az.status ≡ pending
      → az.expires_at < now
      → r ≡ save db (record az { status = invalid }) s
      → AuthzRuns db now az s r
  validates :
      az.status ≡ pending
      → now ≤ az.expires_at
      → HasValid az.challenges
      → r ≡ save db (record az { status = valid; error = none }) s
      → AuthzRuns db now az s r
  waits :
      az.status ≡ pending
      → now ≤ az.expires_at
      → ¬ HasValid az.challenges
      → r ≡ ((az, ok tt), s)
      → AuthzRuns db now az s r
  refuses :
      az.status ≢ valid
      → az.status ≢ invalid
      → az.status ≢ pending
      → r ≡ ((az, err (problem server_internal)), s)
      → AuthzRuns db now az s r

module _ {S : Type 0} (db : Db S) where
  runs_at :
      (st : Status) (now : ℕ) (az : Authorization) (s : S)
      → az.status ≡ st
      → AuthzRuns db now az s (by_status db st now az s)
  unfolding by_status
  runs_at valid now az s e = settled (inl e) refl
  runs_at invalid now az s e = settled (inr e) refl
  runs_at deactivated now az s e = refuses (λ h. cc) (λ h. cc) (λ h. cc) refl
  runs_at ready now az s e = refuses (λ h. cc) (λ h. cc) (λ h. cc) refl
  runs_at (other t) now az s e = refuses (λ h. cc) (λ h. cc) (λ h. cc) refl
  runs_at pending now az s e = elim (Bool-cases (ltb az.expires_at now)) [
    | inl late ↦ expires e (ltb→lt az.expires_at now late) (rw late)
    | inr early ↦ elim (Bool-cases (any_valid az.challenges)) [
      | inl v ↦
          validates e (ltb→le az.expires_at now early) (any_valid-HasValid az.challenges v)
            (rw (early, v))
      | inr v ↦
          waits e (ltb→le az.expires_at now early) (no-HasValid az.challenges v) (rw (early, v))
    ]
  ]

  -- `UpdateStatus` runs in one of the ways of `AuthzRuns`: a valid or an invalid authorization is left
  -- alone, a pending one is written as invalid once it has expired, is written as valid if it has
  -- not expired and a challenge is valid, and is left alone otherwise; any other status is an
  -- error.
  pub update_status-AuthzRuns :
      (now : ℕ) (az : Authorization) (s : S) → AuthzRuns db now az s (update_status db now az s)
  unfolding update_status
  update_status-AuthzRuns now az s = runs_at az.status now az s refl
