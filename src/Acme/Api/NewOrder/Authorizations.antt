-- ===== src/Acme/Api/NewOrder/Authorizations.antt =====
-- The authorizations and challenges that `newAuthorization` of acme/api/order.go makes.
use certificates.Base.{
  ℕ, ◌+◌, ◌≡◌, refl, ap, ap₂, subst, ◌∙◌, Bool, true, false, Option, none, some, List, [], ◌∷◌,
  Bytes, codes, All, All-map, has_prefix, drop, Outcome, ok, ok-injective, arith,
}
use certificates.Acme.Types.{
  dns, Identifier, Error, pending, ChallengeType, dns01, Challenge, Authorization, Order,
}
use certificates.Acme.Nosql.{◌>=>◌}
use certificates.Acme.Nosql.Laws.{then-eq-ok}
use certificates.Acme.Api.{OrderDb, trim_if_wildcard}
use certificates.Acme.Api.NewOrder.{
  OrderContext, create_challenges, challenge_types, types_for, for_identifier, store_authorization,
  new_authorization, new_authorizations, pending_authorization, new_challenge, wrapped_db,
}

-- Each challenge stands for the value of the authorization, has a type of the list, and is pending.
abbrev pub IsFor : Authorization → (ChallengeType → Type 0) → Challenge → Type 0
IsFor az T ch =
    T ch.type
    × (ch.value ≡ az.identifier.value)
    × (ch.token ≡ az.token)
    × (ch.status ≡ pending)
    × (ch.account_id ≡ az.account_id)

pub ok-pair :
    {A S : Type 0} (a b : A) (s s' : S)
    → ◌≡◌ {A = Outcome Error A × S} (ok a, s) (ok b, s')
    → ◌≡◌ {A = A × S} (a, s) (b, s')
ok-pair a b s s' h =
    ap₂ (λ x y. (x, y)) (ok-injective {E = Error} a b (ap (λ z. z.0) h)) (ap (λ z. z.1) h)

module _ (ctx : OrderContext) {S : Type 0} (db : OrderDb S) where
  -- One type of the list, which may be one that the provisioner does not allow.
  challenge_step :
      (T : ChallengeType → Type 0) (az : Authorization) (typ : ChallengeType)
      (types : List ChallengeType) (enabled : Bool) (s s' : S) (challenges : List Challenge)
      → T typ
      → ((s1 s2 : S) (chs : List Challenge)
          → create_challenges ctx db az types s1 ≡ (ok chs, s2)
          → All (IsFor az T) chs)
      → elim enabled as (λ _. Outcome Error (List Challenge) × S) [
        | true ↦ wrapped_db (db.create_challenge (new_challenge az typ) s) >=> λ id s1.
            create_challenges ctx db az types s1 >=> λ chs s2.
            (ok (record (new_challenge az typ) { id = id } ∷ chs), s2)
        | false ↦ create_challenges ctx db az types s
      ]
        ≡ (ok challenges, s')
      → All (IsFor az T) challenges
  challenge_step T az typ types true s s' challenges t others h =
      let (id, s1, _, h1) =
        then-eq-ok (wrapped_db (db.create_challenge (new_challenge az typ) s)) _ h in
      let (chs, s2, e, h2) = then-eq-ok (create_challenges ctx db az types s1) _ h1 in
      subst (All (IsFor az T)) (ok-injective {E = Error} _ challenges (ap (λ z. z.0) h2))
        ((t, refl, refl, refl, refl), others s1 s2 chs e)
  challenge_step T az typ types false s s' challenges t others h = others s s' challenges h

  create_challenges-IsFor :
      (T : ChallengeType → Type 0) (az : Authorization) (types : List ChallengeType) (s s' : S)
      (challenges : List Challenge)
      → All T types
      → create_challenges ctx db az types s ≡ (ok challenges, s')
      → All (IsFor az T) challenges
  unfolding create_challenges
  create_challenges-IsFor T az [] s s' challenges t h =
      subst (All (IsFor az T)) (ok-injective {E = Error} [] challenges (ap (λ z. z.0) h)) tt
  create_challenges-IsFor T az (typ ∷ types) s s' challenges (t, ts) h =
      challenge_step T az typ types (ctx.is_challenge_enabled typ) s s' challenges t
        (λ s1 s2 chs. create_challenges-IsFor T az types s1 s2 chs ts) h

  -- The authorization of an identifier: it is pending, it belongs to the account, it stands for the
  -- identifier without the wildcard, and its challenges stand for that name.
  pub record AuthorizationFor (o : Order) (i : Identifier) (az : Authorization) : Type 1 where
    pub still_pending : az.status ≡ pending
    pub of_account : az.account_id ≡ o.account_id
    pub of_type : az.identifier.type ≡ i.type
    pub of_value : az.identifier.value ≡ (trim_if_wildcard i.value).0
    pub is_wildcard : az.wildcard ≡ (trim_if_wildcard i.value).1
    pub expires : az.expires_at ≡ o.expires_at
    pub challenges_for :
        (T : ChallengeType → Type 0) → All T (challenge_types az) → All (IsFor az T) az.challenges

  new_authorization-AuthorizationFor :
      (token : Option Bytes) (o : Order) (i : Identifier) (s s' : S) (az : Authorization)
      → new_authorization ctx db token (pending_authorization ctx db o i) s ≡ (ok az, s')
      → AuthorizationFor o i az
  unfolding new_authorization store_authorization for_identifier challenge_types
  new_authorization-AuthorizationFor none o i s s' az h = absurd (ground arith)
  new_authorization-AuthorizationFor (some token) o i s s' az h =
      let az1 : Authorization = record (for_identifier (pending_authorization ctx db o i)) {
        token = token;
      } in
      let (challenges, s1, made, h1) =
        then-eq-ok (create_challenges ctx db az1 (challenge_types az1) s) _ h in
      let (id, s2, _, h2) =
        then-eq-ok
          (wrapped_db (db.create_authorization (record az1 { challenges = challenges }) s1)) _ h1 in
      let same = ok-injective {E = Error} _ az (ap (λ z. z.0) h2) in
      subst (AuthorizationFor o i) same (record {
        still_pending = refl;
        of_account = refl;
        of_type = refl;
        of_value = refl;
        is_wildcard = refl;
        expires = refl;
        challenges_for =
            λ T t. create_challenges-IsFor T az1 (challenge_types az1) s s1 challenges t made;
      })

  -- An authorization that is made for a DNS name with a wildcard has DNS challenges only, and they are
  -- for the name without the wildcard.
  pub new_authorization-wildcard :
      (token : Option Bytes) (o : Order) (i : Identifier) (s s' : S) (az : Authorization)
      → i.type ≡ dns
      → has_prefix i.value (codes "*.") ≡ true
      → new_authorization ctx db token (pending_authorization ctx db o i) s ≡ (ok az, s')
      → All (λ ch. (ch.type ≡ dns01) × (ch.value ≡ drop 2 i.value)) az.challenges
  unfolding challenge_types types_for trim_if_wildcard
  new_authorization-wildcard token o i s s' az is_dns star h =
      let made = new_authorization-AuthorizationFor token o i s s' az h in
      let types : All (λ t. t ≡ dns01) (challenge_types az) =
        rw (made.of_type, is_dns, made.is_wildcard, star) (refl, tt) in
      let value : az.identifier.value ≡ drop 2 i.value = made.of_value ∙ rw star refl in
      All-map _ _ (λ ch for. (for.0, for.1 ∙ value)) az.challenges
        (made.challenges_for (λ t. t ≡ dns01) types)

  -- The authorizations of the identifiers, made one after another.
  pub data AuthorizationRuns (o : Order) : ℕ → List Identifier → List Bytes → S → S → Type 1 where
    no_more : {n : ℕ} {s : S} → AuthorizationRuns o n [] [] s s
    one_more :
        {n : ℕ} {i : Identifier} {ids : List Identifier} {az_ids : List Bytes} {s s1 s2 : S}
        (az : Authorization)
        → new_authorization ctx db (ctx.random_token n) (pending_authorization ctx db o i) s
          ≡ (ok az, s1)
        → AuthorizationFor o i az
        → AuthorizationRuns o (n + 1) ids az_ids s1 s2
        → AuthorizationRuns o n (i ∷ ids) (az.id ∷ az_ids) s s2

  pub new_authorizations-Runs :
      (o : Order) (n : ℕ) (ids : List Identifier) (az_ids : List Bytes) (s s' : S)
      → new_authorizations ctx db n o ids s ≡ (ok az_ids, s')
      → AuthorizationRuns o n ids az_ids s s'
  unfolding new_authorizations
  new_authorizations-Runs o n [] az_ids s s' h =
      subst (λ (z : List Bytes × S). AuthorizationRuns o n [] z.0 s z.1) (ok-pair [] az_ids s s' h)
        no_more
  new_authorizations-Runs o n (i ∷ ids) az_ids s s' h =
      let (az, s1, made, h1) =
        then-eq-ok
          (new_authorization ctx db (ctx.random_token n) (pending_authorization ctx db o i) s) _
          h in
      let (others, s2, e, h2) = then-eq-ok (new_authorizations ctx db (n + 1) o ids s1) _ h1 in
      subst (λ (z : List Bytes × S). AuthorizationRuns o n (i ∷ ids) z.0 s z.1)
        (ok-pair (az.id ∷ others) az_ids s2 s' h2)
        (one_more az made (new_authorization-AuthorizationFor (ctx.random_token n) o i s s1 az made)
          (new_authorizations-Runs o (n + 1) ids others s1 s2 e))
