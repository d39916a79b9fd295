-- ===== src/Acme/Nosql/Laws.antt =====
-- What the package relies on of the store, and `save` under it.
use certificates.Base.{
  ◌≡◌, refl, ◌⊎◌, inl, inr, Bool-cases, &&-eq-true, bytes_eq_iff, subst, Bool, false, Option, some,
  none, Bytes, bytes_eq, Outcome, ok, err, panic, arith,
}
use certificates.Acme.Nosql.{
  Got, found, missing, Swap, swapped, kept, failed, Row, Kv, same_key, save, saved, ◌>=>◌,
}
use certificates.Acme.Types.{Error}
use certificates.Acme.Db.{Action}

-- The text at a key, with nil for a missing key.
abbrev pub text_of : Option Row → Got Row
text_of none = missing
text_of (some r) = found r

-- The documented behaviour of the store: a swap happens only over the expected text and writes the
-- new one; whatever is returned, the text at the key is the one before or the new one, and no other
-- key is touched; a deletion at most removes its key; the transaction that returns no error found
-- the key and removed it, and no transaction changes a text in another way.
pub record KvLaws {S : Type 0} (kv : Kv S) : Type 0 where
  pub swap_old :
      (t k : Bytes) (old nu : Option Row) (s s' : S)
      → kv.cmp_and_swap t k old nu s ≡ (swapped, s')
      → kv.get t k s ≡ text_of old
  pub swap_new :
      (t k : Bytes) (old : Option Row) (r : Row) (s s' : S)
      → kv.cmp_and_swap t k old (some r) s ≡ (swapped, s')
      → kv.get t k s' ≡ found r
  pub swap_others :
      (t k : Bytes) (old nu : Option Row) (s s' : S) (w : Swap) (t' k' : Bytes)
      → kv.cmp_and_swap t k old nu s ≡ (w, s')
      → same_key t k t' k' ≡ false
      → kv.get t' k' s' ≡ kv.get t' k' s
  pub swap_either :
      (t k : Bytes) (old nu : Option Row) (s s' : S) (w : Swap)
      → kv.cmp_and_swap t k old nu s ≡ (w, s')
      → (kv.get t k s' ≡ kv.get t k s) ⊎ (kv.get t k s' ≡ text_of nu)
  pub take_found :
      (t k : Bytes) (s s' : S)
      → kv.take_out t k s ≡ (swapped, s')
      → (r : Row) × (kv.get t k s ≡ found r) × (kv.get t k s' ≡ missing)
  pub take_missing : (t k : Bytes) (s : S) → kv.get t k s ≡ missing → (kv.take_out t k s).0 ≡ kept
  pub take_leaves :
      (t k : Bytes) (s : S) (t' k' : Bytes)
      → (kv.get t' k' (kv.take_out t k s).1 ≡ kv.get t' k' s)
        ⊎ (kv.get t' k' (kv.take_out t k s).1 ≡ missing)
  pub del_either :
      (t k : Bytes) (s s' : S) (b : Bool)
      → kv.del t k s ≡ (b, s')
      → (kv.get t k s' ≡ kv.get t k s) ⊎ (kv.get t k s' ≡ missing)
  pub del_others :
      (t k : Bytes) (s s' : S) (b : Bool) (t' k' : Bytes)
      → kv.del t k s ≡ (b, s')
      → same_key t k t' k' ≡ false
      → kv.get t' k' s' ≡ kv.get t' k' s

-- A sequence of actions returns no error where each part does.
pub then-eq-ok :
    {S A B : Type 0} (p : Outcome Error A × S) (f : A → Action S B) {b : B} {s' : S}
    → (p >=> f) ≡ (ok b, s')
    → (a : A) × (s1 : S) × (p ≡ (ok a, s1)) × (f a s1 ≡ (ok b, s'))
then-eq-ok (ok a, s1) f h = (a, s1, refl, h)
then-eq-ok (err e, s1) f h = absurd (ground arith)
then-eq-ok (panic, s1) f h = absurd (ground arith)

pub then_keeps :
    {S A B : Type 0} (P : S → Type 0) (p : Outcome Error A × S) (f : A → Action S B)
    → P p.1
    → ((a : A) (s : S) → P s → P (f a s).1)
    → P (p >=> f).1
then_keeps P (ok a, s) f h k = k a s h
then_keeps P (err e, s) f h k = h
then_keeps P (panic, s) f h k = h

module _ {S : Type 0} (kv : Kv S) (laws : KvLaws kv) where
  pub save-ok :
      (t k : Bytes) (nu old : Option Row) (s s' : S)
      → save kv t k nu old s ≡ (ok tt, s')
      → kv.cmp_and_swap t k old nu s ≡ (swapped, s')
  unfolding save saved
  save-ok t k nu old s s' h = go (kv.cmp_and_swap t k old nu s).0 refl
    where
      go :
          (w : Swap)
          → (kv.cmp_and_swap t k old nu s).0 ≡ w
          → kv.cmp_and_swap t k old nu s ≡ (swapped, s')
      go swapped e = ground arith
      go kept e = absurd (ground arith)
      go failed e = absurd (ground arith)

  -- What a save that returns nil did.
  pub record Saved (t k : Bytes) (r : Row) (old : Option Row) (s s' : S) : Type 0 where
    pub was : kv.get t k s ≡ text_of old
    pub now_is : kv.get t k s' ≡ found r
    pub others : (t' k' : Bytes) → same_key t k t' k' ≡ false → kv.get t' k' s' ≡ kv.get t' k' s

  pub save-Saved :
      (t k : Bytes) (r : Row) (old : Option Row) (s s' : S)
      → save kv t k (some r) old s ≡ (ok tt, s')
      → Saved t k r old s s'
  save-Saved t k r old s s' h =
      let e = save-ok t k (some r) old s s' h in
      record {
        was = laws.swap_old t k old (some r) s s' e;
        now_is = laws.swap_new t k old r s s' e;
        others = λ t' k' d. laws.swap_others t k old (some r) s s' swapped t' k' e d;
      }

  -- What a save leaves at each key, whatever it returns.
  pub save-either :
      (t k t' k' : Bytes) (nu old : Option Row) (s : S)
      → (kv.get t' k' (save kv t k nu old s).1 ≡ kv.get t' k' s)
        ⊎ ((t ≡ t') × (k ≡ k') × (kv.get t' k' (save kv t k nu old s).1 ≡ text_of nu))
  unfolding save
  save-either t k t' k' nu old s =
      let s' = (kv.cmp_and_swap t k old nu s).1 in
      let At : Bytes → Bytes → Type 0 = λ a b.
        (kv.get a b s' ≡ kv.get a b s) ⊎ ((t ≡ a) × (k ≡ b) × (kv.get a b s' ≡ text_of nu)) in
      elim (Bool-cases (same_key t k t' k')) [
        | inl e ↦
            let (et, ek) = &&-eq-true (bytes_eq t t') (bytes_eq k k') e in
            let here : At t k = elim (laws.swap_either t k old nu s s' _ refl) [
              | inl same ↦ inl same
              | inr nu_is ↦ inr (refl, refl, nu_is)
            ] in
            subst (λ a. At a k') ((bytes_eq_iff t t').0 et)
              (subst (λ a. At t a) ((bytes_eq_iff k k').0 ek) here)
        | inr d ↦ inl (laws.swap_others t k old nu s s' _ t' k' refl d)
      ]

  -- What a deletion leaves at each key, whatever it returns.
  pub del-either :
      (t k t' k' : Bytes) (s : S)
      → (kv.get t' k' (kv.del t k s).1 ≡ kv.get t' k' s) ⊎ (kv.get t' k' (kv.del t k s).1 ≡ missing)
  del-either t k t' k' s =
      let s' = (kv.del t k s).1 in
      elim (Bool-cases (same_key t k t' k')) [
        | inl e ↦
            let (et, ek) = &&-eq-true (bytes_eq t t') (bytes_eq k k') e in
            subst (λ a. (kv.get a k' s' ≡ kv.get a k' s) ⊎ (kv.get a k' s' ≡ missing))
              ((bytes_eq_iff t t').0 et)
              (subst (λ a. (kv.get t a s' ≡ kv.get t a s) ⊎ (kv.get t a s' ≡ missing))
                ((bytes_eq_iff k k').0 ek) (laws.del_either t k s s' _ refl))
        | inr d ↦ inl (laws.del_others t k s s' _ t' k' refl d)
      ]
