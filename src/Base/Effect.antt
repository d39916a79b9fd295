-- ===== src/Base/Effect.antt =====
-- The outcome of a Go function that returns `(A, error)` and may panic (an index out of range).
use mathlib.Core.Path.{◌≡◌, refl}

pub data Outcome {ℓ} (E A : Type ℓ) : Type ℓ where
  ok : A → Outcome E A
  err : E → Outcome E A
  panic : Outcome E A

module _ {ℓ} {E A B : Type ℓ} where
  infixl 5 ◌>>=◌
  abbrev pub ◌>>=◌ : Outcome E A → (A → Outcome E B) → Outcome E B
  ok a >>= f = f a
  err e >>= f = err e
  panic >>= f = panic

  pub bind-eq-ok :
      (m : Outcome E A) (f : A → Outcome E B) {b : B}
      → (m >>= f) ≡ ok b
      → (a : A) × (m ≡ ok a) × (f a ≡ ok b)
  bind-eq-ok (ok a) f h = (a, refl, h)
  bind-eq-ok (err e) f h = cc
  bind-eq-ok panic f h = cc

module _ {E B : Type 0} where
  infixl 5 ◌>>◌
  abbrev pub ◌>>◌ : Outcome E (Unit {0}) → Outcome E B → Outcome E B
  ok a >> k = k
  err e >> k = err e
  panic >> k = panic

  pub seq-eq-ok :
      (m : Outcome E (Unit {0})) (k : Outcome E B) {b : B}
      → (m >> k) ≡ ok b
      → (m ≡ ok tt) × (k ≡ ok b)
  seq-eq-ok (ok tt) k h = (refl, h)
  seq-eq-ok (err e) k h = cc
  seq-eq-ok panic k h = cc

module _ {ℓ} {E A : Type ℓ} where
  pub ok-injective : (a b : A) → ◌≡◌ {A = Outcome E A} (ok a) (ok b) → a ≡ b
  ok-injective a b h = cc
