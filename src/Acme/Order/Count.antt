-- ===== src/Acme/Order/Count.antt =====
-- The counts of statuses in `Order.UpdateStatus` of acme/order.go.
use mathlib.Core.Bool.{false≢true}
use certificates.Base.{
  suc, ◌≤◌, ◌≡◌, inl, inr, refl, sym, ap, ◌∙◌, true, false, List, [], ◌∷◌, ◌++◌, ltb, length, All,
  arith, Bool-cases,
}
use certificates.Acme.Types.{Status, valid}
use certificates.Acme.Order.{is_status, count}

-- The status stands in the list.
abbrev pub Occurs : Status → List Status → Type 0
Occurs st list = (before : List Status) × (after : List Status) × (list ≡ before ++ st ∷ after)

abbrev pub AllValid : List Status → Type 0
AllValid = All (λ st. st ≡ valid)

count-le : (st : Status) (list : List Status) → count st list ≤ length list
unfolding count
count-le st [] = omega arith
count-le st (t ∷ list) = ground (arith, count-le st list)

is_status-valid : (t : Status) → is_status valid t ≡ true → t ≡ valid
unfolding is_status
is_status-valid t h = ground arith

pub count-AllValid : (list : List Status) → count valid list ≡ length list → AllValid list
unfolding count
count-AllValid [] h = tt
count-AllValid (t ∷ list) h = elim (Bool-cases (is_status valid t)) [
  | inl e ↦ (is_status-valid t e, count-AllValid list (ground arith))
  | inr e ↦ absurd (ground (arith, count-le valid list))
]

-- `valid`, `invalid` or `pending`: the statuses that are counted.
abbrev pub IsCounted : Status → Type 0
IsCounted st = is_status st st ≡ true

is_status-eq : (st t : Status) → is_status st t ≡ true → t ≡ st
unfolding is_status
is_status-eq st t h = ground arith

pub count-Occurs :
    (st : Status) (list : List Status) → ltb 0 (count st list) ≡ true → Occurs st list
unfolding count
count-Occurs st [] h = absurd (ground arith)
count-Occurs st (t ∷ list) h = elim (Bool-cases (is_status st t)) [
  | inl e ↦ ([], list, ap (λ (x : Status). x ∷ list) (is_status-eq st t e))
  | inr e ↦
      let (before, after, split) = count-Occurs st list (rw e at h) in
      (t ∷ before, after, ap (λ (l : List Status). t ∷ l) split)
]

Occurs-count :
    (st : Status) (before after : List Status)
    → IsCounted st
    → ltb 0 (count st (before ++ st ∷ after)) ≡ true
unfolding count
Occurs-count st [] after h = rw h (ground arith)
Occurs-count st (b ∷ before) after h = ground (arith, Occurs-count st before after h)

pub not-Occurs :
    (st : Status) (list : List Status)
    → IsCounted st
    → ltb 0 (count st list) ≡ false
    → ¬ Occurs st list
not-Occurs st list c h (before, after, split) =
    false≢true
      (sym h ∙ ap (λ (l : List Status). ltb 0 (count st l)) split ∙ Occurs-count st before after c)

pub AllValid-count : (list : List Status) → AllValid list → count valid list ≡ length list
unfolding count is_status
AllValid-count [] h = refl
AllValid-count (t ∷ list) h = rw h.0 (ap suc (AllValid-count list h.1))
