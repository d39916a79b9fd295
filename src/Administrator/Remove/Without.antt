-- ===== src/Administrator/Remove/Without.antt =====
-- A list of administrators without one of its elements.
use certificates.Base.{
  ℕ, zero, suc, ◌≡◌, refl, ap, true, some, List, [], ◌∷◌, ◌++◌, Bytes, All, map, take, drop,
  get_elem?, arith,
}
use certificates.Acme.Names.{bytes_ltb}
use certificates.Administrator.{Admin}
use certificates.Administrator.Find.Search.{IsSorted}

-- One element of a list is left out.
pub record Without (a : Admin) (l l' : List Admin) : Type 0 where
  pub before : List Admin
  pub after : List Admin
  pub whole : l ≡ before ++ a ∷ after
  pub rest : l' ≡ before ++ after

pub take-drop-Without :
    (l : List Admin) (i : ℕ) (a : Admin)
    → get_elem? l i ≡ some a
    → Without a l (take i l ++ drop (suc i) l)
take-drop-Without [] i a h = absurd (ground arith)
take-drop-Without (x ∷ l) zero a h =
    let same : x ≡ a = cc in
    record { before = []; after = l; whole = ap (λ z. z ∷ l) same; rest = refl }
take-drop-Without (x ∷ l) (suc i) a h =
    let w = take-drop-Without l i a h in
    record {
      before = x ∷ w.before;
      after = w.after;
      whole = ap (λ z. x ∷ z) w.whole;
      rest = ap (λ z. x ∷ z) w.rest;
    }

All-without :
    (P : Bytes → Type 0) (before : List Admin) (a : Admin) (after : List Admin)
    → All P (map (λ b. b.id) (before ++ a ∷ after))
    → All P (map (λ b. b.id) (before ++ after))
All-without P [] a after h = h.1
All-without P (b ∷ before) a after h = (h.0, All-without P before a after h.1)

pub IsSorted-without :
    (before : List Admin) (a : Admin) (after : List Admin)
    → IsSorted (before ++ a ∷ after)
    → IsSorted (before ++ after)
IsSorted-without [] a after h = h.1
IsSorted-without (b ∷ before) a after h = (
  All-without (λ y. bytes_ltb b.id y ≡ true) before a after h.0,
  IsSorted-without before a after h.1,
)
