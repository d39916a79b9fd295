-- ===== src/Policy/Matching/Fold.antt =====
-- The loop of `matchDomainConstraint` of policy/validate.go over the labels.
use certificates.Base.{
  ℕ, suc, ◌≡◌, ◌↔◌, refl, ap, Bool, true, false, List, [], ◌∷◌, ◌++◌, Bytes, ◌==◌, map, length,
  arith, &&-eq-true, length-append, length-map, ◌+◌, Outcome, ok, if◌then◌else◌, ◌⊎◌, inl, inr, sym,
  ◌∙◌, Bool-cases, ==_iff, append-nil, bytes_eq_iff, to_lower, equal_fold,
}
use mathlib.Core.Bool.{false≢true}
use certificates.Policy.Types.{MatchError}
use certificates.Policy.Matching.{labels_fold}

abbrev pub lowered : List Bytes → List Bytes
lowered = map to_lower

pub equal_fold_iff : (s t : Bytes) → (equal_fold s t ≡ true) ↔ (to_lower s ≡ to_lower t)
unfolding equal_fold
equal_fold_iff s t = bytes_eq_iff (to_lower s) (to_lower t)

labels_fold_sound :
    (cs ds : List Bytes)
    → length ds ≡ length cs
    → labels_fold cs ds ≡ true
    → lowered ds ≡ lowered cs
unfolding labels_fold
labels_fold_sound [] [] len h = refl
labels_fold_sound [] (d ∷ ds) len h = absurd (omega arith)
labels_fold_sound (c ∷ cs) [] len h = absurd (omega arith)
labels_fold_sound (c ∷ cs) (d ∷ ds) len h =
    let (head, rest) = &&-eq-true (equal_fold c d) (labels_fold cs ds) h in
    cc ((equal_fold_iff c d).0 head, labels_fold_sound cs ds (omega arith) rest)

labels_fold-more :
    (cs ds : List Bytes)
    → length ds ≡ suc (length cs)
    → labels_fold cs ds ≡ true
    → (x : Bytes) × (lowered ds ≡ lowered cs ++ x ∷ [])
unfolding labels_fold
labels_fold-more [] [] len h = absurd (omega arith)
labels_fold-more [] (d ∷ []) len h = (to_lower d, refl)
labels_fold-more [] (d ∷ e ∷ ds) len h = absurd (omega arith)
labels_fold-more (c ∷ cs) [] len h = absurd (omega arith)
labels_fold-more (c ∷ cs) (d ∷ ds) len h =
    let (head, rest) = &&-eq-true (equal_fold c d) (labels_fold cs ds) h in
    let (x, e) = labels_fold-more cs ds (omega arith) rest in
    (x, cc ((equal_fold_iff c d).0 head, e))

labels_fold_complete :
    (cs ds t : List Bytes) → lowered ds ≡ lowered cs ++ t → labels_fold cs ds ≡ true
unfolding labels_fold
labels_fold_complete [] ds t h = refl
labels_fold_complete (c ∷ cs) [] t h = absurd (ground arith)
labels_fold_complete (c ∷ cs) (d ∷ ds) t h =
    let head : to_lower c ≡ to_lower d = cc in
    rw ((equal_fold_iff c d).1 head) (labels_fold_complete cs ds t (cc))

length-lowered :
    (cs ds t : List Bytes) → lowered ds ≡ lowered cs ++ t → length ds ≡ length cs + length t
length-lowered cs ds t h = omega (
  arith,
  ap length h,
  length-append (lowered cs) t,
  length-map ds to_lower,
  length-map cs to_lower,
)

-- The call returns, and returns true exactly when `P` holds.
abbrev pub Decides : Outcome MatchError Bool → Type 0 → Type 0
Decides o P = ((o ≡ ok true) × P) ⊎ ((o ≡ ok false) × (¬ P))

-- The last lines of the matcher: the number of labels, then the labels.
abbrev pub compared : ℕ → List Bytes → List Bytes → Outcome MatchError Bool
compared n cs ds = if length ds == n then ok (labels_fold cs ds) else ok false

Decides-compared :
    (P : Type 0) (n : ℕ) (cs ds : List Bytes)
    → (length ds ≡ n → labels_fold cs ds ≡ true → P)
    → (P → (length ds ≡ n) × (labels_fold cs ds ≡ true))
    → Decides (compared n cs ds) P
Decides-compared P n cs ds sound complete = elim (Bool-cases (length ds == n)) [
  | inl e ↦ elim (Bool-cases (labels_fold cs ds)) [
    | inl f ↦ inl (rw (e, f), sound ((==_iff (length ds) n).0 e) f)
    | inr f ↦ inr (rw (e, f), λ p. false≢true (sym f ∙ (complete p).1))
  ]
  | inr e ↦ inr (rw e, λ p. false≢true (sym e ∙ (==_iff (length ds) n).1 (complete p).0))
]

pub compared_exact :
    (cs ds : List Bytes) → Decides (compared (length cs) cs ds) (lowered ds ≡ lowered cs)
compared_exact cs ds =
    Decides-compared (lowered ds ≡ lowered cs) (length cs) cs ds (labels_fold_sound cs ds) λ e.
      let e' = e ∙ sym (append-nil (lowered cs)) in
      (omega (arith, length-lowered cs ds [] e'), labels_fold_complete cs ds [] e')

pub compared_subdomain :
    (cs ds : List Bytes)
    → Decides (compared (suc (length cs)) cs ds) ((x : Bytes) × (lowered ds ≡ lowered cs ++ x ∷ []))
compared_subdomain cs ds =
    Decides-compared ((x : Bytes) × (lowered ds ≡ lowered cs ++ x ∷ [])) (suc (length cs)) cs ds
      (labels_fold-more cs ds)
      λ (x, e).
        (omega (arith, length-lowered cs ds (x ∷ []) e), labels_fold_complete cs ds (x ∷ []) e)
