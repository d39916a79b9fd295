-- ===== src/Acme/NosqlExamples/Store.antt =====
-- A store for the examples: a function from table and key to a text, with texts compared by a
-- decision. It never fails.
use mathlib.Core.HLevel.{Discrete}
use native.Mathlib.Decide.{ℕ_discrete}
use certificates.Base.{
  ◌≡◌, refl, sym, ap, ◌∙◌, ◌⊎◌, inl, inr, Bool, true, false, if◌then◌else◌, Option, some, none,
  List, [], ◌∷◌, Bytes, bytes_eq_refl, length, All, take, drop, take-append_length,
  drop-append_length, arith,
}
use certificates.Acme.Nosql.{Row, found, missing, Swap, swapped, kept, Kv, same_key}
use certificates.Acme.Nosql.Laws.{KvLaws, text_of}
use certificates.Acme.Nosql.Certs.{Block, X509, certificate_type}
use certificates.Acme.Nosql.Certs.RoundTrip.{PemLaws, Parses}

Text-discrete : Discrete (Option Row)
Text-discrete = hlevel (ℕ_discrete)

abbrev pub Texts : Type 0
Texts = Bytes → Bytes → Option Row

abbrev pub no_texts : Texts
no_texts t k = none

abbrev pub put : Bytes → Bytes → Option Row → Texts → Texts
put t k v s t' k' = if same_key t k t' k' then v else s t' k'

unfoldable pub swap : Bytes → Bytes → Option Row → Option Row → Texts → Swap × Texts
unfolding Text-discrete
swap t k old nu s = elim (Text-discrete (s t k) old) [
  | yes e ↦ (swapped, put t k nu s)
  | no n ↦ (kept, s)
]

abbrev pub take_text : Bytes → Bytes → Texts → Swap × Texts
take_text t k s = elim (s t k) [ some r ↦ (swapped, put t k none s) | none ↦ (kept, s) ]

abbrev pub memory : Kv Texts
memory = record {
  get = λ t k s. text_of (s t k);
  cmp_and_swap = swap;
  del = λ t k s. (true, put t k none s);
  take_out = take_text;
  rows = λ t s. some [];
}

same_key_refl : (t k : Bytes) → same_key t k t k ≡ true
same_key_refl t k = ground (arith, bytes_eq_refl t, bytes_eq_refl k)

put-here : (t k : Bytes) (v : Option Row) (s : Texts) → put t k v s t k ≡ v
put-here t k v s = ground (arith, same_key_refl t k)

put-either :
    (t k t' k' : Bytes) (v : Option Row) (s : Texts)
    → (text_of (put t k v s t' k') ≡ text_of (s t' k')) ⊎ (text_of (put t k v s t' k') ≡ text_of v)
put-either t k t' k' v s = pick (same_key t k t' k')
  where
    pick :
        (b : Bool)
        → (text_of (if b then v else s t' k') ≡ text_of (s t' k'))
          ⊎ (text_of (if b then v else s t' k') ≡ text_of v)
    pick true = inr refl
    pick false = inl refl

swap-cases :
    (t k : Bytes) (old nu : Option Row) (s : Texts)
    → ((s t k ≡ old) × (swap t k old nu s ≡ (swapped, put t k nu s)))
      ⊎ (swap t k old nu s ≡ (kept, s))
unfolding swap
swap-cases t k old nu s = go (Text-discrete (s t k) old)
  where
    go :
        (d : Dec (s t k ≡ old))
        → ((s t k ≡ old)
            × (elim d as (λ _. Swap × Texts) [ yes e ↦ (swapped, put t k nu s) | no n ↦ (kept, s) ]
                ≡ (swapped, put t k nu s)))
          ⊎ (elim d as (λ _. Swap × Texts) [ yes e ↦ (swapped, put t k nu s) | no n ↦ (kept, s) ]
              ≡ (kept, s))
    go (yes e) = inl (e, refl)
    go (no n) = inr refl

swap-leaves :
    (t k : Bytes) (old nu : Option Row) (s s' : Texts) (w : Swap)
    → swap t k old nu s ≡ (w, s')
    → (s' ≡ s) ⊎ (s' ≡ put t k nu s)
swap-leaves t k old nu s s' w h = elim (swap-cases t k old nu s) [
  | inl (_, e) ↦ inr (ap (λ r. r.1) (sym h ∙ e))
  | inr e ↦ inl (ap (λ r. r.1) (sym h ∙ e))
]

swap-swapped :
    (t k : Bytes) (old nu : Option Row) (s s' : Texts)
    → swap t k old nu s ≡ (swapped, s')
    → (s t k ≡ old) × (s' ≡ put t k nu s)
swap-swapped t k old nu s s' h = elim (swap-cases t k old nu s) [
  | inl (was, e) ↦ (was, ap (λ r. r.1) (sym h ∙ e))
  | inr e ↦ absurd (let same : swapped ≡ kept = ap (λ r. r.0) (sym h ∙ e) in cc)
]

take_text-swapped :
    (t k : Bytes) (s s' : Texts) (o : Option Row)
    → s t k ≡ o
    → take_text t k s ≡ (swapped, s')
    → (r : Row) × (text_of (s t k) ≡ found r) × (text_of (s' t k) ≡ missing)
take_text-swapped t k s s' none e h = absurd (ground arith)
take_text-swapped t k s s' (some r) e h =
    let same : s' ≡ put t k none s = ground arith in (r, rw e, rw (same, put-here t k none s))

take_text-leaves :
    (t k t' k' : Bytes) (s : Texts) (o : Option Row)
    → (text_of (
          (elim o as (λ _. Swap × Texts) [
            | some r ↦ (swapped, put t k none s)
            | none ↦ (kept, s)
          ]).1
            t' k')
        ≡ text_of (s t' k'))
      ⊎ (text_of (
            (elim o as (λ _. Swap × Texts) [
              | some r ↦ (swapped, put t k none s)
              | none ↦ (kept, s)
            ]).1
              t' k')
          ≡ missing)
take_text-leaves t k t' k' s none = inl refl
take_text-leaves t k t' k' s (some r) = put-either t k t' k' none s

take_text-missing :
    (t k : Bytes) (s : Texts) (o : Option Row)
    → text_of o ≡ missing
    → (elim o as (λ _. Swap × Texts) [ some r ↦ (swapped, put t k none s) | none ↦ (kept, s) ]).0
      ≡ kept
take_text-missing t k s none h = refl
take_text-missing t k s (some r) h = absurd cc

pub memory-KvLaws : KvLaws memory
memory-KvLaws = record {
  swap_old = λ t k old nu s s' h. ap text_of (swap-swapped t k old nu s s' h).0;
  swap_new =
      λ t k old r s s' h. rw ((swap-swapped t k old (some r) s s' h).1, put-here t k (some r) s);
  swap_others = λ t k old nu s s' w t' k' h d. elim (swap-leaves t k old nu s s' w h) [
    | inl e ↦ rw e
    | inr e ↦ rw (e, d)
  ];
  swap_either = λ t k old nu s s' w h. elim (swap-leaves t k old nu s s' w h) [
    | inl e ↦ inl (rw e)
    | inr e ↦ inr (rw (e, put-here t k nu s))
  ];
  take_found = λ t k s s' h. take_text-swapped t k s s' (s t k) refl h;
  take_missing = λ t k s h. take_text-missing t k s (s t k) h;
  take_leaves = λ t k s t' k'. take_text-leaves t k t' k' s (s t k);
  del_either = λ t k s s' b h. inr (rw (ap (λ r. r.1) (sym h), put-here t k none s));
  del_others = λ t k s s' b t' k' h d. rw (ap (λ r. r.1) (sym h), d);
}

-- A text for a block: the length of the bytes and the bytes.
abbrev pub first_block : Bytes → Option Block × Bytes
first_block [] = (none, [])
first_block (n ∷ b) = (some (record { type = certificate_type; bytes = take n b }), drop n b)

abbrev pub lengths : X509
lengths = record {
  encode = λ b. length b.bytes ∷ b.bytes;
  decode = first_block;
  parse = λ raw. some raw;
  serial = λ raw. raw;
}

pub lengths-PemLaws : PemLaws lengths
lengths-PemLaws = record {
  encoded = λ raw h. absurd cc;
  decoded_first = λ raw rest. rw (take-append_length raw rest, drop-append_length raw rest);
}

pub lengths-Parses : (raws : List Bytes) → All (Parses lengths) raws
lengths-Parses [] = tt
lengths-Parses (raw ∷ raws) = (refl, lengths-Parses raws)
