-- ===== src/Authority/Examples/Store.antt =====
-- A store, an administrator and a policy for the examples.
use certificates.Base.{
  ◌≡◌, inl, refl, sym, ap, ◌∙◌, true, false, Option, none, some, [], ◌∷◌, Bytes, codes, arith,
  bytes_eq_refl, if◌then◌else◌,
}
use certificates.Policy.Types.{External}
use certificates.Acme.Nosql.{Got, found, missing, Swap, swapped, kept, failed, same_key}
use certificates.Authority.Linked.{LinkedPolicy, LinkedAdmin, super_admin}
use certificates.Authority.AdminDb.{AdminKv}
use certificates.Authority.AdminDb.Rows.{AdminRow, admin_text}
use certificates.Authority.AdminDb.Policies.Stored.{AdminKvLaws}
use certificates.Authority.Reload.{PolicyConfig, PolicyState}
use certificates.Authority.Reload.InForce.{LoadsFromDb}

-- Libraries that take every text as it is.
abbrev pub as_is : External
as_is = record {
  idna_lookup_to_ascii = λ s. some s;
  idna_to_ascii = λ s. some s;
  split_sans = λ l. record { dns_names = l; ips = []; email_addresses = []; uris = [] };
  parse_ip = λ s. none;
  parse_cidr = λ s. none;
  split_host_port = λ s. none;
  ip_string = λ i. i;
  cidr_string = λ n. n.ip;
}

abbrev pub home : Bytes
home = codes "home"

abbrev pub ann : LinkedAdmin
ann = record {
  id = codes "1";
  authority_id = home;
  provisioner_id = codes "p";
  subject = codes "ann";
  type = super_admin;
  created_at = 5;
  deleted_at = 0;
}

abbrev pub ann_row : AdminRow
ann_row = admin_text (record {
  id = codes "1";
  authority_id = home;
  provisioner_id = codes "p";
  subject = codes "ann";
  type = super_admin;
  created_at = 5;
  deleted_at = 0;
})

-- A state of a store: the texts of the authority's table by their keys.
abbrev pub Texts : Type 0
Texts = Bytes → Bytes → Option AdminRow

unfoldable pub text_at : Option AdminRow → Got AdminRow
text_at none = missing
text_at (some r) = found r

unfoldable pub put : Bytes → Bytes → Option AdminRow → Texts → Texts
put t k nu s t' k' = if same_key t k t' k' then nu else s t' k'

-- A swap happens where there is a text exactly if one is expected.
unfoldable pub swap_over : Option AdminRow → Option AdminRow → Option AdminRow → Swap
swap_over none none nu = swapped
swap_over (some r) (some old) nu = swapped
swap_over _ _ nu = kept

unfoldable pub swap_to : Swap → Texts → Texts → Swap × Texts
swap_to swapped s' s = (swapped, s')
swap_to kept s' s = (kept, s)
swap_to failed s' s = (failed, s)

abbrev pub one_admin : AdminKv Texts
one_admin = record {
  get = λ t k s. text_at (s t k);
  cmp_and_swap = λ t k old nu s. swap_to (swap_over (s t k) old nu) (put t k nu s) s;
  list = λ t s. some (ann_row ∷ []);
}

swap_to-swapped : (w : Swap) (s1 s s' : Texts) → swap_to w s1 s ≡ (swapped, s') → s1 ≡ s'
unfolding swap_to
swap_to-swapped swapped s1 s s' h = ap (λ z. z.1) h
swap_to-swapped kept s1 s s' h = absurd (ground arith)
swap_to-swapped failed s1 s s' h = absurd (ground arith)

put-at : (t k : Bytes) (nu : Option AdminRow) (s : Texts) → put t k nu s t k ≡ nu
unfolding put
put-at t k nu s = rw (bytes_eq_refl t, bytes_eq_refl k) refl

pub one_admin-AdminKvLaws : AdminKvLaws one_admin
unfolding text_at
one_admin-AdminKvLaws = record {
  swap_new = λ t k old r s s' h.
      ap (λ z. text_at (z t k)) (sym (swap_to-swapped _ (put t k (some r) s) s s' h))
      ∙ ap text_at (put-at t k (some r) s);
  swap_nil = λ t k old s s' h. inl (
      ap (λ z. text_at (z t k)) (sym (swap_to-swapped _ (put t k none s) s s' h))
      ∙ ap text_at (put-at t k none s));
}

abbrev pub from_db : PolicyConfig
from_db = record { enable_admin = true; linked_ca = false; policy = none }

pub from_db-LoadsFromDb : LoadsFromDb from_db
from_db-LoadsFromDb = record { enabled = refl; own_db = refl }

abbrev pub for_ann : LinkedPolicy
for_ann = record {
  x509 = some (record {
    allow =
        some
          (record { dns = codes "ann" ∷ []; ips = []; emails = []; uris = []; common_names = [] });
    deny = none;
    allow_wildcard_names = false;
  });
  ssh = none;
}

abbrev pub no_policy : PolicyState Texts
no_policy = record { admin_state = λ t k. none; policy_engine = none }
