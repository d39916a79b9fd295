-- ===== src/Policy/Examples.antt =====
-- The theorems on policy/ at concrete names, constraints and engines.
use certificates.Base.{
  ◌≡◌, ◌↔◌, ◌⊎◌, refl, true, false, some, List, [], ◌∷◌, Bytes, All, NoByte, arith, codes,
  has_prefix, contains, last_index_byte,
}
use certificates.Policy.Types.{Ip}
use certificates.Policy.Labels.{domain_to_reverse_labels}
use certificates.Policy.Labels.Loop.{join}
use certificates.Policy.Labels.Exact.{IsLabel, Spells, domain_to_reverse_labels_exact}
use certificates.Policy.Mailbox.{Rfc2821Mailbox, is_atext, well_dotted, parse_rfc2821_mailbox}
use certificates.Policy.Mailbox.RoundTrip.{
  IsQuotable, IsDotted, IsSuffix, render, parse-render, parse_sound,
}
use certificates.Policy.Network.Exact.{IsIp, IsByte}
use certificates.Policy.Matching.{match_domain_constraint}
use certificates.Policy.Matching.Fold.{Decides, lowered}
use certificates.Policy.Matching.Domain.{match_domain_constraint_exact}

abbrev example_com : List Bytes
example_com = codes "com" ∷ codes "example" ∷ []

abbrev upper_example_com : List Bytes
upper_example_com = codes "COM" ∷ codes "Example" ∷ []

example_com-labels : All IsLabel example_com
example_com-labels = (((λ h. cc), ground arith), (((λ h. cc), ground arith), tt))

upper_example_com-labels : All IsLabel upper_example_com
upper_example_com-labels = (((λ h. cc), ground arith), (((λ h. cc), ground arith), tt))

example_com-plain : All (NoByte b'*') example_com
example_com-plain = ground arith

match_domain_constraint_exact_example :
    Decides
      (match_domain_constraint false (join example_com) (join upper_example_com))
      (lowered example_com ≡ lowered upper_example_com)
match_domain_constraint_exact_example =
    match_domain_constraint_exact false (codes "com") (codes "example" ∷ []) example_com-labels
      example_com-plain (codes "COM") (codes "Example" ∷ []) upper_example_com-labels

domain_to_reverse_labels_exact_example :
    (domain_to_reverse_labels (codes "example.com") ≡ some example_com)
    ↔ (All IsLabel example_com × Spells (codes "example.com") example_com)
domain_to_reverse_labels_exact_example =
    domain_to_reverse_labels_exact (codes "example.com") example_com

abbrev joe : Rfc2821Mailbox
joe = record { local = codes "j\"oe"; domain = codes "example.com" }

joe-local : All IsQuotable joe.local
joe-local = ground arith

example_com-read : domain_to_reverse_labels joe.domain ≡ some example_com
unfolding domain_to_reverse_labels last_index_byte
example_com-read = refl

parse-render_example : parse_rfc2821_mailbox (render joe) ≡ some joe
parse-render_example = parse-render joe example_com joe-local example_com-read

abbrev plain_joe : Rfc2821Mailbox
plain_joe = record { local = codes "j.oe"; domain = codes "example.com" }

plain_joe-read : parse_rfc2821_mailbox (codes "j.oe@example.com") ≡ some plain_joe
unfolding parse_rfc2821_mailbox is_atext well_dotted contains domain_to_reverse_labels
    last_index_byte
plain_joe-read = refl

parse_sound_example :
    IsSuffix (codes "@example.com") (codes "j.oe@example.com")
    × ((ls : List Bytes) × (domain_to_reverse_labels (codes "example.com") ≡ some ls))
    × ((has_prefix (codes "j.oe@example.com") (b'"' ∷ []) ≡ true) ⊎ IsDotted (codes "j.oe"))
parse_sound_example = parse_sound (codes "j.oe@example.com") plain_joe plain_joe-read

abbrev loopback : Ip
loopback = 127 ∷ 0 ∷ 0 ∷ 1 ∷ []

loopback-IsIp : IsIp loopback
loopback-IsIp = ground arith

abbrev mapped_loopback : Ip
mapped_loopback = 0 ∷ 0 ∷ 0 ∷ 0 ∷ 0 ∷ 0 ∷ 0 ∷ 0 ∷ 0 ∷ 0 ∷ 255 ∷ 255 ∷ loopback

mapped_loopback-bytes : All IsByte mapped_loopback
mapped_loopback-bytes = ground arith
