-- ===== src/Provisioner/Examples.antt =====
-- The theorems on the claims at concrete claims.
use certificates.Base.{◌≡◌, ◌↔◌, refl, true, none, some, pos, false, Option}
use certificates.Provisioner.Claims.{
  Duration, Claims, Claimer, check_order, validate, merged, min_user_ssh_cert_duration,
  max_user_ssh_cert_duration, default_user_ssh_cert_duration, min_host_ssh_cert_duration,
  max_host_ssh_cert_duration, default_host_ssh_cert_duration, is_ssh_ca_enabled, is_disable_renewal,
  allow_renewal_after_expiry, min_tls_cert_duration, max_tls_cert_duration,
  default_tls_cert_duration,
}
use certificates.Provisioner.Claims.Valid.{IsOrdered, validate_exact}

abbrev claims_of : Option Duration → Option Duration → Option Duration → Claims
claims_of min max def = record {
  min_tls_dur = min;
  max_tls_dur = max;
  default_tls_dur = def;
  min_user_ssh_dur = some (pos 5);
  max_user_ssh_dur = some (pos 20);
  default_user_ssh_dur = some (pos 10);
  min_host_ssh_dur = some (pos 5);
  max_host_ssh_dur = some (pos 20);
  default_host_ssh_dur = some (pos 10);
  enable_ssh_ca = some true;
  disable_renewal = some false;
  allow_renewal_after_expiry = some false;
}

abbrev global_claims : Claims
global_claims = claims_of (some (pos 5)) (some (pos 24)) (some (pos 10))

-- A default above the global maximum.
abbrev long_default : Claims
long_default = claims_of none none (some (pos 90))

abbrev long_claimer : Claimer
long_claimer = record { global = global_claims; claims = some long_default }

validate_exact_example : (validate long_claimer ≡ some none) ↔ (
    (min : Duration) × (max : Duration) × (def : Duration) × (min_tls_cert_duration long_claimer
      ≡ some min)
    × (max_tls_cert_duration long_claimer ≡ some max)
    × (default_tls_cert_duration long_claimer ≡ some def)
    × IsOrdered min max def)
validate_exact_example = validate_exact long_claimer

long_claimer-validate : validate long_claimer ≡ some none
unfolding validate min_tls_cert_duration max_tls_cert_duration default_tls_cert_duration check_order
long_claimer-validate = refl

-- The merge of the claims of `long_claimer`.
abbrev long_merged : Claims
long_merged = claims_of (some (pos 5)) (some (pos 90)) (some (pos 90))

long_merged-merged : merged long_claimer ≡ some long_merged
unfolding merged min_tls_cert_duration max_tls_cert_duration default_tls_cert_duration
    min_user_ssh_cert_duration max_user_ssh_cert_duration default_user_ssh_cert_duration
    min_host_ssh_cert_duration max_host_ssh_cert_duration default_host_ssh_cert_duration
    is_ssh_ca_enabled is_disable_renewal allow_renewal_after_expiry
long_merged-merged = refl
