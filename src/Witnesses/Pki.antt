-- ===== src/Witnesses/Pki.antt =====
-- A certificate that runs out, for packages/pki/src/trust-store.ts.
use railsentinel.Prelude.{◌≡◌, refl, String, [], ◌∷◌, none, some, false, str_eq, if◌then◌else◌}
use railsentinel.Prelude.Map
use railsentinel.Pki.TrustStore.{
  Forge, TrustStore, Validation, compromised, superseded, valid, not_in_force, wrong_name,
  bad_signature, is_valid, new, revoke, is_revoked, validate, verify_chain, is_expired,
  extract_common_name,
}
use railsentinel.Pki.TrustStore.Revocation.{run, stays_revoked}

-- certificates that are their names, of which one signs
abbrev forge : Forge
forge = record {
  Certificate = String;
  certificate_from_pem = λ pem. if str_eq pem "" then none else some pem;
  verify = λ issuer leaf. some (str_eq issuer "issuing");
  common_name = λ cert. some cert;
  not_before = λ cert. 100;
  not_after = λ cert. 200;
}

abbrev store : TrustStore
store = new "issuing"

sample_valid : validate forge store "cam-1" "01" "cam-1" 150 ≡ some valid
unfolding validate is_revoked Map.get verify_chain is_expired extract_common_name
sample_valid = refl

sample_expired : validate forge store "cam-1" "01" "cam-1" 201 ≡ some not_in_force
unfolding validate verify_chain is_expired
sample_expired = refl

sample_name :
    validate forge store "cam-1" "01" "cam-2" 150 ≡ some (wrong_name (some "cam-1") "cam-2")
unfolding validate is_revoked Map.get verify_chain is_expired extract_common_name
sample_name = refl

sample_unreadable : validate forge store "" "01" "cam-1" 150 ≡ some bad_signature
unfolding validate verify_chain is_expired
sample_unreadable = refl

stays_revoked_example :
    (v : Validation) × (validate forge
        (run
          (revoke store "01" compromised 120)
          (record { serial = "01"; reason = superseded; at = 130 } ∷ []))
        "cam-1"
        "01"
        "cam-1"
        150
      ≡ some v)
    × (is_valid v ≡ false)
stays_revoked_example =
    stays_revoked forge store "01" compromised 120
      (record { serial = "01"; reason = superseded; at = 130 } ∷ []) "cam-1" "cam-1" 150
