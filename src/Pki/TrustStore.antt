-- ===== src/Pki/TrustStore.antt =====
-- packages/pki/src/trust-store.ts, and the reading of certificates in ca.ts. Certificates are parsed and
-- verified by node-forge, which is a parameter. Instants are milliseconds since 1970, and the clock, read
-- where the source reads it, is an argument.
pub mod Revocation
use railsentinel.Prelude.{
  ℕ, String, List, [], Option, none, some, Bool, true, false, not, ◌||◌, ltb, str_eq, if◌then◌else◌,
  ◌>>=◌,
}
use railsentinel.Prelude.Map
use railsentinel.Prelude.Map.{Map}
use railsentinel.Contracts.Crypto.{or_false}

pub record Forge : Type 1 where
  pub Certificate : Type 0
  -- `none` is an exception, here and in `verify`
  pub certificate_from_pem : String → Option Certificate
  -- by the issuer, of the leaf
  pub verify : Certificate → Certificate → Option Bool
  -- the value of the field CN of the subject
  pub common_name : Certificate → Option String
  pub not_before : Certificate → ℕ
  pub not_after : Certificate → ℕ

pub data RevocationReason : Type 0 where
  compromised superseded decommissioned ca_compromise : RevocationReason

pub record RevocationEntry : Type 0 where
  pub serial : String
  pub reason : RevocationReason
  pub revoked_at : ℕ

pub record TrustStore : Type 0 where
  pub issuing_cert_pem : String
  pub revoked : Map RevocationEntry

abbrev pub new : String → TrustStore
new issuing_cert_pem = record { issuing_cert_pem = issuing_cert_pem; revoked = [] }

unfoldable pub revoke : TrustStore → String → RevocationReason → ℕ → TrustStore
revoke s serial reason now = record s {
  revoked =
      Map.set s.revoked serial (record { serial = serial; reason = reason; revoked_at = now });
}

unfoldable pub is_revoked : TrustStore → String → Bool
is_revoked s serial = Map.has s.revoked serial

abbrev pub reason_of : Option RevocationEntry → Option RevocationReason
reason_of none = none
reason_of (some e) = some e.reason

unfoldable pub revocation_reason : TrustStore → String → Option RevocationReason
revocation_reason s serial = reason_of (Map.get s.revoked serial)

abbrev pub revoked_list : TrustStore → List RevocationEntry
revoked_list s = Map.values s.revoked

-- The verdict, each with what its text shows
pub data Validation : Type 0 where
  valid : Validation
  bad_signature : Validation
  not_in_force : Validation
  is_withdrawn : Option RevocationReason → Validation
  wrong_name : Option String → String → Validation

-- the field `valid`
abbrev pub is_valid : Validation → Bool
is_valid valid = true
is_valid _ = false

abbrev pub same_name : Option String → String → Bool
same_name none expected = false
same_name (some cn) expected = str_eq cn expected

module _ (forge : Forge) where
  open forge use {certificate_from_pem, verify, common_name, not_before, not_after}

  unfoldable pub verify_chain : String → String → Bool
  verify_chain leaf_pem issuer_pem = or_false (
      certificate_from_pem leaf_pem >>= λ leaf.
      certificate_from_pem issuer_pem >>= λ issuer. verify issuer leaf)

  unfoldable pub extract_common_name : String → Option String
  extract_common_name cert_pem = certificate_from_pem cert_pem >>= common_name

  -- `none` is the exception of a text that is no certificate.
  unfoldable pub is_expired : String → ℕ → Option Bool
  is_expired cert_pem now = do
    cert ← certificate_from_pem cert_pem
    some (ltb now (not_before cert) || ltb (not_after cert) now)

  -- once the certificate is known to be in force or not
  unfoldable pub validate_in : TrustStore → String → String → String → Bool → Validation
  validate_in s cert_pem serial expected expired =
      if expired
      then not_in_force
      else if is_revoked s serial
      then is_withdrawn (revocation_reason s serial)
      else if not (same_name (extract_common_name cert_pem) expected)
      then wrong_name (extract_common_name cert_pem) expected
      else valid

  -- with the certificate, its serial number and the name that is expected
  unfoldable pub validate : TrustStore → String → String → String → ℕ → Option Validation
  unfolding validate_in
  validate s cert_pem serial expected now =
      let in_force = is_expired cert_pem now in
      if not (verify_chain cert_pem s.issuing_cert_pem)
      then some bad_signature
      else in_force >>= λ expired. some (validate_in s cert_pem serial expected expired)
