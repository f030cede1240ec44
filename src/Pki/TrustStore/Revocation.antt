-- ===== src/Pki/TrustStore/Revocation.antt =====
-- packages/pki/src/trust-store.ts: a certificate once revoked is refused.
use railsentinel.Prelude.{
  ℕ, ◌≡◌, refl, inl, inr, String, List, [], ◌∷◌, some, Bool, true, false, arith, eq_refl,
  Bool-cases, Option-cases, ltb, ◌||◌,
}
use railsentinel.Prelude.Map.{get-set}
use railsentinel.Pki.TrustStore.{
  Forge, RevocationReason, RevocationEntry, TrustStore, Validation, bad_signature, is_valid, revoke,
  is_revoked, verify_chain, is_expired, validate_in, validate,
}

pub record Order : Type 0 where
  pub serial : String
  pub reason : RevocationReason
  pub at : ℕ

-- Several revocations, one after the other
unfoldable pub run : TrustStore → List Order → TrustStore
run s [] = s
run s (o ∷ os) = run (revoke s o.serial o.reason o.at) os

is_revoked-revoke :
    (s : TrustStore) (k : String) (r : RevocationReason) (t : ℕ)
    → is_revoked (revoke s k r t) k ≡ true
unfolding is_revoked revoke
is_revoked-revoke s k r t =
    let e : RevocationEntry = record { serial = k; reason = r; revoked_at = t } in
    ground (arith, get-set s.revoked k e k, eq_refl k)

revoke_keeps :
    (s : TrustStore) (k j : String) (r : RevocationReason) (t : ℕ)
    → is_revoked s j ≡ true
    → is_revoked (revoke s k r t) j ≡ true
unfolding is_revoked revoke
revoke_keeps s k j r t h =
    let e : RevocationEntry = record { serial = k; reason = r; revoked_at = t } in
    ground (arith, get-set s.revoked k e j)

run_keeps :
    (s : TrustStore) (os : List Order) (j : String)
    → is_revoked s j ≡ true
    → is_revoked (run s os) j ≡ true
unfolding run
run_keeps s [] j h = h
run_keeps s (o ∷ os) j h =
    run_keeps (revoke s o.serial o.reason o.at) os j (revoke_keeps s o.serial j o.reason o.at h)

module _ (forge : Forge) where
  -- A certificate whose signature verifies is one that can be parsed.
  is_expired_of_chain :
      (cert issuer : String) (now : ℕ)
      → verify_chain forge cert issuer ≡ true
      → (b : Bool) × (is_expired forge cert now ≡ some b)
  unfolding verify_chain is_expired
  is_expired_of_chain cert issuer now h = elim (Option-cases (forge.certificate_from_pem cert)) [
    | inl e ↦ absurd (ground (arith, e))
    | inr (c, e) ↦ (ltb now (forge.not_before c) || ltb (forge.not_after c) now, rw e refl)
  ]

  validate_in_revoked :
      (s : TrustStore) (cert serial name : String) (b : Bool)
      → is_revoked s serial ≡ true
      → is_valid (validate_in forge s cert serial name b) ≡ false
  unfolding validate_in
  validate_in_revoked s cert serial name b h = ground arith

  validate_revoked :
      (s : TrustStore) (cert serial name : String) (now : ℕ)
      → is_revoked s serial ≡ true
      → (v : Validation) × (validate forge s cert serial name now ≡ some v) × (is_valid v ≡ false)
  unfolding validate
  validate_revoked s cert serial name now h =
      elim (Bool-cases (verify_chain forge cert s.issuing_cert_pem)) [
        | inl h1 ↦
            let (b, e) = is_expired_of_chain cert s.issuing_cert_pem now h1 in
            (
              validate_in forge s cert serial name b,
              rw (h1, e) refl,
              validate_in_revoked s cert serial name b h,
            )
        | inr h0 ↦ (bad_signature, rw h0 refl, refl)
      ]

  -- From the moment a serial number is revoked, whatever is revoked then, the certificate is refused at
  -- any time and under any name, and the check never ends in an exception.
  pub stays_revoked :
      (s : TrustStore) (serial : String) (reason : RevocationReason) (at : ℕ) (later : List Order)
      (cert name : String) (now : ℕ)
      → (v : Validation) × (validate forge
            (run (revoke s serial reason at) later)
            cert
            serial
            name
            now
          ≡ some v)
        × (is_valid v ≡ false)
  stays_revoked s serial reason at later cert name now =
      validate_revoked (run (revoke s serial reason at) later) cert serial name now
        (run_keeps (revoke s serial reason at) later serial (is_revoked-revoke s serial reason at))
