-- ===== src/Gateway/Downlink/Signed.antt =====
-- services/ingest-gateway/src/downlink.ts: a device verifies what the gateway signs.
use railsentinel.Prelude.{◌≡◌, ap, String, some, true}
use railsentinel.Contracts.Platform.{Platform}
use railsentinel.Contracts.Crypto.{or_false, verify_message, sign_message}
use railsentinel.Gateway.Downlink.{Downlink, BuildParams, build}

module _ (platform : Platform) (sign : String → String → String) where
  open platform use {signing_input, ed25519_verify}

  -- If what is signed with the private key of the downlink verifies with the public key, then so does
  -- each command that the downlink builds, whatever its number, payload, place, id and time.
  pub build_verifies :
      (d : Downlink) (params : BuildParams platform sign) (id ts public_key_pem : String)
      → ((text : String)
          → ed25519_verify text public_key_pem (sign d.signer.private_key_pem text) ≡ some true)
      → verify_message platform (build platform sign d params id ts).0 public_key_pem ≡ true
  unfolding build verify_message sign_message
  build_verifies d params id ts public_key_pem pair =
      ap or_false (pair (signing_input (build platform sign d params id ts).0.env params.payload))
