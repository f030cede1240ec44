-- ===== src/Contracts/Crypto.antt =====
-- packages/contracts/src/crypto.ts: `signMessage` and `verifyMessage`.
use railsentinel.Prelude.{String, Option, none, some, Bool, false, not, str_eq, if◌then◌else◌}
use railsentinel.Contracts.Platform.{Platform}
use railsentinel.Contracts.Types.{Envelope, Message, Signature}

abbrev pub or_false : Option Bool → Bool
or_false none = false
or_false (some b) = b

module _ (platform : Platform) where
  open platform use {Json, signing_input, ed25519_verify}

  -- with the signature taken out of the message; an exception counts as a refusal
  unfoldable pub verify_signature : Option Signature → Message Json → String → Bool
  verify_signature none msg public_key_pem = false
  verify_signature (some sig) msg public_key_pem =
      if not (str_eq sig.alg "Ed25519")
      then false
      else or_false (ed25519_verify (signing_input msg.env msg.payload) public_key_pem sig.val)

  unfoldable pub verify_message : Message Json → String → Bool
  unfolding verify_signature
  verify_message msg public_key_pem = verify_signature msg.sig msg public_key_pem

-- `sign` is `sign` of node:crypto, of a private key that it can read and a text.
module _ (platform : Platform) (sign : String → String → String) where
  open platform use {Json, signing_input}

  unfoldable pub sign_message : Envelope → Json → String → String → Signature
  sign_message env payload private_key_pem kid = record {
    alg = "Ed25519";
    kid = kid;
    val = sign private_key_pem (signing_input env payload);
  }
