-- ===== src/Gateway/Pipeline/Gates.antt =====
-- What the gates of authorization and authentication let through.
use railsentinel.Prelude.{◌≤◌, ◌≡◌, refl, String, Option, none, some, true, contains, arith, eq_iff}
use railsentinel.Contracts.Types.{Message, Signature, rank}
use railsentinel.Contracts.Topics.{nonempty}
use railsentinel.Contracts.Platform.{Platform}
use railsentinel.Contracts.Crypto.{verify_message}
use railsentinel.Gateway.Registry.{DeviceRecord, DeviceRegistry, by_kid}
use railsentinel.Gateway.Pipeline.{authorization, authentication, signed_by}

module _ (platform : Platform) where
  open platform use {Json}

  -- The zone, if the message names one, and the type are among those of the device, and the class of
  -- the message does not pass that of the device.
  pub record IsAuthorized (device : DeviceRecord) (msg : Message Json) : Type 0 where
    pub zone_allowed :
        (z : String) → nonempty msg.env.zone ≡ some z → contains device.allowed_zones z ≡ true
    pub type_allowed : contains device.allowed_types msg.env.type ≡ true
    pub class_allowed : rank msg.env.class ≤ rank device.max_integrity_class

  -- The message carries a signature by the key of a device of the same source, and it verifies.
  pub record IsSigned (registry : DeviceRegistry) (msg : Message Json) : Type 0 where
    pub sig : Signature
    pub present : msg.sig ≡ some sig
    pub signer : DeviceRecord
    pub known : by_kid registry sig.kid ≡ some signer
    pub same_source : signer.src ≡ msg.env.src
    pub verifies : verify_message platform msg signer.public_key_pem ≡ true

  pub authorization-IsAuthorized :
      (device : DeviceRecord) (msg : Message Json)
      → authorization platform device msg ≡ none
      → IsAuthorized device msg
  unfolding authorization
  authorization-IsAuthorized device msg h = record {
    zone_allowed = λ z e. ground arith;
    type_allowed = ground arith;
    class_allowed = ground arith;
  }

  signed_by-IsSigned :
      (registry : DeviceRegistry) (msg : Message Json) (sig : Signature) (o : Option DeviceRecord)
      → msg.sig ≡ some sig
      → by_kid registry sig.kid ≡ o
      → signed_by platform o msg ≡ none
      → IsSigned registry msg
  unfolding signed_by
  signed_by-IsSigned registry msg sig none e k h = absurd (ground arith)
  signed_by-IsSigned registry msg sig (some signer) e k h = record {
    sig = sig;
    present = e;
    signer = signer;
    known = k;
    same_source = ground (arith, eq_iff signer.src msg.env.src);
    verifies = ground arith;
  }

  pub authentication-IsSigned :
      (registry : DeviceRegistry) (msg : Message Json) (o : Option Signature)
      → msg.sig ≡ o
      → authentication platform registry true o msg ≡ none
      → IsSigned registry msg
  unfolding authentication
  authentication-IsSigned registry msg none e h = absurd (ground arith)
  authentication-IsSigned registry msg (some sig) e h =
      signed_by-IsSigned registry msg sig (by_kid registry sig.kid) e refl h
