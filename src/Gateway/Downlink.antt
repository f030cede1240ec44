-- ===== src/Gateway/Downlink.antt =====
-- services/ingest-gateway/src/downlink.ts: the signed commands from the core to the field. The id and
-- the time of a command, which are drawn, and the signature of node:crypto are arguments.
pub mod Delivery
pub mod Signed
use railsentinel.Prelude.{ℕ, ◌+◌, String, Option, some}
use railsentinel.Contracts.Types.{IntegrityClass, Line, Envelope, Message, info}
use railsentinel.Contracts.Crypto.{sign_message}
use railsentinel.Contracts.Topics.{nonempty, ◌</>◌}
use railsentinel.Contracts.Platform.{Platform}

pub record DownlinkSigner : Type 0 where
  pub src : String
  pub kid : String
  pub private_key_pem : String

pub record Downlink : Type 0 where
  pub signer : DownlinkSigner
  pub seq : ℕ
  pub boot : ℕ

-- the constructor, at the time `now`
unfoldable pub new : DownlinkSigner → ℕ → Downlink
new signer now = record { signer = signer; seq = 0; boot = now }

module _ (platform : Platform) (sign : String → String → String) where
  open platform use {Json}

  pub record BuildParams : Type 0 where
    pub type : String
    pub payload : Json
    pub line : Line
    pub zone : String
    pub integrity_class : IntegrityClass
    pub corr : Option String

  unfoldable pub build : Downlink → BuildParams → String → String → Message Json × Downlink
  build d params id ts =
      let env : Envelope = record {
        id = id;
        seq = d.seq + 1;
        boot = d.boot;
        ts = ts;
        src = d.signer.src;
        line = some params.line;
        zone = some params.zone;
        type = params.type;
        class = params.integrity_class;
        sev = info;
        corr = nonempty params.corr;
      } in
      (
        record {
          env = env;
          payload = params.payload;
          sig =
              some (
                sign_message platform sign env params.payload d.signer.private_key_pem
                  d.signer.kid);
        },
        record d { seq = d.seq + 1 },
      )

unfoldable pub topic_for : String → String → String → String → String → String
topic_for line zone src_kind src_id name =
    "vlt/santos" </> line </> zone </> src_kind </> src_id </> "cmd" </> name
