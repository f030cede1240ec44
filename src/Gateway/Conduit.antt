-- ===== src/Gateway/Conduit.antt =====
-- services/ingest-gateway/src/main.ts: what the process does with each message of the field. What it
-- publishes is returned; the log is left out. The clock is read once, in milliseconds; a latency is
-- `none` where the time of the message cannot be read. The process of the other direction, the choice
-- of addresses and the connections are left out.
pub mod Accounts
use railsentinel.Prelude.{ℕ, ◌+◌, String, List, [], ◌∷◌, Option, none, some, Bool, true, false}
use railsentinel.Prelude.Int.{ℤ, ◌-ℤ◌}
use railsentinel.Prelude.Map
use railsentinel.Prelude.Map.{Map}
use railsentinel.Contracts.Types.{Message}
use railsentinel.Contracts.Topics.{
  normalized_intrusion, normalized_health, normalized_position, audit_rejected,
}
use railsentinel.Contracts.Platform.{Platform}
use railsentinel.Gateway.Pipeline.{
  AdmissionPipeline, Verdict, accepted, rejected, admit, RejectStage, oversize, malformed_json,
  schema, unknown_topic, src_topic_mismatch, unknown_device, revoked_device, zone_not_allowed,
  type_not_allowed, integrity_class_not_allowed, missing_signature, bad_signature, replay,
  rate_limited,
}

-- the stage as the text that it is in the source, which is a key of the counters
abbrev pub stage_name : RejectStage → String
stage_name oversize = "oversize"
stage_name malformed_json = "malformed_json"
stage_name schema = "schema"
stage_name unknown_topic = "unknown_topic"
stage_name src_topic_mismatch = "src_topic_mismatch"
stage_name unknown_device = "unknown_device"
stage_name revoked_device = "revoked_device"
stage_name zone_not_allowed = "zone_not_allowed"
stage_name type_not_allowed = "type_not_allowed"
stage_name integrity_class_not_allowed = "integrity_class_not_allowed"
stage_name missing_signature = "missing_signature"
stage_name bad_signature = "bad_signature"
stage_name replay = "replay"
stage_name rate_limited = "rate_limited"

pub record Stats : Type 0 where
  pub accepted_count : ℕ
  pub rejected_count : ℕ
  pub by_stage : Map ℕ

pub record Conduit : Type 0 where
  pub pipeline : AdmissionPipeline
  pub stats : Stats

abbrev pub routes : Map String
routes =
    ("vlt.edge.intrusion.v1", normalized_intrusion)
    ∷ ("vlt.edge.health.v1", normalized_health)
    ∷ ("vlt.train.position.v1", normalized_position)
    ∷ []

-- `byStage.get(stage) ?? 0`
abbrev pub count_of : Option ℕ → ℕ
count_of none = 0
count_of (some n) = n

unfoldable pub count_rejected : Stats → RejectStage → Stats
count_rejected s stage = record s {
  rejected_count = s.rejected_count + 1;
  by_stage =
      Map.set s.by_stage (stage_name stage) (count_of (Map.get s.by_stage (stage_name stage)) + 1);
}

-- `_ingest`
pub record Ingest : Type 0 where
  pub topic : String
  pub received_at : ℤ
  pub latency_ms : Option ℤ
  pub gaps : ℕ

abbrev pub latency : Option ℤ → ℤ → Option ℤ
latency none now = none
latency (some sent) now = some (now -ℤ sent)

module _ (platform : Platform) where
  open platform use {Bytes, Json, date_parse}

  pub data Publication : Type 0 where
    audit : RejectStage → String → Option String → ℤ → Publication
    forward : String → Message Json → Ingest → Publication

  -- the topic of the core on which it is published
  abbrev pub published_on : Publication → String
  published_on (audit stage topic src at) = audit_rejected
  published_on (forward route msg ingest) = route

  -- with the route of the type
  abbrev pub forward_to : Option String → Message Json → Ingest → List Publication
  forward_to none msg ingest = []
  forward_to (some route) msg ingest = forward route msg ingest ∷ []

  unfoldable pub handle_verdict :
      Verdict platform → Conduit → AdmissionPipeline → ℤ → List Publication × Conduit
  unfolding count_rejected
  handle_verdict (rejected stage topic src) c p now = (
    audit stage topic src now ∷ [],
    record { pipeline = p; stats = count_rejected c.stats stage },
  )
  handle_verdict (accepted msg topic gaps rebooted) c p now = (
    forward_to (Map.get routes msg.env.type) msg (record {
      topic = topic;
      received_at = now;
      latency_ms = latency (date_parse msg.env.ts) now;
      gaps = gaps;
    }),
    record {
      pipeline = p;
      stats = record (c.stats) { accepted_count = c.stats.accepted_count + 1 };
    },
  )

  -- `field.on('message', …)`
  unfoldable pub on_field_message : Conduit → String → Bytes → ℤ → List Publication × Conduit
  on_field_message c topic payload now =
      let (verdict, p) = admit platform c.pipeline topic payload now in
      handle_verdict verdict c p now
