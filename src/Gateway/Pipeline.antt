-- ===== src/Gateway/Pipeline.antt =====
-- services/ingest-gateway/src/pipeline.ts: the admission of a message of the field. The texts `detail`
-- of the refusals are left out.
pub mod Gates
pub mod Admitted
pub mod Refused
pub mod RateLimit
pub mod Complete
use railsentinel.Prelude.{
  ℕ, ◌+◌, String, List, [], ◌∷◌, Option, none, some, Bool, true, false, not, ◌&&◌, ltb, contains,
  get_elem?, str_eq, if◌then◌else◌,
}
use railsentinel.Prelude.Int.{ℤ, pos, ◌-ℤ◌, ltb_ℤ}
use railsentinel.Prelude.Map
use railsentinel.Prelude.Map.{Map}
use railsentinel.Prelude.Text.{split}
use railsentinel.Contracts.Types.{Envelope, Message, Signature, rank}
use railsentinel.Contracts.Topics.{TopicParts, nonempty, parse_topic}
use railsentinel.Contracts.Replay.{ReplayGuard, ReplayVerdict, CheckInput, check, gap_count}
use railsentinel.Contracts.Platform.{Platform}
use railsentinel.Contracts.Validate.{validate_message}
use railsentinel.Contracts.Crypto.{verify_message}
use railsentinel.Gateway.Registry.{
  DeviceRecord, DeviceRegistry, DeviceStatus, active, revoked, by_src, by_kid,
}

pub data RejectStage : Type 0 where
  oversize malformed_json schema unknown_topic src_topic_mismatch unknown_device : RejectStage
  revoked_device zone_not_allowed type_not_allowed integrity_class_not_allowed : RejectStage
  missing_signature bad_signature replay rate_limited : RejectStage

pub record RateState : Type 0 where
  pub window_start : ℤ
  pub count : ℕ

pub record AdmissionPipeline : Type 0 where
  pub registry : DeviceRegistry
  pub max_bytes : ℕ
  pub rate_limit : ℕ
  pub replay_guard : ReplayGuard
  pub require_signature : Bool
  pub rates : Map RateState

-- the constructor's defaults
unfoldable pub new : DeviceRegistry → AdmissionPipeline
new registry = record {
  registry = registry;
  max_bytes = 8192;
  rate_limit = 50;
  replay_guard = railsentinel.Contracts.Replay.new;
  require_signature = true;
  rates = [];
}

abbrev pub is_revoked : DeviceStatus → Bool
is_revoked active = false
is_revoked revoked = true

-- `msg.env.zone && !device.allowedZones.includes(msg.env.zone)`
abbrev pub zone_denied : Option String → List String → Bool
zone_denied none allowed = false
zone_denied (some zone) allowed = not (contains allowed zone)

-- The counter of a source, in a window of a second that starts with its first message
unfoldable pub next_rate : Option RateState → ℤ → RateState
next_rate none now = record { window_start = now; count = 1 }
next_rate (some rate) now =
    if ltb_ℤ (now -ℤ rate.window_start) (pos 1000)
    then record rate { count = rate.count + 1 }
    else record { window_start = now; count = 1 }

module _ (platform : Platform) where
  open platform use {Bytes, Json, byte_length, parse_json, as_message, date_parse}

  pub data Verdict : Type 0 where
    accepted : Message Json → String → ℕ → Bool → Verdict
    rejected : RejectStage → String → Option String → Verdict

  -- zone, type and class of integrity
  unfoldable pub authorization : DeviceRecord → Message Json → Option RejectStage
  authorization device msg =
      if zone_denied (nonempty msg.env.zone) device.allowed_zones
      then some zone_not_allowed
      else if not (contains device.allowed_types msg.env.type)
      then some type_not_allowed
      else if ltb (rank device.max_integrity_class) (rank msg.env.class)
      then some integrity_class_not_allowed
      else none

  -- with the device that holds the key of the signature
  unfoldable pub signed_by : Option DeviceRecord → Message Json → Option RejectStage
  signed_by none msg = some bad_signature
  signed_by (some signer) msg =
      if not (str_eq signer.src msg.env.src)
      then some bad_signature
      else if not (verify_message platform msg signer.public_key_pem)
      then some bad_signature
      else none

  unfoldable pub authentication :
      DeviceRegistry → Bool → Option Signature → Message Json → Option RejectStage
  unfolding signed_by
  authentication registry false sig msg = none
  authentication registry true none msg = some missing_signature
  authentication registry true (some sig) msg = signed_by (by_kid registry sig.kid) msg

  abbrev pub first_refusal : Option RejectStage → Option RejectStage → Option RejectStage
  first_refusal none b = b
  first_refusal (some a) b = some a

  abbrev pub check_input : Message Json → CheckInput
  check_input msg = record {
    src = msg.env.src;
    id = msg.env.id;
    seq = msg.env.seq;
    boot = msg.env.boot;
    ts = msg.env.ts;
  }

  -- the last stage
  unfoldable pub freshness :
      AdmissionPipeline → String → Message Json → ℤ → Verdict × AdmissionPipeline
  freshness p topic msg now =
      let gaps = gap_count p.replay_guard msg.env.src msg.env.seq msg.env.boot in
      let (fresh, guard) = check date_parse p.replay_guard (check_input msg) now in
      (
        if fresh.accept
            then accepted msg topic gaps fresh.rebooted
            else rejected replay topic (some msg.env.src),
        record p { replay_guard = guard },
      )

  abbrev pub refuse_or :
      Option RejectStage
      → AdmissionPipeline
      → String
      → Message Json
      → ℤ
      → Verdict × AdmissionPipeline
  refuse_or (some stage) p topic msg now = (rejected stage topic (some msg.env.src), p)
  refuse_or none p topic msg now = freshness p topic msg now

  -- from the counter of messages on
  unfoldable pub admit_counted :
      AdmissionPipeline → DeviceRecord → String → Message Json → ℤ → Verdict × AdmissionPipeline
  unfolding freshness
  admit_counted p device topic msg now =
      let rate = next_rate (Map.get p.rates msg.env.src) now in
      let p' : AdmissionPipeline = record p { rates = Map.set p.rates msg.env.src rate } in
      if ltb p.rate_limit rate.count
      then (rejected rate_limited topic (some msg.env.src), p')
      else refuse_or
          (first_refusal (authorization device msg)
            (authentication p.registry p.require_signature msg.sig msg))
          p' topic msg now

  -- with the device of the source
  unfoldable pub admit_device :
      AdmissionPipeline
      → Option DeviceRecord
      → String
      → Message Json
      → ℤ
      → Verdict × AdmissionPipeline
  unfolding admit_counted
  admit_device p none topic msg now = (rejected unknown_device topic (some msg.env.src), p)
  admit_device p (some device) topic msg now =
      if is_revoked device.status
      then (rejected revoked_device topic (some msg.env.src), p)
      else admit_counted p device topic msg now

  -- `srcId !== parts.srcId`, where a source without a third part has none
  abbrev pub names_source : Option String → TopicParts → Bool
  names_source none parts = false
  names_source (some src_id) parts = str_eq src_id parts.src_id

  -- with the parts of the topic
  unfoldable pub admit_message :
      AdmissionPipeline
      → Option TopicParts
      → String
      → Message Json
      → ℤ
      → Verdict × AdmissionPipeline
  unfolding admit_device
  admit_message p none topic msg now = (rejected unknown_topic topic (some msg.env.src), p)
  admit_message p (some parts) topic msg now =
      if not (names_source (get_elem? (split b':' msg.env.src) 2) parts)
      then (rejected src_topic_mismatch topic (some msg.env.src), p)
      else admit_device p (by_src p.registry msg.env.src) topic msg now

  -- with the value that was parsed
  unfoldable pub admit_parsed :
      AdmissionPipeline → Option Json → String → ℤ → Verdict × AdmissionPipeline
  unfolding admit_message
  admit_parsed p none topic now = (rejected malformed_json topic none, p)
  admit_parsed p (some parsed) topic now =
      if not (validate_message platform parsed)
      then (rejected schema topic none, p)
      else admit_message p (parse_topic topic) topic (as_message parsed) now

  unfoldable pub admit : AdmissionPipeline → String → Bytes → ℤ → Verdict × AdmissionPipeline
  unfolding admit_parsed
  admit p topic payload now =
      if ltb p.max_bytes (byte_length payload)
      then (rejected oversize topic none, p)
      else admit_parsed p (parse_json payload) topic now
