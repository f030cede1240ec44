-- ===== src/Contracts/Payloads.antt =====
-- packages/contracts/src/types.ts: the payload of an intrusion, with the fields that the supervision
-- reads, and what follows from it. A confidence is in thousandths, a margin in whole millimetres.
use railsentinel.Prelude.{ℕ, String, Option, Bool}
use railsentinel.Prelude.Int.{ℤ}
use railsentinel.Contracts.Types.{IntegrityClass, Severity, Line}

pub data IntrusionState : Type 0 where
  onset sustained cleared : IntrusionState

pub data ObjectClass : Type 0 where
  car truck motorcycle bicycle person animal debris unknown : ObjectClass

-- the fields that the handler reads
pub record IntrusionData : Type 0 where
  pub state : IntrusionState
  pub object_class : ObjectClass
  pub conf : ℕ
  pub section_id : String
  pub gauge_margin_mm : Option ℤ
  pub dwell_ms : Option ℕ
  pub detector_model : String

pub data RestrictionKind : Type 0 where
  advisory_limit advisory_hold : RestrictionKind

pub record TrackRestriction : Type 0 where
  pub restriction_id : String
  pub section_id : String
  pub kind : RestrictionKind
  pub speed_limit_kmh : Option ℕ
  pub origin_class : IntegrityClass
  pub issued_at : String
  pub expires_at : String
  pub requires_operator_ack : Bool
  pub source_event_id : String

pub record OperatorAlarm : Type 0 where
  pub alarm_id : String
  pub severity : Severity
  pub section_id : String
  pub zone : Option String
  pub line : Option Line
  pub raised_at : String
  pub acknowledged : Bool
  pub integrity_class : IntegrityClass
  pub source : String
  pub confidence : ℕ
