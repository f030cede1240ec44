-- ===== src/Ats/Process/Bus.antt =====
-- services/ats-core/src/main.ts: what the process publishes on the bus of the core, and the data that
-- it keeps of the edge nodes. Texts for the operator are left out.
use railsentinel.Prelude.{ℕ, String, List, Option, Bool}
use railsentinel.Prelude.Int.{ℤ}
use railsentinel.Prelude.Map.{Map}
use railsentinel.Prelude.Text.{◌+++◌}
use railsentinel.Contracts.Types.{IntegrityClass, Severity, Line}
use railsentinel.Contracts.Payloads.{TrackRestriction, OperatorAlarm}
use railsentinel.Ats.SafetyGuard.{SafetyViolation}
use railsentinel.Ats.Tsp.Types.{TspDecision, CrossingFeedback}
use railsentinel.Ats.Tsp.Mib.{MibValue}
use railsentinel.Ats.Headway.{RegulationCommand}
use railsentinel.Ats.Headway.Setpoint.{RegulatedLine}

pub data HealthStatus : Type 0 where
  ok : HealthStatus
  degraded : HealthStatus
  fault : HealthStatus
  offline : HealthStatus

-- the fields of `HealthData` that the process reads; a rate of frames is in tenths
pub record HealthData : Type 0 where
  pub status : HealthStatus
  pub fps_tenths : Option ℕ
  pub camera_link : Option String
  pub reason : Option String

pub record EdgeHealth : Type 0 where
  pub health : HealthData
  pub open health use *
  pub src : String
  pub at : String

-- the alarm of a lost coverage
pub record CoverageAlarm : Type 0 where
  pub alarm_id : String
  pub severity : Severity
  pub zone : Option String
  pub raised_at : String
  pub acknowledged : Bool
  pub integrity_class : IntegrityClass
  pub source : String
  pub status : HealthStatus
  pub reason : Option String

pub record Cleared : Type 0 where
  pub restriction_id : String
  pub section_id : String
  pub cleared : Bool
  pub cleared_by : Option String
  pub cleared_at : String

pub record PriorityCall : Type 0 where
  pub crossing_id : String
  pub phase : Option MibValue
  pub strategy : MibValue
  pub vehicle_class : ℕ
  pub request_id : String
  pub max_extension : ℕ

-- `line` is `none` for '?'.
pub record FleetEntry : Type 0 where
  pub train_id : String
  pub line : Option Line
  pub section_id : String
  pub speed_kmh : ℕ
  pub schedule_dev_s : ℤ
  pub stale : Bool

pub record SystemState : Type 0 where
  pub at : String
  pub integrity_class : IntegrityClass
  pub fleet : List FleetEntry
  pub open_incidents : List String
  pub tsp_inhibitions : Map String
  pub tsp_grant_rate : ℕ × ℕ
  pub crossings : List CrossingFeedback
  pub edge_nodes : List EdgeHealth
  pub safety_violations_blocked : ℕ

-- A message that is published, with its topic
pub data Publication : Type 0 where
  safety_violation : SafetyViolation → Publication
  operator_alarm : OperatorAlarm → Publication
  coverage_alarm : CoverageAlarm → Publication
  track_restriction : TrackRestriction → Publication
  section_cleared : Cleared → Publication
  tsp_decision : TspDecision → Publication
  priority_request : PriorityCall → Publication
  regulation : RegulationCommand → RegulatedLine → Publication
  system_state : SystemState → Publication

unfoldable pub topic_of : Publication → String
topic_of (safety_violation v) = "core/audit/safety_violation"
topic_of (operator_alarm a) = "core/evt/operator_alarm"
topic_of (coverage_alarm a) = "core/evt/operator_alarm"
topic_of (track_restriction r) = "core/evt/track_restriction"
topic_of (section_cleared c) = "core/evt/track_restriction"
topic_of (tsp_decision d) = "core/evt/tsp_decision"
topic_of (priority_request p) = "ntcip/" +++ p.crossing_id +++ "/priority_request"
topic_of (regulation c line) = "core/cmd/train/" +++ c.train_id +++ "/regulation"
topic_of (system_state s) = "core/sta/system"
