-- ===== src/Ats/Intrusion/Types.antt =====
-- services/ats-core/src/intrusion.ts: the constants, the outcome and the state of the handler.
use railsentinel.Prelude.{ℕ, String, List, Option, Bool}
use railsentinel.Prelude.Map.{Map}
use railsentinel.Contracts.Payloads.{
  ObjectClass, car, truck, motorcycle, bicycle, person, animal, debris, unknown, TrackRestriction,
  OperatorAlarm,
}
use railsentinel.Ats.SafetyGuard.{SafetyGuard}
use railsentinel.Ats.Fleet.{TrainState}
use railsentinel.Ats.Tsp.Types.{TspController, TspDecision}

abbrev pub confidence_threshold : ObjectClass → ℕ
confidence_threshold person = 450
confidence_threshold bicycle = 500
confidence_threshold motorcycle = 550
confidence_threshold car = 600
confidence_threshold truck = 600
confidence_threshold animal = 550
confidence_threshold debris = 700
confidence_threshold unknown = 750

abbrev pub min_dwell_ms : ℕ
min_dwell_ms = 400

pub data OutcomeKind : Type 0 where
  incident clear_candidate filtered : OutcomeKind

pub data Reason : Type 0 where
  low_confidence unknown_section kept_until_confirmed transient alarm_refused : Reason

pub record IntrusionOutcome : Type 0 where
  pub accepted : Bool
  pub kind : OutcomeKind
  pub reason : Option Reason
  pub alarm : Option OperatorAlarm
  pub restriction : Option TrackRestriction
  pub tsp_revocations : List TspDecision
  pub affected_trains : List TrainState
  pub incident_id : String

pub record OpenIncident : Type 0 where
  pub incident_id : String
  pub restriction_id : String
  pub alarm_id : String
  pub crossings : List String

pub record IntrusionHandler : Type 0 where
  pub guard : SafetyGuard
  pub tsp : TspController
  pub open_incidents : Map OpenIncident

-- the ids that a call draws, and the time, as milliseconds
pub record Draw : Type 0 where
  pub incident : String
  pub restriction : String
  pub alarm : String
  pub now : ℕ
