-- ===== src/Ats/SafetyGuard.antt =====
-- services/ats-core/src/safety-guard.ts: the single point that permits or refuses an effect.
-- The rationale of a violation, a text that its other fields determine, is left out.
pub mod Partition
use railsentinel.Prelude.{
  String, List, [], ◌∷◌, ◌++◌, Option, none, some, Bool, true, false, leb, if◌then◌else◌,
}
use railsentinel.Contracts.Types.{IntegrityClass, basic, sil2, sil4, rank}

pub data EffectKind : Type 0 where
  raise_alarm advisory_speed_limit advisory_hold revoke_tsp_request : EffectKind
  adjust_dwell_time publish_service_alert grant_tsp_request : EffectKind
  command_emergency_brake set_interlocking_route release_route_lock override_atp : EffectKind

abbrev pub required_authority : EffectKind → IntegrityClass
required_authority raise_alarm = basic
required_authority advisory_speed_limit = basic
required_authority advisory_hold = basic
required_authority revoke_tsp_request = basic
required_authority adjust_dwell_time = basic
required_authority publish_service_alert = basic
required_authority grant_tsp_request = sil2
required_authority set_interlocking_route = sil4
required_authority release_route_lock = sil4
required_authority command_emergency_brake = sil4
required_authority override_atp = sil4

pub record SafetyViolation : Type 0 where
  pub at : String
  pub effect : EffectKind
  pub evidence_class : IntegrityClass
  pub required_class : IntegrityClass
  pub source_event_id : String

pub record GuardDecision : Type 0 where
  pub permitted : Bool
  pub violation : Option SafetyViolation

-- `notified` is what the listener was called with, `listening` whether one is registered.
pub record SafetyGuard : Type 0 where
  pub violations : List SafetyViolation
  pub listening : Bool
  pub notified : List SafetyViolation

abbrev pub new : SafetyGuard
new = record { violations = []; listening = false; notified = [] }

unfoldable pub on_violation : SafetyGuard → SafetyGuard
on_violation g = record g { listening = true }

-- `now` is the clock's text at the call.
unfoldable pub authorize :
    SafetyGuard → EffectKind → IntegrityClass → String → String → GuardDecision × SafetyGuard
authorize g effect evidence_class source_event_id now =
    let required = required_authority effect in
    let violation : SafetyViolation = record {
      at = now;
      effect = effect;
      evidence_class = evidence_class;
      required_class = required;
      source_event_id = source_event_id;
    } in
    if leb (rank required) (rank evidence_class)
    then (record { permitted = true; violation = none }, g)
    else (
      record { permitted = false; violation = some violation },
      record g {
        violations = g.violations ++ violation ∷ [];
        notified = if g.listening then g.notified ++ violation ∷ [] else g.notified;
      },
    )
