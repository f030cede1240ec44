-- ===== src/Ats/Process.antt =====
-- services/ats-core/src/main.ts: the process. Its state is what it knows, the lease by which it leads,
-- and what it has published. The clock is read once for a message.
pub mod Periodic
pub mod Bus
pub mod Dispatch
pub mod Responds
pub mod Cycle
pub mod Standby
pub mod Keeps
use railsentinel.Prelude.{
  ℕ, zero, suc, ◌+◌, ◌-◌, String, List, [], ◌∷◌, ◌++◌, map, Option, none, some, Bool, true, false,
  not, ◌&&◌, ◌||◌, leb, ltb, ◌==◌, str_eq, length, keep, contains, set_add, set_delete,
  if◌then◌else◌, ◌>>=◌,
}
use railsentinel.Prelude.Int.{ℤ, pos, pos_part, neg_part}
use railsentinel.Prelude.Map
use railsentinel.Prelude.Map.{Map}
use railsentinel.Prelude.Text.{◌+++◌}
use railsentinel.Contracts.Types.{Envelope, Message, basic, major, Line}
use railsentinel.Contracts.Topics.{nonempty}
use railsentinel.Contracts.Payloads.{IntrusionData, TrackRestriction, OperatorAlarm}
use railsentinel.Leader.LeaseHolder.{LeaseHolder, is_leader}
use railsentinel.Ats.Runtime.{Runtime}
use railsentinel.Ats.SafetyGuard.{SafetyGuard, SafetyViolation, authorize, adjust_dwell_time}
use railsentinel.Ats.Topology.{get_section}
use railsentinel.Ats.Topology.Network.{TrackSection}
use railsentinel.Ats.Fleet
use railsentinel.Ats.Fleet.{FleetRegistry, TrainPosition, TrainState, upsert, all, on_line}
use railsentinel.Ats.Headway.{HeadwayRegulator, RegulationCommand, regulate}
use railsentinel.Ats.Headway.Setpoint.{RegulatedLine, line_1, line_2, line_of, resolve_setpoint}
use railsentinel.Ats.Tsp.{evaluate, observe, record_outcome, grant_rate, delay_of}
use railsentinel.Ats.Tsp.Types.{
  TspController, TspDecision, TspEvaluation, decided, skipped, CrossingFeedback, GrantResult,
}
use railsentinel.Ats.Tsp.Mib.{MibValue, number, NtcipCommand, to_ntcip}
use railsentinel.Ats.Intrusion.{handle}
use railsentinel.Ats.Intrusion.Types.{Draw, IntrusionHandler, IntrusionOutcome}
use railsentinel.Ats.Intrusion.Release.{operator_clear, open_sections}
use Bus.{
  HealthStatus, ok, degraded, fault, offline, HealthData, EdgeHealth, FleetEntry, SystemState,
  Publication, safety_violation, operator_alarm, coverage_alarm, track_restriction, section_cleared,
  tsp_decision, priority_request, regulation, system_state,
}

-- What the process knows. The guard and the signal priority that its parts share stand in the state
-- of the intrusion handler.
pub record Knowledge : Type 0 where
  pub fleet : FleetRegistry
  pub regulator : HeadwayRegulator
  pub intrusion : IntrusionHandler
  pub edge_health : Map EdgeHealth
  pub infeasibility_reported : List String

pub record AtsCore : Type 0 where
  pub leader : LeaseHolder
  pub know : Knowledge
  pub published : List Publication

-- the only way to write to the bus
unfoldable pub publish_as_leader : AtsCore → Publication → AtsCore
publish_as_leader core p =
    if is_leader core.leader then record core { published = core.published ++ p ∷ [] } else core

unfoldable pub publish_all : AtsCore → List Publication → AtsCore
publish_all core [] = core
publish_all core (p ∷ ps) = publish_all (publish_as_leader core p) ps

abbrev pub knowing : AtsCore → Knowledge → AtsCore
knowing core know = record core { know = know }

-- What the listener of the guard is called with, between two states of the guard
abbrev pub drop : ℕ → List SafetyViolation → List SafetyViolation
drop zero vs = vs
drop (suc n) [] = []
drop (suc n) (v ∷ vs) = drop n vs

unfoldable pub violations_since : SafetyGuard → SafetyGuard → List Publication
violations_since before after = map safety_violation (drop (length before.notified) after.notified)

abbrev pub same_status : HealthStatus → HealthStatus → Bool
same_status ok ok = true
same_status degraded degraded = true
same_status fault fault = true
same_status offline offline = true
same_status _ _ = false

-- `status === 'offline' || status === 'fault'`
abbrev pub is_lost : HealthStatus → Bool
is_lost offline = true
is_lost fault = true
is_lost _ = false

abbrev pub to_list {ℓ κ} : {A : Type ℓ} {B : Type κ} → (A → B) → Option A → List B
to_list f none = []
to_list f (some a) = f a ∷ []

abbrev pub crossings_shown : List String
crossings_shown =
    "XC-ANA-COSTA" ∷ "XC-F-GLICERIO" ∷ "XC-CAMPOS-MELLO" ∷ "XC-JOAO-PESSOA" ∷ "XC-CONSTITUICAO" ∷ []

-- `.map(feedbackFor).filter(Boolean)`
unfoldable pub feedback_of : TspController → List String → List CrossingFeedback
feedback_of t [] = []
feedback_of t (c ∷ cs) = to_list (λ f. f) (Map.get t.feedback c) ++ feedback_of t cs

abbrev pub line_of_section : Option TrackSection → Option Line
line_of_section none = none
line_of_section (some s) = some s.line

abbrev pub entry_of : TrainState → FleetEntry
entry_of t = record {
  train_id = t.train_id;
  line = line_of_section (get_section t.section_id);
  section_id = t.section_id;
  speed_kmh = t.speed_kmh;
  schedule_dev_s = delay_of t.schedule_dev_s;
  stale = t.stale;
}

abbrev pub line_name : RegulatedLine → String
line_name line_1 = "L1"
line_name line_2 = "L2"

module _ (runtime : Runtime) where
  unfoldable pub state_of : Knowledge → ℕ → SystemState
  unfolding feedback_of
  state_of know now = record {
    at = runtime.to_iso now;
    integrity_class = basic;
    fleet = map entry_of (all runtime know.fleet now);
    open_incidents = open_sections know.intrusion;
    tsp_inhibitions = know.intrusion.tsp.inhibited;
    tsp_grant_rate = grant_rate know.intrusion.tsp;
    crossings = feedback_of know.intrusion.tsp crossings_shown;
    edge_nodes = Map.values know.edge_health;
    safety_violations_blocked = length know.intrusion.guard.violations;
  }

  unfoldable pub publish_system_state : AtsCore → ℕ → AtsCore
  unfolding publish_as_leader state_of
  publish_system_state core now = publish_as_leader core (system_state (state_of core.know now))

  -- What is published of an outcome, in this order
  unfoldable pub outcome_publications : IntrusionOutcome → List Publication
  outcome_publications o =
      to_list operator_alarm o.alarm
      ++ to_list track_restriction o.restriction
      ++ map tsp_decision o.tsp_revocations

  unfoldable pub on_intrusion : AtsCore → Draw → Message IntrusionData → AtsCore
  unfolding publish_all violations_since outcome_publications publish_system_state
  on_intrusion core draw msg =
      let know = core.know in
      let (outcome, handler) = handle runtime draw know.intrusion know.fleet msg in
      let heard =
        publish_all (knowing core (record know { intrusion = handler }))
          (violations_since know.intrusion.guard handler.guard) in
      let told = publish_system_state (publish_all heard (outcome_publications outcome)) draw.now in
      if not outcome.accepted then heard else told

  unfoldable pub coverage_lost : Draw → Message HealthData → Publication
  coverage_lost draw msg = coverage_alarm (record {
    alarm_id = draw.alarm;
    severity = major;
    zone = nonempty msg.env.zone;
    raised_at = runtime.to_iso draw.now;
    acknowledged = false;
    integrity_class = msg.env.class;
    source = msg.env.src;
    status = msg.payload.status;
    reason = nonempty msg.payload.reason;
  })

  -- what is done with a report, once it is stored, by the report before it
  unfoldable pub report_change : AtsCore → Option EdgeHealth → Draw → Message HealthData → AtsCore
  unfolding publish_as_leader coverage_lost publish_system_state
  report_change core none draw msg = core
  report_change core (some prev) draw msg =
      let told = publish_system_state (publish_as_leader core (coverage_lost draw msg)) draw.now in
      if not (same_status prev.status msg.payload.status) && is_lost msg.payload.status
      then told
      else core

  unfoldable pub on_health : AtsCore → Draw → Message HealthData → AtsCore
  unfolding report_change
  on_health core draw msg =
      let stored : EdgeHealth = record {
        health = msg.payload;
        src = msg.env.src;
        at = msg.env.ts;
      } in
      let edge_health = Map.set core.know.edge_health msg.env.src stored in
      report_change (knowing core (record core.know { edge_health = edge_health }))
        (Map.get core.know.edge_health msg.env.src) draw msg

  abbrev pub object_or : Option NtcipCommand → String → MibValue → MibValue
  object_or none key default = default
  object_or (some c) key default = elim (Map.get c.mib_objects key) [ none ↦ default | some v ↦ v ]

  abbrev pub object_of : Option NtcipCommand → String → Option MibValue
  object_of none key = none
  object_of (some c) key = Map.get c.mib_objects key

  -- the decision, and its request to the controller of the crossing
  unfoldable pub evaluation_publications : TspEvaluation → List Publication
  evaluation_publications (skipped reason eta) = []
  evaluation_publications (decided decision eta request_id) =
      let ntcip = to_ntcip decision in
      tsp_decision decision
      ∷ priority_request (record {
        crossing_id = decision.crossing_id;
        phase = object_of ntcip "priorityRequest.priorityRequestPhase";
        strategy = object_or ntcip "priorityRequest.priorityRequestStrategyNumber" (number 1);
        vehicle_class = 6;
        request_id = request_id;
        max_extension = 10;
      })
      ∷ []

  -- with the train that the registry returns
  unfoldable pub evaluate_train : AtsCore → Option TrainState → Message TrainPosition → ℕ → AtsCore
  unfolding publish_all violations_since evaluation_publications
  evaluate_train core none msg now = core
  evaluate_train core (some train) msg now =
      let know = core.know in
      let before = know.intrusion in
      let (evaluation, tsp, guard) =
        evaluate runtime before.tsp before.guard train msg.env.class msg.env.id now in
      publish_all
        (knowing core (record know { intrusion = record before { tsp = tsp; guard = guard } }))
        (violations_since before.guard guard ++ evaluation_publications evaluation)

  unfoldable pub on_position : AtsCore → Message TrainPosition → ℕ → AtsCore
  unfolding evaluate_train
  on_position core msg now =
      let (state, fleet) = upsert core.know.fleet msg.payload msg.env.ts in
      evaluate_train (knowing core (record core.know { fleet = fleet }))
        (Fleet.get fleet msg.payload.train_id) msg now

  unfoldable pub on_clear_section : AtsCore → String → Option String → ℕ → AtsCore
  unfolding publish_as_leader publish_system_state
  on_clear_section core section_id operator_id now =
      let ((released, crossings), handler) = operator_clear core.know.intrusion section_id in
      let core' = knowing core (record core.know { intrusion = handler }) in
      let told =
        publish_system_state
          (publish_as_leader core' (
            section_cleared (record {
              restriction_id = "";
              section_id = section_id;
              cleared = true;
              cleared_by = operator_id;
              cleared_at = runtime.to_iso now;
            })))
          now in
      if released then told else core'

  unfoldable pub on_crossing_state : AtsCore → CrossingFeedback → AtsCore
  on_crossing_state core fb =
      let know = core.know in
      knowing core
        (record know { intrusion = record know.intrusion { tsp = observe know.intrusion.tsp fb } })

  unfoldable pub on_grant_result : AtsCore → GrantResult → AtsCore
  on_grant_result core r =
      let know = core.know in
      knowing core (record know {
        intrusion = record know.intrusion { tsp = record_outcome know.intrusion.tsp r };
      })
