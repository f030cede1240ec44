-- ===== src/Ats/Intrusion.antt =====
-- services/ats-core/src/intrusion.ts: what follows from an intrusion on the track. The guard and the
-- signal priority that the handler shares with other parts are held in its state; the fleet, which it
-- reads, is an argument, and so are the ids that the handler draws and the time, read once. Texts are
-- left out, the reason of an inhibition apart, and the reason of a filtered message is a constructor.
-- A confidence is in thousandths, a margin to the gauge in whole millimetres.
pub mod Types
pub mod Release
pub mod Effects
pub mod Urgent
pub mod Clearing
use railsentinel.Prelude.{
  ℕ, ◌+◌, ◌*◌, ◌/◌, min, String, List, [], ◌∷◌, ◌++◌, map, Option, none, some, Bool, true, false,
  not, ◌&&◌, ◌||◌, ltb, ◌==◌, set_add, if◌then◌else◌,
}
use railsentinel.Prelude.Int.{ℤ, pos, ltb_ℤ}
use railsentinel.Prelude.Map
use railsentinel.Prelude.Map.{Map}
use railsentinel.Prelude.Text.{◌+++◌}
use railsentinel.Contracts.Types.{
  IntegrityClass, Envelope, Message, Severity, warning, major, critical, Line,
}
use railsentinel.Contracts.Payloads.{
  IntrusionState, cleared, ObjectClass, car, truck, motorcycle, bicycle, person, animal, debris,
  unknown, IntrusionData, RestrictionKind, advisory_limit, advisory_hold, TrackRestriction,
  OperatorAlarm,
}
use railsentinel.Contracts.Topics.{nonempty}
use railsentinel.Ats.Runtime.{Runtime}
use railsentinel.Ats.SafetyGuard.{
  SafetyGuard, GuardDecision, authorize, raise_alarm, advisory_speed_limit,
}
use railsentinel.Ats.Topology.{get_section, upstream_of}
use railsentinel.Ats.Topology.Network.{TrackSection}
use railsentinel.Ats.Fleet.{FleetRegistry, TrainState, in_sections, or_zero}
use railsentinel.Ats.Tsp.{inhibit, release}
use railsentinel.Ats.Tsp.Types.{TspController, TspDecision, revoke}
use railsentinel.Ats.Intrusion.Types.{
  Draw, IntrusionHandler, IntrusionOutcome, OpenIncident, Reason, alarm_refused, clear_candidate,
  confidence_threshold, filtered, incident, kept_until_confirmed, low_confidence, min_dwell_ms,
  transient, unknown_section,
}

abbrev pub is_person : ObjectClass → Bool
is_person person = true
is_person _ = false

abbrev pub is_cleared : IntrusionState → Bool
is_cleared cleared = true
is_cleared _ = false

-- `(gauge_margin_m ?? 1) < 0`
abbrev pub inside_gauge : Option ℤ → Bool
inside_gauge none = false
inside_gauge (some m) = ltb_ℤ m (pos 0)

unfoldable pub is_urgent : IntrusionData → Bool
is_urgent d = is_person d.object_class || inside_gauge d.gauge_margin_mm

-- `Math.min(15, Math.round(speed * 0.4))`
unfoldable pub limit_for : Bool → TrackSection → ℕ
limit_for urgent section = if urgent then 0 else min 15 ((4 * section.line_speed_kmh + 5) / 10)

abbrev pub with_crossing : Option String → List String → List String
with_crossing none cs = cs
with_crossing (some c) cs = c ∷ cs

abbrev pub crossing_ids : List TrackSection → List String
crossing_ids [] = []
crossing_ids (s ∷ ss) = with_crossing (nonempty s.crossing_id) (crossing_ids ss)

-- `new Set(ids)`, in the order of insertion
abbrev pub distinct_onto : List String → List String → List String
distinct_onto seen [] = seen
distinct_onto seen (x ∷ xs) = distinct_onto (set_add seen x) xs

-- the crossings of a section and of those up to two before it
unfoldable pub crossings_before : TrackSection → String → List String
crossings_before section section_id =
    distinct_onto [] (crossing_ids (section ∷ upstream_of section_id 2))

abbrev pub existing_or : Option OpenIncident → (OpenIncident → String) → String → String
existing_or none field drawn = drawn
existing_or (some i) field drawn = field i

-- `restriction?.restriction_id ?? ''`
abbrev pub id_or_empty : Option TrackRestriction → String
id_or_empty none = ""
id_or_empty (some r) = r.restriction_id

abbrev pub base_outcome : String → IntrusionOutcome
base_outcome incident_id = record {
  accepted = false;
  kind = filtered;
  reason = none;
  alarm = none;
  restriction = none;
  tsp_revocations = [];
  affected_trains = [];
  incident_id = incident_id;
}

abbrev pub filtered_by : Reason → String → IntrusionOutcome
filtered_by reason incident_id = record (base_outcome incident_id) { reason = some reason }

module _ (runtime : Runtime) (draw : Draw) where
  -- the reads of the clock are one
  abbrev pub issued : String
  issued = runtime.to_iso draw.now

  unfoldable pub build_alarm : Message IntrusionData → Severity → OperatorAlarm
  build_alarm msg severity = record {
    alarm_id = draw.alarm;
    severity = severity;
    section_id = msg.payload.section_id;
    zone = nonempty msg.env.zone;
    line = msg.env.line;
    raised_at = issued;
    acknowledged = false;
    integrity_class = msg.env.class;
    source = msg.env.src;
    confidence = msg.payload.conf;
  }

  unfoldable pub build_restriction :
      Message IntrusionData → Option OpenIncident → TrackSection → Bool → TrackRestriction
  build_restriction msg existing section urgent =
      let limit = limit_for urgent section in
      record {
        restriction_id = existing_or existing (λ i. i.restriction_id) draw.restriction;
        section_id = msg.payload.section_id;
        kind = if limit == 0 then advisory_hold else advisory_limit;
        speed_limit_kmh = if ltb 0 limit then some limit else none;
        origin_class = msg.env.class;
        issued_at = issued;
        expires_at = runtime.to_iso (draw.now + 30 * 60_000);
        requires_operator_ack = true;
        source_event_id = msg.env.id;
      }

  -- the loop that takes priority away, with the reason and the evidence
  unfoldable pub suspend :
      TspController
      → SafetyGuard
      → String
      → IntegrityClass
      → String
      → List String
      → List TspDecision × TspController × SafetyGuard
  suspend t g reason cls event [] = ([], t, g)
  suspend t g reason cls event (c ∷ cs) =
      let (ok, t', g') = inhibit runtime t g c reason cls event draw.now in
      let (ds, t'', g'') = suspend t' g' reason cls event cs in
      (
        if ok
            then record {
              crossing_id = c;
              train_id = "*";
              action = revoke;
              ntcip_strategy = none;
              decided_at = issued;
            }
              ∷ ds
            else ds,
        t'',
        g'',
      )

  -- the three effects, once the alarm is permitted
  unfoldable pub handle_incident :
      IntrusionHandler
      → SafetyGuard
      → FleetRegistry
      → Message IntrusionData
      → Option OpenIncident
      → TrackSection
      → String
      → IntrusionOutcome × IntrusionHandler
  unfolding suspend
  handle_incident h g fleet msg existing section incident_id =
      let section_id = msg.payload.section_id in
      let urgent = is_urgent msg.payload in
      let alarm = build_alarm msg (if urgent then critical else major) in
      let (advised, g') = authorize g advisory_speed_limit msg.env.class msg.env.id issued in
      let restriction =
        if advised.permitted then some (build_restriction msg existing section urgent) else none in
      let crossings = crossings_before section section_id in
      let (revocations, tsp, g'') =
        suspend h.tsp g' ("incidente " +++ incident_id +++ " na secao " +++ section_id)
          msg.env.class msg.env.id crossings in
      (
        record {
          accepted = true;
          kind = incident;
          reason = none;
          alarm = some alarm;
          restriction = restriction;
          tsp_revocations = revocations;
          affected_trains =
              in_sections runtime fleet
                (section_id ∷ map (λ (s : TrackSection). s.id) (upstream_of section_id 2)) draw.now;
          incident_id = incident_id;
        },
        record {
          guard = g'';
          tsp = tsp;
          open_incidents = Map.set h.open_incidents section_id (record {
            incident_id = incident_id;
            restriction_id = id_or_empty restriction;
            alarm_id = alarm.alarm_id;
            crossings = crossings;
          });
        },
      )

  -- with the section, from the confidence on
  unfoldable pub handle_in :
      IntrusionHandler
      → FleetRegistry
      → Message IntrusionData
      → Option OpenIncident
      → Option TrackSection
      → String
      → IntrusionOutcome × IntrusionHandler
  unfolding handle_incident
  handle_in h fleet msg existing none incident_id = (filtered_by unknown_section incident_id, h)
  handle_in h fleet msg existing (some section) incident_id =
      let (alarmed, g) = authorize h.guard raise_alarm msg.env.class msg.env.id issued in
      if is_cleared msg.payload.state
      then (
        record (base_outcome incident_id) {
          accepted = true;
          kind = clear_candidate;
          reason = some kept_until_confirmed;
          alarm = some (build_alarm msg warning);
        },
        h,
      )
      else if not (is_urgent msg.payload) && ltb (or_zero msg.payload.dwell_ms) min_dwell_ms
      then (filtered_by transient incident_id, h)
      else if not alarmed.permitted
      then (filtered_by alarm_refused incident_id, record h { guard = g })
      else handle_incident h g fleet msg existing section incident_id

  unfoldable pub handle :
      IntrusionHandler → FleetRegistry → Message IntrusionData → IntrusionOutcome × IntrusionHandler
  unfolding handle_in
  handle h fleet msg =
      let existing = Map.get h.open_incidents msg.payload.section_id in
      let incident_id = existing_or existing (λ i. i.incident_id) draw.incident in
      if ltb msg.payload.conf (confidence_threshold msg.payload.object_class)
      then (filtered_by low_confidence incident_id, h)
      else handle_in h fleet msg existing (get_section msg.payload.section_id) incident_id
