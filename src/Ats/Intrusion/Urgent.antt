-- ===== src/Ats/Intrusion/Urgent.antt =====
-- A person on the track, or an object inside the gauge.
use railsentinel.Prelude.{
  ◌≤◌, ◌≡◌, refl, inl, inr, String, [], ◌∷◌, Option, some, true, false, All, arith, eq_refl, ltb,
}
use railsentinel.Prelude.Map
use railsentinel.Prelude.Map.{Map, get-set}
use railsentinel.Contracts.Types.{IntegrityClass, Message, critical}
use railsentinel.Contracts.Topics.{nonempty}
use railsentinel.Ats.Runtime.{Runtime}
use railsentinel.Ats.SafetyGuard.{SafetyGuard, authorize, raise_alarm, advisory_speed_limit}
use railsentinel.Ats.Topology.{get_section, upstream_of}
use railsentinel.Ats.Topology.Network.{TrackSection}
use railsentinel.Ats.Fleet.{FleetRegistry}
use railsentinel.Ats.Intrusion.{
  is_cleared, is_urgent, limit_for, crossings_before, crossing_ids, build_restriction, build_alarm,
  handle_incident, handle_in, handle, existing_or,
}
use railsentinel.Ats.Intrusion.Types.{
  IntrusionHandler, IntrusionOutcome, OpenIncident, Draw, incident, confidence_threshold,
}
use railsentinel.Contracts.Payloads.{IntrusionData, OperatorAlarm, TrackRestriction, advisory_hold}
use railsentinel.Ats.Intrusion.Effects.{
  IsSuspended, ForCrossing, crossing_ids-All, distinct_onto-contains, handle_incident-IsSuspended,
}

-- What an urgent intrusion brings about: an alarm that is critical, a restriction that holds the trams
-- until an operator acknowledges it, and the suspension of priority at the crossing of the section and
-- of each section before it; the incident is open for the section.
pub record IsAnswered (msg : Message IntrusionData) (section : TrackSection) (o : IntrusionOutcome)
    (h' : IntrusionHandler) : Type 0 where
  pub accepted : o.kind ≡ incident
  pub alarm : OperatorAlarm
  pub raised : o.alarm ≡ some alarm
  pub alarm_critical : alarm.severity ≡ critical
  pub restriction : TrackRestriction
  pub restricted : o.restriction ≡ some restriction
  pub holds : restriction.kind ≡ advisory_hold
  pub by_operator : restriction.requires_operator_ack ≡ true
  pub suspended :
      All
        (λ s. ForCrossing (IsSuspended h'.tsp) (nonempty s.crossing_id))
        (section ∷ upstream_of msg.payload.section_id 2)
  pub entry : OpenIncident
  pub entered : Map.get h'.open_incidents msg.payload.section_id ≡ some entry
  pub same_incident : entry.incident_id ≡ o.incident_id

get_entered :
    (m : Map OpenIncident) (k : String) (v : OpenIncident) → Map.get (Map.set m k v) k ≡ some v
get_entered m k v = ground (arith, get-set m k v k, eq_refl k)

module _ (runtime : Runtime) (draw : Draw) where
  crossings-IsSuspended :
      (h : IntrusionHandler) (g : SafetyGuard) (fleet : FleetRegistry) (msg : Message IntrusionData)
      (o : Option OpenIncident) (section : TrackSection) (id : String)
      → All
          (λ s.
            ForCrossing
              (IsSuspended (handle_incident runtime draw h g fleet msg o section id).1.tsp)
              (nonempty s.crossing_id))
          (section ∷ upstream_of msg.payload.section_id 2)
  unfolding crossings_before
  crossings-IsSuspended h g fleet msg o section id =
      let ss = section ∷ upstream_of msg.payload.section_id 2 in
      crossing_ids-All (IsSuspended (handle_incident runtime draw h g fleet msg o section id).1.tsp)
        ss
        (λ c i.
          handle_incident-IsSuspended runtime draw h g fleet msg o section id c
            (inl (distinct_onto-contains [] (crossing_ids ss) c (inr i))))

  permitted :
      (g : SafetyGuard) (cls : IntegrityClass) (id at : String)
      → ((authorize g advisory_speed_limit cls id at).0.permitted ≡ true)
        × ((authorize g raise_alarm cls id at).0.permitted ≡ true)
  unfolding authorize
  permitted g cls id at = ground arith

  restriction_holds :
      (msg : Message IntrusionData) (o : Option OpenIncident) (section : TrackSection)
      → (build_restriction runtime draw msg o section true).kind ≡ advisory_hold
  unfolding build_restriction limit_for
  restriction_holds msg o section = refl

  handle_incident-IsAnswered :
      (h : IntrusionHandler) (g : SafetyGuard) (fleet : FleetRegistry) (msg : Message IntrusionData)
      (o : Option OpenIncident) (section : TrackSection) (id : String)
      → is_urgent msg.payload ≡ true
      → IsAnswered msg section
          (handle_incident runtime draw h g fleet msg o section id).0
          (handle_incident runtime draw h g fleet msg o section id).1
  unfolding handle_incident build_alarm build_restriction
  handle_incident-IsAnswered h g fleet msg o section id u =
      let ok = (permitted g msg.env.class msg.env.id (runtime.to_iso draw.now)).0 in
      record {
        accepted = refl;
        alarm = build_alarm runtime draw msg critical;
        raised = rw u refl;
        alarm_critical = refl;
        restriction = build_restriction runtime draw msg o section true;
        restricted = rw (u, ok) refl;
        holds = restriction_holds msg o section;
        by_operator = refl;
        suspended = crossings-IsSuspended h g fleet msg o section id;
        entry = _;
        entered = get_entered h.open_incidents msg.payload.section_id _;
        same_incident = refl;
      }

  handle_in_urgent :
      (h : IntrusionHandler) (fleet : FleetRegistry) (msg : Message IntrusionData)
      (o : Option OpenIncident) (section : TrackSection) (id : String)
      → is_urgent msg.payload ≡ true
      → is_cleared msg.payload.state ≡ false
      → handle_in runtime draw h fleet msg o (some section) id
        ≡ handle_incident runtime draw h
            (authorize h.guard raise_alarm msg.env.class msg.env.id (runtime.to_iso draw.now)).1
            fleet
            msg
            o
            section
            id
  unfolding handle_in
  handle_in_urgent h fleet msg o section id u there =
      rw (there, u, (permitted h.guard msg.env.class msg.env.id (runtime.to_iso draw.now)).1) refl

  handle_urgent :
      (h : IntrusionHandler) (fleet : FleetRegistry) (msg : Message IntrusionData)
      → confidence_threshold msg.payload.object_class ≤ msg.payload.conf
      → let o = Map.get h.open_incidents msg.payload.section_id in
        handle runtime draw h fleet msg
        ≡ handle_in runtime draw h fleet msg o
            (get_section msg.payload.section_id)
            (existing_or o (λ i. i.incident_id) draw.incident)
  unfolding handle
  handle_urgent h fleet msg c =
      let sure : ltb msg.payload.conf (confidence_threshold msg.payload.object_class) ≡ false =
        ground arith in
      rw sure refl

  -- A person on the track, or an object inside the gauge, that is detected with the confidence of its
  -- class in a section of the network, and is not reported as cleared, is never dropped: however short
  -- it was seen and whatever the class of its evidence, it raises a critical alarm, holds the trams
  -- until an operator acknowledges, suspends priority at the crossings of the section and of those up
  -- to two before it, and opens the incident of the section.
  pub handle-IsAnswered :
      (h : IntrusionHandler) (fleet : FleetRegistry) (msg : Message IntrusionData)
      (section : TrackSection)
      → is_urgent msg.payload ≡ true
      → confidence_threshold msg.payload.object_class ≤ msg.payload.conf
      → get_section msg.payload.section_id ≡ some section
      → is_cleared msg.payload.state ≡ false
      → IsAnswered msg section
          (handle runtime draw h fleet msg).0
          (handle runtime draw h fleet msg).1
  handle-IsAnswered h fleet msg section u c e there =
      let o = Map.get h.open_incidents msg.payload.section_id in
      let id = existing_or o (λ i. i.incident_id) draw.incident in
      let g =
        (authorize h.guard raise_alarm msg.env.class msg.env.id (runtime.to_iso draw.now)).1 in
      rw (handle_urgent h fleet msg c, e, handle_in_urgent h fleet msg o section id u there)
        (handle_incident-IsAnswered h g fleet msg o section id u)
