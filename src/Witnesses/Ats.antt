-- ===== src/Witnesses/Ats.antt =====
-- A late tram before a crossing, and persons on the track, for services/ats-core/src.
use railsentinel.Prelude.{
  String, ◌≡◌, ◌≢◌, refl, [], ◌∷◌, none, some, true, false, All, arith, eq_iff,
}
use railsentinel.Prelude.Int.{pos, ◌-ℤ◌, ◌*ℤ◌}
use railsentinel.Prelude.Map
use railsentinel.Prelude.Map.{Map}
use railsentinel.Contracts.Types.{basic, sil2, Message, Envelope, critical}
use railsentinel.Ats.Runtime.{Runtime}
use railsentinel.Ats.SafetyGuard.{SafetyGuard, authorize}
use railsentinel.Ats.Topology.{get_section, get_crossing}
use railsentinel.Ats.Topology.Network.{TrackSection}
use railsentinel.Ats.Fleet.{TrainState, TrainPosition, upsert, in_sections}
use railsentinel.Ats.Tsp.{new, evaluate}
use railsentinel.Ats.Tsp.Types.{TspDecision, decided, request_grant, red_truncation, Eta}
use railsentinel.Ats.Tsp.Eligible.{IsEligible, evaluate-IsEligible}
use railsentinel.Ats.Tsp.Debounce.{evaluated, released, decisions, debounced}
use railsentinel.Ats.Fleet.Presence.{IsIn, upsert_all, silent_train_stays}
use railsentinel.Ats.Intrusion.{handle, is_urgent}
use railsentinel.Ats.Intrusion.Types.{IntrusionHandler, OpenIncident, Draw}
use railsentinel.Contracts.Payloads.{IntrusionData, person, debris, onset, cleared}
use railsentinel.Ats.Intrusion.Release.{operator_clear}
use railsentinel.Ats.Intrusion.Urgent.{IsAnswered, handle-IsAnswered}
use railsentinel.Ats.Intrusion.Clearing.{IsResumed, clear_overrides}

abbrev runtime : Runtime
runtime = record { to_iso = λ n. "noon"; to_base36 = λ n. "z"; date_parse = λ t. some 0 }

abbrev guard : SafetyGuard
guard = railsentinel.Ats.SafetyGuard.new

-- a tram two minutes late, 100 metres before the end of its section at 30 km/h
abbrev late_tram : TrainState
late_tram = record {
  position = record {
    train_id = "VLT-01";
    section_id = "L2-S13";
    chainage_m = some 1300;
    speed_kmh = 30;
    schedule_dev_s = some (pos 120);
  };
  updated_at = "noon";
  linear_pos_m = 0;
  stale = false;
}

abbrev decision : TspDecision
decision = record {
  crossing_id = "XC-CAMPOS-MELLO";
  train_id = "VLT-01";
  action = request_grant;
  ntcip_strategy = some red_truncation;
  decided_at = "noon";
}

abbrev eta : Eta
eta = record { num = pos 1_800; den = 150 }

is_decided :
    (evaluate runtime new guard late_tram sil2 "m1" 5_000).0 ≡ decided decision eta "VLT-01-z"
unfolding evaluate get_section get_crossing ◌*ℤ◌ ◌-ℤ◌ authorize
is_decided = refl

evaluate-IsEligible_example :
    IsEligible new late_tram sil2 5_000
      (evaluate runtime new guard late_tram sil2 "m1" 5_000).1
      decision
      eta
      "VLT-01-z"
evaluate-IsEligible_example =
    evaluate-IsEligible runtime new guard late_tram sil2 "m1" 5_000 decision eta "VLT-01-z"
      is_decided

debounced_example :
    let (e, t', g') = evaluate runtime new guard late_tram sil2 "m1" 5_000 in
    All
      (λ d'. d'.crossing_id ≢ "XC-CAMPOS-MELLO")
      (decisions runtime t' g' (
        evaluated late_tram sil2 "m2" 6_000
        ∷ released "XC-CAMPOS-MELLO"
        ∷ evaluated late_tram sil2 "m3" 24_999
        ∷ []))
debounced_example =
    debounced runtime new guard late_tram sil2 "m1" 5_000 decision eta "VLT-01-z"
      (evaluated late_tram sil2 "m2" 6_000
        ∷ released "XC-CAMPOS-MELLO"
        ∷ evaluated late_tram sil2 "m3" 24_999
        ∷ [])
      is_decided (omega arith, (tt, (omega arith, tt)))

abbrev draw : Draw
draw = record { incident = "INC-2"; restriction = "TSR-2"; alarm = "A-2"; now = 5_000 }

-- of the class `basic`
abbrev seen : IntrusionData → Message IntrusionData
seen d = record {
  env = record {
    id = "m1";
    seq = 1;
    boot = 1;
    ts = "noon";
    src = "urn:vlt:cam1";
    line = none;
    zone = none;
    type = "vlt.edge.intrusion.v1";
    class = basic;
    sev = critical;
    corr = none;
  };
  payload = d;
  sig = none;
}

abbrev person_seen : Message IntrusionData
person_seen = seen (record {
  state = onset;
  object_class = person;
  conf = 470;
  section_id = "L2-S13";
  gauge_margin_mm = none;
  dwell_ms = some 0;
  detector_model = "yolo";
})

abbrev debris_cleared : Message IntrusionData
debris_cleared = seen (record {
  state = cleared;
  object_class = debris;
  conf = 900;
  section_id = "L2-S13";
  gauge_margin_mm = none;
  dwell_ms = some 0;
  detector_model = "yolo";
})

abbrev of_12 : OpenIncident
of_12 = record {
  incident_id = "INC-0";
  restriction_id = "TSR-0";
  alarm_id = "A-0";
  crossings = "XC-F-GLICERIO" ∷ "XC-ANA-COSTA" ∷ "XC-CONSTITUICAO" ∷ [];
}

abbrev of_13 : OpenIncident
of_13 = record {
  incident_id = "INC-1";
  restriction_id = "TSR-1";
  alarm_id = "A-1";
  crossings = "XC-CAMPOS-MELLO" ∷ "XC-F-GLICERIO" ∷ "XC-ANA-COSTA" ∷ [];
}

abbrev handler : IntrusionHandler
handler = record {
  guard = guard;
  tsp = record new { inhibited = ("XC-F-GLICERIO", "incidente INC-0") ∷ [] };
  open_incidents = ("L2-S12", of_12) ∷ ("L2-S13", of_13) ∷ [];
}

abbrev section_13 : TrackSection
section_13 = record {
  id = "L2-S13";
  line = railsentinel.Contracts.Types.l2;
  name = "Francisco Glicerio - Campos Mello";
  length_m = 1400;
  street_running = true;
  line_speed_kmh = 25;
  next = some "L2-S14";
  crossing_id = some "XC-CAMPOS-MELLO";
  stop_id = some "F-GLICERIO";
}

handle-IsAnswered_example :
    IsAnswered person_seen section_13
      (handle runtime draw handler [] person_seen).0
      (handle runtime draw handler [] person_seen).1
unfolding is_urgent get_section
handle-IsAnswered_example =
    handle-IsAnswered runtime draw handler [] person_seen section_13 refl (omega arith) refl refl

clear_overrides_example :
    (Map.get (operator_clear handler "L2-S12").1.open_incidents "L2-S13" ≡ some of_13)
    × IsResumed (operator_clear handler "L2-S12").1.tsp "XC-F-GLICERIO"
unfolding Map.get
clear_overrides_example =
    clear_overrides handler "L2-S12" "L2-S13" "XC-F-GLICERIO" of_12 of_13 refl refl
      (λ p. ground (arith, (eq_iff "L2-S12" "L2-S13").1 p)) refl refl

abbrev position : String → TrainPosition
position id = record {
  train_id = id;
  section_id = "L2-S13";
  chainage_m = some 400;
  speed_kmh = 0;
  schedule_dev_s = none;
}

other : ◌≢◌ {A = String} "VLT-02" "VLT-01"
other p = ground (arith, (eq_iff "VLT-02" "VLT-01").1 p)

silent_train_stays_example :
    let (state, fleet') = upsert [] (position "VLT-01") "noon" in
    IsIn
      (record state { stale = true })
      (in_sections runtime
        (upsert_all fleet' (record { position = position "VLT-02"; at = "later" } ∷ []))
        ("L2-S13" ∷ "L2-S12" ∷ [])
        60_000)
silent_train_stays_example =
    silent_train_stays runtime [] (position "VLT-01") "noon"
      (record { position = position "VLT-02"; at = "later" } ∷ []) ("L2-S13" ∷ "L2-S12" ∷ []) 60_000
      (other, tt) refl
