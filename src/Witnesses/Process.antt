-- ===== src/Witnesses/Process.antt =====
-- The process of the supervision and its regulation at concrete inputs, for services/ats-core/src.
use railsentinel.Prelude.{
  ℕ, ◌+◌, ◌≡◌, refl, String, List, [], ◌∷◌, ◌++◌, keep, length, not, map, if◌then◌else◌, Option,
  none, some, Bool, true, false,
}
use railsentinel.Contracts.Types.{l2, Envelope, sil2, info}
use railsentinel.Contracts.Payloads.{sustained, car}
use railsentinel.Leader.Election.{Lease}
use railsentinel.Leader.LeaseHolder.{LeaseHolder, answered}
use railsentinel.Ats.Runtime.{Runtime}
use railsentinel.Ats.SafetyGuard
use railsentinel.Ats.Tsp
use railsentinel.Ats.Tsp.Types.{green}
use railsentinel.Ats.Fleet.{TrainState}
use railsentinel.Ats.Traversal.{traversal_time_ms}
use railsentinel.Ats.Traversal.Ends.{traversal_time_ms-Returns}
use railsentinel.Ats.Headway
use railsentinel.Ats.Headway.{HeadwayRegulator, regulate}
use railsentinel.Ats.Headway.Setpoint.{line_2, cycle_time_ms, resolve_setpoint}
use railsentinel.Ats.Headway.Bounds.{Regulates, two_or_none, regulate-Regulates}
use railsentinel.Ats.Intrusion.Types.{Draw}
use railsentinel.Ats.Process.Bus.{HealthData, offline, ok, topic_of}
use railsentinel.Ats.Process.{AtsCore}
use railsentinel.Ats.Process.Dispatch.{Decoder, Event, message, regulation_due, lease_answer, run}
use railsentinel.Ats.Process.Standby.{learn, said, bus_events, run-Refines}

-- Of 5000 m from 7000 m on, on the loop of 8400 m: 20 s at each of the six stops entered on the way
traversal_time_ms-Returns_example : (t : ℕ) × (traversal_time_ms l2 7000 5000 20_000 ≡ some t)
traversal_time_ms-Returns_example = traversal_time_ms-Returns l2 7000 5000 20_000

abbrev at_pos : String → ℕ → Bool → TrainState
at_pos id m stale = record {
  position = record {
    train_id = id;
    section_id = "L2-S11";
    chainage_m = none;
    speed_kmh = 20;
    schedule_dev_s = none;
  };
  updated_at = "";
  linear_pos_m = m;
  stale = stale;
}

-- Two trams close to each other, one far away, and one whose position is old
abbrev bunched : List TrainState
bunched =
    at_pos "VLT-07" 100 false
    ∷ at_pos "VLT-09" 300 true
    ∷ at_pos "VLT-12" 400 false
    ∷ at_pos "VLT-19" 4000 false
    ∷ []

regulate-Regulates_example :
    let active = keep (λ (t : TrainState). not t.stale) bunched in
    Regulates Headway.new (two_or_none active) (regulate Headway.new line_2 bunched 50_000)
regulate-Regulates_example = regulate-Regulates Headway.new line_2 bunched 50_000 tt

-- The cycle of line 2 counts 30 s at each of its seven stops, and its share for three trams is 474 s. A
-- lap from the start of a section to itself counts only the six stops in between.
cycle_of_line_2 :
    (cycle_time_ms line_2 ≡ 1_423_200)
    × (((resolve_setpoint line_2 3).setpoint_s ≡ some 474)
        × (traversal_time_ms l2 0 8400 30_000 ≡ some 1_393_200))
unfolding cycle_time_ms resolve_setpoint traversal_time_ms
    railsentinel.Ats.Topology.ordered_sections railsentinel.Ats.Topology.line_length_m
cycle_of_line_2 = (refl, (refl, refl))

abbrev runtime : Runtime
runtime = record { to_iso = λ n. "noon"; to_base36 = λ n. "z"; date_parse = λ t. some 0 }

abbrev from_edge : Envelope
from_edge = record {
  id = "m1";
  seq = 1;
  boot = 1;
  ts = "noon";
  src = "edge:jetson:XC-ANA-COSTA-01";
  line = some l2;
  zone = none;
  type = "vlt.edge.health.v1";
  class = sil2;
  sev = info;
  corr = none;
}

abbrev report : String → HealthData
report text = record {
  status = if railsentinel.Prelude.str_eq text "ok" then ok else offline;
  fps_tenths = none;
  camera_link = none;
  reason = none;
}

-- A payload is its own reading: a report of health is the word of its status.
abbrev decoder : Decoder String
decoder = record {
  parse = λ text. some text;
  as_intrusion = λ text. record {
    env = from_edge;
    payload = record {
      state = sustained;
      object_class = car;
      conf = 940;
      section_id = text;
      gauge_margin_mm = none;
      dwell_ms = some 900;
      detector_model = "railguard-yolo";
    };
    sig = none;
  };
  as_health = λ text. record { env = from_edge; payload = report text; sig = none };
  as_position =
      λ text. record { env = from_edge; payload = (at_pos text 0 false).position; sig = none };
  as_section_id = λ text. text;
  as_operator_id = λ text. some "OP-4471";
  as_state = λ text now. record {
    crossing_id = text;
    active_phase = 2;
    color = green;
    seconds_until_vlt_green = 0;
    granted_extension_s = 0;
    cross_street_debt_s = 0;
    at = now;
  };
  as_grant = λ text. record {
    crossing_id = text;
    request_id = "r";
    granted = true;
    reason = none;
    effect = none;
    delay_seconds = none;
  };
}

abbrev standby : AtsCore
standby = record {
  leader = record {
    role = "ats-core";
    holder_id = "ats-1";
    lease_duration_ms = 15_000;
    renew_interval_ms = 5_000;
    retry_interval_ms = 3_000;
    epoch = none;
    timer = none;
    stopped = false;
    ever_notified = false;
    notified = [];
  };
  know = record {
    fleet = [];
    regulator = Headway.new;
    intrusion = record { guard = SafetyGuard.new; tsp = Tsp.new; open_incidents = [] };
    edge_health = [];
    infeasibility_reported = [];
  };
  published = [];
}

abbrev lease : Lease
lease = record { role = "ats-core"; holder = "ats-1"; epoch = 3; acquired_at = 0; expires_at = 15 }

abbrev drawn : Draw
drawn = record { incident = "INC-1"; restriction = "TSR-1"; alarm = "ALM-1"; now = 1000 }

-- An intrusion seen in standby, then the lead, the loss of a node, and the release of the section
abbrev events : List Event
events =
    message "core/evt/intrusion" "L2-S11" drawn
    ∷ message "core/evt/edge_health" "ok" drawn
    ∷ lease_answer (answered (some lease))
    ∷ message "core/evt/edge_health" "offline" drawn
    ∷ message "core/tlm/train_position" "VLT-07" drawn
    ∷ regulation_due 2000
    ∷ message "core/cmd/operator/clear_section" "L2-S11" drawn
    ∷ []

run-Refines_example :
    ((run runtime decoder standby events).know
      ≡ learn runtime decoder standby.know (bus_events events))
    × ((run runtime decoder standby events).published
        ≡ standby.published ++ said runtime decoder standby.leader standby.know events)
run-Refines_example = run-Refines runtime decoder standby events

-- A node is lost before the lead and again under it: only the second loss gets out.
abbrev losses : List Event
losses =
    message "core/evt/edge_health" "ok" drawn
    ∷ message "core/evt/edge_health" "offline" drawn
    ∷ lease_answer (answered (some lease))
    ∷ message "core/evt/edge_health" "ok" drawn
    ∷ message "core/evt/edge_health" "offline" drawn
    ∷ []

topics_of_losses :
    map topic_of (run runtime decoder standby losses).published
    ≡ "core/evt/operator_alarm" ∷ "core/sta/system" ∷ []
unfolding run topic_of railsentinel.Leader.LeaseHolder.is_leader
    railsentinel.Leader.LeaseHolder.receive_answer railsentinel.Prelude.Map.get
    railsentinel.Prelude.Map.set
topics_of_losses = refl

-- a crossing without priority and a section with an incident, and what does not clear them
abbrev closed : AtsCore
closed = record standby {
  know = record (standby.know) {
    intrusion = record {
      guard = SafetyGuard.new;
      tsp = record Tsp.new { inhibited = ("XC-ANA-COSTA", "person on the track") ∷ [] };
      open_incidents =
          (
            "L2-S11",
            record {
              incident_id = "INC-1";
              restriction_id = "TSR-1";
              alarm_id = "ALM-1";
              crossings = "XC-ANA-COSTA" ∷ [];
            },
          )
          ∷ [];
    };
  };
}

abbrev later_events : List Event
later_events =
    message "core/evt/edge_health" "offline" drawn
    ∷ message "core/tlm/train_position" "VLT-07" drawn
    ∷ message "core/evt/intrusion" "L2-S11" drawn
    ∷ regulation_due 2000
    ∷ []
