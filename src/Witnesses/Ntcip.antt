-- ===== src/Witnesses/Ntcip.antt =====
-- A controller of two phases, for services/ntcip-emulator/src/controller.ts.
use railsentinel.Prelude.{
  Option, String, ℕ, true, str_eq, if◌then◌else◌, ◌>>=◌, ◌≡◌, ◌≢◌, refl, List, [], ◌∷◌, none, some,
  false, All, ◌≤◌, ◌<◌, arith,
}
use railsentinel.Prelude.Int.{ℤ, pos, negsuc, ◌+ℤ◌, ◌-ℤ◌}
use railsentinel.Ntcip.Controller.{
  apply_at, green_room, green_limit, plus, seconds_granted, new, next_phase, place_after,
  tick_color, tick, apply_priority_request, phase_config,
}
use railsentinel.Ntcip.Controller.Types.{
  PhaseColor, PhaseConfig, SignalController, PriorityRequest, granted, force_off_then_called, green,
  yellow, all_red, is_green,
}
use railsentinel.Ntcip.Controller.Sound.{IsSound, IsWellTimed}
use railsentinel.Ntcip.Controller.Sound.Ring.{Configured}
use railsentinel.Ntcip.Controller.Requests.{Answers, apply_priority_request-Answers}
use railsentinel.Ntcip.Controller.Safety.{tick_intervals, least_interval, color_after}
use railsentinel.Ntcip.Controller.Runs.{time_passes, requested, run, run-IsSound}
use railsentinel.Ntcip.Controller.Truncation.{
  truncation_served, truncation_leaks, seconds_pass, Serves,
}
use railsentinel.Ntcip.Controller.Forecast.{seconds_until_green}
use railsentinel.Ntcip.Emulator
use railsentinel.Ntcip.Emulator.Agents.{Entry, start}
use railsentinel.Ntcip.Emulator.Sound.{IsServed, run_from_start}

abbrev cross_street : PhaseConfig
cross_street = record {
  phase = 2;
  min_green = 8;
  max_green = 40;
  yellow_s = 4;
  all_red_s = 2;
  split_green = 30;
  label = "cross street";
}

abbrev tram : PhaseConfig
tram = record {
  phase = 4;
  min_green = 6;
  max_green = 30;
  yellow_s = 4;
  all_red_s = 2;
  split_green = 20;
  label = "tram";
}

abbrev plan : List PhaseConfig
plan = cross_street ∷ tram ∷ []

abbrev with_color : PhaseColor → ℕ → SignalController
with_color color elapsed = record {
  id = "XC";
  phases = plan;
  state = record {
    active_phase = 2;
    color = color;
    elapsed = elapsed;
    cycle_count = 0;
    granted_extension = some (pos 0);
    pending_call = none;
    pending_force_off = false;
  };
  cross_street_debt = [];
  served_requests = 0;
  denied_requests = 0;
}

cross_street_timed : IsWellTimed cross_street
cross_street_timed = record {
  min-le-split = omega arith;
  split-le-max = omega arith;
  green_some = omega arith;
}

plan_timed : All IsWellTimed plan
plan_timed = (
  cross_street_timed,
  (record { min-le-split = omega arith; split-le-max = omega arith; green_some = omega arith }, tt),
)

abbrev early_green : IsSound (with_color green 3)
early_green = record {
  cfg = cross_street;
  active = unfold phase_config in refl;
  timed = plan_timed;
  fits = record {
    extension = 0;
    extended = refl;
    room = omega arith;
    no_extension = λ _. refl;
    green_capped = λ _. omega arith;
  };
}

not_green : is_green all_red ≡ true → 1 < cross_street.max_green
not_green g = absurd (ground arith)

abbrev clearing : IsSound (with_color all_red 1)
clearing = record {
  cfg = cross_street;
  active = unfold phase_config in refl;
  timed = plan_timed;
  fits = record {
    extension = 0;
    extended = refl;
    room = omega arith;
    no_extension = λ _. refl;
    green_capped = λ g. not_green g;
  };
}

abbrev truncation : PriorityRequest
truncation = record {
  phase = some 4;
  strategy = some 3;
  vehicle_class = some 6;
  request_id = some "T1";
  max_extension = some (pos 10);
}

abbrev tram_configured : Configured plan 4
tram_configured = (tram, unfold phase_config in refl)

tram_elsewhere : ◌≢◌ {A = ℕ} 2 4
tram_elsewhere = λ p. omega arith

after_tick :
    tick (with_color all_red 1) 1
    ≡ some (record (with_color green 0) {
      state = record ((with_color green 0).state) { active_phase = 4 };
    })
unfolding tick next_phase phase_config place_after tick_color
after_tick = refl

tick_intervals_example :
    (least_interval all_red cross_street ≤ 2) × (green ≡ color_after all_red) × (◌≡◌ {A = ℕ} 0 0)
tick_intervals_example =
    tick_intervals (with_color all_red 1) 1
      (record (with_color green 0) {
        state = record ((with_color green 0).state) { active_phase = 4 };
      })
      clearing after_tick (λ p. ground arith)

run-IsSound_example :
    (c' : SignalController) × (run
        (with_color green 3)
        (requested truncation ∷ time_passes 5 ∷ time_passes 4 ∷ [])
      ≡ some c')
    × IsSound c'
run-IsSound_example =
    run-IsSound (with_color green 3) (requested truncation ∷ time_passes 5 ∷ time_passes 4 ∷ [])
      ((λ two. absurd (ground arith)), (tt, (tt, tt))) early_green

apply_priority_request-Answers_example :
    Answers (with_color green 3) (apply_priority_request (with_color green 3) truncation)
apply_priority_request-Answers_example =
    apply_priority_request-Answers (with_color green 3) truncation (λ two. absurd (ground arith))
      early_green

truncation_served_example :
    (delay : ℕ) × (c' c'' : SignalController) × (apply_priority_request
        (with_color green 3)
        truncation
      ≡ some (granted 3 (force_off_then_called 4) delay, c'))
    × (seconds_pass delay c' ≡ some c'')
    × Serves 4 c''
truncation_served_example =
    truncation_served (with_color green 3) truncation 4 early_green refl refl tram_elsewhere
      tram_configured refl (omega arith) (omega arith) (omega arith)

truncation_leaks_example :
    (delay : ℕ) × (c' c'' c₃ : SignalController) × (apply_priority_request
        (with_color all_red 1)
        truncation
      ≡ some (granted 3 (force_off_then_called 4) delay, c'))
    × (tick c' 1 ≡ some c'')
    × Serves 4 c''
    × (tick c'' 7 ≡ some c₃)
    × (c₃.state.color ≡ yellow)
truncation_leaks_example =
    truncation_leaks (with_color all_red 1) truncation 4 clearing refl refl tram_elsewhere
      tram_configured 1 7 refl (omega arith) (omega arith)

-- an extension of the tram's green at the crossing of the Ana Costa
abbrev extension : Option ℤ → PriorityRequest
extension seconds = record {
  phase = some 2;
  strategy = some 2;
  vehicle_class = some 6;
  request_id = none;
  max_extension = seconds;
}

-- what some payloads are read as
abbrev read_call : String → Emulator.Reading
read_call payload =
    if str_eq payload "null"
    then Emulator.null
    else if str_eq payload "20"
    then Emulator.request (extension (some (pos 20)))
    else if str_eq payload "-20"
    then Emulator.request (extension (some (negsuc 19)))
    else if str_eq payload "{}"
    then Emulator.request (extension none)
    else Emulator.not_json

abbrev emulator_events : List Emulator.Event
emulator_events =
    Emulator.timer
    ∷ Emulator.message "ntcip/XC-ANA-COSTA/priority_request" "20" "noon"
    ∷ Emulator.message "ntcip/XC-VALONGO/query" "" "noon"
    ∷ Emulator.timer
    ∷ []

run_from_start_example :
    (es : List Entry) × (start ≡ some es) × IsServed (Emulator.run read_call 5 es emulator_events)
run_from_start_example =
    run_from_start read_call 5 emulator_events (tt, ((λ _. (20, refl)), (tt, (tt, tt))))

-- A request that is not fair: an extension by -28 s ends the green of the first phase after 2 s of its
-- least green of 8 s, and one that is missing keeps it green beyond the maximum.
cut_green :
    (apply_priority_request (with_color green 1) (extension (some (negsuc 27)))
      >>= (λ (out, c). tick c 1)
      >>= λ c. some c.state.color)
    ≡ some yellow
unfolding apply_priority_request tick tick_color phase_config ◌+ℤ◌ ◌-ℤ◌ apply_at green_room
    green_limit plus seconds_granted
cut_green = refl

endless_green :
    (apply_priority_request (with_color green 1) (extension none)
      >>= (λ (out, c). tick c 1_000)
      >>= λ c. some c.state.color)
    ≡ some green
unfolding apply_priority_request tick tick_color phase_config ◌+ℤ◌ ◌-ℤ◌ apply_at green_room
    green_limit plus seconds_granted
endless_green = refl

null_payload :
    (start >>= λ es.
    Emulator.on_message read_call "ntcip/XC-ANA-COSTA/priority_request" "null" "noon" es)
    ≡ none
unfolding start Emulator.on_message new seconds_until_green
null_payload = refl

-- The topics of commands, and what is none
commands_of_topics :
    (Emulator.command_of "ntcip/XC-VALONGO/query" ≡ some ("XC-VALONGO", Emulator.query))
    × ((Emulator.command_of "ntcip//query" ≡ none)
        × (Emulator.command_of "ntcip/XC-VALONGO/state" ≡ none))
unfolding Emulator.command_of
commands_of_topics = (refl, (refl, refl))
