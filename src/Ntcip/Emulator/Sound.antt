-- ===== src/Ntcip/Emulator/Sound.antt =====
-- services/ntcip-emulator/src/main.ts: no message and no tick is ever a fault.
use railsentinel.Prelude.{
  ℕ, zero, suc, ◌+◌, ◌%◌, ◌≤◌, ◌<◌, ◌≡◌, refl, inl, inr, String, List, [], ◌∷◌, ◌++◌, Option, none,
  some, str_eq, ◌&&◌, get_elem?, length, All, arith, Bool-cases,
}
use railsentinel.Ntcip.Controller.{place_after}
use railsentinel.Ntcip.Controller.Types.{PhaseConfig, SignalController, is_green, is_number}
use railsentinel.Ntcip.Controller.Forecast.{later, ring_wait, interval_left, seconds_until_green}
use railsentinel.Ntcip.Controller.Sound.{IsSound, IsWellTimed, tick-IsSound}
use railsentinel.Ntcip.Controller.Sound.Ring.{get_elem?_total, place_in_range, first_exists}
use railsentinel.Ntcip.Controller.Requests.{IsFair, apply_priority_request-Answers}
use railsentinel.Ntcip.Controller.Runs.{new-IsSound}
use railsentinel.Ntcip.Emulator.{
  Kind, Reading, not_json, null, request, serve, answer_query, answer_request, answer_parsed,
  tick_all, on_command, on_message, command_of, Event, message, timer, step, run,
}
use railsentinel.Ntcip.Emulator.Agents.{
  vlt_plan, cross_plan, pedestrian_plan, standard_phases, registers, state_message, grant_message,
  Entry, StateMessage, Sent, publish_state, emulated, start,
}

ring_wait-Returns :
    (phases : List PhaseConfig) (phase : Option ℕ) (place k : ℕ) (total : Option ℕ)
    {first : PhaseConfig}
    → get_elem? phases 0 ≡ some first
    → (n : Option ℕ) × (ring_wait phases phase place k total ≡ some n)
unfolding ring_wait
ring_wait-Returns phases phase place zero total e = (total, refl)
ring_wait-Returns phases phase place (suc k) total e =
    let (nxt, found) =
      get_elem?_total phases (place % length phases) (place_in_range phases place e) in
    elim (Bool-cases (is_number phase nxt.phase)) [
      | inl here ↦ (total, rw (found, here) refl)
      | inr there ↦
          let (n, returned) =
            ring_wait-Returns phases phase (place + 1) k
              (later total (nxt.split_green + nxt.yellow_s + nxt.all_red_s)) e in
          (n, rw (found, there, returned) refl)
    ]

seconds_until_green-Returns :
    (c : SignalController) (phase : Option ℕ)
    → IsSound c
    → (n : Option ℕ) × (seconds_until_green c phase ≡ some n)
unfolding seconds_until_green
seconds_until_green-Returns c phase s =
    elim (Bool-cases (is_number phase c.state.active_phase && is_green c.state.color)) [
      | inl now ↦ (some 0, rw now refl)
      | inr later ↦
          let (first, e) = first_exists c.phases c.state.active_phase (s.cfg, s.active) in
          let (n, returned) =
            ring_wait-Returns c.phases phase (place_after c.phases c.state.active_phase)
              (length c.phases) (interval_left c.state.color s.cfg c.state) e in
          (n, rw (later, s.active, returned) refl)
    ]

publish_state-Returns :
    (port : ℕ) (c : SignalController)
    → IsSound c
    → (e : Entry) × (msg : StateMessage) × (publish_state port c ≡ some (e, msg)) × IsSound e.ctl
unfolding publish_state
publish_state-Returns port c s =
    let (first, e) = first_exists c.phases c.state.active_phase (s.cfg, s.active) in
    let (n, returned) = seconds_until_green-Returns c (some first.phase) s in
    (
      record { port = port; ctl = c; shown = registers c n },
      state_message port c first.phase n,
      rw (e, returned) refl,
      s,
    )

abbrev pub AreSound : List Entry → Type 0
AreSound = All (λ e. IsSound e.ctl)

-- A result that is there, with sound controllers
abbrev pub IsServed : Option (List Entry × List Sent) → Type 0
IsServed o = (es : List Entry) × (sent : List Sent) × (o ≡ some (es, sent)) × AreSound es

abbrev pub IsAnswered : Option (Entry × List Sent) → Type 0
IsAnswered o = (e : Entry) × (sent : List Sent) × (o ≡ some (e, sent)) × IsSound e.ctl

serve-IsServed :
    (id : String) (f : Entry → Option (Entry × List Sent)) (es : List Entry)
    → ((e : Entry) → IsSound e.ctl → IsAnswered (f e))
    → AreSound es
    → IsServed (serve id f es)
unfolding serve
serve-IsServed id f [] answers s = ([], [], refl, tt)
serve-IsServed id f (e ∷ rest) answers s = elim (Bool-cases (str_eq e.ctl.id id)) [
  | inl here ↦
      let (e', sent, answered, s') = answers e s.0 in
      (e' ∷ rest, sent, rw (here, answered) refl, (s', s.1))
  | inr there ↦
      let (rest', sent, served, s') = serve-IsServed id f rest answers s.1 in
      (e ∷ rest', sent, rw (there, served) refl, (s.0, s'))
]

answer_query-IsAnswered : (e : Entry) → IsSound e.ctl → IsAnswered (answer_query e)
unfolding answer_query
answer_query-IsAnswered e s =
    let (e', msg, published, s') = publish_state-Returns e.port e.ctl s in
    (e', Sent.state msg ∷ [], rw published refl, s')

-- What the senders must keep to: a payload is not `null`, and an extension that is asked for is a natural
-- number.
abbrev pub IsFairReading : Reading → Type 0
IsFairReading not_json = Unit
IsFairReading null = ⊥
IsFairReading (request req) = IsFair req

answer_parsed-IsAnswered :
    (at : String) (reading : Reading) (e : Entry)
    → IsFairReading reading
    → IsSound e.ctl
    → IsAnswered (answer_parsed at reading e)
unfolding answer_request
answer_parsed-IsAnswered at not_json e fair s = (e, [], refl, s)
answer_parsed-IsAnswered at null e fair s = absurd fair
answer_parsed-IsAnswered at (request req) e fair s =
    let (out, c', applied, s', _, _, _) = apply_priority_request-Answers e.ctl req fair s in
    let (n, forecast) = seconds_until_green-Returns c' req.phase s' in
    let (e', msg, published, s'') = publish_state-Returns e.port c' s' in
    (
      e',
      Sent.grant (grant_message c'.id at req out n) ∷ Sent.state msg ∷ [],
      rw (applied, forecast, published) refl,
      s'',
    )

tick_all-IsServed : (accel : ℕ) (es : List Entry) → AreSound es → IsServed (tick_all accel es)
unfolding tick_all
tick_all-IsServed accel [] s = ([], [], refl, tt)
tick_all-IsServed accel (e ∷ rest) s =
    let (c', ticked, s') = tick-IsSound e.ctl accel s.0 in
    let (e', msg, published, s'') = publish_state-Returns e.port c' s' in
    let (rest', sent, served, s''') = tick_all-IsServed accel rest s.1 in
    (e' ∷ rest', Sent.state msg ∷ sent, rw (ticked, published, served) refl, (s'', s'''))

-- The plan of every tram phase can be kept.
standard_phases-IsWellTimed : (vlt_phase : ℕ) → All IsWellTimed (standard_phases vlt_phase)
unfolding standard_phases
standard_phases-IsWellTimed vlt_phase =
    let timed : (cfg : PhaseConfig)
        → cfg.min_green ≤ cfg.split_green
        → cfg.split_green ≤ cfg.max_green
        → 0 < cfg.max_green
        → IsWellTimed cfg =
      λ cfg a b c. record { min-le-split = a; split-le-max = b; green_some = c } in
    (
      timed (vlt_plan vlt_phase) (omega arith) (omega arith) (omega arith),
      (
        timed (cross_plan vlt_phase) (omega arith) (omega arith) (omega arith),
        (timed pedestrian_plan (omega arith) (omega arith) (omega arith), tt),
      ),
    )

emulated-IsSound :
    (port : ℕ) (id : String) (vlt_phase : ℕ)
    → (e : Entry) × (emulated port id vlt_phase ≡ some e) × IsSound e.ctl
unfolding emulated standard_phases
emulated-IsSound port id vlt_phase =
    let (c, built, s) =
      new-IsSound id (vlt_plan vlt_phase) (cross_plan vlt_phase ∷ pedestrian_plan ∷ [])
        (standard_phases-IsWellTimed vlt_phase) in
    let (first, e) = first_exists c.phases c.state.active_phase (s.cfg, s.active) in
    let (n, returned) = seconds_until_green-Returns c (some first.phase) s in
    (record { port = port; ctl = c; shown = registers c n }, rw (built, e, returned) refl, s)

on_command-IsServed :
    (parse : String → Reading) (command : Option (String × Kind)) (payload at : String)
    (es : List Entry)
    → IsFairReading (parse payload)
    → AreSound es
    → IsServed (on_command parse command payload at es)
unfolding on_command
on_command-IsServed parse none payload at es fair s = (es, [], refl, s)
on_command-IsServed parse (some (id, Kind.query)) payload at es fair s =
    serve-IsServed id answer_query es answer_query-IsAnswered s
on_command-IsServed parse (some (id, Kind.priority_request)) payload at es fair s =
    serve-IsServed id (answer_parsed at (parse payload)) es
      (λ e. answer_parsed-IsAnswered at (parse payload) e fair) s

module _ (parse : String → Reading) (accel : ℕ) where
  abbrev pub IsFairEvent : Event → Type 0
  IsFairEvent timer = Unit
  IsFairEvent (message topic payload at) = IsFairReading (parse payload)

  step-IsServed :
      (es : List Entry) (e : Event) → IsFairEvent e → AreSound es → IsServed (step parse accel es e)
  unfolding step on_message
  step-IsServed es timer fair s = tick_all-IsServed accel es s
  step-IsServed es (message topic payload at) fair s =
      on_command-IsServed parse (command_of topic) payload at es fair s

  run-IsServed :
      (es : List Entry) (events : List Event)
      → All IsFairEvent events
      → AreSound es
      → IsServed (run parse accel es events)
  unfolding run
  run-IsServed es [] fair s = (es, [], refl, s)
  run-IsServed es (e ∷ events) fair s =
      let (es', sent, stepped, s') = step-IsServed es e fair.0 s in
      let (es'', later, ran, s'') = run-IsServed es' events fair.1 s' in
      (es'', sent ++ later, rw (stepped, ran) refl, s'')

  -- The five controllers are set up, and whatever messages and ticks follow, with any clock, none of
  -- them is a fault, if no payload is the `null` of JSON and each extension that is asked for is a natural
  -- number: after them every controller's green is below the maximum of its phase, and its
  -- extensions fit below that maximum.
  pub run_from_start :
      (events : List Event)
      → All IsFairEvent events
      → (es : List Entry) × (start ≡ some es) × IsServed (run parse accel es events)
  unfolding start
  run_from_start events fair =
      let (a, built_a, sa) = emulated-IsSound 1161 "XC-ANA-COSTA" 2 in
      let (b, built_b, sb) = emulated-IsSound 1162 "XC-F-GLICERIO" 4 in
      let (c, built_c, sc) = emulated-IsSound 1163 "XC-CAMPOS-MELLO" 2 in
      let (d, built_d, sd) = emulated-IsSound 1164 "XC-JOAO-PESSOA" 6 in
      let (e, built_e, se) = emulated-IsSound 1165 "XC-CONSTITUICAO" 2 in
      let es = a ∷ b ∷ c ∷ d ∷ e ∷ [] in
      (
        es,
        rw (built_a, built_b, built_c, built_d, built_e) refl,
        run-IsServed es events fair (sa, (sb, (sc, (sd, (se, tt))))),
      )
