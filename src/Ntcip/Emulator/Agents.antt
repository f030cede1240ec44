-- ===== src/Ntcip/Emulator/Agents.antt =====
-- services/ntcip-emulator/src/main.ts: the emulated controllers, what their agents show, and what is
-- published of them.
use railsentinel.Prelude.{
  ℕ, String, List, [], ◌∷◌, Option, some, Bool, ◌==◌, get_elem?, if◌then◌else◌, ◌>>=◌,
}
use railsentinel.Prelude.Int.{ℤ, pos}
use railsentinel.Ntcip.Controller.{new, plus}
use railsentinel.Ntcip.Controller.Types.{
  PhaseColor, green, yellow, all_red, PhaseConfig, PriorityRequest, GrantOutcome, SignalController,
}
use railsentinel.Ntcip.Controller.Forecast.{seconds_until_green}

abbrev pub vlt_plan : ℕ → PhaseConfig
vlt_plan vlt_phase = record {
  phase = vlt_phase;
  min_green = 8;
  max_green = 45;
  yellow_s = 3;
  all_red_s = 2;
  split_green = 22;
  label = "longitudinal VLT";
}

abbrev pub cross_plan : ℕ → PhaseConfig
cross_plan vlt_phase = record {
  phase = if vlt_phase == 2 then 4 else 2;
  min_green = 12;
  max_green = 50;
  yellow_s = 3;
  all_red_s = 2;
  split_green = 28;
  label = "transversal";
}

abbrev pub pedestrian_plan : PhaseConfig
pedestrian_plan = record {
  phase = 8;
  min_green = 7;
  max_green = 25;
  yellow_s = 3;
  all_red_s = 2;
  split_green = 12;
  label = "pedestre/conversao";
}

-- The plan of times of a crossing, by the phase of the tram
unfoldable pub standard_phases : ℕ → List PhaseConfig
standard_phases vlt_phase = vlt_plan vlt_phase ∷ cross_plan vlt_phase ∷ pedestrian_plan ∷ []

abbrev pub color_code : PhaseColor → ℕ
color_code green = 1
color_code yellow = 2
color_code all_red = 3

abbrev pub same_color : PhaseColor → PhaseColor → Bool
same_color a b = color_code a == color_code b

-- What an agent shows at its OIDs; `none` is NaN
pub record Registers : Type 0 where
  pub prs_active_phase : ℕ
  pub prs_active_color : ℕ
  pub phase_status_group_greens : ℕ
  pub phase_status_group_yellows : ℕ
  pub phase_status_group_reds : ℕ
  pub prs_seconds_until_green : Option ℕ

-- A controller, the port of its agent, and what the agent shows
pub record Entry : Type 0 where
  pub port : ℕ
  pub ctl : SignalController
  pub shown : Registers

-- A number that is NaN is written as `null`.
pub record StateMessage : Type 0 where
  pub crossing_id : String
  pub active_phase : ℕ
  pub color : PhaseColor
  pub elapsed_s : ℕ
  pub cycle : ℕ
  pub vlt_phase : ℕ
  pub seconds_until_vlt_green : Option ℕ
  pub granted_extension_s : Option ℤ
  pub served : ℕ
  pub denied : ℕ
  pub cross_street_debt_s : Option ℤ
  pub port : ℕ

pub record GrantMessage : Type 0 where
  pub crossing_id : String
  pub request_id : Option String
  pub at : String
  pub outcome : GrantOutcome
  pub seconds_until_green : Option ℕ

pub data Sent : Type 0 where
  state : StateMessage → Sent
  grant : GrantMessage → Sent

abbrev pub if_color : PhaseColor → SignalController → ℕ
if_color color ctl = if same_color ctl.state.color color then ctl.state.active_phase else 0

abbrev pub registers : SignalController → Option ℕ → Registers
registers ctl seconds = record {
  prs_active_phase = ctl.state.active_phase;
  prs_active_color = color_code ctl.state.color;
  phase_status_group_greens = if_color green ctl;
  phase_status_group_yellows = if_color yellow ctl;
  phase_status_group_reds = if_color all_red ctl;
  prs_seconds_until_green = seconds;
}

-- `refresh`: the first phase of the plan is the tram's
unfoldable pub refresh : SignalController → Option Registers
refresh ctl = do
  first ← get_elem? ctl.phases 0
  seconds ← seconds_until_green ctl (some first.phase)
  some (registers ctl seconds)

abbrev pub sum : List (Option ℤ) → Option ℤ
sum [] = some (pos 0)
sum (n ∷ ns) = plus n (sum ns)

abbrev pub state_message : ℕ → SignalController → (vlt_phase : ℕ) → Option ℕ → StateMessage
state_message port ctl vlt_phase seconds = record {
  crossing_id = ctl.id;
  active_phase = ctl.state.active_phase;
  color = ctl.state.color;
  elapsed_s = ctl.state.elapsed;
  cycle = ctl.state.cycle_count;
  vlt_phase = vlt_phase;
  seconds_until_vlt_green = seconds;
  granted_extension_s = ctl.state.granted_extension;
  served = ctl.served_requests;
  denied = ctl.denied_requests;
  cross_street_debt_s = sum ctl.cross_street_debt;
  port = port;
}

abbrev pub grant_message :
    String → String → PriorityRequest → GrantOutcome → Option ℕ → GrantMessage
grant_message id at req outcome seconds = record {
  crossing_id = id;
  request_id = req.request_id;
  at = at;
  outcome = outcome;
  seconds_until_green = seconds;
}

-- The agent is refreshed, and the state is published.
unfoldable pub publish_state : ℕ → SignalController → Option (Entry × StateMessage)
unfolding refresh
publish_state port ctl = do
  first ← get_elem? ctl.phases 0
  shown ← refresh ctl
  seconds ← seconds_until_green ctl (some first.phase)
  some
      (record { port = port; ctl = ctl; shown = shown }, state_message port ctl first.phase seconds)

-- A controller at its port, with the agent's first refresh
unfoldable pub emulated : ℕ → String → ℕ → Option Entry
unfolding refresh standard_phases
emulated port id vlt_phase = do
  ctl ← new id (standard_phases vlt_phase)
  shown ← refresh ctl
  some (record { port = port; ctl = ctl; shown = shown })

unfoldable pub start : Option (List Entry)
unfolding emulated
start = do
  a ← emulated 1161 "XC-ANA-COSTA" 2
  b ← emulated 1162 "XC-F-GLICERIO" 4
  c ← emulated 1163 "XC-CAMPOS-MELLO" 2
  d ← emulated 1164 "XC-JOAO-PESSOA" 6
  e ← emulated 1165 "XC-CONSTITUICAO" 2
  some (a ∷ b ∷ c ∷ d ∷ e ∷ [])
