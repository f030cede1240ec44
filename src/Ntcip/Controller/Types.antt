-- ===== src/Ntcip/Controller/Types.antt =====
-- services/ntcip-emulator/src/controller.ts: the types of a controller and of its requests.
use railsentinel.Prelude.{ℕ, String, List, Option, none, some, Bool, true, false, ◌==◌}
use railsentinel.Prelude.Int.{ℤ}

pub data PhaseColor : Type 0 where
  green yellow all_red : PhaseColor

abbrev pub is_green : PhaseColor → Bool
is_green green = true
is_green _ = false

pub record PhaseConfig : Type 0 where
  pub phase : ℕ
  pub min_green : ℕ
  pub max_green : ℕ
  pub yellow_s : ℕ
  pub all_red_s : ℕ
  pub split_green : ℕ
  pub label : String

pub record ControllerState : Type 0 where
  pub active_phase : ℕ
  pub color : PhaseColor
  pub elapsed : ℕ
  pub cycle_count : ℕ
  -- `none` is NaN
  pub granted_extension : Option ℤ
  pub pending_call : Option ℕ
  pub pending_force_off : Bool

-- As `JSON.parse` gives it, not validated: `none` is a phase or a strategy that is no natural number, an
-- id that is missing, and an extension that is missing or no number. Fractions are left out.
pub record PriorityRequest : Type 0 where
  pub phase : Option ℕ
  pub strategy : Option ℕ
  pub vehicle_class : Option ℕ
  pub request_id : Option String
  pub max_extension : Option ℤ

-- `===` with a number
abbrev pub is_number : Option ℕ → ℕ → Bool
is_number none n = false
is_number (some m) n = m == n

pub data DenialReason : Type 0 where
  no_such_phase : Option ℕ → DenialReason
  phase_not_green max_green_reached phase_already_active phase_already_green : DenialReason

pub data GrantEffect : Type 0 where
  green_extended : Option ℤ → GrantEffect
  force_off_then_called : ℕ → GrantEffect
  called_next : ℕ → GrantEffect

pub data GrantOutcome : Type 0 where
  granted : ℕ → GrantEffect → ℕ → GrantOutcome
  denied : DenialReason → GrantOutcome

abbrev pub is_granted : GrantOutcome → Bool
is_granted (granted strategy effect delay) = true
is_granted (denied reason) = false

pub record SignalController : Type 0 where
  pub id : String
  pub phases : List PhaseConfig
  pub state : ControllerState
  pub cross_street_debt : List (Option ℤ)
  pub served_requests : ℕ
  pub denied_requests : ℕ
