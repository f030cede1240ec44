-- ===== src/Ats/Tsp/Types.antt =====
-- services/ats-core/src/tsp.ts: the constants, and the types of the signal priority.
use railsentinel.Prelude.{ℕ, String, List, Option, Bool, true, false}
use railsentinel.Prelude.Int.{ℤ}
use railsentinel.Prelude.Map.{Map}

abbrev pub min_delay_for_priority_s : ℕ
min_delay_for_priority_s = 45

abbrev pub request_horizon_s : ℕ
request_horizon_s = 25

abbrev pub max_green_extension_s : ℕ
max_green_extension_s = 10

abbrev pub request_debounce_ms : ℕ
request_debounce_ms = 20_000

abbrev pub green_margin_s : ℕ
green_margin_s = 3

pub data Strategy : Type 0 where
  phase_call green_extension red_truncation : Strategy

pub data TspAction : Type 0 where
  request_grant revoke : TspAction

pub record TspDecision : Type 0 where
  pub crossing_id : String
  pub train_id : String
  pub action : TspAction
  pub ntcip_strategy : Option Strategy
  pub decided_at : String

pub data SkipReason : Type 0 where
  no_crossing crossing_unknown train_stale early_or_on_time : SkipReason
  delay_below_threshold beyond_horizon green_in_time refused_by_guard : SkipReason
  priority_suspended : String → SkipReason
  request_in_flight : String → SkipReason

-- seconds, as a fraction
pub record Eta : Type 0 where
  pub num : ℤ
  pub den : ℕ

pub data TspEvaluation : Type 0 where
  skipped : SkipReason → Option Eta → TspEvaluation
  decided : TspDecision → Eta → String → TspEvaluation

pub data Color : Type 0 where
  green yellow all_red : Color

abbrev pub is_green : Color → Bool
is_green green = true
is_green _ = false

pub record CrossingFeedback : Type 0 where
  pub crossing_id : String
  pub active_phase : ℕ
  pub color : Color
  pub seconds_until_vlt_green : ℕ
  pub granted_extension_s : ℕ
  pub cross_street_debt_s : ℕ
  pub at : ℕ

pub record GrantResult : Type 0 where
  pub crossing_id : String
  pub request_id : String
  pub granted : Bool
  pub reason : Option String
  pub effect : Option String
  pub delay_seconds : Option ℕ

pub record Flight : Type 0 where
  pub request_id : String
  pub at : ℕ
  pub train_id : String

pub record TspController : Type 0 where
  pub inhibited : Map String
  pub feedback : Map CrossingFeedback
  pub in_flight : Map Flight
  pub outcomes : List GrantResult
