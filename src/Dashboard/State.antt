-- ===== src/Dashboard/State.antt =====
-- apps/cco-dashboard/src/state/types.ts and the types of data/mock.ts. A position on the loop, which
-- the code keeps as a fraction, is a whole number of units: the loop is 1,422,000 units long, so that a
-- tram runs one unit in a millisecond. Times and deviations are whole milliseconds.
use railsentinel.Prelude.{ℕ, String, List, Option, Bool}
use railsentinel.Prelude.Int.{ℤ}

pub data TrainColorVar : Type 0 where
  c_blue : TrainColorVar
  c_orange : TrainColorVar
  c_aqua : TrainColorVar

pub data HoldReason : Type 0 where
  at_restriction : (restriction_id section_id : String) → HoldReason
  train_ahead : (train_id : String) → HoldReason

pub record TrainState : Type 0 where
  pub id : String
  pub color_var : TrainColorVar
  pub t : ℕ
  pub dev : ℤ
  pub occ : String
  pub hold : Option HoldReason

pub record Stamp : Type 0 where
  pub by : String
  pub at : String

pub data AlarmSeverity : Type 0 where
  critical : AlarmSeverity
  major : AlarmSeverity
  warning : AlarmSeverity

pub data IntegrityClass : Type 0 where
  basic : IntegrityClass
  sil : IntegrityClass

pub record AlarmState : Type 0 where
  pub id : String
  pub sev : AlarmSeverity
  pub title : String
  pub detail : String
  pub cls : IntegrityClass
  pub conf : Option String
  pub model : Option String
  pub actions : List String
  pub raised_at : String
  pub ack : Option Stamp

pub record RestrictionState : Type 0 where
  pub id : String
  pub section_id : String
  pub kind : String
  pub reason : String
  pub cls : IntegrityClass
  pub range : ℕ × ℕ
  pub created_at : String
  pub cleared : Option Stamp

pub data TspAction : Type 0 where
  grant : TspAction
  revoke : TspAction
  denied : TspAction
  idle : TspAction

pub record TspState : Type 0 where
  pub crossing : String
  pub train : String
  pub action : TspAction
  pub strategy : Option String
  pub reason : String
  pub at : String

pub data LogKind : Type 0 where
  system : LogKind
  session : LogKind
  acknowledged : LogKind
  commanded : LogKind
  released : LogKind

-- What a caller says of an entry: all but its number.
pub record LogText : Type 0 where
  pub at : String
  pub kind : LogKind
  pub operator : Option String
  pub text : String

pub record LogEntry : Type 0 where
  pub seq : ℕ
  pub entry : LogText
  pub open entry use *

pub data SimRate : Type 0 where
  paused : SimRate
  real_time : SimRate
  fast : SimRate

pub record CcoState : Type 0 where
  pub operator : Option String
  pub operator_since : Option String
  pub trains : List TrainState
  pub alarms : List AlarmState
  pub restrictions : List RestrictionState
  pub tsp : List TspState
  pub log : List LogEntry
  pub next_seq : ℕ
  pub selected_train : Option String
  pub sim_rate : SimRate

-- A tick carries the time that has gone by; one that is not positive is 0 here.
pub data CcoAction : Type 0 where
  login : (operator at : String) → CcoAction
  logout : (at : String) → CcoAction
  tick : (dt_ms : ℕ) (at : String) → CcoAction
  alarm_ack : (alarm_id at : String) → CcoAction
  alarm_action : (alarm_id label at : String) → CcoAction
  restriction_clear :
      (restriction_id confirm_operator : String) (cctv_verified : Bool) (at : String) → CcoAction
  radio_call : (train_id at : String) → CcoAction
  advise_regulation : (train_id at : String) → CcoAction
  select_train : (train_id : Option String) → CcoAction
  set_sim_rate : (rate : SimRate) → CcoAction
