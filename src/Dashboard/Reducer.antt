-- ===== src/Dashboard/Reducer.antt =====
-- apps/cco-dashboard/src/state/reducer.ts: `ccoReducer`, and domain/regulation.ts.
pub mod Routine
pub mod Safety
pub mod Log
pub mod Confirmed
use railsentinel.Prelude.{
  ℕ, ◌+◌, ◌/◌, String, List, [], ◌∷◌, Option, none, some, Bool, true, false, not, ◌&&◌, ◌||◌, leb,
  str_eq, contains, find, if◌then◌else◌,
}
use railsentinel.Prelude.Int.{ℤ, pos_part, neg_part}
use railsentinel.Prelude.Map.{is_some}
use railsentinel.Prelude.Text.{◌+++◌, decimal}
use railsentinel.Dashboard.State.{
  TrainState, AlarmState, RestrictionState, Stamp, LogKind, session, acknowledged, commanded,
  released, CcoState, CcoAction, login, logout, tick, alarm_ack, alarm_action, restriction_clear,
  radio_call, advise_regulation, select_train, set_sim_rate,
}
use railsentinel.Dashboard.Line.{Stop, next_stop}
use railsentinel.Dashboard.Advance.{with_log, advance_trains}
use railsentinel.Dashboard.Operator.{normalize_operator_id, is_valid_operator_id}

-- 15 s
abbrev pub hold_threshold_ms : ℕ
hold_threshold_ms = 15_000

pub data RegulationAdvice : Type 0 where
  hold : (seconds : ℕ) (stop : String) → RegulationAdvice
  stay : (reason : String) → RegulationAdvice

-- `!operator` holds of `null` and of the empty text
unfoldable pub on_duty : Option String → Option String
on_duty none = none
on_duty (some operator) = if str_eq operator "" then none else some operator

-- The line's stops: the first, and the others
unfoldable pub regulation_advice : Stop → List Stop → TrainState → RegulationAdvice
unfolding next_stop
regulation_advice first stops train =
    if leb hold_threshold_ms (neg_part train.dev)
    then hold ((neg_part train.dev + 500) / 1000) (next_stop train.t first stops).name
    else stay (
        if leb hold_threshold_ms (pos_part train.dev)
        then "atrasada — não se retém; o TSP já prioriza a composição"
        else "dentro da tabela (±15 s)")

-- `alarms.map((a) => (a === alarm ? … : a))`, where `alarm` is the first of that id
unfoldable pub ack_alarm : String → Stamp → List AlarmState → List AlarmState
ack_alarm id stamp [] = []
ack_alarm id stamp (a ∷ rest) =
    let later = ack_alarm id stamp rest in
    if str_eq a.id id then record a { ack = some stamp } ∷ rest else a ∷ later

unfoldable pub clear_restriction : String → Stamp → List RestrictionState → List RestrictionState
clear_restriction id stamp [] = []
clear_restriction id stamp (r ∷ rest) =
    let later = clear_restriction id stamp rest in
    if str_eq r.id id then record r { cleared = some stamp } ∷ rest else r ∷ later

abbrev pub command : CcoState → String → LogKind → String → String → CcoState
command s at kind operator text =
    with_log s (record { at = at; kind = kind; operator = some operator; text = text })

abbrev pub has_train : CcoState → String → Bool
has_train s id = is_some (find (λ t. str_eq t.id id) s.trains)

abbrev pub find_alarm : CcoState → String → Option AlarmState
find_alarm s id = find (λ a. str_eq a.id id) s.alarms

abbrev pub find_restriction : CcoState → String → Option RestrictionState
find_restriction s id = find (λ r. str_eq r.id id) s.restrictions

unfoldable pub logout_by : CcoState → Option String → String → CcoState
unfolding with_log
logout_by s none at = s
logout_by s (some operator) at =
    command (record s { operator = none; operator_since = none }) at session operator
      ("Operador " +++ operator +++ " deixou o posto")

unfoldable pub ack_by : CcoState → Option String → Option AlarmState → String → CcoState
unfolding with_log ack_alarm
ack_by s (some operator) (some alarm) at =
    if is_some alarm.ack
    then s
    else command
        (record s { alarms = ack_alarm alarm.id (record { by = operator; at = at }) s.alarms }) at
        acknowledged operator ("Alarme reconhecido: " +++ alarm.id)
ack_by s _ _ at = s

unfoldable pub act_by : CcoState → Option String → Option AlarmState → String → String → CcoState
unfolding with_log
act_by s (some operator) (some alarm) label at =
    if contains alarm.actions label
    then command s at commanded operator (label +++ " (" +++ alarm.id +++ ")")
    else s
act_by s _ _ label at = s

-- The operator typed in the confirmation, already brought to its normal form
unfoldable pub clear_by :
    CcoState → Option String → Option RestrictionState → String → Bool → String → CcoState
unfolding with_log clear_restriction
clear_by s (some operator) (some r) confirmed cctv_verified at =
    if is_some r.cleared || not cctv_verified || not (str_eq confirmed operator)
    then s
    else command
        (record s {
          restrictions = clear_restriction r.id (record { by = operator; at = at }) s.restrictions;
        })
        at released operator
        ("Restrição " +++ r.id +++ " liberada em " +++ r.section_id +++ " (CFTV verificado)")
clear_by s _ _ confirmed cctv_verified at = s

unfoldable pub call_by : CcoState → Option String → String → String → CcoState
unfolding with_log
call_by s none train_id at = s
call_by s (some operator) train_id at =
    if has_train s train_id
    then command s at commanded operator ("Chamada de rádio ao condutor do " +++ train_id)
    else s

unfoldable pub advise_by : CcoState → String → TrainState → RegulationAdvice → String → CcoState
unfolding with_log
advise_by s operator train (stay reason) at = s
advise_by s operator train (hold seconds stop) at =
    command s at commanded operator (
      "Aviso de regulação ao "
      +++ train.id
      +++ ": reter "
      +++ decimal seconds
      +++ " s em "
      +++ stop)

unfoldable pub advice_by :
    Stop → List Stop → CcoState → Option String → Option TrainState → String → CcoState
unfolding advise_by regulation_advice
advice_by first stops s (some operator) (some train) at =
    advise_by s operator train (regulation_advice first stops train) at
advice_by first stops s _ _ at = s

unfoldable pub select_by : CcoState → Option String → CcoState
select_by s none = record s { selected_train = none }
select_by s (some id) = if has_train s id then record s { selected_train = some id } else s

-- The change to capitals is the runtime's; the stops are the line's.
module _ (to_upper_case : String → String) (first : Stop) (stops : List Stop) where
  unfoldable pub cco_reducer : CcoState → CcoAction → CcoState
  unfolding advance_trains with_log logout_by ack_by act_by clear_by call_by advice_by select_by
      on_duty normalize_operator_id is_valid_operator_id
  cco_reducer s (tick dt_ms at) = advance_trains s dt_ms at
  cco_reducer s (login raw at) =
      if is_some s.operator || not (is_valid_operator_id to_upper_case raw)
      then s
      else let operator = normalize_operator_id to_upper_case raw in
        command (record s { operator = some operator; operator_since = some at }) at session
          operator ("Operador " +++ operator +++ " assumiu o posto")
  cco_reducer s (logout at) = logout_by s s.operator at
  cco_reducer s (alarm_ack id at) = ack_by s (on_duty s.operator) (find_alarm s id) at
  cco_reducer s (alarm_action id label at) =
      act_by s (on_duty s.operator) (find_alarm s id) label at
  cco_reducer s (restriction_clear id confirm cctv_verified at) =
      clear_by s (on_duty s.operator) (find_restriction s id)
        (normalize_operator_id to_upper_case confirm) cctv_verified at
  cco_reducer s (radio_call id at) = call_by s (on_duty s.operator) id at
  cco_reducer s (advise_regulation id at) =
      advice_by first stops s (on_duty s.operator) (find (λ t. str_eq t.id id) s.trains) at
  cco_reducer s (select_train id) = select_by s id
  cco_reducer s (set_sim_rate rate) = record s { sim_rate = rate }

  -- the actions of a shift, one after the other
  unfoldable pub run : CcoState → List CcoAction → CcoState
  unfolding cco_reducer
  run s [] = s
  run s (a ∷ rest) = run (cco_reducer s a) rest
