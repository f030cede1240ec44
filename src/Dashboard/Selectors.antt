-- ===== src/Dashboard/Selectors.antt =====
-- apps/cco-dashboard/src/state/selectors.ts: what the views read from the state.
pub mod Pending
use railsentinel.Prelude.{
  ℕ, ◌+◌, ◌-◌, ◌/◌, String, List, [], ◌∷◌, ◌++◌, map, Option, none, some, Bool, true, false, not,
  ◌&&◌, ◌||◌, ltb, leb, ◌==◌, str_eq, length, find, keep, count_if, if◌then◌else◌,
}
use railsentinel.Prelude.Int.{ℤ, pos, negsuc}
use railsentinel.Prelude.Map.{is_some}
use railsentinel.Prelude.Text.{◌+++◌, decimal}
use railsentinel.Dashboard.State.{
  HoldReason, at_restriction, train_ahead, TrainState, AlarmSeverity, critical, major, warning,
  AlarmState, RestrictionState, TspAction, grant, denied, TspState, LogKind, acknowledged,
  commanded, released, LogEntry, CcoState,
}
use railsentinel.Dashboard.Seeds.{EdgeNode}

-- `SEVERITY_RANK`
abbrev pub severity_rank : AlarmSeverity → ℕ
severity_rank critical = 0
severity_rank major = 1
severity_rank warning = 2

-- The order of `sortedAlarms`: not acknowledged first, then by severity
unfoldable pub alarm_rank : AlarmState → ℕ
alarm_rank a = severity_rank a.sev + (if is_some a.ack then 3 else 0)

unfoldable pub insert_alarm : AlarmState → List AlarmState → List AlarmState
unfolding alarm_rank
insert_alarm a [] = a ∷ []
insert_alarm a (b ∷ bs) =
    let later = insert_alarm a bs in
    if leb (alarm_rank a) (alarm_rank b) then a ∷ b ∷ bs else b ∷ later

-- a stable sort
unfoldable pub sort_alarms : List AlarmState → List AlarmState
unfolding insert_alarm
sort_alarms [] = []
sort_alarms (a ∷ rest) = insert_alarm a (sort_alarms rest)

unfoldable pub sorted_alarms : CcoState → List AlarmState
unfolding sort_alarms
sorted_alarms s = sort_alarms s.alarms

pub record AlarmSummary : Type 0 where
  pub total : ℕ
  pub unacked : ℕ
  pub critical : ℕ
  pub major : ℕ
  pub warning : ℕ

abbrev pub has_severity : AlarmSeverity → AlarmState → Bool
has_severity sev a = severity_rank a.sev == severity_rank sev

unfoldable pub alarm_summary : CcoState → AlarmSummary
alarm_summary s = record {
  total = length s.alarms;
  unacked = count_if (λ (a : AlarmState). not (is_some a.ack)) s.alarms;
  critical = count_if (has_severity AlarmSeverity.critical) s.alarms;
  major = count_if (has_severity AlarmSeverity.major) s.alarms;
  warning = count_if (has_severity AlarmSeverity.warning) s.alarms;
}

unfoldable pub active_restrictions : CcoState → List RestrictionState
active_restrictions s = keep (λ (r : RestrictionState). not (is_some r.cleared)) s.restrictions

abbrev pub is_grant : TspState → Bool
is_grant t = elim t.action [ grant ↦ true | _ ↦ false ]

abbrev pub is_denied : TspState → Bool
is_denied t = elim t.action [ denied ↦ true | _ ↦ false ]

-- The share of requests that were granted, as a numerator over a denominator
unfoldable pub tsp_service_rate : CcoState → Option (ℕ × ℕ)
tsp_service_rate s =
    let granted = count_if is_grant s.tsp in
    let total = granted + count_if is_denied s.tsp in
    if total == 0 then none else some (granted, total)

pub record EdgeSummary : Type 0 where
  pub online : ℕ
  pub total : ℕ
  pub offline : List EdgeNode

unfoldable pub edge_summary : List EdgeNode → EdgeSummary
edge_summary nodes = record {
  online = length (keep (λ (n : EdgeNode). n.ok) nodes);
  total = length nodes;
  offline = keep (λ (n : EdgeNode). not n.ok) nodes;
}

unfoldable pub hold_label : Option HoldReason → String
hold_label none = "em marcha"
hold_label (some (at_restriction id section_id)) = "parado — aguarda liberação de " +++ id
hold_label (some (train_ahead id)) = "parado — aguarda " +++ id +++ " à frente"

-- `Math.round` of milliseconds to seconds; a half is rounded up
unfoldable pub format_dev : ℤ → String
format_dev (pos ms) =
    let s = (ms + 500) / 1000 in if ltb 0 s then "+" +++ decimal s +++ "s" else "0s"
format_dev (negsuc n) =
    let s = (n + 500) / 1000 in if ltb 0 s then "-" +++ decimal s +++ "s" else "0s"

unfoldable pub latest_tsp : CcoState → String → Option TspState
latest_tsp s train_id = find (λ (d : TspState). str_eq d.train train_id) s.tsp

pub data PendingItem : Type 0 where
  pending_alarm : AlarmState → PendingItem
  pending_restriction : (restriction : RestrictionState) (held : List TrainState) → PendingItem
  pending_edge : EdgeNode → PendingItem

abbrev pub is_held_by : RestrictionState → Option HoldReason → Bool
is_held_by r (some (at_restriction id section_id)) = str_eq id r.id
is_held_by r _ = false

unfoldable pub pending_items : List EdgeNode → CcoState → List PendingItem
unfolding sorted_alarms active_restrictions edge_summary
pending_items nodes s =
    map pending_alarm (keep (λ (a : AlarmState). not (is_some a.ack)) (sorted_alarms s))
    ++ map
        (λ (r : RestrictionState).
          pending_restriction r (keep (λ (t : TrainState). is_held_by r t.hold) s.trains))
        (active_restrictions s)
    ++ map pending_edge (edge_summary nodes).offline

pub record ShiftTally : Type 0 where
  pub ack : ℕ
  pub clear : ℕ
  pub action : ℕ

abbrev pub is_own : Option String → LogEntry → Bool
is_own none e = false
is_own (some o) e = elim e.operator [ none ↦ false | some p ↦ str_eq p o ]

abbrev pub same_kind : LogKind → LogKind → Bool
same_kind acknowledged acknowledged = true
same_kind commanded commanded = true
same_kind released released = true
same_kind LogKind.system LogKind.system = true
same_kind LogKind.session LogKind.session = true
same_kind _ _ = false

unfoldable pub shift_tally : CcoState → ShiftTally
shift_tally s =
    let mine = keep (is_own s.operator) s.log in
    record {
      ack = count_if (λ (e : LogEntry). same_kind e.kind acknowledged) mine;
      clear = count_if (λ (e : LogEntry). same_kind e.kind released) mine;
      action = count_if (λ (e : LogEntry). same_kind e.kind commanded) mine;
    }

pub data LineStatus : Type 0 where
  crit : LineStatus
  warn : LineStatus
  ok : LineStatus

abbrev pub is_urgent : AlarmState → Bool
is_urgent a = has_severity AlarmSeverity.critical a && not (is_some a.ack)

unfoldable pub line_status : List EdgeNode → CcoState → LineStatus
unfolding alarm_summary active_restrictions edge_summary
line_status nodes s =
    if ltb 0 (length (active_restrictions s)) || is_some (find is_urgent s.alarms)
    then crit
    else if ltb 0 (alarm_summary s).unacked || ltb 0 (length (edge_summary nodes).offline)
    then warn
    else ok
