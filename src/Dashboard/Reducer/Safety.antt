-- ===== src/Dashboard/Reducer/Safety.antt =====
-- apps/cco-dashboard/src/state/reducer.ts: what no series of actions at the post does.
use railsentinel.Prelude.{
  ℕ, zero, suc, ◌≡◌, refl, inl, inr, String, List, [], ◌∷◌, map, Option, none, some, Bool, not,
  ◌||◌, str_eq, find, Bool-cases,
}
use railsentinel.Prelude.Map.{is_some}
use railsentinel.Dashboard.State.{
  TrainState, RestrictionState, Stamp, CcoState, CcoAction, login, logout, tick, alarm_ack,
  alarm_action, restriction_clear, radio_call, advise_regulation, select_train, set_sim_rate,
}
use railsentinel.Dashboard.Line.{Stop}
use railsentinel.Dashboard.Advance.{advance_train, advance_trains, log_events, with_log, events_of}
use railsentinel.Dashboard.Advance.Separation.{
  OnLoop, AreSeparated, advance-AreSeparated, advance-OnLoop,
}
use railsentinel.Dashboard.Advance.Zones.{AreRespected, advance-AreRespected}
use railsentinel.Dashboard.Operator.{is_valid_operator_id, normalize_operator_id}
use railsentinel.Dashboard.Reducer.Routine.{
  IsRoutine, ack_by-IsRoutine, act_by-IsRoutine, call_by-IsRoutine, advice_by-IsRoutine,
  select_by-IsRoutine, logout_by-IsRoutine,
}
use railsentinel.Dashboard.Reducer.{
  on_duty, clear_restriction, logout_by, ack_by, act_by, clear_by, call_by, advice_by, select_by,
  cco_reducer, run, find_alarm, find_restriction,
}

-- The trams keep apart and stop before the restrictions in force.
abbrev pub AreSafe : List TrainState → List RestrictionState → Type 0
AreSafe ts rs = OnLoop ts × (AreSeparated ts × AreRespected ts rs)

abbrev pub IsSafe : CcoState → Type 0
IsSafe s = AreSafe s.trains s.restrictions

abbrev SameTrack : CcoState → CcoState → Type 0
SameTrack s s' = (s'.trains ≡ s.trains) × (s'.restrictions ≡ s.restrictions)

log_events-track :
    (s : CcoState) (at : String) (texts : List String) → SameTrack s (log_events s at texts)
unfolding log_events with_log
log_events-track s at [] = (refl, refl)
log_events-track s at (text ∷ rest) = log_events-track (with_log s _) at rest

advance_trains-IsSafe :
    (s : CcoState) (dt : ℕ) (at : String) → IsSafe s → IsSafe (advance_trains s dt at)
unfolding advance_trains
advance_trains-IsSafe s zero at h = h
advance_trains-IsSafe s (suc n) at h =
    let s' : CcoState = record s { trains = map (advance_train s (suc n)) s.trains } in
    let same = log_events-track s' at (events_of s (suc n) s.trains) in
    rw same.0 (
      rw same.1 (
        advance-OnLoop s (suc n) h.0,
        (advance-AreSeparated s (suc n) h.0 h.1.0, advance-AreRespected s (suc n) h.0 h.1.1),
      ))

pub advance_trains-restrictions :
    (s : CcoState) (dt : ℕ) (at : String) → (advance_trains s dt at).restrictions ≡ s.restrictions
unfolding advance_trains
advance_trains-restrictions s zero at = refl
advance_trains-restrictions s (suc n) at =
    let s' : CcoState = record s { trains = map (advance_train s (suc n)) s.trains } in
    (log_events-track s' at (events_of s (suc n) s.trains)).1

clear_restriction-AreRespected :
    (id : String) (stamp : Stamp) (ts : List TrainState) (rs : List RestrictionState)
    → AreRespected ts rs
    → AreRespected ts (clear_restriction id stamp rs)
unfolding clear_restriction
clear_restriction-AreRespected id stamp ts [] h = tt
clear_restriction-AreRespected id stamp ts (r ∷ rs) h = elim (Bool-cases (str_eq r.id id)) [
  | inl e ↦ rw e ((h.0.0, inl refl), h.1)
  | inr e ↦ rw e (h.0, clear_restriction-AreRespected id stamp ts rs h.1)
]

clear_by-IsSafe :
    (s : CcoState) (operator : Option String) (r : Option RestrictionState) (confirmed : String)
    (cctv : Bool) (at : String)
    → IsSafe s
    → IsSafe (clear_by s operator r confirmed cctv at)
unfolding clear_by with_log
clear_by-IsSafe s none r confirmed cctv at h = h
clear_by-IsSafe s (some o) none confirmed cctv at h = h
clear_by-IsSafe s (some o) (some r) confirmed cctv at h =
    elim (Bool-cases (is_some r.cleared || not cctv || not (str_eq confirmed o))) [
      | inl e ↦ rw e h
      | inr e ↦
          rw e (h.0, (h.1.0, clear_restriction-AreRespected r.id _ s.trains s.restrictions h.1.1))
    ]

routine-IsSafe : (s s' : CcoState) → IsRoutine s s' → IsSafe s → IsSafe s'
routine-IsSafe s s' same h = rw same.0 (rw same.1.0 h)

module _ (to_upper_case : String → String) (first : Stop) (stops : List Stop) where
  cco_reducer-IsSafe :
      (s : CcoState) (a : CcoAction) → IsSafe s → IsSafe (cco_reducer to_upper_case first stops s a)
  unfolding cco_reducer with_log
  cco_reducer-IsSafe s (tick dt at) h = advance_trains-IsSafe s dt at h
  cco_reducer-IsSafe s (login raw at) h =
      elim (Bool-cases (is_some s.operator || not (is_valid_operator_id to_upper_case raw))) [
        | inl e ↦ rw e h
        | inr e ↦ rw e h
      ]
  cco_reducer-IsSafe s (logout at) h =
      routine-IsSafe s (logout_by s s.operator at) (logout_by-IsRoutine s s.operator at) h
  cco_reducer-IsSafe s (alarm_ack id at) h =
      routine-IsSafe s (ack_by s (on_duty s.operator) (find_alarm s id) at)
        (ack_by-IsRoutine s (on_duty s.operator) (find_alarm s id) at) h
  cco_reducer-IsSafe s (alarm_action id label at) h =
      routine-IsSafe s (act_by s (on_duty s.operator) (find_alarm s id) label at)
        (act_by-IsRoutine s (on_duty s.operator) (find_alarm s id) label at) h
  cco_reducer-IsSafe s (restriction_clear id confirm cctv at) h =
      clear_by-IsSafe s (on_duty s.operator) (find_restriction s id)
        (normalize_operator_id to_upper_case confirm) cctv at h
  cco_reducer-IsSafe s (radio_call id at) h =
      routine-IsSafe s (call_by s (on_duty s.operator) id at)
        (call_by-IsRoutine s (on_duty s.operator) id at) h
  cco_reducer-IsSafe s (advise_regulation id at) h =
      routine-IsSafe s
        (advice_by first stops s (on_duty s.operator) (find (λ t. str_eq t.id id) s.trains) at)
        (advice_by-IsRoutine first stops s (on_duty s.operator)
          (find (λ t. str_eq t.id id) s.trains) at)
        h
  cco_reducer-IsSafe s (select_train id) h =
      routine-IsSafe s (select_by s id) (select_by-IsRoutine s id) h
  cco_reducer-IsSafe s (set_sim_rate rate) h = h

  -- Whatever actions follow each other, ticks of any length among them: trams that are apart by the
  -- least gap, and short of every restriction that is not cleared, remain so.
  pub run-IsSafe :
      (s : CcoState) (actions : List CcoAction)
      → IsSafe s
      → IsSafe (run to_upper_case first stops s actions)
  unfolding run
  run-IsSafe s [] h = h
  run-IsSafe s (a ∷ rest) h =
      run-IsSafe (cco_reducer to_upper_case first stops s a) rest (cco_reducer-IsSafe s a h)
