-- ===== src/Dashboard/Reducer/Log.antt =====
-- apps/cco-dashboard/src/state/reducer.ts: the log of the post.
use railsentinel.Prelude.{
  ℕ, zero, suc, ◌≤◌, ◌<◌, refl, inl, inr, String, List, [], ◌∷◌, map, Option, none, some, Bool, not,
  ◌||◌, str_eq, find, arith, Bool-cases, All, length,
}
use railsentinel.Prelude.Map.{is_some}
use railsentinel.Dashboard.State.{
  RestrictionState, LogText, LogEntry, system, CcoState, CcoAction, login, logout, tick, alarm_ack,
  alarm_action, restriction_clear, radio_call, advise_regulation, select_train, set_sim_rate,
}
use railsentinel.Dashboard.Line.{Stop}
use railsentinel.Dashboard.Advance.{
  advance_train, advance_trains, log_events, events_of, with_log, take, log_cap,
}
use railsentinel.Dashboard.Operator.{is_valid_operator_id, normalize_operator_id}
use railsentinel.Dashboard.Reducer.Routine.{
  IsSigned, LogsOnce, ack_by-IsRoutine, act_by-IsRoutine, call_by-IsRoutine, advice_by-IsRoutine,
  select_by-IsRoutine, logout_by-IsRoutine,
}
use railsentinel.Dashboard.Reducer.{
  logout_by, ack_by, act_by, call_by, advice_by, select_by, on_duty, clear_by, cco_reducer, run,
  find_alarm, find_restriction,
}

-- The numbers fall from the front on, below `n`.
abbrev pub AreDescending : ℕ → List LogEntry → Type 0
AreDescending n [] = Unit
AreDescending n (e ∷ es) = (e.seq < n) × AreDescending e.seq es

abbrev pub IsLog : ℕ → List LogEntry → Type 0
IsLog n es = (length es ≤ log_cap) × (AreDescending n es × All (λ e. IsSigned e.entry) es)

abbrev pub IsLogged : CcoState → Type 0
IsLogged s = IsLog s.next_seq s.log

length-take : {A : Type 0} (n : ℕ) (xs : List A) → length (take n xs) ≤ n
unfolding take
length-take zero xs = omega arith
length-take (suc n) [] = omega arith
length-take (suc n) (x ∷ xs) = omega (arith, length-take n xs)

take-AreDescending :
    (n k : ℕ) (es : List LogEntry) → AreDescending k es → AreDescending k (take n es)
unfolding take
take-AreDescending zero k es h = tt
take-AreDescending (suc n) k [] h = tt
take-AreDescending (suc n) k (e ∷ es) h = (h.0, take-AreDescending n e.seq es h.1)

take-All : {A : Type 0} (P : A → Type 0) (n : ℕ) (xs : List A) → All P xs → All P (take n xs)
unfolding take
take-All P zero xs h = tt
take-All P (suc n) [] h = tt
take-All P (suc n) (x ∷ xs) h = (h.0, take-All P n xs h.1)

entered-IsLog :
    (n : ℕ) (es : List LogEntry) (e : LogText)
    → IsLog n es
    → IsSigned e
    → IsLog (suc n) (take log_cap (record { seq = n; entry = e } ∷ es))
entered-IsLog n es e h signed =
    let es' = record { seq = n; entry = e } ∷ es in
    (
      length-take log_cap es',
      (
        take-AreDescending log_cap (suc n) es' (omega arith, h.1.0),
        take-All (λ (x : LogEntry). IsSigned x.entry) log_cap es' (signed, h.1.1),
      ),
    )

LogsOnce-IsLogged : (s s' : CcoState) → LogsOnce s s' → IsLogged s → IsLogged s'
LogsOnce-IsLogged s s' (inl same) h = rw same.0 (rw same.1 h)
LogsOnce-IsLogged s s' (inr (e, (signed, new))) h =
    rw new.0 (rw new.1 (entered-IsLog s.next_seq s.log e h signed))

log_events-IsLogged :
    (s : CcoState) (at : String) (texts : List String)
    → IsLogged s
    → IsLogged (log_events s at texts)
unfolding log_events with_log
log_events-IsLogged s at [] h = h
log_events-IsLogged s at (text ∷ rest) h =
    let e : LogText = record { at = at; kind = system; operator = none; text = text } in
    log_events-IsLogged (with_log s e) at rest (entered-IsLog s.next_seq s.log e h (inl refl))

advance_trains-IsLogged :
    (s : CcoState) (dt : ℕ) (at : String) → IsLogged s → IsLogged (advance_trains s dt at)
unfolding advance_trains
advance_trains-IsLogged s zero at h = h
advance_trains-IsLogged s (suc n) at h =
    log_events-IsLogged (record s { trains = map (advance_train s (suc n)) s.trains }) at
      (events_of s (suc n) s.trains) h

clear_by-LogsOnce :
    (s : CcoState) (operator : Option String) (r : Option RestrictionState) (confirmed : String)
    (cctv : Bool) (at : String)
    → LogsOnce s (clear_by s operator r confirmed cctv at)
unfolding clear_by with_log
clear_by-LogsOnce s none r confirmed cctv at = inl (refl, refl)
clear_by-LogsOnce s (some o) none confirmed cctv at = inl (refl, refl)
clear_by-LogsOnce s (some o) (some r) confirmed cctv at =
    elim (Bool-cases (is_some r.cleared || not cctv || not (str_eq confirmed o))) [
      | inl e ↦ rw e (inl (refl, refl))
      | inr e ↦ rw e (inr (_, (inr (o, refl), (refl, refl))))
    ]

module _ (to_upper_case : String → String) (first : Stop) (stops : List Stop) where
  cco_reducer-IsLogged :
      (s : CcoState) (a : CcoAction)
      → IsLogged s
      → IsLogged (cco_reducer to_upper_case first stops s a)
  unfolding cco_reducer with_log
  cco_reducer-IsLogged s (tick dt at) h = advance_trains-IsLogged s dt at h
  cco_reducer-IsLogged s (login raw at) h =
      elim (Bool-cases (is_some s.operator || not (is_valid_operator_id to_upper_case raw))) [
        | inl e ↦ rw e h
        | inr e ↦ rw e (entered-IsLog s.next_seq s.log _ h (inr (_, refl)))
      ]
  cco_reducer-IsLogged s (logout at) h =
      LogsOnce-IsLogged s (logout_by s s.operator at) (logout_by-IsRoutine s s.operator at).1.1 h
  cco_reducer-IsLogged s (alarm_ack id at) h =
      let by = on_duty s.operator in
      LogsOnce-IsLogged s (ack_by s by (find_alarm s id) at)
        (ack_by-IsRoutine s by (find_alarm s id) at).1.1 h
  cco_reducer-IsLogged s (alarm_action id label at) h =
      let by = on_duty s.operator in
      LogsOnce-IsLogged s (act_by s by (find_alarm s id) label at)
        (act_by-IsRoutine s by (find_alarm s id) label at).1.1 h
  cco_reducer-IsLogged s (restriction_clear id confirm cctv at) h =
      let by = on_duty s.operator in
      let confirmed = normalize_operator_id to_upper_case confirm in
      LogsOnce-IsLogged s (clear_by s by (find_restriction s id) confirmed cctv at)
        (clear_by-LogsOnce s by (find_restriction s id) confirmed cctv at) h
  cco_reducer-IsLogged s (radio_call id at) h =
      let by = on_duty s.operator in
      LogsOnce-IsLogged s (call_by s by id at) (call_by-IsRoutine s by id at).1.1 h
  cco_reducer-IsLogged s (advise_regulation id at) h =
      let by = on_duty s.operator in
      let train = find (λ t. str_eq t.id id) s.trains in
      LogsOnce-IsLogged s (advice_by first stops s by train at)
        (advice_by-IsRoutine first stops s by train at).1.1 h
  cco_reducer-IsLogged s (select_train id) h =
      LogsOnce-IsLogged s (select_by s id) (select_by-IsRoutine s id).1.1 h
  cco_reducer-IsLogged s (set_sim_rate rate) h = h

  -- Whatever actions follow each other, the log has at most 200 lines, whose numbers fall strictly
  -- from the newest on and lie below the next number, and every line that is not the system's names
  -- its operator, if this is so at the start.
  pub run-IsLogged :
      (s : CcoState) (actions : List CcoAction)
      → IsLogged s
      → IsLogged (run to_upper_case first stops s actions)
  unfolding run
  run-IsLogged s [] h = h
  run-IsLogged s (a ∷ rest) h =
      run-IsLogged (cco_reducer to_upper_case first stops s a) rest (cco_reducer-IsLogged s a h)
