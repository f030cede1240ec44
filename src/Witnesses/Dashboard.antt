-- ===== src/Witnesses/Dashboard.antt =====
-- A shift at the post, from the data with which it starts, for apps/cco-dashboard/src.
use railsentinel.Prelude.{
  count_if, ℕ, ◌+◌, ◌≡◌, ◌↔◌, ◌⊎◌, refl, String, List, [], ◌∷◌, true, none, some, length, map,
}
use railsentinel.Dashboard.State.{
  TrainState, CcoState, CcoAction, login, logout, tick, alarm_ack, restriction_clear, radio_call,
  advise_regulation,
}
use railsentinel.Dashboard.Seeds.{c_nebias, further_stops, edge_nodes}
use railsentinel.Dashboard.Initial.{Clock, initial_state}
use railsentinel.Dashboard.Initial.Sound.{initial_state-IsSafe}
use railsentinel.Dashboard.Reducer.{cco_reducer, run}
use railsentinel.Dashboard.Reducer.Safety.{IsSafe, run-IsSafe}
use railsentinel.Dashboard.Reducer.Log.{IsLogged, run-IsLogged}
use railsentinel.Dashboard.Reducer.Confirmed.{IsConfirmed, restrictions-IsConfirmed}
use railsentinel.Dashboard.Selectors.{line_status, pending_items, LineStatus}
use railsentinel.Dashboard.Selectors.Pending.{IsComplete, line_status_ok}
use railsentinel.Dashboard.Selectors.Pending.Items.{is_unacked, is_in_force, is_offline}

abbrev noon : ℕ → Clock
noon ms = record { hours = 12; minutes = 0; seconds = 0 }

abbrev start : CcoState
start = (initial_state-IsSafe noon 0).0

-- no letters are changed
abbrev as_typed : String → String
as_typed s = s

abbrev shift : List CcoAction
shift =
    tick 900_000 "12:15:00"
    ∷ advise_regulation "VLT-12" "12:15:01"
    ∷ alarm_ack "INC-a91f3c" "12:15:02"
    ∷ restriction_clear "TSR-08fe2b" " OP-4471 " true "12:16:00"
    ∷ tick 60_000 "12:17:00"
    ∷ logout "12:18:00"
    ∷ login "OP-22" "12:19:00"
    ∷ radio_call "VLT-07" "12:20:00"
    ∷ []

run-IsSafe_example : IsSafe (run as_typed c_nebias further_stops start shift)
run-IsSafe_example =
    run-IsSafe as_typed c_nebias further_stops start shift (initial_state-IsSafe noon 0).1.1.0

run-IsLogged_example : IsLogged (run as_typed c_nebias further_stops start shift)
run-IsLogged_example =
    run-IsLogged as_typed c_nebias further_stops start shift (initial_state-IsSafe noon 0).1.1.1

restrictions-IsConfirmed_example :
    ((cco_reducer as_typed c_nebias further_stops start
        (restriction_clear "TSR-08fe2b" " OP-4471 " true "12:16:00")).restrictions
      ≡ start.restrictions)
    ⊎ IsConfirmed as_typed start
        (restriction_clear "TSR-08fe2b" " OP-4471 " true "12:16:00")
        (cco_reducer as_typed c_nebias further_stops start
          (restriction_clear "TSR-08fe2b" " OP-4471 " true "12:16:00")).restrictions
restrictions-IsConfirmed_example =
    restrictions-IsConfirmed as_typed c_nebias further_stops start
      (restriction_clear "TSR-08fe2b" " OP-4471 " true "12:16:00")

line_status_ok_example :
    IsComplete edge_nodes start
    × (length (pending_items edge_nodes start)
        ≡ count_if is_unacked start.alarms
          + count_if is_in_force start.restrictions
          + count_if is_offline edge_nodes)
    × ((line_status edge_nodes start ≡ LineStatus.ok)
        ↔ (length (pending_items edge_nodes start) ≡ 0))
line_status_ok_example = line_status_ok edge_nodes start

-- In a tick of 15 minutes VLT-07 and VLT-12 run up to the least distance behind the place of the tram
-- ahead before the tick, and VLT-19 to the stopping point before the restricted section.
positions_after_15_min :
    elim (initial_state noon 0) [
      | none ↦ []
      | some s ↦
          map
            (λ (t : TrainState). t.t)
            (cco_reducer as_typed c_nebias further_stops s (tick 900_000 "12:15:00")).trains
    ]
    ≡ 675_450 ∷ 1_087_830 ∷ 11_376 ∷ []
unfolding cco_reducer initial_state railsentinel.Prelude.Text.decimal
    railsentinel.Dashboard.Line.is_inside
positions_after_15_min = refl
