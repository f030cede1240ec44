-- ===== src/Witnesses/Leader.antt =====
-- Two processes that compete for the lead, for packages/leader-election/src.
use railsentinel.Prelude.{
  ◌≡◌, ◌≢◌, refl, inl, inr, String, List, [], ◌∷◌, ◌++◌, none, some, true, if◌then◌else◌, arith,
  eq_iff,
}
use railsentinel.Prelude.Map
use railsentinel.Prelude.Map.{Map, is_some}
use railsentinel.Leader.Election.{LeaseRow, Lease, renew}
use railsentinel.Leader.Election.Fencing.{
  acquire_for, renew_for, give_up, Call, call, history, table_after, AllAgree, one_holder_per_epoch,
  deposed_cannot_renew,
}
use railsentinel.Leader.Election.Exclusive.{others_locked_out}
use railsentinel.Leader.LeaseHolder.{
  LeaseHolder, answered, failed, is_leader, receive_answer, begin_stop,
}
use railsentinel.Leader.LeaseHolder.Lead.{
  starts, answer_arrives, stop_called, stop_answered, run, IsInformed, run-IsInformed,
  first_answer_notifies, stop_in_flight,
}

-- `a` acquires the lead and renews it; `b` takes it over when it has run out; `a` comes back too late.
abbrev a_acquires : Call
a_acquires = record { holder = "a"; request = acquire_for 15; now = 0 }

abbrev a_renews : Call
a_renews = record { holder = "a"; request = renew_for 1 15; now = 10 }

abbrev b_acquires : Call
b_acquires = record { holder = "b"; request = acquire_for 15; now = 40 }

abbrev b_renews : Call
b_renews = record { holder = "b"; request = renew_for 2 15; now = 45 }

abbrev b_gives_up : Call
b_gives_up = record { holder = "b"; request = give_up 2; now = 46 }

one_holder_per_epoch_example :
    AllAgree
      (history "core" [] [] (a_acquires ∷ a_renews ∷ b_acquires ∷ b_renews ∷ b_gives_up ∷ [])).0
one_holder_per_epoch_example =
    one_holder_per_epoch "core" (a_acquires ∷ a_renews ∷ b_acquires ∷ b_renews ∷ b_gives_up ∷ [])

abbrev row_of_a : LeaseRow
row_of_a = record { holder = "a"; epoch = 1; acquired_at = 0; expires_at = 15 }

abbrev held : Map LeaseRow
held = ("core", row_of_a) ∷ []

abbrev lease_of_b : Lease
lease_of_b = record { role = "core"; holder = "b"; epoch = 2; acquired_at = 40; expires_at = 55 }

b_is_granted : (call "core" held b_acquires).0 ≡ some lease_of_b
unfolding railsentinel.Leader.Election.try_acquire Map.get
b_is_granted = refl

deposed_cannot_renew_example :
    renew "core" "a" (table_after "core" (call "core" held b_acquires).1 (b_renews ∷ [])) 1 15 50
    ≡ (none, table_after "core" (call "core" held b_acquires).1 (b_renews ∷ []))
deposed_cannot_renew_example =
    deposed_cannot_renew "core" "a" held b_acquires lease_of_b (b_renews ∷ []) 1 15 50 b_is_granted
      (omega arith)

b_is_not_a : ◌≢◌ {A = String} "b" "a"
b_is_not_a = λ p. ground (arith, (eq_iff "b" "a").1 p)

others_locked_out_example :
    history "core" held [] (
      record { holder = "b"; request = acquire_for 15; now = 12 }
      ∷ record { holder = "b"; request = renew_for 1 15; now = 13 }
      ∷ [])
    ≡ ([], held)
unfolding Map.get
others_locked_out_example =
    others_locked_out "core" held row_of_a []
      (record { holder = "b"; request = acquire_for 15; now = 12 }
        ∷ record { holder = "b"; request = renew_for 1 15; now = 13 }
        ∷ [])
      refl ((b_is_not_a, omega arith), ((b_is_not_a, omega arith), tt))

abbrev holder_b : LeaseHolder
holder_b = record {
  role = "core";
  holder_id = "b";
  lease_duration_ms = 15_000;
  renew_interval_ms = 5_000;
  retry_interval_ms = 2_000;
  epoch = none;
  timer = none;
  stopped = railsentinel.Prelude.false;
  ever_notified = railsentinel.Prelude.false;
  notified = [];
}

run-IsInformed_example : IsInformed (
    run holder_b (
      starts
      ∷ answer_arrives (answered (some lease_of_b))
      ∷ answer_arrives failed
      ∷ stop_called held 50
      ∷ stop_answered
      ∷ []))
run-IsInformed_example =
    run-IsInformed holder_b
      (starts
        ∷ answer_arrives (answered (some lease_of_b))
        ∷ answer_arrives failed
        ∷ stop_called held 50
        ∷ stop_answered
        ∷ [])
      (inl (refl, refl))

first_answer_notifies_example :
    (receive_answer holder_b failed).notified
    ≡ [] ++ record { is_leader = railsentinel.Prelude.false; epoch = none } ∷ []
first_answer_notifies_example = first_answer_notifies holder_b failed refl

stop_in_flight_example :
    let (h', table') = begin_stop holder_b held 39 in
    let h'' = receive_answer h' (answered (some lease_of_b)) in
    (table' ≡ held) × (is_leader h'' ≡ true) × (h''.stopped ≡ true) × (h''.timer ≡ none)
stop_in_flight_example = stop_in_flight holder_b held 39 lease_of_b refl
