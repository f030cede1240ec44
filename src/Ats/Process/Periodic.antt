-- ===== src/Ats/Process/Periodic.antt =====
-- services/ats-core/src/main.ts: the periodic cycle of the regulation.
use railsentinel.Prelude.{
  ℕ, zero, suc, ◌+◌, String, List, [], ◌∷◌, Option, none, some, Bool, not, ◌&&◌, ◌||◌, ltb, ◌==◌,
  length, keep, set_add, set_delete, if◌then◌else◌, ◌>>=◌,
}
use railsentinel.Prelude.Int.{pos_part, neg_part}
use railsentinel.Prelude.Text.{◌+++◌}
use railsentinel.Contracts.Types.{basic}
use railsentinel.Ats.Runtime.{Runtime}
use railsentinel.Ats.SafetyGuard.{authorize, adjust_dwell_time}
use railsentinel.Ats.Fleet.{TrainState, on_line}
use railsentinel.Ats.Headway.{RegulationCommand, regulate}
use railsentinel.Ats.Headway.Setpoint.{RegulatedLine, line_1, line_2, line_of, resolve_setpoint}
use railsentinel.Ats.Process.Bus.{regulation}
use railsentinel.Ats.Process.{
  AtsCore, publish_as_leader, publish_all, knowing, violations_since, line_name,
  publish_system_state,
}

module _ (runtime : Runtime) where
  -- `Math.abs(delta) < 3 && coast === 0`
  abbrev pub is_immaterial : RegulationCommand → Bool
  is_immaterial c = ltb (pos_part c.dwell_delta_s + neg_part c.dwell_delta_s) 3 && c.coast_pct == 0

  -- the loop over the commands of a line
  unfoldable pub command_loop : AtsCore → RegulatedLine → List RegulationCommand → ℕ → AtsCore
  unfolding publish_all publish_as_leader violations_since
  command_loop core line [] now = core
  command_loop core line (c ∷ cs) now =
      let before = core.know.intrusion in
      let (decision, guard) =
        authorize before.guard adjust_dwell_time basic ("reg-" +++ c.train_id)
          (runtime.to_iso now) in
      let core' =
        publish_all
          (knowing core (record core.know { intrusion = record before { guard = guard } }))
          (violations_since before.guard guard) in
      let skipped = command_loop core' line cs now in
      let sent = command_loop (publish_as_leader core' (regulation c line)) line cs now in
      if not decision.permitted || is_immaterial c then skipped else sent

  -- the lines whose lack of trams is reported
  unfoldable pub report_infeasible : List String → RegulatedLine → ℕ → List String
  report_infeasible reported line zero = reported
  report_infeasible reported line (suc zero) = reported
  report_infeasible reported line (suc (suc n)) =
      if (resolve_setpoint line (suc (suc n))).infeasible
      then set_add reported (line_name line)
      else set_delete reported (line_name line)

  -- `none` where the regulation does not return
  unfoldable pub regulate_line : RegulatedLine → ℕ → AtsCore → Option AtsCore
  unfolding report_infeasible command_loop
  regulate_line line now core = do
    let trains = on_line runtime core.know.fleet (line_of line) now
    let active = length (keep (λ (t : TrainState). not t.stale) trains)
    (cmds, regulator) ← regulate core.know.regulator line trains now
    some (
        command_loop
          (knowing core (record core.know {
            regulator = regulator;
            infeasibility_reported = report_infeasible core.know.infeasibility_reported line active;
          }))
          line cmds now)

  -- the cycle of the regulation; that of a line always returns
  unfoldable pub on_regulation_due : AtsCore → ℕ → AtsCore
  unfolding regulate_line publish_system_state
  on_regulation_due core now = elim (regulate_line line_1 now core >>= regulate_line line_2 now) [
    | none ↦ core
    | some core' ↦ publish_system_state runtime core' now
  ]
