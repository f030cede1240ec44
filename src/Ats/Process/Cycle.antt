-- ===== src/Ats/Process/Cycle.antt =====
-- services/ats-core/src/main.ts: the response to the timer of the regulation, line by line.
use railsentinel.Prelude.{
  ℕ, ◌≡◌, refl, ap, ◌∙◌, List, [], ◌∷◌, ◌++◌, Option, none, some, not, Bool-cases, inl, inr, length,
  keep, if◌then◌else◌, ◌>>=◌,
}
use railsentinel.Ats.Runtime.{Runtime}
use railsentinel.Ats.SafetyGuard.{authorize}
use railsentinel.Ats.Fleet.{TrainState, on_line}
use railsentinel.Ats.Headway.{HeadwayRegulator, RegulationCommand, regulate}
use railsentinel.Ats.Headway.Setpoint.{RegulatedLine, line_1, line_2, line_of}
use railsentinel.Ats.Process.Bus.{Publication, regulation, system_state}
use railsentinel.Ats.Process.{
  Knowledge, AtsCore, knowing, publish_as_leader, publish_all, state_of, publish_system_state,
}
use railsentinel.Ats.Process.Periodic.{
  is_immaterial, command_loop, report_infeasible, regulate_line, on_regulation_due,
}
use railsentinel.Ats.Process.Responds.{
  publish_all-know, publish_all-append, publish_all-knowing, violations_since_same, respond,
  publish_system_state-respond,
}

module _ (runtime : Runtime) where
  -- The commands of a line that are worth sending
  abbrev pub to_commands : RegulatedLine → List RegulationCommand → List Publication
  to_commands line [] = []
  to_commands line (c ∷ cs) =
      let rest = to_commands line cs in
      if is_immaterial runtime c then rest else regulation c line ∷ rest

  pub command_loop-respond :
      (core : AtsCore) (line : RegulatedLine) (cs : List RegulationCommand) (now : ℕ)
      → command_loop runtime core line cs now ≡ publish_all core (to_commands line cs)
  unfolding command_loop publish_all authorize
  command_loop-respond core line [] now = refl
  command_loop-respond core line (c ∷ cs) now =
      rw (violations_since_same core.know.intrusion.guard)
        (elim (Bool-cases (is_immaterial runtime c)) [
          | inl e ↦ rw e (command_loop-respond core line cs now)
          | inr e ↦
              rw e (command_loop-respond (publish_as_leader core (regulation c line)) line cs now)
        ])

  -- What is learnt of a line, and said, by the result of its regulation
  abbrev pub to_line :
      Knowledge
      → RegulatedLine
      → List TrainState
      → Option (List RegulationCommand × HeadwayRegulator)
      → Option (Knowledge × List Publication)
  to_line know line trains none = none
  to_line know line trains (some (cmds, regulator)) = some (
    record know {
      regulator = regulator;
      infeasibility_reported =
          report_infeasible runtime know.infeasibility_reported line
            (length (keep (λ (t : TrainState). not t.stale) trains));
    },
    to_commands line cmds,
  )

  abbrev pub to_cycle : Knowledge → RegulatedLine → ℕ → Option (Knowledge × List Publication)
  to_cycle know line now =
      let trains = on_line runtime know.fleet (line_of line) now in
      to_line know line trains (regulate know.regulator line trains now)

  abbrev respond_or : AtsCore → Option (Knowledge × List Publication) → Option AtsCore
  respond_or core none = none
  respond_or core (some r) = some (respond core r)

  pub regulated-respond :
      (core : AtsCore) (line : RegulatedLine) (trains : List TrainState) (now : ℕ)
      (result : Option (List RegulationCommand × HeadwayRegulator))
      → (result >>= λ (cmds, regulator). some (
          command_loop runtime
            (knowing core (record core.know {
              regulator = regulator;
              infeasibility_reported =
                  report_infeasible runtime core.know.infeasibility_reported line
                    (length (keep (λ (t : TrainState). not t.stale) trains));
            }))
            line
            cmds
            now))
        ≡ respond_or core (to_line core.know line trains result)
  regulated-respond core line trains now none = refl
  regulated-respond core line trains now (some (cmds, regulator)) =
      ap some (command_loop-respond (knowing core _) line cmds now)

  pub regulate_line-respond :
      (core : AtsCore) (line : RegulatedLine) (now : ℕ)
      → regulate_line runtime line now core ≡ respond_or core (to_cycle core.know line now)
  unfolding regulate_line
  regulate_line-respond core line now =
      let trains = on_line runtime core.know.fleet (line_of line) now in
      regulated-respond core line trains now (regulate core.know.regulator line trains now)

  -- Both lines and the state of the system, or nothing where a line does not return
  abbrev pub to_second :
      Knowledge
      → List Publication
      → ℕ
      → Option (Knowledge × List Publication)
      → Knowledge × List Publication
  to_second know ps now none = (know, [])
  to_second know ps now (some (know', qs)) =
      (know', ps ++ qs ++ system_state (state_of runtime know' now) ∷ [])

  abbrev pub to_first :
      Knowledge → ℕ → Option (Knowledge × List Publication) → Knowledge × List Publication
  to_first know now none = (know, [])
  to_first know now (some (know', ps)) = to_second know ps now (to_cycle know' line_2 now)

  abbrev pub to_regulation : Knowledge → ℕ → Knowledge × List Publication
  to_regulation know now = to_first know now (to_cycle know line_1 now)

  abbrev finished : AtsCore → ℕ → Option AtsCore → AtsCore
  finished core now none = core
  finished core now (some core') = publish_system_state runtime core' now

  pub second-respond :
      (core : AtsCore) (know : Knowledge) (ps : List Publication) (now : ℕ)
      (result : Option (Knowledge × List Publication))
      → finished core now (respond_or (respond core (know, ps)) result)
        ≡ respond core (to_second core.know ps now result)
  unfolding publish_all
  second-respond core know ps now none = refl
  second-respond core know ps now (some (know', qs)) =
      let core' = knowing core know' in
      ap (λ c. publish_system_state runtime (publish_all c qs) now)
        (publish_all-knowing (knowing core know) know' ps)
      ∙ ap (λ c. publish_system_state runtime c now) (publish_all-append core' ps qs)
      ∙ publish_system_state-respond runtime core' (ps ++ qs) now

  pub first-respond :
      (core : AtsCore) (now : ℕ) (result : Option (Knowledge × List Publication))
      → finished core now (respond_or core result >>= regulate_line runtime line_2 now)
        ≡ respond core (to_first core.know now result)
  unfolding publish_all
  first-respond core now none = refl
  first-respond core now (some (know', ps)) =
      let core' = respond core (know', ps) in
      ap (finished core now) (regulate_line-respond core' line_2 now)
      ∙ ap (λ k. finished core now (respond_or core' (to_cycle k line_2 now)))
          (publish_all-know (knowing core know') ps)
      ∙ second-respond core know' ps now (to_cycle know' line_2 now)

  pub on_regulation_due-respond :
      (core : AtsCore) (now : ℕ)
      → on_regulation_due runtime core now ≡ respond core (to_regulation core.know now)
  unfolding on_regulation_due
  on_regulation_due-respond core now =
      ap (λ o. finished core now (o >>= regulate_line runtime line_2 now))
        (regulate_line-respond core line_1 now)
      ∙ first-respond core now (to_cycle core.know line_1 now)
