-- ===== src/Ats/Process/Responds.antt =====
-- services/ats-core/src/main.ts: a response to each message of the bus, in terms of what is known
-- alone: what is known after it, and what is to be said. The process does what it says.
use railsentinel.Prelude.{
  ℕ, ◌≡◌, refl, ap, ◌∙◌, String, List, [], ◌∷◌, ◌++◌, Option, none, some, true, not, ◌&&◌,
  Bool-cases, inl, inr, length, if◌then◌else◌,
}
use railsentinel.Prelude.Map
use railsentinel.Contracts.Types.{Message}
use railsentinel.Contracts.Payloads.{IntrusionData}
use railsentinel.Leader.LeaseHolder.{is_leader}
use railsentinel.Ats.Runtime.{Runtime}
use railsentinel.Ats.SafetyGuard.{SafetyGuard, SafetyViolation}
use railsentinel.Ats.Fleet
use railsentinel.Ats.Fleet.{TrainPosition, TrainState, upsert, on_line}
use railsentinel.Ats.Tsp.{evaluate}
use railsentinel.Ats.Intrusion.{handle}
use railsentinel.Ats.Intrusion.Types.{Draw}
use railsentinel.Ats.Intrusion.Release.{operator_clear}
use railsentinel.Ats.Process.Bus.{
  HealthData, EdgeHealth, Publication, section_cleared, system_state,
}
use railsentinel.Ats.Process.{
  Knowledge, AtsCore, drop, knowing, publish_as_leader, publish_all, violations_since, same_status,
  is_lost, state_of, publish_system_state, outcome_publications, on_intrusion, coverage_lost,
  report_change, on_health, evaluation_publications, evaluate_train, on_position, on_clear_section,
}

pub publish_as_leader-know :
    (core : AtsCore) (p : Publication) → (publish_as_leader core p).know ≡ core.know
unfolding publish_as_leader
publish_as_leader-know core p = elim (Bool-cases (is_leader core.leader)) [
  | inl e ↦ rw e refl
  | inr e ↦ rw e refl
]

pub publish_all-know :
    (core : AtsCore) (ps : List Publication) → (publish_all core ps).know ≡ core.know
unfolding publish_all
publish_all-know core [] = refl
publish_all-know core (p ∷ ps) =
    publish_all-know (publish_as_leader core p) ps ∙ publish_as_leader-know core p

pub publish_all-append :
    (core : AtsCore) (ps qs : List Publication)
    → publish_all (publish_all core ps) qs ≡ publish_all core (ps ++ qs)
unfolding publish_all
publish_all-append core [] qs = refl
publish_all-append core (p ∷ ps) qs = publish_all-append (publish_as_leader core p) ps qs

-- The process comes to know this, and publishes that as far as it leads.
abbrev pub respond : AtsCore → Knowledge × List Publication → AtsCore
respond core (know, ps) = publish_all (knowing core know) ps

drop_all : (vs : List SafetyViolation) → drop (length vs) vs ≡ []
drop_all [] = refl
drop_all (v ∷ vs) = drop_all vs

pub violations_since_same : (g : SafetyGuard) → violations_since g g ≡ []
unfolding violations_since
violations_since_same g = rw (drop_all g.notified) refl

-- What is known does not change what is published.
pub publish_all-knowing :
    (core : AtsCore) (know : Knowledge) (ps : List Publication)
    → knowing (publish_all core ps) know ≡ publish_all (knowing core know) ps
unfolding publish_all publish_as_leader
publish_all-knowing core know [] = refl
publish_all-knowing core know (p ∷ ps) = elim (Bool-cases (is_leader core.leader)) [
  | inl e ↦ rw (e, publish_all) (publish_all-knowing _ know ps)
  | inr e ↦ rw (e, publish_all) (publish_all-knowing core know ps)
]

module _ (runtime : Runtime) where
  pub publish_system_state-respond :
      (core : AtsCore) (ps : List Publication) (now : ℕ)
      → publish_system_state runtime (publish_all core ps) now
        ≡ publish_all core (ps ++ system_state (state_of runtime core.know now) ∷ [])
  unfolding publish_system_state publish_all
  publish_system_state-respond core ps now =
      ap (λ k. publish_as_leader (publish_all core ps) (system_state (state_of runtime k now)))
        (publish_all-know core ps)
      ∙ publish_all-append core ps (system_state (state_of runtime core.know now) ∷ [])

  -- The responses to the inputs, in terms of what is known alone
  abbrev pub to_intrusion : Knowledge → Draw → Message IntrusionData → Knowledge × List Publication
  to_intrusion know draw msg =
      let (outcome, handler) = handle runtime draw know.intrusion know.fleet msg in
      let know' : Knowledge = record know { intrusion = handler } in
      let heard = violations_since know.intrusion.guard handler.guard in
      (
        know',
        if not outcome.accepted
            then heard
            else heard
              ++ outcome_publications runtime outcome
              ++ system_state (state_of runtime know' draw.now) ∷ [],
      )

  pub on_intrusion-respond :
      (core : AtsCore) (draw : Draw) (msg : Message IntrusionData)
      → on_intrusion runtime core draw msg ≡ respond core (to_intrusion core.know draw msg)
  unfolding on_intrusion
  on_intrusion-respond core draw msg =
      let (outcome, handler) = handle runtime draw core.know.intrusion core.know.fleet msg in
      let core' = knowing core (record core.know { intrusion = handler }) in
      let heard = violations_since core.know.intrusion.guard handler.guard in
      let told = outcome_publications runtime outcome in
      elim (Bool-cases (not outcome.accepted)) [
        | inl e ↦ rw e refl
        | inr e ↦ rw e (
            rw (publish_all-append core' heard told)
              (publish_system_state-respond core' (heard ++ told) draw.now))
      ]

  abbrev pub to_report :
      Knowledge → Option EdgeHealth → Draw → Message HealthData → List Publication
  to_report know none draw msg = []
  to_report know (some prev) draw msg =
      if not (same_status prev.status msg.payload.status) && is_lost msg.payload.status
      then coverage_lost runtime draw msg ∷ system_state (state_of runtime know draw.now) ∷ []
      else []

  pub report_change-respond :
      (core : AtsCore) (prev : Option EdgeHealth) (draw : Draw) (msg : Message HealthData)
      → report_change runtime core prev draw msg
        ≡ publish_all core (to_report core.know prev draw msg)
  unfolding report_change publish_all
  report_change-respond core none draw msg = refl
  report_change-respond core (some prev) draw msg =
      elim (Bool-cases
        (not (same_status prev.health.status msg.payload.status) && is_lost msg.payload.status)) [
          | inl e ↦
              rw e
                (publish_system_state-respond core (coverage_lost runtime draw msg ∷ []) draw.now)
          | inr e ↦ rw e refl
        ]

  abbrev pub to_health : Knowledge → Draw → Message HealthData → Knowledge × List Publication
  to_health know draw msg =
      let stored : EdgeHealth = record {
        health = msg.payload;
        src = msg.env.src;
        at = msg.env.ts;
      } in
      let know' : Knowledge = record know {
        edge_health = Map.set know.edge_health msg.env.src stored;
      } in
      (know', to_report know' (Map.get know.edge_health msg.env.src) draw msg)

  pub on_health-respond :
      (core : AtsCore) (draw : Draw) (msg : Message HealthData)
      → on_health runtime core draw msg ≡ respond core (to_health core.know draw msg)
  unfolding on_health
  on_health-respond core draw msg =
      report_change-respond (knowing core (to_health core.know draw msg).0)
        (Map.get core.know.edge_health msg.env.src) draw msg

  abbrev pub to_train :
      Knowledge → Option TrainState → Message TrainPosition → ℕ → Knowledge × List Publication
  to_train know none msg now = (know, [])
  to_train know (some train) msg now =
      let before = know.intrusion in
      let (evaluation, tsp, guard) =
        evaluate runtime before.tsp before.guard train msg.env.class msg.env.id now in
      (
        record know { intrusion = record before { tsp = tsp; guard = guard } },
        violations_since before.guard guard ++ evaluation_publications runtime evaluation,
      )

  abbrev pub to_position : Knowledge → Message TrainPosition → ℕ → Knowledge × List Publication
  to_position know msg now =
      let (state, fleet) = upsert know.fleet msg.payload msg.env.ts in
      to_train (record know { fleet = fleet }) (Fleet.get fleet msg.payload.train_id) msg now

  pub evaluate_train-respond :
      (core : AtsCore) (train : Option TrainState) (msg : Message TrainPosition) (now : ℕ)
      → evaluate_train runtime core train msg now ≡ respond core (to_train core.know train msg now)
  unfolding evaluate_train publish_all
  evaluate_train-respond core none msg now = refl
  evaluate_train-respond core (some train) msg now = refl

  pub on_position-respond :
      (core : AtsCore) (msg : Message TrainPosition) (now : ℕ)
      → on_position runtime core msg now ≡ respond core (to_position core.know msg now)
  unfolding on_position
  on_position-respond core msg now =
      let (state, fleet) = upsert core.know.fleet msg.payload msg.env.ts in
      evaluate_train-respond (knowing core (record core.know { fleet = fleet }))
        (Fleet.get fleet msg.payload.train_id) msg now

  abbrev pub to_clear : Knowledge → String → Option String → ℕ → Knowledge × List Publication
  to_clear know section_id operator_id now =
      let ((released, crossings), handler) = operator_clear know.intrusion section_id in
      let know' : Knowledge = record know { intrusion = handler } in
      (
        know',
        if released
            then section_cleared (record {
              restriction_id = "";
              section_id = section_id;
              cleared = true;
              cleared_by = operator_id;
              cleared_at = runtime.to_iso now;
            })
              ∷ system_state (state_of runtime know' now)
              ∷ []
            else [],
      )

  pub on_clear_section-respond :
      (core : AtsCore) (section_id : String) (operator_id : Option String) (now : ℕ)
      → on_clear_section runtime core section_id operator_id now
        ≡ respond core (to_clear core.know section_id operator_id now)
  unfolding on_clear_section publish_all
  on_clear_section-respond core section_id operator_id now =
      let ((released, crossings), handler) = operator_clear core.know.intrusion section_id in
      let core' = knowing core (record core.know { intrusion = handler }) in
      elim (Bool-cases released) [
        | inl e ↦ rw e (publish_system_state-respond core' (_ ∷ []) now)
        | inr e ↦ rw e refl
      ]
