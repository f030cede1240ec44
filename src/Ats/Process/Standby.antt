-- ===== src/Ats/Process/Standby.antt =====
-- services/ats-core/src/main.ts: what the process learns and what it publishes, against a description
-- in which the lead decides on nothing but the publishing: a standby learns what the leader learns.
use mathlib.Core.List.{append-nil, append_assoc}
use railsentinel.Prelude.{
  ◌≡◌, refl, sym, ap, ◌∙◌, List, [], ◌∷◌, ◌++◌, Bool-cases, inl, inr, if◌then◌else◌,
}
use railsentinel.Leader.LeaseHolder.{LeaseHolder, is_leader, receive_answer}
use railsentinel.Ats.Runtime.{Runtime}
use railsentinel.Ats.Tsp.{observe, record_outcome}
use railsentinel.Ats.Intrusion.Types.{Draw}
use railsentinel.Ats.Process.Bus.{Publication}
use railsentinel.Ats.Process.{
  Knowledge, AtsCore, knowing, publish_as_leader, publish_all, on_crossing_state, on_grant_result,
}
use railsentinel.Ats.Process.Dispatch.{
  Decoder, Input, intrusion, health, position, clear_section, crossing_state, grant_result, ignored,
  input_of, take_input, on_message, Event, message, regulation_due, lease_answer, step, run,
}
use railsentinel.Ats.Process.Responds.{
  publish_all-know, respond, to_intrusion, to_health, to_position, to_clear, on_intrusion-respond,
  on_health-respond, on_position-respond, on_clear_section-respond,
}
use railsentinel.Ats.Process.Cycle.{to_regulation, on_regulation_due-respond}

publish_all-leader :
    (core : AtsCore) (ps : List Publication) → (publish_all core ps).leader ≡ core.leader
unfolding publish_all publish_as_leader
publish_all-leader core [] = refl
publish_all-leader core (p ∷ ps) = elim (Bool-cases (is_leader core.leader)) [
  | inl e ↦
      rw (e, publish_all)
        (publish_all-leader (record core { published = core.published ++ p ∷ [] }) ps)
  | inr e ↦ rw (e, publish_all) (publish_all-leader core ps)
]

-- What gets out of the process
abbrev pub let_out : LeaseHolder → List Publication → List Publication
let_out l ps = if is_leader l then ps else []

publish_all-published :
    (core : AtsCore) (ps : List Publication)
    → (publish_all core ps).published ≡ core.published ++ let_out core.leader ps
unfolding publish_all publish_as_leader
publish_all-published core [] = elim (Bool-cases (is_leader core.leader)) [
  | inl e ↦ rw e (sym (append-nil core.published))
  | inr e ↦ rw e (sym (append-nil core.published))
]
publish_all-published core (p ∷ ps) = elim (Bool-cases (is_leader core.leader)) [
  | inl e ↦
      let core' : AtsCore = record core { published = core.published ++ p ∷ [] } in
      let ih : (publish_all core' ps).published ≡ core.published ++ p ∷ [] ++ ps =
        rw e at (publish_all-published core' ps) in
      rw (e, publish_all) (ih ∙ append_assoc core.published (p ∷ []) ps)
  | inr e ↦ rw (e, publish_all) (rw e at (publish_all-published core ps))
]

module _ (runtime : Runtime) where
  -- The response to an input, and to whatever happens
  abbrev pub to_input : Knowledge → Input → Draw → Knowledge × List Publication
  to_input know (intrusion msg) draw = to_intrusion runtime know draw msg
  to_input know (health msg) draw = to_health runtime know draw msg
  to_input know (position msg) draw = to_position runtime know msg draw.now
  to_input know (clear_section id operator_id) draw = to_clear runtime know id operator_id draw.now
  to_input know (crossing_state fb) draw = (
    record know { intrusion = record know.intrusion { tsp = observe know.intrusion.tsp fb } },
    [],
  )
  to_input know (grant_result r) draw = (
    record know { intrusion = record know.intrusion { tsp = record_outcome know.intrusion.tsp r } },
    [],
  )
  to_input know ignored draw = (know, [])

  take_input-respond :
      (core : AtsCore) (input : Input) (draw : Draw)
      → take_input runtime core input draw ≡ respond core (to_input core.know input draw)
  unfolding take_input on_crossing_state on_grant_result publish_all
  take_input-respond core (intrusion msg) draw = on_intrusion-respond runtime core draw msg
  take_input-respond core (health msg) draw = on_health-respond runtime core draw msg
  take_input-respond core (position msg) draw = on_position-respond runtime core msg draw.now
  take_input-respond core (clear_section id operator_id) draw =
      on_clear_section-respond runtime core id operator_id draw.now
  take_input-respond core (crossing_state fb) draw = refl
  take_input-respond core (grant_result r) draw = refl
  take_input-respond core ignored draw = refl

-- The events without the answers of the table of leases
abbrev pub bus_events : List Event → List Event
bus_events [] = []
bus_events (lease_answer a ∷ es) = bus_events es
bus_events (e ∷ es) = e ∷ bus_events es

abbrev pub lease_after : LeaseHolder → Event → LeaseHolder
lease_after l (lease_answer a) = receive_answer l a
lease_after l e = l

module _ (runtime : Runtime) {Json : Type 0} (decoder : Decoder Json) where
  abbrev pub response : Knowledge → Event → Knowledge × List Publication
  response know (message topic payload draw) =
      to_input runtime know (input_of decoder topic payload draw.now) draw
  response know (regulation_due now) = to_regulation runtime know now
  response know (lease_answer a) = (know, [])

  -- What is known after a series of events, and what a process with this lease publishes of it
  abbrev pub learn : Knowledge → List Event → Knowledge
  learn know [] = know
  learn know (e ∷ es) = learn (response know e).0 es

  abbrev pub said : LeaseHolder → Knowledge → List Event → List Publication
  said l know [] = []
  said l know (e ∷ es) =
      let l' = lease_after l e in let_out l' (response know e).1 ++ said l' (response know e).0 es

  step-respond :
      (core : AtsCore) (e : Event)
      → step runtime decoder core e
        ≡ respond (record core { leader = lease_after core.leader e }) (response core.know e)
  unfolding step on_message publish_all
  step-respond core (message topic payload draw) =
      take_input-respond runtime core (input_of decoder topic payload draw.now) draw
  step-respond core (regulation_due now) = on_regulation_due-respond runtime core now
  step-respond core (lease_answer a) = refl

  respond-leader :
      (core : AtsCore) (r : Knowledge × List Publication) → (respond core r).leader ≡ core.leader
  respond-leader core (know, ps) = publish_all-leader (knowing core know) ps

  respond-know : (core : AtsCore) (r : Knowledge × List Publication) → (respond core r).know ≡ r.0
  respond-know core (know, ps) = publish_all-know (knowing core know) ps

  respond-published :
      (core : AtsCore) (r : Knowledge × List Publication)
      → (respond core r).published ≡ core.published ++ let_out core.leader r.1
  respond-published core (know, ps) = publish_all-published (knowing core know) ps

  learn-bus_events :
      (know : Knowledge) (es : List Event) → learn know es ≡ learn know (bus_events es)
  learn-bus_events know [] = refl
  learn-bus_events know (message topic payload draw ∷ es) =
      learn-bus_events (response know (message topic payload draw)).0 es
  learn-bus_events know (regulation_due now ∷ es) =
      learn-bus_events (response know (regulation_due now)).0 es
  learn-bus_events know (lease_answer a ∷ es) = learn-bus_events know es

  pub run-learn :
      (core : AtsCore) (es : List Event)
      → ((run runtime decoder core es).know ≡ learn core.know es)
        × ((run runtime decoder core es).published
            ≡ core.published ++ said core.leader core.know es)
  unfolding run
  run-learn core [] = (refl, sym (append-nil core.published))
  run-learn core (e ∷ es) =
      let r = response core.know e in
      let core' : AtsCore = record core { leader = lease_after core.leader e } in
      let after = respond core' r in
      let (learnt, told) = run-learn after es in
      (
        ap (λ c. (run runtime decoder c es).know) (step-respond core e)
            ∙ learnt
            ∙ ap (λ k. learn k es) (respond-know core' r),
        ap (λ c. (run runtime decoder c es).published) (step-respond core e)
            ∙ told
            ∙ ap (λ l. after.published ++ said l after.know es) (respond-leader core' r)
            ∙ ap (λ k. after.published ++ said core'.leader k es) (respond-know core' r)
            ∙ ap (λ ps. ps ++ said core'.leader r.0 es) (respond-published core' r)
            ∙ append_assoc core.published (let_out core'.leader r.1) (said core'.leader r.0 es),
      )

  -- Whatever the table of leases answers: what the process knows after a series of events follows from
  -- the messages of the bus and the timer alone, and what it has published is what these have to say,
  -- in order, of those events at which it leads. So a standby that gets the same messages, with the
  -- same draws of ids and times, knows what the leader knows, and publishes nothing.
  pub run-Refines :
      (core : AtsCore) (es : List Event)
      → ((run runtime decoder core es).know ≡ learn core.know (bus_events es))
        × ((run runtime decoder core es).published
            ≡ core.published ++ said core.leader core.know es)
  run-Refines core es =
      let (learnt, told) = run-learn core es in (learnt ∙ learn-bus_events core.know es, told)
