-- ===== src/Ats/Process/Keeps.antt =====
-- services/ats-core/src/main.ts: of all that reaches the process, only the operator's command reopens a
-- section or resumes priority at a crossing.
use railsentinel.Prelude.{◌≡◌, String, List, Option, none, some, true}
use railsentinel.Prelude.Map
use railsentinel.Ats.Runtime.{Runtime}
use railsentinel.Ats.Fleet
use railsentinel.Ats.Intrusion.Types.{IntrusionHandler}
use railsentinel.Ats.Intrusion.Effects.{IsSuspended}
use railsentinel.Ats.Process.Bus.{Publication}
use railsentinel.Ats.Process.{Knowledge}
use railsentinel.Ats.Process.Dispatch.{
  Decoder, Input, intrusion, clear_section, input_of, Event, message, regulation_due, lease_answer,
}

-- Priority is suspended at a crossing, and a section has an open incident.
abbrev pub IsClosed : IntrusionHandler → String → String → Type 0
IsClosed h crossing section = IsSuspended h.tsp crossing × (Map.has h.open_incidents section ≡ true)

abbrev pub IsNoCommand : Input → Type 0
IsNoCommand (clear_section id operator_id) = ⊥
IsNoCommand _ = Unit

-- A regulation leaves the incidents and the priority alone.
abbrev SameIntrusion : Knowledge → Option (Knowledge × List Publication) → Type 0
SameIntrusion know none = Unit
SameIntrusion know (some r) = r.0.intrusion ≡ know.intrusion

module _ (runtime : Runtime) where
  module _ {Json : Type 0} (decoder : Decoder Json) where
    abbrev pub IsNoCommandEvent : Event → Type 0
    IsNoCommandEvent (message topic payload draw) =
        IsNoCommand (input_of decoder topic payload draw.now)
    IsNoCommandEvent (regulation_due now) = Unit
    IsNoCommandEvent (lease_answer a) = Unit
