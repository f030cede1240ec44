-- ===== src/Ats/Tsp/Mib.antt =====
-- services/ats-core/src/tsp.ts, `toNtcip`: a decision as objects of the MIB of NTCIP 1202.
use railsentinel.Prelude.{ℕ, String, List, [], ◌∷◌, ◌++◌, Option, none, some}
use railsentinel.Prelude.Map.{Map}
use railsentinel.Ats.Topology.{get_crossing}
use railsentinel.Ats.Topology.Network.{Crossing}
use railsentinel.Ats.Tsp.Types.{
  TspDecision, Strategy, green_extension, red_truncation, phase_call, max_green_extension_s,
}

pub data MibValue : Type 0 where
  number : ℕ → MibValue
  text : String → MibValue

pub record NtcipCommand : Type 0 where
  pub endpoint : String
  pub mib_objects : Map MibValue
  pub strategy : Strategy

abbrev mib_base : Crossing → String → Map MibValue
mib_base crossing train_id =
    ("priorityRequestServer.prsControlPlan", number 1)
    ∷ ("priorityRequest.priorityRequestPhase", number crossing.vlt_phase)
    ∷ ("priorityRequest.priorityRequestVehicleClass", number 6)
    ∷ ("priorityRequest.priorityRequestID", text train_id)
    ∷ []

abbrev mib_of : Option Strategy → Crossing → List (String × MibValue) × Strategy
mib_of (some green_extension) crossing = (
  ("phaseTable.phaseMaxGreenExtension", number max_green_extension_s)
      ∷ ("priorityRequest.priorityRequestStrategyNumber", number 2)
      ∷ [],
  green_extension,
)
mib_of (some red_truncation) crossing = (
  ("phaseTable.phaseForceOff", number 1)
      ∷ ("priorityRequest.priorityRequestStrategyNumber", number 3)
      ∷ [],
  red_truncation,
)
mib_of _ crossing = (
  ("phaseControl.phaseCall", number crossing.vlt_phase)
      ∷ ("priorityRequest.priorityRequestStrategyNumber", number 1)
      ∷ [],
  phase_call,
)

unfoldable pub to_ntcip : TspDecision → Option NtcipCommand
to_ntcip decision = elim (get_crossing decision.crossing_id) [
  | none ↦ none
  | some crossing ↦
      let (objects, strategy) = mib_of decision.ntcip_strategy crossing in
      some (record {
        endpoint = crossing.ntcip_endpoint;
        mib_objects = mib_base crossing decision.train_id ++ objects;
        strategy = strategy;
      })
]
