-- ===== src/Ats/Process/Dispatch.antt =====
-- services/ats-core/src/main.ts: what is done with a message of the bus, by its topic. The reading of a
-- payload is a parameter; the payloads have the shape that their topic demands.
use text.Mathlib.Text.{starts_with}
use railsentinel.Prelude.{
  ℕ, String, List, [], ◌∷◌, Option, none, some, Bool, ◌||◌, str_eq, if◌then◌else◌,
}
use railsentinel.Contracts.Types.{Message}
use railsentinel.Contracts.Topics.{normalized_intrusion, normalized_health, normalized_position}
use railsentinel.Contracts.Payloads.{IntrusionData}
use railsentinel.Leader.LeaseHolder.{Answer, receive_answer}
use railsentinel.Ats.Runtime.{Runtime}
use railsentinel.Ats.Fleet.{TrainPosition}
use railsentinel.Ats.Tsp.Types.{CrossingFeedback, GrantResult}
use railsentinel.Ats.Intrusion.Types.{Draw}
use railsentinel.Ats.Process.Bus.{HealthData}
use railsentinel.Ats.Process.{
  AtsCore, on_intrusion, on_health, on_position, on_clear_section, on_crossing_state,
  on_grant_result,
}
use railsentinel.Ats.Process.Periodic.{on_regulation_due}

pub record Decoder (Json : Type 0) : Type 1 where
  pub parse : String → Option Json
  pub as_intrusion : Json → Message IntrusionData
  pub as_health : Json → Message HealthData
  pub as_position : Json → Message TrainPosition
  pub as_section_id : Json → String
  pub as_operator_id : Json → Option String
  pub as_state : Json → ℕ → CrossingFeedback
  pub as_grant : Json → GrantResult

unfoldable pub ends_with : String → String → Bool
ends_with String.[] end = str_eq "" end
ends_with (String.◌∷◌ c s) end = let later = ends_with s end in str_eq (String.◌∷◌ c s) end || later

-- What a message asks for, by its topic
pub data Input : Type 0 where
  intrusion : Message IntrusionData → Input
  health : Message HealthData → Input
  position : Message TrainPosition → Input
  clear_section : (section_id : String) (operator_id : Option String) → Input
  crossing_state : CrossingFeedback → Input
  grant_result : GrantResult → Input
  ignored : Input

module _ {Json : Type 0} (decoder : Decoder Json) where
  open decoder use {
    parse, as_intrusion, as_health, as_position, as_section_id, as_operator_id, as_state, as_grant,
  }

  unfoldable pub route : String → Option Json → ℕ → Input
  unfolding ends_with
  route topic none now = ignored
  route topic (some j) now =
      if str_eq topic normalized_intrusion
      then intrusion (as_intrusion j)
      else if str_eq topic normalized_health
      then health (as_health j)
      else if str_eq topic normalized_position
      then position (as_position j)
      else if starts_with topic "core/cmd/operator/"
      then if ends_with topic "/clear_section"
        then clear_section (as_section_id j) (as_operator_id j)
        else ignored
      else if ends_with topic "/state"
      then crossing_state (as_state j now)
      else if ends_with topic "/grant"
      then grant_result (as_grant j)
      else ignored

  unfoldable pub input_of : String → String → ℕ → Input
  unfolding route
  input_of topic payload now = route topic (parse payload) now

module _ (runtime : Runtime) where
  unfoldable pub take_input : AtsCore → Input → Draw → AtsCore
  unfolding on_intrusion on_health on_position on_clear_section on_crossing_state on_grant_result
  take_input core (intrusion msg) draw = on_intrusion runtime core draw msg
  take_input core (health msg) draw = on_health runtime core draw msg
  take_input core (position msg) draw = on_position runtime core msg draw.now
  take_input core (clear_section id operator_id) draw =
      on_clear_section runtime core id operator_id draw.now
  take_input core (crossing_state fb) draw = on_crossing_state runtime core fb
  take_input core (grant_result r) draw = on_grant_result runtime core r
  take_input core ignored draw = core

  -- `bus.on('message')`
  unfoldable pub on_message :
      {Json : Type 0} → Decoder Json → AtsCore → (topic payload : String) → Draw → AtsCore
  unfolding take_input input_of
  on_message decoder core topic payload draw =
      take_input core (input_of decoder topic payload draw.now) draw

-- What happens to the process: a message of the bus, the timer of the regulation, and an answer of the
-- table of leases
pub data Event : Type 0 where
  message : (topic payload : String) (draw : Draw) → Event
  regulation_due : (now : ℕ) → Event
  lease_answer : Answer → Event

module _ (runtime : Runtime) {Json : Type 0} (decoder : Decoder Json) where
  unfoldable pub step : AtsCore → Event → AtsCore
  unfolding on_message on_regulation_due
  step core (message topic payload draw) = on_message runtime decoder core topic payload draw
  step core (regulation_due now) = on_regulation_due runtime core now
  step core (lease_answer a) = record core { leader = receive_answer core.leader a }

  unfoldable pub run : AtsCore → List Event → AtsCore
  unfolding step
  run core [] = core
  run core (e ∷ es) = run (step core e) es
