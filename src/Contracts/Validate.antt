-- ===== src/Contracts/Validate.antt =====
-- packages/contracts/src/validate.ts: the envelope, then the payload by the type of the message. The
-- texts of the errors are left out.
use railsentinel.Prelude.{
  String, List, [], ◌∷◌, Option, none, some, Bool, false, not, if◌then◌else◌,
}
use railsentinel.Prelude.Map
use railsentinel.Prelude.Map.{Map}
use railsentinel.Contracts.Platform.{Platform}

module _ (platform : Platform) where
  open platform use {Json, compile, as_message}

  abbrev pub payload_validators : Map (Json → Bool)
  payload_validators =
      ("vlt.edge.intrusion.v1", compile "events/edge.intrusion.v1.schema.json")
      ∷ ("vlt.edge.health.v1", compile "events/edge.health.v1.schema.json")
      ∷ ("vlt.train.position.v1", compile "telemetry/train.position.v1.schema.json")
      ∷ ("vlt.train.regulation.v1", compile "commands/train.regulation.v1.schema.json")
      ∷ []

  -- A type that is not known is refused.
  abbrev pub validate_payload : Option (Json → Bool) → Json → Bool
  validate_payload none payload = false
  validate_payload (some validator) payload = validator payload

  unfoldable pub validate_message : Json → Bool
  validate_message msg =
      let typed = as_message msg in
      let payload_ok = validate_payload (Map.get payload_validators typed.env.type) typed.payload in
      if not (compile "envelope.schema.json" msg) then false else payload_ok

  unfoldable pub known_types : List String
  known_types = Map.keys payload_validators
