-- ===== src/Contracts/Platform.antt =====
-- What the messages rest on and is not in the repository: the JSON parser and the compiled schemas of
-- Ajv, the signatures of node:crypto and `Date.parse`. Values of JSON are abstract. The text that is
-- signed, which canonical.ts writes, is a function of the envelope and the payload.
use railsentinel.Prelude.{ℕ, String, Option, Bool}
use railsentinel.Prelude.Int.{ℤ}
use railsentinel.Contracts.Types.{Envelope, Message}

pub record Platform : Type 1 where
  pub Bytes : Type 0
  pub Json : Type 0
  pub byte_length : Bytes → ℕ
  -- `none` is a SyntaxError
  pub parse_json : Bytes → Option Json
  -- `ajv.compile(load(path))`
  pub compile : String → Json → Bool
  -- the fields of a value that has passed the schemas
  pub as_message : Json → Message Json
  -- the canonical text of {env, data}
  pub signing_input : Envelope → Json → String
  -- text, public key, value of the signature; `none` is an exception
  pub ed25519_verify : String → String → String → Option Bool
  pub date_parse : String → Option ℤ
