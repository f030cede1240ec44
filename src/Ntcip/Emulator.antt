-- ===== src/Ntcip/Emulator.antt =====
-- services/ntcip-emulator/src/main.ts: the emulated controllers, their agents, and the answers to the
-- messages of the bus. `JSON.parse` of a payload, the text of an instant and the acceleration of the
-- clock are parameters. `none` is an exception that no handler catches.
pub mod Agents
pub mod Sound
use railsentinel.Prelude.{
  ℕ, zero, suc, ◌+◌, String, List, [], ◌∷◌, ◌++◌, Option, none, some, Bool, true, false, str_eq,
  ◌==◌, get_elem?, if◌then◌else◌, ◌>>=◌,
}
use railsentinel.Prelude.Text.{split}
use railsentinel.Ntcip.Controller.{new, tick, apply_priority_request}
use railsentinel.Ntcip.Controller.Types.{
  PhaseColor, green, yellow, all_red, is_green, PhaseConfig, PriorityRequest, GrantOutcome,
  SignalController,
}
use railsentinel.Ntcip.Controller.Forecast.{seconds_until_green}
use railsentinel.Ntcip.Emulator.Agents.{Entry, Sent, grant, grant_message, publish_state, state}

pub data Kind : Type 0 where
  priority_request : Kind
  query : Kind

abbrev pub kind_of : String → Option Kind
kind_of s =
    if str_eq s "priority_request"
    then some priority_request
    else if str_eq s "query"
    then some query
    else none

abbrev pub command_parts : List String → Option (String × Kind)
command_parts (root ∷ id ∷ word ∷ []) =
    let command = kind_of word >>= λ k. some (id, k) in
    if str_eq root "ntcip" then if str_eq id "" then none else command else none
command_parts _ = none

-- `/^ntcip\/([^/]+)\/(priority_request|query)$/`
unfoldable pub command_of : String → Option (String × Kind)
unfolding split
command_of topic = command_parts (split 47 topic)

-- What is done with the controller of an id: the first that has it, and nothing without one
unfoldable pub serve :
    String → (Entry → Option (Entry × List Sent)) → List Entry → Option (List Entry × List Sent)
serve id f [] = some ([], [])
serve id f (e ∷ rest) =
    let here = f e >>= λ (e', sent). some (e' ∷ rest, sent) in
    let later = serve id f rest >>= λ (rest', sent). some (e ∷ rest', sent) in
    if str_eq e.ctl.id id then here else later

unfoldable pub answer_query : Entry → Option (Entry × List Sent)
unfolding publish_state
answer_query e = do (e', msg) ← publish_state e.port e.ctl; some (e', state msg ∷ [])

unfoldable pub answer_request : String → PriorityRequest → Entry → Option (Entry × List Sent)
unfolding publish_state
answer_request at req e = do
  (outcome, ctl) ← apply_priority_request e.ctl req
  seconds ← seconds_until_green ctl req.phase
  (e', msg) ← publish_state e.port ctl
  some (e', grant (grant_message ctl.id at req outcome seconds) ∷ state msg ∷ [])

-- What `JSON.parse` makes of a payload: an exception, `null`, of which no field can be read, or a value
-- with the fields that it has
pub data Reading : Type 0 where
  not_json : Reading
  null : Reading
  request : PriorityRequest → Reading

abbrev pub answer_parsed : String → Reading → Entry → Option (Entry × List Sent)
answer_parsed at not_json e = some (e, [])
answer_parsed at null e = none
answer_parsed at (request req) e = answer_request at req e

-- The timer: every controller's clock goes on
unfoldable pub tick_all : ℕ → List Entry → Option (List Entry × List Sent)
unfolding publish_state
tick_all accel [] = some ([], [])
tick_all accel (e ∷ rest) = do
  ctl ← tick e.ctl accel
  (e', msg) ← publish_state e.port ctl
  (rest', sent) ← tick_all accel rest
  some (e' ∷ rest', state msg ∷ sent)

-- What happens to the emulator: a message, and the timer
pub data Event : Type 0 where
  message : (topic payload at : String) → Event
  timer : Event

module _ (parse : String → Reading) where
  unfoldable pub on_command :
      Option (String × Kind) → (payload at : String) → List Entry → Option (List Entry × List Sent)
  unfolding serve answer_query answer_request
  on_command none payload at es = some (es, [])
  on_command (some (id, query)) payload at es = serve id answer_query es
  on_command (some (id, priority_request)) payload at es =
      serve id (answer_parsed at (parse payload)) es

  -- `bus.on('message')`
  unfoldable pub on_message :
      (topic payload at : String) → List Entry → Option (List Entry × List Sent)
  unfolding on_command command_of
  on_message topic payload at es = on_command (command_of topic) payload at es

  unfoldable pub step : ℕ → List Entry → Event → Option (List Entry × List Sent)
  unfolding on_message tick_all
  step accel es (message topic payload at) = on_message topic payload at es
  step accel es timer = tick_all accel es

  -- the emulator after a series of events, with what it has sent
  unfoldable pub run : ℕ → List Entry → List Event → Option (List Entry × List Sent)
  unfolding step
  run accel es [] = some (es, [])
  run accel es (e ∷ events) = do
    (es', sent) ← step accel es e
    (es'', later) ← run accel es' events
    some (es'', sent ++ later)
