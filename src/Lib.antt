-- ===== src/Lib.antt =====
-- RailSentinel: the supervision of a light-rail line (VLT) from messages of field devices.
--
-- The parts and how they interact. A device of the field (an edge camera, a tram) publishes signed
-- messages. The ingest gateway admits or refuses each (services/ingest-gateway), with the replay guard,
-- the topics, the schemas and the signatures of packages/contracts. What is admitted reaches the ATS core
-- (services/ats-core), whose safety guard permits or refuses every effect by the class of integrity of
-- its evidence, and which asks the traffic signals for priority. The signal controller answers
-- (services/ntcip-emulator). Of several ATS cores one leads, by a lease in the database
-- (packages/leader-election).
--
-- Prelude            names of the libraries passed on, tests on native numbers, lists, integers,
--                    association lists with the order of insertion, cutting of texts, membership
-- Contracts          packages/contracts/src
--   Types            types.ts: envelope, signature, message, class of integrity
--   Payloads         types.ts: the payload of an intrusion, restrictions and alarms
--   Replay           replay.ts: `check` and `gap_count` for `ReplayGuard.check` and `gapCount`. `check` is
--                    `check_at` (bounds of age), `check_known` (look-up of the source), `check_source`
--                    (the branches), `accept` and `remember` (what is written)
--   Topics           topics.ts: `build_topic`, `parse_topic`, the patterns of the ACL
--   Canonical        canonical.ts: `canonicalize`, on values, the elements of an array, and the fields of an
--                    object in the order of `Object.keys`
--   Validate         validate.ts: the envelope, then the payload by the type of the message
--   Crypto           crypto.ts: `sign_message`, `verify_message`
--   Platform         what these take from outside the repository
-- Gateway            services/ingest-gateway/src
--   Registry         registry.ts: the devices, by key and by source
--   Pipeline         pipeline.ts: `admit`, cut where a value is looked up or parsed: `admit_parsed`,
--                    `admit_message`, `admit_device`, `admit_counted`, `freshness`
--   Conduit          main.ts: what is done with a message of the field (`on_field_message`)
--   Downlink         downlink.ts: the signed commands to the field; the signature is an argument
-- Ats                services/ats-core/src
--   SafetyGuard      safety-guard.ts: `authorize` with its audit trail
--   Topology         topology.ts: the network (Topology.Network), the look-ups and `upstream_of`
--   Fleet            fleet.ts: the trains by their last position
--   Tsp              tsp.ts: `evaluate`, `inhibit`; the guard is passed in and out; `to_ntcip` in Tsp.Mib
--   Intrusion        intrusion.ts: `handle`, cut into `handle_in` (from the section on) and
--                    `handle_incident` (the effects), and `operator_clear` in Intrusion.Release; the guard
--                    and the signal priority that it shares are part of its state
--   Traversal        topology.ts: the times to run over the network, `traversal_time_ms` for
--                    `traversalTimeS`
--   Headway          headway.ts: the setpoint (Headway.Setpoint), `regulate` and its commands; the gains are in hundredths
--                    and thousandths, the integral in nanoseconds
--   Process          main.ts: the state and the handlers of the process, with what it publishes
--                    (Process.Bus), the messages that it takes (Process.Dispatch) and the cycle of the
--                    regulation (Process.Periodic)
--   Runtime          the texts of instants, which the language's runtime gives
-- Ntcip.Controller   services/ntcip-emulator/src/controller.ts: `tick` and `apply_priority_request`;
--                    the types are in Controller.Types,
--                    `seconds_until_green` in Controller.Forecast; `none` is the exception that a missing
--                    phase raises
-- Ntcip.Emulator     services/ntcip-emulator/src/main.ts: the five controllers with their agents
--                    (Emulator.Agents), the commands and the timer; `JSON.parse` is a parameter, and what
--                    it gives is not validated: a request may be `null`, and its extension of either
--                    sign or NaN
-- Leader             packages/leader-election/src
--   Election         election.ts: each SQL statement is an atomic step on the table of leases
--   LeaseHolder      lease-holder.ts: a step of the cycle is a query and what is done with its answer, so
--                    that other calls can come between
-- Dashboard          apps/cco-dashboard/src: the operator's post
--   State            state/types.ts and the types of data/mock.ts, whose data are in Seeds
--   Line             domain/line.ts: the geometry of the loop
--   Advance          state/reducer.ts: `advance_trains` for `advanceTrains`, with its helpers and the log
--   Operator         state/reducer.ts: the operator's id; the change to capitals is the runtime's
--   Reducer          state/reducer.ts: `cco_reducer`, a helper for each action, and domain/regulation.ts
--   Initial          state/reducer.ts: `initial_state`; the hour of an instant is the runtime's
--   Selectors        state/selectors.ts
-- Pki.TrustStore     packages/pki/src/trust-store.ts: `revoke` and `validate`, with the reading of
--                    certificates in ca.ts; node-forge is a parameter
-- Authority          the gateway and the safety guard together
-- Witnesses          the theorems at concrete inputs
--
-- State is passed: an operation takes the state of its object and returns it with its result. A map is an
-- association list that keeps the order of insertion, as the language's Map does. Numbers are natural
-- where the schemas demand it, and subtraction is written out where it can pass 0; instants of the gateway
-- are integers, in milliseconds. Speeds are whole km/h and lengths whole metres, and a quotient is an exact
-- fraction where the source computes in floating point. The numbers of a priority request, which no schema
-- checks, are whole numbers of either sign or NaN. On the dashboard's loop a position is a whole number
-- of units, 1,422,000 to the loop, which is what a tram runs in that many milliseconds; the margin of 1e-9
-- for rounding is 0 there. Every loop is structural but that of
-- `traversal_time_ms`, which has a round of fuel more than there are metres to run, and each round takes a
-- metre or more.
--
-- Parameters. Contracts.Platform holds what the gateway takes from other code: bytes and JSON values
-- with their parser, the compiled schemas of Ajv, the canonical text that is signed, the verification of
-- node:crypto, and `Date.parse`. Nothing is assumed of them. Ats.Runtime holds the texts of instants.
--
-- Not modelled: the texts that only go to logs, the rest of the processes (MQTT, HTTP, SNMP), the
-- historian, the issuing of certificates, the operator's API, the views of the dashboard, and the tools.
pub mod Prelude
pub mod Contracts
pub mod Gateway
pub mod Ats
pub mod Ntcip
pub mod Leader
pub mod Dashboard
pub mod Pki
pub mod Authority
pub mod Witnesses
