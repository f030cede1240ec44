-- ===== src/Ats/Tsp.antt =====
-- services/ats-core/src/tsp.ts: transit signal priority. The guard that the controller shares with the
-- other parts is passed in and out. Speeds are whole km/h and lengths whole metres, so an ETA is an
-- exact fraction of seconds. The text of a decision's reason is left out; the reason for which a train
-- is skipped is a constructor. The clock is read once for an evaluation.
pub mod Inhibition
pub mod Types
pub mod Eligible
pub mod Debounce
pub mod Mib
use railsentinel.Prelude.{
  ℕ, ◌-◌, ◌*◌, max, String, List, [], ◌∷◌, ◌++◌, Option, none, some, Bool, true, false, not, ◌&&◌,
  ltb, ◌==◌, length, tail_or_nil, count_if, if◌then◌else◌,
}
use railsentinel.Prelude.Int.{ℤ, pos, ◌-ℤ◌, ◌*ℤ◌, ◌+ℤ◌, ltb_ℤ}
use railsentinel.Prelude.Map
use railsentinel.Prelude.Map.{Map}
use railsentinel.Prelude.Text.{◌+++◌}
use railsentinel.Contracts.Types.{IntegrityClass}
use railsentinel.Contracts.Topics.{nonempty}
use railsentinel.Ats.Runtime.{Runtime}
use railsentinel.Ats.SafetyGuard.{SafetyGuard, authorize, grant_tsp_request, revoke_tsp_request}
use railsentinel.Ats.Topology.{get_section, get_crossing}
use railsentinel.Ats.Topology.Network.{TrackSection, Crossing}
use railsentinel.Ats.Fleet.{TrainState, or_zero}
use railsentinel.Ats.Tsp.Types.{
  CrossingFeedback, Eta, Flight, GrantResult, SkipReason, Strategy, TspController, TspEvaluation,
  beyond_horizon, crossing_unknown, decided, delay_below_threshold, early_or_on_time,
  green_extension, green_in_time, green_margin_s, is_green, min_delay_for_priority_s, no_crossing,
  phase_call, priority_suspended, red_truncation, refused_by_guard, request_debounce_ms,
  request_grant, request_horizon_s, request_in_flight, skipped, train_stale,
}

abbrev pub new : TspController
new = record { inhibited = []; feedback = []; in_flight = []; outcomes = [] }

unfoldable pub observe : TspController → CrossingFeedback → TspController
observe t fb = record t { feedback = Map.set t.feedback fb.crossing_id fb }

unfoldable pub record_outcome : TspController → GrantResult → TspController
record_outcome t result =
    let grown = t.outcomes ++ result ∷ [] in
    record t {
      outcomes = if ltb 500 (length grown) then tail_or_nil grown else grown;
      in_flight = Map.delete t.in_flight result.crossing_id;
    }

-- the fraction of requests that were granted, as its two parts; 0 of 1 without any
unfoldable pub grant_rate : TspController → ℕ × ℕ
grant_rate t =
    if length t.outcomes == 0
    then (0, 1)
    else (count_if (λ o. o.granted) t.outcomes, length t.outcomes)

unfoldable pub release : TspController → String → TspController
release t crossing_id = record t { inhibited = Map.delete t.inhibited crossing_id }

unfoldable pub is_inhibited : TspController → String → Bool
is_inhibited t crossing_id = Map.has t.inhibited crossing_id

-- `18 * metres / (5 * km/h)` seconds, at no less than 5 km/h
unfoldable pub eta_of : TrackSection → TrainState → Eta
eta_of section train = record {
  num = pos 18 *ℤ (pos section.length_m -ℤ pos (or_zero train.chainage_m));
  den = 5 * max 5 train.speed_kmh;
}

-- the ETA against a number of seconds
abbrev pub eta_above : Eta → ℕ → Bool
eta_above eta s = ltb_ℤ (pos (s * eta.den)) eta.num

abbrev pub eta_below : Eta → ℕ → Bool
eta_below eta s = ltb_ℤ eta.num (pos (s * eta.den))

-- `fb && fb.seconds_until_vlt_green <= eta_s + GREEN_MARGIN_S`
abbrev pub green_comes : Option CrossingFeedback → Eta → Bool
green_comes none eta = false
green_comes (some fb) eta =
    not (
      ltb_ℤ (eta.num +ℤ pos (green_margin_s * eta.den))
        (pos (fb.seconds_until_vlt_green * eta.den)))

abbrev pub shows_green : Option CrossingFeedback → ℕ → Bool
shows_green none phase = false
shows_green (some fb) phase = is_green fb.color && fb.active_phase == phase

abbrev pub strategy_for : Option CrossingFeedback → ℕ → Eta → Strategy
strategy_for fb phase eta =
    if shows_green fb phase
    then green_extension
    else if eta_below eta 15
    then red_truncation
    else phase_call

-- `train.schedule_dev_s ?? 0`
abbrev pub delay_of : Option ℤ → ℤ
delay_of none = pos 0
delay_of (some d) = d

-- A request that is less than the debounce old
abbrev pub still_flying : Option Flight → ℕ → Option Flight
still_flying none now = none
still_flying (some f) now = if ltb (now - f.at) request_debounce_ms then some f else none

module _ (runtime : Runtime) where
  unfoldable pub inhibit :
      TspController
      → SafetyGuard
      → String
      → String
      → IntegrityClass
      → String
      → ℕ
      → Bool × TspController × SafetyGuard
  inhibit t guard crossing_id reason evidence_class source_event_id now =
      let (ok, guard') =
        authorize guard revoke_tsp_request evidence_class source_event_id (runtime.to_iso now) in
      if not ok.permitted
      then (false, t, guard')
      else (true, record t { inhibited = Map.set t.inhibited crossing_id reason }, guard')

  abbrev pub skip :
      SkipReason
      → Option Eta
      → TspController
      → SafetyGuard
      → TspEvaluation × TspController × SafetyGuard
  skip reason eta t guard = (skipped reason eta, t, guard)

  -- the request itself, once every gate is passed
  unfoldable pub request :
      TspController
      → SafetyGuard
      → TrainState
      → Crossing
      → Eta
      → ℕ
      → TspEvaluation × TspController × SafetyGuard
  request t guard train crossing eta now =
      let request_id = train.train_id +++ "-" +++ runtime.to_base36 now in
      (
        decided
            (record {
              crossing_id = crossing.id;
              train_id = train.train_id;
              action = request_grant;
              ntcip_strategy =
                  some (strategy_for (Map.get t.feedback crossing.id) crossing.vlt_phase eta);
              decided_at = runtime.to_iso now;
            })
            eta request_id,
        record t {
          in_flight =
              Map.set t.in_flight crossing.id
                (record { request_id = request_id; at = now; train_id = train.train_id });
        },
        guard,
      )

  -- from the delay of the train on
  unfoldable pub evaluate_delay :
      TspController
      → SafetyGuard
      → TrainState
      → TrackSection
      → Crossing
      → IntegrityClass
      → String
      → ℕ
      → TspEvaluation × TspController × SafetyGuard
  unfolding eta_of request
  evaluate_delay t guard train section crossing evidence_class source_event_id now =
      let delay = delay_of train.schedule_dev_s in
      let eta = eta_of section train in
      let (authorized, guard') =
        authorize guard grant_tsp_request evidence_class source_event_id (runtime.to_iso now) in
      if ltb_ℤ delay (pos min_delay_for_priority_s)
      then skip (if ltb_ℤ (pos 0) delay then delay_below_threshold else early_or_on_time) none t
          guard
      else if eta_above eta request_horizon_s
      then skip beyond_horizon (some eta) t guard
      else if green_comes (Map.get t.feedback crossing.id) eta
      then skip green_in_time (some eta) t guard
      else if not authorized.permitted
      then skip refused_by_guard (some eta) t guard'
      else request t guard' train crossing eta now

  -- from the inhibition of the crossing on, with what the maps hold for it
  unfoldable pub evaluate_crossing :
      TspController
      → SafetyGuard
      → TrainState
      → TrackSection
      → Crossing
      → Option String
      → Option Flight
      → IntegrityClass
      → String
      → ℕ
      → TspEvaluation × TspController × SafetyGuard
  unfolding evaluate_delay
  evaluate_crossing t guard train section crossing (some reason) flight cls id now =
      skip (priority_suspended reason) none t guard
  evaluate_crossing t guard train section crossing none flight cls id now =
      if train.stale then skip train_stale none t guard else elim flight [
        | some f ↦ skip (request_in_flight f.request_id) none t guard
        | none ↦ evaluate_delay t guard train section crossing cls id now
      ]

  -- with the crossing of the section
  unfoldable pub evaluate_at :
      TspController
      → SafetyGuard
      → TrainState
      → TrackSection
      → Option Crossing
      → IntegrityClass
      → String
      → ℕ
      → TspEvaluation × TspController × SafetyGuard
  unfolding evaluate_crossing
  evaluate_at t guard train section none cls id now = skip crossing_unknown none t guard
  evaluate_at t guard train section (some crossing) cls id now =
      evaluate_crossing t guard train section crossing (Map.get t.inhibited crossing.id)
        (still_flying (Map.get t.in_flight crossing.id) now) cls id now

  -- with the name of the crossing that the section has
  unfoldable pub evaluate_named :
      TspController
      → SafetyGuard
      → TrainState
      → TrackSection
      → Option String
      → IntegrityClass
      → String
      → ℕ
      → TspEvaluation × TspController × SafetyGuard
  unfolding evaluate_at
  evaluate_named t guard train section none cls id now = skip no_crossing none t guard
  evaluate_named t guard train section (some crossing_id) cls id now =
      evaluate_at t guard train section (get_crossing crossing_id) cls id now

  -- with the section of the train
  unfoldable pub evaluate_in :
      TspController
      → SafetyGuard
      → TrainState
      → Option TrackSection
      → IntegrityClass
      → String
      → ℕ
      → TspEvaluation × TspController × SafetyGuard
  unfolding evaluate_named
  evaluate_in t guard train none cls id now = skip no_crossing none t guard
  evaluate_in t guard train (some section) cls id now =
      evaluate_named t guard train section (nonempty section.crossing_id) cls id now

  unfoldable pub evaluate :
      TspController
      → SafetyGuard
      → TrainState
      → IntegrityClass
      → String
      → ℕ
      → TspEvaluation × TspController × SafetyGuard
  unfolding evaluate_in
  evaluate t guard train evidence_class source_event_id now =
      evaluate_in t guard train (get_section train.section_id) evidence_class source_event_id now
