-- ===== src/Ntcip/Controller.antt =====
-- services/ntcip-emulator/src/controller.ts: the state machine of an actuated signal controller.
-- Times are whole seconds. `none` is the exception that a missing phase raises: a read of a field of
-- `undefined`. The texts of a reason or an effect are constructors with the numbers that they show.
-- A request is read from JSON and not validated. A phase or a strategy that is not a natural number is
-- `none`. An extension is a whole number of seconds of either sign, or `none` if it is missing or not a
-- number: that is NaN in arithmetic, and every comparison with it fails. Fractions are left out.
pub mod Types
pub mod Sound
pub mod Requests
pub mod Safety
pub mod Runs
pub mod Truncation
pub mod Forecast
pub use railsentinel.Prelude.Tests.{◌>>=◌}
use railsentinel.Prelude.{
  ℕ, zero, suc, ◌+◌, ◌-◌, ◌%◌, min, max, String, List, [], ◌∷◌, ◌++◌, Option, none, some, Bool,
  true, false, leb, ◌==◌, ◌&&◌, ◌||◌, not, length, get_elem?, find, if◌then◌else◌,
}
use railsentinel.Prelude.Int.{ℤ, pos, ◌+ℤ◌, ◌-ℤ◌, min_ℤ, leb_ℤ}
use railsentinel.Ntcip.Controller.Types.{
  ControllerState, DenialReason, GrantOutcome, PhaseColor, PhaseConfig, PriorityRequest,
  SignalController, all_red, called_next, denied, force_off_then_called, granted, green,
  green_extended, is_green, is_number, max_green_reached, no_such_phase, phase_already_active,
  phase_already_green, phase_not_green, yellow,
}

-- the constructor; `phases[0]!.phase` needs a phase
unfoldable pub new : String → List PhaseConfig → Option SignalController
new id [] = none
new id (first ∷ rest) = some (record {
  id = id;
  phases = first ∷ rest;
  state = record {
    active_phase = first.phase;
    color = green;
    elapsed = 0;
    cycle_count = 0;
    granted_extension = some (pos 0);
    pending_call = none;
    pending_force_off = false;
  };
  cross_street_debt = [];
  served_requests = 0;
  denied_requests = 0;
})

unfoldable pub phase_config : List PhaseConfig → ℕ → Option PhaseConfig
phase_config phases phase = find (λ p. p.phase == phase) phases

-- `findIndex(...) + 1`: 0 where no phase fits
unfoldable pub place_after : List PhaseConfig → ℕ → ℕ
place_after [] phase = 0
place_after (p ∷ ps) phase =
    if p.phase == phase then 1 else elim (place_after ps phase) [ zero ↦ 0 | suc k ↦ suc (suc k) ]

-- the next phase of the ring
unfoldable pub ring_next : List PhaseConfig → ℕ → Option ℕ
ring_next phases active = do
  p ← get_elem? phases (place_after phases active % length phases)
  some p.phase

-- `#nextPhase`: a pending call of a phase that exists comes first, and the call is used up.
unfoldable pub next_phase : List PhaseConfig → ControllerState → Option (ℕ × ControllerState)
unfolding ring_next
next_phase phases st = elim st.pending_call [
  | none ↦ do p ← ring_next phases st.active_phase; some (p, st)
  | some called ↦
      let st' : ControllerState = record st { pending_call = none } in
      elim (phase_config phases called) [
        | some _ ↦ some (called, st')
        | none ↦ do p ← ring_next phases st.active_phase; some (p, st')
      ]
]

-- `splitGreen + grantedExtension`
unfoldable pub extended_green : PhaseConfig → Option ℤ → Option ℤ
extended_green cfg extension = do e ← extension; some (pos cfg.split_green +ℤ e)

-- `Math.min(splitGreen + grantedExtension, maxGreen)`
unfoldable pub green_limit : PhaseConfig → Option ℤ → Option ℤ
unfolding extended_green
green_limit cfg extension = do g ← extended_green cfg extension; some (min_ℤ g (pos cfg.max_green))

-- `n >= limit`
abbrev pub is_reached : Option ℤ → ℕ → Bool
is_reached none n = false
is_reached (some limit) n = leb_ℤ limit (pos n)

-- the `switch` of `tick`, after `elapsed` has advanced
unfoldable pub tick_color :
    PhaseColor → List PhaseConfig → PhaseConfig → ControllerState → Option ControllerState
tick_color green phases cfg st =
    let limit = green_limit cfg st.granted_extension in
    let forced = st.pending_force_off && leb cfg.min_green st.elapsed in
    some (
      if is_reached limit st.elapsed || forced
      then record st {
        color = yellow;
        elapsed = 0;
        granted_extension = some (pos 0);
        pending_force_off = false;
      }
      else st)
tick_color yellow phases cfg st =
    some (if leb cfg.yellow_s st.elapsed then record st { color = all_red; elapsed = 0 } else st)
tick_color all_red phases cfg st =
    if leb cfg.all_red_s st.elapsed
    then (do
      (p, st') ← next_phase phases (record st { color = green; elapsed = 0 })
      first ← get_elem? phases 0
      some (record st' {
        active_phase = p;
        cycle_count = if p == first.phase then st'.cycle_count + 1 else st'.cycle_count;
      }))
    else some st

unfoldable pub tick : SignalController → ℕ → Option SignalController
tick c dt = do
  cfg ← phase_config c.phases c.state.active_phase
  st ← tick_color c.state.color c.phases cfg (record c.state { elapsed = c.state.elapsed + dt })
  some (record c { state = st })

abbrev pub deny : SignalController → DenialReason → GrantOutcome × SignalController
deny c reason = (denied reason, record c { denied_requests = c.denied_requests + 1 })

-- `maxGreen - (splitGreen + grantedExtension)`
unfoldable pub green_room : PhaseConfig → Option ℤ → Option ℤ
unfolding extended_green
green_room cfg extension = do g ← extended_green cfg extension; some (pos cfg.max_green -ℤ g)

-- `Math.min(req.maxExtension, room)`
unfoldable pub seconds_granted : Option ℤ → Option ℤ → Option ℤ
seconds_granted asked room = do a ← asked; r ← room; some (min_ℤ a r)

-- the sum of two numbers
unfoldable pub plus : Option ℤ → Option ℤ → Option ℤ
plus a b = do x ← a; y ← b; some (x +ℤ y)

-- strategy 2, for the phase that is asked for
unfoldable pub extend_green :
    SignalController → ℕ → PriorityRequest → Option (GrantOutcome × SignalController)
extend_green c phase req =
    let st = c.state in
    if not (st.active_phase == phase) || not (is_green st.color)
    then some (deny c phase_not_green)
    else (do
      cfg ← phase_config c.phases st.active_phase
      let room = green_room cfg st.granted_extension
      some (
          if is_reached room 0
          then deny c max_green_reached
          else let seconds = seconds_granted req.max_extension room in
            (
              granted 2 (green_extended seconds) 0,
              record c {
                state = record st { granted_extension = plus st.granted_extension seconds };
                served_requests = c.served_requests + 1;
                cross_street_debt = c.cross_street_debt ++ seconds ∷ [];
              },
            )))

-- strategy 3
unfoldable pub truncate_red : SignalController → ℕ → Option (GrantOutcome × SignalController)
truncate_red c phase =
    let st = c.state in
    if st.active_phase == phase then some (deny c phase_already_active) else (do
      cfg ← phase_config c.phases st.active_phase
      let remaining_min = cfg.min_green - st.elapsed
      let delay = remaining_min + cfg.yellow_s + cfg.all_red_s
      some (
        granted 3 (force_off_then_called phase) delay,
        record c {
          state = record st { pending_force_off = true; pending_call = some phase };
          served_requests = c.served_requests + 1;
          cross_street_debt =
              c.cross_street_debt
              ++ some (pos (cfg.split_green - max st.elapsed cfg.min_green)) ∷ [];
        },
      ))

-- strategy 1, and any other value
unfoldable pub call_phase : SignalController → ℕ → Option (GrantOutcome × SignalController)
call_phase c phase =
    let st = c.state in
    if st.active_phase == phase && is_green st.color then some (deny c phase_already_green) else (do
      cfg ← phase_config c.phases st.active_phase
      let delay = (cfg.split_green - st.elapsed) + cfg.yellow_s + cfg.all_red_s
      some (
        granted 1 (called_next phase) delay,
        record c {
          state = record st { pending_call = some phase };
          served_requests = c.served_requests + 1;
        },
      ))

-- the `switch`, once the target phase has been looked up
unfoldable pub apply_to :
    Option PhaseConfig
    → SignalController
    → ℕ
    → PriorityRequest
    → Option (GrantOutcome × SignalController)
unfolding extend_green truncate_red call_phase
apply_to none c phase req = some (deny c (no_such_phase (some phase)))
apply_to (some target) c phase req =
    if is_number req.strategy 2
    then extend_green c phase req
    else if is_number req.strategy 3
    then truncate_red c phase
    else call_phase c phase

-- A phase that is not a number is none of the controller's.
unfoldable pub apply_at :
    Option ℕ → SignalController → PriorityRequest → Option (GrantOutcome × SignalController)
unfolding apply_to
apply_at none c req = some (deny c (no_such_phase none))
apply_at (some phase) c req = apply_to (phase_config c.phases phase) c phase req

unfoldable pub apply_priority_request :
    SignalController → PriorityRequest → Option (GrantOutcome × SignalController)
unfolding apply_at
apply_priority_request c req = apply_at req.phase c req
