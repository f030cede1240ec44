-- ===== src/Ntcip/Controller/Runs.antt =====
-- What holds after every series of ticks and requests.
use railsentinel.Prelude.{ℕ, ◌≡◌, refl, String, List, [], ◌∷◌, Option, some, All, arith}
use railsentinel.Ntcip.Controller.{new, phase_config, tick, apply_priority_request, ◌>>=◌}
use railsentinel.Ntcip.Controller.Types.{PhaseConfig, PriorityRequest, SignalController}
use railsentinel.Ntcip.Controller.Sound.{IsSound, IsWellTimed, tick-IsSound}
use railsentinel.Ntcip.Controller.Requests.{IsFair, apply_priority_request-Answers}

-- What happens to a controller: time passes, or a request arrives.
pub data Event : Type 0 where
  time_passes : ℕ → Event
  requested : PriorityRequest → Event

unfoldable pub step : SignalController → Event → Option SignalController
step c (time_passes dt) = tick c dt
step c (requested req) = do (out, c') ← apply_priority_request c req; some c'

unfoldable pub run : SignalController → List Event → Option SignalController
run c [] = some c
run c (e ∷ es) = do c' ← step c e; run c' es

-- Of a request, that an extension which it asks for is a natural number
abbrev pub IsFairEvent : Event → Type 0
IsFairEvent (time_passes dt) = Unit
IsFairEvent (requested req) = IsFair req

step-IsSound :
    (c : SignalController) (e : Event)
    → IsFairEvent e
    → IsSound c
    → (c' : SignalController) × (step c e ≡ some c') × IsSound c'
unfolding step
step-IsSound c (time_passes dt) fair s = tick-IsSound c dt s
step-IsSound c (requested req) fair s =
    let (out, c', e, s', _, _, _) = apply_priority_request-Answers c req fair s in
    (c', rw e refl, s')

-- No series of ticks and requests, in which an extension that is asked for is a natural number, is ever a
-- fault, and the invariant holds after it: a green is below the maximum of its phase, and its extensions
-- fit below that maximum.
pub run-IsSound :
    (c : SignalController) (es : List Event)
    → All IsFairEvent es
    → IsSound c
    → (c' : SignalController) × (run c es ≡ some c') × IsSound c'
unfolding run
run-IsSound c [] fair s = (c, refl, s)
run-IsSound c (e ∷ es) fair s =
    let (c', h, s') = step-IsSound c e fair.0 s in
    let (c'', h', s'') = run-IsSound c' es fair.1 s' in (c'', rw h h', s'')

-- A controller that is constructed with a plan of phases that can be kept is sound.
pub new-IsSound :
    (id : String) (first : PhaseConfig) (rest : List PhaseConfig)
    → All IsWellTimed (first ∷ rest)
    → (c : SignalController) × (new id (first ∷ rest) ≡ some c) × IsSound c
unfolding new phase_config
new-IsSound id first rest w = (
  _,
  refl,
  record {
    cfg = first;
    active = ground arith;
    timed = w;
    fits = record {
      extension = 0;
      extended = refl;
      room = omega (arith, w.0.split-le-max);
      no_extension = λ g. absurd (ground arith);
      green_capped = λ _. omega arith;
    };
  },
)
