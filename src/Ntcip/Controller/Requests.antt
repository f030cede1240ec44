-- ===== src/Ntcip/Controller/Requests.antt =====
-- Priority requests keep the invariant, and do not touch the clock of the controller.
use railsentinel.Prelude.{
  ℕ, ◌≤◌, ◌+◌, ◌-◌, ◌≡◌, refl, inl, inr, ◌∷◌, [], ◌++◌, Option, none, some, true, false, arith, min,
  max, leb, ◌==◌, ◌||◌, ◌&&◌, not, Bool-cases,
}
use railsentinel.Prelude.Int.{ℤ, pos, ◌+ℤ◌, ◌-ℤ◌}
use railsentinel.Ntcip.Controller.{
  apply_at, is_reached, green_room, extended_green, seconds_granted, plus, deny,
  apply_priority_request, apply_to, extend_green, truncate_red, call_phase, phase_config,
}
use railsentinel.Ntcip.Controller.Types.{
  is_number, ControllerState, PriorityRequest, GrantOutcome, DenialReason, SignalController,
  PhaseConfig, is_green, is_granted, granted, green_extended, force_off_then_called, called_next,
  no_such_phase, phase_not_green, max_green_reached, phase_already_active, phase_already_green,
}
use railsentinel.Ntcip.Controller.Sound.{IsSound}

-- What a request leaves alone
abbrev pub SameClock : ControllerState → ControllerState → Type 0
SameClock a b =
    (b.active_phase ≡ a.active_phase)
    × (b.color ≡ a.color)
    × (b.elapsed ≡ a.elapsed)
    × (b.cycle_count ≡ a.cycle_count)

-- What the sender must keep to: the extension that is asked for is a natural number.
abbrev pub IsFair : PriorityRequest → Type 0
IsFair req = is_number req.strategy 2 ≡ true → (n : ℕ) × (req.max_extension ≡ some (pos n))

-- A result without a fault, on the same clock; exactly one counter goes up, and a denial changes nothing
-- else. The controller is sound if `fair` holds.
abbrev pub AnswersIf : Type 0 → SignalController → Option (GrantOutcome × SignalController) → Type 0
AnswersIf fair c o =
    (out : GrantOutcome) × (c' : SignalController) × (o ≡ some (out, c'))
    × (fair → IsSound c')
    × SameClock c.state c'.state
    × (c'.served_requests + c'.denied_requests ≡ c.served_requests + c.denied_requests + 1)
    × (is_granted out ≡ false → c' ≡ record c { denied_requests = c.denied_requests + 1 })

-- The room below the maximum, and what is granted of it, for extensions that are natural numbers
is_reached-green_room :
    (cfg : PhaseConfig) (o : Option ℤ) (n : ℕ)
    → o ≡ some (pos n)
    → is_reached (green_room cfg o) 0 ≡ leb cfg.max_green (cfg.split_green + n)
unfolding green_room extended_green ◌+ℤ◌ ◌-ℤ◌
is_reached-green_room cfg o n e = rw e (ground arith)

plus-seconds_granted :
    (cfg : PhaseConfig) (o asked : Option ℤ) (n x : ℕ)
    → o ≡ some (pos n)
    → asked ≡ some (pos x)
    → cfg.split_green + n ≤ cfg.max_green
    → plus o (seconds_granted asked (green_room cfg o))
      ≡ some (pos (n + min x (cfg.max_green - (cfg.split_green + n))))
unfolding green_room extended_green seconds_granted plus ◌+ℤ◌ ◌-ℤ◌
plus-seconds_granted cfg o asked n x e f r = rw (e, f) (ground arith)

deny-AnswersIf :
    {fair : Type 0} (c : SignalController) (r : DenialReason)
    → IsSound c
    → AnswersIf fair c (some (deny c r))
deny-AnswersIf c r s = (
  (deny c r).0,
  (deny c r).1,
  refl,
  λ _. record { cfg = s.cfg; active = s.active; timed = s.timed; fits = s.fits },
  (refl, refl, refl, refl),
  omega arith,
  λ _. refl,
)

extend_green-AnswersIf :
    (c : SignalController) (phase : ℕ) (req : PriorityRequest)
    → IsSound c
    → AnswersIf ((x : ℕ) × (req.max_extension ≡ some (pos x))) c (extend_green c phase req)
unfolding extend_green
extend_green-AnswersIf c phase req s =
    let room = green_room s.cfg c.state.granted_extension in
    elim (Bool-cases (not (c.state.active_phase == phase) || not (is_green c.state.color))) [
      | inl out ↦ rw out (deny-AnswersIf c phase_not_green s)
      | inr in_green ↦ elim (Bool-cases (is_reached room 0)) [
        | inl full ↦ rw (in_green, s.active, full) (deny-AnswersIf c max_green_reached s)
        | inr free ↦
            let seconds = seconds_granted req.max_extension room in
            (
              granted 2 (green_extended seconds) 0,
              record c {
                state = record (c.state) {
                  granted_extension = plus c.state.granted_extension seconds;
                };
                served_requests = c.served_requests + 1;
                cross_street_debt = c.cross_street_debt ++ seconds ∷ [];
              },
              rw (in_green, s.active, free) refl,
              λ (x, asked). record {
                cfg = s.cfg;
                active = s.active;
                timed = s.timed;
                fits = record {
                  extension =
                      s.fits.extension
                      + min x (s.cfg.max_green - (s.cfg.split_green + s.fits.extension));
                  extended =
                      plus-seconds_granted s.cfg c.state.granted_extension req.max_extension
                        s.fits.extension x s.fits.extended asked s.fits.room;
                  room = ground (arith, s.fits.room);
                  no_extension = λ g. absurd (ground arith);
                  green_capped = s.fits.green_capped;
                };
              },
              (refl, refl, refl, refl),
              omega arith,
              λ g. absurd (ground arith),
            )
      ]
    ]

truncate_red-AnswersIf :
    {fair : Type 0} (c : SignalController) (phase : ℕ)
    → IsSound c
    → AnswersIf fair c (truncate_red c phase)
unfolding truncate_red
truncate_red-AnswersIf c phase s = elim (Bool-cases (c.state.active_phase == phase)) [
  | inl active ↦ rw active (deny-AnswersIf c phase_already_active s)
  | inr other ↦ (
    granted 3 (force_off_then_called phase)
        ((s.cfg.min_green - c.state.elapsed) + s.cfg.yellow_s + s.cfg.all_red_s),
    record c {
      state = record (c.state) { pending_force_off = true; pending_call = some phase };
      served_requests = c.served_requests + 1;
      cross_street_debt =
          c.cross_street_debt
          ++ some (pos (s.cfg.split_green - max c.state.elapsed s.cfg.min_green)) ∷ [];
    },
    rw (other, s.active) refl,
    λ _. record {
      cfg = s.cfg;
      active = s.active;
      timed = s.timed;
      fits = record {
        extension = s.fits.extension;
        extended = s.fits.extended;
        room = s.fits.room;
        no_extension = s.fits.no_extension;
        green_capped = s.fits.green_capped;
      };
    },
    (refl, refl, refl, refl),
    omega arith,
    λ g. absurd (ground arith),
  )
]

call_phase-AnswersIf :
    {fair : Type 0} (c : SignalController) (phase : ℕ)
    → IsSound c
    → AnswersIf fair c (call_phase c phase)
unfolding call_phase
call_phase-AnswersIf c phase s =
    elim (Bool-cases (c.state.active_phase == phase && is_green c.state.color)) [
      | inl active ↦ rw active (deny-AnswersIf c phase_already_green s)
      | inr other ↦ (
        granted 1 (called_next phase)
            ((s.cfg.split_green - c.state.elapsed) + s.cfg.yellow_s + s.cfg.all_red_s),
        record c {
          state = record (c.state) { pending_call = some phase };
          served_requests = c.served_requests + 1;
        },
        rw (other, s.active) refl,
        λ _. record {
          cfg = s.cfg;
          active = s.active;
          timed = s.timed;
          fits = record {
            extension = s.fits.extension;
            extended = s.fits.extended;
            room = s.fits.room;
            no_extension = s.fits.no_extension;
            green_capped = s.fits.green_capped;
          };
        },
        (refl, refl, refl, refl),
        omega arith,
        λ g. absurd (ground arith),
      )
    ]

-- An answer with the condition that it is sound under
weaken :
    {A B : Type 0} (c : SignalController) (o : Option (GrantOutcome × SignalController))
    → (B → A)
    → AnswersIf A c o
    → AnswersIf B c o
weaken c o f (out, c', e, s, clock, counts, denial) =
    (out, c', e, λ b. s (f b), clock, counts, denial)

apply_to-AnswersIf :
    {fair : Type 0} (o : Option PhaseConfig) (c : SignalController) (phase : ℕ)
    (req : PriorityRequest)
    → (fair → IsFair req)
    → IsSound c
    → AnswersIf fair c (apply_to o c phase req)
unfolding apply_to
apply_to-AnswersIf none c phase req f s = deny-AnswersIf c (no_such_phase (some phase)) s
apply_to-AnswersIf (some _) c phase req f s = elim (Bool-cases (is_number req.strategy 2)) [
  | inl two ↦
      rw two
        (weaken c (extend_green c phase req) (λ b. f b two) (extend_green-AnswersIf c phase req s))
  | inr other ↦ elim (Bool-cases (is_number req.strategy 3)) [
    | inl three ↦ rw (other, three) (truncate_red-AnswersIf c phase s)
    | inr one ↦ rw (other, one) (call_phase-AnswersIf c phase s)
  ]
]

apply_at-AnswersIf :
    (o : Option ℕ) (c : SignalController) (req : PriorityRequest)
    → IsSound c
    → AnswersIf (IsFair req) c (apply_at o c req)
unfolding apply_at
apply_at-AnswersIf none c req s = deny-AnswersIf c (no_such_phase none) s
apply_at-AnswersIf (some p) c req s =
    apply_to-AnswersIf (phase_config c.phases p) c p req (λ b. b) s

apply_priority_request-AnswersIf :
    (c : SignalController) (req : PriorityRequest)
    → IsSound c
    → AnswersIf (IsFair req) c (apply_priority_request c req)
unfolding apply_priority_request
apply_priority_request-AnswersIf c req s = apply_at-AnswersIf req.phase c req s

-- A result without a fault, with a sound controller on the same clock; exactly one counter goes up,
-- and a denial changes nothing else.
abbrev pub Answers : SignalController → Option (GrantOutcome × SignalController) → Type 0
Answers c o =
    (out : GrantOutcome) × (c' : SignalController) × (o ≡ some (out, c'))
    × IsSound c'
    × SameClock c.state c'.state
    × (c'.served_requests + c'.denied_requests ≡ c.served_requests + c.denied_requests + 1)
    × (is_granted out ≡ false → c' ≡ record c { denied_requests = c.denied_requests + 1 })

-- A priority request to a controller in a sound state, in which an extension that is asked for is a natural
-- number, is never a fault, whatever its other fields, keeps the invariant, and does not touch the active
-- phase, its color, the time elapsed or the count of cycles; it adds one to exactly one of the two
-- counters, and one that is denied changes nothing else.
pub apply_priority_request-Answers :
    (c : SignalController) (req : PriorityRequest)
    → IsFair req
    → IsSound c
    → Answers c (apply_priority_request c req)
apply_priority_request-Answers c req fair s =
    let (out, c', e, sound, clock, counts, denial) = apply_priority_request-AnswersIf c req s in
    (out, c', e, sound fair, clock, counts, denial)
