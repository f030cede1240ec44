-- ===== src/Ntcip/Controller/Sound.antt =====
-- The invariant of a controller, that ticks and requests keep it, and that neither ever faults.
pub mod Ring
use railsentinel.Prelude.{
  ℕ, zero, suc, ◌+◌, ◌≤◌, ◌<◌, ◌≡◌, ◌≢◌, refl, ◌⊎◌, inl, inr, List, [], ◌∷◌, Option, none, some,
  Bool, true, false, All, arith, min, leb, ◌==◌, ◌||◌, ◌&&◌, if◌then◌else◌, Bool-cases,
}
use railsentinel.Prelude.Int.{ℤ, pos, ◌+ℤ◌}
use railsentinel.Ntcip.Controller.{
  phase_config, next_phase, tick_color, tick, is_reached, green_limit, extended_green,
}
use railsentinel.Ntcip.Controller.Types.{
  PhaseColor, green, yellow, all_red, PhaseConfig, ControllerState, SignalController, is_green,
}
use Ring.{next_phase_configured, phase_config-All, first_exists, Configured}

-- A plan of times that can be kept
pub record IsWellTimed (cfg : PhaseConfig) : Type 0 where
  pub min-le-split : cfg.min_green ≤ cfg.split_green
  pub split-le-max : cfg.split_green ≤ cfg.max_green
  pub green_some : 0 < cfg.max_green

-- The state of a controller against the plan of its active phase
pub record Fits (cfg : PhaseConfig) (st : ControllerState) : Type 0 where
  pub extension : ℕ
  pub extended : st.granted_extension ≡ some (pos extension)
  pub room : cfg.split_green + extension ≤ cfg.max_green
  pub no_extension : is_green st.color ≡ false → extension ≡ 0
  pub green_capped : is_green st.color ≡ true → st.elapsed < cfg.max_green

pub record IsSound (c : SignalController) : Type 0 where
  pub cfg : PhaseConfig
  pub active : phase_config c.phases c.state.active_phase ≡ some cfg
  pub timed : All IsWellTimed c.phases
  pub fits : Fits cfg c.state

-- The end of a green whose extension is a natural number
pub is_reached-green_limit :
    (cfg : PhaseConfig) (o : Option ℤ) (n elapsed : ℕ)
    → o ≡ some (pos n)
    → is_reached (green_limit cfg o) elapsed ≡ leb (min (cfg.split_green + n) cfg.max_green) elapsed
unfolding green_limit extended_green ◌+ℤ◌
is_reached-green_limit cfg o n elapsed e = rw e (ground arith)

-- The state after a tick, for each color
green_tick : PhaseConfig → ControllerState → ControllerState
green_tick cfg st =
    if is_reached (green_limit cfg st.granted_extension) st.elapsed
      || st.pending_force_off && leb cfg.min_green st.elapsed
    then record st {
      color = yellow;
      elapsed = 0;
      granted_extension = some (pos 0);
      pending_force_off = false;
    }
    else st

green_tick-Fits :
    (cfg : PhaseConfig) (st : ControllerState) (n : ℕ)
    → st.color ≡ green
    → IsWellTimed cfg
    → st.granted_extension ≡ some (pos n)
    → cfg.split_green + n ≤ cfg.max_green
    → ((green_tick cfg st).active_phase ≡ st.active_phase) × Fits cfg (green_tick cfg st)
unfolding green_tick
green_tick-Fits cfg st n g t e r =
    let limit = is_reached-green_limit cfg st.granted_extension n st.elapsed e in
    elim (Bool-cases (
      is_reached (green_limit cfg st.granted_extension) st.elapsed
      || st.pending_force_off && leb cfg.min_green st.elapsed)) [
        | inl over ↦ rw over (
          refl,
          record {
            extension = 0;
            extended = refl;
            room = omega (arith, t.split-le-max);
            no_extension = λ _. refl;
            green_capped = λ b. absurd (ground arith);
          },
        )
        | inr more ↦ rw more (
          refl,
          record {
            extension = n;
            extended = e;
            room = r;
            no_extension = λ b. absurd (ground arith);
            green_capped = λ _. ground (arith, limit);
          },
        )
      ]

yellow_tick : PhaseConfig → ControllerState → ControllerState
yellow_tick cfg st =
    if leb cfg.yellow_s st.elapsed then record st { color = all_red; elapsed = 0 } else st

yellow_tick-Fits :
    (cfg : PhaseConfig) (st : ControllerState)
    → st.color ≡ yellow
    → IsWellTimed cfg
    → st.granted_extension ≡ some (pos 0)
    → ((yellow_tick cfg st).active_phase ≡ st.active_phase) × Fits cfg (yellow_tick cfg st)
unfolding yellow_tick
yellow_tick-Fits cfg st e t r = elim (Bool-cases (leb cfg.yellow_s st.elapsed)) [
  | inl over ↦ rw over (
    refl,
    record {
      extension = 0;
      extended = r;
      room = omega (arith, t.split-le-max);
      no_extension = λ _. refl;
      green_capped = λ b. absurd (ground arith);
    },
  )
  | inr wait ↦ rw wait (
    refl,
    record {
      extension = 0;
      extended = r;
      room = omega (arith, t.split-le-max);
      no_extension = λ _. refl;
      green_capped = λ b. absurd (ground arith);
    },
  )
]

-- What a tick leaves, from each color
Ticked : List PhaseConfig → Option ControllerState → Type 0
Ticked phases o =
    (st : ControllerState) × (o ≡ some st)
    × (cfg : PhaseConfig) × (phase_config phases st.active_phase ≡ some cfg)
    × Fits cfg st

all_red-Ticked :
    (phases : List PhaseConfig) (cfg : PhaseConfig) (st : ControllerState)
    → st.color ≡ all_red
    → All IsWellTimed phases
    → phase_config phases st.active_phase ≡ some cfg
    → st.granted_extension ≡ some (pos 0)
    → Ticked phases (tick_color all_red phases cfg st)
unfolding tick_color Ticked
all_red-Ticked phases cfg st e t a n = elim (Bool-cases (leb cfg.all_red_s st.elapsed)) [
  | inr wait ↦ (
    st,
    rw wait,
    cfg,
    a,
    record {
      extension = 0;
      extended = n;
      room = omega (arith, phase_config-All IsWellTimed phases st.active_phase cfg t a);
      no_extension = λ _. refl;
      green_capped = λ g. ground arith;
    },
  )
  | inl over ↦
      let (p, call, next, (cfg', a')) =
        next_phase_configured phases (record st { color = green; elapsed = 0 }) (cfg, a) in
      let (first, e') = first_exists phases st.active_phase (cfg, a) in
      (
        record st {
          active_phase = p;
          color = green;
          elapsed = 0;
          pending_call = call;
          cycle_count = if p == first.phase then st.cycle_count + 1 else st.cycle_count;
        },
        rw (over, next, e') refl,
        cfg',
        a',
        (let w = phase_config-All IsWellTimed phases p cfg' t a' in
            record {
              extension = 0;
              extended = n;
              room = omega (arith, w);
              no_extension = λ g. absurd (ground arith);
              green_capped = λ g. omega (arith, w);
            }),
      )
]

-- The extension of a phase in some color
abbrev Extends : PhaseColor → PhaseConfig → Option ℤ → Type 0
Extends color cfg extension =
    (n : ℕ) × (extension ≡ some (pos n))
    × (cfg.split_green + n ≤ cfg.max_green)
    × (is_green color ≡ false → n ≡ 0)

tick_color-Ticked :
    (color : PhaseColor) (phases : List PhaseConfig) (cfg : PhaseConfig) (st : ControllerState)
    → st.color ≡ color
    → All IsWellTimed phases
    → phase_config phases st.active_phase ≡ some cfg
    → Extends color cfg st.granted_extension
    → Ticked phases (tick_color color phases cfg st)
unfolding Ticked tick_color green_tick yellow_tick
tick_color-Ticked green phases cfg st e t a (n, x, r, z) =
    let w = phase_config-All IsWellTimed phases st.active_phase cfg t a in
    let (same, f) = green_tick-Fits cfg st n e w x r in (green_tick cfg st, refl, cfg, rw same a, f)
tick_color-Ticked yellow phases cfg st e t a (n, x, r, z) =
    let w = phase_config-All IsWellTimed phases st.active_phase cfg t a in
    let (same, f) = yellow_tick-Fits cfg st e w (rw (z refl) at x) in
    (yellow_tick cfg st, refl, cfg, rw same a, f)
tick_color-Ticked all_red phases cfg st e t a (n, x, r, z) =
    all_red-Ticked phases cfg st e t a (rw (z refl) at x)

-- A tick of any length is never a fault, and keeps the invariant.
pub tick-IsSound :
    (c : SignalController) (dt : ℕ)
    → IsSound c
    → (c' : SignalController) × (tick c dt ≡ some c') × IsSound c'
unfolding tick Ticked
tick-IsSound c dt s =
    let (st, e, cfg, a, f) =
      tick_color-Ticked c.state.color c.phases s.cfg
        (record c.state { elapsed = c.state.elapsed + dt }) refl s.timed s.active
        (s.fits.extension, s.fits.extended, s.fits.room, s.fits.no_extension) in
    (
      record c { state = st },
      rw (s.active, e) refl,
      record { cfg = cfg; active = a; timed = s.timed; fits = f },
    )
