-- ===== src/Ntcip/Controller/Safety.antt =====
-- The intervals that no priority can shorten, and what holds after every series of ticks and requests.
use railsentinel.Prelude.{
  ℕ, ◌+◌, ◌≤◌, ◌≡◌, ◌≢◌, refl, inl, inr, List, Option, none, some, arith, get_elem?, leb,
  if◌then◌else◌, Bool-cases, ◌==◌,
}
use railsentinel.Prelude.Int.{pos}
use railsentinel.Ntcip.Controller.{next_phase, tick_color, tick, ◌>>=◌}
use railsentinel.Ntcip.Controller.Types.{
  PhaseColor, green, yellow, all_red, PhaseConfig, ControllerState, SignalController,
}
use railsentinel.Ntcip.Controller.Sound.{IsSound, IsWellTimed, is_reached-green_limit}
use railsentinel.Ntcip.Controller.Sound.Ring.{phase_config-All}

-- The shortest time that a color lasts
abbrev pub least_interval : PhaseColor → PhaseConfig → ℕ
least_interval green cfg = cfg.min_green
least_interval yellow cfg = cfg.yellow_s
least_interval all_red cfg = cfg.all_red_s

abbrev pub color_after : PhaseColor → PhaseColor
color_after green = yellow
color_after yellow = all_red
color_after all_red = green

Changes : PhaseColor → PhaseConfig → ControllerState → Option ControllerState → Type 0
Changes color cfg st o =
    (st' : ControllerState)
    → o ≡ some st'
    → st'.color ≢ st.color
    → (least_interval color cfg ≤ st.elapsed) × (st'.color ≡ color_after color) × (st'.elapsed ≡ 0)

-- The change to green sets the color and the clock, whatever phase is next.
abbrev Restarts : Option (ℕ × ControllerState) → Type 0
Restarts o =
    (p : ℕ) (st : ControllerState) → o ≡ some (p, st) → (st.color ≡ green) × (st.elapsed ≡ 0)

next_phase-Restarts :
    (phases : List PhaseConfig) (st : ControllerState)
    → st.color ≡ green
    → st.elapsed ≡ 0
    → Restarts (next_phase phases st)
unfolding next_phase
next_phase-Restarts phases st e e' p st' h = ground arith

finish_all_red :
    (o : Option (ℕ × ControllerState)) (f : Option PhaseConfig) (st' : ControllerState)
    → Restarts o
    → (do
      (p, st) ← o
      first ← f
      some (record st {
        active_phase = p;
        cycle_count = if p == first.phase then st.cycle_count + 1 else st.cycle_count;
      }))
      ≡ some st'
    → (st'.color ≡ green) × (st'.elapsed ≡ 0)
finish_all_red none f st' r h = ground arith
finish_all_red (some (p, st)) f st' r h = ground (arith, r p st refl)

tick_color-Changes :
    (color : PhaseColor) (phases : List PhaseConfig) (cfg : PhaseConfig) (st : ControllerState)
    (n : ℕ)
    → st.color ≡ color
    → st.granted_extension ≡ some (pos n)
    → cfg.min_green ≤ cfg.split_green
    → cfg.split_green ≤ cfg.max_green
    → Changes color cfg st (tick_color color phases cfg st)
unfolding Changes tick_color
tick_color-Changes green phases cfg st x e ext t t' st' h n =
    ground (arith, is_reached-green_limit cfg st.granted_extension x st.elapsed ext)
tick_color-Changes yellow phases cfg st x e ext t t' st' h n = ground arith
tick_color-Changes all_red phases cfg st x e ext t t' st' h n =
    elim (Bool-cases (leb cfg.all_red_s st.elapsed)) [
      | inl over ↦
          let started = record st { color = green; elapsed = 0 } in
          let (g, z) =
            finish_all_red (next_phase phases started) (get_elem? phases 0) st'
              (next_phase-Restarts phases started refl refl) (rw over at h) in
          (ground arith, g, z)
      | inr wait ↦ ground arith
    ]

-- In a sound state, where the extension of the green is a natural number that fits below the maximum, a
-- color changes only after its interval: the least green, the yellow and the all-red of the active
-- phase are never cut short, whatever requests are pending. The next color is the next of the cycle,
-- and its clock starts at 0.
pub tick_intervals :
    (c : SignalController) (dt : ℕ) (c' : SignalController) (s : IsSound c)
    → tick c dt ≡ some c'
    → c'.state.color ≢ c.state.color
    → (least_interval c.state.color s.cfg ≤ c.state.elapsed + dt)
      × (c'.state.color ≡ color_after c.state.color)
      × (c'.state.elapsed ≡ 0)
unfolding tick Changes
tick_intervals c dt c' s h n =
    let w = phase_config-All IsWellTimed c.phases c.state.active_phase s.cfg s.timed s.active in
    let st = record (c.state) { elapsed = c.state.elapsed + dt } in
    ticked (tick_color c.state.color c.phases s.cfg st) (rw s.active at h) (
      tick_color-Changes c.state.color c.phases s.cfg st s.fits.extension refl s.fits.extended
        w.min-le-split w.split-le-max)
  where
    ticked :
        (o : Option ControllerState)
        → (do st ← o; some (record c { state = st })) ≡ some c'
        → Changes c.state.color s.cfg (record (c.state) { elapsed = c.state.elapsed + dt }) o
        → (least_interval c.state.color s.cfg ≤ c.state.elapsed + dt)
          × (c'.state.color ≡ color_after c.state.color)
          × (c'.state.elapsed ≡ 0)
    ticked none e k = absurd (ground arith)
    ticked (some st') e k =
        let same : st' ≡ c'.state = ground arith in rw (← same) (k st' refl (rw same n))
