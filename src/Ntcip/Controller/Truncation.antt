-- ===== src/Ntcip/Controller/Truncation.antt =====
-- What becomes of a granted truncation of red: the phase is served after the delay that was reported,
-- when the request came within the least green; and what it does when it comes after the green.
use railsentinel.Prelude.{
  ℕ, zero, suc, ◌+◌, ◌-◌, ◌≤◌, ◌<◌, ◌≡◌, ◌≢◌, refl, ◌⊎◌, inl, inr, List, [], ◌∷◌, Option, none,
  some, true, false, arith, leb, ◌==◌, if◌then◌else◌, Bool-cases, ◌++◌, max,
}
use railsentinel.Prelude.Int.{pos}
use railsentinel.Ntcip.Controller.{
  apply_at, phase_config, next_phase, tick_color, tick, apply_priority_request, truncate_red,
  apply_to, ◌>>=◌,
}
use railsentinel.Ntcip.Controller.Types.{
  green, yellow, all_red, PhaseConfig, ControllerState, PriorityRequest, SignalController, granted,
  force_off_then_called,
}
use railsentinel.Ntcip.Controller.Sound.{IsSound, IsWellTimed, is_reached-green_limit}
use railsentinel.Ntcip.Controller.Sound.Ring.{phase_config-All, first_exists, Configured}

-- `n` seconds, in ticks of one second
unfoldable pub seconds_pass : ℕ → SignalController → Option SignalController
seconds_pass zero c = some c
seconds_pass (suc n) c = do c' ← tick c 1; seconds_pass n c'

-- The seconds left until the called phase turns green
abbrev Left : PhaseConfig → ℕ → ControllerState → Type 0
Left cfg n st =
    ((st.color ≡ green)
      × (st.pending_force_off ≡ true)
      × (st.elapsed < cfg.min_green)
      × (n ≡ (cfg.min_green - st.elapsed) + cfg.yellow_s + cfg.all_red_s))
    ⊎ (((st.color ≡ yellow)
          × (st.elapsed < cfg.yellow_s)
          × (n ≡ (cfg.yellow_s - st.elapsed) + cfg.all_red_s))
        ⊎ ((st.color ≡ all_red) × (st.elapsed < cfg.all_red_s) × (n ≡ cfg.all_red_s - st.elapsed)))

-- The plan of the active phase, while the call waits for `n` seconds
record Awaits (phases : List PhaseConfig) (cfg : PhaseConfig) (p n : ℕ) (st : ControllerState)
    : Type 0 where
  active : phase_config phases st.active_phase ≡ some cfg
  timed : IsWellTimed cfg
  yellow_some : 0 < cfg.yellow_s
  all_red_some : 0 < cfg.all_red_s
  call : st.pending_call ≡ some p
  extension : ℕ
  extended : st.granted_extension ≡ some (pos extension)
  left : Left cfg n st

-- One second of waiting that is not the last
module _ (phases : List PhaseConfig) (cfg : PhaseConfig) (p n : ℕ) (st : ControllerState)
    (a : Awaits phases cfg p (suc (suc n)) st) where
  abbrev later : ControllerState
  later = record st { elapsed = st.elapsed + 1 }

  still_waits : Left cfg (suc n) later → Awaits phases cfg p (suc n) later
  still_waits l = record {
    active = a.active;
    timed = a.timed;
    yellow_some = a.yellow_some;
    all_red_some = a.all_red_some;
    call = a.call;
    extension = a.extension;
    extended = a.extended;
    left = l;
  }

  abbrev Waits : Type 0
  Waits =
      (st' : ControllerState) × (tick_color st.color phases cfg later ≡ some st')
      × Awaits phases cfg p (suc n) st'

  green_waits :
      st.color ≡ green
      → st.pending_force_off ≡ true
      → st.elapsed < cfg.min_green
      → suc (suc n) ≡ (cfg.min_green - st.elapsed) + cfg.yellow_s + cfg.all_red_s
      → Waits
  unfolding tick_color
  green_waits g f e k =
      let ends =
        is_reached-green_limit cfg st.granted_extension a.extension (st.elapsed + 1) a.extended in
      elim (Bool-cases (leb cfg.min_green (st.elapsed + 1))) [
        | inl over ↦ (
          record st {
            color = yellow;
            elapsed = 0;
            granted_extension = some (pos 0);
            pending_force_off = false;
          },
          rw g (ground (arith, a.timed, ends)),
          record {
            active = a.active;
            timed = a.timed;
            yellow_some = a.yellow_some;
            all_red_some = a.all_red_some;
            call = a.call;
            extension = 0;
            extended = refl;
            left = inr (inl (refl, a.yellow_some, ground arith));
          },
        )
        | inr more ↦ (
          later,
          rw g (ground (arith, a.timed, ends)),
          still_waits (inl (g, f, ground arith, ground arith)),
        )
      ]

  yellow_waits :
      st.color ≡ yellow
      → st.elapsed < cfg.yellow_s
      → suc (suc n) ≡ (cfg.yellow_s - st.elapsed) + cfg.all_red_s
      → Waits
  unfolding tick_color
  yellow_waits g e k = elim (Bool-cases (leb cfg.yellow_s (st.elapsed + 1))) [
    | inl over ↦ (
      record st { color = all_red; elapsed = 0 },
      rw g (ground arith),
      record {
        active = a.active;
        timed = a.timed;
        yellow_some = a.yellow_some;
        all_red_some = a.all_red_some;
        call = a.call;
        extension = a.extension;
        extended = a.extended;
        left = inr (inr (refl, a.all_red_some, ground arith));
      },
    )
    | inr more ↦
        (later, rw g (ground arith), still_waits (inr (inl (g, ground arith, ground arith))))
  ]

  all_red_waits :
      st.color ≡ all_red
      → st.elapsed < cfg.all_red_s
      → suc (suc n) ≡ cfg.all_red_s - st.elapsed
      → Waits
  unfolding tick_color
  all_red_waits g e k =
      (later, rw g (ground arith), still_waits (inr (inr (g, omega arith, omega arith))))

  tick_waits : Waits
  tick_waits = elim a.left [
    | inl (g, f, e, k) ↦ green_waits g f e k
    | inr (inl (y, e, k)) ↦ yellow_waits y e k
    | inr (inr (r, e, k)) ↦ all_red_waits r e k
  ]

-- The last second
last_second :
    (phases : List PhaseConfig) (cfg : PhaseConfig) (p : ℕ) (st : ControllerState)
    → Awaits phases cfg p 1 st
    → Configured phases p
    → (st' : ControllerState) × (tick_color st.color phases cfg
          (record st { elapsed = st.elapsed + 1 })
        ≡ some st')
      × (st'.active_phase ≡ p)
      × (st'.color ≡ green)
      × (st'.pending_force_off ≡ st.pending_force_off)
unfolding tick_color next_phase
last_second phases cfg p st a (target, found) = elim a.left [
  | inl (g, f, e, k) ↦ absurd (omega (arith, a.yellow_some, a.all_red_some))
  | inr (inl (y, e, k)) ↦ absurd (omega (arith, a.all_red_some))
  | inr (inr (r, e, k)) ↦
      let (first, e') = first_exists phases st.active_phase (cfg, a.active) in
      (
        record st {
          active_phase = p;
          color = green;
          elapsed = 0;
          pending_call = none;
          cycle_count = if p == first.phase then st.cycle_count + 1 else st.cycle_count;
        },
        rw r (ground (arith, a.call)),
        refl,
        refl,
        refl,
      )
]

-- The phase is green.
abbrev pub Serves : ℕ → SignalController → Type 0
Serves p c = (c.state.active_phase ≡ p) × (c.state.color ≡ green)

waits-Serves :
    (n : ℕ) (c : SignalController) (cfg : PhaseConfig) (p : ℕ)
    → Awaits c.phases cfg p (suc n) c.state
    → Configured c.phases p
    → (c' : SignalController) × (seconds_pass (suc n) c ≡ some c') × Serves p c'
unfolding seconds_pass tick
waits-Serves zero c cfg p a t =
    let (st, e, served, g, _) = last_second c.phases cfg p c.state a t in
    (record c { state = st }, rw (a.active, e) refl, (served, g))
waits-Serves (suc n) c cfg p a t =
    let (st, e, a') = tick_waits c.phases cfg p n c.state a in
    let (c', e', s) = waits-Serves n (record c { state = st }) cfg p a' t in
    (c', rw (a.active, e) e', s)

served_after :
    (m : ℕ) (c : SignalController) (cfg : PhaseConfig) (p : ℕ)
    → 0 < m
    → Awaits c.phases cfg p m c.state
    → Configured c.phases p
    → (c' : SignalController) × (seconds_pass m c ≡ some c') × Serves p c'
served_after zero c cfg p h a t = absurd (omega arith)
served_after (suc n) c cfg p h a t = waits-Serves n c cfg p a t

-- The state that a truncation of red leaves
truncated : SignalController → PhaseConfig → ℕ → SignalController
truncated c cfg phase = record c {
  state = record (c.state) { pending_force_off = true; pending_call = some phase };
  served_requests = c.served_requests + 1;
  cross_street_debt =
      c.cross_street_debt ++ some (pos (cfg.split_green - max c.state.elapsed cfg.min_green)) ∷ [];
}

module _ (c : SignalController) (req : PriorityRequest) (phase : ℕ) (s : IsSound c)
    (strategy : req.strategy ≡ some 3) (asked : req.phase ≡ some phase)
    (other : c.state.active_phase ≢ phase) (target : Configured c.phases phase) where
  abbrev reported : ℕ
  reported = (s.cfg.min_green - c.state.elapsed) + s.cfg.yellow_s + s.cfg.all_red_s

  truncation_granted :
      apply_priority_request c req
      ≡ some (granted 3 (force_off_then_called phase) reported, truncated c s.cfg phase)
  unfolding apply_priority_request apply_at apply_to truncate_red truncated
  truncation_granted = rw (asked, target.1, strategy) (ground (arith, s.active))

  -- A truncation of red that is asked for while another phase is green, and has not had its least
  -- green, is granted; and if no other request comes, the phase that was asked for is green after
  -- exactly the delay that was reported, in ticks of one second, provided that the yellow and the
  -- all-red of the active phase take some time.
  pub truncation_served :
      c.state.color ≡ green
      → c.state.elapsed < s.cfg.min_green
      → 0 < s.cfg.yellow_s
      → 0 < s.cfg.all_red_s
      → (delay : ℕ) × (c' c'' : SignalController) × (apply_priority_request c req
          ≡ some (granted 3 (force_off_then_called phase) delay, c'))
        × (seconds_pass delay c' ≡ some c'')
        × Serves phase c''
  unfolding truncated
  truncation_served g e y r =
      let (c'', passed, serves) =
        served_after reported (truncated c s.cfg phase) s.cfg phase (omega arith)
          (record {
            active = s.active;
            timed =
                phase_config-All IsWellTimed c.phases c.state.active_phase s.cfg s.timed s.active;
            yellow_some = y;
            all_red_some = r;
            call = refl;
            extension = s.fits.extension;
            extended = s.fits.extended;
            left = inl (g, refl, e, refl);
          })
          target in
      (reported, truncated c s.cfg phase, c'', truncation_granted, passed, serves)

  -- A truncation of red that is asked for during the all-red of another phase is granted too, and the
  -- force-off outlives the change: the phase that was asked for turns green with the force-off still
  -- pending, and any tick that completes its least green ends that green, however much of its split is
  -- left.
  pub truncation_leaks :
      (dt₀ dt : ℕ)
      → c.state.color ≡ all_red
      → s.cfg.all_red_s ≤ c.state.elapsed + dt₀
      → target.0.min_green ≤ dt
      → (delay : ℕ) × (c' c'' c₃ : SignalController) × (apply_priority_request c req
          ≡ some (granted 3 (force_off_then_called phase) delay, c'))
        × (tick c' dt₀ ≡ some c'')
        × Serves phase c''
        × (tick c'' dt ≡ some c₃)
        × (c₃.state.color ≡ yellow)
  unfolding truncated
  truncation_leaks dt₀ dt r over h =
      let (first, e') = first_exists c.phases c.state.active_phase (s.cfg, s.active) in
      let c'' : SignalController = record (truncated c s.cfg phase) {
        state = record (c.state) {
          active_phase = phase;
          color = green;
          elapsed = 0;
          pending_call = none;
          pending_force_off = true;
          cycle_count =
              if phase == first.phase then c.state.cycle_count + 1 else c.state.cycle_count;
        };
      } in
      (
        reported,
        truncated c s.cfg phase,
        c'',
        record c'' {
          state = record (c''.state) {
            color = yellow;
            elapsed = 0;
            granted_extension = some (pos 0);
            pending_force_off = false;
          };
        },
        truncation_granted,
        unfold tick tick_color next_phase in ground (arith, s.active, target.1, e'),
        (refl, refl),
        unfold tick tick_color in ground (arith, target.1),
        refl,
      )
