-- ===== src/Ntcip/Controller/Forecast.antt =====
-- services/ntcip-emulator/src/controller.ts, `secondsUntilGreen`: the time until a phase is green.
use railsentinel.Prelude.{
  ℕ, zero, suc, ◌+◌, ◌-◌, ◌%◌, List, Option, some, ◌&&◌, length, get_elem?, if◌then◌else◌,
}
use railsentinel.Prelude.Int.{pos, pos_part, ◌-ℤ◌}
use railsentinel.Ntcip.Controller.{phase_config, place_after, extended_green, ◌>>=◌}
use railsentinel.Ntcip.Controller.Types.{
  PhaseConfig, PhaseColor, green, yellow, all_red, ControllerState, SignalController, is_green,
  is_number,
}

-- The sum with a number of seconds; `none` is NaN.
abbrev pub later : Option ℕ → ℕ → Option ℕ
later total seconds = do t ← total; some (t + seconds)

-- the loop of `secondsUntilGreen` over the ring, from place `idx + i` on, `k` rounds left
unfoldable pub ring_wait : List PhaseConfig → Option ℕ → ℕ → ℕ → Option ℕ → Option (Option ℕ)
ring_wait phases phase place zero total = some total
ring_wait phases phase place (suc k) total = do
  nxt ← get_elem? phases (place % length phases)
  let rest =
      ring_wait phases phase (place + 1) k
        (later total (nxt.split_green + nxt.yellow_s + nxt.all_red_s))
  if is_number phase nxt.phase then some total else rest

-- what is left of the current interval; `pos_part` is `Math.max(0, …)`
unfoldable pub interval_left : PhaseColor → PhaseConfig → ControllerState → Option ℕ
unfolding extended_green
interval_left green cfg st = do
  g ← extended_green cfg st.granted_extension
  some (pos_part (g -ℤ pos st.elapsed) + cfg.yellow_s + cfg.all_red_s)
interval_left yellow cfg st = some ((cfg.yellow_s - st.elapsed) + cfg.all_red_s)
interval_left all_red cfg st = some (cfg.all_red_s - st.elapsed)

unfoldable pub seconds_until_green : SignalController → Option ℕ → Option (Option ℕ)
unfolding interval_left ring_wait
seconds_until_green c phase =
    let st = c.state in
    if is_number phase st.active_phase && is_green st.color then some (some 0) else (do
      cfg ← phase_config c.phases st.active_phase
      ring_wait c.phases phase (place_after c.phases st.active_phase) (length c.phases)
          (interval_left st.color cfg st))
