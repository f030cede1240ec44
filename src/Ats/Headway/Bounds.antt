-- ===== src/Ats/Headway/Bounds.antt =====
-- services/ats-core/src/headway.ts: the bounds of the commands and of the integral.
use railsentinel.Prelude.{
  ℕ, ◌*◌, ◌≤◌, ◌<◌, ◌≡◌, ◌⊎◌, refl, inl, inr, String, List, [], ◌∷◌, map, Option, some, true, not,
  length, keep, All, str_eq, arith, Bool-cases,
}
use railsentinel.Prelude.Int.{ℤ, pos, negsuc, pos_part, neg_part, ◌≤ℤ◌, sub_ℕ}
use railsentinel.Prelude.Map
use railsentinel.Prelude.Map.{Map}
use railsentinel.Contracts.Types.{Line}
use railsentinel.Ats.Fleet.{TrainState}
use railsentinel.Ats.Traversal.Ends.{traversal_time_ms-Returns}
use railsentinel.Ats.Headway.{
  RegulationCommand, ControllerState, HeadwayRegulator, clamp, round_parts, measured_headway_ms,
  state_or, integrated, dwell_for, coast_for, is_saturated, command_for, regulate_train, ahead_of,
  regulate_loop, regulate_active, regulate,
}
use railsentinel.Ats.Headway.Setpoint.{
  dwell_min_s, dwell_max_s, coast_min_pct, coast_max_pct, RegulatedLine, line_of, resolve_setpoint,
}

-- The dwell lies within its bounds. The train coasts within its bounds too, and only when the dwell is
-- at its maximum and the interval is 60 s short or more.
abbrev pub IsBounded : RegulationCommand → Type 0
IsBounded c =
    (dwell_min_s ≤ c.dwell_s)
    × ((c.dwell_s ≤ dwell_max_s)
        × ((c.coast_pct ≡ 0)
            ⊎ ((coast_min_pct ≤ c.coast_pct)
                × ((c.coast_pct ≤ coast_max_pct)
                    × ((c.dwell_s ≡ dwell_max_s) × (c.headway_error_s ≤ℤ negsuc 59))))))

abbrev pub IsClamped : ℕ → ControllerState → Type 0
IsClamped limit st = (pos_part st.integral ≤ limit) × (neg_part st.integral ≤ limit)

abbrev pub AreClamped : ℕ → Map ControllerState → Type 0
AreClamped limit = All (λ p. IsClamped limit p.1)

abbrev pub limit_of : HeadwayRegulator → ℕ
limit_of reg = reg.integral_clamp_s * 1_000_000_000

clamp_pos :
    (v : ℤ) (lo hi : ℕ)
    → lo ≤ hi
    → (lo ≤ pos_part (clamp v (pos lo) (pos hi))) × (pos_part (clamp v (pos lo) (pos hi)) ≤ hi)
unfolding clamp
clamp_pos v lo hi h = ground arith

clamp_both :
    (v : ℤ) (limit : ℕ)
    → (pos_part (clamp v (sub_ℕ 0 limit) (pos limit)) ≤ limit)
      × (neg_part (clamp v (sub_ℕ 0 limit) (pos limit)) ≤ limit)
unfolding clamp
clamp_both v limit = ground arith

dwell_for_bounds :
    (reg : HeadwayRegulator) (e i : ℤ)
    → (dwell_min_s ≤ dwell_for reg e i) × (dwell_for reg e i ≤ dwell_max_s)
unfolding dwell_for
dwell_for_bounds reg e i = omega (arith, clamp_pos _ 20_000_000_000 90_000_000_000 (omega arith))

coast_for_bounds : (e : ℤ) → (coast_min_pct ≤ coast_for e) × (coast_for e ≤ coast_max_pct)
unfolding coast_for
coast_for_bounds e = omega arith

round_short : (e : ℤ) → 60_000 < neg_part e → round_parts 500 e ≤ℤ negsuc 59
unfolding round_parts
round_short (pos n) h = ground arith
round_short (negsuc n) h = ground arith

is_saturated_lem :
    (e : ℤ) (dwell : ℕ)
    → is_saturated e dwell ≡ true
    → dwell ≤ dwell_max_s
    → (60_000 < neg_part e) × (dwell ≡ dwell_max_s)
unfolding is_saturated
is_saturated_lem e dwell h k = ground arith

command_for-IsBounded :
    (reg : HeadwayRegulator) (id : String) (measured target : ℕ) (st : ControllerState)
    → IsBounded (command_for reg id measured target st)
unfolding command_for
command_for-IsBounded reg id measured target st =
    let e = sub_ℕ measured (target * 1000) in
    let dwell = dwell_for reg e st.integral in
    let (low, high) = dwell_for_bounds reg e st.integral in
    (
      low,
      (
        high,
        elim (Bool-cases (is_saturated e dwell)) [
          | inr free ↦ inl (rw free refl)
          | inl full ↦
              let (short, most) = is_saturated_lem e dwell full high in
              let (least, greatest) = coast_for_bounds e in
              inr (rw full (least, (greatest, (most, round_short e short))))
        ],
      ),
    )

integrated-IsClamped :
    (reg : HeadwayRegulator) (st : ControllerState) (e : ℤ) (now : ℕ)
    → IsClamped (limit_of reg) (integrated reg st e now)
unfolding integrated
integrated-IsClamped reg st e now = search clamp_both

set-AreClamped :
    (limit : ℕ) (m : Map ControllerState) (k : String) (st : ControllerState)
    → AreClamped limit m
    → IsClamped limit st
    → AreClamped limit (Map.set m k st)
unfolding Map.set
set-AreClamped limit [] k st h hs = (hs, tt)
set-AreClamped limit ((j, w) ∷ m) k st h hs = elim (Bool-cases (str_eq j k)) [
  | inl e ↦ rw e (hs, h.1)
  | inr e ↦ rw e (h.0, set-AreClamped limit m k st h.1 hs)
]

-- A series of commands, one for each of the trains, with the regulator after it
abbrev pub Regulates :
    HeadwayRegulator → List TrainState → Option (List RegulationCommand × HeadwayRegulator) → Type 0
Regulates reg trains result =
    (cmds : List RegulationCommand) × ((reg' : HeadwayRegulator) × ((result ≡ some (cmds, reg'))
        × (All IsBounded cmds
            × ((map (λ c. c.train_id) cmds ≡ map (λ t. t.train_id) trains)
                × (AreClamped (limit_of reg) reg'.state
                    × (reg'.integral_clamp_s ≡ reg.integral_clamp_s))))))

measured_headway_ms-Returns :
    (train ahead : TrainState) (line : Line)
    → (t : ℕ) × (measured_headway_ms train ahead line ≡ some t)
unfolding measured_headway_ms
measured_headway_ms-Returns train ahead line = traversal_time_ms-Returns line train.linear_pos_m _ _

regulate_loop-Regulates :
    (reg : HeadwayRegulator) (line : Line) (first : TrainState) (trains : List TrainState)
    (target now : ℕ)
    → AreClamped (limit_of reg) reg.state
    → Regulates reg trains (regulate_loop reg line first trains target now)
unfolding regulate_loop regulate_train command_for
regulate_loop-Regulates reg line first [] target now h =
    ([], (reg, (refl, (tt, (refl, (h, refl))))))
regulate_loop-Regulates reg line first (train ∷ rest) target now h =
    let (measured, m) = measured_headway_ms-Returns train (ahead_of first rest) line in
    let e = sub_ℕ measured (target * 1000) in
    let before = state_or now (Map.get reg.state train.train_id) in
    let st = integrated reg before e now in
    let (cmd, reg') = regulate_train reg train measured target now in
    let kept =
      set-AreClamped (limit_of reg) reg.state train.train_id st h
        (integrated-IsClamped reg before e now) in
    let (cmds, (reg'', (returned, (bounded, (ids, (clamped, same)))))) =
      regulate_loop-Regulates reg' line first rest target now kept in
    (
      cmd ∷ cmds,
      (
        reg'',
        (
          rw (m, returned) refl,
          (
            (command_for-IsBounded reg train.train_id measured target st, bounded),
            (rw ids refl, (clamped, same)),
          ),
        ),
      ),
    )

-- The trains, if there are two of them or more
abbrev pub two_or_none : List TrainState → List TrainState
two_or_none (t ∷ u ∷ rest) = t ∷ u ∷ rest
two_or_none _ = []

regulate_active-Regulates :
    (reg : HeadwayRegulator) (line : RegulatedLine) (active : List TrainState) (now : ℕ)
    → AreClamped (limit_of reg) reg.state
    → Regulates reg
        (two_or_none active)
        (regulate_active reg line active (resolve_setpoint line (length active)).setpoint_s now)
unfolding regulate_active resolve_setpoint
regulate_active-Regulates reg line [] now h = ([], (reg, (refl, (tt, (refl, (h, refl))))))
regulate_active-Regulates reg line (t ∷ []) now h = ([], (reg, (refl, (tt, (refl, (h, refl))))))
regulate_active-Regulates reg line (t ∷ u ∷ rest) now h =
    (regulate_loop-Regulates reg (line_of line) t (t ∷ u ∷ rest) _ now h)

-- A cycle of the regulation always comes to a result, with its loops ended: one command for each train
-- that is not stale, in their order, when there are two of them or more, and else none. Every dwell
-- lies between 20 and 90 s, a train coasts by 4 to 8 % or not at all, and only when its dwell is 90 s
-- and its interval 60 s short or more; and the integrals remain within their bounds.
pub regulate-Regulates :
    (reg : HeadwayRegulator) (line : RegulatedLine) (trains : List TrainState) (now : ℕ)
    → AreClamped (limit_of reg) reg.state
    → let active = keep (λ (t : TrainState). not t.stale) trains in
      Regulates reg (two_or_none active) (regulate reg line trains now)
unfolding regulate
regulate-Regulates reg line trains now h =
    regulate_active-Regulates reg line (keep (λ (t : TrainState). not t.stale) trains) now h
