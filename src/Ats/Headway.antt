-- ===== src/Ats/Headway.antt =====
-- services/ats-core/src/headway.ts: the regulation of the headway. Times are whole milliseconds, and the
-- integral is in nanoseconds, in which every product of an error, a time and a gain is whole: a gain is
-- in hundredths (`kp`) or thousandths (`ki`).
pub mod Setpoint
pub mod Bounds
use railsentinel.Prelude.{
  ℕ, zero, suc, ◌+◌, ◌-◌, ◌*◌, ◌/◌, ◌%◌, min, max, String, List, [], ◌∷◌, Option, none, some, Bool,
  true, false, not, ◌&&◌, leb, ltb, length, keep, get_elem?, if◌then◌else◌, ◌>>=◌,
}
use railsentinel.Prelude.Int.{ℤ, pos, negsuc, pos_part, neg_part, ◌+ℤ◌, ◌-ℤ◌, ◌*ℤ◌, sub_ℕ, ltb_ℤ}
use railsentinel.Prelude.Map
use railsentinel.Prelude.Map.{Map, is_some}
use railsentinel.Prelude.Text.{◌+++◌, decimal}
use railsentinel.Contracts.Types.{Line, l1, l2}
use railsentinel.Ats.Fleet.{TrainState}
use railsentinel.Ats.Topology.{line_length_m, same_line}
use railsentinel.Ats.Topology.Network.{TrackSection, sections}
use railsentinel.Ats.Traversal.{nominal_run_time_ms, traversal_time_ms}
use railsentinel.Ats.Headway.Setpoint.{
  RegulatedLine, coast_max_pct, coast_min_pct, dwell_max_s, dwell_min_s, dwell_nominal_s, line_of,
  resolve_setpoint,
}

pub record RegulationCommand : Type 0 where
  pub train_id : String
  pub dwell_s : ℕ
  pub dwell_delta_s : ℤ
  pub coast_pct : ℕ
  pub headway_error_s : ℤ
  pub setpoint_s : ℕ
  pub rationale : String

pub record ControllerState : Type 0 where
  pub integral : ℤ
  pub last_update : ℕ

pub record HeadwayRegulator : Type 0 where
  pub kp_hundredths : ℕ
  pub ki_thousandths : ℕ
  pub integral_clamp_s : ℕ
  pub state : Map ControllerState

-- the constructor's defaults
abbrev pub new : HeadwayRegulator
new = record { kp_hundredths = 51; ki_thousandths = 17; integral_clamp_s = 240; state = [] }

-- `Math.min(hi, Math.max(lo, v))` with bounds of either sign
unfoldable pub clamp : ℤ → ℤ → ℤ → ℤ
clamp v lo hi = let low = if ltb_ℤ v lo then lo else v in if ltb_ℤ hi low then hi else low

-- `Math.round` of a number of `2 * half` parts, a half being rounded up
unfoldable pub round_parts : (half : ℕ) → ℤ → ℤ
round_parts half (pos n) = pos ((n + half) / (2 * half))
round_parts half (negsuc n) = sub_ℕ 0 ((n + half) / (2 * half))

unfoldable pub measured_headway_ms : TrainState → TrainState → Line → Option ℕ
measured_headway_ms train ahead line =
    let gap =
      if leb ahead.linear_pos_m train.linear_pos_m
      then ahead.linear_pos_m + line_length_m line - train.linear_pos_m
      else ahead.linear_pos_m - train.linear_pos_m in
    traversal_time_ms line train.linear_pos_m gap (dwell_nominal_s * 1000)

abbrev pub state_or : ℕ → Option ControllerState → ControllerState
state_or now none = record { integral = pos 0; last_update = now }
state_or now (some st) = st

-- The state of a train after an error
unfoldable pub integrated : HeadwayRegulator → ControllerState → ℤ → ℕ → ControllerState
unfolding clamp
integrated reg st error_ms now =
    let dt_ms = min 60_000 (max 1000 (now - st.last_update)) in
    let limit = reg.integral_clamp_s * 1_000_000_000 in
    record {
      integral =
          clamp (st.integral +ℤ error_ms *ℤ pos (dt_ms * reg.ki_thousandths)) (sub_ℕ 0 limit)
            (pos limit);
      last_update = now;
    }

-- The dwell in seconds, from the error and the integral
unfoldable pub dwell_for : HeadwayRegulator → ℤ → ℤ → ℕ
unfolding clamp
dwell_for reg error_ms integral =
    let u = error_ms *ℤ pos (reg.kp_hundredths * 10_000) +ℤ integral in
    let raw = pos (dwell_nominal_s * 1_000_000_000) -ℤ u in
    (pos_part (clamp raw (pos (dwell_min_s * 1_000_000_000)) (pos (dwell_max_s * 1_000_000_000)))
      + 500_000_000)
    / 1_000_000_000

-- The coasting in per cent when the dwell is at its maximum and the interval more than 60 s short
unfoldable pub coast_for : ℤ → ℕ
coast_for error_ms =
    let excess = min 180_000 (neg_part error_ms - 60_000) in
    (coast_min_pct * 180_000 + excess * (coast_max_pct - coast_min_pct) + 90_000) / 180_000

unfoldable pub is_saturated : ℤ → ℕ → Bool
is_saturated error_ms dwell = ltb 60_000 (neg_part error_ms) && leb dwell_max_s dwell

unfoldable pub rationale_for : (measured_s target : ℕ) → ℤ → (dwell coast : ℕ) → String
unfolding is_saturated
rationale_for measured_s target error_ms dwell coast =
    if is_saturated error_ms dwell
    then "Intervalo "
      +++ decimal measured_s
      +++ "s contra setpoint "
      +++ decimal target
      +++ "s. Dwell saturado em "
      +++ decimal dwell
      +++ "s; aplicando coasting de "
      +++ decimal coast
      +++ "% para dissipar o excedente sem frenagem."
    else if ltb_ℤ error_ms (pos 0)
    then "Intervalo curto ("
      +++ decimal measured_s
      +++ "s, setpoint "
      +++ decimal target
      +++ "s): prolongando dwell para "
      +++ decimal dwell
      +++ "s e recompondo o espacamento."
    else if leb dwell dwell_min_s && ltb 30_000 (pos_part error_ms)
    then "Intervalo longo ("
      +++ decimal measured_s
      +++ "s): dwell no piso de acessibilidade ("
      +++ decimal dwell_min_s
      +++ "s). Correcao adicional exige ajuste de tabela, nao de parada."
    else "Intervalo "
      +++ decimal measured_s
      +++ "s dentro da tolerancia; dwell "
      +++ decimal dwell
      +++ "s."

unfoldable pub command_for :
    HeadwayRegulator → String → (measured_ms target : ℕ) → ControllerState → RegulationCommand
unfolding dwell_for coast_for is_saturated rationale_for round_parts
command_for reg train_id measured_ms target st =
    let error_ms = sub_ℕ measured_ms (target * 1000) in
    let dwell = dwell_for reg error_ms st.integral in
    let coast = if is_saturated error_ms dwell then coast_for error_ms else 0 in
    record {
      train_id = train_id;
      dwell_s = dwell;
      dwell_delta_s = sub_ℕ dwell dwell_nominal_s;
      coast_pct = coast;
      headway_error_s = round_parts 500 error_ms;
      setpoint_s = target;
      rationale = rationale_for ((measured_ms + 500) / 1000) target error_ms dwell coast;
    }

-- One round of the loop: the command for a train, from its measured headway
unfoldable pub regulate_train :
    HeadwayRegulator
    → TrainState
    → (measured_ms target now : ℕ) → RegulationCommand × HeadwayRegulator
unfolding integrated command_for
regulate_train reg train measured_ms target now =
    let st =
      integrated reg (state_or now (Map.get reg.state train.train_id))
        (sub_ℕ measured_ms (target * 1000)) now in
    (
      command_for reg train.train_id measured_ms target st,
      record reg { state = Map.set reg.state train.train_id st },
    )

-- The train ahead of the last one is the first.
abbrev pub ahead_of : TrainState → List TrainState → TrainState
ahead_of first [] = first
ahead_of first (next ∷ rest) = next

unfoldable pub regulate_loop :
    HeadwayRegulator
    → Line
    → TrainState
    → List TrainState
    → (target now : ℕ) → Option (List RegulationCommand × HeadwayRegulator)
unfolding measured_headway_ms regulate_train
regulate_loop reg line first [] target now = some ([], reg)
regulate_loop reg line first (train ∷ rest) target now = do
  measured ← measured_headway_ms train (ahead_of first rest) line
  let (cmd, reg') = regulate_train reg train measured target now
  (cmds, reg'') ← regulate_loop reg' line first rest target now
  some (cmd ∷ cmds, reg'')

unfoldable pub regulate_active :
    HeadwayRegulator
    → RegulatedLine
    → List TrainState
    → Option ℕ
    → ℕ
    → Option (List RegulationCommand × HeadwayRegulator)
unfolding regulate_loop
regulate_active reg line (first ∷ next ∷ rest) (some target) now =
    regulate_loop reg (line_of line) first (first ∷ next ∷ rest) target now
regulate_active reg line _ _ now = some ([], reg)

-- `none` where the code throws or does not end
unfoldable pub regulate :
    HeadwayRegulator
    → RegulatedLine
    → List TrainState
    → ℕ
    → Option (List RegulationCommand × HeadwayRegulator)
unfolding regulate_active resolve_setpoint
regulate reg line trains now =
    let active = keep (λ (t : TrainState). not t.stale) trains in
    regulate_active reg line active (resolve_setpoint line (length active)).setpoint_s now

-- `reset`: an empty text is no id
unfoldable pub reset : HeadwayRegulator → Option String → HeadwayRegulator
reset reg none = record reg { state = [] }
reset reg (some train_id) = record reg {
  state = if railsentinel.Prelude.str_eq train_id "" then [] else Map.delete reg.state train_id;
}
