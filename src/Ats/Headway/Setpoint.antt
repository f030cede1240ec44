-- ===== src/Ats/Headway/Setpoint.antt =====
-- services/ats-core/src/headway.ts: the bounds of the commands, and the setpoint of a line by the number of
-- its trains. Times are whole milliseconds.
use railsentinel.Prelude.{
  ℕ, zero, suc, ◌+◌, ◌-◌, ◌*◌, ◌/◌, List, [], ◌∷◌, Option, none, some, Bool, true, not, ltb,
  if◌then◌else◌,
}
use railsentinel.Prelude.Map.{is_some}
use railsentinel.Contracts.Types.{Line, l1, l2}
use railsentinel.Ats.Topology.{same_line}
use railsentinel.Ats.Topology.Network.{TrackSection, sections}
use railsentinel.Ats.Traversal.{nominal_run_time_ms}

abbrev pub dwell_min_s : ℕ
dwell_min_s = 20

abbrev pub dwell_max_s : ℕ
dwell_max_s = 90

abbrev pub dwell_nominal_s : ℕ
dwell_nominal_s = 30

abbrev pub coast_min_pct : ℕ
coast_min_pct = 4

abbrev pub coast_max_pct : ℕ
coast_max_pct = 8

-- The lines that are regulated
pub data RegulatedLine : Type 0 where
  line_1 : RegulatedLine
  line_2 : RegulatedLine

abbrev pub line_of : RegulatedLine → Line
line_of line_1 = l1
line_of line_2 = l2

-- `TARGETS`, in seconds
abbrev pub targets : RegulatedLine → ℕ
targets line_1 = 360
targets line_2 = 1200

-- A setpoint is `none` for `Infinity`.
pub record HeadwaySetpoint : Type 0 where
  pub setpoint_s : Option ℕ
  pub timetable_s : ℕ
  pub feasible_s : Option ℕ
  pub cycle_time_s : ℕ
  pub trains : ℕ
  pub infeasible : Bool

unfoldable pub cycle_loop : Line → List TrackSection → (total stops : ℕ) → ℕ
unfolding nominal_run_time_ms
cycle_loop line [] total stops = total + stops * (dwell_nominal_s * 1000)
cycle_loop line (s ∷ rest) total stops =
    let skipped = cycle_loop line rest total stops in
    let ran = cycle_loop line rest (total + nominal_run_time_ms s) in
    let stopping = ran (stops + 1) in
    let passing = ran stops in
    if not (same_line s.line line) then skipped else if is_some s.stop_id then stopping else passing

unfoldable pub cycle_time_ms : RegulatedLine → ℕ
unfolding cycle_loop
cycle_time_ms line = cycle_loop (line_of line) sections 0 0

-- `Math.round` of milliseconds over `n`, to seconds
unfoldable pub round_share_s : ℕ → ℕ → ℕ
round_share_s ms n = (2 * ms + 1000 * n) / (2000 * n)

unfoldable pub resolve_setpoint : RegulatedLine → ℕ → HeadwaySetpoint
unfolding cycle_time_ms round_share_s
resolve_setpoint line zero = record {
  setpoint_s = none;
  timetable_s = targets line;
  feasible_s = none;
  cycle_time_s = round_share_s (cycle_time_ms line) 1;
  trains = 0;
  infeasible = true;
}
resolve_setpoint line (suc n) = record {
  setpoint_s = some (round_share_s (cycle_time_ms line) (suc n));
  timetable_s = targets line;
  feasible_s = some (round_share_s (cycle_time_ms line) (suc n));
  cycle_time_s = round_share_s (cycle_time_ms line) 1;
  trains = suc n;
  infeasible = ltb (targets line * 1150 * suc n) (cycle_time_ms line);
}

-- `Math.ceil`
unfoldable pub trains_required_for_timetable : RegulatedLine → ℕ
unfolding cycle_time_ms
trains_required_for_timetable line =
    (cycle_time_ms line + (targets line * 1000 - 1)) / (targets line * 1000)
