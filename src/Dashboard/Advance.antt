-- ===== src/Dashboard/Advance.antt =====
-- apps/cco-dashboard/src/state/reducer.ts: the advance of the trams in a tick, and the log. A tram goes
-- one unit in a millisecond, so the step of a tick is its time. Arithmetic is exact, and so the margin
-- `EPS` of the code is 0.
pub mod Moves
pub mod Separation
pub mod Zones
use railsentinel.Prelude.{
  ℕ, zero, suc, ◌+◌, ◌-◌, String, List, [], ◌∷◌, ◌++◌, map, Option, none, some, Bool, ltb, leb,
  str_eq, if◌then◌else◌,
}
use railsentinel.Prelude.Int.{ℤ, pos, ◌+ℤ◌, sub_ℕ}
use railsentinel.Prelude.Map.{is_some}
use railsentinel.Prelude.Text.{◌+++◌}
use railsentinel.Dashboard.State.{
  HoldReason, at_restriction, train_ahead, TrainState, RestrictionState, LogText, LogEntry, system,
  CcoState,
}
use railsentinel.Dashboard.Line.{wrap, forward, is_inside}

-- `MIN_GAP`, 0.045 of the loop
abbrev pub min_gap : ℕ
min_gap = 63_990

-- `HOLD_MARGIN`, 0.012 of the loop
abbrev pub hold_margin : ℕ
hold_margin = 17_064

abbrev pub log_cap : ℕ
log_cap = 200

-- `slice(0, n)`
unfoldable pub take {ℓ} : {A : Type ℓ} → ℕ → List A → List A
take zero xs = []
take (suc n) [] = []
take (suc n) (x ∷ xs) = x ∷ take n xs

unfoldable pub with_log : CcoState → LogText → CcoState
with_log s text = record s {
  log = take log_cap (record { seq = s.next_seq; entry = text } ∷ s.log);
  next_seq = suc s.next_seq;
}

pub record Constraint : Type 0 where
  pub distance : ℕ
  pub position : ℕ
  pub reason : HoldReason

-- `if (!best || distance < best.distance) best = candidate`
unfoldable pub nearer : Option Constraint → Constraint → Option Constraint
nearer none c = some c
nearer (some b) c = some (if ltb c.distance b.distance then c else b)

unfoldable pub hold_at : RestrictionState → ℕ
hold_at r = wrap (sub_ℕ r.range.0 hold_margin)

unfoldable pub stop_before : TrainState → RestrictionState → Constraint
unfolding hold_at
stop_before train r = record {
  distance = forward train.t (hold_at r);
  position = hold_at r;
  reason = at_restriction r.id r.section_id;
}

-- `r.cleared || isInside(train.t, r.range)`
unfoldable pub is_ignored : TrainState → RestrictionState → Bool
is_ignored train r = if is_some r.cleared then Bool.true else is_inside train.t r.range

unfoldable pub restriction_loop :
    TrainState → List RestrictionState → Option Constraint → Option Constraint
unfolding nearer stop_before is_ignored
restriction_loop train [] best = best
restriction_loop train (r ∷ rest) best =
    let skipped = restriction_loop train rest best in
    let taken = restriction_loop train rest (nearer best (stop_before train r)) in
    if is_ignored train r then skipped else taken

-- `Math.max(0, forward(train.t, other.t) - MIN_GAP)`
unfoldable pub room : ℕ → ℕ → ℕ
room from to = forward from to - min_gap

unfoldable pub stop_behind : TrainState → TrainState → Constraint
unfolding room
stop_behind train other = record {
  distance = room train.t other.t;
  position =
      if ltb min_gap (forward train.t other.t) then wrap (sub_ℕ other.t min_gap) else train.t;
  reason = train_ahead other.id;
}

unfoldable pub train_loop : TrainState → List TrainState → Option Constraint → Option Constraint
unfolding nearer stop_behind
train_loop train [] best = best
train_loop train (other ∷ rest) best =
    let skipped = train_loop train rest best in
    let taken = train_loop train rest (nearer best (stop_behind train other)) in
    if str_eq other.id train.id then skipped else taken

unfoldable pub nearest_constraint : TrainState → CcoState → Option Constraint
unfolding restriction_loop train_loop
nearest_constraint train s = train_loop train s.trains (restriction_loop train s.restrictions none)

-- The tram after the step, by the nearest constraint
unfoldable pub moved : TrainState → Option Constraint → ℕ → TrainState
moved train none step = record train {
  t = wrap (pos (train.t + step));
  dev = train.dev +ℤ pos 0;
  hold = none;
}
moved train (some c) step =
    if leb c.distance step
    then record train {
      t = c.position;
      dev = train.dev +ℤ pos (step - c.distance);
      hold = if ltb c.distance step then some c.reason else none;
    }
    else record train { t = wrap (pos (train.t + step)); dev = train.dev +ℤ pos 0; hold = none }

unfoldable pub advance_train : CcoState → ℕ → TrainState → TrainState
unfolding nearest_constraint moved
advance_train s step train = moved train (nearest_constraint train s) step

-- What the tick reports of one tram, from the hold before and the hold after
unfoldable pub event_of : String → Option HoldReason → Option HoldReason → List String
event_of id (some (at_restriction i s)) (some (at_restriction j z)) = []
event_of id (some (at_restriction i s)) _ = (id +++ " retomou marcha em direção a " +++ s) ∷ []
event_of id _ (some (at_restriction j z)) =
    (id +++ " parado antes de " +++ z +++ " — aguardando liberação de " +++ j) ∷ []
event_of id _ _ = []

unfoldable pub events_of : CcoState → ℕ → List TrainState → List String
unfolding event_of advance_train
events_of s step [] = []
events_of s step (train ∷ rest) =
    event_of train.id train.hold (advance_train s step train).hold ++ events_of s step rest

unfoldable pub log_events : CcoState → String → List String → CcoState
unfolding with_log
log_events s at [] = s
log_events s at (text ∷ rest) =
    log_events (with_log s (record { at = at; kind = system; operator = none; text = text })) at
      rest

unfoldable pub advance_trains : CcoState → ℕ → String → CcoState
unfolding advance_train events_of log_events
advance_trains s zero at = s
advance_trains s (suc n) at =
    log_events (record s { trains = map (advance_train s (suc n)) s.trains }) at
      (events_of s (suc n) s.trains)
