-- ===== src/Ats/Traversal.antt =====
-- services/ats-core/src/topology.ts: the times to run over the network, in whole milliseconds. The
-- speeds of the network divide 3600, so a metre takes a whole number of milliseconds in each section.
pub mod Ends
use railsentinel.Prelude.{
  ℕ, zero, suc, ◌+◌, ◌-◌, ◌*◌, ◌/◌, ◌%◌, min, List, [], ◌∷◌, Option, none, some, Bool, true, false,
  ◌&&◌, leb, ltb, get_elem?, length, if◌then◌else◌,
}
use railsentinel.Prelude.Map.{is_some}
use railsentinel.Contracts.Types.{Line}
use railsentinel.Ats.Topology.{ordered_sections, line_length_m}
use railsentinel.Ats.Topology.Network.{TrackSection}

-- `(metres / 1000 / speed) * 3600` seconds
unfoldable pub run_ms : ℕ → TrackSection → ℕ
run_ms metres s = metres * 3600 / s.line_speed_kmh

unfoldable pub nominal_run_time_ms : TrackSection → ℕ
unfolding run_ms
nominal_run_time_ms s = run_ms s.length_m s

abbrev pub next_index : Option (ℕ × ℕ) → Option (ℕ × ℕ)
next_index none = none
next_index (some (i, offset)) = some (suc i, offset)

-- The index of the section that holds the position, and the offset in it
unfoldable pub locate : ℕ → List (TrackSection × ℕ) → Option (ℕ × ℕ)
locate pos [] = none
locate pos ((s, start) ∷ rest) =
    let later = next_index (locate pos rest) in
    if leb start pos && ltb pos (start + s.length_m) then some (0, pos - start) else later

-- `if (idx < 0) idx = 0`
unfoldable pub or_first : ℕ → Option (ℕ × ℕ) → ℕ × ℕ
or_first pos none = (0, pos)
or_first pos (some p) = p

abbrev pub dwell_at : ℕ → Option (TrackSection × ℕ) → ℕ
dwell_at dwell none = 0
dwell_at dwell (some (s, start)) = if is_some s.stop_id then dwell else 0

-- The `while` loop, with `fuel` rounds at most; `none` when they do not suffice, or no section has
-- the index. At the end of a section it goes over to the next, the last one's next being the first.
unfoldable pub traversal_loop :
    ℕ → List (TrackSection × ℕ) → (dwell idx offset remaining t : ℕ) → Option ℕ
unfolding run_ms
traversal_loop zero ordered dwell idx offset remaining t = none
traversal_loop (suc fuel) ordered dwell idx offset zero t = some t
traversal_loop (suc fuel) ordered dwell idx offset (suc r) t = elim (get_elem? ordered idx) [
  | none ↦ none
  | some (s, start) ↦
      let step = min (suc r) (s.length_m - offset) in
      let left = suc r - step in
      let t' = t + run_ms step s in
      let next = (idx + 1) % length ordered in
      let over =
        traversal_loop fuel ordered dwell next 0 left
          (t' + dwell_at dwell (get_elem? ordered next)) in
      let within = traversal_loop fuel ordered dwell idx (offset + step) left t' in
      if leb s.length_m (offset + step) && ltb 0 left then over else within
]

-- A round takes at least a metre, so one more round than metres is enough.
unfoldable pub traversal_in : List (TrackSection × ℕ) → (total from gap dwell : ℕ) → Option ℕ
unfolding locate or_first traversal_loop
traversal_in [] total from gap dwell = some 0
traversal_in (p ∷ rest) total from zero dwell = some 0
traversal_in (p ∷ rest) total from (suc g) dwell =
    let pos = from % total in
    let (idx, offset) = or_first pos (locate pos (p ∷ rest)) in
    let remaining = min (suc g) total in
    traversal_loop (suc remaining) (p ∷ rest) dwell idx offset remaining 0

unfoldable pub traversal_time_ms : Line → (from gap dwell : ℕ) → Option ℕ
unfolding traversal_in
traversal_time_ms line from gap dwell =
    traversal_in (ordered_sections line) (line_length_m line) from gap dwell
