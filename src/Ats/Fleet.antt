-- ===== src/Ats/Fleet.antt =====
-- services/ats-core/src/fleet.ts: the trains by their last position. Of a position the fields are
-- modelled that the supervision reads; chainages are whole metres, speeds whole km/h.
pub mod Presence
use railsentinel.Prelude.{
  ℕ, ◌+◌, ◌-◌, String, List, [], ◌∷◌, map, Option, none, some, Bool, false, not, ltb, leb, contains,
  keep, str_eq, if◌then◌else◌,
}
use railsentinel.Prelude.Int.{ℤ}
use railsentinel.Prelude.Map
use railsentinel.Prelude.Map.{Map}
use railsentinel.Contracts.Types.{Line}
use railsentinel.Ats.Runtime.{Runtime}
use railsentinel.Ats.Topology.{get_section, same_line}
use railsentinel.Ats.Topology.Network.{TrackSection, sections}

pub record TrainPosition : Type 0 where
  pub train_id : String
  pub section_id : String
  pub chainage_m : Option ℕ
  pub speed_kmh : ℕ
  pub schedule_dev_s : Option ℤ

pub record TrainState : Type 0 where
  pub position : TrainPosition
  pub open position use *
  pub updated_at : String
  pub linear_pos_m : ℕ
  pub stale : Bool

abbrev pub FleetRegistry : Type 0
FleetRegistry = Map TrainState

abbrev pub stale_after_ms : ℕ
stale_after_ms = 15_000

abbrev pub or_zero : Option ℕ → ℕ
or_zero none = 0
or_zero (some n) = n

-- the loop of `linearPosition`, which goes on to the end if the section is not met
unfoldable pub offset_of : Line → String → ℕ → List TrackSection → ℕ
offset_of line id acc [] = acc
offset_of line id acc (s ∷ rest) =
    let skipped = offset_of line id acc rest in
    let further = offset_of line id (acc + s.length_m) rest in
    if not (same_line s.line line) then skipped else if str_eq s.id id then acc else further

unfoldable pub linear_position : String → ℕ → ℕ
unfolding offset_of
linear_position section_id chainage = elim (get_section section_id) [
  | none ↦ chainage
  | some target ↦ offset_of target.line section_id 0 sections + chainage
]

unfoldable pub upsert : FleetRegistry → TrainPosition → String → TrainState × FleetRegistry
upsert fleet pos at =
    let state : TrainState = record {
      position = pos;
      updated_at = at;
      linear_pos_m = linear_position pos.section_id (or_zero pos.chainage_m);
      stale = false;
    } in
    (state, Map.set fleet pos.train_id state)

unfoldable pub get : FleetRegistry → String → Option TrainState
get fleet train_id = Map.get fleet train_id

-- `now - Date.parse(updated_at) > STALE_AFTER_MS`, which NaN never satisfies
abbrev pub is_stale : Option ℕ → ℕ → Bool
is_stale none now = false
is_stale (some at) now = ltb stale_after_ms (now - at)

module _ (runtime : Runtime) where
  unfoldable pub refreshed : ℕ → TrainState → TrainState
  refreshed now t = record t { stale = is_stale (runtime.date_parse t.updated_at) now }

  unfoldable pub in_sections : FleetRegistry → List String → ℕ → List TrainState
  unfolding refreshed
  in_sections fleet section_ids now =
      map (refreshed now) (keep (λ t. contains section_ids t.section_id) (Map.values fleet))

  unfoldable pub all : FleetRegistry → ℕ → List TrainState
  unfolding refreshed
  all fleet now = map (refreshed now) (Map.values fleet)

  -- a stable sort by the linear position
  unfoldable pub insert_by_pos : TrainState → List TrainState → List TrainState
  insert_by_pos t [] = t ∷ []
  insert_by_pos t (u ∷ us) =
      let later = insert_by_pos t us in
      if leb t.linear_pos_m u.linear_pos_m then t ∷ u ∷ us else u ∷ later

  unfoldable pub sort_by_pos : List TrainState → List TrainState
  unfolding insert_by_pos
  sort_by_pos [] = []
  sort_by_pos (t ∷ ts) = insert_by_pos t (sort_by_pos ts)

  abbrev pub on_that_line : Line → Option TrackSection → Bool
  on_that_line line none = false
  on_that_line line (some s) = same_line s.line line

  unfoldable pub on_line : FleetRegistry → Line → ℕ → List TrainState
  unfolding refreshed sort_by_pos
  on_line fleet line now = sort_by_pos (
      map (refreshed now)
        (keep (λ t. on_that_line line (get_section t.section_id)) (Map.values fleet)))
