-- ===== src/Ats/Topology.antt =====
-- services/ats-core/src/topology.ts: the track network. Lengths are whole metres, speeds whole km/h.
pub mod Network
use railsentinel.Prelude.{
  ℕ, zero, suc, ◌+◌, String, List, [], ◌∷◌, ◌++◌, map, Option, none, some, Bool, true, false, not,
  ◌&&◌, contains, keep, if◌then◌else◌,
}
use railsentinel.Prelude.Map
use railsentinel.Prelude.Map.{Map}
use railsentinel.Contracts.Types.{Line, l1, l2, l3}
use Network.{TrackSection, Crossing, sections, crossings}

abbrev pub same_line : Line → Line → Bool
same_line l1 l1 = true
same_line l2 l2 = true
same_line l3 l3 = true
same_line _ _ = false

-- `new Map(LIST.map((x) => [x.id, x]))`
unfoldable pub by_id {ℓ} : {A : Type ℓ} → (A → String) → Map A → List A → Map A
by_id key m [] = m
by_id key m (x ∷ xs) = by_id key (Map.set m (key x) x) xs

unfoldable pub get_section : String → Option TrackSection
unfolding by_id Map.set Map.get
get_section id = Map.get (by_id (λ s. s.id) [] sections) id

unfoldable pub get_crossing : String → Option Crossing
unfolding by_id Map.set Map.get
get_crossing id = Map.get (by_id (λ c. c.id) [] crossings) id

-- a section whose next one is in the frontier, and that has not been seen
abbrev pub precedes : List String → List String → TrackSection → Bool
precedes frontier seen s = elim s.next [
  | none ↦ false
  | some next ↦ contains frontier next && not (contains seen s.id)
]

abbrev pub is_nil {ℓ} : {A : Type ℓ} → List A → Bool
is_nil [] = true
is_nil (x ∷ xs) = false

-- the loop of `upstreamOf`, `depth` rounds left
unfoldable pub upstream_loop :
    List TrackSection → ℕ → List String → List String → List TrackSection → List TrackSection
upstream_loop network zero frontier seen out = out
upstream_loop network (suc depth) frontier seen out =
    let prev = keep (precedes frontier seen) network in
    let ids = map (λ (s : TrackSection). s.id) prev in
    let further = upstream_loop network depth ids (seen ++ ids) (out ++ prev) in
    if is_nil prev then out else further

unfoldable pub upstream_of : String → ℕ → List TrackSection
unfolding upstream_loop
upstream_of section_id depth = upstream_loop sections depth (section_id ∷ []) (section_id ∷ []) []

-- the sections of a line with the offset at which each starts
unfoldable pub ordered_from : Line → ℕ → List TrackSection → List (TrackSection × ℕ)
ordered_from line acc [] = []
ordered_from line acc (s ∷ rest) =
    let here = (s, acc) ∷ ordered_from line (acc + s.length_m) rest in
    let skipped = ordered_from line acc rest in
    if not (same_line s.line line) then skipped else here

unfoldable pub ordered_sections : Line → List (TrackSection × ℕ)
unfolding ordered_from
ordered_sections line = ordered_from line 0 sections

unfoldable pub length_of : Line → List TrackSection → ℕ
length_of line [] = 0
length_of line (s ∷ rest) =
    let tail = length_of line rest in if same_line s.line line then s.length_m + tail else tail

unfoldable pub line_length_m : Line → ℕ
unfolding length_of
line_length_m line = length_of line sections
