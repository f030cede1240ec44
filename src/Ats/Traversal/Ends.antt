-- ===== src/Ats/Traversal/Ends.antt =====
-- services/ats-core/src/topology.ts: the loop of `traversalTimeS` comes to an end.
use native.Mathlib.Nat.{mod-lt}
use railsentinel.Prelude.{
  ℕ, zero, suc, ◌+◌, ◌-◌, ◌%◌, ◌≤◌, ◌<◌, min, ◌≡◌, ◌⊎◌, refl, List, [], ◌∷◌, Option, some, true,
  false, ◌&&◌, leb, ltb, get_elem?, length, All, arith, Bool-cases, inl, inr,
}
use railsentinel.Contracts.Types.{Line, l1, l2, l3}
use railsentinel.Ats.Topology.{ordered_from, ordered_sections, length_of, line_length_m, same_line}
use railsentinel.Ats.Topology.Network.{TrackSection, sections}
use railsentinel.Ats.Traversal.{
  run_ms, locate, or_first, dwell_at, traversal_loop, traversal_in, traversal_time_ms,
}

-- The offset lies within the section of the index.
abbrev pub StandsAt : List (TrackSection × ℕ) → ℕ → ℕ → Type 0
StandsAt ordered idx offset =
    (p : TrackSection × ℕ) × ((get_elem? ordered idx ≡ some p) × (offset < p.0.length_m))

abbrev pub AreLong : List (TrackSection × ℕ) → Type 0
AreLong = All (λ p. 0 < p.0.length_m)

-- The start of every section that there is
StandsAt-start :
    (ordered : List (TrackSection × ℕ)) (idx : ℕ)
    → AreLong ordered
    → idx < length ordered
    → StandsAt ordered idx 0
StandsAt-start [] idx long h = ground arith
StandsAt-start (p ∷ rest) zero long h = (p, (refl, long.0))
StandsAt-start (p ∷ rest) (suc idx) long h = StandsAt-start rest idx long.1 (omega arith)

StandsAt-lt :
    (ordered : List (TrackSection × ℕ)) (idx offset : ℕ)
    → StandsAt ordered idx offset
    → idx < length ordered
StandsAt-lt [] idx offset (p, (e, h)) = ground arith
StandsAt-lt (q ∷ rest) zero offset at = omega arith
StandsAt-lt (q ∷ rest) (suc idx) offset at = omega (arith, StandsAt-lt rest idx offset at)

next_lt : (idx n : ℕ) → idx < n → (idx + 1) % n < n
next_lt idx zero h = ground arith
next_lt idx (suc n) h = omega arith

abbrev Returns : Option ℕ → Type 0
Returns o = (t : ℕ) × (o ≡ some t)

traversal_loop-Returns :
    (fuel : ℕ) (ordered : List (TrackSection × ℕ)) (dwell idx offset remaining t : ℕ)
    → AreLong ordered
    → (remaining ≡ 0) ⊎ StandsAt ordered idx offset
    → remaining < fuel
    → Returns (traversal_loop fuel ordered dwell idx offset remaining t)
unfolding traversal_loop
traversal_loop-Returns zero ordered dwell idx offset remaining t long at h = ground arith
traversal_loop-Returns (suc fuel) ordered dwell idx offset zero t long at h = (t, refl)
traversal_loop-Returns (suc fuel) ordered dwell idx offset (suc r) t long (inl e) h = ground arith
traversal_loop-Returns (suc fuel) ordered dwell idx offset (suc r) t long (inr (p, (e, inside))) h =
    let step = min (suc r) (p.0.length_m - offset) in
    let left = suc r - step in
    let next = (idx + 1) % length ordered in
    let falls : left < fuel = omega arith in
    let lt = StandsAt-lt ordered idx offset (p, (e, inside)) in
    elim (Bool-cases (leb p.0.length_m (offset + step) && ltb 0 left)) [
      | inl over ↦
          rw (e, over, traversal_loop)
            (traversal_loop-Returns fuel ordered dwell next 0 left
              (t + run_ms step p.0 + dwell_at dwell (get_elem? ordered next)) long
              (inr (StandsAt-start ordered next long (next_lt idx (length ordered) lt))) falls)
      | inr within ↦
          let stands : (left ≡ 0) ⊎ (offset + step < p.0.length_m) = ground arith in
          rw (e, within, traversal_loop)
            (traversal_loop-Returns fuel ordered dwell idx (offset + step) left
              (t + run_ms step p.0) long
              (elim stands [ inl done ↦ inl done | inr on ↦ inr (p, (e, on)) ]) falls)
    ]

-- The section that `locate` finds, with its offset
abbrev pub IsLocated : ℕ → List (TrackSection × ℕ) → Type 0
IsLocated pos ordered =
    (idx : ℕ) × ((offset : ℕ) × ((locate pos ordered ≡ some (idx, offset))
        × StandsAt ordered idx offset))

IsLocated-here :
    (pos start : ℕ) (s : TrackSection) (rest : List (TrackSection × ℕ))
    → start ≤ pos
    → pos < start + s.length_m
    → IsLocated pos ((s, start) ∷ rest)
unfolding locate
IsLocated-here pos start s rest h k =
    let inside : (leb start pos && ltb pos (start + s.length_m)) ≡ true = ground arith in
    (0, (pos - start, (rw inside refl, ((s, start), (refl, omega arith)))))

IsLocated-later :
    (pos start : ℕ) (s : TrackSection) (rest : List (TrackSection × ℕ))
    → ltb pos (start + s.length_m) ≡ false
    → IsLocated pos rest
    → IsLocated pos ((s, start) ∷ rest)
unfolding locate
IsLocated-later pos start s rest h (idx, (offset, (e, at))) =
    let outside : (leb start pos && ltb pos (start + s.length_m)) ≡ false = ground arith in
    (suc idx, (offset, (rw (outside, e) refl, at)))

-- Sections that follow each other cover the line.
ordered_from-IsLocated :
    (line : Line) (network : List TrackSection) (acc pos : ℕ)
    → acc ≤ pos
    → pos < acc + length_of line network
    → IsLocated pos (ordered_from line acc network)
unfolding ordered_from length_of
ordered_from-IsLocated line [] acc pos h k = ground arith
ordered_from-IsLocated line (s ∷ rest) acc pos h k = elim (Bool-cases (same_line s.line line)) [
  | inr other ↦
      let k' : pos < acc + length_of line rest = rw other at (k) in
      rw other (ordered_from-IsLocated line rest acc pos h k')
  | inl same ↦
      let k' : pos < acc + (s.length_m + length_of line rest) = rw same at (k) in
      elim (Bool-cases (ltb pos (acc + s.length_m))) [
        | inl here ↦ rw same (IsLocated-here pos acc s _ h (ground arith))
        | inr later ↦ rw same (
            IsLocated-later pos acc s _ later (
              ordered_from-IsLocated line rest (acc + s.length_m) pos (ground arith) (omega arith)))
      ]
]

traversal_in-Returns :
    (ordered : List (TrackSection × ℕ)) (total from gap dwell : ℕ)
    → AreLong ordered
    → ((pos : ℕ) → pos < total → IsLocated pos ordered)
    → 0 < total
    → Returns (traversal_in ordered total from gap dwell)
unfolding traversal_in or_first
traversal_in-Returns [] total from gap dwell long found h = (0, refl)
traversal_in-Returns (p ∷ rest) total from zero dwell long found h = (0, refl)
traversal_in-Returns (p ∷ rest) total from (suc g) dwell long found h =
    let (idx, (offset, (e, at))) = found (from % total) (mod-lt from h) in
    rw e (
      traversal_loop-Returns (suc (min (suc g) total)) (p ∷ rest) dwell idx offset
        (min (suc g) total) 0 long (inr at) (omega arith))

-- On every line, from every position and for every gap, the time to run it is computed: the loop ends,
-- as the sections of the network follow each other without a hole and none has the length 0.
pub traversal_time_ms-Returns :
    (line : Line) (from gap dwell : ℕ) → (t : ℕ) × (traversal_time_ms line from gap dwell ≡ some t)
unfolding traversal_time_ms ordered_sections line_length_m
traversal_time_ms-Returns l1 from gap dwell =
    traversal_in-Returns (ordered_sections l1) (line_length_m l1) from gap dwell
      (omega arith, (omega arith, (omega arith, (omega arith, tt))))
      (λ pos h. ordered_from-IsLocated l1 sections 0 pos (omega arith) h) (omega arith)
traversal_time_ms-Returns l2 from gap dwell =
    traversal_in-Returns (ordered_sections l2) (line_length_m l2) from gap dwell
      (
        omega arith,
        (
          omega arith,
          (omega arith, (omega arith, (omega arith, (omega arith, (omega arith, tt))))),
        ),
      )
      (λ pos h. ordered_from-IsLocated l2 sections 0 pos (omega arith) h) (omega arith)
traversal_time_ms-Returns l3 from gap dwell = (0, refl)
