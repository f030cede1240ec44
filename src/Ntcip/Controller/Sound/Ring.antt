-- ===== src/Ntcip/Controller/Sound/Ring.antt =====
-- The ring of phases: the next phase exists and is configured.
use mathlib.Core.Path.{subst}
use native.Mathlib.Nat.{mod-lt}
use railsentinel.Prelude.{
  ℕ, zero, suc, ◌%◌, ◌<◌, ◌≡◌, refl, inl, inr, List, [], ◌∷◌, Option, none, some, All, length,
  get_elem?, ◌==◌, arith, Bool-cases, Option-cases,
}
use railsentinel.Ntcip.Controller.{phase_config, place_after, ring_next, next_phase}
use railsentinel.Ntcip.Controller.Types.{PhaseConfig, ControllerState}

abbrev pub Configured : List PhaseConfig → ℕ → Type 0
Configured phases p = (cfg : PhaseConfig) × (phase_config phases p ≡ some cfg)

pub phase_config-All {ℓ} :
    (P : PhaseConfig → Type ℓ) (phases : List PhaseConfig) (p : ℕ) (cfg : PhaseConfig)
    → All P phases
    → phase_config phases p ≡ some cfg
    → P cfg
unfolding phase_config
phase_config-All P [] p cfg a e = absurd (ground arith)
phase_config-All P (x ∷ xs) p cfg a e = elim (Bool-cases (x.phase == p)) [
  | inl here ↦ subst P (let same : x ≡ cfg = ground arith in same) a.0
  | inr there ↦ phase_config-All P xs p cfg a.1 (ground arith)
]

pub get_elem?_total :
    (xs : List PhaseConfig) (i : ℕ) → i < length xs → (p : PhaseConfig) × (get_elem? xs i ≡ some p)
get_elem?_total [] i h = absurd (omega arith)
get_elem?_total (x ∷ xs) zero h = (x, refl)
get_elem?_total (x ∷ xs) (suc i) h = get_elem?_total xs i (omega arith)

-- A phase that stands in the plan is found there.
get_elem?-Configured :
    (xs : List PhaseConfig) (i : ℕ) (p : PhaseConfig)
    → get_elem? xs i ≡ some p
    → Configured xs p.phase
unfolding phase_config
get_elem?-Configured [] i p e = absurd (ground arith)
get_elem?-Configured (x ∷ xs) zero p e = (x, ground arith)
get_elem?-Configured (x ∷ xs) (suc i) p e = elim (Bool-cases (x.phase == p.phase)) [
  | inl here ↦ (x, rw here)
  | inr there ↦ let (cfg, found) = get_elem?-Configured xs i p e in (cfg, rw there found)
]

-- A plan in which some phase is found has a first phase.
pub first_exists :
    (phases : List PhaseConfig) (p : ℕ)
    → Configured phases p
    → (first : PhaseConfig) × (get_elem? phases 0 ≡ some first)
unfolding phase_config
first_exists [] p c = absurd (ground (arith, c.1))
first_exists (x ∷ xs) p c = (x, refl)

pub place_in_range :
    (phases : List PhaseConfig) (k : ℕ) {first : PhaseConfig}
    → get_elem? phases 0 ≡ some first
    → k % length phases < length phases
place_in_range [] k e = absurd (ground arith)
place_in_range (x ∷ xs) k e = mod-lt k (omega arith)

ring_next_configured :
    (phases : List PhaseConfig) (active : ℕ)
    → Configured phases active
    → (p : ℕ) × (ring_next phases active ≡ some p) × Configured phases p
unfolding ring_next
ring_next_configured phases active c =
    let (first, e) = first_exists phases active c in
    let k = place_after phases active % length phases in
    let (p, found) =
      get_elem?_total phases k (place_in_range phases (place_after phases active) e) in
    (p.phase, rw found refl, get_elem?-Configured phases k p found)

-- The next phase is configured; nothing else of the state changes but the pending call.
pub next_phase_configured :
    (phases : List PhaseConfig) (st : ControllerState)
    → Configured phases st.active_phase
    → (p : ℕ) × (call : Option ℕ) × (next_phase phases st
        ≡ some (p, record st { pending_call = call }))
      × Configured phases p
unfolding next_phase
next_phase_configured phases st c = elim (Option-cases st.pending_call) [
  | inl e ↦
      let (p, found, ok') = ring_next_configured phases st.active_phase c in
      (p, st.pending_call, ground (arith, found), ok')
  | inr (called, e) ↦ elim (Option-cases (phase_config phases called)) [
    | inl missing ↦
        let (p, found, ok') = ring_next_configured phases st.active_phase c in
        (p, none, ground (arith, found), ok')
    | inr (cfg, found) ↦ (called, none, ground arith, (cfg, found))
  ]
]
