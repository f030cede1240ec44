-- ===== src/Ats/Tsp/Inhibition.antt =====
-- services/ats-core/src/tsp.ts: no evaluation, feedback or outcome resumes priority at a crossing.
use railsentinel.Prelude.{ℕ, ◌≡◌, refl, String, Option, none, some, arith}
use railsentinel.Prelude.Map
use railsentinel.Contracts.Types.{IntegrityClass}
use railsentinel.Contracts.Topics.{nonempty}
use railsentinel.Ats.Runtime.{Runtime}
use railsentinel.Ats.SafetyGuard.{SafetyGuard}
use railsentinel.Ats.Topology.{get_section, get_crossing}
use railsentinel.Ats.Topology.Network.{TrackSection, Crossing}
use railsentinel.Ats.Fleet.{TrainState}
use railsentinel.Ats.Tsp.{
  still_flying, evaluate_delay, evaluate_crossing, evaluate_at, evaluate_named, evaluate_in,
  evaluate, request, observe, record_outcome,
}
use railsentinel.Ats.Tsp.Types.{TspController, TspEvaluation, Flight, CrossingFeedback, GrantResult}

-- The same crossings are without priority.
abbrev Inhibits : TspController → TspEvaluation × TspController × SafetyGuard → Type 0
Inhibits t (e, t', g') = t'.inhibited ≡ t.inhibited

module _ (runtime : Runtime) where
  evaluate_delay-Inhibits :
      (t : TspController) (g : SafetyGuard) (train : TrainState) (section : TrackSection)
      (crossing : Crossing) (cls : IntegrityClass) (event : String) (now : ℕ)
      → Inhibits t (evaluate_delay runtime t g train section crossing cls event now)
  unfolding evaluate_delay request
  evaluate_delay-Inhibits t g train section crossing cls event now = ground arith

  evaluate_crossing-Inhibits :
      (t : TspController) (g : SafetyGuard) (train : TrainState) (section : TrackSection)
      (crossing : Crossing) (o : Option String) (f : Option Flight) (cls : IntegrityClass)
      (event : String) (now : ℕ)
      → Inhibits t (evaluate_crossing runtime t g train section crossing o f cls event now)
  unfolding evaluate_crossing
  evaluate_crossing-Inhibits t g train section crossing (some reason) f cls event now = refl
  evaluate_crossing-Inhibits t g train section crossing none f cls event now =
      ground (arith, evaluate_delay-Inhibits t g train section crossing cls event now)

  evaluate_at-Inhibits :
      (t : TspController) (g : SafetyGuard) (train : TrainState) (section : TrackSection)
      (o : Option Crossing) (cls : IntegrityClass) (event : String) (now : ℕ)
      → Inhibits t (evaluate_at runtime t g train section o cls event now)
  unfolding evaluate_at
  evaluate_at-Inhibits t g train section none cls event now = refl
  evaluate_at-Inhibits t g train section (some crossing) cls event now =
      evaluate_crossing-Inhibits t g train section crossing (Map.get t.inhibited crossing.id)
        (still_flying (Map.get t.in_flight crossing.id) now) cls event now

  evaluate_named-Inhibits :
      (t : TspController) (g : SafetyGuard) (train : TrainState) (section : TrackSection)
      (o : Option String) (cls : IntegrityClass) (event : String) (now : ℕ)
      → Inhibits t (evaluate_named runtime t g train section o cls event now)
  unfolding evaluate_named
  evaluate_named-Inhibits t g train section none cls event now = refl
  evaluate_named-Inhibits t g train section (some name) cls event now =
      evaluate_at-Inhibits t g train section (get_crossing name) cls event now

  evaluate_in-Inhibits :
      (t : TspController) (g : SafetyGuard) (train : TrainState) (o : Option TrackSection)
      (cls : IntegrityClass) (event : String) (now : ℕ)
      → Inhibits t (evaluate_in runtime t g train o cls event now)
  unfolding evaluate_in
  evaluate_in-Inhibits t g train none cls event now = refl
  evaluate_in-Inhibits t g train (some section) cls event now =
      evaluate_named-Inhibits t g train section (nonempty section.crossing_id) cls event now

  pub evaluate-Inhibits :
      (t : TspController) (g : SafetyGuard) (train : TrainState) (cls : IntegrityClass)
      (event : String) (now : ℕ)
      → (evaluate runtime t g train cls event now).1.inhibited ≡ t.inhibited
  unfolding evaluate
  evaluate-Inhibits t g train cls event now =
      evaluate_in-Inhibits t g train (get_section train.section_id) cls event now

pub observe-inhibited :
    (t : TspController) (fb : CrossingFeedback) → (observe t fb).inhibited ≡ t.inhibited
unfolding observe
observe-inhibited t fb = refl

pub record_outcome-inhibited :
    (t : TspController) (r : GrantResult) → (record_outcome t r).inhibited ≡ t.inhibited
unfolding record_outcome
record_outcome-inhibited t r = ground arith
